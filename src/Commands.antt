-- ===== src/Commands.antt =====
-- src/main.cpp: the handlers that `register_commands` puts into the command table. A handler works on
-- the engine and the users; `log`, `replay`, `help` and `history` use more. The arguments are those of
-- the lambda: F and fs for the engine, um, args and out.
pub mod Accounts
pub mod Dirs
pub mod Files
pub mod Descriptors
pub mod Columns
pub mod Details
pub mod Trees
pub mod Table
pub mod Laws
pub mod Pieces
pub mod Copying
pub mod FatCopy
mod Tests
use pseudo_fs.Common.{
  ℕ, zero, suc, ◌+◌, ◌-◌, ◌^◌, ◌%◌, ◌≡◌, Bool, true, false, not, ◌&&◌, List, [], ◌∷◌, ltb, leb,
  ◌++◌, ◌==◌, if◌then◌else◌,
}
use pseudo_fs.Common.Arrays.{u16_mod}
use pseudo_fs.Common.CStrings.{CString, codes}
use pseudo_fs.Common.Int.{ℤ, pos, negsuc, minus_one}
use pseudo_fs.Common.Text.{scan, to_string, Scanned}
use pseudo_fs.UserManager.{UserManager}
use pseudo_fs.Shell.Registry.{
  Outcome, returned, invalid_argument, out_of_range, Shell, Captured, Handler,
}

-- What a handler leaves: how it ends, `out`, the engine and the users.
abbrev pub Reply : Type 0 → Type 0
Reply F = Outcome × CString × F × UserManager

abbrev pub Command : Type 0 → Type 0
Command F = F → UserManager → List CString → CString → Reply F

-- `out = text; return rc;`
abbrev pub says : {F : Type 0} → ℤ → CString → F → UserManager → Reply F
says rc text u um = (returned rc, text, u, um)

abbrev pub fails : {F : Type 0} → CString → F → UserManager → Reply F
fails text u um = (returned minus_one, text, u, um)

-- `int ret = ...; if (ret != 0) out = text; return ret;`
abbrev pub is_zero : ℤ → Bool
is_zero (pos zero) = true
is_zero (pos (suc n)) = false
is_zero (negsuc n) = false

abbrev pub is_negative : ℤ → Bool
is_negative (pos n) = false
is_negative (negsuc n) = true

abbrev pub unless_zero : {F : Type 0} → CString → CString → UserManager → ℤ × F → Reply F
unless_zero text out um (rc, u) = (returned rc, if is_zero rc then out else text, u, um)

-- `std::stoi` and `std::stoul`, which throw.
pub data Number (A : Type 0) : Type 0 where
  number : A → Number A
  no_number : Number A
  too_large : Number A

abbrev pub negated : ℕ → ℤ
negated zero = pos 0
negated (suc n) = negsuc n

abbrev pub int_of : Scanned → Number ℤ
int_of n =
    if not n.any
    then no_number
    else if n.negative
    then if leb n.magnitude 2147483648 then number (negated n.magnitude) else too_large
    else if ltb n.magnitude 2147483648
    then number (pos n.magnitude)
    else too_large

unfoldable pub stoi : ℕ → CString → Number ℤ
unfolding scan
stoi base s = int_of (scan base s)

-- A minus sign negates the value in 64 bits.
abbrev pub ulong_of : Scanned → Number ℕ
ulong_of n =
    if not n.any
    then no_number
    else if leb 18446744073709551616 n.magnitude
    then too_large
    else if n.negative
    then number ((18446744073709551616 - n.magnitude) % 18446744073709551616)
    else number n.magnitude

unfoldable pub stoul : CString → Number ℕ
unfolding scan
stoul s = ulong_of (scan 10 s)

-- The rest of the handler behind such a call.
abbrev pub with_number :
    {F A : Type 0} → Number A → CString → F → UserManager → (A → Reply F) → Reply F
with_number (number n) out u um next = next n
with_number no_number out u um next = (invalid_argument, out, u, um)
with_number too_large out u um next = (out_of_range, out, u, um)

-- `static_cast<uint16_t>`
abbrev pub to_u16 : ℤ → ℕ
to_u16 (pos n) = n % u16_mod
to_u16 (negsuc n) = 65535 - n % u16_mod

abbrev pub show_int : ℤ → CString
show_int (pos n) = to_string n
show_int (negsuc n) = b'-' ∷ to_string (n + 1)

-- A handler that leaves the registry alone.
abbrev pub plain : {F : Type 0} → Command F → Handler F
plain command captured st args out =
    let (outcome, out', u, um) = command st.fs st.um args out in
    (outcome, out', record st { fs = u; um = um })
