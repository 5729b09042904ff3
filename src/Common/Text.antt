-- ===== src/Common/Text.antt =====
-- Decimal text, and splitting at a character: `std::to_string`, the numbers that `strtol` and
-- `strtoul` scan, `find` and `rfind` of a character, and `getline`.
use Prim.Native.Nat.{ℕ, zero, suc, ◌+◌, ◌-◌, ◌*◌, ◌/◌, ◌%◌}
use mathlib.Core.Path.{◌≡◌, refl}
use mathlib.Core.Bool.{Bool, true, false, ◌&&◌, ◌||◌}
use mathlib.Core.Option.{Option, none, some}
use mathlib.Core.List.{List, [], ◌∷◌, ◌++◌}
use native.Mathlib.Omega.{arith}
use pseudo_fs.Common.Tests.{ltb, leb, ◌==◌, if◌then◌else◌}
use pseudo_fs.Common.Lists.{All}
use pseudo_fs.Common.CStrings.{CString}

-- The digits of n before those of `acc`; n + 1 is enough fuel.
unfoldable pub show_digits : ℕ → ℕ → CString → CString
show_digits zero n acc = acc
show_digits (suc fuel) n acc =
    let longer = show_digits fuel (n / 10) ((48 + n % 10) ∷ acc) in
    if ltb n 10 then (48 + n % 10) ∷ acc else longer

unfoldable pub to_string : ℕ → CString
unfolding show_digits
to_string n = show_digits (suc n) n []

abbrev pub is_digit : ℕ → ℕ → Bool
is_digit base c = leb 48 c && ltb c (48 + base)

-- The value of the digits at the start of a text, after those that made up `acc`.
unfoldable pub digits_value : ℕ → ℕ → CString → ℕ
digits_value base acc [] = acc
digits_value base acc (c ∷ s) =
    let rest = digits_value base (acc * base + (c - 48)) s in if is_digit base c then rest else acc

abbrev pub starts_number : ℕ → CString → Bool
starts_number base [] = false
starts_number base (c ∷ s) = is_digit base c

-- `isspace`
abbrev pub is_space : ℕ → Bool
is_space c = c == 32 || leb 9 c && leb c 13

unfoldable pub skip_spaces : CString → CString
skip_spaces [] = []
skip_spaces (c ∷ s) = let rest = skip_spaces s in if is_space c then rest else c ∷ s

-- What the C functions find at the start of a text: a sign, and digits.
pub record Scanned : Type 0 where
  pub negative : Bool
  pub any : Bool
  pub magnitude : ℕ

abbrev pub scan_unsigned : ℕ → Bool → CString → Scanned
scan_unsigned base negative s = record {
  negative = negative;
  any = starts_number base s;
  magnitude = digits_value base 0 s;
}

abbrev pub scan_signed : ℕ → CString → Scanned
scan_signed base [] = scan_unsigned base false []
scan_signed base (c ∷ s) =
    if c == b'-'
    then scan_unsigned base true s
    else if c == b'+'
    then scan_unsigned base false s
    else scan_unsigned base false (c ∷ s)

unfoldable pub scan : ℕ → CString → Scanned
unfolding skip_spaces digits_value
scan base s = scan_signed base (skip_spaces s)

-- A text split at the first and at the last of a character, which is left out.
unfoldable pub split_first : ℕ → CString → Option (CString × CString)
split_first c [] = none
split_first c (x ∷ s) =
    let behind : Option (CString × CString) = elim (split_first c s) [
      | none ↦ none
      | some (a, b) ↦ some (x ∷ a, b)
    ] in
    if x == c then some ([], s) else behind

unfoldable pub split_last : ℕ → CString → Option (CString × CString)
split_last c [] = none
split_last c (x ∷ s) = elim (split_last c s) [
  | none ↦ if x == c then some ([], s) else none
  | some (a, b) ↦ some (x ∷ a, b)
]

-- The lines that `getline` gives; what is behind the last line break is one if it is not empty.
unfoldable pub lines_from : CString → CString → List CString
lines_from [] [] = []
lines_from (x ∷ cur) [] = (x ∷ cur) ∷ []
lines_from cur (c ∷ s) =
    let ended = lines_from [] s in
    let longer = lines_from (cur ++ c ∷ []) s in if c == b'\n' then cur ∷ ended else longer

-- Trailing line breaks taken off.
unfoldable pub strip_newlines : CString → CString
strip_newlines [] = []
strip_newlines (c ∷ s) = elim (strip_newlines s) [
  | [] ↦ if c == b'\n' then [] else c ∷ []
  | x ∷ t ↦ c ∷ x ∷ t
]

-- No character of the text is c.
abbrev pub Without : ℕ → CString → Type 0
Without c s = All (λ x. (x == c) ≡ false) s

pub split_first-Without :
    (c : ℕ) (a b : CString) → Without c a → split_first c (a ++ c ∷ b) ≡ some (a, b)
unfolding split_first
split_first-Without c [] b h = let e : (c == c) ≡ true = ground arith in rw e refl
split_first-Without c (x ∷ a) b (ne, h) = rw (ne, split_first-Without c a b h) refl
