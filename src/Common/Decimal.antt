-- ===== src/Common/Decimal.antt =====
-- Numbers written in decimal are read back.
use Prim.Native.Nat.{ℕ, zero, suc, ◌+◌, ◌-◌, ◌*◌, ◌/◌, ◌%◌, ◌<◌}
use mathlib.Core.Path.{◌≡◌, refl, ◌∙◌}
use mathlib.Core.Logic.{inl, inr}
use mathlib.Core.Bool.{true, false}
use mathlib.Core.List.{[], ◌∷◌}
use native.Mathlib.Omega.{arith}
use pseudo_fs.Common.Tests.{ltb, ◌==◌, Bool-cases}
use pseudo_fs.Common.Lists.{All}
use pseudo_fs.Common.CStrings.{CString}
use pseudo_fs.Common.Text.{
  show_digits, to_string, is_digit, digits_value, is_space, skip_spaces, scan, scan_unsigned,
  starts_number, Without,
}

abbrev pub IsDecimal : CString → Type 0
IsDecimal s = All (λ c. is_digit 10 c ≡ true) s

last_digit : (n : ℕ) → is_digit 10 (48 + n % 10) ≡ true
last_digit n = ground arith

show_digits-IsDecimal :
    (fuel n : ℕ) (acc : CString) → IsDecimal acc → IsDecimal (show_digits fuel n acc)
unfolding show_digits
show_digits-IsDecimal zero n acc h = h
show_digits-IsDecimal (suc fuel) n acc h = elim (Bool-cases (ltb n 10)) [
  | inl e ↦ rw e (last_digit n, h)
  | inr e ↦ rw e (show_digits-IsDecimal fuel (n / 10) _ (last_digit n, h))
]

digits_value-show_digits :
    (fuel n : ℕ) (acc : CString)
    → n < fuel
    → digits_value 10 0 (show_digits fuel n acc) ≡ digits_value 10 n acc
unfolding show_digits digits_value
digits_value-show_digits zero n acc p = absurd (omega arith)
digits_value-show_digits (suc fuel) n acc p = elim (Bool-cases (ltb n 10)) [
  | inl e ↦
      let same : 0 * 10 + (48 + n % 10 - 48) ≡ n = ground arith in rw (e, last_digit n, same) refl
  | inr e ↦
      let same : n / 10 * 10 + (48 + n % 10 - 48) ≡ n = ground arith in
      rw e (
        digits_value-show_digits fuel (n / 10) ((48 + n % 10) ∷ acc) (ground arith)
        ∙ rw (last_digit n, same) refl)
]

pub to_string-IsDecimal : (n : ℕ) → IsDecimal (to_string n)
unfolding to_string
to_string-IsDecimal n = show_digits-IsDecimal (suc n) n [] tt

abbrev pub IsNumeral : CString → Type 0
IsNumeral [] = ⊥
IsNumeral (c ∷ s) = IsDecimal (c ∷ s)

scan_numeral : (s : CString) → IsNumeral s → scan 10 s ≡ scan_unsigned 10 false s
unfolding scan skip_spaces
scan_numeral [] h = absurd h
scan_numeral (c ∷ s) (e, h) =
    let a : is_space c ≡ false = ground arith in
    let b : (c == b'-') ≡ false = ground arith in
    let d : (c == b'+') ≡ false = ground arith in rw (a, b, d) refl

longer_IsNumeral : (fuel n : ℕ) (acc : CString) → IsNumeral acc → IsNumeral (show_digits fuel n acc)
unfolding show_digits
longer_IsNumeral zero n acc h = h
longer_IsNumeral (suc fuel) n (c ∷ s) h = elim (Bool-cases (ltb n 10)) [
  | inl e ↦ rw e (last_digit n, h)
  | inr e ↦ rw e (longer_IsNumeral fuel (n / 10) _ (last_digit n, h))
]
longer_IsNumeral (suc fuel) n [] h = absurd h

to_string-IsNumeral : (n : ℕ) → IsNumeral (to_string n)
unfolding to_string show_digits
to_string-IsNumeral n = elim (Bool-cases (ltb n 10)) [
  | inl e ↦ rw e (last_digit n, tt)
  | inr e ↦ rw e (longer_IsNumeral n (n / 10) _ (last_digit n, tt))
]

starts_numeral : (s : CString) → IsNumeral s → starts_number 10 s ≡ true
starts_numeral [] h = absurd h
starts_numeral (c ∷ s) (e, h) = e

to_string-value : (n : ℕ) → digits_value 10 0 (to_string n) ≡ n
unfolding to_string digits_value
to_string-value n = digits_value-show_digits (suc n) n [] (omega arith)

-- What `strtol` finds in the text of `std::to_string`.
pub scan-to_string :
    (n : ℕ) → scan 10 (to_string n) ≡ record { negative = false; any = true; magnitude = n }
scan-to_string n =
    scan_numeral (to_string n) (to_string-IsNumeral n)
    ∙ rw (starts_numeral (to_string n) (to_string-IsNumeral n), to_string-value n) refl

pub to_string-Without : (c n : ℕ) → c < 48 → Without c (to_string n)
to_string-Without c n low = without (to_string n) (to_string-IsDecimal n)
  where
    without : (s : CString) → IsDecimal s → Without c s
    without [] h = tt
    without (x ∷ s) (e, h) = (ground arith, without s h)
