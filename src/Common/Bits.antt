-- ===== src/Common/Bits.antt =====
-- `bit_and` at a variable: one bit at a time.
use Prim.Native.Nat.{ℕ, zero, suc, ◌+◌, ◌*◌, ◌/◌, ◌%◌, ◌≤◌, min, bit_and, digits, bit_and-bitwise}
use mathlib.Core.Path.{◌≡◌, refl, sym, ◌∙◌}
use native.Mathlib.Omega.{arith}

-- The recursion that `bit_and` stands for, on fuel.
abbrev conj : ℕ → ℕ → ℕ → ℕ
conj fuel a b = digits (λ d. zero) min fuel a b

conj_of_zero : (fuel b : ℕ) → conj fuel 0 b ≡ 0
conj_of_zero zero b = refl
conj_of_zero (suc fuel) b = refl

-- Fuel that is not below the first number is enough.
conj_agree : (m n a b : ℕ) → a ≤ m → a ≤ n → conj m a b ≡ conj n a b
conj_agree m n zero b p q = conj_of_zero m b ∙ sym (conj_of_zero n b)
conj_agree zero n (suc a) b p q = elim p [ ]
conj_agree (suc m) zero (suc a) b p q = elim q [ ]
conj_agree (suc m) (suc n) (suc a) b p q =
    omega (arith, conj_agree m n (suc a / 2) (b / 2) (omega arith) (omega arith))

bit_and_zero_left : (b : ℕ) → bit_and 0 b ≡ 0
bit_and_zero_left b = bit_and-bitwise 0 b

-- The lowest bit, and the rest.
pub bit_and_split : (a b : ℕ) → bit_and a b ≡ 2 * bit_and (a / 2) (b / 2) + min (a % 2) (b % 2)
bit_and_split zero b = omega (arith, bit_and_zero_left b, bit_and_zero_left (b / 2))
bit_and_split (suc a) b = omega (
  arith,
  bit_and-bitwise (suc a) b,
  bit_and-bitwise (suc a / 2) (b / 2),
  conj_agree a (suc a / 2) (suc a / 2) (b / 2) (omega arith) (omega arith),
)

none_in_common : (fuel a : ℕ) → a ≤ fuel → bit_and a 0 ≡ 0
none_in_common fuel zero p = bit_and_zero_left 0
none_in_common zero (suc a) p = elim p [ ]
none_in_common (suc fuel) (suc a) p =
    omega (arith, bit_and_split (suc a) 0, none_in_common fuel (suc a / 2) (omega arith))

pub bit_and_zero_right : (a : ℕ) → bit_and a 0 ≡ 0
bit_and_zero_right a = none_in_common a a (omega arith)

pub bit_and_one : (a : ℕ) → bit_and a 1 ≡ a % 2
bit_and_one a = omega (arith, bit_and_split a 1, bit_and_zero_right (a / 2))

pub bit_and_two : (a : ℕ) → bit_and a 2 ≡ a / 2 % 2 * 2
bit_and_two a = omega (arith, bit_and_split a 2, bit_and_one (a / 2))

pub bit_and_four : (a : ℕ) → bit_and a 4 ≡ a / 4 % 2 * 4
bit_and_four a = omega (arith, bit_and_split a 4, bit_and_two (a / 2))

pub bit_and_eight : (a : ℕ) → bit_and a 8 ≡ a / 8 % 2 * 8
bit_and_eight a = omega (arith, bit_and_split a 8, bit_and_four (a / 2))
