-- ===== src/Common/CStrings.antt =====
-- C strings as the lists of their bytes before the terminating NUL, and `char name[n]` fields as the
-- strings that they hold.
use Prim.Native.Nat.{ℕ, zero, suc, ◌≤◌, ◌<◌}
use Prim.Native.Char.{code}
use Prim.Native.String.{String}
use mathlib.Core.Path.{◌≡◌, refl, ap, ap₂}
use mathlib.Core.Bool.{Bool, true, false, ◌&&◌}
use mathlib.Core.List.{List, [], ◌∷◌}
use native.Mathlib.Omega.{arith}
use pseudo_fs.Common.Tests.{◌==◌}
use pseudo_fs.Common.Lists.{length}

abbrev pub CString : Type 0
CString = List ℕ

-- The bytes of an ASCII literal.
abbrev pub codes : String → CString
codes String.[] = []
codes (String.◌∷◌ c s) = code c ∷ codes s

-- What an n-byte field holds after `strncpy(field, s, n)`, with or without room for the NUL.
abbrev pub take {ℓ} : {A : Type ℓ} → ℕ → List A → List A
take zero s = []
take (suc n) [] = []
take (suc n) (c ∷ s) = c ∷ take n s

-- What is behind the first n.
abbrev pub drop {ℓ} : {A : Type ℓ} → ℕ → List A → List A
drop zero s = s
drop (suc n) [] = []
drop (suc n) (x ∷ s) = drop n s

-- `strcmp(a, b) == 0`
unfoldable pub str_eq : CString → CString → Bool
str_eq [] [] = true
str_eq [] (d ∷ t) = false
str_eq (c ∷ s) [] = false
str_eq (c ∷ s) (d ∷ t) = c == d && str_eq s t

-- `strncmp(a, b, n) == 0`
abbrev pub strn_eq : ℕ → CString → CString → Bool
strn_eq n a b = str_eq (take n a) (take n b)

pub str_eq-eq : (a b : CString) → str_eq a b ≡ true → a ≡ b
unfolding str_eq
str_eq-eq [] [] e = refl
str_eq-eq [] (d ∷ t) e = cc
str_eq-eq (c ∷ s) [] e = cc
str_eq-eq (c ∷ s) (d ∷ t) e = ap₂ ◌∷◌ (ground arith) (str_eq-eq s t (ground arith))

pub str_eq_self : (a : CString) → str_eq a a ≡ true
unfolding str_eq
str_eq_self [] = refl
str_eq_self (c ∷ s) = ground (arith, str_eq_self s)

pub take_short {ℓ} : {A : Type ℓ} (n : ℕ) (s : List A) → length s ≤ n → take n s ≡ s
take_short zero [] p = refl
take_short zero (c ∷ s) p = elim p [ ]
take_short (suc n) [] p = refl
take_short (suc n) (c ∷ s) p = ap (λ t. c ∷ t) (take_short n s (omega arith))

pub take-take {ℓ} : {A : Type ℓ} (m n : ℕ) (s : List A) → m ≤ n → take n (take m s) ≡ take m s
take-take zero zero s p = refl
take-take zero (suc n) s p = refl
take-take (suc m) zero s p = elim p [ ]
take-take (suc m) (suc n) [] p = refl
take-take (suc m) (suc n) (c ∷ s) p = ap (λ t. c ∷ t) (take-take m n s (omega arith))

pub length-take {ℓ} : {A : Type ℓ} (n : ℕ) (s : List A) → n ≤ length s → length (take n s) ≡ n
length-take zero s p = refl
length-take (suc n) [] p = elim p [ ]
length-take (suc n) (c ∷ s) p = ap suc (length-take n s (omega arith))

-- A string that is cut short differs from the same string read one byte further.
pub take_cut : (n : ℕ) (s : CString) → n < length s → ¬ (take (suc n) (take n s) ≡ take (suc n) s)
take_cut n s p e = omega (
  arith,
  ap length e,
  ap length (take-take n (suc n) s (omega arith)),
  length-take n s (omega arith),
  length-take (suc n) s p,
)
