-- ===== src/Common/Search.antt =====
-- The search loop over the indices of an array.
use Prim.Native.Nat.{ℕ, zero, suc, ◌+◌, ◌≤◌, ◌<◌}
use mathlib.Core.Path.{◌≡◌, sym, subst}
use mathlib.Core.Logic.{inl, inr}
use mathlib.Core.Bool.{Bool, true, false}
use mathlib.Core.Option.{Option, none, some}
use native.Mathlib.Omega.{arith}
use native.Mathlib.Decide.{dec_lt}
use pseudo_fs.Common.Tests.{if◌then◌else◌, Bool-cases}

-- `for (j = i; j < i + n; j++) if (test(j)) return j;`
unfoldable pub first_index : (ℕ → Bool) → ℕ → ℕ → Option ℕ
first_index test i zero = none
first_index test i (suc n) = if test i then some i else first_index test (i + 1) n

-- What the search loop finds: the first place that passes the test, or none does.
pub first_index-some :
    (p : ℕ → Bool) (i n j : ℕ) → first_index p i n ≡ some j → (i ≤ j) × (j < i + n) × (p j ≡ true)
unfolding first_index
first_index-some p i zero j e = cc
first_index-some p i (suc n) j e = elim (Bool-cases (p i)) [
  | inl found ↦
      let here = first_here p i n j found e in
      (omega (arith, here), omega (arith, here), subst (λ k. p k ≡ true) (sym here) found)
  | inr next ↦
      let (a, b, c) = first_index-some p (i + 1) n j (rw next at e) in (omega arith, omega arith, c)
]
  where
    first_here :
        (q : ℕ → Bool) (k m l : ℕ)
        → q k ≡ true
        → (if q k then some k else first_index q (k + 1) m) ≡ some l
        → l ≡ k
    first_here q k m l found h = ground arith

-- Places before the first are not it.
pub first_index-least :
    (p : ℕ → Bool) (i n j k : ℕ) → first_index p i n ≡ some j → i ≤ k → k < j → p k ≡ false
unfolding first_index
first_index-least p i zero j k e lo hi = cc
first_index-least p i (suc n) j k e lo hi = elim (Bool-cases (p i)) [
  | inl found ↦ let here = some_inj (rw found at e) in absurd (omega (arith, here))
  | inr next ↦ elim (dec_lt i k) [
    | yes more ↦ first_index-least p (i + 1) n j k (rw next at e) (omega arith) hi
    | no same ↦ let at : k ≡ i = omega arith in rw at next
  ]
]
  where
    some_inj : {a b : ℕ} → some a ≡ some b → a ≡ b
    some_inj e = cc

-- If there is none, no place passes the test.
pub first_index-none :
    (p : ℕ → Bool) (i n k : ℕ) → first_index p i n ≡ none → i ≤ k → k < i + n → p k ≡ false
unfolding first_index
first_index-none p i zero k e lo hi = absurd (omega arith)
first_index-none p i (suc n) k e lo hi = elim (Bool-cases (p i)) [
  | inl found ↦ absurd (some_none (rw found at e))
  | inr next ↦ elim (dec_lt i k) [
    | yes more ↦ first_index-none p (i + 1) n k (rw next at e) (omega arith) (omega arith)
    | no same ↦ let at : k ≡ i = omega arith in rw at next
  ]
]
  where
    some_none : {a : ℕ} → ¬ (some a ≡ none)
    some_none e = cc
