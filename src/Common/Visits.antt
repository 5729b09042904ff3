-- ===== src/Common/Visits.antt =====
-- Loops that make a call on each element of a list and stop at the first that does not return 0.
-- A call that gives `none` has not come to an end within its fuel.
use mathlib.Core.Path.{◌≡◌, refl}
use mathlib.Core.Bool.{Bool}
use mathlib.Core.Logic.{inl, inr}
use mathlib.Core.Option.{Option, none, some}
use mathlib.Core.List.{List, [], ◌∷◌}
use Prim.Native.Nat.{zero, suc}
use pseudo_fs.Common.Int.{ℤ, pos, negsuc, minus_one}
use pseudo_fs.Common.Tests.{if◌then◌else◌, Bool-cases}

-- What follows a call that returned.
abbrev pub go_on {ℓ} : {S : Type ℓ} → (S → Option (ℤ × S)) → Option (ℤ × S) → Option (ℤ × S)
go_on next none = none
go_on next (some (pos zero, s)) = next s
go_on next (some (pos (suc n), s)) = some (minus_one, s)
go_on next (some (negsuc n, s)) = some (minus_one, s)

unfoldable pub visit {ℓ κ} :
    {S : Type ℓ} {A : Type κ} → (A → Bool) → (S → A → Option (ℤ × S)) → List A → S → Option (ℤ × S)
visit skip f [] s = some (pos 0, s)
visit skip f (e ∷ es) s =
    let rest = visit skip f es s in
    let called = go_on (λ t. visit skip f es t) (f s e) in if skip e then rest else called

-- With more fuel, calls that came to an end give the same result.
pub visit-more {ℓ κ} :
    {S : Type ℓ} {A : Type κ} (skip : A → Bool) (f g : S → A → Option (ℤ × S))
    → ((s : S) (e : A) (r : ℤ × S) → f s e ≡ some r → g s e ≡ some r)
    → (es : List A) (s : S) (r : ℤ × S) → visit skip f es s ≡ some r
    → visit skip g es s ≡ some r
unfolding visit
visit-more {S = S} skip f g more [] s r = λ h. h
visit-more {S = S} skip f g more (e ∷ es) s r = elim (Bool-cases (skip e)) [
  | inl t ↦ rw t (visit-more skip f g more es s r)
  | inr t ↦ rw t (through (f s e) (g s e) (λ q. more s e q) (λ u. visit-more skip f g more es u r))
]
  where
    through :
        (a b : Option (ℤ × S))
        → ((q : ℤ × S) → a ≡ some q → b ≡ some q)
        → ((t : S) → visit skip f es t ≡ some r → visit skip g es t ≡ some r)
        → go_on (λ t. visit skip f es t) a ≡ some r
        → go_on (λ t. visit skip g es t) b ≡ some r
    through none b same later h = cc
    through (some (pos zero, t)) b same later h = rw (same (pos zero, t) refl) (later t h)
    through (some (pos (suc n), t)) b same later h = rw (same (pos (suc n), t) refl) h
    through (some (negsuc n, t)) b same later h = rw (same (negsuc n, t) refl) h

-- What follows a loop that reached the end of its list; an early end is an error.
abbrev pub then_call {ℓ} : {S : Type ℓ} → (S → ℤ × S) → Option (ℤ × S) → Option (ℤ × S)
then_call last none = none
then_call last (some (pos zero, s)) = some (last s)
then_call last (some (pos (suc n), s)) = some (minus_one, s)
then_call last (some (negsuc n, s)) = some (minus_one, s)

pub none-some {ℓ} : {B : Type ℓ} {y : B} → ¬ (none ≡ some y)
none-some e = cc

pub then_call-more {ℓ} :
    {S : Type ℓ} (last : S → ℤ × S) (a b : Option (ℤ × S)) (r : ℤ × S)
    → ((q : ℤ × S) → a ≡ some q → b ≡ some q)
    → then_call last a ≡ some r
    → then_call last b ≡ some r
then_call-more last none b r same h = absurd (none-some h)
then_call-more last (some (pos zero, t)) b r same h = rw (same (pos zero, t) refl) h
then_call-more last (some (pos (suc n), t)) b r same h = rw (same (pos (suc n), t) refl) h
then_call-more last (some (negsuc n, t)) b r same h = rw (same (negsuc n, t) refl) h
