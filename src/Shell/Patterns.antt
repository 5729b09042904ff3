-- ===== src/Shell/Patterns.antt =====
-- What a pattern of wildcards stands for, apart from the loop of `glob_match` in
-- src/shell/command_registry.cpp.
use pseudo_fs.Common.{ℕ, ◌≡◌, ◌≢◌, refl, ◌⊎◌, inl, inr, true, [], ◌∷◌, arith}
use pseudo_fs.Common.CStrings.{CString}
use pseudo_fs.Shell.Glob.{star, question, only_stars}

-- Character c of a pattern, not a star, takes character d of a text.
abbrev pub Takes : ℕ → ℕ → Type 0
Takes c d = (c ≢ star) × ((c ≡ question) ⊎ (c ≡ d))

-- A pattern matches a text: a star any characters, a question mark one, another character itself.
pub data Matches : CString → CString → Type 0 where
  nothing : Matches [] []
  single : {c d : ℕ} {p s : CString} → Takes c d → Matches p s → Matches (c ∷ p) (d ∷ s)
  skip : {c : ℕ} {p s : CString} → c ≡ star → Matches p s → Matches (c ∷ p) s
  swallow : {c d : ℕ} {p s : CString} → c ≡ star → Matches (c ∷ p) s → Matches (c ∷ p) (d ∷ s)

pub single_inv :
    {c d : ℕ} {p s : CString} → c ≢ star → Matches (c ∷ p) (d ∷ s) → Takes c d × Matches p s
single_inv ne (single t m) = (t, m)
single_inv ne (skip e m) = absurd (ne e)
single_inv ne (swallow e m) = absurd (ne e)

-- A star takes nothing, or the first character.
pub star_inv :
    {c d : ℕ} {p s : CString}
    → c ≡ star
    → Matches (c ∷ p) (d ∷ s)
    → Matches p (d ∷ s) ⊎ Matches (c ∷ p) s
star_inv e (single t m) = absurd (t.0 e)
star_inv e (skip _ m) = inl m
star_inv e (swallow _ m) = inr m

pub star_at_end : {c : ℕ} {p : CString} → c ≡ star → Matches (c ∷ p) [] → Matches p []
star_at_end e (skip _ m) = m

pub two_stars :
    {b c : ℕ} {p s : CString} → b ≡ star → c ≡ star → Matches (b ∷ c ∷ p) s → Matches (c ∷ p) s
two_stars e f (single t m) = absurd (t.0 e)
two_stars e f (skip _ m) = m
two_stars e f (swallow _ m) = swallow f (two_stars e f m)

-- With a star before it, a character that has taken one may be left out.
pub drop_taken :
    {b c d : ℕ} {p : CString} (s : CString)
    → b ≡ star
    → c ≢ star
    → Matches (b ∷ c ∷ p) (d ∷ s)
    → Matches (b ∷ p) s
drop_taken s e ne (single t m) = absurd (t.0 e)
drop_taken s e ne (skip _ m) = skip e (single_inv ne m).1
drop_taken [] e ne (swallow _ (skip _ (skip f m))) = absurd (ne f)
drop_taken (x ∷ s) e ne (swallow _ m) = swallow e (drop_taken s e ne m)

pub only_stars→Matches : (p : CString) → only_stars p ≡ true → Matches p []
unfolding only_stars
only_stars→Matches [] h = nothing
only_stars→Matches (c ∷ p) h = skip (ground arith) (only_stars→Matches p (ground arith))

pub Matches→only_stars : (p : CString) → Matches p [] → only_stars p ≡ true
unfolding only_stars
Matches→only_stars [] m = refl
Matches→only_stars (c ∷ p) (skip e m) = ground (arith, Matches→only_stars p m)
