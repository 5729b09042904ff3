-- ===== src/Shell/Matching.antt =====
-- What `glob_match` of src/shell/command_registry.cpp decides.
use pseudo_fs.Common.{
  ℕ, zero, suc, ◌+◌, ◌*◌, ◌≤◌, ◌<◌, ◌≡◌, refl, ◌⊎◌, inl, inr, ◌↔◌, true, false, ◌||◌, none, some,
  [], ◌∷◌, ◌==◌, arith, Bool-cases,
}
use pseudo_fs.Common.CStrings.{CString}
use pseudo_fs.Common.Lists.{length}
use pseudo_fs.Common.Text.{Without}
use pseudo_fs.Shell.Glob.{star, question, Back, only_stars, fall_back, match_loop, glob_match}
use pseudo_fs.Shell.Patterns.{
  Takes, Matches, single, skip, swallow, only_stars→Matches, Matches→only_stars, single_inv,
  star_inv, star_at_end, two_stars, drop_taken,
}

-- What is left for the last star: to take one more character of the text where it began.
abbrev Retry : Back → Type 0
Retry none = ⊥
Retry (some (p, [])) = ⊥
Retry (some (p, x ∷ s)) = Matches (star ∷ p) s

-- The bounds of the star's place, and no star in the text.
abbrev Within : ℕ → ℕ → Back → Type 0
Within k m none = Unit
Within k m (some (p, s)) = (length p < k) × (length s ≤ m) × Without star s

record Round (fuel k m : ℕ) (p s : CString) (back : Back) : Type 0 where
  later : Retry back → Matches (star ∷ p) s
  within : Within k m back
  pattern_bound : length p < k
  text_bound : length s ≤ m
  no_star : Without star s
  enough : m * k + length p < fuel

Retry-here : (p s : CString) → (Matches p s ⊎ Retry (some (p, s))) ↔ Matches (star ∷ p) s
Retry-here p [] =
    ((λ h. elim h [ inl m ↦ skip refl m | inr n ↦ absurd n ]), λ m. inl (star_at_end refl m))
Retry-here p (x ∷ s) =
    ((λ h. elim h [ inl m ↦ skip refl m | inr n ↦ swallow refl n ]), star_inv refl)

retry_later : (p s : CString) → Retry (some (p, s)) → Matches (star ∷ p) s
retry_later p s h = (Retry-here p s).0 (inr h)

-- A round after the last star has to take one more character.
abbrev Decides : ℕ → ℕ → Type 0
Decides fuel k =
    (m : ℕ) (p s : CString) (back : Back)
    → Round fuel k m p s back
    → (match_loop fuel p s back ≡ true) ↔ (Matches p s ⊎ Retry back)

fall_back_lem :
    (fuel k m : ℕ) (p : CString) (d : ℕ) (s : CString) (back : Back)
    → Decides fuel k
    → Round (suc fuel) k m p (d ∷ s) back
    → ¬ Matches p (d ∷ s)
    → (fall_back (match_loop fuel) back ≡ true) ↔ (Matches p (d ∷ s) ⊎ Retry back)
fall_back_lem fuel k m p d s none ih r out =
    ((λ e. cc), λ h. elim h [ inl t ↦ absurd (out t) | inr n ↦ absurd n ])
fall_back_lem fuel k m p d s (some (q, [])) ih r out =
    ((λ e. cc), λ h. elim h [ inl t ↦ absurd (out t) | inr n ↦ absurd n ])
fall_back_lem fuel k zero p d s (some (q, x ∷ t)) ih r out = absurd (omega (arith, r.text_bound))
fall_back_lem fuel k (suc m) p d s (some (q, x ∷ t)) ih r out =
    let (short, fits, (_, free)) = r.within in
    let (go, back) = ih m q t (some (q, t)) (record {
      later = retry_later q t;
      within = (short, omega arith, free);
      pattern_bound = short;
      text_bound = omega arith;
      no_star = free;
      enough = omega (arith, r.enough);
    }) in
    (
      (λ e. inr ((Retry-here q t).0 (go e))),
      λ h. elim h [ inl n ↦ absurd (out n) | inr n ↦ back ((Retry-here q t).1 n) ],
    )

only_stars_lem :
    (fuel k m : ℕ) (p : CString) (back : Back)
    → Round fuel k m p [] back
    → (only_stars p ≡ true) ↔ (Matches p [] ⊎ Retry back)
only_stars_lem fuel k m p back r = (
  (λ e. inl (only_stars→Matches p e)),
  λ h. elim h [
    | inl n ↦ Matches→only_stars p n
    | inr n ↦ Matches→only_stars p (star_at_end refl (r.later n))
  ],
)

module _ (fuel k m c d : ℕ) (p s : CString) (back : Back) where
  at_taken :
      Decides fuel k
      → Round (suc fuel) k m (c ∷ p) (d ∷ s) back
      → Takes c d
      → (match_loop fuel p s back ≡ true) ↔ (Matches (c ∷ p) (d ∷ s) ⊎ Retry back)
  at_taken ih r t =
      let (go, come) = ih m p s back (record {
        later = λ n. drop_taken s refl t.0 (r.later n);
        within = r.within;
        pattern_bound = omega (arith, r.pattern_bound);
        text_bound = omega (arith, r.text_bound);
        no_star = r.no_star.1;
        enough = omega (arith, r.enough);
      }) in
      (
        (λ e. elim (go e) [ inl n ↦ inl (single t n) | inr n ↦ inr n ]),
        λ h. come (elim h [ inl n ↦ inl (single_inv t.0 n).1 | inr n ↦ inr n ]),
      )

  at_star :
      Decides fuel k
      → Round (suc fuel) k m (c ∷ p) (d ∷ s) back
      → c ≡ star
      → (match_loop fuel p (d ∷ s) (some (p, d ∷ s)) ≡ true)
        ↔ (Matches (c ∷ p) (d ∷ s) ⊎ Retry back)
  at_star ih r e =
      let (go, come) = ih m p (d ∷ s) (some (p, d ∷ s)) (record {
        later = retry_later p (d ∷ s);
        within = (omega (arith, r.pattern_bound), r.text_bound, r.no_star);
        pattern_bound = omega (arith, r.pattern_bound);
        text_bound = r.text_bound;
        no_star = r.no_star;
        enough = omega (arith, r.enough);
      }) in
      let at = Retry-here p (d ∷ s) in
      let same : Matches (star ∷ p) (d ∷ s) ↔ Matches (c ∷ p) (d ∷ s) = rw e ((λ n. n), λ n. n) in
      (
        (λ h. inl (same.0 (at.0 (go h)))),
        λ h.
            come
              (at.1 (elim h [ inl n ↦ same.1 n | inr n ↦ same.1 (two_stars refl e (r.later n)) ])),
      )

match_loop-Decides : (fuel k : ℕ) → Decides fuel k
unfolding match_loop
match_loop-Decides zero k m p s back r = absurd (omega (arith, r.enough))
match_loop-Decides (suc fuel) k m p [] back r = only_stars_lem (suc fuel) k m p back r
match_loop-Decides (suc fuel) k m [] (d ∷ s) back r =
    fall_back_lem fuel k m [] d s back (match_loop-Decides fuel k) r (λ n. elim n [ ])
match_loop-Decides (suc fuel) k m (c ∷ p) (d ∷ s) back r =
    let ih = match_loop-Decides fuel k in
    elim (Bool-cases (c == question || c == d)) [
      | inl e ↦ rw e (at_taken fuel k m c d p s back ih r (takes c d e r.no_star.0))
      | inr e ↦ elim (Bool-cases (c == star)) [
        | inl f ↦ rw (e, f) (at_star fuel k m c d p s back ih r (ground arith))
        | inr f ↦
            rw (e, f)
              (fall_back_lem fuel k m (c ∷ p) d s back ih r
                (λ n. no_take c d e f (single_inv (ground arith) n).0))
      ]
    ]
  where
    takes : (a b : ℕ) → (a == question || a == b) ≡ true → (b == star) ≡ false → Takes a b
    takes a b e f = ground arith

    no_take : (a b : ℕ) → (a == question || a == b) ≡ false → (a == star) ≡ false → ¬ Takes a b
    no_take a b e f t = ground arith

-- `glob_match` accepts exactly the texts that the pattern matches, if there is no star in the text
-- itself; the loop ends within its fuel.
pub glob_match-Matches : (p s : CString) → Without star s → (glob_match p s ≡ true) ↔ Matches p s
unfolding glob_match
glob_match-Matches p s free =
    let (go, come) =
      match_loop-Decides ((length s + 1) * (length p + 1)) (length p + 1) (length s) p s none
        (record {
          later = λ n. absurd n;
          within = tt;
          pattern_bound = omega arith;
          text_bound = omega arith;
          no_star = free;
          enough = omega arith;
        }) in
    ((λ e. elim (go e) [ inl n ↦ n | inr n ↦ absurd n ]), λ n. come (inl n))

star_as_itself :
    (fuel c : ℕ) (s : CString) → match_loop (suc (suc fuel)) (star ∷ []) (star ∷ c ∷ s) none ≡ false
unfolding match_loop
star_as_itself fuel c s = refl

-- A star in the text that meets a star of the pattern is taken for an ordinary character: the pattern
-- that is a single star refuses every longer name that begins with one.
pub glob_match-star : (c : ℕ) (s : CString) → glob_match (star ∷ []) (star ∷ c ∷ s) ≡ false
unfolding glob_match
glob_match-star c s =
    let fuel : (length (star ∷ c ∷ s) + 1) * 2 ≡ suc (suc (2 * length s + 4)) = omega arith in
    rw fuel (star_as_itself (2 * length s + 4) c s)
