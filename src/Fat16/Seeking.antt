-- ===== src/Fat16/Seeking.antt =====
-- The steps along a chain of `fs_write` in src/fs/fat16/fat16_fs.cpp, which may make it longer.
use pseudo_fs.Common.{
  ℕ, zero, suc, ◌≤◌, ◌<◌, ◌≡◌, ◌≢◌, ◌⊎◌, refl, sym, ap, subst, ◌∙◌, List, [], ◌∷◌, ◌++◌, Option,
  none, some, false, ◌||◌, ◌==◌, ltb, arith, inl, inr, append-nil, append_assoc,
}
use mathlib.Core.List.{
  Mem, mem-cons_self, mem-cons_of_mem, mem_of_ne_of_mem, mem-append_right, not-mem-nil,
}
use native.Mathlib.Decide.{ℕ_discrete}
use pseudo_fs.Common.Arrays.{update}
use pseudo_fs.BlockDevice.{BlockDevice}
use pseudo_fs.Common.Visits.{none-some}
use pseudo_fs.Fat16.Chains.{Chain, last}
use pseudo_fs.Fat16.Owned.{Owned, IsChain, update_self, update_ne}
use pseudo_fs.Fat16.Growth.{advance-Owned}
use pseudo_fs.Fat16.Writing.{advance, seek_loop}

-- The family in which chain n is made longer, and nothing else is changed.
abbrev pub Longer : (ℕ → List ℕ) → ℕ → (ℕ → ℕ) → Type 0
Longer chains n fat =
    (chains' : ℕ → List ℕ) × (more : List ℕ) × Owned fat chains'
    × (chains' n ≡ chains n ++ more)
    × ((i : ℕ) → i ≢ n → chains' i ≡ chains i)

pub Longer-same :
    (fat : ℕ → ℕ) (chains : ℕ → List ℕ) (n : ℕ) → Owned fat chains → Longer chains n fat
Longer-same fat chains n h = (chains, [], h, sym (append-nil (chains n)), λ i ne. refl)

pub Longer-twice :
    (chains chains' : ℕ → List ℕ) (n : ℕ) (more : List ℕ) (fat : ℕ → ℕ)
    → chains' n ≡ chains n ++ more
    → ((i : ℕ) → i ≢ n → chains' i ≡ chains i)
    → Longer chains' n fat
    → Longer chains n fat
Longer-twice chains chains' n more fat e others (chains'', more', h, e', others') = (
  chains'',
  more ++ more',
  h,
  e' ∙ ap (λ l. l ++ more') e ∙ append_assoc (chains n) more more',
  λ i ne. others' i ne ∙ others i ne,
)

-- Behind a cluster of a chain that is not its last comes another cluster of it.
next_in-Chain :
    (fat : ℕ → ℕ) (c x : ℕ) (xs : List ℕ) (cur : ℕ)
    → Chain fat c (x ∷ xs)
    → Mem cur (x ∷ xs)
    → cur ≢ last x xs
    → Mem (fat cur) xs × (2 ≤ fat cur) × (fat cur < 2064)
next_in-Chain fat c x [] cur (e, v, h) m ne = absurd (not-mem-nil (mem_of_ne_of_mem ne m))
next_in-Chain fat c x (y ∷ ys) cur (e, v, (f, w, h)) m ne = elim (ℕ_discrete cur x) [
  | yes q ↦ rw (q, f) (mem-cons_self, w.0, w.1)
  | no q ↦
      let (there, lo, hi) =
        next_in-Chain fat (fat x) y ys cur (f, w, h) (mem_of_ne_of_mem q m) ne in
      (mem-cons_of_mem y there, lo, hi)
]

pub advance_inside :
    (d : BlockDevice) (fat : ℕ → ℕ) (cur : ℕ)
    → 2 ≤ fat cur
    → fat cur < 2064
    → advance d fat cur ≡ (some (fat cur), fat, d)
unfolding advance
advance_inside d fat cur lo hi =
    let test : (fat cur == 65535 || ltb (fat cur) 2) ≡ false = ground arith in rw test refl

-- What `advance` does at a cluster of chain n: it fails and changes nothing, or it gives a cluster
-- of that chain, which may be longer.
abbrev pub Step : BlockDevice → (ℕ → ℕ) → (ℕ → List ℕ) → ℕ → ℕ → Type 0
Step d fat chains n cur =
    (((advance d fat cur).0 ≡ none) × ((advance d fat cur).1 ≡ fat))
    ⊎ ((c : ℕ) × (chains' : ℕ → List ℕ) × (more : List ℕ) × ((advance d fat cur).0 ≡ some c)
        × Owned (advance d fat cur).1 chains'
        × (chains' n ≡ chains n ++ more)
        × ((i : ℕ) → i ≢ n → chains' i ≡ chains i)
        × Mem c (chains' n))

Step-at_last :
    (d : BlockDevice) (fat : ℕ → ℕ) (chains : ℕ → List ℕ) (n x : ℕ) (xs : List ℕ)
    → Owned fat chains
    → chains n ≡ x ∷ xs
    → Step d fat chains n (last x xs)
Step-at_last d fat chains n x xs h e = elim (advance-Owned d fat chains n x xs h e) [
  | inr (full, fails, same) ↦ inl (fails, same)
  | inl (c, t, gives, owned) ↦
      let longer = update_self chains n (x ∷ (xs ++ c ∷ [])) in
      inr (
        c,
        update chains n (x ∷ (xs ++ c ∷ [])),
        c ∷ [],
        gives,
        owned,
        longer ∙ ap (λ l. l ++ c ∷ []) (sym e),
        update_ne chains n (x ∷ (xs ++ c ∷ [])),
        subst (Mem c) (sym longer) (mem-append_right (x ∷ xs) mem-cons_self),
      )
]

pub advance-Step :
    (d : BlockDevice) (fat : ℕ → ℕ) (chains : ℕ → List ℕ) (n cur : ℕ)
    → Owned fat chains
    → Mem cur (chains n)
    → Step d fat chains n cur
advance-Step d fat chains n cur h m = in_list (chains n) refl
  where
    in_list : (l : List ℕ) → chains n ≡ l → Step d fat chains n cur
    in_list [] e = absurd (not-mem-nil (subst (Mem cur) e m))
    in_list (x ∷ xs) e = elim (ℕ_discrete cur (last x xs)) [
      | yes q ↦ subst (Step d fat chains n) (sym q) (Step-at_last d fat chains n x xs h e)
      | no ne ↦
          let (there, lo, hi) =
            next_in-Chain fat x x xs cur (subst (IsChain fat) e (h.valid n)) (subst (Mem cur) e m)
              ne in
          let moved = advance_inside d fat cur lo hi in
          inr (
            fat cur,
            chains,
            [],
            ap (λ r. r.0) moved,
            subst (λ r. Owned r.1 chains) (sym moved) h,
            sym (append-nil (chains n)),
            (λ i ne. refl),
            subst (Mem (fat cur)) (sym e) (mem-cons_of_mem x there),
          )
    ]

-- The result of the first loop of `fs_write`: chain n may be longer, and the cluster reached is in it.
abbrev pub Sought : (ℕ → List ℕ) → ℕ → Option ℕ × (ℕ → ℕ) × BlockDevice → Type 0
Sought chains n r =
    (chains' : ℕ → List ℕ) × (more : List ℕ) × Owned r.1 chains'
    × (chains' n ≡ chains n ++ more)
    × ((i : ℕ) → i ≢ n → chains' i ≡ chains i)
    × ((c : ℕ) → r.0 ≡ some c → Mem c (chains' n))

Sought-later :
    (chains chains' : ℕ → List ℕ) (n : ℕ) (more : List ℕ) (r : Option ℕ × (ℕ → ℕ) × BlockDevice)
    → chains' n ≡ chains n ++ more
    → ((i : ℕ) → i ≢ n → chains' i ≡ chains i)
    → Sought chains' n r
    → Sought chains n r
Sought-later chains chains' n more r e others (chains'', more', h, e', others', there) = (
  chains'',
  more ++ more',
  h,
  e' ∙ ap (λ l. l ++ more') e ∙ append_assoc (chains n) more more',
  (λ i ne. others' i ne ∙ others i ne),
  there,
)

seek_on :
    (turns cur c : ℕ) (fat : ℕ → ℕ) (d : BlockDevice)
    → (advance d fat cur).0 ≡ some c
    → seek_loop (suc turns) cur fat d
      ≡ seek_loop turns c (advance d fat cur).1 (advance d fat cur).2
unfolding seek_loop
seek_on turns cur c fat d e = rw (e, seek_loop) refl

seek_stop :
    (turns cur : ℕ) (fat : ℕ → ℕ) (d : BlockDevice)
    → (advance d fat cur).0 ≡ none
    → seek_loop (suc turns) cur fat d ≡ (none, (advance d fat cur).1, (advance d fat cur).2)
unfolding seek_loop
seek_stop turns cur fat d e = rw (e, seek_loop) refl

pub seek_loop-Sought :
    (turns cur : ℕ) (fat : ℕ → ℕ) (d : BlockDevice) (chains : ℕ → List ℕ) (n : ℕ)
    → Owned fat chains
    → Mem cur (chains n)
    → Sought chains n (seek_loop turns cur fat d)
unfolding seek_loop
seek_loop-Sought zero cur fat d chains n h m = (
  chains,
  [],
  h,
  sym (append-nil (chains n)),
  (λ i ne. refl),
  λ c e. subst (λ z. Mem z (chains n)) (some_eq e) m,
)
  where
    some_eq : {a b : ℕ} → some a ≡ some b → a ≡ b
    some_eq e = cc
seek_loop-Sought (suc turns) cur fat d chains n h m = elim (advance-Step d fat chains n cur h m) [
  | inl (fails, same) ↦ subst (Sought chains n) (sym (seek_stop turns cur fat d fails)) (
    chains,
    [],
    rw same h,
    sym (append-nil (chains n)),
    (λ i ne. refl),
    λ c e. absurd (none-some e),
  )
  | inr (c, chains', more, gives, owned, longer, others, there) ↦
      subst (Sought chains n) (sym (seek_on turns cur c fat d gives)) (
        Sought-later chains chains' n more
          (seek_loop turns c (advance d fat cur).1 (advance d fat cur).2) longer others
          (seek_loop-Sought turns c (advance d fat cur).1 (advance d fat cur).2 chains' n owned
            there))
]
