-- ===== src/Fat16/Chains.antt =====
-- The cluster chains of src/fs/fat16/fat16_fs.cpp as lists: `free_cluster_chain`, `count_clusters`
-- and the last cluster of a chain.
use pseudo_fs.Common.{
  ℕ, zero, suc, ◌<◌, ◌≡◌, refl, sym, ap, ap₂, subst, ◌∙◌, List, [], ◌∷◌, true, false, not, ◌&&◌,
  leb, ◌==◌, arith, min,
}
use mathlib.Core.List.{Mem, not-mem-nil, mem-cons_self, mem-cons_of_mem, mem_of_ne_of_mem}
use native.Mathlib.Decide.{ℕ_discrete}
use pseudo_fs.Common.Arrays.{update}
use pseudo_fs.Common.Lists.{length, NotIn, Distinct, All}
use pseudo_fs.SuperBlock.FreeList.{length-le_of_Distinct}
use pseudo_fs.Common.CStrings.{take}
use pseudo_fs.Fat16.{
  Fat16Fs, fat_end, fat_free, is_live, clusters_per_fat, free_loop, count_loop, free_cluster_chain,
  flush_fat,
}
use pseudo_fs.Fat16.Entries.{last_loop}
use pseudo_fs.Fat16.Alloc.{IsCluster}

-- The clusters of the chain that begins at c, in order, each with an entry for the next.
abbrev pub Chain : (ℕ → ℕ) → ℕ → List ℕ → Type 0
Chain fat c [] = c ≡ fat_end
Chain fat c (x ∷ xs) = (c ≡ x) × IsCluster x × Chain fat (fat x) xs

pub cluster_live : (x : ℕ) → IsCluster x → is_live x ≡ true
cluster_live x (lo, hi) = ground arith

-- A table and a cluster determine the chain.
Chain-unique : (fat : ℕ → ℕ) (c : ℕ) (xs ys : List ℕ) → Chain fat c xs → Chain fat c ys → xs ≡ ys
Chain-unique fat c [] [] h k = refl
Chain-unique fat c [] (y ∷ ys) h (e, (lo, hi), k) = absurd (omega arith)
Chain-unique fat c (x ∷ xs) [] (e, (lo, hi), h) k = absurd (omega arith)
Chain-unique fat c (x ∷ xs) (y ∷ ys) (e, v, h) (f, w, k) =
    let same = sym e ∙ f in
    ap₂ ◌∷◌ same (Chain-unique fat (fat x) xs ys h (subst (λ z. Chain fat (fat z) ys) (sym same) k))

-- A cluster from which every chain is longer is not in this one.
longer-NotIn :
    (fat : ℕ → ℕ) (x c : ℕ) (xs : List ℕ)
    → Chain fat c xs
    → ((zs : List ℕ) → Chain fat x zs → length xs < length zs)
    → NotIn x xs
longer-NotIn fat x c [] h longer = tt
longer-NotIn fat x c (y ∷ ys) (e, v, h) longer = (
  (λ same.
      let self : Chain fat x (y ∷ ys) = (same, v, h) in
      let p = longer (y ∷ ys) self in omega (arith, p)),
  longer-NotIn fat x (fat y) ys h (λ zs k. let p = longer zs k in omega (arith, p)),
)

-- No cluster occurs twice in a chain.
pub Chain-head : (fat : ℕ → ℕ) (x : ℕ) (xs : List ℕ) → Chain fat x (x ∷ xs) → NotIn x xs
Chain-head fat x xs (e, v, h) = longer-NotIn fat x (fat x) xs h (λ zs k.
    let same = ap length (Chain-unique fat x (x ∷ xs) zs (refl, v, h) k) in omega (arith, same))

-- An entry outside a chain has no part in it.
pub Chain-update :
    (fat : ℕ → ℕ) (x v c : ℕ) (xs : List ℕ)
    → NotIn x xs
    → Chain fat c xs
    → Chain (update fat x v) c xs
Chain-update fat x v c [] out h = h
Chain-update fat x v c (y ∷ ys) (ne, out) (e, w, h) =
    let same : update fat x v y ≡ fat y = ground arith in
    (
      e,
      w,
      subst (λ z. Chain (update fat x v) z ys) (sym same) (Chain-update fat x v (fat y) ys out h),
    )

NotIn-take : (a : ℕ) (n : ℕ) (xs : List ℕ) → NotIn a xs → ¬ Mem a (take n xs)
NotIn-take a zero xs out m = not-mem-nil m
NotIn-take a (suc n) [] out m = not-mem-nil m
NotIn-take a (suc n) (x ∷ xs) (ne, out) m = NotIn-take a n xs out (mem_of_ne_of_mem ne m)

-- What one turn of the loop of `free_cluster_chain` and the others do.
cleared_all :
    (freed : ℕ → ℕ) (fat : ℕ → ℕ) (y x : ℕ) (ys : List ℕ)
    → ¬ Mem y ys
    → (Mem x ys → freed x ≡ fat_free) × (¬ Mem x ys → freed x ≡ update fat y fat_free x)
    → (Mem x (y ∷ ys) → freed x ≡ fat_free) × (¬ Mem x (y ∷ ys) → freed x ≡ fat x)
cleared_all freed fat y x ys alone (inside, outside) = elim (ℕ_discrete x y) [
  | yes q ↦
      let at : freed x ≡ update fat y fat_free x = outside (rw q alone) in
      ((λ m. at ∙ ground arith), λ n. absurd (n (subst (λ z. Mem x (z ∷ ys)) q mem-cons_self)))
  | no ne ↦ (
    (λ m. inside (mem_of_ne_of_mem ne m)),
    λ n. outside (λ m. n (mem-cons_of_mem y m)) ∙ ground arith,
  )
]

-- The loop of `free_cluster_chain` clears the entries of the clusters that it reaches and no other.
free_loop_lem :
    (turns : ℕ) (fat : ℕ → ℕ) (c : ℕ) (cs : List ℕ) (x : ℕ)
    → Chain fat c cs
    → (Mem x (take turns cs) → free_loop turns fat c x ≡ fat_free)
      × (¬ Mem x (take turns cs) → free_loop turns fat c x ≡ fat x)
unfolding free_loop
free_loop_lem zero fat c cs x h = ((λ m. absurd (not-mem-nil m)), λ out. refl)
free_loop_lem (suc turns) fat c [] x h =
    let ended : is_live c ≡ false = rw h refl in
    rw ended ((λ m. absurd (not-mem-nil m)), λ out. refl)
free_loop_lem (suc turns) fat c (y ∷ ys) x (e, v, h) =
    let alone = Chain-head fat y ys (refl, v, h) in
    rw (e, cluster_live y v)
      (cleared_all (free_loop turns (update fat y fat_free) (fat y)) fat y x (take turns ys)
        (NotIn-take y turns ys alone)
        (free_loop_lem turns (update fat y fat_free) (fat y) ys x
          (Chain-update fat y fat_free (fat y) ys alone h)))

-- From the start of a chain, `free_cluster_chain` makes the entries of its first 2000 clusters free
-- and keeps every other entry, also those of the clusters behind the first 2000.
pub free_cluster_chain-take :
    (u : Fat16Fs) (start : ℕ) (cs : List ℕ) (x : ℕ)
    → Chain u.fat start cs
    → (Mem x (take 2000 cs) → (free_cluster_chain u start).fat x ≡ fat_free)
      × (¬ Mem x (take 2000 cs) → (free_cluster_chain u start).fat x ≡ u.fat x)
unfolding free_cluster_chain flush_fat
free_cluster_chain-take u start cs x h = free_loop_lem 2000 u.fat start cs x h

count_loop_lem :
    (turns : ℕ) (fat : ℕ → ℕ) (c : ℕ) (cs : List ℕ)
    → Chain fat c cs
    → count_loop turns fat c ≡ min turns (length cs)
unfolding count_loop
count_loop_lem zero fat c cs h = omega arith
count_loop_lem (suc turns) fat c [] h =
    let ended : is_live c ≡ false = rw h refl in rw ended (omega arith)
count_loop_lem (suc turns) fat c (y ∷ ys) (e, v, h) =
    rw (e, cluster_live y v) (omega (arith, count_loop_lem turns fat (fat y) ys h))

-- The last cluster of a chain that is not empty.
abbrev pub last : ℕ → List ℕ → ℕ
last x [] = x
last x (y ∷ ys) = last y ys

-- The loop of `append_dir_entry` that looks for the last cluster, which the code does not bound,
-- ends on a chain within as many turns as the chain has clusters, and finds its last one.
pub last_loop_lem :
    (turns : ℕ) (fat : ℕ → ℕ) (x : ℕ) (xs : List ℕ)
    → Chain fat x (x ∷ xs)
    → length xs < turns
    → last_loop turns fat x ≡ last x xs
unfolding last_loop
last_loop_lem zero fat x xs h p = elim p [ ]
last_loop_lem (suc turns) fat x [] (e, v, h) p = rw h refl
last_loop_lem (suc turns) fat x (y ∷ ys) (e, v, (f, (lo, hi), h)) p =
    let going : (not (y == fat_end) && leb 2 y) ≡ true = ground arith in
    rw (f, going) (last_loop_lem turns fat y ys (refl, (lo, hi), h) (omega arith))

Chain-Distinct :
    (fat : ℕ → ℕ) (c : ℕ) (cs : List ℕ) → Chain fat c cs → Distinct cs × All (λ x. x < 2064) cs
Chain-Distinct fat c [] h = (tt, tt)
Chain-Distinct fat c (x ∷ xs) (e, v, h) =
    let (apart, small) = Chain-Distinct fat (fat x) xs h in
    ((Chain-head fat x xs (refl, v, h), apart), (v.1, small))

-- The loop of `append_dir_entry` that looks for the last cluster of a chain, which the code does
-- not bound, ends on a chain within as many turns as the table has entries, and gives its last one.
pub last_loop-last :
    (fat : ℕ → ℕ) (x : ℕ) (xs : List ℕ)
    → Chain fat x (x ∷ xs)
    → last_loop clusters_per_fat fat x ≡ last x xs
last_loop-last fat x xs h =
    let (apart, small) = Chain-Distinct fat x (x ∷ xs) h in
    let p = length-le_of_Distinct 2064 (x ∷ xs) small apart in
    last_loop_lem clusters_per_fat fat x xs h (omega (arith, p))

-- A free cluster is in no chain.
pub free-NotIn :
    (fat : ℕ → ℕ) (c : ℕ) (cs : List ℕ) (k : ℕ) → Chain fat c cs → fat k ≡ fat_free → NotIn k cs
free-NotIn fat c [] k h free = tt
free-NotIn fat c (x ∷ []) k (e, v, h) free =
    ((λ same. let at = ap fat same in omega (arith, at)), tt)
free-NotIn fat c (x ∷ y ∷ ys) k (e, v, h) free = (
  (λ same. let at = ap fat same in let (f, (lo, hi), rest) = h in omega (arith, at)),
  free-NotIn fat (fat x) (y ∷ ys) k h free,
)
