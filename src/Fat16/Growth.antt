-- ===== src/Fat16/Growth.antt =====
-- `advance`, the part of `fs_write` in src/fs/fat16/fat16_fs.cpp that makes a chain longer.
use pseudo_fs.Common.{
  ℕ, ◌≡◌, ◌≢◌, ◌⊎◌, refl, sym, subst, ◌∙◌, List, [], ◌∷◌, ◌++◌, none, some, false, ◌==◌, arith, inl,
  inr,
}
use mathlib.Core.List.{
  Mem, mem-cons_self, mem-cons_of_mem, mem_of_ne_of_mem, mem-append_left, mem-append_right,
}
use native.Mathlib.Decide.{ℕ_discrete}
use pseudo_fs.Common.Arrays.{update}
use pseudo_fs.Common.Lists.{NotIn}
use pseudo_fs.BlockDevice.{BlockDevice}
use pseudo_fs.Fat16.{fat_end}
use pseudo_fs.Fat16.Alloc.{IsCluster, Takes, Full, alloc_cluster_cases}
use pseudo_fs.Fat16.Chains.{Chain, Chain-head, last}
use pseudo_fs.Fat16.Owned.{
  Owned, IsChain, IsChain-update, IsChain-free, IsChain-agree, not-mem-NotIn, singleton,
  update_self, outside_before, replaced,
}
use pseudo_fs.Fat16.Writing.{advance}

-- The cluster that is added behind the last one of a chain.
pub Chain-extend :
    (fat : ℕ → ℕ) (c x : ℕ) (xs : List ℕ) (new_c : ℕ)
    → Chain fat c (x ∷ xs)
    → NotIn new_c (x ∷ xs)
    → IsCluster new_c
    → Chain (update (update fat (last x xs) new_c) new_c fat_end) c (x ∷ (xs ++ new_c ∷ []))
Chain-extend fat c x [] new_c (e, v, h) (ne, out) w =
    let at_x : update (update fat x new_c) new_c fat_end x ≡ new_c = ground arith in
    let at_new : update (update fat x new_c) new_c fat_end new_c ≡ fat_end = ground arith in
    (e, v, (at_x, w, at_new))
Chain-extend fat c x (y ∷ ys) new_c (e, v, h) (ne, out) w =
    let alone = last_ne x y ys (Chain-head fat x (y ∷ ys) (refl, v, h)) in
    let fat' : ℕ → ℕ = update (update fat (last y ys) new_c) new_c fat_end in
    let same : fat' x ≡ fat x = ground arith in
    (
      e,
      v,
      subst (λ z. Chain fat' z (y ∷ (ys ++ new_c ∷ []))) (sym same)
          (Chain-extend fat (fat x) y ys new_c h out w),
    )
  where
    last_ne : (a b : ℕ) (bs : List ℕ) → NotIn a (b ∷ bs) → a ≢ last b bs
    last_ne a b [] (ne, out) = ne
    last_ne a b (d ∷ ds) (ne, out) = last_ne a d ds out

pub Chain-last :
    (fat : ℕ → ℕ) (c x : ℕ) (xs : List ℕ) → Chain fat c (x ∷ xs) → fat (last x xs) ≡ fat_end
Chain-last fat c x [] (e, v, h) = h
Chain-last fat c x (y ∷ ys) (e, v, h) = Chain-last fat (fat x) y ys h

last-mem : (x : ℕ) (xs : List ℕ) → Mem (last x xs) (x ∷ xs)
last-mem x [] = mem-cons_self
last-mem x (y ∷ ys) = mem-cons_of_mem x (last-mem y ys)

append_cases : (k c : ℕ) (xs : List ℕ) → Mem k (xs ++ c ∷ []) → Mem k xs ⊎ (k ≡ c)
append_cases k c [] m = inr (singleton k c m)
append_cases k c (x ∷ xs) m = elim (ℕ_discrete k x) [
  | yes e ↦ inl (rw e mem-cons_self)
  | no ne ↦ elim (append_cases k c xs (mem_of_ne_of_mem ne m)) [
    | inl q ↦ inl (mem-cons_of_mem x q)
    | inr q ↦ inr q
  ]
]

-- The table once c is taken and linked behind the cluster `cur`.
abbrev linked : (ℕ → ℕ) → ℕ → ℕ → ℕ → ℕ
linked fat cur c = update (update (update fat c fat_end) cur c) c fat_end

linked_ne : (fat : ℕ → ℕ) (cur c k : ℕ) → k ≢ c → k ≢ cur → linked fat cur c k ≡ fat k
linked_ne fat cur c k ne ne' = ground arith

linked-Owned :
    (fat : ℕ → ℕ) (chains : ℕ → List ℕ) (n x : ℕ) (xs : List ℕ) (c : ℕ)
    → Owned fat chains
    → chains n ≡ x ∷ xs
    → Takes fat c
    → Owned (linked fat (last x xs) c) (update chains n (x ∷ (xs ++ c ∷ [])))
linked-Owned fat chains n x xs c h e t =
    replaced chains n longer fat (linked fat (last x xs) c) h
      (Chain-extend (update fat c fat_end) x x xs c
        (IsChain-update fat c fat_end (x ∷ xs) alone chain) (not-mem-NotIn c (x ∷ xs) alone) t.0)
      (λ i ne.
        IsChain-agree fat (linked fat (last x xs) c) (chains i)
          (λ k m.
            linked_ne fat (last x xs) c k (λ q. unused i (subst (λ z. Mem z (chains i)) q m))
              (λ q. theirs i ne k m (rw q (last-mem x xs))))
          (h.valid i))
      (λ i k ne m q. elim (append_cases k c (x ∷ xs) m) [
        | inl o ↦ theirs i ne k q o
        | inr o ↦ unused i (subst (λ z. Mem z (chains i)) o q)
      ])
      (λ k v out.
        let before =
          outside_before chains n longer k out
            (λ m. mem-append_left (c ∷ []) (subst (Mem k) e m)) in
        linked_ne fat (last x xs) c k
          (λ q. out n (inside k (rw q (mem-append_right (x ∷ xs) mem-cons_self))))
          (λ q. before n (subst (Mem k) (sym e) (rw q (last-mem x xs))))
        ∙ h.covered k v before)
  where
    longer : List ℕ
    longer = x ∷ (xs ++ c ∷ [])

    chain : Chain fat x (x ∷ xs)
    chain = subst (IsChain fat) e (h.valid n)

    unused : (i : ℕ) → ¬ Mem c (chains i)
    unused i = IsChain-free fat (chains i) c (h.valid i) t.1

    alone : ¬ Mem c (x ∷ xs)
    alone m = unused n (subst (Mem c) (sym e) m)

    theirs : (i : ℕ) → i ≢ n → (k : ℕ) → Mem k (chains i) → ¬ Mem k (x ∷ xs)
    theirs i ne k m q = h.apart i n k ne m (subst (Mem k) (sym e) q)

    inside : (k : ℕ) → Mem k longer → Mem k (update chains n longer n)
    inside k m = subst (Mem k) (sym (update_self chains n longer)) m

advance_taken :
    (d : BlockDevice) (fat : ℕ → ℕ) (cur c : ℕ)
    → fat cur ≡ fat_end
    → Takes fat c
    → ((advance d fat cur).0 ≡ some c) × ((advance d fat cur).1 ≡ linked fat cur c)
unfolding advance
advance_taken d fat cur c ends t =
    let (lo, hi) = t.0 in
    let other : (c == 65535) ≡ false = ground arith in rw (ends, t.3, other) (refl, refl)

advance_without_room :
    (d : BlockDevice) (fat : ℕ → ℕ) (cur : ℕ)
    → fat cur ≡ fat_end
    → Full fat
    → ((advance d fat cur).0 ≡ none) × ((advance d fat cur).1 ≡ fat)
unfolding advance
advance_without_room d fat cur ends full = rw (ends, full.1) (refl, refl)

-- At the last cluster of a chain, `advance` adds the lowest free cluster to the end of that chain
-- and keeps the other chains, or it fails, when every data cluster is in use, and keeps the table.
pub advance-Owned :
    (d : BlockDevice) (fat : ℕ → ℕ) (chains : ℕ → List ℕ) (n x : ℕ) (xs : List ℕ)
    → Owned fat chains
    → chains n ≡ x ∷ xs
    → let r = advance d fat (last x xs) in
      ((c : ℕ) × Takes fat c × (r.0 ≡ some c) × Owned r.1 (update chains n (x ∷ (xs ++ c ∷ []))))
      ⊎ (Full fat × (r.0 ≡ none) × (r.1 ≡ fat))
advance-Owned d fat chains n x xs h e = elim (alloc_cluster_cases fat) [
  | inl (c, t) ↦
      let (gives, table) = advance_taken d fat (last x xs) c ends t in
      inl (c, t, gives, rw table (linked-Owned fat chains n x xs c h e t))
  | inr full ↦
      let (fails, same) = advance_without_room d fat (last x xs) ends full in
      inr (full, fails, same)
]
  where
    ends : fat (last x xs) ≡ fat_end
    ends = Chain-last fat x x xs (subst (IsChain fat) e (h.valid n))
