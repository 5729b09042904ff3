-- ===== src/Fat16/Owned.antt =====
-- The allocation table of src/fs/fat16/fat16_fs.cpp as a family of chains that share no cluster and
-- between them own every cluster that is not free.
use pseudo_fs.Common.{
  ℕ, ◌≤◌, ◌≡◌, ◌≢◌, ◌⊎◌, refl, sym, ap, subst, ◌∙◌, List, [], ◌∷◌, true, false, ◌==◌, arith, inl,
  inr,
}
use mathlib.Core.List.{Mem, dec_mem, not-mem-nil, mem-cons_self, mem-cons_of_mem, mem_of_ne_of_mem}
use native.Mathlib.Decide.{ℕ_discrete}
use pseudo_fs.Common.Arrays.{update}
use pseudo_fs.Common.Lists.{length, NotIn}
use pseudo_fs.Common.CStrings.{take, take_short}
use pseudo_fs.Fat16.{Fat16Fs, fat_end, fat_free, alloc_cluster, free_cluster_chain}
use pseudo_fs.Fat16.Alloc.{IsCluster, Takes, Full, alloc_cluster_cases}
use pseudo_fs.Fat16.Chains.{Chain, Chain-update, free-NotIn, free_cluster_chain-take}

-- A list that is empty, or the chain from its first cluster.
abbrev pub IsChain : (ℕ → ℕ) → List ℕ → Type 0
IsChain fat [] = Unit
IsChain fat (x ∷ xs) = Chain fat x (x ∷ xs)

-- Chain number i is `chains i`; an unused number has the empty list.
pub record Owned (fat : ℕ → ℕ) (chains : ℕ → List ℕ) : Type 0 where
  pub valid : (i : ℕ) → IsChain fat (chains i)
  pub apart : (i j k : ℕ) → i ≢ j → Mem k (chains i) → ¬ Mem k (chains j)
  pub covered : (k : ℕ) → IsCluster k → ((i : ℕ) → ¬ Mem k (chains i)) → fat k ≡ fat_free

pub not-mem-NotIn : (k : ℕ) (xs : List ℕ) → ¬ Mem k xs → NotIn k xs
not-mem-NotIn k [] n = tt
not-mem-NotIn k (x ∷ xs) n = (
  (λ e. n (subst (λ z. Mem k (z ∷ xs)) e mem-cons_self)),
  not-mem-NotIn k xs (λ m. n (mem-cons_of_mem x m)),
)

pub IsChain-update :
    (fat : ℕ → ℕ) (k v : ℕ) (xs : List ℕ)
    → ¬ Mem k xs
    → IsChain fat xs
    → IsChain (update fat k v) xs
IsChain-update fat k v [] out h = tt
IsChain-update fat k v (x ∷ xs) out h =
    Chain-update fat k v x (x ∷ xs) (not-mem-NotIn k (x ∷ xs) out) h

pub NotIn-not_mem : (k : ℕ) (xs : List ℕ) → NotIn k xs → ¬ Mem k xs
NotIn-not_mem k [] out m = not-mem-nil m
NotIn-not_mem k (x ∷ xs) (ne, out) m = NotIn-not_mem k xs out (mem_of_ne_of_mem ne m)

pub IsChain-free :
    (fat : ℕ → ℕ) (xs : List ℕ) (k : ℕ) → IsChain fat xs → fat k ≡ fat_free → ¬ Mem k xs
IsChain-free fat [] k h free m = not-mem-nil m
IsChain-free fat (x ∷ xs) k h free m =
    NotIn-not_mem k (x ∷ xs) (free-NotIn fat x (x ∷ xs) k h free) m

pub IsChain-agree :
    (fat fat' : ℕ → ℕ) (xs : List ℕ)
    → ((k : ℕ) → Mem k xs → fat' k ≡ fat k)
    → IsChain fat xs
    → IsChain fat' xs
IsChain-agree fat fat' [] same h = tt
IsChain-agree fat fat' (x ∷ xs) same h = chain_agree x (x ∷ xs) same h
  where
    chain_agree :
        (c : ℕ) (cs : List ℕ)
        → ((k : ℕ) → Mem k cs → fat' k ≡ fat k)
        → Chain fat c cs
        → Chain fat' c cs
    chain_agree c [] agree g = g
    chain_agree c (y ∷ ys) agree (e, v, g) = (
      e,
      v,
      subst (λ z. Chain fat' z ys) (sym (agree y mem-cons_self))
          (chain_agree (fat y) ys (λ k m. agree k (mem-cons_of_mem y m)) g),
    )

module _ (chains : ℕ → List ℕ) (n : ℕ) (new : List ℕ) where
  pub update_self : update chains n new n ≡ new
  update_self = let e : (n == n) ≡ true = ground arith in rw e refl

  pub update_ne : (i : ℕ) → i ≢ n → update chains n new i ≡ chains i
  update_ne i ne = let e : (n == i) ≡ false = ground arith in rw e refl

  -- A cluster outside the new family is outside the old one, if what chain n lost is not it.
  pub outside_before :
      (k : ℕ)
      → ((i : ℕ) → ¬ Mem k (update chains n new i))
      → (Mem k (chains n) → Mem k new)
      → (i : ℕ) → ¬ Mem k (chains i)
  outside_before k out kept i m = elim (ℕ_discrete i n) [
    | yes e ↦ out n (subst (Mem k) (sym update_self) (kept (subst (λ j. Mem k (chains j)) e m)))
    | no ne ↦ out i (subst (Mem k) (sym (update_ne i ne)) m)
  ]

  -- Chain n replaced by `new`, whose clusters no other chain has.
  pub replaced :
      (fat fat' : ℕ → ℕ)
      → Owned fat chains
      → IsChain fat' new
      → ((i : ℕ) → i ≢ n → IsChain fat' (chains i))
      → ((i k : ℕ) → i ≢ n → Mem k new → ¬ Mem k (chains i))
      → ((k : ℕ) → IsCluster k → ((i : ℕ) → ¬ Mem k (update chains n new i)) → fat' k ≡ fat_free)
      → Owned fat' (update chains n new)
  replaced fat fat' h ok others disjoint cover = record {
    valid = λ i. elim (ℕ_discrete i n) [
      | yes e ↦ rw e (subst (IsChain fat') (sym update_self) ok)
      | no ne ↦ subst (IsChain fat') (sym (update_ne i ne)) (others i ne)
    ];
    apart = λ i j k ne. elim (ℕ_discrete i n) [
      | yes e ↦ λ m q.
          let ne' : j ≢ n = (λ f. ne (e ∙ sym f)) in
          disjoint j k ne' (subst (Mem k) (ap (update chains n new) e ∙ update_self) m)
            (subst (Mem k) (update_ne j ne') q)
      | no ne' ↦ λ m q. elim (ℕ_discrete j n) [
        | yes f ↦
            disjoint i k ne' (subst (Mem k) (ap (update chains n new) f ∙ update_self) q)
              (subst (Mem k) (update_ne i ne') m)
        | no ne'' ↦
            h.apart i j k ne (subst (Mem k) (update_ne i ne') m)
              (subst (Mem k) (update_ne j ne'') q)
      ]
    ];
    covered = cover;
  }

pub singleton : (k c : ℕ) → Mem k (c ∷ []) → k ≡ c
singleton k c m = elim (ℕ_discrete k c) [
  | yes e ↦ e
  | no ne ↦ absurd (not-mem-nil (mem_of_ne_of_mem ne m))
]

-- `alloc_cluster` adds a chain of one cluster to the family, under an unused number, or every data
-- cluster is in use and the table stays as it is.
pub alloc_cluster-Owned :
    (fat : ℕ → ℕ) (chains : ℕ → List ℕ) (n : ℕ)
    → Owned fat chains
    → chains n ≡ []
    → ((c : ℕ) × Takes fat c × Owned (alloc_cluster fat).1 (update chains n (c ∷ []))) ⊎ Full fat
alloc_cluster-Owned fat chains n h empty = elim (alloc_cluster_cases fat) [
  | inr full ↦ inr full
  | inl (c, t) ↦ inl (
    c,
    t,
    subst (λ r. Owned r.1 (update chains n (c ∷ []))) (sym t.3)
        (replaced chains n (c ∷ []) fat (update fat c fat_end) h (refl, t.0, ends c)
          (λ i ne. IsChain-update fat c fat_end (chains i) (unused c t i) (h.valid i))
          (λ i k ne m. rw (singleton k c m) (unused c t i))
          (λ k v out.
            let other : k ≢ c = (λ e.
              out n (subst (Mem k) (sym (update_self chains n (c ∷ []))) (rw e mem-cons_self))) in
            let before =
              outside_before chains n (c ∷ []) k out
                (λ m. absurd (not-mem-nil (subst (Mem k) empty m))) in
            let free = h.covered k v before in ground arith)),
  )
]
  where
    ends : (c : ℕ) → update fat c fat_end c ≡ fat_end
    ends c = ground arith

    unused : (c : ℕ) → Takes fat c → (i : ℕ) → ¬ Mem c (chains i)
    unused c t i = IsChain-free fat (chains i) c (h.valid i) t.1

-- `free_cluster_chain` of the first cluster of a chain of at most 2000 clusters takes that chain
-- out of the family and frees its clusters; the other chains stay.
pub free_cluster_chain-Owned :
    (u : Fat16Fs) (chains : ℕ → List ℕ) (n x : ℕ) (xs : List ℕ)
    → Owned u.fat chains
    → chains n ≡ x ∷ xs
    → length (x ∷ xs) ≤ 2000
    → Owned (free_cluster_chain u x).fat (update chains n [])
free_cluster_chain-Owned u chains n x xs h e short =
    replaced chains n [] u.fat freed h tt
      (λ i ne.
        IsChain-agree u.fat freed (chains i) (λ k m. kept k (elsewhere i ne k m)) (h.valid i))
      (λ i k ne m. absurd (not-mem-nil m)) cover
  where
    freed : ℕ → ℕ
    freed = (free_cluster_chain u x).fat

    whole : take 2000 (x ∷ xs) ≡ x ∷ xs
    whole = take_short 2000 (x ∷ xs) short

    chain : Chain u.fat x (x ∷ xs)
    chain = subst (IsChain u.fat) e (h.valid n)

    gone : (k : ℕ) → Mem k (x ∷ xs) → freed k ≡ fat_free
    gone k m = (free_cluster_chain-take u x (x ∷ xs) k chain).0 (subst (Mem k) (sym whole) m)

    kept : (k : ℕ) → ¬ Mem k (x ∷ xs) → freed k ≡ u.fat k
    kept k out = (free_cluster_chain-take u x (x ∷ xs) k chain).1 (λ m. out (subst (Mem k) whole m))

    elsewhere : (i : ℕ) → i ≢ n → (k : ℕ) → Mem k (chains i) → ¬ Mem k (x ∷ xs)
    elsewhere i ne k m q = h.apart i n k ne m (subst (Mem k) (sym e) q)

    cover : (k : ℕ) → IsCluster k → ((i : ℕ) → ¬ Mem k (update chains n [] i)) → freed k ≡ fat_free
    cover k v out = elim (dec_mem ℕ_discrete k (x ∷ xs)) [
      | yes m ↦ gone k m
      | no o ↦
          kept k o
          ∙ h.covered k v (outside_before chains n [] k out (λ m. absurd (o (subst (Mem k) e m))))
    ]
