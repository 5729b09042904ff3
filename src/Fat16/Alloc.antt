-- ===== src/Fat16/Alloc.antt =====
-- `alloc_cluster` of src/fs/fat16/fat16_fs.cpp: which cluster it gives out.
use pseudo_fs.Common.{
  ℕ, ◌≤◌, ◌<◌, ◌≡◌, ◌≢◌, refl, ap, ◌∙◌, ◌⊎◌, inl, inr, Option, none, some, true, false, ◌==◌, arith,
}
use pseudo_fs.Common.Arrays.{update}
use pseudo_fs.Common.Search.{first_index-some, first_index-least, first_index-none}
use pseudo_fs.Fat16.{
  Fat16Fs, fat_end, fat_free, or_end, free_from, alloc_with, alloc_cluster, find_free_cluster,
  cluster_to_block, data_start,
}

-- A number of a data cluster.
abbrev pub IsCluster : ℕ → Type 0
IsCluster c = (2 ≤ c) × (c < 2064)

-- What `alloc_cluster` does when it gives out c.
abbrev pub Takes : (ℕ → ℕ) → ℕ → Type 0
Takes fat c =
    IsCluster c
    × (fat c ≡ fat_free)
    × ((k : ℕ) → 2 ≤ k → k < c → fat k ≢ fat_free)
    × (alloc_cluster fat ≡ (c, update fat c fat_end))

-- What it does when every cluster is in use.
abbrev pub Full : (ℕ → ℕ) → Type 0
Full fat = ((k : ℕ) → IsCluster k → fat k ≢ fat_free) × (alloc_cluster fat ≡ (fat_end, fat))

free_test : (x : ℕ) → (x == 0) ≡ true → x ≡ 0
free_test x e = ground arith

used_test : (x : ℕ) → (x == 0) ≡ false → x ≢ 0
used_test x e = ground arith

pub alloc_cluster_cases : (fat : ℕ → ℕ) → ((c : ℕ) × Takes fat c) ⊎ Full fat
unfolding alloc_cluster free_from
alloc_cluster_cases fat = from_search (free_from fat) refl
  where
    from_search : (r : Option ℕ) → free_from fat ≡ r → ((c : ℕ) × Takes fat c) ⊎ Full fat
    from_search none e = inr (
      (λ k (lo, hi). used_test (fat k) (first_index-none _ 2 2062 k e lo (omega arith))),
      ap (alloc_with fat) e,
    )
    from_search (some c) e =
        let (lo, hi, free) = first_index-some _ 2 2062 c e in
        inl (
          c,
          (
            (lo, omega arith),
            free_test (fat c) free,
            (λ k lo hi. used_test (fat k) (first_index-least _ 2 2062 c k e lo hi)),
            ap (alloc_with fat) e,
          ),
        )

-- `alloc_cluster` either gives out the lowest free data cluster, whose block lies in the data area
-- of the disk, and marks it as the end of a chain without touching another entry, or it returns
-- FAT16_END_OF_CHAIN and leaves the table as it was, which happens only if no data cluster is free;
-- `find_free_cluster` names the same cluster.
pub alloc_cluster_lem :
    (u : Fat16Fs)
    → ((c : ℕ) × Takes u.fat c
        × (data_start ≤ cluster_to_block c)
        × (cluster_to_block c < 2082)
        × (find_free_cluster u ≡ c))
      ⊎ (Full u.fat × (find_free_cluster u ≡ fat_end))
unfolding find_free_cluster alloc_cluster
alloc_cluster_lem u = elim (alloc_cluster_cases u.fat) [
  | inl (c, t) ↦
      let (lo, hi) = t.0 in
      inl (c, t, omega arith, omega arith, same_number (free_from u.fat) ∙ ap (λ r. r.0) t.3)
  | inr f ↦ inr (f, same_number (free_from u.fat) ∙ ap (λ r. r.0) f.1)
]
  where
    same_number : (r : Option ℕ) → or_end r ≡ (alloc_with u.fat r).0
    same_number none = refl
    same_number (some c) = refl
