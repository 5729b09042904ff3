-- ===== src/UnixFs/Usage.antt =====
-- src/fs/unix/unix_fs.cpp: `fs_disk_usage` and `fs_block_map`, and the free list that they show.
use pseudo_fs.Common.{
  ℕ, ◌+◌, ◌-◌, ◌%◌, ◌<◌, ◌≤◌, ◌≡◌, ◌≢◌, refl, ◌∙◌, List, [], ◌∷◌, arith, ltb, ◌↔◌, if◌then◌else◌,
}
use mathlib.Core.List.{Mem, not-mem-nil, mem-cons_self, mem-cons_of_mem, mem_of_ne_of_mem}
use mathlib.Core.List.Perm
use native.Mathlib.Decide.{ℕ_discrete}
use pseudo_fs.Common.Arrays.{update, u32_mod}
use pseudo_fs.Common.Lists.{length}
use pseudo_fs.Layout.{total_blk_num, data_start_blk, inode_total}
use pseudo_fs.SuperBlock.{Volume, collect_free_blocks, free_block_count, free_inode_count}
use pseudo_fs.SuperBlock.FreeList.{Holds, Holds-free_total}
use pseudo_fs.SuperBlock.Collect.{collect_free_blocks-perm}

-- `DiskUsage` of include/core/vfs.h.
pub record DiskUsage : Type 0 where
  pub total_blocks : ℕ
  pub used_blocks : ℕ
  pub total_inodes : ℕ
  pub used_inodes : ℕ

unfoldable pub fs_disk_usage : Volume → DiskUsage
fs_disk_usage v = record {
  total_blocks = v.s_fsize;
  used_blocks = (v.s_fsize + u32_mod - free_block_count v) % u32_mod;
  total_inodes = inode_total;
  used_inodes = (inode_total + u32_mod - free_inode_count v) % u32_mod;
}

-- The states of a block in the map.
abbrev pub blk_free : ℕ
blk_free = 0

abbrev pub blk_used : ℕ
blk_used = 1

abbrev pub blk_meta : ℕ
blk_meta = 2

-- The loop over the free blocks.
abbrev pub mark_one : ℕ → (ℕ → ℕ) → ℕ → ℕ
mark_one fb out =
    if ltb (data_start_blk + fb) total_blk_num
    then update out (data_start_blk + fb) blk_free
    else out

unfoldable pub mark_free : List ℕ → (ℕ → ℕ) → ℕ → ℕ
mark_free [] out = out
mark_free (fb ∷ fbs) out = mark_free fbs (mark_one fb out)

unfoldable pub fs_block_map : Volume → ℕ → ℕ
unfolding mark_free
fs_block_map v =
    mark_free (collect_free_blocks v) (λ b. if ltb b data_start_blk then blk_meta else blk_used)

mark_one_at : (x : ℕ) (out : ℕ → ℕ) → x < 2048 → mark_one x out (34 + x) ≡ blk_free
mark_one_at x out p = ground arith

mark_one_ne : (fb x : ℕ) (out : ℕ → ℕ) → x ≢ fb → mark_one fb out (34 + x) ≡ out (34 + x)
mark_one_ne fb x out ne = ground arith

mark_one-stays : (fb : ℕ) (out : ℕ → ℕ) (b : ℕ) → out b ≡ blk_free → mark_one fb out b ≡ blk_free
mark_one-stays fb out b e = ground arith

-- An entry that is free stays free.
mark_free-stays :
    (fbs : List ℕ) (out : ℕ → ℕ) (b : ℕ) → out b ≡ blk_free → mark_free fbs out b ≡ blk_free
unfolding mark_free
mark_free-stays [] out b e = e
mark_free-stays (fb ∷ fbs) out b e =
    mark_free-stays fbs (mark_one fb out) b (mark_one-stays fb out b e)

-- An entry below the data area is never touched.
mark_free_below : (fbs : List ℕ) (out : ℕ → ℕ) (b : ℕ) → b < 34 → mark_free fbs out b ≡ out b
unfolding mark_free
mark_free_below [] out b p = refl
mark_free_below (fb ∷ fbs) out b p =
    let here : mark_one fb out b ≡ out b = ground arith in
    mark_free_below fbs (mark_one fb out) b p ∙ here

-- A block that is not on the list keeps its state, and one that is becomes free.
mark_free_lem :
    (fbs : List ℕ) (out : ℕ → ℕ) (x : ℕ)
    → x < 2048
    → (¬ Mem x fbs → mark_free fbs out (34 + x) ≡ out (34 + x))
      × (Mem x fbs → mark_free fbs out (34 + x) ≡ blk_free)
unfolding mark_free
mark_free_lem [] out x p = ((λ out. refl), λ m. absurd (not-mem-nil m))
mark_free_lem (fb ∷ fbs) out x p = elim (ℕ_discrete x fb) [
  | yes e ↦ (
    (λ out. absurd (out (rw (← e) mem-cons_self))),
    λ m. mark_free-stays fbs (mark_one fb out) (34 + x) (rw (← e) (mark_one_at x out p)),
  )
  | no ne ↦
      let later = mark_free_lem fbs (mark_one fb out) x p in
      (
        (λ n. later.0 (λ m. n (mem-cons_of_mem fb m)) ∙ mark_one_ne fb x out ne),
        λ m. later.1 (mem_of_ne_of_mem ne m),
      )
]

-- On a volume that holds the list `free`, `fs_block_map` shows the blocks below the data area as
-- metadata, the data blocks on the list as free and the other data blocks as used, and the blocks
-- that `fs_disk_usage` counts as used are those of the volume less the length of the list.
pub fs_block_map-disk_usage :
    (v : Volume) (free : List ℕ)
    → Holds v free
    → v.s_fsize < u32_mod
    → length free ≤ v.s_fsize
    → ((b : ℕ) → b < 34 → fs_block_map v b ≡ blk_meta)
      × ((x : ℕ) → x < 2048 → Mem x free → fs_block_map v (34 + x) ≡ blk_free)
      × ((x : ℕ) → x < 2048 → ¬ Mem x free → fs_block_map v (34 + x) ≡ blk_used)
      × ((fs_disk_usage v).used_blocks + length free ≡ v.s_fsize)
unfolding fs_block_map fs_disk_usage
fs_block_map-disk_usage v free h small fits = (
  (λ b p. mark_free_below (collect_free_blocks v) at_first b p ∙ ground arith),
  (λ x p m. (mark_free_lem (collect_free_blocks v) at_first x p).1 ((same x).1 m)),
  (λ x p n.
      (mark_free_lem (collect_free_blocks v) at_first x p).0 (λ m. n ((same x).0 m))
      ∙ ground arith),
  omega (arith, Holds-free_total v free h),
)
  where
    at_first : ℕ → ℕ
    at_first b = if ltb b data_start_blk then blk_meta else blk_used

    same : (x : ℕ) → Mem x (collect_free_blocks v) ↔ Mem x free
    same x = Perm.mem_iff (collect_free_blocks-perm v free h)
