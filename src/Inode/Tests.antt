-- ===== src/Inode/Tests.antt =====
-- The block map of a small file.
use pseudo_fs.Common.{◌≡◌, refl, [], ◌∷◌, arith, false}
use pseudo_fs.Common.Arrays.{word, set_word}
use pseudo_fs.BlockDevice.{read_buf, write_buf, read_block, write_block}
use pseudo_fs.SuperBlock.{balloc}
use pseudo_fs.SuperBlock.Tests.{small, two_free-Holds}
use pseudo_fs.Inode.{
  FileMap, bmap, bmap_alloc, ensure_addr, ensure_entry, read_indirect, write_indirect,
}
use pseudo_fs.Common.{ℕ, sym, subst, if◌then◌else◌, ◌==◌, refl}
use pseudo_fs.BlockDevice.{BlockDevice}
use pseudo_fs.SuperBlock.{Volume}
use pseudo_fs.SuperBlock.FreeList.{Holds}
use pseudo_fs.Inode.{free_blocks}
use pseudo_fs.Inode.Truncate.{used, single, singles, double, owned, onto, Fresh, free_blocks-Holds}
use pseudo_fs.Inode.RoundTrip.{HasPointers, bmap-bmap_alloc}

-- A file with no blocks, on a disk with two free blocks: 9 and 7.
abbrev empty_file : FileMap
empty_file = record { vol = small 3 2; addr = λ i. 0; dirty = false }

empty_file-HasPointers : HasPointers empty_file (9 ∷ 7 ∷ [])
empty_file-HasPointers = record {
  places = λ i lo hi. (omega arith, ((λ e. omega arith), ((λ e. omega arith), tt)));
  inner = λ j p ne. absurd (ne refl);
}

-- Logical block 8 takes block 9 as the single indirect block, and block 7.
single_works : (bmap_alloc empty_file 8).0 ≡ 7
unfolding bmap_alloc ensure_addr ensure_entry read_indirect write_indirect balloc word set_word
    read_buf write_buf read_block write_block
single_works = refl

bmap-bmap_alloc_example :
    bmap (bmap_alloc empty_file 8).1.vol.dev (bmap_alloc empty_file 8).1.addr 8
    ≡ (bmap_alloc empty_file 8).0
bmap-bmap_alloc_example =
    bmap-bmap_alloc empty_file 8 (9 ∷ 7 ∷ []) two_free-Holds empty_file-HasPointers
      (λ e. omega (arith, e, single_works))

-- A disk of zeros but for one entry of block 22, which is 25.
abbrev used_disk : BlockDevice
used_disk = record {
  disk = λ i. if i == 28678 then 25 else 0;
  total_blocks = 2082;
  block_size = 512;
}

abbrev used_volume : Volume
used_volume = record (small 3 2) { dev = used_disk }

-- Two direct blocks and a single indirect one.
abbrev some_blocks : ℕ → ℕ
some_blocks i = if i == 0 then 20 else if i == 1 then 21 else if i == 6 then 22 else 0

used_volume-Holds : Holds used_volume (9 ∷ 7 ∷ [])
used_volume-Holds = record {
  layout = record { blocks = refl; bytes = refl };
  m = 2;
  fits = omega arith;
  nfree = refl;
  groups = 0;
  rest = [];
  split = refl;
  chain = (refl, refl);
  valid = two_free-Holds.valid;
  distinct = two_free-Holds.distinct;
  total = refl;
}

some_blocks-owned : owned used_disk some_blocks ≡ 20 ∷ 21 ∷ 25 ∷ 22 ∷ []
unfolding single used double singles word read_buf read_block
some_blocks-owned = refl

some_blocks-Fresh : Fresh (20 ∷ 21 ∷ 25 ∷ 22 ∷ []) (9 ∷ 7 ∷ [])
some_blocks-Fresh = (
  (omega arith, omega arith),
  ((λ e. omega arith), ((λ e. omega arith), tt)),
  (
    (omega arith, omega arith),
    ((λ e. omega arith), ((λ e. omega arith), ((λ e. omega arith), tt))),
    (
      (omega arith, omega arith),
      ((λ e. omega arith), ((λ e. omega arith), ((λ e. omega arith), ((λ e. omega arith), tt)))),
      (
        (omega arith, omega arith),
        (
          (λ e. omega arith),
          (
            (λ e. omega arith),
            ((λ e. omega arith), ((λ e. omega arith), ((λ e. omega arith), tt))),
          ),
        ),
        tt,
      ),
    ),
  ),
)

free_blocks-Holds_example :
    Holds (free_blocks some_blocks used_volume) (onto (owned used_disk some_blocks) (9 ∷ 7 ∷ []))
free_blocks-Holds_example =
    free_blocks-Holds some_blocks used_volume (9 ∷ 7 ∷ []) used_volume-Holds
      (subst (λ us. Fresh us (9 ∷ 7 ∷ [])) (sym some_blocks-owned) some_blocks-Fresh)
