-- ===== src/SuperBlock/Tests.antt =====
-- The free lists on small inputs.
use pseudo_fs.Common.{ℕ, ◌+◌, ◌≤◌, ◌<◌, ◌≡◌, refl, List, [], ◌∷◌, arith, if◌then◌else◌, ◌==◌}
use pseudo_fs.Common.Arrays.{word}
use pseudo_fs.Common.Lists.{All, length}
use pseudo_fs.Layout.{data_blk_num}
use pseudo_fs.BlockDevice.{BlockDevice, create, read_block, read_buf}
use pseudo_fs.SuperBlock.{
  Volume, attach, format, balloc, bfree, collect_free_blocks, build_groups, flush, finish,
  free_block_count, data_block,
}
use pseudo_fs.SuperBlock.Blocks.{HasLayout}
use pseudo_fs.SuperBlock.FreeList.{Holds}
use pseudo_fs.SuperBlock.Alloc.{balloc-pop}
use pseudo_fs.SuperBlock.Free.{bfree-push}
use pseudo_fs.SuperBlock.Format.{format-Holds}
use pseudo_fs.SuperBlock.Collect.{collect_free_blocks-perm}
use pseudo_fs.SuperBlock.Exhausted.{balloc-bfree_full}
use pseudo_fs.SuperBlock.Inodes.{HoldsInodes}
use mathlib.Core.List.{Perm}

abbrev fresh : Volume
unfolding attach create
fresh = attach (create 2082 512)

fresh-HasLayout : HasLayout fresh.dev
unfolding create fresh
fresh-HasLayout = record { blocks = refl; bytes = refl }

formatted_count : free_block_count (format 3 1 fresh) ≡ 2045
unfolding format build_groups attach create flush finish
formatted_count = refl

-- A disk whose bytes are all 255.
abbrev worn_disk : BlockDevice
worn_disk = record { disk = λ i. 255; total_blocks = 2082; block_size = 512 }

abbrev stock : ℕ → ℕ
stock i = if i == 1 then 7 else if i == 2 then 9 else 0

abbrev inode_stock : ℕ → ℕ
inode_stock i = if i == 0 then 5 else if i == 1 then 3 else 0

-- A super block with this many places taken on the stack of blocks.
abbrev pub small : ℕ → ℕ → Volume
small nfree total = record {
  dev = worn_disk;
  sb = record {
    s_isize = 32;
    s_fsize = 2048;
    s_nfree = nfree;
    s_free = stock;
    s_ninode = 2;
    s_inode = inode_stock;
    s_rinode = 6;
    s_free_total = total;
    s_inode_total = 2;
    s_root_ino = 0;
    s_fmod = 0;
  };
}

pub two_free-Holds : Holds (small 3 2) (9 ∷ 7 ∷ [])
two_free-Holds = record {
  layout = record { blocks = refl; bytes = refl };
  m = 2;
  fits = omega arith;
  nfree = refl;
  groups = 0;
  rest = [];
  split = refl;
  chain = (refl, refl);
  valid = ((omega arith, omega arith), ((omega arith, omega arith), tt));
  distinct = (((λ e. omega arith), tt), (tt, tt));
  total = refl;
}

none_free-Holds : Holds (small 1 0) []
none_free-Holds = record {
  layout = record { blocks = refl; bytes = refl };
  m = 0;
  fits = omega arith;
  nfree = refl;
  groups = 0;
  rest = [];
  split = refl;
  chain = (refl, refl);
  valid = tt;
  distinct = tt;
  total = refl;
}

two_inodes-HoldsInodes : HoldsInodes (small 3 2) (3 ∷ 5 ∷ [])
two_inodes-HoldsInodes = record {
  fits = omega arith;
  top_first = refl;
  valid = (omega arith, (omega arith, tt));
  distinct = (((λ e. omega arith), tt), (tt, tt));
}

balloc-pop_example : ((balloc (small 3 2)).0 ≡ 9) × Holds (balloc (small 3 2)).1 (7 ∷ [])
balloc-pop_example = balloc-pop (small 3 2) 9 (7 ∷ []) two_free-Holds

bfree-push_example : Holds (bfree 40 (small 3 2)) (40 ∷ 9 ∷ 7 ∷ [])
bfree-push_example =
    bfree-push (small 3 2) 40 (9 ∷ 7 ∷ []) two_free-Holds (omega arith, omega arith)
      ((λ e. omega arith), ((λ e. omega arith), tt))

format-Holds_example :
    (free : List ℕ) × Holds (format 3 1 fresh) free
    × (length free + 3 ≡ data_blk_num)
    × All (λ b. (3 ≤ b) × (b < data_blk_num)) free
format-Holds_example = format-Holds 3 1 fresh fresh-HasLayout (omega arith) (omega arith)

collect_free_blocks-perm_example : Perm (collect_free_blocks (small 3 2)) (9 ∷ 7 ∷ [])
collect_free_blocks-perm_example = collect_free_blocks-perm (small 3 2) (9 ∷ 7 ∷ []) two_free-Holds

worn_word : word (data_block (small 1 0).dev 12) 0 ≡ 65535
unfolding word read_buf read_block
worn_word = refl

balloc-bfree_full_example :
    let w = bfree 12 (balloc (small 1 0)).1 in
    ((balloc w).0 ≡ 12) × ((free : List ℕ) → ¬ Holds (balloc w).1 free)
balloc-bfree_full_example =
    balloc-bfree_full (small 1 0) 12 none_free-Holds (omega arith, omega arith)
      (omega (arith, worn_word))
