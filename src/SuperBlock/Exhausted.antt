-- ===== src/SuperBlock/Exhausted.antt =====
-- src/fs/unix/super_block.cpp: a block freed after `balloc` has found the volume full.
use pseudo_fs.Common.{ℕ, ◌<◌, ◌≡◌, List, [], arith}
use pseudo_fs.Common.Arrays.{word}
use pseudo_fs.Layout.{nicfree}
use pseudo_fs.SuperBlock.{Volume, data_block, balloc, bfree}
use pseudo_fs.SuperBlock.FreeList.{Holds, IsDataBlock}
use pseudo_fs.SuperBlock.Alloc.{Holds-empty}

-- The failed call has dropped the end of the chain from the stack, so the freed block takes the
-- place of the link; the next `balloc` gives it out and reads its contents as a group.
reads_contents :
    (v : Volume) (b : ℕ)
    → Holds v []
    → IsDataBlock b
    → let w = bfree b (balloc v).1 in
      ((balloc w).0 ≡ b) × ((balloc w).1.s_nfree ≡ word (data_block v.dev b) 0)
unfolding balloc bfree
reads_contents v b h ok = ground (arith, Holds-empty v h)

-- If the last block is taken, one more `balloc` fails, and then a data block is freed whose first
-- 16-bit word is above 50, the next `balloc` gives out that block and leaves a super block that
-- holds no list of free blocks at all.
pub balloc-bfree_full :
    (v : Volume) (b : ℕ)
    → Holds v []
    → IsDataBlock b
    → nicfree < word (data_block v.dev b) 0
    → let w = bfree b (balloc v).1 in
      ((balloc w).0 ≡ b) × ((free : List ℕ) → ¬ Holds (balloc w).1 free)
balloc-bfree_full v b h ok large =
    let (out, count) = reads_contents v b h ok in
    (out, λ free held. omega (arith, held.fits, held.nfree, count, large))
