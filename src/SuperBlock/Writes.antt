-- ===== src/SuperBlock/Writes.antt =====
-- Writes to blocks that are not free, and `balloc` as the file layer sees it.
use pseudo_fs.Common.{ℕ, ◌<◌, ◌≡◌, ◌≢◌, refl, ap, subst, ◌⊎◌, inl, inr, List, [], ◌∷◌, arith}
use pseudo_fs.Common.Arrays.{Buffer, word, bytes}
use pseudo_fs.Common.Lists.{NotIn, NotIn-append_right}
use pseudo_fs.Layout.{invalid_blk, ptrs_per_blk}
use pseudo_fs.SuperBlock.{Volume, data_block, write_data, balloc, bfree, spill_image}
use pseudo_fs.SuperBlock.Blocks.{HasLayout, write_buf-HasLayout, word-write_data_ne}
use pseudo_fs.SuperBlock.FreeList.{Holds, IsDataBlock, stack, Chain-write_data}
use pseudo_fs.SuperBlock.Alloc.{balloc-pop, balloc-full}

-- Writing a block that is not free leaves the list as it is.
pub Holds-write_data :
    (v : Volume) (free : List ℕ) (b : ℕ) (buf : Buffer)
    → Holds v free
    → NotIn b free
    → Holds (record v { dev = write_data v.dev b buf }) free
Holds-write_data v free b buf h out = record {
  layout = write_buf-HasLayout v.dev _ _ h.layout;
  m = h.m;
  fits = h.fits;
  nfree = h.nfree;
  groups = h.groups;
  rest = h.rest;
  split = h.split;
  chain =
      Chain-write_data v.dev b buf h.layout h.groups _ h.rest
        (NotIn-append_right b (stack h.m v.s_free) h.rest (subst (NotIn b) h.split out)) h.chain;
  valid = h.valid;
  distinct = h.distinct;
  total = h.total;
}

-- `balloc` writes nothing to the disk.
pub dev-balloc : (v : Volume) → (balloc v).1.dev ≡ v.dev
unfolding balloc
dev-balloc v = ground arith

-- `balloc` fails, or it gives out a free block and leaves the disk as it was.
pub balloc_cases :
    (v : Volume) (free : List ℕ)
    → Holds v free
    → ((balloc v).0 ≡ invalid_blk)
      ⊎ ((b : ℕ) × (rest : List ℕ) × (free ≡ b ∷ rest)
          × IsDataBlock b
          × NotIn b rest
          × ((balloc v).0 ≡ b)
          × Holds (balloc v).1 rest
          × ((balloc v).1.dev ≡ v.dev))
balloc_cases v [] h = inl (ap (λ r. r.0) (balloc-full v h))
balloc_cases v (b ∷ rest) h =
    let (out, held) = balloc-pop v b rest h in
    inr (b, rest, refl, h.valid.0, h.distinct.0, out, held, dev-balloc v)

-- `bfree` writes to the freed block only.
pub word-bfree :
    (v : Volume) (b c k : ℕ)
    → HasLayout v.dev
    → b ≢ c
    → k < ptrs_per_blk
    → word (data_block (bfree b v).dev c) k ≡ word (data_block v.dev c) k
unfolding bfree
word-bfree v b c k h ne p =
    ground (arith, word-write_data_ne v.dev b c (bytes (spill_image v.sb)) k h ne p)
