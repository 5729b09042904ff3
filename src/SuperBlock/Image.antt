-- ===== src/SuperBlock/Image.antt =====
-- The super block on disk: `load` after `flush`, the way from one mount to the next.
use pseudo_fs.Common.{
  ℕ, ◌+◌, ◌-◌, ◌≤◌, ◌<◌, ◌≡◌, ◌≢◌, refl, sym, ap, subst, ◌∙◌, List, [], ◌∷◌, ◌++◌, arith,
}
use pseudo_fs.Common.Arrays.{word, bytes, word-bytes}
use pseudo_fs.Common.Lists.{All}
use pseudo_fs.Layout.{super_blk}
use pseudo_fs.BlockDevice.{read_buf, write_buf}
use pseudo_fs.SuperBlock.{DiskSuperBlock, Volume, image, of_image, load, flush}
use pseudo_fs.SuperBlock.Blocks.{HasLayout, write_buf-HasLayout, word-write_buf_self}
use pseudo_fs.SuperBlock.FreeList.{Holds, IsDataBlock, stack, stack-ext, Chain-write_buf}
use pseudo_fs.SuperBlock.Free.{memory_lt}

-- A word of the super block's block after `flush`.
flushed_word :
    (v : Volume) (k : ℕ)
    → HasLayout v.dev
    → k < 256
    → image v.sb k < 65536
    → word (read_buf (flush v).dev super_blk) k ≡ image v.sb k
unfolding flush
flushed_word v k h p small =
    word-write_buf_self v.dev 1 _ k h (omega arith) p ∙ word-bytes (image v.sb) k small

image_free : (s : DiskSuperBlock) (i : ℕ) → i < 50 → image s (3 + i) ≡ s.s_free i
unfolding image
image_free s i p = let back : 3 + i - 3 ≡ i = omega arith in rw back (ground arith)

reload_free :
    (v : Volume) (i : ℕ)
    → HasLayout v.dev
    → i < 50
    → v.s_free i < 65536
    → (load (flush v)).s_free i ≡ v.s_free i
unfolding load of_image
reload_free v i h p small =
    flushed_word v (3 + i) h (omega arith) (rw (image_free v.sb i p) small) ∙ image_free v.sb i p

image_inode : (s : DiskSuperBlock) (i : ℕ) → i < 50 → image s (54 + i) ≡ s.s_inode i
unfolding image
image_inode s i p = let back : 54 + i - 54 ≡ i = omega arith in rw back (ground arith)

-- Every 16-bit field fits in its place.
pub record IsWords (s : DiskSuperBlock) : Type 0 where
  pub isize : s.s_isize < 65536
  pub fsize : s.s_fsize < 65536
  pub nfree : s.s_nfree < 65536
  pub free : (i : ℕ) → i < 50 → s.s_free i < 65536
  pub ninode : s.s_ninode < 65536
  pub inode : (i : ℕ) → i < 50 → s.s_inode i < 65536
  pub rinode : s.s_rinode < 65536
  pub free_total : s.s_free_total < 65536
  pub inode_total : s.s_inode_total < 65536
  pub root_ino : s.s_root_ino < 65536

-- Two super blocks agree in everything but the flag `s_fmod`.
pub record Agrees (s t : DiskSuperBlock) : Type 0 where
  pub isize : s.s_isize ≡ t.s_isize
  pub fsize : s.s_fsize ≡ t.s_fsize
  pub nfree : s.s_nfree ≡ t.s_nfree
  pub free : (i : ℕ) → i < 50 → s.s_free i ≡ t.s_free i
  pub ninode : s.s_ninode ≡ t.s_ninode
  pub inode : (i : ℕ) → i < 50 → s.s_inode i ≡ t.s_inode i
  pub rinode : s.s_rinode ≡ t.s_rinode
  pub free_total : s.s_free_total ≡ t.s_free_total
  pub inode_total : s.s_inode_total ≡ t.s_inode_total
  pub root_ino : s.s_root_ino ≡ t.s_root_ino

-- `load` after `flush` gives back the super block, in all its fields but `s_fmod`.
pub load-flush : (v : Volume) → HasLayout v.dev → IsWords v.sb → Agrees (load (flush v)).sb v.sb
unfolding load of_image image
load-flush v h w = record {
  isize = flushed_word v 0 h (omega arith) w.isize;
  fsize = flushed_word v 1 h (omega arith) w.fsize;
  nfree = flushed_word v 2 h (omega arith) w.nfree;
  free = λ i p. reload_free v i h p (w.free i p);
  ninode = flushed_word v 53 h (omega arith) w.ninode;
  inode = λ i p.
      flushed_word v (54 + i) h (omega arith) (rw (image_inode v.sb i p) (w.inode i p))
      ∙ image_inode v.sb i p;
  rinode = flushed_word v 104 h (omega arith) w.rinode;
  free_total = flushed_word v 105 h (omega arith) w.free_total;
  inode_total = flushed_word v 106 h (omega arith) w.inode_total;
  root_ino = flushed_word v 107 h (omega arith) w.root_ino;
}

no_super : (free : List ℕ) → All (λ c. super_blk ≢ 34 + c) free
no_super [] = tt
no_super (x ∷ xs) = (omega arith, no_super xs)

-- `flush` writes outside the data area.
pub flush-Holds : (v : Volume) (free : List ℕ) → Holds v free → Holds (flush v) free
unfolding flush
flush-Holds v free h = record {
  layout = write_buf-HasLayout v.dev _ _ h.layout;
  m = h.m;
  fits = h.fits;
  nfree = h.nfree;
  groups = h.groups;
  rest = h.rest;
  split = h.split;
  chain = Chain-write_buf v.dev super_blk _ h.layout h.groups _ h.rest (no_super h.rest) h.chain;
  valid = h.valid;
  distinct = h.distinct;
  total = h.total;
}

reload_nfree :
    (v : Volume) → HasLayout v.dev → v.s_nfree < 65536 → (load (flush v)).s_nfree ≡ v.s_nfree
unfolding load of_image
reload_nfree v h small = unfold image in flushed_word v 2 h (omega arith) small

reload_total :
    (v : Volume)
    → HasLayout v.dev
    → v.s_free_total < 65536
    → (load (flush v)).s_free_total ≡ v.s_free_total
unfolding load of_image
reload_total v h small = unfold image in flushed_word v 105 h (omega arith) small

reload_dev : (v : Volume) → (load (flush v)).dev ≡ write_buf v.dev super_blk (bytes (image v.sb))
unfolding load flush
reload_dev v = refl

-- The free list survives: what a volume holds, it holds after `flush` and `load`.
pub load-flush-Holds : (v : Volume) (free : List ℕ) → Holds v free → Holds (load (flush v)) free
load-flush-Holds v free h = record {
  layout = rw (reload_dev v) (write_buf-HasLayout v.dev _ _ h.layout);
  m = h.m;
  fits = h.fits;
  nfree = reload_nfree v h.layout (omega (arith, h.nfree, h.fits)) ∙ h.nfree;
  groups = h.groups;
  rest = h.rest;
  split = h.split ∙ ap (λ xs. xs ++ h.rest) (stack-ext h.m _ _ (λ i p. sym (same i p)));
  chain =
      rw (reload_dev v, same 0 (omega arith))
        (Chain-write_buf v.dev super_blk _ h.layout h.groups _ h.rest (no_super h.rest) h.chain);
  valid = h.valid;
  distinct = h.distinct;
  total = reload_total v h.layout (omega (arith, h.total)) ∙ h.total;
}
  where
    valid : All IsDataBlock (stack h.m v.s_free ++ h.rest)
    valid = subst (All IsDataBlock) h.split h.valid

    same : (i : ℕ) → i ≤ h.m → (load (flush v)).s_free i ≡ v.s_free i
    same i p =
        reload_free v i h.layout (omega (arith, h.fits))
          (memory_lt v.dev h.groups h.m v.s_free h.rest valid h.chain i p)
