-- ===== src/SuperBlock/Free.antt =====
-- `bfree` of src/fs/unix/super_block.cpp against a push on the list of free blocks.
use pseudo_fs.Common.{
  ℕ, zero, suc, ◌+◌, ◌-◌, ◌%◌, ◌≤◌, ◌<◌, ◌≡◌, ◌≢◌, refl, sym, ap, ap₂, subst, ◌∙◌, List, ◌∷◌, ◌++◌,
  arith, ◌==◌, Bool-cases, inl, inr, ==_iff,
}
use pseudo_fs.Common.Arrays.{word, bytes, word-bytes, update, inc16, u16_mod}
use pseudo_fs.Common.Lists.{All, NotIn, length, NotIn-append_right, All-append_right}
use pseudo_fs.Layout.{data_blk_num}
use pseudo_fs.BlockDevice.{BlockDevice}
use pseudo_fs.SuperBlock.{DiskSuperBlock, Volume, data_block, write_data, bfree, spill_image}
use pseudo_fs.SuperBlock.Blocks.{write_buf-HasLayout, word-write_data_self}
use pseudo_fs.SuperBlock.FreeList.{Holds, Chain, IsDataBlock, stack, stack-ext, Chain-write_data}

abbrev pushed : Volume → ℕ → Volume
pushed v b = record v {
  sb = record (v.sb) {
    s_nfree = (v.s_nfree + 1) % u16_mod;
    s_free = update v.s_free v.s_nfree b;
    s_free_total = inc16 v.s_free_total;
    s_fmod = 1;
  };
}

abbrev spilled : Volume → ℕ → Volume
spilled v b = record v {
  dev = write_data v.dev b (bytes (spill_image v.sb));
  sb = record (v.sb) {
    s_nfree = 1;
    s_free = update v.s_free 0 b;
    s_free_total = inc16 v.s_free_total;
    s_fmod = 1;
  };
}

bfree_push : (v : Volume) (b : ℕ) → v.s_nfree ≢ 50 → bfree b v ≡ pushed v b
unfolding bfree
bfree_push v b ne = ground arith

bfree_spill : (v : Volume) (b : ℕ) → v.s_nfree ≡ 50 → bfree b v ≡ spilled v b
unfolding bfree
bfree_spill v b e = ground arith

-- Each value of a stack satisfies what all free blocks satisfy.
stack-All :
    (P : ℕ → Type 0) (m : ℕ) (f : ℕ → ℕ) (rest : List ℕ)
    → All P (stack m f ++ rest)
    → (i : ℕ) → i < m
    → P (f (suc i))
stack-All P zero f rest a i p = elim p [ ]
stack-All P (suc m) f rest a i p = elim (Bool-cases (i == m)) [
  | inl e ↦ subst (λ j. P (f (suc j))) (sym ((==_iff i m).0 e)) a.0
  | inr ne ↦ stack-All P m f rest a.1 i (ground arith)
]

Chain-link_lt :
    (d : BlockDevice) (groups link : ℕ) (free : List ℕ)
    → All IsDataBlock free
    → Chain d groups link free
    → link < data_blk_num
Chain-link_lt d zero link free a c = omega arith
Chain-link_lt d (suc groups) link free a (ne, m, small, count, rest, e, c) =
    let a' = subst (All IsDataBlock) e a in omega (arith, a'.0)

-- The link and the block numbers of the in-memory group are 16-bit words.
pub memory_lt :
    (d : BlockDevice) (groups m : ℕ) (f : ℕ → ℕ) (rest : List ℕ)
    → All IsDataBlock (stack m f ++ rest)
    → Chain d groups (f 0) rest
    → (i : ℕ) → i ≤ m
    → f i < 65536
memory_lt d groups m f rest valid c zero p = omega (
  arith,
  Chain-link_lt d groups (f 0) rest (All-append_right IsDataBlock (stack m f) rest valid) c,
)
memory_lt d groups m f rest valid c (suc i) p =
    let free_one = stack-All IsDataBlock m f rest valid i (omega arith) in omega (arith, free_one)

spill_lt : (s : DiskSuperBlock) (k : ℕ) → s.s_free k < 65536 → spill_image s (suc k) < 65536
unfolding spill_image
spill_lt s k small = let back : suc k - 1 ≡ k = omega arith in rw back (ground arith)

spill_image_entry :
    (s : DiskSuperBlock) (i : ℕ) → i < s.s_nfree → spill_image s (1 + i) ≡ s.s_free i
unfolding spill_image
spill_image_entry s i p = let back : 1 + i - 1 ≡ i = omega arith in rw back (ground arith)

module _ (v : Volume) (b : ℕ) (free : List ℕ) (h : Holds v free) (ok : IsDataBlock b)
    (new : NotIn b free) where
  total' : inc16 v.s_free_total ≡ suc (length free) % u16_mod
  total' = omega (arith, h.total)

  push_within : v.s_nfree ≢ 50 → Holds (bfree b v) (b ∷ free)
  push_within ne = rw (bfree_push v b ne) (record {
    layout = h.layout;
    m = suc h.m;
    fits = omega (arith, h.fits, h.nfree);
    nfree = omega (arith, h.fits, h.nfree);
    groups = h.groups;
    rest = h.rest;
    split = ap₂ ◌∷◌ top (h.split ∙ ap (λ xs. xs ++ h.rest) (stack-ext h.m _ _ below));
    chain = subst (λ l. Chain v.dev h.groups l h.rest) (below 0 (omega arith)) h.chain;
    valid = (ok, h.valid);
    distinct = (new, h.distinct);
    total = total';
  })
    where
      top : b ≡ update v.s_free v.s_nfree b (suc h.m)
      top = ground (arith, h.nfree)

      below : (i : ℕ) → i ≤ h.m → v.s_free i ≡ update v.s_free v.s_nfree b i
      below i p = ground (arith, h.nfree)

  push_group : v.s_nfree ≡ 50 → Holds (bfree b v) (b ∷ free)
  push_group e = rw (bfree_spill v b e) (record {
    layout = write_buf-HasLayout v.dev _ _ h.layout;
    m = 0;
    fits = omega arith;
    nfree = refl;
    groups = suc h.groups;
    rest = b ∷ free;
    split = refl;
    chain = (
      (λ z. absurd (omega (arith, ok))),
      h.m,
      h.fits,
      stored 0 (omega arith) ∙ count,
      h.rest,
      ap (λ xs. b ∷ xs) (h.split ∙ ap (λ xs. xs ++ h.rest) (stack-ext h.m _ _ entry)),
      subst (λ l. Chain (write_data v.dev b (bytes (spill_image v.sb))) h.groups l h.rest)
          (entry 0 (omega arith))
          (Chain-write_data v.dev b _ h.layout h.groups _ h.rest
            (NotIn-append_right b (stack h.m v.s_free) h.rest (subst (NotIn b) h.split new))
            h.chain),
    );
    valid = (ok, h.valid);
    distinct = (new, h.distinct);
    total = total';
  })
    where
      count : spill_image v.sb 0 ≡ suc h.m
      count = unfold spill_image in h.nfree

      valid : All IsDataBlock (stack h.m v.s_free ++ h.rest)
      valid = subst (All IsDataBlock) h.split h.valid

      small : (i : ℕ) → i ≤ h.m → v.s_free i < 65536
      small = memory_lt v.dev h.groups h.m v.s_free h.rest valid h.chain

      image_lt : (k : ℕ) → k ≤ suc h.m → spill_image v.sb k < 65536
      image_lt zero p = unfold spill_image in omega (arith, e)
      image_lt (suc k) p = spill_lt v.sb k (small k (omega arith))

      stored :
          (k : ℕ)
          → k ≤ suc h.m
          → word (data_block (write_data v.dev b (bytes (spill_image v.sb))) b) k
            ≡ spill_image v.sb k
      stored k p =
          word-write_data_self v.dev b _ k h.layout (omega (arith, ok)) (omega (arith, h.fits))
          ∙ word-bytes _ k (image_lt k p)

      entry :
          (i : ℕ)
          → i ≤ h.m
          → v.s_free i ≡ word (data_block (write_data v.dev b (bytes (spill_image v.sb))) b) (1 + i)
      entry i p =
          sym (stored (1 + i) (omega arith) ∙ spill_image_entry v.sb i (omega (arith, h.nfree)))

-- Freeing a data block that is not free puts it in front of the list, whether it goes into memory or
-- the full stack is written to disk first.
pub bfree-push :
    (v : Volume) (b : ℕ) (free : List ℕ)
    → Holds v free
    → IsDataBlock b
    → NotIn b free
    → Holds (bfree b v) (b ∷ free)
bfree-push v b free h ok new = elim (Bool-cases (v.s_nfree == 50)) [
  | inl full ↦ push_group v b free h ok new ((==_iff _ _).0 full)
  | inr room ↦ push_within v b free h ok new (ground arith)
]
