-- ===== src/SuperBlock/Alloc.antt =====
-- `balloc` of src/fs/unix/super_block.cpp against a pop of the list of free blocks.
use pseudo_fs.Common.{
  ℕ, zero, suc, ◌+◌, ◌-◌, ◌%◌, ◌≤◌, ◌<◌, ◌≡◌, ◌≢◌, refl, sym, ap, subst, ◌∙◌, List, [], ◌∷◌, ◌++◌,
  arith,
}
use pseudo_fs.Common.Arrays.{word, copy_below, dec16, u16_mod}
use pseudo_fs.Common.Lists.{length}
use pseudo_fs.Layout.{nicfree, invalid_blk}
use pseudo_fs.SuperBlock.{Volume, data_block, balloc}
use pseudo_fs.SuperBlock.FreeList.{Holds, Chain, stack, stack-ext}

-- The volume after the top of the in-memory group is taken.
abbrev popped : Volume → ℕ → Volume
popped v m = record v {
  sb = record (v.sb) { s_nfree = suc m; s_free_total = dec16 v.s_free_total; s_fmod = 1 };
}

balloc_top :
    (v : Volume) (m : ℕ) → v.s_nfree ≡ suc (suc m) → balloc v ≡ (v.s_free (suc m), popped v m)
unfolding balloc
balloc_top v m e = let p : suc (suc m) - 1 ≡ suc m = omega arith in rw (e, p, balloc) (ground arith)

abbrev refilled : Volume → Volume
refilled v =
    let buf = data_block v.dev (v.s_free 0) in
    record v {
      sb = record (v.sb) {
        s_nfree = word buf 0;
        s_free = copy_below (word buf 0) (λ i. word buf (1 + i)) v.s_free;
        s_free_total = dec16 v.s_free_total;
        s_fmod = 1;
      };
    }

balloc_link : (v : Volume) → v.s_nfree ≡ 1 → v.s_free 0 ≢ 0 → balloc v ≡ (v.s_free 0, refilled v)
unfolding balloc
balloc_link v e ne = ground arith

head_eq {ℓ} : {A : Type ℓ} {x y : A} {xs ys : List A} → x ∷ xs ≡ y ∷ ys → x ≡ y
head_eq e = cc

tail_eq {ℓ} : {A : Type ℓ} {x y : A} {xs ys : List A} → x ∷ xs ≡ y ∷ ys → xs ≡ ys
tail_eq e = cc

module _ (v : Volume) (b : ℕ) (free : List ℕ) (h : Holds v (b ∷ free)) where
  total' : dec16 v.s_free_total ≡ length free % u16_mod
  total' = omega (arith, h.total)

  pop_within :
      (m : ℕ)
      → m < 49
      → v.s_nfree ≡ suc (suc m)
      → b ∷ free ≡ v.s_free (suc m) ∷ (stack m v.s_free ++ h.rest)
      → ((balloc v).0 ≡ b) × Holds (balloc v).1 free
  pop_within m small e split = rw (balloc_top v m e) (
    sym (head_eq split),
    record {
      layout = h.layout;
      m = m;
      fits = omega arith;
      nfree = refl;
      groups = h.groups;
      rest = h.rest;
      split = tail_eq split;
      chain = h.chain;
      valid = h.valid.1;
      distinct = h.distinct.1;
      total = total';
    },
  )

  pop_group :
      (groups : ℕ)
      → v.s_nfree ≡ 1
      → Chain v.dev groups (v.s_free 0) (b ∷ free)
      → ((balloc v).0 ≡ b) × Holds (balloc v).1 free
  pop_group zero e (_, c) = cc
  pop_group (suc groups) e (ne, m, small, count, rest, split, c) = rw (balloc_link v e ne) (
    sym (head_eq split),
    record {
      layout = h.layout;
      m = m;
      fits = small;
      nfree = count;
      groups = groups;
      rest = rest;
      split = tail_eq split ∙ ap (λ xs. xs ++ rest) (stack-ext m _ _ copied);
      chain = subst (λ link. Chain v.dev groups link rest) (copied 0 (omega arith)) c;
      valid = h.valid.1;
      distinct = h.distinct.1;
      total = total';
    },
  )
    where
      copied :
          (i : ℕ) → i ≤ m → word (data_block v.dev (v.s_free 0)) (1 + i) ≡ (refilled v).s_free i
      copied i p = ground arith

  pop_cases :
      (m : ℕ)
      → m < nicfree
      → v.s_nfree ≡ suc m
      → b ∷ free ≡ stack m v.s_free ++ h.rest
      → ((balloc v).0 ≡ b) × Holds (balloc v).1 free
  pop_cases zero small e split =
      pop_group h.groups e (subst (Chain v.dev h.groups (v.s_free 0)) (sym split) h.chain)
  pop_cases (suc m) small e split = pop_within m (omega arith) e split

-- While the volume holds a free block, `balloc` gives out the first one of the list, and the
-- volume holds the others.
pub balloc-pop :
    (v : Volume) (b : ℕ) (free : List ℕ)
    → Holds v (b ∷ free)
    → ((balloc v).0 ≡ b) × Holds (balloc v).1 free
balloc-pop v b free h = pop_cases v b free h h.m h.fits h.nfree h.split

empty_cases :
    (v : Volume) (m groups : ℕ) (rest : List ℕ)
    → v.s_nfree ≡ suc m
    → [] ≡ stack m v.s_free ++ rest
    → Chain v.dev groups (v.s_free 0) rest
    → (v.s_nfree ≡ 1) × (v.s_free 0 ≡ 0)
empty_cases v zero zero rest e split (z, c) = (e, z)
empty_cases v zero (suc groups) rest e split (ne, m, small, count, rest', split', c) = cc
empty_cases v (suc m) groups rest e split c = cc

-- A volume that holds no free block has only the end of the chain in its stack.
pub Holds-empty : (v : Volume) → Holds v [] → (v.s_nfree ≡ 1) × (v.s_free 0 ≡ 0)
Holds-empty v h = empty_cases v h.m h.groups h.rest h.nfree h.split h.chain

-- With no free block `balloc` returns INVALID_BLK, and all that it changes is `s_nfree`, to 0.
pub balloc-full :
    (v : Volume)
    → Holds v []
    → balloc v ≡ (invalid_blk, record v { sb = record (v.sb) { s_nfree = 0 } })
unfolding balloc
balloc-full v h = ground (arith, Holds-empty v h)
