-- ===== src/SuperBlock/Collect.antt =====
-- `collect_free_blocks` of src/fs/unix/super_block.cpp against the list of free blocks.
use mathlib.Core.List.{Perm, perm_middle}
use mathlib.Core.List.Perm
use pseudo_fs.Common.{
  ℕ, zero, suc, ◌+◌, ◌-◌, ◌≤◌, ◌<◌, ◌≡◌, ◌≢◌, refl, ap, subst, ◌∙◌, List, [], ◌∷◌, ◌++◌, arith,
  append-nil, le→leb,
}
use pseudo_fs.Common.Arrays.{word}
use pseudo_fs.Common.Lists.{length, length-append}
use pseudo_fs.Layout.{nicfree, data_blk_num}
use pseudo_fs.BlockDevice.{BlockDevice}
use pseudo_fs.SuperBlock.{Volume, data_block, values_up, collect_chain, collect_free_blocks}
use pseudo_fs.SuperBlock.FreeList.{Holds, Chain, stack, stack-ext, Holds-length}

values_up_snoc :
    (f : ℕ → ℕ) (lo n : ℕ) → values_up f lo (suc n) ≡ values_up f lo n ++ f (lo + n) ∷ []
unfolding values_up
values_up_snoc f lo zero = let e : lo + 0 ≡ lo = omega arith in rw e refl
values_up_snoc f lo (suc n) =
    let e : lo + 1 + n ≡ lo + suc n = omega arith in
    ap (λ xs. f lo ∷ xs)
      (values_up_snoc f (lo + 1) n ∙ ap (λ k. values_up f (lo + 1) n ++ f k ∷ []) e)

-- Read upwards or downwards, an in-memory group holds the same blocks.
values_up-stack : (f : ℕ → ℕ) (lo n : ℕ) → Perm (values_up f (lo + 1) n) (stack n (λ i. f (lo + i)))
values_up-stack f lo zero = unfold values_up in Perm.refl []
values_up-stack f lo (suc n) =
    let e : lo + 1 + n ≡ lo + suc n = omega arith in
    rw (values_up_snoc f (lo + 1) n, e)
      (Perm.trans (perm_middle (values_up f (lo + 1) n) [])
        (rw append-nil (Perm.cons _ (values_up-stack f lo n))))

memory-stack : (f : ℕ → ℕ) (n : ℕ) → Perm (values_up f 1 n) (stack n f)
memory-stack f n =
    subst (Perm (values_up f 1 n)) (stack-ext n _ _ (λ i p. ap f (omega arith)))
      (values_up-stack f 0 n)

collect_end : (guard : ℕ) (d : BlockDevice) → collect_chain guard d 0 ≡ []
unfolding collect_chain
collect_end zero d = refl
collect_end (suc guard) d = refl

collect_group :
    (guard : ℕ) (d : BlockDevice) (link m : ℕ)
    → link ≢ 0
    → m < nicfree
    → word (data_block d link) 0 ≡ suc m
    → collect_chain (suc guard) d link
      ≡ link
        ∷ (values_up (word (data_block d link)) 2 m
            ++ collect_chain guard d (word (data_block d link) 1))
unfolding collect_chain
collect_group guard d link m ne small e =
    let back : suc m - 1 ≡ m = omega arith in rw (e, back) (ground arith)

collect_chain-perm :
    (guard groups : ℕ) (d : BlockDevice) (link : ℕ) (free : List ℕ)
    → groups ≤ guard
    → Chain d groups link free
    → Perm (collect_chain guard d link) free
collect_chain-perm guard zero d link free p (z, e) =
    rw (z, e) (rw (collect_end guard d) (Perm.refl []))
collect_chain-perm zero (suc groups) d link free p c = absurd (omega arith)
collect_chain-perm (suc guard) (suc groups) d link free p (ne, m, small, count, rest, e, c) =
    rw (e, collect_group guard d link m ne small count)
      (Perm.cons link (
        Perm.append (values_up-stack (word (data_block d link)) 1 m)
          (collect_chain-perm guard groups d _ rest (omega arith) c)))

-- Each group accounts for at least one free block.
groups-le-length :
    (d : BlockDevice) (groups link : ℕ) (free : List ℕ)
    → Chain d groups link free
    → groups ≤ length free
groups-le-length d zero link free c = omega arith
groups-le-length d (suc groups) link free (ne, m, small, count, rest, e, c) = omega (
  arith,
  ap length e,
  length-append (stack m (λ i. word (data_block d link) (1 + i))) rest,
  groups-le-length d groups _ rest c,
)

-- On a volume that holds the list `free`, `collect_free_blocks` returns the blocks of `free`, each
-- once, in some order; its bound on the number of groups is never met before the end of the chain.
pub collect_free_blocks-perm :
    (v : Volume) (free : List ℕ) → Holds v free → Perm (collect_free_blocks v) free
unfolding collect_free_blocks
collect_free_blocks-perm v free h =
    let back : suc h.m - 1 ≡ h.m = omega arith in
    rw (h.nfree, back, le→leb 1 (suc h.m) (omega arith), h.split)
      (Perm.append (memory-stack v.s_free h.m)
        (collect_chain-perm data_blk_num h.groups v.dev (v.s_free 0) h.rest bound h.chain))
  where
    bound : h.groups ≤ 2048
    bound = omega (
      arith,
      groups-le-length v.dev h.groups (v.s_free 0) h.rest h.chain,
      Holds-length v free h,
      ap length h.split,
      length-append (stack h.m v.s_free) h.rest,
    )
