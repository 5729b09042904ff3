-- ===== src/SuperBlock/Inodes.antt =====
-- src/fs/unix/super_block.cpp: the stack of free inode numbers in `ialloc`, `ifree` and `format`.
use pseudo_fs.Common.{
  ℕ, zero, suc, ◌+◌, ◌-◌, ◌≤◌, ◌<◌, ◌≡◌, refl, sym, ap, ap₂, ◌∙◌, List, [], ◌∷◌, arith, lt→ltb,
  le→ltb,
}
use pseudo_fs.Common.Arrays.{update, dec16, inc16}
use pseudo_fs.Common.Lists.{All, NotIn, Distinct}
use pseudo_fs.Layout.{nicinod, inode_total, invalid_blk}
use pseudo_fs.SuperBlock.{
  Volume, ialloc, ifree, format, finish, flush, stack_cnt, inodes_left, fill_inodes,
}

-- f (n - 1), …, f 0: the top of the stack first.
abbrev pub istack : ℕ → (ℕ → ℕ) → List ℕ
istack zero f = []
istack (suc n) f = f n ∷ istack n f

-- The inode stack of the volume is `inos`, the next one to be given out first.
pub record HoldsInodes (v : Volume) (inos : List ℕ) : Type 0 where
  pub fits : v.s_ninode ≤ nicinod
  pub top_first : inos ≡ istack v.s_ninode v.s_inode
  pub valid : All (λ i. i < inode_total) inos
  pub distinct : Distinct inos

istack-ext : (n : ℕ) (f g : ℕ → ℕ) → ((i : ℕ) → i < n → f i ≡ g i) → istack n f ≡ istack n g
istack-ext zero f g h = refl
istack-ext (suc n) f g h = ap₂ ◌∷◌ (h n (omega arith)) (istack-ext n f g (λ i p. h i (omega arith)))

istack_cases :
    (n : ℕ) (f : ℕ → ℕ) (i : ℕ) (inos : List ℕ)
    → i ∷ inos ≡ istack n f
    → (0 < n) × (i ≡ f (n - 1)) × (inos ≡ istack (n - 1) f)
istack_cases zero f i inos e = cc
istack_cases (suc n) f i inos e =
    let back : suc n - 1 ≡ n = omega arith in rw back (omega arith, cc, cc)

istack_empty : (n : ℕ) (f : ℕ → ℕ) → [] ≡ istack n f → n ≡ 0
istack_empty zero f e = refl
istack_empty (suc n) f e = cc

ialloc_top :
    (v : Volume)
    → 0 < v.s_ninode
    → ialloc v ≡ (
      v.s_inode (v.s_ninode - 1),
      record v {
        sb = record (v.sb) {
          s_ninode = v.s_ninode - 1;
          s_inode_total = dec16 v.s_inode_total;
          s_fmod = 1;
        };
      },
    )
unfolding ialloc
ialloc_top v p = ground arith

-- While the stack holds an inode number, `ialloc` gives out the first one, keeps the others, and
-- counts one free inode less.
pub ialloc-pop :
    (v : Volume) (i : ℕ) (inos : List ℕ)
    → HoldsInodes v (i ∷ inos)
    → ((ialloc v).0 ≡ i)
      × HoldsInodes (ialloc v).1 inos
      × ((ialloc v).1.s_inode_total ≡ dec16 v.s_inode_total)
ialloc-pop v i inos h =
    let (pos, top, below) = istack_cases v.s_ninode v.s_inode i inos h.top_first in
    rw (ialloc_top v pos) (
      sym top,
      record {
        fits = omega (arith, h.fits);
        top_first = below;
        valid = h.valid.1;
        distinct = h.distinct.1;
      },
      refl,
    )

-- With an empty stack `ialloc` fails and changes nothing, whatever the count of free inodes says.
pub ialloc-empty : (v : Volume) → HoldsInodes v [] → ialloc v ≡ (invalid_blk, v)
unfolding ialloc
ialloc-empty v h = ground (arith, istack_empty v.s_ninode v.s_inode h.top_first)

ifree_room :
    (v : Volume) (i : ℕ) (inos : List ℕ)
    → HoldsInodes v inos
    → i < inode_total
    → NotIn i inos
    → v.s_ninode < nicinod
    → HoldsInodes (ifree i v) (i ∷ inos)
unfolding ifree
ifree_room v i inos h ok new room =
    rw (lt→ltb v.s_ninode nicinod room, ifree)
      (record {
        fits = omega arith;
        top_first = more;
        valid = (ok, h.valid);
        distinct = (new, h.distinct);
      })
  where
    one : v.s_ninode + 1 ≡ suc v.s_ninode
    one = omega arith

    more : i ∷ inos ≡ istack (v.s_ninode + 1) (update v.s_inode v.s_ninode i)
    more =
        rw one
          (ap₂ ◌∷◌ (ground arith) (h.top_first ∙ istack-ext v.s_ninode _ _ (λ j p. ground arith)))

ifree_full :
    (v : Volume) (i : ℕ) (inos : List ℕ)
    → HoldsInodes v inos
    → v.s_ninode ≡ nicinod
    → HoldsInodes (ifree i v) inos
unfolding ifree
ifree_full v i inos h full =
    rw (le→ltb v.s_ninode nicinod (omega (arith, full)), ifree)
      (record { fits = h.fits; top_first = h.top_first; valid = h.valid; distinct = h.distinct })

-- Freeing an inode number always counts one free inode more; it puts the number in front of the
-- stack while there is room, and leaves the stack as it was when that is full.
pub ifree_lem :
    (v : Volume) (i : ℕ) (inos : List ℕ)
    → HoldsInodes v inos
    → i < inode_total
    → NotIn i inos
    → ((ifree i v).s_inode_total ≡ inc16 v.s_inode_total)
      × (v.s_ninode < nicinod → HoldsInodes (ifree i v) (i ∷ inos))
      × (v.s_ninode ≡ nicinod → HoldsInodes (ifree i v) inos)
ifree_lem v i inos h ok new =
    (unfold ifree in ground arith, ifree_room v i inos h ok new, ifree_full v i inos h)

-- r, r + 1, …: n numbers.
abbrev pub upwards : ℕ → ℕ → List ℕ
upwards zero r = []
upwards (suc n) r = r ∷ upwards n (suc r)

filled-upwards :
    (k n r : ℕ)
    → k ≤ n
    → r + n < 65536
    → istack k (fill_inodes n r (λ i. 0)) ≡ upwards k (r + (n - k))
filled-upwards zero n r p q = refl
filled-upwards (suc k) n r p q =
    let next : suc (r + (n - suc k)) ≡ r + (n - k) = omega arith in
    ap₂ ◌∷◌ (ground arith) (rw next (filled-upwards k n r (omega arith) q))

upwards-NotIn : (n r i : ℕ) → i < r → NotIn i (upwards n r)
upwards-NotIn zero r i p = tt
upwards-NotIn (suc n) r i p = (omega arith, upwards-NotIn n (suc r) i (omega arith))

upwards-Distinct : (n r : ℕ) → Distinct (upwards n r)
upwards-Distinct zero r = tt
upwards-Distinct (suc n) r = (upwards-NotIn n (suc r) r (omega arith), upwards-Distinct n (suc r))

upwards-All : (n r : ℕ) → r + n ≤ inode_total → All (λ i. i < inode_total) (upwards n r)
upwards-All zero r p = tt
upwards-All (suc n) r p = (omega arith, upwards-All n (suc r) (omega arith))

stack_cnt_bounds :
    (r : ℕ) → r ≤ inode_total → (r + stack_cnt r ≤ inode_total) × (stack_cnt r ≤ nicinod)
stack_cnt_bounds r p = let e : inodes_left r ≡ 256 - r = omega arith in rw e (ground arith)

-- After `format` the stack gives out ascending numbers from the first one that is not reserved, at
-- most 50 of them, while the count of free inodes is that of all that are not reserved.
pub format-HoldsInodes :
    (reserved reserved_inodes : ℕ) (v : Volume)
    → reserved_inodes ≤ inode_total
    → HoldsInodes
        (format reserved reserved_inodes v)
        (upwards (stack_cnt reserved_inodes) reserved_inodes)
      × ((format reserved reserved_inodes v).s_inode_total ≡ inode_total - reserved_inodes)
unfolding format flush finish
format-HoldsInodes reserved r v p = (
  record {
    fits = bounds.1;
    top_first = sym (
        filled-upwards (stack_cnt r) (stack_cnt r) r (omega arith) (omega (arith, bounds.0))
        ∙ ap (upwards (stack_cnt r)) (omega arith));
    valid = upwards-All (stack_cnt r) r bounds.0;
    distinct = upwards-Distinct (stack_cnt r) r;
  },
  omega arith,
)
  where
    bounds : (r + stack_cnt r ≤ inode_total) × (stack_cnt r ≤ nicinod)
    bounds = stack_cnt_bounds r p
