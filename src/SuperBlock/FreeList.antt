-- ===== src/SuperBlock/FreeList.antt =====
-- The free blocks as a list, in the order in which `balloc` gives them out, and what it takes for
-- the super block and the groups on disk to hold that list.
use pseudo_fs.Common.{
  ℕ, zero, suc, ◌+◌, ◌%◌, ◌≤◌, ◌<◌, ◌≡◌, ◌≢◌, refl, sym, ap, ap₂, subst, ◌∙◌, List, [], ◌∷◌, ◌++◌,
  arith, if◌then◌else◌, ◌==◌, ==_iff, Bool-cases, inl, inr,
}
use pseudo_fs.Common.Arrays.{Buffer, word, u16_mod}
use pseudo_fs.Common.Lists.{All, NotIn, Distinct, length, All-append_right}
use pseudo_fs.Layout.{data_blk_num, nicfree}
use pseudo_fs.BlockDevice.{BlockDevice, write_buf}
use pseudo_fs.SuperBlock.{Volume, data_block, write_data}
use pseudo_fs.SuperBlock.Blocks.{HasLayout, word-write_buf_ne}

-- f n, …, f 1: a stack of n values above the link in place 0.
abbrev pub stack : ℕ → (ℕ → ℕ) → List ℕ
stack zero f = []
stack (suc n) f = f (suc n) ∷ stack n f

-- `groups` groups on disk, from the one stored in block `link`, hold the free blocks `free`.
abbrev pub Chain : BlockDevice → ℕ → ℕ → List ℕ → Type 0
Chain d zero link free = (link ≡ 0) × (free ≡ [])
Chain d (suc groups) link free =
    (link ≢ 0)
    × (m : ℕ) × (m < nicfree)
    × (word (data_block d link) 0 ≡ suc m)
    × (rest : List ℕ) × (free ≡ link ∷ (stack m (λ i. word (data_block d link) (1 + i)) ++ rest))
    × Chain d groups (word (data_block d link) 1) rest

abbrev pub IsDataBlock : ℕ → Type 0
IsDataBlock b = (0 < b) × (b < data_blk_num)

-- The volume holds the list `free` of free blocks, the next one to be given out first.
pub record Holds (v : Volume) (free : List ℕ) : Type 0 where
  pub layout : HasLayout v.dev
  pub m : ℕ
  pub fits : m < nicfree
  pub nfree : v.s_nfree ≡ suc m
  pub groups : ℕ
  pub rest : List ℕ
  pub split : free ≡ stack m v.s_free ++ rest
  pub chain : Chain v.dev groups (v.s_free 0) rest
  pub valid : All IsDataBlock free
  pub distinct : Distinct free
  pub total : v.s_free_total ≡ length free % u16_mod

pub stack-ext_above :
    (n : ℕ) (f g : ℕ → ℕ) → ((i : ℕ) → i < n → f (suc i) ≡ g (suc i)) → stack n f ≡ stack n g
stack-ext_above zero f g h = refl
stack-ext_above (suc n) f g h =
    ap₂ ◌∷◌ (h n (omega arith)) (stack-ext_above n f g (λ i p. h i (omega arith)))

pub stack-ext : (n : ℕ) (f g : ℕ → ℕ) → ((i : ℕ) → i ≤ n → f i ≡ g i) → stack n f ≡ stack n g
stack-ext n f g h = stack-ext_above n f g (λ i. h (suc i))

-- A write to a block that holds none of these groups leaves them alone.
pub Chain-write_buf :
    (d : BlockDevice) (b : ℕ) (buf : Buffer)
    → HasLayout d
    → (groups link : ℕ) (free : List ℕ) → All (λ c. b ≢ 34 + c) free
    → Chain d groups link free
    → Chain (write_buf d b buf) groups link free
Chain-write_buf d b buf h zero link free out c = c
Chain-write_buf d b buf h (suc groups) link free out (ne, m, small, count, rest, e, c) = (
  ne,
  m,
  small,
  same 0 (omega arith) ∙ count,
  rest,
  e ∙ ap (λ xs. link ∷ (xs ++ rest)) (stack-ext m _ _ (λ i p. sym (same (1 + i) (omega arith)))),
  rw (same 1 (omega arith)) (
      Chain-write_buf d b buf h groups _ rest
        (All-append_right _ (stack m (λ i. word (data_block d link) (1 + i))) rest out'.1) c),
)
  where
    out' : All (λ c. b ≢ 34 + c) (link ∷ (stack m (λ i. word (data_block d link) (1 + i)) ++ rest))
    out' = subst (All (λ c. b ≢ 34 + c)) e out

    same :
        (k : ℕ)
        → k < 256
        → word (data_block (write_buf d b buf) link) k ≡ word (data_block d link) k
    same k p = word-write_buf_ne d b (34 + link) buf k h out'.0 p

data_blocks_apart : (b : ℕ) (free : List ℕ) → NotIn b free → All (λ c. 34 + b ≢ 34 + c) free
data_blocks_apart b [] out = tt
data_blocks_apart b (c ∷ free) out = (omega (arith, out.0), data_blocks_apart b free out.1)

-- A write to a block that is not free leaves the groups alone.
pub Chain-write_data :
    (d : BlockDevice) (b : ℕ) (buf : Buffer)
    → HasLayout d
    → (groups link : ℕ) (free : List ℕ) → NotIn b free
    → Chain d groups link free
    → Chain (write_data d b buf) groups link free
Chain-write_data d b buf h groups link free out c =
    Chain-write_buf d (34 + b) buf h groups link free (data_blocks_apart b free out) c

-- A list of different numbers below n has at most n of them.
without : ℕ → List ℕ → List ℕ
without n [] = []
without n (x ∷ xs) = if x == n then without n xs else x ∷ without n xs

without-All : (n : ℕ) (xs : List ℕ) → All (λ x. x < suc n) xs → All (λ x. x < n) (without n xs)
unfolding without
without-All n [] a = tt
without-All n (x ∷ xs) a = ground (arith, without-All n xs a.1)

without-NotIn : (n a : ℕ) (xs : List ℕ) → NotIn a xs → NotIn a (without n xs)
unfolding without
without-NotIn n a [] h = tt
without-NotIn n a (x ∷ xs) h = ground (arith, without-NotIn n a xs h.1)

without-Distinct : (n : ℕ) (xs : List ℕ) → Distinct xs → Distinct (without n xs)
unfolding without
without-Distinct n [] h = tt
without-Distinct n (x ∷ xs) h = ground (arith, without-Distinct n xs h.1, without-NotIn n x xs h.0)

without_absent : (n : ℕ) (xs : List ℕ) → NotIn n xs → length (without n xs) ≡ length xs
unfolding without
without_absent n [] h = refl
without_absent n (x ∷ xs) h = ground (arith, without_absent n xs h.1)

length-without : (n : ℕ) (xs : List ℕ) → Distinct xs → length xs ≤ suc (length (without n xs))
unfolding without
length-without n [] h = omega arith
length-without n (x ∷ xs) h = elim (Bool-cases (x == n)) [
  | inl e ↦
      rw e (omega (arith, without_absent n xs (subst (λ y. NotIn y xs) ((==_iff x n).0 e) h.0)))
  | inr ne ↦ rw ne (omega (arith, length-without n xs h.1))
]

pub length-le_of_Distinct :
    (n : ℕ) (xs : List ℕ) → All (λ x. x < n) xs → Distinct xs → length xs ≤ n
length-le_of_Distinct zero [] a h = omega arith
length-le_of_Distinct zero (x ∷ xs) a h = absurd (omega (arith, a.0))
length-le_of_Distinct (suc n) xs a h = omega (
  arith,
  length-without n xs h,
  length-le_of_Distinct n (without n xs) (without-All n xs a) (without-Distinct n xs h),
)

IsDataBlock-lt : (xs : List ℕ) → All IsDataBlock xs → All (λ x. x < data_blk_num) xs
IsDataBlock-lt [] a = tt
IsDataBlock-lt (x ∷ xs) a = (a.0.1, IsDataBlock-lt xs a.1)

-- So the length of the free list stays below the number of data blocks.
pub Holds-length : (v : Volume) (free : List ℕ) → Holds v free → length free ≤ data_blk_num
Holds-length v free h =
    length-le_of_Distinct data_blk_num free (IsDataBlock-lt free h.valid) h.distinct

-- The counter that `free_block_count` returns is the length of the list.
pub Holds-free_total : (v : Volume) (free : List ℕ) → Holds v free → v.s_free_total ≡ length free
Holds-free_total v free h = omega (arith, h.total, Holds-length v free h)
