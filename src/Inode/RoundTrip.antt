-- ===== src/Inode/RoundTrip.antt =====
-- src/fs/unix/inode.cpp: `bmap` after `bmap_alloc`, at every level of the block map.
use pseudo_fs.Common.{Option, none, some}
use pseudo_fs.Common.{
  ℕ, ◌-◌, ◌*◌, ◌/◌, ◌%◌, ◌≤◌, ◌<◌, ◌≡◌, ◌≢◌, refl, sym, ap, subst, ◌∙◌, inl, inr, List, arith, ltb,
  ◌==◌, true, false, Bool-cases, ltb→lt,
}
use pseudo_fs.Common.Arrays.{zeros, word}
use pseudo_fs.Common.Lists.{NotIn}
use pseudo_fs.Layout.{data_blk_num, invalid_blk, ptrs_per_blk}
use pseudo_fs.BlockDevice.{BlockDevice}
use pseudo_fs.SuperBlock.{Volume, write_data}
use pseudo_fs.SuperBlock.Blocks.{HasLayout, word-write_data_self}
use pseudo_fs.SuperBlock.FreeList.{Holds}
use pseudo_fs.Inode.{
  answer, below_entry, FileMap, through, read_indirect, ensure_addr, ensure_entry, alloc_single,
  alloc_double, with_vol, bmap, bmap_alloc,
}
use pseudo_fs.Inode.Map.{ensure_addr_cases, ensure_entry_cases, Ensured, Entered}

-- The indirect blocks of a file lie in the data area and are not free, and those below the double
-- indirect block are other blocks.
pub record HasPointers (f : FileMap) (free : List ℕ) : Type 0 where
  pub places : (i : ℕ) → 6 ≤ i → i ≤ 8 → (f.addr i < data_blk_num) × NotIn (f.addr i) free
  pub inner :
      (j : ℕ)
      → j < ptrs_per_blk
      → f.addr 8 ≢ 0
      → read_indirect f.vol.dev (f.addr 8) j ≢ 0
      → (read_indirect f.vol.dev (f.addr 8) j < data_blk_num)
        × NotIn (read_indirect f.vol.dev (f.addr 8) j) free
        × (read_indirect f.vol.dev (f.addr 8) j ≢ f.addr 8)

-- The block that an allocation below place i of the inode returns is found there.
abbrev Found : ℕ → ℕ → Option ℕ × FileMap → Type 0
Found i index (none, g) = Unit
Found i index (some b, g) = through g.vol.dev (g.addr i) index ≡ b

through_present : (d : BlockDevice) (a j : ℕ) → a ≢ 0 → through d a j ≡ read_indirect d a j
through_present d a j ne = let w : (a == 0) ≡ false = ground arith in rw w refl

-- The entry below an indirect block that is there.
single_below :
    (f : FileMap) (a i index : ℕ) (rest : List ℕ)
    → Holds f.vol rest
    → f.addr i ≡ a
    → a ≢ 0
    → a < data_blk_num
    → index < ptrs_per_blk
    → NotIn a rest
    → Found i index (with_vol f (ensure_entry false f.vol a index))
single_below f a i index rest h at ne p q out =
    elim (ensure_entry_cases false f.vol a index rest h p q out) [
      | inl full ↦ rw full tt
      | inr (b, e, (_, _, found, _, _, _)) ↦ rw e (
          ap (λ k. through (ensure_entry false f.vol a index).1.dev k index) at
          ∙ through_present (ensure_entry false f.vol a index).1.dev a index ne
          ∙ found)
    ]

-- An indirect block that a place of the inode has been given.
Ensured-place :
    (f : FileMap) (i : ℕ) (free : List ℕ) (r : ℕ × FileMap)
    → (f.addr i < data_blk_num) × NotIn (f.addr i) free
    → Ensured true f i free r
    → (rest : List ℕ) × Holds r.1.vol rest
      × (r.1.addr i ≡ r.0)
      × (r.0 ≢ 0)
      × (r.0 < data_blk_num)
      × NotIn r.0 rest
Ensured-place f i free (b, f') (p, out) (rest, held, at, ne, inl (same, _, e)) = (
  rest,
  held,
  at,
  ne,
  omega (arith, same),
  subst (λ xs. NotIn b xs) e (subst (λ k. NotIn k free) same out),
)
Ensured-place f i free (b, f') (p, out) (rest, held, at, ne, inr (ok, _, new, _)) =
    (rest, held, at, ne, ok.1, new)

alloc_single-Found :
    (f : FileMap) (i index : ℕ) (free : List ℕ)
    → Holds f.vol free
    → HasPointers f free
    → 6 ≤ i
    → i ≤ 8
    → index < ptrs_per_blk
    → Found i index (alloc_single f i index)
alloc_single-Found f i index free h ptr lo hi q = elim (ensure_addr_cases true f i free h) [
  | inl full ↦ rw full tt
  | inr (b, e, made) ↦
      let (rest, held, at, ne, p, out) =
        Ensured-place f i free (b, (ensure_addr true f i).1) (ptr.places i lo hi) made in
      rw e (single_below (ensure_addr true f i).1 b i index rest held at ne p q out)
]

-- The entries of a block in use point to blocks in use other than that block.
abbrev Inner : BlockDevice → ℕ → List ℕ → Type 0
Inner d b free =
    (j : ℕ)
    → j < ptrs_per_blk
    → read_indirect d b j ≢ 0
    → (read_indirect d b j < data_blk_num)
      × NotIn (read_indirect d b j) free
      × (read_indirect d b j ≢ b)

read_indirect-zeros :
    (d : BlockDevice) (b j : ℕ)
    → HasLayout d
    → b < data_blk_num
    → j < ptrs_per_blk
    → read_indirect (write_data d b zeros) b j ≡ 0
unfolding read_indirect word
read_indirect-zeros d b j h p q = word-write_data_self d b zeros j h p q

Ensured-double :
    (f : FileMap) (free : List ℕ) (r : ℕ × FileMap)
    → Holds f.vol free
    → HasPointers f free
    → Ensured true f 8 free r
    → (rest : List ℕ) × Holds r.1.vol rest
      × (r.1.addr 8 ≡ r.0)
      × (r.0 ≢ 0)
      × (r.0 < data_blk_num)
      × NotIn r.0 rest
      × Inner r.1.vol.dev r.0 rest
Ensured-double f free (b, f') h ptr (rest, held, at, ne, inl (same, dev, e)) =
    let (p, out) = ptr.places 8 (omega arith) (omega arith) in
    (
      rest,
      held,
      at,
      ne,
      omega (arith, same),
      subst (λ xs. NotIn b xs) e (subst (λ k. NotIn k free) same out),
      subst (λ d. Inner d b rest) (sym dev)
          (subst (λ k. Inner f.vol.dev k rest) same
            (subst (Inner f.vol.dev (f.addr 8)) e (λ j q. ptr.inner j q (λ z. ne (sym same ∙ z))))),
    )
Ensured-double f free (b, f') h ptr (rest, held, at, ne, inr (ok, _, new, dev)) = (
  rest,
  held,
  at,
  ne,
  ok.1,
  new,
  λ j q some_entry. absurd (
      some_entry
        (ap (λ d. read_indirect d b j) dev ∙ read_indirect-zeros f.vol.dev b j h.layout ok.1 q)),
)

-- A block that a place of an indirect block has been given.
Entered-place :
    (v : Volume) (a i : ℕ) (free : List ℕ) (r : ℕ × Volume)
    → i < ptrs_per_blk
    → NotIn a free
    → Inner v.dev a free
    → Entered v a i free r
    → (rest : List ℕ) × Holds r.1 rest
      × (read_indirect r.1.dev a i ≡ r.0)
      × (r.0 ≢ 0)
      × (r.0 < data_blk_num)
      × NotIn r.0 rest
      × (r.0 ≢ a)
      × NotIn a rest
Entered-place v a i free (b, v') q out inner (rest, held, at, ne, _, inl (same, e)) =
    let (p, away, other) = inner i q (λ z. ne (sym same ∙ z)) in
    (
      rest,
      held,
      at,
      ne,
      omega (arith, same),
      subst (λ xs. NotIn b xs) e (subst (λ k. NotIn k free) same away),
      (λ z. other (same ∙ z)),
      subst (NotIn a) e out,
    )
Entered-place v a i free (b, v') q out inner (rest, held, at, ne, _, inr (ok, e, new)) =
    let apart = subst (NotIn a) e out in
    (rest, held, at, ne, ok.1, new, (λ z. apart.0 (sym z)), apart.1)

abbrev Twice : ℕ → ℕ → ℕ → Option ℕ × Volume → Type 0
Twice a i j (none, v) = Unit
Twice a i j (some b, v) = through v.dev (through v.dev a i) j ≡ b

-- The entry below a single indirect block s that stands at place i of the double one, a.
double_last :
    (v : Volume) (a s i j : ℕ) (rest : List ℕ)
    → Holds v rest
    → read_indirect v.dev a i ≡ s
    → a ≢ 0
    → s ≢ 0
    → a ≢ s
    → s < data_blk_num
    → NotIn s rest
    → NotIn a rest
    → i < ptrs_per_blk
    → j < ptrs_per_blk
    → Twice a i j (ensure_entry false v s j)
double_last v a s i j rest h at nea nes other p out apart qi qj =
    elim (ensure_entry_cases false v s j rest h p qj out) [
      | inl full ↦ rw full tt
      | inr (b, e, (_, _, found, _, kept, _)) ↦
          let d = (ensure_entry false v s j).1.dev in
          let there : through d a i ≡ s =
            through_present d a i nea ∙ kept a i other apart qi ∙ at in
          rw e (ap (λ k. through d k j) there ∙ through_present d s j nes ∙ found)
    ]

-- The two levels below a double indirect block a that is there.
double_entries :
    (v : Volume) (a i j : ℕ) (rest : List ℕ)
    → Holds v rest
    → a ≢ 0
    → a < data_blk_num
    → NotIn a rest
    → Inner v.dev a rest
    → i < ptrs_per_blk
    → j < ptrs_per_blk
    → Twice a i j (below_entry j (ensure_entry true v a i))
double_entries v a i j rest h ne p out inner qi qj =
    elim (ensure_entry_cases true v a i rest h p qi out) [
      | inl full ↦ rw full tt
      | inr (s, e, made) ↦
          let (rest', held, there, nes, small, away, other, apart) =
            Entered-place v a i rest (s, (ensure_entry true v a i).1) qi out inner made in
          rw e (
            double_last (ensure_entry true v a i).1 a s i j rest' held there ne nes
              (λ k. other (sym k)) small away apart qi qj)
    ]

abbrev FoundTwice : ℕ → ℕ → Option ℕ × FileMap → Type 0
FoundTwice i j (none, g) = Unit
FoundTwice i j (some b, g) = through g.vol.dev (through g.vol.dev (g.addr 8) i) j ≡ b

Twice-FoundTwice :
    (f : FileMap) (a i j : ℕ) (r : Option ℕ × Volume)
    → f.addr 8 ≡ a
    → Twice a i j r
    → FoundTwice i j (with_vol f r)
Twice-FoundTwice f a i j (none, v) at found = tt
Twice-FoundTwice f a i j (some b, v) at found =
    ap (λ k. through v.dev (through v.dev k i) j) at ∙ found

alloc_double-FoundTwice :
    (f : FileMap) (n : ℕ) (free : List ℕ)
    → Holds f.vol free
    → HasPointers f free
    → n < ptrs_per_blk * ptrs_per_blk
    → FoundTwice (n / ptrs_per_blk) (n % ptrs_per_blk) (alloc_double f n)
alloc_double-FoundTwice f n free h ptr q = elim (ensure_addr_cases true f 8 free h) [
  | inl full ↦ rw full tt
  | inr (b, e, made) ↦
      let (rest, held, at, ne, p, out, inner) =
        Ensured-double f free (b, (ensure_addr true f 8).1) h ptr made in
      let v = (ensure_addr true f 8).1.vol in
      rw e (
        Twice-FoundTwice (ensure_addr true f 8).1 b (n / ptrs_per_blk) (n % ptrs_per_blk)
          (below_entry (n % ptrs_per_blk) (ensure_entry true v b (n / ptrs_per_blk))) at
          (double_entries v b (n / ptrs_per_blk) (n % ptrs_per_blk) rest held ne p out inner
            (omega arith) (omega arith)))
]

-- A block number that is returned, with what is known of it.
answered :
    (r : Option ℕ × FileMap) (P : ℕ × FileMap → Type 0)
    → ((b : ℕ) → r.0 ≡ some b → P (b, r.1))
    → (answer r).0 ≢ invalid_blk
    → P (answer r)
answered (none, f) P known some_block = absurd (some_block refl)
answered (some b, f) P known some_block = known b refl

direct-bmap :
    (f : FileMap) (i : ℕ) (free : List ℕ)
    → Holds f.vol free
    → (b : ℕ) → (ensure_addr false f i).0 ≡ some b
    → (ensure_addr false f i).1.addr i ≡ b
direct-bmap f i free h b e = elim (ensure_addr_cases false f i free h) [
  | inl full ↦ absurd (none-some (sym full ∙ e))
  | inr (c, e', (_, _, at, _, _)) ↦ at ∙ same (sym e' ∙ e)
]
  where
    none-some : {c : ℕ} → ¬ (none ≡ some c)
    none-some k = cc

    same : {c d : ℕ} → some c ≡ some d → c ≡ d
    same k = cc

answered_once :
    (i index : ℕ) (r : Option ℕ × FileMap)
    → Found i index r
    → (answer r).0 ≢ invalid_blk
    → through (answer r).1.vol.dev ((answer r).1.addr i) index ≡ (answer r).0
answered_once i index (none, f) found some_block = absurd (some_block refl)
answered_once i index (some b, f) found some_block = found

answered_twice :
    (i j : ℕ) (r : Option ℕ × FileMap)
    → FoundTwice i j r
    → (answer r).0 ≢ invalid_blk
    → through (answer r).1.vol.dev (through (answer r).1.vol.dev ((answer r).1.addr 8) i) j
      ≡ (answer r).0
answered_twice i j (none, f) found some_block = absurd (some_block refl)
answered_twice i j (some b, f) found some_block = found

-- The block that `bmap_alloc` returns for a logical block, allocated now or before, at any of the
-- four levels of the map, is the block that `bmap` then finds for it in the inode and on the disk
-- that `bmap_alloc` leaves. The free blocks are a list and the file's indirect blocks are not on it.
pub bmap-bmap_alloc :
    (f : FileMap) (n : ℕ) (free : List ℕ)
    → Holds f.vol free
    → HasPointers f free
    → (bmap_alloc f n).0 ≢ invalid_blk
    → bmap (bmap_alloc f n).1.vol.dev (bmap_alloc f n).1.addr n ≡ (bmap_alloc f n).0
unfolding bmap bmap_alloc
bmap-bmap_alloc f n free h ptr = elim (Bool-cases (ltb n 6)) [
  | inl e ↦ rw e (answered (ensure_addr false f n) (λ r. r.1.addr n ≡ r.0) (direct-bmap f n free h))
  | inr e ↦ elim (Bool-cases (ltb (n - 6) 256)) [
    | inl e1 ↦
        rw (e, e1)
          (answered_once 6 (n - 6) (alloc_single f 6 (n - 6))
            (alloc_single-Found f 6 (n - 6) free h ptr (omega arith) (omega arith) (ltb→lt _ _ e1)))
    | inr e1 ↦ elim (Bool-cases (ltb (n - 6 - 256) 256)) [
      | inl e2 ↦
          rw (e, e1, e2)
            (answered_once 7 (n - 6 - 256) (alloc_single f 7 (n - 6 - 256)) (
              alloc_single-Found f 7 (n - 6 - 256) free h ptr (omega arith) (omega arith)
                (ltb→lt _ _ e2)))
      | inr e2 ↦ elim (Bool-cases (ltb (n - 6 - 256 - 256) (256 * 256))) [
        | inl e3 ↦
            rw (e, e1, e2, e3)
              (answered_twice ((n - 6 - 256 - 256) / 256) ((n - 6 - 256 - 256) % 256)
                (alloc_double f (n - 6 - 256 - 256))
                (alloc_double-FoundTwice f (n - 6 - 256 - 256) free h ptr (ltb→lt _ _ e3)))
        | inr e3 ↦ rw (e, e1, e2, e3) (λ some_block. absurd (some_block refl))
      ]
    ]
  ]
]
