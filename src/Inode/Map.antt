-- ===== src/Inode/Map.antt =====
-- src/fs/unix/inode.cpp: the places that `bmap_alloc` fills, in the inode and in indirect blocks.
use pseudo_fs.Common.{none, some}
use pseudo_fs.Common.{
  ℕ, ◌<◌, ◌≡◌, ◌≢◌, refl, sym, ap, subst, ◌∙◌, ◌⊎◌, inl, inr, List, ◌∷◌, arith, if◌then◌else◌, ◌==◌,
  true, false, Bool,
}
use native.Mathlib.Decide.{ℕ_discrete}
use pseudo_fs.Common.Arrays.{zeros, update, word-set_word_self}
use pseudo_fs.Common.Lists.{NotIn}
use pseudo_fs.Layout.{data_blk_num, invalid_blk, ptrs_per_blk}
use pseudo_fs.BlockDevice.{BlockDevice}
use pseudo_fs.SuperBlock.{Volume, data_block, write_data, balloc}
use pseudo_fs.SuperBlock.Blocks.{HasLayout, word-write_data_self, word-write_data_ne}
use pseudo_fs.SuperBlock.FreeList.{Holds, IsDataBlock}
use pseudo_fs.SuperBlock.Writes.{Holds-write_data, balloc_cases}
use pseudo_fs.Inode.{FileMap, on_dev, read_indirect, write_indirect, ensure_addr, ensure_entry}

read-write_indirect :
    (d : BlockDevice) (b i v : ℕ)
    → HasLayout d
    → b < data_blk_num
    → i < ptrs_per_blk
    → v < 65536
    → read_indirect (write_indirect d b i v) b i ≡ v
unfolding read_indirect write_indirect
read-write_indirect d b i v h p q small =
    word-write_data_self d b _ i h p q ∙ word-set_word_self (data_block d b) i v small

read-write_indirect_ne :
    (d : BlockDevice) (b c i j v : ℕ)
    → HasLayout d
    → b ≢ c
    → j < ptrs_per_blk
    → read_indirect (write_indirect d b i v) c j ≡ read_indirect d c j
unfolding read_indirect write_indirect
read-write_indirect_ne d b c i j v h ne q = word-write_data_ne d b c _ j h ne q

read-write_zeros_ne :
    (d : BlockDevice) (b c j : ℕ)
    → HasLayout d
    → b ≢ c
    → j < ptrs_per_blk
    → read_indirect (write_data d b zeros) c j ≡ read_indirect d c j
unfolding read_indirect
read-write_zeros_ne d b c j h ne q = word-write_data_ne d b c _ j h ne q

-- What `ensure_addr` has done when it did not fail: the place was filled, or takes the next free
-- block, and at the disk at most the new block is written.
abbrev pub Ensured : Bool → FileMap → ℕ → List ℕ → ℕ × FileMap → Type 0
Ensured clear f i free (b, f') =
    (rest : List ℕ) × Holds f'.vol rest
    × (f'.addr i ≡ b)
    × (b ≢ 0)
    × (((f.addr i ≡ b) × (f'.vol.dev ≡ f.vol.dev) × (free ≡ rest))
        ⊎ (IsDataBlock b
            × (free ≡ b ∷ rest)
            × NotIn b rest
            × (f'.vol.dev ≡ (if clear then write_data f.vol.dev b zeros else f.vol.dev))))

ensure_addr_present :
    (clear : Bool) (f : FileMap) (i : ℕ)
    → f.addr i ≢ 0
    → ensure_addr clear f i ≡ (some (f.addr i), f)
unfolding ensure_addr
ensure_addr_present clear f i ne = let e : (f.addr i == 0) ≡ false = ground arith in rw e refl

ensure_addr_full :
    (clear : Bool) (f : FileMap) (i : ℕ)
    → f.addr i ≡ 0
    → (balloc f.vol).0 ≡ invalid_blk
    → (ensure_addr clear f i).0 ≡ none
unfolding ensure_addr
ensure_addr_full clear f i z e = let q : (f.addr i == 0) ≡ true = ground arith in rw (q, e) refl

-- The file after place i takes block b.
abbrev given : Bool → FileMap → ℕ → ℕ → FileMap
given clear f i b =
    let vol = (balloc f.vol).1 in
    record {
      vol = if clear then on_dev vol (write_data vol.dev b zeros) else vol;
      addr = update f.addr i b;
      dirty = true;
    }

ensure_addr_new :
    (clear : Bool) (f : FileMap) (i b : ℕ)
    → f.addr i ≡ 0
    → (balloc f.vol).0 ≡ b
    → IsDataBlock b
    → ensure_addr clear f i ≡ (some b, given clear f i b)
unfolding ensure_addr
ensure_addr_new clear f i b z e ok =
    let q : (f.addr i == 0) ≡ true = ground arith in
    let r : (b == 65535) ≡ false = ground arith in rw (q, e, r) refl

given-Ensured :
    (clear : Bool) (f : FileMap) (i b : ℕ) (rest : List ℕ)
    → IsDataBlock b
    → NotIn b rest
    → Holds (balloc f.vol).1 rest
    → (balloc f.vol).1.dev ≡ f.vol.dev
    → Ensured clear f i (b ∷ rest) (b, given clear f i b)
given-Ensured true f i b rest ok new held same = (
  rest,
  Holds-write_data (balloc f.vol).1 rest b zeros held new,
  ground arith,
  (λ z. absurd (omega (arith, ok))),
  inr (ok, refl, new, ap (λ d. write_data d b zeros) same),
)
given-Ensured false f i b rest ok new held same =
    (rest, held, ground arith, (λ z. absurd (omega (arith, ok))), inr (ok, refl, new, same))

pub ensure_addr_cases :
    (clear : Bool) (f : FileMap) (i : ℕ) (free : List ℕ)
    → Holds f.vol free
    → ((ensure_addr clear f i).0 ≡ none)
      ⊎ ((b : ℕ) × ((ensure_addr clear f i).0 ≡ some b)
          × Ensured clear f i free (b, (ensure_addr clear f i).1))
ensure_addr_cases clear f i free h = elim (ℕ_discrete (f.addr i) 0) [
  | no ne ↦ inr (
      rw (ensure_addr_present clear f i ne)
        (f.addr i, refl, (free, h, refl, ne, inl (refl, refl, refl))))
  | yes z ↦ elim (balloc_cases f.vol free h) [
    | inl full ↦ inl (ensure_addr_full clear f i z full)
    | inr (b, rest, e, ok, new, out, held, same) ↦ inr (
        rw (e, ensure_addr_new clear f i b z out ok)
          (b, refl, given-Ensured clear f i b rest ok new held same))
  ]
]

-- Entries of other blocks in use are as before.
abbrev Kept : ℕ → List ℕ → Volume → Volume → Type 0
Kept block_no free v v' =
    (c j : ℕ)
    → c ≢ block_no
    → NotIn c free
    → j < ptrs_per_blk
    → read_indirect v'.dev c j ≡ read_indirect v.dev c j

-- The same for a place of an indirect block that is not free.
abbrev pub Entered : Volume → ℕ → ℕ → List ℕ → ℕ × Volume → Type 0
Entered v block_no index free (b, v') =
    (rest : List ℕ) × Holds v' rest
    × (read_indirect v'.dev block_no index ≡ b)
    × (b ≢ 0)
    × Kept block_no free v v'
    × (((read_indirect v.dev block_no index ≡ b) × (free ≡ rest))
        ⊎ (IsDataBlock b × (free ≡ b ∷ rest) × NotIn b rest))

ensure_entry_present :
    (clear : Bool) (v : Volume) (block_no index : ℕ)
    → read_indirect v.dev block_no index ≢ 0
    → ensure_entry clear v block_no index ≡ (some (read_indirect v.dev block_no index), v)
unfolding ensure_entry
ensure_entry_present clear v block_no index ne =
    let e : (read_indirect v.dev block_no index == 0) ≡ false = ground arith in rw e refl

ensure_entry_full :
    (clear : Bool) (v : Volume) (block_no index : ℕ)
    → read_indirect v.dev block_no index ≡ 0
    → (balloc v).0 ≡ invalid_blk
    → (ensure_entry clear v block_no index).0 ≡ none
unfolding ensure_entry
ensure_entry_full clear v block_no index z e =
    let q : (read_indirect v.dev block_no index == 0) ≡ true = ground arith in rw (q, e) refl

abbrev entered : Bool → Volume → ℕ → ℕ → ℕ → Volume
entered clear v block_no index b =
    let vol = (balloc v).1 in
    let linked = write_indirect vol.dev block_no index b in
    on_dev vol (if clear then write_data linked b zeros else linked)

ensure_entry_new :
    (clear : Bool) (v : Volume) (block_no index b : ℕ)
    → read_indirect v.dev block_no index ≡ 0
    → (balloc v).0 ≡ b
    → IsDataBlock b
    → ensure_entry clear v block_no index ≡ (some b, entered clear v block_no index b)
unfolding ensure_entry
ensure_entry_new clear v block_no index b z e ok =
    let q : (read_indirect v.dev block_no index == 0) ≡ true = ground arith in
    let r : (b == 65535) ≡ false = ground arith in rw (q, e, r) refl

Holds-write_indirect :
    (v : Volume) (free : List ℕ) (b i value : ℕ)
    → Holds v free
    → NotIn b free
    → Holds (on_dev v (write_indirect v.dev b i value)) free
unfolding write_indirect
Holds-write_indirect v free b i value h out = Holds-write_data v free b _ h out

entered-Entered :
    (clear : Bool) (v : Volume) (block_no index b : ℕ) (rest : List ℕ)
    → IsDataBlock b
    → NotIn b rest
    → Holds (balloc v).1 rest
    → block_no < data_blk_num
    → index < ptrs_per_blk
    → NotIn block_no (b ∷ rest)
    → (balloc v).1.dev ≡ v.dev
    → Entered v block_no index (b ∷ rest) (b, entered clear v block_no index b)
entered-Entered true v block_no index b rest ok new held p q out same = (
  rest,
  Holds-write_data _ rest b zeros
      (Holds-write_indirect (balloc v).1 rest block_no index b held out.1) new,
  read-write_zeros_ne _ b block_no index
        (Holds-write_indirect (balloc v).1 rest block_no index b held out.1).layout
        (λ e. out.0 (sym e)) q
      ∙ read-write_indirect (balloc v).1.dev block_no index b held.layout p q (omega (arith, ok)),
  (λ z. absurd (omega (arith, ok))),
  (λ c j ne away r.
      read-write_zeros_ne _ b c j
        (Holds-write_indirect (balloc v).1 rest block_no index b held out.1).layout
        (λ e. away.0 (sym e)) r
      ∙ read-write_indirect_ne (balloc v).1.dev block_no c index j b held.layout (λ e. ne (sym e)) r
      ∙ ap (λ d. read_indirect d c j) same),
  inr (ok, refl, new),
)
entered-Entered false v block_no index b rest ok new held p q out same = (
  rest,
  Holds-write_indirect (balloc v).1 rest block_no index b held out.1,
  read-write_indirect (balloc v).1.dev block_no index b held.layout p q (omega (arith, ok)),
  (λ z. absurd (omega (arith, ok))),
  (λ c j ne away r.
      read-write_indirect_ne (balloc v).1.dev block_no c index j b held.layout (λ e. ne (sym e)) r
      ∙ ap (λ d. read_indirect d c j) same),
  inr (ok, refl, new),
)

pub ensure_entry_cases :
    (clear : Bool) (v : Volume) (block_no index : ℕ) (free : List ℕ)
    → Holds v free
    → block_no < data_blk_num
    → index < ptrs_per_blk
    → NotIn block_no free
    → ((ensure_entry clear v block_no index).0 ≡ none)
      ⊎ ((b : ℕ) × ((ensure_entry clear v block_no index).0 ≡ some b)
          × Entered v block_no index free (b, (ensure_entry clear v block_no index).1))
ensure_entry_cases clear v block_no index free h p q out =
    elim (ℕ_discrete (read_indirect v.dev block_no index) 0) [
      | no ne ↦ inr (
          rw (ensure_entry_present clear v block_no index ne) (
            read_indirect v.dev block_no index,
            refl,
            (free, h, refl, ne, (λ c j k l m. refl), inl (refl, refl)),
          ))
      | yes z ↦ elim (balloc_cases v free h) [
        | inl full ↦ inl (ensure_entry_full clear v block_no index z full)
        | inr (b, rest, e, ok, new, got, held, same) ↦ inr (
            rw (e, ensure_entry_new clear v block_no index b z got ok)
              (
                b,
                refl,
                entered-Entered clear v block_no index b rest ok new held p q
                    (subst (NotIn block_no) e out) same,
              ))
      ]
    ]
