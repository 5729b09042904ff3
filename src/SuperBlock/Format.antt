-- ===== src/SuperBlock/Format.antt =====
-- `format` of src/fs/unix/super_block.cpp and the list of free blocks that it leaves.
use pseudo_fs.Common.{
  ℕ, zero, suc, ◌+◌, ◌-◌, ◌%◌, ◌≤◌, ◌<◌, ◌≡◌, refl, sym, ap, ◌∙◌, List, [], ◌∷◌, ◌++◌, arith, leb,
  Bool-cases, inl, inr, leb→le, leb→gt,
}
use pseudo_fs.Common.Arrays.{word, word-bytes, update}
use pseudo_fs.Common.Lists.{All, NotIn, Distinct, length, length-append}
use pseudo_fs.Layout.{nicfree, data_blk_num, end_of_chain}
use pseudo_fs.SuperBlock.{
  Volume, Building, data_block, group_image, build_group, build_groups, blocks_left, fill_from,
  format, finish,
}
use pseudo_fs.SuperBlock.Image.{flush-Holds}
use pseudo_fs.SuperBlock.Blocks.{HasLayout, write_buf-HasLayout, word-write_data_self}
use pseudo_fs.SuperBlock.FreeList.{
  Holds, Chain, IsDataBlock, stack, stack-ext_above, Chain-write_data,
}

-- Not reserved, and below the cursor.
abbrev Used : ℕ → ℕ → ℕ → Type 0
Used reserved cursor b = (reserved ≤ b) × (b < cursor)

Used-mono : (r c d : ℕ) (xs : List ℕ) → c ≤ d → All (Used r c) xs → All (Used r d) xs
Used-mono r c d [] p a = tt
Used-mono r c d (x ∷ xs) p a = (omega (arith, a.0), Used-mono r c d xs p a.1)

NotIn-above : (r c x : ℕ) (xs : List ℕ) → c ≤ x → All (Used r c) xs → NotIn x xs
NotIn-above r c x [] p a = tt
NotIn-above r c x (y ∷ ys) p a = (omega (arith, a.0), NotIn-above r c x ys p a.1)

-- The numbers c + m, …, c + 1 on top of smaller ones.
run-Used :
    (r c m : ℕ) (xs : List ℕ)
    → r ≤ suc c
    → All (Used r (suc c)) xs
    → All (Used r (suc c + m)) (stack m (λ i. c + i) ++ xs)
run-Used r c zero xs p a = Used-mono r _ _ xs (omega arith) a
run-Used r c (suc m) xs p a =
    ((omega arith, omega arith), Used-mono r _ _ _ (omega arith) (run-Used r c m xs p a))

run-Distinct :
    (r c m : ℕ) (xs : List ℕ)
    → r ≤ suc c
    → All (Used r (suc c)) xs
    → Distinct xs
    → Distinct (stack m (λ i. c + i) ++ xs)
run-Distinct r c zero xs p a d = d
run-Distinct r c (suc m) xs p a d = (
  NotIn-above r (suc c + m) _ _ (omega arith) (run-Used r c m xs p a),
  run-Distinct r c m xs p a d,
)

run-NotIn : (c m : ℕ) (xs : List ℕ) → NotIn c xs → NotIn c (stack m (λ i. c + i) ++ xs)
run-NotIn c zero xs h = h
run-NotIn c (suc m) xs h = (omega arith, run-NotIn c m xs h)

length-stack : (m : ℕ) (f : ℕ → ℕ) → length (stack m f) ≡ m
length-stack zero f = refl
length-stack (suc m) f = ap suc (length-stack m f)

-- The state of the loop: the blocks from `reserved` to the cursor are in the groups on disk.
record Built (reserved : ℕ) (s : Building) (free : List ℕ) : Type 0 where
  layout : HasLayout s.dev
  groups : ℕ
  chain : Chain s.dev groups s.prev_link free
  used : All (Used reserved s.cursor) free
  distinct : Distinct free
  count : length free + reserved ≡ s.cursor
  within : s.cursor ≤ 2048
  link : s.prev_link < 2048

group_zero : (prev storage : ℕ) → group_image prev storage 0 ≡ 50
unfolding group_image
group_zero prev storage = refl

group_one : (prev storage : ℕ) → group_image prev storage 1 ≡ prev
unfolding group_image
group_one prev storage = refl

group_more :
    (prev storage i : ℕ)
    → i < 49
    → storage < 2048
    → group_image prev storage (2 + i) ≡ storage + suc i
unfolding group_image
group_more prev storage i p q = ground arith

module _ (r : ℕ) (s : Building) (free : List ℕ) (pos : 0 < r) (h : Built r s free)
    (room : s.cursor + 50 ≤ 2048) where
  stored :
      (k : ℕ)
      → k < 256
      → group_image s.prev_link s.cursor k < 65536
      → word (data_block (build_group s).dev s.cursor) k ≡ group_image s.prev_link s.cursor k
  stored k p small =
      word-write_data_self s.dev s.cursor _ k h.layout (omega arith) p ∙ word-bytes _ k small

  stored_more :
      (i : ℕ)
      → i < 49
      → word (data_block (build_group s).dev s.cursor) (1 + suc i) ≡ s.cursor + suc i
  stored_more i p =
      let e : 1 + suc i ≡ 2 + i = omega arith in
      let more = group_more s.prev_link s.cursor i p (omega arith) in
      rw e (stored (2 + i) (omega arith) (omega (arith, more)) ∙ more)

  group-Used : All (Used r (s.cursor + 50)) (stack 49 (λ i. s.cursor + i) ++ free)
  group-Used =
      Used-mono r (suc s.cursor + 49) (s.cursor + 50) (stack 49 (λ i. s.cursor + i) ++ free)
        (omega arith)
        (run-Used r s.cursor 49 free (omega (arith, h.count))
          (Used-mono r _ _ free (omega arith) h.used))

  build_group-Built : Built r (build_group s) (s.cursor ∷ (stack 49 (λ i. s.cursor + i) ++ free))
  build_group-Built = record {
    layout = write_buf-HasLayout s.dev _ _ h.layout;
    groups = suc h.groups;
    chain = (
      (λ z. absurd (omega (arith, h.count))),
      49,
      omega arith,
      stored 0 (omega arith) (omega (arith, group_zero s.prev_link s.cursor))
          ∙ group_zero s.prev_link s.cursor,
      free,
      ap (λ xs. s.cursor ∷ (xs ++ free))
          (stack-ext_above 49 (λ i. s.cursor + i)
            (λ i. word (data_block (build_group s).dev s.cursor) (1 + i))
            (λ i p. sym (stored_more i p))),
      rw
          (stored 1 (omega arith) (omega (arith, group_one s.prev_link s.cursor, h.link))
            ∙ group_one s.prev_link s.cursor)
          (Chain-write_data s.dev s.cursor _ h.layout h.groups _ free
            (NotIn-above r s.cursor s.cursor free (omega arith) h.used) h.chain),
    );
    used = (
      (omega (arith, h.count), omega arith),
      Used-mono r (s.cursor + 50) ((s.cursor + 50) % 65536) (stack 49 (λ i. s.cursor + i) ++ free)
          (omega arith) group-Used,
    );
    distinct = (
      run-NotIn s.cursor 49 free (NotIn-above r s.cursor s.cursor free (omega arith) h.used),
      run-Distinct r s.cursor 49 free (omega (arith, h.count))
          (Used-mono r _ _ free (omega arith) h.used) h.distinct,
    );
    count = omega (
      arith,
      h.count,
      length-append (stack 49 (λ i. s.cursor + i)) free,
      length-stack 49 (λ i. s.cursor + i),
    );
    within = omega arith;
    link = omega arith;
  }

  -- One pass of the loop.
  build_step :
      (free' : List ℕ) × Built r (build_group s) free' × ((build_group s).cursor ≡ s.cursor + 50)
  build_step = (s.cursor ∷ (stack 49 (λ i. s.cursor + i) ++ free), build_group-Built, omega arith)

left_eq :
    (r cursor : ℕ) → r ≤ 2048 → cursor ≤ 2048 → blocks_left (2048 - r) r cursor ≡ 2048 - cursor
left_eq r cursor p q = omega arith

build_groups-Built :
    (fuel r : ℕ) (s : Building) (free : List ℕ)
    → 0 < r
    → r ≤ 2048
    → 2048 ≤ fuel + s.cursor + 49
    → Built r s free
    → (free' : List ℕ) × Built r (build_groups fuel (2048 - r) r s) free'
      × (2048 < (build_groups fuel (2048 - r) r s).cursor + 50)
unfolding build_groups
build_groups-Built zero r s free pos p enough h = (free, h, omega arith)
build_groups-Built (suc fuel) r s free pos p enough h =
    elim (Bool-cases (leb nicfree (blocks_left (2048 - r) r s.cursor))) [
      | inl more ↦
          let le = leb→le nicfree (blocks_left (2048 - r) r s.cursor) more in
          let (free', h', e) =
            build_step r s free pos h
              (omega (arith, le, left_eq r s.cursor p h.within, h.within)) in
          rw more (build_groups-Built fuel r (build_group s) free' pos p (omega (arith, e)) h')
      | inr done ↦
          let gt = leb→gt nicfree (blocks_left (2048 - r) r s.cursor) done in
          rw done (free, h, omega (arith, gt, left_eq r s.cursor p h.within))
    ]

Used-IsDataBlock : (r : ℕ) (xs : List ℕ) → 0 < r → All (Used r 2048) xs → All IsDataBlock xs
Used-IsDataBlock r [] pos a = tt
Used-IsDataBlock r (x ∷ xs) pos a =
    ((omega (arith, a.0), omega (arith, a.0)), Used-IsDataBlock r xs pos a.1)

fill_entry :
    (n first link i : ℕ)
    → i < n
    → first + n ≤ 2048
    → 0 < first
    → fill_from 1 n first (update (λ j. 0) 0 link) (suc i) ≡ first - 1 + suc i
fill_entry n first link i p q pos = ground arith

-- The blocks that are left go into memory, above the link.
finish-Holds :
    (r inodes : ℕ) (s : Building) (free : List ℕ)
    → 0 < r
    → r ≤ 2048
    → 2048 < s.cursor + 50
    → Built r s free
    → let all = stack (2048 - s.cursor) (λ i. s.cursor - 1 + i) ++ free in
      Holds (finish (2048 - r) r inodes s) all × (length all + r ≡ 2048) × All (Used r 2048) all
unfolding finish
finish-Holds r inodes s free pos p last h = (
  record {
    layout = h.layout;
    m = 2048 - s.cursor;
    fits = omega (arith, h.within);
    nfree = rw left (omega (arith, h.within));
    groups = h.groups;
    rest = free;
    split = ap (λ xs. xs ++ free) (stack-ext_above (2048 - s.cursor) _ _ entry);
    chain = h.chain;
    valid = Used-IsDataBlock r _ pos used;
    distinct =
        run-Distinct r (s.cursor - 1) (2048 - s.cursor) free (omega (arith, h.count))
          (Used-mono r s.cursor (suc (s.cursor - 1)) free (omega arith) h.used) h.distinct;
    total = omega (arith, count);
  },
  count,
  used,
)
  where
    left : blocks_left (2048 - r) r s.cursor % 65536 ≡ 2048 - s.cursor
    left = omega (arith, h.within)

    used : All (Used r 2048) (stack (2048 - s.cursor) (λ i. s.cursor - 1 + i) ++ free)
    used =
        Used-mono r (suc (s.cursor - 1) + (2048 - s.cursor)) 2048
          (stack (2048 - s.cursor) (λ i. s.cursor - 1 + i) ++ free)
          (omega (arith, h.count, h.within))
          (run-Used r (s.cursor - 1) (2048 - s.cursor) free (omega (arith, h.count))
            (Used-mono r s.cursor (suc (s.cursor - 1)) free (omega arith) h.used))

    count : length (stack (2048 - s.cursor) (λ i. s.cursor - 1 + i) ++ free) + r ≡ 2048
    count = omega (
      arith,
      h.count,
      h.within,
      length-append (stack (2048 - s.cursor) (λ i. s.cursor - 1 + i)) free,
      length-stack (2048 - s.cursor) (λ i. s.cursor - 1 + i),
    )

    entry :
        (i : ℕ)
        → i < 2048 - s.cursor
        → s.cursor - 1 + suc i
          ≡ fill_from 1
              (blocks_left (2048 - r) r s.cursor % 65536)
              s.cursor
              (update (λ j. 0) 0 s.prev_link)
              (suc i)
    entry i q = rw left (
        sym (
          fill_entry (2048 - s.cursor) s.cursor s.prev_link i q (omega (arith, h.within))
            (omega (arith, h.count))))

init-Built :
    (r : ℕ) (v : Volume)
    → HasLayout v.dev
    → r ≤ 2048
    → Built r (record { dev = v.dev; cursor = r; prev_link = end_of_chain }) []
init-Built r v h p = record {
  layout = h;
  groups = 0;
  chain = (refl, refl);
  used = tt;
  distinct = tt;
  count = omega arith;
  within = p;
  link = omega arith;
}

-- After `format`, on a disk of the engine's size and with at least one and at most all data blocks
-- reserved, the volume holds a list of free blocks: each block that is not reserved, once.
pub format-Holds :
    (reserved reserved_inodes : ℕ) (v : Volume)
    → HasLayout v.dev
    → 0 < reserved
    → reserved ≤ data_blk_num
    → (free : List ℕ) × Holds (format reserved reserved_inodes v) free
      × (length free + reserved ≡ data_blk_num)
      × All (λ b. (reserved ≤ b) × (b < data_blk_num)) free
unfolding format
format-Holds r inodes v h pos p =
    let total_eq : (2048 + 65536 - r) % 65536 ≡ 2048 - r = omega arith in
    let start : Building = record { dev = v.dev; cursor = r; prev_link = 0 } in
    let (free, built, last) =
      build_groups-Built 2048 r start [] pos p (omega arith) (init-Built r v h p) in
    let (held, count, used) =
      finish-Holds r inodes (build_groups 2048 (2048 - r) r start) free pos p last built in
    rw total_eq (_, flush-Holds _ _ held, count, used)
