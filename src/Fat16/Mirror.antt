-- ===== src/Fat16/Mirror.antt =====
-- The two copies of the allocation table on the disk: `flush_fat`, `init_fat_from_disk`, `fs_mount`
-- and `fs_unmount` of src/fs/fat16/fat16_fs.cpp.
use pseudo_fs.Common.{
  ℕ, zero, suc, ◌+◌, ◌-◌, ◌*◌, ◌/◌, ◌%◌, ◌≤◌, ◌<◌, ◌≡◌, ◌≢◌, ◌⊎◌, refl, sym, ap, ◌∙◌, some, true,
  false, ◌&&◌, ltb, leb, arith, inl,
}
use native.Mathlib.Decide.{ℕ_discrete, dec_lt}
use pseudo_fs.Common.Arrays.{Buffer, zeros, word, bytes, word-bytes}
use pseudo_fs.Common.CStrings.{codes}
use pseudo_fs.Common.Int.{pos}
use pseudo_fs.BlockDevice.{BlockDevice, read_buf, write_buf, read_block}
use pseudo_fs.BlockDevice.Laws.{read_buf-write_buf_self, read_buf-write_buf_ne, write_buf_shape}
use pseudo_fs.Fat16.{
  Fat16Fs, flush_from, flush_fat, load_block, init_from, init_fat_from_disk, field16,
}
use pseudo_fs.Fat16.Volume.{fs_mount, fs_unmount, mount_with, bytes_per_sector, total_sectors}

-- A disk of the size of `TOTAL_BLK_NUM` blocks of `BLOCK_SIZE` bytes.
abbrev pub HasShape : BlockDevice → Type 0
HasShape d = (d.total_blocks ≡ 2082) × (d.block_size ≡ 512)

flush_from_shape :
    (i n : ℕ) (fat : ℕ → ℕ) (d : BlockDevice)
    → ((flush_from i n fat d).total_blocks ≡ d.total_blocks)
      × ((flush_from i n fat d).block_size ≡ d.block_size)
unfolding flush_from
flush_from_shape i zero fat d = (refl, refl)
flush_from_shape i (suc n) fat d =
    let blk = bytes (λ j. fat (i * 256 + j)) in
    let d1 = write_buf d (1 + i) blk in
    let (a, b) = flush_from_shape (suc i) n fat (write_buf d1 (10 + i) blk) in
    let (a1, b1) = write_buf_shape d1 (10 + i) blk in
    let (a2, b2) = write_buf_shape d (1 + i) blk in (a ∙ a1 ∙ a2, b ∙ b1 ∙ b2)

-- A block that the flush does not write.
flush_from_ne :
    (i n : ℕ) (fat : ℕ → ℕ) (d : BlockDevice) (c k : ℕ)
    → d.block_size ≡ 512
    → k < 512
    → ((j : ℕ) → i ≤ j → j < i + n → (1 + j ≢ c) × (10 + j ≢ c))
    → read_buf (flush_from i n fat d) c k ≡ read_buf d c k
unfolding flush_from
flush_from_ne i zero fat d c k s p out = refl
flush_from_ne i (suc n) fat d c k s p out =
    let blk = bytes (λ j. fat (i * 256 + j)) in
    let d1 = write_buf d (1 + i) blk in
    let (a, b) = write_buf_shape d (1 + i) blk in
    let (a', b') = write_buf_shape d1 (10 + i) blk in
    let here = out i (omega arith) (omega arith) in
    flush_from_ne (suc i) n fat (write_buf d1 (10 + i) blk) c k (b' ∙ b ∙ s) p
      (λ j lo hi. out j (omega arith) (omega arith))
    ∙ read_buf-write_buf_ne d1 (10 + i) c blk k here.1 (rw (b, s) p)
    ∙ read_buf-write_buf_ne d (1 + i) c blk k here.0 (rw s p)

-- Byte k of block j of either copy after the flush.
flush_from_copies :
    (i n : ℕ) (fat : ℕ → ℕ) (d : BlockDevice) (j k : ℕ)
    → HasShape d
    → i + n ≤ 9
    → i ≤ j
    → j < i + n
    → k < 512
    → (read_buf (flush_from i n fat d) (1 + j) k ≡ bytes (λ l. fat (j * 256 + l)) k)
      × (read_buf (flush_from i n fat d) (10 + j) k ≡ bytes (λ l. fat (j * 256 + l)) k)
unfolding flush_from
flush_from_copies i zero fat d j k s q lo hi p = absurd (omega arith)
flush_from_copies i (suc n) fat d j k s q lo hi p = elim (ℕ_discrete j i) [
  | no ne ↦
      flush_from_copies (suc i) n fat d2 j k (a' ∙ a ∙ s.0, b' ∙ b ∙ s.1) (omega arith)
        (omega arith) (omega arith) p
  | yes e ↦ rw e (
    flush_from_ne (suc i) n fat d2 (1 + i) k (b' ∙ b ∙ s.1) p (λ l x y. (omega arith, omega arith))
        ∙ read_buf-write_buf_ne d1 (10 + i) (1 + i) blk k (omega arith) (rw (b, s.1) p)
        ∙ read_buf-write_buf_self d (1 + i) blk k (rw s.0 (omega arith)) (rw s.1 p),
    flush_from_ne (suc i) n fat d2 (10 + i) k (b' ∙ b ∙ s.1) p (λ l x y. (omega arith, omega arith))
        ∙ read_buf-write_buf_self d1 (10 + i) blk k (rw (a, s.0) (omega arith)) (rw (b, s.1) p),
  )
]
  where
    blk : Buffer
    blk = bytes (λ l. fat (i * 256 + l))

    d1 : BlockDevice
    d1 = write_buf d (1 + i) blk

    d2 : BlockDevice
    d2 = write_buf d1 (10 + i) blk

    a : d1.total_blocks ≡ d.total_blocks
    a = (write_buf_shape d (1 + i) blk).0

    b : d1.block_size ≡ d.block_size
    b = (write_buf_shape d (1 + i) blk).1

    a' : d2.total_blocks ≡ d1.total_blocks
    a' = (write_buf_shape d1 (10 + i) blk).0

    b' : d2.block_size ≡ d1.block_size
    b' = (write_buf_shape d1 (10 + i) blk).1

load_block_in :
    (i : ℕ) (d : BlockDevice) (fat : ℕ → ℕ) (idx : ℕ)
    → i * 256 ≤ idx
    → idx < i * 256 + 256
    → load_block i d fat idx ≡ word (read_buf d (1 + idx / 256)) (idx % 256)
load_block_in i d fat idx lo hi =
    let q : idx / 256 ≡ i = omega arith in
    let r : idx % 256 ≡ idx - i * 256 = omega arith in
    let c : (leb (i * 256) idx && ltb idx (i * 256 + 256)) ≡ true = ground arith in
    rw (q, r, c) refl

load_block_out :
    (i : ℕ) (d : BlockDevice) (fat : ℕ → ℕ) (idx : ℕ)
    → (idx < i * 256) ⊎ (i * 256 + 256 ≤ idx)
    → load_block i d fat idx ≡ fat idx
load_block_out i d fat idx out =
    let c : (leb (i * 256) idx && ltb idx (i * 256 + 256)) ≡ false = ground arith in rw c refl

init_from_out :
    (i n : ℕ) (d : BlockDevice) (fat : ℕ → ℕ) (idx : ℕ)
    → idx < i * 256
    → init_from i n d fat idx ≡ fat idx
unfolding init_from
init_from_out i zero d fat idx p = refl
init_from_out i (suc n) d fat idx p =
    init_from_out (suc i) n d (load_block i d fat) idx (omega arith)
    ∙ load_block_out i d fat idx (inl p)

-- What `init_fat_from_disk` reads for an entry.
init_from_in :
    (i n : ℕ) (d : BlockDevice) (fat : ℕ → ℕ) (idx : ℕ)
    → i * 256 ≤ idx
    → idx < (i + n) * 256
    → init_from i n d fat idx ≡ word (read_buf d (1 + idx / 256)) (idx % 256)
unfolding init_from
init_from_in i zero d fat idx lo hi = absurd (omega arith)
init_from_in i (suc n) d fat idx lo hi = elim (dec_lt idx (i * 256 + 256)) [
  | yes here ↦
      init_from_out (suc i) n d (load_block i d fat) idx (omega arith)
      ∙ load_block_in i d fat idx lo here
  | no later ↦ init_from_in (suc i) n d (load_block i d fat) idx (omega arith) (omega arith)
]

word_agree :
    (a b : Buffer) (i : ℕ) → i < 256 → ((k : ℕ) → k < 512 → a k ≡ b k) → word a i ≡ word b i
unfolding word
word_agree a b i p same = rw (same (2 * i) (omega arith), same (2 * i + 1) (omega arith)) refl

-- `init_fat_from_disk` after `flush_fat` gives back the table of 16-bit entries.
reload :
    (u : Fat16Fs) (d : BlockDevice) (idx : ℕ)
    → HasShape u.dev
    → ((c k : ℕ) → 1 ≤ c → c < 10 → k < 512 → read_buf d c k ≡ read_buf (flush_fat u).dev c k)
    → idx < 2304
    → u.fat idx < 65536
    → init_from 0 9 d zeros idx ≡ u.fat idx
unfolding flush_fat
reload u d idx s same p small =
    let at : idx / 256 * 256 + idx % 256 ≡ idx = omega arith in
    init_from_in 0 9 d zeros idx (omega arith) (omega arith)
    ∙ word_agree (read_buf d (1 + idx / 256)) table (idx % 256) (omega arith) (λ k q.
      same (1 + idx / 256) k (omega arith) (omega arith) q
      ∙ (flush_from_copies 0 9 u.fat u.dev (idx / 256) k s (omega arith) (omega arith) (omega arith)
          q).0)
    ∙ word-bytes (λ l. u.fat (idx / 256 * 256 + l)) (idx % 256) (rw at small)
    ∙ ap u.fat at
  where
    table : Buffer
    table = bytes (λ l. u.fat (idx / 256 * 256 + l))

-- After `flush_fat` on a disk of the full size, each block of the second copy of the table on the
-- disk holds the same bytes as the block of the first.
pub flush_fat-copies :
    (u : Fat16Fs) (j k : ℕ)
    → HasShape u.dev
    → j < 9
    → k < 512
    → read_buf (flush_fat u).dev (10 + j) k ≡ read_buf (flush_fat u).dev (1 + j) k
unfolding flush_fat
flush_fat-copies u j k s p q =
    let (a, b) = flush_from_copies 0 9 u.fat u.dev j k s (omega arith) (omega arith) p q in
    b ∙ sym a

read_first : (d : BlockDevice) → d.total_blocks ≡ 2082 → read_block d 0 ≡ some (read_buf d 0)
unfolding read_buf read_block
read_first d e = rw e refl

-- `fs_mount` with a valid boot sector.
mount_valid :
    (u : Fat16Fs) (boot : Buffer)
    → bytes_per_sector boot ≡ 512
    → total_sectors boot ≡ 2082
    → mount_with u (some boot) ≡ (
      pos 0,
      record (init_fat_from_disk (record u { boot = boot })) {
        cwd_path = codes "/";
        cwd_cluster = 0;
        mounted = true;
      },
    )
mount_valid u boot p q = rw (p, q) refl

-- Mounting again after `fs_unmount` of a mounted volume with a valid boot sector, on a disk of the
-- full size, succeeds and gives back the boot sector and the table of 16-bit entries.
pub fs_mount-fs_unmount :
    (u : Fat16Fs)
    → u.mounted ≡ true
    → HasShape u.dev
    → bytes_per_sector u.boot ≡ 512
    → total_sectors u.boot ≡ 2082
    → let r = fs_mount (fs_unmount u).1 in
      (r.0 ≡ pos 0)
      × (r.1.mounted ≡ true)
      × ((k : ℕ) → k < 512 → r.1.boot k ≡ u.boot k)
      × ((idx : ℕ) → idx < 2304 → u.fat idx < 65536 → r.1.fat idx ≡ u.fat idx)
unfolding fs_mount fs_unmount init_fat_from_disk flush_fat
fs_mount-fs_unmount u m s bps total =
    rw
      (
        m,
        read_first d (shape.0 ∙ flushed.0 ∙ s.0),
        mount_valid (record u { dev = d; mounted = false }) (read_buf d 0)
            (same_field 11 (omega arith) ∙ bps) (same_field 19 (omega arith) ∙ total),
      )
      (refl, refl, boot_same, λ idx p small. reload u d idx s others p small)
  where
    f : BlockDevice
    f = flush_from 0 9 u.fat u.dev

    d : BlockDevice
    d = write_buf f 0 u.boot

    flushed : (f.total_blocks ≡ u.dev.total_blocks) × (f.block_size ≡ u.dev.block_size)
    flushed = flush_from_shape 0 9 u.fat u.dev

    shape : (d.total_blocks ≡ f.total_blocks) × (d.block_size ≡ f.block_size)
    shape = write_buf_shape f 0 u.boot

    boot_same : (k : ℕ) → k < 512 → read_buf d 0 k ≡ u.boot k
    boot_same k p =
        read_buf-write_buf_self f 0 u.boot k (rw (flushed.0, s.0) (omega arith))
          (rw (flushed.1, s.1) p)

    same_field : (off : ℕ) → off < 500 → field16 (read_buf d 0) off ≡ field16 u.boot off
    same_field off p = rw (boot_same off (omega arith), boot_same (off + 1) (omega arith)) refl

    others : (c k : ℕ) → 1 ≤ c → c < 10 → k < 512 → read_buf d c k ≡ read_buf f c k
    others c k lo hi p = read_buf-write_buf_ne f 0 c u.boot k (omega arith) (rw (flushed.1, s.1) p)
