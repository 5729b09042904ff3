-- ===== src/UnixFs/Reading.antt =====
-- `fs_read` of src/fs/unix/unix_fs.cpp against the bytes of the file.
use pseudo_fs.Common.{
  ℕ, zero, suc, ◌+◌, ◌-◌, ◌/◌, ◌%◌, ◌≤◌, ◌<◌, ◌≡◌, refl, ap, ◌∙◌, arith, ltb, leb, ◌==◌, ◌||◌, ◌&&◌,
  if◌then◌else◌, true, false, Bool-cases, inl, inr, min, ltb→lt,
}
use pseudo_fs.Common.Arrays.{Buffer}
use pseudo_fs.Layout.{block_size, invalid_blk}
use pseudo_fs.BlockDevice.{BlockDevice, copy_in}
use pseudo_fs.SuperBlock.{data_block}
use pseudo_fs.Inode.{Inodes, get, bmap}
use pseudo_fs.UnixFs.{UnixFs, has_bits, o_read, clip, fs_read, read_loop, source_at}
use pseudo_fs.OpenFileTable.{is_valid, get_flags, get_offset, get_inode}
use pseudo_fs.Common.Int.{ℤ, pos}
use pseudo_fs.Common.{some, lt→ltb}

-- Byte k of a file: the byte of the block that its map names, or 0 in a hole.
abbrev pub file_byte : BlockDevice → (ℕ → ℕ) → ℕ → ℕ
file_byte d addr k =
    let phys = bmap d addr (k / block_size) in
    if phys == 0 || phys == invalid_blk then 0 else data_block d phys (k % block_size)

-- What one pass copies to place i is the byte of the file.
source-file_byte :
    (d : BlockDevice) (addr : ℕ → ℕ) (at i : ℕ)
    → i < 512 - at % 512
    → source_at d addr at i ≡ file_byte d addr (at + i)
unfolding source_at
source-file_byte d addr at i p =
    let q : (at + i) / 512 ≡ at / 512 = omega arith in
    let r : (at + i) % 512 ≡ at % 512 + i = omega arith in
    rw (q, r)
      (elim (Bool-cases (bmap d addr (at / 512) == 0 || bmap d addr (at / 512) == 65535)) [
        | inl e ↦ rw e refl
        | inr e ↦ rw e refl
      ])

-- One pass and then the others fill in what all of them do.
pub pass_then_rest :
    (lo c len i all one rest old : ℕ)
    → lo + c ≤ len
    → (lo ≤ i → i < lo + c → one ≡ all)
    → (lo + c ≤ i → i < len → rest ≡ all)
    → (if leb (lo + c) i && ltb i len
        then rest
        else if leb lo i && ltb i (lo + c)
        then one
        else old)
      ≡ (if leb lo i && ltb i len then all else old)
pass_then_rest lo c len i all one rest old p here later = elim (Bool-cases (leb lo i)) [
  | inr below ↦ let e : leb (lo + c) i ≡ false = ground arith in rw (e, below) refl
  | inl above ↦ elim (Bool-cases (ltb i (lo + c))) [
    | inl inside ↦
        let e : leb (lo + c) i ≡ false = ground arith in
        let f : ltb i len ≡ true = ground arith in
        rw (e, above, inside, f) (here (ground arith) (ground arith))
    | inr past ↦
        let e : leb (lo + c) i ≡ true = ground arith in
        elim (Bool-cases (ltb i len)) [
          | inl more ↦ rw (e, above, more) (later (ground arith) (ground arith))
          | inr done ↦ rw (e, above, past, done) refl
        ]
  ]
]

-- After the loop of `fs_read`, entered with `bytes_read` bytes done and fuel for the other bytes of
-- `len`, each of those bytes of the buffer is the byte of the file at its place behind the offset,
-- with 0 for a hole, and the rest of the buffer is as before.
pub read_loop_lem :
    (fuel : ℕ) (d : BlockDevice) (addr : ℕ → ℕ) (offset len bytes_read : ℕ) (dst : Buffer) (i : ℕ)
    → len ≤ bytes_read + fuel
    → read_loop fuel d addr offset len bytes_read dst i
      ≡ (if leb bytes_read i && ltb i len then file_byte d addr (offset + i) else dst i)
unfolding read_loop
read_loop_lem zero d addr offset len br dst i p = elim (Bool-cases (leb br i)) [
  | inr below ↦ rw below refl
  | inl above ↦ let f : ltb i len ≡ false = ground arith in rw (above, f) refl
]
read_loop_lem (suc fuel) d addr offset len br dst i p = elim (Bool-cases (ltb br len)) [
  | inr done ↦ elim (Bool-cases (leb br i)) [
    | inr below ↦ rw (done, below) refl
    | inl above ↦ let f : ltb i len ≡ false = ground arith in rw (done, above, f) refl
  ]
  | inl more ↦
      let lt = ltb→lt br len more in
      let chunk = min (512 - (offset + br) % 512) (len - br) in
      let fits : br + chunk ≤ len = omega arith in
      rw more (
        read_loop_lem fuel d addr offset len (br + chunk)
          (copy_in br chunk (source_at d addr (offset + br)) dst) i (omega arith)
        ∙ pass_then_rest br chunk len i (file_byte d addr (offset + i))
            (source_at d addr (offset + br) (i - br)) (file_byte d addr (offset + i)) (dst i) fits
            (λ lo hi.
              let q : offset + br + (i - br) ≡ offset + i = omega arith in
              source-file_byte d addr (offset + br) (i - br) (omega arith)
              ∙ ap (file_byte d addr) q)
            (λ lo hi. refl))
]

clip-min :
    (offset len size : ℕ)
    → offset < size
    → offset + len < 18446744073709551616
    → clip offset len size ≡ min len (size - offset)
clip-min offset len size p q =
    let r : (offset + len) % 18446744073709551616 ≡ offset + len = omega arith in
    rw r (ground arith)

-- For a valid descriptor that is open for reading, whose file has its inode in the cache and more
-- bytes than the offset, `fs_read` returns the smaller of `len` and what is left of the file, and
-- fills that many places of the buffer with the bytes of the file from the offset on, with 0 for a
-- hole; offset and length together stay below 2 ^ 64.
pub fs_read_lem :
    (u : UnixFs) (fd : ℤ) (buf : Buffer) (len now slot offset : ℕ) (s : Inodes)
    → is_valid u.oft u.user_slot fd ≡ true
    → has_bits (get_flags u.oft u.user_slot fd) o_read ≡ true
    → get_offset u.oft u.user_slot fd ≡ offset
    → get u.imng (get_inode u.oft u.user_slot fd) ≡ (some slot, s)
    → offset < (s.cache slot).di_size
    → offset + len < 18446744073709551616
    → let r = fs_read u fd buf len now in
      let n = min len ((s.cache slot).di_size - offset) in
      (r.0 ≡ pos n)
      × ((i : ℕ) → i < n → r.2 i ≡ file_byte s.dev (s.cache slot).di_addr (offset + i))
unfolding fs_read
fs_read_lem u fd buf len now slot offset s valid readable at found more small =
    let e : leb (s.cache slot).di_size offset ≡ false = ground arith in
    rw (valid, readable, found, at, e, clip-min offset len (s.cache slot).di_size more small)
      (
        refl,
        λ i p.
            let n = min len ((s.cache slot).di_size - offset) in
            let f : ltb i n ≡ true = lt→ltb i n p in
            let loop =
              read_loop_lem n s.dev (s.cache slot).di_addr offset n 0 buf i (omega arith) in
            let g : leb 0 i ≡ true = ground arith in rw (g, f) at loop,
      )
