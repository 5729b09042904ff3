-- ===== src/Fat16/Writing.antt =====
-- src/fs/fat16/fat16_fs.cpp: `fs_write`, which makes the chain of a file longer where it ends.
use pseudo_fs.Common.{
  ℕ, zero, suc, ◌+◌, ◌-◌, ◌/◌, ◌%◌, min, not, ◌&&◌, ◌||◌, Option, none, some, ltb, ◌==◌,
  if◌then◌else◌,
}
use pseudo_fs.Common.Arrays.{Buffer, zeros, update, u32_mod}
use pseudo_fs.Common.Int.{ℤ, pos, minus_one}
use pseudo_fs.Layout.{block_size}
use pseudo_fs.BlockDevice.{BlockDevice, copy_in, read_buf, write_buf}
use pseudo_fs.OpenFileTable.{is_valid, get_flags, get_inode, get_offset, set_offset}
use pseudo_fs.UnixFs.{has_bits, o_write, o_append}
use pseudo_fs.Fat16.{Fat16Fs, fat_end, cluster_to_block, alloc_cluster, flush_fat, sync}
use pseudo_fs.Fat16.Sizes.{get_file_size, update_file_size}
use pseudo_fs.Fat16.Files.{parent_of}

-- The next cluster of a chain, which is made longer at its end; `none` if no cluster is free.
unfoldable pub advance : BlockDevice → (ℕ → ℕ) → ℕ → Option ℕ × (ℕ → ℕ) × BlockDevice
advance d fat cur =
    let next = fat cur in
    let (new_c, fat') = alloc_cluster fat in
    if next == fat_end || ltb next 2
    then if new_c == fat_end then (none, fat', d) else (
      some new_c,
      update (update fat' cur new_c) new_c fat_end,
      write_buf d (cluster_to_block new_c) zeros,
    )
    else (some next, fat, d)

-- The first loop of `fs_write`, with the cluster that it reaches; `none` is `goto done`.
unfoldable pub seek_loop : ℕ → ℕ → (ℕ → ℕ) → BlockDevice → Option ℕ × (ℕ → ℕ) × BlockDevice
seek_loop zero cur fat d = (some cur, fat, d)
seek_loop (suc n) cur fat d =
    let (next, fat', d') = advance d fat cur in
    elim next [ none ↦ (none, fat', d') | some c ↦ seek_loop n c fat' d' ]

-- The second loop of `fs_write`: the bytes written, the table and the disk. Each pass writes at
-- least one byte, so fuel for `len` passes is enough.
unfoldable pub write_loop :
    ℕ → Buffer → ℕ → ℕ → ℕ → ℕ → (ℕ → ℕ) → BlockDevice → ℕ × (ℕ → ℕ) × BlockDevice
write_loop zero src len cur blk_off written fat d = (written, fat, d)
write_loop (suc fuel) src len cur blk_off written fat d =
    let block = cluster_to_block cur in
    let chunk = min (block_size - blk_off) (len - written) in
    let after = copy_in blk_off chunk (λ i. src (written + i)) (read_buf d block) in
    let d1 = write_buf d block after in
    let (next, fat', d2) = advance d1 fat cur in
    let onward : ℕ × (ℕ → ℕ) × BlockDevice = elim next [
      | none ↦ (written + chunk, fat', d2)
      | some c ↦ write_loop fuel src len c 0 (written + chunk) fat' d2
    ] in
    if not (ltb written len)
    then (written, fat, d)
    else if ltb (written + chunk) len
    then onward
    else (written + chunk, fat, d1)

abbrev pub write_from :
    Buffer → ℕ → ℕ → Option ℕ × (ℕ → ℕ) × BlockDevice → ℕ × (ℕ → ℕ) × BlockDevice
write_from src len offset (none, fat, d) = (0, fat, d)
write_from src len offset (some cur, fat, d) =
    write_loop len src len cur (offset % block_size) 0 fat d

-- Behind the label `done`.
abbrev pub written_to : Fat16Fs → ℤ → ℕ → ℕ → ℕ × (ℕ → ℕ) × BlockDevice → ℤ × Fat16Fs
written_to u fd first_cluster offset (n, fat, d) =
    let u1 = flush_fat (record u { dev = d; fat = fat }) in
    let new_end = (offset + n) % u32_mod in
    let old_size = get_file_size u1 (parent_of u fd) first_cluster in
    let u2 : Fat16Fs =
      if ltb old_size new_end
      then update_file_size u1 (parent_of u fd) first_cluster new_end
      else u1 in
    (pos n, sync (record u2 { oft = (set_offset u2.oft u2.user_slot fd new_end).1 }))

unfoldable pub fs_write : Fat16Fs → ℤ → Buffer → ℕ → ℤ × Fat16Fs
unfolding seek_loop write_loop
fs_write u fd buf len =
    let flags = get_flags u.oft u.user_slot fd in
    let first_cluster = get_inode u.oft u.user_slot fd in
    let offset = get_offset u.oft u.user_slot fd in
    if not u.mounted
    then (minus_one, u)
    else if not (is_valid u.oft u.user_slot fd)
    then (minus_one, u)
    else if not (has_bits flags o_write) && not (has_bits flags o_append)
    then (minus_one, u)
    else written_to u fd first_cluster offset
        (write_from buf len offset (seek_loop (offset / block_size) first_cluster u.fat u.dev))
