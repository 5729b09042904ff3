-- ===== src/Fat16/Volume.antt =====
-- src/fs/fat16/fat16_fs.cpp: the boot sector, and format, mount and unmount.
use pseudo_fs.Common.{
  ℕ, zero, suc, ◌+◌, ◌/◌, ◌%◌, true, false, not, Option, none, some, List, [], ◌∷◌, ◌++◌, ◌==◌,
  if◌then◌else◌,
}
use pseudo_fs.Common.Arrays.{Buffer, zeros, update}
use pseudo_fs.Common.Int.{ℤ, pos, minus_one}
use pseudo_fs.Common.CStrings.{codes}
use pseudo_fs.Layout.{total_blk_num}
use pseudo_fs.BlockDevice.{BlockDevice, read_block, write_buf}
use pseudo_fs.Fat16.{
  Fat16Fs, fat1_start, fat2_start, fat_size, boot_blk, root_dir_blk, root_cluster,
  dir_entries_per_blk, flush_fat, init_fat_from_disk, sync, field16,
}

-- A byte buffer that begins with these bytes.
abbrev pub of_bytes : List ℕ → Buffer
of_bytes [] i = 0
of_bytes (b ∷ bs) zero = b
of_bytes (b ∷ bs) (suc i) = of_bytes bs i

abbrev pub le16 : ℕ → List ℕ
le16 x = x % 256 ∷ x / 256 % 256 ∷ []

-- The boot sector that `fs_format` fills in.
abbrev pub new_boot : Buffer
new_boot = of_bytes (codes "PFS-FAT16  " ++ geometry)
  where
    geometry : List ℕ
    geometry =
        le16 512
        ++ (1
            ∷ (le16 1 ++ (2 ∷ (le16 dir_entries_per_blk ++ (le16 total_blk_num ++ le16 fat_size)))))

abbrev pub bytes_per_sector : Buffer → ℕ
bytes_per_sector boot = field16 boot 11

abbrev pub total_sectors : Buffer → ℕ
total_sectors boot = field16 boot 19

-- `fs_format` clears the blocks of both tables.
unfoldable pub clear_tables : ℕ → ℕ → BlockDevice → BlockDevice
clear_tables i zero d = d
clear_tables i (suc n) d =
    clear_tables (suc i) n (write_buf (write_buf d (fat1_start + i) zeros) (fat2_start + i) zeros)

unfoldable pub fs_format : Fat16Fs → ℤ × Fat16Fs
unfolding clear_tables flush_fat sync
fs_format u =
    let cleared = clear_tables 0 fat_size (write_buf u.dev boot_blk new_boot) in
    let table = update (update zeros 0 0xfff8) 1 0xffff in
    let u1 = flush_fat (record u { dev = cleared; boot = new_boot; fat = table }) in
    (
      pos 0,
      sync (record u1 {
        dev = write_buf u1.dev root_dir_blk zeros;
        cwd_path = codes "/";
        cwd_cluster = root_cluster;
        mounted = true;
      }),
    )

-- `fs_mount` with the boot sector that it read.
abbrev pub mount_with : Fat16Fs → Option Buffer → ℤ × Fat16Fs
mount_with u none = (minus_one, u)
mount_with u (some boot) =
    let u1 : Fat16Fs = record u { boot = boot } in
    let loaded = init_fat_from_disk u1 in
    if not (bytes_per_sector boot == 512)
    then (minus_one, u1)
    else if not (total_sectors boot == total_blk_num)
    then (minus_one, u1)
    else (pos 0, record loaded { cwd_path = codes "/"; cwd_cluster = root_cluster; mounted = true })

unfoldable pub fs_mount : Fat16Fs → ℤ × Fat16Fs
unfolding init_fat_from_disk
fs_mount u = mount_with u (read_block u.dev boot_blk)

unfoldable pub fs_unmount : Fat16Fs → ℤ × Fat16Fs
unfolding flush_fat
fs_unmount u =
    let flushed = flush_fat u in
    if u.mounted
    then (pos 0, record flushed { dev = write_buf flushed.dev boot_blk u.boot; mounted = false })
    else (minus_one, u)
