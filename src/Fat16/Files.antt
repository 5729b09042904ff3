-- ===== src/Fat16/Files.antt =====
-- src/fs/fat16/fat16_fs.cpp: create, open, close, read and delete.
use pseudo_fs.Common.{
  ℕ, zero, suc, ◌+◌, ◌-◌, ◌/◌, ◌%◌, min, not, ◌&&◌, Option, none, some, ltb, leb, ◌==◌,
  if◌then◌else◌,
}
use pseudo_fs.Common.Arrays.{Buffer, zeros, update, u32_mod}
use pseudo_fs.Common.Int.{ℤ, pos, negsuc, minus_one}
use pseudo_fs.Common.CStrings.{CString}
use pseudo_fs.Layout.{block_size}
use pseudo_fs.BlockDevice.{BlockDevice, copy_in, read_buf, write_buf}
use pseudo_fs.OpenFileTable.{
  OpenFileTable, is_valid, get_flags, get_inode, get_offset, set_offset, alloc_fd, free_fd,
}
use pseudo_fs.UnixFs.{has_bits, o_read, o_append}
use pseudo_fs.UnixFs.Links.{o_trunc}
use pseudo_fs.Fat16.{
  Fat16Fs, with_dev, with_fat, fat_end, attr_archive, cluster_to_block, alloc_cluster, is_live,
  free_cluster_chain, flush_fat, sync,
}
use pseudo_fs.Fat16.Names.{FatDirEntry, zero_entry, set_dir_entry_name}
use pseudo_fs.Fat16.Entries.{read_dir_entries, is_directory, append_dir_entry, remove_dir_entry}
use pseudo_fs.Fat16.Sizes.{get_file_size, update_file_size}
use pseudo_fs.Fat16.Paths.{
  Resolved, found, missing, no_parent, resolve_path, find_entry, Tm, timestamp,
}

-- An entry that the handlers add to a directory.
abbrev pub fresh_entry : CString → ℕ → ℕ → Tm → FatDirEntry
fresh_entry name attr first_cluster now =
    let (t, d) = timestamp now in
    record (set_dir_entry_name zero_entry name) {
      attr = attr;
      first_cluster = first_cluster;
      file_size = 0;
      time = t;
      date = d;
    }

-- The end of `fs_create` and `fs_mkdir`, once the parent has the new entry, or has no room for it.
abbrev pub entry_added : ℕ → ℤ × Fat16Fs → ℤ × Fat16Fs
entry_added first_cluster (pos zero, u) = (pos 0, sync u)
entry_added first_cluster (pos (suc n), u) =
    (minus_one, flush_fat (free_cluster_chain u first_cluster))
entry_added first_cluster (negsuc n, u) =
    (minus_one, flush_fat (free_cluster_chain u first_cluster))

abbrev pub create_in : Fat16Fs → Tm → Resolved → ℤ × Fat16Fs
create_in u now (found cluster parent name) = (minus_one, u)
create_in u now no_parent = (minus_one, u)
create_in u now (missing parent name) =
    let (first_cluster, fat) = alloc_cluster u.fat in
    let u1 = flush_fat (with_fat u (update fat first_cluster fat_end)) in
    let u2 = with_dev u1 (write_buf u1.dev (cluster_to_block first_cluster) zeros) in
    if first_cluster == fat_end
    then (minus_one, u)
    else entry_added first_cluster
        (append_dir_entry u2 parent (fresh_entry name attr_archive first_cluster now))

unfoldable pub fs_create : Fat16Fs → CString → Tm → ℤ × Fat16Fs
unfolding flush_fat sync
fs_create u path now =
    if not u.mounted then (minus_one, u) else create_in u now (resolve_path u path)

-- `O_TRUNC` of `fs_open`.
abbrev pub truncate : Fat16Fs → ℕ → FatDirEntry → Fat16Fs
truncate u parent e =
    let rest = u.fat e.first_cluster in
    let u1 = free_cluster_chain (with_fat u (update u.fat e.first_cluster fat_end)) rest in
    sync (update_file_size u1 parent e.first_cluster 0)

-- The end of `fs_open`, with what `alloc_fd` gave.
abbrev pub opened_as : Fat16Fs → ℕ → FatDirEntry → ℕ → ℤ × OpenFileTable → ℤ × Fat16Fs
opened_as u parent e flags (negsuc n, t) = (negsuc n, record u { oft = t })
opened_as u parent e flags (pos fd, t) =
    let t' : OpenFileTable =
      if has_bits flags o_append then (set_offset t u.user_slot (pos fd) e.file_size).1 else t in
    (pos fd, record u { oft = t'; open_parent = update u.open_parent fd parent })

abbrev pub open_entry : Fat16Fs → ℕ → ℕ → Option FatDirEntry → ℤ × Fat16Fs
open_entry u parent flags none = (minus_one, u)
open_entry u parent flags (some e) =
    let u1 : Fat16Fs =
      if has_bits flags o_trunc && leb 2 e.first_cluster then truncate u parent e else u in
    if is_directory e
    then (minus_one, u)
    else opened_as u1 parent e flags (alloc_fd u1.oft u1.user_slot e.first_cluster (flags % 256))

abbrev pub open_in : Fat16Fs → ℕ → Resolved → ℤ × Fat16Fs
open_in u flags no_parent = (minus_one, u)
open_in u flags (missing parent name) = (minus_one, u)
open_in u flags (found cluster parent name) =
    open_entry u parent flags (find_entry name (read_dir_entries u parent).1)

unfoldable pub fs_open : Fat16Fs → CString → ℕ → ℤ × Fat16Fs
unfolding find_entry
fs_open u path flags =
    if not u.mounted then (minus_one, u) else open_in u flags (resolve_path u path)

abbrev pub close_with : Fat16Fs → ℤ × OpenFileTable → ℤ × Fat16Fs
close_with u (pos zero, t) = (pos 0, sync (record u { oft = t }))
close_with u (pos (suc n), t) = (pos (suc n), record u { oft = t })
close_with u (negsuc n, t) = (negsuc n, record u { oft = t })

unfoldable pub fs_close : Fat16Fs → ℤ → ℤ × Fat16Fs
fs_close u fd = close_with u (free_fd u.oft u.user_slot fd)

-- The first loop of `fs_read`.
unfoldable pub skip_loop : ℕ → (ℕ → ℕ) → ℕ → ℕ
skip_loop zero fat cur = cur
skip_loop (suc n) fat cur =
    let rest = skip_loop n fat (fat cur) in if is_live cur then rest else cur

-- The second loop of `fs_read`: the bytes read and the caller's buffer. Each pass reads at least one
-- byte, so fuel for `to_read` passes is enough.
unfoldable pub read_loop : ℕ → BlockDevice → (ℕ → ℕ) → ℕ → ℕ → ℕ → ℕ → Buffer → ℕ × Buffer
read_loop zero d fat to_read cur blk_off bytes_read dst = (bytes_read, dst)
read_loop (suc fuel) d fat to_read cur blk_off bytes_read dst =
    let blk = read_buf d (cluster_to_block cur) in
    let chunk = min (block_size - blk_off) (to_read - bytes_read) in
    let rest =
      read_loop fuel d fat to_read (fat cur) 0 (bytes_read + chunk)
        (copy_in bytes_read chunk (λ i. blk (blk_off + i)) dst) in
    if ltb bytes_read to_read && is_live cur then rest else (bytes_read, dst)

abbrev pub parent_of : Fat16Fs → ℤ → ℕ
parent_of u (pos fd) = u.open_parent fd
parent_of u (negsuc n) = 0

abbrev pub read_from : Fat16Fs → ℤ → Buffer → ℕ → ℕ → ℕ → ℕ → ℤ × Fat16Fs × Buffer
read_from u fd buf len first_cluster offset file_size =
    let to_read = min len (file_size - offset) in
    let cur = skip_loop (offset / block_size) u.fat first_cluster in
    let (n, dst) = read_loop to_read u.dev u.fat to_read cur (offset % block_size) 0 buf in
    let t = (set_offset u.oft u.user_slot fd ((offset + n) % u32_mod)).1 in
    if leb file_size offset then (pos 0, u, buf) else (pos n, record u { oft = t }, dst)

unfoldable pub fs_read : Fat16Fs → ℤ → Buffer → ℕ → ℤ × Fat16Fs × Buffer
unfolding skip_loop read_loop
fs_read u fd buf len =
    let first_cluster = get_inode u.oft u.user_slot fd in
    if not u.mounted
    then (minus_one, u, buf)
    else if not (is_valid u.oft u.user_slot fd)
    then (minus_one, u, buf)
    else if not (has_bits (get_flags u.oft u.user_slot fd) o_read)
    then (minus_one, u, buf)
    else read_from u fd buf len first_cluster (get_offset u.oft u.user_slot fd)
        (get_file_size u (parent_of u fd) first_cluster)

-- The end of the handlers that remove an entry.
abbrev pub entry_removed : ℤ × Fat16Fs → ℤ × Fat16Fs
entry_removed (pos zero, u) = (pos 0, sync u)
entry_removed (pos (suc n), u) = (pos (suc n), u)
entry_removed (negsuc n, u) = (negsuc n, u)

abbrev pub delete_entry : Fat16Fs → ℕ → CString → Option FatDirEntry → ℤ × Fat16Fs
delete_entry u parent name none = entry_removed (remove_dir_entry u parent name)
delete_entry u parent name (some e) =
    let u1 : Fat16Fs = if leb 2 e.first_cluster then free_cluster_chain u e.first_cluster else u in
    if is_directory e then (minus_one, u) else entry_removed (remove_dir_entry u1 parent name)

abbrev pub delete_in : Fat16Fs → Resolved → ℤ × Fat16Fs
delete_in u no_parent = (minus_one, u)
delete_in u (missing parent name) = (minus_one, u)
delete_in u (found cluster parent name) =
    delete_entry u parent name (find_entry name (read_dir_entries u parent).1)

unfoldable pub fs_delete : Fat16Fs → CString → ℤ × Fat16Fs
fs_delete u path = if not u.mounted then (minus_one, u) else delete_in u (resolve_path u path)
