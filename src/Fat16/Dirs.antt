-- ===== src/Fat16/Dirs.antt =====
-- src/fs/fat16/fat16_fs.cpp: directories, `fs_ls`, `fs_stat`, what FAT16 does not support, and the
-- state of the blocks.
use pseudo_fs.Common.{
  ℕ, zero, suc, ◌+◌, ◌-◌, Bool, false, not, ◌&&◌, ◌||◌, Option, none, some, List, [], ◌∷◌, ltb,
  ◌==◌, if◌then◌else◌, bit_or,
}
use pseudo_fs.Common.Arrays.{Buffer, zeros, update}
use pseudo_fs.Common.Int.{ℤ, pos, minus_one}
use pseudo_fs.Common.CStrings.{CString, codes, take, str_eq}
use pseudo_fs.Layout.{total_blk_num, max_filename, mode_dir, mode_file, default_mode}
use pseudo_fs.BlockDevice.{write_buf}
use pseudo_fs.Directory.{split_path, dot, dot_dot}
use pseudo_fs.UnixFs.Dirs.{normalize, join}
use pseudo_fs.UnixFs.Stat.{VfsEntry, FileStat}
use pseudo_fs.UnixFs.Usage.{DiskUsage, blk_free, blk_used, blk_meta}
use pseudo_fs.Fat16.{
  Fat16Fs, with_dev, with_fat, fat_end, fat_free, attr_directory, cluster_to_block, alloc_cluster,
  free_cluster_chain, flush_fat, root_cluster, clusters_per_fat, data_start, data_blk_count,
}
use pseudo_fs.Fat16.Names.{FatDirEntry, zero_entry, spaces, entry_name}
use pseudo_fs.Fat16.Entries.{
  read_dir_entries, put_entry, is_directory, is_used, append_dir_entry, remove_dir_entry,
}
use pseudo_fs.Fat16.Paths.{
  Resolved, found, missing, no_parent, resolve_path, find_entry, Tm, timestamp,
}
use pseudo_fs.Fat16.Files.{fresh_entry, entry_added, entry_removed}

-- The entries `.` and `..` of a new directory.
abbrev pub dots_entry : Buffer → ℕ → Tm → FatDirEntry
dots_entry name cluster now =
    let (t, d) = timestamp now in
    record zero_entry {
      name = name;
      ext = spaces;
      attr = attr_directory;
      first_cluster = cluster;
      time = t;
      date = d;
    }

abbrev pub dir_block : ℕ → ℕ → Tm → Buffer
dir_block dir_cluster parent_cluster now =
    put_entry (put_entry zeros 0 (dots_entry (update spaces 0 46) dir_cluster now)) 1
      (dots_entry (update (update spaces 0 46) 1 46) parent_cluster now)

abbrev pub mkdir_in : Fat16Fs → Tm → Resolved → ℤ × Fat16Fs
mkdir_in u now (found cluster parent name) = (minus_one, u)
mkdir_in u now no_parent = (minus_one, u)
mkdir_in u now (missing parent name) =
    let (dir_cluster, fat) = alloc_cluster u.fat in
    let u1 = flush_fat (with_fat u (update fat dir_cluster fat_end)) in
    let u2 =
      with_dev u1
        (write_buf u1.dev (cluster_to_block dir_cluster) (dir_block dir_cluster parent now)) in
    if dir_cluster == fat_end
    then (minus_one, u)
    else entry_added dir_cluster
        (append_dir_entry u2 parent (fresh_entry name attr_directory dir_cluster now))

unfoldable pub fs_mkdir : Fat16Fs → CString → Tm → ℤ × Fat16Fs
fs_mkdir u path now = if not u.mounted then (minus_one, u) else mkdir_in u now (resolve_path u path)

-- Whether a used entry has another name than `.` and `..`.
unfoldable pub has_child : List FatDirEntry → Bool
has_child [] = false
has_child (e ∷ es) =
    (is_used e && not (str_eq (entry_name e) dot) && not (str_eq (entry_name e) dot_dot))
    || has_child es

abbrev pub rmdir_in : Fat16Fs → Resolved → ℤ × Fat16Fs
rmdir_in u no_parent = (minus_one, u)
rmdir_in u (missing parent name) = (minus_one, u)
rmdir_in u (found cluster parent name) =
    if has_child (read_dir_entries u cluster).1
    then (minus_one, u)
    else entry_removed (remove_dir_entry (free_cluster_chain u cluster) parent name)

unfoldable pub fs_rmdir : Fat16Fs → CString → ℤ × Fat16Fs
unfolding has_child
fs_rmdir u path = if not u.mounted then (minus_one, u) else rmdir_in u (resolve_path u path)

-- The working directory's path after `fs_chdir` to a cluster other than the root.
unfoldable pub new_cwd_path : CString → CString → CString
new_cwd_path cwd_path [] = 47 ∷ join (normalize (split_path cwd_path) (split_path []))
new_cwd_path cwd_path (c ∷ path) =
    if c == 47
    then c ∷ path
    else 47 ∷ join (normalize (split_path cwd_path) (split_path (c ∷ path)))

abbrev pub chdir_in : Fat16Fs → CString → Resolved → ℤ × Fat16Fs
chdir_in u path no_parent = (minus_one, u)
chdir_in u path (missing parent name) = (minus_one, u)
chdir_in u path (found cluster parent name) =
    let path' : CString =
      if cluster == root_cluster then codes "/" else new_cwd_path u.cwd_path path in
    (pos 0, record u { cwd_cluster = cluster; cwd_path = path' })

unfoldable pub fs_chdir : Fat16Fs → CString → ℤ × Fat16Fs
unfolding new_cwd_path
fs_chdir u path =
    if not u.mounted
    then (minus_one, u)
    else if str_eq path (codes "/")
    then (pos 0, record u { cwd_path = codes "/"; cwd_cluster = root_cluster })
    else chdir_in u path (resolve_path u path)

abbrev pub fat16_to_vfs_entry : FatDirEntry → VfsEntry
fat16_to_vfs_entry fe = record {
  name = take (max_filename - 1) (entry_name fe);
  inode_no = fe.first_cluster;
  entry_type = if is_directory fe then 1 else 0;
  size = fe.file_size;
}

unfoldable pub used_entries : List FatDirEntry → List VfsEntry
used_entries [] = []
used_entries (e ∷ es) =
    let rest = used_entries es in if is_used e then fat16_to_vfs_entry e ∷ rest else rest

abbrev pub list_dir : Bool × List FatDirEntry → Option (List VfsEntry)
list_dir (ok, entries) = if ok then some (used_entries entries) else none

abbrev pub ls_in : Fat16Fs → Resolved → Option (List VfsEntry)
ls_in u no_parent = none
ls_in u (missing parent name) = none
ls_in u (found cluster parent name) = list_dir (read_dir_entries u cluster)

-- A null path is the empty one. `none` is the return value -1.
abbrev pub ls_path : Fat16Fs → CString → Option (List VfsEntry)
ls_path u [] = list_dir (read_dir_entries u u.cwd_cluster)
ls_path u (c ∷ path) = ls_in u (resolve_path u (c ∷ path))

unfoldable pub fs_ls : Fat16Fs → CString → Option (List VfsEntry)
unfolding used_entries
fs_ls u path = if not u.mounted then none else ls_path u path

abbrev pub stat_as : Fat16Fs → ℕ → ℕ → ℕ → FileStat
stat_as u mode size file_type = record {
  mode = bit_or mode default_mode;
  uid = u.cur_uid;
  gid = u.cur_gid;
  size = size;
  atime = 0;
  mtime = 0;
  ctime = 0;
  nlink = 1;
  file_type = file_type;
}

abbrev pub stat_entry : Fat16Fs → Option FatDirEntry → Option FileStat
stat_entry u none = none
stat_entry u (some e) =
    some (
      if is_directory e
      then stat_as u mode_dir e.file_size 1
      else stat_as u mode_file e.file_size 0)

abbrev pub stat_in : Fat16Fs → Resolved → Option FileStat
stat_in u no_parent = none
stat_in u (missing parent name) = none
stat_in u (found cluster parent []) = some (stat_as u mode_dir 0 1)
stat_in u (found cluster parent (c ∷ name)) =
    stat_entry u (find_entry (c ∷ name) (read_dir_entries u parent).1)

-- `none` is the return value -1.
unfoldable pub fs_stat : Fat16Fs → CString → Option FileStat
fs_stat u path = if not u.mounted then none else stat_in u (resolve_path u path)

abbrev pub fs_pwd : Fat16Fs → CString
fs_pwd u = u.cwd_path

-- The operations without a meaning on FAT16: `fs_chmod` does nothing, the others fail.
abbrev pub fs_chmod : Fat16Fs → CString → ℕ → ℤ × Fat16Fs
fs_chmod u path mode = (pos 0, u)

abbrev pub fs_link : Fat16Fs → CString → CString → ℤ × Fat16Fs
fs_link u src dst = (minus_one, u)

abbrev pub fs_symlink : Fat16Fs → CString → CString → ℤ × Fat16Fs
fs_symlink u target linkpath = (minus_one, u)

abbrev pub fs_readlink : Fat16Fs → CString → ℤ × Option CString
fs_readlink u path = (minus_one, none)

abbrev pub fs_type_name : CString
fs_type_name = codes "FAT16"

-- The clusters in use among n of them from number i on.
unfoldable pub used_from : (ℕ → ℕ) → ℕ → ℕ → ℕ
used_from fat i zero = 0
used_from fat i (suc n) =
    let rest = used_from fat (suc i) n in if not (fat i == fat_free) then suc rest else rest

unfoldable pub fs_disk_usage : Fat16Fs → DiskUsage
unfolding used_from
fs_disk_usage u = record {
  total_blocks = total_blk_num;
  used_blocks = data_start + used_from u.fat 2 (clusters_per_fat - 2);
  total_inodes = 0;
  used_inodes = 0;
}

-- The loop of `fs_block_map` over n clusters from number c on.
unfoldable pub mark_from : (ℕ → ℕ) → ℕ → ℕ → (ℕ → ℕ) → ℕ → ℕ
mark_from fat c zero out = out
mark_from fat c (suc n) out =
    mark_from fat (suc c) n
      (update out (cluster_to_block c) (if fat c == fat_free then blk_free else blk_used))

unfoldable pub fs_block_map : Fat16Fs → ℕ → ℕ
unfolding mark_from
fs_block_map u =
    mark_from u.fat 2 data_blk_count (λ b. if ltb b data_start then blk_meta else blk_free)
