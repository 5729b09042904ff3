-- ===== src/UnixFs/Dirs.antt =====
-- src/fs/unix/unix_fs.cpp: delete and the directories.
use pseudo_fs.Common.{
  ℕ, Bool, true, not, ◌&&◌, Option, none, some, List, [], ◌∷◌, ◌++◌, ◌==◌, if◌then◌else◌,
}
use pseudo_fs.Common.Arrays.{dec16}
use pseudo_fs.Common.Int.{ℤ, pos, minus_one}
use pseudo_fs.Common.CStrings.{CString, str_eq}
use pseudo_fs.Layout.{invalid_blk, mode_dir}
use pseudo_fs.Inode.{Inodes, get, put, alloc, write_back, set_inode}
use pseudo_fs.Directory.{
  namei_parent, lookup, link, unlink, init_dir, is_empty, split_path, dot, dot_dot,
}
use pseudo_fs.UnixFs.{UnixFs, with_imng, sync, has_bits, check_access, or_empty, o_write, dir_mode}
use pseudo_fs.UnixFs.Links.{namei_follow, without_name}

-- `fs_delete` with the inode of the name.
abbrev pub delete_ip : UnixFs → ℕ → CString → Option ℕ × Inodes → ℤ × UnixFs
delete_ip u parent_ip basename (none, s) = (minus_one, with_imng u (put s parent_ip))
delete_ip u parent_ip basename (some slot, s) =
    let s1 = (unlink s parent_ip basename).1 in
    let ip = s1.cache slot in
    let s2 =
      set_inode s1 slot
        (record ip { di = record (ip.di) { di_nlink = dec16 ip.di_nlink }; i_dirty = true }) in
    let s3 = put (put (write_back s2 parent_ip) parent_ip) slot in
    let refused : ℤ × UnixFs = (minus_one, with_imng u (put (put s slot) parent_ip)) in
    if has_bits (s.cache slot).di_mode mode_dir
    then refused
    else if not (check_access u (s.cache parent_ip) o_write)
    then refused
    else (pos 0, sync (with_imng u s3))

abbrev pub delete_in : UnixFs → CString → Option ℕ × Inodes → ℤ × UnixFs
delete_in u basename (none, s) = (minus_one, with_imng u s)
delete_in u basename (some parent_ip, s) =
    let ino = lookup s parent_ip basename in
    if ino == invalid_blk
    then (minus_one, with_imng u (put s parent_ip))
    else delete_ip u parent_ip basename (get s ino)

unfoldable pub fs_delete : UnixFs → CString → ℤ × UnixFs
unfolding sync
fs_delete u path =
    let (basename, parent_ino, s) = namei_parent u.imng path u.cwd_ino u.root_ino in
    if parent_ino == invalid_blk
    then (minus_one, with_imng u s)
    else delete_in u (or_empty basename) (get s parent_ino)

-- `fs_mkdir` with the new inode.
abbrev pub mkdir_at : UnixFs → ℕ → ℕ → CString → Option ℕ × Inodes → ℤ × UnixFs
mkdir_at u parent_ino parent_ip basename (none, s) = (minus_one, with_imng u (put s parent_ip))
mkdir_at u parent_ino parent_ip basename (some new_ip, s) =
    let s1 = (init_dir s new_ip (s.cache new_ip).i_ino parent_ino).1 in
    let s2 = (link s1 parent_ip basename (s1.cache new_ip).i_ino).1 in
    let s3 = write_back (write_back s2 new_ip) parent_ip in
    (pos 0, sync (with_imng u (put (put s3 new_ip) parent_ip)))

abbrev pub mkdir_in : UnixFs → ℕ → ℕ → CString → Option ℕ × Inodes → ℤ × UnixFs
mkdir_in u now parent_ino basename (none, s) = (minus_one, with_imng u s)
mkdir_in u now parent_ino basename (some parent_ip, s) =
    let refused : ℤ × UnixFs = (minus_one, with_imng u (put s parent_ip)) in
    if not (check_access u (s.cache parent_ip) o_write)
    then refused
    else if not (lookup s parent_ip basename == invalid_blk)
    then refused
    else mkdir_at u parent_ino parent_ip basename (alloc s dir_mode u.cur_uid u.cur_gid now)

unfoldable pub fs_mkdir : UnixFs → CString → ℕ → ℤ × UnixFs
unfolding sync
fs_mkdir u path now =
    let (basename, parent_ino, s) = namei_parent u.imng path u.cwd_ino u.root_ino in
    if parent_ino == invalid_blk
    then (minus_one, with_imng u s)
    else mkdir_in u now parent_ino (or_empty basename) (get s parent_ino)

abbrev pub rmdir_ip : UnixFs → ℕ → CString → Option ℕ × Inodes → ℤ × UnixFs
rmdir_ip u parent_ip basename (none, s) = (minus_one, with_imng u (put s parent_ip))
rmdir_ip u parent_ip basename (some slot, s) =
    let s1 = without_name (unlink s parent_ip basename).1 slot in
    let s2 = set_inode s1 slot (record (s1.cache slot) { i_dirty = true }) in
    let s3 = put (put (write_back s2 parent_ip) parent_ip) slot in
    let refused : ℤ × UnixFs = (minus_one, with_imng u (put (put s slot) parent_ip)) in
    if not (has_bits (s.cache slot).di_mode mode_dir)
    then refused
    else if not (is_empty s slot)
    then refused
    else if not (check_access u (s.cache parent_ip) o_write)
    then refused
    else (pos 0, sync (with_imng u s3))

abbrev pub rmdir_in : UnixFs → CString → Option ℕ × Inodes → ℤ × UnixFs
rmdir_in u basename (none, s) = (minus_one, with_imng u s)
rmdir_in u basename (some parent_ip, s) =
    let ino = lookup s parent_ip basename in
    if ino == invalid_blk
    then (minus_one, with_imng u (put s parent_ip))
    else rmdir_ip u parent_ip basename (get s ino)

unfoldable pub fs_rmdir : UnixFs → CString → ℤ × UnixFs
unfolding sync
fs_rmdir u path =
    let (basename, parent_ino, s) = namei_parent u.imng path u.cwd_ino u.root_ino in
    if parent_ino == invalid_blk
    then (minus_one, with_imng u s)
    else rmdir_in u (or_empty basename) (get s parent_ino)

abbrev pub drop_last : List CString → List CString
drop_last [] = []
drop_last (p ∷ []) = []
drop_last (p ∷ q ∷ ps) = p ∷ drop_last (q ∷ ps)

-- `..` and `.` in the segments of a relative path.
unfoldable pub normalize : List CString → List CString → List CString
normalize parts [] = parts
normalize parts (comp ∷ comps) =
    normalize
      (if str_eq comp dot_dot
        then drop_last parts
        else if str_eq comp dot
        then parts
        else parts ++ comp ∷ [])
      comps

-- The segments with slashes between.
abbrev pub join : List CString → CString
join [] = []
join (p ∷ []) = p
join (p ∷ q ∷ ps) = p ++ (47 ∷ join (q ∷ ps))

-- `while (s.size() > 1 && s.back() == '/') s.pop_back();` on c followed by s.
abbrev pub all_slashes : CString → Bool
all_slashes [] = true
all_slashes (c ∷ s) = (c == 47) && all_slashes s

abbrev pub strip_end : CString → CString
strip_end [] = []
strip_end (c ∷ s) = if all_slashes (c ∷ s) then [] else c ∷ strip_end s

abbrev pub strip : CString → CString
strip [] = []
strip (c ∷ s) = c ∷ strip_end s

unfoldable pub new_cwd_path : CString → CString → CString
unfolding normalize
new_cwd_path cwd_path [] = 47 ∷ join (normalize (split_path cwd_path) (split_path []))
new_cwd_path cwd_path (c ∷ path) =
    if c == 47
    then strip (c ∷ path)
    else 47 ∷ join (normalize (split_path cwd_path) (split_path (c ∷ path)))

abbrev pub chdir_ip : UnixFs → CString → ℕ → Option ℕ × Inodes → ℤ × UnixFs
chdir_ip u path ino (none, s) = (minus_one, with_imng u s)
chdir_ip u path ino (some slot, s) =
    let w = with_imng u (put s slot) in
    if has_bits (s.cache slot).di_mode mode_dir
    then (pos 0, record w { cwd_ino = ino; cwd_path = new_cwd_path u.cwd_path path })
    else (minus_one, w)

unfoldable pub fs_chdir : UnixFs → CString → ℤ × UnixFs
unfolding new_cwd_path
fs_chdir u path =
    let (ino, s) = namei_follow u path in
    if ino == invalid_blk then (minus_one, with_imng u s) else chdir_ip u path ino (get s ino)
