-- ===== src/UnixFs/Stat.antt =====
-- src/fs/unix/unix_fs.cpp: `fs_ls`, `fs_stat` and `fs_chmod`.
use pseudo_fs.Common.{
  ℕ, true, Option, none, some, List, [], ◌∷◌, ◌==◌, if◌then◌else◌, bit_and, bit_or,
}
use pseudo_fs.Common.Int.{ℤ, pos, minus_one}
use pseudo_fs.Common.CStrings.{CString, take}
use pseudo_fs.Layout.{invalid_blk, mode_dir, mode_symlink, max_filename}
use pseudo_fs.Inode.{Inodes, MemInode, get, put, write_back, set_inode}
use pseudo_fs.Directory.{DirEntry, namei, read_dir_data}
use pseudo_fs.UnixFs.{UnixFs, with_imng, sync, has_bits}

-- The entry that `fs_ls` returns, `DirEntry` of include/core/vfs.h.
pub record VfsEntry : Type 0 where
  pub name : CString
  pub inode_no : ℕ
  pub entry_type : ℕ
  pub size : ℕ

abbrev pub type_of : ℕ → ℕ
type_of mode = if has_bits mode mode_dir then 1 else if has_bits mode mode_symlink then 2 else 0

abbrev pub ls_entry : DirEntry → Option ℕ × Inodes → VfsEntry × Inodes
ls_entry e (none, s) =
    (record { name = take max_filename e.d_name; inode_no = e.d_ino; entry_type = 0; size = 0 }, s)
ls_entry e (some slot, s) = (
  record {
    name = take max_filename e.d_name;
    inode_no = e.d_ino;
    entry_type = type_of (s.cache slot).di_mode;
    size = (s.cache slot).di_size;
  },
  put s slot,
)

unfoldable pub ls_loop : Inodes → List DirEntry → List VfsEntry × Inodes
ls_loop s [] = ([], s)
ls_loop s (e ∷ es) =
    let skipped = ls_loop s es in
    let (here, s1) = ls_entry e (get s e.d_ino) in
    let (rest, s2) = ls_loop s1 es in if e.d_ino == 0 then skipped else (here ∷ rest, s2)

abbrev pub ls_entries :
    UnixFs → Inodes → Option (List DirEntry) → ℤ × Option (List VfsEntry) × UnixFs
ls_entries u s none = (minus_one, none, with_imng u s)
ls_entries u s (some raw) = let (out, s') = ls_loop s raw in (pos 0, some out, with_imng u s')

abbrev pub ls_ip : UnixFs → Option ℕ × Inodes → ℤ × Option (List VfsEntry) × UnixFs
ls_ip u (none, s) = (minus_one, none, with_imng u s)
ls_ip u (some slot, s) =
    if has_bits (s.cache slot).di_mode mode_dir
    then ls_entries u (put s slot) (read_dir_data s slot)
    else (minus_one, none, with_imng u (put s slot))

-- A null path is the empty one.
abbrev pub ls_start : UnixFs → CString → ℕ × Inodes
ls_start u [] = (u.cwd_ino, u.imng)
ls_start u (c ∷ path) = namei u.imng (c ∷ path) u.cwd_ino u.root_ino

unfoldable pub fs_ls : UnixFs → CString → ℤ × Option (List VfsEntry) × UnixFs
unfolding ls_loop
fs_ls u path =
    let (ino, s) = ls_start u path in
    if ino == invalid_blk then (minus_one, none, with_imng u s) else ls_ip u (get s ino)

-- `FileStat` of include/core/vfs.h.
pub record FileStat : Type 0 where
  pub mode : ℕ
  pub uid : ℕ
  pub gid : ℕ
  pub size : ℕ
  pub atime : ℕ
  pub mtime : ℕ
  pub ctime : ℕ
  pub nlink : ℕ
  pub file_type : ℕ

abbrev pub stat_of : MemInode → FileStat
stat_of ip = record {
  mode = ip.di_mode;
  uid = ip.di_uid;
  gid = ip.di_gid;
  size = ip.di_size;
  atime = ip.di_atime;
  mtime = ip.di_mtime;
  ctime = ip.di_ctime;
  nlink = ip.di_nlink;
  file_type = type_of ip.di_mode;
}

abbrev pub stat_ip : UnixFs → Option ℕ × Inodes → ℤ × Option FileStat × UnixFs
stat_ip u (none, s) = (minus_one, none, with_imng u s)
stat_ip u (some slot, s) = (pos 0, some (stat_of (s.cache slot)), with_imng u (put s slot))

unfoldable pub fs_stat : UnixFs → CString → ℤ × Option FileStat × UnixFs
fs_stat u path =
    let (ino, s) = namei u.imng path u.cwd_ino u.root_ino in
    if ino == invalid_blk then (minus_one, none, with_imng u s) else stat_ip u (get s ino)

abbrev pub new_mode : ℕ → ℕ → ℕ
new_mode old mode = bit_or (bit_and old 0xff00) (bit_and mode 0x01ff)

abbrev pub chmod_ip : UnixFs → ℕ → Option ℕ × Inodes → ℤ × UnixFs
chmod_ip u mode (none, s) = (minus_one, with_imng u s)
chmod_ip u mode (some slot, s) =
    let ip = s.cache slot in
    let s1 =
      set_inode s slot (record ip {
        di = record (ip.di) { di_mode = new_mode ip.di_mode mode };
        i_dirty = true;
      }) in
    (pos 0, sync (with_imng u (put (write_back s1 slot) slot)))

unfoldable pub fs_chmod : UnixFs → CString → ℕ → ℤ × UnixFs
unfolding sync
fs_chmod u path mode =
    let (ino, s) = namei u.imng path u.cwd_ino u.root_ino in
    if ino == invalid_blk then (minus_one, with_imng u s) else chmod_ip u mode (get s ino)
