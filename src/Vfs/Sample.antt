-- ===== src/Vfs/Sample.antt =====
-- A small implementation of `IFileSystem` for concrete cases: every path is one file, which is read
-- from its front, and what is written is kept apart, as far as there is room. Its directory has three names.
use pseudo_fs.Common.{ℕ, ◌-◌, min, none, some, List, [], ◌∷◌, ◌++◌}
use pseudo_fs.Common.CStrings.{CString, codes, drop}
use pseudo_fs.Common.Int.{ℤ, pos, minus_one}
use pseudo_fs.Common.Lists.{length}
use pseudo_fs.UnixFs.Links.{bytes_at, text_image}
use pseudo_fs.UnixFs.Stat.{VfsEntry, FileStat}
use pseudo_fs.Vfs.{IFileSystem}

pub record Tape : Type 0 where
  pub unread : List ℕ
  pub written : List ℕ
  pub room : ℕ

abbrev done : Tape → CString → ℤ × Tape
done u path = (pos 0, u)

abbrev file_named : CString → VfsEntry
file_named name = record { name = name; inode_no = 1; entry_type = 0; size = 0 }

abbrev pub sample_names : List VfsEntry
sample_names = file_named (codes ".") ∷ file_named (codes "b.log") ∷ file_named (codes "a.log") ∷ []

abbrev pub sample_stat : FileStat
sample_stat = record {
  mode = 0o644;
  uid = 0;
  gid = 0;
  size = 5;
  atime = 0;
  mtime = 0;
  ctime = 0;
  nlink = 1;
  file_type = 0;
}

abbrev pub tape_engine : IFileSystem Tape
tape_engine = record {
  fs_format = λ u. (pos 0, u);
  fs_mount = λ u. (pos 0, u);
  fs_unmount = λ u. (pos 0, u);
  set_user = λ uid gid u. u;
  fs_create = λ u path mode. (minus_one, u);
  fs_open = λ u path flags. (pos 3, u);
  fs_close = λ u fd. (pos 0, u);
  fs_read = λ u fd buf len. (
    pos (min len (length u.unread)),
    record u { unread = drop len u.unread },
    text_image u.unread,
  );
  fs_write = λ u fd buf n. (
    pos (min n u.room),
    record u { written = u.written ++ bytes_at buf 0 (min n u.room); room = u.room - n },
  );
  fs_delete = done;
  fs_delete_recursive = done;
  fs_mkdir = done;
  fs_rmdir = done;
  fs_chdir = done;
  fs_ls = λ u path. (some sample_names, u);
  fs_pwd = λ u. codes "/";
  fs_stat = λ u path. (some sample_stat, u);
  fs_chmod = λ u path mode. (pos 0, u);
  fs_link = λ u src dst. (minus_one, u);
  fs_symlink = λ u target linkpath. (minus_one, u);
  fs_readlink = λ u path. (none, u);
  fs_type_name = codes "TAPE";
  fs_disk_usage =
      λ u. record { total_blocks = 1; used_blocks = 1; total_inodes = 1; used_inodes = 1 };
  fs_block_map = λ u i. 1;
}
