-- ===== src/Vfs/Engines.antt =====
-- The classes UnixFs and Fat16Fs as implementations of `IFileSystem`. The clock is an argument.
-- A directory deeper than the fuel of `fs_delete_recursive` is one below itself, since each level
-- takes an inode or a cluster; the source does not return from it, and here it is an error.
use pseudo_fs.Common.{ℕ, suc, Option, none, some}
use pseudo_fs.Common.Int.{ℤ, minus_one}
use pseudo_fs.Vfs.{IFileSystem}
use pseudo_fs.UnixFs
use pseudo_fs.UnixFs.{UnixFs}
use pseudo_fs.Fat16
use pseudo_fs.Fat16.{Fat16Fs, data_blk_count}
use pseudo_fs.Fat16.Paths.{Tm}
use pseudo_fs.Layout.{inode_total}

abbrev or_failed {ℓ} : {F : Type ℓ} → F → Option (ℤ × F) → ℤ × F
or_failed u none = (minus_one, u)
or_failed u (some r) = r

unfoldable pub unix_engine : ℕ → IFileSystem UnixFs
unix_engine now = record {
  fs_format = λ u. UnixFs.fs_format u now;
  fs_mount = UnixFs.fs_mount;
  fs_unmount = UnixFs.fs_unmount;
  set_user = UnixFs.set_user;
  fs_create = λ u path mode. UnixFs.fs_create u path mode now;
  fs_open = λ u path flags. UnixFs.Links.fs_open u path flags now;
  fs_close = UnixFs.fs_close;
  fs_read = λ u fd buf len. UnixFs.fs_read u fd buf len now;
  fs_write = λ u fd buf len. UnixFs.fs_write u fd buf len now;
  fs_delete = UnixFs.Dirs.fs_delete;
  fs_delete_recursive =
      λ u path. or_failed u (UnixFs.Recursive.fs_delete_recursive (suc inode_total) u path);
  fs_mkdir = λ u path. UnixFs.Dirs.fs_mkdir u path now;
  fs_rmdir = UnixFs.Dirs.fs_rmdir;
  fs_chdir = UnixFs.Dirs.fs_chdir;
  fs_ls = λ u path. let (rc, entries, u') = UnixFs.Stat.fs_ls u path in (entries, u');
  fs_pwd = UnixFs.Recursive.fs_pwd;
  fs_stat = λ u path. let (rc, st, u') = UnixFs.Stat.fs_stat u path in (st, u');
  fs_chmod = UnixFs.Stat.fs_chmod;
  fs_link = UnixFs.Links.fs_link;
  fs_symlink = λ u target linkpath. UnixFs.Links.fs_symlink u target linkpath now;
  fs_readlink = λ u path. let (rc, target, u') = UnixFs.Links.fs_readlink u path in (target, u');
  fs_type_name = UnixFs.Recursive.fs_type_name;
  fs_disk_usage = λ u. UnixFs.Usage.fs_disk_usage u.imng.vol;
  fs_block_map = λ u. UnixFs.Usage.fs_block_map u.imng.vol;
}

unfoldable pub fat16_engine : Tm → IFileSystem Fat16Fs
fat16_engine now = record {
  fs_format = Fat16.Volume.fs_format;
  fs_mount = Fat16.Volume.fs_mount;
  fs_unmount = Fat16.Volume.fs_unmount;
  set_user = Fat16.set_user;
  fs_create = λ u path mode. Fat16.Files.fs_create u path now;
  fs_open = Fat16.Files.fs_open;
  fs_close = Fat16.Files.fs_close;
  fs_read = Fat16.Files.fs_read;
  fs_write = Fat16.Writing.fs_write;
  fs_delete = Fat16.Files.fs_delete;
  fs_delete_recursive =
      λ u path. or_failed u (Fat16.Recursive.fs_delete_recursive (suc data_blk_count) u path);
  fs_mkdir = λ u path. Fat16.Dirs.fs_mkdir u path now;
  fs_rmdir = Fat16.Dirs.fs_rmdir;
  fs_chdir = Fat16.Dirs.fs_chdir;
  fs_ls = λ u path. (Fat16.Dirs.fs_ls u path, u);
  fs_pwd = Fat16.Dirs.fs_pwd;
  fs_stat = λ u path. (Fat16.Dirs.fs_stat u path, u);
  fs_chmod = Fat16.Dirs.fs_chmod;
  fs_link = Fat16.Dirs.fs_link;
  fs_symlink = Fat16.Dirs.fs_symlink;
  fs_readlink = λ u path. let (rc, target) = Fat16.Dirs.fs_readlink u path in (target, u);
  fs_type_name = Fat16.Dirs.fs_type_name;
  fs_disk_usage = Fat16.Dirs.fs_disk_usage;
  fs_block_map = Fat16.Dirs.fs_block_map;
}
