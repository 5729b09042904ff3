-- ===== src/Vfs.antt =====
-- include/core/vfs.h: the interface `IFileSystem` that the shell uses, over the state F of an engine.
-- An operation that fills in a value gives it back, and `none` where it returns -1.
pub mod Engines
pub mod Sample
use pseudo_fs.Common.{ℕ, Option, List}
use pseudo_fs.Common.Arrays.{Buffer}
use pseudo_fs.Common.CStrings.{CString}
use pseudo_fs.Common.Int.{ℤ}
use pseudo_fs.UnixFs.Stat.{VfsEntry, FileStat}
use pseudo_fs.UnixFs.Usage.{DiskUsage}

abbrev pub type_dir : ℕ
type_dir = 1

abbrev pub type_symlink : ℕ
type_symlink = 2

pub record IFileSystem (F : Type 0) : Type 0 where
  pub fs_format : F → ℤ × F
  pub fs_mount : F → ℤ × F
  pub fs_unmount : F → ℤ × F
  pub set_user : ℕ → ℕ → F → F
  pub fs_create : F → CString → ℕ → ℤ × F
  pub fs_open : F → CString → ℕ → ℤ × F
  pub fs_close : F → ℤ → ℤ × F
  pub fs_read : F → ℤ → Buffer → ℕ → ℤ × F × Buffer
  pub fs_write : F → ℤ → Buffer → ℕ → ℤ × F
  pub fs_delete : F → CString → ℤ × F
  pub fs_delete_recursive : F → CString → ℤ × F
  pub fs_mkdir : F → CString → ℤ × F
  pub fs_rmdir : F → CString → ℤ × F
  pub fs_chdir : F → CString → ℤ × F
  pub fs_ls : F → CString → Option (List VfsEntry) × F
  pub fs_pwd : F → CString
  pub fs_stat : F → CString → Option FileStat × F
  pub fs_chmod : F → CString → ℕ → ℤ × F
  pub fs_link : F → CString → CString → ℤ × F
  pub fs_symlink : F → CString → CString → ℤ × F
  pub fs_readlink : F → CString → Option CString × F
  pub fs_type_name : CString
  pub fs_disk_usage : F → DiskUsage
  pub fs_block_map : F → ℕ → ℕ
