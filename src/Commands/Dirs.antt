-- ===== src/Commands/Dirs.antt =====
-- src/main.cpp: format, mkdir, rmdir, cd, pwd, touch, rm, chmod, ln, readlink and disk.
use pseudo_fs.Common.{
  ℕ, zero, suc, Bool, false, Option, none, some, List, [], ◌∷◌, ◌++◌, ◌||◌, ◌==◌, if◌then◌else◌,
}
use pseudo_fs.Common.CStrings.{CString, codes, str_eq, take}
use pseudo_fs.Common.Int.{ℤ, pos, minus_one}
use pseudo_fs.Common.Lists.{length}
use pseudo_fs.Common.Text.{split_first, strip_newlines, to_string}
use pseudo_fs.Layout.{default_mode}
use pseudo_fs.UserManager.{UserManager, current_username}
use pseudo_fs.UnixFs.Stat.{FileStat}
use pseudo_fs.Vfs.{IFileSystem}
use pseudo_fs.Commands.{
  Reply, Command, says, fails, is_zero, unless_zero, stoi, with_number, to_u16,
}

-- The loop over several targets: a failure is reported, and the loop goes on.
unfoldable pub each_target :
    {F : Type 0}
    → (F → CString → ℤ × F)
    → (CString → CString)
    → F
    → List CString
    → CString
    → ℤ
    → ℤ × CString × F
each_target f message u [] out rc = (rc, out, u)
each_target f message u (t ∷ ts) out rc =
    let (r, u') = f u t in
    each_target f message u' ts (if is_zero r then out else out ++ message t)
      (if is_zero r then rc else minus_one)

-- The line breaks at the end of `out` are taken off.
abbrev pub all_targets :
    {F : Type 0}
    → (F → CString → ℤ × F)
    → (CString → CString)
    → F
    → UserManager
    → List CString
    → CString
    → Reply F
all_targets f message u um ts out =
    let (rc, out', u') = each_target f message u ts out (pos 0) in
    says rc (strip_newlines out') u' um

-- Arguments that are one of the flags, and the others.
unfoldable pub has_flag : (CString → Bool) → List CString → Bool
has_flag flag [] = false
has_flag flag (a ∷ args) = flag a || has_flag flag args

unfoldable pub without_flags : (CString → Bool) → List CString → List CString
without_flags flag [] = []
without_flags flag (a ∷ args) =
    let rest = without_flags flag args in if flag a then rest else a ∷ rest

abbrev pub last_or_empty : List CString → CString
last_or_empty [] = []
last_or_empty (a ∷ []) = a
last_or_empty (a ∷ b ∷ args) = last_or_empty (b ∷ args)

abbrev pub parent_flag : CString → Bool
parent_flag a = str_eq a (codes "-p")

abbrev pub recursive_flag : CString → Bool
recursive_flag a = str_eq a (codes "-r") || str_eq a (codes "-rf")

abbrev pub symbolic_flag : CString → Bool
symbolic_flag a = str_eq a (codes "-s")

-- The text up to a slash, and what is behind it.
abbrev pub segment_of : CString → CString × CString
segment_of s = elim (split_first b'/' s) [ none ↦ (s, []) | some parts ↦ parts ]

module _ {F : Type 0} (fs : IFileSystem F) where
  unfoldable pub format_cmd : Command F
  format_cmd u um args out =
      let (rc, u') = fs.fs_format u in
      says rc (if is_zero rc then codes "Filesystem formatted." else codes "Format failed.") u' um

  -- The loop of `mkdir -p`; `cur` is the path so far. Each pass takes a character at least.
  unfoldable pub mkdir_loop : ℕ → F → CString → CString → F
  unfolding split_first
  mkdir_loop zero u cur s = u
  mkdir_loop (suc fuel) u cur [] = u
  mkdir_loop (suc fuel) u cur (c ∷ s) =
      let (seg, rest) = segment_of (c ∷ s) in
      elim seg [
        | [] ↦ mkdir_loop fuel u cur rest
        | x ∷ more ↦
            mkdir_loop fuel (fs.fs_mkdir u (cur ++ x ∷ more)).1 ((cur ++ x ∷ more) ++ b'/' ∷ [])
              rest
      ]

  abbrev pub mkdir_all : F → CString → F
  mkdir_all u [] = u
  mkdir_all u (c ∷ path) =
      if c == b'/'
      then mkdir_loop (length path) u (codes "/") path
      else mkdir_loop (length (c ∷ path)) u [] (c ∷ path)

  abbrev pub mkdir_checked : CString → UserManager → Option FileStat × F → Reply F
  mkdir_checked out um (some st, u) = says (pos 0) out u um
  mkdir_checked out um (none, u) = fails (codes "mkdir: failed") u um

  abbrev pub mkdir_path : Bool → CString → F → UserManager → CString → Reply F
  mkdir_path p [] u um out = fails (codes "Usage: mkdir [-p] <path>") u um
  mkdir_path p (c ∷ path) u um out =
      if p
      then mkdir_checked out um (fs.fs_stat (mkdir_all u (c ∷ path)) (c ∷ path))
      else unless_zero (codes "mkdir: failed") out um (fs.fs_mkdir u (c ∷ path))

  unfoldable pub mkdir_cmd : Command F
  unfolding has_flag without_flags mkdir_loop
  mkdir_cmd u um args out =
      mkdir_path (has_flag parent_flag args) (last_or_empty (without_flags parent_flag args)) u um
        out

  unfoldable pub rmdir_cmd : Command F
  unfolding each_target strip_newlines
  rmdir_cmd u um [] out = fails (codes "Usage: rmdir <path>...") u um
  rmdir_cmd u um (t ∷ ts) out =
      all_targets fs.fs_rmdir (λ d. codes "rmdir: '" ++ (d ++ codes "': not empty or not found\n"))
        u um (t ∷ ts) out

  abbrev pub cd_path : UserManager → List CString → CString
  cd_path um [] = codes "/"
  cd_path um ([] ∷ rest) = []
  cd_path um ((c ∷ path) ∷ rest) =
      if c == b'~' then codes "/home/" ++ (current_username um ++ path) else c ∷ path

  unfoldable pub cd_cmd : Command F
  cd_cmd u um args out =
      unless_zero (codes "cd: no such directory") out um (fs.fs_chdir u (cd_path um args))

  unfoldable pub pwd_cmd : Command F
  pwd_cmd u um args out = says (pos 0) (fs.fs_pwd u) u um

  unfoldable pub touch_cmd : Command F
  unfolding each_target strip_newlines
  touch_cmd u um [] out = fails (codes "Usage: touch <file>...") u um
  touch_cmd u um (t ∷ ts) out =
      all_targets (λ v f. fs.fs_create v f default_mode)
        (λ f. codes "touch: '" ++ (f ++ codes "': failed (may already exist)\n")) u um (t ∷ ts) out

  abbrev pub remove : Bool → F → CString → ℤ × F
  remove recursive u t = if recursive then fs.fs_delete_recursive u t else fs.fs_delete u t

  abbrev pub rm_targets : Bool → F → UserManager → List CString → CString → Reply F
  rm_targets recursive u um [] out = fails (codes "Usage: rm [-r] <path>...") u um
  rm_targets recursive u um (t ∷ ts) out =
      all_targets (remove recursive) (λ p. codes "rm: cannot remove '" ++ (p ++ codes "'\n")) u um
        (t ∷ ts) out

  unfoldable pub rm_cmd : Command F
  unfolding has_flag without_flags each_target strip_newlines
  rm_cmd u um args out =
      rm_targets (has_flag recursive_flag args) u um (without_flags recursive_flag args) out

  unfoldable pub chmod_cmd : Command F
  unfolding stoi each_target strip_newlines
  chmod_cmd u um (mode ∷ t ∷ ts) out = with_number (stoi 8 mode) out u um (λ m.
      all_targets (λ v p. fs.fs_chmod v p (to_u16 m))
        (λ p. codes "chmod: '" ++ (p ++ codes "': failed\n")) u um (t ∷ ts) out)
  chmod_cmd u um args out = fails (codes "Usage: chmod <mode> <path>...") u um

  abbrev pub ln_paths : Bool → F → UserManager → List CString → CString → Reply F
  ln_paths symbolic u um (target ∷ linkname ∷ rest) out =
      if symbolic
      then unless_zero
          (codes "ln: symlink failed (target name taken, or FS has no symlink support)") out um
          (fs.fs_symlink u target linkname)
      else unless_zero (codes "ln: failed") out um (fs.fs_link u target linkname)
  ln_paths symbolic u um args out = fails (codes "Usage: ln [-s] <target> <linkname>") u um

  unfoldable pub ln_cmd : Command F
  unfolding has_flag without_flags
  ln_cmd u um args out =
      ln_paths (has_flag symbolic_flag args) u um (without_flags symbolic_flag args) out

  abbrev pub target_shown : UserManager → Option CString × F → Reply F
  target_shown um (none, u) = fails (codes "readlink: not a symbolic link") u um
  target_shown um (some target, u) = says (pos 0) target u um

  unfoldable pub readlink_cmd : Command F
  readlink_cmd u um [] out = fails (codes "Usage: readlink <path>") u um
  readlink_cmd u um (path ∷ rest) out = target_shown um (fs.fs_readlink u path)

  -- `snprintf` into 128 bytes.
  unfoldable pub disk_cmd : Command F
  unfolding to_string
  disk_cmd u um args out =
      let du = fs.fs_disk_usage u in
      let blocks = to_string du.used_blocks ++ (codes "/" ++ to_string du.total_blocks) in
      let inodes = to_string du.used_inodes ++ (codes "/" ++ to_string du.total_inodes) in
      says (pos 0)
        (take 127 (
          codes "FS: "
          ++ (fs.fs_type_name
              ++ (codes "\nBlocks: "
                  ++ (blocks ++ (codes " used\nInodes: " ++ (inodes ++ codes " used")))))))
        u um
