-- ===== src/Fat16/Recursive.antt =====
-- src/fs/fat16/fat16_fs.cpp: `fs_delete_recursive`, on fuel for the depth of the directories.
use pseudo_fs.Common.{
  ℕ, zero, suc, ◌≡◌, Bool, Bool-cases, inl, inr, true, false, ◌||◌, not, Option, none, some, List,
  ◌==◌, if◌then◌else◌,
}
use pseudo_fs.Common.Int.{ℤ, minus_one}
use pseudo_fs.Common.Visits.{visit, visit-more, then_call, then_call-more, none-some}
use pseudo_fs.Common.CStrings.{CString, str_eq}
use pseudo_fs.Directory.{dot, dot_dot}
use pseudo_fs.UnixFs.Stat.{VfsEntry, FileStat}
use pseudo_fs.UnixFs.Recursive.{child_path}
use pseudo_fs.Fat16.{Fat16Fs}
use pseudo_fs.Fat16.Files.{fs_delete}
use pseudo_fs.Fat16.Dirs.{fs_rmdir, fs_stat, fs_ls}

abbrev pub is_dots : VfsEntry → Bool
is_dots e = str_eq e.name dot || str_eq e.name dot_dot

-- `deep` is the call of itself.
abbrev pub delete_listed :
    (Fat16Fs → CString → Option (ℤ × Fat16Fs))
    → Fat16Fs
    → CString
    → Option (List VfsEntry)
    → Option (ℤ × Fat16Fs)
delete_listed deep u path none = some (minus_one, u)
delete_listed deep u path (some entries) =
    then_call (λ v. fs_rmdir v path)
      (visit is_dots (λ v e. deep v (child_path path e.name)) entries u)

abbrev pub delete_stat :
    (Fat16Fs → CString → Option (ℤ × Fat16Fs))
    → Fat16Fs
    → CString
    → Option FileStat
    → Option (ℤ × Fat16Fs)
delete_stat deep u path none = some (minus_one, u)
delete_stat deep u path (some st) =
    if st.file_type == 0 then some (fs_delete u path) else delete_listed deep u path (fs_ls u path)

-- `none` says that the directories are deeper than the fuel.
unfoldable pub fs_delete_recursive : ℕ → Fat16Fs → CString → Option (ℤ × Fat16Fs)
fs_delete_recursive zero u path = none
fs_delete_recursive (suc depth) u path =
    if not u.mounted
    then some (minus_one, u)
    else delete_stat (λ v p. fs_delete_recursive depth v p) u path (fs_stat u path)

module _ (deep deep' : Fat16Fs → CString → Option (ℤ × Fat16Fs))
    (more : (v : Fat16Fs) (p : CString) (r : ℤ × Fat16Fs) → deep v p ≡ some r → deep' v p ≡ some r)
    (u : Fat16Fs) (path : CString) (r : ℤ × Fat16Fs) where
  delete_listed-more :
      (listing : Option (List VfsEntry))
      → delete_listed deep u path listing ≡ some r
      → delete_listed deep' u path listing ≡ some r
  delete_listed-more none = λ h. h
  delete_listed-more (some entries) =
      then_call-more (λ v. fs_rmdir v path) _ _ r
        (visit-more is_dots (λ v e. deep v (child_path path e.name))
          (λ v e. deep' v (child_path path e.name)) (λ v e q. more v (child_path path e.name) q)
          entries u)

  delete_stat-more :
      (st : Option FileStat)
      → delete_stat deep u path st ≡ some r
      → delete_stat deep' u path st ≡ some r
  delete_stat-more none = λ h. h
  delete_stat-more (some st) = elim (Bool-cases (st.file_type == 0)) [
    | inl e ↦ rw e (λ h. h)
    | inr e ↦ rw e (delete_listed-more (fs_ls u path))
  ]

-- Once the fuel is enough for the depth of the directories, more does not change the result.
fs_delete_recursive-more :
    (depth : ℕ) (u : Fat16Fs) (path : CString) (r : ℤ × Fat16Fs)
    → fs_delete_recursive depth u path ≡ some r
    → fs_delete_recursive (suc depth) u path ≡ some r
unfolding fs_delete_recursive
fs_delete_recursive-more zero u path r = λ h. absurd (none-some h)
fs_delete_recursive-more (suc depth) u path r = unless_stopped u.mounted (some (minus_one, u)) _ _ (
    delete_stat-more (λ v p. fs_delete_recursive depth v p)
      (λ v p. fs_delete_recursive (suc depth) v p) (fs_delete_recursive-more depth) u path r
      (fs_stat u path))
  where
    unless_stopped :
        (b : Bool) (stop a a' : Option (ℤ × Fat16Fs))
        → (a ≡ some r → a' ≡ some r)
        → (if not b then stop else a) ≡ some r
        → (if not b then stop else a') ≡ some r
    unless_stopped true stop a a' h = h
    unless_stopped false stop a a' h = λ e. e
