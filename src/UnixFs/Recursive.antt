-- ===== src/UnixFs/Recursive.antt =====
-- src/fs/unix/unix_fs.cpp: `fs_delete_recursive`, on fuel for the depth of the directories, and the
-- two that only name something.
use pseudo_fs.Common.{
  ℕ, zero, suc, ◌≡◌, Bool, Bool-cases, inl, inr, false, ◌||◌, not, Option, none, some, List, [],
  ◌∷◌, ◌++◌, ◌==◌, if◌then◌else◌,
}
use pseudo_fs.Common.Int.{ℤ, minus_one}
use pseudo_fs.Common.Visits.{visit, visit-more, then_call, then_call-more, none-some}
use pseudo_fs.Common.CStrings.{CString, codes, strn_eq}
use pseudo_fs.Layout.{max_filename}
use pseudo_fs.UnixFs.{UnixFs}
use pseudo_fs.UnixFs.Dirs.{fs_delete, fs_rmdir}
use pseudo_fs.UnixFs.Stat.{VfsEntry, FileStat, fs_stat, fs_ls}

-- The path of an entry; an empty path stands for no slash at its end.
abbrev pub ends_with_slash : CString → Bool
ends_with_slash [] = false
ends_with_slash (c ∷ []) = c == 47
ends_with_slash (c ∷ d ∷ s) = ends_with_slash (d ∷ s)

-- A name of 14 bytes has no NUL in its field, and the source reads on behind it; here it ends there.
abbrev pub child_path : CString → CString → CString
child_path path name = if ends_with_slash path then path ++ name else path ++ (47 ∷ name)

abbrev pub is_dots : VfsEntry → Bool
is_dots e = strn_eq max_filename e.name (codes ".") || strn_eq max_filename e.name (codes "..")

-- `deep` is the call of itself.
abbrev pub delete_listed :
    (UnixFs → CString → Option (ℤ × UnixFs))
    → CString
    → ℤ × Option (List VfsEntry) × UnixFs
    → Option (ℤ × UnixFs)
delete_listed deep path (ret, none, u) = some (minus_one, u)
delete_listed deep path (ret, some entries, u) =
    then_call (λ v. fs_rmdir v path)
      (visit is_dots (λ v e. deep v (child_path path e.name)) entries u)

abbrev pub delete_stat :
    (UnixFs → CString → Option (ℤ × UnixFs))
    → CString
    → ℤ × Option FileStat × UnixFs
    → Option (ℤ × UnixFs)
delete_stat deep path (ret, none, u) = some (minus_one, u)
delete_stat deep path (ret, some st, u) =
    if not (st.file_type == 1)
    then some (fs_delete u path)
    else delete_listed deep path (fs_ls u path)

-- `none` says that the directories are deeper than the fuel.
unfoldable pub fs_delete_recursive : ℕ → UnixFs → CString → Option (ℤ × UnixFs)
fs_delete_recursive zero u path = none
fs_delete_recursive (suc depth) u path =
    delete_stat (λ v p. fs_delete_recursive depth v p) path (fs_stat u path)

module _ (deep deep' : UnixFs → CString → Option (ℤ × UnixFs))
    (more : (v : UnixFs) (p : CString) (r : ℤ × UnixFs) → deep v p ≡ some r → deep' v p ≡ some r)
    (path : CString) (r : ℤ × UnixFs) where
  delete_listed-more :
      (listing : ℤ × Option (List VfsEntry) × UnixFs)
      → delete_listed deep path listing ≡ some r
      → delete_listed deep' path listing ≡ some r
  delete_listed-more (ret, none, u) = λ h. h
  delete_listed-more (ret, some entries, u) =
      then_call-more (λ v. fs_rmdir v path) _ _ r
        (visit-more is_dots (λ v e. deep v (child_path path e.name))
          (λ v e. deep' v (child_path path e.name)) (λ v e q. more v (child_path path e.name) q)
          entries u)

  delete_stat-more :
      (st : ℤ × Option FileStat × UnixFs)
      → delete_stat deep path st ≡ some r
      → delete_stat deep' path st ≡ some r
  delete_stat-more (ret, none, u) = λ h. h
  delete_stat-more (ret, some st, u) = elim (Bool-cases (st.file_type == 1)) [
    | inl e ↦ rw e (delete_listed-more (fs_ls u path))
    | inr e ↦ rw e (λ h. h)
  ]

-- Once the fuel is enough for the depth of the directories, more does not change the result.
fs_delete_recursive-more :
    (depth : ℕ) (u : UnixFs) (path : CString) (r : ℤ × UnixFs)
    → fs_delete_recursive depth u path ≡ some r
    → fs_delete_recursive (suc depth) u path ≡ some r
unfolding fs_delete_recursive
fs_delete_recursive-more zero u path r = λ h. absurd (none-some h)
fs_delete_recursive-more (suc depth) u path r =
    delete_stat-more (λ v p. fs_delete_recursive depth v p)
      (λ v p. fs_delete_recursive (suc depth) v p) (fs_delete_recursive-more depth) path r
      (fs_stat u path)

abbrev pub fs_pwd : UnixFs → CString
fs_pwd u = u.cwd_path

abbrev pub fs_type_name : CString
fs_type_name = codes "UNIX"
