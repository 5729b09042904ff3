-- ===== src/Commands/Trees.antt =====
-- src/main.cpp: find and tree.
use pseudo_fs.Common.{
  ℕ, zero, suc, Bool, true, false, ◌&&◌, ◌||◌, Option, none, some, List, [], ◌∷◌, ◌++◌, ◌==◌,
  if◌then◌else◌,
}
use pseudo_fs.Common.CStrings.{CString, codes, str_eq}
use pseudo_fs.Common.Int.{ℤ, pos, negsuc}
use pseudo_fs.UserManager.{UserManager}
use pseudo_fs.UnixFs.Stat.{VfsEntry}
use pseudo_fs.Vfs.{IFileSystem, type_dir}
use pseudo_fs.Shell.Glob.{is_dots}
use pseudo_fs.Commands.{
  Reply, Command, says, fails, stoi, Number, number, no_number, too_large, with_number,
}
use pseudo_fs.Commands.Columns.{or_text}

-- `s.find(t) != npos`
unfoldable pub starts_with : CString → CString → Bool
starts_with s [] = true
starts_with [] (d ∷ t) = false
starts_with (c ∷ s) (d ∷ t) = c == d && starts_with s t

unfoldable pub contains : CString → CString → Bool
unfolding starts_with
contains [] t = starts_with [] t
contains (c ∷ s) t = starts_with (c ∷ s) t || contains s t

abbrev pub under : CString → CString → CString
under dir name = if str_eq dir (codes "/") then b'/' ∷ name else dir ++ b'/' ∷ name

-- The loop of `search` over the entries of a directory; `deep` is `search` one level down.
unfoldable pub find_entries :
    {F : Type 0}
    → (F → CString → CString → CString × F)
    → CString
    → CString
    → F
    → List VfsEntry
    → CString
    → CString × F
unfolding contains
find_entries {F} deep pattern dir u [] out = (out, u)
find_entries {F} deep pattern dir u (e ∷ es) out =
    let full = under dir e.name in
    let found = if contains e.name pattern then out ++ (full ++ b'\n' ∷ []) else out in
    let (out1, u1) = deep u full found in
    let next : CString × F =
      if is_dots e.name
      then (out, u)
      else if e.entry_type == type_dir
      then (out1, u1)
      else (found, u) in
    find_entries deep pattern dir next.1 es next.0

module _ {F : Type 0} (fs : IFileSystem F) where
  -- `search` with so many levels to go before `depth > 64` holds.
  unfoldable pub search_dir : CString → ℕ → F → CString → CString → CString × F
  unfolding find_entries
  search_dir pattern zero u dir out = (out, u)
  search_dir pattern (suc levels) u dir out =
      let (listed, u1) = fs.fs_ls u dir in
      elim listed [
        | none ↦ (out, u1)
        | some entries ↦ find_entries (search_dir pattern levels) pattern dir u1 entries out
      ]

  unfoldable pub find_cmd : Command F
  unfolding search_dir
  find_cmd u um (start ∷ pattern ∷ rest) out =
      let (out', u') = search_dir pattern 65 u start [] in
      says (pos 0) (or_text (codes "(no matches)") out') u' um
  find_cmd u um args out = fails (codes "Usage: find <path> <name>") u um

abbrev pub depth_of : ℤ → ℕ
depth_of (pos zero) = 1
depth_of (pos (suc n)) = suc n
depth_of (negsuc n) = 1

-- The depth and the path among the arguments.
unfoldable pub tree_args : ℕ → CString → List CString → Number (ℕ × CString)
unfolding stoi
tree_args depth path [] = number (depth, path)
tree_args depth path (a ∷ []) = number (depth, a)
tree_args depth path (a ∷ b ∷ rest) =
    let with_depth : Number (ℕ × CString) = elim (stoi 10 b) [
      | number n ↦ tree_args (depth_of n) path rest
      | no_number ↦ no_number
      | too_large ↦ too_large
    ] in
    let as_path = tree_args depth a (b ∷ rest) in
    if str_eq a (codes "-d") then with_depth else as_path

abbrev pub branch : List VfsEntry → CString
branch [] = codes "\\-- "
branch (e ∷ es) = codes "|-- "

abbrev pub below_branch : List VfsEntry → CString
below_branch [] = codes "    "
below_branch (e ∷ es) = codes "|   "

-- The loop of `walk`; `deep` lists a directory and walks it one level down.
unfoldable pub tree_entries :
    {F : Type 0}
    → (F → CString → CString → CString → CString × F)
    → CString
    → CString
    → F
    → List VfsEntry
    → CString
    → CString × F
tree_entries {F} deep base prefix u [] out = (out, u)
tree_entries {F} deep base prefix u (e ∷ es) out =
    let is_dir = e.entry_type == type_dir in
    let line =
      out
      ++ (prefix
          ++ (branch es ++ (e.name ++ ((if is_dir then codes "/" else []) ++ b'\n' ∷ [])))) in
    let (out1, u1) = deep u (base ++ b'/' ∷ e.name) (prefix ++ below_branch es) line in
    let next : CString × F =
      if is_dots e.name then (out, u) else if is_dir then (out1, u1) else (line, u) in
    tree_entries deep base prefix next.1 es next.0

module _ {F : Type 0} (fs : IFileSystem F) where
  -- The call of `walk` for a child, with so many levels below `depth`.
  unfoldable pub walk_child : ℕ → F → CString → CString → CString → CString × F
  unfolding tree_entries
  walk_child zero u child prefix out = (out, u)
  walk_child (suc levels) u child prefix out =
      let (listed, u1) = fs.fs_ls u child in
      elim listed [
        | none ↦ (out, u1)
        | some kids ↦ tree_entries (walk_child levels) child prefix u1 kids out
      ]

  abbrev pub tree_listed : UserManager → ℕ → Option (List VfsEntry) × F → Reply F
  tree_listed um levels (none, u) = fails (codes "tree: cannot list") u um
  tree_listed um levels (some top, u) =
      let (out', u') = tree_entries (walk_child levels) (codes ".") [] u top [] in
      says (pos 0) (or_text (codes "(empty)") out') u' um

  -- The walk begins at depth 1, so the levels below are one less than the depth.
  abbrev pub tree_from : F → UserManager → ℕ × CString → Reply F
  tree_from u um (zero, path) = tree_listed um 0 (fs.fs_ls u path)
  tree_from u um (suc levels, path) = tree_listed um levels (fs.fs_ls u path)

  unfoldable pub tree_cmd : Command F
  unfolding tree_args walk_child tree_entries
  tree_cmd u um args out = with_number (tree_args 6 [] args) out u um (tree_from u um)
