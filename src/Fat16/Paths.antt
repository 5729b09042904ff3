-- ===== src/Fat16/Paths.antt =====
-- src/fs/fat16/fat16_fs.cpp: `resolve_path`, the search in a directory, and `timestamp`.
use pseudo_fs.Common.{
  ℕ, zero, suc, ◌+◌, ◌-◌, ◌*◌, ◌/◌, ◌%◌, ◌&&◌, Option, none, some, List, [], ◌∷◌, ◌==◌,
  if◌then◌else◌, bit_or,
}
use pseudo_fs.Common.Arrays.{u16_mod}
use pseudo_fs.Common.Lists.{length}
use pseudo_fs.Common.CStrings.{CString, str_eq}
use pseudo_fs.Directory.{segment, behind, init_last}
use pseudo_fs.Fat16.{Fat16Fs, root_cluster}
use pseudo_fs.Fat16.Names.{FatDirEntry, to_upper, entry_name}
use pseudo_fs.Fat16.Entries.{read_dir_entries, is_directory, is_used}

-- The return values 0, -2 and -1, with what the call gives out.
pub data Resolved : Type 0 where
  found : (cluster parent : ℕ) (name : CString) → Resolved
  missing : (parent : ℕ) (name : CString) → Resolved
  no_parent : Resolved

-- The loop that splits `remaining`, on fuel for every byte: empty segments are dropped.
unfoldable pub parts_from : ℕ → CString → List CString
parts_from zero s = []
parts_from (suc n) [] = []
parts_from (suc n) (c ∷ s) =
    let rest = parts_from n (behind (c ∷ s)) in if c == 47 then rest else segment (c ∷ s) ∷ rest

-- The cluster of the directory of this name.
unfoldable pub find_dir : CString → List FatDirEntry → Option ℕ
find_dir part_upper [] = none
find_dir part_upper (e ∷ es) =
    let rest = find_dir part_upper es in
    if is_used e && is_directory e && str_eq part_upper (entry_name e)
    then some e.first_cluster
    else rest

-- The cluster of the entry of this name.
unfoldable pub find_name : CString → List FatDirEntry → Option ℕ
find_name name_up [] = none
find_name name_up (e ∷ es) =
    let rest = find_name name_up es in
    if is_used e && str_eq name_up (entry_name e) then some e.first_cluster else rest

unfoldable pub walk_dirs : Fat16Fs → ℕ → List CString → Option ℕ
unfolding find_dir
walk_dirs u current_dir [] = some current_dir
walk_dirs u current_dir (p ∷ ps) =
    let next = find_dir (to_upper p) (read_dir_entries u current_dir).1 in
    elim next [ none ↦ none | some dir ↦ walk_dirs u dir ps ]

abbrev pub resolved_as : ℕ → CString → Option ℕ → Resolved
resolved_as dir name none = missing dir name
resolved_as dir name (some cluster) = found cluster dir name

abbrev pub resolve_last : Fat16Fs → CString → Option ℕ → Resolved
resolve_last u last none = no_parent
resolve_last u last (some dir) =
    let name = to_upper last in resolved_as dir name (find_name name (read_dir_entries u dir).1)

abbrev pub resolve_parts : Fat16Fs → ℕ → List CString → Resolved
resolve_parts u current_dir [] = found current_dir current_dir []
resolve_parts u current_dir (p ∷ ps) =
    let (dirs, last) = init_last p ps in resolve_last u last (walk_dirs u current_dir dirs)

unfoldable pub resolve_path : Fat16Fs → CString → Resolved
unfolding parts_from walk_dirs find_name
resolve_path u [] = no_parent
resolve_path u (c ∷ s) =
    if c == 47
    then resolve_parts u root_cluster (parts_from (length s) s)
    else resolve_parts u u.cwd_cluster (parts_from (length (c ∷ s)) (c ∷ s))

-- The first entry with this name, as the handlers look for it.
unfoldable pub find_entry : CString → List FatDirEntry → Option FatDirEntry
find_entry name [] = none
find_entry name (e ∷ es) =
    let rest = find_entry name es in if str_eq (to_upper name) (entry_name e) then some e else rest

-- What `localtime` gives.
pub record Tm : Type 0 where
  pub tm_sec : ℕ
  pub tm_min : ℕ
  pub tm_hour : ℕ
  pub tm_mday : ℕ
  pub tm_mon : ℕ
  pub tm_year : ℕ

-- Time and date; the year is 1980 or later.
unfoldable pub timestamp : Tm → ℕ × ℕ
timestamp tm = (
  bit_or (bit_or (tm.tm_hour * 2048) (tm.tm_min * 32)) (tm.tm_sec / 2) % u16_mod,
  bit_or (bit_or ((tm.tm_year + 1900 - 1980) * 512) ((tm.tm_mon + 1) * 32)) tm.tm_mday % u16_mod,
)
