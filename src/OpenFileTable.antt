-- ===== src/OpenFileTable.antt =====
-- src/core/open_file_table.cpp: the table of open files of each user, over one system table.
-- A place of a user's table is an index of the system table; -1, a free place, is `none`.
pub mod Counts
pub mod Invariant
pub mod Views
mod Tests
use pseudo_fs.Common.{
  ℕ, zero, suc, ◌+◌, Bool, true, false, ◌&&◌, ◌||◌, Option, none, some, ltb, leb, ◌==◌,
  if◌then◌else◌,
}
use pseudo_fs.Common.Arrays.{update, dec16}
use pseudo_fs.Common.Search.{first_index}
use pseudo_fs.Common.Int.{ℤ, pos, negsuc, minus_one}
use pseudo_fs.Layout.{max_user, max_open_file, sys_open_file, invalid_blk}

pub record SysOpenFileEntry : Type 0 where
  pub f_flag : ℕ
  pub f_count : ℕ
  pub f_inode_no : ℕ
  pub f_offset : ℕ

abbrev pub UserOpenFiles : Type 0
UserOpenFiles = ℕ → Option ℕ

pub record OpenFileTable : Type 0 where
  pub sys_table : ℕ → SysOpenFileEntry
  pub user_table : ℕ → UserOpenFiles

-- `memset(entry, 0, sizeof(SysOpenFileEntry))`
abbrev pub cleared : SysOpenFileEntry
cleared = record { f_flag = 0; f_count = 0; f_inode_no = 0; f_offset = 0 }

unfoldable pub init : OpenFileTable
init = record { sys_table = λ i. cleared; user_table = λ u f. none }

abbrev pub is_none {ℓ} : {A : Type ℓ} → Option A → Bool
is_none none = true
is_none (some a) = false

unfoldable pub alloc_sys_entry : OpenFileTable → Option ℕ
alloc_sys_entry t = first_index (λ i. (t.sys_table i).f_count == 0) 0 sys_open_file

unfoldable pub free_fd_slot : OpenFileTable → ℕ → Option ℕ
free_fd_slot t user = first_index (λ i. is_none (t.user_table user i)) 0 max_open_file

-- An index of the system table that a place holds, if it is one.
abbrev pub in_sys_table : Option ℕ → Option ℕ
in_sys_table none = none
in_sys_table (some i) = if ltb i sys_open_file then some i else none

-- The index that (user, fd) stands for, where `valid_user_fd` is true, and `none` where it is false.
unfoldable pub sys_index : OpenFileTable → ℕ → ℤ → Option ℕ
sys_index t user (negsuc n) = none
sys_index t user (pos fd) =
    if leb max_user user || leb max_open_file fd then none else in_sys_table (t.user_table user fd)

unfoldable pub is_valid : OpenFileTable → ℕ → ℤ → Bool
is_valid t user fd = elim (sys_index t user fd) [ none ↦ false | some i ↦ true ]

-- `ofile[fd] = x` in the table of one user.
abbrev pub set_slot : (ℕ → UserOpenFiles) → ℕ → ℕ → Option ℕ → ℕ → UserOpenFiles
set_slot table user fd x = update table user (update (table user) fd x)

-- The entry and the place that `alloc_fd` fills, once it has found both.
abbrev pub opened : OpenFileTable → ℕ → ℕ → ℕ → ℕ → ℕ → OpenFileTable
opened t user fd i inode_no flags = record {
  sys_table =
      update t.sys_table i
        (record { f_flag = flags; f_count = 1; f_inode_no = inode_no; f_offset = 0 });
  user_table = set_slot t.user_table user fd (some i);
}

abbrev pub alloc_with : OpenFileTable → ℕ → ℕ → ℕ → Option ℕ → Option ℕ → ℤ × OpenFileTable
alloc_with t user inode_no flags none entry = (minus_one, t)
alloc_with t user inode_no flags (some fd) none = (minus_one, t)
alloc_with t user inode_no flags (some fd) (some i) = (pos fd, opened t user fd i inode_no flags)

unfoldable pub alloc_fd : OpenFileTable → ℕ → ℕ → ℕ → ℤ × OpenFileTable
alloc_fd t user inode_no flags =
    if leb max_user user
    then (minus_one, t)
    else alloc_with t user inode_no flags (free_fd_slot t user) (alloc_sys_entry t)

-- One reference less; the last one clears the entry.
abbrev pub released : SysOpenFileEntry → SysOpenFileEntry
released e = if dec16 e.f_count == 0 then cleared else record e { f_count = dec16 e.f_count }

abbrev pub closed : OpenFileTable → ℕ → ℕ → ℕ → OpenFileTable
closed t user fd i = record {
  sys_table = update t.sys_table i (released (t.sys_table i));
  user_table = set_slot t.user_table user fd none;
}

abbrev pub free_with : OpenFileTable → ℕ → ℤ → Option ℕ → ℤ × OpenFileTable
free_with t user fd none = (minus_one, t)
free_with t user (negsuc n) (some i) = (minus_one, t)
free_with t user (pos fd) (some i) = (pos 0, closed t user fd i)

unfoldable pub free_fd : OpenFileTable → ℕ → ℤ → ℤ × OpenFileTable
free_fd t user fd = free_with t user fd (sys_index t user fd)

-- A field of the entry of (user, fd), or a default if the pair is not valid.
abbrev pub read_entry : OpenFileTable → ℕ → ℤ → (SysOpenFileEntry → ℕ) → ℕ → ℕ
read_entry t user fd field bad = elim (sys_index t user fd) [
  | none ↦ bad
  | some i ↦ field (t.sys_table i)
]

unfoldable pub get_inode : OpenFileTable → ℕ → ℤ → ℕ
get_inode t user fd = read_entry t user fd (λ e. e.f_inode_no) invalid_blk

unfoldable pub get_offset : OpenFileTable → ℕ → ℤ → ℕ
get_offset t user fd = read_entry t user fd (λ e. e.f_offset) 0

unfoldable pub get_flags : OpenFileTable → ℕ → ℤ → ℕ
get_flags t user fd = read_entry t user fd (λ e. e.f_flag) 0

unfoldable pub set_offset : OpenFileTable → ℕ → ℤ → ℕ → ℤ × OpenFileTable
set_offset t user fd offset = elim (sys_index t user fd) [
  | none ↦ (minus_one, t)
  | some i ↦ (
    pos 0,
    record t { sys_table = update t.sys_table i (record (t.sys_table i) { f_offset = offset }) },
  )
]

-- The loop of `close_all`, for `n` descriptors from `fd`.
unfoldable pub close_from : OpenFileTable → ℕ → ℕ → ℕ → OpenFileTable
close_from t user fd zero = t
close_from t user fd (suc n) =
    close_from (if is_none (t.user_table user fd) then t else (free_fd t user (pos fd)).1) user
      (fd + 1) n

unfoldable pub close_all : OpenFileTable → ℕ → OpenFileTable
unfolding close_from
close_all t user = if leb max_user user then t else close_from t user 0 max_open_file
