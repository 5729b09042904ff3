-- ===== src/UserManager.antt =====
-- src/core/user_manager.cpp: accounts, the session and the rwx check.
-- `users` lists the first `user_count_` records. The host file of `save_to_file` is part of the
-- state; opening and writing it succeed.
pub mod Accounts
pub mod Passwords
pub mod Access
pub mod Session
pub mod Saved
pub mod Persistence
mod Tests
use pseudo_fs.Common.{
  ℕ, zero, suc, ◌+◌, ◌/◌, ◌^◌, Bool, true, false, not, ◌&&◌, ◌||◌, Option, none, some, List, [],
  ◌∷◌, ◌++◌, ltb, leb, ◌==◌, if◌then◌else◌, bit_and,
}
use pseudo_fs.Common.Int.{ℤ, pos, minus_one}
use pseudo_fs.Common.CStrings.{CString, codes, take, strn_eq}
use pseudo_fs.Common.Lists.{length}
use pseudo_fs.Layout.{max_user}

abbrev pub access_read : ℕ
access_read = 1

abbrev pub access_write : ℕ
access_write = 2

abbrev pub access_exec : ℕ
access_exec = 4

abbrev pub pwdsiz : ℕ
pwdsiz = 12

abbrev pub user_magic : ℕ
user_magic = 0x52535550

pub record UserRecord : Type 0 where
  pub uid : ℕ
  pub gid : ℕ
  pub username : CString
  pub password : CString

-- What `fread` finds in a host file: the two leading words, if they are there, and whole records.
pub record UserFile : Type 0 where
  pub magic : Option ℕ
  pub count : Option ℕ
  pub records : List UserRecord

pub record UserManager : Type 0 where
  pub users : List UserRecord
  pub current_index : Option ℕ
  pub persist : Bool
  pub file : Option UserFile

-- `strncpy(field, s, PWDSIZ - 1); field[PWDSIZ - 1] = '\0';`
abbrev pub stored : CString → CString
stored s = take 11 s

abbrev pub root : UserRecord
root = record {
  uid = 0;
  gid = 0;
  username = stored (codes "root");
  password = stored (codes "root");
}

unfoldable pub init : UserManager
init = record { users = root ∷ []; current_index = none; persist = false; file = none }

-- The loops over the table: the first record that passes the test, with its index.
unfoldable pub first_user : (UserRecord → Bool) → ℕ → List UserRecord → Option (ℕ × UserRecord)
first_user test i [] = none
first_user test i (r ∷ rs) = if test r then some (i, r) else first_user test (i + 1) rs

abbrev pub has_uid : ℕ → UserRecord → Bool
has_uid uid r = r.uid == uid

abbrev pub has_name : CString → UserRecord → Bool
has_name username r = strn_eq pwdsiz r.username username

abbrev pub matches : CString → CString → UserRecord → Bool
matches username password r =
    strn_eq pwdsiz r.username username && strn_eq pwdsiz r.password password

-- `users_[i]`; an index out of range reads a record that is not set.
abbrev pub user_at : List UserRecord → ℕ → UserRecord
user_at [] i = record { uid = 0; gid = 0; username = []; password = [] }
user_at (r ∷ rs) zero = r
user_at (r ∷ rs) (suc i) = user_at rs i

unfoldable pub find_user : UserManager → ℕ → Option UserRecord
find_user m uid = elim (first_user (has_uid uid) 0 m.users) [ none ↦ none | some (i, r) ↦ some r ]

unfoldable pub find_user_named : UserManager → CString → Option UserRecord
find_user_named m username = elim (first_user (has_name username) 0 m.users) [
  | none ↦ none
  | some (i, r) ↦ some r
]

unfoldable pub login : UserManager → CString → CString → ℤ × UserManager
login m username password = elim (first_user (matches username password) 0 m.users) [
  | none ↦ (minus_one, m)
  | some (i, r) ↦ (pos r.uid, record m { current_index = some i })
]

unfoldable pub login_root : UserManager → ℤ × UserManager
login_root m = elim (first_user (has_uid 0) 0 m.users) [
  | none ↦ (minus_one, m)
  | some (i, r) ↦ (pos 0, record m { current_index = some i })
]

unfoldable pub logout : UserManager → ℤ × UserManager
logout m = elim m.current_index [
  | none ↦ (minus_one, m)
  | some i ↦ (pos 0, record m { current_index = none })
]

abbrev pub is_logged_in : UserManager → Bool
is_logged_in m = elim m.current_index [ none ↦ false | some i ↦ true ]

abbrev pub current_uid : UserManager → ℕ
current_uid m = elim m.current_index [ none ↦ 0 | some i ↦ (user_at m.users i).uid ]

abbrev pub current_gid : UserManager → ℕ
current_gid m = elim m.current_index [ none ↦ 0 | some i ↦ (user_at m.users i).gid ]

abbrev pub current_username : UserManager → CString
current_username m = elim m.current_index [ none ↦ [] | some i ↦ (user_at m.users i).username ]

-- `current_index_ >= 0 && users_[current_index_].uid == 0`
abbrev pub is_root : UserManager → Bool
is_root m = elim m.current_index [ none ↦ false | some i ↦ (user_at m.users i).uid == 0 ]

abbrev pub file_of : List UserRecord → UserFile
file_of users = record { magic = some user_magic; count = some (length users); records = users }

unfoldable pub save_to_file : UserManager → UserManager
save_to_file m = record m { file = some (file_of m.users) }

-- `if (!persist_path_.empty()) save_to_file(...)`
abbrev pub autosave : UserManager → UserManager
autosave m = if m.persist then record m { file = some (file_of m.users) } else m

-- The checks after the two words: the count is in range, and all its records are there.
abbrev pub load_records : UserManager → ℕ → List UserRecord → ℤ × UserManager
load_records m count records =
    if count == 0 || ltb max_user count || ltb (length records) count
    then (minus_one, m)
    else (pos 0, record m { users = take count records; current_index = none })

abbrev pub load_counted : UserManager → ℕ → Option ℕ → List UserRecord → ℤ × UserManager
load_counted m magic none records = (minus_one, m)
load_counted m magic (some count) records =
    if magic == user_magic then load_records m count records else (minus_one, m)

abbrev pub load_words : UserManager → Option ℕ → Option ℕ → List UserRecord → ℤ × UserManager
load_words m none count records = (minus_one, m)
load_words m (some magic) count records = load_counted m magic count records

-- `none` is a file that cannot be opened.
unfoldable pub load_from_file : UserManager → Option UserFile → ℤ × UserManager
load_from_file m none = (minus_one, m)
load_from_file m (some f) = load_words m f.magic f.count f.records

unfoldable pub set_persist_path : Bool → UserManager → UserManager
set_persist_path on m = record m { persist = on }

abbrev pub is_some {ℓ} : {A : Type ℓ} → Option A → Bool
is_some none = false
is_some (some a) = true

abbrev pub new_record : CString → CString → ℕ → ℕ → UserRecord
new_record username password uid gid = record {
  uid = uid;
  gid = gid;
  username = stored username;
  password = stored password;
}

unfoldable pub add_user : UserManager → CString → CString → ℕ → ℕ → ℤ × UserManager
add_user m username password uid gid =
    if not (is_root m)
    then (minus_one, m)
    else if leb max_user (length m.users)
    then (minus_one, m)
    else if is_some (first_user (has_name username) 0 m.users)
    then (minus_one, m)
    else (
      pos 0,
      autosave (record m { users = m.users ++ new_record username password uid gid ∷ [] }),
    )

-- The first record of `uid` gets the password.
unfoldable pub set_password : ℕ → CString → List UserRecord → List UserRecord
set_password uid new_pw [] = []
set_password uid new_pw (r ∷ rs) =
    if r.uid == uid
    then record r { password = stored new_pw } ∷ rs
    else r ∷ set_password uid new_pw rs

abbrev pub may_change : UserManager → ℕ → UserRecord → CString → Bool
may_change m uid user old_pw =
    let self = current_uid m == uid in
    (is_root m || self) && ((is_root m && not self) || strn_eq pwdsiz user.password old_pw)

abbrev pub change_for : UserManager → ℕ → CString → CString → Option UserRecord → ℤ × UserManager
change_for m uid old_pw new_pw none = (minus_one, m)
change_for m uid old_pw new_pw (some user) =
    if may_change m uid user old_pw
    then (pos 0, autosave (record m { users = set_password uid new_pw m.users }))
    else (minus_one, m)

unfoldable pub change_password : UserManager → ℕ → CString → CString → ℤ × UserManager
change_password m uid old_pw new_pw =
    if is_logged_in m then change_for m uid old_pw new_pw (find_user m uid) else (minus_one, m)

abbrev pub su_to : UserManager → Option CString → Option (ℕ × UserRecord) → ℤ × UserManager
su_to m password none = (minus_one, m)
su_to m none (some (i, target)) =
    if is_root m then (pos 0, record m { current_index = some i }) else (minus_one, m)
su_to m (some password) (some (i, target)) =
    if is_root m || strn_eq pwdsiz target.password password
    then (pos 0, record m { current_index = some i })
    else (minus_one, m)

-- A null pointer for the password is `none`.
unfoldable pub su : UserManager → ℕ → Option CString → ℤ × UserManager
su m uid password = su_to m password (first_user (has_uid uid) 0 m.users)

abbrev pub same_group : Option UserRecord → ℕ → Bool
same_group none gid = false
same_group (some r) gid = r.gid == gid

unfoldable pub check_access : UserManager → ℕ → ℕ → ℕ → ℕ → ℕ → Bool
check_access m user_id file_uid file_gid file_mode access =
    let shift : ℕ =
      if user_id == file_uid
      then 6
      else if same_group (find_user m user_id) file_gid
      then 3
      else 0 in
    if user_id == 0 then true else bit_and (file_mode / 2 ^ shift) access == access
