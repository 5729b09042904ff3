-- ===== src/UserManager/Tests.antt =====
-- Accounts and sessions on a small table.
use pseudo_fs.Common.{
  List, ℕ, ◌/◌, ◌%◌, ◌^◌, ◌≡◌, ◌≢◌, refl, [], ◌∷◌, arith, none, some, ◌⊎◌, true, false, ◌==◌,
}
use pseudo_fs.Common.Int.{pos}
use pseudo_fs.Common.CStrings.{CString, codes, str_eq, strn_eq}
use pseudo_fs.UserManager.{
  UserManager, UserRecord, init, root, stored, new_record, first_user, find_user, add_user,
  change_password, is_logged_in, is_root, current_uid, save_to_file, load_from_file, has_uid,
  pwdsiz, check_access, access_read, access_write, access_exec,
}
use pseudo_fs.UserManager.Session.{IsValid}
use pseudo_fs.UserManager.Persistence.{
  Call, keep_path, log_in_root, add, passwd, log_out, IsLoadable, run, run-init-IsValid, load-save,
}
use pseudo_fs.UserManager.Passwords.{change_password_lem}
use pseudo_fs.UserManager.Access.{check_access_bits, class_shift}

abbrev alice : UserRecord
alice = new_record (codes "alice") (codes "pw1") 3 2

-- Root is logged in, and there is one more user.
abbrev staffed : UserManager
staffed = record { users = root ∷ alice ∷ []; current_index = some 0; persist = false; file = none }

abbrev calls : List Call
calls =
    keep_path true
    ∷ log_in_root
    ∷ add (codes "bob") (codes "b") 4 2
    ∷ passwd 0 (codes "root") (codes "r")
    ∷ log_out
    ∷ []

run-init-IsValid_example : IsValid (run init calls) × IsLoadable (run init calls)
run-init-IsValid_example = run-init-IsValid calls

staffed-IsValid : IsValid staffed
staffed-IsValid = record {
  nonempty = omega arith;
  bounded = omega arith;
  session = λ i e. ground arith;
}

change_accepted : (change_password staffed 3 [] (codes "new")).0 ≡ pos 0
unfolding change_password find_user first_user str_eq
change_accepted = refl

change_password_lem_example :
    let m' = (change_password staffed 3 [] (codes "new")).1 in
    (user : UserRecord) × (find_user staffed 3 ≡ some user)
    × (is_logged_in staffed ≡ true)
    × ((is_root staffed ≡ true) ⊎ (current_uid staffed ≡ 3))
    × (((is_root staffed ≡ true) × (current_uid staffed ≢ 3))
        ⊎ (strn_eq pwdsiz user.password [] ≡ true))
    × (find_user m' 3 ≡ some (record user { password = stored (codes "new") }))
    × ((other : ℕ) → 3 ≢ other → find_user m' other ≡ find_user staffed other)
change_password_lem_example = change_password_lem staffed 3 [] (codes "new") change_accepted

add_accepted : (add_user staffed (codes "bob") (codes "b") 4 2).0 ≡ pos 0
unfolding add_user first_user str_eq
add_accepted = refl

abbrev long_name : CString
long_name = codes "administrator"

add_long_accepted : (add_user staffed long_name (codes "b") 4 2).0 ≡ pos 0
unfolding add_user first_user str_eq
add_long_accepted = refl

load-save_example :
    load_from_file init (save_to_file staffed).file
    ≡ (pos 0, record init { users = root ∷ alice ∷ []; current_index = none })
load-save_example = load-save staffed init staffed-IsValid

no_root : first_user (has_uid 0) 0 (alice ∷ []) ≡ none
unfolding first_user
no_root = refl

check_access_bits_example :
    let shift = class_shift staffed 3 3 2 in
    (check_access staffed 3 3 2 0o640 access_read ≡ (0o640 / 2 ^ shift % 2 == 1))
    × (check_access staffed 3 3 2 0o640 access_write ≡ (0o640 / 2 ^ shift / 2 % 2 == 1))
    × (check_access staffed 3 3 2 0o640 access_exec ≡ (0o640 / 2 ^ shift / 4 % 2 == 1))
check_access_bits_example = check_access_bits staffed 3 3 2 0o640 (λ e. omega arith)
