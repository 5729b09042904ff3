-- ===== src/Commands/Accounts.antt =====
-- src/main.cpp: login, logout, useradd, passwd and su.
use pseudo_fs.Common.{
  ℕ, Bool, true, false, not, ◌&&◌, Option, none, some, List, [], ◌∷◌, ◌++◌, if◌then◌else◌,
}
use pseudo_fs.Common.CStrings.{CString, codes}
use pseudo_fs.Common.Int.{ℤ, pos, negsuc}
use pseudo_fs.Common.Text.{to_string, is_digit}
use pseudo_fs.UserManager.{
  UserManager, UserRecord, login, logout, add_user, change_password, su, find_user, find_user_named,
  current_uid, current_gid, current_username, is_logged_in,
}
use pseudo_fs.Vfs.{IFileSystem}
use pseudo_fs.Commands.{Reply, Command, says, fails, is_zero, stoi, with_number, to_u16}

abbrev pub logged_in : {F : Type 0} → F → ℤ × UserManager → Reply F
logged_in u (negsuc n, um) = fails (codes "Login failed.") u um
logged_in u (pos uid, um) =
    says (pos 0)
      (codes "Welcome, "
        ++ (current_username um ++ (codes " (uid=" ++ (to_string uid ++ codes ")"))))
      u um

unfoldable pub login_cmd : {F : Type 0} → Command F
unfolding login to_string
login_cmd u um (user ∷ pw ∷ rest) out = logged_in u (login um user pw)
login_cmd u um args out = fails (codes "Usage: login <username> <password>") u um

unfoldable pub logout_cmd : {F : Type 0} → Command F
unfolding logout
logout_cmd u um args out =
    if not (is_logged_in um)
    then fails (codes "Not logged in.") u um
    else says (pos 0) (codes "Logged out.") u (logout um).1

-- `/home` stays root's, and the directory in it is made as the new user.
abbrev pub home_of : CString → CString
home_of name = codes "/home/" ++ name

abbrev pub make_home :
    {F : Type 0} → IFileSystem F → CString → ℕ → ℕ → F → ℤ × UserManager → Reply F
make_home fs name uid gid u (rc, um) =
    let u1 = (fs.fs_mkdir u (codes "/home")).1 in
    let u2 = fs.set_user uid gid u1 in
    let u3 = (fs.fs_mkdir u2 (home_of name)).1 in
    let u4 = fs.set_user (current_uid um) (current_gid um) u3 in
    if not (is_zero rc)
    then fails (codes "useradd: failed (need root, unique name, and free slot)") u um
    else says (pos 0) (codes "User " ++ (name ++ codes " created.")) u4 um

unfoldable pub useradd_cmd : {F : Type 0} → IFileSystem F → Command F
unfolding stoi add_user
useradd_cmd fs u um (name ∷ pw ∷ uid ∷ gid ∷ rest) out = with_number (stoi 10 uid) out u um (λ x.
    with_number (stoi 10 gid) out u um
      (λ y. make_home fs name (to_u16 x) (to_u16 y) u (add_user um name pw (to_u16 x) (to_u16 y))))
useradd_cmd fs u um args out = fails (codes "Usage: useradd <username> <password> <uid> <gid>") u um

abbrev pub password_changed : {F : Type 0} → F → ℤ × UserManager → Reply F
password_changed u (rc, um) =
    if not (is_zero rc)
    then fails (codes "passwd: failed (check old password)") u um
    else says (pos 0) (codes "Password changed.") u um

unfoldable pub passwd_cmd : {F : Type 0} → Command F
unfolding change_password
passwd_cmd u um (old ∷ new ∷ rest) out =
    password_changed u (change_password um (current_uid um) old new)
passwd_cmd u um args out = fails (codes "Usage: passwd <old-password> <new-password>") u um

abbrev pub all_digits : CString → Bool
all_digits [] = true
all_digits (c ∷ s) = is_digit 10 c && all_digits s

abbrev pub is_numeric : CString → Bool
is_numeric [] = false
is_numeric (c ∷ s) = all_digits (c ∷ s)

abbrev pub password_arg : List CString → Option CString
password_arg [] = none
password_arg (pw ∷ rest) = some pw

abbrev pub switched : {F : Type 0} → F → ℤ × UserManager → Reply F
switched u (rc, um) =
    if not (is_zero rc)
    then fails (codes "su: failed (need password or root)") u um
    else says (pos 0) (codes "Switched to " ++ current_username um) u um

abbrev pub su_user : {F : Type 0} → F → UserManager → List CString → Option UserRecord → Reply F
su_user u um rest none = fails (codes "su: user not found") u um
su_user u um rest (some r) = switched u (su um r.uid (password_arg rest))

-- The name first, then the number.
abbrev pub su_named :
    {F : Type 0} → CString → CString → F → UserManager → List CString → Option UserRecord → Reply F
su_named who out u um rest (some r) = su_user u um rest (some r)
su_named who out u um rest none =
    if is_numeric who
    then with_number (stoi 10 who) out u um (λ n. su_user u um rest (find_user um (to_u16 n)))
    else su_user u um rest none

unfoldable pub su_cmd : {F : Type 0} → Command F
unfolding su stoi find_user find_user_named
su_cmd u um [] out = fails (codes "Usage: su <uid|username> [password]") u um
su_cmd u um (who ∷ rest) out = su_named who out u um rest (find_user_named um who)
