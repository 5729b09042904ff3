-- ===== src/UserManager/Saved.antt =====
-- What the calls of src/core/user_manager.cpp leave in the file of accounts.
use pseudo_fs.Common.{ℕ, ◌≡◌, refl, Option, some, inl, inr, ◌⊎◌, Bool-cases, Option-cases}
use pseudo_fs.Common.CStrings.{CString}
use pseudo_fs.UserManager.{
  UserManager, first_user, has_uid, matches, login, login_root, logout, add_user, change_password,
  su, autosave, file_of,
}
use pseudo_fs.UserManager.Session.{add_user_cases, change_password_cases, su_cases}

-- The file is as before, or it has been written with the table as it is now.
abbrev pub Saves : UserManager → UserManager → Type 0
Saves m m' = (m'.file ≡ m.file) ⊎ (m'.file ≡ some (file_of m'.users))

autosave-Saves : (m m' : UserManager) → m'.file ≡ m.file → Saves m (autosave m')
autosave-Saves m m' same = elim (Bool-cases m'.persist) [
  | inl e ↦ inr (rw e refl)
  | inr e ↦ inl (rw e same)
]

pub login-Saves :
    (m : UserManager) (username password : CString) → Saves m (login m username password).1
unfolding login
login-Saves m username password =
    elim (Option-cases (first_user (matches username password) 0 m.users)) [
      | inl e ↦ rw (e, login) (inl refl)
      | inr (r, e) ↦ rw (e, login) (inl refl)
    ]

pub login_root-Saves : (m : UserManager) → Saves m (login_root m).1
unfolding login_root
login_root-Saves m = elim (Option-cases (first_user (has_uid 0) 0 m.users)) [
  | inl e ↦ rw (e, login_root) (inl refl)
  | inr (r, e) ↦ rw (e, login_root) (inl refl)
]

pub logout-Saves : (m : UserManager) → Saves m (logout m).1
unfolding logout
logout-Saves m = elim (Option-cases m.current_index) [
  | inl e ↦ rw e (inl refl)
  | inr (i, e) ↦ rw e (inl refl)
]

pub add_user-Saves :
    (m : UserManager) (username password : CString) (uid gid : ℕ)
    → Saves m (add_user m username password uid gid).1
add_user-Saves m username password uid gid = elim (add_user_cases m username password uid gid) [
  | inl e ↦ rw e (inl refl)
  | inr (room, e) ↦ rw e (autosave-Saves m _ refl)
]

pub change_password-Saves :
    (m : UserManager) (uid : ℕ) (old_pw new_pw : CString)
    → Saves m (change_password m uid old_pw new_pw).1
change_password-Saves m uid old_pw new_pw = elim (change_password_cases m uid old_pw new_pw) [
  | inl e ↦ rw e (inl refl)
  | inr e ↦ rw e (autosave-Saves m _ refl)
]

pub su-Saves :
    (m : UserManager) (uid : ℕ) (password : Option CString) → Saves m (su m uid password).1
unfolding su
su-Saves m uid password = elim (su_cases m uid password (first_user (has_uid uid) 0 m.users)) [
  | inl e ↦ rw e (inl refl)
  | inr (j, r, found, e) ↦ rw e (inl refl)
]
