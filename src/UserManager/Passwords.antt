-- ===== src/UserManager/Passwords.antt =====
-- Who may change a password, and what a change touches.
use pseudo_fs.Common.{
  ℕ, ◌+◌, ◌≡◌, ◌≢◌, refl, ◌∙◌, true, none, some, List, [], ◌∷◌, arith, Option-cases, inl, inr, ◌⊎◌,
}
use pseudo_fs.Common.Int.{pos}
use pseudo_fs.Common.CStrings.{CString, strn_eq}
use pseudo_fs.UserManager.{
  UserRecord, UserManager, stored, first_user, has_uid, find_user, set_password, change_password,
  is_root, is_logged_in, current_uid, pwdsiz, autosave, may_change,
}

find-set_password_self :
    (uid : ℕ) (pw : CString) (i : ℕ) (rs : List UserRecord) (j : ℕ) (r : UserRecord)
    → first_user (has_uid uid) i rs ≡ some (j, r)
    → first_user (has_uid uid) i (set_password uid pw rs)
      ≡ some (j, record r { password = stored pw })
unfolding first_user set_password
find-set_password_self uid pw i [] j r e = cc
find-set_password_self uid pw i (s ∷ rs) j r e =
    ground (arith, find-set_password_self uid pw (i + 1) rs j r)

find-set_password_ne :
    (uid other : ℕ) (pw : CString) (i : ℕ) (rs : List UserRecord)
    → uid ≢ other
    → first_user (has_uid other) i (set_password uid pw rs) ≡ first_user (has_uid other) i rs
unfolding first_user set_password
find-set_password_ne uid other pw i [] ne = refl
find-set_password_ne uid other pw i (s ∷ rs) ne =
    ground (arith, find-set_password_ne uid other pw (i + 1) rs ne)

unknown :
    (m : UserManager) (uid : ℕ) (old_pw new_pw : CString)
    → find_user m uid ≡ none
    → ¬ ((change_password m uid old_pw new_pw).0 ≡ pos 0)
unfolding change_password
unknown m uid old_pw new_pw q e = ground arith

find_autosave : (m : UserManager) (uid : ℕ) → find_user (autosave m) uid ≡ find_user m uid
unfolding find_user
find_autosave m uid = ground arith

granted :
    (m : UserManager) (uid : ℕ) (old_pw new_pw : CString) (user : UserRecord)
    → find_user m uid ≡ some user
    → (change_password m uid old_pw new_pw).0 ≡ pos 0
    → (is_logged_in m ≡ true)
      × (may_change m uid user old_pw ≡ true)
      × ((change_password m uid old_pw new_pw).1
          ≡ autosave (record m { users = set_password uid new_pw m.users }))
unfolding change_password
granted m uid old_pw new_pw user q e = ground arith

allowed :
    (m : UserManager) (uid : ℕ) (old_pw : CString) (user : UserRecord)
    → may_change m uid user old_pw ≡ true
    → ((is_root m ≡ true) ⊎ (current_uid m ≡ uid))
      × (((is_root m ≡ true) × (current_uid m ≢ uid))
          ⊎ (strn_eq pwdsiz user.password old_pw ≡ true))
allowed m uid old_pw user e = ground arith

found_self :
    (m : UserManager) (uid : ℕ) (pw : CString) (user : UserRecord)
    → find_user m uid ≡ some user
    → find_user (record m { users = set_password uid pw m.users }) uid
      ≡ some (record user { password = stored pw })
unfolding find_user
found_self m uid pw user e = elim (Option-cases (first_user (has_uid uid) 0 m.users)) [
  | inl q ↦ ground arith
  | inr ((j, r), q) ↦ ground (arith, find-set_password_self uid pw 0 m.users j r)
]

found_other :
    (m : UserManager) (uid other : ℕ) (pw : CString)
    → uid ≢ other
    → find_user (record m { users = set_password uid pw m.users }) other ≡ find_user m other
unfolding find_user
found_other m uid other pw ne = rw (find-set_password_ne uid other pw 0 m.users ne, find_user) refl

-- A password change that succeeds was asked for in a session, by root or by the user, and with the
-- old password unless root changes another user's. Then the user's record has the new password, cut
-- to 11 bytes, and every other uid finds the record that it found before.
pub change_password_lem :
    (m : UserManager) (uid : ℕ) (old_pw new_pw : CString)
    → (change_password m uid old_pw new_pw).0 ≡ pos 0
    → let m' = (change_password m uid old_pw new_pw).1 in
      (user : UserRecord) × (find_user m uid ≡ some user)
      × (is_logged_in m ≡ true)
      × ((is_root m ≡ true) ⊎ (current_uid m ≡ uid))
      × (((is_root m ≡ true) × (current_uid m ≢ uid))
          ⊎ (strn_eq pwdsiz user.password old_pw ≡ true))
      × (find_user m' uid ≡ some (record user { password = stored new_pw }))
      × ((other : ℕ) → uid ≢ other → find_user m' other ≡ find_user m other)
change_password_lem m uid old_pw new_pw e = elim (Option-cases (find_user m uid)) [
  | inl q ↦ absurd (unknown m uid old_pw new_pw q e)
  | inr (user, q) ↦
      let (here, checked, after) = granted m uid old_pw new_pw user q e in
      let (who, how) = allowed m uid old_pw user checked in
      rw after (
        user,
        q,
        here,
        who,
        how,
        find_autosave _ uid ∙ found_self m uid new_pw user q,
        λ other ne. find_autosave _ other ∙ found_other m uid other new_pw ne,
      )
]
