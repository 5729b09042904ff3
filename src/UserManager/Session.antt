-- ===== src/UserManager/Session.antt =====
-- The table's invariant through the calls on accounts and sessions.
use pseudo_fs.Common.{
  ℕ, ◌+◌, ◌≤◌, ◌<◌, ◌≡◌, refl, Bool, ◌||◌, Option, none, some, List, [], ◌∷◌, ◌++◌, arith,
  Bool-cases, Option-cases, inl, inr, ◌⊎◌,
}
use pseudo_fs.Common.CStrings.{CString, strn_eq}
use pseudo_fs.Common.Lists.{length, length-append}
use pseudo_fs.Layout.{max_user}
use pseudo_fs.UserManager.{
  UserRecord, UserManager, first_user, has_uid, matches, login, login_root, logout, add_user,
  change_password, set_password, su, new_record, autosave, su_to, is_root,
}

-- The table is never empty, has at most MAX_USER records, and the session is one of them.
pub record IsValid (m : UserManager) : Type 0 where
  pub nonempty : 0 < length m.users
  pub bounded : length m.users ≤ max_user
  pub session : (i : ℕ) → m.current_index ≡ some i → i < length m.users

first_user-lt :
    (test : UserRecord → Bool) (i : ℕ) (rs : List UserRecord) (j : ℕ) (r : UserRecord)
    → first_user test i rs ≡ some (j, r)
    → j < i + length rs
unfolding first_user
first_user-lt test i [] j r e = cc
first_user-lt test i (s ∷ rs) j r e = ground (arith, first_user-lt test (i + 1) rs j r)

length-set_password :
    (uid : ℕ) (pw : CString) (rs : List UserRecord) → length (set_password uid pw rs) ≡ length rs
unfolding set_password
length-set_password uid pw [] = refl
length-set_password uid pw (r ∷ rs) = ground (arith, length-set_password uid pw rs)

entered :
    (m : UserManager) (j : ℕ)
    → IsValid m
    → j < length m.users
    → IsValid (record m { current_index = some j })
entered m j v p = record {
  nonempty = v.nonempty;
  bounded = v.bounded;
  session = λ i e. let same : j ≡ i = cc in omega arith;
}

pub login-IsValid :
    (m : UserManager) (username password : CString)
    → IsValid m
    → IsValid (login m username password).1
unfolding login
login-IsValid m username password v =
    elim (Option-cases (first_user (matches username password) 0 m.users)) [
      | inl e ↦ rw (e, login) v
      | inr ((j, r), e) ↦
          rw (e, login) (entered m j v (omega (arith, first_user-lt _ 0 m.users j r e)))
    ]

pub login_root-IsValid : (m : UserManager) → IsValid m → IsValid (login_root m).1
unfolding login_root
login_root-IsValid m v = elim (Option-cases (first_user (has_uid 0) 0 m.users)) [
  | inl e ↦ rw (e, login_root) v
  | inr ((j, r), e) ↦
      rw (e, login_root) (entered m j v (omega (arith, first_user-lt _ 0 m.users j r e)))
]

pub logout-IsValid : (m : UserManager) → IsValid m → IsValid (logout m).1
unfolding logout
logout-IsValid m v = record {
  nonempty = ground (arith, v.nonempty);
  bounded = ground (arith, v.bounded);
  session = λ i e. ground arith;
}

autosave-IsValid : (m : UserManager) → IsValid m → IsValid (autosave m)
autosave-IsValid m v = record {
  nonempty = ground (arith, v.nonempty);
  bounded = ground (arith, v.bounded);
  session = λ i e. ground (arith, v.session i);
}

pub add_user_cases :
    (m : UserManager) (username password : CString) (uid gid : ℕ)
    → ((add_user m username password uid gid).1 ≡ m)
      ⊎ ((length m.users < max_user)
          × ((add_user m username password uid gid).1
              ≡ autosave
                  (record m { users = m.users ++ new_record username password uid gid ∷ [] })))
unfolding add_user
add_user_cases m username password uid gid = ground arith

pub add_user-IsValid :
    (m : UserManager) (username password : CString) (uid gid : ℕ)
    → IsValid m
    → IsValid (add_user m username password uid gid).1
add_user-IsValid m username password uid gid v = elim (add_user_cases m username password uid gid) [
  | inl e ↦ rw e v
  | inr (room, e) ↦
      let longer = length-append m.users (new_record username password uid gid ∷ []) in
      rw e (
        autosave-IsValid (record m { users = m.users ++ new_record username password uid gid ∷ [] })
          (record {
            nonempty = omega (arith, longer);
            bounded = omega (arith, longer);
            session = λ i q. omega (arith, longer, v.session i q);
          }))
]

pub change_password_cases :
    (m : UserManager) (uid : ℕ) (old_pw new_pw : CString)
    → ((change_password m uid old_pw new_pw).1 ≡ m)
      ⊎ ((change_password m uid old_pw new_pw).1
          ≡ autosave (record m { users = set_password uid new_pw m.users }))
unfolding change_password
change_password_cases m uid old_pw new_pw = ground arith

pub change_password-IsValid :
    (m : UserManager) (uid : ℕ) (old_pw new_pw : CString)
    → IsValid m
    → IsValid (change_password m uid old_pw new_pw).1
change_password-IsValid m uid old_pw new_pw v = elim (change_password_cases m uid old_pw new_pw) [
  | inl e ↦ rw e v
  | inr e ↦
      let same = length-set_password uid new_pw m.users in
      rw e (
        autosave-IsValid (record m { users = set_password uid new_pw m.users })
          (record {
            nonempty = omega (arith, same, v.nonempty);
            bounded = omega (arith, same, v.bounded);
            session = λ i q. omega (arith, same, v.session i q);
          }))
]

pub su_cases :
    (m : UserManager) (uid : ℕ) (password : Option CString) (o : Option (ℕ × UserRecord))
    → ((su_to m password o).1 ≡ m)
      ⊎ ((j : ℕ) × (r : UserRecord) × (o ≡ some (j, r))
          × ((su_to m password o).1 ≡ record m { current_index = some j }))
su_cases m uid password none = inl refl
su_cases m uid none (some (j, r)) = elim (Bool-cases (is_root m)) [
  | inl e ↦ inr (j, r, refl, rw e refl)
  | inr e ↦ inl (rw e refl)
]
su_cases m uid (some pw) (some (j, r)) = elim (Bool-cases (is_root m || strn_eq 12 r.password pw)) [
  | inl e ↦ inr (j, r, refl, rw e refl)
  | inr e ↦ inl (rw e refl)
]

pub su-IsValid :
    (m : UserManager) (uid : ℕ) (password : Option CString)
    → IsValid m
    → IsValid (su m uid password).1
unfolding su
su-IsValid m uid password v = elim (su_cases m uid password (first_user (has_uid uid) 0 m.users)) [
  | inl e ↦ rw e v
  | inr (j, r, q, e) ↦ rw e (entered m j v (omega (arith, first_user-lt _ 0 m.users j r q)))
]
