-- ===== src/UserManager/Accounts.antt =====
-- Accounts and logins.
use pseudo_fs.Common.{
  ℕ, suc, ◌+◌, ◌≤◌, ◌<◌, ◌≡◌, refl, ◌∙◌, Bool, true, false, none, some, List, [], ◌∷◌, ◌++◌,
  if◌then◌else◌, arith, Bool-cases, inl, inr,
}
use pseudo_fs.Common.Int.{pos, minus_one}
use pseudo_fs.Common.CStrings.{CString, take, strn_eq, take_short, str_eq_self, str_eq-eq, take_cut}
use pseudo_fs.Common.Lists.{length}
use pseudo_fs.Layout.{max_user}
use pseudo_fs.UserManager.{
  UserRecord, UserManager, stored, first_user, has_name, matches, add_user, login, is_root,
  autosave, new_record, pwdsiz,
}

-- A search that fails in the first part of the table goes on in the second.
first_user-append :
    (test : UserRecord → Bool) (i : ℕ) (rs ss : List UserRecord)
    → first_user test i rs ≡ none
    → first_user test i (rs ++ ss) ≡ first_user test (i + length rs) ss
unfolding first_user
first_user-append test i [] ss e = let z : i + 0 ≡ i = omega arith in rw z refl
first_user-append test i (r ∷ rs) ss e =
    let z : i + suc (length rs) ≡ i + 1 + length rs = omega arith in
    rw z (ground (arith, first_user-append test (i + 1) rs ss))

-- A stricter test fails where a laxer one does.
first_user-none :
    (p q : UserRecord → Bool)
    → ((r : UserRecord) → q r ≡ true → p r ≡ true)
    → (i : ℕ) (rs : List UserRecord) → first_user p i rs ≡ none
    → first_user q i rs ≡ none
unfolding first_user
first_user-none p q weaker i [] e = refl
first_user-none p q weaker i (r ∷ rs) e =
    ground (arith, weaker r, first_user-none p q weaker (i + 1) rs)

-- What a successful `add_user` has checked and done.
add_user-ok :
    (m : UserManager) (username password : CString) (uid gid : ℕ)
    → (add_user m username password uid gid).0 ≡ pos 0
    → (is_root m ≡ true)
      × (length m.users < max_user)
      × (first_user (has_name username) 0 m.users ≡ none)
      × (add_user m username password uid gid ≡ (
        pos 0,
        autosave (record m { users = m.users ++ new_record username password uid gid ∷ [] }),
      ))
unfolding add_user
add_user-ok m username password uid gid e = ground arith

login-autosave :
    (m : UserManager) (username password : CString)
    → (login (autosave m) username password).0 ≡ (login m username password).0
unfolding login
login-autosave m username password = ground arith

login_table :
    (m : UserManager) (rs : List UserRecord) (username password : CString)
    → first_user (matches username password) 0 m.users ≡ none
    → (login (record m { users = m.users ++ rs }) username password).0
      ≡ (elim (first_user (matches username password) (0 + length m.users) rs) [
        | none ↦ minus_one
        | some (i, r) ↦ pos r.uid
      ])
unfolding login
login_table m rs username password e =
    rw (first_user-append (matches username password) 0 m.users rs e, login) (ground arith)

matches-has_name :
    (username password : CString) (r : UserRecord)
    → matches username password r ≡ true
    → has_name username r ≡ true
matches-has_name username password r e = ground arith

-- `login` on the table that a successful `add_user` leaves looks at the new record alone.
login_new :
    (m : UserManager) (username password : CString) (uid gid : ℕ)
    → (add_user m username password uid gid).0 ≡ pos 0
    → (login (add_user m username password uid gid).1 username password).0 ≡ (
        if matches username password (new_record username password uid gid)
        then pos uid
        else minus_one)
login_new m username password uid gid e =
    let (_, _, absent, q) = add_user-ok m username password uid gid e in
    let none_before =
      first_user-none (has_name username) (matches username password)
        (matches-has_name username password) 0 m.users absent in
    rw q (
      login-autosave _ username password
      ∙ login_table m (new_record username password uid gid ∷ []) username password none_before
      ∙ unfold first_user in ground arith)

-- After a successful `add_user` with a name and a password of at most 11 bytes, the new user can log
-- in with them, and `login` returns the new uid.
pub login-add_user :
    (m : UserManager) (username password : CString) (uid gid : ℕ)
    → length username < pwdsiz
    → length password < pwdsiz
    → (add_user m username password uid gid).0 ≡ pos 0
    → (login (add_user m username password uid gid).1 username password).0 ≡ pos uid
login-add_user m username password uid gid p q e =
    login_new m username password uid gid e ∙ rw (accepted username p, accepted password q) refl
  where
    accepted : (s : CString) → length s < 12 → strn_eq 12 (stored s) s ≡ true
    accepted s p' = rw (take_short 11 s (omega arith)) (str_eq_self (take 12 s))

-- After a successful `add_user` with a name of 12 bytes or more, `login` with that name fails,
-- whatever the password given to both.
pub login-add_user_long :
    (m : UserManager) (username password : CString) (uid gid : ℕ)
    → pwdsiz ≤ length username
    → (add_user m username password uid gid).0 ≡ pos 0
    → (login (add_user m username password uid gid).1 username password).0 ≡ minus_one
login-add_user_long m username password uid gid p e =
    login_new m username password uid gid e ∙ rw refused refl
  where
    refused : strn_eq 12 (stored username) username ≡ false
    refused = elim (Bool-cases (strn_eq 12 (stored username) username)) [
      | inl same ↦ absurd (take_cut 11 username p (str_eq-eq _ _ same))
      | inr other ↦ other
    ]
