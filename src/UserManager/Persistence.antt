-- ===== src/UserManager/Persistence.antt =====
-- The invariant through every sequence of calls, the saved table, and what loading one may lose.
use pseudo_fs.Common.{
  ℕ, ◌≤◌, ◌<◌, ◌≡◌, refl, sym, ap, ◌∙◌, Bool, false, ◌||◌, Option, none, some, List, [], ◌∷◌, ltb,
  ◌==◌, arith, Bool-cases, inl, inr, ◌⊎◌, le→ltb,
}
use pseudo_fs.Common.Int.{ℤ, pos, minus_one}
use pseudo_fs.Common.CStrings.{CString, take, take_short, length-take}
use pseudo_fs.Common.Lists.{length}
use pseudo_fs.Layout.{max_user}
use pseudo_fs.UserManager.{
  UserRecord, UserFile, UserManager, init, first_user, has_uid, login, login_root, logout, add_user,
  change_password, su, save_to_file, load_from_file, set_persist_path, file_of, user_magic,
  load_records, load_words,
}
use pseudo_fs.UserManager.Saved.{
  Saves, login-Saves, login_root-Saves, logout-Saves, add_user-Saves, change_password-Saves,
  su-Saves,
}
use pseudo_fs.UserManager.Session.{
  IsValid, login-IsValid, login_root-IsValid, logout-IsValid, add_user-IsValid,
  change_password-IsValid, su-IsValid,
}

pub data Call : Type 0 where
  log_in : CString → CString → Call
  log_in_root : Call
  log_out : Call
  add : CString → CString → ℕ → ℕ → Call
  passwd : ℕ → CString → CString → Call
  switch : ℕ → Option CString → Call
  restore : Option UserFile → Call
  save : Call
  keep_path : Bool → Call

abbrev pub step : UserManager → Call → UserManager
step m (log_in username password) = (login m username password).1
step m log_in_root = (login_root m).1
step m log_out = (logout m).1
step m (add username password uid gid) = (add_user m username password uid gid).1
step m (passwd uid old_pw new_pw) = (change_password m uid old_pw new_pw).1
step m (switch uid password) = (su m uid password).1
step m (restore f) = (load_from_file m f).1
step m save = save_to_file m
step m (keep_path on) = set_persist_path on m

-- What a file that is accepted was: a count in range, with all its records.
abbrev Loads : UserManager → ℤ × UserManager → Type 0
Loads m r =
    (n : ℕ) × (rs : List UserRecord) × (0 < n)
    × (n ≤ max_user)
    × (n ≤ length rs)
    × (r ≡ (pos 0, record m { users = take n rs; current_index = none }))

load_records_cases :
    (m : UserManager) (n : ℕ) (rs : List UserRecord)
    → (load_records m n rs ≡ (minus_one, m)) ⊎ Loads m (load_records m n rs)
load_records_cases m n rs = elim (Bool-cases (n == 0 || ltb max_user n || ltb (length rs) n)) [
  | inl e ↦ inl (rw e refl)
  | inr e ↦ inr (n, rs, ground arith, ground arith, ground arith, rw e refl)
]

load_words_cases :
    (m : UserManager) (magic count : Option ℕ) (rs : List UserRecord)
    → (load_words m magic count rs ≡ (minus_one, m)) ⊎ Loads m (load_words m magic count rs)
load_words_cases m none count rs = inl refl
load_words_cases m (some w) none rs = inl refl
load_words_cases m (some w) (some n) rs = elim (Bool-cases (w == user_magic)) [
  | inl e ↦ rw e (load_records_cases m n rs)
  | inr e ↦ inl (rw e refl)
]

load_cases :
    (m : UserManager) (o : Option UserFile)
    → (load_from_file m o ≡ (minus_one, m)) ⊎ Loads m (load_from_file m o)
unfolding load_from_file
load_cases m none = inl refl
load_cases m (some f) = load_words_cases m f.magic f.count f.records

load-IsValid : (m : UserManager) (o : Option UserFile) → IsValid m → IsValid (load_from_file m o).1
load-IsValid m o v = elim (load_cases m o) [
  | inl e ↦ rw e v
  | inr (n, rs, positive, small, enough, e) ↦
      let same = length-take n rs enough in
      rw e (record {
        nonempty = omega (arith, same);
        bounded = omega (arith, same);
        session = λ i q. cc;
      })
]

init-IsValid : IsValid init
unfolding init
init-IsValid = record { nonempty = omega arith; bounded = omega arith; session = λ i e. cc }

step-IsValid : (m : UserManager) (c : Call) → IsValid m → IsValid (step m c)
step-IsValid m (log_in username password) v = login-IsValid m username password v
step-IsValid m log_in_root v = login_root-IsValid m v
step-IsValid m log_out v = logout-IsValid m v
step-IsValid m (add username password uid gid) v = add_user-IsValid m username password uid gid v
step-IsValid m (passwd uid old_pw new_pw) v = change_password-IsValid m uid old_pw new_pw v
step-IsValid m (switch uid password) v = su-IsValid m uid password v
step-IsValid m (restore f) v = load-IsValid m f v
step-IsValid m save v =
    unfold save_to_file in
    record { nonempty = v.nonempty; bounded = v.bounded; session = v.session }
step-IsValid m (keep_path on) v =
    unfold set_persist_path in
    record { nonempty = v.nonempty; bounded = v.bounded; session = v.session }

load-Saves : (m : UserManager) (o : Option UserFile) → Saves m (load_from_file m o).1
load-Saves m o = elim (load_cases m o) [
  | inl e ↦ rw e (inl refl)
  | inr (n, rs, positive, small, enough, e) ↦ rw e (inl refl)
]

step-Saves : (m : UserManager) (c : Call) → Saves m (step m c)
step-Saves m (log_in username password) = login-Saves m username password
step-Saves m log_in_root = login_root-Saves m
step-Saves m log_out = logout-Saves m
step-Saves m (add username password uid gid) = add_user-Saves m username password uid gid
step-Saves m (passwd uid old_pw new_pw) = change_password-Saves m uid old_pw new_pw
step-Saves m (switch uid password) = su-Saves m uid password
step-Saves m (restore f) = load-Saves m f
step-Saves m save = unfold save_to_file in inr refl
step-Saves m (keep_path on) = unfold set_persist_path in inl refl

abbrev pub run : UserManager → List Call → UserManager
run m [] = m
run m (c ∷ cs) = run (step m c) cs

gt→eq : (n : ℕ) → 0 < n → (n == 0) ≡ false
gt→eq n p = ground arith

load_table :
    (m : UserManager) (rs : List UserRecord)
    → 0 < length rs
    → length rs ≤ max_user
    → load_from_file m (some (file_of rs)) ≡ (pos 0, record m { users = rs; current_index = none })
unfolding load_from_file
load_table m rs p q =
    let whole = take_short (length rs) rs (omega arith) in
    let positive = gt→eq (length rs) p in
    rw (positive, le→ltb 8 (length rs) q, le→ltb (length rs) (length rs) (omega arith), whole) refl

-- The file that has been written, if there is one, is accepted, whoever loads it.
abbrev pub IsLoadable : UserManager → Type 0
IsLoadable m =
    (f : UserFile)
    → m.file ≡ some f
    → (other : UserManager) → (load_from_file other (some f)).0 ≡ pos 0

same_file : {f g : UserFile} → some f ≡ some g → f ≡ g
same_file e = cc

saved-IsLoadable : (m m' : UserManager) → IsLoadable m → Saves m m' → IsValid m' → IsLoadable m'
saved-IsLoadable m m' h (inl same) v f e other = h f (sym same ∙ e) other
saved-IsLoadable m m' h (inr written) v f e other =
    let table : file_of m'.users ≡ f = same_file (sym written ∙ e) in
    rw⁻¹ table (ap (λ r. r.0) (load_table other m'.users v.nonempty v.bounded))

run-IsValid :
    (m : UserManager) (cs : List Call)
    → IsValid m
    → IsLoadable m
    → IsValid (run m cs) × IsLoadable (run m cs)
run-IsValid m [] v h = (v, h)
run-IsValid m (c ∷ cs) v h =
    let w = step-IsValid m c v in
    run-IsValid (step m c) cs w (saved-IsLoadable m (step m c) h (step-Saves m c) w)

-- After any sequence of calls on a new manager, of which some may set or clear the path for saving,
-- the table has between 1 and MAX_USER records, and the session, if there is one, is an index into
-- it. The file that the calls have written, if any, is one that `load_from_file` accepts.
pub run-init-IsValid : (cs : List Call) → IsValid (run init cs) × IsLoadable (run init cs)
unfolding init
run-init-IsValid cs = run-IsValid init cs init-IsValid (λ f e other. cc)

-- Loading what a valid manager has saved gives back its table, in a session that is logged out.
pub load-save :
    (m other : UserManager)
    → IsValid m
    → load_from_file other (save_to_file m).file
      ≡ (pos 0, record other { users = m.users; current_index = none })
unfolding save_to_file
load-save m other v = load_table other m.users v.nonempty v.bounded

-- A well-formed file of 1 to MAX_USER records, none of them with uid 0, is loaded; after that
-- `login_root` fails, and so does every `add_user`.
pub load_rootless :
    (m : UserManager) (rs : List UserRecord)
    → 0 < length rs
    → length rs ≤ max_user
    → first_user (has_uid 0) 0 rs ≡ none
    → let r = load_from_file m (some (file_of rs)) in
      (r.0 ≡ pos 0)
      × ((login_root r.1).0 ≡ minus_one)
      × ((username password : CString) (uid gid : ℕ)
          → (add_user r.1 username password uid gid).0 ≡ minus_one)
load_rootless m rs p q absent = rw (load_table m rs p q) (
  refl,
  unfold login_root in rw (absent, login_root) refl,
  λ username password uid gid. unfold add_user in refl,
)
