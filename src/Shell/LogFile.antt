-- ===== src/Shell/LogFile.antt =====
-- The log file of src/shell/command_registry.cpp: what `record` appends, `set_log_path` reads back.
use pseudo_fs.Common.{
  ℕ, leb, ◌%◌, ◌<◌, ◌≡◌, refl, sym, ap, ap₂, ◌∙◌, Bool, true, false, ◌||◌, List, [], ◌∷◌, ◌++◌,
  append-nil, append_assoc, if◌then◌else◌, arith, inl, inr, Bool-cases,
}
use pseudo_fs.Common.Arrays.{u32_mod}
use pseudo_fs.Common.CStrings.{CString}
use pseudo_fs.Common.Lists.{All}
use pseudo_fs.Common.Text.{to_string, split_first, lines_from, Without, split_first-Without}
use pseudo_fs.Common.Decimal.{scan-to_string, to_string-Without}
use pseudo_fs.Shell.Registry.{
  LogEntry, Shell, entry_text, entry_line, time_of, parse_line, parse_log, set_log_path, record_op,
  logged_user, is_one_of, not_logged,
}

-- What fits on a line of the log file: the time in 32 bits, no tab in the user's name, and no line
-- break.
abbrev pub Storable : LogEntry → Type 0
Storable e =
    (e.time < u32_mod) × Without b'\t' e.user × Without b'\n' e.user × Without b'\n' e.cmdline

abbrev pub file_of : List LogEntry → CString
file_of [] = []
file_of (e ∷ es) = entry_line e ++ file_of es

Without-append : (c : ℕ) (a b : CString) → Without c a → Without c b → Without c (a ++ b)
Without-append c [] b h k = k
Without-append c (x ∷ a) b (e, h) k = (e, Without-append c a b h k)

lines_from-line :
    (cur a rest : CString)
    → Without b'\n' a
    → lines_from cur (a ++ b'\n' ∷ rest) ≡ (cur ++ a) ∷ lines_from [] rest
unfolding lines_from
lines_from-line cur [] rest h = rw (append-nil cur) refl
lines_from-line cur (x ∷ a) rest (ne, h) = rw ne (
    lines_from-line (cur ++ x ∷ []) a rest h
    ∙ ap (λ z. z ∷ lines_from [] rest) (append_assoc cur (x ∷ []) a))

time_of-to_string : (n : ℕ) → n < u32_mod → time_of (to_string n) ≡ n
time_of-to_string n p =
    let small : leb 18446744073709551616 n ≡ false = ground arith in
    rw (scan-to_string n, small) (omega arith)

parse_line-entry_text :
    (e : LogEntry) → Storable e → parse_line (split_first b'\t' (entry_text e)) ≡ e ∷ []
parse_line-entry_text e (small, no_tab, _, _) =
    rw
      (
        split_first-Without b'\t' (to_string e.time) (e.user ++ b'\t' ∷ e.cmdline)
            (to_string-Without b'\t' e.time (omega arith)),
        split_first-Without b'\t' e.user e.cmdline no_tab,
        time_of-to_string e.time small,
      )
      refl

entry_text-Without : (e : LogEntry) → Storable e → Without b'\n' (entry_text e)
entry_text-Without e (_, _, user, line) =
    Without-append b'\n' (to_string e.time) _ (to_string-Without b'\n' e.time (omega arith))
      (refl, Without-append b'\n' e.user _ user (refl, line))

parse_log-file_of :
    (es : List LogEntry) → All Storable es → parse_log (lines_from [] (file_of es)) ≡ es
unfolding parse_log lines_from
parse_log-file_of [] h = refl
parse_log-file_of (e ∷ es) (w, h) =
    ap (λ s. parse_log (lines_from [] s)) (append_assoc (entry_text e) (b'\n' ∷ []) (file_of es))
    ∙ ap parse_log (lines_from-line [] (entry_text e) (file_of es) (entry_text-Without e w))
    ∙ ap₂ ◌++◌ (parse_line-entry_text e w) (parse_log-file_of es h)

file_of-append :
    (es : List LogEntry) (e : LogEntry) → file_of es ++ entry_line e ≡ file_of (es ++ e ∷ [])
file_of-append [] e = sym (append-nil (entry_line e))
file_of-append (x ∷ es) e =
    append_assoc (entry_line x) (file_of es) (entry_line e)
    ∙ ap (λ s. entry_line x ++ s) (file_of-append es e)

All-last :
    (es : List LogEntry) (e : LogEntry) → All Storable es → Storable e → All Storable (es ++ e ∷ [])
All-last [] e h w = (w, tt)
All-last (x ∷ es) e (a, h) w = (a, All-last es e h w)

appended :
    (b : Bool) (file : CString) (es : List LogEntry) (e : LogEntry)
    → b ≡ true
    → file ≡ file_of es
    → (if b then file ++ entry_line e else file) ≡ file_of (es ++ e ∷ [])
appended b file es e h same = rw (h, same) (file_of-append es e)

-- The file holds the log, and every entry fits on a line.
pub record IsLogged {F : Type 0} (st : Shell F) : Type 0 where
  pub kept : st.log_path ≡ true
  pub same : st.log_file ≡ file_of st.log
  pub storable : All Storable st.log

module _ {F : Type 0} where
  -- `record` keeps the file and the log the same, if the name of the user has no tab and no line
  -- break, and the command line has no line break.
  record_op-IsLogged :
      (now : ℕ) (cmd_name cmdline : CString) (st : Shell F)
      → IsLogged st
      → Without b'\t' (logged_user st.um)
      → Without b'\n' (logged_user st.um)
      → Without b'\n' cmdline
      → IsLogged (record_op now cmd_name cmdline st)
  unfolding record_op
  record_op-IsLogged now cmd_name cmdline st h tab user line =
      elim (Bool-cases (st.suppress_log || is_one_of cmd_name not_logged)) [
        | inl e ↦ rw e h
        | inr e ↦
            let new : LogEntry = record {
              time = now % u32_mod;
              user = logged_user st.um;
              cmdline = cmdline;
            } in
            rw e (record {
              kept = h.kept;
              same = appended st.log_path st.log_file st.log new h.kept h.same;
              storable = All-last st.log new h.storable (omega arith, tab, user, line);
            })
      ]

  -- If the log file holds the log, it still does after `record` of a command line without a line
  -- break by a user whose name has no tab and no line break; and a session that starts with that
  -- file and an empty log reads back the same log.
  pub set_log_path-record_op :
      (now : ℕ) (cmd_name cmdline : CString) (st : Shell F)
      → IsLogged st
      → Without b'\t' (logged_user st.um)
      → Without b'\n' (logged_user st.um)
      → Without b'\n' cmdline
      → let st' = record_op now cmd_name cmdline st in
        IsLogged st' × ((set_log_path (record st' { log = []; log_path = false })).log ≡ st'.log)
  unfolding set_log_path
  set_log_path-record_op now cmd_name cmdline st h tab user line =
      let h' = record_op-IsLogged now cmd_name cmdline st h tab user line in
      let st' = record_op now cmd_name cmdline st in
      (h', ap (λ s. parse_log (lines_from [] s)) h'.same ∙ parse_log-file_of st'.log h'.storable)

-- A tab in the name of the user moves the rest of the name, and a tab, to the front of the command
-- line that is read back.
pub parse_line-tab :
    (time : ℕ) (user name cmdline : CString)
    → time < u32_mod
    → Without b'\t' user
    → parse_line (
        split_first b'\t'
          (entry_text (record { time = time; user = user ++ b'\t' ∷ name; cmdline = cmdline })))
      ≡ record { time = time; user = user; cmdline = name ++ b'\t' ∷ cmdline } ∷ []
parse_line-tab time user name cmdline small no_tab =
    rw
      (
        split_first-Without b'\t' (to_string time) ((user ++ b'\t' ∷ name) ++ b'\t' ∷ cmdline)
            (to_string-Without b'\t' time (omega arith)),
        append_assoc user (b'\t' ∷ name) (b'\t' ∷ cmdline),
        split_first-Without b'\t' user (name ++ b'\t' ∷ cmdline) no_tab,
        time_of-to_string time small,
      )
      refl
