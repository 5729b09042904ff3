-- ===== src/Shell/LogNames.antt =====
-- What `record` of src/shell/command_registry.cpp keeps out of the log, and what follows for `replay`.
use pseudo_fs.Common.{
  ℕ, zero, suc, ◌≡◌, refl, sym, ap, subst, ◌∙◌, Bool, true, false, not, ◌||◌, Option, none, some,
  List, [], ◌∷◌, ◌++◌, map, inl, inr, arith, Bool-cases, Option-cases,
}
use pseudo_fs.Common.CStrings.{CString, str_eq, str_eq-eq}
use pseudo_fs.Common.Int.{ℤ}
use pseudo_fs.Common.Lists.{All}
use pseudo_fs.Vfs.{IFileSystem}
use pseudo_fs.Shell.Tokens.{Token, tokenize_ex}
use pseudo_fs.Shell.Glob.{expand_globs}
use pseudo_fs.Shell.Registry.{
  LogEntry, Shell, Captured, CmdEntry, not_logged, is_one_of, record_op, replay_lines, replay_log,
  any_help, run_entry, find_command, list_commands, as_current_user, execute_tokens, execute,
}
use pseudo_fs.Shell.Replays.{
  IsHonest, replay_name, first_text, is_named, NotReplay, caught_log, find_command-All,
  execute-depth,
}

abbrev pub names_meta : Option CString → Bool
names_meta none = false
names_meta (some s) = is_one_of s not_logged

abbrev pub is_quiet : CString → Bool
is_quiet cmdline = not (names_meta (first_text (tokenize_ex cmdline)))

-- No line of the log names a command that is not logged.
abbrev pub IsQuiet : List LogEntry → Type 0
IsQuiet log = All (λ e. is_quiet e.cmdline ≡ true) log

IsQuiet-append :
    (log : List LogEntry) (e : LogEntry)
    → IsQuiet log
    → is_quiet e.cmdline ≡ true
    → IsQuiet (log ++ e ∷ [])
IsQuiet-append [] e h q = (q, tt)
IsQuiet-append (x ∷ log) e (p, h) q = (p, IsQuiet-append log e h q)

record_op-IsQuiet :
    {F : Type 0} (now : ℕ) (name cmdline : CString) (st : Shell F)
    → first_text (tokenize_ex cmdline) ≡ some name
    → IsQuiet st.log
    → IsQuiet (record_op now name cmdline st).log
unfolding record_op
record_op-IsQuiet now name cmdline st named h =
    elim (Bool-cases (st.suppress_log || is_one_of name not_logged)) [
      | inl e ↦ rw e h
      | inr e ↦
          let quiet : is_one_of name not_logged ≡ false = ground arith in
          rw e (IsQuiet-append st.log _ h (rw (named, quiet) refl))
    ]

replay_lines-IsQuiet :
    {F : Type 0} (run : CString → Shell F → ℤ × CString × Shell F) (cmds : List CString)
    (st : Shell F)
    → ((c : CString) (s : Shell F) → IsQuiet s.log → IsQuiet (run c s).2.log)
    → IsQuiet st.log
    → IsQuiet (replay_lines run cmds st).log
unfolding replay_lines
replay_lines-IsQuiet run [] st keeps h = h
replay_lines-IsQuiet run (c ∷ cs) st keeps h =
    replay_lines-IsQuiet run cs (run c st).2 keeps (keeps c st h)

replay_log-IsQuiet :
    {F : Type 0} (run : CString → Shell F → ℤ × CString × Shell F) (st : Shell F)
    → ((c : CString) (s : Shell F) → IsQuiet s.log → IsQuiet (run c s).2.log)
    → IsQuiet st.log
    → IsQuiet (replay_log run st).2.log
unfolding replay_log
replay_log-IsQuiet run st keeps h =
    replay_lines-IsQuiet run (map (λ e. e.cmdline) st.log) (record st { suppress_log = true }) keeps
      h

module _ {F : Type 0} where
  run_entry-IsQuiet :
      (now : ℕ) (captured : Captured F) (cmdline : CString) (args : List CString) (out : CString)
      (st : Shell F) (e : CmdEntry F)
      → IsHonest F e
      → first_text (tokenize_ex cmdline) ≡ some e.name
      → ((s : Shell F) → IsQuiet s.log → IsQuiet (captured.replay s).2.log)
      → IsQuiet st.log
      → IsQuiet (run_entry now captured cmdline args out st e).2.log
  run_entry-IsQuiet now captured cmdline args out st e honest named keeps h =
      elim (Bool-cases (any_help args)) [
        | inl b ↦ rw b h
        | inr b ↦
            let r = e.handler captured (record_op now e.name cmdline st) args out in
            rw (b, (caught_log e.name r).0)
              (honest.under (λ x. is_quiet x.cmdline) captured (record_op now e.name cmdline st)
                args out keeps (record_op-IsQuiet now e.name cmdline st named h))
      ]

  module _ (fs : IFileSystem F) (now : ℕ) (table : List (CmdEntry F)) where
    execute_tokens-IsQuiet :
        (r : Shell F → ℤ × CString × Shell F) (cmdline : CString) (st : Shell F) (out : CString)
        (ts : List Token)
        → All (IsHonest F) table
        → first_text (tokenize_ex cmdline) ≡ first_text ts
        → ((s : Shell F) → IsQuiet s.log → IsQuiet (r s).2.log)
        → IsQuiet st.log
        → IsQuiet (execute_tokens fs now table r cmdline st out ts).2.log
    execute_tokens-IsQuiet r cmdline st out [] honest named keeps h = h
    execute_tokens-IsQuiet r cmdline st out (t ∷ ts) honest named keeps h =
        elim (Option-cases (find_command t.text table)) [
          | inl e ↦ rw e h
          | inr (e, found) ↦
              let (good, same) = find_command-All (IsHonest F) t.text table e honest found in
              let called = str_eq-eq e.name t.text same in
              let (args, u) = expand_globs fs (as_current_user fs now table st) ts in
              rw found (
                run_entry-IsQuiet now (record { usages = list_commands table; replay = r }) cmdline
                  args out (record st { fs = u }) e good (named ∙ ap some (sym called)) keeps h)
        ]

    -- With a table of commands that change the log only by `clear_log` and `replay`, and under names
    -- that are not logged (`IsHonest`): if no line of the log names such a command, none does after
    -- any command line, replays included.
    pub execute-IsQuiet :
        (depth : ℕ) (cmdline : CString) (st : Shell F) (out : CString)
        → All (IsHonest F) table
        → IsQuiet st.log
        → IsQuiet (execute fs now table depth cmdline st out).2.log
    unfolding execute
    execute-IsQuiet zero cmdline st out honest h = h
    execute-IsQuiet (suc depth) cmdline st out honest h =
        execute_tokens-IsQuiet _ cmdline st out (tokenize_ex cmdline) honest refl
          (λ s q.
            replay_log-IsQuiet (λ c t. execute fs now table depth c t []) s
              (λ c t k. execute-IsQuiet depth c t [] honest k) q)
          h

not_replay : (s : CString) → not (is_one_of s not_logged) ≡ true → str_eq s replay_name ≡ false
unfolding is_one_of
not_replay s h = ground arith

quiet-NotReplay : (cmdline : CString) → is_quiet cmdline ≡ true → NotReplay cmdline
quiet-NotReplay cmdline q = other (first_text (tokenize_ex cmdline)) q
  where
    other :
        (name : Option CString) → not (names_meta name) ≡ true → is_named replay_name name ≡ false
    other none h = refl
    other (some s) h = not_replay s h

IsQuiet-NotReplay : (log : List LogEntry) → IsQuiet log → All NotReplay (map (λ e. e.cmdline) log)
IsQuiet-NotReplay [] h = tt
IsQuiet-NotReplay (e ∷ log) (q, h) = (quiet-NotReplay e.cmdline q, IsQuiet-NotReplay log h)

-- With a table of honest commands, and after any command lines that follow one another from an empty
-- log, `execute` with two levels of nested calls gives what it gives with more: `replay` does not
-- come to replay itself.
pub execute-depth_run :
    {F : Type 0} (fs : IFileSystem F) (now : ℕ) (table : List (CmdEntry F)) (depth : ℕ)
    (cmds : List CString) (cmdline : CString) (st : Shell F) (out : CString)
    → All (IsHonest F) table
    → st.log ≡ []
    → let st' = replay_lines (λ c s. execute fs now table 2 c s []) cmds st in
      execute fs now table (suc (suc depth)) cmdline st' out
      ≡ execute fs now table 2 cmdline st' out
execute-depth_run fs now table depth cmds cmdline st out honest fresh =
    let st' = replay_lines (λ c s. execute fs now table 2 c s []) cmds st in
    execute-depth fs now table depth cmdline st' out honest (
      IsQuiet-NotReplay st'.log (
        replay_lines-IsQuiet (λ c s. execute fs now table 2 c s []) cmds st
          (λ c s h. execute-IsQuiet fs now table 2 c s [] honest h) (subst IsQuiet (sym fresh) tt)))
