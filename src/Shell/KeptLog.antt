-- ===== src/Shell/KeptLog.antt =====
-- `replay` of src/shell/command_registry.cpp leaves the log as it is.
use pseudo_fs.Common.{
  ℕ, zero, suc, ◌≡◌, refl, sym, subst, ◌∙◌, true, false, not, ◌||◌, List, [], ◌∷◌, map, inl, inr,
  arith, Bool-cases, Option-cases,
}
use pseudo_fs.Common.CStrings.{CString, str_eq-eq}
use pseudo_fs.Common.Int.{ℤ}
use pseudo_fs.Common.Lists.{All}
use pseudo_fs.Vfs.{IFileSystem}
use pseudo_fs.Shell.Tokens.{Token, tokenize_ex}
use pseudo_fs.Shell.Glob.{expand_globs}
use pseudo_fs.Shell.Registry.{
  LogEntry, Shell, Captured, CmdEntry, not_logged, is_one_of, record_op, replay_lines, replay_log,
  any_help, caught, run_entry, find_command, list_commands, as_current_user, execute_tokens,
  execute,
}
use pseudo_fs.Shell.Replays.{IsHonest, SameLog, first_text, caught_log, find_command-All}
use pseudo_fs.Shell.LogNames.{names_meta, is_quiet, IsQuiet}

SameLog-trans : {F : Type 0} (a b c : Shell F) → SameLog a b → SameLog b c → SameLog a c
SameLog-trans a b c (x, y, z) (x', y', z') = (x' ∙ x, y' ∙ y, z' ∙ z)

record_op-suppressed :
    {F : Type 0} (now : ℕ) (name cmdline : CString) (st : Shell F)
    → st.suppress_log ≡ true
    → record_op now name cmdline st ≡ st
unfolding record_op
record_op-suppressed now name cmdline st off =
    let quiet : (st.suppress_log || is_one_of name not_logged) ≡ true = ground arith in
    rw quiet refl

module _ {F : Type 0} where
  run_entry-SameLog :
      (now : ℕ) (captured : Captured F) (cmdline : CString) (args : List CString) (out : CString)
      (st : Shell F) (e : CmdEntry F)
      → IsHonest F e
      → is_one_of e.name not_logged ≡ false
      → st.suppress_log ≡ true
      → SameLog st (run_entry now captured cmdline args out st e).2
  run_entry-SameLog now captured cmdline args out st e honest logged off =
      let skipped = record_op-suppressed now e.name cmdline st off in
      elim (Bool-cases (any_help args)) [
        | inl b ↦ rw b (refl, refl, refl)
        | inr b ↦
            let r = e.handler captured st args out in
            rw (b, skipped)
              (SameLog-trans st r.2 (caught e.name r).2 (honest.keeps logged captured st args out)
                (caught_log e.name r))
      ]

  module _ (fs : IFileSystem F) (now : ℕ) (table : List (CmdEntry F)) where
    execute_tokens-SameLog :
        (r : Shell F → ℤ × CString × Shell F) (cmdline : CString) (st : Shell F) (out : CString)
        (ts : List Token)
        → All (IsHonest F) table
        → not (names_meta (first_text ts)) ≡ true
        → st.suppress_log ≡ true
        → SameLog st (execute_tokens fs now table r cmdline st out ts).2
    execute_tokens-SameLog r cmdline st out [] honest quiet off = (refl, refl, refl)
    execute_tokens-SameLog r cmdline st out (t ∷ ts) honest quiet off =
        elim (Option-cases (find_command t.text table)) [
          | inl e ↦ rw e (refl, refl, refl)
          | inr (e, found) ↦
              let (good, same) = find_command-All (IsHonest F) t.text table e honest found in
              let called = str_eq-eq e.name t.text same in
              let logged : is_one_of t.text not_logged ≡ false = ground arith in
              let (args, u) = expand_globs fs (as_current_user fs now table st) ts in
              rw found (
                run_entry-SameLog now (record { usages = list_commands table; replay = r }) cmdline
                  args out (record st { fs = u }) e good
                  (subst (λ n. is_one_of n not_logged ≡ false) (sym called) logged) off)
        ]

    execute-SameLog :
        (depth : ℕ) (cmdline : CString) (st : Shell F) (out : CString)
        → All (IsHonest F) table
        → is_quiet cmdline ≡ true
        → st.suppress_log ≡ true
        → SameLog st (execute fs now table depth cmdline st out).2
    unfolding execute
    execute-SameLog zero cmdline st out honest quiet off = (refl, refl, refl)
    execute-SameLog (suc depth) cmdline st out honest quiet off =
        execute_tokens-SameLog _ cmdline st out (tokenize_ex cmdline) honest quiet off

    replay_lines-SameLog :
        (depth : ℕ) (log : List LogEntry) (st : Shell F)
        → All (IsHonest F) table
        → IsQuiet log
        → st.suppress_log ≡ true
        → SameLog st
            (replay_lines (λ c s. execute fs now table depth c s []) (map (λ e. e.cmdline) log) st)
    unfolding replay_lines
    replay_lines-SameLog depth [] st honest h off = (refl, refl, refl)
    replay_lines-SameLog depth (e ∷ log) st honest (q, h) off =
        let st1 = (execute fs now table depth e.cmdline st []).2 in
        let one = execute-SameLog depth e.cmdline st [] honest q off in
        let rest =
          replay_lines (λ c s. execute fs now table depth c s []) (map (λ x. x.cmdline) log) st1 in
        SameLog-trans st st1 rest one (replay_lines-SameLog depth log st1 honest h (one.2 ∙ off))

    -- With a table of honest commands, a replay of a log whose lines name no command that is not
    -- logged changes neither the log nor its file, and turns the log on again.
    pub replay_log-SameLog :
        (depth : ℕ) (st : Shell F)
        → All (IsHonest F) table
        → IsQuiet st.log
        → let st' = (replay_log (λ c s. execute fs now table depth c s []) st).2 in
          (st'.log ≡ st.log) × (st'.log_file ≡ st.log_file) × (st'.suppress_log ≡ false)
    unfolding replay_log
    replay_log-SameLog depth st honest h =
        let (log, file, off) =
          replay_lines-SameLog depth st.log (record st { suppress_log = true }) honest h refl in
        (log, file, refl)
