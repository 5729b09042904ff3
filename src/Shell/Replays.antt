-- ===== src/Shell/Replays.antt =====
-- The operation log under `execute` and `replay` of src/shell/command_registry.cpp, for any table of
-- commands that use the registry the way those of src/main.cpp do.
use pseudo_fs.Common.{
  ℕ, suc, ◌≡◌, refl, sym, subst, Bool, true, false, ◌||◌, Option, none, some, List, [], ◌∷◌, map,
  inl, inr, Bool-cases, Option-cases,
}
use pseudo_fs.Common.CStrings.{CString, codes, str_eq, str_eq-eq}
use pseudo_fs.Common.Int.{ℤ}
use pseudo_fs.Common.Lists.{All}
use pseudo_fs.Vfs.{IFileSystem}
use pseudo_fs.Shell.Tokens.{Token, tokenize_ex}
use pseudo_fs.Shell.Glob.{expand_globs}
use pseudo_fs.Shell.Registry.{
  LogEntry, Shell, Captured, CmdEntry, Outcome, returned, invalid_argument, out_of_range, hangs,
  not_logged, is_one_of, record_op, replay_lines, replay_log, caught, run_entry, find_command,
  list_commands, as_current_user, execute_tokens, execute,
}

-- The log, its file and the switch that turns it off are the same.
abbrev pub SameLog : {F : Type 0} → Shell F → Shell F → Type 0
SameLog st st' =
    (st'.log ≡ st.log) × (st'.log_file ≡ st.log_file) × (st'.suppress_log ≡ st.suppress_log)

abbrev pub replay_name : CString
replay_name = codes "replay"

module _ (F : Type 0) where
  -- How a command uses the registry: `replay`, if at all, for the state that it is called with, and
  -- only under the name of that command; the log is changed by the commands that are not logged.
  pub record IsHonest (e : CmdEntry F) : Type 0 where
    pub at_state :
        (usages : List (CString × CString)) (r r' : Shell F → ℤ × CString × Shell F) (st : Shell F)
        (args : List CString) (out : CString)
        → r st ≡ r' st
        → e.handler (record { usages = usages; replay = r }) st args out
          ≡ e.handler (record { usages = usages; replay = r' }) st args out
    pub alone :
        str_eq e.name replay_name ≡ false
        → (usages : List (CString × CString)) (r r' : Shell F → ℤ × CString × Shell F)
          (st : Shell F) (args : List CString) (out : CString)
        → e.handler (record { usages = usages; replay = r }) st args out
          ≡ e.handler (record { usages = usages; replay = r' }) st args out
    pub keeps :
        is_one_of e.name not_logged ≡ false
        → (captured : Captured F) (st : Shell F) (args : List CString) (out : CString)
        → SameLog st (e.handler captured st args out).2
    pub under :
        (q : LogEntry → Bool) (captured : Captured F) (st : Shell F) (args : List CString)
        (out : CString)
        → ((s : Shell F)
            → All (λ x. q x ≡ true) s.log
            → All (λ x. q x ≡ true) (captured.replay s).2.log)
        → All (λ x. q x ≡ true) st.log
        → All (λ x. q x ≡ true) (e.handler captured st args out).2.log

-- The name of the command on a line.
abbrev pub first_text : List Token → Option CString
first_text [] = none
first_text (t ∷ ts) = some t.text

abbrev pub is_named : CString → Option CString → Bool
is_named name none = false
is_named name (some s) = str_eq s name

abbrev pub NotReplay : CString → Type 0
NotReplay cmdline = is_named replay_name (first_text (tokenize_ex cmdline)) ≡ false

pub caught_log :
    {F : Type 0} (name : CString) (r : Outcome × CString × Shell F) → SameLog r.2 (caught name r).2
caught_log name (returned rc, out, st) = (refl, refl, refl)
caught_log name (invalid_argument, out, st) = (refl, refl, refl)
caught_log name (out_of_range, out, st) = (refl, refl, refl)
caught_log name (hangs, out, st) = (refl, refl, refl)

some_first :
    {F : Type 0} (P : CmdEntry F → Type 0) (name : CString) (a b : CmdEntry F)
    → P a
    → str_eq a.name name ≡ true
    → some a ≡ some b
    → P b × (str_eq b.name name ≡ true)
some_first P name a b p t same =
    let e : a ≡ b = cc in subst (λ z. P z × (str_eq z.name name ≡ true)) e (p, t)

-- The command that is found is in the table and has the name.
pub find_command-All :
    {F : Type 0} (P : CmdEntry F → Type 0) (name : CString) (table : List (CmdEntry F))
    (e : CmdEntry F)
    → All P table
    → find_command name table ≡ some e
    → P e × (str_eq e.name name ≡ true)
unfolding find_command
find_command-All P name [] e h found = cc
find_command-All P name (x ∷ xs) e (p, h) found = elim (Bool-cases (str_eq x.name name)) [
  | inl t ↦ some_first P name x e p t (rw t at found)
  | inr t ↦ find_command-All P name xs e h (rw t at found)
]

or_true : (b : Bool) → (b || true) ≡ true
or_true true = refl
or_true false = refl

record_op-replay :
    {F : Type 0} (now : ℕ) (name cmdline : CString) (st : Shell F)
    → name ≡ replay_name
    → record_op now name cmdline st ≡ st
unfolding record_op str_eq
record_op-replay now name cmdline st e = rw (e, or_true st.suppress_log) refl

module _ {F : Type 0} where
  -- A command that replays nothing runs the same with any `replay`.
  run_entry-alone :
      (now : ℕ) (usages : List (CString × CString)) (r r' : Shell F → ℤ × CString × Shell F)
      (cmdline : CString) (args : List CString) (out : CString) (st : Shell F) (e : CmdEntry F)
      → IsHonest F e
      → str_eq e.name replay_name ≡ false
      → run_entry now (record { usages = usages; replay = r }) cmdline args out st e
        ≡ run_entry now (record { usages = usages; replay = r' }) cmdline args out st e
  run_entry-alone now usages r r' cmdline args out st e h other =
      rw (h.alone other usages r r' (record_op now e.name cmdline st) args out) refl

  -- The command `replay` is not logged, so it replays the log as it is.
  run_entry-replay :
      (now : ℕ) (usages : List (CString × CString)) (r r' : Shell F → ℤ × CString × Shell F)
      (cmdline : CString) (args : List CString) (out : CString) (st : Shell F) (e : CmdEntry F)
      → IsHonest F e
      → str_eq e.name replay_name ≡ true
      → r st ≡ r' st
      → run_entry now (record { usages = usages; replay = r }) cmdline args out st e
        ≡ run_entry now (record { usages = usages; replay = r' }) cmdline args out st e
  run_entry-replay now usages r r' cmdline args out st e h named same =
      let skipped : record_op now e.name cmdline st ≡ st =
        record_op-replay now e.name cmdline st (str_eq-eq e.name replay_name named) in
      rw (skipped, h.at_state usages r r' st args out same) refl

pub replay_lines-same :
    {F : Type 0} (run run' : CString → Shell F → ℤ × CString × Shell F) (cmds : List CString)
    (st : Shell F)
    → ((c : CString) (s : Shell F) → NotReplay c → run c s ≡ run' c s)
    → All NotReplay cmds
    → replay_lines run cmds st ≡ replay_lines run' cmds st
unfolding replay_lines
replay_lines-same run run' [] st same h = refl
replay_lines-same run run' (c ∷ cs) st same (n, h) =
    rw (same c st n) (replay_lines-same run run' cs (run' c st).2 same h)

replay_log-same :
    {F : Type 0} (run run' : CString → Shell F → ℤ × CString × Shell F) (st : Shell F)
    → ((c : CString) (s : Shell F) → NotReplay c → run c s ≡ run' c s)
    → All NotReplay (map (λ e. e.cmdline) st.log)
    → replay_log run st ≡ replay_log run' st
unfolding replay_log
replay_log-same run run' st same h =
    rw
      (replay_lines-same run run' (map (λ e. e.cmdline) st.log) (record st { suppress_log = true })
        same h)
      refl

module _ {F : Type 0} (fs : IFileSystem F) (now : ℕ) (table : List (CmdEntry F)) where
  execute_tokens-alone :
      (r r' : Shell F → ℤ × CString × Shell F) (cmdline : CString) (st : Shell F) (out : CString)
      (ts : List Token)
      → All (IsHonest F) table
      → is_named replay_name (first_text ts) ≡ false
      → execute_tokens fs now table r cmdline st out ts
        ≡ execute_tokens fs now table r' cmdline st out ts
  execute_tokens-alone r r' cmdline st out [] h other = refl
  execute_tokens-alone r r' cmdline st out (t ∷ ts) h other =
      elim (Option-cases (find_command t.text table)) [
        | inl e ↦ rw e refl
        | inr (e, found) ↦
            let (honest, named) = find_command-All (IsHonest F) t.text table e h found in
            let same = str_eq-eq e.name t.text named in
            let (args, u) = expand_globs fs (as_current_user fs now table st) ts in
            rw found (
              run_entry-alone now (list_commands table) r r' cmdline args out (record st { fs = u })
                e honest (subst (λ n. str_eq n replay_name ≡ false) (sym same) other))
      ]

  execute_tokens-replay :
      (r r' : Shell F → ℤ × CString × Shell F) (cmdline : CString) (st : Shell F) (out : CString)
      (ts : List Token)
      → All (IsHonest F) table
      → is_named replay_name (first_text ts) ≡ true
      → ((s : Shell F) → s.log ≡ st.log → r s ≡ r' s)
      → execute_tokens fs now table r cmdline st out ts
        ≡ execute_tokens fs now table r' cmdline st out ts
  execute_tokens-replay r r' cmdline st out [] h other same = cc
  execute_tokens-replay r r' cmdline st out (t ∷ ts) h other agree =
      elim (Option-cases (find_command t.text table)) [
        | inl e ↦ rw e refl
        | inr (e, found) ↦
            let (honest, named) = find_command-All (IsHonest F) t.text table e h found in
            let same = str_eq-eq e.name t.text named in
            let (args, u) = expand_globs fs (as_current_user fs now table st) ts in
            rw found (
              run_entry-replay now (list_commands table) r r' cmdline args out
                (record st { fs = u }) e honest
                (subst (λ n. str_eq n replay_name ≡ true) (sym same) other)
                (agree (record st { fs = u }) refl))
      ]

  execute-alone :
      (d e : ℕ) (cmdline : CString) (st : Shell F) (out : CString)
      → All (IsHonest F) table
      → NotReplay cmdline
      → execute fs now table (suc d) cmdline st out ≡ execute fs now table (suc e) cmdline st out
  unfolding execute
  execute-alone d e cmdline st out h other =
      execute_tokens-alone _ _ cmdline st out (tokenize_ex cmdline) h other

  -- Where no line of the log runs `replay`, `execute` needs two levels of calls at most.
  pub execute-depth :
      (d : ℕ) (cmdline : CString) (st : Shell F) (out : CString)
      → All (IsHonest F) table
      → All NotReplay (map (λ e. e.cmdline) st.log)
      → execute fs now table (suc (suc d)) cmdline st out ≡ execute fs now table 2 cmdline st out
  unfolding execute
  execute-depth d cmdline st out h quiet =
      elim (Bool-cases (is_named replay_name (first_text (tokenize_ex cmdline)))) [
        | inr other ↦ execute_tokens-alone _ _ cmdline st out (tokenize_ex cmdline) h other
        | inl named ↦
            execute_tokens-replay _ _ cmdline st out (tokenize_ex cmdline) h named (λ s same.
              replay_log-same (λ c t. execute fs now table (suc d) c t [])
                (λ c t. execute fs now table 1 c t []) s (λ c t n. execute-alone d 0 c t [] h n)
                (subst (λ l. All NotReplay (map (λ e. e.cmdline) l)) (sym same) quiet))
      ]
