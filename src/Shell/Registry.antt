-- ===== src/Shell/Registry.antt =====
-- src/shell/command_registry.cpp: the command table, `execute`, and the operation log. A handler that
-- holds a reference to the registry gets what it uses of it as an argument: the list of commands and
-- `replay`. A command that replays the log runs `execute` again; `depth` bounds such nested calls.
use pseudo_fs.Common.{
  ℕ, zero, suc, ◌-◌, ◌%◌, leb, Bool, true, false, ◌||◌, Option, none, some, List, [], ◌∷◌, ◌++◌,
  map, if◌then◌else◌,
}
use pseudo_fs.Common.Arrays.{u32_mod}
use pseudo_fs.Common.CStrings.{CString, codes, str_eq}
use pseudo_fs.Common.Int.{ℤ, pos, minus_one}
use pseudo_fs.Common.Lists.{length}
use pseudo_fs.Common.Text.{to_string, scan, Scanned, split_first, lines_from}
use pseudo_fs.UserManager.{UserManager, current_uid, current_gid, current_username, is_logged_in}
use pseudo_fs.Vfs.{IFileSystem}
use pseudo_fs.Shell.Tokens.{Token, tokenize_ex}
use pseudo_fs.Shell.Glob.{expand_globs}

pub record LogEntry : Type 0 where
  pub time : ℕ
  pub user : CString
  pub cmdline : CString

-- The objects that a command works on: the engine, the users, and the log with its file, which is
-- written if `log_path` is set. Opening the file succeeds. `hung` says that a command has not come
-- back within the bounds of the model: what the model does behind that has no meaning.
pub record Shell (F : Type 0) : Type 0 where
  pub fs : F
  pub um : UserManager
  pub log : List LogEntry
  pub log_path : Bool
  pub log_file : CString
  pub suppress_log : Bool
  pub hung : Bool

-- How a handler ends: with its return value, with an exception that `execute` catches, or not within
-- the bound of its loop.
pub data Outcome : Type 0 where
  returned : ℤ → Outcome
  invalid_argument : Outcome
  out_of_range : Outcome
  hangs : Outcome

module _ (F : Type 0) where
  pub record Captured : Type 0 where
    pub usages : List (CString × CString)
    pub replay : Shell F → ℤ × CString × Shell F

  -- The last argument is `output` as the handler finds it.
  abbrev pub Handler : Type 0
  Handler = Captured → Shell F → List CString → CString → Outcome × CString × Shell F

  pub record CmdEntry : Type 0 where
    pub name : CString
    pub handler : Handler
    pub usage : CString

abbrev pub entry_text : LogEntry → CString
entry_text e = to_string e.time ++ b'\t' ∷ (e.user ++ b'\t' ∷ e.cmdline)

abbrev pub entry_line : LogEntry → CString
entry_line e = entry_text e ++ b'\n' ∷ []

abbrev pub not_logged : List CString
not_logged = codes "log" ∷ codes "replay" ∷ codes "help" ∷ codes "history" ∷ codes "exit" ∷ []

unfoldable pub is_one_of : CString → List CString → Bool
is_one_of s [] = false
is_one_of s (t ∷ ts) = str_eq s t || is_one_of s ts

-- `strtoul`, which negates after a minus sign and gives ULONG_MAX for what is too large; the cast keeps
-- 32 bits.
abbrev pub low_word : Scanned → ℕ
low_word n =
    if leb 18446744073709551616 n.magnitude
    then u32_mod - 1
    else if n.negative
    then (u32_mod - n.magnitude % u32_mod) % u32_mod
    else n.magnitude % u32_mod

abbrev pub time_of : CString → ℕ
time_of s = low_word (scan 10 s)

-- A line of the log file.
abbrev pub parse_rest : ℕ → Option (CString × CString) → List LogEntry
parse_rest time none = []
parse_rest time (some (user, cmdline)) = record { time = time; user = user; cmdline = cmdline } ∷ []

abbrev pub parse_line : Option (CString × CString) → List LogEntry
parse_line none = []
parse_line (some (time, rest)) = parse_rest (time_of time) (split_first b'\t' rest)

unfoldable pub parse_log : List CString → List LogEntry
unfolding split_first scan
parse_log [] = []
parse_log (line ∷ lines) = parse_line (split_first b'\t' line) ++ parse_log lines

abbrev pub logged_user : UserManager → CString
logged_user um = if is_logged_in um then current_username um else codes "?"

abbrev pub asks_help : CString → Bool
asks_help a = str_eq a (codes "-h") || str_eq a (codes "--help")

unfoldable pub any_help : List CString → Bool
any_help [] = false
any_help (a ∷ args) = asks_help a || any_help args

module _ {F : Type 0} where
  unfoldable pub register_cmd : List (CmdEntry F) → CmdEntry F → List (CmdEntry F)
  register_cmd table e = table ++ e ∷ []

  unfoldable pub list_commands : List (CmdEntry F) → List (CString × CString)
  list_commands table = map (λ e. (e.name, e.usage)) table

  unfoldable pub set_log_path : Shell F → Shell F
  unfolding parse_log lines_from
  set_log_path st = record st {
    log_path = true;
    log = st.log ++ parse_log (lines_from [] st.log_file);
  }

  unfoldable pub clear_log : Shell F → Shell F
  clear_log st = record st { log = []; log_file = if st.log_path then [] else st.log_file }

  unfoldable pub record_op : ℕ → CString → CString → Shell F → Shell F
  unfolding is_one_of to_string
  record_op now cmd_name cmdline st =
      let e : LogEntry = record {
        time = now % u32_mod;
        user = logged_user st.um;
        cmdline = cmdline;
      } in
      if st.suppress_log || is_one_of cmd_name not_logged then st else record st {
        log = st.log ++ e ∷ [];
        log_file = if st.log_path then st.log_file ++ entry_line e else st.log_file;
      }

  -- The loop of `replay` over the lines, with the call of `execute`.
  unfoldable pub replay_lines :
      (CString → Shell F → ℤ × CString × Shell F) → List CString → Shell F → Shell F
  replay_lines run [] st = st
  replay_lines run (c ∷ cs) st = replay_lines run cs (run c st).2

  unfoldable pub replay_log :
      (CString → Shell F → ℤ × CString × Shell F) → Shell F → ℤ × CString × Shell F
  unfolding replay_lines to_string
  replay_log run st =
      let cmds = map (λ e. e.cmdline) st.log in
      let st' = replay_lines run cmds (record st { suppress_log = true }) in
      (
        pos 0,
        codes "Replayed " ++ (to_string (length cmds) ++ codes " operation(s)."),
        record st' { suppress_log = false },
      )

  -- The try block around the handler.
  abbrev pub caught : CString → Outcome × CString × Shell F → ℤ × CString × Shell F
  caught cmd_name (returned rc, out, st) = (rc, out, st)
  caught cmd_name (invalid_argument, out, st) =
      (minus_one, cmd_name ++ codes ": invalid numeric argument", st)
  caught cmd_name (out_of_range, out, st) =
      (minus_one, cmd_name ++ codes ": numeric argument out of range", st)
  caught cmd_name (hangs, out, st) = (minus_one, out, record st { hung = true })

  abbrev pub run_entry :
      ℕ
      → Captured F
      → CString
      → List CString
      → CString
      → Shell F
      → CmdEntry F
      → ℤ × CString × Shell F
  run_entry now captured cmdline args out st e =
      if any_help args
      then (pos 0, codes "Usage: " ++ e.usage, st)
      else caught e.name (e.handler captured (record_op now e.name cmdline st) args out)

  -- The loop over the table: the first command of this name.
  unfoldable pub find_command : CString → List (CmdEntry F) → Option (CmdEntry F)
  find_command name [] = none
  find_command name (e ∷ es) = if str_eq e.name name then some e else find_command name es

  abbrev pub dispatch :
      ℕ
      → Captured F
      → CString
      → CString
      → List CString
      → CString
      → Shell F
      → Option (CmdEntry F)
      → ℤ × CString × Shell F
  dispatch now captured cmdline cmd_name args out st none =
      (minus_one, codes "Unknown command: " ++ cmd_name, st)
  dispatch now captured cmdline cmd_name args out st (some e) =
      run_entry now captured cmdline args out st e

  module _ (fs : IFileSystem F) (now : ℕ) (table : List (CmdEntry F)) where
    abbrev pub as_current_user : Shell F → F
    as_current_user st = fs.set_user (current_uid st.um) (current_gid st.um) st.fs

    abbrev pub execute_tokens :
        (Shell F → ℤ × CString × Shell F)
        → CString
        → Shell F
        → CString
        → List Token
        → ℤ × CString × Shell F
    execute_tokens replay cmdline st out [] = (pos 0, out, st)
    execute_tokens replay cmdline st out (t ∷ ts) =
        let (args, u) = expand_globs fs (as_current_user st) ts in
        dispatch now (record { usages = list_commands table; replay = replay }) cmdline t.text args
          out (record st { fs = u }) (find_command t.text table)

    -- The source has no bound on nested calls: where `depth` runs out, the command hangs.
    unfoldable pub execute : ℕ → CString → Shell F → CString → ℤ × CString × Shell F
    execute zero cmdline st out = (minus_one, out, record st { hung = true })
    execute (suc depth) cmdline st out =
        execute_tokens (λ s. replay_log (λ c t. execute depth c t []) s) cmdline st out
          (tokenize_ex cmdline)
