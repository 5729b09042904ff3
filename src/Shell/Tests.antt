-- ===== src/Shell/Tests.antt =====
-- The tokenizer, wildcards and the operation log at concrete lines, with an engine that has one
-- directory of three names.
use pseudo_fs.Common.{◌≡◌, refl, ◌↔◌, true, false, none, List, [], ◌∷◌, arith}
use pseudo_fs.Common.CStrings.{codes, str_eq}
use pseudo_fs.Common.Text.{to_string}
use pseudo_fs.UserManager.{init}
use pseudo_fs.Vfs.Sample.{Tape, tape_engine, sample_names}
use pseudo_fs.Shell.Tokens.{Token, tokenize_ex}
use pseudo_fs.Shell.Glob.{glob_match, glob_names, sort_strings, expand_token, has_glob}
use pseudo_fs.Shell.Patterns.{Matches}
use pseudo_fs.Shell.Matching.{glob_match-Matches}
use pseudo_fs.Shell.Quoting.{line_of, tokenize_ex-line_of}
use pseudo_fs.Shell.Registry.{
  LogEntry, Shell, CmdEntry, is_one_of, record_op, set_log_path, replay_lines, replay_log, execute,
}
use pseudo_fs.Shell.LogFile.{IsLogged, set_log_path-record_op}
use pseudo_fs.Shell.Wildcards.{expand_token-root}
use pseudo_fs.Shell.LogNames.{execute-IsQuiet, execute-depth_run, IsQuiet}
use pseudo_fs.Shell.KeptLog.{replay_log-SameLog}
use pseudo_fs.Commands.Table.{cli_commands}
use pseudo_fs.Commands.Laws.{cli_commands-IsHonest}

tokens :
    tokenize_ex (codes "write 0 \"a b\\\"c\"  x")
    ≡ record { text = codes "write"; quoted = false }
      ∷ record { text = codes "0"; quoted = false }
      ∷ record { text = codes "a b\"c"; quoted = true }
      ∷ record { text = codes "x"; quoted = false }
      ∷ []
unfolding tokenize_ex
tokens = refl

backtracks : glob_match (codes "*.t?t") (codes "a.tt.txt") ≡ true
unfolding glob_match
backtracks = refl

glob_match-Matches_example :
    (glob_match (codes "*.log") (codes "a.log.b") ≡ true)
    ↔ Matches (codes "*.log") (codes "a.log.b")
glob_match-Matches_example = glob_match-Matches (codes "*.log") (codes "a.log.b") (ground arith)

abbrev echo_line : List Token
echo_line =
    record { text = codes "write"; quoted = false }
    ∷ record { text = codes "say \"*\""; quoted = true }
    ∷ []

tokenize_ex-line_of_example : tokenize_ex (line_of echo_line) ≡ echo_line
tokenize_ex-line_of_example = tokenize_ex-line_of echo_line (ground arith)

abbrev first_line : LogEntry
first_line = record { time = 7; user = codes "root"; cmdline = codes "touch a" }

abbrev started : Shell Tape
started = record {
  fs = record { unread = codes "hello"; written = []; room = 64 };
  um = init;
  log = first_line ∷ [];
  log_path = true;
  log_file = codes "7\troot\ttouch a\n";
  suppress_log = false;
  hung = false;
}

started-IsLogged : IsLogged started
unfolding to_string
started-IsLogged = record {
  kept = refl;
  same = refl;
  storable = ((omega arith, ground arith, ground arith, ground arith), tt);
}

set_log_path-record_op_example :
    let st' = record_op 9 (codes "rm") (codes "rm a") started in
    IsLogged st' × ((set_log_path (record st' { log = []; log_path = false })).log ≡ st'.log)
unfolding init
set_log_path-record_op_example =
    set_log_path-record_op 9 (codes "rm") (codes "rm a") started started-IsLogged (ground arith)
      (ground arith) (ground arith)

log_names : glob_names [] (codes "*.log") sample_names ≡ codes "b.log" ∷ codes "a.log" ∷ []
unfolding glob_names str_eq
log_names = refl

log_pattern : has_glob (codes "*.log") ≡ true
unfolding has_glob
log_pattern = refl

expand_token-root_example :
    let u = started.fs in
    let paths = sort_strings (codes "b.log" ∷ codes "a.log" ∷ []) in
    (expand_token tape_engine u (record { text = codes "/*.log"; quoted = false }) ≡ (paths, u))
    × (expand_token tape_engine u (record { text = codes "*.log"; quoted = false }) ≡ (paths, u))
expand_token-root_example =
    expand_token-root tape_engine started.fs started.fs (codes "*.log") (codes "b.log")
      (codes "a.log" ∷ []) sample_names (ground arith) log_pattern refl log_names

abbrev table : List (CmdEntry Tape)
table = cli_commands tape_engine (λ t. none) (λ t. none) []

abbrev fresh : Shell Tape
fresh = record started { log = []; log_file = [] }

execute-depth_run_example :
    let st' =
      replay_lines
        (λ c s. execute tape_engine 9 table 2 c s [])
        (codes "touch a" ∷ codes "replay" ∷ [])
        fresh in
    execute tape_engine 9 table 7 (codes "replay") st' []
    ≡ execute tape_engine 9 table 2 (codes "replay") st' []
execute-depth_run_example =
    execute-depth_run tape_engine 9 table 5 (codes "touch a" ∷ codes "replay" ∷ []) (codes "replay")
      fresh [] (cli_commands-IsHonest tape_engine (λ t. none) (λ t. none) []) refl

started-IsQuiet : IsQuiet started.log
unfolding tokenize_ex is_one_of str_eq
started-IsQuiet = (refl, tt)

execute-IsQuiet_example : IsQuiet (execute tape_engine 9 table 2 (codes "rm a") started []).2.log
execute-IsQuiet_example =
    execute-IsQuiet tape_engine 9 table 2 (codes "rm a") started []
      (cli_commands-IsHonest tape_engine (λ t. none) (λ t. none) []) started-IsQuiet

replay_log-SameLog_example :
    let st' = (replay_log (λ c s. execute tape_engine 9 table 2 c s []) started).2 in
    (st'.log ≡ started.log) × (st'.log_file ≡ started.log_file) × (st'.suppress_log ≡ false)
replay_log-SameLog_example =
    replay_log-SameLog tape_engine 9 table 2 started
      (cli_commands-IsHonest tape_engine (λ t. none) (λ t. none) []) started-IsQuiet
