-- ===== src/Commands/Laws.antt =====
-- How the commands of src/main.cpp use the command registry.
use pseudo_fs.Common.{
  ℕ, ◌≡◌, refl, Bool, true, Option, List, [], ◌∷◌, ◌++◌, map, inl, inr, Bool-cases,
}
use pseudo_fs.Common.CStrings.{CString, codes, str_eq}
use pseudo_fs.Common.Lists.{All}
use pseudo_fs.Vfs.{IFileSystem}
use pseudo_fs.Shell.Registry.{LogEntry, Shell, Captured, CmdEntry, is_one_of, clear_log}
use pseudo_fs.Shell.Replays.{IsHonest}
use pseudo_fs.Commands.{Command, plain}
use pseudo_fs.Commands.Table.{
  PlainCommand, plain_entry, command, account_commands, listing_commands, file_commands,
  meta_commands, help_cmd, log_cmd, replay_cmd, exit_cmd, history_cmd, show_log, cli_commands,
}

module _ {F : Type 0} where
  plain-IsHonest :
      (name usage : CString) (command : Command F)
      → IsHonest F (record { name = name; handler = plain command; usage = usage })
  plain-IsHonest name usage command = record {
    at_state = λ usages r r' st args out same. refl;
    alone = λ other usages r r' st args out. refl;
    keeps = λ logged captured st args out. (refl, refl, refl);
    under = λ q captured st args out replays h. h;
  }

  help-IsHonest :
      (usage : CString)
      → IsHonest F (record { name = codes "help"; handler = help_cmd; usage = usage })
  unfolding help_cmd is_one_of str_eq
  help-IsHonest usage = record {
    at_state = λ usages r r' st args out same. refl;
    alone = λ other usages r r' st args out. refl;
    keeps = λ logged captured st args out. cc;
    under = λ q captured st args out replays h. h;
  }

  exit-IsHonest :
      (usage : CString)
      → IsHonest F (record { name = codes "exit"; handler = exit_cmd; usage = usage })
  unfolding exit_cmd is_one_of str_eq
  exit-IsHonest usage = record {
    at_state = λ usages r r' st args out same. refl;
    alone = λ other usages r r' st args out. refl;
    keeps = λ logged captured st args out. cc;
    under = λ q captured st args out replays h. h;
  }

  history-IsHonest :
      (history : List CString) (usage : CString)
      → IsHonest F (record { name = codes "history"; handler = history_cmd history; usage = usage })
  unfolding history_cmd is_one_of str_eq
  history-IsHonest history usage = record {
    at_state = λ usages r r' st args out same. refl;
    alone = λ other usages r r' st args out. refl;
    keeps = λ logged captured st args out. cc;
    under = λ q captured st args out replays h. h;
  }

  replay-IsHonest :
      (usage : CString)
      → IsHonest F (record { name = codes "replay"; handler = replay_cmd; usage = usage })
  unfolding replay_cmd is_one_of str_eq
  replay-IsHonest usage = record {
    at_state = λ usages r r' st args out same. rw same refl;
    alone = λ other usages r r' st args out. cc;
    keeps = λ logged captured st args out. cc;
    under = λ q captured st args out replays h. replays st h;
  }

  log_cmd-same :
      (stamp : ℕ → Option CString) (captured captured' : Captured F) (st : Shell F)
      (args : List CString) (out : CString)
      → log_cmd stamp captured st args out ≡ log_cmd stamp captured' st args out
  unfolding log_cmd
  log_cmd-same stamp captured captured' st [] out = refl
  log_cmd-same stamp captured captured' st (a ∷ args) out = refl

  show_log-state :
      (stamp : ℕ → Option CString) (st : Shell F) (log : List LogEntry)
      → (show_log stamp st log).2 ≡ st
  show_log-state stamp st [] = refl
  show_log-state stamp st (e ∷ es) = refl

  log_cmd-All :
      (q : LogEntry → Bool) (stamp : ℕ → Option CString) (captured : Captured F) (st : Shell F)
      (args : List CString) (out : CString)
      → All (λ x. q x ≡ true) st.log
      → All (λ x. q x ≡ true) (log_cmd stamp captured st args out).2.log
  unfolding log_cmd clear_log
  log_cmd-All q stamp captured st [] out h = rw (show_log-state stamp st st.log) h
  log_cmd-All q stamp captured st (a ∷ args) out h = elim (Bool-cases (str_eq a (codes "clear"))) [
    | inl e ↦ rw e tt
    | inr e ↦ rw (e, show_log-state stamp st st.log) h
  ]

  log-IsHonest :
      (stamp : ℕ → Option CString) (usage : CString)
      → IsHonest F (record { name = codes "log"; handler = log_cmd stamp; usage = usage })
  unfolding is_one_of str_eq
  log-IsHonest stamp usage = record {
    at_state = λ usages r r' st args out same. log_cmd-same stamp _ _ st args out;
    alone = λ other usages r r' st args out. log_cmd-same stamp _ _ st args out;
    keeps = λ logged captured st args out. cc;
    under = λ q captured st args out replays h. log_cmd-All q stamp captured st args out h;
  }

  plain_entries-IsHonest :
      (commands : List (PlainCommand F)) (others : List (CmdEntry F))
      → All (IsHonest F) others
      → All (IsHonest F) (map plain_entry commands ++ others)
  plain_entries-IsHonest [] others h = h
  plain_entries-IsHonest ((name, handler, form, what) ∷ commands) others h =
      (plain-IsHonest name _ handler, plain_entries-IsHonest commands others h)

  module _ (fs : IFileSystem F) (when stamp : ℕ → Option CString) (history : List CString) where
    -- Every command of the table uses the registry so.
    pub cli_commands-IsHonest : All (IsHonest F) (cli_commands fs when stamp history)
    unfolding cli_commands
    cli_commands-IsHonest =
        plain_entries-IsHonest
          (account_commands fs when stamp
            ++ (listing_commands fs when stamp ++ file_commands fs when stamp))
          (meta_commands fs when stamp
            ++ command (codes "history") (history_cmd history) (codes "history")
                (codes "show command history")
              ∷ [])
          (
            help-IsHonest _,
            (
              log-IsHonest stamp _,
              (replay-IsHonest _, (exit-IsHonest _, (history-IsHonest history _, tt))),
            ),
          )
