-- ===== src/Commands/Table.antt =====
-- src/main.cpp: help, log, replay, exit and history, and the table that `register_commands` fills.
-- `stamp` is the local time of an entry of the log as `strftime` writes it.
use pseudo_fs.Common.{ℕ, ◌+◌, ◌-◌, Option, List, [], ◌∷◌, ◌++◌, map, if◌then◌else◌}
use pseudo_fs.Common.CStrings.{CString, codes, str_eq, take}
use pseudo_fs.Common.Int.{pos}
use pseudo_fs.Common.Lists.{length}
use pseudo_fs.Common.Text.{to_string, strip_newlines}
use pseudo_fs.Vfs.{IFileSystem}
use pseudo_fs.Shell.Registry.{
  Outcome, returned, Shell, Handler, CmdEntry, LogEntry, clear_log, register_cmd,
}
use pseudo_fs.Commands.{Command, plain}
use pseudo_fs.Commands.Accounts.{login_cmd, logout_cmd, useradd_cmd, passwd_cmd, su_cmd}
use pseudo_fs.Commands.Dirs.{
  format_cmd, mkdir_cmd, rmdir_cmd, cd_cmd, pwd_cmd, touch_cmd, rm_cmd, chmod_cmd, ln_cmd,
  readlink_cmd, disk_cmd,
}
use pseudo_fs.Commands.Descriptors.{open_cmd, close_cmd, read_cmd, write_cmd}
use pseudo_fs.Commands.Files.{more_cmd, cat_cmd, cp_cmd, mv_cmd}
use pseudo_fs.Commands.Columns.{pad_left, spaces, when_text, or_text}
use pseudo_fs.Commands.Details.{ls_cmd, ll_cmd, stat_cmd}
use pseudo_fs.Commands.Trees.{find_cmd, tree_cmd}

-- A name, the handler, and the two parts of the usage.
abbrev pub PlainCommand : Type 0 → Type 0
PlainCommand F = CString × Command F × CString × CString

unfoldable pub usage_lines : List (CString × CString) → CString
usage_lines [] = []
usage_lines ((name, usage) ∷ rest) = usage ++ b'\n' ∷ usage_lines rest

unfoldable pub log_lines : (ℕ → Option CString) → ℕ → List LogEntry → CString
unfolding to_string
log_lines stamp i [] = []
log_lines stamp i (e ∷ es) =
    take 39
      (pad_left 3 (to_string (i + 1)) ++ (codes "  " ++ (when_text (stamp e.time) ++ codes "  ")))
    ++ (e.user
        ++ (spaces (8 - length e.user)
            ++ (codes "  " ++ (e.cmdline ++ b'\n' ∷ log_lines stamp (i + 1) es))))

unfoldable pub numbered : ℕ → List CString → CString
unfolding to_string
numbered i [] = []
numbered i (line ∷ lines) =
    to_string (i + 1) ++ (codes "  " ++ (line ++ b'\n' ∷ numbered (i + 1) lines))

module _ {F : Type 0} where
  unfoldable pub help_cmd : Handler F
  unfolding usage_lines
  help_cmd captured st args out = (returned (pos 0), usage_lines captured.usages, st)

  abbrev pub show_log : (ℕ → Option CString) → Shell F → List LogEntry → Outcome × CString × Shell F
  show_log stamp st [] = (returned (pos 0), codes "(operation log empty)", st)
  show_log stamp st (e ∷ es) = (returned (pos 0), strip_newlines (log_lines stamp 0 (e ∷ es)), st)

  unfoldable pub log_cmd : (ℕ → Option CString) → Handler F
  unfolding log_lines strip_newlines clear_log
  log_cmd stamp captured st [] out = show_log stamp st st.log
  log_cmd stamp captured st (a ∷ args) out =
      if str_eq a (codes "clear")
      then (returned (pos 0), codes "Operation log cleared.", clear_log st)
      else show_log stamp st st.log

  unfoldable pub replay_cmd : Handler F
  replay_cmd captured st args out =
      let (rc, out', st') = captured.replay st in (returned rc, out', st')

  unfoldable pub exit_cmd : Handler F
  exit_cmd captured st args out = (returned (pos 0), codes "__EXIT__", st)

  -- `history` is that of the main loop when the command runs.
  unfoldable pub history_cmd : List CString → Handler F
  unfolding numbered
  history_cmd history captured st args out =
      (returned (pos 0), or_text (codes "(no history)") (numbered 0 history), st)

  -- A command with its usage, whose dash is the three bytes of U+2014.
  abbrev pub command : CString → Handler F → CString → CString → CmdEntry F
  command name handler form what = record {
    name = name;
    handler = handler;
    usage = form ++ (32 ∷ 226 ∷ 128 ∷ 148 ∷ 32 ∷ what);
  }

  -- The entry of a handler that leaves the registry alone.
  abbrev pub plain_entry : PlainCommand F → CmdEntry F
  plain_entry (name, handler, form, what) = command name (plain handler) form what

  module _ (fs : IFileSystem F) (when stamp : ℕ → Option CString) where
    abbrev pub account_commands : List (PlainCommand F)
    account_commands =
        (codes "login", login_cmd, codes "login <user> <pw>", codes "log in")
        ∷ (codes "logout", logout_cmd, codes "logout", codes "log out")
        ∷ (
          codes "useradd",
          useradd_cmd fs,
          codes "useradd <user> <pw> <uid> <gid>",
          codes "create user (root only)",
        )
        ∷ (codes "passwd", passwd_cmd, codes "passwd <old> <new>", codes "change password")
        ∷ (codes "format", format_cmd fs, codes "format", codes "format the virtual disk")
        ∷ (codes "mkdir", mkdir_cmd fs, codes "mkdir [-p] <path>", codes "create directory")
        ∷ (codes "su", su_cmd, codes "su <uid|name> [pw]", codes "switch user")
        ∷ []

    abbrev pub listing_commands : List (PlainCommand F)
    listing_commands =
        (
          codes "more",
          more_cmd fs,
          codes "more <file>",
          codes "view file content one page at a time",
        )
        ∷ (codes "find", find_cmd fs, codes "find <path> <name>", codes "search files by name")
        ∷ (codes "rmdir", rmdir_cmd fs, codes "rmdir <path>...", codes "remove empty directories")
        ∷ (codes "cd", cd_cmd fs, codes "cd [path]", codes "change directory (~ = home)")
        ∷ (codes "pwd", pwd_cmd fs, codes "pwd", codes "print working directory")
        ∷ (codes "ls", ls_cmd fs, codes "ls [path]...", codes "list directories / files")
        ∷ (
          codes "ll",
          ll_cmd fs when,
          codes "ll [path]...",
          codes "detailed listing (perm/links/owner/size/mtime)",
        )
        ∷ (codes "touch", touch_cmd fs, codes "touch <file>...", codes "create file(s)")
        ∷ (codes "rm", rm_cmd fs, codes "rm [-r] <path>...", codes "delete files or directories")
        ∷ []

    abbrev pub file_commands : List (PlainCommand F)
    file_commands =
        (codes "open", open_cmd fs, codes "open <file> [r|w|rw|a]", codes "open file")
        ∷ (codes "close", close_cmd fs, codes "close <fd>", codes "close file")
        ∷ (codes "read", read_cmd fs, codes "read <fd> [len]", codes "read from file")
        ∷ (codes "write", write_cmd fs, codes "write <fd> <text>", codes "write to file")
        ∷ (codes "cat", cat_cmd fs, codes "cat <file>...", codes "display file content")
        ∷ (codes "stat", stat_cmd fs, codes "stat <path>...", codes "file/directory info")
        ∷ (codes "chmod", chmod_cmd fs, codes "chmod <mode> <path>...", codes "change permissions")
        ∷ (
          codes "ln",
          ln_cmd fs,
          codes "ln [-s] <target> <link>",
          codes "hard link, or -s for soft (symbolic) link",
        )
        ∷ (
          codes "readlink",
          readlink_cmd fs,
          codes "readlink <path>",
          codes "print a symlink's target",
        )
        ∷ (codes "cp", cp_cmd fs, codes "cp <src> <dst>", codes "copy file")
        ∷ (codes "disk", disk_cmd fs, codes "disk", codes "show disk usage")
        ∷ (codes "tree", tree_cmd fs, codes "tree [-d N] [path]", codes "show directory tree")
        ∷ (codes "mv", mv_cmd fs, codes "mv <src> <dst>", codes "move/rename file")
        ∷ []

    abbrev pub meta_commands : List (CmdEntry F)
    meta_commands =
        command (codes "help") help_cmd (codes "help") (codes "list all commands")
        ∷ command (codes "log") (log_cmd stamp) (codes "log [clear]")
            (codes "show (or clear) the operation log")
        ∷ command (codes "replay") replay_cmd (codes "replay")
            (codes "re-run every logged operation in order")
        ∷ command (codes "exit") exit_cmd (codes "exit") (codes "quit PseudoFS")
        ∷ []

    abbrev pub register_commands : List (CmdEntry F)
    register_commands =
        map plain_entry (account_commands ++ (listing_commands ++ file_commands)) ++ meta_commands

    -- The table of the command line mode, with `history` behind the others.
    unfoldable pub cli_commands : List CString → List (CmdEntry F)
    unfolding register_cmd
    cli_commands history = register_cmd register_commands (
        command (codes "history") (history_cmd history) (codes "history")
          (codes "show command history"))
