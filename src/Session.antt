-- ===== src/Session.antt =====
-- src/main.cpp: `main` in the command line mode: the start of a session, its loop and its end. The
-- standard input is the list of what `read` gives one after the other; behind its end the input is
-- closed. What is printed is collected.
pub mod Terminal
pub mod Disks
pub mod Ends
mod Tests
use pseudo_fs.Common.{
  ℕ, zero, suc, Bool, true, false, not, ◌&&◌, Option, none, some, List, [], ◌∷◌, ◌++◌,
  if◌then◌else◌,
}
use pseudo_fs.Common.CStrings.{CString, codes, str_eq}
use pseudo_fs.Common.Int.{ℤ, pos}
use pseudo_fs.Common.Lists.{length}
use pseudo_fs.BlockDevice.{BlockDevice, HostFile, save_to_file, load_from_file}
use pseudo_fs.UserManager
use pseudo_fs.UserManager.{UserManager, UserFile}
use pseudo_fs.Vfs.{IFileSystem}
use pseudo_fs.Shell.Registry.{Shell, execute, set_log_path}
use pseudo_fs.Commands.{is_zero}
use pseudo_fs.Commands.Files.{pager_prefix}
use pseudo_fs.Commands.Table.{cli_commands}
use pseudo_fs.Session.Terminal.{
  Input, LineResult, line, closed, canceled, read_line, until_nul, cli_page,
}

-- The variables of the loop; `nested` bounds the calls of `execute` from `replay`.
pub record Session (F : Type 0) : Type 0 where
  pub shell : Shell F
  pub history : List CString
  pub printed : CString

-- How the loop ends: behind its last pass, in a command that does not come back, or not within the
-- fuel of the model.
pub data LoopEnd (F : Type 0) : Type 0 where
  ended : Session F → LoopEnd F
  stuck : Session F → LoopEnd F
  out_of_fuel : LoopEnd F

abbrev pub red : CString → CString
red s = 27 ∷ codes "[31m" ++ (s ++ (27 ∷ codes "[0m\n"))

abbrev pub prompt : CString → CString
prompt s = 27 ∷ codes "[32m" ++ (s ++ (27 ∷ codes "[0m$ "))

-- The text behind the prefix, if it begins with it.
abbrev pub strip_prefix : CString → CString → Option CString
strip_prefix [] s = some s
strip_prefix (c ∷ p) [] = none
strip_prefix (c ∷ p) (d ∷ s) = if str_eq (c ∷ []) (d ∷ []) then strip_prefix p s else none

-- What the loop prints of the output of a command, and the input that the pager leaves.
abbrev pub output_text : ℤ → CString → CString
output_text rc [] = []
output_text rc (c ∷ s) =
    let shown = until_nul (c ∷ s) in if is_zero rc then shown ++ codes "\n" else red shown

abbrev pub show_output : Bool → ℤ → CString → Option CString → List Input → CString × List Input
show_output tty rc output none input = (output_text rc output, input)
show_output tty rc output (some content) input = cli_page tty content input

module _ {F : Type 0} (fs : IFileSystem F) (when stamp : ℕ → Option CString) (now nested : ℕ)
    (tty : Bool) where
  abbrev pub run_line : Session F → CString → ℤ × CString × Shell F
  run_line s input =
      execute fs now (cli_commands fs when stamp (s.history ++ input ∷ [])) nested input s.shell []

  -- One line that was read, and the rest of the loop.
  abbrev pub on_output :
      (Session F → List Input → LoopEnd F)
      → Session F
      → List Input
      → ℤ × CString × Shell F
      → LoopEnd F
  on_output loop s input (rc, output, st) =
      let (text, input') = show_output tty rc output (strip_prefix pager_prefix output) input in
      if st.hung
      then stuck (record s { shell = st })
      else if str_eq output (codes "__EXIT__")
      then ended (record s { shell = st })
      else loop (record s { shell = st; printed = s.printed ++ text }) input'

  abbrev pub on_line :
      (Session F → List Input → LoopEnd F)
      → Session F
      → LineResult × CString × List Input
      → LoopEnd F
  on_line loop s (closed, text, input) = ended s
  on_line loop s (canceled, text, input) =
      loop (record s { printed = s.printed ++ codes "\n" }) input
  on_line loop s (line, [], input) = loop s input
  on_line loop s (line, c ∷ text, input) =
      on_output loop (record s { history = s.history ++ (c ∷ text) ∷ [] }) input
        (run_line s (c ∷ text))

  unfoldable pub cli_loop : ℕ → Session F → List Input → LoopEnd F
  cli_loop zero s input = out_of_fuel
  cli_loop (suc fuel) s input =
      let s' : Session F = record s { printed = s.printed ++ prompt (fs.fs_pwd s.shell.fs) } in
      on_line (cli_loop fuel) s' (read_line input [])

-- Where an engine keeps the device that `main` loads and saves.
pub record Disk (F : Type 0) : Type 0 where
  pub dev : F → BlockDevice
  pub with_dev : F → BlockDevice → F

module _ {F : Type 0} (disk : Disk F) (fs : IFileSystem F) where
  abbrev pub format_unless : ℤ × F → F
  format_unless (rc, u) = if is_zero rc then u else (fs.fs_format u).1

  -- The image is loaded and mounted, or the disk is formatted.
  unfoldable pub start_engine : Bool → Option HostFile → F → F
  start_engine force_format image u =
      let (d, loaded) = load_from_file (disk.dev u) image in
      let u' = disk.with_dev u d in
      let mounted = format_unless (fs.fs_mount u') in
      let formatted = (fs.fs_format u').1 in
      if force_format then (fs.fs_format u).1 else if loaded then mounted else formatted

  -- The end of `main`: the engine and the image that is written.
  unfoldable pub finish : F → F × HostFile
  finish u = let u' = (fs.fs_unmount u).1 in (u', save_to_file (disk.dev u'))

-- The accounts at the start; the session begins as root.
unfoldable pub start_users : Bool → Option UserFile → UserManager
start_users force_format accounts =
    let m = UserManager.init in
    let loaded = if force_format then m else (UserManager.load_from_file m accounts).1 in
    let kept = UserManager.set_persist_path true loaded in
    let saved = if force_format then UserManager.save_to_file kept else kept in
    (UserManager.login_root saved).1

unfoldable pub start_shell : {F : Type 0} → F → UserManager → CString → Shell F
unfolding set_log_path
start_shell u um log_file = set_log_path (record {
  fs = u;
  um = um;
  log = [];
  log_path = false;
  log_file = log_file;
  suppress_log = false;
  hung = false;
})
