-- ===== src/Session/Tests.antt =====
-- A session of two lines on the sample engine.
use pseudo_fs.Common.{◌≡◌, refl, false, none, List, [], ◌∷◌, ◌++◌, map, arith}
use pseudo_fs.Common.CStrings.{codes}
use pseudo_fs.UserManager.{init}
use pseudo_fs.Vfs.Sample.{Tape, tape_engine}
use pseudo_fs.Session.{Session, cli_loop, start_shell}
use pseudo_fs.Session.Terminal.{Input, byte, interrupt, line, canceled, read_line, cli_page}
use pseudo_fs.Session.Ends.{Settles, cli_loop-Settles}

abbrev typed : List Input
typed = map byte (codes "pw") ++ interrupt ∷ map byte (codes "pwd\r\nexit\n")

second_line :
    read_line (map byte (codes "pwd\r\nexit\n")) [] ≡ (line, codes "pwd", map byte (codes "exit\n"))
unfolding read_line
second_line = refl

interrupted : (read_line typed []).0 ≡ canceled
unfolding read_line
interrupted = refl

paged : cli_page false (codes "one") typed ≡ (codes "one\n", typed)
unfolding cli_page
paged = refl

abbrev session : Session Tape
session = record {
  shell = start_shell (record { unread = codes "hello"; written = []; room = 64 }) init [];
  history = [];
  printed = [];
}

cli_loop-Settles_example :
    Settles (cli_loop tape_engine (λ t. none) (λ t. none) 9 2 false 20 session typed)
unfolding start_shell
cli_loop-Settles_example =
    cli_loop-Settles tape_engine (λ t. none) (λ t. none) 9 2 false 20 session typed refl
      (omega arith)
