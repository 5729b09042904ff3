-- ===== src/Session/Ends.antt =====
-- The loop of `main` in src/main.cpp comes to an end, or to a command that does not.
use pseudo_fs.Common.{
  ℕ, zero, suc, ◌+◌, ◌-◌, ◌⊎◌, ◌≤◌, ◌<◌, min, ◌≡◌, refl, Bool, true, false, Option, none, some,
  List, [], ◌∷◌, ◌++◌, ◌==◌, if◌then◌else◌, arith, inl, inr, Bool-cases,
}
use pseudo_fs.Common.CStrings.{CString, codes, str_eq}
use pseudo_fs.Common.Int.{ℤ}
use pseudo_fs.Common.Lists.{length}
use pseudo_fs.Vfs.{IFileSystem}
use pseudo_fs.Shell.Registry.{Shell}
use pseudo_fs.Commands.Files.{pager_prefix}
use pseudo_fs.Session.{
  Session, LoopEnd, ended, stuck, strip_prefix, show_output, on_output, on_line, cli_loop,
}
use pseudo_fs.Session.Terminal.{
  more_prompt, erase, turn_page, Input, byte, eof, interrupt, signal, failure, LineResult, line,
  closed, canceled, read_line, swallow_line, after_key, print_lines, show_pages, cli_page,
  page_lines, drop_empty_last,
}

-- Reading a line takes something, if there is anything.
length-read_line :
    (input : List Input) (out : CString) → length (read_line input out).2 ≤ length input - 1
unfolding read_line
length-read_line [] out = omega arith
length-read_line (byte c ∷ input) out = elim (Bool-cases (c == b'\n')) [
  | inl e ↦ rw e (omega arith)
  | inr e ↦ rw e (omega (arith, length-read_line input (if c == b'\r' then out else out ++ c ∷ [])))
]
length-read_line (eof ∷ input) out = omega arith
length-read_line (interrupt ∷ input) out = omega arith
length-read_line (signal ∷ input) out = omega (arith, length-read_line input out)
length-read_line (failure ∷ input) out = omega arith

read_line_end : (read_line [] []).0 ≡ closed
unfolding read_line
read_line_end = refl

length-swallow_line : (input : List Input) → length (swallow_line input) ≤ length input
unfolding swallow_line
length-swallow_line [] = omega arith
length-swallow_line (byte c ∷ input) = elim (Bool-cases (c == b'\n')) [
  | inl e ↦ rw e (omega arith)
  | inr e ↦ rw e (omega (arith, length-swallow_line input))
]
length-swallow_line (eof ∷ input) = omega arith
length-swallow_line (interrupt ∷ input) = omega arith
length-swallow_line (signal ∷ input) = omega arith
length-swallow_line (failure ∷ input) = omega arith

length-after_key : (input : List Input) → length (after_key input).0 ≤ length input
length-after_key [] = omega arith
length-after_key (byte c ∷ input) = elim (Bool-cases (c == b'\n')) [
  | inl e ↦ rw e (omega arith)
  | inr e ↦ rw e (omega (arith, length-swallow_line input))
]
length-after_key (eof ∷ input) = omega arith
length-after_key (interrupt ∷ input) = omega arith
length-after_key (signal ∷ input) = omega arith
length-after_key (failure ∷ input) = omega arith

length-turn_page :
    (n : ℕ) (text asked : CString) (input : List Input) (key : List Input × Bool)
    (next : CString × List Input) (rest : List CString)
    → length input ≤ n
    → length key.0 ≤ n
    → length next.1 ≤ n
    → length (turn_page text asked input key next rest).1 ≤ n
length-turn_page n text asked input (is, on) (t, is') [] p q r = p
length-turn_page n text asked input (is, true) (t, is') (l ∷ more) p q r = r
length-turn_page n text asked input (is, false) (t, is') (l ∷ more) p q r = q

length-show_pages :
    (fuel total shown : ℕ) (ls : List CString) (input : List Input)
    → length (show_pages fuel total shown ls input).1 ≤ length input
unfolding show_pages
length-show_pages zero total shown ls input = omega arith
length-show_pages (suc fuel) total shown ls input =
    let key = length-after_key input in
    let below =
      length-show_pages fuel total (shown + 20) (print_lines 20 ls).1 (after_key input).0 in
    length-turn_page (length input) (print_lines 20 ls).0
      ((print_lines 20 ls).0 ++ (more_prompt (min (shown + 20) total) total ++ erase)) input
      (after_key input)
      (show_pages fuel total (shown + 20) (print_lines 20 ls).1 (after_key input).0)
      (print_lines 20 ls).1 (omega arith) key (omega arith)

length-cli_page :
    (tty : Bool) (content : CString) (input : List Input)
    → length (cli_page tty content input).1 ≤ length input
unfolding cli_page
length-cli_page false content input = omega arith
length-cli_page true content input =
    let ls = drop_empty_last (page_lines [] content) in
    length-show_pages (length ls) (length ls) 0 ls input

length-show_output :
    (tty : Bool) (rc : ℤ) (output : CString) (content : Option CString) (input : List Input)
    → length (show_output tty rc output content input).1 ≤ length input
length-show_output tty rc output none input = omega arith
length-show_output tty rc output (some content) input = length-cli_page tty content input

-- The loop has ended and no command hangs, or it stands in a command that does.
abbrev pub Settles : {F : Type 0} → LoopEnd F → Type 0
Settles {F = F} r =
    (s : Session F) × ((r ≡ ended s × s.shell.hung ≡ false) ⊎ (r ≡ stuck s × s.shell.hung ≡ true))

module _ {F : Type 0} (fs : IFileSystem F) (when stamp : ℕ → Option CString) (now nested : ℕ)
    (tty : Bool) where
  on_output-Settles :
      (n : ℕ) (loop : Session F → List Input → LoopEnd F)
      → ((s : Session F) (is : List Input)
          → length is < n
          → s.shell.hung ≡ false
          → Settles (loop s is))
      → (s : Session F) (input : List Input) (r : ℤ × CString × Shell F) → length input < n
      → Settles (on_output fs when stamp now nested tty loop s input r)
  on_output-Settles n loop ends s input (rc, output, st) p = elim (Bool-cases st.hung) [
    | inl h ↦ (record s { shell = st }, inr (rw h refl, h))
    | inr h ↦ elim (Bool-cases (str_eq output (codes "__EXIT__"))) [
      | inl e ↦ (record s { shell = st }, inl (rw (h, e) refl, h))
      | inr e ↦
          let shorter = length-show_output tty rc output (strip_prefix pager_prefix output) input in
          rw (h, e) (ends _ _ (omega (arith, shorter)) refl)
    ]
  ]

  on_line-Settles :
      (n : ℕ) (loop : Session F → List Input → LoopEnd F)
      → ((s : Session F) (is : List Input)
          → length is < n
          → s.shell.hung ≡ false
          → Settles (loop s is))
      → (s : Session F) (r : LineResult × CString × List Input) → s.shell.hung ≡ false
      → (r.0 ≡ closed) ⊎ (length r.2 < n)
      → Settles (on_line fs when stamp now nested tty loop s r)
  on_line-Settles n loop ends s (closed, text, input) h p = (s, inl (refl, h))
  on_line-Settles n loop ends s (canceled, text, input) h (inr p) = ends _ input p h
  on_line-Settles n loop ends s (canceled, text, input) h (inl e) = absurd (cc)
  on_line-Settles n loop ends s (line, [], input) h (inr p) = ends s input p h
  on_line-Settles n loop ends s (line, c ∷ text, input) h (inr p) =
      on_output-Settles n loop ends (record s { history = s.history ++ (c ∷ text) ∷ [] }) input _ p
  on_line-Settles n loop ends s (line, [], input) h (inl e) = absurd (cc)
  on_line-Settles n loop ends s (line, c ∷ text, input) h (inl e) = absurd (cc)

  -- The main loop makes at most one pass for each part of the input and one more. Within that many
  -- passes, from a state in which no command hangs, it has ended with none that does, or it stands
  -- in a command that has not come back within its own bounds.
  pub cli_loop-Settles :
      (fuel : ℕ) (s : Session F) (input : List Input)
      → s.shell.hung ≡ false
      → length input < fuel
      → Settles (cli_loop fs when stamp now nested tty fuel s input)
  unfolding cli_loop
  cli_loop-Settles zero s input h p = absurd (omega arith)
  cli_loop-Settles (suc fuel) s [] h p =
      on_line-Settles fuel (cli_loop fs when stamp now nested tty fuel)
        (λ t is q k. cli_loop-Settles fuel t is k q) _ (read_line [] []) h (inl read_line_end)
  cli_loop-Settles (suc fuel) s (x ∷ input) h p =
      let shorter = length-read_line (x ∷ input) [] in
      on_line-Settles fuel (cli_loop fs when stamp now nested tty fuel)
        (λ t is q k. cli_loop-Settles fuel t is k q) _ (read_line (x ∷ input) []) h
        (inr (omega arith))
