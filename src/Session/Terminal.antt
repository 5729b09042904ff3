-- ===== src/Session/Terminal.antt =====
-- src/main.cpp: `read_char`, `read_line` and the pager `cli_page`. The buffer behind `read_char` is
-- not modelled: each call takes the next of what the input gives.
use pseudo_fs.Common.{
  ℕ, zero, suc, ◌+◌, min, Bool, true, false, not, ◌||◌, List, [], ◌∷◌, ◌++◌, ◌==◌, if◌then◌else◌,
}
use pseudo_fs.Common.CStrings.{CString, codes}
use pseudo_fs.Common.Lists.{length}
use pseudo_fs.Common.Text.{to_string}

-- A byte; the end of the input for now, as a terminal gives it; a read that Ctrl+C interrupts, or
-- another signal; an error.
pub data Input : Type 0 where
  byte : ℕ → Input
  eof : Input
  interrupt : Input
  signal : Input
  failure : Input

pub data LineResult : Type 0 where
  line : LineResult
  closed : LineResult
  canceled : LineResult

abbrev pub at_end : CString → LineResult
at_end [] = closed
at_end (c ∷ out) = line

-- The result, the line, and the input that is left.
unfoldable pub read_line : List Input → CString → LineResult × CString × List Input
read_line [] out = (at_end out, out, [])
read_line (byte c ∷ input) out =
    let rest = read_line input (if c == b'\r' then out else out ++ c ∷ []) in
    if c == b'\n' then (line, out, input) else rest
read_line (eof ∷ input) out = (at_end out, out, input)
read_line (interrupt ∷ input) out = (canceled, out, input)
read_line (signal ∷ input) out = read_line input out
read_line (failure ∷ input) out = (closed, out, input)

-- The loop of the pager over the content: its lines, without carriage returns.
unfoldable pub page_lines : CString → CString → List CString
page_lines cur [] = cur ∷ []
page_lines cur (c ∷ s) =
    let ended = page_lines [] s in
    let longer = page_lines (if c == b'\r' then cur else cur ++ c ∷ []) s in
    if c == b'\n' then cur ∷ ended else longer

-- An empty line at the end is left out, unless it is the only one.
abbrev pub drop_empty_last : List CString → List CString
drop_empty_last [] = []
drop_empty_last (l ∷ []) = l ∷ []
drop_empty_last (l ∷ [] ∷ []) = l ∷ []
drop_empty_last (l ∷ m ∷ ls) = l ∷ drop_empty_last (m ∷ ls)

-- The rest of the line that the key stands in.
unfoldable pub swallow_line : List Input → List Input
swallow_line [] = []
swallow_line (byte c ∷ input) = let rest = swallow_line input in if c == b'\n' then input else rest
swallow_line (other ∷ input) = input

abbrev pub erase : CString
erase = b'\r' ∷ 27 ∷ codes "[K"

abbrev pub more_prompt : ℕ → ℕ → CString
more_prompt shown total =
    27 ∷ codes "[7m--More-- ("
    ++ (to_string shown
        ++ (codes "/"
            ++ (to_string total ++ (codes ") [Enter=more, q=quit]" ++ (27 ∷ codes "[0m")))))

-- What a key does: the input behind it, and whether the pager goes on. Without a key it ends.
abbrev pub after_key : List Input → List Input × Bool
after_key [] = ([], false)
after_key (byte c ∷ input) =
    ((if c == b'\n' then input else swallow_line input), not (c == b'q' || c == b'Q'))
after_key (other ∷ input) = (input, false)

-- What `printf` prints of a string: its text before the first NUL.
unfoldable pub until_nul : CString → CString
until_nul [] = []
until_nul (c ∷ s) = let rest = until_nul s in if c == 0 then [] else c ∷ rest

-- At most n lines, and those behind them.
unfoldable pub print_lines : ℕ → List CString → CString × List CString
unfolding until_nul
print_lines zero ls = ([], ls)
print_lines (suc n) [] = ([], [])
print_lines (suc n) (l ∷ ls) =
    let (text, rest) = print_lines n ls in (until_nul l ++ b'\n' ∷ text, rest)

-- Behind a page: no prompt if it is the last, else the key decides about the pages that follow.
abbrev pub turn_page :
    CString
    → CString
    → List Input
    → List Input × Bool
    → CString × List Input
    → List CString
    → CString × List Input
turn_page text asked input (input', on) (text', input'') [] = (text, input)
turn_page text asked input (input', on) (text', input'') (l ∷ more) =
    if on then (asked ++ text', input'') else (asked, input')

-- The loop over the pages; `shown` lines are above, and each pass shows at least one.
unfoldable pub show_pages : ℕ → ℕ → ℕ → List CString → List Input → CString × List Input
unfolding to_string swallow_line print_lines
show_pages zero total shown ls input = ([], input)
show_pages (suc fuel) total shown ls input =
    let (text, rest) = print_lines 20 ls in
    turn_page text (text ++ (more_prompt (min (shown + 20) total) total ++ erase)) input
      (after_key input) (show_pages fuel total (shown + 20) rest (after_key input).0) rest

abbrev pub with_newline : CString → CString
with_newline [] = []
with_newline (c ∷ []) = if c == b'\n' then c ∷ [] else c ∷ b'\n' ∷ []
with_newline (c ∷ d ∷ s) = c ∷ with_newline (d ∷ s)

unfoldable pub cli_page : Bool → CString → List Input → CString × List Input
unfolding page_lines show_pages
cli_page false content input = (with_newline content, input)
cli_page true content input =
    let ls = drop_empty_last (page_lines [] content) in
    show_pages (length ls) (length ls) 0 ls input
