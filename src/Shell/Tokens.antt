-- ===== src/Shell/Tokens.antt =====
-- src/shell/command_registry.cpp: `tokenize_ex` and `tokenize`. What is left of the line stands for
-- the index into it.
use pseudo_fs.Common.{
  ℕ, zero, suc, Bool, true, false, ◌||◌, List, [], ◌∷◌, map, ◌==◌, if◌then◌else◌,
}
use pseudo_fs.Common.CStrings.{CString}
use pseudo_fs.Common.Lists.{length}

pub record Token : Type 0 where
  pub text : CString
  pub quoted : Bool

abbrev pub quote : ℕ
quote = 34

abbrev pub backslash : ℕ
backslash = 92

abbrev pub is_blank : ℕ → Bool
is_blank c = c == 32 || c == 9

unfoldable pub skip_blanks : CString → CString
skip_blanks [] = []
skip_blanks (c ∷ s) = let rest = skip_blanks s in if is_blank c then rest else c ∷ s

-- The switch on the character behind a backslash.
abbrev pub unescape : ℕ → ℕ
unescape c = if c == b'n' then b'\n' else if c == b't' then b'\t' else c

-- The text up to the closing quote, and what is behind it.
unfoldable pub quoted_text : CString → CString × CString
quoted_text [] = ([], [])
quoted_text (c ∷ []) = if c == quote then ([], []) else (c ∷ [], [])
quoted_text (c ∷ d ∷ s) =
    let escaped : CString × CString = let (t, r) = quoted_text s in (unescape d ∷ t, r) in
    let plain : CString × CString = let (t, r) = quoted_text (d ∷ s) in (c ∷ t, r) in
    if c == quote then ([], d ∷ s) else if c == backslash then escaped else plain

-- The text up to the next blank, and the rest from there.
unfoldable pub plain_text : CString → CString × CString
plain_text [] = ([], [])
plain_text (c ∷ s) =
    let more : CString × CString = let (t, r) = plain_text s in (c ∷ t, r) in
    if is_blank c then ([], c ∷ s) else more

-- The token at a character that is no blank, and the rest.
abbrev pub next_token : ℕ → CString → Token × CString
next_token c s =
    let (inside, behind) = quoted_text s in
    let (word, rest) = plain_text (c ∷ s) in
    if c == quote
    then (record { text = inside; quoted = true }, behind)
    else (record { text = word; quoted = false }, rest)

abbrev pub take_token : (CString → List Token) → CString → List Token
take_token loop [] = []
take_token loop (c ∷ rest) = let (token, behind) = next_token c rest in token ∷ loop behind

-- The outer loop; each pass takes at least one character of the line.
unfoldable pub tokens_loop : ℕ → CString → List Token
unfolding skip_blanks quoted_text plain_text
tokens_loop zero s = []
tokens_loop (suc fuel) s = take_token (tokens_loop fuel) (skip_blanks s)

unfoldable pub tokenize_ex : CString → List Token
unfolding tokens_loop
tokenize_ex cmdline = tokens_loop (suc (length cmdline)) cmdline

unfoldable pub tokenize : CString → List CString
unfolding tokenize_ex
tokenize cmdline = map (λ t. t.text) (tokenize_ex cmdline)
