-- ===== src/Shell/Quoting.antt =====
-- A way to write any list of words as a command line that `tokenize_ex` of
-- src/shell/command_registry.cpp takes apart again.
use pseudo_fs.Common.{
  ℕ, zero, suc, ◌≤◌, ◌<◌, ◌≡◌, refl, ap, ◌∙◌, Bool, true, false, ◌||◌, List, [], ◌∷◌, ◌++◌, ◌==◌,
  if◌then◌else◌, arith, inl, inr, Bool-cases,
}
use pseudo_fs.Common.CStrings.{CString}
use pseudo_fs.Common.Lists.{length, length-append, All}
use pseudo_fs.Shell.Tokens.{
  Token, quote, backslash, is_blank, skip_blanks, quoted_text, plain_text, take_token, tokens_loop,
  tokenize_ex,
}

-- A text between quotes, with a backslash before each quote and backslash, and the rest of the line.
abbrev pub escaped : CString → CString → CString
escaped [] rest = quote ∷ rest
escaped (c ∷ s) rest =
    let tail = escaped s rest in
    if c == quote || c == backslash then backslash ∷ c ∷ tail else c ∷ tail

abbrev pub written : Token → CString → CString
written t rest = if t.quoted then quote ∷ escaped t.text rest else t.text ++ rest

abbrev pub line_end : List Token → CString
line_end [] = []
line_end (t ∷ ts) = b' ' ∷ written t (line_end ts)

-- The words, one space between them.
abbrev pub line_of : List Token → CString
line_of [] = []
line_of (t ∷ ts) = written t (line_end ts)

-- A word with no quotes around it: not empty, no blanks in it, no quote at its start.
abbrev pub IsWord : CString → Type 0
IsWord [] = ⊥
IsWord (c ∷ s) = ((c == quote) ≡ false) × All (λ x. is_blank x ≡ false) (c ∷ s)

abbrev pub IsToken : Token → Type 0
IsToken t = if t.quoted then Unit else IsWord t.text

-- The rest of the line is empty or begins with a blank.
abbrev Ends : CString → Type 0
Ends [] = Unit
Ends (c ∷ s) = is_blank c ≡ true

quoted_text_plain :
    (c : ℕ) (s : CString)
    → (c == quote) ≡ false
    → (c == backslash) ≡ false
    → quoted_text (c ∷ s) ≡ (c ∷ (quoted_text s).0, (quoted_text s).1)
unfolding quoted_text
quoted_text_plain c [] e f = rw e refl
quoted_text_plain c (d ∷ s) e f = rw (e, f) refl

quoted_text_special :
    (c : ℕ) (s : CString)
    → (c == quote || c == backslash) ≡ true
    → quoted_text (backslash ∷ c ∷ s) ≡ (c ∷ (quoted_text s).0, (quoted_text s).1)
unfolding quoted_text
quoted_text_special c s e =
    let n : (c == b'n') ≡ false = ground arith in
    let t : (c == b't') ≡ false = ground arith in rw (n, t) refl

quoted_text-escaped : (s rest : CString) → quoted_text (escaped s rest) ≡ (s, rest)
unfolding quoted_text
quoted_text-escaped [] [] = refl
quoted_text-escaped [] (c ∷ rest) = refl
quoted_text-escaped (c ∷ s) rest = elim (Bool-cases (c == quote || c == backslash)) [
  | inl e ↦ rw (e, quoted_text_special c (escaped s rest) e, quoted_text-escaped s rest) refl
  | inr e ↦
      rw
        (
          e,
          quoted_text_plain c (escaped s rest) (ground arith) (ground arith),
          quoted_text-escaped s rest,
        )
        refl
]

plain_text_lem :
    (s rest : CString)
    → All (λ x. is_blank x ≡ false) s
    → Ends rest
    → plain_text (s ++ rest) ≡ (s, rest)
unfolding plain_text
plain_text_lem [] [] h k = refl
plain_text_lem [] (c ∷ rest) h k = rw k refl
plain_text_lem (c ∷ s) rest (e, h) k = rw (e, plain_text_lem s rest h k) refl

skip_blanks_none : (c : ℕ) (s : CString) → is_blank c ≡ false → skip_blanks (c ∷ s) ≡ c ∷ s
unfolding skip_blanks
skip_blanks_none c s e = rw e refl

-- One pass of the loop takes the token that was written.
tokens_loop-written :
    (fuel : ℕ) (text rest : CString) (quoted : Bool)
    → IsToken (record { text = text; quoted = quoted })
    → Ends rest
    → tokens_loop (suc fuel) (written (record { text = text; quoted = quoted }) rest)
      ≡ record { text = text; quoted = quoted } ∷ tokens_loop fuel rest
unfolding tokens_loop
tokens_loop-written fuel text rest true h k =
    ap (take_token (tokens_loop fuel)) (skip_blanks_none quote (escaped text rest) refl)
    ∙ rw (quoted_text-escaped text rest) refl
tokens_loop-written fuel [] rest false h k = absurd h
tokens_loop-written fuel (c ∷ s) rest false (nq, (e, h)) k =
    ap (take_token (tokens_loop fuel)) (skip_blanks_none c (s ++ rest) e)
    ∙ rw (nq, plain_text_lem (c ∷ s) rest (e, h) k) refl

line_end-Ends : (ts : List Token) → Ends (line_end ts)
line_end-Ends [] = tt
line_end-Ends (t ∷ ts) = refl

length-escaped : (s rest : CString) → length rest ≤ length (escaped s rest)
length-escaped [] rest = omega arith
length-escaped (c ∷ s) rest = elim (Bool-cases (c == quote || c == backslash)) [
  | inl e ↦ rw e (omega (arith, length-escaped s rest))
  | inr e ↦ rw e (omega (arith, length-escaped s rest))
]

length-written :
    (text rest : CString) (quoted : Bool)
    → IsToken (record { text = text; quoted = quoted })
    → length rest < length (written (record { text = text; quoted = quoted }) rest)
length-written text rest true h = omega (arith, length-escaped text rest)
length-written [] rest false h = absurd h
length-written (c ∷ s) rest false h = omega (arith, length-append s rest)

length-line_end : (ts : List Token) → All IsToken ts → length ts ≤ length (line_end ts)
length-line_end [] h = omega arith
length-line_end (t ∷ ts) (w, h) =
    omega (arith, length-line_end ts h, length-written t.text (line_end ts) t.quoted w)

tokens_loop-line_end :
    (fuel : ℕ) (ts : List Token)
    → All IsToken ts
    → length ts < fuel
    → tokens_loop fuel (line_end ts) ≡ ts
unfolding tokens_loop
tokens_loop-line_end zero ts h p = absurd (omega arith)
tokens_loop-line_end (suc fuel) [] h p = refl
tokens_loop-line_end (suc fuel) (t ∷ ts) (w, h) p =
    tokens_loop-written fuel t.text (line_end ts) t.quoted w (line_end-Ends ts)
    ∙ ap (λ r. t ∷ r) (tokens_loop-line_end fuel ts h (omega arith))

-- A line of words, in quotes or not, gives back these words and which of them had quotes. Any text
-- can stand in quotes; without them a word is not empty, has no blank and begins with no quote.
pub tokenize_ex-line_of : (ts : List Token) → All IsToken ts → tokenize_ex (line_of ts) ≡ ts
unfolding tokenize_ex
tokenize_ex-line_of [] h = refl
tokenize_ex-line_of (t ∷ ts) (w, h) =
    tokens_loop-written (length (line_of (t ∷ ts))) t.text (line_end ts) t.quoted w
      (line_end-Ends ts)
    ∙ ap (λ r. t ∷ r)
        (tokens_loop-line_end (length (line_of (t ∷ ts))) ts h
          (omega (arith, length-line_end ts h, length-written t.text (line_end ts) t.quoted w)))
