-- ===== src/Fat16/NameLaws.antt =====
-- The 8.3 names of src/fs/fat16/fat16_fs.cpp: what `entry_name` reads after `set_dir_entry_name`.
use pseudo_fs.Common.{
  ℕ, zero, suc, ◌<◌, ◌≡◌, ◌≢◌, refl, sym, ap, ap₂, ◌∙◌, [], ◌∷◌, ◌++◌, none, some, true, false,
  ◌==◌, arith,
}
use pseudo_fs.Common.Arrays.{Buffer}
use pseudo_fs.Common.Lists.{All, length}
use pseudo_fs.Common.CStrings.{CString, take, length-take, str_eq}
use pseudo_fs.Fat16.Names.{
  FatDirEntry, upper, to_upper, is_text, field_text, has_ext, entry_name, fill_upper, last_dot,
  set_parts, set_dir_entry_name,
}

-- A byte of a name that is neither a NUL, a space nor a dot.
abbrev pub IsNameByte : ℕ → Type 0
IsNameByte c = (c ≢ 0) × (c ≢ 32) × (c ≢ 46)

upper_text : (c : ℕ) → IsNameByte c → is_text (upper c) ≡ true
unfolding upper
upper_text c (a, b, d) = ground arith

field_text_shift :
    (n : ℕ) (f : Buffer) (i : ℕ) → field_text f (suc i) n ≡ field_text (λ k. f (suc k)) i n
unfolding field_text
field_text_shift zero f i = refl
field_text_shift (suc n) f i = rw (field_text_shift n f (suc i)) refl

-- A field that was filled in reads as what fits of the string, in upper case.
field_text-fill_upper :
    (n : ℕ) (s : CString) → All IsNameByte s → field_text (fill_upper n s) 0 n ≡ to_upper (take n s)
unfolding field_text fill_upper
field_text-fill_upper zero s h = refl
field_text-fill_upper (suc n) [] h = refl
field_text-fill_upper (suc n) (c ∷ s) (h, hs) = rw (upper_text c h) (
    ap (λ t. upper c ∷ t)
      (field_text_shift n (fill_upper (suc n) (c ∷ s)) 0 ∙ field_text-fill_upper n s hs))

last_dot-none : (s : CString) → All IsNameByte s → last_dot s ≡ none
last_dot-none [] h = refl
last_dot-none (c ∷ s) ((a, b, d), hs) =
    let ne : (c == 46) ≡ false = ground arith in rw (last_dot-none s hs, ne) refl

last_dot-some :
    (base ext : CString) → All IsNameByte ext → last_dot (base ++ 46 ∷ ext) ≡ some (base, ext)
last_dot-some [] ext h = rw (last_dot-none ext h) refl
last_dot-some (c ∷ base) ext h = rw (last_dot-some base ext h) refl

not_dots :
    (e : FatDirEntry) (c : ℕ) (s : CString)
    → IsNameByte c
    → set_dir_entry_name e (c ∷ s) ≡ set_parts e (c ∷ s) (last_dot (c ∷ s))
unfolding set_dir_entry_name str_eq
not_dots e c s (a, b, d) = let ne : (c == 46) ≡ false = ground arith in rw ne refl

with_ext :
    (e : FatDirEntry)
    → has_ext e ≡ true
    → entry_name e ≡ field_text e.name 0 8 ++ (46 ∷ field_text e.ext 0 3)
unfolding entry_name
with_ext e h = rw h refl

first_text :
    (n : ℕ) (x : ℕ) (ext : CString) → IsNameByte x → is_text (fill_upper (suc n) (x ∷ ext) 0) ≡ true
unfolding fill_upper
first_text n x ext h = upper_text x h

set_parts-name :
    (e : FatDirEntry) (name base : CString) (x : ℕ) (ext : CString)
    → All IsNameByte base
    → All IsNameByte (x ∷ ext)
    → entry_name (set_parts e name (some (base, x ∷ ext)))
      ≡ to_upper (take 8 base) ++ (46 ∷ to_upper (take 3 (x ∷ ext)))
set_parts-name e name base x ext hb hx =
    with_ext (set_parts e name (some (base, x ∷ ext))) (rw (first_text 2 x ext hx.0) refl)
    ∙ ap₂ (λ s t. s ++ (46 ∷ t)) (field_text-fill_upper 8 base hb)
        (field_text-fill_upper 3 (x ∷ ext) hx)

-- Of a name with a base and an extension of bytes other than NUL, space and dot, or with a base
-- only, a directory entry keeps the first eight bytes of the base and the first three of the
-- extension, in upper case.
pub entry_name-set_dir_entry_name :
    (e : FatDirEntry) (c : ℕ) (base : CString) (x : ℕ) (ext : CString)
    → All IsNameByte (c ∷ base)
    → All IsNameByte (x ∷ ext)
    → (entry_name (set_dir_entry_name e (c ∷ base)) ≡ to_upper (take 8 (c ∷ base)))
      × (entry_name (set_dir_entry_name e (c ∷ (base ++ 46 ∷ x ∷ ext)))
          ≡ to_upper (take 8 (c ∷ base)) ++ (46 ∷ to_upper (take 3 (x ∷ ext))))
unfolding entry_name
entry_name-set_dir_entry_name e c base x ext hb hx = (
  rw (not_dots e c base hb.0, last_dot-none (c ∷ base) hb) (field_text-fill_upper 8 (c ∷ base) hb),
  ap entry_name (
        not_dots e c (base ++ 46 ∷ x ∷ ext) hb.0
        ∙ ap (set_parts e (c ∷ (base ++ 46 ∷ x ∷ ext))) (last_dot-some (c ∷ base) (x ∷ ext) hx))
      ∙ set_parts-name e (c ∷ (base ++ 46 ∷ x ∷ ext)) (c ∷ base) x ext hb hx,
)

upper-length : (s : CString) → length (to_upper s) ≡ length s
upper-length [] = refl
upper-length (c ∷ s) = ap suc (upper-length s)

-- For a name of more than eight bytes without NUL, space and dot, the name of the directory entry
-- that is made for it differs from the upper-case name that is looked for in a directory.
pub entry_name-long :
    (e : FatDirEntry) (name : CString)
    → All IsNameByte name
    → 8 < length name
    → entry_name (set_dir_entry_name e name) ≢ to_upper name
entry_name-long e [] h p same = elim p [ ]
entry_name-long e (c ∷ base) h p same =
    let short = (entry_name-set_dir_entry_name e c base 65 [] h (letter, tt)).0 in
    omega (
      arith,
      ap length (sym short ∙ same),
      upper-length (take 8 (c ∷ base)),
      upper-length (c ∷ base),
      length-take 8 (c ∷ base) (omega arith),
    )
  where
    letter : IsNameByte 65
    letter = ((λ e. omega (arith, e)), (λ e. omega (arith, e)), λ e. omega (arith, e))
