-- ===== src/Shell/Wildcards.antt =====
-- Where `expand_globs` of src/shell/command_registry.cpp looks for names.
use pseudo_fs.Common.{ℕ, ◌≡◌, refl, ap, ◌∙◌, true, false, none, some, List, [], ◌∷◌, ◌==◌, arith}
use pseudo_fs.Common.CStrings.{CString}
use pseudo_fs.Common.Text.{split_last, Without}
use pseudo_fs.Vfs.{IFileSystem}
use pseudo_fs.UnixFs.Stat.{VfsEntry}
use pseudo_fs.Shell.Glob.{
  has_glob, or_whole, dir_and_pattern, expand_listed, expand_in, expand_token, glob_names,
  sort_strings, or_literal,
}

split_last-Without : (c : ℕ) (s : CString) → Without c s → split_last c s ≡ none
unfolding split_last
split_last-Without c [] h = refl
split_last-Without c (x ∷ s) (e, h) = rw (split_last-Without c s h, e) refl

split_last_front : (c : ℕ) (s : CString) → Without c s → split_last c (c ∷ s) ≡ some ([], s)
unfolding split_last
split_last_front c s h =
    let e : (c == c) ≡ true = ground arith in rw (split_last-Without c s h, e) refl

has_glob_slash : (s : CString) → has_glob (b'/' ∷ s) ≡ has_glob s
unfolding has_glob
has_glob_slash s = refl

-- A pattern in the root directory, as in `/*.txt`, is looked for in the current directory: if names
-- there match, an argument that is not in quotes is replaced by the same names as without the slash.
pub expand_token-root :
    {F : Type 0} (fs : IFileSystem F) (u u' : F) (pat m : CString) (ms : List CString)
    (entries : List VfsEntry)
    → Without b'/' pat
    → has_glob pat ≡ true
    → fs.fs_ls u [] ≡ (some entries, u')
    → glob_names [] pat entries ≡ m ∷ ms
    → (expand_token fs u (record { text = b'/' ∷ pat; quoted = false })
        ≡ (sort_strings (m ∷ ms), u'))
      × (expand_token fs u (record { text = pat; quoted = false }) ≡ (sort_strings (m ∷ ms), u'))
expand_token-root fs u u' pat m ms entries plain glob listed matched =
    let front : dir_and_pattern (b'/' ∷ pat) ≡ ([], pat) =
      ap (or_whole (b'/' ∷ pat)) (split_last_front b'/' pat plain) in
    let whole : dir_and_pattern pat ≡ ([], pat) =
      ap (or_whole pat) (split_last-Without b'/' pat plain) in
    let there : (text : CString) → expand_in fs u text ([], pat) ≡ (sort_strings (m ∷ ms), u') =
      λ text.
        ap (expand_listed fs text ([], pat)) listed
        ∙ ap (λ names. (or_literal text names, u')) matched in
    (
      rw (has_glob_slash pat ∙ glob) (ap (expand_in fs u (b'/' ∷ pat)) front ∙ there (b'/' ∷ pat)),
      rw glob (ap (expand_in fs u pat) whole ∙ there pat),
    )
