-- ===== src/Shell/Glob.antt =====
-- src/shell/command_registry.cpp: wildcards in the arguments, `has_glob`, `glob_match` and
-- `expand_globs`.
use pseudo_fs.Common.{
  ℕ, zero, suc, ◌+◌, ◌*◌, Bool, true, false, not, ◌&&◌, ◌||◌, Option, none, some, List, [], ◌∷◌,
  ◌++◌, ltb, ◌==◌, if◌then◌else◌,
}
use pseudo_fs.Common.CStrings.{CString, codes, str_eq}
use pseudo_fs.Common.Lists.{length}
use pseudo_fs.Common.Text.{split_last}
use pseudo_fs.UnixFs.Stat.{VfsEntry}
use pseudo_fs.Vfs.{IFileSystem}
use pseudo_fs.Shell.Tokens.{Token}

abbrev pub star : ℕ
star = 42

abbrev pub question : ℕ
question = 63

unfoldable pub has_glob : CString → Bool
has_glob [] = false
has_glob (c ∷ s) = (c == star || c == question) || has_glob s

-- What `star + 1` and `star_s` point at, when `star` is set.
abbrev pub Back : Type 0
Back = Option (CString × CString)

-- The last loop and the test behind it.
unfoldable pub only_stars : CString → Bool
only_stars [] = true
only_stars (c ∷ p) = c == star && only_stars p

-- The branches for a mismatch. `star_s` is never behind the end of the text.
abbrev pub fall_back : (CString → CString → Back → Bool) → Back → Bool
fall_back loop none = false
fall_back loop (some (p, [])) = false
fall_back loop (some (p, x ∷ s)) = loop p s (some (p, s))

unfoldable pub match_loop : ℕ → CString → CString → Back → Bool
unfolding only_stars
match_loop zero p s back = false
match_loop (suc fuel) p [] back = only_stars p
match_loop (suc fuel) [] (d ∷ s) back = fall_back (match_loop fuel) back
match_loop (suc fuel) (c ∷ p) (d ∷ s) back =
    let onward = match_loop fuel p s back in
    let at_star = match_loop fuel p (d ∷ s) (some (p, d ∷ s)) in
    if c == question || c == d
    then onward
    else if c == star
    then at_star
    else fall_back (match_loop fuel) back

-- Each pass takes a character of the pattern, or the last star one more of the text.
unfoldable pub glob_match : CString → CString → Bool
unfolding match_loop
glob_match p s = match_loop ((length s + 1) * (length p + 1)) p s none

-- `operator<` of std::string.
unfoldable pub str_lt : CString → CString → Bool
str_lt [] [] = false
str_lt [] (d ∷ t) = true
str_lt (c ∷ s) [] = false
str_lt (c ∷ s) (d ∷ t) = ltb c d || (c == d && str_lt s t)

unfoldable pub insert_sorted : CString → List CString → List CString
insert_sorted s [] = s ∷ []
insert_sorted s (t ∷ ts) =
    let rest = insert_sorted s ts in if str_lt t s then t ∷ rest else s ∷ t ∷ ts

-- `std::sort`; equal strings are alike, so the algorithm does not show.
unfoldable pub sort_strings : List CString → List CString
unfolding insert_sorted
sort_strings [] = []
sort_strings (s ∷ ss) = insert_sorted s (sort_strings ss)

abbrev pub is_dots : CString → Bool
is_dots name = str_eq name (codes ".") || str_eq name (codes "..")

abbrev pub in_dir : CString → CString → CString
in_dir [] name = name
in_dir (c ∷ dir) name = ((c ∷ dir) ++ codes "/") ++ name

unfoldable pub glob_names : CString → CString → List VfsEntry → List CString
unfolding glob_match
glob_names dir pat [] = []
glob_names dir pat (e ∷ es) =
    let rest = glob_names dir pat es in
    if is_dots e.name
    then rest
    else if glob_match pat e.name
    then in_dir dir e.name ∷ rest
    else rest

abbrev pub or_whole : CString → Option (CString × CString) → CString × CString
or_whole text none = ([], text)
or_whole text (some parts) = parts

-- The directory and the last segment of a path; with no slash the directory is empty.
abbrev pub dir_and_pattern : CString → CString × CString
dir_and_pattern text = or_whole text (split_last b'/' text)

abbrev pub or_literal : CString → List CString → List CString
or_literal text [] = text ∷ []
or_literal text (m ∷ ms) = sort_strings (m ∷ ms)

abbrev pub listed_names : CString → CString → Option (List VfsEntry) → List CString
listed_names dir pat none = []
listed_names dir pat (some entries) = glob_names dir pat entries

module _ {F : Type 0} (fs : IFileSystem F) where
  abbrev pub expand_listed :
      CString → CString × CString → Option (List VfsEntry) × F → List CString × F
  expand_listed text (dir, pat) (entries, u) = (or_literal text (listed_names dir pat entries), u)

  abbrev pub expand_in : F → CString → CString × CString → List CString × F
  expand_in u text parts = expand_listed text parts (fs.fs_ls u parts.0)

  abbrev pub expand_token : F → Token → List CString × F
  expand_token u t =
      if t.quoted || not (has_glob t.text)
      then (t.text ∷ [], u)
      else expand_in u t.text (dir_and_pattern t.text)

  unfoldable pub expand_globs : F → List Token → List CString × F
  unfolding has_glob split_last glob_names sort_strings
  expand_globs u [] = ([], u)
  expand_globs u (t ∷ ts) =
      let (here, u1) = expand_token u t in let (rest, u2) = expand_globs u1 ts in (here ++ rest, u2)
