-- ===== src/Commands/Columns.antt =====
-- src/main.cpp: what ls, ll and stat print of an entry, `join_path` and the columns of
-- `append_ll_line`.
use pseudo_fs.Common.{
  ℕ, zero, suc, ◌-◌, ◌^◌, ◌/◌, ◌%◌, ◌+◌, Bool, true, false, Option, none, some, List, [], ◌∷◌, ◌++◌,
  ◌==◌, if◌then◌else◌,
}
use pseudo_fs.Common.CStrings.{CString, codes, str_eq, take}
use pseudo_fs.Common.Int.{ℤ}
use pseudo_fs.Common.Lists.{length}
use pseudo_fs.Common.Text.{to_string}
use pseudo_fs.UserManager.{UserRecord}
use pseudo_fs.UnixFs.Stat.{VfsEntry, FileStat}
use pseudo_fs.Vfs.{type_dir, type_symlink}

abbrev pub is_empty : CString → Bool
is_empty [] = true
is_empty (c ∷ s) = false

abbrev pub or_text : CString → CString → CString
or_text text [] = text
or_text text (c ∷ s) = c ∷ s

abbrev pub join_path : CString → CString → CString
join_path [] name = name
join_path (c ∷ base) name =
    if str_eq (c ∷ base) (codes "/") then b'/' ∷ name else (c ∷ base) ++ b'/' ∷ name

abbrev pub spaces : ℕ → CString
spaces zero = []
spaces (suc n) = b' ' ∷ spaces n

-- `%6u` and `%-8s`
abbrev pub pad_left : ℕ → CString → CString
pad_left n s = spaces (n - length s) ++ s

abbrev pub pad_right : ℕ → CString → CString
pad_right n s = s ++ spaces (n - length s)

abbrev pub more_than_one : List CString → Bool
more_than_one [] = false
more_than_one (a ∷ []) = false
more_than_one (a ∷ b ∷ args) = true

-- No argument stands for the current directory.
abbrev pub targets_of : List CString → List CString
targets_of [] = [] ∷ []
targets_of (a ∷ args) = a ∷ args

abbrev pub shown_target : CString → CString
shown_target tp = or_text (codes ".") tp ++ codes ":\n"

abbrev pub blank_stat : FileStat
blank_stat = record {
  mode = 0;
  uid = 0;
  gid = 0;
  size = 0;
  atime = 0;
  mtime = 0;
  ctime = 0;
  nlink = 0;
  file_type = 0;
}

abbrev pub or_blank : Option FileStat → FileStat
or_blank none = blank_stat
or_blank (some st) = st

-- Characters i to 8 of the nine permission bits.
abbrev pub perm_from : ℕ → ℕ → CString → CString
perm_from mode i [] = []
perm_from mode i (c ∷ s) =
    (if mode / 2 ^ (8 - i) % 2 == 1 then c else b'-') ∷ perm_from mode (i + 1) s

abbrev pub perm_text : ℕ → ℕ → CString
perm_text type mode =
    (if type == type_dir then b'd' else if type == type_symlink then b'l' else b'-')
    ∷ perm_from mode 0 (codes "rwxrwxrwx")

abbrev pub owner_text : ℕ → Option UserRecord → CString
owner_text uid (some r) = take 15 r.username
owner_text uid none = take 15 (to_string uid)

abbrev pub when_text : Option CString → CString
when_text none = codes "-"
when_text (some text) = text

-- A name as `ls` paints it.
abbrev pub paint : CString → ℕ → CString
paint name type =
    (if type == type_dir
      then 27 ∷ codes "[32m" ++ (name ++ b'/' ∷ 27 ∷ codes "[0m")
      else if type == type_symlink
      then 27 ∷ codes "[36m" ++ (name ++ b'@' ∷ 27 ∷ codes "[0m")
      else name)
    ++ codes "  "

unfoldable pub paint_all : List VfsEntry → CString
paint_all [] = []
paint_all (e ∷ es) = paint e.name e.entry_type ++ paint_all es

-- The variables of the loop of `ls`.
pub record Listing (F : Type 0) : Type 0 where
  pub files : CString
  pub dirs : CString
  pub rc : ℤ
  pub state : F

-- The mode in four octal digits.
abbrev pub octal : ℕ → CString
octal m = b'0' ∷ (48 + m / 64 % 8) ∷ (48 + m / 8 % 8) ∷ (48 + m % 8) ∷ []

abbrev pub type_text : ℕ → CString
type_text type =
    if type == type_dir
    then codes "directory"
    else if type == type_symlink
    then codes "symlink"
    else codes "file"

abbrev pub stat_text : CString → FileStat → CString
stat_text path st = take 255 (
    codes "File: "
    ++ (path
        ++ (codes "\nType: "
            ++ (type_text st.file_type
                ++ (codes "\nMode: "
                    ++ (octal (st.mode % 512)
                        ++ (codes "\nUID: "
                            ++ (to_string st.uid
                                ++ (codes "  GID: "
                                    ++ (to_string st.gid
                                        ++ (codes "\nSize: "
                                            ++ (to_string st.size
                                                ++ (codes " bytes\nLinks: "
                                                    ++ to_string st.nlink)))))))))))))
