-- ===== src/Fat16/Names.antt =====
-- The 8.3 names of src/fs/fat16/fat16_fs.cpp: `to_upper`, `entry_name` and `set_dir_entry_name`.
-- Bytes stand for characters: 46 is a dot, 32 a space.
use pseudo_fs.Common.{
  ℕ, zero, suc, ◌-◌, Bool, not, ◌&&◌, ◌||◌, Option, none, some, [], ◌∷◌, ◌++◌, leb, ◌==◌,
  if◌then◌else◌, map,
}
use pseudo_fs.Common.Arrays.{Buffer, zeros, update}
use pseudo_fs.Common.CStrings.{CString, codes, str_eq}

pub record FatDirEntry : Type 0 where
  pub name : Buffer
  pub ext : Buffer
  pub attr : ℕ
  pub reserved : Buffer
  pub time : ℕ
  pub date : ℕ
  pub first_cluster : ℕ
  pub file_size : ℕ

-- `memset(&entry, 0, sizeof(entry))`
abbrev pub zero_entry : FatDirEntry
zero_entry = record {
  name = zeros;
  ext = zeros;
  attr = 0;
  reserved = zeros;
  time = 0;
  date = 0;
  first_cluster = 0;
  file_size = 0;
}

unfoldable pub upper : ℕ → ℕ
upper c = if leb 97 c && leb c 122 then c - 32 else c

abbrev pub to_upper : CString → CString
to_upper s = map upper s

-- `e.name[i] != ' ' && e.name[i] != '\0'`
abbrev pub is_text : ℕ → Bool
is_text c = not (c == 32) && not (c == 0)

-- The bytes of a field from place i up to the first space or NUL, n at most.
unfoldable pub field_text : Buffer → ℕ → ℕ → CString
field_text f i zero = []
field_text f i (suc n) =
    let rest = f i ∷ field_text f (suc i) n in if is_text (f i) then rest else []

abbrev pub has_ext : FatDirEntry → Bool
has_ext e = is_text (e.ext 0) || is_text (e.ext 1) || is_text (e.ext 2)

unfoldable pub entry_name : FatDirEntry → CString
unfolding field_text
entry_name e =
    let base = field_text e.name 0 8 in
    if has_ext e then base ++ (46 ∷ field_text e.ext 0 3) else base

-- `memset(field, ' ', n)`
abbrev pub spaces : Buffer
spaces i = 32

-- A field into which the first n bytes of s are copied in upper case, after `memset` to spaces.
unfoldable pub fill_upper : ℕ → CString → Buffer
fill_upper zero s i = 32
fill_upper (suc n) [] i = 32
fill_upper (suc n) (c ∷ s) zero = upper c
fill_upper (suc n) (c ∷ s) (suc i) = fill_upper n s i

-- `strrchr(name, '.')`: the bytes before the last dot, and those behind it.
abbrev pub last_dot : CString → Option (CString × CString)
last_dot [] = none
last_dot (c ∷ s) = in_tail c s (last_dot s)
  where
    in_tail : ℕ → CString → Option (CString × CString) → Option (CString × CString)
    in_tail d t (some (base, ext)) = some (d ∷ base, ext)
    in_tail d t none = if d == 46 then some ([], t) else none

abbrev pub set_parts : FatDirEntry → CString → Option (CString × CString) → FatDirEntry
set_parts e name none = record e { name = fill_upper 8 name; ext = spaces }
set_parts e name (some (base, ext)) = record e { name = fill_upper 8 base; ext = fill_upper 3 ext }

unfoldable pub set_dir_entry_name : FatDirEntry → CString → FatDirEntry
unfolding fill_upper
set_dir_entry_name e name =
    if str_eq name (codes ".")
    then record e { name = update spaces 0 46; ext = spaces }
    else if str_eq name (codes "..")
    then record e { name = update (update spaces 0 46) 1 46; ext = spaces }
    else set_parts e name (last_dot name)
