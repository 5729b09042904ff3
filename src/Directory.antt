-- ===== src/Directory.antt =====
-- src/fs/unix/directory.cpp and include/fs/unix/directory.h: directories as files of entries, and
-- the resolution of paths. A `DiskDirEntry` keeps the string before the NUL of its name field, the
-- inode pointer is the index of its slot in the cache, and a vector is a list.
pub mod Names
pub mod Paths
mod Tests
use pseudo_fs.Common.{
  ℕ, zero, suc, ◌+◌, ◌-◌, ◌*◌, ◌/◌, ◌%◌, Bool, true, false, not, ◌&&◌, Option, none, some, List, [],
  ◌∷◌, ◌++◌, ltb, ◌==◌, if◌then◌else◌, min, bit_and,
}
use pseudo_fs.Common.Options.{◌>>=◌}
use pseudo_fs.Common.Arrays.{Buffer}
use pseudo_fs.Common.Lists.{length}
use pseudo_fs.Common.CStrings.{CString, codes, take, strn_eq}
use pseudo_fs.Layout.{
  block_size, max_filename, dir_entry_size, dir_entries_per_blk, invalid_blk, mode_dir,
}
use pseudo_fs.SuperBlock.{data_block, write_data}
use pseudo_fs.Inode.{Inodes, FileMap, bmap, bmap_alloc, on_dev, get, put, set_inode}

pub record DirEntry : Type 0 where
  pub d_name : CString
  pub d_ino : ℕ

abbrev pub blank_entry : DirEntry
blank_entry = record { d_name = []; d_ino = 0 }

-- Byte k of a string that is padded with NULs.
abbrev pub char_at : CString → ℕ → ℕ
char_at [] k = 0
char_at (c ∷ s) zero = c
char_at (c ∷ s) (suc k) = char_at s k

-- The string in the n bytes from `off`.
abbrev pub string_at : Buffer → ℕ → ℕ → CString
string_at buf off zero = []
string_at buf off (suc n) =
    let rest = string_at buf (off + 1) n in if buf off == 0 then [] else buf off ∷ rest

-- The bytes of an entry.
abbrev pub entry_byte : DirEntry → ℕ → ℕ
entry_byte e k =
    if ltb k max_filename
    then char_at e.d_name k
    else if k == max_filename
    then e.d_ino % 256
    else e.d_ino / 256 % 256

-- The entry at byte `off`.
abbrev pub entry_at : Buffer → ℕ → DirEntry
entry_at buf off = record {
  d_name = string_at buf off max_filename;
  d_ino = buf (off + max_filename) + 256 * buf (off + max_filename + 1);
}

-- `memcpy(&entries[i], buf, n * DIR_ENTRY_SIZE)`, from byte `off`.
unfoldable pub entries_at : Buffer → ℕ → ℕ → List DirEntry
entries_at buf off zero = []
entries_at buf off (suc n) = entry_at buf off ∷ entries_at buf (off + dir_entry_size) n

abbrev pub entry_of : List DirEntry → ℕ → DirEntry
entry_of [] i = blank_entry
entry_of (e ∷ es) zero = e
entry_of (e ∷ es) (suc i) = entry_of es i

-- `memset(buf, 0, BLOCK_SIZE)` and `memcpy(buf, &entries[i], n * DIR_ENTRY_SIZE)`.
unfoldable pub entries_image : List DirEntry → Buffer
entries_image es j = entry_byte (entry_of es (j / dir_entry_size)) (j % dir_entry_size)

-- The loop of `read_dir_data`: n more blocks, and how many entries are still to be read.
unfoldable pub read_blocks : Inodes → ℕ → ℕ → ℕ → ℕ → Option (List DirEntry)
unfolding entries_at
read_blocks s slot left blk_off zero = some []
read_blocks s slot left blk_off (suc n) = do
  let phys = bmap s.dev (s.cache slot).di_addr blk_off
  let here = entries_at (data_block s.dev phys) 0 (min dir_entries_per_blk left)
  rest ← read_blocks s slot (left - dir_entries_per_blk) (blk_off + 1) n
  if phys == 0 then none else if phys == invalid_blk then none else some (here ++ rest)

abbrev pub blocks_of : ℕ → ℕ
blocks_of size = (size + block_size - 1) / block_size

unfoldable pub read_dir_data : Inodes → ℕ → Option (List DirEntry)
unfolding read_blocks
read_dir_data s slot =
    let size = (s.cache slot).di_size in
    read_blocks s slot (size / dir_entry_size) 0 (blocks_of size)

abbrev pub drop : ℕ → List DirEntry → List DirEntry
drop zero es = es
drop (suc n) [] = []
drop (suc n) (e ∷ es) = drop n es

-- The loop of `write_dir_data`: n more blocks, and the entries still to be written.
unfoldable pub write_blocks : FileMap → List DirEntry → ℕ → ℕ → Bool × FileMap
unfolding entries_image
write_blocks f es blk_off zero = (true, f)
write_blocks f es blk_off (suc n) =
    let (phys, f') = bmap_alloc f blk_off in
    let image = entries_image (take dir_entries_per_blk es) in
    let written : FileMap = record f' { vol = on_dev f'.vol (write_data f'.vol.dev phys image) } in
    let rest = write_blocks written (drop dir_entries_per_blk es) (blk_off + 1) n in
    if phys == invalid_blk then (false, f') else rest

-- The block map of a slot, and the slot with a block map.
abbrev pub file_map : Inodes → ℕ → FileMap
file_map s slot = record {
  vol = s.vol;
  addr = (s.cache slot).di_addr;
  dirty = (s.cache slot).i_dirty;
}

abbrev pub with_map : Inodes → ℕ → FileMap → Inodes
with_map s slot f =
    let ip = s.cache slot in
    set_inode (record s { vol = f.vol }) slot
      (record ip { di = record (ip.di) { di_addr = f.addr }; i_dirty = f.dirty })

-- The size and the dirty mark at the end of `write_dir_data`; true is its 0 and false its -1.
abbrev pub sized : ℕ → ℕ → Bool × Inodes → Bool × Inodes
sized slot size (false, s) = (false, s)
sized slot size (true, s) =
    let ip = s.cache slot in
    (true, set_inode s slot (record ip { di = record (ip.di) { di_size = size }; i_dirty = true }))

unfoldable pub write_dir_data : Inodes → ℕ → List DirEntry → Bool × Inodes
unfolding write_blocks
write_dir_data s slot es =
    let total_size = length es * dir_entry_size in
    let (ok, f) = write_blocks (file_map s slot) es 0 (blocks_of total_size) in
    sized slot total_size (ok, with_map s slot f)

-- `e.d_ino != 0 && strncmp(e.d_name, name, MAX_FILENAME) == 0`
abbrev pub is_named : CString → DirEntry → Bool
is_named name e = not (e.d_ino == 0) && strn_eq max_filename e.d_name name

-- The loop of `lookup`.
unfoldable pub find_entry : CString → List DirEntry → ℕ
find_entry name [] = invalid_blk
find_entry name (e ∷ es) =
    let rest = find_entry name es in if is_named name e then e.d_ino else rest

abbrev pub find_in : CString → Option (List DirEntry) → ℕ
find_in name none = invalid_blk
find_in name (some es) = find_entry name es

unfoldable pub lookup : Inodes → ℕ → CString → ℕ
unfolding read_dir_data find_entry
lookup s slot name = find_in name (read_dir_data s slot)

-- The loop that looks for the name in `link`, `unlink`.
unfoldable pub has_name : CString → List DirEntry → Bool
has_name name [] = false
has_name name (e ∷ es) = let rest = has_name name es in if is_named name e then true else rest

abbrev pub new_entry : CString → ℕ → DirEntry
new_entry name ino = record { d_name = take max_filename name; d_ino = ino }

-- The first empty place, or else the end.
unfoldable pub place_entry : CString → ℕ → List DirEntry → List DirEntry
place_entry name ino [] = new_entry name ino ∷ []
place_entry name ino (e ∷ es) =
    let rest = place_entry name ino es in if e.d_ino == 0 then new_entry name ino ∷ es else e ∷ rest

unfoldable pub clear_entry : CString → List DirEntry → List DirEntry
clear_entry name [] = []
clear_entry name (e ∷ es) =
    let rest = clear_entry name es in if is_named name e then blank_entry ∷ es else e ∷ rest

-- The entries that `link` writes, if it writes any, and the same of `unlink`.
unfoldable pub linked : CString → ℕ → List DirEntry → Option (List DirEntry)
unfolding has_name place_entry
linked name ino es = if has_name name es then none else some (place_entry name ino es)

unfoldable pub unlinked : CString → List DirEntry → Option (List DirEntry)
unfolding has_name clear_entry
unlinked name es = if has_name name es then some (clear_entry name es) else none

abbrev pub write_some : Inodes → ℕ → Option (List DirEntry) → Bool × Inodes
write_some s slot none = (false, s)
write_some s slot (some es) = write_dir_data s slot es

unfoldable pub link : Inodes → ℕ → CString → ℕ → Bool × Inodes
unfolding read_dir_data write_dir_data linked
link s slot name ino = write_some s slot (do es ← read_dir_data s slot; linked name ino es)

unfoldable pub unlink : Inodes → ℕ → CString → Bool × Inodes
unfolding read_dir_data write_dir_data unlinked
unlink s slot name = write_some s slot (do es ← read_dir_data s slot; unlinked name es)

abbrev pub dot : CString
dot = codes "."

abbrev pub dot_dot : CString
dot_dot = codes ".."

unfoldable pub init_dir : Inodes → ℕ → ℕ → ℕ → Bool × Inodes
unfolding write_dir_data
init_dir s slot self_ino parent_ino =
    write_dir_data s slot (new_entry dot self_ino ∷ new_entry dot_dot parent_ino ∷ [])

unfoldable pub only_dots : List DirEntry → Bool
only_dots [] = true
only_dots (e ∷ es) =
    let rest = only_dots es in
    if e.d_ino == 0
    then rest
    else if strn_eq max_filename e.d_name dot
    then rest
    else if strn_eq max_filename e.d_name dot_dot
    then rest
    else false

abbrev pub dots_in : Option (List DirEntry) → Bool
dots_in none = false
dots_in (some es) = only_dots es

unfoldable pub is_empty : Inodes → ℕ → Bool
unfolding read_dir_data only_dots
is_empty s slot = dots_in (read_dir_data s slot)

-- The bytes up to the next slash, and those behind it.
abbrev pub segment : CString → CString
segment [] = []
segment (c ∷ s) = if c == 47 then [] else c ∷ segment s

abbrev pub behind : CString → CString
behind [] = []
behind (c ∷ s) = if c == 47 then s else behind s

-- The loop of `split_path`, on fuel for every byte.
unfoldable pub split_from : ℕ → CString → List CString
split_from zero s = []
split_from (suc n) [] = []
split_from (suc n) (c ∷ s) =
    let rest = split_from n s in
    let next = split_from n (behind (c ∷ s)) in if c == 47 then rest else segment (c ∷ s) ∷ next

unfoldable pub split_path : CString → List CString
unfolding split_from
split_path path = split_from (length path) path

abbrev pub is_dir : Inodes → ℕ → Bool
is_dir s slot = not (bit_and (s.cache slot).di_mode mode_dir == 0)

-- One turn of the loop of `namei`, with what `get` answered.
abbrev pub enter : CString → Option ℕ × Inodes → ℕ × Inodes
enter name (none, s) = (invalid_blk, s)
enter name (some slot, s) =
    if is_dir s slot then (lookup s slot name, put s slot) else (invalid_blk, put s slot)

unfoldable pub step_into : Inodes → ℕ → CString → ℕ × Inodes
unfolding lookup
step_into s cur_ino name = enter name (get s cur_ino)

-- The loop of `namei` and of `namei_parent`.
unfoldable pub walk : Inodes → ℕ → List CString → ℕ × Inodes
unfolding step_into
walk s cur_ino [] = (cur_ino, s)
walk s cur_ino (name ∷ names) =
    let (next, s') = step_into s cur_ino name in
    let rest = walk s' next names in if next == invalid_blk then (invalid_blk, s') else rest

abbrev pub start_of : CString → ℕ → ℕ → ℕ
start_of [] cwd_ino root_ino = cwd_ino
start_of (c ∷ s) cwd_ino root_ino = if c == 47 then root_ino else cwd_ino

unfoldable pub namei : Inodes → CString → ℕ → ℕ → ℕ × Inodes
unfolding split_path walk
namei s path cwd_ino root_ino = walk s (start_of path cwd_ino root_ino) (split_path path)

-- All segments but the last, and the last.
abbrev pub init_last : CString → List CString → List CString × CString
init_last p [] = ([], p)
init_last p (q ∷ ps) = let (names, last) = init_last q ps in (p ∷ names, last)

abbrev pub walk_parent : Inodes → ℕ → List CString → Option CString × ℕ × Inodes
walk_parent s cur_ino [] = (none, invalid_blk, s)
walk_parent s cur_ino (p ∷ ps) =
    let (names, basename) = init_last p ps in
    let (ino, s') = walk s cur_ino names in (some basename, ino, s')

-- The name that is assigned to `basename`, if one is, the inode number and the state.
unfoldable pub namei_parent : Inodes → CString → ℕ → ℕ → Option CString × ℕ × Inodes
unfolding split_path walk
namei_parent s path cwd_ino root_ino =
    walk_parent s (start_of path cwd_ino root_ino) (split_path path)
