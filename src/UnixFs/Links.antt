-- ===== src/UnixFs/Links.antt =====
-- src/fs/unix/unix_fs.cpp: `fs_open`, hard and symbolic links, and `namei_follow`. A `std::string`
-- is the list of its bytes.
use pseudo_fs.Common.{
  ℕ, zero, suc, ◌+◌, ◌%◌, Bool, true, false, not, ◌&&◌, ◌||◌, Option, none, some, List, [], ◌∷◌,
  ltb, ◌==◌, if◌then◌else◌, bit_or,
}
use pseudo_fs.Common.Arrays.{Buffer, inc16}
use pseudo_fs.Common.Lists.{length}
use pseudo_fs.Common.Int.{ℤ, pos, negsuc, minus_one}
use pseudo_fs.Common.CStrings.{CString, take}
use pseudo_fs.Layout.{block_size, invalid_blk, mode_dir, mode_file, mode_symlink, default_mode}
use pseudo_fs.SuperBlock.{data_block, write_data}
use pseudo_fs.Inode.{
  Inodes, get, put, alloc, write_back, set_inode, bmap, bmap_alloc, truncate, on_dev,
}
use pseudo_fs.Directory.{namei, namei_parent, lookup, link, file_map, with_map}
use pseudo_fs.OpenFileTable.{OpenFileTable, alloc_fd, set_offset}
use pseudo_fs.UnixFs.{UnixFs, with_imng, sync, has_bits, check_access, or_empty, o_write, o_append}

abbrev pub o_trunc : ℕ
o_trunc = 8

-- `std::string(buf, n)`, from byte `at`.
abbrev pub bytes_at : Buffer → ℕ → ℕ → List ℕ
bytes_at buf at zero = []
bytes_at buf at (suc n) = buf at ∷ bytes_at buf (at + 1) n

-- `s.c_str()` ends at the first NUL.
abbrev pub c_str : List ℕ → CString
c_str [] = []
c_str (c ∷ s) = if c == 0 then [] else c ∷ c_str s

-- The characters of a text in a buffer of zeros.
abbrev pub text_image : List ℕ → Buffer
text_image [] i = 0
text_image (c ∷ s) zero = c
text_image (c ∷ s) (suc i) = text_image s i

unfoldable pub read_link_target : Inodes → ℕ → List ℕ
read_link_target s slot =
    let sz = (s.cache slot).di_size in
    let phys = bmap s.dev (s.cache slot).di_addr 0 in
    let target = bytes_at (data_block s.dev phys) 0 sz in
    if sz == 0 || ltb block_size sz
    then []
    else if phys == 0 || phys == invalid_blk
    then []
    else target

abbrev pub is_nil : List ℕ → Bool
is_nil [] = true
is_nil (c ∷ s) = false

-- One turn of the loop of `namei_follow`, with what `get` answered: the number that is returned, if
-- one is, and the number and the state to go on with.
abbrev pub hop : ℕ → ℕ → ℕ → Option ℕ × Inodes → Option ℕ × ℕ × Inodes
hop cwd_ino root_ino ino (none, s) = (some invalid_blk, ino, s)
hop cwd_ino root_ino ino (some slot, s) =
    let target = read_link_target s slot in
    let (next, s') = namei (put s slot) (c_str target) cwd_ino root_ino in
    if not (has_bits (s.cache slot).di_mode mode_symlink)
    then (some ino, ino, put s slot)
    else if is_nil target
    then (some invalid_blk, ino, put s slot)
    else (none, next, s')

abbrev pub returned : Option ℕ → Inodes → ℕ × Inodes → ℕ × Inodes
returned none s rest = rest
returned (some ino) s rest = (ino, s)

-- The loop, with `hops` turns left.
unfoldable pub follow : ℕ → ℕ → ℕ → Inodes → ℕ → ℕ × Inodes
unfolding read_link_target
follow zero cwd_ino root_ino s ino = (invalid_blk, s)
follow (suc hops) cwd_ino root_ino s ino =
    let (ret, next, s') = hop cwd_ino root_ino ino (get s ino) in
    let rest = follow hops cwd_ino root_ino s' next in
    if ino == invalid_blk then (invalid_blk, s) else returned ret s' rest

unfoldable pub namei_follow : UnixFs → CString → ℕ × Inodes
unfolding follow
namei_follow u path =
    let (ino, s) = namei u.imng path u.cwd_ino u.root_ino in follow 16 u.cwd_ino u.root_ino s ino

-- `O_TRUNC` on a regular file.
abbrev pub cut_off : ℕ → ℕ → ℕ → Inodes → Inodes
cut_off flags now slot s =
    let t = truncate s slot in
    let ip = t.cache slot in
    let w =
      write_back
        (set_inode t slot (record ip { di = record (ip.di) { di_mtime = now }; i_dirty = true }))
        slot in
    if has_bits flags o_trunc && has_bits (s.cache slot).di_mode mode_file then w else s

-- The offset of `O_APPEND`, with what `get` answered.
abbrev pub to_end : UnixFs → ℤ → Option ℕ × Inodes → ℤ × UnixFs
to_end u fd (none, s) = (fd, with_imng u s)
to_end u fd (some slot, s) = (
  fd,
  record u { oft = (set_offset u.oft u.user_slot fd (s.cache slot).di_size).1; imng = put s slot },
)

abbrev pub open_fd : UnixFs → ℕ → ℕ → ℤ × OpenFileTable → ℤ × UnixFs
open_fd u ino flags (negsuc n, t) = (minus_one, record u { oft = t })
open_fd u ino flags (pos fd, t) =
    let w : UnixFs = record u { oft = t } in
    let at_end = to_end w (pos fd) (get w.imng ino) in
    if has_bits flags o_append then at_end else (pos fd, w)

abbrev pub open_ip : UnixFs → ℕ → ℕ → ℕ → Option ℕ × Inodes → ℤ × UnixFs
open_ip u flags now ino (none, s) = (minus_one, with_imng u s)
open_ip u flags now ino (some slot, s) =
    let refused : ℤ × UnixFs = (minus_one, with_imng u (put s slot)) in
    let w = with_imng u (put (cut_off flags now slot s) slot) in
    if has_bits (s.cache slot).di_mode mode_dir
    then refused
    else if not (check_access u (s.cache slot) (flags % 256))
    then refused
    else open_fd w ino flags (alloc_fd w.oft w.user_slot ino (flags % 256))

-- `flags` is not negative.
unfoldable pub fs_open : UnixFs → CString → ℕ → ℕ → ℤ × UnixFs
unfolding namei_follow
fs_open u path flags now =
    let (ino, s) = namei_follow u path in
    if ino == invalid_blk then (minus_one, with_imng u s) else open_ip u flags now ino (get s ino)

-- `fs_link` with the parent directory of the new name.
abbrev pub link_in : UnixFs → ℕ → ℕ → CString → Option ℕ × Inodes → ℤ × UnixFs
link_in u src_ino src_ip basename (none, s) = (minus_one, with_imng u (put s src_ip))
link_in u src_ino src_ip basename (some parent_ip, s) =
    let (ok, s1) = link s parent_ip basename src_ino in
    let ip = s1.cache src_ip in
    let s2 =
      set_inode s1 src_ip
        (record ip { di = record (ip.di) { di_nlink = inc16 ip.di_nlink }; i_dirty = true }) in
    let s3 = write_back (write_back s2 src_ip) parent_ip in
    if ok
    then (pos 0, sync (with_imng u (put (put s3 parent_ip) src_ip)))
    else (minus_one, with_imng u (put (put s1 parent_ip) src_ip))

abbrev pub link_from : UnixFs → CString → ℕ → Option ℕ × Inodes → ℤ × UnixFs
link_from u dst src_ino (none, s) = (minus_one, with_imng u s)
link_from u dst src_ino (some src_ip, s) =
    let (basename, parent_ino, s1) = namei_parent s dst u.cwd_ino u.root_ino in
    if has_bits (s.cache src_ip).di_mode mode_dir
    then (minus_one, with_imng u (put s src_ip))
    else if parent_ino == invalid_blk
    then (minus_one, with_imng u (put s1 src_ip))
    else link_in u src_ino src_ip (or_empty basename) (get s1 parent_ino)

unfoldable pub fs_link : UnixFs → CString → CString → ℤ × UnixFs
unfolding sync
fs_link u src dst =
    let (src_ino, s) = namei u.imng src u.cwd_ino u.root_ino in
    if src_ino == invalid_blk
    then (minus_one, with_imng u s)
    else link_from u dst src_ino (get s src_ino)

abbrev pub without_name : Inodes → ℕ → Inodes
without_name s slot =
    let ip = s.cache slot in set_inode s slot (record ip { di = record (ip.di) { di_nlink = 0 } })

-- `fs_symlink` with the block for the target, or INVALID_BLK, and the inode with its block map.
abbrev pub symlink_text : UnixFs → List ℕ → CString → ℕ → ℕ → ℕ → Inodes → ℤ × UnixFs
symlink_text u target basename parent_ip new_ip phys s =
    let v = s.vol in
    let s1 : Inodes = record s { vol = on_dev v (write_data v.dev phys (text_image target)) } in
    let ip = s1.cache new_ip in
    let s2 =
      set_inode s1 new_ip
        (record ip { di = record (ip.di) { di_size = length target }; i_dirty = true }) in
    let (ok, s3) = link s2 parent_ip basename (s2.cache new_ip).i_ino in
    let s4 = write_back (write_back s3 new_ip) parent_ip in
    if phys == invalid_blk
    then (minus_one, with_imng u (put (put (without_name s new_ip) new_ip) parent_ip))
    else if ok
    then (pos 0, sync (with_imng u (put (put s4 new_ip) parent_ip)))
    else (minus_one, with_imng u (put (put (without_name s3 new_ip) new_ip) parent_ip))

abbrev pub symlink_at : UnixFs → List ℕ → CString → ℕ → Option ℕ × Inodes → ℤ × UnixFs
symlink_at u target basename parent_ip (none, s) = (minus_one, with_imng u (put s parent_ip))
symlink_at u target basename parent_ip (some new_ip, s) =
    let (phys, f) = bmap_alloc (file_map s new_ip) 0 in
    symlink_text u target basename parent_ip new_ip phys (with_map s new_ip f)

abbrev pub symlink_in : UnixFs → List ℕ → ℕ → CString → Option ℕ × Inodes → ℤ × UnixFs
symlink_in u target now basename (none, s) = (minus_one, with_imng u s)
symlink_in u target now basename (some parent_ip, s) =
    let refused : ℤ × UnixFs = (minus_one, with_imng u (put s parent_ip)) in
    if not (check_access u (s.cache parent_ip) o_write)
    then refused
    else if not (lookup s parent_ip basename == invalid_blk)
    then refused
    else symlink_at u target basename parent_ip
        (alloc s (bit_or mode_symlink default_mode) u.cur_uid u.cur_gid now)

unfoldable pub fs_symlink : UnixFs → CString → CString → ℕ → ℤ × UnixFs
unfolding sync
fs_symlink u target linkpath now =
    let (basename, parent_ino, s) = namei_parent u.imng linkpath u.cwd_ino u.root_ino in
    if is_nil target
    then (minus_one, u)
    else if parent_ino == invalid_blk
    then (minus_one, with_imng u s)
    else symlink_in u (take block_size target) now (or_empty basename) (get s parent_ino)

-- The result, the string if one is assigned, and the state.
abbrev pub readlink_ip : UnixFs → Option ℕ × Inodes → ℤ × Option (List ℕ) × UnixFs
readlink_ip u (none, s) = (minus_one, none, with_imng u s)
readlink_ip u (some slot, s) =
    if has_bits (s.cache slot).di_mode mode_symlink
    then (pos 0, some (read_link_target s slot), with_imng u (put s slot))
    else (minus_one, none, with_imng u (put s slot))

unfoldable pub fs_readlink : UnixFs → CString → ℤ × Option (List ℕ) × UnixFs
unfolding read_link_target
fs_readlink u path =
    let (ino, s) = namei u.imng path u.cwd_ino u.root_ino in
    if ino == invalid_blk then (minus_one, none, with_imng u s) else readlink_ip u (get s ino)
