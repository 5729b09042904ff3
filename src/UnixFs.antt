-- ===== src/UnixFs.antt =====
-- src/fs/unix/unix_fs.cpp: the engine, whose handlers combine the parts. Here are the life of a
-- volume, create, close, read and write. The host file of `sync` is part of the state, and writing
-- it succeeds; the clock is an argument.
pub mod Reading
pub mod Links
pub mod Dirs
pub mod Stat
pub mod Recursive
pub mod Usage
pub mod Following
pub mod Modes
mod Tests
use pseudo_fs.Common.{
  ℕ, zero, suc, ◌+◌, ◌-◌, ◌/◌, ◌%◌, Bool, true, false, not, ◌&&◌, ◌||◌, Option, none, some, [], ltb,
  leb, ◌==◌, if◌then◌else◌, min, bit_and, bit_or,
}
use pseudo_fs.Common.Arrays.{Buffer, zeros, u32_mod}
use pseudo_fs.Common.Int.{ℤ, pos, negsuc, minus_one}
use pseudo_fs.Common.CStrings.{CString, codes}
use pseudo_fs.Layout.{block_size, invalid_blk, mode_dir, mode_file, default_mode}
use pseudo_fs.BlockDevice.{BlockDevice, HostFile, copy_in, zero_all, save_to_file}
use pseudo_fs.SuperBlock.{Volume, data_block, write_data, format, load, flush, set_root_inode}
use pseudo_fs.Inode.{
  Inodes, MemInode, FileMap, attach, get, put, alloc, write_back, set_inode, bmap, bmap_alloc,
  on_dev,
}
use pseudo_fs.Directory.{namei_parent, lookup, link, init_dir, file_map, with_map}
use pseudo_fs.OpenFileTable.{
  OpenFileTable, init, is_valid, get_flags, get_inode, get_offset, set_offset, free_fd,
}

pub record UnixFs : Type 0 where
  pub imng : Inodes
  pub oft : OpenFileTable
  pub root_ino : ℕ
  pub cwd_ino : ℕ
  pub cwd_path : CString
  pub cur_uid : ℕ
  pub cur_gid : ℕ
  pub mounted : Bool
  pub user_slot : ℕ
  pub has_disk_path : Bool
  pub image : Option HostFile

abbrev pub o_read : ℕ
o_read = 1

abbrev pub o_write : ℕ
o_write = 2

abbrev pub o_append : ℕ
o_append = 4

-- The constructor, over a volume whose super block is not read yet.
unfoldable pub mk_unix_fs : Volume → UnixFs
mk_unix_fs v = record {
  imng = attach v;
  oft = init;
  root_ino = 0;
  cwd_ino = 0;
  cwd_path = codes "/";
  cur_uid = 0;
  cur_gid = 0;
  mounted = false;
  user_slot = 0;
  has_disk_path = false;
  image = none;
}

abbrev pub with_imng : UnixFs → Inodes → UnixFs
with_imng u s = record u { imng = s }

abbrev pub on_vol : Inodes → Volume → Inodes
on_vol s v = record s { vol = v }

unfoldable pub sync : UnixFs → UnixFs
sync u =
    let v = flush u.imng.vol in
    if u.has_disk_path
    then record u { imng = on_vol u.imng v; image = some (save_to_file v.dev) }
    else u

-- A directory below the root: `etc` and `home` of `fs_format`.
abbrev pub add_dir : ℕ → ℕ → CString → Option ℕ × Inodes → Inodes
add_dir root_ip root_ino name (none, s) = s
add_dir root_ip root_ino name (some ip, s) =
    let s1 = (init_dir s ip (s.cache ip).i_ino root_ino).1 in
    let s2 = (link s1 root_ip name (s1.cache ip).i_ino).1 in put (write_back s2 ip) ip

abbrev pub dir_mode : ℕ
dir_mode = bit_or mode_dir default_mode

-- `fs_format` once the root inode is allocated, or is not.
abbrev pub format_from : UnixFs → ℕ → Option ℕ × Inodes → ℤ × UnixFs
format_from u now (none, s) = (minus_one, with_imng u s)
format_from u now (some root_ip, s) =
    let ino = (s.cache root_ip).i_ino in
    let s1 = write_back (init_dir s root_ip ino ino).1 root_ip in
    let s2 = add_dir root_ip ino (codes "etc") (alloc s1 dir_mode 0 0 now) in
    let s3 = add_dir root_ip ino (codes "home") (alloc s2 dir_mode 0 0 now) in
    let s4 = put (write_back s3 root_ip) root_ip in
    let s5 = on_vol s4 (flush (set_root_inode ino s4.vol)) in
    (
      pos 0,
      sync (record u {
        imng = s5;
        root_ino = ino;
        cwd_ino = ino;
        cwd_path = codes "/";
        mounted = true;
      }),
    )

unfoldable pub fs_format : UnixFs → ℕ → ℤ × UnixFs
unfolding sync
fs_format u now =
    let v = u.imng.vol in
    let s = on_vol u.imng (format 3 1 (on_dev v (zero_all v.dev))) in
    format_from u now (alloc s dir_mode 0 0 now)

unfoldable pub fs_mount : UnixFs → ℤ × UnixFs
fs_mount u =
    let v = load u.imng.vol in
    (
      pos 0,
      record u {
        imng = on_vol u.imng v;
        root_ino = v.s_root_ino;
        cwd_ino = v.s_root_ino;
        cwd_path = codes "/";
        mounted = true;
      },
    )

unfoldable pub fs_unmount : UnixFs → ℤ × UnixFs
fs_unmount u =
    if u.mounted
    then (pos 0, record u { imng = on_vol u.imng (flush u.imng.vol); mounted = false })
    else (minus_one, u)

abbrev pub has_bits : ℕ → ℕ → Bool
has_bits x mask = not (bit_and x mask == 0)

-- The bits to read and to write that apply to the current user.
abbrev pub r_bit : UnixFs → MemInode → ℕ
r_bit u ip =
    if u.cur_uid == ip.di_uid then 0o400 else if u.cur_gid == ip.di_gid then 0o040 else 0o004

abbrev pub w_bit : UnixFs → MemInode → ℕ
w_bit u ip =
    if u.cur_uid == ip.di_uid then 0o200 else if u.cur_gid == ip.di_gid then 0o020 else 0o002

unfoldable pub check_access : UnixFs → MemInode → ℕ → Bool
check_access u ip required =
    if u.cur_uid == 0
    then true
    else if has_bits required o_read && not (has_bits ip.di_mode (r_bit u ip))
    then false
    else if has_bits required (bit_or o_write o_append) && not (has_bits ip.di_mode (w_bit u ip))
    then false
    else true

-- `fs_create` with the new inode, or without one.
abbrev pub create_at : UnixFs → ℕ → CString → Option ℕ × Inodes → ℤ × UnixFs
create_at u parent_ip basename (none, s) = (minus_one, with_imng u (put s parent_ip))
create_at u parent_ip basename (some new_ip, s) =
    let (ok, s1) = link s parent_ip basename (s.cache new_ip).i_ino in
    let ip = s1.cache new_ip in
    let dropped = set_inode s1 new_ip (record ip { di = record (ip.di) { di_nlink = 0 } }) in
    let kept = write_back (write_back s1 new_ip) parent_ip in
    if ok
    then (pos 0, sync (with_imng u (put (put kept new_ip) parent_ip)))
    else (minus_one, with_imng u (put (put dropped new_ip) parent_ip))

abbrev pub create_in : UnixFs → ℕ → ℕ → CString → Option ℕ × Inodes → ℤ × UnixFs
create_in u mode now basename (none, s) = (minus_one, with_imng u s)
create_in u mode now basename (some parent_ip, s) =
    let new_mode = bit_or mode_file (bit_and mode 0x1ff) in
    let refused : ℤ × UnixFs = (minus_one, with_imng u (put s parent_ip)) in
    if not (check_access u (s.cache parent_ip) o_write)
    then refused
    else if not (lookup s parent_ip basename == invalid_blk)
    then refused
    else create_at u parent_ip basename (alloc s new_mode u.cur_uid u.cur_gid now)

abbrev pub or_empty : Option CString → CString
or_empty none = []
or_empty (some s) = s

unfoldable pub fs_create : UnixFs → CString → ℕ → ℕ → ℤ × UnixFs
unfolding sync check_access
fs_create u path mode now =
    let (basename, parent_ino, s) = namei_parent u.imng path u.cwd_ino u.root_ino in
    if parent_ino == invalid_blk
    then (minus_one, with_imng u s)
    else create_in u mode now (or_empty basename) (get s parent_ino)

-- The end of a successful `fs_close`.
abbrev pub close_with : UnixFs → ℤ × OpenFileTable → ℤ × UnixFs
close_with u (pos zero, t) = (pos 0, sync (record u { oft = t }))
close_with u (pos (suc n), t) = (pos (suc n), record u { oft = t })
close_with u (negsuc n, t) = (negsuc n, record u { oft = t })

unfoldable pub fs_close : UnixFs → ℤ → ℤ × UnixFs
unfolding sync
fs_close u fd = close_with u (free_fd u.oft u.user_slot fd)

-- What one pass of the loop of `fs_read` copies from: a hole reads as zeros.
unfoldable pub source_at : BlockDevice → (ℕ → ℕ) → ℕ → Buffer
source_at d addr at =
    let phys = bmap d addr (at / block_size) in
    if phys == 0 || phys == invalid_blk then zeros else λ i. data_block d phys (at % block_size + i)

-- The loop of `fs_read`. Each pass reads at least one byte, so fuel for `len` passes is enough.
unfoldable pub read_loop : ℕ → BlockDevice → (ℕ → ℕ) → ℕ → ℕ → ℕ → Buffer → Buffer
unfolding source_at
read_loop zero d addr offset len bytes_read dst = dst
read_loop (suc fuel) d addr offset len bytes_read dst =
    let at = offset + bytes_read in
    let chunk = min (block_size - at % block_size) (len - bytes_read) in
    let rest =
      read_loop fuel d addr offset len (bytes_read + chunk)
        (copy_in bytes_read chunk (source_at d addr at) dst) in
    if ltb bytes_read len then rest else dst

-- `offset + len` is a size_t.
abbrev pub clip : ℕ → ℕ → ℕ → ℕ
clip offset len file_size =
    if ltb file_size ((offset + len) % 18446744073709551616) then file_size - offset else len

-- The result, the state, and the caller's buffer.
abbrev pub read_from : UnixFs → ℤ → Buffer → ℕ → ℕ → Option ℕ × Inodes → ℤ × UnixFs × Buffer
read_from u fd buf len now (none, s) = (minus_one, with_imng u s, buf)
read_from u fd buf len now (some slot, s) =
    let ip = s.cache slot in
    let offset = get_offset u.oft u.user_slot fd in
    let n = clip offset len ip.di_size in
    let dst = read_loop n s.dev ip.di_addr offset n 0 buf in
    let s1 =
      set_inode s slot (record ip { di = record (ip.di) { di_atime = now }; i_dirty = true }) in
    let t = (set_offset u.oft u.user_slot fd ((offset + n) % u32_mod)).1 in
    if leb ip.di_size offset
    then (pos 0, with_imng u (put s slot), buf)
    else (pos n, record u { imng = put s1 slot; oft = t }, dst)

unfoldable pub fs_read : UnixFs → ℤ → Buffer → ℕ → ℕ → ℤ × UnixFs × Buffer
unfolding read_loop
fs_read u fd buf len now =
    if not (is_valid u.oft u.user_slot fd)
    then (minus_one, u, buf)
    else if not (has_bits (get_flags u.oft u.user_slot fd) o_read)
    then (minus_one, u, buf)
    else read_from u fd buf len now (get u.imng (get_inode u.oft u.user_slot fd))

-- The loop of `fs_write`: the bytes written and the file. Each pass writes at least one byte.
unfoldable pub write_loop : ℕ → FileMap → ℕ → Buffer → ℕ → ℕ → ℕ × FileMap
write_loop zero f offset src len bytes_written = (bytes_written, f)
write_loop (suc fuel) f offset src len bytes_written =
    let at = offset + bytes_written in
    let chunk = min (block_size - at % block_size) (len - bytes_written) in
    let (phys, f') = bmap_alloc f (at / block_size) in
    let before : Buffer = if ltb chunk block_size then data_block f'.vol.dev phys else zeros in
    let after = copy_in (at % block_size) chunk (λ i. src (bytes_written + i)) before in
    let written : FileMap = record f' { vol = on_dev f'.vol (write_data f'.vol.dev phys after) } in
    let rest = write_loop fuel written offset src len (bytes_written + chunk) in
    if ltb bytes_written len
    then if phys == invalid_blk then (bytes_written, f') else rest
    else (bytes_written, f)

abbrev pub write_to : UnixFs → ℤ → Buffer → ℕ → ℕ → Option ℕ × Inodes → ℤ × UnixFs
write_to u fd buf len now (none, s) = (minus_one, with_imng u s)
write_to u fd buf len now (some slot, s) =
    let offset = get_offset u.oft u.user_slot fd in
    let (n, f) = write_loop len (file_map s slot) offset buf len 0 in
    let s1 = with_map s slot f in
    let ip = s1.cache slot in
    let new_end = (offset + n) % u32_mod in
    let size : ℕ = if ltb ip.di_size new_end then new_end else ip.di_size in
    let s2 =
      set_inode s1 slot
        (record ip { di = record (ip.di) { di_size = size; di_mtime = now }; i_dirty = true }) in
    (
      pos n,
      record u {
        imng = put (write_back s2 slot) slot;
        oft = (set_offset u.oft u.user_slot fd new_end).1;
      },
    )

unfoldable pub fs_write : UnixFs → ℤ → Buffer → ℕ → ℕ → ℤ × UnixFs
unfolding write_loop
fs_write u fd buf len now =
    let flags = get_flags u.oft u.user_slot fd in
    if not (is_valid u.oft u.user_slot fd)
    then (minus_one, u)
    else if not (has_bits flags o_write) && not (has_bits flags o_append)
    then (minus_one, u)
    else write_to u fd buf len now (get u.imng (get_inode u.oft u.user_slot fd))

unfoldable pub set_user : ℕ → ℕ → UnixFs → UnixFs
set_user uid gid u = record u { cur_uid = uid; cur_gid = gid; user_slot = 0 }

unfoldable pub set_disk_path : Bool → UnixFs → UnixFs
set_disk_path on u = record u { has_disk_path = on }
