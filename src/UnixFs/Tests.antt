-- ===== src/UnixFs/Tests.antt =====
-- A read of a small file.
use pseudo_fs.Common.{ℕ, ◌+◌, ◌-◌, ◌<◌, ◌≡◌, refl, arith, some, none, true, false, min, ◌∷◌, []}
use pseudo_fs.Common.Arrays.{zeros}
use pseudo_fs.Common.Int.{pos}
use pseudo_fs.Common.Search.{first_index}
use mathlib.Core.List.{Mem}
use pseudo_fs.SuperBlock.Tests.{small, two_free-Holds}
use pseudo_fs.Common.{◌≤◌}
use Prim.Native.Nat.{max}
use pseudo_fs.Directory.{namei, split_path, split_from, walk}
use pseudo_fs.UnixFs.Links.{namei_follow, follow}
use pseudo_fs.UnixFs.Following.{StopsAt, namei_follow-StopsAt}
use pseudo_fs.UnixFs.Modes.{bit, fs_chmod_bits}
use pseudo_fs.UnixFs.Usage.{
  fs_block_map, fs_disk_usage, blk_meta, blk_free, blk_used, fs_block_map-disk_usage,
}
use pseudo_fs.UnixFs.Stat.{fs_chmod}
use pseudo_fs.Inode.{Inodes, MemInode, blank_dinode, get, cache_lookup}
use pseudo_fs.OpenFileTable.{
  init, alloc_fd, alloc_sys_entry, free_fd_slot, sys_index, is_valid, get_flags, get_offset,
  get_inode,
}
use pseudo_fs.UnixFs.{UnixFs, has_bits, o_read, fs_read}
use pseudo_fs.UnixFs.Reading.{file_byte, fs_read_lem}

-- A file of 600 bytes, in blocks 3 and 4.
abbrev inode : MemInode
inode = record {
  di = record blank_dinode { di_size = 600; di_addr = λ i. 3 + i };
  i_ino = 5;
  i_count = 1;
  i_dirty = false;
}

abbrev opened_file : UnixFs
opened_file = record {
  imng = record { vol = small 3 2; cache = λ i. inode; cache_used = λ i. true };
  oft = (alloc_fd init 0 5 1).1;
  root_ino = 1;
  cwd_ino = 1;
  cwd_path = 47 ∷ [];
  cur_uid = 0;
  cur_gid = 0;
  mounted = true;
  user_slot = 0;
  has_disk_path = false;
  image = none;
}

abbrev after_get : Inodes
after_get = (get opened_file.imng 5).1

descriptor_valid : is_valid opened_file.oft 0 (pos 0) ≡ true
unfolding is_valid sys_index alloc_fd alloc_sys_entry free_fd_slot first_index init
descriptor_valid = refl

descriptor_readable : has_bits (get_flags opened_file.oft 0 (pos 0)) o_read ≡ true
unfolding get_flags sys_index alloc_fd alloc_sys_entry free_fd_slot first_index init
descriptor_readable = refl

descriptor_offset : get_offset opened_file.oft 0 (pos 0) ≡ 0
unfolding get_offset sys_index alloc_fd alloc_sys_entry free_fd_slot first_index init
descriptor_offset = refl

inode_cached : get opened_file.imng (get_inode opened_file.oft 0 (pos 0)) ≡ (some 0, after_get)
unfolding get cache_lookup get_inode sys_index alloc_fd alloc_sys_entry free_fd_slot first_index
    init
inode_cached = refl

size_kept : (after_get.cache 0).di_size ≡ 600
unfolding get cache_lookup first_index
size_kept = refl

fs_read_lem_example :
    let r = fs_read opened_file (pos 0) zeros 1000 77 in
    let n = min 1000 ((after_get.cache 0).di_size - 0) in
    (r.0 ≡ pos n)
    × ((i : ℕ) → i < n → r.2 i ≡ file_byte after_get.vol.dev (after_get.cache 0).di_addr (0 + i))
fs_read_lem_example =
    fs_read_lem opened_file (pos 0) zeros 1000 77 0 0 after_get descriptor_valid descriptor_readable
      descriptor_offset inode_cached (omega (arith, size_kept)) (omega arith)

-- Its root directory is the file itself, with one link.
abbrev rooted : UnixFs
rooted = record opened_file {
  imng = record {
    vol = small 3 2;
    cache = λ i. record inode { di = record (inode.di) { di_mode = 0x1a4; di_nlink = 1 } };
    cache_used = λ i. true;
  };
  root_ino = 5;
}

follows_to : (namei_follow rooted (47 ∷ [])).0 ≡ 5
unfolding namei_follow follow namei split_path split_from walk get cache_lookup first_index
follows_to = refl

namei_follow-StopsAt_example :
    StopsAt (namei_follow rooted (47 ∷ [])).0 (namei_follow rooted (47 ∷ [])).1
namei_follow-StopsAt_example =
    namei_follow-StopsAt rooted (47 ∷ []) (λ e. omega (arith, follows_to, e))

root_found : namei rooted.imng (47 ∷ []) rooted.cwd_ino rooted.root_ino ≡ (5, rooted.imng)
unfolding namei split_path split_from walk
root_found = refl

abbrev root_got : Inodes
root_got = (get rooted.imng 5).1

root_cached : get rooted.imng 5 ≡ (some 0, root_got)
unfolding get cache_lookup first_index
root_cached = refl

root_linked : (root_got.cache 0).di_nlink ≡ 1
unfolding get cache_lookup first_index
root_linked = refl

fs_chmod_bits_example :
    let r = fs_chmod rooted (47 ∷ []) 0 in
    let old = (root_got.cache 0).di_mode in
    let new = (r.1.imng.cache 0).di_mode in
    (r.0 ≡ pos 0)
    × ((k : ℕ) → k < 8 → bit k new ≡ bit k 0)
    × (bit 8 new ≡ max (bit 8 old) (bit 8 0))
    × ((k : ℕ) → 9 ≤ k → k < 16 → bit k new ≡ bit k old)
fs_chmod_bits_example =
    fs_chmod_bits rooted (47 ∷ []) 0 5 0 rooted.imng root_got root_found (λ e. omega arith)
      root_cached (λ e. omega (arith, root_linked, e))

fs_block_map-disk_usage_example :
    ((b : ℕ) → b < 34 → fs_block_map (small 3 2) b ≡ blk_meta)
    × ((x : ℕ) → x < 2048 → Mem x (9 ∷ 7 ∷ []) → fs_block_map (small 3 2) (34 + x) ≡ blk_free)
    × ((x : ℕ) → x < 2048 → ¬ Mem x (9 ∷ 7 ∷ []) → fs_block_map (small 3 2) (34 + x) ≡ blk_used)
    × ((fs_disk_usage (small 3 2)).used_blocks + 2 ≡ 2048)
fs_block_map-disk_usage_example =
    fs_block_map-disk_usage (small 3 2) (9 ∷ 7 ∷ []) two_free-Holds (omega arith) (omega arith)
