-- ===== src/Inode.antt =====
-- src/fs/unix/inode.cpp: inodes on disk, the cache of inodes in memory, and the block map of a file.
-- A pointer into the cache is the index of its slot. The clock is an argument.
pub mod Map
pub mod RoundTrip
pub mod Truncate
mod Tests
use pseudo_fs.Common.{
  ℕ, zero, suc, ◌+◌, ◌-◌, ◌*◌, ◌/◌, ◌%◌, Bool, true, false, not, ◌&&◌, ◌||◌, Option, none, some,
  ltb, leb, ◌==◌, if◌then◌else◌,
}
use pseudo_fs.Common.Arrays.{Buffer, zeros, update, dec16, inc16, word, bytes, set_word}
use pseudo_fs.Common.Search.{first_index}
use pseudo_fs.Layout.{
  inode_start_blk, inodes_per_blk, inode_size, inode_total, direct_addr, ptrs_per_blk, invalid_blk,
}
use pseudo_fs.BlockDevice.{BlockDevice, read_buf, write_buf, copy_in}
use pseudo_fs.SuperBlock.{Volume, data_block, write_data, balloc, bfree, ialloc, ifree}

pub record DiskInode : Type 0 where
  pub di_mode : ℕ
  pub di_nlink : ℕ
  pub di_uid : ℕ
  pub di_gid : ℕ
  pub di_size : ℕ
  pub di_atime : ℕ
  pub di_mtime : ℕ
  pub di_ctime : ℕ
  pub di_addr : ℕ → ℕ
  pub pad : ℕ → ℕ

pub record MemInode : Type 0 where
  pub di : DiskInode
  pub open di use *
  pub i_ino : ℕ
  pub i_count : ℕ
  pub i_dirty : Bool

-- The state of the manager with the volume that it works on.
pub record Inodes : Type 0 where
  pub vol : Volume
  pub open vol use *
  pub cache : ℕ → MemInode
  pub cache_used : ℕ → Bool

abbrev pub cache_size : ℕ
cache_size = 64

abbrev pub blank_dinode : DiskInode
blank_dinode = record {
  di_mode = 0;
  di_nlink = 0;
  di_uid = 0;
  di_gid = 0;
  di_size = 0;
  di_atime = 0;
  di_mtime = 0;
  di_ctime = 0;
  di_addr = λ i. 0;
  pad = λ i. 0;
}

abbrev pub blank_inode : MemInode
blank_inode = record { di = blank_dinode; i_ino = 0; i_count = 0; i_dirty = false }

-- The constructor.
unfoldable pub attach : Volume → Inodes
attach v = record { vol = v; cache = λ i. blank_inode; cache_used = λ i. false }

-- A 32-bit field at word k.
abbrev pub dword : (ℕ → ℕ) → ℕ → ℕ
dword w k = w k + 65536 * w (k + 1)

abbrev pub half : Bool → ℕ → ℕ
half low x = if low then x % 65536 else x / 65536 % 65536

-- The struct's memory as 16-bit words.
unfoldable pub dinode_image : DiskInode → ℕ → ℕ
dinode_image di k =
    if k == 0
    then di.di_mode
    else if k == 1
    then di.di_nlink
    else if k == 2
    then di.di_uid
    else if k == 3
    then di.di_gid
    else if ltb k 6
    then half (k == 4) di.di_size
    else if ltb k 8
    then half (k == 6) di.di_atime
    else if ltb k 10
    then half (k == 8) di.di_mtime
    else if ltb k 12
    then half (k == 10) di.di_ctime
    else if ltb k 22
    then di.di_addr (k - 12)
    else di.pad (k - 22)

unfoldable pub of_dinode_image : (ℕ → ℕ) → DiskInode
of_dinode_image w = record {
  di_mode = w 0;
  di_nlink = w 1;
  di_uid = w 2;
  di_gid = w 3;
  di_size = dword w 4;
  di_atime = dword w 6;
  di_mtime = dword w 8;
  di_ctime = dword w 10;
  di_addr = λ i. w (12 + i);
  pad = λ i. w (22 + i);
}

abbrev pub inode_block : ℕ → ℕ
inode_block ino = inode_start_blk + ino / inodes_per_blk

abbrev pub inode_offset : ℕ → ℕ
inode_offset ino = ino % inodes_per_blk * inode_size

unfoldable pub read_dinode : BlockDevice → ℕ → DiskInode
unfolding of_dinode_image
read_dinode d ino =
    of_dinode_image (word (λ i. read_buf d (inode_block ino) (inode_offset ino + i)))

unfoldable pub write_dinode : BlockDevice → ℕ → DiskInode → BlockDevice
write_dinode d ino di =
    write_buf d (inode_block ino) (
      copy_in (inode_offset ino) inode_size (bytes (dinode_image di))
        (read_buf d (inode_block ino)))

unfoldable pub cache_lookup : Inodes → ℕ → Option ℕ
cache_lookup s ino = first_index (λ i. s.cache_used i && (s.cache i).i_ino == ino) 0 cache_size

unfoldable pub cache_alloc : Inodes → Option ℕ
cache_alloc s = first_index (λ i. not (s.cache_used i)) 0 cache_size

-- The slot is taken and holds this inode.
abbrev pub fill_slot : Inodes → ℕ → MemInode → Inodes
fill_slot s slot ip = record s {
  cache = update s.cache slot ip;
  cache_used = update s.cache_used slot true;
}

abbrev pub set_inode : Inodes → ℕ → MemInode → Inodes
set_inode s slot ip = record s { cache = update s.cache slot ip }

abbrev pub read_in : Inodes → ℕ → Option ℕ → Option ℕ × Inodes
read_in s ino none = (none, s)
read_in s ino (some slot) = (
  some slot,
  fill_slot s slot
      (record { di = read_dinode s.dev ino; i_ino = ino; i_count = 1; i_dirty = false }),
)

abbrev pub get_from : Inodes → ℕ → Option ℕ → Option ℕ × Inodes
get_from s ino none = read_in s ino (cache_alloc s)
get_from s ino (some slot) =
    (some slot, set_inode s slot (record (s.cache slot) { i_count = inc16 (s.cache slot).i_count }))

unfoldable pub get : Inodes → ℕ → Option ℕ × Inodes
get s ino = if leb inode_total ino then (none, s) else get_from s ino (cache_lookup s ino)

unfoldable pub write_back : Inodes → ℕ → Inodes
write_back s slot =
    let ip = s.cache slot in
    record s {
      vol = record (s.vol) { dev = write_dinode s.dev ip.i_ino ip.di };
      cache = update s.cache slot (record ip { i_dirty = false });
    }

-- `alloc` with the inode number and the slot that it found.
abbrev pub alloc_in : Inodes → ℕ → ℕ → ℕ → ℕ → ℕ → Option ℕ → Option ℕ × Inodes
alloc_in s ino mode uid gid now none = (none, record s { vol = ifree ino s.vol })
alloc_in s ino mode uid gid now (some slot) = (
  some slot,
  fill_slot s slot (record {
    di = record blank_dinode {
      di_mode = mode;
      di_nlink = 1;
      di_uid = uid;
      di_gid = gid;
      di_atime = now;
      di_mtime = now;
      di_ctime = now;
    };
    i_ino = ino;
    i_count = 1;
    i_dirty = true;
  }),
)

unfoldable pub alloc : Inodes → ℕ → ℕ → ℕ → ℕ → Option ℕ × Inodes
alloc s mode uid gid now =
    let (ino, vol) = ialloc s.vol in
    let s' : Inodes = record s { vol = vol } in
    if ino == invalid_blk then (none, s') else alloc_in s' ino mode uid gid now (cache_alloc s')

unfoldable pub read_indirect : BlockDevice → ℕ → ℕ → ℕ
read_indirect d block_no index = word (data_block d block_no) index

unfoldable pub write_indirect : BlockDevice → ℕ → ℕ → ℕ → BlockDevice
write_indirect d block_no index value =
    write_data d block_no (set_word (data_block d block_no) index value)

-- Through one indirect block, if there is one.
abbrev pub through : BlockDevice → ℕ → ℕ → ℕ
through d indirect_blk index = if indirect_blk == 0 then 0 else read_indirect d indirect_blk index

unfoldable pub bmap : BlockDevice → (ℕ → ℕ) → ℕ → ℕ
bmap d addr logical_blk =
    let after_direct = logical_blk - direct_addr in
    let after_first = after_direct - ptrs_per_blk in
    let after_second = after_first - ptrs_per_blk in
    if ltb logical_blk direct_addr
    then addr logical_blk
    else if ltb after_direct ptrs_per_blk
    then through d (addr 6) after_direct
    else if ltb after_first ptrs_per_blk
    then through d (addr 7) after_first
    else if ltb after_second (ptrs_per_blk * ptrs_per_blk)
    then through d (through d (addr 8) (after_second / ptrs_per_blk)) (after_second % ptrs_per_blk)
    else 0

-- A file whose block map is changed: the volume, di_addr and i_dirty.
pub record FileMap : Type 0 where
  pub vol : Volume
  pub addr : ℕ → ℕ
  pub dirty : Bool

abbrev pub on_dev : Volume → BlockDevice → Volume
on_dev v d = record v { dev = d }

-- `if (di_addr[i] == 0) { blk = balloc(); … }`: the place in the inode is given a block, which is
-- cleared if it is to hold block numbers; `none` is the return of INVALID_BLK.
unfoldable pub ensure_addr : Bool → FileMap → ℕ → Option ℕ × FileMap
ensure_addr clear f i =
    let (blk, vol) = balloc f.vol in
    let cleared : Volume = if clear then on_dev vol (write_data vol.dev blk zeros) else vol in
    if f.addr i == 0
    then if blk == invalid_blk
      then (none, record f { vol = vol })
      else (some blk, record { vol = cleared; addr = update f.addr i blk; dirty = true })
    else (some (f.addr i), f)

-- The same for a place in an indirect block.
unfoldable pub ensure_entry : Bool → Volume → ℕ → ℕ → Option ℕ × Volume
ensure_entry clear v block_no index =
    let (blk, vol) = balloc v in
    let linked = write_indirect vol.dev block_no index blk in
    let cleared = if clear then write_data linked blk zeros else linked in
    if read_indirect v.dev block_no index == 0
    then if blk == invalid_blk then (none, vol) else (some blk, on_dev vol cleared)
    else (some (read_indirect v.dev block_no index), v)

abbrev pub with_vol : FileMap → Option ℕ × Volume → Option ℕ × FileMap
with_vol f (o, v) = (o, record f { vol = v })

-- The entry below the block that a place of the inode has, if it has one.
abbrev pub below_addr : ℕ → Option ℕ × FileMap → Option ℕ × FileMap
below_addr index (none, f) = (none, f)
below_addr index (some b, f) = with_vol f (ensure_entry false f.vol b index)

-- One level below place i of the inode.
abbrev pub alloc_single : FileMap → ℕ → ℕ → Option ℕ × FileMap
alloc_single f i index = below_addr index (ensure_addr true f i)

abbrev pub below_entry : ℕ → Option ℕ × Volume → Option ℕ × Volume
below_entry index (none, v) = (none, v)
below_entry index (some b, v) = ensure_entry false v b index

abbrev pub below_double : ℕ → ℕ → Option ℕ × FileMap → Option ℕ × FileMap
below_double i j (none, f) = (none, f)
below_double i j (some b, f) = with_vol f (below_entry j (ensure_entry true f.vol b i))

abbrev pub alloc_double : FileMap → ℕ → Option ℕ × FileMap
alloc_double f n = below_double (n / ptrs_per_blk) (n % ptrs_per_blk) (ensure_addr true f 8)

-- The block number that is returned.
abbrev pub answer : Option ℕ × FileMap → ℕ × FileMap
answer (none, f) = (invalid_blk, f)
answer (some b, f) = (b, f)

unfoldable pub bmap_alloc : FileMap → ℕ → ℕ × FileMap
bmap_alloc f logical_blk =
    let after_direct = logical_blk - direct_addr in
    let after_first = after_direct - ptrs_per_blk in
    let after_second = after_first - ptrs_per_blk in
    if ltb logical_blk direct_addr
    then answer (ensure_addr false f logical_blk)
    else if ltb after_direct ptrs_per_blk
    then answer (alloc_single f 6 after_direct)
    else if ltb after_first ptrs_per_blk
    then answer (alloc_single f 7 after_first)
    else if ltb after_second (ptrs_per_blk * ptrs_per_blk)
    then answer (alloc_double f after_second)
    else (invalid_blk, f)

-- `if (b != 0) bfree(b)`
abbrev pub bfree_used : ℕ → Volume → Volume
bfree_used b v = if b == 0 then v else bfree b v

-- `for (j = i; j < i + n; j++) if (entries[j] != 0) bfree(entries[j]);`
unfoldable pub free_entries : (ℕ → ℕ) → ℕ → ℕ → Volume → Volume
free_entries entries i zero v = v
free_entries entries i (suc n) v = free_entries entries (i + 1) n (bfree_used (entries i) v)

-- An indirect block: what it points to, then the block itself. The entries are read before.
unfoldable pub free_single : ℕ → Volume → Volume
unfolding free_entries
free_single block_no v =
    if block_no == 0
    then v
    else bfree block_no (free_entries (word (data_block v.dev block_no)) 0 ptrs_per_blk v)

-- The loop over the entries of the double indirect block, from entry i.
unfoldable pub free_singles : (ℕ → ℕ) → ℕ → ℕ → Volume → Volume
unfolding free_single
free_singles lvl1 i zero v = v
free_singles lvl1 i (suc n) v = free_singles lvl1 (i + 1) n (free_single (lvl1 i) v)

unfoldable pub free_double : ℕ → Volume → Volume
unfolding free_singles
free_double block_no v =
    if block_no == 0
    then v
    else bfree block_no (free_singles (word (data_block v.dev block_no)) 0 ptrs_per_blk v)

-- The blocks of `truncate`, in its order.
unfoldable pub free_blocks : (ℕ → ℕ) → Volume → Volume
free_blocks addr v =
    free_double (addr 8)
      (free_single (addr 7) (free_single (addr 6) (free_entries addr 0 direct_addr v)))

unfoldable pub truncate : Inodes → ℕ → Inodes
truncate s slot =
    let ip = s.cache slot in
    record s {
      vol = free_blocks ip.di_addr s.vol;
      cache = update s.cache slot (record ip {
        di = record (ip.di) { di_addr = λ i. if ltb i 9 then 0 else ip.di_addr i; di_size = 0 };
        i_dirty = true;
      });
    }

-- The last reference to an inode with no name left: the file is destroyed.
unfoldable pub destroy : Inodes → ℕ → Inodes
unfolding truncate write_back
destroy s slot =
    let t = truncate s slot in
    let ip = t.cache slot in
    let w =
      write_back
        (set_inode t slot
          (record ip { di = record (ip.di) { di_mode = 0; di_size = 0 }; i_dirty = true }))
        slot in
    record w { vol = ifree (w.cache slot).i_ino w.vol }

abbrev pub release_slot : Inodes → ℕ → Inodes
release_slot s slot = record s { cache_used = update s.cache_used slot false }

unfoldable pub put : Inodes → ℕ → Inodes
unfolding destroy
put s slot =
    let ip = record (s.cache slot) { i_count = dec16 (s.cache slot).i_count } in
    let s' = set_inode s slot ip in
    if ltb 0 (dec16 (s.cache slot).i_count)
    then s'
    else if (s.cache slot).di_nlink == 0
    then release_slot (destroy s' slot) slot
    else if (s.cache slot).i_dirty
    then release_slot (write_back s' slot) slot
    else release_slot s' slot
