-- ===== src/Fat16.antt =====
-- src/fs/fat16/fat16_fs.cpp, the second engine: its state and the allocation
-- table. The table is a function from the cluster number; the source reads and writes its first
-- 2304 places, and no place before the first format or mount. The host file of `sync` is part of
-- the state, and writing it succeeds.
pub mod Names
pub mod Volume
pub mod Entries
pub mod Sizes
pub mod Paths
pub mod Files
pub mod Writing
pub mod Dirs
pub mod Recursive
pub mod Chains
pub mod Alloc
pub mod Owned
pub mod Growth
pub mod Seeking
pub mod WriteLaws
pub mod Mirror
pub mod NameLaws
pub mod Reading
pub mod Contents
pub mod ReadBack
mod Tests
use pseudo_fs.Common.{
  ℕ, zero, suc, ◌+◌, ◌-◌, ◌*◌, ◌/◌, ◌%◌, Bool, true, false, not, ◌&&◌, ◌||◌, Option, none, some,
  List, [], ◌∷◌, ◌++◌, ltb, leb, ◌==◌, if◌then◌else◌,
}
use pseudo_fs.Common.Arrays.{Buffer, zeros, update, word, bytes}
use pseudo_fs.Common.Int.{ℤ, pos, minus_one}
use pseudo_fs.Common.Search.{first_index}
use pseudo_fs.Common.CStrings.{CString, codes}
use pseudo_fs.Layout.{block_size, total_blk_num}
use pseudo_fs.BlockDevice.{BlockDevice, HostFile, read_block, read_buf, write_buf, save_to_file}
use pseudo_fs.OpenFileTable.{OpenFileTable, init}

abbrev pub fat_end : ℕ
fat_end = 0xffff

abbrev pub fat_free : ℕ
fat_free = 0

abbrev pub attr_directory : ℕ
attr_directory = 0x10

abbrev pub attr_archive : ℕ
attr_archive = 0x20

-- The places of the parts on the disk.
abbrev pub boot_blk : ℕ
boot_blk = 0

abbrev pub fat1_start : ℕ
fat1_start = 1

abbrev pub fat_size : ℕ
fat_size = 9

abbrev pub fat2_start : ℕ
fat2_start = fat1_start + fat_size

abbrev pub root_dir_blk : ℕ
root_dir_blk = fat2_start + fat_size

abbrev pub data_start : ℕ
data_start = root_dir_blk + 1

abbrev pub entries_per_fat_blk : ℕ
entries_per_fat_blk = block_size / 2

abbrev pub dir_entries_per_blk : ℕ
dir_entries_per_blk = block_size / 32

abbrev pub clusters_per_fat : ℕ
clusters_per_fat = fat_size * entries_per_fat_blk

abbrev pub data_blk_count : ℕ
data_blk_count = total_blk_num - data_start

abbrev pub root_cluster : ℕ
root_cluster = 0

-- The boot sector is kept as its 512 bytes; `open_parent` is indexed by the descriptor.
pub record Fat16Fs : Type 0 where
  pub dev : BlockDevice
  pub oft : OpenFileTable
  pub open_parent : ℕ → ℕ
  pub boot : Buffer
  pub fat : ℕ → ℕ
  pub cwd_path : CString
  pub cwd_cluster : ℕ
  pub cur_uid : ℕ
  pub cur_gid : ℕ
  pub user_slot : ℕ
  pub mounted : Bool
  pub has_disk_path : Bool
  pub image : Option HostFile

-- The constructor. The members that it leaves out hold zeros here.
unfoldable pub mk_fat16_fs : BlockDevice → Fat16Fs
mk_fat16_fs d = record {
  dev = d;
  oft = init;
  open_parent = zeros;
  boot = zeros;
  fat = zeros;
  cwd_path = codes "/";
  cwd_cluster = root_cluster;
  cur_uid = 0;
  cur_gid = 0;
  user_slot = 0;
  mounted = false;
  has_disk_path = false;
  image = none;
}

abbrev pub with_dev : Fat16Fs → BlockDevice → Fat16Fs
with_dev u d = record u { dev = d }

abbrev pub with_fat : Fat16Fs → (ℕ → ℕ) → Fat16Fs
with_fat u fat = record u { fat = fat }

unfoldable pub set_user : ℕ → ℕ → Fat16Fs → Fat16Fs
set_user uid gid u = record u { cur_uid = uid; cur_gid = gid; user_slot = 0 }

unfoldable pub set_disk_path : Bool → Fat16Fs → Fat16Fs
set_disk_path on u = record u { has_disk_path = on }

-- The block of a cluster.
abbrev pub cluster_to_block : ℕ → ℕ
cluster_to_block cluster = data_start + cluster - 2

unfoldable pub read_fat_entry : Fat16Fs → ℕ → Option ℕ
read_fat_entry u cluster = if leb clusters_per_fat cluster then none else some (u.fat cluster)

unfoldable pub write_fat_entry : Fat16Fs → ℕ → ℕ → Option Fat16Fs
write_fat_entry u cluster value =
    if leb clusters_per_fat cluster then none else some (with_fat u (update u.fat cluster value))

-- The search for a free cluster.
unfoldable pub free_from : (ℕ → ℕ) → Option ℕ
free_from fat = first_index (λ i. fat i == fat_free) 2 data_blk_count

abbrev pub or_end : Option ℕ → ℕ
or_end none = fat_end
or_end (some c) = c

unfoldable pub find_free_cluster : Fat16Fs → ℕ
find_free_cluster u = or_end (free_from u.fat)

-- The cluster given out, which is marked as the end of a chain, and the table.
abbrev pub alloc_with : (ℕ → ℕ) → Option ℕ → ℕ × (ℕ → ℕ)
alloc_with fat none = (fat_end, fat)
alloc_with fat (some c) = (c, update fat c fat_end)

unfoldable pub alloc_cluster : (ℕ → ℕ) → ℕ × (ℕ → ℕ)
alloc_cluster fat = alloc_with fat (free_from fat)

-- `current >= 2 && current != FAT16_END_OF_CHAIN`
abbrev pub is_live : ℕ → Bool
is_live cluster = leb 2 cluster && not (cluster == fat_end)

-- The loop of `free_cluster_chain`, for so many turns at most.
unfoldable pub free_loop : ℕ → (ℕ → ℕ) → ℕ → ℕ → ℕ
free_loop zero fat current = fat
free_loop (suc turns) fat current =
    let rest = free_loop turns (update fat current fat_free) (fat current) in
    if is_live current then rest else fat

-- The loop of `count_clusters`.
unfoldable pub count_loop : ℕ → (ℕ → ℕ) → ℕ → ℕ
count_loop zero fat cur = 0
count_loop (suc turns) fat cur =
    let rest = suc (count_loop turns fat (fat cur)) in if is_live cur then rest else 0

unfoldable pub count_clusters : Fat16Fs → ℕ → ℕ
unfolding count_loop
count_clusters u start = count_loop 2000 u.fat start

-- `flush_fat` from block i of the table on, for n blocks.
unfoldable pub flush_from : ℕ → ℕ → (ℕ → ℕ) → BlockDevice → BlockDevice
flush_from i zero fat d = d
flush_from i (suc n) fat d =
    let blk = bytes (λ j. fat (i * entries_per_fat_blk + j)) in
    flush_from (suc i) n fat (write_buf (write_buf d (fat1_start + i) blk) (fat2_start + i) blk)

unfoldable pub flush_fat : Fat16Fs → Fat16Fs
unfolding flush_from
flush_fat u = with_dev u (flush_from 0 fat_size u.fat u.dev)

unfoldable pub free_cluster_chain : Fat16Fs → ℕ → Fat16Fs
unfolding free_loop flush_fat
free_cluster_chain u start_cluster = flush_fat (with_fat u (free_loop 2000 u.fat start_cluster))

-- The table with the entries of its block i read from the disk.
abbrev pub load_block : ℕ → BlockDevice → (ℕ → ℕ) → ℕ → ℕ
load_block i d fat idx =
    if leb (i * entries_per_fat_blk) idx && ltb idx (i * entries_per_fat_blk + entries_per_fat_blk)
    then word (read_buf d (fat1_start + i)) (idx - i * entries_per_fat_blk)
    else fat idx

-- `init_fat_from_disk` from block i of the table on, for n blocks.
unfoldable pub init_from : ℕ → ℕ → BlockDevice → (ℕ → ℕ) → ℕ → ℕ
init_from i zero d fat = fat
init_from i (suc n) d fat = init_from (suc i) n d (load_block i d fat)

unfoldable pub init_fat_from_disk : Fat16Fs → Fat16Fs
unfolding init_from
init_fat_from_disk u = with_fat u (init_from 0 fat_size u.dev zeros)

unfoldable pub sync : Fat16Fs → Fat16Fs
unfolding flush_fat
sync u =
    let flushed = flush_fat u in
    let d = write_buf flushed.dev boot_blk u.boot in
    if u.has_disk_path then record u { dev = d; image = some (save_to_file d) } else u

-- A 16-bit field of a packed structure, at its offset.
abbrev pub field16 : Buffer → ℕ → ℕ
field16 buf off = buf off + 256 * buf (off + 1)
