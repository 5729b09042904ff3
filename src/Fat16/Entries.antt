-- ===== src/Fat16/Entries.antt =====
-- src/fs/fat16/fat16_fs.cpp: reading and writing cluster chains, and the directory entries in them.
-- Bytes 0 and 0xE5 at the front of a name mark an unused and a deleted entry.
use pseudo_fs.Common.{
  ℕ, zero, suc, ◌+◌, ◌-◌, ◌*◌, ◌/◌, ◌%◌, Bool, true, false, not, ◌&&◌, ◌||◌, Option, none, some,
  List, [], ◌∷◌, ltb, leb, ◌==◌, if◌then◌else◌, bit_and,
}
use pseudo_fs.Common.Arrays.{Buffer, zeros, update, u32_mod}
use pseudo_fs.Common.Int.{ℤ, pos, minus_one}
use pseudo_fs.Common.Search.{first_index}
use pseudo_fs.Common.CStrings.{CString, str_eq}
use pseudo_fs.Layout.{block_size}
use pseudo_fs.BlockDevice.{BlockDevice, copy_in, read_buf, write_buf}
use pseudo_fs.Fat16.{
  Fat16Fs, with_dev, with_fat, fat_end, attr_directory, root_dir_blk, root_cluster,
  clusters_per_fat, dir_entries_per_blk, cluster_to_block, is_live, alloc_cluster, flush_fat,
  field16,
}
use pseudo_fs.Fat16.Names.{FatDirEntry, to_upper, entry_name}

-- The loop of `read_cluster_chain`: the size of the vector and its bytes.
unfoldable pub chain_loop : ℕ → BlockDevice → (ℕ → ℕ) → ℕ → ℕ → ℕ → Buffer → ℕ × Buffer
chain_loop zero d fat max_bytes current size vec = (size, vec)
chain_loop (suc turns) d fat max_bytes current size vec =
    let to_add : ℕ = if ltb max_bytes (size + block_size) then max_bytes - size else block_size in
    let read = copy_in size to_add (read_buf d (cluster_to_block current)) vec in
    let rest = chain_loop turns d fat max_bytes (fat current) (size + to_add) read in
    if not (is_live current)
    then (size, vec)
    else if leb max_bytes (size + to_add)
    then (size + to_add, read)
    else rest

-- Whether 0 is returned, and the vector, which is empty if not.
unfoldable pub read_cluster_chain : Fat16Fs → ℕ → ℕ → Bool × ℕ × Buffer
unfolding chain_loop
read_cluster_chain u start_cluster max_bytes =
    let (size, vec) = chain_loop 2000 u.dev u.fat max_bytes start_cluster 0 zeros in
    if ltb start_cluster 2 || leb clusters_per_fat start_cluster
    then (false, 0, zeros)
    else (true, size, vec)

-- `size_t max_bytes = ~0u`
abbrev pub read_all : Fat16Fs → ℕ → Bool × ℕ × Buffer
read_all u start_cluster = read_cluster_chain u start_cluster (u32_mod - 1)

-- Entry i of a buffer.
abbrev pub entry_at : Buffer → ℕ → FatDirEntry
entry_at buf i = record {
  name = λ k. buf (i * 32 + k);
  ext = λ k. buf (i * 32 + (8 + k));
  attr = buf (i * 32 + 11);
  reserved = λ k. buf (i * 32 + (12 + k));
  time = field16 buf (i * 32 + 22);
  date = field16 buf (i * 32 + 24);
  first_cluster = field16 buf (i * 32 + 26);
  file_size = field16 buf (i * 32 + 28) + 65536 * field16 buf (i * 32 + 30);
}

-- Byte k of a number, the lowest first.
unfoldable pub le_byte : ℕ → ℕ → ℕ
le_byte x zero = x % 256
le_byte x (suc k) = le_byte (x / 256) k

-- Byte k of an entry.
unfoldable pub entry_byte : FatDirEntry → ℕ → ℕ
unfolding le_byte
entry_byte e k =
    if ltb k 8
    then e.name k
    else if ltb k 11
    then e.ext (k - 8)
    else if ltb k 12
    then e.attr
    else if ltb k 22
    then e.reserved (k - 12)
    else if ltb k 24
    then le_byte e.time (k - 22)
    else if ltb k 26
    then le_byte e.date (k - 24)
    else if ltb k 28
    then le_byte e.first_cluster (k - 26)
    else le_byte e.file_size (k - 28)

-- `memcpy(e, &entry, sizeof(FAT16DirEntry))` into entry i.
unfoldable pub put_entry : Buffer → ℕ → FatDirEntry → Buffer
unfolding entry_byte
put_entry buf i e = copy_in (i * 32) 32 (entry_byte e) buf

-- The entries from number i on, up to the first that is unused.
unfoldable pub entries_from : Buffer → ℕ → ℕ → List FatDirEntry
entries_from buf i zero = []
entries_from buf i (suc n) =
    let rest = entry_at buf i ∷ entries_from buf (suc i) n in
    if (entry_at buf i).name 0 == 0 then [] else rest

-- Whether 0 is returned, and the entries.
unfoldable pub read_dir_entries : Fat16Fs → ℕ → Bool × List FatDirEntry
unfolding entries_from read_cluster_chain
read_dir_entries u cluster =
    let (ok, size, vec) = read_all u cluster in
    if cluster == root_cluster
    then (true, entries_from (read_buf u.dev root_dir_blk) 0 dir_entries_per_blk)
    else if ok
    then (true, entries_from vec 0 (size / 32))
    else (false, [])

abbrev pub is_directory : FatDirEntry → Bool
is_directory e = not (bit_and e.attr attr_directory == 0)

-- An entry that is neither unused nor deleted.
abbrev pub is_used : FatDirEntry → Bool
is_used e = not (e.name 0 == 0) && not (e.name 0 == 0xe5)

-- `for (b = 0; b < n && cur != FAT16_END_OF_CHAIN; ++b) cur = fat_[cur];`
unfoldable pub nth_cluster : ℕ → (ℕ → ℕ) → ℕ → ℕ
nth_cluster zero fat cur = cur
nth_cluster (suc n) fat cur =
    let rest = nth_cluster n fat (fat cur) in if cur == fat_end then cur else rest

-- Writes back the block of a directory's data that holds entry i, if its cluster passes a test.
abbrev pub write_entry_block : (ℕ → Bool) → Fat16Fs → ℕ → ℕ → Buffer → Fat16Fs
write_entry_block test u dir_cluster i vec =
    let blk_idx = i * 32 / block_size in
    let cur = nth_cluster blk_idx u.fat dir_cluster in
    if test cur
    then with_dev u (write_buf u.dev (cluster_to_block cur) (λ j. vec (blk_idx * block_size + j)))
    else u

-- What `remove_dir_entry` does with the place of the entry in the root block, and in a chain.
abbrev pub remove_root : Fat16Fs → Buffer → Option ℕ → ℤ × Fat16Fs
remove_root u blk none = (minus_one, u)
remove_root u blk (some i) =
    (pos 0, with_dev u (write_buf u.dev root_dir_blk (update blk (i * 32) 0xe5)))

abbrev pub remove_sub : Fat16Fs → ℕ → Buffer → Option ℕ → ℤ × Fat16Fs
remove_sub u dir_cluster vec none = (minus_one, u)
remove_sub u dir_cluster vec (some i) =
    (pos 0, write_entry_block is_live u dir_cluster i (update vec (i * 32) 0xe5))

abbrev pub is_called : CString → Buffer → ℕ → Bool
is_called name buf i = str_eq name (entry_name (entry_at buf i))

unfoldable pub remove_dir_entry : Fat16Fs → ℕ → CString → ℤ × Fat16Fs
unfolding read_cluster_chain
remove_dir_entry u dir_cluster name =
    let name_up = to_upper name in
    let blk = read_buf u.dev root_dir_blk in
    let (ok, size, vec) = read_all u dir_cluster in
    if dir_cluster == root_cluster
    then remove_root u blk (first_index (is_called name_up blk) 0 dir_entries_per_blk)
    else remove_sub u dir_cluster vec (first_index (is_called name_up vec) 0 (size / 32))

-- The last cluster of a chain. The loop of the source is not bounded; here it takes so many turns
-- at most.
unfoldable pub last_loop : ℕ → (ℕ → ℕ) → ℕ → ℕ
last_loop zero fat last = last
last_loop (suc turns) fat last =
    let rest = last_loop turns fat (fat last) in
    if not (fat last == fat_end) && leb 2 (fat last) then rest else last

abbrev pub is_open_slot : Buffer → ℕ → Bool
is_open_slot buf i = (entry_at buf i).name 0 == 0 || (entry_at buf i).name 0 == 0xe5

abbrev pub append_root : Fat16Fs → Buffer → FatDirEntry → Option ℕ → ℤ × Fat16Fs
append_root u blk entry none = (minus_one, u)
append_root u blk entry (some i) =
    (pos 0, with_dev u (write_buf u.dev root_dir_blk (put_entry blk i entry)))

-- A directory without an open slot gets a new cluster.
unfoldable pub grow_dir : Fat16Fs → ℕ → FatDirEntry → ℤ × Fat16Fs
unfolding last_loop
grow_dir u dir_cluster entry =
    let last = last_loop clusters_per_fat u.fat dir_cluster in
    let (new_c, fat) = alloc_cluster u.fat in
    let u1 = flush_fat (with_fat u (update (update fat last new_c) new_c fat_end)) in
    if new_c == fat_end
    then (minus_one, u)
    else (pos 0, with_dev u1 (write_buf u1.dev (cluster_to_block new_c) (put_entry zeros 0 entry)))

abbrev pub append_sub : Fat16Fs → ℕ → Buffer → FatDirEntry → Option ℕ → ℤ × Fat16Fs
append_sub u dir_cluster vec entry none = grow_dir u dir_cluster entry
append_sub u dir_cluster vec entry (some i) =
    (pos 0, write_entry_block (leb 2) u dir_cluster i (put_entry vec i entry))

unfoldable pub append_dir_entry : Fat16Fs → ℕ → FatDirEntry → ℤ × Fat16Fs
unfolding read_cluster_chain
append_dir_entry u dir_cluster entry =
    let blk = read_buf u.dev root_dir_blk in
    let (ok, size, vec) = read_all u dir_cluster in
    if dir_cluster == root_cluster
    then append_root u blk entry (first_index (is_open_slot blk) 0 dir_entries_per_blk)
    else append_sub u dir_cluster vec entry (first_index (is_open_slot vec) 0 (size / 32))

unfoldable pub write_dir_entry : Fat16Fs → ℕ → FatDirEntry → ℤ × Fat16Fs
write_dir_entry u dir_cluster entry = append_dir_entry u dir_cluster entry
