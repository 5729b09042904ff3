-- ===== src/Fat16/Sizes.antt =====
-- src/fs/fat16/fat16_fs.cpp: the size of a file in its directory entry, and `write_cluster_chain`.
use pseudo_fs.Common.{
  ℕ, zero, suc, ◌+◌, ◌-◌, ◌*◌, ◌/◌, min, Bool, not, ◌&&◌, Option, none, some, List, [], ◌∷◌, leb,
  ◌==◌, if◌then◌else◌,
}
use pseudo_fs.Common.Arrays.{Buffer, zeros, update}
use pseudo_fs.Common.Search.{first_index}
use pseudo_fs.Layout.{block_size}
use pseudo_fs.BlockDevice.{BlockDevice, copy_in, read_buf, write_buf}
use pseudo_fs.Fat16.{
  Fat16Fs, with_dev, with_fat, fat_end, fat_free, root_dir_blk, root_cluster, dir_entries_per_blk,
  cluster_to_block, alloc_cluster, flush_fat,
}
use pseudo_fs.Fat16.Names.{FatDirEntry}
use pseudo_fs.Fat16.Entries.{
  read_all, read_dir_entries, read_cluster_chain, entry_at, le_byte, is_directory, is_used,
  write_entry_block,
}

-- An entry for a file that begins at this cluster.
abbrev pub is_file_at : ℕ → FatDirEntry → Bool
is_file_at first_cluster e = (e.first_cluster == first_cluster) && not (is_directory e)

unfoldable pub find_size : ℕ → List FatDirEntry → ℕ
find_size first_cluster [] = 0
find_size first_cluster (e ∷ es) =
    let rest = find_size first_cluster es in
    if is_used e && is_file_at first_cluster e then e.file_size else rest

unfoldable pub get_file_size : Fat16Fs → ℕ → ℕ → ℕ
unfolding find_size
get_file_size u dir_cluster first_cluster =
    find_size first_cluster (read_dir_entries u dir_cluster).1

-- `e->file_size = new_size` in entry i.
abbrev pub set_size : Buffer → ℕ → ℕ → Buffer
set_size buf i new_size = copy_in (i * 32 + 28) 4 (le_byte new_size) buf

abbrev pub resize_root : Fat16Fs → Buffer → ℕ → Option ℕ → Fat16Fs
resize_root u blk new_size none = u
resize_root u blk new_size (some i) =
    with_dev u (write_buf u.dev root_dir_blk (set_size blk i new_size))

abbrev pub resize_sub : Fat16Fs → ℕ → Buffer → ℕ → Option ℕ → Fat16Fs
resize_sub u dir_cluster vec new_size none = u
resize_sub u dir_cluster vec new_size (some i) =
    write_entry_block (leb 2) u dir_cluster i (set_size vec i new_size)

unfoldable pub update_file_size : Fat16Fs → ℕ → ℕ → ℕ → Fat16Fs
unfolding read_cluster_chain
update_file_size u dir_cluster first_cluster new_size =
    let blk = read_buf u.dev root_dir_blk in
    let (ok, size, vec) = read_all u dir_cluster in
    let test : Buffer → ℕ → Bool = λ buf i. is_file_at first_cluster (entry_at buf i) in
    if dir_cluster == root_cluster
    then resize_root u blk new_size (first_index (test blk) 0 dir_entries_per_blk)
    else resize_sub u dir_cluster vec new_size (first_index (test vec) 0 (size / 32))

-- The clusters that `write_cluster_chain` takes, linked into a chain, or the table in which those
-- already taken are free again. `taken` has the last one first.
abbrev pub give_back : List ℕ → (ℕ → ℕ) → ℕ → ℕ
give_back [] fat = fat
give_back (prev ∷ clusters) fat = update (give_back clusters fat) prev fat_free

abbrev pub link_last : List ℕ → ℕ → (ℕ → ℕ) → ℕ → ℕ
link_last [] c fat = fat
link_last (prev ∷ clusters) c fat = update fat prev c

unfoldable pub take_clusters : ℕ → List ℕ → (ℕ → ℕ) → Option (List ℕ) × (ℕ → ℕ)
take_clusters zero taken fat = (some taken, fat)
take_clusters (suc n) taken fat =
    let (c, fat') = alloc_cluster fat in
    let rest = take_clusters n (c ∷ taken) (link_last taken c fat') in
    if c == fat_end then (none, give_back taken fat') else rest

-- The data in the blocks of the clusters; `taken` has the last cluster first.
unfoldable pub write_taken : List ℕ → Buffer → ℕ → BlockDevice → BlockDevice
write_taken [] vec len d = d
write_taken (c ∷ taken) vec len d =
    let at = count taken * block_size in
    write_buf (write_taken taken vec len d) (cluster_to_block c)
      (copy_in 0 (min block_size (len - at)) (λ j. vec (at + j)) zeros)
  where
    count : List ℕ → ℕ
    count [] = 0
    count (t ∷ ts) = suc (count ts)

-- The first cluster, or the failure of the allocation.
abbrev pub chain_written : Fat16Fs → Buffer → ℕ → Option (List ℕ) × (ℕ → ℕ) → Option ℕ × Fat16Fs
chain_written u vec len (none, fat) = (none, with_fat u fat)
chain_written u vec len (some [], fat) = (some 0, with_fat u fat)
chain_written u vec len (some (last ∷ taken), fat) =
    let u1 = flush_fat (with_fat u (update fat last fat_end)) in
    (some (first last taken), with_dev u1 (write_taken (last ∷ taken) vec len u1.dev))
  where
    first : ℕ → List ℕ → ℕ
    first c [] = c
    first c (t ∷ ts) = first t ts

unfoldable pub write_cluster_chain : Fat16Fs → Buffer → ℕ → Option ℕ × Fat16Fs
unfolding take_clusters write_taken
write_cluster_chain u vec len =
    chain_written u vec len (take_clusters ((len + block_size - 1) / block_size) [] u.fat)
