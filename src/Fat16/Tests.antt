-- ===== src/Fat16/Tests.antt =====
-- The allocation table, names and a read of a small FAT16 volume: one file of 600 bytes in the
-- clusters 2 and 3.
use mathlib.Core.List.{Mem, mem-cons_self, mem-cons_of_mem, not-mem-nil}
use pseudo_fs.Common.{
  ℕ, ◌+◌, ◌-◌, ◌≤◌, ◌<◌, ◌≡◌, ◌≢◌, ◌⊎◌, refl, List, [], ◌∷◌, none, some, ◌∙◌, true, false, min,
  arith, ◌%◌, ltb, if◌then◌else◌,
}
use pseudo_fs.Common.Arrays.{zeros, update}
use pseudo_fs.Common.Int.{pos}
use pseudo_fs.Common.Lists.{All, NotIn}
use pseudo_fs.Common.CStrings.{CString, codes, take}
use pseudo_fs.Common.Search.{first_index}
use pseudo_fs.BlockDevice.{BlockDevice, read_buf, read_block}
use pseudo_fs.OpenFileTable.{
  init, alloc_fd, alloc_sys_entry, free_fd_slot, sys_index, is_valid, get_flags, get_offset,
  get_inode,
}
use pseudo_fs.UnixFs.{has_bits, o_read}
use pseudo_fs.Fat16.{
  Fat16Fs, fat_end, fat_free, find_free_cluster, cluster_to_block, data_start, free_cluster_chain,
  clusters_per_fat,
}
use pseudo_fs.Fat16.Volume.{new_boot, fs_mount, fs_unmount}
use pseudo_fs.Fat16.Names.{FatDirEntry, zero_entry, to_upper, entry_name, set_dir_entry_name}
use pseudo_fs.Fat16.Entries.{
  last_loop, put_entry, read_dir_entries, entries_from, entry_byte, le_byte,
}
use pseudo_fs.Fat16.Sizes.{get_file_size, find_size}
use pseudo_fs.Fat16.Files.{fs_read, read_loop}
use pseudo_fs.Fat16.Alloc.{IsCluster, Takes, Full, alloc_cluster_lem}
use pseudo_fs.Fat16.Chains.{Chain, last_loop-last, free_cluster_chain-take}
use pseudo_fs.Fat16.Owned.{Owned, replaced, free_cluster_chain-Owned}
use pseudo_fs.Fat16.WriteLaws.{fs_write-Longer}
use pseudo_fs.Fat16.Seeking.{Longer}
use pseudo_fs.Fat16.Writing.{fs_write, write_loop}
use pseudo_fs.Fat16.Mirror.{fs_mount-fs_unmount}
use pseudo_fs.Fat16.NameLaws.{IsNameByte, entry_name-long}
use pseudo_fs.Fat16.Reading.{chain_byte, fs_read-chain_byte}
use pseudo_fs.Fat16.Paths.{Tm}
use pseudo_fs.Vfs.Engines.{fat16_engine}
use pseudo_fs.Commands.Files.{copy_loop}
use pseudo_fs.Commands.Copying.{copy_loop-At}
use pseudo_fs.Commands.Pieces.{length-bytes_at}
use pseudo_fs.Commands.FatCopy.{IsOpen, Held, remaining, fat16_files, size_same}
use pseudo_fs.Fat16.ReadBack.{read_loop-write_loop}

abbrev table : ℕ → ℕ
table = update (update zeros 2 3) 3 fat_end

-- An entry named A of the root directory.
abbrev file_entry : FatDirEntry
file_entry = record zero_entry {
  name = update zeros 0 65;
  attr = 0x20;
  first_cluster = 2;
  file_size = 600;
}

abbrev disk : BlockDevice
disk = record { disk = put_entry zeros 304 file_entry; total_blocks = 2082; block_size = 512 }

abbrev volume : Fat16Fs
volume = record {
  dev = disk;
  oft = (alloc_fd init 0 2 1).1;
  open_parent = zeros;
  boot = new_boot;
  fat = table;
  cwd_path = codes "/";
  cwd_cluster = 0;
  cur_uid = 0;
  cur_gid = 0;
  user_slot = 0;
  mounted = true;
  has_disk_path = false;
  image = none;
}

chain : Chain table 2 (2 ∷ 3 ∷ [])
chain = (refl, (omega arith, omega arith), (refl, (omega arith, omega arith), refl))

abbrev chains : ℕ → List ℕ
chains = update (λ i. []) 0 (2 ∷ 3 ∷ [])

none-Owned : Owned zeros (λ i. [])
none-Owned = record {
  valid = λ i. tt;
  apart = λ i j k ne m. absurd (not-mem-nil m);
  covered = λ k v out. refl;
}

table_ne : (k : ℕ) → k ≢ 2 → k ≢ 3 → table k ≡ 0
table_ne k a b = ground arith

owner : (k : ℕ) → Mem k (2 ∷ 3 ∷ []) → Mem k (chains 0)
owner k m = m

chains-Owned : Owned table chains
chains-Owned =
    replaced (λ i. []) 0 (2 ∷ 3 ∷ []) zeros table none-Owned chain (λ i ne. tt)
      (λ i k ne m. not-mem-nil)
      (λ k v out.
        table_ne k (λ e. out 0 (owner k (rw e mem-cons_self)))
          (λ e. out 0 (owner k (rw e (mem-cons_of_mem 2 mem-cons_self)))))

alloc_cluster_lem_example :
    ((c : ℕ) × Takes table c
      × (data_start ≤ cluster_to_block c)
      × (cluster_to_block c < 2082)
      × (find_free_cluster volume ≡ c))
    ⊎ (Full table × (find_free_cluster volume ≡ fat_end))
alloc_cluster_lem_example = alloc_cluster_lem volume

free_cluster_chain-take_example :
    (Mem {A = ℕ} 3 (take 2000 (2 ∷ 3 ∷ [])) → (free_cluster_chain volume 2).fat 3 ≡ fat_free)
    × (¬ Mem {A = ℕ} 3 (take 2000 (2 ∷ 3 ∷ [])) → (free_cluster_chain volume 2).fat 3 ≡ table 3)
free_cluster_chain-take_example = free_cluster_chain-take volume 2 (2 ∷ 3 ∷ []) 3 chain

last_loop-last_example : last_loop clusters_per_fat table 2 ≡ 3
last_loop-last_example = last_loop-last table 2 (3 ∷ []) chain

free_cluster_chain-Owned_example : Owned (free_cluster_chain volume 2).fat (update chains 0 [])
free_cluster_chain-Owned_example =
    free_cluster_chain-Owned volume chains 0 2 (3 ∷ []) chains-Owned refl (omega arith)

fs_mount-fs_unmount_example :
    let r = fs_mount (fs_unmount volume).1 in
    (r.0 ≡ pos 0)
    × (r.1.mounted ≡ true)
    × ((k : ℕ) → k < 512 → r.1.boot k ≡ new_boot k)
    × ((idx : ℕ) → idx < 2304 → table idx < 65536 → r.1.fat idx ≡ table idx)
fs_mount-fs_unmount_example = fs_mount-fs_unmount volume refl (refl, refl) refl refl

letter : (c : ℕ) → 64 < c → IsNameByte c
letter c p = ((λ e. omega arith), (λ e. omega arith), λ e. omega arith)

abbrev long_name : CString
long_name = codes "ABCDEFGHI"

long_name-bytes : All IsNameByte long_name
long_name-bytes = (
  letter 65 (omega arith),
  (
    letter 66 (omega arith),
    (
      letter 67 (omega arith),
      (
        letter 68 (omega arith),
        (
          letter 69 (omega arith),
          (
            letter 70 (omega arith),
            (letter 71 (omega arith), (letter 72 (omega arith), (letter 73 (omega arith), tt))),
          ),
        ),
      ),
    ),
  ),
)

entry_name-long_example : entry_name (set_dir_entry_name zero_entry long_name) ≢ to_upper long_name
entry_name-long_example = entry_name-long zero_entry long_name long_name-bytes (omega arith)

descriptor_valid : is_valid volume.oft 0 (pos 0) ≡ true
unfolding is_valid sys_index alloc_fd alloc_sys_entry free_fd_slot first_index init
descriptor_valid = refl

descriptor_readable : has_bits (get_flags volume.oft 0 (pos 0)) o_read ≡ true
unfolding get_flags sys_index alloc_fd alloc_sys_entry free_fd_slot first_index init
descriptor_readable = refl

descriptor_offset : get_offset volume.oft 0 (pos 0) ≡ 0
unfolding get_offset sys_index alloc_fd alloc_sys_entry free_fd_slot first_index init
descriptor_offset = refl

descriptor_cluster : get_inode volume.oft 0 (pos 0) ≡ 2
unfolding get_inode sys_index alloc_fd alloc_sys_entry free_fd_slot first_index init
descriptor_cluster = refl

size_of_file : get_file_size volume 0 2 ≡ 600
unfolding get_file_size read_dir_entries entries_from find_size read_buf read_block put_entry
    entry_byte le_byte
size_of_file = refl

fs_read-chain_byte_example :
    let r = fs_read volume (pos 0) zeros 1000 in
    let n = min 1000 (600 - 0) in
    (r.0 ≡ pos n) × ((i : ℕ) → i < n → r.2 i ≡ chain_byte disk (2 ∷ 3 ∷ []) (0 + i))
fs_read-chain_byte_example =
    fs_read-chain_byte volume (pos 0) zeros 1000 0 600 (2 ∷ 3 ∷ []) refl descriptor_valid
      descriptor_readable descriptor_offset (rw descriptor_cluster size_of_file)
      (rw descriptor_cluster chain) (omega arith) (omega arith)

fs_write-Longer_example : Longer chains 0 (fs_write volume (pos 0) zeros 2000).1.fat
fs_write-Longer_example =
    fs_write-Longer volume (pos 0) zeros 2000 chains 0 chains-Owned
      (rw descriptor_cluster mem-cons_self)

abbrev rewritten : ℕ × (ℕ → ℕ) × BlockDevice
rewritten = write_loop 600 (λ i. i % 256) 600 2 5 0 table disk

read_loop-write_loop_example :
    (rewritten.0 ≡ 600)
    × (rewritten.1 ≡ table)
    × ((read_loop 600 rewritten.2 table 600 2 5 0 zeros).0 ≡ 600)
    × ((i : ℕ)
        → (read_loop 600 rewritten.2 table 600 2 5 0 zeros).1 i
          ≡ (if ltb i 600 then i % 256 else 0))
    × ((x j : ℕ)
        → IsCluster x
        → NotIn x (2 ∷ 3 ∷ [])
        → j < 512
        → read_buf rewritten.2 (cluster_to_block x) j ≡ read_buf disk (cluster_to_block x) j)
read_loop-write_loop_example =
    read_loop-write_loop (λ i. i % 256) zeros 600 2 5 table disk (2 ∷ 3 ∷ []) (refl, refl) chain
      (omega arith) (omega arith)

-- The file is open twice, the second time in place of a destination that takes nothing.
abbrev opened_twice : Fat16Fs
opened_twice = record volume { oft = (alloc_fd (alloc_fd init 0 2 1).1 0 2 1).1 }

opened_twice-IsOpen : IsOpen (2 ∷ 3 ∷ []) 600 2 0 1 opened_twice 0
unfolding sys_index alloc_fd alloc_sys_entry free_fd_slot first_index init
opened_twice-IsOpen = record {
  i = 0;
  j = 1;
  mounted = refl;
  found = refl;
  inode = refl;
  at = refl;
  readable = refl;
  other = refl;
  no_write = refl;
  no_append = refl;
  sized = size_same volume opened_twice.oft 0 2 ∙ size_of_file;
  chain = chain;
  inside = omega arith;
  bounded = omega arith;
  small = omega arith;
}

abbrev noon : Tm
noon = record { tm_year = 126; tm_mon = 0; tm_mday = 1; tm_hour = 12; tm_min = 0; tm_sec = 0 }

-- The loop of cp and mv reads the file to its end.
whole_file_read :
    (v : Fat16Fs) × (copy_loop (fat16_engine noon) 2 opened_twice 0 1 ≡ some v)
    × Held (2 ∷ 3 ∷ []) 600 2 0 1 v [] [] 0
unfolding fat16_files
whole_file_read =
    let text = remaining (2 ∷ 3 ∷ []) 600 2 0 1 opened_twice 0 opened_twice-IsOpen in
    copy_loop-At (fat16_engine noon) 0 1 (fat16_files (2 ∷ 3 ∷ []) 600 2 0 1 noon) 1 opened_twice
      text [] 0 (0, opened_twice-IsOpen, refl, refl, refl)
      (omega (arith, length-bytes_at 600 0 (chain_byte disk (2 ∷ 3 ∷ []))))
