-- ===== src/Layout.antt =====
-- include/core/constants.h: the disk layout and the limits of the UNIX engine.
use pseudo_fs.Common.{ℕ}

abbrev pub block_size : ℕ
block_size = 512

abbrev pub super_blk : ℕ
super_blk = 1

abbrev pub inode_start_blk : ℕ
inode_start_blk = 2

abbrev pub inode_blk_num : ℕ
inode_blk_num = 32

abbrev pub data_start_blk : ℕ
data_start_blk = 34

abbrev pub data_blk_num : ℕ
data_blk_num = 2048

abbrev pub total_blk_num : ℕ
total_blk_num = 2082

abbrev pub inode_size : ℕ
inode_size = 64

abbrev pub inodes_per_blk : ℕ
inodes_per_blk = 8

abbrev pub inode_total : ℕ
inode_total = 256

abbrev pub direct_addr : ℕ
direct_addr = 6

abbrev pub ptrs_per_blk : ℕ
ptrs_per_blk = 256

abbrev pub nicfree : ℕ
nicfree = 50

abbrev pub nicinod : ℕ
nicinod = 50

abbrev pub max_filename : ℕ
max_filename = 14

abbrev pub dir_entry_size : ℕ
dir_entry_size = 16

abbrev pub dir_entries_per_blk : ℕ
dir_entries_per_blk = 32

abbrev pub max_open_file : ℕ
max_open_file = 20

abbrev pub sys_open_file : ℕ
sys_open_file = 40

abbrev pub max_user : ℕ
max_user = 8

abbrev pub mode_file : ℕ
mode_file = 0x0400

abbrev pub mode_dir : ℕ
mode_dir = 0x0800

abbrev pub mode_symlink : ℕ
mode_symlink = 0x1000

abbrev pub default_mode : ℕ
default_mode = 0o777

abbrev pub invalid_blk : ℕ
invalid_blk = 0xffff

abbrev pub end_of_chain : ℕ
end_of_chain = 0
