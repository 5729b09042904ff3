-- ===== src/SuperBlock.antt =====
-- src/fs/unix/super_block.cpp: free data blocks in linked groups, free inode numbers in a stack.
-- A `Volume` is the block device with the in-memory copy of the super block that works on it.
-- The arrays s_free and s_inode have 50 places each; an index beyond them is out of bounds in the
-- source, and is an ordinary place of the function here.
pub mod Blocks
pub mod Image
pub mod FreeList
pub mod Alloc
pub mod Free
pub mod Collect
pub mod Format
pub mod Inodes
pub mod Exhausted
pub mod Writes
pub mod Tests
use pseudo_fs.Common.{
  ℕ, zero, suc, ◌+◌, ◌-◌, ◌%◌, ◌≡◌, Bool, true, false, ◌&&◌, ◌||◌, List, [], ◌∷◌, ◌++◌, ltb, leb,
  ◌==◌, if◌then◌else◌,
}
use pseudo_fs.Common.Arrays.{
  Buffer, zeros, update, copy_below, dec16, inc16, u16_mod, u32_mod, word, bytes,
}
use pseudo_fs.Layout.{
  super_blk, data_start_blk, data_blk_num, inode_blk_num, inode_total, nicfree, nicinod,
  invalid_blk, end_of_chain,
}
use pseudo_fs.BlockDevice.{BlockDevice, read_buf, write_buf}

pub record DiskSuperBlock : Type 0 where
  pub s_isize : ℕ
  pub s_fsize : ℕ
  pub s_nfree : ℕ
  pub s_free : ℕ → ℕ
  pub s_ninode : ℕ
  pub s_inode : ℕ → ℕ
  pub s_rinode : ℕ
  pub s_free_total : ℕ
  pub s_inode_total : ℕ
  pub s_root_ino : ℕ
  pub s_fmod : ℕ

pub record Volume : Type 0 where
  pub dev : BlockDevice
  pub sb : DiskSuperBlock
  pub open sb use *

-- The block of the data area with this number, as the callers read and write it.
abbrev pub data_block : BlockDevice → ℕ → Buffer
data_block d b = read_buf d (data_start_blk + b)

abbrev pub write_data : BlockDevice → ℕ → Buffer → BlockDevice
write_data d b buf = write_buf d (data_start_blk + b) buf

-- `memset(&sb_, 0, sizeof(sb_))`
abbrev pub blank : DiskSuperBlock
blank = record {
  s_isize = 0;
  s_fsize = 0;
  s_nfree = 0;
  s_free = λ i. 0;
  s_ninode = 0;
  s_inode = λ i. 0;
  s_rinode = 0;
  s_free_total = 0;
  s_inode_total = 0;
  s_root_ino = 0;
  s_fmod = 0;
}

-- The constructor.
unfoldable pub attach : BlockDevice → Volume
attach d = record { dev = d; sb = blank }

-- The struct's memory as 16-bit words. Its last byte is padding.
unfoldable pub image : DiskSuperBlock → ℕ → ℕ
image s k =
    if k == 0
    then s.s_isize
    else if k == 1
    then s.s_fsize
    else if k == 2
    then s.s_nfree
    else if ltb k 53
    then s.s_free (k - 3)
    else if k == 53
    then s.s_ninode
    else if ltb k 104
    then s.s_inode (k - 54)
    else if k == 104
    then s.s_rinode
    else if k == 105
    then s.s_free_total
    else if k == 106
    then s.s_inode_total
    else if k == 107
    then s.s_root_ino
    else if k == 108
    then s.s_fmod % 256
    else 0

unfoldable pub of_image : Buffer → DiskSuperBlock
of_image buf = record {
  s_isize = word buf 0;
  s_fsize = word buf 1;
  s_nfree = word buf 2;
  s_free = λ i. word buf (3 + i);
  s_ninode = word buf 53;
  s_inode = λ i. word buf (54 + i);
  s_rinode = word buf 104;
  s_free_total = word buf 105;
  s_inode_total = word buf 106;
  s_root_ino = word buf 107;
  s_fmod = buf 216;
}

unfoldable pub load : Volume → Volume
load v = record v { sb = of_image (read_buf v.dev super_blk) }

unfoldable pub flush : Volume → Volume
flush v = record v {
  dev = write_buf v.dev super_blk (bytes (image v.sb));
  sb = record (v.sb) { s_fmod = 0 };
}

-- The words of one group: a count, the link to the group before, then block numbers that follow
-- `storage` one by one.
unfoldable pub group_image : ℕ → ℕ → ℕ → ℕ
group_image prev_link storage k =
    if k == 0
    then nicfree
    else if k == 1
    then prev_link
    else if ltb k (1 + nicfree)
    then (storage + (k - 1)) % u16_mod
    else 0

-- The loop state of `format`: the device, `cursor` and `prev_link`.
pub record Building : Type 0 where
  pub dev : BlockDevice
  pub cursor : ℕ
  pub prev_link : ℕ

-- total_free - (cursor - reserved_blocks), compared with NICFREE as a uint32_t.
abbrev pub blocks_left : ℕ → ℕ → ℕ → ℕ
blocks_left total_free reserved cursor = (total_free + reserved + u32_mod - cursor) % u32_mod

abbrev pub build_group : Building → Building
build_group s = record {
  dev = write_data s.dev s.cursor (bytes (group_image s.prev_link s.cursor));
  cursor = (s.cursor + nicfree) % u16_mod;
  prev_link = s.cursor;
}

unfoldable pub build_groups : ℕ → ℕ → ℕ → Building → Building
build_groups zero total_free reserved s = s
build_groups (suc fuel) total_free reserved s =
    let rest = build_groups fuel total_free reserved (build_group s) in
    if leb nicfree (blocks_left total_free reserved s.cursor) then rest else s

-- `for (i = 0; i < n; i++) dst[at + i] = (first + i)`
abbrev pub fill_from : ℕ → ℕ → ℕ → (ℕ → ℕ) → ℕ → ℕ
fill_from at n first dst i =
    if leb at i && ltb i (at + n) then (first + (i - at)) % u16_mod else dst i

-- The stack of free inode numbers: the smallest is on top.
abbrev pub fill_inodes : ℕ → ℕ → (ℕ → ℕ) → ℕ → ℕ
fill_inodes n first dst i = if ltb i n then (first + (n - 1 - i)) % u16_mod else dst i

-- INODE_TOTAL - reserved_inodes, as a uint32_t.
abbrev pub inodes_left : ℕ → ℕ
inodes_left reserved_inodes = (inode_total + u32_mod - reserved_inodes) % u32_mod

abbrev pub stack_cnt : ℕ → ℕ
stack_cnt reserved_inodes =
    if ltb (inodes_left reserved_inodes) nicinod then inodes_left reserved_inodes else nicinod

-- The super block that `format` assembles after the loop.
unfoldable pub finish : ℕ → ℕ → ℕ → Building → Volume
finish total_free reserved_blocks reserved_inodes built =
    let remaining = blocks_left total_free reserved_blocks built.cursor % u16_mod in
    let inodes = stack_cnt reserved_inodes in
    record {
      dev = built.dev;
      sb = record {
        s_isize = inode_blk_num;
        s_fsize = data_blk_num;
        s_nfree = (remaining + 1) % u16_mod;
        s_free = fill_from 1 remaining built.cursor (update (λ i. 0) 0 built.prev_link);
        s_ninode = inodes;
        s_inode = fill_inodes inodes reserved_inodes (λ i. 0);
        s_rinode = (reserved_inodes + inodes) % u16_mod;
        s_free_total = total_free;
        s_inode_total = inodes_left reserved_inodes % u16_mod;
        s_root_ino = 0;
        s_fmod = 1;
      };
    }

-- Each pass of the loop takes 50 of the 2048 blocks, so as much fuel as there are blocks is enough.
unfoldable pub format : ℕ → ℕ → Volume → Volume
format reserved_blocks reserved_inodes v =
    let total_free = (data_blk_num + u16_mod - reserved_blocks) % u16_mod in
    flush (
      finish total_free reserved_blocks reserved_inodes (
        build_groups data_blk_num total_free reserved_blocks
          (record { dev = v.dev; cursor = reserved_blocks; prev_link = end_of_chain })))

-- Only the link is left in memory: the group that it names comes in, and its block goes out.
unfoldable pub refill : Volume → ℕ × Volume
refill v =
    let link_block = v.s_free 0 in
    let buf = data_block v.dev link_block in
    let count = word buf 0 in
    if link_block == end_of_chain
    then (invalid_blk, record v { sb = record (v.sb) { s_nfree = 0 } })
    else (
      link_block,
      record v {
        sb = record (v.sb) {
          s_nfree = count;
          s_free = copy_below count (λ i. word buf (1 + i)) v.s_free;
          s_free_total = dec16 v.s_free_total;
          s_fmod = 1;
        };
      },
    )

unfoldable pub balloc : Volume → ℕ × Volume
unfolding refill
balloc v = if v.s_nfree == 0 then (invalid_blk, v) else if v.s_nfree == 1 then refill v else (
  v.s_free (v.s_nfree - 1),
  record v {
    sb = record (v.sb) { s_nfree = v.s_nfree - 1; s_free_total = dec16 v.s_free_total; s_fmod = 1 };
  },
)

-- The words of the group that `bfree` writes: the whole stack.
unfoldable pub spill_image : DiskSuperBlock → ℕ → ℕ
spill_image s k = if k == 0 then s.s_nfree else if leb k s.s_nfree then s.s_free (k - 1) else 0

unfoldable pub bfree : ℕ → Volume → Volume
bfree block_no v =
    if v.s_nfree == nicfree
    then record v {
      dev = write_data v.dev block_no (bytes (spill_image v.sb));
      sb = record (v.sb) {
        s_nfree = 1;
        s_free = update v.s_free 0 block_no;
        s_free_total = inc16 v.s_free_total;
        s_fmod = 1;
      };
    }
    else record v {
      sb = record (v.sb) {
        s_nfree = (v.s_nfree + 1) % u16_mod;
        s_free = update v.s_free v.s_nfree block_no;
        s_free_total = inc16 v.s_free_total;
        s_fmod = 1;
      };
    }

unfoldable pub ialloc : Volume → ℕ × Volume
ialloc v = if v.s_ninode == 0 then (invalid_blk, v) else (
  v.s_inode (v.s_ninode - 1),
  record v {
    sb = record (v.sb) {
      s_ninode = v.s_ninode - 1;
      s_inode_total = dec16 v.s_inode_total;
      s_fmod = 1;
    };
  },
)

unfoldable pub ifree : ℕ → Volume → Volume
ifree inode_no v =
    if ltb v.s_ninode nicinod
    then record v {
      sb = record (v.sb) {
        s_inode_total = inc16 v.s_inode_total;
        s_inode = update v.s_inode v.s_ninode inode_no;
        s_ninode = v.s_ninode + 1;
        s_fmod = 1;
      };
    }
    else record v {
      sb = record (v.sb) {
        s_inode_total = inc16 v.s_inode_total;
        s_rinode = if ltb inode_no v.s_rinode then inode_no else v.s_rinode;
        s_fmod = 1;
      };
    }

-- f lo, f (lo + 1), …: n values in ascending order of the index.
unfoldable pub values_up : (ℕ → ℕ) → ℕ → ℕ → List ℕ
values_up f lo zero = []
values_up f lo (suc n) = f lo ∷ values_up f (lo + 1) n

-- The loop of `collect_free_blocks` over the groups on disk; `guard` counts down.
unfoldable pub collect_chain : ℕ → BlockDevice → ℕ → List ℕ
unfolding values_up
collect_chain zero d link = []
collect_chain (suc guard) d link =
    let grp = data_block d link in
    let count = word grp 0 in
    let rest = values_up (word grp) 2 (count - 1) ++ collect_chain guard d (word grp 1) in
    let tail : List ℕ = if count == 0 || ltb nicfree count then [] else rest in
    if link == end_of_chain then [] else link ∷ tail

unfoldable pub collect_free_blocks : Volume → List ℕ
collect_free_blocks v =
    values_up v.s_free 1 (v.s_nfree - 1)
    ++ collect_chain data_blk_num v.dev (if leb 1 v.s_nfree then v.s_free 0 else end_of_chain)

abbrev pub free_block_count : Volume → ℕ
free_block_count v = v.s_free_total

abbrev pub free_inode_count : Volume → ℕ
free_inode_count v = v.s_inode_total

abbrev pub set_root_inode : ℕ → Volume → Volume
set_root_inode ino v = record v { sb = record (v.sb) { s_root_ino = ino; s_fmod = 1 } }
