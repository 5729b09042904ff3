-- ===== src/BlockDevice.antt =====
-- src/core/block_device.cpp: the virtual disk, one flat array of bytes.
-- A host file is the sequence of its bytes: its length and its contents.
pub mod Laws
use pseudo_fs.Common.{
  ℕ, ◌+◌, ◌-◌, ◌*◌, ◌≡◌, Bool, true, false, ◌&&◌, Option, none, some, ltb, leb, if◌then◌else◌,
}
use pseudo_fs.Common.Arrays.{Buffer, zeros, u32_mod}
use Prim.Native.Nat.{◌%◌}

pub record BlockDevice : Type 0 where
  pub disk : Buffer
  pub total_blocks : ℕ
  pub block_size : ℕ

-- The constructor: `calloc` gives zeros.
unfoldable pub create : ℕ → ℕ → BlockDevice
create total size = record { disk = zeros; total_blocks = total; block_size = size }

-- `memcpy` of `n` bytes between two arrays, into dst + off, from src.
abbrev pub copy_in : ℕ → ℕ → Buffer → Buffer → Buffer
copy_in off n src dst i = if leb off i && ltb i (off + n) then src (i - off) else dst i

-- `none` is the return value -1, which leaves the caller's buffer as it was.
unfoldable pub read_block : BlockDevice → ℕ → Option Buffer
read_block d block_no =
    if leb d.total_blocks block_no then none else some (λ i. d.disk (block_no * d.block_size + i))

unfoldable pub write_block : BlockDevice → ℕ → Buffer → Option BlockDevice
write_block d block_no buf =
    if leb d.total_blocks block_no
    then none
    else some (record d { disk = copy_in (block_no * d.block_size) d.block_size buf d.disk })

-- A host file, as `fopen` finds it.
pub record HostFile : Type 0 where
  pub size : ℕ
  pub contents : Buffer

-- `save_to_file` when `fopen` and `fwrite` succeed.
unfoldable pub save_to_file : BlockDevice → HostFile
save_to_file d = record { size = d.total_blocks * d.block_size; contents = d.disk }

-- `load_from_file`: `fread` overwrites the bytes that the file has, also where it is too short.
-- The device after the call, and whether 0 was returned; `none` is a file that cannot be opened.
unfoldable pub load_from_file : BlockDevice → Option HostFile → BlockDevice × Bool
load_from_file d none = (d, false)
load_from_file d (some f) =
    let total = d.total_blocks * d.block_size in
    if leb total f.size
    then (record d { disk = copy_in 0 total f.contents d.disk }, true)
    else (record d { disk = copy_in 0 f.size f.contents d.disk }, false)

unfoldable pub disk_size : BlockDevice → ℕ
disk_size d = d.total_blocks * d.block_size % u32_mod

unfoldable pub zero_all : BlockDevice → BlockDevice
zero_all d = record d { disk = copy_in 0 (d.total_blocks * d.block_size) zeros d.disk }

-- A call of `read_block` whose result the caller ignores, into a local buffer. A buffer that was
-- not filled in holds indeterminate bytes in the source; here it holds zeros.
unfoldable pub read_buf : BlockDevice → ℕ → Buffer
unfolding read_block
read_buf d block_no = elim (read_block d block_no) [ none ↦ zeros | some buf ↦ buf ]

-- A call of `write_block` whose result the caller ignores.
unfoldable pub write_buf : BlockDevice → ℕ → Buffer → BlockDevice
unfolding write_block
write_buf d block_no buf = elim (write_block d block_no buf) [ none ↦ d | some d' ↦ d' ]
