-- ===== src/SuperBlock/Blocks.antt =====
-- The 16-bit words of a block after a write, on a disk of the engine's size.
use pseudo_fs.Common.{ℕ, ◌+◌, ◌*◌, ◌<◌, ◌≡◌, ◌≢◌, arith}
use pseudo_fs.Common.Arrays.{Buffer, word}
use pseudo_fs.Layout.{block_size, total_blk_num, data_blk_num, ptrs_per_blk}
use pseudo_fs.BlockDevice.{BlockDevice, read_buf, write_buf}
use pseudo_fs.BlockDevice.Laws.{read_buf-write_buf_self, read_buf-write_buf_ne, write_buf_shape}
use pseudo_fs.SuperBlock.{data_block, write_data}

-- The device that the UNIX engine is made for.
pub record HasLayout (d : BlockDevice) : Type 0 where
  pub blocks : d.total_blocks ≡ total_blk_num
  pub bytes : d.block_size ≡ block_size

pub write_buf-HasLayout :
    (d : BlockDevice) (b : ℕ) (buf : Buffer) → HasLayout d → HasLayout (write_buf d b buf)
write_buf-HasLayout d b buf h = ground (arith, write_buf_shape d b buf)

pub word-write_buf_self :
    (d : BlockDevice) (b : ℕ) (buf : Buffer) (k : ℕ)
    → HasLayout d
    → b < total_blk_num
    → k < ptrs_per_blk
    → word (read_buf (write_buf d b buf) b) k ≡ word buf k
unfolding word
word-write_buf_self d b buf k h p q = omega (
  arith,
  h.blocks,
  h.bytes,
  read_buf-write_buf_self d b buf (2 * k) (omega (arith, h.blocks)) (omega (arith, h.bytes)),
  read_buf-write_buf_self d b buf (2 * k + 1) (omega (arith, h.blocks)) (omega (arith, h.bytes)),
)

pub word-write_buf_ne :
    (d : BlockDevice) (b c : ℕ) (buf : Buffer) (k : ℕ)
    → HasLayout d
    → b ≢ c
    → k < ptrs_per_blk
    → word (read_buf (write_buf d b buf) c) k ≡ word (read_buf d c) k
unfolding word
word-write_buf_ne d b c buf k h p q = omega (
  arith,
  read_buf-write_buf_ne d b c buf (2 * k) p (omega (arith, h.bytes)),
  read_buf-write_buf_ne d b c buf (2 * k + 1) p (omega (arith, h.bytes)),
)

pub word-write_data_self :
    (d : BlockDevice) (b : ℕ) (buf : Buffer) (k : ℕ)
    → HasLayout d
    → b < data_blk_num
    → k < ptrs_per_blk
    → word (data_block (write_data d b buf) b) k ≡ word buf k
word-write_data_self d b buf k h p q = word-write_buf_self d (34 + b) buf k h (omega arith) q

pub word-write_data_ne :
    (d : BlockDevice) (b c : ℕ) (buf : Buffer) (k : ℕ)
    → HasLayout d
    → b ≢ c
    → k < ptrs_per_blk
    → word (data_block (write_data d b buf) c) k ≡ word (data_block d c) k
word-write_data_ne d b c buf k h p q = word-write_buf_ne d (34 + b) (34 + c) buf k h (omega arith) q
