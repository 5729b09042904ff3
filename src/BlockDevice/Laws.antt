-- ===== src/BlockDevice/Laws.antt =====
-- src/core/block_device.cpp: reading a block after writing one.
use pseudo_fs.Common.{ℕ, ◌+◌, ◌-◌, ◌*◌, ◌≤◌, ◌<◌, ◌≡◌, ◌≢◌, arith, inl, inr, ◌⊎◌, suc}
use native.Mathlib.Nat.{mul-le-mul_right}
use native.Mathlib.Decide.{dec_lt}
use pseudo_fs.Common.Arrays.{Buffer}
use pseudo_fs.BlockDevice.{BlockDevice, copy_in, read_buf, write_buf}

pub copy_in_self :
    (off n : ℕ) (src dst : Buffer) (i : ℕ) → i < n → copy_in off n src dst (off + i) ≡ src i
copy_in_self off n src dst i h = let e : off + i - off ≡ i = omega arith in ground arith

pub copy_in_outside :
    (off n : ℕ) (src dst : Buffer) (i : ℕ)
    → (i < off) ⊎ (off + n ≤ i)
    → copy_in off n src dst i ≡ dst i
copy_in_outside off n src dst i h = ground arith

-- Two blocks of a disk do not overlap.
blocks_apart : (b c s i : ℕ) → b ≢ c → i < s → (c * s + i < b * s) ⊎ (b * s + s ≤ c * s + i)
blocks_apart b c s i h p = elim (dec_lt c b) [
  | yes q ↦ inl (omega (arith, mul-le-mul_right s q))
  | no q ↦ let above : suc b ≤ c = omega arith in inr (omega (arith, mul-le-mul_right s above))
]

pub read_buf-write_buf_self :
    (d : BlockDevice) (b : ℕ) (buf : Buffer) (i : ℕ)
    → b < d.total_blocks
    → i < d.block_size
    → read_buf (write_buf d b buf) b i ≡ buf i
unfolding read_buf write_buf
read_buf-write_buf_self d b buf i h p =
    ground (arith, copy_in_self (b * d.block_size) d.block_size buf d.disk i p)

pub read_buf-write_buf_ne :
    (d : BlockDevice) (b c : ℕ) (buf : Buffer) (i : ℕ)
    → b ≢ c
    → i < d.block_size
    → read_buf (write_buf d b buf) c i ≡ read_buf d c i
unfolding read_buf write_buf
read_buf-write_buf_ne d b c buf i h p = ground (
  arith,
  copy_in_outside (b * d.block_size) d.block_size buf d.disk (c * d.block_size + i)
      (blocks_apart b c d.block_size i h p),
)

pub write_buf_shape :
    (d : BlockDevice) (b : ℕ) (buf : Buffer)
    → ((write_buf d b buf).total_blocks ≡ d.total_blocks)
      × ((write_buf d b buf).block_size ≡ d.block_size)
unfolding write_buf
write_buf_shape d b buf = ground arith
