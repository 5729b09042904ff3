-- ===== src/Common/Int.antt =====
-- Signed integers, as file descriptors and status codes.
use Prim.Native.Nat.{ℕ}

-- `negsuc n` is -(n + 1).
pub data ℤ : Type 0 where
  pos : ℕ → ℤ
  negsuc : ℕ → ℤ

-- The return value -1.
abbrev pub minus_one : ℤ
minus_one = negsuc 0
