-- ===== src/Common/Arrays.antt =====
-- C arrays as functions from the index, and the 16-bit words of a byte buffer.
use Prim.Native.Nat.{ℕ, ◌+◌, ◌*◌, ◌/◌, ◌%◌, ◌<◌}
use mathlib.Core.Path.{◌≡◌}
use mathlib.Core.Logic.{◌≢◌}
use native.Mathlib.Omega.{arith}
use pseudo_fs.Common.Tests.{ltb, ◌==◌, if◌then◌else◌}

-- An array of bytes, such as a block buffer.
abbrev pub Buffer : Type 0
Buffer = ℕ → ℕ

-- `memset(buf, 0, n)` on a buffer of n bytes.
abbrev pub zeros : Buffer
zeros i = 0

-- `a[i] = v`
abbrev pub update {ℓ} : {A : Type ℓ} → (ℕ → A) → ℕ → A → ℕ → A
update a i v j = if i == j then v else a j

-- `for (i = 0; i < n; i++) dst[i] = src[i];`
abbrev pub copy_below : ℕ → (ℕ → ℕ) → (ℕ → ℕ) → ℕ → ℕ
copy_below n src dst i = if ltb i n then src i else dst i

abbrev pub u16_mod : ℕ
u16_mod = 65536

abbrev pub u32_mod : ℕ
u32_mod = 4294967296

-- `x--` and `x++` on a uint16_t.
abbrev pub dec16 : ℕ → ℕ
dec16 x = (x + 65535) % 65536

abbrev pub inc16 : ℕ → ℕ
inc16 x = (x + 1) % 65536

-- Element i of a byte buffer that is read as an array of uint16_t, on a little-endian machine.
unfoldable pub word : Buffer → ℕ → ℕ
word buf i = buf (2 * i) + 256 * buf (2 * i + 1)

-- The bytes of an array of uint16_t.
unfoldable pub bytes : (ℕ → ℕ) → Buffer
bytes w j = if j % 2 == 0 then w (j / 2) % 256 else w (j / 2) / 256 % 256

-- `((uint16_t*)buf)[i] = v`
unfoldable pub set_word : Buffer → ℕ → ℕ → Buffer
set_word buf i v j = if j == 2 * i then v % 256 else if j == 2 * i + 1 then v / 256 % 256 else buf j

double_div : (i : ℕ) → (2 * i / 2 ≡ i) × (2 * i % 2 ≡ 0)
double_div i = omega arith

double_suc_div : (i : ℕ) → ((2 * i + 1) / 2 ≡ i) × ((2 * i + 1) % 2 ≡ 1)
double_suc_div i = omega arith

pub word-bytes : (w : ℕ → ℕ) (i : ℕ) → w i < 65536 → word (bytes w) i ≡ w i
unfolding word bytes
word-bytes w i h =
    rw ((double_div i).0, (double_div i).1, (double_suc_div i).0, (double_suc_div i).1)
      (omega arith)

pub word-set_word_self : (buf : Buffer) (i v : ℕ) → v < 65536 → word (set_word buf i v) i ≡ v
unfolding word set_word
word-set_word_self buf i v h = ground arith

pub word-set_word_ne : (buf : Buffer) (i j v : ℕ) → i ≢ j → word (set_word buf i v) j ≡ word buf j
unfolding word set_word
word-set_word_ne buf i j v h = ground arith

pub word-lt : (buf : Buffer) (i : ℕ) → ((j : ℕ) → buf j < 256) → word buf i < 65536
unfolding word
word-lt buf i h = omega (arith, h (2 * i), h (2 * i + 1))
