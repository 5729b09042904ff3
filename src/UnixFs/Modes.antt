-- ===== src/UnixFs/Modes.antt =====
-- `fs_chmod` of src/fs/unix/unix_fs.cpp: which bits of a mode it sets.
use Prim.Native.Nat.{
  ℕ, zero, suc, ◌+◌, ◌*◌, ◌/◌, ◌%◌, ◌≤◌, max, min, bit_and, bit_or, digits, bit_or-bitwise,
}
use pseudo_fs.Common.{
  ◌≡◌, ◌≢◌, refl, sym, ap, ap₂, ◌∙◌, arith, true, false, inl, inr, Bool-cases, some, ◌==◌, ltb,
  Bool, ◌&&◌, ◌||◌, ◌<◌,
}
use native.Mathlib.Decide.{ℕ_discrete}
use pseudo_fs.Common.Bits.{bit_and_split}
use pseudo_fs.Common.Int.{pos}
use pseudo_fs.Common.CStrings.{CString}
use pseudo_fs.Layout.{invalid_blk}
use pseudo_fs.Directory.{namei}
use pseudo_fs.Inode.{Inodes, MemInode, get, put, write_back, set_inode}
use pseudo_fs.UnixFs.{UnixFs, sync, with_imng}
use pseudo_fs.UnixFs.Stat.{new_mode, chmod_ip, fs_chmod}

-- The recursion that `bit_or` stands for, on fuel.
abbrev disj : ℕ → ℕ → ℕ → ℕ
disj fuel a b = digits (λ d. d) max fuel a b

disj_of_zero : (fuel b : ℕ) → disj fuel 0 b ≡ b
disj_of_zero zero b = refl
disj_of_zero (suc fuel) b = refl

-- Fuel that is not below the first number is enough.
disj_agree : (m n a b : ℕ) → a ≤ m → a ≤ n → disj m a b ≡ disj n a b
disj_agree m n zero b p q = disj_of_zero m b ∙ sym (disj_of_zero n b)
disj_agree zero n (suc a) b p q = elim p [ ]
disj_agree (suc m) zero (suc a) b p q = elim q [ ]
disj_agree (suc m) (suc n) (suc a) b p q =
    omega (arith, disj_agree m n (suc a / 2) (b / 2) (omega arith) (omega arith))

bit_or_zero_left : (b : ℕ) → bit_or 0 b ≡ b
bit_or_zero_left b = bit_or-bitwise 0 b

-- The lowest bit, and the rest.
bit_or_split : (a b : ℕ) → bit_or a b ≡ 2 * bit_or (a / 2) (b / 2) + max (a % 2) (b % 2)
bit_or_split zero b = omega (arith, bit_or_zero_left b, bit_or_zero_left (b / 2))
bit_or_split (suc a) b = omega (
  arith,
  bit_or-bitwise (suc a) b,
  bit_or-bitwise (suc a / 2) (b / 2),
  disj_agree a (suc a / 2) (suc a / 2) (b / 2) (omega arith) (omega arith),
)

-- `x >> k`
abbrev pub shift_right : ℕ → ℕ → ℕ
shift_right zero x = x
shift_right (suc k) x = shift_right k (x / 2)

-- Bit k of a number.
abbrev pub bit : ℕ → ℕ → ℕ
bit k x = shift_right k x % 2

bit-bit_or : (k a b : ℕ) → bit k (bit_or a b) ≡ max (bit k a) (bit k b)
bit-bit_or zero a b = omega (arith, bit_or_split a b)
bit-bit_or (suc k) a b =
    let half : bit_or a b / 2 ≡ bit_or (a / 2) (b / 2) = omega (arith, bit_or_split a b) in
    ap (bit k) half ∙ bit-bit_or k (a / 2) (b / 2)

bit-bit_and : (k a b : ℕ) → bit k (bit_and a b) ≡ min (bit k a) (bit k b)
bit-bit_and zero a b = omega (arith, bit_and_split a b)
bit-bit_and (suc k) a b =
    let half : bit_and a b / 2 ≡ bit_and (a / 2) (b / 2) = omega (arith, bit_and_split a b) in
    ap (bit k) half ∙ bit-bit_and k (a / 2) (b / 2)

bit-new_mode :
    (k old mode : ℕ)
    → bit k (new_mode old mode)
      ≡ max (min (bit k old) (bit k 0xff00)) (min (bit k mode) (bit k 0x01ff))
bit-new_mode k old mode =
    bit-bit_or k (bit_and old 0xff00) (bit_and mode 0x01ff)
    ∙ ap₂ max (bit-bit_and k old 0xff00) (bit-bit_and k mode 0x01ff)

-- Whether every number below n passes a test.
unfoldable all_below : (ℕ → Bool) → ℕ → Bool
all_below test zero = true
all_below test (suc n) = test n && all_below test n

all_below-at : (test : ℕ → Bool) (n k : ℕ) → all_below test n ≡ true → k < n → test k ≡ true
unfolding all_below
all_below-at test zero k e p = elim p [ ]
all_below-at test (suc n) k e p = elim (ℕ_discrete k n) [
  | yes q ↦ rw q (ground arith)
  | no q ↦ all_below-at test n k (ground arith) (omega arith)
]

-- The bits that `fs_chmod` takes from the mode it is given only, and those it keeps only.
masks_low : (k : ℕ) → k < 8 → (bit k 0xff00 ≡ 0) × (bit k 0x01ff ≡ 1)
unfolding all_below
masks_low k p =
    let e : ((bit k 0xff00 == 0) && (bit k 0x01ff == 1)) ≡ true =
      all_below-at (λ i. (bit i 0xff00 == 0) && (bit i 0x01ff == 1)) 8 k refl p in
    (ground arith, ground arith)

masks_high : (k : ℕ) → 9 ≤ k → k < 16 → (bit k 0xff00 ≡ 1) × (bit k 0x01ff ≡ 0)
unfolding all_below
masks_high k q p =
    let e : (ltb k 9 || (bit k 0xff00 == 1) && (bit k 0x01ff == 0)) ≡ true =
      all_below-at (λ i. ltb i 9 || (bit i 0xff00 == 1) && (bit i 0x01ff == 0)) 16 k refl p in
    (ground arith, ground arith)

-- The mode of an inode that stays linked is not changed by `write_back`, `put` and `sync`.
put-mode :
    (s : Inodes) (slot : ℕ)
    → (s.cache slot).di_nlink ≢ 0
    → ((put s slot).cache slot).di_mode ≡ (s.cache slot).di_mode
unfolding put write_back
put-mode s slot linked = ground arith

sync-imng : (u : UnixFs) → (sync u).imng.cache ≡ u.imng.cache
unfolding sync
sync-imng u = elim (Bool-cases u.has_disk_path) [ inl e ↦ rw e refl | inr e ↦ rw e refl ]

written-mode :
    (s : Inodes) (slot : ℕ) (ip : MemInode)
    → (write_back (set_inode s slot ip) slot).cache slot ≡ record ip { i_dirty = false }
unfolding write_back
written-mode s slot ip = ground arith

chmod_ip-mode :
    (u : UnixFs) (mode slot : ℕ) (s : Inodes)
    → (s.cache slot).di_nlink ≢ 0
    → ((chmod_ip u mode (some slot, s)).1.imng.cache slot).di_mode
      ≡ new_mode (s.cache slot).di_mode mode
chmod_ip-mode u mode slot s linked =
    ap (λ c. (c slot).di_mode) (sync-imng (with_imng u (put s1 slot)))
    ∙ put-mode s1 slot (λ e. linked (ap (λ i. i.di_nlink) (sym same) ∙ e))
    ∙ ap (λ i. i.di_mode) same
  where
    ip : MemInode
    ip = record (s.cache slot) {
      di = record ((s.cache slot).di) { di_mode = new_mode (s.cache slot).di_mode mode };
      i_dirty = true;
    }

    s1 : Inodes
    s1 = write_back (set_inode s slot ip) slot

    same : s1.cache slot ≡ record ip { i_dirty = false }
    same = written-mode s slot ip

bit_at_most : (k x : ℕ) → bit k x ≤ 1
bit_at_most zero x = omega arith
bit_at_most (suc k) x = bit_at_most k (x / 2)

-- `fs_chmod` of a path that names an inode with links returns 0, sets bits 0 to 7 of the inode's
-- mode to those asked for and keeps bits 9 to 15; but bit 8, the owner's permission to read, is set
-- if it was set before or is asked for.
pub fs_chmod_bits :
    (u : UnixFs) (path : CString) (mode ino slot : ℕ) (s t : Inodes)
    → namei u.imng path u.cwd_ino u.root_ino ≡ (ino, s)
    → ino ≢ invalid_blk
    → get s ino ≡ (some slot, t)
    → (t.cache slot).di_nlink ≢ 0
    → let r = fs_chmod u path mode in
      let old = (t.cache slot).di_mode in
      let new = (r.1.imng.cache slot).di_mode in
      (r.0 ≡ pos 0)
      × ((k : ℕ) → k < 8 → bit k new ≡ bit k mode)
      × (bit 8 new ≡ max (bit 8 old) (bit 8 mode))
      × ((k : ℕ) → 9 ≤ k → k < 16 → bit k new ≡ bit k old)
unfolding fs_chmod
fs_chmod_bits u path mode ino slot s t found valid got linked =
    rw (found, ne_test ino valid, got)
      (
        refl,
        (λ k p. is_new k ∙ low k p),
        is_new 8 ∙ omega (arith, bit_at_most 8 old, bit_at_most 8 mode),
        (λ k q p. is_new k ∙ high k q p),
      )
  where
    old : ℕ
    old = (t.cache slot).di_mode

    ne_test : (n : ℕ) → n ≢ invalid_blk → (n == invalid_blk) ≡ false
    ne_test n ne = ground arith

    is_new :
        (k : ℕ)
        → bit k ((chmod_ip u mode (some slot, t)).1.imng.cache slot).di_mode
          ≡ max (min (bit k old) (bit k 0xff00)) (min (bit k mode) (bit k 0x01ff))
    is_new k = ap (bit k) (chmod_ip-mode u mode slot t linked) ∙ bit-new_mode k old mode

    low :
        (k : ℕ)
        → k < 8
        → max (min (bit k old) (bit k 0xff00)) (min (bit k mode) (bit k 0x01ff)) ≡ bit k mode
    low k p = let (a, b) = masks_low k p in rw (a, b) (omega (arith, bit_at_most k mode))

    high :
        (k : ℕ)
        → 9 ≤ k
        → k < 16
        → max (min (bit k old) (bit k 0xff00)) (min (bit k mode) (bit k 0x01ff)) ≡ bit k old
    high k q p = let (a, b) = masks_high k q p in rw (a, b) (omega (arith, bit_at_most k old))
