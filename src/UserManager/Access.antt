-- ===== src/UserManager/Access.antt =====
-- What the rwx check of the user manager decides.
use pseudo_fs.Common.{
  ℕ, ◌/◌, ◌%◌, ◌^◌, ◌≡◌, ◌≢◌, refl, Bool, true, false, ◌==◌, if◌then◌else◌, arith, bit_and,
}
use pseudo_fs.Common.Bits.{bit_and_one, bit_and_two, bit_and_four}
use pseudo_fs.UserManager.{
  UserManager, find_user, same_group, check_access, access_read, access_write, access_exec,
}

-- The place of the three bits that apply: those of the owner, of the group, or of the others.
abbrev pub class_shift : UserManager → ℕ → ℕ → ℕ → ℕ
class_shift m uid file_uid file_gid =
    if uid == file_uid then 6 else if same_group (find_user m uid) file_gid then 3 else 0

-- Bit number n of a mode.
abbrev has_bit : ℕ → ℕ → Bool
has_bit mode n = mode / 2 ^ n % 2 == 1

root_passes :
    (m : UserManager) (file_uid file_gid mode access : ℕ)
    → check_access m 0 file_uid file_gid mode access ≡ true
unfolding check_access
root_passes m file_uid file_gid mode access = refl

bits :
    (x : ℕ)
    → ((bit_and x 1 == 1) ≡ (x % 2 == 1))
      × ((bit_and x 2 == 2) ≡ (x / 2 % 2 == 1))
      × ((bit_and x 4 == 4) ≡ (x / 4 % 2 == 1))
bits x =
    (ground (arith, bit_and_one x), ground (arith, bit_and_two x), ground (arith, bit_and_four x))

-- For any user but root the check of ACCESS_READ tests bit 0 of the three bits that apply, which is
-- PERM_?X; ACCESS_WRITE tests bit 1, PERM_?W; and ACCESS_EXEC tests bit 2, PERM_?R.
pub check_access_bits :
    (m : UserManager) (uid file_uid file_gid mode : ℕ)
    → uid ≢ 0
    → let shift = class_shift m uid file_uid file_gid in
      (check_access m uid file_uid file_gid mode access_read ≡ (mode / 2 ^ shift % 2 == 1))
      × (check_access m uid file_uid file_gid mode access_write ≡ (mode / 2 ^ shift / 2 % 2 == 1))
      × (check_access m uid file_uid file_gid mode access_exec ≡ (mode / 2 ^ shift / 4 % 2 == 1))
unfolding check_access
check_access_bits m uid file_uid file_gid mode ne =
    let b = bits (mode / 2 ^ class_shift m uid file_uid file_gid) in
    let z : (uid == 0) ≡ false = ground arith in rw z b
