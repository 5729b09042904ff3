-- ===== src/OpenFileTable/Counts.antt =====
-- How many places of the users' tables hold an index of the system table.
use pseudo_fs.Common.{
  ℕ, zero, suc, ◌+◌, ◌≤◌, ◌<◌, ◌≡◌, Option, none, some, ◌==◌, if◌then◌else◌, arith, Bool-cases, inl,
  inr, ==_iff, ap, refl, false, ◌*◌,
}
use pseudo_fs.Common.Arrays.{update}
use pseudo_fs.Layout.{max_user, max_open_file}
use pseudo_fs.OpenFileTable.{OpenFileTable, UserOpenFiles, set_slot}

abbrev pub hit : ℕ → Option ℕ → ℕ
hit i none = 0
hit i (some j) = if j == i then 1 else 0

-- Among the first n places of one user.
unfoldable pub count_user : ℕ → UserOpenFiles → ℕ → ℕ
count_user i f zero = 0
count_user i f (suc n) = hit i (f n) + count_user i f n

-- Among all places of the first n users.
unfoldable pub count_users : ℕ → (ℕ → UserOpenFiles) → ℕ → ℕ
count_users i table zero = 0
count_users i table (suc n) = count_user i (table n) max_open_file + count_users i table n

abbrev pub references : OpenFileTable → ℕ → ℕ
references t i = count_users i t.user_table max_user

lt_of_tests : (a n : ℕ) → a < suc n → (a == n) ≡ false → a < n
lt_of_tests a n p ne = ground arith

user_above :
    (i : ℕ) (f : UserOpenFiles) (fd n : ℕ) (x : Option ℕ)
    → n ≤ fd
    → count_user i (update f fd x) n ≡ count_user i f n
unfolding count_user
user_above i f fd zero x p = omega arith
user_above i f fd (suc n) x p = ground (arith, user_above i f fd n x)

user_update :
    (i : ℕ) (f : UserOpenFiles) (fd n : ℕ) (x : Option ℕ)
    → fd < n
    → count_user i (update f fd x) n + hit i (f fd) ≡ count_user i f n + hit i x
unfolding count_user
user_update i f fd zero x p = elim p [ ]
user_update i f fd (suc n) x p = elim (Bool-cases (fd == n)) [
  | inl e ↦
      let q = (==_iff fd n).0 e in
      rw e (omega (arith, ap (λ k. hit i (f k)) q, user_above i f fd n x (omega (arith, q))))
  | inr ne ↦ rw ne (omega (arith, user_update i f fd n x (lt_of_tests fd n p ne)))
]

users_above :
    (i : ℕ) (t : ℕ → UserOpenFiles) (u n : ℕ) (g : UserOpenFiles)
    → n ≤ u
    → count_users i (update t u g) n ≡ count_users i t n
unfolding count_users
users_above i t u zero g p = omega arith
users_above i t u (suc n) g p = ground (arith, users_above i t u n g)

users_update :
    (i : ℕ) (t : ℕ → UserOpenFiles) (u n : ℕ) (g : UserOpenFiles)
    → u < n
    → count_users i (update t u g) n + count_user i (t u) 20 ≡ count_users i t n + count_user i g 20
unfolding count_users
users_update i t u zero g p = elim p [ ]
users_update i t u (suc n) g p = elim (Bool-cases (u == n)) [
  | inl e ↦
      let q = (==_iff u n).0 e in
      rw e
        (omega (arith, ap (λ k. count_user i (t k) 20) q, users_above i t u n g (omega (arith, q))))
  | inr ne ↦ rw ne (omega (arith, users_update i t u n g (lt_of_tests u n p ne)))
]

-- Changing one place moves the count of an index by what the place held and by what it holds.
pub references-set_slot :
    (i : ℕ) (t : ℕ → UserOpenFiles) (u fd : ℕ) (x : Option ℕ)
    → u < max_user
    → fd < max_open_file
    → count_users i (set_slot t u fd x) max_user + hit i (t u fd)
      ≡ count_users i t max_user + hit i x
references-set_slot i t u fd x p q =
    omega (arith, users_update i t u 8 (update (t u) fd x) p, user_update i (t u) fd 20 x q)

hit-le-user : (i : ℕ) (f : UserOpenFiles) (fd n : ℕ) → fd < n → hit i (f fd) ≤ count_user i f n
unfolding count_user
hit-le-user i f fd n p = omega (arith, user_update i f fd n none p)

-- A place that holds an index is counted.
pub hit-le-references :
    (i : ℕ) (t : ℕ → UserOpenFiles) (u fd : ℕ)
    → u < max_user
    → fd < max_open_file
    → hit i (t u fd) ≤ count_users i t max_user
hit-le-references i t u fd p q = omega (arith, references-set_slot i t u fd none p q)

count_user-none : (i n : ℕ) → count_user i (λ f. none) n ≡ 0
unfolding count_user
count_user-none i zero = refl
count_user-none i (suc n) = omega (arith, count_user-none i n)

pub count_users-none : (i n : ℕ) → count_users i (λ u f. none) n ≡ 0
unfolding count_users
count_users-none i zero = refl
count_users-none i (suc n) = omega (arith, count_user-none i 20, count_users-none i n)

count_user-le : (i : ℕ) (f : UserOpenFiles) (n : ℕ) → count_user i f n ≤ n
unfolding count_user
count_user-le i f zero = omega arith
count_user-le i f (suc n) = omega (arith, count_user-le i f n, hit_le i (f n))
  where
    hit_le : (j : ℕ) (x : Option ℕ) → hit j x ≤ 1
    hit_le j none = omega arith
    hit_le j (some k) = ground arith

-- No index is held more often than there are places.
pub references-le : (i : ℕ) (t : ℕ → UserOpenFiles) (n : ℕ) → count_users i t n ≤ n * max_open_file
unfolding count_users
references-le i t zero = omega arith
references-le i t (suc n) = omega (arith, count_user-le i (t n) 20, references-le i t n)
