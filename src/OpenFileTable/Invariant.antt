-- ===== src/OpenFileTable/Invariant.antt =====
-- The reference counts of src/core/open_file_table.cpp as an invariant of every operation.
use pseudo_fs.Common.{
  ℕ, zero, suc, ◌+◌, ◌≤◌, ◌<◌, ◌≡◌, ◌≢◌, refl, sym, ap, ◌∙◌, true, Option, none, some, leb, ◌==◌,
  arith, Bool-cases, Option-cases, inl, inr, ◌⊎◌, ==_iff, leb→le, leb→gt, List, [], ◌∷◌,
}
use pseudo_fs.Common.Search.{first_index-some}
use pseudo_fs.Common.Int.{ℤ, pos, negsuc, minus_one}
use pseudo_fs.Layout.{max_user, max_open_file, sys_open_file}
use pseudo_fs.OpenFileTable.{
  OpenFileTable, init, is_none, alloc_sys_entry, free_fd_slot, sys_index, alloc_fd, free_fd,
  set_offset, close_from, close_all, opened, closed, released,
}
use pseudo_fs.OpenFileTable.Counts.{
  references, hit, references-set_slot, hit-le-references, count_users-none, references-le,
}

-- Every place in range holds nothing or an index in range, and every count is the number of places
-- that hold the index.
pub record Counted (t : OpenFileTable) : Type 0 where
  pub slots :
      (u fd i : ℕ)
      → u < max_user
      → fd < max_open_file
      → t.user_table u fd ≡ some i
      → i < sys_open_file
  pub counts : (i : ℕ) → i < sys_open_file → (t.sys_table i).f_count ≡ references t i

init-Counted : Counted init
unfolding init
init-Counted = record { slots = λ u fd i p q e. cc; counts = λ i p. sym (count_users-none i 8) }

hit_self : (i : ℕ) → hit i (some i) ≡ 1
hit_self i = ground arith

hit_ne : (i j : ℕ) → i ≢ j → hit j (some i) ≡ 0
hit_ne i j ne = ground arith

is_none-eq {ℓ} : {A : Type ℓ} (o : Option A) → is_none o ≡ true → o ≡ none
is_none-eq none e = refl
is_none-eq (some a) e = cc

pub sys_index-some :
    (t : OpenFileTable) (u fd i : ℕ)
    → sys_index t u (pos fd) ≡ some i
    → (u < max_user) × (fd < max_open_file) × (t.user_table u fd ≡ some i) × (i < sys_open_file)
unfolding sys_index
sys_index-some t u fd i e = ground arith

module _ (t : OpenFileTable) (u fd i : ℕ) (h : Counted t) (pu : u < max_user)
    (pf : fd < max_open_file) (pi : i < sys_open_file) where
  opened-Counted :
      (inode_no flags : ℕ)
      → t.user_table u fd ≡ none
      → (t.sys_table i).f_count ≡ 0
      → Counted (opened t u fd i inode_no flags)
  opened-Counted inode_no flags free unused = record {
    slots = λ u' fd' j p q e. ground (arith, h.slots u' fd' j);
    counts = λ j p.
        let moved = references-set_slot j t.user_table u fd (some i) pu pf in
        ground (arith, h.counts j p, moved);
  }

  released_count :
      0 < (t.sys_table i).f_count
      → (t.sys_table i).f_count < 65536
      → (released (t.sys_table i)).f_count + 1 ≡ (t.sys_table i).f_count
  released_count p q = ground arith

  closed_self :
      t.user_table u fd ≡ some i
      → (released (t.sys_table i)).f_count ≡ references (closed t u fd i) i
  closed_self held =
      let one : hit i (t.user_table u fd) ≡ 1 = ap (hit i) held ∙ hit_self i in
      let moved = references-set_slot i t.user_table u fd none pu pf in
      let counted = hit-le-references i t.user_table u fd pu pf in
      let few = references-le i t.user_table 8 in
      let count = h.counts i pi in
      let fall = released_count (omega arith) (omega arith) in omega arith

  closed_ne :
      (j : ℕ) → i ≢ j → t.user_table u fd ≡ some i → references t j ≡ references (closed t u fd i) j
  closed_ne j ne held =
      let zero_hit : hit j (t.user_table u fd) ≡ 0 = ap (hit j) held ∙ hit_ne i j ne in
      let moved = references-set_slot j t.user_table u fd none pu pf in omega arith

  closed-Counted : t.user_table u fd ≡ some i → Counted (closed t u fd i)
  closed-Counted held = record {
    slots = λ u' fd' j p q e. ground (arith, h.slots u' fd' j);
    counts = λ j p. elim (Bool-cases (i == j)) [
      | inl e ↦
          let q = (==_iff i j).0 e in
          rw e (closed_self held ∙ ap (λ k. references (closed t u fd i) k) q)
      | inr ne ↦ rw ne (h.counts j p ∙ closed_ne j (ground arith) held)
    ];
  }

free_fd_slot-some :
    (t : OpenFileTable) (u fd : ℕ)
    → free_fd_slot t u ≡ some fd
    → (fd < max_open_file) × (t.user_table u fd ≡ none)
unfolding free_fd_slot
free_fd_slot-some t u fd e =
    let (_, p, free) = first_index-some (λ i. is_none (t.user_table u i)) 0 20 fd e in
    (omega arith, is_none-eq (t.user_table u fd) free)

alloc_sys_entry-some :
    (t : OpenFileTable) (i : ℕ)
    → alloc_sys_entry t ≡ some i
    → (i < sys_open_file) × ((t.sys_table i).f_count ≡ 0)
unfolding alloc_sys_entry
alloc_sys_entry-some t i e =
    let (_, p, unused) = first_index-some (λ k. (t.sys_table k).f_count == 0) 0 40 i e in
    (omega arith, (==_iff _ _).0 unused)

-- What `alloc_fd` does, by cases: nothing, or it opens a free place and an unused entry.
pub alloc_fd_cases :
    (t : OpenFileTable) (u inode_no flags : ℕ)
    → ((alloc_fd t u inode_no flags ≡ (minus_one, t))
        × ((max_user ≤ u) ⊎ (free_fd_slot t u ≡ none) ⊎ (alloc_sys_entry t ≡ none)))
      ⊎ ((fd : ℕ) × (i : ℕ) × (u < max_user)
          × (fd < max_open_file)
          × (i < sys_open_file)
          × (t.user_table u fd ≡ none)
          × ((t.sys_table i).f_count ≡ 0)
          × (alloc_fd t u inode_no flags ≡ (pos fd, opened t u fd i inode_no flags)))
unfolding alloc_fd
alloc_fd_cases t u inode_no flags = elim (Bool-cases (leb 8 u)) [
  | inl e ↦ inl (rw e refl, inl (leb→le 8 u e))
  | inr e ↦ elim (Option-cases (free_fd_slot t u)) [
    | inl q ↦ inl (rw (e, q) refl, inr (inl q))
    | inr (fd, q) ↦ elim (Option-cases (alloc_sys_entry t)) [
      | inl r ↦ inl (rw (e, q, r) refl, inr (inr r))
      | inr (i, r) ↦
          let (pf, free) = free_fd_slot-some t u fd q in
          let (pi, unused) = alloc_sys_entry-some t i r in
          inr (fd, i, leb→gt 8 u e, pf, pi, free, unused, rw (e, q, r) refl)
    ]
  ]
]

-- What `free_fd` does, by cases: nothing, or it empties a place that holds an index.
pub free_fd_cases :
    (t : OpenFileTable) (u : ℕ) (d : ℤ)
    → ((sys_index t u d ≡ none) × (free_fd t u d ≡ (minus_one, t)))
      ⊎ ((fd : ℕ) × (i : ℕ) × (d ≡ pos fd)
          × (u < max_user)
          × (fd < max_open_file)
          × (i < sys_open_file)
          × (t.user_table u fd ≡ some i)
          × (free_fd t u d ≡ (pos 0, closed t u fd i)))
unfolding free_fd
free_fd_cases t u (negsuc n) = inl (unfold sys_index in refl, unfold sys_index in refl)
free_fd_cases t u (pos fd) = elim (Option-cases (sys_index t u (pos fd))) [
  | inl e ↦ inl (e, rw e refl)
  | inr (i, e) ↦
      let (pu, pf, held, pi) = sys_index-some t u fd i e in
      inr (fd, i, refl, pu, pf, pi, held, rw e refl)
]

pub alloc_fd-Counted :
    (t : OpenFileTable) (u inode_no flags : ℕ) → Counted t → Counted (alloc_fd t u inode_no flags).1
alloc_fd-Counted t u inode_no flags h = elim (alloc_fd_cases t u inode_no flags) [
  | inl (e, _) ↦ rw e h
  | inr (fd, i, pu, pf, pi, free, unused, e) ↦
      rw e (opened-Counted t u fd i h pu pf pi inode_no flags free unused)
]

pub free_fd-Counted : (t : OpenFileTable) (u : ℕ) (d : ℤ) → Counted t → Counted (free_fd t u d).1
free_fd-Counted t u d h = elim (free_fd_cases t u d) [
  | inl (_, e) ↦ rw e h
  | inr (fd, i, _, pu, pf, pi, held, e) ↦ rw e (closed-Counted t u fd i h pu pf pi held)
]

set_offset-Counted :
    (t : OpenFileTable) (u : ℕ) (d : ℤ) (offset : ℕ)
    → Counted t
    → Counted (set_offset t u d offset).1
unfolding set_offset
set_offset-Counted t u d offset h = elim (Option-cases (sys_index t u d)) [
  | inl e ↦ rw (e, set_offset) h
  | inr (i, e) ↦
      rw (e, set_offset) (record { slots = h.slots; counts = λ j p. ground (arith, h.counts j p) })
]

close_from-Counted :
    (n : ℕ) (t : OpenFileTable) (u fd : ℕ) → Counted t → Counted (close_from t u fd n)
unfolding close_from
close_from-Counted zero t u fd h = h
close_from-Counted (suc n) t u fd h =
    close_from-Counted n _ u (fd + 1) (elim (Bool-cases (is_none (t.user_table u fd))) [
      | inl e ↦ rw e h
      | inr e ↦ rw e (free_fd-Counted t u (pos fd) h)
    ])

pub close_all-Counted : (t : OpenFileTable) (u : ℕ) → Counted t → Counted (close_all t u)
unfolding close_all
close_all-Counted t u h = elim (Bool-cases (leb max_user u)) [
  | inl e ↦ rw e h
  | inr e ↦ rw e (close_from-Counted 20 t u 0 h)
]

-- A call of the table's interface.
pub data Call : Type 0 where
  alloc : ℕ → ℕ → ℕ → Call
  free : ℕ → ℤ → Call
  seek : ℕ → ℤ → ℕ → Call
  logout : ℕ → Call

abbrev pub step : OpenFileTable → Call → OpenFileTable
step t (alloc u inode_no flags) = (alloc_fd t u inode_no flags).1
step t (free u fd) = (free_fd t u fd).1
step t (seek u fd offset) = (set_offset t u fd offset).1
step t (logout u) = close_all t u

abbrev pub run : OpenFileTable → List Call → OpenFileTable
run t [] = t
run t (c ∷ cs) = run (step t c) cs

step-Counted : (t : OpenFileTable) (c : Call) → Counted t → Counted (step t c)
step-Counted t (alloc u inode_no flags) h = alloc_fd-Counted t u inode_no flags h
step-Counted t (free u fd) h = free_fd-Counted t u fd h
step-Counted t (seek u fd offset) h = set_offset-Counted t u fd offset h
step-Counted t (logout u) h = close_all-Counted t u h

run-Counted : (t : OpenFileTable) (cs : List Call) → Counted t → Counted (run t cs)
run-Counted t [] h = h
run-Counted t (c ∷ cs) h = run-Counted (step t c) cs (step-Counted t c h)

-- After any sequence of calls on a new table, each entry of the system table counts exactly the
-- places of the users' tables that hold its index, and each such place holds an index in range.
pub run-init-Counted : (cs : List Call) → Counted (run init cs)
run-init-Counted cs = run-Counted init cs init-Counted
