-- ===== src/OpenFileTable/Views.antt =====
-- What a process sees of the table: for each user and descriptor the file, the offset and the flags.
use pseudo_fs.Common.{
  ℕ, zero, suc, ◌+◌, ◌≤◌, ◌<◌, ◌≡◌, ◌≢◌, refl, sym, ap, subst, ◌∙◌, ◌||◌, Option, none, some, leb,
  ◌==◌, if◌then◌else◌, arith, Bool-cases, Option-cases, inl, inr, ◌⊎◌, ==_iff, gt→leb,
}
use pseudo_fs.Common.Int.{ℤ, pos, minus_one}
use pseudo_fs.Layout.{max_user, max_open_file, sys_open_file}
use pseudo_fs.OpenFileTable.{
  SysOpenFileEntry, OpenFileTable, sys_index, alloc_fd, free_fd, close_from, close_all, opened,
  closed, released, set_slot, is_none, in_sys_table,
}
use pseudo_fs.OpenFileTable.Counts.{
  hit, hit-le-references, references, references-set_slot, references-le,
}
use pseudo_fs.OpenFileTable.Invariant.{Counted, alloc_fd_cases, sys_index-some, free_fd-Counted}

-- The entry without its reference count.
abbrev pub seen : SysOpenFileEntry → ℕ × ℕ × ℕ
seen e = (e.f_inode_no, e.f_offset, e.f_flag)

abbrev pub seen_at : OpenFileTable → Option ℕ → Option (ℕ × ℕ × ℕ)
seen_at t none = none
seen_at t (some i) = some (seen (t.sys_table i))

unfoldable pub view : OpenFileTable → ℕ → ℤ → Option (ℕ × ℕ × ℕ)
view t u d = seen_at t (sys_index t u d)

-- A place in range that holds an index makes that entry's count positive.
held_positive :
    (t : OpenFileTable) (u fd i : ℕ)
    → Counted t
    → sys_index t u (pos fd) ≡ some i
    → (0 < (t.sys_table i).f_count) × (references t i ≡ (t.sys_table i).f_count)
held_positive t u fd i h e =
    let (pu, pf, held, pi) = sys_index-some t u fd i e in
    let one : hit i (t.user_table u fd) ≡ 1 = ap (hit i) held ∙ ground arith in
    let counted = hit-le-references i t.user_table u fd pu pf in
    let count = h.counts i pi in (omega arith, omega arith)

opened_index :
    (t : OpenFileTable) (u fd i inode_no flags : ℕ)
    → u < max_user
    → fd < max_open_file
    → i < sys_open_file
    → sys_index (opened t u fd i inode_no flags) u (pos fd) ≡ some i
unfolding sys_index
opened_index t u fd i inode_no flags p q r = ground arith

-- The index of another pair is not changed by a write to one place.
slot_others :
    (t t' : OpenFileTable) (u fd u' fd' : ℕ) (x : Option ℕ)
    → t'.user_table ≡ set_slot t.user_table u fd x
    → (u' ≢ u) ⊎ (fd' ≢ fd)
    → sys_index t' u' (pos fd') ≡ sys_index t u' (pos fd')
unfolding sys_index
slot_others t t' u fd u' fd' x e ne =
    rw e (ap (λ o. if leb 8 u' || leb 20 fd' then none else in_sys_table o) same)
  where
    same : set_slot t.user_table u fd x u' fd' ≡ t.user_table u' fd'
    same = ground arith

opened_others :
    (t : OpenFileTable) (u fd i inode_no flags u' fd' : ℕ)
    → Counted t
    → (t.sys_table i).f_count ≡ 0
    → (u' ≢ u) ⊎ (fd' ≢ fd)
    → view (opened t u fd i inode_no flags) u' (pos fd') ≡ view t u' (pos fd')
unfolding view
opened_others t u fd i inode_no flags u' fd' h unused ne =
    rw (slot_others t (opened t u fd i inode_no flags) u fd u' fd' (some i) refl ne)
      (elim (Option-cases (sys_index t u' (pos fd'))) [
        | inl e ↦ rw e refl
        | inr (j, e) ↦ rw e (let counted = held_positive t u' fd' j h e in ground arith)
      ])

pos-injective : {m n : ℕ} → pos m ≡ pos n → m ≡ n
pos-injective e = cc

zero_not_minus : ¬ (pos 0 ≡ minus_one)
zero_not_minus e = cc

free_view : (t : OpenFileTable) (u fd : ℕ) → t.user_table u fd ≡ none → view t u (pos fd) ≡ none
unfolding view sys_index
free_view t u fd e = ground arith

free_none :
    (t : OpenFileTable) (u fd : ℕ)
    → sys_index t u (pos fd) ≡ none
    → free_fd t u (pos fd) ≡ (minus_one, t)
unfolding free_fd
free_none t u fd e = rw e refl

free_eq :
    (t : OpenFileTable) (u fd i : ℕ)
    → sys_index t u (pos fd) ≡ some i
    → free_fd t u (pos fd) ≡ (pos 0, closed t u fd i)
unfolding free_fd
free_eq t u fd i e = rw e refl

-- A successful `alloc_fd` returns a descriptor that was free; it then stands for the file at offset 0
-- with the flags asked for, and what every other pair of user and descriptor stands for is unchanged.
pub alloc_fd-view :
    (t : OpenFileTable) (u inode_no flags fd : ℕ)
    → Counted t
    → (alloc_fd t u inode_no flags).0 ≡ pos fd
    → let t' = (alloc_fd t u inode_no flags).1 in
      (view t u (pos fd) ≡ none)
      × (view t' u (pos fd) ≡ some (inode_no, 0, flags))
      × ((u' fd' : ℕ) → (u' ≢ u) ⊎ (fd' ≢ fd) → view t' u' (pos fd') ≡ view t u' (pos fd'))
alloc_fd-view t u inode_no flags fd h e = elim (alloc_fd_cases t u inode_no flags) [
  | inl (q, _) ↦ cc
  | inr (d, i, pu, pf, pi, free, unused, q) ↦
      let same : d ≡ fd = pos-injective (sym (ap (λ r. r.0) q) ∙ e) in
      rw q (
        subst
          (λ k.
            (view t u (pos k) ≡ none)
            × (view (opened t u d i inode_no flags) u (pos k) ≡ some (inode_no, 0, flags))
            × ((u' fd' : ℕ)
                → (u' ≢ u) ⊎ (fd' ≢ k)
                → view (opened t u d i inode_no flags) u' (pos fd') ≡ view t u' (pos fd')))
          same
          (
            free_view t u d free,
            unfold view in rw (opened_index t u d i inode_no flags pu pf pi) (ground arith),
            λ u' fd'. opened_others t u d i inode_no flags u' fd' h unused,
          ))
]

closed_index : (t : OpenFileTable) (u fd i : ℕ) → sys_index (closed t u fd i) u (pos fd) ≡ none
unfolding sys_index
closed_index t u fd i = ground arith

-- If two places hold an index, it is counted at least twice.
held_twice :
    (t : OpenFileTable) (u fd u' fd' i : ℕ)
    → Counted t
    → sys_index t u (pos fd) ≡ some i
    → sys_index t u' (pos fd') ≡ some i
    → (u' ≢ u) ⊎ (fd' ≢ fd)
    → 2 ≤ (t.sys_table i).f_count
held_twice t u fd u' fd' i h e e' ne =
    let (pu, pf, held, pi) = sys_index-some t u fd i e in
    let (pu', pf', held', _) = sys_index-some t u' fd' i e' in
    let one : hit i (t.user_table u fd) ≡ 1 = ap (hit i) held ∙ ground arith in
    let kept : set_slot t.user_table u fd none u' fd' ≡ some i = ground arith in
    let one' : hit i (set_slot t.user_table u fd none u' fd') ≡ 1 =
      ap (hit i) kept ∙ ground arith in
    let moved = references-set_slot i t.user_table u fd none pu pf in
    let counted = hit-le-references i (set_slot t.user_table u fd none) u' fd' pu' pf' in
    let count = h.counts i pi in omega arith

seen-released :
    (e : SysOpenFileEntry) → 2 ≤ e.f_count → e.f_count < 65536 → seen (released e) ≡ seen e
seen-released e p q = ground arith

count_small :
    (t : OpenFileTable) (i : ℕ) → Counted t → i < sys_open_file → (t.sys_table i).f_count < 65536
count_small t i h p = omega (arith, h.counts i p, references-le i t.user_table 8)

closed_others :
    (t : OpenFileTable) (u fd i u' fd' : ℕ)
    → Counted t
    → sys_index t u (pos fd) ≡ some i
    → (u' ≢ u) ⊎ (fd' ≢ fd)
    → view (closed t u fd i) u' (pos fd') ≡ view t u' (pos fd')
unfolding view
closed_others t u fd i u' fd' h e ne =
    rw (slot_others t (closed t u fd i) u fd u' fd' none refl ne)
      (elim (Option-cases (sys_index t u' (pos fd'))) [
        | inl q ↦ rw q refl
        | inr (j, q) ↦ rw q (elim (Bool-cases (i == j)) [
          | inl same ↦
              let eq = (==_iff i j).0 same in
              let (_, _, _, pi) = sys_index-some t u fd i e in
              rw same (
                ap some (
                  seen-released (t.sys_table i)
                    (held_twice t u fd u' fd' i h e (q ∙ ap some (sym eq)) ne)
                    (count_small t i h pi)
                  ∙ ap (λ k. seen (t.sys_table k)) eq))
          | inr other ↦ rw other refl
        ])
      ])

-- A successful `free_fd` takes away one descriptor. Every other pair of user and descriptor keeps
-- its file, offset and flags, also where it shares the entry.
pub free_fd-view :
    (t : OpenFileTable) (u fd : ℕ)
    → Counted t
    → (free_fd t u (pos fd)).0 ≡ pos 0
    → let t' = (free_fd t u (pos fd)).1 in
      (view t' u (pos fd) ≡ none)
      × ((u' fd' : ℕ) → (u' ≢ u) ⊎ (fd' ≢ fd) → view t' u' (pos fd') ≡ view t u' (pos fd'))
free_fd-view t u fd h e = elim (Option-cases (sys_index t u (pos fd))) [
  | inl q ↦ absurd (zero_not_minus (sym e ∙ ap (λ r. r.0) (free_none t u fd q)))
  | inr (i, q) ↦
      rw (free_eq t u fd i q) (
        unfold view in rw (closed_index t u fd i) refl,
        λ u' fd'. closed_others t u fd i u' fd' h q,
      )
]

close_all_eq :
    (t : OpenFileTable) (u : ℕ) → u < max_user → close_all t u ≡ close_from t u 0 max_open_file
unfolding close_all
close_all_eq t u p = rw (gt→leb 8 u p) refl

-- One pass of the loop of `close_all`.
abbrev close_one : OpenFileTable → ℕ → ℕ → OpenFileTable
close_one t u fd = if is_none (t.user_table u fd) then t else (free_fd t u (pos fd)).1

close_one-Counted : (t : OpenFileTable) (u fd : ℕ) → Counted t → Counted (close_one t u fd)
close_one-Counted t u fd h = elim (Bool-cases (is_none (t.user_table u fd))) [
  | inl e ↦ rw e h
  | inr e ↦ rw e (free_fd-Counted t u (pos fd) h)
]

held_index :
    (t : OpenFileTable) (u fd i : ℕ)
    → Counted t
    → u < max_user
    → fd < max_open_file
    → t.user_table u fd ≡ some i
    → sys_index t u (pos fd) ≡ some i
unfolding sys_index
held_index t u fd i h p q e = let small = h.slots u fd i p q e in ground arith

-- A pass leaves the place free, a place that was free stays so, and other users see no change.
close_one_lem :
    (t : OpenFileTable) (u fd : ℕ)
    → Counted t
    → u < max_user
    → fd < max_open_file
    → ((close_one t u fd).user_table u fd ≡ none)
      × ((f : ℕ) → t.user_table u f ≡ none → (close_one t u fd).user_table u f ≡ none)
      × ((u' f : ℕ) → u' ≢ u → view (close_one t u fd) u' (pos f) ≡ view t u' (pos f))
close_one_lem t u fd h p q = elim (Option-cases (t.user_table u fd)) [
  | inl e ↦ rw e (e, λ f k. k, λ u' f ne. refl)
  | inr (i, e) ↦
      let index = held_index t u fd i h p q e in
      rw (e, free_eq t u fd i index)
        (ground arith, λ f k. ground arith, λ u' f ne. closed_others t u fd i u' f h index (inl ne))
]

close_from_lem :
    (n : ℕ) (t : OpenFileTable) (u fd : ℕ)
    → Counted t
    → u < max_user
    → fd + n ≡ max_open_file
    → ((f : ℕ) → f < fd → t.user_table u f ≡ none)
    → ((f : ℕ) → f < max_open_file → (close_from t u fd n).user_table u f ≡ none)
      × ((u' f : ℕ) → u' ≢ u → view (close_from t u fd n) u' (pos f) ≡ view t u' (pos f))
unfolding close_from
close_from_lem zero t u fd h p e below = (λ f k. below f (omega arith), λ u' f ne. refl)
close_from_lem (suc n) t u fd h p e below =
    let (here, kept, others) = close_one_lem t u fd h p (omega arith) in
    let (done, rest) =
      close_from_lem n (close_one t u fd) u (fd + 1) (close_one-Counted t u fd h) p (omega arith)
        (λ f k. elim (Bool-cases (f == fd)) [
          | inl same ↦
              subst (λ g. (close_one t u fd).user_table u g ≡ none) (sym ((==_iff f fd).0 same))
                here
          | inr other ↦ kept f (below f (ground arith))
        ]) in
    (done, λ u' f ne. rest u' f ne ∙ others u' f ne)

-- After `close_all` no descriptor of the user stands for anything, and the other users see what they
-- saw before.
pub close_all-view :
    (t : OpenFileTable) (u : ℕ)
    → Counted t
    → u < max_user
    → ((fd : ℕ) → fd < max_open_file → view (close_all t u) u (pos fd) ≡ none)
      × ((u' fd : ℕ) → u' ≢ u → view (close_all t u) u' (pos fd) ≡ view t u' (pos fd))
close_all-view t u h p =
    let (done, rest) = close_from_lem 20 t u 0 h p (omega arith) (λ f k. absurd (omega arith)) in
    rw (close_all_eq t u p) (λ fd q. free_view _ u fd (done fd q), rest)
