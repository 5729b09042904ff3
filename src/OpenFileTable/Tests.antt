-- ===== src/OpenFileTable/Tests.antt =====
-- Calls on a small table.
use pseudo_fs.Common.{ℕ, ◌≡◌, ◌≢◌, refl, List, [], ◌∷◌, none, some, ◌⊎◌}
use pseudo_fs.Common.Int.{pos}
use pseudo_fs.Common.Search.{first_index}
use pseudo_fs.OpenFileTable.{
  OpenFileTable, init, alloc_fd, free_fd, alloc_sys_entry, free_fd_slot, sys_index, set_offset,
}
use pseudo_fs.OpenFileTable.Invariant.{Call, alloc, seek, run, Counted, run-init-Counted}
use pseudo_fs.OpenFileTable.Views.{view, free_fd-view, alloc_fd-view}

-- User 1 opens file 5 and moves to byte 70, and user 2 opens file 5 too.
abbrev calls : List Call
calls = alloc 1 5 3 ∷ seek 1 (pos 0) 70 ∷ alloc 2 5 1 ∷ []

abbrev busy : OpenFileTable
busy = run init calls

run-init-Counted_example : Counted (run init calls)
run-init-Counted_example = run-init-Counted calls

busy-Counted : Counted busy
busy-Counted = run-init-Counted calls

busy_frees : (free_fd busy 1 (pos 0)).0 ≡ pos 0
unfolding free_fd sys_index init alloc_fd alloc_sys_entry free_fd_slot first_index set_offset
busy_frees = refl

busy_opens : (alloc_fd busy 1 9 2).0 ≡ pos 1
unfolding free_fd sys_index init alloc_fd alloc_sys_entry free_fd_slot first_index set_offset
busy_opens = refl

free_fd-view_example :
    let t' = (free_fd busy 1 (pos 0)).1 in
    (view t' 1 (pos 0) ≡ none)
    × ((u' fd' : ℕ) → (u' ≢ 1) ⊎ (fd' ≢ 0) → view t' u' (pos fd') ≡ view busy u' (pos fd'))
free_fd-view_example = free_fd-view busy 1 0 busy-Counted busy_frees

alloc_fd-view_example :
    let t' = (alloc_fd busy 1 9 2).1 in
    (view busy 1 (pos 1) ≡ none)
    × (view t' 1 (pos 1) ≡ some (9, 0, 2))
    × ((u' fd' : ℕ) → (u' ≢ 1) ⊎ (fd' ≢ 1) → view t' u' (pos fd') ≡ view busy u' (pos fd'))
alloc_fd-view_example = alloc_fd-view busy 1 9 2 1 busy-Counted busy_opens
