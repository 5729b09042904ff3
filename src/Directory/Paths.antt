-- ===== src/Directory/Paths.antt =====
-- `namei` of src/fs/unix/directory.cpp against `namei_parent`.
use pseudo_fs.Common.{
  ℕ, ◌≡◌, refl, sym, ap, List, [], ◌∷◌, Option, none, some, arith, ◌==◌, if◌then◌else◌, Bool-cases,
  inl, inr,
}
use pseudo_fs.Common.CStrings.{CString}
use pseudo_fs.Layout.{invalid_blk}
use pseudo_fs.Inode.{Inodes, get}
use pseudo_fs.Directory.{
  step_into, walk, namei, namei_parent, init_last, walk_parent, start_of, split_path,
}

-- There is no inode 0xffff to enter.
step_into-invalid : (s : Inodes) (name : CString) → step_into s invalid_blk name ≡ (invalid_blk, s)
unfolding step_into get
step_into-invalid s name = refl

-- The number does not matter when it is that of a failure.
settle :
    (s : Inodes) (n : ℕ)
    → ◌≡◌ {A = ℕ × Inodes} (if n == invalid_blk then (invalid_blk, s) else (n, s)) (n, s)
settle s n = elim (Bool-cases (n == invalid_blk)) [
  | inl e ↦ rw e (ap (λ k. (k, s)) (ground arith))
  | inr e ↦ rw e refl
]

abbrev last_step : CString → ℕ × Inodes → ℕ × Inodes
last_step name (n, s) = step_into s n name

walk_last :
    (s : Inodes) (cur : ℕ) (p : CString) (ps : List CString)
    → walk s cur (p ∷ ps) ≡ last_step (init_last p ps).1 (walk s cur (init_last p ps).0)
unfolding walk
walk_last s cur p [] = settle (step_into s cur p).1 (step_into s cur p).0
walk_last s cur p (q ∷ ps) = elim (Bool-cases ((step_into s cur p).0 == invalid_blk)) [
  | inl e ↦ rw e (sym (step_into-invalid (step_into s cur p).1 (init_last q ps).1))
  | inr e ↦ rw e (walk_last (step_into s cur p).1 (step_into s cur p).0 q ps)
]

-- The last part of `namei` after `namei_parent`: a name is looked up in the parent, and a path with
-- no name stands for the directory where it starts.
abbrev pub finish_path : Inodes → ℕ → Option CString × ℕ × Inodes → ℕ × Inodes
finish_path s start (none, n, s') = (start, s)
finish_path s start (some basename, n, s') = step_into s' n basename

walk-walk_parent :
    (s : Inodes) (cur : ℕ) (ps : List CString)
    → walk s cur ps ≡ finish_path s cur (walk_parent s cur ps)
unfolding walk
walk-walk_parent s cur [] = refl
walk-walk_parent s cur (p ∷ ps) = walk_last s cur p ps

-- `namei` is `namei_parent` and then one lookup of the name that it splits off, in the state that it
-- leaves, the cache of inodes and the reference counts included, also where a segment is missing or
-- is not a directory. A path of slashes alone is the directory where it starts.
pub namei-namei_parent :
    (s : Inodes) (path : CString) (cwd_ino root_ino : ℕ)
    → namei s path cwd_ino root_ino
      ≡ finish_path s (start_of path cwd_ino root_ino) (namei_parent s path cwd_ino root_ino)
unfolding namei namei_parent
namei-namei_parent s path cwd_ino root_ino =
    walk-walk_parent s (start_of path cwd_ino root_ino) (split_path path)
