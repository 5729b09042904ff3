-- ===== src/UnixFs/Following.antt =====
-- `namei_follow` of src/fs/unix/unix_fs.cpp: what the inode is that it stops at.
use pseudo_fs.Common.{
  ℕ, zero, suc, false, ◌≡◌, ◌≢◌, refl, sym, ap, ◌∙◌, Option, none, some, Bool-cases, inl, inr, ◌==◌,
}
use pseudo_fs.Common.CStrings.{CString}
use pseudo_fs.Layout.{invalid_blk, mode_symlink}
use pseudo_fs.Inode.{Inodes, get, put}
use pseudo_fs.Directory.{namei}
use pseudo_fs.UnixFs.{UnixFs, has_bits}
use pseudo_fs.UnixFs.Links.{is_nil, read_link_target, hop, returned, follow, namei_follow}

-- The last thing done was to get this inode, to see that it is no symbolic link, and to put it.
abbrev pub StopsAt : ℕ → Inodes → Type 0
StopsAt ino s' =
    (s : Inodes) × (slot : ℕ) × ((get s ino).0 ≡ some slot)
    × (has_bits ((get s ino).1.cache slot).di_mode mode_symlink ≡ false)
    × (s' ≡ put (get s ino).1 slot)

-- What one turn returns, if it returns a number at all.
hop-StopsAt :
    (cwd root ino : ℕ) (s : Inodes)
    → let r = hop cwd root ino (get s ino) in
      (n : ℕ) → r.0 ≡ some n → n ≢ invalid_blk → StopsAt n r.2
hop-StopsAt cwd root ino s = from_get (get s ino) refl
  where
    some_eq : {a b : ℕ} → some a ≡ some b → a ≡ b
    some_eq e = cc

    from_get :
        (g : Option ℕ × Inodes)
        → get s ino ≡ g
        → let r = hop cwd root ino g in (n : ℕ) → r.0 ≡ some n → n ≢ invalid_blk → StopsAt n r.2
    from_get (none, t) e n = λ ret ne. absurd (ne (sym (some_eq ret)))
    from_get (some slot, t) e n = elim (Bool-cases (has_bits (t.cache slot).di_mode mode_symlink)) [
      | inr plain ↦ rw plain (λ ret ne. rw (← some_eq ret) (
        s,
        slot,
        ap (λ g. g.0) e,
        ap (λ g. has_bits (g.1.cache slot).di_mode mode_symlink) e ∙ plain,
        ap (λ g. put g.1 slot) (sym e),
      ))
      | inl link ↦ elim (Bool-cases (is_nil (read_link_target t slot))) [
        | inl empty ↦ rw (link, empty) (λ ret ne. absurd (ne (sym (some_eq ret))))
        | inr target ↦ rw (link, target) (λ ret ne. cc)
      ]
    ]

follow-StopsAt :
    (hops cwd root : ℕ) (s : Inodes) (ino : ℕ)
    → (follow hops cwd root s ino).0 ≢ invalid_blk
    → StopsAt (follow hops cwd root s ino).0 (follow hops cwd root s ino).1
unfolding follow
follow-StopsAt zero cwd root s ino = λ ne. absurd (ne refl)
follow-StopsAt (suc hops) cwd root s ino = elim (Bool-cases (ino == invalid_blk)) [
  | inl e ↦ rw e (λ ne. absurd (ne refl))
  | inr e ↦ rw e (
      going_on (hop cwd root ino (get s ino)) (hop-StopsAt cwd root ino s)
        (follow-StopsAt hops cwd root))
]
  where
    going_on :
        (r : Option ℕ × ℕ × Inodes)
        → ((n : ℕ) → r.0 ≡ some n → n ≢ invalid_blk → StopsAt n r.2)
        → ((t : Inodes) (i : ℕ)
            → (follow hops cwd root t i).0 ≢ invalid_blk
            → StopsAt (follow hops cwd root t i).0 (follow hops cwd root t i).1)
        → (returned r.0 r.2 (follow hops cwd root r.2 r.1)).0 ≢ invalid_blk
        → StopsAt
            (returned r.0 r.2 (follow hops cwd root r.2 r.1)).0
            (returned r.0 r.2 (follow hops cwd root r.2 r.1)).1
    going_on (none, next, t) here later ne = later t next ne
    going_on (some n, next, t) here later ne = here n refl ne

-- An inode number that `namei_follow` returns, other than INVALID_BLK, is that of an inode that
-- `get` gave, that is not a symbolic link, and that was put back last.
pub namei_follow-StopsAt :
    (u : UnixFs) (path : CString)
    → (namei_follow u path).0 ≢ invalid_blk
    → StopsAt (namei_follow u path).0 (namei_follow u path).1
unfolding namei_follow
namei_follow-StopsAt u path =
    follow-StopsAt 16 u.cwd_ino u.root_ino (namei u.imng path u.cwd_ino u.root_ino).1
      (namei u.imng path u.cwd_ino u.root_ino).0
