-- ===== src/Directory/Names.antt =====
-- src/fs/unix/directory.cpp: the entries of a directory as a map from names to inode numbers.
use pseudo_fs.Common.{
  ℕ, ◌≡◌, ◌≢◌, refl, sym, ap, subst, ◌∙◌, List, [], ◌∷◌, none, some, arith, ◌==◌, not, ◌&&◌,
  if◌then◌else◌, Bool, true, false, Bool-cases, inl, inr,
}
use pseudo_fs.Common.CStrings.{CString, take, str_eq, strn_eq, str_eq-eq, str_eq_self, take-take}
use pseudo_fs.Layout.{invalid_blk}
use pseudo_fs.Directory.{
  DirEntry, is_named, find_entry, has_name, new_entry, place_entry, clear_entry, linked, unlinked,
}

-- No two entries in use have the same name.
abbrev pub NamesDistinct : List DirEntry → Type 0
NamesDistinct [] = Unit
NamesDistinct (e ∷ es) = (e.d_ino ≢ 0 → has_name e.d_name es ≡ false) × NamesDistinct es

is_named_cong : (a b : CString) (e : DirEntry) → take 14 a ≡ take 14 b → is_named a e ≡ is_named b e
is_named_cong a b e same = ap (λ t. not (e.d_ino == 0) && str_eq (take 14 e.d_name) t) same

has_name_cong :
    (a b : CString) (es : List DirEntry) → take 14 a ≡ take 14 b → has_name a es ≡ has_name b es
unfolding has_name
has_name_cong a b [] same = refl
has_name_cong a b (e ∷ es) same = rw (is_named_cong a b e same, has_name_cong a b es same) refl

-- What the test on names tells of the strings.
same_name : (a b : CString) → strn_eq 14 a b ≡ true → take 14 a ≡ take 14 b
same_name a b e = str_eq-eq (take 14 a) (take 14 b) e

is_named-new_entry :
    (name q : CString) (ino : ℕ) → ino ≢ 0 → is_named q (new_entry name ino) ≡ strn_eq 14 name q
is_named-new_entry name q ino ne =
    let z : (ino == 0) ≡ false = ground arith in rw (z, take-take 14 14 name (omega arith)) refl

none-some : {xs : List DirEntry} → ¬ (none ≡ some xs)
none-some e = cc

unwrap : {xs ys : List DirEntry} → some xs ≡ some ys → xs ≡ ys
unwrap e = cc

true-false : ¬ (true ≡ false)
true-false e = cc

has_name_head :
    (name : CString) (e : DirEntry) (es : List DirEntry)
    → has_name name (e ∷ es) ≡ false
    → (is_named name e ≡ false) × (has_name name es ≡ false)
unfolding has_name
has_name_head name e es out = elim (Bool-cases (is_named name e)) [
  | inl y ↦ absurd (true-false (rw y at out))
  | inr n ↦ (n, rw n at out)
]

place_entry-used :
    (name : CString) (ino : ℕ) (e : DirEntry) (es : List DirEntry)
    → (e.d_ino == 0) ≡ false
    → place_entry name ino (e ∷ es) ≡ e ∷ place_entry name ino es
unfolding place_entry
place_entry-used name ino e es nz = rw nz refl

-- What every name leads to once `name` has a place.
find_entry-place_entry :
    (name q : CString) (ino : ℕ) (es : List DirEntry)
    → ino ≢ 0
    → has_name name es ≡ false
    → find_entry q (place_entry name ino es) ≡ (if strn_eq 14 name q then ino else find_entry q es)
unfolding find_entry place_entry
find_entry-place_entry name q ino [] ne out = rw (is_named-new_entry name q ino ne) refl
find_entry-place_entry name q ino (e ∷ es) ne out = elim (Bool-cases (e.d_ino == 0)) [
  | inl z ↦ rw (z, is_named-new_entry name q ino ne) refl
  | inr nz ↦
      let (apart, below) = has_name_head name e es out in
      let rest = find_entry-place_entry name q ino es ne below in
      let turn : (if is_named q e then e.d_ino else find_entry q (place_entry name ino es))
          ≡ (if strn_eq 14 name q then ino else if is_named q e then e.d_ino else find_entry q es) =
        rw rest (
          past e.d_ino (find_entry q es) ino (is_named q e) (strn_eq 14 name q)
            (λ same. is_named_cong q name e (sym (same_name name q same)) ∙ apart)) in
      ap (λ xs. find_entry q xs) (place_entry-used name ino e es nz) ∙ turn
]
  where
    past :
        (a b n : ℕ) (y t : Bool)
        → (t ≡ true → y ≡ false)
        → (if y then a else if t then n else b) ≡ (if t then n else if y then a else b)
    past a b n y true out = rw (out refl) refl
    past a b n y false out = refl

find_entry-absent :
    (q : CString) (es : List DirEntry) → has_name q es ≡ false → find_entry q es ≡ invalid_blk
unfolding find_entry
find_entry-absent q [] out = refl
find_entry-absent q (e ∷ es) out =
    let (apart, below) = has_name_head q e es out in rw (apart, find_entry-absent q es below) refl

has_name-place_entry :
    (name q : CString) (ino : ℕ) (es : List DirEntry)
    → ino ≢ 0
    → has_name q es ≡ false
    → strn_eq 14 name q ≡ false
    → has_name q (place_entry name ino es) ≡ false
unfolding has_name place_entry
has_name-place_entry name q ino [] ne out apart = rw (is_named-new_entry name q ino ne, apart) refl
has_name-place_entry name q ino (e ∷ es) ne out apart =
    let (other, below) = has_name_head q e es out in
    elim (Bool-cases (e.d_ino == 0)) [
      | inl z ↦ rw (z, is_named-new_entry name q ino ne, apart, below) refl
      | inr nz ↦ rw (nz, other, has_name-place_entry name q ino es ne below apart) refl
    ]

-- The names of an entry in use and of an entry that is not found differ.
names_apart :
    (name : CString) (e : DirEntry)
    → e.d_ino ≢ 0
    → is_named name e ≡ false
    → strn_eq 14 name e.d_name ≡ false
names_apart name e ne out = elim (Bool-cases (strn_eq 14 name e.d_name)) [
  | inl same ↦
      let z : (e.d_ino == 0) ≡ false = ground arith in
      absurd (
        true-false (
          sym (str_eq_self (take 14 e.d_name))
          ∙ ap (λ t. str_eq (take 14 e.d_name) t) (sym (same_name name e.d_name same))
          ∙ (rw z at out)))
  | inr other ↦ other
]

NamesDistinct-place_entry :
    (name : CString) (ino : ℕ) (es : List DirEntry)
    → ino ≢ 0
    → has_name name es ≡ false
    → NamesDistinct es
    → NamesDistinct (place_entry name ino es)
unfolding place_entry has_name
NamesDistinct-place_entry name ino [] ne out ok = ((λ used. refl), tt)
NamesDistinct-place_entry name ino (e ∷ es) ne out ok =
    let (apart, below) = has_name_head name e es out in
    elim (Bool-cases (e.d_ino == 0)) [
      | inl z ↦ rw z (
        (λ used. has_name_cong (take 14 name) name es (take-take 14 14 name (omega arith)) ∙ below),
        ok.1,
      )
      | inr nz ↦ rw nz (
        (λ used.
            has_name-place_entry name e.d_name ino es ne (ok.0 used)
              (names_apart name e used apart)),
        NamesDistinct-place_entry name ino es ne below ok.1,
      )
    ]

-- `link` refuses a name that is there. Otherwise in the entries that it writes the new name leads to
-- the inode number, every other name leads where it did, and no name occurs twice if none did. Names
-- are compared by their first 14 bytes; the inode number is not 0.
pub find_entry-linked :
    (name : CString) (ino : ℕ) (es es' : List DirEntry)
    → ino ≢ 0
    → NamesDistinct es
    → linked name ino es ≡ some es'
    → (has_name name es ≡ false)
      × NamesDistinct es'
      × ((q : CString) → find_entry q es' ≡ (if strn_eq 14 name q then ino else find_entry q es))
unfolding linked
find_entry-linked name ino es es' ne ok e = elim (Bool-cases (has_name name es)) [
  | inl there ↦ absurd (none-some (rw there at e))
  | inr out ↦
      let written : place_entry name ino es ≡ es' = unwrap (rw out at e) in
      (
        out,
        subst NamesDistinct written (NamesDistinct-place_entry name ino es ne out ok),
        λ q. ap (λ xs. find_entry q xs) (sym written) ∙ find_entry-place_entry name q ino es ne out,
      )
]

has_name-clear_entry :
    (name q : CString) (es : List DirEntry)
    → has_name q es ≡ false
    → has_name q (clear_entry name es) ≡ false
unfolding has_name clear_entry
has_name-clear_entry name q [] out = refl
has_name-clear_entry name q (e ∷ es) out =
    let (other, below) = has_name_head q e es out in
    elim (Bool-cases (is_named name e)) [
      | inl y ↦ rw (y, below) refl
      | inr n ↦ rw (n, other, has_name-clear_entry name q es below) refl
    ]

NamesDistinct-clear_entry :
    (name : CString) (es : List DirEntry) → NamesDistinct es → NamesDistinct (clear_entry name es)
unfolding clear_entry
NamesDistinct-clear_entry name [] ok = tt
NamesDistinct-clear_entry name (e ∷ es) ok = elim (Bool-cases (is_named name e)) [
  | inl y ↦ rw y ((λ used. absurd (used refl)), ok.1)
  | inr n ↦ rw n (
    (λ used. has_name-clear_entry name e.d_name es (ok.0 used)),
    NamesDistinct-clear_entry name es ok.1,
  )
]

-- An entry with a name is in use, and has the first bytes of that name.
is_named_used :
    (name : CString) (e : DirEntry)
    → is_named name e ≡ true
    → (e.d_ino ≢ 0) × (take 14 e.d_name ≡ take 14 name)
is_named_used name e y = elim (Bool-cases (e.d_ino == 0)) [
  | inl z ↦ absurd (true-false (sym (rw z at y)))
  | inr nz ↦ ((λ k. ground arith), same_name e.d_name name (rw nz at y))
]

find_entry-clear_entry :
    (name q : CString) (es : List DirEntry)
    → NamesDistinct es
    → find_entry q (clear_entry name es)
      ≡ (if strn_eq 14 name q then invalid_blk else find_entry q es)
unfolding find_entry clear_entry
find_entry-clear_entry name q [] ok = elim (Bool-cases (strn_eq 14 name q)) [
  | inl e ↦ rw e refl
  | inr e ↦ rw e refl
]
find_entry-clear_entry name q (e ∷ es) ok = elim (Bool-cases (is_named name e)) [
  | inl y ↦
      let (used, same) = is_named_used name e y in
      elim (Bool-cases (strn_eq 14 name q)) [
        | inl t ↦
            let gone : has_name q es ≡ false =
              has_name_cong q e.d_name es (sym (same ∙ same_name name q t)) ∙ ok.0 used in
            rw (y, t) (find_entry-absent q es gone)
        | inr t ↦ let other : is_named q e ≡ false = differ q e name same t in rw (y, t, other) refl
      ]
  | inr n ↦
      let rest = find_entry-clear_entry name q es ok.1 in
      elim (Bool-cases (strn_eq 14 name q)) [
        | inl t ↦
            let other : is_named q e ≡ false =
              is_named_cong q name e (sym (same_name name q t)) ∙ n in
            rw (n, other, rest, t) refl
        | inr t ↦ rw (n, rest, t) refl
      ]
]
  where
    differ :
        (q : CString) (e : DirEntry) (name : CString)
        → take 14 e.d_name ≡ take 14 name
        → strn_eq 14 name q ≡ false
        → is_named q e ≡ false
    differ q e name same t = elim (Bool-cases (e.d_ino == 0)) [
      | inl z ↦ rw z refl
      | inr nz ↦ rw nz (ap (λ s. str_eq s (take 14 q)) same ∙ t)
    ]

-- `unlink` refuses a name that is not there. Otherwise in the entries that it writes the name is not
-- found, every other name leads where it did, and no name occurs twice. Names are compared by their
-- first 14 bytes, and none occurs twice before.
pub find_entry-unlinked :
    (name : CString) (es es' : List DirEntry)
    → NamesDistinct es
    → unlinked name es ≡ some es'
    → (has_name name es ≡ true)
      × NamesDistinct es'
      × ((q : CString)
          → find_entry q es' ≡ (if strn_eq 14 name q then invalid_blk else find_entry q es))
unfolding unlinked
find_entry-unlinked name es es' ok e = elim (Bool-cases (has_name name es)) [
  | inr out ↦ absurd (none-some (rw out at e))
  | inl there ↦
      let written : clear_entry name es ≡ es' = unwrap (rw there at e) in
      (
        there,
        subst NamesDistinct written (NamesDistinct-clear_entry name es ok),
        λ q. ap (λ xs. find_entry q xs) (sym written) ∙ find_entry-clear_entry name q es ok,
      )
]
