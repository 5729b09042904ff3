-- ===== src/Inode/Truncate.antt =====
-- src/fs/unix/inode.cpp: the blocks of a file, and what `truncate` frees.
use pseudo_fs.Common.{
  ℕ, zero, suc, ◌+◌, ◌<◌, ◌≡◌, refl, sym, ap, ap₂, subst, ◌∙◌, List, [], ◌∷◌, ◌++◌, arith,
  if◌then◌else◌, ◌==◌, Bool, true, false, Bool-cases, inl, inr,
}
use pseudo_fs.Common.Arrays.{word}
use pseudo_fs.Common.Lists.{NotIn}
use pseudo_fs.BlockDevice.{BlockDevice}
use pseudo_fs.SuperBlock.{Volume, data_block, bfree}
use pseudo_fs.SuperBlock.FreeList.{Holds, IsDataBlock}
use pseudo_fs.SuperBlock.Free.{bfree-push}
use pseudo_fs.SuperBlock.Writes.{word-bfree}
use pseudo_fs.Inode.{bfree_used, free_entries, free_single, free_singles, free_double, free_blocks}

-- The entries in use among n places from i.
unfoldable pub used : (ℕ → ℕ) → ℕ → ℕ → List ℕ
used e i zero = []
used e i (suc n) = let rest = used e (i + 1) n in if e i == 0 then rest else e i ∷ rest

-- The blocks of one indirect block, with that block.
unfoldable pub single : BlockDevice → ℕ → List ℕ
unfolding used
single d b = if b == 0 then [] else used (word (data_block d b)) 0 256 ++ b ∷ []

unfoldable pub singles : BlockDevice → (ℕ → ℕ) → ℕ → ℕ → List ℕ
unfolding single
singles d l i zero = []
singles d l i (suc n) = single d (l i) ++ singles d l (i + 1) n

unfoldable pub double : BlockDevice → ℕ → List ℕ
double d b = if b == 0 then [] else singles d (word (data_block d b)) 0 256 ++ b ∷ []

-- All the blocks of a file, in the order in which `truncate` frees them.
abbrev pub owned : BlockDevice → (ℕ → ℕ) → List ℕ
owned d addr = used addr 0 6 ++ (single d (addr 6) ++ (single d (addr 7) ++ double d (addr 8)))

-- The list after pushing all of us.
abbrev pub onto : List ℕ → List ℕ → List ℕ
onto [] free = free
onto (b ∷ us) free = onto us (b ∷ free)

-- Data blocks, none of them twice, and none of them free.
abbrev pub Fresh : List ℕ → List ℕ → Type 0
Fresh [] free = Unit
Fresh (b ∷ us) free = IsDataBlock b × NotIn b free × Fresh us (b ∷ free)

onto-append : (us vs free : List ℕ) → onto (us ++ vs) free ≡ onto vs (onto us free)
onto-append [] vs free = refl
onto-append (b ∷ us) vs free = onto-append us vs (b ∷ free)

Fresh-append :
    (us vs free : List ℕ) → Fresh (us ++ vs) free → Fresh us free × Fresh vs (onto us free)
Fresh-append [] vs free h = (tt, h)
Fresh-append (b ∷ us) vs free (ok, new, h) =
    let (a, c) = Fresh-append us vs (b ∷ free) h in ((ok, new, a), c)

NotIn-onto : (c : ℕ) (us free : List ℕ) → NotIn c (onto us free) → NotIn c us × NotIn c free
NotIn-onto c [] free h = (tt, h)
NotIn-onto c (b ∷ us) free h = let (a, (ne, f)) = NotIn-onto c us (b ∷ free) h in ((ne, a), f)

NotIn-append : (c : ℕ) (us vs : List ℕ) → NotIn c (us ++ vs) → NotIn c us × NotIn c vs
NotIn-append c [] vs h = (tt, h)
NotIn-append c (b ∷ us) vs (ne, h) = let (a, f) = NotIn-append c us vs h in ((ne, a), f)

-- The words of every block outside us are the same on both disks.
abbrev Same : BlockDevice → BlockDevice → List ℕ → Type 0
Same d d' us = (c j : ℕ) → NotIn c us → j < 256 → word (data_block d' c) j ≡ word (data_block d c) j

-- The blocks us have been freed, and no other block has been written.
abbrev Freed : Volume → List ℕ → List ℕ → Volume → Type 0
Freed v us free v' = Holds v' (onto us free) × Same v.dev v'.dev us

Freed-append :
    (v w x : Volume) (us vs free : List ℕ)
    → Freed v us free w
    → Freed w vs (onto us free) x
    → Freed v (us ++ vs) free x
Freed-append v w x us vs free (held, same) (held', same') = (
  subst (Holds x) (sym (onto-append us vs free)) held',
  λ c j out p. let (a, b) = NotIn-append c us vs out in same' c j b p ∙ same c j a p,
)

bfree-Freed :
    (v : Volume) (b : ℕ) (free : List ℕ)
    → Holds v free
    → Fresh (b ∷ []) free
    → Freed v (b ∷ []) free (bfree b v)
bfree-Freed v b free h (ok, new, _) =
    (bfree-push v b free h ok new, λ c j out p. word-bfree v b c j h.layout (λ e. out.0 (sym e)) p)

free_entries-Freed :
    (e : ℕ → ℕ) (i n : ℕ) (v : Volume) (free : List ℕ)
    → Holds v free
    → Fresh (used e i n) free
    → Freed v (used e i n) free (free_entries e i n v)
unfolding free_entries used
free_entries-Freed e i zero v free h = λ ok. (h, λ c j out p. refl)
free_entries-Freed e i (suc n) v free h = elim (Bool-cases (e i == 0)) [
  | inl z ↦ λ ok.
      let u : used e i (suc n) ≡ used e (i + 1) n = rw z refl in
      let w : bfree_used (e i) v ≡ v = rw z refl in
      subst (λ us. Freed v us free (free_entries e i (suc n) v)) (sym u)
        (subst (λ x. Freed v (used e (i + 1) n) free (free_entries e (i + 1) n x)) (sym w)
          (free_entries-Freed e (i + 1) n v free h (subst (λ us. Fresh us free) u ok)))
  | inr z ↦ λ ok.
      let u : used e i (suc n) ≡ e i ∷ used e (i + 1) n = rw z refl in
      let w : bfree_used (e i) v ≡ bfree (e i) v = rw z refl in
      let (a, b) =
        Fresh-append (e i ∷ []) (used e (i + 1) n) free (subst (λ us. Fresh us free) u ok) in
      let first = bfree-Freed v (e i) free h a in
      subst (λ us. Freed v us free (free_entries e i (suc n) v)) (sym u)
        (subst (λ x. Freed v (e i ∷ used e (i + 1) n) free (free_entries e (i + 1) n x)) (sym w)
          (Freed-append v (bfree (e i) v) (free_entries e (i + 1) n (bfree (e i) v)) (e i ∷ [])
            (used e (i + 1) n) free first
            (free_entries-Freed e (i + 1) n (bfree (e i) v) (e i ∷ free) first.0 b)))
]

free_single-Freed :
    (b : ℕ) (v : Volume) (free : List ℕ)
    → Holds v free
    → Fresh (single v.dev b) free
    → Freed v (single v.dev b) free (free_single b v)
unfolding free_single single
free_single-Freed b v free h = elim (Bool-cases (b == 0)) [
  | inl z ↦ rw z (λ ok. (h, λ c j out p. refl))
  | inr z ↦ rw z (λ ok.
      let e = word (data_block v.dev b) in
      let (a, last) = Fresh-append (used e 0 256) (b ∷ []) free ok in
      let first = free_entries-Freed e 0 256 v free h a in
      let w = free_entries e 0 256 v in
      Freed-append v w (bfree b w) (used e 0 256) (b ∷ []) free first
        (bfree-Freed w b (onto (used e 0 256) free) first.0 last))
]

used-ext : (e f : ℕ → ℕ) (i n : ℕ) → ((j : ℕ) → j < i + n → e j ≡ f j) → used e i n ≡ used f i n
unfolding used
used-ext e f i zero h = refl
used-ext e f i (suc n) h =
    let here : e i ≡ f i = h i (omega arith) in
    rw (here, used-ext e f (i + 1) n (λ j p. h j (omega arith))) refl

single-Same :
    (d d' : BlockDevice) (b : ℕ) (us : List ℕ)
    → Same d d' us
    → ((b == 0) ≡ false → NotIn b us)
    → single d' b ≡ single d b
unfolding single
single-Same d d' b us same out = elim (Bool-cases (b == 0)) [
  | inl z ↦ rw z refl
  | inr z ↦ rw z (
      ap (λ xs. xs ++ b ∷ [])
        (used-ext (word (data_block d' b)) (word (data_block d b)) 0 256
          (λ j p. same b j (out z) (omega arith))))
]

-- The indirect block itself is not free before.
single_outside :
    (d : BlockDevice) (b : ℕ) (free : List ℕ)
    → Fresh (single d b) free
    → (b == 0) ≡ false
    → NotIn b free
unfolding single
single_outside d b free ok z =
    let whole : Fresh (used (word (data_block d b)) 0 256 ++ b ∷ []) free = rw z at ok in
    let (_, last) = Fresh-append (used (word (data_block d b)) 0 256) (b ∷ []) free whole in
    (NotIn-onto b (used (word (data_block d b)) 0 256) free last.1).1

singles-Same :
    (d d' : BlockDevice) (l : ℕ → ℕ) (i n : ℕ) (us free : List ℕ)
    → Same d d' us
    → ((b : ℕ) → NotIn b free → NotIn b us)
    → Fresh (singles d l i n) free
    → singles d' l i n ≡ singles d l i n
unfolding singles
singles-Same d d' l i zero us free same apart ok = refl
singles-Same d d' l i (suc n) us free same apart ok =
    let (a, c) = Fresh-append (single d (l i)) (singles d l (i + 1) n) free ok in
    ap₂ ◌++◌ (single-Same d d' (l i) us same (λ z. apart (l i) (single_outside d (l i) free a z))) (
      singles-Same d d' l (i + 1) n us (onto (single d (l i)) free) same
        (λ b out. apart b (NotIn-onto b (single d (l i)) free out).1) c)

free_singles-Freed :
    (l : ℕ → ℕ) (i n : ℕ) (v : Volume) (free : List ℕ)
    → Holds v free
    → Fresh (singles v.dev l i n) free
    → Freed v (singles v.dev l i n) free (free_singles l i n v)
unfolding free_singles singles
free_singles-Freed l i zero v free h ok = (h, λ c j out p. refl)
free_singles-Freed l i (suc n) v free h ok =
    let s = single v.dev (l i) in
    let rest = singles v.dev l (i + 1) n in
    let (a, c) = Fresh-append s rest free ok in
    let first = free_single-Freed (l i) v free h a in
    let w = free_single (l i) v in
    let same : singles w.dev l (i + 1) n ≡ rest =
      singles-Same v.dev w.dev l (i + 1) n s (onto s free) first.1
        (λ b out. (NotIn-onto b s free out).0) c in
    Freed-append v w (free_singles l (i + 1) n w) s rest free first (
      subst (λ us. Freed w us (onto s free) (free_singles l (i + 1) n w)) same
        (free_singles-Freed l (i + 1) n w (onto s free) first.0
          (subst (λ us. Fresh us (onto s free)) (sym same) c)))

if_true {ℓ} : {A : Type ℓ} (t : Bool) (x y : A) → t ≡ true → (if t then x else y) ≡ x
if_true t x y e = rw e refl

if_false {ℓ} : {A : Type ℓ} (t : Bool) (x y : A) → t ≡ false → (if t then x else y) ≡ y
if_false t x y e = rw e refl

double_none : (d : BlockDevice) (b : ℕ) → (b == 0) ≡ true → double d b ≡ []
unfolding double
double_none d b z = if_true (b == 0) [] (singles d (word (data_block d b)) 0 256 ++ b ∷ []) z

double_some :
    (d : BlockDevice) (b : ℕ)
    → (b == 0) ≡ false
    → double d b ≡ singles d (word (data_block d b)) 0 256 ++ b ∷ []
unfolding double
double_some d b z = if_false (b == 0) [] (singles d (word (data_block d b)) 0 256 ++ b ∷ []) z

free_double_none : (b : ℕ) (v : Volume) → (b == 0) ≡ true → free_double b v ≡ v
unfolding free_double
free_double_none b v z =
    if_true (b == 0) v (bfree b (free_singles (word (data_block v.dev b)) 0 256 v)) z

free_double_some :
    (b : ℕ) (v : Volume)
    → (b == 0) ≡ false
    → free_double b v ≡ bfree b (free_singles (word (data_block v.dev b)) 0 256 v)
unfolding free_double
free_double_some b v z =
    if_false (b == 0) v (bfree b (free_singles (word (data_block v.dev b)) 0 256 v)) z

free_double-Freed :
    (b : ℕ) (v : Volume) (free : List ℕ)
    → Holds v free
    → Fresh (double v.dev b) free
    → Freed v (double v.dev b) free (free_double b v)
free_double-Freed b v free h = elim (Bool-cases (b == 0)) [
  | inl z ↦ λ ok.
      subst (λ us. Freed v us free (free_double b v)) (sym (double_none v.dev b z))
        (subst (Freed v [] free) (sym (free_double_none b v z)) (h, λ c j out p. refl))
  | inr z ↦ λ ok.
      let us = singles v.dev (word (data_block v.dev b)) 0 256 in
      let some = double_some v.dev b z in
      let (a, last) = Fresh-append us (b ∷ []) free (subst (λ xs. Fresh xs free) some ok) in
      let first = free_singles-Freed (word (data_block v.dev b)) 0 256 v free h a in
      let w = free_singles (word (data_block v.dev b)) 0 256 v in
      subst (λ xs. Freed v xs free (free_double b v)) (sym some)
        (subst (Freed v (us ++ b ∷ []) free) (sym (free_double_some b v z)) (
          Freed-append v w (bfree b w) us (b ∷ []) free first
            (bfree-Freed w b (onto us free) first.0 last)))
]

singles-ext :
    (d : BlockDevice) (l m : ℕ → ℕ) (i n : ℕ)
    → ((j : ℕ) → j < i + n → l j ≡ m j)
    → singles d l i n ≡ singles d m i n
unfolding singles
singles-ext d l m i zero h = refl
singles-ext d l m i (suc n) h =
    ap₂ ◌++◌ (ap (single d) (h i (omega arith)))
      (singles-ext d l m (i + 1) n (λ j p. h j (omega arith)))

double-Same :
    (d d' : BlockDevice) (b : ℕ) (us free : List ℕ)
    → Same d d' us
    → ((c : ℕ) → NotIn c free → NotIn c us)
    → Fresh (double d b) free
    → double d' b ≡ double d b
double-Same d d' b us free same apart = elim (Bool-cases (b == 0)) [
  | inl z ↦ λ ok. double_none d' b z ∙ sym (double_none d b z)
  | inr z ↦ λ ok.
      let l = word (data_block d b) in
      let (a, last) =
        Fresh-append (singles d l 0 256) (b ∷ []) free
          (subst (λ xs. Fresh xs free) (double_some d b z) ok) in
      let out = apart b (NotIn-onto b (singles d l 0 256) free last.1).1 in
      double_some d' b z
      ∙ ap (λ xs. xs ++ b ∷ [])
          (singles-ext d' (word (data_block d' b)) l 0 256 (λ j p. same b j out (omega arith))
            ∙ singles-Same d d' l 0 256 us free same apart a)
      ∙ sym (double_some d b z)
]

below-Same :
    (d d' : BlockDevice) (x y z : ℕ) (us free : List ℕ)
    → Same d d' us
    → ((c : ℕ) → NotIn c free → NotIn c us)
    → Fresh (single d x ++ (single d y ++ double d z)) free
    → single d' x ++ (single d' y ++ double d' z) ≡ single d x ++ (single d y ++ double d z)
below-Same d d' x y z us free same apart ok =
    let s = single d x in
    let t = single d y in
    let (a, bc) = Fresh-append s (t ++ double d z) free ok in
    let (b, c) = Fresh-append t (double d z) (onto s free) bc in
    let after_s : (k : ℕ) → NotIn k (onto s free) → NotIn k us =
      λ k out. apart k (NotIn-onto k s free out).1 in
    ap₂ ◌++◌ (single-Same d d' x us same (λ nz. apart x (single_outside d x free a nz))) (
      ap₂ ◌++◌
        (single-Same d d' y us same (λ nz. after_s y (single_outside d y (onto s free) b nz)))
        (double-Same d d' z us (onto t (onto s free)) same
          (λ k out. after_s k (NotIn-onto k t (onto s free) out).1) c))

-- The two single indirect blocks and the double one.
indirect-Freed :
    (x y z : ℕ) (v : Volume) (free : List ℕ)
    → Holds v free
    → Fresh (single v.dev x ++ (single v.dev y ++ double v.dev z)) free
    → Holds
        (free_double z (free_single y (free_single x v)))
        (onto (single v.dev x ++ (single v.dev y ++ double v.dev z)) free)
indirect-Freed x y z v free h ok =
    let s = single v.dev x in
    let t = single v.dev y in
    let (a, bc) = Fresh-append s (t ++ double v.dev z) free ok in
    let (b, c) = Fresh-append t (double v.dev z) (onto s free) bc in
    let first = free_single-Freed x v free h a in
    let w = free_single x v in
    let apart : (k : ℕ) → NotIn k (onto s free) → NotIn k s =
      λ k out. (NotIn-onto k s free out).0 in
    let t_same : single w.dev y ≡ t =
      single-Same v.dev w.dev y s first.1
        (λ nz. (NotIn-onto y s free (single_outside v.dev y (onto s free) b nz)).0) in
    let second : Freed w t (onto s free) (free_single y w) =
      subst (λ us. Freed w us (onto s free) (free_single y w)) t_same
        (free_single-Freed y w (onto s free) first.0
          (subst (λ us. Fresh us (onto s free)) (sym t_same) b)) in
    let r = free_single y w in
    let both = Freed-append v w r s t free first second in
    let joined = onto-append s t free in
    let u_same : double r.dev z ≡ double v.dev z =
      double-Same v.dev r.dev z (s ++ t) (onto t (onto s free)) both.1
        (λ k out. (NotIn-onto k (s ++ t) free (subst (NotIn k) (sym joined) out)).0) c in
    let third =
      free_double-Freed z r (onto t (onto s free)) second.0
        (subst (λ us. Fresh us (onto t (onto s free))) (sym u_same) c) in
    subst (Holds (free_double z r))
      (ap (λ us. onto us (onto t (onto s free))) u_same
        ∙ sym (onto-append t (double v.dev z) (onto s free))
        ∙ sym (onto-append s (t ++ double v.dev z) free))
      third.0

-- If the blocks of a file, which are those of its map, of its indirect blocks and these themselves,
-- are data blocks, each of them once and none of them free, then the loops of `truncate` free
-- exactly them: the volume holds the free blocks of before with those of the file pushed in order,
-- although freed blocks are overwritten by groups on the way.
pub free_blocks-Holds :
    (addr : ℕ → ℕ) (v : Volume) (free : List ℕ)
    → Holds v free
    → Fresh (owned v.dev addr) free
    → Holds (free_blocks addr v) (onto (owned v.dev addr) free)
unfolding free_blocks
free_blocks-Holds addr v free h ok =
    let us = used addr 0 6 in
    let below : BlockDevice → List ℕ =
      λ d. single d (addr 6) ++ (single d (addr 7) ++ double d (addr 8)) in
    let (a, b) = Fresh-append us (below v.dev) free ok in
    let first = free_entries-Freed addr 0 6 v free h a in
    let w = free_entries addr 0 6 v in
    let same : below w.dev ≡ below v.dev =
      below-Same v.dev w.dev (addr 6) (addr 7) (addr 8) us (onto us free) first.1
        (λ k out. (NotIn-onto k us free out).0) b in
    subst (Holds (free_blocks addr v))
      (ap (λ xs. onto xs (onto us free)) same ∙ sym (onto-append us (below v.dev) free))
      (indirect-Freed (addr 6) (addr 7) (addr 8) w (onto us free) first.0
        (subst (λ xs. Fresh xs (onto us free)) (sym same) b))
