-- ===== src/Commands/Tests.antt =====
-- Commands at concrete arguments, and the contract of `Commands.Copying` for the sample engine.
use pseudo_fs.Common.{
  ℕ, zero, suc, ◌+◌, min, ◌≡◌, refl, ap, ap₂, some, ◌-◌, ◌∙◌, List, [], ◌∷◌, ◌++◌, arith,
}
use pseudo_fs.Common.CStrings.{codes, take, drop, str_eq}
use pseudo_fs.Common.Int.{pos, negsuc}
use pseudo_fs.Common.Lists.{length}
use pseudo_fs.UnixFs.Links.{bytes_at, text_image}
use pseudo_fs.Vfs.Sample.{Tape, tape_engine}
use pseudo_fs.Commands.{stoi, number, no_number, too_large}
use pseudo_fs.Commands.Files.{copy_loop}
use pseudo_fs.Commands.Trees.{tree_args}
use pseudo_fs.Commands.Copying.{Files, copy_loop-At}

octal_mode : stoi 8 (codes "755x") ≡ number (pos 493)
unfolding stoi
octal_mode = refl

no_digits : stoi 10 (codes "abc") ≡ no_number
unfolding stoi
no_digits = refl

above_int : stoi 10 (codes "2147483648") ≡ too_large
unfolding stoi
above_int = refl

below_zero : stoi 10 (codes " -12") ≡ number (negsuc 11)
unfolding stoi
below_zero = refl

depth_arg : tree_args 6 [] (codes "-d" ∷ codes "0" ∷ codes "docs" ∷ []) ≡ number (1, codes "docs")
unfolding tree_args str_eq
depth_arg = refl

bytes_at-text_image :
    (n k : ℕ) (x : ℕ) (s : List ℕ)
    → bytes_at (text_image (x ∷ s)) (suc k) n ≡ bytes_at (text_image s) k n
bytes_at-text_image zero k x s = refl
bytes_at-text_image (suc n) k x s =
    let a : suc k + 1 ≡ suc (k + 1) = omega arith in
    rw a (ap (λ t. text_image s k ∷ t) (bytes_at-text_image n (k + 1) x s))

front_bytes : (len : ℕ) (s : List ℕ) → bytes_at (text_image s) 0 (min len (length s)) ≡ take len s
front_bytes zero s = let e : min 0 (length s) ≡ 0 = omega arith in rw e refl
front_bytes (suc len) [] = let e : min (suc len) 0 ≡ 0 = omega arith in rw e refl
front_bytes (suc len) (x ∷ s) =
    let e : min (suc len) (suc (length s)) ≡ suc (min len (length s)) = omega arith in
    rw e (ap (λ t. x ∷ t) (bytes_at-text_image (min len (length s)) 0 x s ∙ front_bytes len s))

tape_files : Files tape_engine 3 3
tape_files = record {
  At = λ u rest written room. (u.unread ≡ rest) × (u.written ≡ written) × (u.room ≡ room);
  reads = λ u rest written room len (r, w, k). (
    ap (λ t. pos (min len (length t))) r,
    ap (λ t. bytes_at (text_image t) 0 (min len (length rest))) r ∙ front_bytes len rest,
    (ap (drop len) r, w, k),
  );
  writes = λ u rest written room buf n (r, w, k).
      (r, ap₂ (λ t m. t ++ bytes_at buf 0 (min n m)) w k, ap (λ m. m - n) k);
}

abbrev tape : Tape
tape = record { unread = codes "hello"; written = []; room = 3 }

copy_loop-At_example :
    (v : Tape) × (copy_loop tape_engine 2 tape 3 3 ≡ some v)
    × ((v.unread ≡ [])
        × (v.written ≡ [] ++ take 3 (codes "hello"))
        × (v.room ≡ 3 - length (codes "hello")))
unfolding tape_files
copy_loop-At_example =
    copy_loop-At tape_engine 3 3 tape_files 1 tape (codes "hello") [] 3 (refl, refl, refl)
      (omega arith)
