-- ===== src/Commands/Pieces.antt =====
-- The front and the rest of a text, and of the bytes of a buffer.
use pseudo_fs.Common.{
  ℕ, zero, suc, ◌+◌, ◌-◌, ◌<◌, min, ◌≡◌, refl, sym, ap, ◌∙◌, List, [], ◌∷◌, ◌++◌, arith,
}
use pseudo_fs.Common.Arrays.{Buffer}
use pseudo_fs.Common.CStrings.{take, drop}
use pseudo_fs.Common.Lists.{length}
use pseudo_fs.UnixFs.Links.{bytes_at}

pub take-drop : (n : ℕ) (s : List ℕ) → take n s ++ drop n s ≡ s
take-drop zero s = refl
take-drop (suc n) [] = refl
take-drop (suc n) (x ∷ s) = ap (λ t. x ∷ t) (take-drop n s)

pub length-drop : (n : ℕ) (s : List ℕ) → length (drop n s) ≡ length s - n
length-drop zero s = omega arith
length-drop (suc n) [] = omega arith
length-drop (suc n) (x ∷ s) = omega (arith, length-drop n s)

pub length-bytes_at : (n k : ℕ) (buf : Buffer) → length (bytes_at buf k n) ≡ n
length-bytes_at zero k buf = refl
length-bytes_at (suc n) k buf = ap suc (length-bytes_at n (k + 1) buf)

pub take-bytes_at :
    (room n k : ℕ) (buf : Buffer) → take room (bytes_at buf k n) ≡ bytes_at buf k (min n room)
take-bytes_at zero n k buf = let e : min n 0 ≡ 0 = omega arith in rw e refl
take-bytes_at (suc room) zero k buf = let e : min 0 (suc room) ≡ 0 = omega arith in rw e refl
take-bytes_at (suc room) (suc n) k buf =
    let e : min (suc n) (suc room) ≡ suc (min n room) = omega arith in
    rw e (ap (λ t. buf k ∷ t) (take-bytes_at room n (k + 1) buf))

pub take-nil : (n : ℕ) → take {A = ℕ} n [] ≡ []
take-nil zero = refl
take-nil (suc n) = refl

pub length-take-drop : (n : ℕ) (s : List ℕ) → length (take n s) + length (drop n s) ≡ length s
length-take-drop zero s = omega arith
length-take-drop (suc n) [] = refl
length-take-drop (suc n) (x ∷ s) = omega (arith, length-take-drop n s)

-- What fits of a text is what fits of a piece, and of the rest in the room behind it.
pub take-append :
    (room : ℕ) (a b : List ℕ) → take room (a ++ b) ≡ take room a ++ take (room - length a) b
take-append zero [] b = refl
take-append zero (x ∷ a) b = let e : 0 - suc (length a) ≡ 0 = omega arith in rw e refl
take-append (suc room) [] b = let e : suc room - 0 ≡ suc room = omega arith in rw e refl
take-append (suc room) (x ∷ a) b =
    let e : suc room - suc (length a) ≡ room - length a = omega arith in
    rw e (ap (λ t. x ∷ t) (take-append room a b))

pub bytes_at_ext :
    (n j k : ℕ) (a b : Buffer)
    → ((i : ℕ) → i < n → a (j + i) ≡ b (k + i))
    → bytes_at a j n ≡ bytes_at b k n
bytes_at_ext zero j k a b h = refl
bytes_at_ext (suc n) j k a b h =
    let here : a j ≡ b k =
      let p : j + 0 ≡ j = omega arith in
      let q : k + 0 ≡ k = omega arith in sym (ap a p) ∙ h 0 (omega arith) ∙ ap b q in
    let rest = bytes_at_ext n (j + 1) (k + 1) a b (λ i p.
      let x : j + 1 + i ≡ j + suc i = omega arith in
      let y : k + suc i ≡ k + 1 + i = omega arith in ap a x ∙ h (suc i) (omega arith) ∙ ap b y) in
    rw (here, rest) refl

pub drop-bytes_at :
    (len n k : ℕ) (a : Buffer) → drop len (bytes_at a k n) ≡ bytes_at a (k + min len n) (n - len)
drop-bytes_at zero n k a =
    let p : k + min 0 n ≡ k = omega arith in let q : n - 0 ≡ n = omega arith in rw (p, q) refl
drop-bytes_at (suc len) zero k a = let q : 0 - suc len ≡ 0 = omega arith in rw q refl
drop-bytes_at (suc len) (suc n) k a =
    let p : k + min (suc len) (suc n) ≡ k + 1 + min len n = omega arith in
    let q : suc n - suc len ≡ n - len = omega arith in rw (p, q) (drop-bytes_at len n (k + 1) a)
