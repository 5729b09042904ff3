-- ===== src/Commands/Copying.antt =====
-- The copies that cp and mv of src/main.cpp make, over any engine whose two descriptors behave like
-- files.
use pseudo_fs.Common.{
  ℕ, zero, suc, ◌-◌, ◌*◌, ◌≤◌, ◌<◌, min, Option, ◌≡◌, refl, sym, ap, subst, ◌∙◌, some, List, [],
  ◌∷◌, ◌++◌, append-nil, append_assoc, arith,
}
use pseudo_fs.Common.Arrays.{Buffer, zeros}
use pseudo_fs.Common.CStrings.{take, drop}
use pseudo_fs.Common.Int.{ℤ, pos, negsuc}
use pseudo_fs.Common.Lists.{length}
use pseudo_fs.UserManager.{UserManager}
use pseudo_fs.UnixFs.Links.{bytes_at}
use pseudo_fs.Vfs.{IFileSystem}
use pseudo_fs.Commands.Pieces.{
  take-drop, length-drop, length-bytes_at, take-bytes_at, take-nil, length-take-drop, take-append,
}
use pseudo_fs.Commands.Files.{copy_piece, copy_loop}

-- Two open descriptors of an engine with a finite disk: `At u rest written room` says that the source
-- has `rest` to read, the destination has got `written`, and the engine has room for so many bytes
-- more. A read gives what there is, up to the length that is asked for. A write appends what there is
-- room for, whatever it returns.
pub record Files {F : Type 0} (fs : IFileSystem F) (src dst : ℕ) : Type 1 where
  pub At : F → List ℕ → List ℕ → ℕ → Type 0
  pub reads :
      (u : F) (rest written : List ℕ) (room len : ℕ)
      → At u rest written room
      → let r = fs.fs_read u (pos src) zeros len in
        (r.0 ≡ pos (min len (length rest)))
        × (bytes_at r.2 0 (min len (length rest)) ≡ take len rest)
        × At r.1 (drop len rest) written room
  pub writes :
      (u : F) (rest written : List ℕ) (room : ℕ) (buf : Buffer) (n : ℕ)
      → At u rest written room
      → At
          (fs.fs_write u (pos dst) buf n).1
          rest
          (written ++ bytes_at buf 0 (min n room))
          (room - n)

module _ {F : Type 0} (fs : IFileSystem F) (src dst : ℕ) (files : Files fs src dst) where
  open files use {At, reads, writes}

  copy_piece_none :
      (again : F → Option F) (r : ℤ × F × Buffer)
      → r.0 ≡ pos 0
      → copy_piece fs again dst r ≡ some r.1
  copy_piece_none again (negsuc k, u, buf) e = absurd (cc)
  copy_piece_none again (pos zero, u, buf) e = refl
  copy_piece_none again (pos (suc n), u, buf) e = absurd (cc)

  copy_piece_some :
      (again : F → Option F) (n : ℕ) (r : ℤ × F × Buffer)
      → r.0 ≡ pos (suc n)
      → copy_piece fs again dst r ≡ again (fs.fs_write r.1 (pos dst) r.2 (suc n)).1
  copy_piece_some again n (negsuc k, u, buf) e = absurd (cc)
  copy_piece_some again n (pos zero, u, buf) e = absurd (cc)
  copy_piece_some again n (pos (suc m), u, buf) e = let same : m ≡ n = cc in rw same refl

  -- One piece that is not empty, read and written.
  copy_piece-At :
      (u : F) (rest written : List ℕ) (room : ℕ)
      → At u rest written room
      → 0 < length rest
      → let r = fs.fs_read u (pos src) zeros 4096 in
        (n : ℕ) × (r.0 ≡ pos (suc n))
        × At
            (fs.fs_write r.1 (pos dst) r.2 (suc n)).1
            (drop 4096 rest)
            (written ++ take room (take 4096 rest))
            (room - length (take 4096 rest))
  copy_piece-At u rest written room h p =
      let r = fs.fs_read u (pos src) zeros 4096 in
      let size = min 4096 (length rest) in
      let (count, bytes, next) = reads u rest written room 4096 h in
      let full : size ≡ suc (size - 1) = omega arith in
      let piece : bytes_at r.2 0 (suc (size - 1)) ≡ take 4096 rest =
        ap (bytes_at r.2 0) (sym full) ∙ bytes in
      let put = writes r.1 (drop 4096 rest) written room r.2 (suc (size - 1)) next in
      let fits : bytes_at r.2 0 (min (suc (size - 1)) room) ≡ take room (take 4096 rest) =
        sym (take-bytes_at room (suc (size - 1)) 0 r.2) ∙ ap (take room) piece in
      let taken : suc (size - 1) ≡ length (take 4096 rest) =
        sym (length-bytes_at (suc (size - 1)) 0 r.2) ∙ ap length piece in
      let after = (fs.fs_write r.1 (pos dst) r.2 (suc (size - 1))).1 in
      (
        size - 1,
        count ∙ ap pos full,
        subst (λ n. At after (drop 4096 rest) (written ++ take room (take 4096 rest)) (room - n))
            taken
            (subst (λ t. At after (drop 4096 rest) (written ++ t) (room - suc (size - 1))) fits
              put),
      )

  -- Over two descriptors on a finite disk (`Files`), the loop of a copy ends, if the fuel is enough for
  -- the length in pieces of 4096 bytes and one read more. The source has then nothing left, and the
  -- destination has got of it what there was room for: all of it, or its front only.
  pub copy_loop-At :
      (fuel : ℕ) (u : F) (rest written : List ℕ) (room : ℕ)
      → At u rest written room
      → length rest ≤ 4096 * fuel
      → (v : F) × (copy_loop fs (suc fuel) u src dst ≡ some v)
        × At v [] (written ++ take room rest) (room - length rest)
  unfolding copy_loop
  copy_loop-At fuel u [] written room h p =
      let again = λ (v : F). copy_loop fs fuel v src dst in
      let r = fs.fs_read u (pos src) zeros 4096 in
      let (count, bytes, next) = reads u [] written room 4096 h in
      let kept : room - 0 ≡ room = omega arith in
      let nothing : written ++ take room [] ≡ written =
        ap (λ t. written ++ t) (take-nil room) ∙ append-nil written in
      (
        r.1,
        copy_piece_none again r count,
        subst (At r.1 [] (written ++ take room [])) (sym kept)
            (subst (λ t. At r.1 [] t room) (sym nothing) next),
      )
  copy_loop-At zero u (x ∷ rest) written room h p = absurd (omega arith)
  copy_loop-At (suc fuel) u (x ∷ rest) written room h p =
      let again = λ (v : F). copy_loop fs (suc fuel) v src dst in
      let r = fs.fs_read u (pos src) zeros 4096 in
      let all = x ∷ rest in
      let here = take 4096 all in
      let (n, count, put) = copy_piece-At u all written room h (omega arith) in
      let shorter = length-drop 4096 all in
      let left = room - length here in
      let (v, ends, done) =
        copy_loop-At fuel (fs.fs_write r.1 (pos dst) r.2 (suc n)).1 (drop 4096 all)
          (written ++ take room here) left put (omega arith) in
      let fits : (written ++ take room here) ++ take left (drop 4096 all)
          ≡ written ++ take room all =
        append_assoc written (take room here) (take left (drop 4096 all))
        ∙ ap (λ t. written ++ t)
            (sym (take-append room here (drop 4096 all)) ∙ ap (take room) (take-drop 4096 all)) in
      let size = length-take-drop 4096 all in
      let remains : left - length (drop 4096 all) ≡ room - length all = omega arith in
      (
        v,
        copy_piece_some again n r count ∙ ends,
        subst (At v [] (written ++ take room all)) remains
            (subst (λ t. At v [] t (left - length (drop 4096 all))) fits done),
      )
