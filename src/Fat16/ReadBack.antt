-- ===== src/Fat16/ReadBack.antt =====
-- What the loop of `fs_write` stores and the loop of `fs_read` gives back, both in
-- src/fs/fat16/fat16_fs.cpp, in the clusters of a file.
use pseudo_fs.Common.{
  ℕ, zero, suc, ◌+◌, ◌-◌, ◌*◌, ◌≤◌, ◌<◌, ◌≡◌, refl, sym, subst, ◌∙◌, List, [], ◌∷◌, true, false,
  ◌&&◌, ltb, leb, if◌then◌else◌, arith, inl, inr, Bool-cases, ltb→lt,
}
use pseudo_fs.Common.Arrays.{Buffer}
use pseudo_fs.Common.Lists.{length, NotIn}
use pseudo_fs.BlockDevice.{BlockDevice, read_buf}
use pseudo_fs.Fat16.{cluster_to_block}
use pseudo_fs.Fat16.Alloc.{IsCluster}
use pseudo_fs.Fat16.Chains.{Chain}
use pseudo_fs.Fat16.Mirror.{HasShape}
use pseudo_fs.Fat16.Reading.{read_loop_lem}
use pseudo_fs.Fat16.WriteLaws.{chunk_of, filled}
use pseudo_fs.Fat16.Writing.{write_loop}
use pseudo_fs.Fat16.Files.{read_loop}
use pseudo_fs.Fat16.Contents.{
  Stored, filled-HasShape, Stored-full, Stored-last, Stored-on, next-IsCluster, loop_out, loop_done,
  loop_last, loop_on,
}

module _ (fuel : ℕ) (src : Buffer) (len off written : ℕ) (fat : ℕ → ℕ) (d : BlockDevice) (y : ℕ)
    (ys : List ℕ) where
  Stored-pass :
      HasShape d
      → Chain fat y (y ∷ ys)
      → off < 512
      → off + (len - written) ≤ 512 * length (y ∷ ys)
      → ltb written len ≡ true
      → (written + chunk_of off len written < len
          → Stored src len 0
              (written + chunk_of off len written)
              fat
              (filled src len y off written d)
              ys
              (write_loop fuel src len
                (fat y)
                0
                (written + chunk_of off len written)
                fat
                (filled src len y off written d)))
      → Stored src len off written fat d
          (y ∷ ys)
          (write_loop (suc fuel) src len y off written fat d)
  Stored-pass s (e, v, h) o room more next =
      let lt = ltb→lt written len more in
      elim (Bool-cases (ltb (written + chunk_of off len written) len)) [
        | inr last ↦
            let full : written + chunk_of off len written ≡ len = ground arith in
            subst (Stored src len off written fat d (y ∷ ys))
              (sym (loop_last fuel src len y off written fat d more last))
              (Stored-last src len off written fat d y ys s (refl, v, h) o lt full)
        | inl again ↦
            let go = ltb→lt (written + chunk_of off len written) len again in
            let (lo, hi) = next-IsCluster fat (fat y) ys h (omega arith) in
            subst (Stored src len off written fat d (y ∷ ys))
              (sym (loop_on fuel src len y off written fat d more again lo hi))
              (Stored-on src len off written fat d y ys _ s (refl, v, h) o go (next go))
      ]

-- The loop, entered in a chain with room for what is left, writes all of it at its place, allocates
-- no cluster and changes no other byte of a cluster.
write_loop-Stored :
    (fuel : ℕ) (src : Buffer) (len cur off written : ℕ) (fat : ℕ → ℕ) (d : BlockDevice)
    (cs : List ℕ)
    → HasShape d
    → Chain fat cur cs
    → off < 512
    → written ≤ len
    → len ≤ written + fuel
    → off + (len - written) ≤ 512 * length cs
    → Stored src len off written fat d cs (write_loop fuel src len cur off written fat d)
write_loop-Stored zero src len cur off written fat d cs s h o le enough room =
    subst (Stored src len off written fat d cs) (sym (loop_out src len cur off written fat d))
      (Stored-full src len off written fat d cs (omega arith))
write_loop-Stored (suc fuel) src len cur off written fat d [] s h o le enough room =
    let full : written ≡ len = omega arith in
    let stop : ltb written len ≡ false = ground arith in
    subst (Stored src len off written fat d [])
      (sym (loop_done fuel src len cur off written fat d stop))
      (Stored-full src len off written fat d [] full)
write_loop-Stored (suc fuel) src len cur off written fat d (y ∷ ys) s (e, v, h) o le enough room =
    elim (Bool-cases (ltb written len)) [
      | inr stop ↦
          subst (Stored src len off written fat d (y ∷ ys))
            (sym (loop_done fuel src len cur off written fat d stop))
            (Stored-full src len off written fat d (y ∷ ys) (ground arith))
      | inl more ↦
          let lt = ltb→lt written len more in
          let next =
            write_loop-Stored fuel src len (fat y) 0 (written + chunk_of off len written) fat
              (filled src len y off written d) ys (filled-HasShape src len y off written d s) h in
          subst
            (λ c.
              Stored src len off written fat d (y ∷ ys)
                (write_loop (suc fuel) src len c off written fat d))
            (sym e)
            (Stored-pass fuel src len off written fat d y ys s (refl, v, h) o room more
              (λ go. next (omega arith) (omega arith) (omega arith) (omega arith)))
    ]

-- In a chain of clusters with room for `len` bytes behind byte `off` of its first cluster, the
-- loop of `fs_write` stores all `len` bytes and leaves the FAT as it is, and the loop of
-- `fs_read`, run on what it leaves from the same place, fills in exactly those bytes and nothing
-- else; and no block of a cluster outside the chain has changed.
pub read_loop-write_loop :
    (src dst : Buffer) (len cur off : ℕ) (fat : ℕ → ℕ) (d : BlockDevice) (cs : List ℕ)
    → HasShape d
    → Chain fat cur cs
    → off < 512
    → len + off ≤ 512 * length cs
    → ((write_loop len src len cur off 0 fat d).0 ≡ len)
      × ((write_loop len src len cur off 0 fat d).1 ≡ fat)
      × ((read_loop len (write_loop len src len cur off 0 fat d).2 fat len cur off 0 dst).0 ≡ len)
      × ((i : ℕ)
          → (read_loop len (write_loop len src len cur off 0 fat d).2 fat len cur off 0 dst).1 i
            ≡ (if ltb i len then src i else dst i))
      × ((x j : ℕ)
          → IsCluster x
          → NotIn x cs
          → j < 512
          → read_buf (write_loop len src len cur off 0 fat d).2 (cluster_to_block x) j
            ≡ read_buf d (cluster_to_block x) j)
read_loop-write_loop src dst len cur off fat d cs s h o room =
    let (all, kept, each, frame) =
      write_loop-Stored len src len cur off 0 fat d cs s h o (omega arith) (omega arith)
        (omega arith) in
    let d' = (write_loop len src len cur off 0 fat d).2 in
    let (got, byte) =
      read_loop_lem len d' fat len cur off 0 dst cs h o (omega arith) (omega arith) (omega arith) in
    (
      all,
      kept,
      got,
      (λ i. byte i ∙ elim (Bool-cases (ltb i len)) [
        | inl p ↦
            let lt = ltb→lt i len p in
            let here : (leb off (off + (i - 0)) && ltb (off + (i - 0)) (off + (len - 0))) ≡ true =
              ground arith in
            let from : 0 + (off + (i - 0) - off) ≡ i = omega arith in
            let low : leb 0 i ≡ true = ground arith in
            rw (low, p) (each (off + (i - 0)) (omega arith) ∙ rw (here, from) refl)
        | inr p ↦ let low : leb 0 i ≡ true = ground arith in rw (low, p) refl
      ]),
      frame,
    )
