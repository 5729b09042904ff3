-- ===== src/Fat16/Contents.antt =====
-- The loop of `fs_write` in src/fs/fat16/fat16_fs.cpp that copies the data, against the bytes along
-- the chain of clusters.
use pseudo_fs.Common.{
  ℕ, zero, suc, ◌+◌, ◌-◌, ◌*◌, ◌≤◌, ◌<◌, ◌≡◌, ◌≢◌, refl, sym, ap, subst, ◌∙◌, List, [], ◌∷◌, true,
  false, ◌&&◌, ltb, leb, if◌then◌else◌, arith,
}
use native.Mathlib.Decide.{dec_lt}
use pseudo_fs.Common.Arrays.{Buffer}
use pseudo_fs.Common.Lists.{length, NotIn}
use pseudo_fs.BlockDevice.{BlockDevice, read_buf}
use pseudo_fs.BlockDevice.Laws.{read_buf-write_buf_self, read_buf-write_buf_ne, write_buf_shape}
use pseudo_fs.Fat16.{cluster_to_block}
use pseudo_fs.Fat16.Alloc.{IsCluster}
use pseudo_fs.Fat16.Chains.{Chain, Chain-head}
use pseudo_fs.Fat16.Mirror.{HasShape}
use pseudo_fs.Fat16.Reading.{chain_byte, chain_byte_here, chain_byte_next}
use pseudo_fs.Fat16.Writing.{write_loop}
use pseudo_fs.Fat16.Seeking.{advance_inside}
use pseudo_fs.Fat16.WriteLaws.{chunk_of, filled}

module _ (src : Buffer) (len cur off written : ℕ) (d : BlockDevice) where
  pub filled-HasShape : HasShape d → HasShape (filled src len cur off written d)
  filled-HasShape s = let (a, b) = write_buf_shape d (cluster_to_block cur) _ in (a ∙ s.0, b ∙ s.1)

  -- The block that one pass writes.
  filled_self :
      (k : ℕ)
      → HasShape d
      → IsCluster cur
      → k < 512
      → read_buf (filled src len cur off written d) (cluster_to_block cur) k ≡ (
          if leb off k && ltb k (off + chunk_of off len written)
          then src (written + (k - off))
          else read_buf d (cluster_to_block cur) k)
  filled_self k s v p =
      read_buf-write_buf_self d (cluster_to_block cur) _ k (rw s.0 (omega arith)) (rw s.1 p)

  -- The other blocks of clusters.
  filled_ne :
      (c k : ℕ)
      → HasShape d
      → IsCluster cur
      → IsCluster c
      → c ≢ cur
      → k < 512
      → read_buf (filled src len cur off written d) (cluster_to_block c) k
        ≡ read_buf d (cluster_to_block c) k
  filled_ne c k s v w ne p =
      read_buf-write_buf_ne d (cluster_to_block cur) (cluster_to_block c) _ k
        (λ e. ne (omega arith)) (rw s.1 p)

-- The bytes of a chain do not depend on blocks of other clusters.
chain_byte_agree :
    (d d' : BlockDevice) (fat : ℕ → ℕ) (c : ℕ) (cs : List ℕ) (k : ℕ)
    → Chain fat c cs
    → ((x j : ℕ)
        → IsCluster x
        → (¬ NotIn x cs)
        → j < 512
        → read_buf d' (cluster_to_block x) j ≡ read_buf d (cluster_to_block x) j)
    → k < 512 * length cs
    → chain_byte d' cs k ≡ chain_byte d cs k
chain_byte_agree d d' fat c [] k h same p = absurd (omega arith)
chain_byte_agree d d' fat c (y ∷ ys) k (e, v, h) same p = elim (dec_lt k 512) [
  | yes q ↦
      chain_byte_here d' y ys k q
      ∙ same y k v (λ out. out.0 refl) q
      ∙ sym (chain_byte_here d y ys k q)
  | no q ↦
      let at : k ≡ 512 + (k - 512) = omega arith in
      ap (chain_byte d' (y ∷ ys)) at
      ∙ chain_byte_next d' y ys (k - 512)
      ∙ chain_byte_agree d d' fat (fat y) ys (k - 512) h
          (λ x j w m r. same x j w (λ out. m out.1) r) (omega arith)
      ∙ sym (ap (chain_byte d (y ∷ ys)) at ∙ chain_byte_next d y ys (k - 512))
]

pub loop_out :
    (src : Buffer) (len cur off written : ℕ) (fat : ℕ → ℕ) (d : BlockDevice)
    → write_loop zero src len cur off written fat d ≡ (written, fat, d)
unfolding write_loop
loop_out src len cur off written fat d = refl

module _ (fuel : ℕ) (src : Buffer) (len cur off written : ℕ) (fat : ℕ → ℕ) (d : BlockDevice) where
  pub loop_done :
      ltb written len ≡ false
      → write_loop (suc fuel) src len cur off written fat d ≡ (written, fat, d)
  unfolding write_loop
  loop_done e = rw e refl

  pub loop_last :
      ltb written len ≡ true
      → ltb (written + chunk_of off len written) len ≡ false
      → write_loop (suc fuel) src len cur off written fat d
        ≡ (written + chunk_of off len written, fat, filled src len cur off written d)
  unfolding write_loop
  loop_last e f = rw (e, f) refl

  pub loop_on :
      ltb written len ≡ true
      → ltb (written + chunk_of off len written) len ≡ true
      → 2 ≤ fat cur
      → fat cur < 2064
      → write_loop (suc fuel) src len cur off written fat d
        ≡ write_loop fuel src len
            (fat cur)
            0
            (written + chunk_of off len written)
            fat
            (filled src len cur off written d)
  unfolding write_loop
  loop_on e f lo hi =
      let d1 = filled src len cur off written d in
      let moved = advance_inside d1 fat cur lo hi in
      rw (e, f, ap (λ r. r.0) moved)
        (ap (λ r. write_loop fuel src len (fat cur) 0 (written + chunk_of off len written) r.1 r.2)
          moved)

-- What the loop leaves when it writes the rest of `len` bytes into a chain from byte `off` on.
abbrev pub Stored :
    Buffer → ℕ → ℕ → ℕ → (ℕ → ℕ) → BlockDevice → List ℕ → ℕ × (ℕ → ℕ) × BlockDevice → Type 0
Stored src len off written fat d cs r =
    (r.0 ≡ len)
    × (r.1 ≡ fat)
    × ((k : ℕ)
        → k < 512 * length cs
        → chain_byte r.2 cs k ≡ (
            if leb off k && ltb k (off + (len - written))
            then src (written + (k - off))
            else chain_byte d cs k))
    × ((x j : ℕ)
        → IsCluster x
        → NotIn x cs
        → j < 512
        → read_buf r.2 (cluster_to_block x) j ≡ read_buf d (cluster_to_block x) j)

Stored-nothing :
    (src : Buffer) (len off : ℕ) (fat : ℕ → ℕ) (d : BlockDevice) (cs : List ℕ)
    → Stored src len off len fat d cs (len, fat, d)
Stored-nothing src len off fat d cs = (
  refl,
  refl,
  (λ k p.
      let none_left : len - len ≡ 0 = omega arith in
      let e : (leb off k && ltb k (off + 0)) ≡ false = ground arith in rw (none_left, e) refl),
  λ x j v out p. refl,
)

chain_byte_far :
    (d : BlockDevice) (y : ℕ) (ys : List ℕ) (k : ℕ)
    → 512 ≤ k
    → chain_byte d (y ∷ ys) k ≡ chain_byte d ys (k - 512)
chain_byte_far d y ys k p =
    let at : k ≡ 512 + (k - 512) = omega arith in
    ap (chain_byte d (y ∷ ys)) at ∙ chain_byte_next d y ys (k - 512)

module _ (src : Buffer) (len off written : ℕ) (fat : ℕ → ℕ) (d : BlockDevice) (y : ℕ)
    (ys : List ℕ) where
  -- The bytes behind the first cluster stay as they are in its pass.
  filled_behind :
      (k : ℕ)
      → HasShape d
      → Chain fat y (y ∷ ys)
      → 512 ≤ k
      → k < 512 * length (y ∷ ys)
      → chain_byte (filled src len y off written d) ys (k - 512) ≡ chain_byte d (y ∷ ys) k
  filled_behind k s (e, v, h) p q =
      chain_byte_agree d (filled src len y off written d) fat (fat y) ys (k - 512) h
        (λ x j w m r.
          filled_ne src len y off written d x j s v w
            (λ same. m (subst (λ z. NotIn z ys) (sym same) (Chain-head fat y ys (refl, v, h)))) r)
        (omega arith)
      ∙ sym (chain_byte_far d y ys k p)

  pub Stored-last :
      HasShape d
      → Chain fat y (y ∷ ys)
      → off < 512
      → written < len
      → written + chunk_of off len written ≡ len
      → Stored src len off written fat d
          (y ∷ ys)
          (written + chunk_of off len written, fat, filled src len y off written d)
  Stored-last s (e, v, h) o lt full =
      let d1 = filled src len y off written d in
      (
        full,
        refl,
        (λ k q. elim (dec_lt k 512) [
          | yes p ↦
              let same : chunk_of off len written ≡ len - written = omega arith in
              chain_byte_here d1 y ys k p
              ∙ filled_self src len y off written d k s v p
              ∙ rw (same, chain_byte_here d y ys k p) refl
          | no p ↦
              let none_here : (leb off k && ltb k (off + (len - written))) ≡ false = ground arith in
              chain_byte_far d1 y ys k (omega arith)
              ∙ filled_behind k s (e, v, h) (omega arith) q
              ∙ rw none_here refl
        ]),
        λ x j w out p. filled_ne src len y off written d x j s v w out.0 p,
      )

  pub Stored-on :
      (r : ℕ × (ℕ → ℕ) × BlockDevice)
      → HasShape d
      → Chain fat y (y ∷ ys)
      → off < 512
      → written + chunk_of off len written < len
      → Stored src len 0
          (written + chunk_of off len written)
          fat
          (filled src len y off written d)
          ys
          r
      → Stored src len off written fat d (y ∷ ys) r
  Stored-on r s (e, v, h) o more (all, kept, each, frame) =
      let d1 = filled src len y off written d in
      let whole : chunk_of off len written ≡ 512 - off = omega arith in
      let alone = Chain-head fat y ys (refl, v, h) in
      (
        all,
        kept,
        (λ k q. elim (dec_lt k 512) [
          | yes p ↦
              let up : ltb k (off + chunk_of off len written) ≡ ltb k (off + (len - written)) =
                ground arith in
              chain_byte_here r.2 y ys k p
              ∙ frame y k v alone p
              ∙ filled_self src len y off written d k s v p
              ∙ rw (up, chain_byte_here d y ys k p) refl
          | no p ↦
              let sent : (leb 0 (k - 512)
                    && ltb (k - 512) (0 + (len - (written + chunk_of off len written))))
                  ≡ (leb off k && ltb k (off + (len - written))) =
                ground arith in
              let source : written + chunk_of off len written + (k - 512 - 0)
                  ≡ written + (k - off) =
                omega arith in
              chain_byte_far r.2 y ys k (omega arith)
              ∙ each (k - 512) (omega arith)
              ∙ rw (sent, source, filled_behind k s (e, v, h) (omega arith) q) refl
        ]),
        λ x j w out p. frame x j w out.1 p ∙ filled_ne src len y off written d x j s v w out.0 p,
      )

pub next-IsCluster :
    (fat : ℕ → ℕ) (c : ℕ) (cs : List ℕ) → Chain fat c cs → 0 < length cs → IsCluster c
next-IsCluster fat c [] h p = absurd (omega arith)
next-IsCluster fat c (x ∷ xs) (e, v, h) p = subst IsCluster (sym e) v

pub Stored-full :
    (src : Buffer) (len off written : ℕ) (fat : ℕ → ℕ) (d : BlockDevice) (cs : List ℕ)
    → written ≡ len
    → Stored src len off written fat d cs (written, fat, d)
Stored-full src len off written fat d cs full =
    subst (λ w. Stored src len off w fat d cs (w, fat, d)) (sym full)
      (Stored-nothing src len off fat d cs)
