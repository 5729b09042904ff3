-- ===== src/Fat16/Reading.antt =====
-- `fs_read` of src/fs/fat16/fat16_fs.cpp against the bytes along the cluster chain of the file.
use pseudo_fs.Common.{
  ℕ, zero, suc, ◌+◌, ◌-◌, ◌*◌, ◌/◌, ◌%◌, ◌≤◌, ◌<◌, ◌≡◌, refl, sym, ap, ◌∙◌, List, [], ◌∷◌, true,
  false, ◌&&◌, ltb, leb, if◌then◌else◌, arith, min, inl, inr, Bool-cases, ltb→lt,
}
use pseudo_fs.Common.Arrays.{Buffer}
use pseudo_fs.Common.Int.{ℤ, pos}
use pseudo_fs.Common.Lists.{length}
use pseudo_fs.Layout.{block_size}
use pseudo_fs.BlockDevice.{BlockDevice, copy_in, read_buf}
use pseudo_fs.OpenFileTable.{is_valid, get_flags, get_inode, get_offset}
use pseudo_fs.UnixFs.{has_bits, o_read}
use pseudo_fs.UnixFs.Reading.{pass_then_rest}
use pseudo_fs.Fat16.{Fat16Fs, cluster_to_block}
use pseudo_fs.Fat16.Chains.{Chain, cluster_live}
use pseudo_fs.Fat16.Sizes.{get_file_size}
use pseudo_fs.Fat16.Files.{skip_loop, read_loop, parent_of, fs_read}

-- Cluster i of a list, and byte k of the data in its clusters.
abbrev pub nth : List ℕ → ℕ → ℕ
nth [] i = 0
nth (c ∷ cs) zero = c
nth (c ∷ cs) (suc i) = nth cs i

abbrev pub chain_byte : BlockDevice → List ℕ → ℕ → ℕ
chain_byte d cs k = read_buf d (cluster_to_block (nth cs (k / block_size))) (k % block_size)

-- The clusters behind the first n.
abbrev drop : ℕ → List ℕ → List ℕ
drop zero cs = cs
drop (suc n) [] = []
drop (suc n) (c ∷ cs) = drop n cs

length-drop : (n : ℕ) (cs : List ℕ) → length (drop n cs) ≡ length cs - n
length-drop zero cs = omega arith
length-drop (suc n) [] = omega arith
length-drop (suc n) (c ∷ cs) = omega (arith, length-drop n cs)

Chain-skip_loop :
    (n : ℕ) (fat : ℕ → ℕ) (c : ℕ) (cs : List ℕ)
    → n ≤ length cs
    → Chain fat c cs
    → Chain fat (skip_loop n fat c) (drop n cs)
unfolding skip_loop
Chain-skip_loop zero fat c cs p h = h
Chain-skip_loop (suc n) fat c [] p h = elim p [ ]
Chain-skip_loop (suc n) fat c (y ∷ ys) p (e, v, h) =
    rw (e, cluster_live y v) (Chain-skip_loop n fat (fat y) ys (omega arith) h)

pub chain_byte_next :
    (d : BlockDevice) (c : ℕ) (cs : List ℕ) (k : ℕ)
    → chain_byte d (c ∷ cs) (512 + k) ≡ chain_byte d cs k
chain_byte_next d c cs k =
    let q : (512 + k) / 512 ≡ suc (k / 512) = omega arith in
    let r : (512 + k) % 512 ≡ k % 512 = omega arith in rw (q, r) refl

pub chain_byte_here :
    (d : BlockDevice) (c : ℕ) (cs : List ℕ) (k : ℕ)
    → k < 512
    → chain_byte d (c ∷ cs) k ≡ read_buf d (cluster_to_block c) k
chain_byte_here d c cs k p =
    let q : k / 512 ≡ 0 = omega arith in let r : k % 512 ≡ k = omega arith in rw (q, r) refl

chain_byte-drop :
    (d : BlockDevice) (n : ℕ) (cs : List ℕ) (k : ℕ)
    → chain_byte d (drop n cs) k ≡ chain_byte d cs (n * 512 + k)
chain_byte-drop d zero cs k = let e : 0 * 512 + k ≡ k = omega arith in rw e refl
chain_byte-drop d (suc n) [] k =
    let r : (suc n * 512 + k) % 512 ≡ k % 512 = omega arith in rw r refl
chain_byte-drop d (suc n) (c ∷ cs) k =
    let e : suc n * 512 + k ≡ 512 + (n * 512 + k) = omega arith in
    chain_byte-drop d n cs k
    ∙ sym (ap (chain_byte d (c ∷ cs)) e ∙ chain_byte_next d c cs (n * 512 + k))

-- The second loop of `fs_read`, entered in a chain with enough clusters for what is left, reads all
-- of it, and each byte that it fills in is the one of the chain at that place.
pub read_loop_lem :
    (fuel : ℕ) (d : BlockDevice) (fat : ℕ → ℕ) (to_read cur off br : ℕ) (dst : Buffer) (cs : List ℕ)
    → Chain fat cur cs
    → off < 512
    → br ≤ to_read
    → to_read ≤ br + fuel
    → to_read + off ≤ br + 512 * length cs
    → ((read_loop fuel d fat to_read cur off br dst).0 ≡ to_read)
      × ((i : ℕ)
          → (read_loop fuel d fat to_read cur off br dst).1 i
            ≡ (if leb br i && ltb i to_read then chain_byte d cs (off + (i - br)) else dst i))
unfolding read_loop
read_loop_lem zero d fat to_read cur off br dst cs h o le enough room =
    let same : br ≡ to_read = omega arith in
    (same, λ i. let e : (leb br i && ltb i to_read) ≡ false = ground arith in rw e refl)
read_loop_lem (suc fuel) d fat to_read cur off br dst [] h o le enough room =
    let same : br ≡ to_read = omega arith in
    let done : ltb br to_read ≡ false = ground arith in
    rw done (same, λ i. let e : (leb br i && ltb i to_read) ≡ false = ground arith in rw e refl)
read_loop_lem (suc fuel) d fat to_read cur off br dst (y ∷ ys) (e, v, h) o le enough room =
    elim (Bool-cases (ltb br to_read)) [
      | inr done ↦
          let same : br ≡ to_read = ground arith in
          rw done
            (same, λ i. let e : (leb br i && ltb i to_read) ≡ false = ground arith in rw e refl)
      | inl more ↦
          let lt = ltb→lt br to_read more in
          let chunk = min (512 - off) (to_read - br) in
          let fits : br + chunk ≤ to_read = omega arith in
          let (all, each) =
            read_loop_lem fuel d fat to_read (fat y) 0 (br + chunk)
              (copy_in br chunk (λ i. read_buf d (cluster_to_block y) (off + i)) dst) ys h
              (omega arith) fits (omega arith) (omega arith) in
          rw (e, more, cluster_live y v)
            (
              all,
              λ i.
                  each i
                  ∙ pass_then_rest br chunk to_read i (chain_byte d (y ∷ ys) (off + (i - br)))
                      (read_buf d (cluster_to_block y) (off + (i - br)))
                      (chain_byte d ys (0 + (i - (br + chunk)))) (dst i) fits
                      (λ lo hi. sym (chain_byte_here d y ys (off + (i - br)) (omega arith)))
                      (λ lo hi.
                        let q : off + (i - br) ≡ 512 + (0 + (i - (br + chunk))) = omega arith in
                        sym (
                          ap (chain_byte d (y ∷ ys)) q
                          ∙ chain_byte_next d y ys (0 + (i - (br + chunk))))),
            )
    ]

-- For a valid descriptor that is open for reading, on a mounted volume, whose file has the cluster
-- chain `cs`, with a size that the clusters have room for and that the offset is below, `fs_read`
-- returns the smaller of `len` and what is left of the file, and fills that many places of the
-- buffer with the bytes along the chain from the offset on.
pub fs_read-chain_byte :
    (u : Fat16Fs) (fd : ℤ) (buf : Buffer) (len offset size : ℕ) (cs : List ℕ)
    → u.mounted ≡ true
    → is_valid u.oft u.user_slot fd ≡ true
    → has_bits (get_flags u.oft u.user_slot fd) o_read ≡ true
    → get_offset u.oft u.user_slot fd ≡ offset
    → get_file_size u (parent_of u fd) (get_inode u.oft u.user_slot fd) ≡ size
    → Chain u.fat (get_inode u.oft u.user_slot fd) cs
    → offset < size
    → size ≤ 512 * length cs
    → let r = fs_read u fd buf len in
      let n = min len (size - offset) in
      (r.0 ≡ pos n) × ((i : ℕ) → i < n → r.2 i ≡ chain_byte u.dev cs (offset + i))
unfolding fs_read
fs_read-chain_byte u fd buf len offset size cs m valid readable at sized chain below room =
    let ended : leb size offset ≡ false = ground arith in
    rw (valid, readable, at, sized, ended, m) (ap pos all, λ i p. each i ∙ inside i p ∙ along i)
  where
    n : ℕ
    n = min len (size - offset)

    first : ℕ
    first = get_inode u.oft u.user_slot fd

    cur : ℕ
    cur = skip_loop (offset / 512) u.fat first

    rest : List ℕ
    rest = drop (offset / 512) cs

    loop :
        ((read_loop n u.dev u.fat n cur (offset % 512) 0 buf).0 ≡ n)
        × ((i : ℕ)
            → (read_loop n u.dev u.fat n cur (offset % 512) 0 buf).1 i ≡ (
                if leb 0 i && ltb i n
                then chain_byte u.dev rest (offset % 512 + (i - 0))
                else buf i))
    loop =
        read_loop_lem n u.dev u.fat n cur (offset % 512) 0 buf rest
          (Chain-skip_loop (offset / 512) u.fat first cs (omega arith) chain) (omega arith)
          (omega arith) (omega arith) (omega (arith, length-drop (offset / 512) cs))

    all : (read_loop n u.dev u.fat n cur (offset % 512) 0 buf).0 ≡ n
    all = loop.0

    each :
        (i : ℕ)
        → (read_loop n u.dev u.fat n cur (offset % 512) 0 buf).1 i
          ≡ (if leb 0 i && ltb i n then chain_byte u.dev rest (offset % 512 + (i - 0)) else buf i)
    each = loop.1

    inside :
        (i : ℕ)
        → i < n
        → (if leb 0 i && ltb i n then chain_byte u.dev rest (offset % 512 + (i - 0)) else buf i)
          ≡ chain_byte u.dev rest (offset % 512 + (i - 0))
    inside i p = let t : (leb 0 i && ltb i n) ≡ true = ground arith in rw t refl

    along :
        (i : ℕ) → chain_byte u.dev rest (offset % 512 + (i - 0)) ≡ chain_byte u.dev cs (offset + i)
    along i =
        let q : offset / 512 * 512 + (offset % 512 + (i - 0)) ≡ offset + i = omega arith in
        chain_byte-drop u.dev (offset / 512) cs (offset % 512 + (i - 0))
        ∙ ap (chain_byte u.dev cs) q
