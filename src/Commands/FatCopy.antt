-- ===== src/Commands/FatCopy.antt =====
-- The contract of `Commands.Copying` for the engine of src/fs/fat16/fat16_fs.cpp, where the source is a
-- file with a cluster chain and the destination is a descriptor that is not open for writing.
use pseudo_fs.Common.{
  ℕ, zero, suc, ◌+◌, ◌-◌, ◌*◌, ◌%◌, ◌≤◌, ◌<◌, min, ◌≡◌, refl, sym, ap, subst, ◌∙◌, true, false,
  some, List, [], ◌++◌, leb, arith, inl, inr, Bool-cases, ltb, ltb→lt,
}
use pseudo_fs.Common.Arrays.{Buffer, zeros, u32_mod, update}
use pseudo_fs.Common.CStrings.{take, drop}
use pseudo_fs.Common.Int.{pos, minus_one}
use pseudo_fs.Common.Lists.{length}
use pseudo_fs.OpenFileTable.{
  OpenFileTable, sys_index, read_entry, is_valid, get_inode, get_offset, get_flags, set_offset,
}
use pseudo_fs.UnixFs.{has_bits, o_read, o_write, o_append}
use pseudo_fs.UnixFs.Links.{bytes_at}
use pseudo_fs.Vfs.Engines.{fat16_engine}
use pseudo_fs.Fat16.{Fat16Fs}
use pseudo_fs.Fat16.Chains.{Chain}
use pseudo_fs.Fat16.Entries.{read_dir_entries}
use pseudo_fs.Fat16.Sizes.{get_file_size}
use pseudo_fs.Fat16.Files.{fs_read, parent_of}
use pseudo_fs.Fat16.Writing.{fs_write}
use pseudo_fs.Fat16.Paths.{Tm}
use pseudo_fs.Fat16.Reading.{chain_byte, fs_read-chain_byte}
use pseudo_fs.Commands.Pieces.{
  length-bytes_at, take-bytes_at, bytes_at_ext, drop-bytes_at, take-nil,
}
use pseudo_fs.Commands.Copying.{Files}

pos_inj : {m n : ℕ} → pos m ≡ pos n → m ≡ n
pos_inj e = cc

pub size_same :
    (u : Fat16Fs) (t : OpenFileTable) (dir first : ℕ)
    → get_file_size (record u { oft = t }) dir first ≡ get_file_size u dir first
unfolding get_file_size read_dir_entries
size_same u t dir first = refl

module _ (cs : List ℕ) (size first src dst : ℕ) where
  -- The source is open for reading at `offset`, the destination is open, but not for writing.
  pub record IsOpen (u : Fat16Fs) (offset : ℕ) : Type 0 where
    pub i : ℕ
    pub j : ℕ
    pub mounted : u.mounted ≡ true
    pub found : sys_index u.oft u.user_slot (pos src) ≡ some i
    pub inode : (u.oft.sys_table i).f_inode_no ≡ first
    pub at : (u.oft.sys_table i).f_offset ≡ offset
    pub readable : has_bits (u.oft.sys_table i).f_flag o_read ≡ true
    pub other : sys_index u.oft u.user_slot (pos dst) ≡ some j
    pub no_write : has_bits (u.oft.sys_table j).f_flag o_write ≡ false
    pub no_append : has_bits (u.oft.sys_table j).f_flag o_append ≡ false
    pub sized : get_file_size u (parent_of u (pos src)) first ≡ size
    pub chain : Chain u.fat first cs
    pub inside : offset ≤ size
    pub bounded : size ≤ 512 * length cs
    pub small : size < u32_mod

  -- The table with the offset of the source moved on.
  abbrev forth : Fat16Fs → ℕ → Fat16Fs
  forth u offset = record u { oft = (set_offset u.oft u.user_slot (pos src) (offset % u32_mod)).1 }

  abbrev moved_on : Fat16Fs → ℕ → ℕ → Fat16Fs
  moved_on u i offset = record u {
    oft = record (u.oft) {
      sys_table = update u.oft.sys_table i (record (u.oft.sys_table i) { f_offset = offset });
    };
  }

  forth_lem :
      (u : Fat16Fs) (i offset : ℕ)
      → sys_index u.oft u.user_slot (pos src) ≡ some i
      → offset < u32_mod
      → forth u offset ≡ moved_on u i offset
  unfolding set_offset
  forth_lem u i offset found p =
      let whole : offset % u32_mod ≡ offset = omega arith in
      ap (λ t. record u { oft = t }) (set_lem (offset % u32_mod) ∙ ap at_offset whole)
    where
      at_offset : ℕ → OpenFileTable
      at_offset x = record (u.oft) {
        sys_table = update u.oft.sys_table i (record (u.oft.sys_table i) { f_offset = x });
      }

      set_lem : (x : ℕ) → (set_offset u.oft u.user_slot (pos src) x).1 ≡ at_offset x
      set_lem x = rw (found, set_offset) refl

  forth-IsOpen :
      (u : Fat16Fs) (offset k : ℕ)
      → IsOpen u offset
      → offset + k ≤ size
      → IsOpen (forth u (offset + k)) (offset + k)
  unfolding sys_index
  forth-IsOpen u offset k o p =
      subst (λ v. IsOpen v (offset + k))
        (sym (forth_lem u o.i (offset + k) o.found (omega (arith, o.small))))
        (record {
          i = o.i;
          j = o.j;
          mounted = o.mounted;
          found = o.found;
          inode = ground (arith, o.inode);
          at = ground arith;
          readable = ground (arith, o.readable);
          other = o.other;
          no_write = ground (arith, o.no_write);
          no_append = ground (arith, o.no_append);
          sized = size_same u _ (parent_of u (pos src)) first ∙ o.sized;
          chain = o.chain;
          inside = p;
          bounded = o.bounded;
          small = o.small;
        })

  module _ (u : Fat16Fs) (offset : ℕ) (o : IsOpen u offset) where
    src_valid : is_valid u.oft u.user_slot (pos src) ≡ true
    unfolding is_valid
    src_valid = rw (o.found, is_valid) refl

    src_readable : has_bits (get_flags u.oft u.user_slot (pos src)) o_read ≡ true
    unfolding get_flags
    src_readable = rw (o.found, get_flags, read_entry) o.readable

    src_offset : get_offset u.oft u.user_slot (pos src) ≡ offset
    unfolding get_offset
    src_offset = rw (o.found, get_offset, read_entry) o.at

    src_inode : get_inode u.oft u.user_slot (pos src) ≡ first
    unfolding get_inode
    src_inode = rw (o.found, get_inode, read_entry) o.inode

    src_size :
        get_file_size u (parent_of u (pos src)) (get_inode u.oft u.user_slot (pos src)) ≡ size
    src_size = rw src_inode o.sized

    dst_flags :
        (has_bits (get_flags u.oft u.user_slot (pos dst)) o_write ≡ false)
        × (has_bits (get_flags u.oft u.user_slot (pos dst)) o_append ≡ false)
    unfolding get_flags
    dst_flags = rw (o.other, get_flags, read_entry) (o.no_write, o.no_append)

    dst_valid : is_valid u.oft u.user_slot (pos dst) ≡ true
    unfolding is_valid
    dst_valid = rw (o.other, is_valid) refl

    -- What a read leaves is the table with the offset moved on by what it returns.
    fs_read_state :
        (buf : Buffer) (len n : ℕ)
        → offset < size
        → (fs_read u (pos src) buf len).0 ≡ pos n
        → (fs_read u (pos src) buf len).1 ≡ forth u (offset + n)
    unfolding fs_read
    fs_read_state buf len n p =
        let going : leb size offset ≡ false = ground arith in
        rw (src_valid, src_readable, src_offset, src_size, going, o.mounted)
          (λ e. ap (λ k. record (forth u (offset + k)) { mounted = true }) (pos_inj e))

    fs_read_end :
        (buf : Buffer) (len : ℕ) → offset ≡ size → fs_read u (pos src) buf len ≡ (pos 0, u, buf)
    unfolding fs_read
    fs_read_end buf len p =
        let over : leb size offset ≡ true = ground arith in
        rw (src_valid, src_readable, src_offset, src_size, over, o.mounted) refl

    fs_write_refused : (buf : Buffer) (n : ℕ) → fs_write u (pos dst) buf n ≡ (minus_one, u)
    unfolding fs_write
    fs_write_refused buf n = rw (dst_valid, dst_flags.0, dst_flags.1, o.mounted) refl

    -- The content of the file from the offset on, of which a read gives the front.
    abbrev pub remaining : List ℕ
    remaining = bytes_at (chain_byte u.dev cs) offset (size - offset)

    -- A read of the contract, before the end of the file and at it.
    read_inside :
        (len : ℕ)
        → offset < size
        → let r = fs_read u (pos src) zeros len in
          let n = min len (length remaining) in
          (r.0 ≡ pos n)
          × (bytes_at r.2 0 n ≡ take len remaining)
          × (r.1 ≡ forth u (offset + min len (size - offset)))
    read_inside len p =
        let r = fs_read u (pos src) zeros len in
        let (count, bytes) =
          fs_read-chain_byte u (pos src) zeros len offset size cs o.mounted src_valid src_readable
            src_offset src_size (rw src_inode o.chain) p o.bounded in
        let long = length-bytes_at (size - offset) offset (chain_byte u.dev cs) in
        let text : bytes_at r.2 0 (min len (size - offset)) ≡ take len remaining =
          bytes_at_ext (min len (size - offset)) 0 offset r.2 (chain_byte u.dev cs)
            (λ i q. let z : 0 + i ≡ i = omega arith in ap r.2 z ∙ bytes i q)
          ∙ less len
          ∙ sym (take-bytes_at len (size - offset) offset (chain_byte u.dev cs)) in
        (
          subst (λ m. r.0 ≡ pos (min len m)) (sym long) count,
          subst (λ m. bytes_at r.2 0 (min len m) ≡ take len remaining) (sym long) text,
          fs_read_state zeros len (min len (size - offset)) p count,
        )
      where
        less :
            (k : ℕ)
            → bytes_at (chain_byte u.dev cs) offset (min k (size - offset))
              ≡ bytes_at (chain_byte u.dev cs) offset (min (size - offset) k)
        less k = let z : min k (size - offset) ≡ min (size - offset) k = omega arith in rw z refl

    remaining_end : offset ≡ size → remaining ≡ []
    remaining_end p = let z : size - offset ≡ 0 = omega arith in rw z refl

  -- The relation of the contract.
  abbrev pub Held : Fat16Fs → List ℕ → List ℕ → ℕ → Type 0
  Held u rest written room =
      (offset : ℕ) × (o : IsOpen u offset) × (rest ≡ remaining u offset o)
      × (written ≡ [])
      × (room ≡ 0)

  abbrev Read : Fat16Fs → List ℕ → List ℕ → ℕ → ℕ → Type 0
  Read u rest written room len =
      let r = fs_read u (pos src) zeros len in
      (r.0 ≡ pos (min len (length rest)))
      × (bytes_at r.2 0 (min len (length rest)) ≡ take len rest)
      × Held r.1 (drop len rest) written room

  behind :
      (u : Fat16Fs) (offset len : ℕ) (o : IsOpen u offset)
      → Held (forth u (offset + min len (size - offset))) (drop len (remaining u offset o)) [] 0
  behind u offset len o =
      let n = min len (size - offset) in
      let fits : offset + n ≤ size = omega (arith, o.inside) in
      let left : size - offset - len ≡ size - (offset + n) = omega (arith, o.inside) in
      (
        offset + n,
        forth-IsOpen u offset n o fits,
        drop-bytes_at len (size - offset) offset (chain_byte u.dev cs)
            ∙ ap (bytes_at (chain_byte u.dev cs) (offset + n)) left,
        refl,
        refl,
      )

  pub Read-Held :
      (u : Fat16Fs) (offset len : ℕ) (o : IsOpen u offset) → Read u (remaining u offset o) [] 0 len
  Read-Held u offset len o = elim (Bool-cases (ltb offset size)) [
    | inl b ↦
        let (count, bytes, state) = read_inside u offset o len (ltb→lt offset size b) in
        (
          count,
          bytes,
          subst (λ v. Held v (drop len (remaining u offset o)) [] 0) (sym state)
              (behind u offset len o),
        )
    | inr b ↦
        let last : offset ≡ size = ground (arith, o.inside) in
        let none_left = remaining_end u offset o last in
        let stays = fs_read_end u offset o zeros len last in
        let nothing : min len 0 ≡ 0 = omega arith in
        subst (λ t. Read u t [] 0 len) (sym none_left)
          (
            ap (λ r. r.0) stays ∙ ap pos (sym nothing),
            ap (bytes_at (fs_read u (pos src) zeros len).2 0) nothing ∙ sym (take-nil len),
            subst (λ v. Held v (drop len []) [] 0) (sym (ap (λ r. r.1) stays))
                (offset, o, drop_nil len ∙ sym none_left, refl, refl),
          )
  ]
    where
      drop_nil : (n : ℕ) → drop {A = ℕ} n [] ≡ []
      drop_nil zero = refl
      drop_nil (suc n) = refl

  pub write_Held :
      (u : Fat16Fs) (rest written : List ℕ) (room : ℕ) (buf : Buffer) (n : ℕ)
      → Held u rest written room
      → Held (fs_write u (pos dst) buf n).1 rest (written ++ bytes_at buf 0 (min n room)) (room - n)
  write_Held u rest written room buf n (offset, o, same, w, k) =
      let none_fits : min n room ≡ 0 = omega arith in
      subst (λ v. Held v rest (written ++ bytes_at buf 0 (min n room)) (room - n))
        (sym (ap (λ r. r.1) (fs_write_refused u offset o buf n)))
        (
          offset,
          o,
          same,
          ap (λ t. written ++ bytes_at buf 0 t) none_fits ∙ ap (λ t. t ++ []) w,
          omega arith,
        )

  -- FAT16 as an engine with two descriptors of which the destination has no room.
  unfoldable pub fat16_files : (now : Tm) → Files (fat16_engine now) src dst
  unfolding fat16_engine
  fat16_files now = record {
    At = Held;
    reads = λ u rest written room len (offset, o, same, w, k).
        subst (λ t. Read u t written room len) (sym same)
          (subst (λ t. Read u (remaining u offset o) t room len) (sym w)
            (subst (λ t. Read u (remaining u offset o) [] t len) (sym k)
              (Read-Held u offset len o)));
    writes = write_Held;
  }
