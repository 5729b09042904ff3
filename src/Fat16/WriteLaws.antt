-- ===== src/Fat16/WriteLaws.antt =====
-- `fs_write` of src/fs/fat16/fat16_fs.cpp and the allocation table.
use pseudo_fs.Common.{
  ℕ, zero, suc, ◌+◌, ◌-◌, ◌/◌, ◌%◌, ◌≡◌, refl, sym, subst, ◌∙◌, Bool, ◌&&◌, List, Option, none,
  some, true, false, not, ◌==◌, ltb, if◌then◌else◌, inl, inr, Bool-cases, min,
}
use mathlib.Core.List.{Mem}
use pseudo_fs.Common.Arrays.{Buffer, u32_mod}
use pseudo_fs.BlockDevice.{BlockDevice, copy_in, read_buf, write_buf}
use pseudo_fs.OpenFileTable.{set_offset, get_inode, get_offset, get_flags, is_valid}
use pseudo_fs.Common.Int.{ℤ, minus_one}
use pseudo_fs.UnixFs.{has_bits, o_write, o_append}
use pseudo_fs.Fat16.Sizes.{is_file_at, get_file_size, update_file_size, resize_root, resize_sub}
use pseudo_fs.Fat16.{Fat16Fs, flush_fat, sync, cluster_to_block, root_dir_blk}
use pseudo_fs.Fat16.Owned.{Owned}
use pseudo_fs.Common.Search.{first_index}
use pseudo_fs.Fat16.Entries.{read_all, entry_at}
use pseudo_fs.Fat16.Files.{parent_of}
use pseudo_fs.Fat16.Writing.{advance, seek_loop, write_loop, write_from, written_to, fs_write}
use pseudo_fs.Fat16.Seeking.{
  Longer, Longer-same, Longer-twice, advance-Step, Sought, seek_loop-Sought,
}

-- How many bytes a pass of the second loop of `fs_write` takes, and the disk once they are written.
abbrev pub chunk_of : ℕ → ℕ → ℕ → ℕ
chunk_of off len written = min (512 - off) (len - written)

abbrev pub filled : Buffer → ℕ → ℕ → ℕ → ℕ → BlockDevice → BlockDevice
filled src len cur off written d = write_buf d (cluster_to_block cur) (
    copy_in off (chunk_of off len written) (λ i. src (written + i))
      (read_buf d (cluster_to_block cur)))

module _ (fuel : ℕ) (src : Buffer) (len cur off written : ℕ) (fat : ℕ → ℕ) (d : BlockDevice) where
  pass_none :
      ltb written len ≡ false → (write_loop (suc fuel) src len cur off written fat d).1 ≡ fat
  unfolding write_loop
  pass_none e = rw e refl

  pass_last :
      ltb written len ≡ true
      → ltb (written + chunk_of off len written) len ≡ false
      → (write_loop (suc fuel) src len cur off written fat d).1 ≡ fat
  unfolding write_loop
  pass_last e f = rw (e, f) refl

  pass_fails :
      ltb written len ≡ true
      → ltb (written + chunk_of off len written) len ≡ true
      → (advance (filled src len cur off written d) fat cur).0 ≡ none
      → (write_loop (suc fuel) src len cur off written fat d).1
        ≡ (advance (filled src len cur off written d) fat cur).1
  unfolding write_loop
  pass_fails e f g = rw (e, f, g) refl

  pass_on :
      (c : ℕ)
      → ltb written len ≡ true
      → ltb (written + chunk_of off len written) len ≡ true
      → (advance (filled src len cur off written d) fat cur).0 ≡ some c
      → (write_loop (suc fuel) src len cur off written fat d).1
        ≡ (write_loop fuel src len c 0
            (written + chunk_of off len written)
            (advance (filled src len cur off written d) fat cur).1
            (advance (filled src len cur off written d) fat cur).2).1
  unfolding write_loop
  pass_on c e f g = rw (e, f, g) refl

-- The second loop of `fs_write` only makes chain n longer.
write_loop-Longer :
    (fuel : ℕ) (src : Buffer) (len cur off written : ℕ) (fat : ℕ → ℕ) (d : BlockDevice)
    (chains : ℕ → List ℕ) (n : ℕ)
    → Owned fat chains
    → Mem cur (chains n)
    → Longer chains n (write_loop fuel src len cur off written fat d).1
write_loop-Longer zero src len cur off written fat d chains n h m =
    unfold write_loop in Longer-same fat chains n h
write_loop-Longer (suc fuel) src len cur off written fat d chains n h m =
    elim (Bool-cases (ltb written len)) [
      | inr done ↦
          rw (pass_none fuel src len cur off written fat d done) (Longer-same fat chains n h)
      | inl more ↦ elim (Bool-cases (ltb (written + chunk_of off len written) len)) [
        | inr full ↦
            rw (pass_last fuel src len cur off written fat d more full) (Longer-same fat chains n h)
        | inl left ↦ elim (advance-Step (filled src len cur off written d) fat chains n cur h m) [
          | inl (fails, same) ↦
              rw (pass_fails fuel src len cur off written fat d more left fails, same)
                (Longer-same fat chains n h)
          | inr (c, chains', added, gives, owned, longer, others, there) ↦
              rw (pass_on fuel src len cur off written fat d c more left gives) (
                Longer-twice chains chains' n added _ longer others (
                  write_loop-Longer fuel src len c 0 (written + chunk_of off len written)
                    (advance (filled src len cur off written d) fat cur).1
                    (advance (filled src len cur off written d) fat cur).2 chains' n owned there))
        ]
      ]
    ]

-- Both loops.
write_from-Longer :
    (src : Buffer) (len offset first : ℕ) (fat : ℕ → ℕ) (d : BlockDevice) (chains : ℕ → List ℕ)
    (n : ℕ)
    → Owned fat chains
    → Mem first (chains n)
    → Longer chains n (write_from src len offset (seek_loop (offset / 512) first fat d)).1
write_from-Longer src len offset first fat d chains n h m =
    from_sought (seek_loop (offset / 512) first fat d)
      (seek_loop-Sought (offset / 512) first fat d chains n h m)
  where
    from_sought :
        (r : Option ℕ × (ℕ → ℕ) × BlockDevice)
        → Sought chains n r
        → Longer chains n (write_from src len offset r).1
    from_sought (none, fat', d') (chains', more, owned, longer, others, there) =
        (chains', more, owned, longer, others)
    from_sought (some cur, fat', d') (chains', more, owned, longer, others, there) =
        Longer-twice chains chains' n more (write_loop len src len cur (offset % 512) 0 fat' d').1
          longer others
          (write_loop-Longer len src len cur (offset % 512) 0 fat' d' chains' n owned
            (there cur refl))

choose-fat :
    (b : Bool) (x y : Fat16Fs) (fat : ℕ → ℕ)
    → x.fat ≡ fat
    → y.fat ≡ fat
    → (if b then x else y).fat ≡ fat
choose-fat true x y fat e f = e
choose-fat false x y fat e f = f

sync-fat : (u : Fat16Fs) → (sync u).fat ≡ u.fat
unfolding sync flush_fat
sync-fat u = choose-fat u.has_disk_path _ u u.fat refl refl

resize_root-fat :
    (u : Fat16Fs) (blk : Buffer) (size : ℕ) (i : Option ℕ) → (resize_root u blk size i).fat ≡ u.fat
resize_root-fat u blk size none = refl
resize_root-fat u blk size (some i) = refl

resize_sub-fat :
    (u : Fat16Fs) (dir : ℕ) (vec : Buffer) (size : ℕ) (i : Option ℕ)
    → (resize_sub u dir vec size i).fat ≡ u.fat
resize_sub-fat u dir vec size none = refl
resize_sub-fat u dir vec size (some i) = choose-fat _ _ u u.fat refl refl

update_file_size-fat :
    (u : Fat16Fs) (dir first size : ℕ) → (update_file_size u dir first size).fat ≡ u.fat
unfolding update_file_size
update_file_size-fat u dir first size =
    choose-fat (dir == 0) (resize_root u blk size (first_index (test blk) 0 16))
      (resize_sub u dir vec size (first_index (test vec) 0 ((read_all u dir).1 / 32))) u.fat
      (resize_root-fat u blk size _) (resize_sub-fat u dir vec size _)
  where
    blk : Buffer
    blk = read_buf u.dev root_dir_blk

    vec : Buffer
    vec = (read_all u dir).2

    test : Buffer → ℕ → Bool
    test buf i = is_file_at first (entry_at buf i)

-- What follows the loops does not touch the table.
written_to-fat :
    (u : Fat16Fs) (fd : ℤ) (first offset : ℕ) (r : ℕ × (ℕ → ℕ) × BlockDevice)
    → (written_to u fd first offset r).1.fat ≡ r.1
unfolding flush_fat
written_to-fat u fd first offset (k, fat, d) =
    sync-fat (record u2 { oft = (set_offset u2.oft u2.user_slot fd new_end).1 })
    ∙ choose-fat (ltb (get_file_size u1 (parent_of u fd) first) new_end) resized u1 fat
        (update_file_size-fat u1 (parent_of u fd) first new_end) refl
  where
    u1 : Fat16Fs
    u1 = flush_fat (record u { dev = d; fat = fat })

    new_end : ℕ
    new_end = (offset + k) % u32_mod

    resized : Fat16Fs
    resized = update_file_size u1 (parent_of u fd) first new_end

    u2 : Fat16Fs
    u2 = if ltb (get_file_size u1 (parent_of u fd) first) new_end then resized else u1

-- `fs_write` to a file whose first cluster is in chain n of a table that a family of chains owns
-- leaves a table that such a family owns, in which chain n may be longer at its end and every other
-- chain is the same; this also holds when the write stops for want of a free cluster.
pub fs_write-Longer :
    (u : Fat16Fs) (fd : ℤ) (buf : Buffer) (len : ℕ) (chains : ℕ → List ℕ) (n : ℕ)
    → Owned u.fat chains
    → Mem (get_inode u.oft u.user_slot fd) (chains n)
    → Longer chains n (fs_write u fd buf len).1.fat
unfolding fs_write
fs_write-Longer u fd buf len chains n h m = refuses (not u.mounted) _ (
    refuses (not (is_valid u.oft u.user_slot fd)) _ (
      refuses
        (not (has_bits (get_flags u.oft u.user_slot fd) o_write)
          && not (has_bits (get_flags u.oft u.user_slot fd) o_append))
        _
        (subst (Longer chains n)
          (sym (
            written_to-fat u fd (get_inode u.oft u.user_slot fd) (get_offset u.oft u.user_slot fd)
              _))
          (write_from-Longer buf len (get_offset u.oft u.user_slot fd)
            (get_inode u.oft u.user_slot fd) u.fat u.dev chains n h m))))
  where
    refuses :
        (b : Bool) (x : ℤ × Fat16Fs)
        → Longer chains n x.1.fat
        → Longer chains n (if b then (minus_one, u) else x).1.fat
    refuses true x k = Longer-same u.fat chains n h
    refuses false x k = k
