-- ===== src/Commands/Files.antt =====
-- src/main.cpp: more, cat, cp and mv. A copy runs on fuel that is enough for every size of 32 bits,
-- where each pass but the last takes 4096 bytes; beyond it, the command hangs.
use pseudo_fs.Common.{
  ℕ, zero, suc, Option, none, some, List, [], ◌∷◌, ◌++◌, ◌==◌, if◌then◌else◌, bit_or,
}
use pseudo_fs.Common.Arrays.{Buffer, zeros}
use pseudo_fs.Common.CStrings.{CString, codes}
use pseudo_fs.Common.Int.{ℤ, pos, negsuc, minus_one}
use pseudo_fs.Layout.{default_mode}
use pseudo_fs.UserManager.{UserManager}
use pseudo_fs.UnixFs.{o_read, o_write}
use pseudo_fs.UnixFs.Links.{o_trunc, bytes_at}
use pseudo_fs.UnixFs.Stat.{FileStat}
use pseudo_fs.Vfs.{IFileSystem, type_dir}
use pseudo_fs.Shell.Registry.{hangs}
use pseudo_fs.Commands.{Reply, Command, says, fails}
use pseudo_fs.Commands.Descriptors.{open_error, with_file}

abbrev pub pager_prefix : CString
pager_prefix = 1 ∷ (codes "PFS_PAGE" ++ 1 ∷ [])

abbrev pub copy_fuel : ℕ
copy_fuel = 1048577

-- How a copy ends: without a destination, with both descriptors closed, or not within its fuel.
pub data Transfer (F : Type 0) : Type 0 where
  no_dest : F → Transfer F
  transferred : F → Transfer F
  no_end : Transfer F

module _ {F : Type 0} (fs : IFileSystem F) where
  -- `fs_read` of at most n bytes into a buffer of zeros, and `fs_close`.
  abbrev pub read_and_close : ℕ → ℕ → F → ℤ × F × Buffer
  read_and_close n fd u =
      let (rc, u1, buf) = fs.fs_read u (pos fd) zeros n in (rc, (fs.fs_close u1 (pos fd)).1, buf)

  abbrev pub paged : UserManager → ℤ × F × Buffer → Reply F
  paged um (negsuc n, u, buf) = fails (codes "more: read error") u um
  paged um (pos n, u, buf) = says (pos 0) (pager_prefix ++ bytes_at buf 0 n) u um

  unfoldable pub more_cmd : Command F
  unfolding open_error
  more_cmd u um [] out = fails (codes "Usage: more <file>") u um
  more_cmd u um (path ∷ rest) out =
      with_file fs (codes "more: ") path um (fs.fs_open u path o_read)
        (λ fd u'. paged um (read_and_close 65535 fd u'))

  abbrev pub cat_read : CString → CString → ℤ → ℤ × F × Buffer → ℤ × CString × F
  cat_read path out rc (negsuc n, u, buf) =
      (minus_one, out ++ (codes "cat: " ++ (path ++ codes ": read error\n")), u)
  cat_read path out rc (pos n, u, buf) = (rc, out ++ bytes_at buf 0 n, u)

  abbrev pub cat_opened : CString → CString → ℤ → ℤ × F → ℤ × CString × F
  cat_opened path out rc (negsuc n, u) =
      let (text, u') = open_error fs u path in
      (minus_one, out ++ (codes "cat: " ++ (path ++ (codes ": " ++ (text ++ codes "\n")))), u')
  cat_opened path out rc (pos fd, u) = cat_read path out rc (read_and_close 8191 fd u)

  unfoldable pub cat_loop : F → List CString → CString → ℤ → ℤ × CString × F
  unfolding open_error
  cat_loop u [] out rc = (rc, out, u)
  cat_loop u (path ∷ paths) out rc =
      let (rc', out', u') = cat_opened path out rc (fs.fs_open u path o_read) in
      cat_loop u' paths out' rc'

  unfoldable pub cat_cmd : Command F
  unfolding cat_loop
  cat_cmd u um [] out = fails (codes "Usage: cat <file>...") u um
  cat_cmd u um (path ∷ paths) out =
      let (rc, out', u') = cat_loop u (path ∷ paths) [] (pos 0) in says rc out' u' um

  -- What follows a read of the loop; `again` is the loop.
  abbrev pub copy_piece : (F → Option F) → ℕ → ℤ × F × Buffer → Option F
  copy_piece again dst (negsuc k, u, buf) = some u
  copy_piece again dst (pos zero, u, buf) = some u
  copy_piece again dst (pos (suc n), u, buf) = again (fs.fs_write u (pos dst) buf (suc n)).1

  -- `while ((n = fs.fs_read(src_fd, buf, sizeof(buf))) > 0) fs.fs_write(dst_fd, buf, n);`
  -- The loop of the source has no bound; `none` says that it has not ended within the fuel.
  unfoldable pub copy_loop : ℕ → F → ℕ → ℕ → Option F
  copy_loop zero u src dst = none
  copy_loop (suc fuel) u src dst =
      copy_piece (λ v. copy_loop fuel v src dst) dst (fs.fs_read u (pos src) zeros 4096)

  -- Behind the loop both descriptors are closed.
  abbrev pub close_both : ℕ → ℕ → Option F → Transfer F
  close_both src dst none = no_end
  close_both src dst (some u) = transferred (fs.fs_close (fs.fs_close u (pos src)).1 (pos dst)).1

  -- Behind the opening of the source: the destination is made, opened and filled.
  abbrev pub copy_open : ℕ → ℤ × F → Transfer F
  copy_open src (negsuc n, u) = no_dest (fs.fs_close u (pos src)).1
  copy_open src (pos dst, u) = close_both src dst (copy_loop copy_fuel u src dst)

  abbrev pub copy_to : CString → ℕ → F → Transfer F
  copy_to path src u =
      let u1 = (fs.fs_create u path default_mode).1 in
      copy_open src (fs.fs_open u1 path (bit_or o_write o_trunc))

  -- A copy that does not end leaves no state; the engine stands for the one before it.
  abbrev pub copied : CString → CString → F → UserManager → Transfer F → Reply F
  copied failure success before um (no_dest u) = fails failure u um
  copied failure success before um (transferred u) = says (pos 0) success u um
  copied failure success before um no_end = (hangs, [], before, um)

  unfoldable pub cp_cmd : Command F
  unfolding open_error
  cp_cmd u um (src ∷ dst ∷ rest) out =
      with_file fs (codes "cp: source: ") src um (fs.fs_open u src o_read) (λ fd u'.
        copied (codes "cp: cannot create dest") (codes "Copied.") u' um (copy_to dst fd u'))
  cp_cmd u um args out = fails (codes "Usage: cp <src> <dst>") u um

  -- The source is deleted when both descriptors are closed.
  abbrev pub moved : CString → F → UserManager → Transfer F → Reply F
  moved src before um (no_dest u) = fails (codes "mv: cannot create dest") u um
  moved src before um (transferred u) = says (pos 0) (codes "Moved.") (fs.fs_delete u src).1 um
  moved src before um no_end = (hangs, [], before, um)

  abbrev pub mv_opened : CString → CString → UserManager → ℤ × F → Reply F
  mv_opened src dst um (negsuc n, u) = fails (codes "mv: cannot read source") u um
  mv_opened src dst um (pos fd, u) = moved src u um (copy_to dst fd u)

  abbrev pub mv_stat : CString → CString → UserManager → Option FileStat × F → Reply F
  mv_stat src dst um (none, u) = fails (codes "mv: source not found") u um
  mv_stat src dst um (some st, u) =
      if st.file_type == type_dir
      then fails (codes "mv: directory move not supported (use cp+rm)") u um
      else mv_opened src dst um (fs.fs_open u src o_read)

  unfoldable pub mv_cmd : Command F
  mv_cmd u um (src ∷ dst ∷ rest) out = mv_stat src dst um (fs.fs_stat u src)
  mv_cmd u um args out = fails (codes "Usage: mv <src> <dst>") u um
