-- ===== src/Commands/Descriptors.antt =====
-- src/main.cpp: `open_error`, and open, close, read and write.
use pseudo_fs.Common.{
  ℕ, Bool, true, min, Option, none, some, List, [], ◌∷◌, ◌++◌, ◌==◌, if◌then◌else◌, bit_or,
}
use pseudo_fs.Common.Arrays.{Buffer, zeros}
use pseudo_fs.Common.CStrings.{CString, codes, str_eq}
use pseudo_fs.Common.Int.{ℤ, pos, negsuc}
use pseudo_fs.Common.Lists.{length}
use pseudo_fs.Common.Text.{to_string}
use pseudo_fs.UserManager.{UserManager}
use pseudo_fs.UnixFs.{o_read, o_write, o_append}
use pseudo_fs.UnixFs.Links.{o_trunc, bytes_at, text_image}
use pseudo_fs.UnixFs.Stat.{FileStat}
use pseudo_fs.Vfs.{IFileSystem, type_dir, type_symlink}
use pseudo_fs.Commands.{Reply, Command, says, fails, unless_zero, stoi, stoul, with_number}

abbrev pub max_read_len : ℕ
max_read_len = 1048576

abbrev pub open_flags : List CString → ℕ
open_flags [] = o_read
open_flags (mode ∷ rest) =
    if str_eq mode (codes "w")
    then bit_or o_write o_trunc
    else if str_eq mode (codes "rw")
    then bit_or o_read o_write
    else if str_eq mode (codes "a")
    then bit_or o_write o_append
    else o_read

-- The words with a space between them.
abbrev pub join_words : List CString → CString
join_words [] = []
join_words (w ∷ []) = w
join_words (w ∷ v ∷ ws) = w ++ b' ' ∷ join_words (v ∷ ws)

module _ {F : Type 0} (fs : IFileSystem F) where
  abbrev pub broken_or_denied : Option FileStat × F → CString × F
  broken_or_denied (none, u) = (codes "broken symbolic link", u)
  broken_or_denied (some st, u) = (codes "permission denied", u)

  abbrev pub link_error : Option CString × F → CString × F
  link_error (none, u) = (codes "permission denied", u)
  link_error (some target, u) = broken_or_denied (fs.fs_stat u target)

  abbrev pub stat_error : CString → Option FileStat × F → CString × F
  stat_error path (none, u) = (codes "no such file", u)
  stat_error path (some st, u) =
      if st.file_type == type_dir
      then (codes "is a directory", u)
      else if st.file_type == type_symlink
      then link_error (fs.fs_readlink u path)
      else (codes "permission denied", u)

  unfoldable pub open_error : F → CString → CString × F
  open_error u path = stat_error path (fs.fs_stat u path)

  -- `fs_open` for a command that reports `open_error` behind a prefix, or goes on with the descriptor.
  abbrev pub with_file : CString → CString → UserManager → ℤ × F → (ℕ → F → Reply F) → Reply F
  with_file prefix path um (negsuc n, u) next =
      let (text, u') = open_error u path in fails (prefix ++ text) u' um
  with_file prefix path um (pos fd, u) next = next fd u

  unfoldable pub open_cmd : Command F
  unfolding open_error to_string
  open_cmd u um [] out = fails (codes "Usage: open <file> [r|w|rw|a]") u um
  open_cmd u um (path ∷ rest) out =
      with_file (codes "open: ") path um (fs.fs_open u path (open_flags rest))
        (λ fd u'. says (pos 0) (codes "fd=" ++ to_string fd) u' um)

  unfoldable pub close_cmd : Command F
  unfolding stoi
  close_cmd u um [] out = fails (codes "Usage: close <fd>") u um
  close_cmd u um (fd ∷ rest) out =
      with_number (stoi 10 fd) out u um
        (λ n. unless_zero (codes "close: invalid fd") out um (fs.fs_close u n))

  abbrev pub bytes_read : CString → UserManager → ℤ × F × Buffer → Reply F
  bytes_read text um (negsuc n, u, buf) = fails text u um
  bytes_read text um (pos n, u, buf) = says (pos 0) (bytes_at buf 0 n) u um

  abbrev pub is_bad_length : CString → Bool
  is_bad_length [] = true
  is_bad_length (c ∷ s) = c == b'-'

  abbrev pub read_len : ℤ → List CString → CString → F → UserManager → Reply F
  read_len fd [] out u um = bytes_read (codes "read: failed") um (fs.fs_read u fd zeros 4096)
  read_len fd (len ∷ rest) out u um =
      if is_bad_length len
      then fails (codes "read: invalid length") u um
      else with_number (stoul len) out u um
          (λ n. bytes_read (codes "read: failed") um (fs.fs_read u fd zeros (min n max_read_len)))

  unfoldable pub read_cmd : Command F
  unfolding stoi stoul
  read_cmd u um [] out = fails (codes "Usage: read <fd> [len]") u um
  read_cmd u um (fd ∷ rest) out = with_number (stoi 10 fd) out u um (λ n. read_len n rest out u um)

  abbrev pub bytes_written : UserManager → ℤ × F → Reply F
  bytes_written um (negsuc n, u) = fails (codes "write: failed") u um
  bytes_written um (pos n, u) = says (pos 0) (to_string n ++ codes " bytes written") u um

  unfoldable pub write_cmd : Command F
  unfolding stoi to_string
  write_cmd u um (fd ∷ w ∷ ws) out =
      let text = join_words (w ∷ ws) in
      with_number (stoi 10 fd) out u um
        (λ n. bytes_written um (fs.fs_write u n (text_image text) (length text)))
  write_cmd u um args out = fails (codes "Usage: write <fd> <text>") u um
