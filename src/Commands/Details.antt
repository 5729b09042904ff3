-- ===== src/Commands/Details.antt =====
-- src/main.cpp: `join_path`, `append_ll_line`, and ls, ll and stat. `when` is the local time of a
-- time stamp as `strftime` writes it, if `localtime` knows it.
use pseudo_fs.Common.{ℕ, Bool, Option, none, some, List, [], ◌∷◌, ◌++◌, ◌==◌, if◌then◌else◌}
use pseudo_fs.Common.CStrings.{CString, codes, take}
use pseudo_fs.Common.Int.{ℤ, pos, minus_one}
use pseudo_fs.Common.Text.{strip_newlines, to_string}
use pseudo_fs.UserManager.{UserManager, find_user}
use pseudo_fs.UnixFs.Stat.{VfsEntry, FileStat}
use pseudo_fs.Vfs.{IFileSystem, type_dir, type_symlink}
use pseudo_fs.Commands.{Command, says, fails}
use pseudo_fs.Commands.Columns.{
  is_empty, or_text, join_path, pad_left, pad_right, more_than_one, targets_of, shown_target,
  or_blank, perm_text, owner_text, when_text, paint, paint_all, Listing, stat_text,
}

module _ {F : Type 0} (fs : IFileSystem F) where
  abbrev pub ls_listed : Bool → CString → Listing F → Option (List VfsEntry) × F → Listing F
  ls_listed multi tp l (none, u) = record l {
    dirs = l.dirs ++ (codes "ls: cannot list '" ++ (tp ++ codes "'\n"));
    rc = minus_one;
    state = u;
  }
  ls_listed multi tp l (some entries, u) = record l {
    dirs =
        (if multi then l.dirs ++ shown_target tp else l.dirs)
        ++ (or_text (codes "(empty)") (paint_all entries) ++ b'\n' ∷ []);
    state = u;
  }

  abbrev pub ls_found : Bool → CString → Listing F → Option FileStat × F → Listing F
  ls_found multi tp l (none, u) = record l {
    dirs = l.dirs ++ (codes "ls: cannot access '" ++ (tp ++ codes "'\n"));
    rc = minus_one;
    state = u;
  }
  ls_found multi tp l (some st, u) =
      if st.file_type == type_dir
      then ls_listed multi tp l (fs.fs_ls u tp)
      else record l { files = l.files ++ paint tp st.file_type; state = u }

  abbrev pub ls_target : Bool → Listing F → CString → Listing F
  ls_target multi l [] = ls_listed multi [] l (fs.fs_ls l.state [])
  ls_target multi l (c ∷ tp) = ls_found multi (c ∷ tp) l (fs.fs_stat l.state (c ∷ tp))

  unfoldable pub ls_loop : Bool → Listing F → List CString → Listing F
  unfolding paint_all
  ls_loop multi l [] = l
  ls_loop multi l (tp ∷ tps) = ls_loop multi (ls_target multi l tp) tps

  abbrev pub ls_text : Listing F → CString
  ls_text l = or_text (codes "(empty)") (
      strip_newlines (
        if is_empty l.files
        then l.dirs
        else if is_empty l.dirs
        then l.files
        else l.files ++ b'\n' ∷ l.dirs))

  unfoldable pub ls_cmd : Command F
  unfolding ls_loop strip_newlines
  ls_cmd u um args out =
      let start : Listing F = record { files = []; dirs = []; rc = pos 0; state = u } in
      let l = ls_loop (more_than_one args) start (targets_of args) in
      says l.rc (ls_text l) l.state um

  abbrev pub link_suffix : Option CString × F → CString × F
  link_suffix (none, u) = (codes "@", u)
  link_suffix (some target, u) = (codes "@ -> " ++ target, u)

  abbrev pub suffix_of : F → CString → ℕ → CString × F
  suffix_of u full type =
      if type == type_dir
      then (codes "/", u)
      else if type == type_symlink
      then link_suffix (fs.fs_readlink u full)
      else ([], u)

  module _ (when : ℕ → Option CString) (um : UserManager) where
    unfoldable pub append_ll_line : F → CString → CString → ℕ → CString → CString × F
    unfolding to_string find_user
    append_ll_line u full display type out =
        let (found, u1) = fs.fs_stat u full in
        let st = or_blank found in
        let (suffix, u2) = suffix_of u1 full type in
        let head = take 63 (
          perm_text type st.mode
          ++ (b' ' ∷ pad_left 2 (to_string st.nlink)
              ++ (b' ' ∷ pad_right 8 (owner_text st.uid (find_user um st.uid))
                  ++ (b' ' ∷ pad_left 6 (to_string st.size)
                      ++ (codes "  " ++ (when_text (when st.mtime) ++ codes "  ")))))) in
        (out ++ (head ++ (display ++ (suffix ++ b'\n' ∷ []))), u2)

    unfoldable pub ll_entries : CString → F → List VfsEntry → CString → CString × F
    unfolding append_ll_line
    ll_entries tp u [] out = (out, u)
    ll_entries tp u (e ∷ es) out =
        let (out', u') = append_ll_line u (join_path tp e.name) e.name e.entry_type out in
        ll_entries tp u' es out'

    abbrev pub ll_listed :
        Bool → CString → CString → ℤ → Option (List VfsEntry) × F → CString × ℤ × F
    ll_listed multi tp out rc (none, u) =
        (out ++ (codes "ll: cannot list '" ++ (tp ++ codes "'\n")), minus_one, u)
    ll_listed multi tp out rc (some entries, u) =
        let (out', u') = ll_entries tp u entries (if multi then out ++ shown_target tp else out) in
        (out', rc, u')

    abbrev pub ll_found : Bool → CString → CString → ℤ → Option FileStat × F → CString × ℤ × F
    ll_found multi tp out rc (none, u) =
        (out ++ (codes "ll: cannot access '" ++ (tp ++ codes "'\n")), minus_one, u)
    ll_found multi tp out rc (some st, u) =
        let (out', u') = append_ll_line u tp tp st.file_type out in
        if st.file_type == type_dir
        then ll_listed multi tp out rc (fs.fs_ls u tp)
        else (out', rc, u')

    abbrev pub ll_target : Bool → CString → ℤ → F → CString → CString × ℤ × F
    ll_target multi out rc u [] = ll_listed multi [] out rc (fs.fs_ls u [])
    ll_target multi out rc u (c ∷ tp) = ll_found multi (c ∷ tp) out rc (fs.fs_stat u (c ∷ tp))

    unfoldable pub ll_loop : Bool → CString → ℤ → F → List CString → CString × ℤ × F
    unfolding ll_entries append_ll_line
    ll_loop multi out rc u [] = (out, rc, u)
    ll_loop multi out rc u (tp ∷ tps) =
        let (out', rc', u') = ll_target multi out rc u tp in ll_loop multi out' rc' u' tps

  unfoldable pub ll_cmd : (ℕ → Option CString) → Command F
  unfolding ll_loop strip_newlines
  ll_cmd when u um args out =
      let (out', rc, u') = ll_loop when um (more_than_one args) [] (pos 0) u (targets_of args) in
      says rc (or_text (codes "(empty)") (strip_newlines out')) u' um

  abbrev pub stat_target : CString → ℤ → CString → Option FileStat × F → CString × ℤ × F
  stat_target out rc path (none, u) =
      (out ++ (codes "stat: '" ++ (path ++ codes "': not found\n")), minus_one, u)
  stat_target out rc path (some st, u) =
      let (target, u') = fs.fs_readlink u path in
      let line : Option CString → CString =
        λ t. elim t [ none ↦ [] | some s ↦ codes "\nTarget: " ++ s ] in
      let text = out ++ stat_text path st in
      if st.file_type == type_symlink
      then (text ++ (line target ++ b'\n' ∷ []), rc, u')
      else (text ++ b'\n' ∷ [], rc, u)

  unfoldable pub stat_loop : CString → ℤ → F → List CString → CString × ℤ × F
  unfolding to_string
  stat_loop out rc u [] = (out, rc, u)
  stat_loop out rc u (path ∷ paths) =
      let (out', rc', u') = stat_target out rc path (fs.fs_stat u path) in
      stat_loop out' rc' u' paths

  unfoldable pub stat_cmd : Command F
  unfolding stat_loop strip_newlines
  stat_cmd u um [] out = fails (codes "Usage: stat <path>...") u um
  stat_cmd u um (path ∷ paths) out =
      let (out', rc, u') = stat_loop [] (pos 0) u (path ∷ paths) in
      says rc (strip_newlines out') u' um
