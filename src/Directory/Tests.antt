-- ===== src/Directory/Tests.antt =====
-- A small directory.
use pseudo_fs.Common.{◌≡◌, refl, List, [], ◌∷◌, arith, some, true, false, if◌then◌else◌}
use pseudo_fs.Common.CStrings.{CString, codes, str_eq, strn_eq}
use pseudo_fs.Layout.{invalid_blk}
use pseudo_fs.SuperBlock.Tests.{small}
use pseudo_fs.Inode.{Inodes, attach}
use pseudo_fs.Directory.{
  DirEntry, blank_entry, find_entry, has_name, linked, unlinked, place_entry, clear_entry,
  new_entry, namei, namei_parent, split_path, split_from,
}
use pseudo_fs.Directory.Names.{NamesDistinct, find_entry-linked, find_entry-unlinked}
use pseudo_fs.Directory.Paths.{finish_path, namei-namei_parent}

-- `.` and `..`, a free place, and one file.
abbrev entries : List DirEntry
entries =
    new_entry (codes ".") 4
    ∷ new_entry (codes "..") 1
    ∷ blank_entry
    ∷ new_entry (codes "notes") 9
    ∷ []

entries-NamesDistinct : NamesDistinct entries
unfolding has_name str_eq
entries-NamesDistinct = ((λ used. refl), ((λ used. refl), ((λ used. refl), ((λ used. refl), tt))))

abbrev with_draft : List DirEntry
with_draft =
    new_entry (codes ".") 4
    ∷ new_entry (codes "..") 1
    ∷ new_entry (codes "draft") 12
    ∷ new_entry (codes "notes") 9
    ∷ []

draft_linked : linked (codes "draft") 12 entries ≡ some with_draft
unfolding linked has_name place_entry str_eq
draft_linked = refl

find_entry-linked_example :
    (has_name (codes "draft") entries ≡ false)
    × NamesDistinct with_draft
    × ((q : CString)
        → find_entry q with_draft
          ≡ (if strn_eq 14 (codes "draft") q then 12 else find_entry q entries))
find_entry-linked_example =
    find_entry-linked (codes "draft") 12 entries with_draft (λ e. omega arith) entries-NamesDistinct
      draft_linked

abbrev without_notes : List DirEntry
without_notes = new_entry (codes ".") 4 ∷ new_entry (codes "..") 1 ∷ blank_entry ∷ blank_entry ∷ []

notes_unlinked : unlinked (codes "notes") entries ≡ some without_notes
unfolding unlinked has_name clear_entry str_eq
notes_unlinked = refl

find_entry-unlinked_example :
    (has_name (codes "notes") entries ≡ true)
    × NamesDistinct without_notes
    × ((q : CString)
        → find_entry q without_notes
          ≡ (if strn_eq 14 (codes "notes") q then invalid_blk else find_entry q entries))
find_entry-unlinked_example =
    find_entry-unlinked (codes "notes") entries without_notes entries-NamesDistinct notes_unlinked

split_home : split_path (codes "//home/ann/") ≡ codes "home" ∷ codes "ann" ∷ []
unfolding split_path split_from
split_home = refl

abbrev empty_cache : Inodes
empty_cache = attach (small 3 2)

namei-namei_parent_example :
    namei empty_cache (codes "/home/ann") 5 1
    ≡ finish_path empty_cache 1 (namei_parent empty_cache (codes "/home/ann") 5 1)
namei-namei_parent_example = namei-namei_parent empty_cache (codes "/home/ann") 5 1
