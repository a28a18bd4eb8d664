-- ===== src/Dir/Tests.antt =====
-- A directory of one page, which has the entry "a".
use f2fs.Base.{
  ℕ, ◌≡◌, ◌≢◌, refl, false, none, some, List, [], ◌∷◌, arith, update, on_list, ℕ_discrete, Returns,
  subst, linear_search,
}
use f2fs.Hash.{f2fs_dentry_hash}
use f2fs.Dir.{DentryBlock, slots_of, add_dentry, find_in_block, room_for_filename}
use f2fs.Dir.Room.{IsRoom, IsFirstRoom, room_for_filename-IsFirstRoom}
use f2fs.Dir.Block.{IsEntries, first_match, find_in_block-first_match}
use f2fs.Dir.Change.{insert_slot}
use f2fs.Dir.Add.{add_dentry-IsEntries}
use f2fs.Dir.Lookup.{find_in_block-add_dentry}
use f2fs.Dir.Tree.{DirInode, NewLink, empty_block, dir_blocks, f2fs_find_entry, f2fs_add_link}
use f2fs.Dir.Tree.Unlink.{f2fs_delete_entry}
use f2fs.Dir.Tree.Find.{IsSound, IsSearch, IsInLevels, f2fs_find_entry-IsSearch}
use f2fs.Dir.Tree.Scan.{empty-IsEntries}
use f2fs.Dir.Tree.Link.{IsAddLink, f2fs_add_link-IsAddLink}
use f2fs.Dir.Tree.Unlink.Entries.{IsDeleted, f2fs_delete_entry-IsDeleted}

abbrev letter_a : List ℕ
letter_a = 97 ∷ []

abbrev letter_b : List ℕ
letter_b = 98 ∷ []

abbrev one_name : DentryBlock
one_name = add_dentry empty_block 0 letter_a 41 11

empty_room : IsRoom empty_block.dentry_bitmap (slots_of 1) 0
unfolding slots_of empty_block
empty_room = record { inside = omega arith; free = λ k low high. refl }

one_name-IsEntries : IsEntries one_name 0 (0 ∷ [])
unfolding insert_slot
one_name-IsEntries =
    add_dentry-IsEntries empty_block 0 letter_a 41 11 (omega arith) empty_room 0 [] empty-IsEntries
      (omega arith)

abbrev dir : DirInode
dir = record {
  pages = update (λ k. none) 0 (some one_name);
  i_size = 4096;
  i_nlink = 2;
  current_depth = 1;
  chash = 0;
  clevel = 0;
}

dir-IsSound : IsSound dir.pages
dir-IsSound = λ i b h. elim (ℕ_discrete i 0) [
  | yes p ↦
      let same : one_name ≡ b = ground arith in
      subst (λ y. (l : List ℕ) × IsEntries y 0 l) same (0 ∷ [], one_name-IsEntries)
  | no p ↦ absurd (ground arith)
]

room_for_filename-IsFirstRoom_example :
    Returns
      (IsFirstRoom one_name.dentry_bitmap 3 0)
      (room_for_filename linear_search one_name.dentry_bitmap 3)
room_for_filename-IsFirstRoom_example =
    room_for_filename-IsFirstRoom linear_search one_name.dentry_bitmap 3 (omega arith)

find_in_block-first_match_example :
    Returns
      (λ r. r.0 ≡ first_match one_name letter_a 41 (0 ∷ []))
      (find_in_block linear_search one_name letter_a 41 0)
find_in_block-first_match_example =
    find_in_block-first_match linear_search one_name letter_a 41 0 (0 ∷ []) one_name-IsEntries

find_in_block-add_dentry_example :
    (letter_b ≢ letter_a
      → Returns
          (λ r. Returns (λ r'. r'.0 ≡ r.0) (find_in_block linear_search one_name letter_b 42 0))
          (find_in_block linear_search empty_block letter_b 42 0))
    × Returns
        (λ r.
          Returns
            (λ r'. r.0 ≡ none → r'.0 ≡ some 0)
            (find_in_block linear_search one_name letter_a 41 0))
        (find_in_block linear_search empty_block letter_a 41 0)
find_in_block-add_dentry_example =
    find_in_block-add_dentry linear_search empty_block 0 letter_a 41 11 (omega arith) empty_room []
      empty-IsEntries letter_b 42 0

f2fs_find_entry-IsSearch_example :
    Returns
      (λ r.
        (r.1.pages ≡ dir.pages)
        × IsSearch dir.pages letter_b
            (f2fs_dentry_hash letter_b)
            (IsInLevels (f2fs_dentry_hash letter_b) 0 1)
            r.0)
      (f2fs_find_entry linear_search dir letter_b)
unfolding dir_blocks
f2fs_find_entry-IsSearch_example =
    f2fs_find_entry-IsSearch linear_search dir letter_b dir-IsSound (omega arith) (omega arith)

abbrev new_file : NewLink
new_file = record { ino = 12; is_new_dir = false }

f2fs_add_link-IsAddLink_example :
    Returns
      (IsAddLink dir letter_b (f2fs_dentry_hash letter_b) 12)
      (f2fs_add_link linear_search (λ k. 0) 0 dir letter_b new_file)
f2fs_add_link-IsAddLink_example =
    f2fs_add_link-IsAddLink linear_search (λ k. 0) 0 dir letter_b new_file dir-IsSound (omega arith)
      (omega arith) (omega arith)

f2fs_delete_entry-IsDeleted_example :
    IsDeleted dir
      (f2fs_delete_entry linear_search dir (0, 0) one_name none).0
      (0, 0)
      one_name
      (0 ∷ [])
unfolding on_list
f2fs_delete_entry-IsDeleted_example =
    f2fs_delete_entry-IsDeleted linear_search dir (0, 0) one_name (0 ∷ []) none dir-IsSound refl
      one_name-IsEntries refl

abbrev no_pages : DirInode
no_pages = record dir { pages = λ k. none; i_size = 0 }

abbrev no_error : ℕ
no_error = 0
