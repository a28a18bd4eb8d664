-- ===== src/Dir/Lookup.antt =====
-- What `find_in_block` of fs/f2fs/dir.c finds in a block to which `f2fs_add_link` has added an entry.
use f2fs.Base.{
  ℕ, ◌<◌, ◌≡◌, ◌≢◌, sym, subst, Option, none, some, List, length, arith, BitSearch, Returns,
  Returns-map,
}
use f2fs.Dir.{DentryBlock, slots_of, find_in_block, add_dentry}
use f2fs.Dir.Room.{IsRoom}
use f2fs.Dir.Block.{IsEntries, find_in_block-first_match}
use f2fs.Dir.Change.{insert_slot}
use f2fs.Dir.Add.{add_dentry-IsEntries, add_dentry-first_match}

-- How the slots that two look-ups find are related.
both_found :
    (R : Option ℕ → Option ℕ → Type 0) (m m' : Option (Option ℕ × ℕ)) (x y : Option ℕ)
    → Returns (λ r. r.0 ≡ x) m
    → Returns (λ r. r.0 ≡ y) m'
    → R x y
    → Returns (λ r. Returns (λ r'. R r.0 r'.0) m') m
both_found R m m' x y p q h =
    Returns-map (λ r. r.0 ≡ x) (λ r. Returns (λ r'. R r.0 r'.0) m') m
      (λ r e.
        Returns-map (λ r'. r'.0 ≡ y) (λ r'. R r.0 r'.0) m'
          (λ r' e'. subst (λ u. R u r'.0) (sym e) (subst (R x) (sym e') h)) q)
      p

-- In a block whose bits are those of a list of entries with names, let `add_dentry` put an entry with a
-- name that is not empty at slots that are free and in the block. `find_in_block` ends before and
-- after. For another name it finds after what it found before, whatever the hashes are; and if it
-- found nothing for the name and the hash of the new entry, it finds the new entry's slot.
pub find_in_block-add_dentry :
    (search : BitSearch) (b : DentryBlock) (q : ℕ) (name : List ℕ) (namehash ino : ℕ)
    → 0 < length name
    → IsRoom b.dentry_bitmap (slots_of (length name)) q
    → (l : List ℕ) → IsEntries b 0 l
    → (name' : List ℕ) (namehash' max_slots : ℕ)
    → let after = add_dentry b q name namehash ino in
      (name' ≢ name
        → Returns
            (λ r. Returns (λ r'. r'.0 ≡ r.0) (find_in_block search after name' namehash' max_slots))
            (find_in_block search b name' namehash' max_slots))
      × Returns
          (λ r.
            Returns
              (λ r'. r.0 ≡ none → r'.0 ≡ some q)
              (find_in_block search after name namehash max_slots))
          (find_in_block search b name namehash max_slots)
find_in_block-add_dentry search b q name namehash ino named room l all name' namehash' max_slots =
    let after = add_dentry b q name namehash ino in
    let all_after = add_dentry-IsEntries b q name namehash ino named room 0 l all (omega arith) in
    let law = add_dentry-first_match b q name namehash ino named room 0 l all name' namehash' in
    let before = find_in_block-first_match search b in
    let later = λ (n : List ℕ) (h : ℕ).
      find_in_block-first_match search after n h max_slots (insert_slot q l) all_after in
    (
      λ other.
          both_found (λ u u'. u' ≡ u) _ _ _ _ (before name' namehash' max_slots l all)
            (later name' namehash') (law.0 other),
      both_found (λ u u'. u ≡ none → u' ≡ some q) _ _ _ _ (before name namehash max_slots l all)
          (later name namehash) law.1,
    )
