-- ===== src/Dir/Tree/Unlink/Entries.antt =====
-- What `f2fs_delete_entry` and `f2fs_make_empty` of fs/f2fs/dir.c do to the entries of a directory.
use f2fs.Base.{
  ℕ, ◌≤◌, ◌≡◌, ◌≢◌, ◌↔◌, refl, true, false, Option, none, some, List, [], ◌∷◌, arith, BitSearch,
  ◌==◌, Bool-cases, inl, inr, ℕ_discrete, some_inj, subst, without, on_list,
}
use f2fs.Dir.{DentryBlock, nr_dentry_in_block, delete_dentry, slots_of}
use f2fs.Dir.Block.{IsEntries, slots_of-pos}
use f2fs.Dir.Delete.{delete_dentry-IsEntries}
use f2fs.Dir.Tree.{DirInode, empty_block, new_data_page}
use f2fs.Dir.Tree.Unlink.{Child, f2fs_delete_entry, f2fs_empty_dir, f2fs_make_empty, dot_entries}
use f2fs.Dir.Tree.Find.{IsSound}
use f2fs.Dir.Tree.Unlink.Empty.{IsFreeFrom, first_slot, search_fails, f2fs_empty_dir-IsEmptyFrom}

-- The first set bit of a block is its first entry's.
first_bit :
    (search : BitSearch) (b : DentryBlock) (l : List ℕ)
    → IsEntries b 0 l
    → (search.find_next_bit b.dentry_bitmap nr_dentry_in_block 0 ≡ nr_dentry_in_block) ↔ (l ≡ [])
unfolding IsEntries
first_bit search b [] all =
    let first = search.find_next_bit_lem b.dentry_bitmap nr_dentry_in_block 0 in
    (λ _. refl, λ _. omega (arith, first.in_size, (search_fails b 0 _ first).1 all))
first_bit search b (p ∷ l) all =
    let first = search.find_next_bit_lem b.dentry_bitmap nr_dentry_in_block 0 in
    let some_slot = slots_of-pos (b.dentry p).name_len all.0.named in
    let set = all.0.taken p (omega arith) (omega arith) in
    (
      λ e.
          let free =
            (search_fails b 0 _ first).0 (omega (arith, e)) p (omega arith)
              (omega (arith, all.0.inside)) in
          absurd (ground arith),
      λ e. absurd (ground arith),
    )

pub record IsDeleted (d d' : DirInode) (at : ℕ × ℕ) (b : DentryBlock) (l : List ℕ) : Type 0 where
  pub sound : IsSound d'.pages
  pub given_up : (d'.pages at.0 ≡ none) ↔ (without at.1 l ≡ [])
  pub kept : without at.1 l ≢ [] → d'.pages at.0 ≡ some (delete_dentry b at.1)
  pub entries : IsEntries (delete_dentry b at.1) 0 (without at.1 l)
  pub others : (k : ℕ) → k ≢ at.0 → d'.pages k ≡ d.pages k

-- `f2fs_delete_entry` of an entry of a page takes exactly that entry from it, and gives the page up
-- exactly if it was the only one; every other page stays, and pages keep having entries.
pub f2fs_delete_entry-IsDeleted :
    (search : BitSearch) (d : DirInode) (at : ℕ × ℕ) (b : DentryBlock) (l : List ℕ)
    (inode : Option Child)
    → IsSound d.pages
    → d.pages at.0 ≡ some b
    → IsEntries b 0 l
    → on_list at.1 l ≡ true
    → IsDeleted d (f2fs_delete_entry search d at b inode).0 at b l
unfolding f2fs_delete_entry
f2fs_delete_entry-IsDeleted search d at b l inode sound e all member =
    let b' = delete_dentry b at.1 in
    let less = delete_dentry-IsEntries b at.1 0 l all member in
    let bit = first_bit search b' (without at.1 l) less in
    let r = search.find_next_bit b'.dentry_bitmap nr_dentry_in_block 0 in
    let others : (i : ℕ) (y : DentryBlock)
        → i ≢ at.0
        → d.pages i ≡ some y
        → (l' : List ℕ) × IsEntries y 0 l' =
      λ i y _ h. sound i y h in
    elim (Bool-cases (r == nr_dentry_in_block)) [
      | inl gone ↦
          let empty : without at.1 l ≡ [] = bit.0 (ground arith) in
          rw (f2fs_delete_entry, gone)
            (record {
              sound = λ i y h. sound i y (elim (ℕ_discrete i at.0) [
                | yes p ↦ absurd (ground arith)
                | no p ↦ ground arith
              ]);
              given_up = (λ _. empty, λ _. ground arith);
              kept = λ h. absurd (h empty);
              entries = less;
              others = λ k h. ground arith;
            })
      | inr stays ↦
          let more : without at.1 l ≢ [] = λ h. ground (arith, bit.1 h) in
          rw (f2fs_delete_entry, stays)
            (record {
              sound = λ i y h. elim (ℕ_discrete i at.0) [
                | yes p ↦
                    let same : b' ≡ y = ground arith in
                    subst (λ z. (l' : List ℕ) × IsEntries z 0 l') same (without at.1 l, less)
                | no p ↦ sound i y (ground arith)
              ];
              given_up = (λ h. absurd (ground arith), λ h. absurd (more h));
              kept = λ _. ground arith;
              entries = less;
              others = λ k h. ground arith;
            })
    ]

dot_entries-free :
    (ino parent_ino k : ℕ)
    → 2 ≤ k
    → (dot_entries empty_block ino parent_ino).dentry_bitmap k ≡ false
unfolding dot_entries empty_block
dot_entries-free ino parent_ino k h = ground arith

dot_entries-IsEntries :
    (ino parent_ino : ℕ) → IsEntries (dot_entries empty_block ino parent_ino) 0 (0 ∷ 1 ∷ [])
unfolding IsEntries dot_entries empty_block slots_of
dot_entries-IsEntries ino parent_ino = (
  record {
    from = omega arith;
    gap = λ k low high. absurd (omega arith);
    named = omega arith;
    taken = λ k low high. ground arith;
    inside = omega arith;
  },
  (
    record {
      from = omega arith;
      gap = λ k low high. absurd (omega arith);
      named = omega arith;
      taken = λ k low high. ground arith;
      inside = omega arith;
    },
    λ k low high. ground arith,
  ),
)

-- In a new directory, without pages and of size 0, `f2fs_make_empty` returns the error of
-- `get_new_data_page` and changes nothing, or makes a first page with the entries of "." and "..", and
-- `f2fs_empty_dir` then holds.
pub f2fs_make_empty-f2fs_empty_dir :
    (search : BitSearch) (page_error : ℕ) (d : DirInode) (ino parent_ino : ℕ)
    → ((k : ℕ) → d.pages k ≡ none)
    → let r = f2fs_make_empty page_error d ino parent_ino in
      (r.0 ≡ page_error)
      × (page_error ≢ 0 → r.1 ≡ d)
      × (page_error ≡ 0
          → IsSound r.1.pages
            × ((b : DentryBlock) → r.1.pages 0 ≡ some b → IsEntries b 0 (0 ∷ 1 ∷ []))
            × (f2fs_empty_dir search r.1 ≡ true))
unfolding f2fs_make_empty
f2fs_make_empty-f2fs_empty_dir search page_error d ino parent_ino empty =
    elim (Bool-cases (page_error == 0)) [
      | inl fine ↦
          rw (f2fs_make_empty, fine)
            (
              ground arith,
              λ h. absurd (ground arith),
              λ _.
                  let page = new_data_page d 0 in
                  let fresh : page.0 ≡ empty_block =
                    unfold new_data_page in rw (new_data_page, empty 0) refl in
                  let rest : (k : ℕ) → k ≢ 0 → page.1.pages k ≡ none = λ k h.
                    unfold new_data_page in rw (new_data_page, empty 0) (ground (arith, empty k)) in
                  rw fresh (
                    λ i b h. elim (ℕ_discrete i 0) [
                      | yes p ↦
                          subst (λ z. (l' : List ℕ) × IsEntries z 0 l')
                            (some_inj {b = b} (ground arith))
                            (0 ∷ 1 ∷ [], dot_entries-IsEntries ino parent_ino)
                      | no p ↦ absurd (ground (arith, rest i p))
                    ],
                    λ b h.
                        subst (λ z. IsEntries z 0 (0 ∷ 1 ∷ [])) (some_inj h)
                          (dot_entries-IsEntries ino parent_ino),
                    (f2fs_empty_dir-IsEmptyFrom search _).1 (λ i b low high h.
                        elim (ℕ_discrete i 0) [
                          | yes p ↦
                              let same : dot_entries empty_block ino parent_ino ≡ b =
                                ground arith in
                              subst (λ z. IsFreeFrom (first_slot i) z) same
                                (λ k at under. dot_entries-free ino parent_ino k (ground arith))
                          | no p ↦ absurd (ground (arith, rest i p))
                        ]),
                  ),
            )
      | inr bad ↦ rw (f2fs_make_empty, bad) (refl, λ _. refl, λ h. absurd (ground arith))
    ]
