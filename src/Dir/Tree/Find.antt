-- ===== src/Dir/Tree/Find.antt =====
-- `f2fs_find_entry` of fs/f2fs/dir.c ends on a directory of sound blocks, and finds an entry exactly if
-- a block of the name's bucket on one of the levels has one.
use f2fs.Base.{
  ℕ, zero, suc, ◌+◌, ◌<◌, ◌≤◌, ◌≡◌, refl, sym, ◌∙◌, Bool, true, false, not, ◌&&◌, Option, none,
  some, List, arith, BitSearch, ltb, ◌==◌, Bool-cases, Option-cases, inl, inr, ℕ_discrete, Returns,
  Returns->>=, Returns-map, some_inj, none≢some, subst,
}
use f2fs.Hash.{f2fs_dentry_hash}
use f2fs.Dir.{DentryBlock, max_dir_hash_depth}
use f2fs.Dir.Block.{IsEntries, first_match, find_in_block-first_match}
use f2fs.Dir.Tree.{
  DirInode, dir_blocks, level_start, level_count, find_in_blocks, find_in_level, find_levels,
  f2fs_find_entry,
}

-- Every page has entries.
abbrev pub IsSound : (ℕ → Option DentryBlock) → Type 0
IsSound pages = (i : ℕ) (b : DentryBlock) → pages i ≡ some b → (l : List ℕ) × IsEntries b 0 l

module _ (pages : ℕ → Option DentryBlock) (name : List ℕ) (namehash : ℕ) where
  -- What a page has for a name.
  abbrev pub IsFound : ℕ × ℕ → Type 0
  IsFound r =
      (b : DentryBlock) × (l : List ℕ) × (pages r.0 ≡ some b)
      × IsEntries b 0 l
      × (first_match b name namehash l ≡ some r.1)

  abbrev pub IsAbsent : ℕ → Type 0
  IsAbsent i =
      (b : DentryBlock)
      → pages i ≡ some b
      → (l : List ℕ) × IsEntries b 0 l × (first_match b name namehash l ≡ none)

  -- The outcome of a search of some pages.
  abbrev pub IsSearch : (ℕ → Type 0) → Option (ℕ × ℕ) → Type 0
  IsSearch Within none = (i : ℕ) → Within i → IsAbsent i
  IsSearch Within (some r) = Within r.0 × IsFound r

-- The pages of a run, of one level, and of the levels from one on.
abbrev pub IsInRun : ℕ → ℕ → ℕ → Type 0
IsInRun start count i = (start ≤ i) × (i < start + count)

abbrev pub IsInLevels : ℕ → ℕ → ℕ → ℕ → Type 0
IsInLevels namehash level left i =
    (k : ℕ) × (level ≤ k)
    × (k < level + left)
    × IsInRun (level_start k namehash) (level_count k namehash) i

module _ (pages : ℕ → Option DentryBlock) (name : List ℕ) (namehash : ℕ) where
  one_more_page :
      (left bidx : ℕ) (r : Option (ℕ × ℕ))
      → IsAbsent pages name namehash bidx
      → IsSearch pages name namehash (IsInRun (bidx + 1) left) r
      → IsSearch pages name namehash (IsInRun bidx (suc left)) r
  one_more_page left bidx none absent it = λ i within. elim (ℕ_discrete i bidx) [
    | yes e ↦ subst (IsAbsent pages name namehash) (sym e) absent
    | no e ↦ it i (omega (arith, within), omega (arith, within))
  ]
  one_more_page left bidx (some r) absent it = ((omega (arith, it.0), omega (arith, it.0)), it.1)

  one_more_level :
      (left level : ℕ) (r : Option (ℕ × ℕ))
      → IsSearch pages name namehash
          (IsInRun (level_start level namehash) (level_count level namehash))
          none
      → IsSearch pages name namehash (IsInLevels namehash (level + 1) left) r
      → IsSearch pages name namehash (IsInLevels namehash level (suc left)) r
  one_more_level left level none absent it = λ i within. elim (ℕ_discrete within.0 level) [
    | yes e ↦
        absent i
          (subst (λ k. IsInRun (level_start k namehash) (level_count k namehash) i) e within.3)
    | no e ↦ it i (within.0, omega (arith, within.1), omega (arith, within.2), within.3)
  ]
  one_more_level left level (some r) absent it =
      let (k, low, high, run) = it.0 in ((k, omega arith, omega arith, run), it.1)

module _ (search : BitSearch) (name : List ℕ) (namehash : ℕ) where
  abbrev RunResult : DirInode → ℕ → ℕ → Option (ℕ × ℕ) × Bool → Type 0
  RunResult d bidx left r = IsSearch d.pages name namehash (IsInRun bidx left) r.0

  abbrev BlockResult : DentryBlock → List ℕ → Option ℕ × ℕ → Type 0
  BlockResult b l r = r.0 ≡ first_match b name namehash l

  find_in_blocks-IsSearch :
      (left : ℕ) (d : DirInode) (max_slots : ℕ) (room : Bool) (bidx : ℕ)
      → IsSound d.pages
      → Returns
          (RunResult d bidx left)
          (find_in_blocks search left d name namehash max_slots room bidx)
  unfolding find_in_blocks
  find_in_blocks-IsSearch zero d max_slots room bidx sound =
      λ i within. absurd (omega (arith, within))
  find_in_blocks-IsSearch (suc left) d max_slots room bidx sound =
      let more : (r : Option (ℕ × ℕ) × Bool)
          → IsAbsent d.pages name namehash bidx
          → RunResult d (bidx + 1) left r
          → RunResult d bidx (suc left) r =
        λ r absent it. one_more_page d.pages name namehash left bidx r.0 absent it in
      elim (Option-cases (d.pages bidx)) [
        | inl e ↦
            let hole : IsAbsent d.pages name namehash bidx =
              λ b h. absurd (none≢some (sym e ∙ h)) in
            rw (find_in_blocks, e)
              (Returns-map (RunResult d (bidx + 1) left) (RunResult d bidx (suc left)) _
                (λ r it. more r hole it)
                (find_in_blocks-IsSearch left d max_slots true (bidx + 1) sound))
        | inr (b, e) ↦
            let (l, all) = sound bidx b e in
            rw (find_in_blocks, e)
              (Returns->>= (BlockResult b l) (RunResult d bidx (suc left)) _ _
                (find_in_block-first_match search b name namehash max_slots l all)
                (λ r _ it. elim (Option-cases r.0) [
                  | inl miss ↦
                      let absent : IsAbsent d.pages name namehash bidx = λ b' h.
                        subst
                          (λ y.
                            (l' : List ℕ) × IsEntries y 0 l'
                            × (first_match y name namehash l' ≡ none))
                          (some_inj (sym e ∙ h)) (l, all, sym it ∙ miss) in
                      rw miss (
                        Returns-map (RunResult d (bidx + 1) left) (RunResult d bidx (suc left)) _
                          (λ x later. more x absent later)
                          (find_in_blocks-IsSearch left d r.1 _ (bidx + 1) sound))
                  | inr (p, hit) ↦ rw hit ((omega arith, omega arith), (b, l, e, all, sym it ∙ hit))
                ]))
      ]

  -- One level, and all of them; the pages stay.
  abbrev TreeResult : DirInode → (ℕ → Type 0) → Option (ℕ × ℕ) × DirInode → Type 0
  TreeResult d Within r = (r.1.pages ≡ d.pages) × IsSearch d.pages name namehash Within r.0

  find_in_level-IsSearch :
      (d : DirInode) (level : ℕ)
      → IsSound d.pages
      → level ≤ max_dir_hash_depth
      → Returns
          (TreeResult d (IsInRun (level_start level namehash) (level_count level namehash)))
          (find_in_level search d level name namehash)
  unfolding find_in_level
  find_in_level-IsSearch d level sound low =
      let start = level_start level namehash in
      let count = level_count level namehash in
      let fine : ltb max_dir_hash_depth level ≡ false = ground arith in
      rw (find_in_level, fine)
        (Returns->>= (RunResult d start count) (TreeResult d (IsInRun start count)) _ _
          (find_in_blocks-IsSearch count d 0 false start sound)
          (λ r _ it. elim (Option-cases r.0) [
            | inl miss ↦
                let absent : IsSearch d.pages name namehash (IsInRun start count) none =
                  subst (IsSearch d.pages name namehash (IsInRun start count)) miss it in
                rw miss (elim (Bool-cases (r.1 && not (d.chash == namehash))) [
                  | inl c ↦ rw c (refl, absent)
                  | inr c ↦ rw c (refl, absent)
                ])
            | inr (x, hit) ↦
                rw hit (refl, subst (IsSearch d.pages name namehash (IsInRun start count)) hit it)
          ]))

  find_levels-IsSearch :
      (left : ℕ) (d : DirInode) (level : ℕ)
      → IsSound d.pages
      → level + left ≤ max_dir_hash_depth + 1
      → Returns
          (TreeResult d (IsInLevels namehash level left))
          (find_levels search left d level name namehash)
  unfolding find_levels
  find_levels-IsSearch zero d level sound low = elim (Bool-cases (d.chash == namehash)) [
    | inl c ↦ rw c (refl, λ i within. absurd (omega (arith, within.1, within.2)))
    | inr c ↦ rw c (refl, λ i within. absurd (omega (arith, within.1, within.2)))
  ]
  find_levels-IsSearch (suc left) d level sound low =
      let Here = IsInRun (level_start level namehash) (level_count level namehash) in
      let All = IsInLevels namehash level (suc left) in
      (Returns->>= (TreeResult d Here) (TreeResult d All) _ _
        (find_in_level-IsSearch d level sound (omega arith))
        (λ r _ it. elim (Option-cases r.0) [
          | inl miss ↦
              let absent : IsSearch d.pages name namehash Here none =
                subst (IsSearch d.pages name namehash Here) miss it.1 in
              let sound' : IsSound r.1.pages = subst IsSound (sym it.0) sound in
              rw miss (
                Returns-map (TreeResult r.1 (IsInLevels namehash (level + 1) left))
                  (TreeResult d All) _
                  (λ x later. (
                    later.0 ∙ it.0,
                    one_more_level d.pages name namehash left level x.0 absent (
                        subst
                          (λ pages.
                            IsSearch pages name namehash (IsInLevels namehash (level + 1) left) x.0)
                          it.0 later.1),
                  ))
                  (find_levels-IsSearch left r.1 (level + 1) sound' (omega arith)))
          | inr (x, hit) ↦
              let (within, found) = subst (IsSearch d.pages name namehash Here) hit it.1 in
              rw hit (it.0, ((level, omega arith, omega arith, within), found))
        ]))

-- On a directory whose pages have entries and whose depth is within `MAX_DIR_HASH_DEPTH`, of size above 0,
-- `f2fs_find_entry` ends without a `BUG_ON` and leaves the pages. It gives the slot of an entry with the
-- name and its hash in a block of the name's bucket on one of the levels, or, without one, none of these
-- blocks has such an entry.
pub f2fs_find_entry-IsSearch :
    (search : BitSearch) (d : DirInode) (name : List ℕ)
    → IsSound d.pages
    → d.current_depth ≤ max_dir_hash_depth
    → 0 < dir_blocks d
    → Returns
        (λ r.
          (r.1.pages ≡ d.pages)
          × IsSearch d.pages name
              (f2fs_dentry_hash name)
              (IsInLevels (f2fs_dentry_hash name) 0 d.current_depth)
              r.0)
        (f2fs_find_entry search d name)
unfolding f2fs_find_entry
f2fs_find_entry-IsSearch search d name sound low some_block =
    let blocks : (dir_blocks d == 0) ≡ false = ground arith in
    rw (f2fs_find_entry, blocks)
      (find_levels-IsSearch search name (f2fs_dentry_hash name) d.current_depth d 0 sound
        (omega arith))
