-- ===== src/Dir/Block.antt =====
-- The entries of a directory block: which slots start one, and that `find_in_block` of fs/f2fs/dir.c
-- walks them in order.
use f2fs.Base.{
  ℕ, zero, suc, ◌+◌, ◌<◌, ◌≤◌, ◌≡◌, inl, inr, refl, true, false, Option, none, some, List, [], ◌∷◌,
  arith, BitSearch, IsFirst, leb, if◌then◌else◌, Returns, Bool-cases, dec_lt,
}
use f2fs.Dir.{DentryBlock, nr_dentry_in_block, slots_of, is_match, find_from, find_in_block}

abbrev pub slots_at : DentryBlock → ℕ → ℕ
slots_at b p = slots_of (b.dentry p).name_len

-- The next entry from a slot on: the slots up to it are free, its own are taken.
pub record IsItem (b : DentryBlock) (pos p : ℕ) : Type 0 where
  pub from : pos ≤ p
  pub gap : (k : ℕ) → pos ≤ k → k < p → b.dentry_bitmap k ≡ false
  pub named : 0 < (b.dentry p).name_len
  pub taken : (k : ℕ) → p ≤ k → k < p + slots_at b p → b.dentry_bitmap k ≡ true
  pub inside : p + slots_at b p ≤ nr_dentry_in_block

-- The entries of the block from a slot on.
unfoldable pub IsEntries : DentryBlock → ℕ → List ℕ → Type 0
IsEntries b pos [] = (k : ℕ) → pos ≤ k → k < nr_dentry_in_block → b.dentry_bitmap k ≡ false
IsEntries b pos (p ∷ l) = IsItem b pos p × IsEntries b (p + slots_at b p) l

-- The first of them that has the name.
unfoldable pub first_match : DentryBlock → List ℕ → ℕ → List ℕ → Option ℕ
first_match b name namehash [] = none
first_match b name namehash (p ∷ l) =
    let rest = first_match b name namehash l in if is_match b name namehash p then some p else rest

pub slots_of-pos : (n : ℕ) → 0 < n → 0 < slots_of n
unfolding slots_of
slots_of-pos n h = omega arith

-- Where the search for a set bit stops.
stops_at_item :
    (b : DentryBlock) (pos p r : ℕ)
    → IsItem b pos p
    → IsFirst true b.dentry_bitmap nr_dentry_in_block pos r
    → r ≡ p
stops_at_item b pos p r item first =
    let some_slot = slots_of-pos (b.dentry p).name_len item.named in
    let set = item.taken p (omega arith) (omega arith) in
    elim (dec_lt r p) [
      | yes q ↦
          let inside : r < nr_dentry_in_block = omega (arith, item.inside) in
          let clear = item.gap r (first.from_offset inside) q in
          let hit = first.hit inside in ground arith
      | no q ↦ elim (dec_lt p r) [
        | yes q' ↦ let clear = first.before p item.from q' in ground arith
        | no q' ↦ omega arith
      ]
    ]

stops_at_end :
    (b : DentryBlock) (pos r : ℕ)
    → IsEntries b pos []
    → IsFirst true b.dentry_bitmap nr_dentry_in_block pos r
    → r ≡ nr_dentry_in_block
unfolding IsEntries
stops_at_end b pos r all first = elim (dec_lt r nr_dentry_in_block) [
  | yes q ↦ let clear = all r (first.from_offset q) q in let hit = first.hit q in ground arith
  | no q ↦ omega (arith, first.in_size)
]

module _ (search : BitSearch) (b : DentryBlock) (name : List ℕ) (namehash : ℕ) where
  find_from-first_match :
      (fuel max_slots pos : ℕ) (l : List ℕ)
      → IsEntries b pos l
      → nr_dentry_in_block < pos + fuel
      → pos ≤ nr_dentry_in_block
      → Returns
          (λ r. r.0 ≡ first_match b name namehash l)
          (find_from search fuel b name namehash max_slots
            (search.find_next_bit b.dentry_bitmap nr_dentry_in_block pos))
  unfolding find_from first_match IsEntries
  find_from-first_match zero max_slots pos l all h low = absurd (omega arith)
  find_from-first_match (suc fuel) max_slots pos [] all h low =
      rw
        (stops_at_end b pos _ all (search.find_next_bit_lem b.dentry_bitmap nr_dentry_in_block pos))
        refl
  find_from-first_match (suc fuel) max_slots pos (p ∷ l) all h low =
      let item = all.0 in
      let some_slot = slots_of-pos (b.dentry p).name_len item.named in
      let inside : leb nr_dentry_in_block p ≡ false = ground (arith, item.inside) in
      rw
        (
          stops_at_item b pos p _ item
              (search.find_next_bit_lem b.dentry_bitmap nr_dentry_in_block pos),
          inside,
        )
        (elim (Bool-cases (is_match b name namehash p)) [
          | inl yes_match ↦ rw yes_match refl
          | inr no_match ↦ rw no_match (
              find_from-first_match fuel _ (p + slots_at b p) l all.1 (omega (arith, item.from))
                item.inside)
        ])

  -- On a block whose bits are those of a list of entries with names, `find_in_block` ends, and gives
  -- the first entry of the list that has the name and the hash.
  pub find_in_block-first_match :
      (max_slots : ℕ) (l : List ℕ)
      → IsEntries b 0 l
      → Returns
          (λ r. r.0 ≡ first_match b name namehash l)
          (find_in_block search b name namehash max_slots)
  unfolding find_in_block
  find_in_block-first_match max_slots l all =
      find_from-first_match (nr_dentry_in_block + 1) max_slots 0 l all (omega arith) (omega arith)
