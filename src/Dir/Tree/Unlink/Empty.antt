-- ===== src/Dir/Tree/Unlink/Empty.antt =====
-- What `f2fs_empty_dir` of fs/f2fs/dir.c tests.
use f2fs.Base.{
  ℕ, zero, suc, ◌+◌, ◌<◌, ◌≤◌, ◌≡◌, ◌↔◌, refl, ap, sym, ◌∙◌, true, false, some, arith, BitSearch,
  IsFirst, ltb, ◌==◌, if◌then◌else◌, Bool-cases, Option-cases, inl, inr, dec_lt, ℕ_discrete,
  some_inj, none≢some, subst,
}
use f2fs.Dir.{DentryBlock, nr_dentry_in_block}
use f2fs.Dir.Tree.{DirInode, dir_blocks}
use f2fs.Dir.Tree.Unlink.{empty_from, f2fs_empty_dir}

-- No bit of the block is set, from a slot on.
abbrev pub IsFreeFrom : ℕ → DentryBlock → Type 0
IsFreeFrom pos b = (k : ℕ) → pos ≤ k → k < nr_dentry_in_block → b.dentry_bitmap k ≡ false

-- The first two slots of the first block are those of "." and "..".
abbrev pub first_slot : ℕ → ℕ
first_slot bidx = if bidx == 0 then 2 else 0

pub search_fails :
    (b : DentryBlock) (pos r : ℕ)
    → IsFirst true b.dentry_bitmap nr_dentry_in_block pos r
    → (nr_dentry_in_block ≤ r) ↔ IsFreeFrom pos b
search_fails b pos r first = (
  λ h k low high. ground (arith, first.before k low),
  λ all. elim (dec_lt r nr_dentry_in_block) [
    | yes h ↦ absurd (ground (arith, first.hit h, all r (first.from_offset h) h))
    | no h ↦ omega arith
  ],
)

abbrev pub IsEmptyFrom : DirInode → ℕ → ℕ → Type 0
IsEmptyFrom d bidx left =
    (i : ℕ) (b : DentryBlock)
    → bidx ≤ i
    → i < bidx + left
    → d.pages i ≡ some b
    → IsFreeFrom (first_slot i) b

module _ (search : BitSearch) (d : DirInode) where
  empty_from-IsEmptyFrom :
      (left bidx : ℕ) → (empty_from search left d bidx ≡ true) ↔ IsEmptyFrom d bidx left
  unfolding empty_from
  empty_from-IsEmptyFrom zero bidx = (λ _ i b low high h. absurd (omega arith), λ _. refl)
  empty_from-IsEmptyFrom (suc left) bidx =
      let later = empty_from-IsEmptyFrom left (bidx + 1) in
      elim (Option-cases (d.pages bidx)) [
        | inl e ↦
            rw (empty_from, e)
              (
                λ t i b low high h. elim (ℕ_discrete i bidx) [
                  | yes p ↦ absurd (none≢some (sym e ∙ ap d.pages (sym p) ∙ h))
                  | no p ↦ later.0 t i b (omega arith) (omega arith) h
                ],
                λ all. later.1 (λ i b low high h. all i b (omega arith) (omega arith) h),
              )
        | inr (b, e) ↦
            let fails =
              search_fails b (first_slot bidx) _
                (search.find_next_bit_lem b.dentry_bitmap nr_dentry_in_block (first_slot bidx)) in
            rw (empty_from, e)
              (elim (Bool-cases (
                ltb (search.find_next_bit b.dentry_bitmap nr_dentry_in_block (first_slot bidx))
                  nr_dentry_in_block)) [
                    | inl hit ↦ rw hit (
                      λ t. absurd (ground arith),
                      λ all.
                          absurd
                            (ground (arith, fails.1 (all bidx b (omega arith) (omega arith) e))),
                    )
                    | inr miss ↦
                        let free : IsFreeFrom (first_slot bidx) b = fails.0 (ground arith) in
                        rw miss (
                          λ t i b' low high h. elim (ℕ_discrete i bidx) [
                            | yes p ↦
                                let same : b ≡ b' = some_inj (sym e ∙ ap d.pages (sym p) ∙ h) in
                                subst (λ y. IsFreeFrom (first_slot i) y) same (rw p free)
                            | no p ↦ later.0 t i b' (omega arith) (omega arith) h
                          ],
                          λ all.
                              later.1 (λ i b' low high h. all i b' (omega arith) (omega arith) h),
                        )
                  ])
      ]

  -- `f2fs_empty_dir` holds exactly if no page within the size has a slot in use besides the first two
  -- of the first block.
  pub f2fs_empty_dir-IsEmptyFrom : (f2fs_empty_dir search d ≡ true) ↔ IsEmptyFrom d 0 (dir_blocks d)
  unfolding f2fs_empty_dir
  f2fs_empty_dir-IsEmptyFrom = empty_from-IsEmptyFrom (dir_blocks d) 0
