-- ===== src/Segment/Sit/Flush/Mark.antt =====
-- `flush_sits_in_journal` of fs/f2fs/segment.c marks the entries of the journal as dirty.
use f2fs.Base.{
  ℕ, zero, suc, ◌^◌, ◌<◌, ◌≡◌, refl, ap, ◌∙◌, true, arith, update, Bool-cases, inl, inr, ℕ_discrete,
  weight, weight-update, weight-le,
}
use f2fs.Journal.{Journal}
use f2fs.Segment.Geometry.{Geometry}
use f2fs.Segment.Sit.{SitEntry, SitInfo, mark_sit_entry_dirty}
use f2fs.Segment.Sit.Flush.{mark_journal}

-- More entries are dirty, and nothing else changes.
pub record IsMarked (g : Geometry) (s r : SitInfo) : Type 0 where
  pub sentries : r.sentries ≡ s.sentries
  pub bitmap : r.sit_bitmap ≡ s.sit_bitmap
  pub base : r.sit_base_addr ≡ s.sit_base_addr
  pub blocks : r.sit_blocks ≡ s.sit_blocks
  pub more : (k : ℕ) → s.dirty_sentries_bitmap k ≡ true → r.dirty_sentries_bitmap k ≡ true
  pub counted : r.dirty_sentries ≡ weight g.total_segs r.dirty_sentries_bitmap

module _ (g : Geometry) (small : g.total_segs < 2 ^ 32) where
  mark_one :
      (s : SitInfo) (k : ℕ)
      → s.dirty_sentries ≡ weight g.total_segs s.dirty_sentries_bitmap
      → k < g.total_segs
      → IsMarked g s (mark_sit_entry_dirty s k)
        × ((mark_sit_entry_dirty s k).dirty_sentries_bitmap k ≡ true)
  unfolding mark_sit_entry_dirty
  mark_one s k c h = elim (Bool-cases (s.dirty_sentries_bitmap k)) [
    | inl e ↦
        rw (mark_sit_entry_dirty, e)
          (
            record {
              sentries = refl;
              bitmap = refl;
              base = refl;
              blocks = refl;
              more = λ j d. d;
              counted = c;
            },
            e,
          )
    | inr e ↦
        rw (mark_sit_entry_dirty, e)
          (
            record {
              sentries = refl;
              bitmap = refl;
              base = refl;
              blocks = refl;
              more = λ j d. ground arith;
              counted = ground (
                arith,
                c,
                e,
                weight-update g.total_segs k true s.dirty_sentries_bitmap h,
                weight-le g.total_segs (update s.dirty_sentries_bitmap k true),
              );
            },
            ground arith,
          )
  ]

  pub mark_journal-IsMarked :
      (j : Journal SitEntry) (n : ℕ) (s : SitInfo)
      → s.dirty_sentries ≡ weight g.total_segs s.dirty_sentries_bitmap
      → ((i : ℕ) → i < n → j.keys i < g.total_segs)
      → IsMarked g s (mark_journal j n s)
        × ((i : ℕ) → i < n → (mark_journal j n s).dirty_sentries_bitmap (j.keys i) ≡ true)
  unfolding mark_journal
  mark_journal-IsMarked j zero s c h = (
    record {
      sentries = refl;
      bitmap = refl;
      base = refl;
      blocks = refl;
      more = λ j d. d;
      counted = c;
    },
    λ i p. absurd (omega arith),
  )
  mark_journal-IsMarked j (suc n) s c h =
      let (one, hit) = mark_one s (j.keys n) c (h n (omega arith)) in
      let (rest, hits) =
        mark_journal-IsMarked j n (mark_sit_entry_dirty s (j.keys n)) one.counted
          (λ i p. h i (omega arith)) in
      (
        record {
          sentries = rest.sentries ∙ one.sentries;
          bitmap = rest.bitmap ∙ one.bitmap;
          base = rest.base ∙ one.base;
          blocks = rest.blocks ∙ one.blocks;
          more = λ k d. rest.more k (one.more k d);
          counted = rest.counted;
        },
        λ i p. elim (ℕ_discrete i n) [
          | yes e ↦ rest.more (j.keys i) (
              ap (λ x. (mark_sit_entry_dirty s (j.keys n)).dirty_sentries_bitmap (j.keys x)) e
              ∙ hit)
          | no e ↦ hits i (omega arith)
        ],
      )
