-- ===== src/Segment/Dirty/Invariant.antt =====
-- The dirty counters count the bits of their maps.
use f2fs.Base.{
  ℕ, ◌<◌, ◌≡◌, Bool, true, false, weight, weight-update, arith, ap, ◌==◌, if◌then◌else◌, ℕ_discrete,
  Bool-cases, inl, inr, ◌&&◌,
}
use f2fs.Segment.Geometry.{Geometry}
use f2fs.Segment.Dirty.{DirtyInfo, mark, unmark}

pub record IsDirtyInfo (g : Geometry) (d : DirtyInfo) : Type 0 where
  pub counted : (t : ℕ) → d.nr_dirty t ≡ weight g.total_segs (d.dirty_segmap t)

-- One bit of one map, as a test.
abbrev pub at : ℕ → ℕ → ℕ → ℕ → Bool
at t segno t' k = t' == t && k == segno

pub mark_bits :
    (d : DirtyInfo) (t segno t' k : ℕ)
    → (mark d t segno).dirty_segmap t' k ≡ (if at t segno t' k then true else d.dirty_segmap t' k)
unfolding mark
mark_bits d t segno t' k = ground (
  arith,
  ap (λ j. d.dirty_segmap j k) {x = t'} {y = t},
  ap (d.dirty_segmap t) {x = k} {y = segno},
)

pub unmark_bits :
    (d : DirtyInfo) (t segno t' k : ℕ)
    → (unmark d t segno).dirty_segmap t' k
      ≡ (if at t segno t' k then false else d.dirty_segmap t' k)
unfolding unmark
unmark_bits d t segno t' k = ground (
  arith,
  ap (λ j. d.dirty_segmap j k) {x = t'} {y = t},
  ap (d.dirty_segmap t) {x = k} {y = segno},
)

module _ (g : Geometry) (d : DirtyInfo) (t segno : ℕ) (inv : IsDirtyInfo g d)
    (h : segno < g.total_segs) where
  pub mark-IsDirtyInfo : IsDirtyInfo g (mark d t segno)
  unfolding mark
  mark-IsDirtyInfo = elim (Bool-cases (d.dirty_segmap t segno)) [
    | inl e ↦ rw e inv
    | inr e ↦ rw e (record {
      counted = λ t'. elim (ℕ_discrete t' t) [
        | yes r ↦
            ground
              (arith, r, inv.counted t, weight-update g.total_segs segno true (d.dirty_segmap t) h)
        | no r ↦ ground (arith, inv.counted t')
      ];
    })
  ]

  pub unmark-IsDirtyInfo : IsDirtyInfo g (unmark d t segno)
  unfolding unmark
  unmark-IsDirtyInfo = elim (Bool-cases (d.dirty_segmap t segno)) [
    | inl e ↦ rw e (record {
      counted = λ t'. elim (ℕ_discrete t' t) [
        | yes r ↦
            ground
              (arith, r, inv.counted t, weight-update g.total_segs segno false (d.dirty_segmap t) h)
        | no r ↦ ground (arith, inv.counted t')
      ];
    })
    | inr e ↦ rw e inv
  ]
