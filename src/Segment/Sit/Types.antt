-- ===== src/Segment/Sit/Types.antt =====
-- `__set_sit_entry_type` and `__mark_sit_entry_dirty` keep the counts.
use f2fs.Base.{
  ℕ, ◌<◌, ◌≡◌, Bool, true, false, arith, update, weight-update, weight-le, Bool-cases, inl, inr,
  ℕ_discrete, sum_range_ext, ◌∙◌, sym, ap,
}
use f2fs.Segment.Geometry.{Geometry, IsLayout}
use f2fs.Segment.Sit.{SitInfo, mark_sit_entry_dirty, set_sit_entry_type}
use f2fs.Segment.Sit.Totals.{IsSit, valid_of}

module _ (g : Geometry) (v : IsLayout g) (s : SitInfo) (segno : ℕ) (h : segno < g.total_segs)
    (inv : IsSit g s) where
  mark_sit_entry_dirty-IsSit : IsSit g (mark_sit_entry_dirty s segno)
  unfolding mark_sit_entry_dirty
  mark_sit_entry_dirty-IsSit = elim (Bool-cases (s.dirty_sentries_bitmap segno)) [
    | inl e ↦ rw e inv
    | inr e ↦ rw e (record {
      entries = inv.entries;
      sections = inv.sections;
      written = inv.written;
      dirty = ground (
        arith,
        inv.dirty,
        v.small,
        weight-update g.total_segs segno true s.dirty_sentries_bitmap h,
        weight-le g.total_segs (update s.dirty_sentries_bitmap segno true),
      );
    })
  ]

module _ (g : Geometry) (v : IsLayout g) (s : SitInfo) (ty segno : ℕ) (h : segno < g.total_segs)
    (inv : IsSit g s) where
  retyped : SitInfo
  retyped = record s {
    sentries = update s.sentries segno (record (s.sentries segno) { type_ = ty });
  }

  valid_retyped : (k : ℕ) → valid_of retyped k ≡ valid_of s k
  unfolding retyped
  valid_retyped k = ground (arith, ap (valid_of s) {x = k} {y = segno})

  retyped-IsSit : IsSit g retyped
  unfolding retyped
  retyped-IsSit = record {
    entries = λ k p. elim (ℕ_discrete k segno) [
      | yes e ↦ let old = inv.entries segno h in rw e (ground (arith, old))
      | no e ↦ let old = inv.entries k p in ground (arith, old)
    ];
    sections =
        λ p sec q. inv.sections p sec q ∙ sym (sum_range_ext _ _ _ _ (λ k _ _. valid_retyped k));
    written = inv.written ∙ sym (sum_range_ext _ _ _ _ (λ k _ _. valid_retyped k));
    dirty = inv.dirty;
  }

  -- `__set_sit_entry_type` keeps every count of valid blocks and of dirty entries right, with or
  -- without `modified`.
  pub set_sit_entry_type-IsSit :
      (modified : Bool) → IsSit g (set_sit_entry_type s ty segno modified)
  unfolding set_sit_entry_type retyped
  set_sit_entry_type-IsSit true = mark_sit_entry_dirty-IsSit g v retyped segno h retyped-IsSit
  set_sit_entry_type-IsSit false = retyped-IsSit
