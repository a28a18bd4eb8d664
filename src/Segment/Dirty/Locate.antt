-- ===== src/Segment/Dirty/Locate.antt =====
-- `locate_dirty_segment` files a segment by its number of valid blocks.
use f2fs.Base.{
  ℕ, ◌<◌, ◌≡◌, true, false, not, arith, ◌==◌, ltb, if◌then◌else◌, Bool-cases, inl, inr, ◌&&◌, ◌||◌,
  ◌⊎◌,
}
use f2fs.Segment.Geometry.{Geometry, null_segno}
use f2fs.Segment.Sit.{SitInfo, get_valid_blocks}
use f2fs.Segment.Dirty.{
  DirtyInfo, mark, unmark, dirty, pre, is_curseg, locate, remove, locate_dirty_segment,
}
use f2fs.Segment.Dirty.Invariant.{
  IsDirtyInfo, at, mark_bits, unmark_bits, mark-IsDirtyInfo, unmark-IsDirtyInfo,
}

module _ (s : SitInfo) (d : DirtyInfo) (segno : ℕ) where
  abbrev ty : ℕ
  ty = (s.sentries segno).type_

  remove_dirty_bits :
      (t k : ℕ)
      → (remove s d segno dirty).dirty_segmap t k
        ≡ (if at dirty segno t k || at ty segno t k then false else d.dirty_segmap t k)
  unfolding remove
  remove_dirty_bits t k =
      ground (arith, unmark_bits (unmark d dirty segno) ty segno t k, unmark_bits d dirty segno t k)

  module _ (cur : ℕ → ℕ) (free : is_curseg cur segno ≡ false) where
    locate_dirty_bits :
        (t k : ℕ)
        → (locate s cur d segno dirty).dirty_segmap t k
          ≡ (if at dirty segno t k || at ty segno t k then true else d.dirty_segmap t k)
    unfolding locate
    locate_dirty_bits t k =
        rw free
          (ground (arith, mark_bits (mark d dirty segno) ty segno t k, mark_bits d dirty segno t k))

    locate-pre_bits :
        (t k : ℕ)
        → (locate s cur d segno pre).dirty_segmap t k
          ≡ (if at pre segno t k then true else d.dirty_segmap t k)
    unfolding locate
    locate-pre_bits t k = rw free (mark_bits d pre segno t k)

  module _ (g : Geometry) (inv : IsDirtyInfo g d) (h : segno < g.total_segs) where
    remove_dirty-IsDirtyInfo : IsDirtyInfo g (remove s d segno dirty)
    unfolding remove
    remove_dirty-IsDirtyInfo = record {
      counted =
          (unmark-IsDirtyInfo g (unmark d dirty segno) ty segno
            (unmark-IsDirtyInfo g d dirty segno inv h) h).counted;
    }

    locate-IsDirtyInfo : (cur : ℕ → ℕ) (t : ℕ) → IsDirtyInfo g (locate s cur d segno t)
    unfolding locate
    locate-IsDirtyInfo cur t = elim (Bool-cases (is_curseg cur segno)) [
      | inl e ↦ rw e inv
      | inr e ↦ rw e (elim (Bool-cases (t == dirty)) [
        | inl e' ↦
            rw e'
              (mark-IsDirtyInfo g (mark d t segno) ty segno (mark-IsDirtyInfo g d t segno inv h) h)
        | inr e' ↦ rw e' (mark-IsDirtyInfo g d t segno inv h)
      ])
    ]

module _ (s : SitInfo) (g : Geometry) (cur : ℕ → ℕ) (d : DirtyInfo) (segno : ℕ) where
  -- A segment that a log is writing, and the null segment, are left alone.
  locate_dirty_segment_skip :
      (segno ≡ null_segno) ⊎ (is_curseg cur segno ≡ true) → locate_dirty_segment s g cur d segno ≡ d
  unfolding locate_dirty_segment
  locate_dirty_segment_skip h = ground arith

  module _ (real : segno < null_segno) (free : is_curseg cur segno ≡ false) where
    -- `locate_dirty_segment` on a segment that no log writes to, whose type is one of the six: with no
    -- valid block it is made prefree, and it is on the dirty list, and on that of its type, exactly if
    -- it has some valid blocks and room for more. No other segment and no other list changes.
    pub locate_dirty_segment_bits :
        (t k : ℕ)
        → (s.sentries segno).type_ < dirty
        → (locate_dirty_segment s g cur d segno).dirty_segmap t k ≡ (
            if k == segno
            then if t == dirty || t == (s.sentries segno).type_
              then not ((s.sentries segno).valid_blocks == 0)
                && ltb (s.sentries segno).valid_blocks g.blocks_per_seg
              else if t == pre && (s.sentries segno).valid_blocks == 0
              then true
              else d.dirty_segmap t k
            else d.dirty_segmap t k)
    unfolding locate_dirty_segment get_valid_blocks
    locate_dirty_segment_bits t k small = ground (
      arith,
      real,
      free,
      remove_dirty_bits s (locate s cur d segno pre) segno t k,
      locate-pre_bits s d segno cur free t k,
      locate_dirty_bits s d segno cur free t k,
      remove_dirty_bits s d segno t k,
    )

  -- `locate_dirty_segment` on right counters keeps the counter of every list right, for any
  -- segment of the main area and for no segment.
  pub locate_dirty_segment-IsDirtyInfo :
      IsDirtyInfo g d
      → (segno < g.total_segs) ⊎ (segno ≡ null_segno)
      → IsDirtyInfo g (locate_dirty_segment s g cur d segno)
  unfolding locate_dirty_segment
  locate_dirty_segment-IsDirtyInfo inv (inr e) = ground arith
  locate_dirty_segment-IsDirtyInfo inv (inl h) =
      let removed = remove_dirty-IsDirtyInfo s d segno g inv h in
      let located = locate-IsDirtyInfo s d segno g inv h cur dirty in
      let prefree =
        remove_dirty-IsDirtyInfo s (locate s cur d segno pre) segno g
          (locate-IsDirtyInfo s d segno g inv h cur pre) h in
      elim (Bool-cases (segno == null_segno || is_curseg cur segno)) [
        | inl e ↦ rw e inv
        | inr e ↦ rw e (elim (Bool-cases (get_valid_blocks g s segno false == 0)) [
          | inl e' ↦ rw e' prefree
          | inr e' ↦
              rw e' (elim (Bool-cases (ltb (get_valid_blocks g s segno false) g.blocks_per_seg)) [
                | inl r ↦ rw r located
                | inr r ↦ rw r removed
              ])
        ])
      ]
