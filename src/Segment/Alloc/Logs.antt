-- ===== src/Segment/Alloc/Logs.antt =====
-- A log that `new_curseg` moves to a new segment.
use f2fs.Base.{ℕ, ◌<◌, ◌≡◌, ◌≢◌, Bool, true, false, arith, update, Returns, Returns->>=, BitSearch}
use f2fs.Segment.Geometry.{Geometry, IsLayout, get_sum_block}
use f2fs.Segment.Free.{FreeSegmap}
use f2fs.Segment.Free.Invariant.{IsFreeSegmap}
use f2fs.Segment.NewSegment.Laws.{get_new_segment-IsNewSegment}
use f2fs.Segment.Sit.Totals.{IsSit}
use f2fs.Segment.Sit.Types.{set_sit_entry_type-IsSit}
use f2fs.Segment.Curseg.{lfs, reset_curseg}
use f2fs.Segment.Alloc.{
  SegmentManager, Reserve, write_sum_page, reset_log, direction, zones_of, new_curseg,
}

-- What log `ty` is once it has been moved to a new segment.
pub record IsMoved (g : Geometry) (m : SegmentManager) (ty : ℕ) (n : SegmentManager) : Type 0 where
  pub in_main : (n.curseg ty).segno < g.total_segs
  pub was_free : m.free.free_segmap (n.curseg ty).segno ≡ false
  pub in_use : n.free.free_segmap (n.curseg ty).segno ≡ true
  pub at_start : (n.curseg ty).next_blkoff ≡ 0
  pub in_sequence : (n.curseg ty).alloc_type ≡ lfs
  pub others : (t : ℕ) → t ≢ ty → n.curseg t ≡ m.curseg t
  pub free : IsFreeSegmap g n.free
  pub sit : IsSit g n.sit
  pub summary : n.sum_pages (get_sum_block g (m.curseg ty).segno) ≡ (m.curseg ty).sum_blk

module _ (search : BitSearch) (g : Geometry) (r : Reserve) (v : IsLayout g) (m : SegmentManager)
    (ty : ℕ) where
  reset-IsMoved :
      (s : ℕ × FreeSegmap)
      → IsSit g m.sit
      → s.0 < g.total_segs
      → m.free.free_segmap s.0 ≡ false
      → IsFreeSegmap g s.1
      → s.1.free_segmap s.0 ≡ true
      → IsMoved g m ty
          (reset_log search g r (record (write_sum_page search g r m ty) { free = s.1 }) ty s.0 lfs)
  unfolding reset_log write_sum_page reset_curseg
  reset-IsMoved s inv low free fs used =
      let sit = set_sit_entry_type-IsSit g v m.sit ty s.0 low inv true in
      record {
        in_main = ground arith;
        was_free = ground arith;
        in_use = ground arith;
        at_start = ground arith;
        in_sequence = ground arith;
        others = λ t ne. ground arith;
        free = fs;
        sit = sit;
        summary = ground arith;
      }

  -- With any section free, the free maps and the segment information in step and the log in the
  -- main area, `new_curseg` meets no `BUG_ON`. The log goes to the first block of a segment of the
  -- main area that was free and is now in use, to be written in sequence, and the summary of its
  -- old segment is written; the other logs stay where they are, and the free maps and the segment
  -- information keep their counts.
  pub new_curseg-IsMoved :
      (new_sec : Bool)
      → IsFreeSegmap g m.free
      → IsSit g m.sit
      → (m.curseg ty).segno < g.total_segs
      → 0 < m.free.free_sections
      → Returns (IsMoved g m ty) (new_curseg search g r m ty new_sec)
  unfolding new_curseg
  new_curseg-IsMoved new_sec inv sit here pos =
      Returns->>= _ _ _ _
        (get_new_segment-IsNewSegment search g m.free (m.curseg ty).segno new_sec
          (direction search g r ty) (zones_of m.curseg) v inv here pos)
        (λ s _
            (k : (s.0 < g.total_segs)
              × (m.free.free_segmap s.0 ≡ false)
              × IsFreeSegmap g s.1
              × ((j : ℕ) → s.1.free_segmap j ≡ update m.free.free_segmap s.0 true j)).
          reset-IsMoved s sit k.0 k.1 k.2 (ground (arith, k.3 s.0)))
