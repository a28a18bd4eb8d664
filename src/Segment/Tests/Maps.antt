-- ===== src/Segment/Tests/Maps.antt =====
-- The free maps, the dirty lists and the choice of a segment, on the small volume.
use f2fs.Base.{
  ℕ, ◌<◌, ◌≡◌, refl, true, false, not, ◌&&◌, ◌||◌, ltb, ◌==◌, if◌then◌else◌, update, arith, Returns,
  linear_search,
}
use f2fs.Segment.Free.Invariant.{IsFreeSegmap}
use f2fs.Segment.NewSegment.{alloc_left, get_new_segment}
use f2fs.Segment.NewSegment.Laws.{get_new_segment-IsNewSegment}
use f2fs.Segment.Dirty.{
  dirty, pre, is_curseg, locate_dirty_segment, set_prefree_as_free_segments, clear_prefree_segments,
}
use f2fs.Segment.Dirty.Invariant.{IsDirtyInfo}
use f2fs.Segment.Dirty.Locate.{locate_dirty_segment_bits}
use f2fs.Segment.Dirty.Prefree.{
  set_prefree_as_free_segments-IsFreeSegmap, clear_prefree_segments-IsCleared,
}
use f2fs.Segment.Alloc.{segnos_of, zones_of}
use f2fs.Segment.Example.{
  volume, volume-IsLayout, free_maps, free_maps-IsFreeSegmap, sit, lists, lists-IsDirtyInfo,
  manager,
}

-- To the left of segment 1 nothing is free, and zone 0 holds the logs.
get_new_segment-IsNewSegment_example :
    Returns
      (λ r.
        (r.0 < 16)
        × (free_maps.free_segmap r.0 ≡ false)
        × IsFreeSegmap volume r.1
        × ((k : ℕ) → r.1.free_segmap k ≡ update free_maps.free_segmap r.0 true k))
      (get_new_segment linear_search volume free_maps 1 true alloc_left (zones_of manager.curseg))
get_new_segment-IsNewSegment_example =
    get_new_segment-IsNewSegment linear_search volume free_maps 1 true alloc_left
      (zones_of manager.curseg) volume-IsLayout free_maps-IsFreeSegmap (omega arith) (omega arith)

-- Segment 0 has one valid block of eight.
locate_dirty_segment_bits_example :
    (locate_dirty_segment sit volume (segnos_of manager) lists 0).dirty_segmap dirty 0 ≡ (
      if 0 == 0
      then if dirty == dirty || dirty == 1
        then not (1 == 0) && ltb 1 8
        else if dirty == pre && 1 == 0
        then true
        else lists.dirty_segmap dirty 0
      else lists.dirty_segmap dirty 0)
unfolding is_curseg
locate_dirty_segment_bits_example =
    locate_dirty_segment_bits sit volume (segnos_of manager) lists 0 (omega arith) refl dirty 0
      (omega arith)

set_prefree_as_free_segments-IsFreeSegmap_example :
    IsFreeSegmap volume (set_prefree_as_free_segments linear_search volume lists free_maps)
    × ((k : ℕ)
        → k < 16
        → (set_prefree_as_free_segments linear_search volume lists free_maps).free_segmap k
          ≡ (if lists.dirty_segmap pre k then false else free_maps.free_segmap k))
set_prefree_as_free_segments-IsFreeSegmap_example =
    set_prefree_as_free_segments-IsFreeSegmap linear_search volume lists free_maps volume-IsLayout
      free_maps-IsFreeSegmap

clear_prefree_segments-IsCleared_example :
    IsDirtyInfo volume (clear_prefree_segments linear_search volume true lists).0
    × ((clear_prefree_segments linear_search volume true lists).0.nr_dirty pre ≡ 0)
    × ((t k : ℕ)
        → k < 16
        → (clear_prefree_segments linear_search volume true lists).0.dirty_segmap t k
          ≡ (if t == pre then false else lists.dirty_segmap t k))
clear_prefree_segments-IsCleared_example =
    clear_prefree_segments-IsCleared linear_search volume lists true lists-IsDirtyInfo
