-- ===== src/Segment/Build.antt =====
-- The maps at mount: `build_free_segmap`, `init_free_segmap`, `init_dirty_segmap`,
-- `init_victim_segmap` and `build_dirty_segmap` of fs/f2fs/segment.c, where the kernel has memory.
-- `cur` gives the segment of each of the six logs.
pub mod Maps
pub mod Lists
mod Tests
use f2fs.Base.{ℕ, zero, suc, ◌+◌, Bool, true, false, ◌||◌, leb, ◌==◌, if◌then◌else◌, BitSearch}
use f2fs.Segment.Geometry.{Geometry}
use f2fs.Segment.Free.{FreeSegmap, set_free, set_test_and_inuse, find_next_inuse}
use f2fs.Segment.Sit.{SitInfo, get_valid_blocks}
use f2fs.Segment.Dirty.{DirtyInfo, dirty, locate}

-- `memset(.., 0xff, ..)`: all segments are in use for now.
pub build_free_segmap : FreeSegmap
build_free_segmap = record {
  free_segments = 0;
  free_sections = 0;
  free_segmap = λ k. true;
  free_secmap = λ k. true;
}

module _ (search : BitSearch) (g : Geometry) (s : SitInfo) where
  -- The first loop of `init_free_segmap`, over the segments below `n`.
  unfoldable pub free_below : ℕ → FreeSegmap → FreeSegmap
  free_below zero f = f
  free_below (suc n) f =
      let f' = free_below n f in
      if (s.sentries n).valid_blocks == 0 then set_free search g f' n else f'

  unfoldable pub init_free_segmap : (ℕ → ℕ) → FreeSegmap → FreeSegmap
  unfolding free_below
  init_free_segmap cur f =
      let inuse = set_test_and_inuse g in
      let f' = free_below g.total_segs f in
      inuse (inuse (inuse (inuse (inuse (inuse f' (cur 0)) (cur 1)) (cur 2)) (cur 3)) (cur 4))
        (cur 5)

  -- The loop of `init_dirty_segmap`; each round starts behind the last hit.
  unfoldable pub dirty_from : (ℕ → ℕ) → FreeSegmap → ℕ → ℕ → DirtyInfo → DirtyInfo
  dirty_from cur f zero offset d = d
  dirty_from cur f (suc fuel) offset d =
      let segno = find_next_inuse search g f g.total_segs offset in
      let valid_blocks = get_valid_blocks g s segno false in
      let d' =
        if leb g.blocks_per_seg valid_blocks || valid_blocks == 0
        then d
        else locate s cur d segno dirty in
      let rest = dirty_from cur f fuel (segno + 1) d' in if leb g.total_segs segno then d else rest

  unfoldable pub init_dirty_segmap : (ℕ → ℕ) → FreeSegmap → DirtyInfo → DirtyInfo
  unfolding dirty_from
  init_dirty_segmap cur f d = dirty_from cur f (g.total_segs + 1) 0 d

  -- `kzalloc` clears the maps; `init_victim_segmap` comes last.
  unfoldable pub build_dirty_segmap : (ℕ → ℕ) → FreeSegmap → DirtyInfo
  unfolding init_dirty_segmap
  build_dirty_segmap cur f =
      let d = init_dirty_segmap cur f (record {
        dirty_segmap = λ t k. false;
        nr_dirty = λ t. 0;
        victim_bg = λ k. false;
        victim_fg = λ k. false;
      }) in
      record d { victim_bg = λ k. false; victim_fg = λ k. false }
