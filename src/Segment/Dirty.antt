-- ===== src/Segment/Dirty.antt =====
-- The lists of dirty segments: `dirty_seglist_info` of fs/f2fs/segment.h and the functions of
-- fs/f2fs/segment.c that keep it, each one step under `seglist_lock`. `cur` gives the segment of
-- each of the six logs. The counters are `int`s that count set bits, and are taken one down only
-- where a bit was set. What the block layer is asked to discard is returned.
pub mod Invariant
pub mod Locate
pub mod Prefree
use f2fs.Base.{
  ℕ, zero, suc, ◌+◌, ◌-◌, ◌*◌, ◌/◌, ◌^◌, Bool, true, false, ◌||◌, Bitmap, set_bit, clear_bit,
  update, leb, ltb, ◌==◌, if◌then◌else◌, BitSearch, List, [], ◌∷◌,
}
use f2fs.Segment.Geometry.{Geometry, start_block, null_segno}
use f2fs.Segment.Free.{FreeSegmap, set_test_and_free}
use f2fs.Segment.Sit.{SitInfo, get_valid_blocks}

-- `enum dirty_type`: 0 to 5 are the types of the logs.
abbrev pub dirty : ℕ
dirty = 6

abbrev pub pre : ℕ
pre = 7

pub record DirtyInfo : Type 0 where
  pub dirty_segmap : ℕ → Bitmap
  pub nr_dirty : ℕ → ℕ
  pub victim_bg : Bitmap
  pub victim_fg : Bitmap

-- `IS_CURSEG`
unfoldable pub is_curseg : (ℕ → ℕ) → ℕ → Bool
is_curseg cur segno =
    segno == cur 0
    || segno == cur 1
    || segno == cur 2
    || segno == cur 3
    || segno == cur 4
    || segno == cur 5

-- `if (!test_and_set_bit(..)) nr_dirty[..]++`
pub mark : DirtyInfo → ℕ → ℕ → DirtyInfo
mark d t segno = if d.dirty_segmap t segno then d else record d {
  dirty_segmap = update d.dirty_segmap t (set_bit segno (d.dirty_segmap t));
  nr_dirty = update d.nr_dirty t (d.nr_dirty t + 1);
}

-- `if (test_and_clear_bit(..)) nr_dirty[..]--`
pub unmark : DirtyInfo → ℕ → ℕ → DirtyInfo
unmark d t segno =
    if d.dirty_segmap t segno
    then record d {
      dirty_segmap = update d.dirty_segmap t (clear_bit segno (d.dirty_segmap t));
      nr_dirty = update d.nr_dirty t (d.nr_dirty t - 1);
    }
    else d

module _ (s : SitInfo) where
  -- `__locate_dirty_segment`
  unfoldable pub locate : (ℕ → ℕ) → DirtyInfo → ℕ → ℕ → DirtyInfo
  locate cur d segno t =
      if is_curseg cur segno
      then d
      else if t == dirty
      then mark (mark d t segno) (s.sentries segno).type_ segno
      else mark d t segno

  forget_victim : DirtyInfo → ℕ → DirtyInfo
  forget_victim d segno = record d {
    victim_fg = clear_bit segno d.victim_fg;
    victim_bg = clear_bit segno d.victim_bg;
  }

  -- `__remove_dirty_segment`
  pub remove : DirtyInfo → ℕ → ℕ → DirtyInfo
  unfolding forget_victim
  remove d segno t =
      if t == dirty
      then forget_victim (unmark (unmark d t segno) (s.sentries segno).type_ segno) segno
      else unmark d t segno

  pub locate_dirty_segment : Geometry → (ℕ → ℕ) → DirtyInfo → ℕ → DirtyInfo
  locate_dirty_segment g cur d segno =
      let valid_blocks = get_valid_blocks g s segno false in
      if segno == null_segno || is_curseg cur segno
      then d
      else if valid_blocks == 0
      then remove (locate cur d segno pre) segno dirty
      else if ltb valid_blocks g.blocks_per_seg
      then locate cur d segno dirty
      else remove d segno dirty

module _ (search : BitSearch) (g : Geometry) where
  open search use {find_next_bit}

  -- The loop of `set_prefree_as_free_segments`; each round starts behind the last hit, so
  -- `total_segs` rounds are enough (`Prefree`).
  free_from : ℕ → Bitmap → ℕ → FreeSegmap → FreeSegmap
  free_from zero m offset f = f
  free_from (suc fuel) m offset f =
      let segno = find_next_bit m g.total_segs offset in
      let rest = free_from fuel m (segno + 1) (set_test_and_free search g f segno) in
      if leb g.total_segs segno then f else rest

  pub set_prefree_as_free_segments : DirtyInfo → FreeSegmap → FreeSegmap
  unfolding free_from
  set_prefree_as_free_segments d f = free_from (g.total_segs + 1) (d.dirty_segmap pre) 0 f

  -- The loop of `clear_prefree_segments`, with the first blocks of the segments it discards.
  clear_from : ℕ → Bool → ℕ → DirtyInfo → DirtyInfo × List ℕ
  clear_from zero discard offset d = (d, [])
  clear_from (suc fuel) discard offset d =
      let segno = find_next_bit (d.dirty_segmap pre) g.total_segs offset in
      let rest = clear_from fuel discard (segno + 1) (unmark d pre segno) in
      if leb g.total_segs segno
      then (d, [])
      else if discard
      then (rest.0, start_block g segno ∷ rest.1)
      else rest

  pub clear_prefree_segments : Bool → DirtyInfo → DirtyInfo × List ℕ
  unfolding clear_from
  clear_prefree_segments discard d = clear_from (g.total_segs + 1) discard 0 d
