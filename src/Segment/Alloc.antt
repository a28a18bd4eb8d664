-- ===== src/Segment/Alloc.antt =====
-- How a log gets its next segment, and how a block is written: `check_prefree_segments`,
-- `new_curseg`, `change_curseg`, `allocate_segment_by_default`, `allocate_new_segments` and
-- `do_write_page` of fs/f2fs/segment.c, over the whole state of the segment manager.
-- The victim selection, which the code calls through `v_ops`, is the parameter `Victims`; the
-- page that is written, and its submission to the block layer, are left out. The summary blocks on
-- disk are a map from block addresses.
pub mod Prefree
pub mod Logs
pub mod Write
use f2fs.Base.{
  ℕ, zero, suc, ◌+◌, ◌-◌, ◌*◌, ◌/◌, ◌%◌, ◌^◌, ◌<◌, ◌≡◌, Bool, true, false, ◌&&◌, ◌||◌, not, leb,
  ltb, ◌==◌, if◌then◌else◌, List, [], ◌∷◌, BitSearch, Option, none, some, bug_on, ◌>>=◌, ◌>>◌,
  update, take, drop, ◌++◌,
}
use f2fs.Segment.Geometry.{Geometry, null_segno, null_addr, get_sum_block, get_segno}
use f2fs.Segment.Free.{FreeSegmap, set_test_and_inuse}
use f2fs.Segment.NewSegment.{Direction, alloc_right, alloc_left, get_new_segment}
use f2fs.Segment.Sit.{SitInfo, refresh_sit_entry}
use f2fs.Segment.Dirty.{DirtyInfo, pre, dirty, remove, locate_dirty_segment}
use f2fs.Segment.Curseg.{
  Curseg, SummaryBlock, Summary, AllocType, lfs, ssr, reset_curseg, next_free_blkoff,
  refresh_next_blkoff, has_curseg_space, next_free_blkaddr, add_sum_entry, is_nodeseg, warm_data,
  cold_data, warm_node,
}

pub record SegmentManager : Type 0 where
  pub free : FreeSegmap
  pub sit : SitInfo
  pub lists : DirtyInfo
  pub curseg : ℕ → Curseg
  pub sum_pages : ℕ → SummaryBlock
  -- `sbi->segment_count[]` and `sbi->block_count[]`
  pub segment_count : AllocType → ℕ
  pub block_count : AllocType → ℕ
  pub last_victim : ℕ → ℕ

-- `gc_info->overp_segment_count`, `gc_info->rsvd_segment_count`, and the option NOHEAP.
pub record Reserve : Type 0 where
  pub overp_segment_count : ℕ
  pub rsvd_segment_count : ℕ
  pub noheap : Bool

-- `get_victim(sbi, &next_segno, BG_GC, SET_SSR_TYPE(type))`: the segment that it chooses for a log of
-- that type, and what it leaves in `last_victim`.
pub record Victims : Type 0 where
  pub get_victim : SegmentManager → ℕ → Option ℕ × (ℕ → ℕ)

abbrev pub bump : AllocType → (AllocType → ℕ) → AllocType → ℕ
bump lfs f lfs = (f lfs + 1) % 2 ^ 32
bump lfs f ssr = f ssr
bump ssr f ssr = (f ssr + 1) % 2 ^ 32
bump ssr f lfs = f lfs

abbrev pub zones_of : (ℕ → Curseg) → List ℕ
zones_of c = (c 0).zone ∷ (c 1).zone ∷ (c 2).zone ∷ (c 3).zone ∷ (c 4).zone ∷ (c 5).zone ∷ []

abbrev pub segnos_of : SegmentManager → ℕ → ℕ
segnos_of m t = (m.curseg t).segno

module _ (search : BitSearch) (g : Geometry) (r : Reserve) where
  pub need_ssr : FreeSegmap → Bool
  need_ssr f = ltb f.free_sections (r.overp_segment_count / 2 ^ g.log_segs_per_sec)

  unfoldable pub has_not_enough_free_secs : FreeSegmap → Bool
  has_not_enough_free_secs f = leb f.free_sections (r.rsvd_segment_count / 2 ^ g.log_segs_per_sec)

  -- The loop at `next:` from `ofs`; each round starts behind the last hit. The innermost loop of the
  -- code tests the same segment in every round.
  unfoldable pub prefree_from : ℕ → SitInfo → DirtyInfo → ℕ → ℕ → ℕ
  prefree_from zero s d log_ofs_unit ofs = null_segno
  prefree_from (suc fuel) s d log_ofs_unit ofs =
      let map = d.dirty_segmap pre in
      let unit = 2 ^ log_ofs_unit in
      let segno = search.find_next_bit map g.total_segs ofs in
      let next_segno = search.find_next_zero_bit map g.total_segs (segno + 1) in
      let rest = prefree_from fuel s d log_ofs_unit (segno / unit * unit + unit) in
      if leb g.total_segs segno
      then null_segno
      else if not (segno % unit == 0)
          || ltb (next_segno - segno) unit
          || not ((s.sentries segno).ckpt_valid_blocks == 0)
      then rest
      else segno

  unfoldable pub check_prefree_segments : SegmentManager → ℕ → ℕ → ℕ
  unfolding prefree_from
  check_prefree_segments m log_ofs_unit ty =
      if has_not_enough_free_secs m.free || is_nodeseg ty
      then null_segno
      else prefree_from (g.total_segs + 1) m.sit m.lists log_ofs_unit 0

  -- `write_sum_page(sbi, curseg->sum_blk, GET_SUM_BLOCK(sbi, curseg->segno))`
  pub write_sum_page : SegmentManager → ℕ → SegmentManager
  write_sum_page m ty = record m {
    sum_pages = update m.sum_pages (get_sum_block g (m.curseg ty).segno) (m.curseg ty).sum_blk;
  }

  -- `reset_curseg(sbi, type, 1)` behind `curseg->next_segno = segno`, then `alloc_type`.
  pub reset_log : SegmentManager → ℕ → ℕ → AllocType → SegmentManager
  reset_log m ty segno a =
      let (c, s) = reset_curseg g m.sit (record (m.curseg ty) { next_segno = segno }) ty true in
      record m { sit = s; curseg = update m.curseg ty (record c { alloc_type = a }) }

  abbrev pub direction : ℕ → Direction
  direction ty = if ty == warm_data || ty == cold_data || r.noheap then alloc_right else alloc_left

  pub new_curseg : SegmentManager → ℕ → Bool → Option SegmentManager
  new_curseg m ty new_sec =
      let m' = write_sum_page m ty in
      do
        (segno, f) ←
            get_new_segment search g m.free (m.curseg ty).segno new_sec (direction ty)
              (zones_of m.curseg)
        some (reset_log (record m' { free = f }) ty segno lfs)

  -- `memcpy(curseg->sum_blk, sum_node, SUM_ENTRY_SIZE)`: the 512 entries.
  abbrev reload : SummaryBlock → SummaryBlock → SummaryBlock
  reload b page = record b { entries = take 512 page.entries ++ drop 512 b.entries }

  pub change_curseg : SegmentManager → ℕ → ℕ → Bool → SegmentManager
  change_curseg m ty new_segno reuse =
      let m1 = write_sum_page m ty in
      let d = remove m.sit m.lists new_segno pre in
      let m2 = record m1 {
        free = set_test_and_inuse g m.free new_segno;
        lists = remove m.sit d new_segno dirty;
      } in
      let m3 = reset_log m2 ty new_segno ssr in
      let c = next_free_blkoff g m3.sit (m3.curseg ty) 0 in
      let page = m3.sum_pages (get_sum_block g new_segno) in
      record m3 {
        curseg =
            update m3.curseg ty (if reuse then record c { sum_blk = reload c.sum_blk page } else c);
      }

  -- `sbi->segment_count[curseg->alloc_type]++`
  pub count_segment : SegmentManager → ℕ → SegmentManager
  count_segment m ty = record m { segment_count = bump (m.curseg ty).alloc_type m.segment_count }

  module _ (ops : Victims) where
    -- Without a prefree segment: a new segment, or a victim under SSR.
    pub without_prefree : SegmentManager → ℕ → Option SegmentManager
    without_prefree m ty =
        let (victim, last) = ops.get_victim m ty in
        let m' = record m { last_victim = last } in
        if ty == warm_node || not (need_ssr m.free) then new_curseg m ty false else elim victim [
          | some segno ↦ some (change_curseg m' ty segno true)
          | none ↦ new_curseg m' ty false
        ]

    pub allocate_segment_by_default : SegmentManager → ℕ → Bool → Option SegmentManager
    allocate_segment_by_default m ty force =
        let log_ofs_unit = if need_ssr m.free then 0 else g.log_segs_per_sec in
        let segno = check_prefree_segments m log_ofs_unit ty in
        let m' = record m {
          curseg = update m.curseg ty (record (m.curseg ty) { next_segno = segno });
        } in
        (if force
          then new_curseg m ty true
          else if segno == null_segno
          then without_prefree m' ty
          else some (change_curseg m' ty segno false))
        >>= λ (n : SegmentManager). some (count_segment n ty)

    -- One round of `allocate_new_segments`.
    pub replace_log : SegmentManager → ℕ → Option SegmentManager
    replace_log m ty = do
      n ← allocate_segment_by_default m ty true
      some (record n {
        lists = locate_dirty_segment n.sit g (segnos_of n) n.lists (m.curseg ty).segno;
      })

    pub allocate_new_segments : SegmentManager → Option SegmentManager
    allocate_new_segments m = do a ← replace_log m 0; b ← replace_log a 1; replace_log b 2

    -- `do_write_page` for a log of type `ty`: the state, and the address that the block gets.
    pub do_write_page : ℕ → SegmentManager → ℕ → ℕ → Summary → Option (SegmentManager × ℕ)
    do_write_page now m ty old_blkaddr sum =
        let c = m.curseg ty in
        let new_blkaddr = next_free_blkaddr g c in
        let c' = refresh_next_blkoff g m.sit (add_sum_entry c sum c.next_blkoff) in
        do
          s ← refresh_sit_entry g now m.sit old_blkaddr new_blkaddr
          let m1 = record m {
            sit = s;
            curseg = update m.curseg ty c';
            block_count = bump c.alloc_type m.block_count;
          }
          m2 ← (if has_curseg_space g c' then some m1 else allocate_segment_by_default m1 ty false)
          let d = locate_dirty_segment m2.sit g (segnos_of m2) m2.lists c.segno
          let d' = locate_dirty_segment m2.sit g (segnos_of m2) d (get_segno g old_blkaddr)
          some (record m2 { lists = d' }, new_blkaddr)
