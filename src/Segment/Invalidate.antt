-- ===== src/Segment/Invalidate.antt =====
-- A block that is given up: `invalidate_blocks` of fs/f2fs/segment.c, under `sentry_lock`.
use f2fs.Base.{
  ℕ, ◌+◌, ◌<◌, ◌≡◌, true, false, ◌&&◌, Option, some, bug_on, ◌>>=◌, ◌>>◌, ◌==◌, if◌then◌else◌,
  Returns, Returns->>=, arith, inl, ◌≢◌,
}
use f2fs.Bits.Laws.{bits}
use f2fs.Segment.Geometry.{Geometry, IsLayout, get_segno, block_offset, null_addr, new_addr}
use f2fs.Segment.Sit.{minus, update_sit_entry}
use f2fs.Segment.Sit.Totals.{IsSit, IsKept, update_sit_entry-Returns}
use f2fs.Segment.Dirty.{locate_dirty_segment}
use f2fs.Segment.Dirty.Invariant.{IsDirtyInfo}
use f2fs.Segment.Dirty.Locate.{locate_dirty_segment-IsDirtyInfo}
use f2fs.Segment.Alloc.{SegmentManager, segnos_of}

pub invalidate_blocks : Geometry → ℕ → SegmentManager → ℕ → Option SegmentManager
invalidate_blocks g now m addr = do
  bug_on (addr == null_addr)
  (if addr == new_addr
      then some m
      else update_sit_entry g now m.sit addr minus >>= λ s. some (record m {
        sit = s;
        lists = locate_dirty_segment s g (segnos_of m) m.lists (get_segno g addr);
      }))

module _ (g : Geometry) (v : IsLayout g) (now : ℕ) (m : SegmentManager) (addr : ℕ)
    (inv : IsSit g m.sit) (lists : IsDirtyInfo g m.lists)
    (h : get_segno g addr < g.total_segs) where
  real : (addr ≢ null_addr) × (addr ≢ new_addr)
  unfolding get_segno
  real = (λ e. ground (arith, h, v.small), λ e. ground (arith, h, v.small))

  -- With the segment information and the list counters in step, `invalidate_blocks` on a valid
  -- block of the main area meets no `BUG_ON`: that block and no other is no longer valid, one
  -- block fewer is counted, and the counts of the segment information and of the dirty lists stay
  -- right.
  pub invalidate_blocks-Returns :
      bits (m.sit.sentries (get_segno g addr)).cur_valid_map (block_offset g addr) ≡ true
      → Returns
          (λ n.
            IsSit g n.sit
            × IsDirtyInfo g n.lists
            × (n.sit.written_valid_blocks + 1 ≡ m.sit.written_valid_blocks)
            × ((k o : ℕ)
                → bits (n.sit.sentries k).cur_valid_map o ≡ (
                    if k == get_segno g addr && o == block_offset g addr
                    then false
                    else bits (m.sit.sentries k).cur_valid_map o)))
          (invalidate_blocks g now m addr)
  unfolding invalidate_blocks
  invalidate_blocks-Returns valid =
      let not_null : (addr == null_addr) ≡ false = ground (arith, real) in
      let not_new : (addr == new_addr) ≡ false = ground (arith, real) in
      rw (not_null, not_new)
        (Returns->>= (IsKept g now m.sit addr minus v inv h) _ _ _
          (update_sit_entry-Returns g now m.sit addr minus v inv h valid)
          (λ s _ k. (
            k.0,
            locate_dirty_segment-IsDirtyInfo s g (segnos_of m) m.lists (get_segno g addr) lists
                (inl h),
            omega (arith, k.2),
            k.1,
          )))
