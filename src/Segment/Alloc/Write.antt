-- ===== src/Segment/Alloc/Write.antt =====
-- A block that `do_write_page` writes while its log has room.
use f2fs.Base.{
  ℕ, ◌+◌, ◌<◌, ◌≡◌, true, false, arith, Returns, Returns->>=, Returns-map, refl, ap, ◌∙◌, BitSearch,
  if◌then◌else◌, ◌==◌, ◌&&◌, ◌⊎◌, inl, inr,
}
use f2fs.Bits.Laws.{bits}
use f2fs.Segment.Geometry.{Geometry, IsLayout, start_block, get_segno, block_offset, null_segno}
use f2fs.Segment.Geometry.Laws.{get_segno-start_block, block_offset-start_block, start_block-lt}
use f2fs.Segment.Sit.{SitInfo, refresh_sit_entry}
use f2fs.Segment.Sit.Totals.{IsSit, refresh_sit_entry-new, refresh_sit_entry-moved}
use f2fs.Segment.Dirty.Invariant.{IsDirtyInfo}
use f2fs.Segment.Dirty.Locate.{locate_dirty_segment-IsDirtyInfo}
use f2fs.Segment.Curseg.{
  Curseg, Summary, add_sum_entry, refresh_next_blkoff, has_curseg_space, next_free_blkaddr,
}
use f2fs.Segment.Alloc.{SegmentManager, Reserve, Victims, do_write_page}

-- The log points at a block of the main area that holds no valid data.
pub record IsOpen (g : Geometry) (s : SitInfo) (c : Curseg) : Type 0 where
  pub in_main : c.segno < g.total_segs
  pub in_segment : c.next_blkoff < g.blocks_per_seg
  pub unused : bits (s.sentries c.segno).cur_valid_map c.next_blkoff ≡ false

-- The log once the block is in it.
abbrev pub written_log : Geometry → SegmentManager → ℕ → Summary → Curseg
written_log g m ty sum =
    refresh_next_blkoff g m.sit (add_sum_entry (m.curseg ty) sum (m.curseg ty).next_blkoff)

module _ (search : BitSearch) (g : Geometry) (r : Reserve) (ops : Victims) (v : IsLayout g)
    (now : ℕ) (m : SegmentManager) (ty old_blkaddr : ℕ) (sum : Summary) (inv : IsSit g m.sit)
    (lists : IsDirtyInfo g m.lists) (o : IsOpen g m.sit (m.curseg ty))
    (room : has_curseg_space g (written_log g m ty sum) ≡ true) where
  new_blkaddr : ℕ
  new_blkaddr = next_free_blkaddr g (m.curseg ty)

  address : new_blkaddr ≡ start_block g (m.curseg ty).segno + (m.curseg ty).next_blkoff
  unfolding new_blkaddr next_free_blkaddr
  address = omega (
    arith,
    start_block-lt g (m.curseg ty).segno (m.curseg ty).next_blkoff v o.in_main o.in_segment,
  )

  new_segno : get_segno g new_blkaddr ≡ (m.curseg ty).segno
  new_segno =
      ap (get_segno g) address
      ∙ get_segno-start_block g (m.curseg ty).segno (m.curseg ty).next_blkoff v o.in_main
          o.in_segment

  new_offset : block_offset g new_blkaddr ≡ (m.curseg ty).next_blkoff
  new_offset =
      ap (block_offset g) address
      ∙ block_offset-start_block g (m.curseg ty).segno (m.curseg ty).next_blkoff v o.in_main
          o.in_segment

  low : get_segno g new_blkaddr < g.total_segs
  low = omega (arith, new_segno, o.in_main)

  free :
      bits (m.sit.sentries (get_segno g new_blkaddr)).cur_valid_map (block_offset g new_blkaddr)
      ≡ false
  free = rw (new_segno, new_offset) o.unused

  -- From the segment information on, whatever is known of it.
  after :
      (P : SitInfo → Type 0)
      → ((get_segno g old_blkaddr < g.total_segs) ⊎ (get_segno g old_blkaddr ≡ null_segno))
      → Returns P (refresh_sit_entry g now m.sit old_blkaddr new_blkaddr)
      → Returns
          (λ w. P w.0.sit × IsDirtyInfo g w.0.lists × (w.1 ≡ new_blkaddr))
          (do_write_page search g r ops now m ty old_blkaddr sum)
  unfolding do_write_page new_blkaddr
  after P old h = rw room (
      Returns->>= P _ _ _ h (λ s _ p.
        let d = locate_dirty_segment-IsDirtyInfo _ _ _ _ _ lists (inl o.in_main) in
        (p, locate_dirty_segment-IsDirtyInfo _ _ _ _ _ d old, refl)))

  abbrev IsRewritten : SitInfo → Type 0
  IsRewritten s =
      (k p : ℕ)
      → bits (s.sentries k).cur_valid_map p ≡ (
          if k == get_segno g old_blkaddr && p == block_offset g old_blkaddr
          then false
          else if k == (m.curseg ty).segno && p == (m.curseg ty).next_blkoff
          then true
          else bits (m.sit.sentries k).cur_valid_map p)

  -- With the segment information and the list counters in step, where the log's next block is not
  -- valid and the log still has room behind it, `do_write_page` writes a block that is new to the
  -- file without a `BUG_ON`, to the log's next block. Every count stays right, and one block more
  -- is valid.
  pub do_write_page-new :
      get_segno g old_blkaddr ≡ null_segno
      → Returns
          (λ w.
            (get_segno g w.1 ≡ (m.curseg ty).segno)
            × (block_offset g w.1 ≡ (m.curseg ty).next_blkoff)
            × IsSit g w.0.sit
            × IsDirtyInfo g w.0.lists
            × (w.0.sit.written_valid_blocks ≡ m.sit.written_valid_blocks + 1))
          (do_write_page search g r ops now m ty old_blkaddr sum)
  do_write_page-new e =
      Returns-map _ _ _
        (λ w
            (k : (IsSit g w.0.sit × (w.0.sit.written_valid_blocks ≡ m.sit.written_valid_blocks + 1))
              × IsDirtyInfo g w.0.lists
              × (w.1 ≡ new_blkaddr)).
          (
            ap (get_segno g) k.2 ∙ new_segno,
            ap (block_offset g) k.2 ∙ new_offset,
            k.0.0,
            k.1,
            k.0.1,
          ))
        (after _ (inr e)
          (refresh_sit_entry-new g now m.sit old_blkaddr new_blkaddr v inv low free e))

  -- With the segment information and the list counters in step, where the log's next block is not
  -- valid and the log still has room behind it, `do_write_page` on a valid block of the main area
  -- meets no `BUG_ON` and gives it the log's next block: the old place is no longer valid, the new
  -- one is, no other bit of any map changes, and every count stays right.
  pub do_write_page-moved :
      get_segno g old_blkaddr < g.total_segs
      → bits (m.sit.sentries (get_segno g old_blkaddr)).cur_valid_map (block_offset g old_blkaddr)
        ≡ true
      → Returns
          (λ w.
            (get_segno g w.1 ≡ (m.curseg ty).segno)
            × (block_offset g w.1 ≡ (m.curseg ty).next_blkoff)
            × IsSit g w.0.sit
            × IsDirtyInfo g w.0.lists
            × (w.0.sit.written_valid_blocks ≡ m.sit.written_valid_blocks)
            × ((k p : ℕ)
                → bits (w.0.sit.sentries k).cur_valid_map p ≡ (
                    if k == get_segno g old_blkaddr && p == block_offset g old_blkaddr
                    then false
                    else if k == (m.curseg ty).segno && p == (m.curseg ty).next_blkoff
                    then true
                    else bits (m.sit.sentries k).cur_valid_map p)))
          (do_write_page search g r ops now m ty old_blkaddr sum)
  do_write_page-moved h e =
      Returns-map _ _ _
        (λ w
            (k : (IsSit g w.0.sit
                × (w.0.sit.written_valid_blocks ≡ m.sit.written_valid_blocks)
                × IsRewritten w.0.sit)
              × IsDirtyInfo g w.0.lists
              × (w.1 ≡ new_blkaddr)).
          (
            ap (get_segno g) k.2 ∙ new_segno,
            ap (block_offset g) k.2 ∙ new_offset,
            k.0.0,
            k.1,
            k.0.1,
            k.0.2,
          ))
        (after
          (λ s. IsSit g s × (s.written_valid_blocks ≡ m.sit.written_valid_blocks) × IsRewritten s)
          (inl h)
          (rw (new_segno, new_offset) at
            (refresh_sit_entry-moved g now m.sit old_blkaddr new_blkaddr v inv low free h e)))
