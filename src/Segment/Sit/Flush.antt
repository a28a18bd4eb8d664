-- ===== src/Segment/Sit/Flush.antt =====
-- The segment information at a checkpoint: `get_next_sit_page`, `flush_sits_in_journal` and
-- `flush_sit_entries` of fs/f2fs/segment.c, with `SIT_ENTRY_OFFSET` and `START_SEGNO` of
-- fs/f2fs/segment.h. The SIT blocks are a map from block addresses to arrays of raw entries, as the
-- page cache holds them; `sum_blk` of the log of cold data is the journal. Both locks are held
-- throughout. `dirty_pages` has the pages of these blocks that are dirty, by the block's address.
pub mod Area
pub mod Page
pub mod Open
pub mod Round
pub mod Loop
pub mod Mark
pub mod Checkpoint
mod Tests
use f2fs.Base.{
  ℕ, zero, suc, ◌+◌, ◌-◌, ◌*◌, ◌/◌, ◌%◌, ◌^◌, Bool, true, false, ◌||◌, clear_bit, update, BitSearch,
  sub32, leb, ltb, ◌==◌, if◌then◌else◌, Option, none, some, bug_on, ◌>>=◌, ◌>>◌,
}
use f2fs.Journal.{Journal, sit_journal_entries, shorten, lookup_journal_in_cursum, write_entry}
use f2fs.Segment.Geometry.{Geometry}
use f2fs.Segment.Free.{FreeSegmap}
use f2fs.Segment.Dirty.{DirtyInfo, set_prefree_as_free_segments}
use f2fs.Segment.Sit.{
  SegEntry, SitEntry, SitInfo, seg_info_to_raw_sit, mark_sit_entry_dirty, sit_entry_per_block,
  sit_block_offset, current_sit_addr, next_sit_addr, set_to_next_sit,
}

abbrev pub sit_entry_offset : ℕ → ℕ
sit_entry_offset segno = segno % sit_entry_per_block

abbrev pub start_segno_of : ℕ → ℕ
start_segno_of segno = sit_block_offset segno * sit_entry_per_block

-- `page`, `start` and `end` are the variables of `flush_sit_entries`.
pub record SitFlush : Type 0 where
  pub sit : SitInfo
  pub journal : Journal SitEntry
  pub sit_pages : ℕ → ℕ → SitEntry
  pub dirty_pages : ℕ → Bool
  pub page : Option ℕ
  pub start : ℕ
  pub end_ : ℕ

-- The copy of the block that is not current, made current and dirty.
unfoldable pub get_next_sit_page : ℕ → SitFlush → ℕ → Option (ℕ × SitFlush)
get_next_sit_page end_segno m start = do
  src_off ← current_sit_addr end_segno m.sit start
  let dst_off = next_sit_addr m.sit src_off
  bug_on (m.dirty_pages src_off)
  some (
    dst_off,
    record m {
      sit_pages = update m.sit_pages dst_off (m.sit_pages src_off);
      dirty_pages = update m.dirty_pages dst_off true;
      sit = set_to_next_sit m.sit start;
    },
  )

-- The loop from the entry before `i` down to the first.
unfoldable pub mark_journal : Journal SitEntry → ℕ → SitInfo → SitInfo
mark_journal j zero s = s
mark_journal j (suc i) s = mark_journal j i (mark_sit_entry_dirty s (j.keys i))

unfoldable pub flush_sits_in_journal : SitFlush → Bool × SitFlush
unfolding mark_journal
flush_sits_in_journal m =
    if leb sit_journal_entries (m.journal).n
    then (
      true,
      record m {
        sit = mark_journal m.journal (m.journal).n m.sit;
        journal = shorten m.journal (m.journal).n;
      },
    )
    else (false, m)

-- `page = get_next_sit_page(sbi, start)`
unfoldable pub fresh_page : ℕ → SitFlush → ℕ → Option (ℕ × SitFlush)
fresh_page end_segno m segno = do
  (page, m') ← get_next_sit_page end_segno m (start_segno_of segno)
  some (
    page,
    record m' {
      page = some page;
      start = start_segno_of segno;
      end_ = start_segno_of segno + sit_entry_per_block - 1;
    },
  )

-- The page that holds the entry, given the one that is open.
unfoldable pub open_page : ℕ → SitFlush → ℕ → Option ℕ → Option (ℕ × SitFlush)
open_page end_segno m segno none = fresh_page end_segno m segno
open_page end_segno m segno (some page) =
    if ltb segno m.start || ltb m.end_ segno then fresh_page end_segno m segno else some (page, m)

-- `to_sit_page:`
unfoldable pub to_sit_page : ℕ → SitFlush → ℕ → SitEntry → Option SitFlush
unfolding open_page
to_sit_page end_segno m segno raw = do
  (page, m') ← open_page end_segno m segno m.page
  some (record m' {
    sit_pages = update m'.sit_pages page (update (m'.sit_pages page) (sit_entry_offset segno) raw);
  })

-- Where one entry goes.
unfoldable pub write_raw_sit : ℕ → Bool → SitFlush → ℕ → SitEntry → Option SitFlush
unfolding to_sit_page
write_raw_sit end_segno flushed m segno raw =
    let (offset, j) = lookup_journal_in_cursum sit_journal_entries m.journal segno true in
    if flushed then to_sit_page end_segno m segno raw else elim offset [
      | some i ↦ some (record m { journal = write_entry j i segno raw })
      | none ↦ to_sit_page end_segno m segno raw
    ]

-- `flush_done:`, with the entry as `seg_info_to_raw_sit` leaves it.
unfoldable pub flush_done : SitFlush → ℕ → SegEntry → SitFlush
flush_done m segno se = record m {
  sit = record (m.sit) {
    sentries = update (m.sit).sentries segno se;
    dirty_sentries_bitmap = clear_bit segno (m.sit).dirty_sentries_bitmap;
    dirty_sentries = sub32 (m.sit).dirty_sentries 1;
  };
}

unfoldable pub flush_sit_entry : ℕ → Bool → SitFlush → ℕ → Option SitFlush
unfolding write_raw_sit flush_done
flush_sit_entry end_segno flushed m segno =
    let (raw, se) = seg_info_to_raw_sit ((m.sit).sentries segno) in
    do m' ← write_raw_sit end_segno flushed m segno raw; some (flush_done m' segno se)

module _ (search : BitSearch) (g : Geometry) (end_segno : ℕ) (flushed : Bool) where
  -- The loop, with the search from `from` on; each round goes on behind the last hit.
  unfoldable pub flush_from : ℕ → ℕ → SitFlush → Option SitFlush
  unfolding flush_sit_entry
  flush_from zero from m = some m
  flush_from (suc fuel) from m =
      let segno = search.find_next_bit (m.sit).dirty_sentries_bitmap g.total_segs from in
      let rest = flush_sit_entry end_segno flushed m segno >>= flush_from fuel (segno + 1) in
      if ltb segno g.total_segs then rest else some m

-- The state, and the free maps after `set_prefree_as_free_segments`.
unfoldable pub flush_sit_entries :
    BitSearch → Geometry → ℕ → DirtyInfo → FreeSegmap → SitFlush → Option (SitFlush × FreeSegmap)
unfolding flush_sits_in_journal flush_from
flush_sit_entries search g end_segno d f m =
    let (flushed, m1) = flush_sits_in_journal m in
    do
      r ←
          flush_from search g end_segno flushed (g.total_segs + 1) 0
            (record m1 { page = none; start = 0; end_ = 0 })
      some (r, set_prefree_as_free_segments search g d f)
