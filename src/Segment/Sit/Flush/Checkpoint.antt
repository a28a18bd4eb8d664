-- ===== src/Segment/Sit/Flush/Checkpoint.antt =====
-- `flush_sits_in_journal` and the whole of `flush_sit_entries` of fs/f2fs/segment.c.
use f2fs.Base.{
  ℕ, ◌+◌, ◌^◌, ◌<◌, ◌≤◌, ◌≡◌, refl, sym, ap, ◌∙◌, Bool, true, false, arith, leb, Bool-cases,
  false≢true, none, inl, inr, Returns, Returns->>=, Returns-map, BitSearch, weight, weight_none,
}
use f2fs.Journal.{Journal, sit_journal_entries, shorten}
use f2fs.Journal.Laws.{journal_at, journal_at-cases, journal_at-shorten}
use f2fs.Segment.Geometry.{Geometry}
use f2fs.Segment.Free.{FreeSegmap}
use f2fs.Segment.Dirty.{DirtyInfo, set_prefree_as_free_segments}
use f2fs.Segment.Sit.{SitEntry, SitInfo, seg_info_to_raw_sit, sit_block_offset}
use f2fs.Segment.Sit.Place.{IsSitArea}
use f2fs.Segment.Sit.Flush.{
  SitFlush, sit_entry_offset, mark_journal, flush_sits_in_journal, flush_from, flush_sit_entries,
}
use f2fs.Segment.Sit.Flush.Mark.{IsMarked, mark_journal-IsMarked}
use f2fs.Segment.Sit.Flush.Area.{sit_addr}
use f2fs.Segment.Sit.Flush.Page.{disk_at, disk_at-none}
use f2fs.Segment.Sit.Flush.Round.{IsEmptied}
use f2fs.Segment.Sit.Flush.Loop.{
  dirty_at, entry_at, raw_at, raw_again, IsKept, unchanged, cleaned, IsFlushing, IsAllFlushed,
  flush_from-IsAllFlushed,
}

-- The disk and the journal have every entry that is not dirty, the dirty ones are counted, and the
-- page of no current block is dirty.
pub record IsSitCoherent (g : Geometry) (m : SitFlush) : Type 0 where
  pub area : IsSitArea m.sit
  pub within : (k : ℕ) → k < g.total_segs → sit_block_offset k < (m.sit).sit_blocks
  pub room : (m.journal).n ≤ sit_journal_entries
  pub keys : (i : ℕ) → i < (m.journal).n → (m.journal).keys i < g.total_segs
  pub counted : (m.sit).dirty_sentries ≡ weight g.total_segs (m.sit).dirty_sentries_bitmap
  pub clean : (k : ℕ) → k < g.total_segs → dirty_at m k ≡ false → disk_at m k ≡ raw_at m k
  pub not_dirty : (b : ℕ) → b < (m.sit).sit_blocks → m.dirty_pages (sit_addr m.sit b) ≡ false

-- What a checkpoint makes of the segment information: nothing is dirty any more, the disk and the
-- journal have every entry, the blocks that were current before are not overwritten, and an entry
-- that was dirty has its checkpoint fields brought up to date.
pub record IsSitFlushed (g : Geometry) (m r : SitFlush) : Type 0 where
  pub settled : (k : ℕ) → k < g.total_segs → dirty_at r k ≡ false
  pub none_dirty : (r.sit).dirty_sentries ≡ 0
  pub written : (k : ℕ) → k < g.total_segs → disk_at r k ≡ raw_at m k
  pub old :
      (b : ℕ)
      → b < (m.sit).sit_blocks
      → (r.sit_pages (sit_addr m.sit b) ≡ m.sit_pages (sit_addr m.sit b))
        × (r.dirty_pages (sit_addr m.sit b) ≡ false)
  pub brought_up :
      (k : ℕ)
      → k < g.total_segs
      → dirty_at m k ≡ true
      → entry_at r k ≡ (seg_info_to_raw_sit (entry_at m k)).1
  pub area : IsSitArea r.sit
  pub room : (r.journal).n ≤ sit_journal_entries

module _ (search : BitSearch) (g : Geometry) (end_segno : ℕ) (main : g.total_segs ≤ end_segno + 1)
    (small : g.total_segs < 2 ^ 32) (m : SitFlush) (inv : IsSitCoherent g m) where
  module _ (s : SitInfo) (j : Journal SitEntry) (flushed : Bool) (mk : IsMarked g m.sit s) where
    -- The state when the loop starts.
    abbrev ready : SitFlush
    ready = record {
      sit = s;
      journal = j;
      sit_pages = m.sit_pages;
      dirty_pages = m.dirty_pages;
      page = none;
      start = 0;
      end_ = 0;
    }

    same_addr : (b : ℕ) → sit_addr s b ≡ sit_addr m.sit b
    same_addr b = rw (mk.bitmap, mk.base, mk.blocks) refl

    ready-IsFlushing :
        j.n ≤ sit_journal_entries
        → IsEmptied flushed j
        → ((k : ℕ) → k < g.total_segs → dirty_at ready k ≡ false → disk_at ready k ≡ raw_at ready k)
        → IsFlushing g ready flushed ready 0
    ready-IsFlushing room empty clean = record {
      store = record {
        area = record {
          bytes = rw mk.bitmap inv.area.bytes;
          size = rw (mk.blocks, mk.bitmap) inv.area.size;
          fits = rw (mk.base, mk.blocks) inv.area.fits;
        };
        base = refl;
        blocks = refl;
        opened = λ b. refl;
        old = λ b h. refl;
        not_dirty =
            λ b h. ap m.dirty_pages (same_addr b) ∙ inv.not_dirty b (omega (arith, mk.blocks));
      };
      clean = clean;
      room = room;
      emptied = empty;
      done = λ k h. absurd (omega arith);
      counted = mk.counted;
      entries = λ k. unchanged refl refl;
    }

    kept_raw : (r : SitFlush) (k : ℕ) → IsKept ready r k → raw_at r k ≡ raw_at m k
    kept_raw r k (unchanged e d) =
        ap (λ x. (seg_info_to_raw_sit x).0) (e ∙ ap (λ f. f k) mk.sentries)
    kept_raw r k (cleaned d0 d e) =
        ap (λ x. (seg_info_to_raw_sit x).0) e
        ∙ raw_again (s.sentries k)
        ∙ ap (λ f. (seg_info_to_raw_sit (f k)).0) mk.sentries

    brought :
        (r : SitFlush) (k : ℕ)
        → IsKept ready r k
        → dirty_at m k ≡ true
        → dirty_at r k ≡ false
        → entry_at r k ≡ (seg_info_to_raw_sit (entry_at m k)).1
    brought r k (unchanged e d) was now = absurd (false≢true (sym now ∙ d ∙ mk.more k was))
    brought r k (cleaned d0 d e) was now = e ∙ ap (λ f. (seg_info_to_raw_sit (f k)).1) mk.sentries

    loop-IsSitFlushed :
        IsFlushing g ready flushed ready 0
        → Returns
            (IsSitFlushed g m)
            (flush_from search g end_segno flushed (g.total_segs + 1) 0 ready)
    loop-IsSitFlushed start =
        let inside : (k : ℕ) → k < g.total_segs → sit_block_offset k < s.sit_blocks =
          λ k h. omega (arith, inv.within k h, mk.blocks) in
        Returns-map (IsAllFlushed g ready flushed end_segno main small inside) (IsSitFlushed g m) _
          (λ r (p, it, all). record {
            settled = all;
            none_dirty = it.counted ∙ weight_none g.total_segs (r.sit).dirty_sentries_bitmap all;
            written = λ k h. it.clean k h (all k h) ∙ kept_raw r k (it.entries k);
            old = λ b h. rw (← same_addr b) (
              it.store.old b (omega (arith, mk.blocks)),
              it.store.not_dirty b (omega (arith, mk.blocks)),
            );
            brought_up = λ k h was. brought r k (it.entries k) was (all k h);
            area = it.store.area;
            room = it.room;
          })
          (flush_from-IsAllFlushed g ready flushed end_segno main small inside search
            (g.total_segs + 1) 0 ready start (omega arith))

  -- The journal stays, or its entries are dirty and it is emptied.
  kept-IsMarked : IsMarked g m.sit m.sit
  kept-IsMarked = record {
    sentries = refl;
    bitmap = refl;
    base = refl;
    blocks = refl;
    more = λ k d. d;
    counted = inv.counted;
  }

  emptied_clean :
      (s : SitInfo) (mk : IsMarked g m.sit s)
      → ((i : ℕ) → i < (m.journal).n → s.dirty_sentries_bitmap ((m.journal).keys i) ≡ true)
      → let r = ready s (shorten m.journal (m.journal).n) true mk in
        (k : ℕ) → k < g.total_segs → dirty_at r k ≡ false → disk_at r k ≡ raw_at r k
  emptied_clean s mk hits k h d =
      let r = ready s (shorten m.journal (m.journal).n) true mk in
      let gone = (journal_at-shorten m.journal k (omega (arith, inv.room))).0 in
      let was : dirty_at m k ≡ false = elim (Bool-cases (dirty_at m k)) [
        | inl t ↦ absurd (false≢true (sym d ∙ mk.more k t))
        | inr f ↦ f
      ] in
      elim (journal_at-cases m.journal k) [
        | inl e ↦
            disk_at-none r k gone
            ∙ ap (λ a. m.sit_pages a (sit_entry_offset k))
                (same_addr s m.journal true mk (sit_block_offset k))
            ∙ sym (disk_at-none m k e)
            ∙ inv.clean k h was
            ∙ ap (λ f. (seg_info_to_raw_sit (f k)).0) (sym mk.sentries)
        | inr (i, low, e) ↦
            absurd (false≢true (sym d ∙ ap s.dirty_sentries_bitmap (sym e) ∙ hits i low))
      ]

  -- `flush_sits_in_journal` and the loop.
  flush-IsSitFlushed :
      let (flushed, m1) = flush_sits_in_journal m in
      Returns (IsSitFlushed g m) (
        flush_from search g end_segno flushed
          (g.total_segs + 1)
          0
          (record m1 { page = none; start = 0; end_ = 0 }))
  unfolding flush_sits_in_journal
  flush-IsSitFlushed = elim (Bool-cases (leb sit_journal_entries (m.journal).n)) [
    | inl e ↦
        let (mk, hits) =
          mark_journal-IsMarked g small m.journal (m.journal).n m.sit inv.counted inv.keys in
        let s = mark_journal m.journal (m.journal).n m.sit in
        let j = shorten m.journal (m.journal).n in
        let gone : (k : ℕ) → (journal_at j k ≡ none) × (j.n ≡ 0) =
          λ k. journal_at-shorten m.journal k (omega (arith, inv.room)) in
        rw (flush_sits_in_journal, e)
          (loop-IsSitFlushed s j true mk (
            ready-IsFlushing s j true mk (omega (arith, (gone 0).1)) (λ _ k. (gone k).0)
              (emptied_clean s mk hits)))
    | inr e ↦
        rw (flush_sits_in_journal, e)
          (loop-IsSitFlushed m.sit m.journal false kept-IsMarked (
            ready-IsFlushing m.sit m.journal false kept-IsMarked inv.room
              (λ f. absurd (false≢true f)) inv.clean))
  ]

  -- Where the SIT area is well formed and holds the blocks of all segments of the main area, the journal
  -- has only such segments and no more than fit, the disk and the journal have every entry that is not
  -- dirty, the dirty ones are counted, no
  -- page of a SIT block that is current is dirty, and the segments of the main area are on the volume
  -- and fit 32 bits: `flush_sit_entries` meets no `BUG_ON`.
  -- No entry is dirty afterwards; the disk and the journal have the entry of every segment of the main
  -- area as it was in memory; the SIT blocks that were current before are as they were and not
  -- dirty; an entry that
  -- was dirty has its checkpoint fields brought up to date; and the free maps are what
  -- `set_prefree_as_free_segments` makes of them.
  pub flush_sit_entries-IsSitFlushed :
      (d : DirtyInfo) (f : FreeSegmap)
      → Returns
          (λ r. IsSitFlushed g m r.0 × (r.1 ≡ set_prefree_as_free_segments search g d f))
          (flush_sit_entries search g end_segno d f m)
  unfolding flush_sit_entries
  flush_sit_entries-IsSitFlushed d f =
      Returns->>= (IsSitFlushed g m)
        (λ r. IsSitFlushed g m r.0 × (r.1 ≡ set_prefree_as_free_segments search g d f)) _ _
        flush-IsSitFlushed (λ r _ it. (it, refl))
