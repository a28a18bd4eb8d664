-- ===== src/Segment/Sit/Flush/Tests.antt =====
-- A checkpoint of the small volume: segment 0 is dirty, the journal is empty.
use f2fs.Base.{◌≡◌, refl, arith, false, none, linear_search, Returns, weight}
use f2fs.Journal.Laws.{journal_at, first_for}
use f2fs.Segment.Dirty.{set_prefree_as_free_segments}
use f2fs.Segment.Sit.{seg_info_to_raw_sit}
use f2fs.Segment.Sit.Flush.{SitFlush, flush_sit_entries}
use f2fs.Segment.Sit.Flush.Checkpoint.{IsSitCoherent, IsSitFlushed, flush_sit_entries-IsSitFlushed}
use f2fs.Segment.Example.{volume, sit, sit-IsSitArea, entry_of, lists, free_maps}

abbrev before : SitFlush
before = record {
  sit = sit;
  journal = record { n = 0; keys = λ i. 0; entries = λ i. (seg_info_to_raw_sit (entry_of 0 0)).0 };
  sit_pages = λ a i. (seg_info_to_raw_sit (entry_of 0 0)).0;
  dirty_pages = λ a. false;
  page = none;
  start = 0;
  end_ = 0;
}

before-IsSitCoherent : IsSitCoherent volume before
unfolding journal_at first_for weight seg_info_to_raw_sit
before-IsSitCoherent = record {
  area = sit-IsSitArea;
  within = λ k h. omega arith;
  room = omega arith;
  keys = λ i h. absurd (omega arith);
  counted = refl;
  clean = λ k h d. ground arith;
  not_dirty = λ b h. refl;
}

flush_sit_entries-IsSitFlushed_example :
    Returns
      (λ r.
        IsSitFlushed volume before r.0
        × (r.1 ≡ set_prefree_as_free_segments linear_search volume lists free_maps))
      (flush_sit_entries linear_search volume 15 lists free_maps before)
flush_sit_entries-IsSitFlushed_example =
    flush_sit_entries-IsSitFlushed linear_search volume 15 (omega arith) (omega arith) before
      before-IsSitCoherent lists free_maps
