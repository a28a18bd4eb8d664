-- ===== src/Segment/Example.antt =====
-- A small volume for the tests: four zones of two sections, sections of two segments, segments of
-- eight blocks. Segments 0, 1 and 2 are in use; block 0 of segment 0 is the only valid one.
use f2fs.Base.{
  ℕ, zero, suc, ◌*◌, ◌<◌, ◌≡◌, refl, true, false, ◌&&◌, ◌||◌, ltb, ◌==◌, if◌then◌else◌, List, [],
  ◌∷◌, replicate, get_or, arith, weight, zeros, sum_range, ℕ_discrete, none,
}
use f2fs.Bits.Laws.{IsBytes}
use f2fs.Segment.Geometry.{Geometry, IsLayout, null_segno}
use f2fs.Segment.Free.{FreeSegmap}
use f2fs.Segment.Free.Invariant.{IsFreeSegmap}
use f2fs.Segment.Sit.{SegEntry, SitInfo}
use f2fs.Segment.Sit.Invariant.{IsEntry}
use f2fs.Segment.Sit.Totals.{IsSit}
use f2fs.Segment.Sit.Place.{IsSitArea}
use f2fs.Segment.Dirty.{DirtyInfo}
use f2fs.Segment.Dirty.Invariant.{IsDirtyInfo}
use f2fs.Segment.Curseg.{Curseg, SummaryBlock, lfs}
use f2fs.Segment.Alloc.{SegmentManager, Reserve, Victims}

abbrev pub volume : Geometry
volume = record {
  log_blocks_per_seg = 3;
  blocks_per_seg = 8;
  log_segs_per_sec = 1;
  segs_per_sec = 2;
  secs_per_zone = 2;
  total_sections = 8;
  total_segs = 16;
  seg0_blkaddr = 512;
  ssa_blkaddr = 640;
  start_segno = 20;
}

pub volume-IsLayout : IsLayout volume
volume-IsLayout = omega arith

abbrev pub free_maps : FreeSegmap
free_maps = record {
  free_segments = 13;
  free_sections = 6;
  free_segmap = λ k. ltb k 3;
  free_secmap = λ k. ltb k 2;
}

pub free_maps-IsFreeSegmap : IsFreeSegmap volume free_maps
unfolding zeros
free_maps-IsFreeSegmap = record {
  segments = refl;
  sections = refl;
  agree = λ sec h. (λ e k p. ground arith, λ u. ground (arith, u (2 * sec)));
}

-- A map of 64 bytes, of which only the first may be other than zero.
abbrev pub map_of : ℕ → List ℕ
map_of byte = byte ∷ replicate 63 0

replicate-zero : (n i : ℕ) → ◌≡◌ {A = ℕ} (get_or (replicate n 0) i 0) 0
replicate-zero zero i = refl
replicate-zero (suc n) zero = refl
replicate-zero (suc n) (suc i) = replicate-zero n i

pub map_of-IsBytes : (byte : ℕ) → byte < 256 → IsBytes (map_of byte)
map_of-IsBytes byte h zero = h
map_of-IsBytes byte h (suc i) = omega (arith, replicate-zero 63 i)

abbrev pub entry_of : ℕ → ℕ → SegEntry
entry_of byte count = record {
  valid_blocks = count;
  cur_valid_map = map_of byte;
  ckpt_valid_blocks = count;
  ckpt_valid_map = map_of byte;
  type_ = 1;
  mtime = 5;
}

empty-IsEntry : IsEntry volume (entry_of 0 0)
unfolding weight
empty-IsEntry = record {
  cur_bytes = map_of-IsBytes 0 (omega arith);
  ckpt_bytes = map_of-IsBytes 0 (omega arith);
  cur_size = refl;
  valid = refl;
  ckpt = refl;
}

pub first-IsEntry : IsEntry volume (entry_of 128 1)
unfolding weight
first-IsEntry = record {
  cur_bytes = map_of-IsBytes 128 (omega arith);
  ckpt_bytes = map_of-IsBytes 128 (omega arith);
  cur_size = refl;
  valid = refl;
  ckpt = refl;
}

abbrev pub sit : SitInfo
sit = record {
  sentries = λ k. if k == 0 then entry_of 128 1 else entry_of 0 0;
  sec_entries = λ k. if k == 0 then 1 else 0;
  written_valid_blocks = 1;
  dirty_sentries = 1;
  dirty_sentries_bitmap = λ k. k == 0;
  elapsed_time = 100;
  mounted_time = 7;
  min_mtime = 5;
  max_mtime = 5;
  sit_base_addr = 900;
  sit_blocks = 4;
  sit_bitmap = 128 ∷ [];
}

pub sit-IsSit : IsSit volume sit
unfolding weight sum_range
sit-IsSit = record {
  entries = λ k h. elim (ℕ_discrete k 0) [
    | yes e ↦ rw e first-IsEntry
    | no e ↦ let empty = empty-IsEntry in ground (arith, empty)
  ];
  sections = λ p sec h. ground arith;
  written = refl;
  dirty = refl;
}

pub sit-IsSitArea : IsSitArea sit
sit-IsSitArea = record {
  bytes = λ i. elim (ℕ_discrete i 0) [ yes e ↦ rw e (omega arith) | no e ↦ ground arith ];
  size = omega arith;
  fits = omega arith;
}

-- Segment 0 is on the lists; segments 4 and 5 are prefree.
abbrev pub lists : DirtyInfo
lists = record {
  dirty_segmap = λ t k. (t == 6 || t == 1) && k == 0 || t == 7 && (k == 4 || k == 5);
  nr_dirty = λ t. if t == 7 then 2 else if t == 6 || t == 1 then 1 else 0;
  victim_bg = λ k. false;
  victim_fg = λ k. false;
}

pub lists-IsDirtyInfo : IsDirtyInfo volume lists
unfolding weight
lists-IsDirtyInfo = record { counted = λ t. ground arith }

abbrev pub summaries : SummaryBlock
summaries = record { entries = []; journal = []; entry_type = 0; check_sum = 0 }

-- Log 1 is in segment 1, the others in segment 2.
abbrev pub log_of : ℕ → Curseg
log_of t = record {
  sum_blk = summaries;
  alloc_type = lfs;
  segno = if t == 1 then 1 else 2;
  next_blkoff = 3;
  zone = 0;
  next_segno = null_segno;
}

abbrev pub manager : SegmentManager
manager = record {
  free = free_maps;
  sit = sit;
  lists = lists;
  curseg = log_of;
  sum_pages = λ a. summaries;
  segment_count = λ a. 0;
  block_count = λ a. 0;
  last_victim = λ p. 0;
}

abbrev pub reserve : Reserve
reserve = record { overp_segment_count = 4; rsvd_segment_count = 2; noheap = true }

abbrev pub no_victims : Victims
no_victims = record { get_victim = λ m t. (none, m.last_victim) }
