-- ===== src/Segment/Tests/Logs.antt =====
-- The places of SIT blocks, the logs and the writing of blocks, on the small volume. Log 1 writes
-- block 3 of segment 1 next.
use f2fs.Base.{
  ℕ, ◌+◌, ◌%◌, ◌^◌, ◌<◌, ◌≤◌, ◌≡◌, ◌≢◌, refl, true, false, ◌&&◌, ◌==◌, if◌then◌else◌, arith,
  Returns, linear_search, scan, some,
}
use f2fs.Bits.{f2fs_test_bit}
use f2fs.Bits.Laws.{bits}
use f2fs.Segment.Geometry.{
  get_segno, block_offset, get_segoff_from_seg0, get_segno_from_seg0, null_segno,
}
use f2fs.Segment.Sit.{SitInfo, current_sit_addr}
use f2fs.Segment.Sit.Totals.{IsSit}
use f2fs.Segment.Dirty.Invariant.{IsDirtyInfo}
use f2fs.Segment.Curseg.{Summary, refresh_next_blkoff, has_curseg_space, add_sum_entry, is_nodeseg}
use f2fs.Segment.Alloc.{
  has_not_enough_free_secs, prefree_from, check_prefree_segments, new_curseg, do_write_page,
}
use f2fs.Segment.Alloc.Prefree.{
  IsPrefree, check_prefree_segments-IsPrefree, check_prefree_segments-finds,
  check_prefree_segments-first_only,
}
use f2fs.Segment.Alloc.Logs.{IsMoved, new_curseg-IsMoved}
use f2fs.Segment.Alloc.Write.{IsOpen, written_log, do_write_page-new, do_write_page-moved}
use f2fs.Segment.Invalidate.{invalidate_blocks, invalidate_blocks-Returns}
use f2fs.Segment.Example.{
  volume, volume-IsLayout, free_maps-IsFreeSegmap, entry_of, sit, sit-IsSit, lists-IsDirtyInfo,
  log_of, manager, reserve, no_victims,
}

-- Segments 0 to 54 are in SIT block 0, whose second copy is the current one.
current_0 : current_sit_addr 100 sit 3 ≡ some 904
unfolding current_sit_addr f2fs_test_bit
current_0 = refl

prefree_4 : check_prefree_segments linear_search volume reserve manager 1 1 ≡ 4
unfolding check_prefree_segments prefree_from has_not_enough_free_secs linear_search scan
prefree_4 = refl

prefree_real : check_prefree_segments linear_search volume reserve manager 1 1 ≢ null_segno
prefree_real e = omega (arith, e, prefree_4)

check_prefree_segments-IsPrefree_example :
    IsPrefree volume manager 1 (check_prefree_segments linear_search volume reserve manager 1 1)
    × (is_nodeseg 1 ≡ false)
    × (has_not_enough_free_secs linear_search volume reserve manager.free ≡ false)
check_prefree_segments-IsPrefree_example =
    check_prefree_segments-IsPrefree linear_search volume reserve volume-IsLayout manager 1 1
      (omega arith) prefree_real

section_2-IsPrefree : IsPrefree volume manager 1 4
section_2-IsPrefree = record {
  in_main = omega arith;
  aligned = refl;
  prefree = λ k a b. ground arith;
  first_unused = refl;
}

check_prefree_segments-finds_example :
    (check_prefree_segments linear_search volume reserve manager 1 1 ≤ 4)
    × (check_prefree_segments linear_search volume reserve manager 1 1 ≢ null_segno)
unfolding has_not_enough_free_secs
check_prefree_segments-finds_example =
    check_prefree_segments-finds linear_search volume reserve volume-IsLayout manager 1 4
      (omega arith) section_2-IsPrefree 1 refl refl

-- Segment 5, the second of the prefree section, held three blocks at the last checkpoint.
abbrev held : SitInfo
held = record sit {
  sentries =
      λ k. if k == 5 then record (entry_of 0 0) { ckpt_valid_blocks = 3 } else sit.sentries k;
}

held_same :
    (k : ℕ)
    → k % 2 ^ 1 ≡ 0
    → (held.sentries k).ckpt_valid_blocks ≡ (sit.sentries k).ckpt_valid_blocks
held_same k e = ground arith

check_prefree_segments-first_only_example :
    check_prefree_segments linear_search volume reserve (record manager { sit = held }) 1 1
    ≡ check_prefree_segments linear_search volume reserve manager 1 1
check_prefree_segments-first_only_example =
    check_prefree_segments-first_only linear_search volume reserve volume-IsLayout manager held 1 1
      held_same

new_curseg-IsMoved_example :
    Returns (IsMoved volume manager 1) (new_curseg linear_search volume reserve manager 1 false)
new_curseg-IsMoved_example =
    new_curseg-IsMoved linear_search volume reserve volume-IsLayout manager 1 false
      free_maps-IsFreeSegmap sit-IsSit (omega arith) (omega arith)

abbrev owner : Summary
owner = record { nid = 7; version = 0; ofs_in_node = 3 }

log_1-IsOpen : IsOpen volume sit (log_of 1)
log_1-IsOpen = record { in_main = omega arith; in_segment = omega arith; unused = refl }

log_1_room : has_curseg_space volume (written_log volume manager 1 owner) ≡ true
unfolding has_curseg_space refresh_next_blkoff add_sum_entry
log_1_room = refl

old_low : get_segno volume 672 < 16
unfolding get_segno get_segno_from_seg0 get_segoff_from_seg0
old_low = omega arith

old_valid :
    bits (sit.sentries (get_segno volume 672)).cur_valid_map (block_offset volume 672) ≡ true
unfolding get_segno get_segno_from_seg0 get_segoff_from_seg0 block_offset
old_valid = refl

no_segno : get_segno volume 0 ≡ null_segno
unfolding get_segno
no_segno = refl

do_write_page-new_example :
    Returns
      (λ w.
        (get_segno volume w.1 ≡ 1)
        × (block_offset volume w.1 ≡ 3)
        × IsSit volume w.0.sit
        × IsDirtyInfo volume w.0.lists
        × (w.0.sit.written_valid_blocks ≡ 1 + 1))
      (do_write_page linear_search volume reserve no_victims 20 manager 1 0 owner)
do_write_page-new_example =
    do_write_page-new linear_search volume reserve no_victims volume-IsLayout 20 manager 1 0 owner
      sit-IsSit lists-IsDirtyInfo log_1-IsOpen log_1_room no_segno

do_write_page-moved_example :
    Returns
      (λ w.
        (get_segno volume w.1 ≡ 1)
        × (block_offset volume w.1 ≡ 3)
        × IsSit volume w.0.sit
        × IsDirtyInfo volume w.0.lists
        × (w.0.sit.written_valid_blocks ≡ 1)
        × ((k p : ℕ)
            → bits (w.0.sit.sentries k).cur_valid_map p ≡ (
                if k == get_segno volume 672 && p == block_offset volume 672
                then false
                else if k == 1 && p == 3
                then true
                else bits (sit.sentries k).cur_valid_map p)))
      (do_write_page linear_search volume reserve no_victims 20 manager 1 672 owner)
do_write_page-moved_example =
    do_write_page-moved linear_search volume reserve no_victims volume-IsLayout 20 manager 1 672
      owner sit-IsSit lists-IsDirtyInfo log_1-IsOpen log_1_room old_low old_valid

invalidate_blocks-Returns_example :
    Returns
      (λ n.
        IsSit volume n.sit
        × IsDirtyInfo volume n.lists
        × (n.sit.written_valid_blocks + 1 ≡ 1)
        × ((k o : ℕ)
            → bits (n.sit.sentries k).cur_valid_map o ≡ (
                if k == get_segno volume 672 && o == block_offset volume 672
                then false
                else bits (sit.sentries k).cur_valid_map o)))
      (invalidate_blocks volume 20 manager 672)
invalidate_blocks-Returns_example =
    invalidate_blocks-Returns volume volume-IsLayout 20 manager 672 sit-IsSit lists-IsDirtyInfo
      old_low old_valid
