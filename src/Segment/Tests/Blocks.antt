-- ===== src/Segment/Tests/Blocks.antt =====
-- Segment information on the small volume. Block 0 of segment 0 is
-- at address 672, and log 1 writes block 3 of segment 1 next, at 683.
use f2fs.Base.{◌<◌, ◌≡◌, refl, true, false, arith, Returns}
use f2fs.Bits.Laws.{bits}
use f2fs.Segment.Geometry.{
  get_segno, block_offset, get_segoff_from_seg0, get_segno_from_seg0, null_segno,
}
use f2fs.Segment.Sit.{SitEntry, minus, update_sit_entry}
use f2fs.Segment.Sit.Totals.{IsKept, update_sit_entry-Returns}
use f2fs.Segment.Example.{volume, volume-IsLayout, map_of, sit, sit-IsSit}

old_segno : get_segno volume 672 ≡ 0
unfolding get_segno get_segno_from_seg0 get_segoff_from_seg0
old_segno = refl

old_offset : block_offset volume 672 ≡ 0
unfolding block_offset get_segoff_from_seg0
old_offset = refl

old_low : get_segno volume 672 < 16
old_low = omega (arith, old_segno)

old_valid :
    bits (sit.sentries (get_segno volume 672)).cur_valid_map (block_offset volume 672) ≡ true
unfolding get_segno get_segno_from_seg0 get_segoff_from_seg0 block_offset
old_valid = refl

new_segno : get_segno volume 683 ≡ 1
unfolding get_segno get_segno_from_seg0 get_segoff_from_seg0
new_segno = refl

new_low : get_segno volume 683 < 16
new_low = omega (arith, new_segno)

new_free :
    bits (sit.sentries (get_segno volume 683)).cur_valid_map (block_offset volume 683) ≡ false
unfolding get_segno get_segno_from_seg0 get_segoff_from_seg0 block_offset
new_free = refl

no_segno : get_segno volume 0 ≡ null_segno
unfolding get_segno
no_segno = refl

update_sit_entry-Returns_example :
    Returns
      (IsKept volume 20 sit 672 minus volume-IsLayout sit-IsSit old_low)
      (update_sit_entry volume 20 sit 672 minus)
update_sit_entry-Returns_example =
    update_sit_entry-Returns volume 20 sit 672 minus volume-IsLayout sit-IsSit old_low old_valid

abbrev raw : SitEntry
raw = record { vblocks = 1025; valid_map = map_of 128; raw_mtime = 5 }
