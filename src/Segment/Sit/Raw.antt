-- ===== src/Segment/Sit/Raw.antt =====
-- Raw SIT entries: what is written is read back, and what `check_block_count` accepts.
use f2fs.Base.{
  ℕ, zero, suc, ◌+◌, ◌*◌, ◌/◌, ◌%◌, ◌^◌, ◌<◌, ◌≤◌, ◌≡◌, ◌↔◌, refl, ap, true, List, some, bit_or,
  arith, weight, weight_zero, weight-add_one, holds_below, holds_below-lt, ◌==◌, ==_iff,
  if◌then◌else◌,
}
use f2fs.Bits.{f2fs_test_bit}
use f2fs.Bits.Laws.{bits, IsBytes, f2fs_test_bit-bits}
use f2fs.Segment.Geometry.{Geometry}
use f2fs.Segment.Sit.{
  SegEntry, SitEntry, seg_info_from_raw_sit, seg_info_to_raw_sit, get_sit_vblocks, count_valid,
  check_block_count,
}

or_table :
    holds_below 64 (λ t. holds_below 1024 (λ x. bit_or (t * 2 ^ 10) x == t * 2 ^ 10 + x)) ≡ true
unfolding holds_below
or_table = refl

or_fields : (t x : ℕ) → t < 64 → x < 1024 → bit_or (t * 2 ^ 10) x ≡ t * 2 ^ 10 + x
or_fields t x ht hx = (==_iff _ _).0 (
    holds_below-lt (λ y. bit_or (t * 2 ^ 10) y == t * 2 ^ 10 + y) 1024 x hx
      (holds_below-lt _ 64 t ht or_table))

-- An entry whose type fits six bits and whose block count fits ten is read back by
-- `seg_info_from_raw_sit` as `seg_info_to_raw_sit` wrote it, with its checkpoint fields brought up
-- to date.
pub seg_info_from_raw_sit-seg_info_to_raw_sit :
    (se : SegEntry)
    → se.type_ < 64
    → se.valid_blocks < 1024
    → seg_info_from_raw_sit (seg_info_to_raw_sit se).0 ≡ (seg_info_to_raw_sit se).1
unfolding seg_info_from_raw_sit seg_info_to_raw_sit
seg_info_from_raw_sit-seg_info_to_raw_sit se ht hx =
    ground (arith, or_fields se.type_ se.valid_blocks ht hx)

-- A raw entry that was read is written back as it was.
pub seg_info_to_raw_sit-seg_info_from_raw_sit :
    (rs : SitEntry) → rs.vblocks < 2 ^ 16 → (seg_info_to_raw_sit (seg_info_from_raw_sit rs)).0 ≡ rs
unfolding seg_info_from_raw_sit seg_info_to_raw_sit
seg_info_to_raw_sit-seg_info_from_raw_sit rs h = ground (
  arith,
  or_fields (rs.vblocks % 2 ^ 16 / 2 ^ 10) (rs.vblocks % 2 ^ 10) (omega arith) (omega arith),
)

count_valid-weight :
    (map : List ℕ) (left i valid : ℕ)
    → IsBytes map
    → count_valid map left i valid + weight i (bits map) ≡ valid + weight (i + left) (bits map)
unfolding count_valid
count_valid-weight map zero i valid b =
    ground (arith, ap (λ n. weight n (bits map)) {x = i + 0} {y = i})
count_valid-weight map (suc left) i valid b = ground (
  arith,
  count_valid-weight map left (i + 1) (if f2fs_test_bit i map == 0 then valid else valid + 1) b,
  f2fs_test_bit-bits i map b,
  weight-add_one i (bits map),
  ap (λ n. weight n (bits map)) {x = i + suc left} {y = i + 1 + left},
)

-- On a map of bytes, `check_block_count` accepts a raw entry exactly if the segment exists and the
-- block count is that of the bits set in the map, and fits the segment.
pub check_block_count_iff :
    (g : Geometry) (end_segno segno : ℕ) (rs : SitEntry)
    → IsBytes rs.valid_map
    → (check_block_count g end_segno segno rs ≡ some tt) ↔ (
        (get_sit_vblocks rs ≤ g.blocks_per_seg)
        × (segno ≤ end_segno)
        × (get_sit_vblocks rs ≡ weight g.blocks_per_seg (bits rs.valid_map)))
unfolding check_block_count
check_block_count_iff g end_segno segno rs b =
    let count = count_valid-weight rs.valid_map g.blocks_per_seg 0 0 b in
    ground (
      arith,
      count,
      weight_zero (bits rs.valid_map),
      ap (λ n. weight n (bits rs.valid_map)) {x = 0 + g.blocks_per_seg} {y = g.blocks_per_seg},
    )
