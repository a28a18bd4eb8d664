-- ===== src/Segment/Sit/Place.antt =====
-- The two copies of each SIT block: `current_sit_addr`, `next_sit_addr` and `set_to_next_sit`.
use f2fs.Base.{
  ℕ, ◌+◌, ◌*◌, ◌/◌, ◌^◌, ◌<◌, ◌≤◌, ◌≡◌, ◌≢◌, true, false, not, some, arith, length, ◌==◌,
  Bool-cases, inl, inr, update,
}
use f2fs.Bits.{f2fs_test_bit}
use f2fs.Bits.Laws.{
  bits, IsBytes, f2fs_test_bit-bits, bits-f2fs_set_bit, bits-f2fs_clear_bit, f2fs_set_bit-IsBytes,
  f2fs_clear_bit-IsBytes,
}
use f2fs.Segment.Sit.{SitInfo, current_sit_addr, next_sit_addr, set_to_next_sit, sit_block_offset}

-- The area holds both copies, and the bitmap a bit for each block of one copy.
pub record IsSitArea (s : SitInfo) : Type 0 where
  pub bytes : IsBytes s.sit_bitmap
  pub size : s.sit_blocks ≤ 8 * length s.sit_bitmap
  pub fits : s.sit_base_addr + 2 * s.sit_blocks < 2 ^ 64

module _ (s : SitInfo) (start : ℕ) (v : IsSitArea s)
    (h : sit_block_offset start < s.sit_blocks) where
  pub toggled :
      (nr : ℕ)
      → bits (set_to_next_sit s start).sit_bitmap nr
        ≡ update
            (bits s.sit_bitmap)
            (sit_block_offset start)
            (not (bits s.sit_bitmap (sit_block_offset start)))
            nr
  unfolding set_to_next_sit
  toggled nr =
      let off = sit_block_offset start in
      let range : off / 8 < length s.sit_bitmap = omega (arith, v.size) in
      let test = f2fs_test_bit-bits off s.sit_bitmap v.bytes in
      elim (Bool-cases (bits s.sit_bitmap off)) [
        | inl e ↦
            let t : (f2fs_test_bit off s.sit_bitmap == 0) ≡ false = ground arith in
            rw (t, e) (bits-f2fs_clear_bit off nr s.sit_bitmap v.bytes range)
        | inr e ↦
            let t : (f2fs_test_bit off s.sit_bitmap == 0) ≡ true = ground arith in
            rw (t, e) (bits-f2fs_set_bit off nr s.sit_bitmap v.bytes range)
      ]

  pub toggled-IsBytes : IsBytes (set_to_next_sit s start).sit_bitmap
  unfolding set_to_next_sit
  toggled-IsBytes =
      let off = sit_block_offset start in
      elim (Bool-cases (f2fs_test_bit off s.sit_bitmap == 0)) [
        | inl e ↦ rw e (f2fs_set_bit-IsBytes off s.sit_bitmap v.bytes)
        | inr e ↦ rw e (f2fs_clear_bit-IsBytes off s.sit_bitmap v.bytes)
      ]

  pub same_area :
      ((set_to_next_sit s start).sit_base_addr ≡ s.sit_base_addr)
      × ((set_to_next_sit s start).sit_blocks ≡ s.sit_blocks)
  unfolding set_to_next_sit
  same_area = ground arith

  -- For a segment whose SIT block is in the area and has a current address, once `set_to_next_sit`
  -- has run the current address of that block is the one that `next_sit_addr` named before, and
  -- every other SIT block stays where it is.
  pub current_sit_addr-set_to_next_sit :
      (end_segno a other : ℕ)
      → current_sit_addr end_segno s start ≡ some a
      → (current_sit_addr end_segno (set_to_next_sit s start) start ≡ some (next_sit_addr s a))
        × (sit_block_offset other ≢ sit_block_offset start
            → current_sit_addr end_segno (set_to_next_sit s start) other
              ≡ current_sit_addr end_segno s other)
  unfolding current_sit_addr next_sit_addr
  current_sit_addr-set_to_next_sit end_segno a other e =
      let off = sit_block_offset start in
      let off' = sit_block_offset other in
      let s' = set_to_next_sit s start in
      let area = same_area in
      (
        ground (
          arith,
          v.fits,
          toggled off,
          f2fs_test_bit-bits off s.sit_bitmap v.bytes,
          f2fs_test_bit-bits off s'.sit_bitmap toggled-IsBytes,
        ),
        λ ne. ground (
          arith,
          toggled off',
          f2fs_test_bit-bits off' s.sit_bitmap v.bytes,
          f2fs_test_bit-bits off' s'.sit_bitmap toggled-IsBytes,
        ),
      )
