-- ===== src/Segment/Sit/Flush/Area.antt =====
-- Where the current copy of a SIT block lies, as a number, and what `get_next_sit_page` of
-- fs/f2fs/segment.c makes of it.
use f2fs.Base.{
  ℕ, ◌+◌, ◌<◌, ◌≤◌, ◌≡◌, refl, true, false, not, some, Bool, Bool-cases, arith, length, ◌==◌, inl,
  inr, if◌then◌else◌,
}
use f2fs.Bits.{f2fs_test_bit}
use f2fs.Bits.Laws.{bits, f2fs_test_bit-bits, length-f2fs_set_bit, length-f2fs_clear_bit}
use f2fs.Segment.Sit.{SitInfo, current_sit_addr, next_sit_addr, set_to_next_sit, sit_block_offset}
use f2fs.Segment.Sit.Place.{IsSitArea, toggled-IsBytes}

-- The copies of block `b`.
abbrev pub copy : SitInfo → ℕ → Bool → ℕ
copy s b second = s.sit_base_addr + b + (if second then s.sit_blocks else 0)

abbrev pub sit_addr : SitInfo → ℕ → ℕ
sit_addr s b = copy s b (bits s.sit_bitmap b)

-- Different copies lie apart.
pub copy_ne :
    (s : SitInfo) (b b' : ℕ) (x x' : Bool)
    → b < s.sit_blocks
    → b' < s.sit_blocks
    → copy s b x ≡ copy s b' x'
    → (b ≡ b') × (x ≡ x')
copy_ne s b b' x x' h h' e = ground arith

module _ (s : SitInfo) (start : ℕ) (v : IsSitArea s)
    (h : sit_block_offset start < s.sit_blocks) where
  pub current_sit_addr-copy :
      (end_segno : ℕ)
      → start ≤ end_segno
      → current_sit_addr end_segno s start ≡ some (sit_addr s (sit_block_offset start))
  unfolding current_sit_addr
  current_sit_addr-copy end_segno low =
      ground (arith, v.fits, f2fs_test_bit-bits (sit_block_offset start) s.sit_bitmap v.bytes)

  pub next_sit_addr-copy :
      (x : Bool)
      → next_sit_addr s (copy s (sit_block_offset start) x)
        ≡ copy s (sit_block_offset start) (not x)
  unfolding next_sit_addr
  next_sit_addr-copy true = ground (arith, v.fits)
  next_sit_addr-copy false = ground (arith, v.fits)

  -- Only the bitmap changes.
  pub record IsToggled (r : SitInfo) : Type 0 where
    pub same_sentries : r.sentries ≡ s.sentries
    pub same_dirty : r.dirty_sentries_bitmap ≡ s.dirty_sentries_bitmap
    pub same_count : r.dirty_sentries ≡ s.dirty_sentries
    pub same_base : r.sit_base_addr ≡ s.sit_base_addr
    pub same_blocks : r.sit_blocks ≡ s.sit_blocks
    pub same_size : length r.sit_bitmap ≡ length s.sit_bitmap

  pub set_to_next_sit-IsToggled : IsToggled (set_to_next_sit s start)
  unfolding set_to_next_sit
  set_to_next_sit-IsToggled =
      let off = sit_block_offset start in
      elim (Bool-cases (f2fs_test_bit off s.sit_bitmap == 0)) [
        | inl e ↦
            rw (set_to_next_sit, e)
              (record {
                same_sentries = refl;
                same_dirty = refl;
                same_count = refl;
                same_base = refl;
                same_blocks = refl;
                same_size = length-f2fs_set_bit off s.sit_bitmap;
              })
        | inr e ↦
            rw (set_to_next_sit, e)
              (record {
                same_sentries = refl;
                same_dirty = refl;
                same_count = refl;
                same_base = refl;
                same_blocks = refl;
                same_size = length-f2fs_clear_bit off s.sit_bitmap;
              })
      ]

  pub set_to_next_sit-IsSitArea : IsSitArea (set_to_next_sit s start)
  set_to_next_sit-IsSitArea =
      let t = set_to_next_sit-IsToggled in
      record {
        bytes = toggled-IsBytes s start v h;
        size = omega (arith, v.size, t.same_blocks, t.same_size);
        fits = omega (arith, v.fits, t.same_blocks, t.same_base);
      }
