-- ===== src/Segment/Geometry/Laws.antt =====
-- Block addresses and segment numbers name each other.
use f2fs.Base.{ℕ, ◌+◌, ◌-◌, ◌*◌, ◌/◌, ◌%◌, ◌^◌, ◌<◌, ◌≤◌, ◌≡◌, arith}
use f2fs.Segment.Geometry.{
  Geometry, IsLayout, start_block, get_segno, block_offset, get_segoff_from_seg0,
  get_segno_from_seg0,
}

segoff_plain :
    (g : Geometry) (segno off : ℕ)
    → IsLayout g
    → segno < g.total_segs
    → off < g.blocks_per_seg
    → get_segoff_from_seg0 g (start_block g segno + off)
      ≡ (segno + g.start_segno) * 2 ^ g.log_blocks_per_seg + off
unfolding get_segoff_from_seg0 start_block
segoff_plain g segno off v h p = grind arith

mul_mono : (a c b : ℕ) → a ≤ c → a * b ≤ c * b
mul_mono a c b h = grind arith

div_lem : (q b off : ℕ) → off < b → (q * b + off) / b ≡ q
div_lem q b off h = grind arith

mod_lem : (q b off : ℕ) → off < b → (q * b + off) % b ≡ off
mod_lem q b off h = grind arith

module _ (g : Geometry) (segno off : ℕ) (v : IsLayout g) (h : segno < g.total_segs)
    (p : off < g.blocks_per_seg) where
  below_end :
      (segno + g.start_segno) * 2 ^ g.log_blocks_per_seg + off
      < (g.total_segs + g.start_segno) * 2 ^ g.log_blocks_per_seg
  below_end = omega (
    arith,
    v.blocks,
    mul_mono (segno + g.start_segno + 1) (g.total_segs + g.start_segno) (2 ^ g.log_blocks_per_seg)
        (omega arith),
  )

  start_block_plain :
      start_block g segno ≡ g.seg0_blkaddr + (segno + g.start_segno) * 2 ^ g.log_blocks_per_seg
  unfolding start_block
  start_block_plain = grind (arith, below_end)

  pub start_block-lt : start_block g segno + off < 2 ^ 32 - 1
  start_block-lt = omega (arith, start_block_plain, below_end, v.addressable)

  not_null : 0 < start_block g segno + off
  unfolding start_block
  not_null = grind arith

  -- On a volume that `IsLayout` describes, an address inside a segment of the main area has that
  -- segment's number.
  pub get_segno-start_block : get_segno g (start_block g segno + off) ≡ segno
  unfolding get_segno get_segno_from_seg0
  get_segno-start_block =
      let q = segno + g.start_segno in
      ground (
        arith,
        start_block-lt,
        not_null,
        segoff_plain g segno off v h p,
        div_lem q (2 ^ g.log_blocks_per_seg) off (omega (arith, v.blocks)),
        q_small,
      )
    where
      q_small : segno + g.start_segno < 2 ^ 32
      q_small = grind arith

  -- On a volume that `IsLayout` describes, the offset of an address inside a segment of the main area is its distance from the
  -- first block of the segment.
  pub block_offset-start_block : block_offset g (start_block g segno + off) ≡ off
  unfolding block_offset
  block_offset-start_block =
      rw (segoff_plain g segno off v h p, v.blocks) (mod_lem _ _ off (omega (arith, v.blocks)))

pub block_offset-lt :
    (g : Geometry) (blk_addr : ℕ) → IsLayout g → block_offset g blk_addr < g.blocks_per_seg
unfolding block_offset
block_offset-lt g blk_addr v = omega (arith, v.blocks, v.blocks_pos)
