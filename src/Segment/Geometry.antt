-- ===== src/Segment/Geometry.antt =====
-- Where things lie on the volume: the fields of `f2fs_sb_info` and `f2fs_sm_info` that do not
-- change after mount, and the address macros of fs/f2fs/segment.h.
pub mod Laws
use f2fs.Base.{
  ℕ, ◌+◌, ◌-◌, ◌*◌, ◌/◌, ◌%◌, ◌^◌, ◌<◌, ◌≤◌, ◌≡◌, ◌||◌, u32, add32, sub32, add64, sub64, ◌==◌,
  if◌then◌else◌,
}

pub record Geometry : Type 0 where
  pub log_blocks_per_seg : ℕ
  pub blocks_per_seg : ℕ
  pub log_segs_per_sec : ℕ
  pub segs_per_sec : ℕ
  pub secs_per_zone : ℕ
  pub total_sections : ℕ
  -- `main_segment_count`
  pub total_segs : ℕ
  pub seg0_blkaddr : ℕ
  pub ssa_blkaddr : ℕ
  -- `free_info->start_segno`
  pub start_segno : ℕ

-- What `init_sb_info` and the layout made by mkfs give: the sizes are the powers that the shifts
-- use, the sections make up the main area, and no `unsigned int` block or segment number wraps.
pub record IsLayout (g : Geometry) : Type 0 where
  pub blocks : g.blocks_per_seg ≡ 2 ^ g.log_blocks_per_seg
  pub segs : g.segs_per_sec ≡ 2 ^ g.log_segs_per_sec
  pub blocks_pos : 0 < 2 ^ g.log_blocks_per_seg
  pub segs_pos : 0 < 2 ^ g.log_segs_per_sec
  -- The validity map of a segment is 64 bytes.
  pub map_size : g.blocks_per_seg ≤ 512
  pub zone_pos : 0 < g.secs_per_zone
  pub main : g.total_segs ≡ g.total_sections * 2 ^ g.log_segs_per_sec
  pub small : g.total_segs + 2 ^ g.log_segs_per_sec < 2 ^ 32
  pub superblock_first : 0 < g.seg0_blkaddr
  pub addressable :
      g.seg0_blkaddr + (g.total_segs + g.start_segno) * 2 ^ g.log_blocks_per_seg < 2 ^ 32 - 1

abbrev pub null_addr : ℕ
null_addr = 0

-- `-1U`
abbrev pub new_addr : ℕ
new_addr = 2 ^ 32 - 1

-- `((unsigned int)(~0))`
abbrev pub null_segno : ℕ
null_segno = 2 ^ 32 - 1

-- The shift is on an `unsigned int`, the sum on a `block_t`.
pub start_block : Geometry → ℕ → ℕ
start_block g segno =
    add64 g.seg0_blkaddr (u32 (add32 segno g.start_segno * 2 ^ g.log_blocks_per_seg))

unfoldable pub get_segoff_from_seg0 : Geometry → ℕ → ℕ
get_segoff_from_seg0 g blk_addr = sub64 blk_addr g.seg0_blkaddr

unfoldable pub get_segno_from_seg0 : Geometry → ℕ → ℕ
get_segno_from_seg0 g blk_addr = get_segoff_from_seg0 g blk_addr / 2 ^ g.log_blocks_per_seg

-- Every use stores the result in an `unsigned int`.
unfoldable pub get_segno : Geometry → ℕ → ℕ
get_segno g blk_addr =
    if blk_addr == null_addr || blk_addr == new_addr
    then null_segno
    else u32 (sub64 (get_segno_from_seg0 g blk_addr) g.start_segno)

-- `GET_SEGOFF_FROM_SEG0(..) & (blocks_per_seg - 1)`: the mask is that of a power of two.
unfoldable pub block_offset : Geometry → ℕ → ℕ
block_offset g blk_addr = get_segoff_from_seg0 g blk_addr % g.blocks_per_seg

abbrev pub get_secno : Geometry → ℕ → ℕ
get_secno g segno = segno / 2 ^ g.log_segs_per_sec

pub get_zoneno_from_segno : Geometry → ℕ → ℕ
get_zoneno_from_segno g segno = get_secno g segno / g.secs_per_zone

pub get_sum_block : Geometry → ℕ → ℕ
get_sum_block g segno = add64 g.ssa_blkaddr segno
