-- ===== src/Segment/Sit.antt =====
-- Segment information: `seg_entry`, `sec_entry` and `sit_info` of fs/f2fs/segment.h, the raw entry
-- `f2fs_sit_entry` of include/linux/f2fs_fs.h, and the functions of fs/f2fs/segment.c that count
-- valid blocks. The clock is an argument (`now`, in seconds); `sentry_lock` is held throughout, so
-- each function is one step; a `BUG_ON` that is met gives `none`.
pub mod Raw
pub mod Invariant
pub mod Update
pub mod Totals
pub mod Types
pub mod Place
pub mod Flush
use f2fs.Base.{
  ℕ, zero, suc, ◌+◌, ◌-◌, ◌*◌, ◌/◌, ◌%◌, ◌^◌, Bool, true, false, not, ◌||◌, Bitmap, set_bit, update,
  add64, sub64, ltb, leb, ◌==◌, if◌then◌else◌, Option, none, some, List, bug_on, ◌>>=◌, ◌>>◌,
  bit_or,
}
use f2fs.Bits.{f2fs_test_bit, f2fs_set_bit, f2fs_clear_bit}
use f2fs.Segment.Geometry.{
  Geometry, get_segno, get_secno, block_offset, null_segno, null_addr, new_addr,
}

-- The maps are `SIT_VBLOCK_MAP_SIZE` = 64 bytes; `memcpy` copies a whole one.
pub record SegEntry : Type 0 where
  pub valid_blocks : ℕ
  pub cur_valid_map : List ℕ
  pub ckpt_valid_blocks : ℕ
  pub ckpt_valid_map : List ℕ
  pub type_ : ℕ
  pub mtime : ℕ

pub record SitEntry : Type 0 where
  pub vblocks : ℕ
  pub valid_map : List ℕ
  pub raw_mtime : ℕ

pub record SitInfo : Type 0 where
  pub sentries : ℕ → SegEntry
  -- `sec_entries[..].valid_blocks`
  pub sec_entries : ℕ → ℕ
  pub written_valid_blocks : ℕ
  pub dirty_sentries : ℕ
  pub dirty_sentries_bitmap : Bitmap
  pub elapsed_time : ℕ
  pub mounted_time : ℕ
  pub min_mtime : ℕ
  pub max_mtime : ℕ
  pub sit_base_addr : ℕ
  pub sit_blocks : ℕ
  pub sit_bitmap : List ℕ

-- `vblocks & VBLOCKS_MASK` and `(vblocks & ~VBLOCKS_MASK) >> 10` of a 16-bit field.
pub get_sit_vblocks : SitEntry → ℕ
get_sit_vblocks rs = rs.vblocks % 2 ^ 10

pub get_sit_type : SitEntry → ℕ
get_sit_type rs = rs.vblocks % 2 ^ 16 / 2 ^ 10

pub seg_info_from_raw_sit : SitEntry → SegEntry
unfolding get_sit_vblocks get_sit_type
seg_info_from_raw_sit rs = record {
  valid_blocks = get_sit_vblocks rs;
  cur_valid_map = rs.valid_map;
  ckpt_valid_blocks = get_sit_vblocks rs;
  ckpt_valid_map = rs.valid_map;
  type_ = get_sit_type rs;
  mtime = rs.raw_mtime;
}

-- The raw entry, and the entry with its checkpoint fields brought up to date.
pub seg_info_to_raw_sit : SegEntry → SitEntry × SegEntry
seg_info_to_raw_sit se = (
  record {
    vblocks = bit_or (se.type_ * 2 ^ 10) se.valid_blocks % 2 ^ 16;
    valid_map = se.cur_valid_map;
    raw_mtime = se.mtime;
  },
  record se { ckpt_valid_map = se.cur_valid_map; ckpt_valid_blocks = se.valid_blocks },
)

unfoldable pub get_valid_blocks : Geometry → SitInfo → ℕ → Bool → ℕ
get_valid_blocks g s segno section =
    if section then s.sec_entries (get_secno g segno) else (s.sentries segno).valid_blocks

-- The loop over the bits of a map, with its counter.
count_valid : List ℕ → ℕ → ℕ → ℕ → ℕ
count_valid map zero i valid = valid
count_valid map (suc left) i valid =
    count_valid map left (i + 1) (if f2fs_test_bit i map == 0 then valid else valid + 1)

-- `end_segno` is `segment_count - 1`.
pub check_block_count : Geometry → ℕ → ℕ → SitEntry → Option (Unit {0})
unfolding count_valid
check_block_count g end_segno segno rs = do
  bug_on (ltb g.blocks_per_seg (get_sit_vblocks rs))
  bug_on (ltb end_segno segno)
  bug_on (not (get_sit_vblocks rs == count_valid rs.valid_map g.blocks_per_seg 0 0))

pub get_mtime : SitInfo → ℕ → ℕ
get_mtime s now = sub64 (add64 s.elapsed_time now) s.mounted_time

-- `del` of `update_sit_entry` is 1 or -1.
pub data Delta : Type 0 where
  plus minus : Delta

-- `x += del` on an unsigned field of `w` bits.
abbrev pub add_delta : ℕ → Delta → ℕ → ℕ
add_delta w plus x = (x + 1) % 2 ^ w
add_delta w minus x = (x + 2 ^ w - 1) % 2 ^ w

-- `new_vblocks`, with its `BUG_ON`: -1 and more than 16 bits are caught by the shift.
pub new_vblocks : Geometry → Delta → ℕ → Option ℕ
new_vblocks g plus x = do
  bug_on (leb (2 ^ 16) (x + 1) || ltb g.blocks_per_seg (x + 1))
  some (x + 1)
new_vblocks g minus zero = none
new_vblocks g minus (suc x) = do bug_on (leb (2 ^ 16) x || ltb g.blocks_per_seg x); some x

-- The bit of the block, which must change.
pub flip_valid : Delta → ℕ → List ℕ → Option (List ℕ)
flip_valid plus offset map =
    let (was, map') = f2fs_set_bit offset map in do bug_on (not (was == 0)); some map'
flip_valid minus offset map =
    let (was, map') = f2fs_clear_bit offset map in do bug_on (was == 0); some map'

-- `__mark_sit_entry_dirty`
pub mark_sit_entry_dirty : SitInfo → ℕ → SitInfo
mark_sit_entry_dirty s segno = if s.dirty_sentries_bitmap segno then s else record s {
  dirty_sentries_bitmap = set_bit segno s.dirty_sentries_bitmap;
  dirty_sentries = (s.dirty_sentries + 1) % 2 ^ 32;
}

-- `__set_sit_entry_type`
pub set_sit_entry_type : SitInfo → ℕ → ℕ → Bool → SitInfo
set_sit_entry_type s ty segno modified =
    let s' = record s {
      sentries = update s.sentries segno (record (s.sentries segno) { type_ = ty });
    } in
    if modified then mark_sit_entry_dirty s' segno else s'

-- The counters of the section and of the main area.
count_delta : Geometry → ℕ → Delta → SitInfo → SitInfo
count_delta g segno del s =
    let s' = record s { written_valid_blocks = add_delta 64 del s.written_valid_blocks } in
    if g.log_segs_per_sec == 0 then s' else record s' {
      sec_entries =
          update s.sec_entries (get_secno g segno)
            (add_delta 32 del (s.sec_entries (get_secno g segno)));
    }

-- The entry with its block count, time, map and checkpoint count changed.
abbrev pub changed_entry : ℕ → Delta → ℕ → SegEntry → ℕ → List ℕ → SegEntry
changed_entry offset del mtime se vblocks map = record se {
  valid_blocks = vblocks;
  mtime = mtime;
  cur_valid_map = map;
  ckpt_valid_blocks =
      if f2fs_test_bit offset se.ckpt_valid_map == 0
      then add_delta 16 del se.ckpt_valid_blocks
      else se.ckpt_valid_blocks;
}

pub update_entry : Geometry → ℕ → Delta → ℕ → SegEntry → Option SegEntry
update_entry g offset del mtime se = do
  vblocks ← new_vblocks g del se.valid_blocks
  map ← flip_valid del offset se.cur_valid_map
  some (changed_entry offset del mtime se vblocks map)

pub update_sit_entry : Geometry → ℕ → SitInfo → ℕ → Delta → Option SitInfo
unfolding count_delta
update_sit_entry g now s blkaddr del =
    let segno = get_segno g blkaddr in
    do
      se ← update_entry g (block_offset g blkaddr) del (get_mtime s now) (s.sentries segno)
      some (
          count_delta g segno del (
            mark_sit_entry_dirty
              (record s { sentries = update s.sentries segno se; max_mtime = get_mtime s now })
              segno))

pub refresh_sit_entry : Geometry → ℕ → SitInfo → ℕ → ℕ → Option SitInfo
refresh_sit_entry g now s old_blkaddr new_blkaddr = do
  s' ← update_sit_entry g now s new_blkaddr plus
  if get_segno g old_blkaddr == null_segno
      then some s'
      else update_sit_entry g now s' old_blkaddr minus

-- `SIT_ENTRY_PER_BLOCK`: 4096-byte pages, entries of 2 + 64 + 8 bytes.
abbrev pub sit_entry_per_block : ℕ
sit_entry_per_block = 4096 / 74

abbrev pub sit_block_offset : ℕ → ℕ
sit_block_offset segno = segno / sit_entry_per_block

-- `check_seg_range` is the first step; `end_segno` as above.
unfoldable pub current_sit_addr : ℕ → SitInfo → ℕ → Option ℕ
current_sit_addr end_segno s start =
    let offset = sit_block_offset start in
    let blk_addr = add64 s.sit_base_addr offset in
    do
      bug_on (ltb end_segno start)
      some
          (if f2fs_test_bit offset s.sit_bitmap == 0 then blk_addr else add64 blk_addr s.sit_blocks)

pub next_sit_addr : SitInfo → ℕ → ℕ
next_sit_addr s block_addr =
    let rel = sub64 block_addr s.sit_base_addr in
    add64 (if ltb rel s.sit_blocks then add64 rel s.sit_blocks else sub64 rel s.sit_blocks)
      s.sit_base_addr

pub set_to_next_sit : SitInfo → ℕ → SitInfo
set_to_next_sit s start =
    let block_off = sit_block_offset start in
    if f2fs_test_bit block_off s.sit_bitmap == 0
    then record s { sit_bitmap = (f2fs_set_bit block_off s.sit_bitmap).1 }
    else record s { sit_bitmap = (f2fs_clear_bit block_off s.sit_bitmap).1 }
