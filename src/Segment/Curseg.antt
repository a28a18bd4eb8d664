-- ===== src/Segment/Curseg.antt =====
-- The six logs: `curseg_info` of fs/f2fs/segment.h, the summary block of
-- include/linux/f2fs_fs.h, and the functions of fs/f2fs/segment.c that move the next free block.
-- A byte array holds the journal of a summary block; only whole summary blocks are copied here.
pub mod Laws
use f2fs.Base.{
  ℕ, zero, suc, ◌+◌, ◌-◌, ◌%◌, ◌^◌, Bool, true, false, ◌&&◌, ◌||◌, leb, ltb, ◌==◌, if◌then◌else◌,
  List, [], set,
}
use f2fs.Bits.{f2fs_test_bit}
use f2fs.Segment.Geometry.{Geometry, get_zoneno_from_segno, null_segno, start_block}
use f2fs.Segment.Sit.{SitInfo, SegEntry, set_sit_entry_type}

pub record Summary : Type 0 where
  pub nid : ℕ
  pub version : ℕ
  pub ofs_in_node : ℕ

-- `set_summary`, with the offset cut to 16 bits.
pub set_summary : ℕ → ℕ → ℕ → Summary
set_summary nid ofs_in_node version = record {
  nid = nid;
  version = version;
  ofs_in_node = ofs_in_node % 2 ^ 16;
}

pub record SummaryBlock : Type 0 where
  pub entries : List Summary
  pub journal : List ℕ
  pub entry_type : ℕ
  pub check_sum : ℕ

-- `enum { LFS = 0, SSR }`
pub data AllocType : Type 0 where
  lfs ssr : AllocType

pub record Curseg : Type 0 where
  pub sum_blk : SummaryBlock
  pub alloc_type : AllocType
  pub segno : ℕ
  pub next_blkoff : ℕ
  pub zone : ℕ
  pub next_segno : ℕ

-- `CURSEG_HOT_DATA` to `CURSEG_COLD_NODE`
abbrev pub hot_data : ℕ
hot_data = 0

abbrev pub warm_data : ℕ
warm_data = 1

abbrev pub cold_data : ℕ
cold_data = 2

abbrev pub hot_node : ℕ
hot_node = 3

abbrev pub warm_node : ℕ
warm_node = 4

abbrev pub cold_node : ℕ
cold_node = 5

abbrev pub is_dataseg : ℕ → Bool
is_dataseg t = t == hot_data || t == cold_data || t == warm_data

abbrev pub is_nodeseg : ℕ → Bool
is_nodeseg t = t == hot_node || t == cold_node || t == warm_node

-- The footer is cleared, then `SET_SUM_TYPE` with 0 for data and 1 for nodes.
pub reset_footer : ℕ → SummaryBlock → SummaryBlock
reset_footer ty b = record b { entry_type = if is_nodeseg ty then 1 else 0; check_sum = 0 }

unfoldable pub reset_curseg : Geometry → SitInfo → Curseg → ℕ → Bool → Curseg × SitInfo
reset_curseg g s c ty modified = (
  record c {
    segno = c.next_segno;
    zone = get_zoneno_from_segno g c.next_segno;
    next_blkoff = 0;
    next_segno = null_segno;
    sum_blk = reset_footer ty c.sum_blk;
  },
  set_sit_entry_type s ty c.next_segno modified,
)

-- The loop of `__next_free_blkoff` from `ofs`, with `left` blocks to the segment's end: the first
-- block that is valid neither now nor at the last checkpoint.
free_blkoff : SegEntry → ℕ → ℕ → ℕ
free_blkoff se zero ofs = ofs
free_blkoff se (suc left) ofs =
    let rest = free_blkoff se left (ofs + 1) in
    if f2fs_test_bit ofs se.ckpt_valid_map == 0 && f2fs_test_bit ofs se.cur_valid_map == 0
    then ofs
    else rest

-- The result is stored in an `unsigned short`.
pub next_free_blkoff : Geometry → SitInfo → Curseg → ℕ → Curseg
unfolding free_blkoff
next_free_blkoff g s c start = record c {
  next_blkoff = free_blkoff (s.sentries c.segno) (g.blocks_per_seg - start) start % 2 ^ 16;
}

unfoldable pub refresh_next_blkoff : Geometry → SitInfo → Curseg → Curseg
refresh_next_blkoff g s c = elim c.alloc_type [
  | ssr ↦ next_free_blkoff g s c (c.next_blkoff + 1)
  | lfs ↦ record c { next_blkoff = (c.next_blkoff + 1) % 2 ^ 16 }
]

unfoldable pub has_curseg_space : Geometry → Curseg → Bool
has_curseg_space g c = ltb c.next_blkoff g.blocks_per_seg

-- `NEXT_FREE_BLKADDR`
unfoldable pub next_free_blkaddr : Geometry → Curseg → ℕ
next_free_blkaddr g c = (start_block g c.segno + c.next_blkoff) % 2 ^ 64

-- `__add_sum_entry`
unfoldable pub add_sum_entry : Curseg → Summary → ℕ → Curseg
add_sum_entry c sum offset = record c {
  sum_blk = record (c.sum_blk) { entries = set (c.sum_blk).entries offset sum };
}
