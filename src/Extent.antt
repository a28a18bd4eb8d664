-- ===== src/Extent.antt =====
-- The extent cache of an inode, one run of file blocks that lie next to each other: `extent_info`,
-- `get_extent_info` and `set_raw_extent` of fs/f2fs/f2fs.h, `check_extent_cache` and
-- `update_extent_cache` of fs/f2fs/data.c. `ext_lock` is held, so each function is one step. A page
-- offset has 64 bits; `blkbits` is the logarithm of the block size.
pub mod Laws
pub mod Update
mod Tests
use f2fs.Base.{
  ℕ, ◌+◌, ◌-◌, ◌*◌, ◌/◌, ◌^◌, Bool, true, false, ◌&&◌, leb, ltb, ◌==◌, if◌then◌else◌, add32, sub32,
  u32, sub64, add64, update, Option, none, some, bug_on, ◌>>=◌, ◌>>◌,
}
use f2fs.Segment.Geometry.{null_addr, new_addr}

pub record ExtentInfo : Type 0 where
  pub fofs : ℕ
  pub blk_addr : ℕ
  pub len : ℕ

-- `f2fs_extent`, the form on disk.
pub record RawExtent : Type 0 where
  pub raw_fofs : ℕ
  pub raw_blk_addr : ℕ
  pub raw_len : ℕ

abbrev pub get_extent_info : RawExtent → ExtentInfo
get_extent_info r = record { fofs = r.raw_fofs; blk_addr = r.raw_blk_addr; len = r.raw_len }

abbrev pub set_raw_extent : ExtentInfo → RawExtent
set_raw_extent e = record { raw_fofs = e.fofs; raw_blk_addr = e.blk_addr; raw_len = e.len }

-- `fofs + len - 1` and `blk_addr + len - 1`, of 32 bits.
abbrev pub end_fofs : ExtentInfo → ℕ
end_fofs e = sub32 (add32 e.fofs e.len) 1

abbrev pub end_blkaddr : ExtentInfo → ℕ
end_blkaddr e = sub32 (add32 e.blk_addr e.len) 1

-- What the look-up puts into the buffer head: the address of the block and the size of the run.
pub record Mapping : Type 0 where
  pub b_blocknr : ℕ
  pub b_size : ℕ

-- `total_hit_ext` and `read_hit_ext`
pub record HitCounts : Type 0 where
  pub total_hit_ext : ℕ
  pub read_hit_ext : ℕ

unfoldable pub check_extent_cache : ℕ → ExtentInfo → HitCounts → ℕ → Option Mapping × HitCounts
check_extent_cache blkbits e c pgofs =
    let c1 = record c { total_hit_ext = add32 c.total_hit_ext 1 } in
    let count = end_fofs e - pgofs + 1 in
    if e.len == 0
    then (none, c)
    else if leb e.fofs pgofs && leb pgofs (end_fofs e)
    then (
      some (record {
        b_blocknr = sub64 (add64 e.blk_addr pgofs) e.fofs;
        b_size = if ltb count ((2 ^ 32 - 1) / 2 ^ blkbits) then count * 2 ^ blkbits else 2 ^ 32 - 1;
      }),
      record c1 { read_hit_ext = add32 c1.read_hit_ext 1 },
    )
    else (none, c1)

-- "Drop and initialize the matched extent"
unfoldable pub drop_single : ExtentInfo → ℕ → ExtentInfo
drop_single e fofs = if e.len == 1 && fofs == e.fofs then record e { len = 0 } else e

-- "Split the existing extent"
unfoldable pub split : ExtentInfo → ℕ → ExtentInfo
split e fofs =
    if ltb (end_fofs e - fofs) (e.len / 2)
    then record e { len = u32 (sub64 fofs e.fofs) }
    else record {
      fofs = u32 (fofs + 1);
      blk_addr = u32 (add64 (sub64 (add64 e.blk_addr fofs) e.fofs) 1);
      len = sub32 e.len (u32 (add64 (sub64 fofs e.fofs) 1));
    }

-- The rest behind "Front merge", with `e0` as the extent was when `start_fofs` and its kin were read,
-- and whether the inode page is to be brought up to date.
unfoldable pub update_run : ExtentInfo → ExtentInfo → ℕ → ℕ → ExtentInfo × Bool
unfolding split
update_run e0 e fofs blk_addr =
    if fofs == sub64 e0.fofs 1 && blk_addr == sub64 e0.blk_addr 1
    then (
      record { fofs = sub32 e.fofs 1; blk_addr = sub32 e.blk_addr 1; len = add32 e.len 1 },
      true,
    )
    else if fofs == add64 (end_fofs e0) 1 && blk_addr == add64 (end_blkaddr e0) 1
    then (record e { len = add32 e.len 1 }, true)
    else if ltb 1 e.len && leb e0.fofs fofs && leb fofs (end_fofs e0)
    then (split e fofs, true)
    else (e, false)

-- The extent after the block at `fofs` has got a new address.
unfoldable pub update_extent : ExtentInfo → ℕ → ℕ → ExtentInfo × Bool
unfolding drop_single update_run
update_extent e0 fofs blk_addr =
    let e = drop_single e0 fofs in
    if e.len == 0
    then (
      (if blk_addr == null_addr
          then e
          else record { fofs = u32 fofs; blk_addr = u32 blk_addr; len = 1 }),
      true,
    )
    else update_run e0 e fofs blk_addr

-- `addrs` gives the address of each block of the file, where `__set_data_blkaddr` writes.
unfoldable pub update_extent_cache :
    ExtentInfo → (ℕ → ℕ) → ℕ → ℕ → Option (ExtentInfo × Bool × (ℕ → ℕ))
unfolding update_extent
update_extent_cache e addrs fofs blk_addr = do
  bug_on (blk_addr == new_addr)
  let (e', synced) = update_extent e fofs blk_addr
  some (e', synced, update addrs fofs blk_addr)
