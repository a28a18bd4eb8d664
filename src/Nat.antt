-- ===== src/Nat.antt =====
-- The two places of each block of the node address table: `current_nat_addr`, `next_nat_addr` and
-- `set_to_next_nat` of fs/f2fs/node.h. The copies lie in pairs of segments. A `nid_t` is 32 bits
-- wide; the shifts of an `int` segment number do not overflow for the tables of `IsNatArea`.
pub mod Place
use f2fs.Base.{ℕ, ◌+◌, ◌-◌, ◌*◌, ◌/◌, ◌%◌, ◌^◌, List, add64, sub64, ◌==◌, if◌then◌else◌}
use f2fs.Bits.{f2fs_test_bit, f2fs_set_bit, f2fs_clear_bit}

pub record NatInfo : Type 0 where
  pub nat_blkaddr : ℕ
  pub nat_bitmap : List ℕ

-- `NAT_ENTRY_PER_BLOCK`: 4096-byte pages, entries of 9 bytes.
abbrev pub nat_entry_per_block : ℕ
nat_entry_per_block = 4096 / 9

abbrev pub nat_block_offset : ℕ → ℕ
nat_block_offset nid = nid / nat_entry_per_block

-- `log` is `log_blocks_per_seg`, and `blocks_per_seg` is its power.
pub current_nat_addr : ℕ → NatInfo → ℕ → ℕ
current_nat_addr log n start =
    let block_off = nat_block_offset start in
    let seg_off = block_off / 2 ^ log in
    let block_addr = add64 n.nat_blkaddr (seg_off * 2 ^ log * 2 + block_off % 2 ^ log) in
    if f2fs_test_bit block_off n.nat_bitmap == 0 then block_addr else add64 block_addr (2 ^ log)

pub next_nat_addr : ℕ → NatInfo → ℕ → ℕ
next_nat_addr log n block_addr =
    let rel = sub64 block_addr n.nat_blkaddr in
    add64 (if rel / 2 ^ log % 2 == 0 then add64 rel (2 ^ log) else sub64 rel (2 ^ log))
      n.nat_blkaddr

pub set_to_next_nat : NatInfo → ℕ → NatInfo
set_to_next_nat n start_nid =
    let block_off = nat_block_offset start_nid in
    if f2fs_test_bit block_off n.nat_bitmap == 0
    then record n { nat_bitmap = (f2fs_set_bit block_off n.nat_bitmap).1 }
    else record n { nat_bitmap = (f2fs_clear_bit block_off n.nat_bitmap).1 }
