-- ===== src/Bits.antt =====
-- The big-endian bit operations of fs/f2fs/f2fs.h (`f2fs_test_bit`, `f2fs_set_bit`,
-- `f2fs_clear_bit`) on an array of bytes: bit 0 is the top bit of byte 0. The validity maps of SIT
-- entries and the version bitmaps of SIT and NAT are such arrays. An access out of the array,
-- which C leaves undefined, reads 0 and writes nothing; the theorems ask for the range.
pub mod Bytes
pub mod Laws
mod Tests
use f2fs.Base.{ℕ, ◌-◌, ◌/◌, ◌%◌, ◌^◌, List, bit_and, bit_or, get_or, set}

-- `1 << (7 - (nr & 0x07))`
abbrev pub mask : ℕ → ℕ
mask nr = 2 ^ (7 - nr % 8)

-- `*addr` after `addr += (nr >> 3)`
abbrev pub byte_of : ℕ → List ℕ → ℕ
byte_of nr addr = get_or addr (nr / 8) 0

unfoldable pub f2fs_test_bit : ℕ → List ℕ → ℕ
f2fs_test_bit nr addr = bit_and (mask nr) (byte_of nr addr)

-- The result, and the array as it is left.
pub f2fs_set_bit : ℕ → List ℕ → ℕ × List ℕ
f2fs_set_bit nr addr =
    (bit_and (mask nr) (byte_of nr addr), set addr (nr / 8) (bit_or (byte_of nr addr) (mask nr)))

-- `~mask`, cut to a byte, is `255 - mask`.
pub f2fs_clear_bit : ℕ → List ℕ → ℕ × List ℕ
f2fs_clear_bit nr addr = (
  bit_and (mask nr) (byte_of nr addr),
  set addr (nr / 8) (bit_and (byte_of nr addr) (255 - mask nr)),
)
