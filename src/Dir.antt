-- ===== src/Dir.antt =====
-- A directory: fs/f2fs/dir.c with `f2fs_dir_entry` and `f2fs_dentry_block` of
-- include/linux/f2fs_fs.h. A block has 214 slots, each with a bit, an entry and 8 bytes of name; a
-- name of more bytes takes the slots that follow. The rows of `filename` are one array of bytes.
-- The pages of the directory are a map, in which a page that cannot be read is missing. `int` and
-- `unsigned long` values are kept as numbers below 2 ^ 64, a negative one in two's complement.
-- Times, the dirty marks and counts of pages and the kinds of file are not modelled.
pub mod Room
pub mod Block
pub mod Change
pub mod Add
pub mod Lookup
pub mod Delete
pub mod Tree
mod Tests
use f2fs.Base.{
  ℕ, zero, suc, ◌+◌, ◌-◌, ◌*◌, ◌/◌, ◌%◌, ◌^◌, Bool, true, false, not, ◌&&◌, ◌||◌, Option, none,
  some, List, [], ◌∷◌, length, update, set_bit, clear_bit, Bitmap, BitSearch, u32, ltb, leb, ◌==◌,
  if◌then◌else◌, min, ◌>>=◌,
}
use f2fs.Hash.{f2fs_dentry_hash}

abbrev pub nr_dentry_in_block : ℕ
nr_dentry_in_block = 214

abbrev pub f2fs_name_len : ℕ
f2fs_name_len = 8

abbrev pub max_dir_hash_depth : ℕ
max_dir_hash_depth = 63

pub record DirEntry : Type 0 where
  pub hash_code : ℕ
  pub ino : ℕ
  pub name_len : ℕ

pub record DentryBlock : Type 0 where
  pub dentry_bitmap : Bitmap
  pub dentry : ℕ → DirEntry
  pub filename : ℕ → ℕ

-- `(namelen + F2FS_NAME_LEN - 1) / F2FS_NAME_LEN`
unfoldable pub slots_of : ℕ → ℕ
slots_of name_len = (name_len + 7) / 8

pub dir_buckets : ℕ → ℕ
dir_buckets level = if ltb level 31 then 2 ^ level else 2 ^ 30

pub bucket_blocks : ℕ → ℕ
bucket_blocks level = if ltb level 31 then 2 else 4

-- The products are of `unsigned int`s, the sum is 64 bits wide.
pub blocks_below : ℕ → ℕ
blocks_below zero = 0
blocks_below (suc level) = blocks_below level + u32 (dir_buckets level * bucket_blocks level)

pub dir_block_index : ℕ → ℕ → ℕ
dir_block_index level idx = blocks_below level + u32 (idx * bucket_blocks level)

pub early_match_name : ℕ → ℕ → DirEntry → Bool
early_match_name namelen namehash de = de.name_len == namelen && de.hash_code == namehash

-- `memcmp(…) == 0` and `memcpy` with the bytes from number `at` on.
pub same_bytes : (ℕ → ℕ) → ℕ → List ℕ → Bool
same_bytes bytes at [] = true
same_bytes bytes at (c ∷ name) = bytes at == c && same_bytes bytes (at + 1) name

pub copy_bytes : (ℕ → ℕ) → ℕ → List ℕ → ℕ → ℕ
copy_bytes bytes at [] = bytes
copy_bytes bytes at (c ∷ name) = copy_bytes (update bytes at c) (at + 1) name

-- A 64-bit value cut to an `int` and extended again.
pub as_int : ℕ → ℕ
as_int n = let low = n % 2 ^ 32 in if ltb low (2 ^ 31) then low else low + (2 ^ 64 - 2 ^ 32)

-- Whether the entry of a slot is the one that is looked for.
pub is_match : DentryBlock → List ℕ → ℕ → ℕ → Bool
is_match b name namehash bit_pos =
    early_match_name (length name) namehash (b.dentry bit_pos)
    && same_bytes b.filename (bit_pos * 8) name

module _ (search : BitSearch) where
  -- The loop of `find_in_block`, from a bit that it has found: the slot of the entry, if there is one,
  -- and `max_slots`. Without fuel there is no result; a round moves on by a slot at least, unless an
  -- entry has an empty name.
  pub find_from : ℕ → DentryBlock → List ℕ → ℕ → ℕ → ℕ → Option (Option ℕ × ℕ)
  find_from zero b name namehash max_slots bit_pos = none
  find_from (suc fuel) b name namehash max_slots bit_pos =
      let next_pos = bit_pos + slots_of (b.dentry bit_pos).name_len in
      let bit_pos' = search.find_next_bit b.dentry_bitmap nr_dentry_in_block next_pos in
      let end_pos = if leb nr_dentry_in_block bit_pos' then nr_dentry_in_block else bit_pos' in
      let gap = (end_pos + 2 ^ 64 - next_pos) % 2 ^ 64 in
      let rest =
        find_from fuel b name namehash (if ltb max_slots gap then as_int gap else max_slots)
          bit_pos' in
      if leb nr_dentry_in_block bit_pos
      then some (none, max_slots)
      else if is_match b name namehash bit_pos
      then some (some bit_pos, max_slots)
      else rest

  pub find_in_block : DentryBlock → List ℕ → ℕ → ℕ → Option (Option ℕ × ℕ)
  find_in_block b name namehash max_slots =
      find_from (nr_dentry_in_block + 1) b name namehash max_slots
        (search.find_next_bit b.dentry_bitmap nr_dentry_in_block 0)

  -- The loop of `room_for_filename`. A round passes a set bit at least.
  pub room_from : ℕ → Bitmap → ℕ → ℕ → Option ℕ
  room_from zero bitmap slots bit_start = none
  room_from (suc fuel) bitmap slots bit_start =
      let zero_start = search.find_next_zero_bit bitmap nr_dentry_in_block bit_start in
      let zero_end = search.find_next_bit bitmap nr_dentry_in_block zero_start in
      let rest = room_from fuel bitmap slots (zero_end + 1) in
      if leb nr_dentry_in_block zero_start
      then some nr_dentry_in_block
      else if leb slots (zero_end - zero_start)
      then some zero_start
      else if leb nr_dentry_in_block (zero_end + 1)
      then some nr_dentry_in_block
      else rest

  pub room_for_filename : Bitmap → ℕ → Option ℕ
  room_for_filename bitmap slots = room_from (nr_dentry_in_block + 1) bitmap slots 0

-- `test_and_set_bit_le` and `test_and_clear_bit_le` of `slots` bits, from the first on.
pub set_bits : ℕ → ℕ → Bitmap → Bitmap
set_bits zero bit_pos bitmap = bitmap
set_bits (suc slots) bit_pos bitmap = set_bits slots (bit_pos + 1) (set_bit bit_pos bitmap)

pub clear_bits : ℕ → ℕ → Bitmap → Bitmap
clear_bits zero bit_pos bitmap = bitmap
clear_bits (suc slots) bit_pos bitmap = clear_bits slots (bit_pos + 1) (clear_bit bit_pos bitmap)

-- What `f2fs_add_link` does to the block behind `add_dentry`.
pub add_dentry : DentryBlock → ℕ → List ℕ → ℕ → ℕ → DentryBlock
add_dentry b bit_pos name dentry_hash ino = record {
  dentry_bitmap = set_bits (slots_of (length name)) bit_pos b.dentry_bitmap;
  dentry =
      update b.dentry bit_pos
        (record { hash_code = dentry_hash; ino = ino; name_len = length name });
  filename = copy_bytes b.filename (bit_pos * 8) name;
}

-- What `f2fs_delete_entry` does to it.
pub delete_dentry : DentryBlock → ℕ → DentryBlock
delete_dentry b bit_pos = record b {
  dentry_bitmap = clear_bits (slots_of (b.dentry bit_pos).name_len) bit_pos b.dentry_bitmap;
}
