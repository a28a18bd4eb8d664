-- ===== src/Hash.antt =====
-- The hash of a file name: fs/f2fs/hash.c. A name is a list of bytes; `char` is signed, so a byte
-- above 127 is extended with ones. `len` is the length of the list, and words are of 32 bits.
pub mod Words
mod Tests
use f2fs.Base.{
  ℕ, zero, suc, ◌+◌, ◌-◌, ◌*◌, ◌/◌, ◌%◌, ◌^◌, List, [], ◌∷◌, bit_or, bit_xor, add32, u32, ltb, ◌==◌,
  if◌then◌else◌, get_or, take, drop, replicate, length, min,
}

abbrev pub delta : ℕ
delta = 0x9E3779B9

-- `b0 += ((b1 << 4)+a) ^ (b1+sum) ^ ((b1 >> 5)+b)`
pub mix : ℕ → ℕ → ℕ → ℕ → ℕ → ℕ
mix sum x y k l =
    add32 x (bit_xor (bit_xor (add32 (u32 (y * 2 ^ 4)) k) (add32 y sum)) (add32 (y / 2 ^ 5) l))

-- The loop, with `n` rounds to go.
rounds : ℕ → ℕ → List ℕ → ℕ → ℕ → ℕ × ℕ
rounds zero sum key b0 b1 = (b0, b1)
rounds (suc n) sum key b0 b1 =
    let sum' = add32 sum delta in
    let b0' = mix sum' b0 b1 (get_or key 0 0) (get_or key 1 0) in
    let b1' = mix sum' b1 b0' (get_or key 2 0) (get_or key 3 0) in rounds n sum' key b0' b1'

-- The first two words of `buf`, which are all that it reads and writes.
pub tea_transform : ℕ × ℕ → List ℕ → ℕ × ℕ
unfolding rounds
tea_transform buf key = let r = rounds 16 0 key buf.0 buf.1 in (add32 buf.0 r.0, add32 buf.1 r.1)

-- `msg[i]` as an `unsigned`.
abbrev pub signed : ℕ → ℕ
signed c = if ltb c 128 then c else c + (2 ^ 32 - 256)

abbrev pub pad_of : ℕ → ℕ
pad_of len = let pad = bit_or (u32 len) (u32 (len * 2 ^ 8)) in bit_or pad (u32 (pad * 2 ^ 16))

-- The loop over the bytes from number `i` on, and what follows it, with `num` words still to write.
pub fill : ℕ → List ℕ → ℕ → ℕ → ℕ → List ℕ
fill pad [] i val zero = []
fill pad [] i val (suc num) = val ∷ replicate num pad
fill pad (c ∷ msg) i val num =
    let start = if i % 4 == 0 then pad else val in
    let val' = add32 (signed c) (u32 (start * 2 ^ 8)) in
    let full = i % 4 == 3 in
    let rest = fill pad msg (i + 1) (if full then pad else val') (if full then num - 1 else num) in
    if full then val' ∷ rest else rest

pub str2hashbuf : List ℕ → ℕ → List ℕ
str2hashbuf msg num = let pad = pad_of (length msg) in fill pad (take (num * 4) msg) 0 pad num

-- The `while (len > 0)` loop, 16 bytes in each round.
pub absorb : ℕ → List ℕ → ℕ × ℕ → ℕ × ℕ
absorb zero name buf = buf
absorb (suc fuel) [] buf = buf
absorb (suc fuel) (c ∷ name) buf =
    absorb fuel (drop 15 name) (tea_transform buf (str2hashbuf (c ∷ name) 4))

-- A round takes a byte at least, so the length of the name is enough fuel. The mask of
-- `F2FS_HASH_COL_BIT`, bit 63, is taken on 64 bits and the result cut to 32.
pub f2fs_dentry_hash : List ℕ → ℕ
f2fs_dentry_hash name =
    let buf = absorb (length name) name (0x67452301, 0xefcdab89) in buf.0 % 2 ^ 63 % 2 ^ 32
