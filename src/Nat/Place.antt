-- ===== src/Nat/Place.antt =====
-- A NAT block moves between its two places.
use f2fs.Base.{
  ℕ, ◌+◌, ◌*◌, ◌/◌, ◌%◌, ◌^◌, ◌<◌, ◌≤◌, ◌≡◌, ◌≢◌, ap, ◌∙◌, sym, Bool, true, false, not, arith,
  length, ◌==◌, Bool-cases, inl, inr, update, bit, List,
}
use f2fs.Bits.{f2fs_test_bit}
use f2fs.Bits.Laws.{
  bits, IsBytes, f2fs_test_bit-bits, bits-f2fs_set_bit, bits-f2fs_clear_bit, f2fs_set_bit-IsBytes,
  f2fs_clear_bit-IsBytes,
}
use f2fs.Nat.{NatInfo, nat_block_offset, current_nat_addr, next_nat_addr, set_to_next_nat}

-- The bitmap has a bit for each of the `blocks` blocks, and both copies have 32-bit addresses.
pub record IsNatArea (log blocks : ℕ) (n : NatInfo) : Type 0 where
  pub bytes : IsBytes n.nat_bitmap
  pub size : blocks ≤ 8 * length n.nat_bitmap
  pub power : 0 < 2 ^ log
  pub fits : n.nat_blkaddr + 2 * blocks + 2 * 2 ^ log < 2 ^ 32

-- The place of a block behind the area's start.
place : ℕ → ℕ → Bool → ℕ
place log off second = (off / 2 ^ log * 2 + bit second) * 2 ^ log + off % 2 ^ log

pair_lem : (b q r : ℕ) → r < b → (q * b + r) / b ≡ q
pair_lem b q r h = grind arith

module _ (log blocks : ℕ) (n : NatInfo) (v : IsNatArea log blocks n) where
  place-le : (off : ℕ) (second : Bool) → place log off second ≤ 2 * off + 2 ^ log
  unfolding place
  place-le off second = grind (arith, v.power)

  -- The side that a place is on.
  place_side : (off : ℕ) (second : Bool) → place log off second / 2 ^ log % 2 ≡ bit second
  unfolding place
  place_side off second =
      let q =
        pair_lem (2 ^ log) (off / 2 ^ log * 2 + bit second) (off % 2 ^ log)
          (omega (arith, v.power)) in
      ground (arith, q)

  other_place : (off : ℕ) → place log off true ≡ place log off false + 2 ^ log
  unfolding place
  other_place off = grind arith

  current_place :
      (bytes : List ℕ) (start : ℕ)
      → IsBytes bytes
      → nat_block_offset start < blocks
      → current_nat_addr log (record n { nat_bitmap = bytes }) start
        ≡ n.nat_blkaddr + place log (nat_block_offset start) (bits bytes (nat_block_offset start))
  unfolding current_nat_addr
  current_place bytes start b h =
      let off = nat_block_offset start in
      let first : place log off false ≡ off / 2 ^ log * 2 ^ log * 2 + off % 2 ^ log =
        (unfold place in grind arith) in
      ground (
        arith,
        v.fits,
        first,
        other_place off,
        place-le off true,
        place-le off false,
        f2fs_test_bit-bits off bytes b,
      )

  next_place :
      (off : ℕ) (second : Bool)
      → off < blocks
      → next_nat_addr log n (n.nat_blkaddr + place log off second)
        ≡ n.nat_blkaddr + place log off (not second)
  unfolding next_nat_addr
  next_place off true h =
      ground (arith, v.fits, other_place off, place-le off true, place_side off true)
  next_place off false h =
      ground (
        arith,
        v.fits,
        other_place off,
        place-le off true,
        place-le off false,
        place_side off false,
      )

  module _ (start : ℕ) (h : nat_block_offset start < blocks) where
    old_bit : Bool
    old_bit = bits n.nat_bitmap (nat_block_offset start)

    toggled :
        (nr : ℕ)
        → bits (set_to_next_nat n start).nat_bitmap nr
          ≡ update (bits n.nat_bitmap) (nat_block_offset start) (not old_bit) nr
    unfolding set_to_next_nat old_bit
    toggled nr =
        let off = nat_block_offset start in
        let range : off / 8 < length n.nat_bitmap = omega (arith, v.size) in
        let test = f2fs_test_bit-bits off n.nat_bitmap v.bytes in
        elim (Bool-cases (bits n.nat_bitmap off)) [
          | inl e ↦
              let t : (f2fs_test_bit off n.nat_bitmap == 0) ≡ false = ground arith in
              rw (t, e) (bits-f2fs_clear_bit off nr n.nat_bitmap v.bytes range)
          | inr e ↦
              let t : (f2fs_test_bit off n.nat_bitmap == 0) ≡ true = ground arith in
              rw (t, e) (bits-f2fs_set_bit off nr n.nat_bitmap v.bytes range)
        ]

    toggled-IsBytes : IsBytes (set_to_next_nat n start).nat_bitmap
    unfolding set_to_next_nat
    toggled-IsBytes =
        let off = nat_block_offset start in
        elim (Bool-cases (f2fs_test_bit off n.nat_bitmap == 0)) [
          | inl e ↦ rw e (f2fs_set_bit-IsBytes off n.nat_bitmap v.bytes)
          | inr e ↦ rw e (f2fs_clear_bit-IsBytes off n.nat_bitmap v.bytes)
        ]

    same_start :
        set_to_next_nat n start ≡ record n { nat_bitmap = (set_to_next_nat n start).nat_bitmap }
    unfolding set_to_next_nat
    same_start = ground arith

    -- In a node address table inside 32-bit block addresses, once `set_to_next_nat` has run the current
    -- address of a node id's block is the one that `next_nat_addr` named before; every node id of
    -- another block keeps its address.
    pub current_nat_addr-set_to_next_nat :
        (current_nat_addr log (set_to_next_nat n start) start
          ≡ next_nat_addr log n (current_nat_addr log n start))
        × ((other : ℕ)
            → nat_block_offset other < blocks
            → nat_block_offset other ≢ nat_block_offset start
            → current_nat_addr log (set_to_next_nat n start) other ≡ current_nat_addr log n other)
    unfolding old_bit
    current_nat_addr-set_to_next_nat =
        let off = nat_block_offset start in
        let map = (set_to_next_nat n start).nat_bitmap in
        let here : bits map off ≡ not (bits n.nat_bitmap off) = ground (arith, toggled off) in
        (
          ap (λ m. current_nat_addr log m start) same_start
              ∙ current_place map start toggled-IsBytes h
              ∙ ap (λ b. n.nat_blkaddr + place log off b) here
              ∙ sym (next_place off (bits n.nat_bitmap off) h)
              ∙ ap (next_nat_addr log n) (sym (current_place n.nat_bitmap start v.bytes h)),
          λ other p ne.
              let there : bits map (nat_block_offset other)
                  ≡ bits n.nat_bitmap (nat_block_offset other) =
                ground (arith, toggled (nat_block_offset other)) in
              ap (λ m. current_nat_addr log m other) same_start
              ∙ current_place map other toggled-IsBytes p
              ∙ ap (λ b. n.nat_blkaddr + place log (nat_block_offset other) b) there
              ∙ sym (current_place n.nat_bitmap other v.bytes p),
        )
