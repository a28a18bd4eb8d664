-- ===== src/Dir/Room.antt =====
-- `room_for_filename` of fs/f2fs/dir.c: it finds the first run of free slots that is long enough.
use f2fs.Base.{
  ℕ, zero, suc, ◌+◌, ◌-◌, ◌<◌, ◌≤◌, ◌≡◌, true, false, arith, Bitmap, BitSearch, leb, Returns,
  Bool-cases, Returns-map, IsFirst, inl, inr, dec_lt,
}
use f2fs.Dir.{nr_dentry_in_block, room_from, room_for_filename}

-- A run of free slots within the block.
pub record IsRoom (bitmap : Bitmap) (slots p : ℕ) : Type 0 where
  pub inside : p + slots ≤ nr_dentry_in_block
  pub free : (k : ℕ) → p ≤ k → k < p + slots → bitmap k ≡ false

-- The first such run, or the end of the block without one.
pub record IsFirstRoom (bitmap : Bitmap) (slots start r : ℕ) : Type 0 where
  pub bound : r ≤ nr_dentry_in_block
  pub found : r < nr_dentry_in_block → IsRoom bitmap slots r
  pub first : (p : ℕ) → start ≤ p → p < r → IsRoom bitmap slots p → ⊥

module _ (search : BitSearch) (bitmap : Bitmap) (slots : ℕ) (some_slot : 0 < slots) where
  -- A search gives no room before the first free slot, nor from there to a set bit that is too near.
  no_room_before :
      (bit_start zero_start : ℕ)
      → IsFirst false bitmap nr_dentry_in_block bit_start zero_start
      → (p : ℕ) → bit_start ≤ p
      → p < zero_start
      → IsRoom bitmap slots p
      → ⊥
  no_room_before bit_start zero_start z p low high room =
      let set = z.before p low high in
      let clear = room.free p (omega arith) (omega arith) in ground arith

  no_room_within :
      (zero_start zero_end : ℕ)
      → IsFirst true bitmap nr_dentry_in_block zero_start zero_end
      → zero_end < zero_start + slots
      → (p : ℕ) → zero_start ≤ p
      → p ≤ zero_end
      → IsRoom bitmap slots p
      → ⊥
  no_room_within zero_start zero_end e short p low high room =
      elim (dec_lt zero_end nr_dentry_in_block) [
        | yes q ↦
            let set = e.hit q in let clear = room.free zero_end high (omega arith) in ground arith
        | no q ↦ omega (arith, room.inside, e.in_size, q)
      ]

  room_from-IsFirstRoom :
      (fuel bit_start : ℕ)
      → nr_dentry_in_block < bit_start + fuel
      → bit_start < nr_dentry_in_block
      → Returns (IsFirstRoom bitmap slots bit_start) (room_from search fuel bitmap slots bit_start)
  unfolding room_from
  room_from-IsFirstRoom zero bit_start h low = absurd (omega arith)
  room_from-IsFirstRoom (suc fuel) bit_start h low =
      let zero_start = search.find_next_zero_bit bitmap nr_dentry_in_block bit_start in
      let zero_end = search.find_next_bit bitmap nr_dentry_in_block zero_start in
      let z = search.find_next_zero_bit_lem bitmap nr_dentry_in_block bit_start in
      let e = search.find_next_bit_lem bitmap nr_dentry_in_block zero_start in
      elim (Bool-cases (leb nr_dentry_in_block zero_start)) [
        | inl full ↦ rw full (record {
          bound = omega arith;
          found = λ q. absurd (omega arith);
          first = λ p at under. no_room_before bit_start zero_start z p at (ground arith);
        })
        | inr open_slot ↦
            let inside : zero_start < nr_dentry_in_block = ground arith in
            let after : zero_start ≤ zero_end = ground (arith, e) in
            rw open_slot (elim (Bool-cases (leb slots (zero_end - zero_start))) [
              | inl long ↦ rw long (record {
                bound = omega arith;
                found = λ q. record {
                  inside = ground (arith, e.in_size);
                  free = λ k at under. e.before k at (ground arith);
                };
                first = λ p at under. no_room_before bit_start zero_start z p at under;
              })
              | inr short ↦
                  let close : zero_end < zero_start + slots = ground arith in
                  let nowhere : (p : ℕ) → bit_start ≤ p → p ≤ zero_end → IsRoom bitmap slots p → ⊥ =
                    λ p at under. elim (dec_lt p zero_start) [
                      | yes q ↦ no_room_before bit_start zero_start z p at q
                      | no q ↦ no_room_within zero_start zero_end e close p (omega arith) under
                    ] in
                  rw short (elim (Bool-cases (leb nr_dentry_in_block (zero_end + 1))) [
                    | inl last ↦ rw last (record {
                      bound = omega arith;
                      found = λ q. absurd (omega arith);
                      first = λ p at under. nowhere p at (ground arith);
                    })
                    | inr more ↦
                        let start_low : bit_start ≤ zero_start = z.from_offset inside in
                        let next_low : zero_end + 1 < nr_dentry_in_block = ground arith in
                        rw more (
                          Returns-map (IsFirstRoom bitmap slots (zero_end + 1)) _ _
                            (λ r it. record {
                              bound = it.bound;
                              found = it.found;
                              first = λ p at under. elim (dec_lt zero_end p) [
                                | yes q ↦ it.first p (omega arith) under
                                | no q ↦ nowhere p at (omega arith)
                              ];
                            })
                            (room_from-IsFirstRoom fuel (zero_end + 1) (omega arith) next_low))
                  ])
            ])
      ]

  -- For a name of at least one slot `room_for_filename` ends, and gives the first slot of the block at
  -- which that many slots are free, or 214 if the block has no such run.
  pub room_for_filename-IsFirstRoom :
      Returns (IsFirstRoom bitmap slots 0) (room_for_filename search bitmap slots)
  unfolding room_for_filename
  room_for_filename-IsFirstRoom =
      room_from-IsFirstRoom (nr_dentry_in_block + 1) 0 (omega arith) (omega arith)
