-- ===== src/Segment/Sit/Invariant.antt =====
-- What the counters of a segment count, and what one change of a block does to a segment's entry.
use f2fs.Base.{
  ℕ, ◌+◌, ◌/◌, ◌<◌, ◌≤◌, ◌≡◌, ◌↔◌, ap, sym, ◌∙◌, Bool, true, false, ◌||◌, not, List, length, some,
  none, arith, Bitmap, bit, update, weight, weight_ext, weight-update, weight-le, ℕ_discrete,
}
use f2fs.Bits.{f2fs_set_bit, f2fs_clear_bit}
use f2fs.Bits.Laws.{
  bits, IsBytes, bits-f2fs_set_bit, bits-f2fs_clear_bit, f2fs_set_bit-was, f2fs_clear_bit-was,
  f2fs_set_bit-IsBytes, f2fs_clear_bit-IsBytes, length-f2fs_set_bit, length-f2fs_clear_bit,
}
use f2fs.Segment.Geometry.{Geometry, IsLayout}
use f2fs.Segment.Sit.{SegEntry, Delta, plus, minus, flip_valid}

abbrev pub either : Bitmap → Bitmap → Bitmap
either m m' k = m k || m' k

-- `valid_blocks` counts the blocks valid now; `ckpt_valid_blocks` counts those valid now or at the
-- last checkpoint, which no write may reuse yet.
pub record IsEntry (g : Geometry) (se : SegEntry) : Type 0 where
  pub cur_bytes : IsBytes se.cur_valid_map
  pub ckpt_bytes : IsBytes se.ckpt_valid_map
  pub cur_size : length se.cur_valid_map ≡ 64
  pub valid : se.valid_blocks ≡ weight g.blocks_per_seg (bits se.cur_valid_map)
  pub ckpt :
      se.ckpt_valid_blocks
      ≡ weight g.blocks_per_seg (either (bits se.cur_valid_map) (bits se.ckpt_valid_map))

-- The bit that a change leaves.
abbrev pub adds : Delta → Bool
adds plus = true
adds minus = false

pub record IsFlip (del : Delta) (offset : ℕ) (map map' : List ℕ) : Type 0 where
  pub was : bits map offset ≡ not (adds del)
  pub now : (k : ℕ) → bits map' k ≡ update (bits map) offset (adds del) k
  pub bytes : IsBytes map'
  pub size : length map' ≡ length map

pub flip_valid-IsFlip :
    (del : Delta) (offset : ℕ) (map : List ℕ) {map' : List ℕ}
    → IsBytes map
    → offset / 8 < length map
    → flip_valid del offset map ≡ some map'
    → IsFlip del offset map map'
unfolding flip_valid
flip_valid-IsFlip plus offset map {map'} b h e =
    let e' : (f2fs_set_bit offset map).1 ≡ map' = ground arith in
    record {
      was = ground (arith, f2fs_set_bit-was offset map b);
      now = λ k. ap (λ m. bits m k) (sym e') ∙ bits-f2fs_set_bit offset k map b h;
      bytes = rw (← e') (f2fs_set_bit-IsBytes offset map b);
      size = rw (← e') (length-f2fs_set_bit offset map);
    }
flip_valid-IsFlip minus offset map {map'} b h e =
    let e' : (f2fs_clear_bit offset map).1 ≡ map' = ground arith in
    record {
      was = ground (arith, f2fs_clear_bit-was offset map b);
      now = λ k. ap (λ m. bits m k) (sym e') ∙ bits-f2fs_clear_bit offset k map b h;
      bytes = rw (← e') (f2fs_clear_bit-IsBytes offset map b);
      size = rw (← e') (length-f2fs_clear_bit offset map);
    }

pub flip_valid-none :
    (del : Delta) (offset : ℕ) (map : List ℕ)
    → IsBytes map
    → (flip_valid del offset map ≡ none) ↔ (bits map offset ≡ adds del)
unfolding flip_valid
flip_valid-none plus offset map b = ground (arith, f2fs_set_bit-was offset map b)
flip_valid-none minus offset map b = ground (arith, f2fs_clear_bit-was offset map b)

-- One block of an entry changes.
module _ (g : Geometry) (v : IsLayout g) (offset : ℕ) (h : offset < g.blocks_per_seg) where
  module _ (del : Delta) (se : SegEntry) (map' : List ℕ) (inv : IsEntry g se)
      (f : IsFlip del offset se.cur_valid_map map') where
    pub valid_count :
        weight g.blocks_per_seg (bits map') + bit (not (adds del))
        ≡ se.valid_blocks + bit (adds del)
    valid_count = ground (
      arith,
      inv.valid,
      f.was,
      weight_ext g.blocks_per_seg (bits map') (update (bits se.cur_valid_map) offset (adds del))
          (λ k _. f.now k),
      weight-update g.blocks_per_seg offset (adds del) (bits se.cur_valid_map) h,
    )

    -- A block that the checkpoint holds counts before and after.
    pub ckpt_kept :
        bits se.ckpt_valid_map offset ≡ true
        → weight g.blocks_per_seg (either (bits map') (bits se.ckpt_valid_map))
          ≡ se.ckpt_valid_blocks
    ckpt_kept e = weight_ext g.blocks_per_seg _ _ (λ k _. same k) ∙ sym inv.ckpt
      where
        same :
            (k : ℕ)
            → either (bits map') (bits se.ckpt_valid_map) k
              ≡ either (bits se.cur_valid_map) (bits se.ckpt_valid_map) k
        same k = elim (ℕ_discrete k offset) [
          | yes r ↦ ground (arith, ap (bits se.ckpt_valid_map) r)
          | no r ↦ ground (arith, f.now k)
        ]

    pub ckpt_moved :
        bits se.ckpt_valid_map offset ≡ false
        → weight g.blocks_per_seg (either (bits map') (bits se.ckpt_valid_map))
            + bit (not (adds del))
          ≡ se.ckpt_valid_blocks + bit (adds del)
    ckpt_moved e = ground (
      arith,
      inv.ckpt,
      f.was,
      weight_ext g.blocks_per_seg (either (bits map') (bits se.ckpt_valid_map))
          (update (either (bits se.cur_valid_map) (bits se.ckpt_valid_map)) offset (adds del))
          (λ k _. moved k),
      weight-update g.blocks_per_seg offset (adds del)
          (either (bits se.cur_valid_map) (bits se.ckpt_valid_map)) h,
    )
      where
        moved :
            (k : ℕ)
            → either (bits map') (bits se.ckpt_valid_map) k
              ≡ update (either (bits se.cur_valid_map) (bits se.ckpt_valid_map)) offset (adds del) k
        moved k = elim (ℕ_discrete k offset) [
          | yes r ↦ ground (arith, f.now k, ap (bits se.ckpt_valid_map) r)
          | no r ↦ ground (arith, f.now k)
        ]

    pub small_counts : (se.valid_blocks ≤ 512) × (se.ckpt_valid_blocks ≤ 512)
    small_counts = omega (
      arith,
      inv.valid,
      inv.ckpt,
      v.map_size,
      weight-le g.blocks_per_seg (bits se.cur_valid_map),
      weight-le g.blocks_per_seg (either (bits se.cur_valid_map) (bits se.ckpt_valid_map)),
    )
