-- ===== src/Segment/Sit/Update.antt =====
-- `update_sit_entry`: when it meets a `BUG_ON`, and what it keeps when it does not.
use f2fs.Base.{
  ℕ, zero, suc, ◌+◌, ◌/◌, ◌<◌, ◌≤◌, ◌≡◌, ◌↔◌, ◌≢◌, refl, subst, some_inj, sym, ◌∙◌, true, false,
  not, List, length, some, none, arith, bit, weight, weight-le, Bool-cases, inl, inr, Option-cases,
  ◌==◌, if◌then◌else◌, >>=-eq-some,
}
use f2fs.Bits.{f2fs_test_bit}
use f2fs.Bits.Laws.{bits, f2fs_test_bit-bits}
use f2fs.Segment.Geometry.{Geometry, IsLayout}
use f2fs.Segment.Sit.{
  SegEntry, Delta, plus, minus, new_vblocks, flip_valid, update_entry, add_delta,
}
use f2fs.Segment.Sit.Invariant.{
  IsEntry, IsFlip, adds, either, flip_valid-IsFlip, flip_valid-none, valid_count, ckpt_kept,
  ckpt_moved, small_counts,
}

new_vblocks_lem :
    (g : Geometry) (del : Delta) (x : ℕ) {y : ℕ}
    → new_vblocks g del x ≡ some y
    → y + bit (not (adds del)) ≡ x + bit (adds del)
unfolding new_vblocks
new_vblocks_lem g plus x e = ground arith
new_vblocks_lem g minus zero e = cc
new_vblocks_lem g minus (suc x) e = ground arith

new_vblocks-none :
    (g : Geometry) (del : Delta) (x : ℕ)
    → g.blocks_per_seg ≤ 512
    → x + bit (adds del) ≤ g.blocks_per_seg
    → bit (not (adds del)) ≤ x
    → new_vblocks g del x ≢ none
unfolding new_vblocks
new_vblocks-none g plus x h p q = ground arith
new_vblocks-none g minus zero h p q = absurd (omega arith)
new_vblocks-none g minus (suc x) h p q = ground arith

-- A counter that does not reach its limits moves by one.
delta_lem :
    (del : Delta) (x y : ℕ)
    → x ≤ 512
    → y + bit (not (adds del)) ≡ x + bit (adds del)
    → add_delta 16 del x ≡ y
delta_lem plus x y h e = omega arith
delta_lem minus x y h e = omega arith

-- What a successful change of one block leaves.
pub record IsUpdated (g : Geometry) (del : Delta) (offset mtime : ℕ) (se se' : SegEntry)
    : Type 0 where
  pub flip : IsFlip del offset se.cur_valid_map se'.cur_valid_map
  pub entry : IsEntry g se'
  pub count : se'.valid_blocks + bit (not (adds del)) ≡ se.valid_blocks + bit (adds del)
  pub stamped : se'.mtime ≡ mtime
  pub same_type : se'.type_ ≡ se.type_
  pub same_ckpt : se'.ckpt_valid_map ≡ se.ckpt_valid_map

module _ (g : Geometry) (v : IsLayout g) (offset : ℕ) (h : offset < g.blocks_per_seg) where
  module _ (del : Delta) (mtime : ℕ) (se : SegEntry) (inv : IsEntry g se) where
    in_map : offset / 8 < length se.cur_valid_map
    in_map = omega (arith, inv.cur_size, v.map_size)

    ckpt_count :
        (map' : List ℕ)
        → IsFlip del offset se.cur_valid_map map'
        → (if f2fs_test_bit offset se.ckpt_valid_map == 0
            then add_delta 16 del se.ckpt_valid_blocks
            else se.ckpt_valid_blocks)
          ≡ weight g.blocks_per_seg (either (bits map') (bits se.ckpt_valid_map))
    ckpt_count map' f =
        let small = small_counts g v offset h del se map' inv f in
        let test = f2fs_test_bit-bits offset se.ckpt_valid_map inv.ckpt_bytes in
        elim (Bool-cases (bits se.ckpt_valid_map offset)) [
          | inl e ↦
              let held : (f2fs_test_bit offset se.ckpt_valid_map == 0) ≡ false = ground arith in
              rw held (sym (ckpt_kept g v offset h del se map' inv f e))
          | inr e ↦
              let new : (f2fs_test_bit offset se.ckpt_valid_map == 0) ≡ true = ground arith in
              rw new (
                delta_lem del se.ckpt_valid_blocks _ small.1
                  (ckpt_moved g v offset h del se map' inv f e))
        ]

    pub update_entry-IsUpdated :
        {se' : SegEntry}
        → update_entry g offset del mtime se ≡ some se'
        → IsUpdated g del offset mtime se se'
    unfolding update_entry
    update_entry-IsUpdated {se'} e =
        let (vblocks, e1, r1) = >>=-eq-some (new_vblocks g del se.valid_blocks) _ e in
        let (map', e2, r2) = >>=-eq-some (flip_valid del offset se.cur_valid_map) _ r1 in
        let f = flip_valid-IsFlip del offset se.cur_valid_map inv.cur_bytes in_map e2 in
        subst (IsUpdated g del offset mtime se) (some_inj r2) (record {
          flip = f;
          entry = record {
            cur_bytes = f.bytes;
            ckpt_bytes = inv.ckpt_bytes;
            cur_size = f.size ∙ inv.cur_size;
            valid = omega (
              arith,
              new_vblocks_lem g del se.valid_blocks e1,
              valid_count g v offset h del se map' inv f,
            );
            ckpt = ckpt_count map' f;
          };
          count = new_vblocks_lem g del se.valid_blocks e1;
          stamped = refl;
          same_type = refl;
          same_ckpt = refl;
        })

    -- An entry refuses exactly a change that would leave its bit as it is.
    pub update_entry-none :
        (update_entry g offset del mtime se ≡ none) ↔ (bits se.cur_valid_map offset ≡ adds del)
    unfolding update_entry
    update_entry-none = (forward, backward)
      where
        forward :
            update_entry g offset del mtime se ≡ none → bits se.cur_valid_map offset ≡ adds del
        forward e = elim (Option-cases (flip_valid del offset se.cur_valid_map)) [
          | inl r ↦ (flip_valid-none del offset se.cur_valid_map inv.cur_bytes).0 r
          | inr (map', r) ↦ absurd (refused map' r e)
        ]
          where
            refused :
                (map' : List ℕ)
                → flip_valid del offset se.cur_valid_map ≡ some map'
                → update_entry g offset del mtime se ≢ none
            refused map' r e =
                let f = flip_valid-IsFlip del offset se.cur_valid_map inv.cur_bytes in_map r in
                let n = valid_count g v offset h del se map' inv f in
                let m = weight-le g.blocks_per_seg (bits map') in
                let k = weight-le g.blocks_per_seg (bits se.cur_valid_map) in
                ground (arith, new_vblocks-none g del se.valid_blocks v.map_size, inv.valid, e)

        backward :
            bits se.cur_valid_map offset ≡ adds del → update_entry g offset del mtime se ≡ none
        backward q =
            let r = (flip_valid-none del offset se.cur_valid_map inv.cur_bytes).1 q in
            ground (arith, r)
