-- ===== src/Segment/Curseg/Laws.antt =====
-- The next free block of a log is free, and no free block before it is passed over.
use f2fs.Base.{
  ℕ, zero, suc, ◌+◌, ◌-◌, ◌%◌, ◌^◌, ◌≤◌, ◌≡◌, Bool, false, ◌&&◌, not, ◌==◌, arith, Bool-cases, inl,
  inr, ℕ_discrete, IsFirst, ap, sym, ◌∙◌,
}
use f2fs.Bits.{f2fs_test_bit}
use f2fs.Bits.Laws.{bits, f2fs_test_bit-bits}
use f2fs.Segment.Geometry.{Geometry, IsLayout}
use f2fs.Segment.Sit.{SitInfo, SegEntry}
use f2fs.Segment.Sit.Invariant.{either, IsEntry}
use f2fs.Segment.Curseg.{Curseg, free_blkoff, next_free_blkoff}

module _ (g : Geometry) (se : SegEntry) (inv : IsEntry g se) where
  used : ℕ → Bool
  used = either (bits se.cur_valid_map) (bits se.ckpt_valid_map)

  test_used :
      (ofs : ℕ)
      → (f2fs_test_bit ofs se.ckpt_valid_map == 0 && f2fs_test_bit ofs se.cur_valid_map == 0)
        ≡ not (used ofs)
  unfolding used
  test_used ofs = ground (
    arith,
    f2fs_test_bit-bits ofs se.ckpt_valid_map inv.ckpt_bytes,
    f2fs_test_bit-bits ofs se.cur_valid_map inv.cur_bytes,
  )

  free_blkoff-IsFirst :
      (left ofs size : ℕ)
      → ofs + left ≡ size
      → IsFirst false used size ofs (free_blkoff se left ofs)
  unfolding free_blkoff
  free_blkoff-IsFirst zero ofs size e = record {
    in_size = omega arith;
    from_offset = λ p. omega arith;
    hit = λ p. absurd (omega arith);
    before = λ k p q. absurd (omega arith);
  }
  free_blkoff-IsFirst (suc left) ofs size e = rw (test_used ofs) (elim (Bool-cases (used ofs)) [
    | inl u ↦
        let rest = free_blkoff-IsFirst left (ofs + 1) size (omega arith) in
        rw u (record {
          in_size = rest.in_size;
          from_offset = λ p. omega (arith, rest.from_offset p);
          hit = rest.hit;
          before = λ k p q. elim (ℕ_discrete ofs k) [
            | yes same ↦ ap used (sym same) ∙ u
            | no other ↦ rest.before k (omega arith) q
          ];
        })
    | inr u ↦ rw u (record {
      in_size = omega arith;
      from_offset = λ p. omega arith;
      hit = λ p. u;
      before = λ k p q. absurd (omega arith);
    })
  ])

-- With its segment's entry in step and `start` in the segment, `__next_free_blkoff` moves a log to
-- the first block from `start` on, inside its segment, that holds valid data neither now nor at
-- the last checkpoint, and to the segment's end if there is none.
pub next_free_blkoff-IsFirst :
    (g : Geometry) (s : SitInfo) (c : Curseg) (start : ℕ)
    → IsLayout g
    → IsEntry g (s.sentries c.segno)
    → start ≤ g.blocks_per_seg
    → IsFirst false
        (either
          (bits (s.sentries c.segno).cur_valid_map)
          (bits (s.sentries c.segno).ckpt_valid_map))
        g.blocks_per_seg
        start
        (next_free_blkoff g s c start).next_blkoff
unfolding next_free_blkoff used
next_free_blkoff-IsFirst g s c start v inv h =
    let first =
      free_blkoff-IsFirst g (s.sentries c.segno) inv (g.blocks_per_seg - start) start
        g.blocks_per_seg (omega arith) in
    let plain : free_blkoff (s.sentries c.segno) (g.blocks_per_seg - start) start % 2 ^ 16
        ≡ free_blkoff (s.sentries c.segno) (g.blocks_per_seg - start) start =
      omega (arith, first.in_size, v.map_size) in
    rw plain first
