-- ===== src/Segment/Build/Maps.antt =====
-- The maps that the mount builds hold what their invariants ask for, and exactly the segments that they
-- are to hold.
use f2fs.Base.{
  ℕ, zero, suc, ◌*◌, ◌^◌, ◌<◌, ◌≤◌, ◌≡◌, refl, sym, ap, true, not, ◌&&◌, ◌||◌, arith, BitSearch,
  ltb, ◌==◌, Bool-cases, inl, inr, ℕ_discrete, false≢true, zeros,
}
use f2fs.Segment.Geometry.{Geometry, IsLayout}
use f2fs.Segment.Free.{FreeSegmap, set_test_and_inuse}
use f2fs.Segment.Free.Invariant.{IsFreeSegmap}
use f2fs.Segment.Free.Steps.{set_free-IsFreeSegmap, set_test_and_inuse-IsFreeSegmap}
use f2fs.Segment.Sit.{SitInfo}
use f2fs.Segment.Dirty.{is_curseg}
use f2fs.Segment.Build.{build_free_segmap, free_below, init_free_segmap}

module _ (search : BitSearch) (g : Geometry) (v : IsLayout g) (s : SitInfo) where
  -- At first all is in use.
  zeros_none : (n : ℕ) → zeros n (λ k. true) ≡ 0
  unfolding zeros
  zeros_none zero = refl
  zeros_none (suc n) = omega (arith, zeros_none n)

  build_free_segmap-IsFreeSegmap : IsFreeSegmap g build_free_segmap
  unfolding build_free_segmap
  build_free_segmap-IsFreeSegmap = record {
    segments = sym (zeros_none g.total_segs);
    sections = sym (zeros_none g.total_sections);
    agree = λ sec h. (
      λ e. absurd (false≢true (sym e)),
      λ u. absurd (false≢true (sym (u (sec * 2 ^ g.log_segs_per_sec) (grind (arith, v.segs_pos))))),
    );
  }

  -- The segments below `n` without a valid block are free.
  abbrev IsFreed : ℕ → FreeSegmap → Type 0
  IsFreed n f =
      IsFreeSegmap g f
      × ((k : ℕ) → f.free_segmap k ≡ not (ltb k n && (s.sentries k).valid_blocks == 0))

  free_below-IsFreed :
      (n : ℕ) → n ≤ g.total_segs → IsFreed n (free_below search g s n build_free_segmap)
  unfolding free_below build_free_segmap
  free_below-IsFreed zero h = (build_free_segmap-IsFreeSegmap, λ k. ground arith)
  free_below-IsFreed (suc n) h =
      let (inv, bits) = free_below-IsFreed n (omega arith) in
      let f = free_below search g s n build_free_segmap in
      elim (Bool-cases ((s.sentries n).valid_blocks == 0)) [
        | inl e ↦
            let (inv', change) =
              set_free-IsFreeSegmap search g v f n inv (omega arith) (ground (arith, bits n)) in
            rw (free_below, e)
              (
                inv',
                λ k. elim (ℕ_discrete k n) [
                  | yes p ↦ ground (arith, change k, p, e, ap (λ x. (s.sentries x).valid_blocks) p)
                  | no p ↦ ground (arith, change k, bits k)
                ],
              )
        | inr e ↦
            rw (free_below, e)
              (
                inv,
                λ k. elim (ℕ_discrete k n) [
                  | yes p ↦ ground (arith, bits k, p, e, ap (λ x. (s.sentries x).valid_blocks) p)
                  | no p ↦ ground (arith, bits k)
                ],
              )
      ]

  -- On the maps of `build_free_segmap`, with the logs in the main area, `init_free_segmap` gives free maps
  -- in step, in which a segment of the main area is in use exactly if it has a valid block or a log
  -- writes to it.
  pub init_free_segmap-IsFreeSegmap :
      (cur : ℕ → ℕ)
      → ((t : ℕ) → t < 6 → cur t < g.total_segs)
      → let f = init_free_segmap search g s cur build_free_segmap in
        IsFreeSegmap g f
        × ((k : ℕ)
            → k < g.total_segs
            → f.free_segmap k ≡ (is_curseg cur k || not ((s.sentries k).valid_blocks == 0)))
  unfolding init_free_segmap is_curseg
  init_free_segmap-IsFreeSegmap cur main =
      let f = free_below search g s g.total_segs build_free_segmap in
      let (inv, bits) = free_below-IsFreed g.total_segs (omega arith) in
      let (i0, b0) = set_test_and_inuse-IsFreeSegmap g v f (cur 0) inv (main 0 (omega arith)) in
      let f0 = set_test_and_inuse g f (cur 0) in
      let (i1, b1) = set_test_and_inuse-IsFreeSegmap g v f0 (cur 1) i0 (main 1 (omega arith)) in
      let f1 = set_test_and_inuse g f0 (cur 1) in
      let (i2, b2) = set_test_and_inuse-IsFreeSegmap g v f1 (cur 2) i1 (main 2 (omega arith)) in
      let f2 = set_test_and_inuse g f1 (cur 2) in
      let (i3, b3) = set_test_and_inuse-IsFreeSegmap g v f2 (cur 3) i2 (main 3 (omega arith)) in
      let f3 = set_test_and_inuse g f2 (cur 3) in
      let (i4, b4) = set_test_and_inuse-IsFreeSegmap g v f3 (cur 4) i3 (main 4 (omega arith)) in
      let f4 = set_test_and_inuse g f3 (cur 4) in
      let (i5, b5) = set_test_and_inuse-IsFreeSegmap g v f4 (cur 5) i4 (main 5 (omega arith)) in
      (i5, λ k h. ground (arith, b5 k, b4 k, b3 k, b2 k, b1 k, b0 k, bits k))
