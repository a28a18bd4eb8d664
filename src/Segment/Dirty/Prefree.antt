-- ===== src/Segment/Dirty/Prefree.antt =====
-- The loops over the prefree segments, which run behind a checkpoint.
use f2fs.Base.{
  ℕ, zero, suc, ◌+◌, ◌<◌, ◌≡◌, Bool, true, false, Bitmap, arith, ap, ◌∙◌, ◌==◌, ltb, leb,
  if◌then◌else◌, dec_lt, Bool-cases, inl, inr, ◌&&◌, BitSearch, IsFirst, le→leb, lt→leb_false,
  weight_none,
}
use f2fs.Segment.Geometry.{Geometry, IsLayout}
use f2fs.Segment.Free.{FreeSegmap, set_test_and_free}
use f2fs.Segment.Free.Invariant.{IsFreeSegmap}
use f2fs.Segment.Free.Steps.{set_test_and_free-IsFreeSegmap}
use f2fs.Segment.Dirty.{
  DirtyInfo, unmark, pre, free_from, clear_from, set_prefree_as_free_segments,
  clear_prefree_segments,
}
use f2fs.Segment.Dirty.Invariant.{IsDirtyInfo, unmark_bits, unmark-IsDirtyInfo}

module _ (search : BitSearch) (g : Geometry) where
  abbrev within : ℕ → ℕ → Bool
  within offset k = leb offset k && ltb k g.total_segs

  module _ (v : IsLayout g) (m : Bitmap) where
    -- What the loop leaves of the free maps.
    abbrev IsFreed : ℕ → FreeSegmap → FreeSegmap → Type 0
    IsFreed offset f f' =
        IsFreeSegmap g f'
        × ((k : ℕ) → f'.free_segmap k ≡ (if within offset k && m k then false else f.free_segmap k))

    free_from-IsFreed :
        (fuel offset : ℕ) (f : FreeSegmap)
        → g.total_segs < fuel + offset
        → IsFreeSegmap g f
        → IsFreed offset f (free_from search g fuel m offset f)
    unfolding free_from
    free_from-IsFreed zero offset f h inv = (inv, λ k. ground arith)
    free_from-IsFreed (suc fuel) offset f h inv = elim (dec_lt segno g.total_segs) [
      | yes p ↦
          let step = set_test_and_free-IsFreeSegmap search g v f segno inv p in
          let rest =
            free_from-IsFreed fuel (segno + 1) (set_test_and_free search g f segno)
              (omega (arith, next.from_offset p)) step.0 in
          rw (lt→leb_false _ _ p) (
            rest.0,
            λ k. ground (
              arith,
              rest.1 k,
              step.1 k,
              next.hit p,
              next.from_offset p,
              next.before k,
              ap m {x = k} {y = segno},
            ),
          )
      | no p ↦
          rw (le→leb g.total_segs segno (omega arith)) (inv, λ k. ground (arith, next.before k))
    ]
      where
        segno : ℕ
        segno = search.find_next_bit m g.total_segs offset

        next : IsFirst true m g.total_segs offset segno
        next = search.find_next_bit_lem m g.total_segs offset

  abbrev IsCleared : ℕ → DirtyInfo → DirtyInfo → Type 0
  IsCleared offset d d' =
      IsDirtyInfo g d'
      × ((t k : ℕ)
          → d'.dirty_segmap t k
            ≡ (if t == pre && within offset k then false else d.dirty_segmap t k))

  clear_from-IsCleared :
      (fuel : ℕ) (discard : Bool) (offset : ℕ) (d : DirtyInfo)
      → g.total_segs < fuel + offset
      → IsDirtyInfo g d
      → IsCleared offset d (clear_from search g fuel discard offset d).0
  unfolding clear_from
  clear_from-IsCleared zero discard offset d h inv = (inv, λ t k. ground arith)
  clear_from-IsCleared (suc fuel) discard offset d h inv = elim (dec_lt segno g.total_segs) [
    | yes p ↦
        let rest =
          clear_from-IsCleared fuel discard (segno + 1) (unmark d pre segno)
            (omega (arith, next.from_offset p)) (unmark-IsDirtyInfo g d pre segno inv p) in
        let cleared : IsCleared offset d
            (clear_from search g fuel discard (segno + 1) (unmark d pre segno)).0 =
          (
            rest.0,
            λ t k. ground (
              arith,
              rest.1 t k,
              unmark_bits d pre segno t k,
              next.hit p,
              next.from_offset p,
              next.before k,
              ap (λ j. d.dirty_segmap j k) {x = t} {y = pre},
            ),
          ) in
        rw (lt→leb_false _ _ p) (elim (Bool-cases discard) [
          | inl e ↦ rw e (rw e at cleared)
          | inr e ↦ rw e (rw e at cleared)
        ])
    | no p ↦
        rw (le→leb g.total_segs segno (omega arith)) (
          inv,
          λ t k. ground (arith, next.before k, ap (λ j. d.dirty_segmap j k) {x = t} {y = pre}),
        )
  ]
    where
      segno : ℕ
      segno = search.find_next_bit (d.dirty_segmap pre) g.total_segs offset

      next : IsFirst true (d.dirty_segmap pre) g.total_segs offset segno
      next = search.find_next_bit_lem (d.dirty_segmap pre) g.total_segs offset

module _ (search : BitSearch) (g : Geometry) (d : DirtyInfo) where
  -- On free maps in step, `set_prefree_as_free_segments` frees exactly the prefree segments, and keeps the free counters
  -- and the section map in step.
  pub set_prefree_as_free_segments-IsFreeSegmap :
      (f : FreeSegmap)
      → IsLayout g
      → IsFreeSegmap g f
      → IsFreeSegmap g (set_prefree_as_free_segments search g d f)
        × ((k : ℕ)
            → k < g.total_segs
            → (set_prefree_as_free_segments search g d f).free_segmap k
              ≡ (if d.dirty_segmap pre k then false else f.free_segmap k))
  unfolding set_prefree_as_free_segments
  set_prefree_as_free_segments-IsFreeSegmap f v inv =
      let r =
        free_from-IsFreed search g v (d.dirty_segmap pre) (g.total_segs + 1) 0 f (omega arith)
          inv in
      (r.0, λ k h. ground (arith, r.1 k))

  -- With the list counters right, `clear_prefree_segments` leaves no segment of the main area
  -- prefree, counts none, changes no other list there, and keeps the counters right.
  pub clear_prefree_segments-IsCleared :
      (discard : Bool)
      → IsDirtyInfo g d
      → IsDirtyInfo g (clear_prefree_segments search g discard d).0
        × ((clear_prefree_segments search g discard d).0.nr_dirty pre ≡ 0)
        × ((t k : ℕ)
            → k < g.total_segs
            → (clear_prefree_segments search g discard d).0.dirty_segmap t k
              ≡ (if t == pre then false else d.dirty_segmap t k))
  unfolding clear_prefree_segments
  clear_prefree_segments-IsCleared discard inv =
      let r = clear_from-IsCleared search g (g.total_segs + 1) discard 0 d (omega arith) inv in
      (
        r.0,
        r.0.counted pre ∙ weight_none g.total_segs _ (λ k h. ground (arith, r.1 pre k)),
        λ t k h. ground (arith, r.1 t k),
      )
