-- ===== src/Segment/Alloc/Prefree.antt =====
-- What `check_prefree_segments` finds, and what it does not look at.
use f2fs.Base.{
  false≢true, dec_lt, ℕ, zero, suc, ◌+◌, ◌-◌, ◌*◌, ◌/◌, ◌%◌, ◌^◌, ◌<◌, ◌≤◌, ◌≡◌, ◌≢◌, Bool, true,
  false, ◌||◌, not, leb, ltb, ◌==◌, BitSearch, IsFirst, arith, Bool-cases, inl, inr, ℕ_discrete,
  refl, ap, sym, ◌∙◌,
}
use f2fs.Segment.Geometry.{Geometry, IsLayout, null_segno}
use f2fs.Segment.Sit.{SitInfo}
use f2fs.Segment.Dirty.{DirtyInfo, pre}
use f2fs.Segment.Curseg.{is_nodeseg}
use f2fs.Segment.Alloc.{
  SegmentManager, Reserve, has_not_enough_free_secs, prefree_from, check_prefree_segments,
}

-- A run of segments, of the length of a section or of one segment, that may be written again.
pub record IsPrefree (g : Geometry) (m : SegmentManager) (log segno : ℕ) : Type 0 where
  pub in_main : segno + 2 ^ log ≤ g.total_segs
  pub aligned : segno % 2 ^ log ≡ 0
  pub prefree : (k : ℕ) → segno ≤ k → k < segno + 2 ^ log → m.lists.dirty_segmap pre k ≡ true
  pub first_unused : (m.sit.sentries segno).ckpt_valid_blocks ≡ 0

whole : (u k : ℕ) → 0 < u → k % u ≡ 0 → k ≡ k / u * u
whole u k pos e = grind arith

quotient-lt : (u s q : ℕ) → 0 < u → s < q * u → s / u < q
quotient-lt u s q pos h = grind arith

mul_mono : (a c b : ℕ) → a ≤ c → a * b ≤ c * b
mul_mono a c b h = grind arith

-- The next multiple behind a number is no further than any multiple behind it.
start_behind : (u s k : ℕ) → 0 < u → k % u ≡ 0 → s < k → s / u * u + u ≤ k
start_behind u s k pos e h =
    let q = whole u k pos e in
    let step =
      mul_mono (s / u + 1) (k / u) u
        (omega (arith, quotient-lt u s (k / u) pos (omega (arith, q)))) in
    grind (arith, q, step)

module _ (search : BitSearch) (g : Geometry) (r : Reserve) (v : IsLayout g) where
  module _ (m : SegmentManager) (log : ℕ) (pos : 0 < 2 ^ log) where
    prefree_from-IsPrefree :
        (fuel ofs : ℕ)
        → prefree_from search g r fuel m.sit m.lists log ofs ≢ null_segno
        → IsPrefree g m log (prefree_from search g r fuel m.sit m.lists log ofs)
    unfolding prefree_from
    prefree_from-IsPrefree zero ofs = λ h. absurd (h refl)
    prefree_from-IsPrefree (suc fuel) ofs = elim (Bool-cases (leb g.total_segs segno)) [
      | inl e ↦ rw e (λ h. absurd (h refl))
      | inr e ↦ rw e (elim (Bool-cases skip) [
        | inl q ↦ rw q (prefree_from-IsPrefree fuel (segno / 2 ^ log * 2 ^ log + 2 ^ log))
        | inr q ↦ rw q (λ _. record {
          in_main = ground (arith, zero_bit.in_size);
          aligned = ground arith;
          prefree = λ k a b. run k a (ground arith);
          first_unused = ground arith;
        })
      ])
    ]
      where
        map : ℕ → Bool
        map = m.lists.dirty_segmap pre

        segno : ℕ
        segno = search.find_next_bit map g.total_segs ofs

        next_segno : ℕ
        next_segno = search.find_next_zero_bit map g.total_segs (segno + 1)

        skip : Bool
        skip =
            not (segno % 2 ^ log == 0)
            || ltb (next_segno - segno) (2 ^ log)
            || not ((m.sit.sentries segno).ckpt_valid_blocks == 0)

        zero_bit : IsFirst false map g.total_segs (segno + 1) next_segno
        zero_bit = search.find_next_zero_bit_lem map g.total_segs (segno + 1)

        one_bit : IsFirst true map g.total_segs ofs segno
        one_bit = search.find_next_bit_lem map g.total_segs ofs

        run : (k : ℕ) → segno ≤ k → k < next_segno → map k ≡ true
        run k a b = elim (ℕ_discrete segno k) [
          | yes same ↦ ap map (sym same) ∙ one_bit.hit (omega (arith, zero_bit.in_size))
          | no other ↦ zero_bit.before k (omega arith) b
        ]

  -- A segment that `check_prefree_segments` gives is the aligned start of a run of prefree segments of
  -- the main area, as long as asked for; the first of them held no block at the last checkpoint; the
  -- log is for data, and free sections are above the reserve.
  pub check_prefree_segments-IsPrefree :
      (m : SegmentManager) (log ty : ℕ)
      → 0 < 2 ^ log
      → check_prefree_segments search g r m log ty ≢ null_segno
      → IsPrefree g m log (check_prefree_segments search g r m log ty)
        × (is_nodeseg ty ≡ false)
        × (has_not_enough_free_secs search g r m.free ≡ false)
  unfolding check_prefree_segments
  check_prefree_segments-IsPrefree m log ty pos =
      elim (Bool-cases (has_not_enough_free_secs search g r m.free || is_nodeseg ty)) [
        | inl e ↦ rw e (λ h. absurd (h refl))
        | inr e ↦ rw e (λ h.
            (prefree_from-IsPrefree m log pos (g.total_segs + 1) 0 h, ground arith, ground arith))
      ]

  -- The loop reads the checkpoint count of aligned segments only.
  prefree_from-first_only :
      (s s' : SitInfo) (d : DirtyInfo) (log fuel ofs : ℕ)
      → ((k : ℕ)
          → k % 2 ^ log ≡ 0
          → (s'.sentries k).ckpt_valid_blocks ≡ (s.sentries k).ckpt_valid_blocks)
      → prefree_from search g r fuel s' d log ofs ≡ prefree_from search g r fuel s d log ofs
  unfolding prefree_from
  prefree_from-first_only s s' d log zero ofs same = refl
  prefree_from-first_only s s' d log (suc fuel) ofs same =
      let segno = search.find_next_bit (d.dirty_segmap pre) g.total_segs ofs in
      ground (
        arith,
        same segno,
        prefree_from-first_only s s' d log fuel (segno / 2 ^ log * 2 ^ log + 2 ^ log) same,
      )

  -- What the segments behind the first of a run held at the last checkpoint makes no difference to
  -- `check_prefree_segments`: with any segment information that agrees on the segments at multiples
  -- of the length of a run, it gives the same segment.
  pub check_prefree_segments-first_only :
      (m : SegmentManager) (s' : SitInfo) (log ty : ℕ)
      → ((k : ℕ)
          → k % 2 ^ log ≡ 0
          → (s'.sentries k).ckpt_valid_blocks ≡ (m.sit.sentries k).ckpt_valid_blocks)
      → check_prefree_segments search g r (record m { sit = s' }) log ty
        ≡ check_prefree_segments search g r m log ty
  unfolding check_prefree_segments
  check_prefree_segments-first_only m s' log ty same =
      ground (arith, prefree_from-first_only m.sit s' m.lists log (g.total_segs + 1) 0 same)

  module _ (m : SegmentManager) (log k : ℕ) (pos : 0 < 2 ^ log) (p : IsPrefree g m log k) where
    next_start : (segno : ℕ) → segno < k → segno / 2 ^ log * 2 ^ log + 2 ^ log ≤ k
    next_start segno h = start_behind (2 ^ log) segno k pos p.aligned h

    behind : (segno : ℕ) → segno < segno / 2 ^ log * 2 ^ log + 2 ^ log
    behind segno = grind arith

    -- The run at `k` is long enough for the test of the loop.
    run_end :
        k + 2 ^ log ≤ search.find_next_zero_bit (m.lists.dirty_segmap pre) g.total_segs (k + 1)
    run_end =
        let zero_bit =
          search.find_next_zero_bit_lem (m.lists.dirty_segmap pre) g.total_segs (k + 1) in
        elim (dec_lt (search.find_next_zero_bit (m.lists.dirty_segmap pre) g.total_segs (k + 1))
          (k + 2 ^ log)) [
            | yes h ↦
                let below : search.find_next_zero_bit (m.lists.dirty_segmap pre) g.total_segs
                      (k + 1)
                    < g.total_segs =
                  omega (arith, p.in_main) in
                absurd (
                  false≢true (
                    sym (zero_bit.hit below)
                    ∙ p.prefree _ (omega (arith, zero_bit.from_offset below)) h))
            | no h ↦ omega arith
          ]

    prefree_from-le :
        (fuel ofs : ℕ)
        → ofs ≤ k
        → g.total_segs < fuel + ofs
        → prefree_from search g r fuel m.sit m.lists log ofs ≤ k
    unfolding prefree_from
    prefree_from-le zero ofs a b = absurd (omega (arith, p.in_main))
    prefree_from-le (suc fuel) ofs a b = elim (dec_lt segno k) [
      | yes h ↦
          let rest =
            prefree_from-le fuel (segno / 2 ^ log * 2 ^ log + 2 ^ log) (next_start segno h)
              (omega (arith, behind segno, from)) in
          ground (arith, rest, p.in_main)
      | no h ↦
          let same : segno ≡ k = omega (arith, low) in
          ground (
            arith,
            same,
            run_end,
            p.aligned,
            p.first_unused,
            p.in_main,
            ap (search.find_next_zero_bit (m.lists.dirty_segmap pre) g.total_segs) {x = segno + 1}
                {y = k + 1},
            ap (λ j. (m.sit.sentries j).ckpt_valid_blocks) same,
          )
    ]
      where
        segno : ℕ
        segno = search.find_next_bit (m.lists.dirty_segmap pre) g.total_segs ofs

        one_bit : IsFirst true (m.lists.dirty_segmap pre) g.total_segs ofs segno
        one_bit = search.find_next_bit_lem (m.lists.dirty_segmap pre) g.total_segs ofs

        set_k : m.lists.dirty_segmap pre k ≡ true
        set_k = p.prefree k (omega arith) (omega (arith, pos))

        low : segno ≤ k
        low = elim (dec_lt k segno) [
          | yes h ↦ absurd (false≢true (sym (one_bit.before k a h) ∙ set_k))
          | no h ↦ omega arith
        ]

        from : ofs ≤ segno
        from = one_bit.from_offset (omega (arith, low, p.in_main, pos))

    -- If the log is for data, free sections are above the reserve and some run of prefree segments of
    -- the length asked for may be written again, `check_prefree_segments` gives a segment, and none
    -- behind that run: its loop does not stop early.
    pub check_prefree_segments-finds :
        (ty : ℕ)
        → is_nodeseg ty ≡ false
        → has_not_enough_free_secs search g r m.free ≡ false
        → (check_prefree_segments search g r m log ty ≤ k)
          × (check_prefree_segments search g r m log ty ≢ null_segno)
    unfolding check_prefree_segments
    check_prefree_segments-finds ty a b =
        let low = prefree_from-le (g.total_segs + 1) 0 (omega arith) (omega arith) in
        (ground (arith, low), ground (arith, low, p.in_main, v.small))
