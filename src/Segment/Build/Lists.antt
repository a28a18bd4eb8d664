-- ===== src/Segment/Build/Lists.antt =====
-- The dirty lists that the mount builds.
use f2fs.Base.{
  ℕ, zero, suc, ◌+◌, ◌<◌, ◌≤◌, ◌≡◌, refl, sym, ap, ◌∙◌, Bool, true, false, not, ◌&&◌, ◌||◌, arith,
  BitSearch, IsFirst, leb, ltb, ◌==◌, if◌then◌else◌, Bool-cases, inl, inr, ℕ_discrete, dec_lt,
  lt→leb_false, le→leb, weight_none,
}
use f2fs.Segment.Geometry.{Geometry}
use f2fs.Segment.Free.{FreeSegmap, find_next_inuse}
use f2fs.Segment.Sit.{SitInfo, get_valid_blocks}
use f2fs.Segment.Dirty.{DirtyInfo, dirty, pre, is_curseg, locate, mark}
use f2fs.Segment.Dirty.Invariant.{IsDirtyInfo, mark_bits, mark-IsDirtyInfo}
use f2fs.Segment.Build.{dirty_from, init_dirty_segmap, build_dirty_segmap}

module _ (g : Geometry) (s : SitInfo) (cur : ℕ → ℕ) (f : FreeSegmap) where
  -- A segment that belongs on the lists: in use, with some valid blocks and room for more, and no log's.
  abbrev pub is_listed : ℕ → Bool
  is_listed k =
      f.free_segmap k
      && not (leb g.blocks_per_seg (s.sentries k).valid_blocks)
      && not ((s.sentries k).valid_blocks == 0)
      && not (is_curseg cur k)

module _ (search : BitSearch) (g : Geometry) (s : SitInfo) (cur : ℕ → ℕ) (f : FreeSegmap)
    (types : (k : ℕ) → (s.sentries k).type_ < 6) where
  -- The lists are right below `pos` and empty from there on.
  record IsListed (pos : ℕ) (d : DirtyInfo) : Type 0 where
    inv : IsDirtyInfo g d
    all : (k : ℕ) → d.dirty_segmap dirty k ≡ (ltb k pos && is_listed g s cur f k)
    prefree : (k : ℕ) → d.dirty_segmap pre k ≡ false
    typed :
        (t k : ℕ)
        → t < 6
        → d.dirty_segmap t k ≡ (ltb k pos && is_listed g s cur f k && (s.sentries k).type_ == t)

  skip :
      (pos segno : ℕ) (d : DirtyInfo)
      → IsListed pos d
      → pos ≤ segno
      → ((k : ℕ) → pos ≤ k → k < segno → is_listed g s cur f k ≡ false)
      → IsListed segno d
  skip pos segno d it h gap = record {
    inv = it.inv;
    prefree = it.prefree;
    all = λ k. elim (dec_lt k pos) [
      | yes p ↦ ground (arith, it.all k)
      | no p ↦ elim (dec_lt k segno) [
        | yes q ↦ ground (arith, it.all k, gap k (omega arith) q)
        | no q ↦ ground (arith, it.all k)
      ]
    ];
    typed = λ t k small. elim (dec_lt k pos) [
      | yes p ↦ ground (arith, it.typed t k small)
      | no p ↦ elim (dec_lt k segno) [
        | yes q ↦ ground (arith, it.typed t k small, gap k (omega arith) q)
        | no q ↦ ground (arith, it.typed t k small)
      ]
    ];
  }

  locate-IsListed :
      (segno : ℕ) (d : DirtyInfo)
      → IsListed segno d
      → segno < g.total_segs
      → is_listed g s cur f segno ≡ true
      → IsListed (segno + 1) (mark (mark d dirty segno) (s.sentries segno).type_ segno)
  locate-IsListed segno d it h yes_listed =
      let d1 = mark d dirty segno in
      let ty = (s.sentries segno).type_ in
      let type_of : (k : ℕ) → k ≡ segno → (s.sentries k).type_ ≡ ty =
        λ k e. ap (λ x. (s.sentries x).type_) e in
      let listed : (k : ℕ) → k ≡ segno → is_listed g s cur f k ≡ true =
        λ k e. ap (is_listed g s cur f) e ∙ yes_listed in
      record {
        inv = mark-IsDirtyInfo g d1 ty segno (mark-IsDirtyInfo g d dirty segno it.inv h) h;
        prefree = λ k. ground (
          arith,
          mark_bits d1 ty segno pre k,
          mark_bits d dirty segno pre k,
          it.prefree k,
          types segno,
        );
        all = λ k. elim (ℕ_discrete k segno) [
          | yes e ↦ ground (
            arith,
            mark_bits d1 ty segno dirty k,
            mark_bits d dirty segno dirty k,
            it.all k,
            listed k e,
          )
          | no e ↦
              ground
                (arith, mark_bits d1 ty segno dirty k, mark_bits d dirty segno dirty k, it.all k)
        ];
        typed = λ t k small. elim (ℕ_discrete k segno) [
          | yes e ↦ ground (
            arith,
            mark_bits d1 ty segno t k,
            mark_bits d dirty segno t k,
            it.typed t k small,
            listed k e,
            type_of k e,
          )
          | no e ↦
              ground
                (arith, mark_bits d1 ty segno t k, mark_bits d dirty segno t k, it.typed t k small)
        ];
      }

  -- One round.
  abbrev after_round : ℕ → DirtyInfo → DirtyInfo
  after_round segno d =
      if leb g.blocks_per_seg (get_valid_blocks g s segno false)
        || get_valid_blocks g s segno false == 0
      then d
      else locate s cur d segno dirty

  round-IsListed :
      (segno : ℕ) (d : DirtyInfo)
      → IsListed segno d
      → segno < g.total_segs
      → f.free_segmap segno ≡ true
      → IsListed (segno + 1) (after_round segno d)
  unfolding get_valid_blocks locate
  round-IsListed segno d it h inuse =
      elim (Bool-cases (
        leb g.blocks_per_seg (s.sentries segno).valid_blocks
        || (s.sentries segno).valid_blocks == 0)) [
          | inl e ↦ rw e (
              skip segno (segno + 1) d it (omega arith) (λ k low high.
                let same : is_listed g s cur f k ≡ is_listed g s cur f segno =
                  ap (is_listed g s cur f) {x = k} {y = segno} (omega arith) in
                same ∙ ground (arith, e)))
          | inr e ↦ elim (Bool-cases (is_curseg cur segno)) [
            | inl c ↦
                rw (e, locate, c)
                  (skip segno (segno + 1) d it (omega arith) (λ k low high.
                    let same : is_listed g s cur f k ≡ is_listed g s cur f segno =
                      ap (is_listed g s cur f) {x = k} {y = segno} (omega arith) in
                    same ∙ ground (arith, c)))
            | inr c ↦ rw (e, locate, c) (locate-IsListed segno d it h (ground (arith, e, c, inuse)))
          ]
        ]

  dirty_from-IsListed :
      (fuel pos : ℕ) (d : DirtyInfo)
      → IsListed pos d
      → pos ≤ g.total_segs
      → g.total_segs < pos + fuel
      → IsListed g.total_segs (dirty_from search g s cur f fuel pos d)
  unfolding dirty_from find_next_inuse
  dirty_from-IsListed zero pos d it low enough = absurd (omega arith)
  dirty_from-IsListed (suc fuel) pos d it low enough =
      let segno = search.find_next_bit f.free_segmap g.total_segs pos in
      let first : IsFirst true f.free_segmap g.total_segs pos segno =
        search.find_next_bit_lem f.free_segmap g.total_segs pos in
      elim (dec_lt segno g.total_segs) [
        | yes h ↦
            let here =
              skip pos segno d it (first.from_offset h)
                (λ k p q. ground (arith, first.before k p q)) in
            rw (dirty_from, lt→leb_false g.total_segs segno h)
              (dirty_from-IsListed fuel (segno + 1) (after_round segno d)
                (round-IsListed segno d here h (first.hit h)) (omega arith)
                (omega (arith, first.from_offset h)))
        | no h ↦
            rw (dirty_from, le→leb g.total_segs segno (omega arith))
              (skip pos g.total_segs d it low
                (λ k p q. ground (arith, first.before k p (omega arith))))
      ]

  -- Where every segment's type is that of a log, `build_dirty_segmap` puts on the list of dirty segments
  -- exactly the segments of the main area that are in use, have some valid blocks and room for more, and
  -- are no log's, and on the list of a type those of them that have the type. The list of prefree
  -- segments has none, no segment is a victim, and every list is counted.
  pub build_dirty_segmap-IsDirtyInfo :
      let d = build_dirty_segmap search g s cur f in
      IsDirtyInfo g d
      × ((k : ℕ) → k < g.total_segs → d.dirty_segmap dirty k ≡ is_listed g s cur f k)
      × ((t k : ℕ)
          → t < 6
          → k < g.total_segs
          → d.dirty_segmap t k ≡ (is_listed g s cur f k && (s.sentries k).type_ == t))
      × ((k : ℕ) → d.dirty_segmap pre k ≡ false)
      × ((k : ℕ) → (d.victim_fg k ≡ false) × (d.victim_bg k ≡ false))
  unfolding build_dirty_segmap init_dirty_segmap
  build_dirty_segmap-IsDirtyInfo =
      let empty : DirtyInfo = record {
        dirty_segmap = λ t k. false;
        nr_dirty = λ t. 0;
        victim_bg = λ k. false;
        victim_fg = λ k. false;
      } in
      let it =
        dirty_from-IsListed (g.total_segs + 1) 0 empty
          (record {
            inv = record {
              counted = λ t. sym (weight_none g.total_segs (λ k. false) (λ k h. refl));
            };
            all = λ k. ground arith;
            prefree = λ k. refl;
            typed = λ t k small. ground arith;
          })
          (omega arith) (omega arith) in
      (
        record { counted = it.inv.counted },
        λ k h. ground (arith, it.all k),
        λ t k small h. ground (arith, it.typed t k small),
        it.prefree,
        λ k. (refl, refl),
      )
