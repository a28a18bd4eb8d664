-- ===== src/Segment/NewSegment/Laws.antt =====
-- `get_new_segment` finds a free segment whenever a section is free, and meets no `BUG_ON`.
use f2fs.Base.{
  ℕ, zero, suc, ◌+◌, ◌*◌, ◌/◌, ◌%◌, ◌^◌, ◌<◌, ◌≤◌, ◌≡◌, Bool, true, false, List, BitSearch, IsFirst,
  arith, update, sym, ◌∙◌, false≢true, refl, Bool-cases, inl, inr, Returns, Returns->>=, dec_lt,
  not, ◌&&◌, ◌==◌, add32, lt→ltb, le→ltb_false, zeros_find, le→leb, lt→leb_false, ℕ_discrete, sub32,
  ◌>>=◌, if◌then◌else◌,
}
use f2fs.Segment.Geometry.{Geometry, IsLayout}
use f2fs.Segment.Free.{FreeSegmap}
use f2fs.Segment.Free.Invariant.{IsFreeSegmap, secno-lt}
use f2fs.Segment.Free.Steps.{set_inuse-IsFreeSegmap}
use f2fs.Segment.NewSegment.{
  Direction, alloc_right, alloc_left, is_left, Pass, next_free_sec, first_free_sec, walk_left,
  find_section, settle, found, leftwards, mem, other_zone, keeps_zone, pick_section, pick_segment,
  get_new_segment, start_of,
}

div-mul-le : (a b : ℕ) → a / b * b ≤ a
div-mul-le a b = grind arith

mul_mono : (a c b : ℕ) → a ≤ c → a * b ≤ c * b
mul_mono a c b h = grind arith

mul_pos : (a b : ℕ) → 0 < a → 0 < b → 0 < a * b
mul_pos a b h p = grind arith

module _ (search : BitSearch) (g : Geometry) (f : FreeSegmap) where
  abbrev IsFreeSec : ℕ → Type 0
  IsFreeSec sec = (sec < g.total_sections) × (f.free_secmap sec ≡ false)

  first :
      (hint : ℕ) → IsFirst false f.free_secmap g.total_sections hint (next_free_sec search g f hint)
  first hint = search.find_next_zero_bit_lem f.free_secmap g.total_sections hint

  next_free_sec-IsFreeSec :
      (hint : ℕ)
      → next_free_sec search g f hint < g.total_sections
      → IsFreeSec (next_free_sec search g f hint)
  next_free_sec-IsFreeSec hint h = (h, (first hint).hit h)

  -- With a free section the search from `hint` succeeds if the section is not before it.
  next_free_sec-lt :
      (sec hint : ℕ) → IsFreeSec sec → hint ≤ sec → next_free_sec search g f hint < g.total_sections
  next_free_sec-lt sec hint free h =
      elim (dec_lt (next_free_sec search g f hint) g.total_sections) [
        | yes p ↦ p
        | no p ↦
            absurd (false≢true (sym free.1 ∙ (first hint).before sec h (omega (arith, free.0))))
      ]

  module _ (sec : ℕ) (free : IsFreeSec sec) where
    first_free_sec-Returns : Returns IsFreeSec (first_free_sec search g f)
    unfolding first_free_sec
    first_free_sec-Returns =
        let h = next_free_sec-lt sec 0 free (omega arith) in
        ground (arith, next_free_sec-IsFreeSec 0)

    walk_left-Returns :
        (start : ℕ) → start < g.total_sections → Returns IsFreeSec (walk_left search g f start)
    unfolding walk_left
    walk_left-Returns zero h = elim (Bool-cases (f.free_secmap zero)) [
      | inl e ↦ rw e first_free_sec-Returns
      | inr e ↦ rw e (h, e)
    ]
    walk_left-Returns (suc n) h = elim (Bool-cases (f.free_secmap (suc n))) [
      | inl e ↦ rw e (walk_left-Returns n (omega arith))
      | inr e ↦ rw e (h, e)
    ]

    -- What a pass gives; it goes left only in the direction left.
    IsPass : Direction → Pass → Type 0
    IsPass dir p =
        IsFreeSec p.secno
        × (p.go_left ≡ true → p.left_start < g.total_sections)
        × (p.go_left ≡ true → is_left dir ≡ true)

    leftwards-Returns :
        (start : ℕ)
        → start < g.total_sections
        → Returns (IsPass alloc_left) (leftwards search g f start)
    unfolding IsPass
    leftwards-Returns start h =
        Returns->>= IsFreeSec (IsPass alloc_left) (walk_left search g f start) _
          (walk_left-Returns start h) (λ s _ p. (p, λ _. p.0, λ _. refl))

    found-Returns :
        (dir : Direction) (go_left : Bool) (left_start s : ℕ)
        → (go_left ≡ true → left_start < g.total_sections)
        → (go_left ≡ true → is_left dir ≡ true)
        → IsFreeSec s
        → Returns (IsPass dir) (found search g f go_left left_start s)
    unfolding IsPass found
    found-Returns alloc_left true left_start s h d p = leftwards-Returns left_start (h refl)
    found-Returns alloc_right true left_start s h d p = absurd (false≢true (d refl))
    found-Returns _ false left_start s h d p = (p, λ e. cc, λ e. cc)

    find_section-Returns :
        (dir : Direction) (hint : ℕ) (go_left : Bool) (left_start : ℕ)
        → hint ≤ g.total_sections
        → g.total_sections < 2 ^ 32
        → (go_left ≡ true → left_start < g.total_sections)
        → (go_left ≡ true → is_left dir ≡ true)
        → Returns (IsPass dir) (find_section search g f dir hint go_left left_start)
    unfolding find_section
    find_section-Returns dir hint go_left left_start hh small left d =
        elim (dec_lt (next_free_sec search g f hint) g.total_sections) [
          | yes p ↦
              rw (lt→leb_false _ _ p)
                (found-Returns dir go_left left_start _ left d (next_free_sec-IsFreeSec hint p))
          | no p ↦
              rw (le→leb g.total_sections (next_free_sec search g f hint) (omega arith))
                (beyond dir d p)
        ]
      where
        pos : ¬ (next_free_sec search g f hint < g.total_sections) → 0 < hint
        pos p = elim (ℕ_discrete hint 0) [
          | yes e ↦ absurd (p (next_free_sec-lt sec hint free (omega arith)))
          | no e ↦ omega arith
        ]

        beyond :
            (dir : Direction)
            → (go_left ≡ true → is_left dir ≡ true)
            → ¬ (next_free_sec search g f hint < g.total_sections)
            → Returns (IsPass dir) (
                if is_left dir
                then leftwards search g f (sub32 hint 1)
                else first_free_sec search g f >>= found search g f go_left left_start)
        beyond alloc_left d p = leftwards-Returns (sub32 hint 1) (omega (arith, pos p))
        beyond alloc_right d p =
            Returns->>= IsFreeSec (IsPass alloc_right) (first_free_sec search g f) _
              first_free_sec-Returns
              (λ s _ q. found-Returns alloc_right go_left left_start s left d q)

    other_zone-le :
        (dir : Direction) (old : ℕ) (p : Pass)
        → 0 < g.secs_per_zone
        → IsPass dir p
        → g.total_sections < 2 ^ 32
        → keeps_zone search g f dir old p ≡ false
        → other_zone search g f p ≤ g.total_sections
    unfolding IsPass other_zone keeps_zone
    other_zone-le dir old p pos q small e =
        let z = p.secno / g.secs_per_zone in
        let zones = g.total_sections / g.secs_per_zone in
        ground (
          arith,
          q,
          e,
          div-mul-le p.secno g.secs_per_zone,
          div-mul-le g.total_sections g.secs_per_zone,
          mul_mono (z + 1) zones g.secs_per_zone,
          mul_pos z g.secs_per_zone,
        )

    settle-Returns :
        (dir : Direction) (zones : List ℕ) (old : ℕ) (p : Pass)
        → 0 < g.secs_per_zone
        → g.total_sections < 2 ^ 32
        → IsPass dir p
        → Returns IsFreeSec (settle search g f dir zones old p)
    unfolding settle IsPass
    settle-Returns dir zones old p pos small q =
        elim (Bool-cases (keeps_zone search g f dir old p)) [
          | inl e ↦ rw e q.0
          | inr e ↦ rw e (elim (Bool-cases (mem (p.secno / g.secs_per_zone) zones)) [
            | inl e' ↦ rw e' (
                Returns->>= (IsPass dir) IsFreeSec _ _
                  (find_section-Returns dir _ p.go_left p.left_start
                    (other_zone-le dir old p pos q small e) small q.1 q.2)
                  (λ r _ s. s.0))
            | inr e' ↦ rw e' q.0
          ])
        ]

    module _ (v : IsLayout g) where
      small : g.total_sections < 2 ^ 32
      small = grind (arith, v.small, v.main, v.segs_pos)

      pick_section-Returns :
          (dir : Direction) (zones : List ℕ) (newseg : ℕ)
          → newseg < g.total_segs
          → Returns IsFreeSec (pick_section search g f dir zones newseg)
      unfolding pick_section
      pick_section-Returns dir zones newseg h =
          let hint = secno-lt g v newseg h in
          Returns->>= (IsPass dir) IsFreeSec _ _
            (find_section-Returns dir _ false _ (omega (arith, hint)) small (λ e. cc) (λ e. cc))
            (λ p _ q. settle-Returns dir zones _ p v.zone_pos small q)

      abbrev IsFreeSeg : ℕ → Type 0
      IsFreeSeg segno = (segno < g.total_segs) × (f.free_segmap segno ≡ false)

      start_of-IsFreeSeg :
          IsFreeSegmap g f → (s : ℕ) → IsFreeSec s → Returns IsFreeSeg (start_of search g f s)
      unfolding start_of
      start_of-IsFreeSeg inv s p = (
        grind (arith, v.main, v.segs_pos),
        (inv.agree s p.0).0 p.1 (s * 2 ^ g.log_segs_per_sec) (grind (arith, v.segs_pos)),
      )

      pick_segment-Returns :
          (newseg : ℕ) (new_sec : Bool) (dir : Direction) (zones : List ℕ)
          → IsFreeSegmap g f
          → newseg < g.total_segs
          → Returns IsFreeSeg (pick_segment search g f newseg new_sec dir zones)
      unfolding pick_segment
      pick_segment-Returns newseg new_sec dir zones inv h =
          elim (Bool-cases (not new_sec && not (add32 newseg 1 % g.segs_per_sec == 0))) [
            | inl e ↦ rw e (elim (dec_lt segno g.total_segs) [
              | yes p ↦ rw (lt→ltb _ _ p) (p, next.hit p)
              | no p ↦ rw (le→ltb_false segno g.total_segs (omega arith)) by_section
            ])
            | inr e ↦ rw e by_section
          ]
        where
          segno : ℕ
          segno = search.find_next_zero_bit f.free_segmap g.total_segs (add32 newseg 1)

          next : IsFirst false f.free_segmap g.total_segs (add32 newseg 1) segno
          next = search.find_next_zero_bit_lem f.free_segmap g.total_segs (add32 newseg 1)

          by_section :
              Returns IsFreeSeg (pick_section search g f dir zones newseg >>= start_of search g f)
          by_section =
              Returns->>= IsFreeSec IsFreeSeg _ _ (pick_section-Returns dir zones newseg h)
                (λ s _ p. start_of-IsFreeSeg inv s p)

      -- What `get_new_segment` promises: a segment of the main area that was free, and maps in which
      -- it, and nothing else, is newly in use.
      abbrev pub IsNewSegment : ℕ × FreeSegmap → Type 0
      IsNewSegment r =
          (r.0 < g.total_segs)
          × (f.free_segmap r.0 ≡ false)
          × IsFreeSegmap g r.1
          × ((k : ℕ) → r.1.free_segmap k ≡ update f.free_segmap r.0 true k)

      get_new_segment-Returns :
          (newseg : ℕ) (new_sec : Bool) (dir : Direction) (zones : List ℕ)
          → IsFreeSegmap g f
          → newseg < g.total_segs
          → Returns IsNewSegment (get_new_segment search g f newseg new_sec dir zones)
      unfolding get_new_segment
      get_new_segment-Returns newseg new_sec dir zones inv h =
          Returns->>= IsFreeSeg IsNewSegment _ _
            (pick_segment-Returns newseg new_sec dir zones inv h)
            (λ s _ p.
              let r = set_inuse-IsFreeSegmap g v f s inv p.0 p.1 in rw p.1 (p.0, p.1, r.0, r.1))

-- With any section free and the free maps in step, `get_new_segment` meets no `BUG_ON`, whatever
-- the hint in the main area, the direction and the zones of the logs: it gives a segment of the
-- main area that was free, and marks that segment and no other, with the counters and the section
-- map in step.
pub get_new_segment-IsNewSegment :
    (search : BitSearch) (g : Geometry) (f : FreeSegmap) (newseg : ℕ) (new_sec : Bool)
    (dir : Direction) (zones : List ℕ)
    → IsLayout g
    → IsFreeSegmap g f
    → newseg < g.total_segs
    → 0 < f.free_sections
    → Returns
        (λ r.
          (r.0 < g.total_segs)
          × (f.free_segmap r.0 ≡ false)
          × IsFreeSegmap g r.1
          × ((k : ℕ) → r.1.free_segmap k ≡ update f.free_segmap r.0 true k))
        (get_new_segment search g f newseg new_sec dir zones)
get_new_segment-IsNewSegment search g f newseg new_sec dir zones v inv h pos =
    let z = zeros_find g.total_sections f.free_secmap (omega (arith, inv.sections)) in
    get_new_segment-Returns search g f z.0 (z.1, z.2) v newseg new_sec dir zones inv h
