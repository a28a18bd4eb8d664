-- ===== src/Segment/Free/Steps.antt =====
-- Each helper that changes the free maps keeps them in step with their counters.
use native.Mathlib.Decide.{ℕ_discrete}
use f2fs.Base.{
  ℕ, ◌+◌, ◌^◌, ◌<◌, ◌≡◌, ◌≢◌, ◌↔◌, Bool, true, false, BitSearch, arith, bit, update, ap, sym, ◌∙◌,
  false≢true, not, refl, Bool-cases, inl, inr, zeros_ext, zeros-update, zeros-le,
}
use f2fs.Segment.Geometry.{Geometry, IsLayout, get_secno}
use f2fs.Segment.Free.{
  FreeSegmap, section_unused, set_free, set_test_and_free, set_inuse, set_test_and_inuse,
}
use f2fs.Segment.Free.Invariant.{IsFreeSegmap, Unused, secno-lt, section_unused_iff}

-- A step changes the bit of one segment to `b` and that of its section to `c`, and counts both.
record IsStep (g : Geometry) (f f' : FreeSegmap) (segno : ℕ) (b c : Bool) : Type 0 where
  segmap : (k : ℕ) → f'.free_segmap k ≡ update f.free_segmap segno b k
  secmap : (k : ℕ) → f'.free_secmap k ≡ update f.free_secmap (get_secno g segno) c k
  segments : f'.free_segments + bit b ≡ f.free_segments + bit (f.free_segmap segno)
  sections : f'.free_sections + bit c ≡ f.free_sections + bit (f.free_secmap (get_secno g segno))
  agree : (c ≡ false) ↔ Unused g (update f.free_segmap segno b) (get_secno g segno)

module _ (g : Geometry) (v : IsLayout g) (f f' : FreeSegmap) (segno : ℕ) (b c : Bool)
    (inv : IsFreeSegmap g f) (h : segno < g.total_segs) (s : IsStep g f f' segno b c) where
  agree_here :
      (sec : ℕ)
      → get_secno g segno ≡ sec
      → (f'.free_secmap sec ≡ false) ↔ Unused g f'.free_segmap sec
  agree_here sec e = (
    λ q k p.
        let cleared : c ≡ false = ground (arith, s.secmap sec) in
        s.segmap k ∙ s.agree.0 cleared k (p ∙ sym e),
    λ u.
        let cleared : c ≡ false = s.agree.1 (λ k same. sym (s.segmap k) ∙ u k (same ∙ e)) in
        ground (arith, s.secmap sec),
  )

  agree_there :
      (sec : ℕ)
      → sec < g.total_sections
      → get_secno g segno ≢ sec
      → (f'.free_secmap sec ≡ false) ↔ Unused g f'.free_segmap sec
  agree_there sec p e = (
    λ q k same.
        let was : f.free_secmap sec ≡ false = ground (arith, s.secmap sec) in
        let other : k ≢ segno = λ r. e (ap (get_secno g) (sym r) ∙ same) in
        ground (arith, s.segmap k, (inv.agree sec p).0 was k same),
    λ u.
        let was : f.free_secmap sec ≡ false = (inv.agree sec p).1 (λ k same.
          let other : k ≢ segno = λ r. e (ap (get_secno g) (sym r) ∙ same) in
          ground (arith, s.segmap k, u k same)) in
        ground (arith, s.secmap sec),
  )

  IsStep-IsFreeSegmap : IsFreeSegmap g f'
  IsStep-IsFreeSegmap = record {
    segments = omega (
      arith,
      s.segments,
      inv.segments,
      zeros-update g.total_segs segno b f.free_segmap h,
      zeros_ext g.total_segs f'.free_segmap (update f.free_segmap segno b) (λ k _. s.segmap k),
    );
    sections = omega (
      arith,
      s.sections,
      inv.sections,
      zeros-update g.total_sections (get_secno g segno) c f.free_secmap (secno-lt g v segno h),
      zeros_ext g.total_sections f'.free_secmap (update f.free_secmap (get_secno g segno) c)
          (λ k _. s.secmap k),
    );
    agree = λ sec p. elim (ℕ_discrete (get_secno g segno) sec) [
      | yes e ↦ agree_here sec e
      | no e ↦ agree_there sec p e
    ];
  }

-- A segment in use keeps its section in use.
module _ (g : Geometry) (v : IsLayout g) (f : FreeSegmap) (segno : ℕ) (inv : IsFreeSegmap g f)
    (h : segno < g.total_segs) where
  secmap_of_segmap : f.free_segmap segno ≡ true → f.free_secmap (get_secno g segno) ≡ true
  secmap_of_segmap e = elim (Bool-cases (f.free_secmap (get_secno g segno))) [
    | inl p ↦ p
    | inr p ↦ absurd (
        false≢true
          (sym ((inv.agree (get_secno g segno) (secno-lt g v segno h)).0 p segno refl) ∙ e))
  ]

  free_room : f.free_segmap segno ≡ true → f.free_segments + 1 < 2 ^ 32
  free_room e =
      omega (arith, inv.segments, v.small, v.segs_pos, zeros-le g.total_segs f.free_segmap)

  section_room : f.free_sections + 1 < 2 ^ 32
  section_room =
      grind
        (arith, inv.sections, v.small, v.segs_pos, v.main, zeros-le g.total_sections f.free_secmap)

module _ (search : BitSearch) (g : Geometry) (v : IsLayout g) (f : FreeSegmap) (segno : ℕ)
    (inv : IsFreeSegmap g f) (h : segno < g.total_segs) where
  abbrev rest_unused : Bool
  rest_unused = section_unused search g (update f.free_segmap segno false) segno

  Unused-agree :
      (not rest_unused ≡ false) ↔ Unused g (update f.free_segmap segno false) (get_secno g segno)
  Unused-agree =
      let test = section_unused_iff search g v (update f.free_segmap segno false) segno h in
      (λ e. test.0 (ground arith), λ u. ground (arith, test.1 u))

  set_free-IsStep :
      f.free_segmap segno ≡ true
      → IsStep g f (set_free search g f segno) segno false (not rest_unused)
  unfolding set_free
  set_free-IsStep e =
      let used = secmap_of_segmap g v f segno inv h e in
      let room = free_room g v f segno inv h e in
      let room' = section_room g v f segno inv h in
      record {
        segmap = λ k. ground arith;
        secmap = λ k. ground (arith, ap f.free_secmap {x = k} {y = get_secno g segno});
        segments = ground arith;
        sections = ground arith;
        agree = Unused-agree;
      }

  set_test_and_free-IsStep :
      f.free_segmap segno ≡ true
      → IsStep g f (set_test_and_free search g f segno) segno false (not rest_unused)
  unfolding set_test_and_free
  set_test_and_free-IsStep e =
      let used = secmap_of_segmap g v f segno inv h e in
      let room = free_room g v f segno inv h e in
      let room' = section_room g v f segno inv h in
      record {
        segmap = λ k. ground arith;
        secmap = λ k. ground (arith, ap f.free_secmap {x = k} {y = get_secno g segno});
        segments = ground arith;
        sections = ground arith;
        agree = Unused-agree;
      }

module _ (g : Geometry) (v : IsLayout g) (f : FreeSegmap) (segno : ℕ) (inv : IsFreeSegmap g f)
    (h : segno < g.total_segs) where
  used_agree : (true ≡ false) ↔ Unused g (update f.free_segmap segno true) (get_secno g segno)
  used_agree = (λ e. cc, λ u. ground (arith, u segno refl))

  some_free : f.free_segmap segno ≡ false → 0 < f.free_segments
  some_free e = ground (arith, inv.segments, zeros-update g.total_segs segno true f.free_segmap h)

  segments-lt : f.free_segments < 2 ^ 32
  segments-lt = omega (arith, inv.segments, v.small, zeros-le g.total_segs f.free_segmap)

  some_section : f.free_secmap (get_secno g segno) ≡ false → 0 < f.free_sections
  some_section e = ground (
    arith,
    inv.sections,
    zeros-update g.total_sections (get_secno g segno) true f.free_secmap (secno-lt g v segno h),
  )

  set_inuse-IsStep : f.free_segmap segno ≡ false → IsStep g f (set_inuse g f segno) segno true true
  unfolding set_inuse
  set_inuse-IsStep e =
      let room = section_room g v f segno inv h in
      let small = segments-lt in
      let pos = some_free e in
      record {
        segmap = λ k. ground arith;
        secmap = λ k. ground (arith, ap f.free_secmap {x = k} {y = get_secno g segno});
        segments = ground arith;
        sections = ground (arith, some_section);
        agree = used_agree;
      }

  set_test_and_inuse-IsStep :
      f.free_segmap segno ≡ false → IsStep g f (set_test_and_inuse g f segno) segno true true
  unfolding set_test_and_inuse
  set_test_and_inuse-IsStep e =
      let room = section_room g v f segno inv h in
      let small = segments-lt in
      let pos = some_free e in
      record {
        segmap = λ k. ground arith;
        secmap = λ k. ground (arith, ap f.free_secmap {x = k} {y = get_secno g segno});
        segments = ground arith;
        sections = ground (arith, some_section);
        agree = used_agree;
      }

  unchanged :
      (b : Bool)
      → f.free_segmap segno ≡ b
      → (k : ℕ) → f.free_segmap k ≡ update f.free_segmap segno b k
  unchanged b e k = ground (arith, ap f.free_segmap {x = k} {y = segno})

  -- `__set_inuse` on a free segment marks that segment and no other, and keeps the counters and
  -- the section map in step.
  pub set_inuse-IsFreeSegmap :
      f.free_segmap segno ≡ false
      → IsFreeSegmap g (set_inuse g f segno)
        × ((k : ℕ) → (set_inuse g f segno).free_segmap k ≡ update f.free_segmap segno true k)
  set_inuse-IsFreeSegmap e =
      let s = set_inuse-IsStep e in (IsStep-IsFreeSegmap g v f _ segno _ _ inv h s, s.segmap)

  -- `__set_test_and_inuse` on a segment of the main area marks it and no other, and keeps the
  -- counters and the section map in step, whether the segment was free or not.
  pub set_test_and_inuse-IsFreeSegmap :
      IsFreeSegmap g (set_test_and_inuse g f segno)
      × ((k : ℕ) → (set_test_and_inuse g f segno).free_segmap k ≡ update f.free_segmap segno true k)
  set_test_and_inuse-IsFreeSegmap = elim (Bool-cases (f.free_segmap segno)) [
    | inl e ↦ rw (kept e) (inv, unchanged true e)
    | inr e ↦
        let s = set_test_and_inuse-IsStep e in
        (IsStep-IsFreeSegmap g v f _ segno _ _ inv h s, s.segmap)
  ]
    where
      kept : f.free_segmap segno ≡ true → set_test_and_inuse g f segno ≡ f
      kept e = unfold set_test_and_inuse in rw e

module _ (search : BitSearch) (g : Geometry) (v : IsLayout g) (f : FreeSegmap) (segno : ℕ)
    (inv : IsFreeSegmap g f) (h : segno < g.total_segs) where
  -- `__set_free` on a segment in use frees that segment and no other, and its section with its last
  -- segment, and keeps the counters in step.
  pub set_free-IsFreeSegmap :
      f.free_segmap segno ≡ true
      → IsFreeSegmap g (set_free search g f segno)
        × ((k : ℕ) → (set_free search g f segno).free_segmap k ≡ update f.free_segmap segno false k)
  set_free-IsFreeSegmap e =
      let s = set_free-IsStep search g v f segno inv h e in
      (IsStep-IsFreeSegmap g v f _ segno _ _ inv h s, s.segmap)

  -- On free maps in step, `__set_test_and_free` on a segment of the main area frees it and no
  -- other, and keeps the counters and the section map in step, whether the segment was in use or
  -- not.
  pub set_test_and_free-IsFreeSegmap :
      IsFreeSegmap g (set_test_and_free search g f segno)
      × ((k : ℕ)
          → (set_test_and_free search g f segno).free_segmap k ≡ update f.free_segmap segno false k)
  set_test_and_free-IsFreeSegmap = elim (Bool-cases (f.free_segmap segno)) [
    | inl e ↦
        let s = set_test_and_free-IsStep search g v f segno inv h e in
        (IsStep-IsFreeSegmap g v f _ segno _ _ inv h s, s.segmap)
    | inr e ↦ rw (kept e) (inv, unchanged g v f segno inv h false e)
  ]
    where
      kept : f.free_segmap segno ≡ false → set_test_and_free search g f segno ≡ f
      kept e = unfold set_test_and_free in rw e
