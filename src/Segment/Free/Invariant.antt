-- ===== src/Segment/Free/Invariant.antt =====
-- What keeps the free maps and their counters in step.
use native.Mathlib.Decide.{dec_lt}
use f2fs.Base.{
  ℕ, ◌+◌, ◌^◌, ◌<◌, ◌≤◌, ◌≡◌, ◌↔◌, true, false, Bitmap, zeros, BitSearch, IsFirst, arith, leb,
  leb→le, le→leb, sym, ◌∙◌, false≢true,
}
use f2fs.Segment.Geometry.{Geometry, IsLayout, get_secno}
use f2fs.Segment.Free.{FreeSegmap, section_start, section_unused}

-- No segment of section `sec` is in use.
abbrev pub Unused : Geometry → Bitmap → ℕ → Type 0
Unused g segmap sec = (k : ℕ) → get_secno g k ≡ sec → segmap k ≡ false

-- The counters count the clear bits, and a section's bit is clear exactly if no segment of it is
-- in use.
pub record IsFreeSegmap (g : Geometry) (f : FreeSegmap) : Type 0 where
  pub segments : f.free_segments ≡ zeros g.total_segs f.free_segmap
  pub sections : f.free_sections ≡ zeros g.total_sections f.free_secmap
  pub agree :
      (sec : ℕ) → sec < g.total_sections → (f.free_secmap sec ≡ false) ↔ Unused g f.free_segmap sec

module _ (g : Geometry) (v : IsLayout g) where
  pub secno-lt : (segno : ℕ) → segno < g.total_segs → get_secno g segno < g.total_sections
  secno-lt segno h = grind (arith, v.main, v.segs_pos)

  pub section_bounds :
      (k segno : ℕ)
      → get_secno g k ≡ get_secno g segno
      → (section_start g segno ≤ k) × (k < section_start g segno + 2 ^ g.log_segs_per_sec)
  section_bounds k segno e = (grind (arith, v.segs_pos), grind (arith, v.segs_pos))

  pub section_of_bounds :
      (k segno : ℕ)
      → section_start g segno ≤ k
      → k < section_start g segno + 2 ^ g.log_segs_per_sec
      → get_secno g k ≡ get_secno g segno
  section_of_bounds k segno p q = grind (arith, v.segs_pos)

  pub section_end :
      (segno : ℕ)
      → segno < g.total_segs
      → section_start g segno + 2 ^ g.log_segs_per_sec ≤ g.total_segs
  section_end segno h = grind (arith, v.main, secno-lt segno h)

module _ (search : BitSearch) (g : Geometry) (v : IsLayout g) (segmap : Bitmap) (segno : ℕ)
    (h : segno < g.total_segs) where
  first :
      IsFirst true segmap g.total_segs
        (section_start g segno)
        (search.find_next_bit segmap g.total_segs (section_start g segno))
  first = search.find_next_bit_lem segmap g.total_segs (section_start g segno)

  unused_test :
      section_unused search g segmap segno
      ≡ leb
          (section_start g segno + 2 ^ g.log_segs_per_sec)
          (search.find_next_bit segmap g.total_segs (section_start g segno))
  unfolding section_unused
  unused_test = ground (arith, section_end g v segno h, v.small, v.segs)

  -- The search of `__set_free` tells whether the section is unused.
  pub section_unused_iff :
      (section_unused search g segmap segno ≡ true) ↔ Unused g segmap (get_secno g segno)
  section_unused_iff = (forward, backward)
    where
      next : ℕ
      next = search.find_next_bit segmap g.total_segs (section_start g segno)

      forward : section_unused search g segmap segno ≡ true → Unused g segmap (get_secno g segno)
      forward e k same =
          let inside = section_bounds g v k segno same in
          first.before k inside.0 (omega (arith, inside.1, leb→le _ _ (sym unused_test ∙ e)))

      backward : Unused g segmap (get_secno g segno) → section_unused search g segmap segno ≡ true
      backward u = elim (dec_lt next (section_start g segno + 2 ^ g.log_segs_per_sec)) [
        | yes p ↦
            let below : next < g.total_segs = omega (arith, p, section_end g v segno h) in
            absurd (
              false≢true (
                sym (u next (section_of_bounds g v next segno (first.from_offset below) p))
                ∙ first.hit below))
        | no p ↦ unused_test ∙ le→leb _ _ (omega arith)
      ]
