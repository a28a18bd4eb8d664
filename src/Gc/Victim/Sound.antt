-- ===== src/Gc/Victim/Sound.antt =====
-- What `get_victim_by_default` of fs/f2fs/gc.c may choose, and what it marks.
use f2fs.Base.{
  ℕ, zero, suc, ◌+◌, ◌*◌, ◌/◌, ◌^◌, ◌<◌, ◌≡◌, refl, subst, Bool, true, false, arith, BitSearch,
  IsFirst, leb, ltb, clear_bit, ◌==◌, ◌&&◌, if◌then◌else◌, inl, inr, ◌⊎◌, Returns, Returns-map,
  some, Bitmap, dec_lt, lt→ltb, le→ltb_false,
}
use f2fs.Segment.Geometry.{Geometry, IsLayout, null_segno}
use f2fs.Segment.Sit.{SitInfo}
use f2fs.Segment.Dirty.{DirtyInfo}
use f2fs.Segment.Curseg.{AllocType, lfs, ssr}
use f2fs.Gc.{GcType, bg_gc, fg_gc, GcMode, VictimSelPolicy, check_bg_victims}
use f2fs.Gc.Victim.{
  VictimSearch, VictimResult, unit_start, is_passed_over, weigh, search_round, search_from,
  set_victim_bits, victim_segmap, got_it, first_round,
}
use f2fs.Gc.Victim.Laws.{round, measure, search_from-Returns}

-- A segment that the search may weigh.
pub record IsCandidate (g : Geometry) (d : DirtyInfo) (cur : ℕ → ℕ) (gc_type : GcType)
    (p : VictimSelPolicy) (k : ℕ) : Type 0 where
  pub in_main : k < g.total_segs
  pub listed : p.segmap k ≡ true
  pub not_passed : is_passed_over g d cur gc_type k ≡ false

pub set_victim_bits-lem :
    (start n : ℕ) (m : Bitmap) (k : ℕ)
    → set_victim_bits start n m k ≡ (if leb start k && ltb k (start + n) then true else m k)
unfolding set_victim_bits
set_victim_bits-lem start zero m k = ground arith
set_victim_bits-lem start (suc n) m k = ground (arith, set_victim_bits-lem start n m k)

module _ (search : BitSearch) (fls : ℕ → ℕ) (g : Geometry) (d : DirtyInfo) (cur : ℕ → ℕ)
    (gc_type : GcType) (p : VictimSelPolicy) where
  weigh-min :
      (st : VictimSearch) (segno : ℕ)
      → let r = (weigh search fls g d cur gc_type p st segno).1 in
        (r.min_segno ≡ st.min_segno) ⊎ (r.min_segno ≡ segno)
  unfolding weigh
  weigh-min st segno = ground arith

  abbrev pub IsChosen : VictimSearch → Type 0
  IsChosen st = (st.min_segno ≡ null_segno) ⊎ IsCandidate g d cur gc_type p st.min_segno

  abbrev next_hit : VictimSearch → ℕ
  next_hit st = search.find_next_bit p.segmap g.total_segs st.offset

  round-min :
      (st : VictimSearch)
      → let r = (round search fls g d cur gc_type p st).1 in
        (r.min_segno ≡ st.min_segno)
        ⊎ ((next_hit st < g.total_segs)
            × (is_passed_over g d cur gc_type (next_hit st) ≡ false)
            × (r.min_segno ≡ next_hit st))
  unfolding search_round
  round-min st = ground (
    arith,
    weigh-min
        (record st {
          offset = unit_start search fls g d cur gc_type p (next_hit st) + 2 ^ p.log_ofs_unit;
        })
        (next_hit st),
  )

  pub round-IsChosen :
      (st : VictimSearch) → IsChosen st → IsChosen (round search fls g d cur gc_type p st).1
  round-IsChosen st it = elim (round-min st) [
    | inl e ↦ rw e it
    | inr (h, q, e) ↦ rw e (
        inr (record {
          in_main = h;
          listed = (search.find_next_bit_lem p.segmap g.total_segs st.offset).hit h;
          not_passed = q;
        }))
  ]

  -- The loop from its first round ends with a candidate or nothing.
  pub search_from-IsChosen :
      (s : SitInfo) (last : GcMode → ℕ)
      → Returns IsChosen (
          search_from search fls g d cur gc_type p
            (2 * g.total_segs + 3)
            (first_round search fls g s last p))
  unfolding first_round measure
  search_from-IsChosen s last =
      Returns-map _ IsChosen _ (λ r (x, it, _, e). subst IsChosen e (round-IsChosen x it))
        (search_from-Returns search fls g d cur gc_type p IsChosen (2 * g.total_segs + 3) _
          (λ x it _. round-IsChosen x it) (ground arith) (inl refl))

-- Bits that are set from `start` on, and the other bits.
abbrev pub with_run : Bool → ℕ → ℕ → Bitmap → Bitmap
with_run on start n m j = if on && leb start j && ltb j (start + n) then true else m j

abbrev pub is_lfs : AllocType → Bool
is_lfs lfs = true
is_lfs ssr = false

pub AllocType-cases : (a : AllocType) → (a ≡ lfs) ⊎ (a ≡ ssr)
AllocType-cases lfs = inl refl
AllocType-cases ssr = inr refl

-- What a chosen segment gives: its unit, whose bits are set under the log-structured policy, in the
-- map of the kind of cleaning.
pub record IsTaken (d : DirtyInfo) (gc_type : GcType) (p : VictimSelPolicy) (k : ℕ)
    (r : VictimResult) : Type 0 where
  pub victim : r.victim ≡ some (k / 2 ^ p.log_ofs_unit * 2 ^ p.log_ofs_unit)
  pub marked :
      (j : ℕ)
      → victim_segmap r.lists gc_type j
        ≡ with_run
            (is_lfs p.alloc_mode)
            (k / 2 ^ p.log_ofs_unit * 2 ^ p.log_ofs_unit)
            (2 ^ p.log_ofs_unit)
            (victim_segmap d gc_type)
            j
  pub segmaps : r.lists.dirty_segmap ≡ d.dirty_segmap
  pub counts : r.lists.nr_dirty ≡ d.nr_dirty

module _ (search : BitSearch) (fls : ℕ → ℕ) (g : Geometry) where
  pub got_it-IsTaken :
      (d : DirtyInfo) (gc_type : GcType) (p : VictimSelPolicy) (k : ℕ) (s : SitInfo)
      (last : GcMode → ℕ)
      → (k == null_segno) ≡ false
      → IsTaken d gc_type p k (got_it search fls g p gc_type k d s last)
  unfolding got_it
  got_it-IsTaken d bg_gc p k s last h = elim (AllocType-cases p.alloc_mode) [
    | inl e ↦
        rw (got_it, h, e)
          (record {
            victim = refl;
            marked = λ j. set_victim_bits-lem _ _ _ j;
            segmaps = refl;
            counts = refl;
          })
    | inr e ↦
        rw (got_it, h, e)
          (record { victim = refl; marked = λ j. refl; segmaps = refl; counts = refl })
  ]
  got_it-IsTaken d fg_gc p k s last h = elim (AllocType-cases p.alloc_mode) [
    | inl e ↦
        rw (got_it, h, e)
          (record {
            victim = refl;
            marked = λ j. set_victim_bits-lem _ _ _ j;
            segmaps = refl;
            counts = refl;
          })
    | inr e ↦
        rw (got_it, h, e)
          (record { victim = refl; marked = λ j. refl; segmaps = refl; counts = refl })
  ]

  -- The victim that the background cleaner left, or none.
  pub check_bg_victims-cases :
      (d : DirtyInfo)
      → IsLayout g
      → let r = check_bg_victims search g d in
        ((r.0 == null_segno) ≡ true) × (r.1 ≡ d)
        ⊎ ((r.0 == null_segno) ≡ false)
          × (r.0 < g.total_segs)
          × (d.victim_bg r.0 ≡ true)
          × (r.1 ≡ record d { victim_bg = clear_bit r.0 d.victim_bg })
  unfolding check_bg_victims
  check_bg_victims-cases d v = elim (dec_lt segno g.total_segs) [
    | yes h ↦ rw (lt→ltb _ _ h) (inr (ground (arith, v.small), h, first.hit h, refl))
    | no h ↦ rw (le→ltb_false segno g.total_segs (omega arith)) (inl (refl, refl))
  ]
    where
      segno : ℕ
      segno = search.find_next_bit d.victim_bg g.total_segs 0

      first : IsFirst true d.victim_bg g.total_segs 0 segno
      first = search.find_next_bit_lem d.victim_bg g.total_segs 0
