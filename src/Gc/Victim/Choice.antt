-- ===== src/Gc/Victim/Choice.antt =====
-- The whole of `get_victim_by_default` of fs/f2fs/gc.c.
use f2fs.Base.{
  ℕ, ◌<◌, ◌≡◌, refl, sym, subst, true, false, arith, BitSearch, ◌==◌, clear_bit, Bool-cases, inl,
  inr, ◌⊎◌, Returns, Returns->>=, Returns-if_false, none, false≢true,
}
use f2fs.Segment.Geometry.{Geometry, IsLayout, null_segno}
use f2fs.Segment.Sit.{SitInfo}
use f2fs.Segment.Dirty.{DirtyInfo}
use f2fs.Gc.{GcType, bg_gc, fg_gc, GcMode, VictimSelPolicy, select_policy}
use f2fs.Gc.Victim.{
  VictimSearch, VictimResult, got_it, search_all, search_unless, get_victim_by_default, is_fg_lfs,
}
use f2fs.Gc.Victim.Sound.{
  IsCandidate, IsTaken, IsChosen, got_it-IsTaken, check_bg_victims-cases, search_from-IsChosen,
}

-- What may be chosen: a candidate of the search, or what the background cleaner left.
pub data IsEligible (g : Geometry) (d : DirtyInfo) (cur : ℕ → ℕ) (gc_type : GcType)
    (p : VictimSelPolicy) (k : ℕ) : Type 0 where
  searched : IsCandidate g d cur gc_type p k → IsEligible g d cur gc_type p k
  left_over :
      is_fg_lfs p gc_type ≡ true
      → k < g.total_segs
      → d.victim_bg k ≡ true
      → IsEligible g d cur gc_type p k

-- Nothing is chosen and no list changes, or an eligible segment is taken.
abbrev pub IsVictim :
    Geometry → DirtyInfo → (ℕ → ℕ) → GcType → VictimSelPolicy → VictimResult → Type 0
IsVictim g d cur gc_type p r =
    (r.victim ≡ none) × (r.lists ≡ d)
    ⊎ (k : ℕ) × IsEligible g d cur gc_type p k × IsTaken d gc_type p k r

-- Nor does what the background cleaner left change the map of the foreground.
IsTaken-left_over :
    (d : DirtyInfo) (gc_type : GcType) (p : VictimSelPolicy) (k : ℕ) (r : VictimResult)
    → is_fg_lfs p gc_type ≡ true
    → IsTaken (record d { victim_bg = clear_bit k d.victim_bg }) gc_type p k r
    → IsTaken d gc_type p k r
IsTaken-left_over d bg_gc p k r h t = absurd (false≢true h)
IsTaken-left_over d fg_gc p k r h t = record {
  victim = t.victim;
  marked = t.marked;
  segmaps = t.segmaps;
  counts = t.counts;
}

module _ (search : BitSearch) (fls : ℕ → ℕ) (g : Geometry) (d : DirtyInfo) (cur : ℕ → ℕ)
    (gc_type : GcType) where
  got_it-IsVictim :
      (p : VictimSelPolicy) (st : VictimSearch)
      → IsChosen search fls g d cur gc_type p st
      → IsVictim g d cur gc_type p
          (got_it search fls g p gc_type st.min_segno d st.sit st.last_victim)
  unfolding got_it
  got_it-IsVictim p st it = elim (Bool-cases (st.min_segno == null_segno)) [
    | inl e ↦ rw (got_it, e) (inl (refl, refl))
    | inr e ↦ elim it [
      | inl same ↦ absurd (ground (arith, same, e))
      | inr c ↦ inr (
        st.min_segno,
        searched c,
        got_it-IsTaken search fls g d gc_type p st.min_segno st.sit st.last_victim e,
      )
    ]
  ]

  search_all-IsVictim :
      (s : SitInfo) (last : GcMode → ℕ) (p : VictimSelPolicy)
      → Returns (IsVictim g d cur gc_type p) (search_all search fls g s d cur last gc_type p)
  unfolding search_all
  search_all-IsVictim s last p =
      Returns->>= _ (IsVictim g d cur gc_type p) _ _
        (search_from-IsChosen search fls g d cur gc_type p s last)
        (λ st _ it. got_it-IsVictim p st it)

  search_unless-IsVictim :
      (s : SitInfo) (last : GcMode → ℕ) (p : VictimSelPolicy) (left : ℕ) (d' : DirtyInfo)
      → is_fg_lfs p gc_type ≡ true
      → ((left == null_segno) ≡ true) × (d' ≡ d)
        ⊎ ((left == null_segno) ≡ false)
          × (left < g.total_segs)
          × (d.victim_bg left ≡ true)
          × (d' ≡ record d { victim_bg = clear_bit left d.victim_bg })
      → Returns
          (IsVictim g d cur gc_type p)
          (search_unless search fls g s d' cur last gc_type p left)
  unfolding search_unless
  search_unless-IsVictim s last p left d' e (inl (nothing, same)) =
      rw (search_unless, nothing)
        (subst
          (λ x.
            Returns (IsVictim g d cur gc_type p) (search_all search fls g s x cur last gc_type p))
          (sym same) (search_all-IsVictim s last p))
  search_unless-IsVictim s last p left d' e (inr (taken, small, hit, change)) =
      let t = got_it-IsTaken search fls g d' gc_type p left s last taken in
      let t' =
        subst (λ x. IsTaken x gc_type p left (got_it search fls g p gc_type left d' s last)) change
          t in
      Returns-if_false (IsVictim g d cur gc_type p) _ _ _ taken
        (inr (left, left_over e small hit, IsTaken-left_over d gc_type p left _ e t'))

  -- For any state of the counts and of `last_victim`, `get_victim_by_default` ends. It gives nothing
  -- and changes no list, or it gives the start of the unit (a segment for a log that reuses it, a
  -- section for the cleaner) of a segment of the main area: that one is on the dirty list of the
  -- policy, no victim of the foreground (nor, in the background, of the background), in no log's
  -- section, or the foreground cleaner takes it over from the background's victims. For the cleaner
  -- the segments of the unit, and no others, join the victims of its kind; a segment that a log
  -- reuses joins none. The lists of dirty segments stay.
  pub get_victim_by_default-IsVictim :
      (s : SitInfo) (last : GcMode → ℕ) (ty : ℕ)
      → IsLayout g
      → Returns
          (IsVictim g d cur gc_type (select_policy g d last gc_type ty))
          (get_victim_by_default search fls g s d cur last gc_type ty)
  unfolding get_victim_by_default
  get_victim_by_default-IsVictim s last ty v =
      let p = select_policy g d last gc_type ty in
      elim (Bool-cases (is_fg_lfs p gc_type)) [
        | inr e ↦ rw (get_victim_by_default, e) (search_all-IsVictim s last p)
        | inl e ↦
            rw (get_victim_by_default, e)
              (search_unless-IsVictim s last p _ _ e (check_bg_victims-cases search fls g d v))
      ]
