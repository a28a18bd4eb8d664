-- ===== src/Gc/Victim/Least.antt =====
-- The search of `get_victim_by_default` of fs/f2fs/gc.c for a segment that a log reuses finds a least
-- cost, unless it stops early.
use f2fs.Base.{
  false≢true, ℕ_discrete, ℕ, ◌+◌, ◌*◌, ◌^◌, ◌<◌, ◌≤◌, ◌≡◌, refl, sym, ap, ◌∙◌, subst, Bool, true,
  false, arith, BitSearch, ◌==◌, Bool-cases, inl, inr, ◌⊎◌, Returns, Returns-map, dec_lt,
  lt→leb_false, le→leb,
}
use f2fs.Segment.Geometry.{Geometry, null_segno}
use f2fs.Segment.Sit.{SitInfo}
use f2fs.Segment.Dirty.{DirtyInfo}
use f2fs.Gc.{GcType, GcMode, VictimSelPolicy, get_max_cost, get_gc_cost}
use f2fs.Gc.Victim.{
  VictimSearch, unit_start, is_passed_over, weigh, search_round, search_from, first_round,
}
use f2fs.Gc.Victim.Laws.{round, measure, search_from-Returns}
use f2fs.Gc.Victim.Sound.{IsCandidate}

module _ (g : Geometry) (d : DirtyInfo) (cur : ℕ → ℕ) (gc_type : GcType) (p : VictimSelPolicy)
    (cost : ℕ → ℕ) where
  -- What has been chosen so far.
  abbrev pub IsBest : VictimSearch → Type 0
  IsBest st =
      (st.min_segno ≡ null_segno) × (st.min_cost ≡ get_max_cost g p) × (st.nsearched ≡ 0)
      ⊎ IsCandidate g d cur gc_type p st.min_segno × (st.min_cost ≡ cost st.min_segno)

  -- The search gives nothing, or a candidate of least cost if it weighed at most twenty.
  pub record IsLeast (st : VictimSearch) : Type 0 where
    pub chosen : IsBest st
    pub least : st.nsearched ≤ 20 → (k : ℕ) → IsCandidate g d cur gc_type p k → st.min_cost ≤ cost k

module _ (search : BitSearch) (fls : ℕ → ℕ) (g : Geometry) (d : DirtyInfo) (cur : ℕ → ℕ)
    (gc_type : GcType) (p : VictimSelPolicy) (s : SitInfo) (cost : ℕ → ℕ)
    (costs : (k : ℕ) → get_gc_cost fls g s k p ≡ (cost k, s))
    (bounded : (k : ℕ) → k < g.total_segs → cost k ≤ get_max_cost g p)
    (small : get_max_cost g p < 2 ^ 32) (one : p.log_ofs_unit ≡ 0) where
  abbrev IsCand : ℕ → Type 0
  IsCand = IsCandidate g d cur gc_type p

  record IsSearching (st : VictimSearch) : Type 0 where
    same : st.sit ≡ s
    best : IsBest g d cur gc_type p cost st
    few : st.nsearched ≤ 20
    below : st.last_victim p.gc_mode ≡ 0 → (k : ℕ) → IsCand k → k < st.offset → st.min_cost ≤ cost k

  -- What one comparison does.
  record IsWeighed (st : VictimSearch) (segno : ℕ) (b : Bool) (r : VictimSearch) : Type 0 where
    same : r.sit ≡ s
    kept :
        (r.min_segno ≡ st.min_segno)
          × (r.min_cost ≡ st.min_cost)
          × (st.min_cost ≤ cost segno)
          × ((st.min_cost ≡ get_max_cost g p) → r.nsearched ≡ st.nsearched)
        ⊎ (r.min_segno ≡ segno) × (r.min_cost ≡ cost segno) × (cost segno < st.min_cost)
    on :
        b ≡ true
        → (r.offset ≡ st.offset)
          × (r.last_victim p.gc_mode ≡ st.last_victim p.gc_mode)
          × (r.nsearched ≤ 20)
    off : b ≡ false → r.nsearched ≡ 21

  weigh-IsWeighed :
      (st : VictimSearch) (segno : ℕ)
      → st.sit ≡ s
      → segno < g.total_segs
      → st.nsearched ≤ 20
      → let r = weigh search fls g d cur gc_type p st segno in IsWeighed st segno r.0 r.1
  unfolding weigh
  weigh-IsWeighed st segno e h few =
      let c : get_gc_cost fls g st.sit segno p ≡ (cost segno, s) = rw e (costs segno) in
      rw (weigh, c)
        (record {
          same = ground arith;
          kept = ground (arith, bounded segno h, small);
          on = λ h. ground arith;
          off = λ h. ground arith;
        })

  unit_one : (k : ℕ) → unit_start search fls g d cur gc_type p k + 2 ^ p.log_ofs_unit ≡ k + 1
  unit_one k = rw one (omega arith)

  abbrev next_hit : VictimSearch → ℕ
  next_hit st = search.find_next_bit p.segmap g.total_segs st.offset

  abbrev next_of : VictimSearch → VictimSearch
  next_of st = record st {
    offset = unit_start search fls g d cur gc_type p (next_hit st) + 2 ^ p.log_ofs_unit;
  }

  -- A candidate before the hit has been seen.
  seen :
      (st : VictimSearch)
      → IsSearching st
      → st.last_victim p.gc_mode ≡ 0
      → (k : ℕ) → IsCand k
      → k < next_hit st
      → st.min_cost ≤ cost k
  seen st it zero_last k c h = elim (dec_lt k st.offset) [
    | yes q ↦ it.below zero_last k c q
    | no q ↦ absurd (
        false≢true (
          sym ((search.find_next_bit_lem p.segmap g.total_segs st.offset).before k (omega arith) h)
          ∙ c.listed))
  ]

  passed_over :
      (st : VictimSearch)
      → IsSearching st
      → is_passed_over g d cur gc_type (next_hit st) ≡ true
      → IsSearching (next_of st)
  passed_over st it e = record {
    same = it.same;
    best = it.best;
    few = it.few;
    below = λ z k c h. elim (ℕ_discrete k (next_hit st)) [
      | yes q ↦ absurd (false≢true (sym c.not_passed ∙ ap (is_passed_over g d cur gc_type) q ∙ e))
      | no q ↦ seen st it z k c (omega (arith, unit_one (next_hit st)))
    ];
  }

  weighed-IsBest :
      (st r : VictimSearch) (segno : ℕ) (b : Bool)
      → IsBest g d cur gc_type p cost st
      → IsCand segno
      → IsWeighed st segno b r
      → IsBest g d cur gc_type p cost r
  weighed-IsBest st r segno b best c w = elim w.kept [
    | inl (m, n, _, few) ↦ elim best [
      | inl (x, y, z) ↦ inl (m ∙ x, n ∙ y, few y ∙ z)
      | inr (x, y) ↦ inr (subst IsCand (sym m) x, n ∙ y ∙ ap cost (sym m))
    ]
    | inr (m, n, _) ↦ inr (subst IsCand (sym m) c, n ∙ ap cost (sym m))
  ]

  weighed :
      (st r : VictimSearch)
      → IsSearching st
      → IsCand (next_hit st)
      → IsWeighed (next_of st) (next_hit st) true r
      → IsSearching r
  weighed st r it c w = record {
    same = w.same;
    best = weighed-IsBest (next_of st) r (next_hit st) true it.best c w;
    few = (w.on refl).2;
    below = λ z k ck h.
        let (ofs, last, _) = w.on refl in
        let old : k < next_hit st → st.min_cost ≤ cost k = seen st it (sym last ∙ z) k ck in
        elim (ℕ_discrete k (next_hit st)) [
          | yes q ↦ elim w.kept [
            | inl (_, m, n, _) ↦ omega (arith, m, n, ap cost q)
            | inr (_, m, n) ↦ omega (arith, m, n, ap cost q)
          ]
          | no q ↦
              let o = old (omega (arith, unit_one (next_hit st), ofs)) in
              elim w.kept [
                | inl (_, m, n, _) ↦ omega (arith, m, o)
                | inr (_, m, n) ↦ omega (arith, m, n, o)
              ]
        ];
  }

  -- The ways a round can go.
  round-cases :
      (st : VictimSearch)
      → IsSearching st
      → let r = round search fls g d cur gc_type p st in
        ((r.0 ≡ true) → IsSearching r.1) × ((r.0 ≡ false) → IsLeast g d cur gc_type p cost r.1)
  unfolding search_round
  round-cases st it = elim (dec_lt (next_hit st) g.total_segs) [
    | no h ↦ elim (Bool-cases (st.last_victim p.gc_mode == 0)) [
      | inl e ↦
          rw (search_round, le→leb g.total_segs (next_hit st) (omega arith), e)
            (
              λ f. absurd (false≢true f),
              λ _. record {
                chosen = it.best;
                least = λ _ k c. seen st it (ground (arith, e)) k c (omega (arith, c.in_main));
              },
            )
      | inr e ↦
          rw (search_round, le→leb g.total_segs (next_hit st) (omega arith), e)
            (
              λ _. record {
                same = it.same;
                best = it.best;
                few = it.few;
                below = λ _ k _ h. absurd (omega (arith, h));
              },
              λ f. absurd (false≢true (sym f)),
            )
    ]
    | yes h ↦ elim (Bool-cases (is_passed_over g d cur gc_type (next_hit st))) [
      | inl e ↦
          rw (search_round, lt→leb_false _ _ h, e)
            (λ _. passed_over st it e, λ f. absurd (false≢true (sym f)))
      | inr e ↦
          let c : IsCand (next_hit st) = record {
            in_main = h;
            listed = (search.find_next_bit_lem p.segmap g.total_segs st.offset).hit h;
            not_passed = e;
          } in
          let w = weigh-IsWeighed (next_of st) (next_hit st) it.same h it.few in
          rw (search_round, lt→leb_false _ _ h, e)
            (
              λ b. weighed st _ it c (
                  subst
                    (λ x.
                      IsWeighed (next_of st) (next_hit st) x
                        (weigh search fls g d cur gc_type p (next_of st) (next_hit st)).1)
                    b w),
              λ b. record {
                chosen = weighed-IsBest (next_of st) _ (next_hit st) _ it.best c w;
                least = λ few. absurd (omega (arith, few, w.off b));
              },
            )
    ]
  ]

  pub search_from-IsLeast :
      (last : GcMode → ℕ)
      → p.offset ≡ last p.gc_mode
      → Returns (IsLeast g d cur gc_type p cost) (
          search_from search fls g d cur gc_type p
            (2 * g.total_segs + 3)
            (first_round search fls g s last p))
  unfolding first_round measure
  search_from-IsLeast last e =
      Returns-map _ (IsLeast g d cur gc_type p cost) _
        (λ r (x, it, stop, q). subst (IsLeast g d cur gc_type p cost) q ((round-cases x it).1 stop))
        (search_from-Returns search fls g d cur gc_type p IsSearching (2 * g.total_segs + 3) _
          (λ x it more. (round-cases x it).0 more) (ground arith)
          (record {
            same = refl;
            best = inl (refl, omega arith, refl);
            few = omega arith;
            below = λ z k c h. absurd (omega (arith, h, e, z));
          }))
