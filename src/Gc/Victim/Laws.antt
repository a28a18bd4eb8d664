-- ===== src/Gc/Victim/Laws.antt =====
-- The loop of `get_victim_by_default` of fs/f2fs/gc.c ends: the offset grows in each round, and the
-- search starts again at most once.
use f2fs.Base.{
  ℕ, zero, suc, ◌+◌, ◌-◌, ◌*◌, ◌/◌, ◌^◌, ◌<◌, ◌≡◌, refl, Bool, true, false, arith, BitSearch,
  IsFirst, ◌==◌, if◌then◌else◌, Bool-cases, inl, inr, ◌⊎◌, Returns,
}
use f2fs.Segment.Geometry.{Geometry}
use f2fs.Segment.Dirty.{DirtyInfo}
use f2fs.Gc.{GcType, GcMode, gc_cb, gc_greedy, VictimSelPolicy}
use f2fs.Gc.Victim.{set_last, unit_start, VictimSearch, weigh, search_round, search_from}

pub set_last_self : (m : GcMode) (n : ℕ) (f : GcMode → ℕ) → set_last m n f m ≡ n
set_last_self gc_cb n f = refl
set_last_self gc_greedy n f = refl

pub past_unit : (b n : ℕ) → 0 < b → n < n / b * b + b
past_unit b n h = grind arith

pub power_pos : (n : ℕ) → 0 < 2 ^ n
power_pos zero = omega arith
power_pos (suc n) = grind (arith, power_pos n)

module _ (search : BitSearch) (fls : ℕ → ℕ) (g : Geometry) (d : DirtyInfo) (cur : ℕ → ℕ)
    (gc_type : GcType) (p : VictimSelPolicy) where
  abbrev pub round : VictimSearch → Bool × VictimSearch
  round = search_round search fls g d cur gc_type p

  -- The rounds that are left at most.
  unfoldable pub measure : VictimSearch → ℕ
  measure st =
      (if st.last_victim p.gc_mode == 0 then 0 else g.total_segs + 1) + (g.total_segs - st.offset)

  weigh-more :
      (st : VictimSearch) (segno : ℕ)
      → let r = weigh search fls g d cur gc_type p st segno in
        (r.0 ≡ false)
        ⊎ ((r.1.offset ≡ st.offset) × (r.1.last_victim p.gc_mode ≡ st.last_victim p.gc_mode))
  unfolding weigh
  weigh-more st segno = ground arith

  measure-round : (st : VictimSearch) → (round st).0 ≡ true → measure (round st).1 < measure st
  unfolding search_round measure
  measure-round st h = ground (
    arith,
    first.in_size,
    first.from_offset,
    past_unit (2 ^ p.log_ofs_unit) segno (power_pos p.log_ofs_unit),
    set_last_self p.gc_mode 0 st.last_victim,
    weigh-more
        (record st { offset = unit_start search fls g d cur gc_type p segno + 2 ^ p.log_ofs_unit })
        segno,
  )
    where
      segno : ℕ
      segno = search.find_next_bit p.segmap g.total_segs st.offset

      first : IsFirst true p.segmap g.total_segs st.offset segno
      first = search.find_next_bit_lem p.segmap g.total_segs st.offset

  -- The rule for the loop: what every round keeps holds when the last round starts, and there is one.
  pub search_from-Returns :
      (P : VictimSearch → Type 0) (fuel : ℕ) (st : VictimSearch)
      → ((s : VictimSearch) → P s → (round s).0 ≡ true → P (round s).1)
      → measure st < fuel
      → P st
      → Returns
          (λ r. (s : VictimSearch) × P s × ((round s).0 ≡ false) × ((round s).1 ≡ r))
          (search_from search fls g d cur gc_type p fuel st)
  unfolding search_from search_round
  search_from-Returns P zero st keep h start = absurd (omega arith)
  search_from-Returns P (suc fuel) st keep h start = elim (Bool-cases (round st).0) [
    | inl e ↦
        rw (search_from, e)
          (search_from-Returns P fuel (round st).1 keep (omega (arith, measure-round st e))
            (keep st start e))
    | inr e ↦ rw (search_from, e) (st, start, e, refl)
  ]
