-- ===== src/Gc/Sleep.antt =====
-- How long the cleaner's thread waits, and the victims that the background cleaner left.
use f2fs.Base.{
  ℕ, ◌+◌, ◌<◌, ◌≤◌, ◌≡◌, ◌↔◌, true, false, arith, BitSearch, IsFirst, update, dec_lt, lt→ltb,
  le→ltb_false, refl,
}
use f2fs.Segment.Geometry.{Geometry, IsLayout, null_segno}
use f2fs.Segment.Dirty.{DirtyInfo}
use f2fs.Gc.{
  gc_thread_min_sleep_time, gc_thread_max_sleep_time, increase_sleep_time, decrease_sleep_time,
  check_bg_victims,
}

-- A wait between the minimum and the maximum stays there under both changes; longer is not shorter,
-- shorter is not longer, and away from the limits the two undo each other.
pub sleep_time_bounds :
    (wait : ℕ)
    → gc_thread_min_sleep_time ≤ wait
    → wait ≤ gc_thread_max_sleep_time
    → (gc_thread_min_sleep_time ≤ increase_sleep_time wait)
      × (increase_sleep_time wait ≤ gc_thread_max_sleep_time)
      × (gc_thread_min_sleep_time ≤ decrease_sleep_time wait)
      × (decrease_sleep_time wait ≤ gc_thread_max_sleep_time)
      × (wait ≤ increase_sleep_time wait)
      × (decrease_sleep_time wait ≤ wait)
      × (wait + gc_thread_min_sleep_time ≤ gc_thread_max_sleep_time
          → decrease_sleep_time (increase_sleep_time wait) ≡ wait)
unfolding increase_sleep_time decrease_sleep_time
sleep_time_bounds wait h p = ground arith

-- `check_bg_victims` gives no segment exactly if the background cleaner has left no victim in the
-- main area; otherwise the segment is one of its victims, and it alone is taken off them.
pub check_bg_victims-lem :
    (search : BitSearch) (g : Geometry) (d : DirtyInfo)
    → IsLayout g
    → let r = check_bg_victims search g d in
      ((r.0 ≡ null_segno) ↔ ((k : ℕ) → k < g.total_segs → d.victim_bg k ≡ false))
      × (r.0 < g.total_segs
          → (d.victim_bg r.0 ≡ true) × ((k : ℕ) → r.1.victim_bg k ≡ update d.victim_bg r.0 false k))
unfolding check_bg_victims
check_bg_victims-lem search g d v = elim (dec_lt segno g.total_segs) [
  | yes p ↦ rw (lt→ltb _ _ p) (
    (
      λ e. absurd (omega (arith, e, p, v.small)),
      λ none_left. ground (arith, none_left segno, first.hit p),
    ),
    λ _. (first.hit p, λ k. refl),
  )
  | no p ↦ rw (le→ltb_false segno g.total_segs (omega arith)) (
    (λ _ k h. ground (arith, first.before k), λ _. refl),
    λ q. absurd (omega (arith, q, v.small)),
  )
]
  where
    segno : ℕ
    segno = search.find_next_bit d.victim_bg g.total_segs 0

    first : IsFirst true d.victim_bg g.total_segs 0 segno
    first = search.find_next_bit_lem d.victim_bg g.total_segs 0
