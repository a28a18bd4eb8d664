-- ===== src/Segment/NewSegment.antt =====
-- `get_new_segment` of fs/f2fs/segment.c: the choice of a free segment, under `segmap_lock`.
-- `zones` are the zones of the six current segments. `goto find_other_zone` is taken once at most,
-- since `init` guards it, so the code is two calls of `find_section`.
pub mod Laws
use f2fs.Base.{
  ℕ, zero, suc, ◌+◌, ◌-◌, ◌*◌, ◌/◌, ◌%◌, ◌^◌, Bool, true, false, not, ◌&&◌, ◌||◌, Bitmap, add32,
  sub32, leb, ltb, ◌==◌, if◌then◌else◌, BitSearch, Option, none, some, List, [], ◌∷◌, bug_on, ◌>>=◌,
  ◌>>◌,
}
use f2fs.Segment.Geometry.{Geometry, get_secno, get_zoneno_from_segno}
use f2fs.Segment.Free.{FreeSegmap, set_inuse}

pub data Direction : Type 0 where
  alloc_right alloc_left : Direction

abbrev pub is_left : Direction → Bool
is_left alloc_left = true
is_left alloc_right = false

-- What one pass of the search leaves in the local variables.
pub record Pass : Type 0 where
  pub secno : ℕ
  pub go_left : Bool
  pub left_start : ℕ

abbrev pub mem : ℕ → List ℕ → Bool
mem z [] = false
mem z (y ∷ ys) = y == z || mem z ys

module _ (search : BitSearch) (g : Geometry) (f : FreeSegmap) where
  open search use {find_next_zero_bit}

  abbrev pub next_free_sec : ℕ → ℕ
  next_free_sec hint = find_next_zero_bit f.free_secmap g.total_sections hint

  -- The search from section 0, which `BUG_ON`s if nothing is free.
  pub first_free_sec : Option ℕ
  first_free_sec = let secno = next_free_sec 0 in do bug_on (leb g.total_sections secno); some secno

  -- The `while (test_bit(left_start, ..))` loop.
  pub walk_left : ℕ → Option ℕ
  walk_left zero = if f.free_secmap zero then first_free_sec else some zero
  walk_left (suc n) = if f.free_secmap (suc n) then walk_left n else some (suc n)

  abbrev pub leftwards : ℕ → Option Pass
  leftwards start = do
    left ← walk_left start
    some (record { secno = left; go_left = true; left_start = left })

  -- Behind the search for `secno`: `goto skip_left`, or the walk.
  pub found : Bool → ℕ → ℕ → Option Pass
  found go_left left_start secno =
      if go_left
      then leftwards left_start
      else some (record { secno = secno; go_left = false; left_start = left_start })

  -- From `find_other_zone` to `skip_left`.
  pub find_section : Direction → ℕ → Bool → ℕ → Option Pass
  find_section dir hint go_left left_start =
      let secno = next_free_sec hint in
      if leb g.total_sections secno
      then if is_left dir
        then leftwards (sub32 hint 1)
        else first_free_sec >>= found go_left left_start
      else found go_left left_start secno

  -- `got_it` is reached with the section of this pass, unless a log is in its zone.
  pub keeps_zone : Direction → ℕ → Pass → Bool
  keeps_zone dir old_zoneno p =
      let zoneno = p.secno / g.secs_per_zone in
      let total_zones = g.total_sections / g.secs_per_zone in
      g.secs_per_zone == 1
      || zoneno == old_zoneno
      || is_left dir && (not p.go_left && leb total_zones (zoneno + 1) || p.go_left && zoneno == 0)

  -- The hint for the second pass.
  pub other_zone : Pass → ℕ
  other_zone p =
      let zoneno = p.secno / g.secs_per_zone in
      if p.go_left
      then sub32 (zoneno * g.secs_per_zone) 1
      else if leb (g.total_sections / g.secs_per_zone) (zoneno + 1)
      then 0
      else (zoneno + 1) * g.secs_per_zone

  -- From the choice of a section to `got_it`.
  pub settle : Direction → List ℕ → ℕ → Pass → Option ℕ
  settle dir zones old_zoneno p =
      let again =
        find_section dir (other_zone p) p.go_left p.left_start >>= λ (q : Pass). some q.secno in
      if keeps_zone dir old_zoneno p
      then some p.secno
      else if mem (p.secno / g.secs_per_zone) zones
      then again
      else some p.secno

  pub pick_section : Direction → List ℕ → ℕ → Option ℕ
  pick_section dir zones newseg = do
    p ← find_section dir (get_secno g newseg) false (get_secno g newseg)
    settle dir zones (get_zoneno_from_segno g newseg) p

  start_of : ℕ → Option ℕ
  start_of secno = some (secno * 2 ^ g.log_segs_per_sec)

  pub pick_segment : ℕ → Bool → Direction → List ℕ → Option ℕ
  pick_segment newseg new_sec dir zones =
      let segno = find_next_zero_bit f.free_segmap g.total_segs (add32 newseg 1) in
      let by_section = pick_section dir zones newseg >>= start_of in
      if not new_sec && not (add32 newseg 1 % g.segs_per_sec == 0)
      then if ltb segno g.total_segs then some segno else by_section
      else by_section

  -- The new segment, and the maps with it in use.
  pub get_new_segment : ℕ → Bool → Direction → List ℕ → Option (ℕ × FreeSegmap)
  get_new_segment newseg new_sec dir zones = do
    segno ← pick_segment newseg new_sec dir zones
    bug_on (f.free_segmap segno)
    some (segno, set_inuse g f segno)
