-- ===== src/Gc/Victim.antt =====
-- The search for a segment to clean or to reuse: `get_victim_by_default` of fs/f2fs/gc.c, with
-- `IS_CURSEC` of fs/f2fs/segment.h. `seglist_lock` is held throughout, so the whole is one step.
-- `cur` gives the segment of each of the six logs.
pub mod Laws
pub mod Sound
pub mod Choice
pub mod Least
pub mod Reuse
use f2fs.Base.{
  ℕ, zero, suc, ◌+◌, ◌*◌, ◌/◌, ◌^◌, Bool, true, false, ◌||◌, ◌&&◌, Bitmap, set_bit, BitSearch, leb,
  ltb, ◌==◌, if◌then◌else◌, Option, none, some, ◌>>=◌, u32,
}
use f2fs.Segment.Geometry.{Geometry, get_secno, null_segno}
use f2fs.Segment.Sit.{SitInfo}
use f2fs.Segment.Dirty.{DirtyInfo}
use f2fs.Segment.Curseg.{AllocType, lfs, ssr}
use f2fs.Gc.{
  GcType, bg_gc, fg_gc, GcMode, gc_cb, gc_greedy, VictimSelPolicy, select_policy, get_max_cost,
  get_gc_cost, check_bg_victims,
}

abbrev pub max_victim_search : ℕ
max_victim_search = 20

-- `IS_CURSEC`
unfoldable pub is_cursec : Geometry → (ℕ → ℕ) → ℕ → Bool
is_cursec g cur secno =
    secno == get_secno g (cur 0)
    || secno == get_secno g (cur 1)
    || secno == get_secno g (cur 2)
    || secno == get_secno g (cur 3)
    || secno == get_secno g (cur 4)
    || secno == get_secno g (cur 5)

abbrev pub set_last : GcMode → ℕ → (GcMode → ℕ) → GcMode → ℕ
set_last gc_cb n f gc_cb = n
set_last gc_cb n f gc_greedy = f gc_greedy
set_last gc_greedy n f gc_cb = f gc_cb
set_last gc_greedy n f gc_greedy = n

-- `victim_segmap[FG_GC]` and `victim_segmap[BG_GC]`
abbrev pub victim_segmap : DirtyInfo → GcType → Bitmap
victim_segmap d bg_gc = d.victim_bg
victim_segmap d fg_gc = d.victim_fg

abbrev pub is_bg : GcType → Bool
is_bg bg_gc = true
is_bg fg_gc = false

-- What the rounds of the loop change.
pub record VictimSearch : Type 0 where
  pub min_segno : ℕ
  pub min_cost : ℕ
  pub offset : ℕ
  pub nsearched : ℕ
  pub sit : SitInfo
  pub last_victim : GcMode → ℕ

-- The three tests that pass over a segment.
unfoldable pub is_passed_over : Geometry → DirtyInfo → (ℕ → ℕ) → GcType → ℕ → Bool
is_passed_over g d cur gc_type segno =
    d.victim_fg segno || is_bg gc_type && d.victim_bg segno || is_cursec g cur (get_secno g segno)

module _ (search : BitSearch) (fls : ℕ → ℕ) (g : Geometry) (d : DirtyInfo) (cur : ℕ → ℕ)
    (gc_type : GcType) (p : VictimSelPolicy) where
  -- `(segno >> p.log_ofs_unit) << p.log_ofs_unit`
  abbrev pub unit_start : ℕ → ℕ
  unit_start segno = segno / 2 ^ p.log_ofs_unit * 2 ^ p.log_ofs_unit

  -- The cost of a segment is compared with the least one; does the loop go on?
  unfoldable pub weigh : VictimSearch → ℕ → Bool × VictimSearch
  weigh st segno =
      let (cost, s) = get_gc_cost fls g st.sit segno p in
      let st1 = record st { sit = s } in
      let st2 =
        if ltb cost st.min_cost
        then record st1 { min_segno = segno; min_cost = u32 cost }
        else st1 in
      let st3 = record st2 { nsearched = st2.nsearched + 1 } in
      if cost == get_max_cost g p
      then (true, st2)
      else if leb max_victim_search st2.nsearched
      then (false, record st3 { last_victim = set_last p.gc_mode segno st3.last_victim })
      else (true, st3)

  -- One round of `while (1)`.
  unfoldable pub search_round : VictimSearch → Bool × VictimSearch
  unfolding weigh
  search_round st =
      let segno = search.find_next_bit p.segmap g.total_segs st.offset in
      let next = record st { offset = unit_start segno + 2 ^ p.log_ofs_unit } in
      if leb g.total_segs segno
      then if st.last_victim p.gc_mode == 0
        then (false, st)
        else (true, record st { last_victim = set_last p.gc_mode 0 st.last_victim; offset = 0 })
      else if is_passed_over g d cur gc_type segno
      then (true, next)
      else weigh next segno

  -- The loop; without fuel there is no result.
  unfoldable pub search_from : ℕ → VictimSearch → Option VictimSearch
  unfolding search_round
  search_from zero st = none
  search_from (suc fuel) st =
      let (more, st') = search_round st in
      let rest = search_from fuel st' in if more then rest else some st'

-- `set_bit` for the `n` segments from `start` on.
unfoldable pub set_victim_bits : ℕ → ℕ → Bitmap → Bitmap
set_victim_bits start zero m = m
set_victim_bits start (suc n) m = set_bit (start + n) (set_victim_bits start n m)

abbrev pub set_victims : GcType → ℕ → ℕ → DirtyInfo → DirtyInfo
set_victims bg_gc start n d = record d { victim_bg = set_victim_bits start n d.victim_bg }
set_victims fg_gc start n d = record d { victim_fg = set_victim_bits start n d.victim_fg }

-- `p.alloc_mode == LFS && gc_type == FG_GC`
abbrev pub is_fg_lfs : VictimSelPolicy → GcType → Bool
is_fg_lfs p bg_gc = false
is_fg_lfs p fg_gc = elim p.alloc_mode [ lfs ↦ true | ssr ↦ false ]

-- The segment that was chosen, if any, and what the search changes.
pub record VictimResult : Type 0 where
  pub victim : Option ℕ
  pub lists : DirtyInfo
  pub sit : SitInfo
  pub last_victim : GcMode → ℕ

module _ (search : BitSearch) (fls : ℕ → ℕ) (g : Geometry) where
  -- `got_it:`
  unfoldable pub got_it :
      VictimSelPolicy → GcType → ℕ → DirtyInfo → SitInfo → (GcMode → ℕ) → VictimResult
  got_it p gc_type min_segno d s last =
      let result = min_segno / 2 ^ p.log_ofs_unit * 2 ^ p.log_ofs_unit in
      if min_segno == null_segno
      then record { victim = none; lists = d; sit = s; last_victim = last }
      else record {
        victim = some result;
        lists = elim p.alloc_mode [
          | lfs ↦ set_victims gc_type result (2 ^ p.log_ofs_unit) d
          | ssr ↦ d
        ];
        sit = s;
        last_victim = last;
      }

  -- The first round of the loop starts here.
  unfoldable pub first_round : SitInfo → (GcMode → ℕ) → VictimSelPolicy → VictimSearch
  first_round s last p = record {
    min_segno = null_segno;
    min_cost = u32 (get_max_cost g p);
    offset = p.offset;
    nsearched = 0;
    sit = s;
    last_victim = last;
  }

  -- `while (1)` and `got_it:`. The fuel is for two walks over the main area, as the search starts
  -- again from its beginning once.
  unfoldable pub search_all :
      SitInfo → DirtyInfo → (ℕ → ℕ) → (GcMode → ℕ) → GcType → VictimSelPolicy → Option VictimResult
  unfolding search_from first_round got_it
  search_all s d cur last gc_type p = do
    st ← search_from search fls g d cur gc_type p (2 * g.total_segs + 3) (first_round s last p)
    some (got_it p gc_type st.min_segno d st.sit st.last_victim)

  unfoldable pub search_unless :
      SitInfo
      → DirtyInfo
      → (ℕ → ℕ)
      → (GcMode → ℕ)
      → GcType
      → VictimSelPolicy
      → ℕ
      → Option VictimResult
  unfolding search_all got_it
  search_unless s d cur last gc_type p left =
      if left == null_segno
      then search_all s d cur last gc_type p
      else some (got_it p gc_type left d s last)

  unfoldable pub get_victim_by_default :
      SitInfo → DirtyInfo → (ℕ → ℕ) → (GcMode → ℕ) → GcType → ℕ → Option VictimResult
  unfolding search_unless search_all
  get_victim_by_default s d cur last gc_type ty =
      let p = select_policy g d last gc_type ty in
      let (left, d') = check_bg_victims search g d in
      if is_fg_lfs p gc_type
      then search_unless s d' cur last gc_type p left
      else search_all s d cur last gc_type p
