-- ===== src/Gc.antt =====
-- The cleaner's choices: how long its thread sleeps (fs/f2fs/gc.h), and what a segment costs to
-- clean (fs/f2fs/gc.c). The kernel's `fls`, the number of the highest set bit, is a parameter. A
-- wait is a nonnegative `long`.
pub mod Sleep
pub mod Cost
pub mod Victim
mod Tests
use f2fs.Base.{
  ℕ, zero, suc, ◌+◌, ◌-◌, ◌*◌, ◌/◌, ◌%◌, ◌^◌, Bool, true, false, not, Bitmap, clear_bit, BitSearch,
  leb, ltb, ◌==◌, if◌then◌else◌, add64, sub64, u32,
}
use f2fs.Segment.Geometry.{Geometry, get_secno, null_segno}
use f2fs.Segment.Sit.{SitInfo, get_valid_blocks}
use f2fs.Segment.Dirty.{DirtyInfo, dirty}
use f2fs.Segment.Curseg.{AllocType, lfs, ssr}

abbrev pub gc_thread_min_sleep_time : ℕ
gc_thread_min_sleep_time = 10000

abbrev pub gc_thread_max_sleep_time : ℕ
gc_thread_max_sleep_time = 30000

pub increase_sleep_time : ℕ → ℕ
increase_sleep_time wait =
    if ltb gc_thread_max_sleep_time (wait + gc_thread_min_sleep_time)
    then gc_thread_max_sleep_time
    else wait + gc_thread_min_sleep_time

-- Below the minimum the difference is negative, and so at most the minimum.
pub decrease_sleep_time : ℕ → ℕ
decrease_sleep_time wait =
    if leb wait (gc_thread_min_sleep_time + gc_thread_min_sleep_time)
    then gc_thread_min_sleep_time
    else wait - gc_thread_min_sleep_time

pub data GcType : Type 0 where
  bg_gc fg_gc : GcType

pub data GcMode : Type 0 where
  gc_cb gc_greedy : GcMode

pub record VictimSelPolicy : Type 0 where
  pub alloc_mode : AllocType
  pub gc_mode : GcMode
  pub type_ : ℕ
  pub segmap : Bitmap
  pub offset : ℕ
  pub log_ofs_unit : ℕ

pub select_gc_type : GcType → GcMode
select_gc_type bg_gc = gc_cb
select_gc_type fg_gc = gc_greedy

-- `IS_SSR_TYPE` and `GET_SSR_TYPE`
abbrev pub is_ssr_type : ℕ → Bool
is_ssr_type ty = leb (2 ^ 16) ty

abbrev pub get_ssr_type : ℕ → ℕ
get_ssr_type ty = ty / 2 ^ 16 - 1

-- `last_victim` is indexed by the mode.
pub select_policy : Geometry → DirtyInfo → (GcMode → ℕ) → GcType → ℕ → VictimSelPolicy
select_policy g d last_victim gc_type ty =
    if is_ssr_type ty
    then record {
      alloc_mode = ssr;
      gc_mode = gc_greedy;
      type_ = get_ssr_type ty;
      segmap = d.dirty_segmap (get_ssr_type ty);
      offset = last_victim gc_greedy;
      log_ofs_unit = 0;
    }
    else record {
      alloc_mode = lfs;
      gc_mode = select_gc_type gc_type;
      type_ = 0;
      segmap = d.dirty_segmap dirty;
      offset = last_victim (select_gc_type gc_type);
      log_ofs_unit = g.log_segs_per_sec;
    }

-- The shift by a sum is the product of the powers.
pub get_max_cost : Geometry → VictimSelPolicy → ℕ
get_max_cost g p = elim p.gc_mode [
  | gc_greedy ↦ 2 ^ g.log_blocks_per_seg * 2 ^ p.log_ofs_unit
  | gc_cb ↦ 2 ^ 32 - 1
]

-- The segment, and the lists without it.
pub check_bg_victims : BitSearch → Geometry → DirtyInfo → ℕ × DirtyInfo
check_bg_victims search g d =
    let segno = search.find_next_bit d.victim_bg g.total_segs 0 in
    if ltb segno g.total_segs
    then (segno, record d { victim_bg = clear_bit segno d.victim_bg })
    else (null_segno, d)

module _ (fls : ℕ → ℕ) where
  -- Both divisions are by the 32-bit `d`; a short dividend is cut to 32 bits, which changes nothing.
  pub div64_64 : ℕ → ℕ → ℕ
  div64_64 dividend divisor =
      let shift = fls (divisor / 2 ^ 32) in
      if ltb 0xffffffff divisor
      then dividend / 2 ^ shift / u32 (divisor / 2 ^ shift)
      else dividend / u32 divisor

  -- The sum of the times of the `n` segments from `start` on.
  pub sum_mtime : SitInfo → ℕ → ℕ → ℕ
  sum_mtime s start zero = 0
  sum_mtime s start (suc n) = add64 (sum_mtime s start n) (s.sentries (start + n)).mtime

  -- `UINT_MAX - ((100 * (100 - u) * age) / (100 + u))`, with a negative quotient for `u` above 100.
  abbrev pub cb_cost : ℕ → ℕ → ℕ
  cb_cost u age =
      if leb u 100
      then 2 ^ 32 - 1 - 100 * (100 - u) * age / (100 + u)
      else (2 ^ 32 - 1 + 100 * (u - 100) * age / (100 + u)) % 2 ^ 32

  -- The cost, and the segment information with its range of times widened.
  pub get_cb_cost : Geometry → SitInfo → ℕ → ℕ × SitInfo
  get_cb_cost g s segno =
      let start = get_secno g segno * 2 ^ g.log_segs_per_sec in
      let mtime = sum_mtime s start g.segs_per_sec / 2 ^ g.log_segs_per_sec in
      let vblocks =
        get_valid_blocks g s segno (not (g.log_segs_per_sec == 0)) / 2 ^ g.log_segs_per_sec in
      let u = vblocks * 100 % 2 ^ 32 / 2 ^ g.log_blocks_per_seg % 2 ^ 8 in
      let low = if ltb mtime s.min_mtime then mtime else s.min_mtime in
      let high = if ltb s.max_mtime mtime then mtime else s.max_mtime in
      let part = div64_64 (100 * sub64 mtime low % 2 ^ 64) (sub64 high low) in
      let age = if high == low then 0 else sub64 100 part % 2 ^ 8 in
      (cb_cost u age, record s { min_mtime = low; max_mtime = high })

  pub get_gc_cost : Geometry → SitInfo → ℕ → VictimSelPolicy → ℕ × SitInfo
  get_gc_cost g s segno p = elim p.alloc_mode [
    | ssr ↦ ((s.sentries segno).ckpt_valid_blocks, s)
    | lfs ↦ elim p.gc_mode [
      | gc_greedy ↦ (get_valid_blocks g s segno (not (g.log_segs_per_sec == 0)), s)
      | gc_cb ↦ get_cb_cost g s segno
    ]
  ]
