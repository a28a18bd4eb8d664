-- ===== src/Segment/Free.antt =====
-- The free segment maps: `free_segmap_info` and the helpers that change it, of
-- fs/f2fs/segment.h. A set bit is a segment (section) in use. The locks are not modelled: each
-- helper is one step, as it is under `segmap_lock`.
pub mod Invariant
pub mod Steps
use f2fs.Base.{
  ℕ, ◌+◌, ◌*◌, ◌/◌, ◌^◌, Bool, Bitmap, set_bit, clear_bit, add32, sub32, leb, if◌then◌else◌,
  BitSearch,
}
use f2fs.Segment.Geometry.{Geometry, get_secno}

pub record FreeSegmap : Type 0 where
  pub free_segments : ℕ
  pub free_sections : ℕ
  pub free_segmap : Bitmap
  pub free_secmap : Bitmap

-- `secno << log_segs_per_sec`, which is at most `segno`.
abbrev pub section_start : Geometry → ℕ → ℕ
section_start g segno = get_secno g segno * 2 ^ g.log_segs_per_sec

module _ (search : BitSearch) (g : Geometry) where
  open search use {find_next_bit}

  unfoldable pub find_next_inuse : FreeSegmap → ℕ → ℕ → ℕ
  find_next_inuse f max_segno segno = find_next_bit f.free_segmap max_segno segno

  -- No segment of the section of `segno` is in use.
  pub section_unused : Bitmap → ℕ → Bool
  section_unused segmap segno =
      leb (add32 (section_start g segno) g.segs_per_sec)
        (find_next_bit segmap g.total_segs (section_start g segno))

  -- `__set_free`
  pub set_free : FreeSegmap → ℕ → FreeSegmap
  set_free f segno =
      let segmap = clear_bit segno f.free_segmap in
      let f' = record f { free_segmap = segmap; free_segments = add32 f.free_segments 1 } in
      if section_unused segmap segno
      then record f' {
        free_secmap = clear_bit (get_secno g segno) f.free_secmap;
        free_sections = add32 f.free_sections 1;
      }
      else f'

  -- `__set_test_and_free`
  pub set_test_and_free : FreeSegmap → ℕ → FreeSegmap
  set_test_and_free f segno =
      let segmap = clear_bit segno f.free_segmap in
      let f' = record f { free_segmap = segmap; free_segments = add32 f.free_segments 1 } in
      if f.free_segmap segno
      then if section_unused segmap segno
        then if f.free_secmap (get_secno g segno)
          then record f' {
            free_secmap = clear_bit (get_secno g segno) f.free_secmap;
            free_sections = add32 f.free_sections 1;
          }
          else f'
        else f'
      else f

module _ (g : Geometry) where
  -- `__set_inuse`
  pub set_inuse : FreeSegmap → ℕ → FreeSegmap
  set_inuse f segno =
      let f' = record f {
        free_segmap = set_bit segno f.free_segmap;
        free_segments = sub32 f.free_segments 1;
      } in
      if f.free_secmap (get_secno g segno) then f' else record f' {
        free_secmap = set_bit (get_secno g segno) f.free_secmap;
        free_sections = sub32 f.free_sections 1;
      }

  -- `__set_test_and_inuse`
  pub set_test_and_inuse : FreeSegmap → ℕ → FreeSegmap
  set_test_and_inuse f segno =
      let f' = record f {
        free_segmap = set_bit segno f.free_segmap;
        free_segments = sub32 f.free_segments 1;
      } in
      if f.free_segmap segno
      then f
      else if f.free_secmap (get_secno g segno)
      then f'
      else record f' {
        free_secmap = set_bit (get_secno g segno) f.free_secmap;
        free_sections = sub32 f.free_sections 1;
      }
