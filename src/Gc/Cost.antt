-- ===== src/Gc/Cost.antt =====
-- A greedy cost never exceeds the bound that the search starts from.
use f2fs.Base.{
  ℕ, ◌+◌, ◌*◌, ◌^◌, ◌<◌, ◌≤◌, ◌≡◌, not, arith, ◌==◌, sum_range-le, weight-le, ◌⊎◌, inl, inr,
  Bool-cases, le→leb, ℕ_discrete,
}
use f2fs.Bits.Laws.{bits}
use f2fs.Segment.Geometry.{Geometry, IsLayout, get_secno}
use f2fs.Segment.Sit.{SitInfo, get_valid_blocks}
use f2fs.Segment.Sit.Invariant.{either}
use f2fs.Segment.Sit.Totals.{IsSit, valid_of}
use f2fs.Segment.Free.Invariant.{secno-lt}
use f2fs.Segment.Dirty.{DirtyInfo}
use f2fs.Gc.{
  GcMode, GcType, fg_gc, is_ssr_type, select_gc_type, select_policy, get_max_cost, get_gc_cost,
}

module _ (g : Geometry) (v : IsLayout g) (s : SitInfo) (inv : IsSit g s) where
  small_valid : (k : ℕ) → k < g.total_segs → valid_of s k ≤ 2 ^ g.log_blocks_per_seg
  small_valid k h =
      let e = inv.entries k h in
      omega
        (arith, e.valid, v.blocks, weight-le g.blocks_per_seg (bits (s.sentries k).cur_valid_map))

  small_ckpt :
      (k : ℕ) → k < g.total_segs → (s.sentries k).ckpt_valid_blocks ≤ 2 ^ g.log_blocks_per_seg
  small_ckpt k h =
      let e = inv.entries k h in
      omega (
        arith,
        e.ckpt,
        v.blocks,
        weight-le g.blocks_per_seg
            (either (bits (s.sentries k).cur_valid_map) (bits (s.sentries k).ckpt_valid_map)),
      )

  section_mem :
      (sec k : ℕ)
      → sec < g.total_sections
      → k < sec * 2 ^ g.log_segs_per_sec + 2 ^ g.log_segs_per_sec
      → k < g.total_segs
  section_mem sec k h p = grind (arith, v.main)

  small_section :
      (sec : ℕ)
      → 0 < g.log_segs_per_sec
      → sec < g.total_sections
      → s.sec_entries sec ≤ 2 ^ g.log_blocks_per_seg * 2 ^ g.log_segs_per_sec
  small_section sec p h =
      let sum =
        sum_range-le (sec * 2 ^ g.log_segs_per_sec) (2 ^ g.log_segs_per_sec)
          (2 ^ g.log_blocks_per_seg) (valid_of s)
          (λ k a b. small_valid k (section_mem sec k h b)) in
      grind (arith, sum, inv.sections p sec h)

  small_valid_blocks :
      (segno : ℕ)
      → segno < g.total_segs
      → get_valid_blocks g s segno (not (g.log_segs_per_sec == 0))
        ≤ 2 ^ g.log_blocks_per_seg * 2 ^ g.log_segs_per_sec
  unfolding get_valid_blocks
  small_valid_blocks segno h = elim (ℕ_discrete g.log_segs_per_sec 0) [
    | yes e ↦ rw e (omega (arith, small_valid segno h))
    | no e ↦
        let sec = small_section (get_secno g segno) (omega arith) (secno-lt g v segno h) in
        ground (arith, sec)
  ]

  -- Where the segment information is in step and costs are counted greedily, for a foreground
  -- cleaning or for a segment that a log reuses, the cost of a segment of the main area is at most
  -- the bound that the search starts from.
  pub get_gc_cost-le :
      (fls : ℕ → ℕ) (d : DirtyInfo) (last_victim : GcMode → ℕ) (gc_type : GcType) (ty segno : ℕ)
      → segno < g.total_segs
      → (gc_type ≡ fg_gc) ⊎ (2 ^ 16 ≤ ty)
      → (get_gc_cost fls g s segno (select_policy g d last_victim gc_type ty)).0
        ≤ get_max_cost g (select_policy g d last_victim gc_type ty)
  unfolding get_gc_cost get_max_cost select_policy select_gc_type
  get_gc_cost-le fls d last_victim gc_type ty segno h (inl e) =
      rw e (elim (Bool-cases (is_ssr_type ty)) [
        | inl p ↦ rw p (omega (arith, small_ckpt segno h))
        | inr p ↦ rw p (small_valid_blocks segno h)
      ])
  get_gc_cost-le fls d last_victim gc_type ty segno h (inr p) =
      rw (le→leb (2 ^ 16) ty p) (omega (arith, small_ckpt segno h))
