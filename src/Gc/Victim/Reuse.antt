-- ===== src/Gc/Victim/Reuse.antt =====
-- `get_victim_by_default` of fs/f2fs/gc.c for a log that reuses a segment: the greedy costs are the
-- counts of blocks that are valid now or were at the last checkpoint.
use f2fs.Base.{
  ℕ, ◌+◌, ◌*◌, ◌^◌, ◌<◌, ◌≤◌, ◌≡◌, ◌∙◌, refl, arith, BitSearch, Returns, Returns-map, le→leb, inl,
  inr, weight,
}
use f2fs.Bits.Laws.{bits}
use f2fs.Segment.Geometry.{Geometry, IsLayout}
use f2fs.Segment.Sit.{SitInfo}
use f2fs.Segment.Sit.Invariant.{either}
use f2fs.Segment.Sit.Totals.{IsSit}
use f2fs.Segment.Dirty.{DirtyInfo}
use f2fs.Gc.{VictimSelPolicy, bg_gc, GcMode, select_policy, get_max_cost, get_gc_cost}
use f2fs.Gc.Cost.{get_gc_cost-le}
use f2fs.Gc.Victim.{VictimSearch, search_from, first_round}
use f2fs.Gc.Victim.Least.{IsLeast, search_from-IsLeast}

-- `ckpt_valid_blocks` of each segment, which is the cost.
abbrev ckpt_cost : SitInfo → ℕ → ℕ
ckpt_cost s k = (s.sentries k).ckpt_valid_blocks

-- The blocks of a segment that a log may not write: those valid now or at the last checkpoint.
abbrev pub used_blocks : Geometry → SitInfo → ℕ → ℕ
used_blocks g s k =
    weight g.blocks_per_seg
      (either (bits (s.sentries k).cur_valid_map) (bits (s.sentries k).ckpt_valid_map))

-- Both are the same where the segment information is in step.
used-IsLeast :
    (g : Geometry) (d : DirtyInfo) (cur : ℕ → ℕ) (p : VictimSelPolicy) (s : SitInfo)
    → IsSit g s
    → (st : VictimSearch) → IsLeast g d cur bg_gc p (ckpt_cost s) st
    → IsLeast g d cur bg_gc p (used_blocks g s) st
used-IsLeast g d cur p s inv st it =
    let same : (k : ℕ) → k < g.total_segs → ckpt_cost s k ≡ used_blocks g s k =
      λ k h. (inv.entries k h).ckpt in
    record {
      chosen = elim it.chosen [
        | inl nothing ↦ inl nothing
        | inr (c, e) ↦ inr (c, e ∙ same st.min_segno c.in_main)
      ];
      least = λ few k c. omega (arith, it.least few k c, same k c.in_main);
    }

module _ (search : BitSearch) (fls : ℕ → ℕ) (g : Geometry) (d : DirtyInfo) (cur : ℕ → ℕ)
    (last : GcMode → ℕ) (s : SitInfo) (ty : ℕ) where
  -- On a volume whose sizes fit (`IsLayout`), with the segment information in step (`IsSit`), the
  -- search for a segment that a log reuses ends. What it
  -- has chosen, if anything, is a segment of the log's list that it may take. If it weighed at most twenty
  -- segments, the choice had the fewest blocks that are valid now or were valid at the last checkpoint
  -- among all of these, and without a choice all of these had every block in use in that sense.
  pub search_from-reuse :
      IsLayout g
      → IsSit g s
      → 2 ^ 16 ≤ ty
      → let p = select_policy g d last bg_gc ty in
        Returns (IsLeast g d cur bg_gc p (used_blocks g s)) (
          search_from search fls g d cur bg_gc p
            (2 * g.total_segs + 3)
            (first_round search fls g s last p))
  unfolding select_policy get_gc_cost get_max_cost
  search_from-reuse v inv h =
      let ssr_type = le→leb (2 ^ 16) ty h in
      Returns-map _ _ _ (used-IsLeast g d cur (select_policy g d last bg_gc ty) s inv) (
        search_from-IsLeast search fls g d cur bg_gc (select_policy g d last bg_gc ty) s
          (ckpt_cost s) (λ k. rw ssr_type refl)
          (λ k small.
            ground (arith, ssr_type, get_gc_cost-le g v s inv fls d last bg_gc ty k small (inr h)))
          (rw ssr_type (omega (arith, v.blocks, v.map_size))) (rw ssr_type refl) last
          (rw ssr_type refl))
