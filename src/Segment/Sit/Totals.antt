-- ===== src/Segment/Sit/Totals.antt =====
-- The totals of the segment information, and that `update_sit_entry` keeps them.
use f2fs.Base.{
  ℕ, ◌+◌, ◌-◌, ◌*◌, ◌/◌, ◌^◌, ◌<◌, ◌≤◌, ◌≡◌, ◌↔◌, ap, sym, subst, ◌∙◌, Bool, ◌&&◌, true, false, not,
  some, none, arith, bit, update, weight, weight-update, weight-le, inl, inr, Option-cases, Returns,
  Returns->>=, false≢true, ◌==◌, if◌then◌else◌, >>=-eq-some, some_inj, sum_range, sum_range-update,
  sum_range-update_outside, sum_range-le, ℕ_discrete,
}
use f2fs.Bits.Laws.{bits}
use f2fs.Segment.Geometry.{Geometry, IsLayout, get_segno, block_offset, get_secno, null_segno}
use f2fs.Segment.Geometry.Laws.{block_offset-lt}
use f2fs.Segment.Sit.{
  SegEntry, SitInfo, Delta, plus, minus, update_entry, add_delta, update_sit_entry, get_mtime,
  count_delta, mark_sit_entry_dirty, refresh_sit_entry,
}
use f2fs.Segment.Sit.Invariant.{IsEntry, adds}
use f2fs.Segment.Sit.Update.{IsUpdated, update_entry-IsUpdated, update_entry-none}

abbrev pub valid_of : SitInfo → ℕ → ℕ
valid_of s k = (s.sentries k).valid_blocks

-- Every entry of the main area counts its map, a section (where sections hold more than one segment)
-- and the main area count the blocks of their segments, and the dirty entries are counted.
pub record IsSit (g : Geometry) (s : SitInfo) : Type 0 where
  pub entries : (k : ℕ) → k < g.total_segs → IsEntry g (s.sentries k)
  pub sections :
      0 < g.log_segs_per_sec
      → (sec : ℕ) → sec < g.total_sections
      → s.sec_entries sec
        ≡ sum_range (sec * 2 ^ g.log_segs_per_sec) (2 ^ g.log_segs_per_sec) (valid_of s)
  pub written : s.written_valid_blocks ≡ sum_range 0 g.total_segs (valid_of s)
  pub dirty : s.dirty_sentries ≡ weight g.total_segs s.dirty_sentries_bitmap

delta64 :
    (del : Delta) (x y : ℕ)
    → x + 1 < 2 ^ 64
    → y + bit (not (adds del)) ≡ x + bit (adds del)
    → add_delta 64 del x ≡ y
delta64 plus x y h e = omega arith
delta64 minus x y h e = omega arith

delta32 :
    (del : Delta) (x y : ℕ)
    → x + 1 < 2 ^ 32
    → y + bit (not (adds del)) ≡ x + bit (adds del)
    → add_delta 32 del x ≡ y
delta32 plus x y h e = omega arith
delta32 minus x y h e = omega arith

section_mem : (sec b k : ℕ) → sec * b ≤ k → k < sec * b + b → k / b ≡ sec
section_mem sec b k p q = grind arith

not_fixed : (b : Bool) → not b ≡ b → ⊥
not_fixed true e = false≢true e
not_fixed false e = false≢true (sym e)

section_edges : (sec b k : ℕ) → 0 < b → k / b ≡ sec → (sec * b ≤ k) × (k < sec * b + b)
section_edges sec b k h e = (grind arith, grind arith)

mul_mono : (a c b : ℕ) → a ≤ c → a * b ≤ c * b
mul_mono a c b h = grind arith

section_within : (a b c : ℕ) → a < c → a * b + b ≤ c * b
section_within a b c h = grind arith

module _ (g : Geometry) (v : IsLayout g) (s : SitInfo) (inv : IsSit g s) (segno : ℕ)
    (h : segno < g.total_segs) (del : Delta) (offset mtime : ℕ) (se' : SegEntry)
    (u : IsUpdated g del offset mtime (s.sentries segno) se') where
  s1 : SitInfo
  s1 = record s { sentries = update s.sentries segno se'; max_mtime = mtime }

  s2 : SitInfo
  s2 = count_delta g segno del (mark_sit_entry_dirty s1 segno)

  sentries_s2 : (k : ℕ) → s2.sentries k ≡ update s.sentries segno se' k
  unfolding s2 s1 count_delta mark_sit_entry_dirty
  sentries_s2 k = ground arith

  valid_s2 : (k : ℕ) → valid_of s2 k ≡ update (valid_of s) segno se'.valid_blocks k
  valid_s2 k = ap (λ (e : SegEntry). e.valid_blocks) (sentries_s2 k) ∙ ground arith

  written_s2 : s2.written_valid_blocks ≡ add_delta 64 del s.written_valid_blocks
  unfolding s2 s1 count_delta mark_sit_entry_dirty
  written_s2 = ground arith

  dirty_s2 : s2.dirty_sentries ≡ weight g.total_segs s2.dirty_sentries_bitmap
  unfolding s2 s1 count_delta mark_sit_entry_dirty
  dirty_s2 = ground (
    arith,
    inv.dirty,
    v.small,
    weight-le g.total_segs s.dirty_sentries_bitmap,
    weight-update g.total_segs segno true s.dirty_sentries_bitmap h,
  )

  sec_s2 :
      0 < g.log_segs_per_sec
      → (sec : ℕ)
      → s2.sec_entries sec
        ≡ update s.sec_entries
            (get_secno g segno)
            (add_delta 32 del (s.sec_entries (get_secno g segno)))
            sec
  unfolding s2 s1 count_delta mark_sit_entry_dirty
  sec_s2 p sec = ground arith

  -- No counter comes near its limit.
  main_blocks : g.total_segs * g.blocks_per_seg < 2 ^ 32 - 1
  main_blocks = grind (arith, v.addressable, v.blocks)

  valid-le : (k : ℕ) → k < g.total_segs → valid_of s k ≤ g.blocks_per_seg
  valid-le k p = omega (
    arith,
    (inv.entries k p).valid,
    weight-le g.blocks_per_seg (bits (s.sentries k).cur_valid_map),
  )

  entries_s2 : (k : ℕ) → k < g.total_segs → IsEntry g (s2.sentries k)
  entries_s2 k p = elim (ℕ_discrete k segno) [
    | yes e ↦ subst (IsEntry g) (sym (sentries_s2 k ∙ ground arith)) u.entry
    | no e ↦ subst (IsEntry g) (sym (sentries_s2 k ∙ ground arith)) (inv.entries k p)
  ]

  written_sum : s2.written_valid_blocks ≡ sum_range 0 g.total_segs (valid_of s2)
  written_sum =
      let total =
        sum_range-le 0 g.total_segs g.blocks_per_seg (valid_of s)
          (λ k _ p. valid-le k (omega arith)) in
      written_s2
      ∙ delta64 del _ _ (omega (arith, inv.written, main_blocks, total)) (
          omega (
            arith,
            u.count,
            inv.written,
            sum_range-update 0 g.total_segs segno se'.valid_blocks (valid_of s) (valid_of s2)
                valid_s2 (omega arith) (omega arith),
          ))

  module _ (p : 0 < g.log_segs_per_sec) (sec : ℕ) (q : sec < g.total_sections) where
    abbrev size : ℕ
    size = 2 ^ g.log_segs_per_sec

    in_main : sec * size + size ≤ g.total_segs
    in_main = omega (arith, v.main, section_within sec size g.total_sections q)

    sec_small : s.sec_entries sec + 1 < 2 ^ 32
    sec_small = omega (
      arith,
      inv.sections p sec q,
      main_blocks,
      in_main,
      mul_mono size g.total_segs g.blocks_per_seg (omega (arith, in_main)),
      sum_range-le (sec * size) size g.blocks_per_seg (valid_of s)
          (λ k _ r. valid-le k (omega (arith, in_main))),
    )

    section_sum : s2.sec_entries sec ≡ sum_range (sec * size) size (valid_of s2)
    section_sum = elim (ℕ_discrete (get_secno g segno) sec) [
      | yes e ↦
          let edges = section_edges sec size segno v.segs_pos e in
          sec_s2 p sec
          ∙ ground (arith, e)
          ∙ delta32 del (s.sec_entries sec) _ sec_small (
              omega (
                arith,
                u.count,
                inv.sections p sec q,
                sum_range-update (sec * size) size segno se'.valid_blocks (valid_of s) (valid_of s2)
                    valid_s2 edges.0 edges.1,
              ))
      | no e ↦
          sec_s2 p sec
          ∙ ground (arith, e)
          ∙ inv.sections p sec q
          ∙ sym (
              sum_range-update_outside (sec * size) size segno se'.valid_blocks (valid_of s)
                (valid_of s2) valid_s2 (λ r. e (section_mem sec size segno r.0 r.1)))
    ]

  s2-IsSit : IsSit g s2
  s2-IsSit = record {
    entries = entries_s2;
    sections = section_sum;
    written = written_sum;
    dirty = dirty_s2;
  }

  written_moves :
      s2.written_valid_blocks + bit (not (adds del)) ≡ s.written_valid_blocks + bit (adds del)
  written_moves = omega (
    arith,
    u.count,
    inv.written,
    written_sum,
    sum_range-update 0 g.total_segs segno se'.valid_blocks (valid_of s) (valid_of s2) valid_s2
        (omega arith) (omega arith),
  )

  -- The validity bit of one block changes.
  bits_s2 :
      (k o : ℕ)
      → bits (s2.sentries k).cur_valid_map o
        ≡ (if k == segno && o == offset then adds del else bits (s.sentries k).cur_valid_map o)
  bits_s2 k o =
      ap (λ (e : SegEntry). bits e.cur_valid_map o) (sentries_s2 k) ∙ elim (ℕ_discrete k segno) [
        | yes e ↦ ground (arith, u.flip.now o, ap (λ j. bits (s.sentries j).cur_valid_map o) e)
        | no e ↦ ground arith
      ]

module _ (g : Geometry) (now : ℕ) (s : SitInfo) (blkaddr : ℕ) (del : Delta) (v : IsLayout g)
    (inv : IsSit g s) (h : get_segno g blkaddr < g.total_segs) where
  offset-lt : block_offset g blkaddr < g.blocks_per_seg
  offset-lt = block_offset-lt g blkaddr v

  -- Where the segment information is in step, `update_sit_entry` on a block of the main area meets
  -- a `BUG_ON` exactly if the block already has the validity that the call would give it: a second
  -- allocation, or a second release.
  pub update_sit_entry-none :
      (update_sit_entry g now s blkaddr del ≡ none)
      ↔ (bits (s.sentries (get_segno g blkaddr)).cur_valid_map (block_offset g blkaddr) ≡ adds del)
  unfolding update_sit_entry
  update_sit_entry-none =
      let entry =
        update_entry-none g v (block_offset g blkaddr) offset-lt del (get_mtime s now)
          (s.sentries (get_segno g blkaddr)) (inv.entries _ h) in
      (λ e. entry.0 (ground arith), λ e. ground (arith, entry.1 e))

  -- What a call that returns leaves.
  abbrev pub IsKept : SitInfo → Type 0
  IsKept s' =
      IsSit g s'
      × ((k o : ℕ)
          → bits (s'.sentries k).cur_valid_map o ≡ (
              if k == get_segno g blkaddr && o == block_offset g blkaddr
              then adds del
              else bits (s.sentries k).cur_valid_map o))
      × (s'.written_valid_blocks + bit (not (adds del)) ≡ s.written_valid_blocks + bit (adds del))

  -- Where it returns, it keeps every count of valid blocks (in the entry, against the checkpoint, in
  -- the section, in the main area) and the count of dirty entries right, changes the validity of
  -- that block and of no other, and the main area's count by one.
  pub update_sit_entry-IsSit :
      {s' : SitInfo} → update_sit_entry g now s blkaddr del ≡ some s' → IsKept s'
  unfolding update_sit_entry s2 s1
  update_sit_entry-IsSit {s'} e =
      let segno = get_segno g blkaddr in
      let offset = block_offset g blkaddr in
      let mtime = get_mtime s now in
      let (se', e1, r1) = >>=-eq-some (update_entry g offset del mtime (s.sentries segno)) _ e in
      let u =
        update_entry-IsUpdated g v offset offset-lt del mtime (s.sentries segno)
          (inv.entries segno h) e1 in
      subst IsKept (some_inj r1) (
        s2-IsSit g v s inv segno h del offset mtime se' u,
        bits_s2 g v s inv segno h del offset mtime se' u,
        written_moves g v s inv segno h del offset mtime se' u,
      )

  -- Where the segment information is in step, `update_sit_entry` on a block of the main area whose
  -- validity it changes meets no `BUG_ON`. It keeps every count of valid blocks (in the entry,
  -- against the checkpoint, in the section, in the main area) and the count of dirty entries
  -- right, changes the validity of that block and of no other, and the main area's count by one.
  pub update_sit_entry-Returns :
      bits (s.sentries (get_segno g blkaddr)).cur_valid_map (block_offset g blkaddr)
        ≡ not (adds del)
      → Returns IsKept (update_sit_entry g now s blkaddr del)
  update_sit_entry-Returns free = elim (Option-cases (update_sit_entry g now s blkaddr del)) [
    | inl e ↦ absurd (not_fixed (adds del) (sym free ∙ update_sit_entry-none.0 e))
    | inr (s', e) ↦ rw e (update_sit_entry-IsSit e)
  ]

module _ (g : Geometry) (now : ℕ) (s : SitInfo) (old_blkaddr new_blkaddr : ℕ) (v : IsLayout g)
    (inv : IsSit g s) (h : get_segno g new_blkaddr < g.total_segs)
    (free : bits (s.sentries (get_segno g new_blkaddr)).cur_valid_map (block_offset g new_blkaddr)
      ≡ false) where
  first_step :
      Returns (IsKept g now s new_blkaddr plus v inv h) (update_sit_entry g now s new_blkaddr plus)
  first_step = update_sit_entry-Returns g now s new_blkaddr plus v inv h free

  -- `refresh_sit_entry` to a block of the main area that is not valid, with no block before it, meets
  -- no `BUG_ON`, keeps every count right and counts one block more.
  pub refresh_sit_entry-new :
      get_segno g old_blkaddr ≡ null_segno
      → Returns
          (λ s'. IsSit g s' × (s'.written_valid_blocks ≡ s.written_valid_blocks + 1))
          (refresh_sit_entry g now s old_blkaddr new_blkaddr)
  unfolding refresh_sit_entry
  refresh_sit_entry-new e =
      Returns->>= (IsKept g now s new_blkaddr plus v inv h) _ _ _ first_step
        (λ s' _ k. rw e (k.0, omega (arith, k.2)))

  -- Where the segment information is in step, `refresh_sit_entry` from a valid block of the main
  -- area to one that is not valid meets no `BUG_ON` and keeps every count right; the old block is
  -- no longer valid, the new one is, no other bit of any map changes, and the number of valid
  -- blocks stays.
  pub refresh_sit_entry-moved :
      get_segno g old_blkaddr < g.total_segs
      → bits (s.sentries (get_segno g old_blkaddr)).cur_valid_map (block_offset g old_blkaddr)
        ≡ true
      → Returns
          (λ s'.
            IsSit g s'
            × (s'.written_valid_blocks ≡ s.written_valid_blocks)
            × ((k o : ℕ)
                → bits (s'.sentries k).cur_valid_map o ≡ (
                    if k == get_segno g old_blkaddr && o == block_offset g old_blkaddr
                    then false
                    else if k == get_segno g new_blkaddr && o == block_offset g new_blkaddr
                    then true
                    else bits (s.sentries k).cur_valid_map o)))
          (refresh_sit_entry g now s old_blkaddr new_blkaddr)
  unfolding refresh_sit_entry
  refresh_sit_entry-moved p held =
      Returns->>= (IsKept g now s new_blkaddr plus v inv h) _ _ _ first_step (λ s' _ k.
        let not_null : (get_segno g old_blkaddr == null_segno) ≡ false =
          ground (arith, p, v.small) in
        let still : bits (s'.sentries (get_segno g old_blkaddr)).cur_valid_map
              (block_offset g old_blkaddr)
            ≡ true =
          ground (arith, held, k.1 (get_segno g old_blkaddr) (block_offset g old_blkaddr)) in
        rw not_null (elim (Option-cases (update_sit_entry g now s' old_blkaddr minus)) [
          | inl e ↦ absurd (
              false≢true
                (sym ((update_sit_entry-none g now s' old_blkaddr minus v k.0 p).0 e) ∙ still))
          | inr (s'', e) ↦
              let k' = update_sit_entry-IsSit g now s' old_blkaddr minus v k.0 p e in
              rw e (k'.0, omega (arith, k.2, k'.2), λ j o. k'.1 j o ∙ ground (arith, k.1 j o))
        ]))
