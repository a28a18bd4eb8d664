-- ===== src/Segment/Sit/Flush/Page.antt =====
-- The SIT block that `flush_sit_entries` of fs/f2fs/segment.c has open: it is the copy that was not
-- current, so nothing of the last checkpoint is overwritten.
use f2fs.Base.{
  false≢true, ==_self, ℕ, ◌+◌, ◌*◌, ◌<◌, ◌≤◌, ◌≡◌, ◌≢◌, refl, sym, ap, ◌∙◌, subst, Bool, true,
  false, not, Option, none, some, arith, update, ◌==◌, if◌then◌else◌, ℕ_discrete, ◌-◌,
}
use f2fs.Bits.Laws.{bits}
use f2fs.Journal.Laws.{journal_at}
use f2fs.Segment.Sit.{
  SitEntry, SitInfo, current_sit_addr, next_sit_addr, set_to_next_sit, sit_block_offset,
  sit_entry_per_block,
}
use f2fs.Segment.Sit.Place.{IsSitArea, toggled}
use f2fs.Segment.Sit.Flush.{SitFlush, sit_entry_offset, start_segno_of, get_next_sit_page}
use f2fs.Segment.Sit.Flush.Area.{
  copy, sit_addr, copy_ne, current_sit_addr-copy, next_sit_addr-copy, set_to_next_sit-IsToggled,
  set_to_next_sit-IsSitArea,
}

-- What the disk and the journal have for a segment.
abbrev pub paged_at : SitFlush → ℕ → SitEntry
paged_at m k = m.sit_pages (sit_addr m.sit (sit_block_offset k)) (sit_entry_offset k)

abbrev pub or_paged : Option SitEntry → SitEntry → SitEntry
or_paged none x = x
or_paged (some e) x = e

abbrev pub disk_at : SitFlush → ℕ → SitEntry
disk_at m k = or_paged (journal_at m.journal k) (paged_at m k)

pub disk_at-none :
    (m : SitFlush) (k : ℕ) → journal_at m.journal k ≡ none → disk_at m k ≡ paged_at m k
disk_at-none m k e = ap (λ o. or_paged o (paged_at m k)) e

pub disk_at-some :
    (m : SitFlush) (k : ℕ) {x : SitEntry} → journal_at m.journal k ≡ some x → disk_at m k ≡ x
disk_at-some m k e = ap (λ o. or_paged o (paged_at m k)) e

-- The block that is open, against the state `m0` at the start: no later block has moved.
abbrev pub IsOpen : SitInfo → SitFlush → ℕ → Option ℕ → Type 0
IsOpen s0 m pos none = (b : ℕ) → bits (m.sit).sit_bitmap b ≡ bits s0.sit_bitmap b
IsOpen s0 m pos (some a) =
    (c : ℕ) × (m.start ≡ c * sit_entry_per_block)
    × (m.end_ ≡ c * sit_entry_per_block + 54)
    × (c * sit_entry_per_block < pos)
    × (c < s0.sit_blocks)
    × (a ≡ copy s0 c (not (bits s0.sit_bitmap c)))
    × (bits (m.sit).sit_bitmap c ≡ not (bits s0.sit_bitmap c))
    × ((b : ℕ) → c < b → bits (m.sit).sit_bitmap b ≡ bits s0.sit_bitmap b)

pub record IsStore (m0 m : SitFlush) (pos : ℕ) : Type 0 where
  pub area : IsSitArea m.sit
  pub base : (m.sit).sit_base_addr ≡ (m0.sit).sit_base_addr
  pub blocks : (m.sit).sit_blocks ≡ (m0.sit).sit_blocks
  pub opened : IsOpen m0.sit m pos m.page
  -- The copies that were current at the start.
  pub old :
      (b : ℕ)
      → b < (m0.sit).sit_blocks
      → m.sit_pages (sit_addr m0.sit b) ≡ m0.sit_pages (sit_addr m0.sit b)
  pub not_dirty : (b : ℕ) → b < (m0.sit).sit_blocks → m.dirty_pages (sit_addr m0.sit b) ≡ false

-- What a step leaves.
pub record IsSameInfo (m r : SitFlush) : Type 0 where
  pub sentries : (r.sit).sentries ≡ (m.sit).sentries
  pub dirty : (r.sit).dirty_sentries_bitmap ≡ (m.sit).dirty_sentries_bitmap
  pub count : (r.sit).dirty_sentries ≡ (m.sit).dirty_sentries

pub record IsOpened (m0 m : SitFlush) (segno : ℕ) (r : ℕ × SitFlush) : Type 0 where
  pub store : IsStore m0 r.1 (segno + 1)
  pub info : IsSameInfo m r.1
  pub same_journal : (r.1).journal ≡ m.journal
  pub same_paged :
      (k : ℕ) → sit_block_offset k < (m0.sit).sit_blocks → paged_at r.1 k ≡ paged_at m k
  pub page : r.0 ≡ sit_addr (r.1).sit (sit_block_offset segno)
  pub spare :
      r.0
      ≡ copy m0.sit
          (sit_block_offset segno)
          (not (bits (m0.sit).sit_bitmap (sit_block_offset segno)))

pub not_fixed : (x : Bool) → x ≡ not x → ⊥
not_fixed true f = absurd (false≢true (sym f))
not_fixed false f = absurd (false≢true f)

-- A fresh block `b`, which has not moved yet.
module _ (m0 m : SitFlush) (pos b : ℕ) (it : IsStore m0 m pos) (within : b < (m0.sit).sit_blocks)
    (same : (c : ℕ) → b ≤ c → bits (m.sit).sit_bitmap c ≡ bits (m0.sit).sit_bitmap c) where
  unfoldable pub first : ℕ
  first = b * sit_entry_per_block

  block_of_first : sit_block_offset first ≡ b
  unfolding first
  block_of_first = omega arith

  in_area : sit_block_offset first < (m.sit).sit_blocks
  in_area = omega (arith, block_of_first, it.blocks)

  toggled_bits :
      (c : ℕ)
      → bits (set_to_next_sit m.sit first).sit_bitmap c
        ≡ (if c == b then not (bits (m.sit).sit_bitmap b) else bits (m.sit).sit_bitmap c)
  toggled_bits c =
      subst
        (λ x.
          bits (set_to_next_sit m.sit first).sit_bitmap c
          ≡ (if c == x then not (bits (m.sit).sit_bitmap x) else bits (m.sit).sit_bitmap c))
        block_of_first (toggled m.sit first it.area in_area c)

  unfoldable pub dst : ℕ
  dst = copy m0.sit b (not (bits (m0.sit).sit_bitmap b))

  src_lem :
      (end_segno : ℕ)
      → first ≤ end_segno
      → current_sit_addr end_segno m.sit first ≡ some (sit_addr m.sit b)
  src_lem end_segno low =
      current_sit_addr-copy m.sit first it.area in_area end_segno low
      ∙ ap (λ x. some (sit_addr m.sit x)) block_of_first

  dst_lem : next_sit_addr m.sit (sit_addr m.sit b) ≡ dst
  unfolding dst
  dst_lem =
      subst
        (λ x.
          next_sit_addr m.sit (sit_addr m.sit x) ≡ copy m.sit x (not (bits (m.sit).sit_bitmap x)))
        block_of_first
        (next_sit_addr-copy m.sit first it.area in_area
          (bits (m.sit).sit_bitmap (sit_block_offset first)))
      ∙ ground (arith, same b (omega arith), it.base, it.blocks)

  new_addr_lem :
      (c : ℕ)
      → sit_addr (set_to_next_sit m.sit first) c ≡ (if c == b then dst else sit_addr m.sit c)
  unfolding dst
  new_addr_lem c =
      let t = set_to_next_sit-IsToggled m.sit first it.area in_area in
      ground (
        arith,
        t.same_base,
        t.same_blocks,
        toggled_bits c,
        same b (omega arith),
        it.base,
        it.blocks,
      )

  abbrev pub turned : SitFlush
  turned = record m {
    sit_pages = update m.sit_pages dst (m.sit_pages (sit_addr m.sit b));
    dirty_pages = update m.dirty_pages dst true;
    sit = set_to_next_sit m.sit first;
    page = some dst;
    start = first;
    end_ = first + sit_entry_per_block - 1;
  }

  dst_spare : (c : ℕ) → c < (m0.sit).sit_blocks → sit_addr m0.sit c ≢ dst
  unfolding dst
  dst_spare c h e =
      let (same_block, flip) = copy_ne m0.sit c b _ _ h within e in
      not_fixed _ (ap (bits (m0.sit).sit_bitmap) (sym same_block) ∙ flip)

  turned-IsStore : (segno : ℕ) → first ≤ segno → IsStore m0 turned (segno + 1)
  unfolding first dst
  turned-IsStore segno low =
      let t = set_to_next_sit-IsToggled m.sit first it.area in_area in
      record {
        area = set_to_next_sit-IsSitArea m.sit first it.area in_area;
        base = t.same_base ∙ it.base;
        blocks = t.same_blocks ∙ it.blocks;
        opened = (
          b,
          refl,
          omega arith,
          omega arith,
          within,
          refl,
          ground (arith, toggled_bits b, same b (omega arith)),
          λ c h. ground (arith, toggled_bits c, same c (omega arith)),
        );
        old = λ c h. ground (arith, it.old c h, dst_spare c h);
        not_dirty = λ c h. ground (arith, it.not_dirty c h, dst_spare c h);
      }

  other_apart : (c : ℕ) → c < (m0.sit).sit_blocks → c ≢ b → sit_addr m.sit c ≢ dst
  unfolding dst
  other_apart c h ne e = absurd (ground (arith, it.base, it.blocks))

  turned-paged :
      (k : ℕ) → sit_block_offset k < (m0.sit).sit_blocks → paged_at turned k ≡ paged_at m k
  turned-paged k h = elim (ℕ_discrete (sit_block_offset k) b) [
    | yes e ↦
        rw (new_addr_lem (sit_block_offset k), e, ==_self b, ==_self dst)
          (ap (λ x. m.sit_pages (sit_addr m.sit x) (sit_entry_offset k)) (sym e))
    | no e ↦
        let apart = other_apart (sit_block_offset k) h e in
        ground (arith, new_addr_lem (sit_block_offset k), apart)
  ]

  -- The copy that is read is that of the start.
  src_not_dirty : m.dirty_pages (sit_addr m.sit b) ≡ false
  src_not_dirty =
      ap m.dirty_pages (ground (arith, same b (omega arith), it.base, it.blocks))
      ∙ it.not_dirty b within

  pub get_next_sit_page-IsOpened :
      (end_segno segno : ℕ)
      → segno ≤ end_segno
      → sit_block_offset segno ≡ b
      → get_next_sit_page end_segno m (start_segno_of segno)
        ≡ some (
          dst,
          record m {
            sit_pages = update m.sit_pages dst (m.sit_pages (sit_addr m.sit b));
            dirty_pages = update m.dirty_pages dst true;
            sit = set_to_next_sit m.sit first;
          },
        )
  unfolding get_next_sit_page first
  get_next_sit_page-IsOpened end_segno segno low e =
      let cur = src_lem end_segno (omega arith) in
      rw (e) (rw (get_next_sit_page, cur, dst_lem, src_not_dirty) refl)

  pub turned-IsOpened : (segno : ℕ) → sit_block_offset segno ≡ b → IsOpened m0 m segno (dst, turned)
  unfolding dst
  turned-IsOpened segno e =
      let t = set_to_next_sit-IsToggled m.sit first it.area in_area in
      record {
        store = turned-IsStore segno (unfold first in omega arith);
        info = record { sentries = t.same_sentries; dirty = t.same_dirty; count = t.same_count };
        same_journal = refl;
        same_paged = turned-paged;
        page = rw (new_addr_lem (sit_block_offset segno), e, ==_self b) refl;
        spare = rw e refl;
      }
