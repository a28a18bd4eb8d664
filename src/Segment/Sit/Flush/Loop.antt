-- ===== src/Segment/Sit/Flush/Loop.antt =====
-- The loop of `flush_sit_entries` of fs/f2fs/segment.c over the dirty entries.
use f2fs.Base.{
  ℕ, zero, suc, ◌+◌, ◌^◌, ◌<◌, ◌≤◌, ◌≡◌, ◌≢◌, refl, sym, ap, ◌∙◌, subst, Bool, true, false, arith,
  ◌==◌, false≢true, ℕ_discrete, dec_lt, Returns, Returns->>=, lt→ltb, le→ltb_false, BitSearch,
  IsFirst, weight, weight-update, weight-le,
}
use f2fs.Journal.{sit_journal_entries}
use f2fs.Segment.Geometry.{Geometry}
use f2fs.Segment.Sit.{SegEntry, SitEntry, seg_info_to_raw_sit, sit_block_offset}
use f2fs.Segment.Sit.Flush.{SitFlush, flush_done, flush_sit_entry, flush_from}
use f2fs.Segment.Sit.Flush.Page.{disk_at, IsStore}
use f2fs.Segment.Sit.Flush.Round.{IsEmptied, IsWritten, write_raw_sit-IsWritten}

abbrev pub dirty_at : SitFlush → ℕ → Bool
dirty_at m k = (m.sit).dirty_sentries_bitmap k

abbrev pub entry_at : SitFlush → ℕ → SegEntry
entry_at m k = (m.sit).sentries k

-- What belongs on the disk for a segment.
abbrev pub raw_at : SitFlush → ℕ → SitEntry
raw_at m k = (seg_info_to_raw_sit (entry_at m k)).0

-- An entry is as it was, or it was dirty and has been written, with its checkpoint fields brought up
-- to date.
pub data IsKept (m0 m : SitFlush) (k : ℕ) : Type 0 where
  unchanged : entry_at m k ≡ entry_at m0 k → dirty_at m k ≡ dirty_at m0 k → IsKept m0 m k
  cleaned :
      dirty_at m0 k ≡ true
      → dirty_at m k ≡ false
      → entry_at m k ≡ (seg_info_to_raw_sit (entry_at m0 k)).1
      → IsKept m0 m k

pub record IsFlushing (g : Geometry) (m0 : SitFlush) (flushed : Bool) (m : SitFlush) (pos : ℕ)
    : Type 0 where
  pub store : IsStore m0 m pos
  pub clean : (k : ℕ) → k < g.total_segs → dirty_at m k ≡ false → disk_at m k ≡ raw_at m k
  pub room : (m.journal).n ≤ sit_journal_entries
  pub emptied : IsEmptied flushed m.journal
  pub done : (k : ℕ) → k < pos → k < g.total_segs → dirty_at m k ≡ false
  pub counted : (m.sit).dirty_sentries ≡ weight g.total_segs (m.sit).dirty_sentries_bitmap
  pub entries : (k : ℕ) → IsKept m0 m k

pub raw_again :
    (se : SegEntry)
    → (seg_info_to_raw_sit (seg_info_to_raw_sit se).1).0 ≡ (seg_info_to_raw_sit se).0
unfolding seg_info_to_raw_sit
raw_again se = refl

module _ (g : Geometry) (m0 : SitFlush) (flushed : Bool) (end_segno : ℕ)
    (main : g.total_segs ≤ end_segno + 1) (small : g.total_segs < 2 ^ 32)
    (within : (k : ℕ) → k < g.total_segs → sit_block_offset k < (m0.sit).sit_blocks) where
  module _ (m : SitFlush) (pos segno : ℕ) (it : IsFlushing g m0 flushed m pos) (next : pos ≤ segno)
      (h : segno < g.total_segs) (hit : dirty_at m segno ≡ true)
      (gap : (k : ℕ) → pos ≤ k → k < segno → dirty_at m k ≡ false) where
    was_unchanged : entry_at m segno ≡ entry_at m0 segno
    was_unchanged = elim (it.entries segno) [
      | unchanged e _ ↦ e
      | cleaned _ f _ ↦ absurd (false≢true (sym f ∙ hit))
    ]

    was_dirty : dirty_at m0 segno ≡ true
    was_dirty = elim (it.entries segno) [ unchanged _ e ↦ sym e ∙ hit | cleaned d _ _ ↦ d ]

    done-IsFlushing :
        (r : SitFlush)
        → IsWritten m0 flushed m segno (raw_at m segno) r
        → IsFlushing g m0 flushed
            (flush_done r segno (seg_info_to_raw_sit (entry_at m segno)).1)
            (segno + 1)
    unfolding flush_done seg_info_to_raw_sit
    done-IsFlushing r w =
        let same : (k : ℕ) → k ≡ segno → (k == segno) ≡ true = λ k p. ground arith in
        let other : (k : ℕ) → k ≢ segno → (k == segno) ≡ false = λ k p. ground arith in
        let dirty : (k : ℕ) → dirty_at r k ≡ dirty_at m k = λ k. ap (λ f. f k) w.info.dirty in
        let entry : (k : ℕ) → entry_at r k ≡ entry_at m k = λ k. ap (λ f. f k) w.info.sentries in
        record {
          store = record {
            area = record {
              bytes = w.store.area.bytes;
              size = w.store.area.size;
              fits = w.store.area.fits;
            };
            base = w.store.base;
            blocks = w.store.blocks;
            opened = w.store.opened;
            old = w.store.old;
            not_dirty = w.store.not_dirty;
          };
          clean = λ k small_k d. elim (ℕ_discrete k segno) [
            | yes p ↦
                w.disk k (within k small_k) ∙ rw (same k p) (sym (raw_again (entry_at m segno)))
            | no p ↦
                w.disk k (within k small_k)
                ∙ rw (other k p) (
                    it.clean k small_k (ground (arith, dirty k, d, p))
                    ∙ ap (λ e. (seg_info_to_raw_sit e).0) (sym (entry k)))
          ];
          room = w.room;
          emptied = w.emptied;
          done = λ k before small_k. elim (ℕ_discrete k segno) [
            | yes p ↦ ground arith
            | no p ↦ elim (dec_lt k pos) [
              | yes q ↦ ground (arith, dirty k, it.done k q small_k)
              | no q ↦ ground (arith, dirty k, gap k (omega arith) (omega arith))
            ]
          ];
          counted = ground (
            arith,
            w.info.count,
            it.counted,
            ap (weight g.total_segs) w.info.dirty,
            weight-update g.total_segs segno false (r.sit).dirty_sentries_bitmap h,
            weight-le g.total_segs (r.sit).dirty_sentries_bitmap,
            dirty segno,
            hit,
            small,
          );
          entries = λ k. elim (ℕ_discrete k segno) [
            | yes p ↦ subst (IsKept m0 _) (sym p) (
                cleaned was_dirty (ground arith)
                  (rw (same segno refl) (ap (λ e. (seg_info_to_raw_sit e).1) was_unchanged)))
            | no p ↦ elim (it.entries k) [
              | unchanged e d ↦
                  unchanged (rw (other k p) (entry k ∙ e)) (ground (arith, dirty k, d))
              | cleaned d0 d e ↦
                  cleaned d0 (ground (arith, dirty k, d)) (rw (other k p) (entry k ∙ e))
            ]
          ];
        }

    flush_sit_entry-IsFlushing :
        Returns
          (λ r. IsFlushing g m0 flushed r (segno + 1))
          (flush_sit_entry end_segno flushed m segno)
    unfolding flush_sit_entry
    flush_sit_entry-IsFlushing =
        Returns->>= (IsWritten m0 flushed m segno (raw_at m segno))
          (λ r. IsFlushing g m0 flushed r (segno + 1)) _ _
          (write_raw_sit-IsWritten m0 m flushed pos end_segno segno (raw_at m segno) it.store next
            (omega arith) (within segno h) it.room it.emptied)
          (λ r _ w. done-IsFlushing r w)

  -- The end of the loop: no entry is dirty.
  abbrev pub IsAllFlushed : SitFlush → Type 0
  IsAllFlushed r =
      (p : ℕ) × IsFlushing g m0 flushed r p × ((k : ℕ) → k < g.total_segs → dirty_at r k ≡ false)

  pub flush_from-IsAllFlushed :
      (search : BitSearch) (fuel pos : ℕ) (m : SitFlush)
      → IsFlushing g m0 flushed m pos
      → g.total_segs < pos + fuel
      → Returns IsAllFlushed (flush_from search g end_segno flushed fuel pos m)
  unfolding flush_from
  flush_from-IsAllFlushed search zero pos m it enough = (pos, it, λ k h. it.done k (omega arith) h)
  flush_from-IsAllFlushed search (suc fuel) pos m it enough =
      let segno = search.find_next_bit (m.sit).dirty_sentries_bitmap g.total_segs pos in
      let first : IsFirst true (m.sit).dirty_sentries_bitmap g.total_segs pos segno =
        search.find_next_bit_lem (m.sit).dirty_sentries_bitmap g.total_segs pos in
      elim (dec_lt segno g.total_segs) [
        | yes h ↦
            rw (flush_from, lt→ltb segno g.total_segs h)
              (Returns->>= (λ r. IsFlushing g m0 flushed r (segno + 1)) IsAllFlushed _ _
                (flush_sit_entry-IsFlushing m pos segno it (first.from_offset h) h (first.hit h)
                  first.before)
                (λ r _ w.
                  flush_from-IsAllFlushed search fuel (segno + 1) r w
                    (omega (arith, first.from_offset h))))
        | no h ↦
            rw (flush_from, le→ltb_false segno g.total_segs (omega arith))
              (
                pos,
                it,
                λ k small_k. elim (dec_lt k pos) [
                  | yes q ↦ it.done k q small_k
                  | no q ↦ first.before k (omega arith) (omega arith)
                ],
              )
      ]
