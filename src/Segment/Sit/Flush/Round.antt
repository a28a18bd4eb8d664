-- ===== src/Segment/Sit/Flush/Round.antt =====
-- Where `flush_sit_entries` of fs/f2fs/segment.c writes one entry, to the journal or to its SIT block:
-- afterwards the disk has it for its segment, and for every other what it had.
use f2fs.Base.{
  ℕ, ◌+◌, ◌<◌, ◌≤◌, ◌≡◌, refl, sym, ap, ◌∙◌, subst, Bool, true, false, Option, none, some, arith,
  update, ◌==◌, ==_self, if◌then◌else◌, Bool-cases, false≢true, inl, inr, Option-cases, ℕ_discrete,
  Returns, Returns->>=, none≢some,
}
use f2fs.Bits.Laws.{bits}
use f2fs.Journal.{Journal, sit_journal_entries, lookup_journal_in_cursum, write_entry}
use f2fs.Journal.Laws.{journal_at, write_entry-lookup_journal_in_cursum}
use f2fs.Segment.Sit.{SitEntry, sit_block_offset}
use f2fs.Segment.Sit.Flush.{SitFlush, sit_entry_offset, to_sit_page, write_raw_sit}
use f2fs.Segment.Sit.Flush.Area.{sit_addr, copy_ne}
use f2fs.Segment.Sit.Flush.Page.{
  or_paged, disk_at-none, disk_at-some, paged_at, disk_at, IsStore, IsSameInfo, IsOpened, IsOpen,
  not_fixed,
}
use f2fs.Segment.Sit.Flush.Open.{open_page-IsOpened}

-- The journal was just emptied.
abbrev pub IsEmptied : Bool → Journal SitEntry → Type 0
IsEmptied flushed j = flushed ≡ true → (k : ℕ) → journal_at j k ≡ none

pub record IsWritten (m0 : SitFlush) (flushed : Bool) (m : SitFlush) (segno : ℕ) (raw : SitEntry)
    (r : SitFlush) : Type 0 where
  pub store : IsStore m0 r (segno + 1)
  pub info : IsSameInfo m r
  pub disk :
      (k : ℕ)
      → sit_block_offset k < (m0.sit).sit_blocks
      → disk_at r k ≡ (if k == segno then raw else disk_at m k)
  pub room : (r.journal).n ≤ sit_journal_entries
  pub emptied : IsEmptied flushed r.journal

chosen :
    (b : Bool) (o : Option SitEntry) (raw x : SitEntry)
    → or_paged (if b then some raw else o) x ≡ (if b then raw else or_paged o x)
chosen true o raw x = refl
chosen false o raw x = refl

-- A write to the page that is open.
module _ (m0 m : SitFlush) (segno : ℕ) (raw : SitEntry) (r : ℕ × SitFlush)
    (it : IsOpened m0 m segno r) (within : sit_block_offset segno < (m0.sit).sit_blocks) where
  abbrev stored : SitFlush
  stored = record (r.1) {
    sit_pages =
        update (r.1).sit_pages r.0 (update ((r.1).sit_pages r.0) (sit_entry_offset segno) raw);
  }

  stored-IsStore : IsStore m0 stored (segno + 1)
  stored-IsStore = record {
    area = it.store.area;
    base = it.store.base;
    blocks = it.store.blocks;
    opened = it.store.opened;
    old = λ c h. elim (ℕ_discrete (sit_addr m0.sit c) r.0) [
      | yes e ↦
          let (same_block, flip) =
            copy_ne m0.sit c (sit_block_offset segno) _ _ h within (e ∙ it.spare) in
          absurd (not_fixed _ (ap (bits (m0.sit).sit_bitmap) (sym same_block) ∙ flip))
      | no e ↦ ground (arith, it.store.old c h, e)
    ];
    not_dirty = it.store.not_dirty;
  }

  stored-paged :
      (k : ℕ)
      → sit_block_offset k < (m0.sit).sit_blocks
      → paged_at stored k ≡ (if k == segno then raw else paged_at m k)
  stored-paged k h =
      let before = it.same_paged k h in
      elim (ℕ_discrete (sit_addr (r.1).sit (sit_block_offset k)) r.0) [
        | yes e ↦
            let (same_block, _) =
              copy_ne (r.1).sit (sit_block_offset k) (sit_block_offset segno) _ _
                (omega (arith, it.store.blocks)) (omega (arith, it.store.blocks)) (e ∙ it.page) in
            elim (ℕ_discrete k segno) [
              | yes p ↦ rw (e, ==_self r.0, p, ==_self segno, ==_self (sit_entry_offset segno)) refl
              | no p ↦
                  let other : (sit_entry_offset k == sit_entry_offset segno) ≡ false =
                    ground arith in
                  let other' : (k == segno) ≡ false = ground arith in
                  rw (other') (
                    rw (← before) (
                      rw (e, ==_self r.0, other)
                        (ap (λ x. (r.1).sit_pages x (sit_entry_offset k)) (sym e))))
            ]
        | no e ↦
            let other : (k == segno) ≡ false = elim (ℕ_discrete k segno) [
              | yes p ↦
                  absurd (e (ap (λ x. sit_addr (r.1).sit (sit_block_offset x)) p ∙ sym it.page))
              | no p ↦ ground arith
            ] in
            rw other (ground (arith, before, e))
      ]

  stored-IsWritten :
      (flushed : Bool)
      → journal_at m.journal segno ≡ none
      → (m.journal).n ≤ sit_journal_entries
      → IsEmptied flushed m.journal
      → IsWritten m0 flushed m segno raw stored
  stored-IsWritten flushed missing room empty =
      let same = it.same_journal in
      record {
        store = stored-IsStore;
        info = record { sentries = it.info.sentries; dirty = it.info.dirty; count = it.info.count };
        disk = λ k h.
            let at : journal_at (r.1).journal k ≡ journal_at m.journal k =
              ap (λ j. journal_at j k) same in
            elim (Option-cases (journal_at m.journal k)) [
              | inl e ↦
                  disk_at-none stored k (at ∙ e)
                  ∙ stored-paged k h
                  ∙ ap (λ x. if k == segno then raw else x) (sym (disk_at-none m k e))
              | inr (x, e) ↦ elim (ℕ_discrete k segno) [
                | yes p ↦ absurd (none≢some (sym missing ∙ ap (journal_at m.journal) (sym p) ∙ e))
                | no p ↦
                    let other : (k == segno) ≡ false = ground arith in
                    disk_at-some stored k (at ∙ e) ∙ rw other (sym (disk_at-some m k e))
              ]
            ];
        room = rw same room;
        emptied = rw same empty;
      }

module _ (m0 m : SitFlush) (flushed : Bool) (pos end_segno segno : ℕ) (raw : SitEntry)
    (it : IsStore m0 m pos) (next : pos ≤ segno) (low : segno ≤ end_segno)
    (within : sit_block_offset segno < (m0.sit).sit_blocks)
    (room : (m.journal).n ≤ sit_journal_entries) (empty : IsEmptied flushed m.journal) where
  to_sit_page-IsWritten :
      journal_at m.journal segno ≡ none
      → Returns (IsWritten m0 flushed m segno raw) (to_sit_page end_segno m segno raw)
  unfolding to_sit_page
  to_sit_page-IsWritten missing =
      Returns->>= (IsOpened m0 m segno) (IsWritten m0 flushed m segno raw) _ _
        (open_page-IsOpened m0 m pos end_segno segno it next low within m.page refl)
        (λ r _ o. stored-IsWritten m0 m segno raw r o within flushed missing room empty)

  opened_later : (p : Option ℕ) → IsOpen m0.sit m pos p → IsOpen m0.sit m (segno + 1) p
  opened_later none o = o
  opened_later (some a) o = (o.0, o.1, o.2, omega (arith, o.3), o.4, o.5, o.6, o.7)

  in_journal :
      (i : ℕ)
      → (lookup_journal_in_cursum sit_journal_entries m.journal segno true).0 ≡ some i
      → IsWritten m0 false m segno raw (record m {
        journal =
            write_entry
              (lookup_journal_in_cursum sit_journal_entries m.journal segno true).1
              i
              segno
              raw;
      })
  in_journal i e =
      let law =
        (write_entry-lookup_journal_in_cursum sit_journal_entries m.journal segno raw (omega arith)
            room).1
          i e in
      record {
        store = record {
          area = it.area;
          base = it.base;
          blocks = it.blocks;
          opened = opened_later m.page it.opened;
          old = it.old;
          not_dirty = it.not_dirty;
        };
        info = record { sentries = refl; dirty = refl; count = refl };
        disk = λ k h. ap (λ o. or_paged o (paged_at m k)) (law.1 k) ∙ chosen (k == segno) _ raw _;
        room = law.0;
        emptied = λ f. absurd (false≢true f);
      }

  pub write_raw_sit-IsWritten :
      Returns (IsWritten m0 flushed m segno raw) (write_raw_sit end_segno flushed m segno raw)
  unfolding write_raw_sit
  write_raw_sit-IsWritten = elim (Bool-cases flushed) [
    | inl e ↦
        subst
          (λ f. Returns (IsWritten m0 flushed m segno raw) (write_raw_sit end_segno f m segno raw))
          (sym e) (to_sit_page-IsWritten (empty e segno))
    | inr e ↦
        subst (λ f. Returns (IsWritten m0 f m segno raw) (write_raw_sit end_segno f m segno raw))
          (sym e)
          (elim (Option-cases
            (lookup_journal_in_cursum sit_journal_entries m.journal segno true).0) [
              | inl f ↦
                  rw (write_raw_sit, f)
                    (subst
                      (λ x.
                        Returns (IsWritten m0 x m segno raw) (to_sit_page end_segno m segno raw))
                      e
                      (to_sit_page-IsWritten
                        ((write_entry-lookup_journal_in_cursum sit_journal_entries m.journal segno
                            raw (omega arith) room).0.0
                          f).0))
              | inr (i, f) ↦ rw (write_raw_sit, f) (in_journal i f)
            ])
  ]
