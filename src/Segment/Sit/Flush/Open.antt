-- ===== src/Segment/Sit/Flush/Open.antt =====
-- `flush_sit_entries` of fs/f2fs/segment.c opens the SIT block of an entry, or finds it open.
use f2fs.Base.{
  ℕ, ◌<◌, ◌≤◌, ◌≡◌, refl, subst, Option, none, some, arith, ltb, ◌||◌, Bool-cases, inl, inr,
  Returns,
}
use f2fs.Bits.Laws.{bits}
use f2fs.Segment.Sit.{sit_block_offset}
use f2fs.Segment.Sit.Flush.{SitFlush, fresh_page, open_page}
use f2fs.Segment.Sit.Flush.Page.{
  IsStore, IsOpened, IsOpen, first, turned, turned-IsOpened, get_next_sit_page-IsOpened,
}

module _ (m0 m : SitFlush) (pos end_segno segno : ℕ) (it : IsStore m0 m pos) (next : pos ≤ segno)
    (low : segno ≤ end_segno) (within : sit_block_offset segno < (m0.sit).sit_blocks) where
  fresh-IsOpened :
      ((c : ℕ)
        → sit_block_offset segno ≤ c
        → bits (m.sit).sit_bitmap c ≡ bits (m0.sit).sit_bitmap c)
      → Returns (IsOpened m0 m segno) (fresh_page end_segno m segno)
  unfolding first fresh_page
  fresh-IsOpened same =
      rw
        (
          fresh_page,
          get_next_sit_page-IsOpened m0 m pos (sit_block_offset segno) it within same end_segno
              segno low refl,
        )
        (turned-IsOpened m0 m pos (sit_block_offset segno) it within same segno refl)

  -- The open block is that of the segment.
  found-IsOpened :
      (a : ℕ)
      → m.page ≡ some a
      → IsOpen m0.sit m pos (some a)
      → segno ≤ m.end_
      → IsOpened m0 m segno (a, m)
  found-IsOpened a e (c, start, end_, before, inside, page, turned, later) fits =
      let here : sit_block_offset segno ≡ c = omega arith in
      record {
        store = record {
          area = it.area;
          base = it.base;
          blocks = it.blocks;
          opened = rw e (c, start, end_, omega arith, inside, page, turned, later);
          old = it.old;
          not_dirty = it.not_dirty;
        };
        info = record { sentries = refl; dirty = refl; count = refl };
        same_journal = refl;
        same_paged = λ k h. refl;
        page = rw here (ground (arith, it.base, it.blocks));
        spare = rw here page;
      }

  pub open_page-IsOpened :
      (p : Option ℕ) → m.page ≡ p → Returns (IsOpened m0 m segno) (open_page end_segno m segno p)
  unfolding open_page
  open_page-IsOpened none e = fresh-IsOpened (λ c h. subst (IsOpen m0.sit m pos) e it.opened c)
  open_page-IsOpened (some a) e =
      let at = subst (IsOpen m0.sit m pos) e it.opened in
      elim (Bool-cases (ltb segno m.start || ltb m.end_ segno)) [
        | inl out ↦
            rw (open_page, out)
              (fresh-IsOpened (λ c h. at.7 c (ground (arith, at.1, at.2, at.3, out, h))))
        | inr found ↦ rw (open_page, found) (found-IsOpened a e at (ground (arith, found)))
      ]
