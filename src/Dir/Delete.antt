-- ===== src/Dir/Delete.antt =====
-- An entry taken out of a directory block: the first part of `f2fs_delete_entry` of fs/f2fs/dir.c.
use f2fs.Base.{
  ℕ, ◌+◌, ◌<◌, ◌≤◌, ◌≡◌, refl, ap, ◌∙◌, true, false, ◌&&◌, List, [], ◌∷◌, arith, ltb, leb, ◌==◌,
  if◌then◌else◌, dec_lt, ℕ_discrete, without, on_list,
}
use f2fs.Dir.{DirEntry, DentryBlock, slots_of, delete_dentry}
use f2fs.Dir.Block.{slots_at, IsEntries, slots_of-pos}
use f2fs.Dir.Change.{clear_bits-at, IsEntries-ext}

-- Entries that start at a slot or behind it do not have an earlier one.
entries_behind :
    (b : DentryBlock) (pos : ℕ) (l : List ℕ) (q : ℕ)
    → IsEntries b pos l
    → q < pos
    → on_list q l ≡ false
unfolding IsEntries on_list
entries_behind b pos [] q all h = refl
entries_behind b pos (p ∷ l) q all h =
    let item = all.0 in
    let other : (p == q) ≡ false = ground (arith, item.from) in
    ground (arith, entries_behind b (p + slots_at b p) l q all.1 (omega (arith, item.from)))

without_missing : (q : ℕ) (l : List ℕ) → on_list q l ≡ false → without q l ≡ l
unfolding without on_list
without_missing q [] h = refl
without_missing q (p ∷ l) h = ground (arith, without_missing q l)

module _ (b : DentryBlock) (q : ℕ) where
  abbrev after : DentryBlock
  after = delete_dentry b q

  bits_after :
      (k : ℕ)
      → after.dentry_bitmap k
        ≡ (if leb q k && ltb k (q + slots_at b q) then false else b.dentry_bitmap k)
  unfolding delete_dentry
  bits_after k = clear_bits-at (slots_at b q) q k b.dentry_bitmap

  same_entry : (k : ℕ) → after.dentry k ≡ b.dentry k
  unfolding delete_dentry
  same_entry k = refl

  -- More free slots before the first entry.
  free_before :
      (pos pos' : ℕ) (l : List ℕ)
      → IsEntries b pos' l
      → pos ≤ pos'
      → ((k : ℕ) → pos ≤ k → k < pos' → after.dentry_bitmap k ≡ false)
      → ((k : ℕ) → pos' ≤ k → after.dentry_bitmap k ≡ b.dentry_bitmap k)
      → IsEntries after pos l
  unfolding IsEntries
  free_before pos pos' [] all low free same = λ k at under. elim (dec_lt k pos') [
    | yes h ↦ free k at h
    | no h ↦ same k (omega arith) ∙ all k (omega arith) under
  ]
  free_before pos pos' (p ∷ l) all low free same =
      let item = all.0 in
      let width : slots_at after p ≡ slots_at b p =
        ap (λ e. slots_of (DirEntry.name_len e)) (same_entry p) in
      (
        record {
          from = omega (arith, item.from);
          gap = λ k at under. elim (dec_lt k pos') [
            | yes h ↦ free k at h
            | no h ↦ same k (omega arith) ∙ item.gap k (omega arith) under
          ];
          named = rw (same_entry p) item.named;
          taken = λ k at under.
              same k (omega (arith, item.from)) ∙ item.taken k at (omega (arith, width));
          inside = omega (arith, item.inside, width);
        },
        rw width (
            IsEntries-ext b after (p + slots_at b p) l (λ k at _. same k (omega (arith, item.from)))
              (λ k _. same_entry k) all.1),
      )

  -- The entries of the block afterwards are the others, in order.
  pub delete_dentry-IsEntries :
      (pos : ℕ) (l : List ℕ)
      → IsEntries b pos l
      → on_list q l ≡ true
      → IsEntries after pos (without q l)
  unfolding IsEntries without on_list
  delete_dentry-IsEntries pos [] all member = absurd (ground arith)
  delete_dentry-IsEntries pos (p ∷ l) all member =
      let item = all.0 in
      let some_slot = slots_of-pos (b.dentry p).name_len item.named in
      elim (ℕ_discrete p q) [
        | yes e ↦
            let here : (p == q) ≡ true = ground arith in
            let width : slots_at b p ≡ slots_at b q = ap (slots_at b) e in
            let rest : without q l ≡ l =
              without_missing q l (entries_behind b (p + slots_at b p) l q all.1 (omega arith)) in
            rw (here, rest)
              (free_before pos (p + slots_at b p) l all.1 (omega (arith, item.from))
                (λ k at under. ground (arith, bits_after k, item.gap k at))
                (λ k at. ground (arith, bits_after k)))
        | no e ↦
            let other : (p == q) ≡ false = ground arith in
            let later : on_list q l ≡ true = ground arith in
            let behind : p + slots_at b p ≤ q = elim (dec_lt q (p + slots_at b p)) [
              | yes h ↦ absurd (ground (arith, entries_behind b (p + slots_at b p) l q all.1 h))
              | no h ↦ omega arith
            ] in
            rw other (
              record {
                from = item.from;
                gap = λ k at under. ground (arith, bits_after k, item.gap k at under);
                named = rw (same_entry p) item.named;
                taken = λ k at under. ground (arith, bits_after k, item.taken k at, same_entry p);
                inside = ground (arith, item.inside, same_entry p);
              },
              rw (same_entry p) (delete_dentry-IsEntries (p + slots_at b p) l all.1 later),
            )
      ]
