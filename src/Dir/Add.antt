-- ===== src/Dir/Add.antt =====
-- A new entry in a directory block: the last part of `f2fs_add_link` of fs/f2fs/dir.c, at a slot that
-- `room_for_filename` accepts, and which entries of the block have a name afterwards.
use f2fs.Base.{
  ℕ, ◌+◌, ◌*◌, ◌<◌, ◌≤◌, ◌≡◌, ◌≢◌, ◌⊎◌, inl, inr, refl, ap, sym, true, false, ◌&&◌, none, some,
  List, [], ◌∷◌, length, arith, ltb, leb, if◌then◌else◌, Bool-cases, dec_lt, ℕ_discrete,
}
use f2fs.Dir.{
  DirEntry, DentryBlock, slots_of, is_match, early_match_name, same_bytes, copy_bytes, add_dentry,
}
use f2fs.Dir.Room.{IsRoom}
use f2fs.Dir.Block.{slots_at, IsItem, IsEntries, first_match, slots_of-pos}
use f2fs.Dir.Change.{
  set_bits-at, copy_bytes-outside, same_bytes-copy, same_bytes_ext, same_bytes_inj, IsEntries-ext,
  insert_slot,
}

slots_of-cover : (n : ℕ) → n ≤ slots_of n * 8
unfolding slots_of
slots_of-cover n = omega arith

later-IsItem :
    {b : DentryBlock} (pos pos' p : ℕ) → IsItem b pos p → pos ≤ pos' → pos' ≤ p → IsItem b pos' p
later-IsItem pos pos' p item h h' = record {
  from = h';
  gap = λ k at under. item.gap k (omega arith) under;
  named = item.named;
  taken = item.taken;
  inside = item.inside;
}

module _ (b : DentryBlock) (q : ℕ) (name : List ℕ) (namehash ino : ℕ) (named : 0 < length name)
    (room : IsRoom b.dentry_bitmap (slots_of (length name)) q) where
  abbrev after : DentryBlock
  after = add_dentry b q name namehash ino

  abbrev width : ℕ
  width = slots_of (length name)

  bits_after :
      (k : ℕ)
      → after.dentry_bitmap k ≡ (if leb q k && ltb k (q + width) then true else b.dentry_bitmap k)
  unfolding add_dentry
  bits_after k = set_bits-at width q k b.dentry_bitmap

  entry_after : (k : ℕ) → k ≢ q → after.dentry k ≡ b.dentry k
  unfolding add_dentry
  entry_after k h = ground arith

  slots_after : slots_at after q ≡ width
  unfolding add_dentry
  slots_after = ground arith

  new-IsItem :
      (pos : ℕ)
      → pos ≤ q
      → ((k : ℕ) → pos ≤ k → k < q → b.dentry_bitmap k ≡ false)
      → IsItem after pos q
  new-IsItem pos low gap = record {
    from = low;
    gap = λ k at under. ground (arith, bits_after k, gap k at under);
    named = unfold add_dentry in ground (arith, named);
    taken = λ k at under. ground (arith, bits_after k, slots_after);
    inside = omega (arith, slots_after, room.inside);
  }

  -- An entry of the block lies before the new one or behind it.
  apart : (pos p : ℕ) → IsItem b pos p → (p + slots_at b p ≤ q) ⊎ (q + width ≤ p)
  apart pos p item =
      let mine = slots_of-pos (length name) named in
      let its = slots_of-pos (b.dentry p).name_len item.named in
      elim (dec_lt q p) [
        | yes h ↦ elim (dec_lt p (q + width)) [
          | yes h' ↦
              let clear = room.free p (omega arith) h' in
              let set = item.taken p (omega arith) (omega arith) in ground arith
          | no h' ↦ inr (omega arith)
        ]
        | no h ↦ elim (dec_lt q (p + slots_at b p)) [
          | yes h' ↦
              let clear = room.free q (omega arith) (omega arith) in
              let set = item.taken q (omega arith) h' in ground arith
          | no h' ↦ inl (omega arith)
        ]
      ]

  old-IsItem : (pos p : ℕ) → IsItem b pos p → p + slots_at b p ≤ q → IsItem after pos p
  old-IsItem pos p item before =
      let its = slots_of-pos (b.dentry p).name_len item.named in
      let same = entry_after p (λ h. absurd (omega (arith, h))) in
      let same_slots : slots_at after p ≡ slots_at b p =
        ap (λ e. slots_of (DirEntry.name_len e)) same in
      record {
        from = item.from;
        gap = λ k at under. ground (arith, bits_after k, item.gap k at under);
        named = rw same item.named;
        taken = λ k at under. ground (arith, bits_after k, item.taken k at, same_slots);
        inside = omega (arith, same_slots, item.inside);
      }

  -- The entries of the block afterwards are the old ones and the new one, in order.
  pub add_dentry-IsEntries :
      (pos : ℕ) (l : List ℕ) → IsEntries b pos l → pos ≤ q → IsEntries after pos (insert_slot q l)
  unfolding IsEntries insert_slot
  add_dentry-IsEntries pos [] all low = (
    new-IsItem pos low (λ k at under. all k at (omega (arith, room.inside))),
    λ k at under. ground (arith, bits_after k, slots_after, all k),
  )
  add_dentry-IsEntries pos (p ∷ l) all low = elim (apart pos p all.0) [
    | inl before ↦
        let its = slots_of-pos (b.dentry p).name_len all.0.named in
        let later : ltb q p ≡ false = ground arith in
        let same =
          ap (λ e. slots_of (DirEntry.name_len e))
            (entry_after p (λ h. absurd (omega (arith, h)))) in
        rw later (
          old-IsItem pos p all.0 before,
          rw same (add_dentry-IsEntries (p + slots_at b p) l all.1 before),
        )
    | inr behind ↦
        let mine = slots_of-pos (length name) named in
        let first : ltb q p ≡ true = ground arith in
        rw first (
          new-IsItem pos low (λ k at under. all.0.gap k at (omega arith)),
          IsEntries-ext b after (q + slots_at after q) (p ∷ l)
              (λ k at under. ground (arith, bits_after k, slots_after))
              (λ k at. entry_after k (λ h. absurd (omega (arith, h, slots_after))))
              (
                later-IsItem pos (q + slots_at after q) p all.0 (omega arith)
                    (omega (arith, slots_after, behind)),
                all.1,
              ),
        )
  ]

  -- Which entries have a name, afterwards.
  new_match : is_match after name namehash q ≡ true
  unfolding is_match early_match_name add_dentry
  new_match = ground (arith, same_bytes-copy b.filename (q * 8) name)

  new_mismatch :
      (name' : List ℕ) (namehash' : ℕ) → name' ≢ name → is_match after name' namehash' q ≡ false
  unfolding is_match early_match_name add_dentry
  new_mismatch name' namehash' other =
      let bytes = copy_bytes b.filename (q * 8) name in
      elim (Bool-cases (same_bytes bytes (q * 8) name')) [
        | inl same ↦ elim (ℕ_discrete (length name) (length name')) [
          | yes e ↦ absurd (
              other (
                sym (
                  same_bytes_inj bytes (q * 8) name name' e
                    (same_bytes-copy b.filename (q * 8) name) same)))
          | no e ↦ ground arith
        ]
        | inr differ ↦ ground arith
      ]

  old_match :
      (pos p : ℕ) (name' : List ℕ) (namehash' : ℕ)
      → IsItem b pos p
      → is_match after name' namehash' p ≡ is_match b name' namehash' p
  unfolding is_match early_match_name
  old_match pos p name' namehash' item =
      let its = slots_of-pos (b.dentry p).name_len item.named in
      let mine = slots_of-pos (length name) named in
      let far = apart pos p item in
      let other : p ≢ q = λ h. ground (arith, far) in
      let same = entry_after p other in
      let cover = slots_of-cover (b.dentry p).name_len in
      let cover' = slots_of-cover (length name) in
      rw same (elim (ℕ_discrete (b.dentry p).name_len (length name')) [
        | yes e ↦
            let bytes : same_bytes after.filename (p * 8) name'
                ≡ same_bytes b.filename (p * 8) name' =
              same_bytes_ext after.filename b.filename (p * 8) name' (λ k low high.
                unfold add_dentry in
                copy_bytes-outside b.filename (q * 8) name k
                  (elim far [ inl h ↦ inl (omega arith) | inr h ↦ inr (omega arith) ])) in
            rw bytes refl
        | no e ↦ ground arith
      ])

  old_first_match :
      (pos : ℕ) (l : List ℕ) (name' : List ℕ) (namehash' : ℕ)
      → IsEntries b pos l
      → first_match after name' namehash' l ≡ first_match b name' namehash' l
  unfolding IsEntries first_match
  old_first_match pos [] name' namehash' all = refl
  old_first_match pos (p ∷ l) name' namehash' all =
      rw
        (
          old_match pos p name' namehash' all.0,
          old_first_match (p + slots_at b p) l name' namehash' all.1,
        )
        refl

  -- The first entry with another name stays, and that with the name itself, if there was none, is the
  -- new one.
  pub add_dentry-first_match :
      (pos : ℕ) (l : List ℕ)
      → IsEntries b pos l
      → (name' : List ℕ) (namehash' : ℕ)
      → (name' ≢ name
          → first_match after name' namehash' (insert_slot q l) ≡ first_match b name' namehash' l)
        × (first_match b name namehash l ≡ none
            → first_match after name namehash (insert_slot q l) ≡ some q)
  unfolding IsEntries insert_slot first_match
  add_dentry-first_match pos [] all name' namehash' =
      (λ other. rw (new_mismatch name' namehash' other) refl, λ missing. rw new_match refl)
  add_dentry-first_match pos (p ∷ l) all name' namehash' =
      let later = add_dentry-first_match (p + slots_at b p) l all.1 name' namehash' in
      let same = old_match pos p name' namehash' all.0 in
      let same' = old_match pos p name namehash all.0 in
      elim (Bool-cases (ltb q p)) [
        | inl first ↦ rw first (
          λ other.
              rw (new_mismatch name' namehash' other)
                (rw (same, old_first_match (p + slots_at b p) l name' namehash' all.1) refl),
          λ missing. rw new_match refl,
        )
        | inr behind ↦ rw behind (
          λ other. rw (same, later.0 other) refl,
          λ missing. elim (Bool-cases (is_match b name namehash p)) [
            | inl hit ↦ absurd (ground arith)
            | inr miss ↦ ground (arith, later.1)
          ],
        )
      ]
