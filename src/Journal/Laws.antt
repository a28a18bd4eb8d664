-- ===== src/Journal/Laws.antt =====
-- What a journal holds for a key, and that a write at the offset that was looked up changes that
-- and nothing else.
use f2fs.Base.{
  ℕ, zero, suc, ◌+◌, ◌-◌, ◌%◌, ◌^◌, ◌<◌, ◌≤◌, ◌≡◌, ◌≢◌, ◌↔◌, ◌⊎◌, refl, ap, sym, ◌∙◌, true, false,
  Option, none, some, update, ltb, ◌==◌, if◌then◌else◌, arith, Option-cases, inl, inr, Bool-cases,
  ℕ_discrete, some_inj, none≢some,
}
use f2fs.Journal.{Journal, extend, shorten, search_journal, lookup_journal_in_cursum, write_entry}

search_journal-le :
    (keys : ℕ → ℕ) (val left i : ℕ) {r : ℕ}
    → search_journal keys val left i ≡ some r
    → (i ≤ r) × (r < i + left)
unfolding search_journal
search_journal-le keys val zero i e = absurd (none≢some e)
search_journal-le keys val (suc left) i {r} e = elim (ℕ_discrete (keys i) val) [
  | yes p ↦ ground arith
  | no p ↦
      let rest : search_journal keys val left (i + 1) ≡ some r = ground arith in
      omega (arith, search_journal-le keys val left (i + 1) rest)
]

module _ {ℓ} {E : Type ℓ} where
  -- The first entry for `val` among the `left` from `i` on.
  unfoldable pub first_for : (ℕ → ℕ) → (ℕ → E) → ℕ → ℕ → ℕ → Option E
  first_for keys entries val zero i = none
  first_for keys entries val (suc left) i =
      let rest = first_for keys entries val left (i + 1) in
      if keys i == val then some (entries i) else rest

  unfoldable pub journal_at : Journal E → ℕ → Option E
  journal_at j val = first_for j.keys j.entries val j.n 0

  module _ (keys : ℕ → ℕ) (entries : ℕ → E) (val : ℕ) (e : E) (k : ℕ) where
    first_for_below :
        (r left i : ℕ)
        → r < i
        → first_for (update keys r val) (update entries r e) k left i
          ≡ first_for keys entries k left i
    unfolding first_for
    first_for_below r zero i h = refl
    first_for_below r (suc left) i h = ground (arith, first_for_below r left (i + 1))

    first_for_rewritten :
        (left i r : ℕ)
        → search_journal keys val left i ≡ some r
        → first_for (update keys r val) (update entries r e) k left i
          ≡ (if k == val then some e else first_for keys entries k left i)
    unfolding first_for search_journal
    first_for_rewritten zero i r s = absurd (none≢some s)
    first_for_rewritten (suc left) i r s = elim (ℕ_discrete (keys i) val) [
      | yes p ↦
          let same : i ≡ r = ground arith in ground (arith, first_for_below r left (i + 1), same)
      | no p ↦
          let rest : search_journal keys val left (i + 1) ≡ some r = ground arith in
          ground (
            arith,
            first_for_rewritten left (i + 1) r rest,
            search_journal-le keys val left (i + 1) rest,
          )
    ]

    first_for_appended :
        (left i r : ℕ)
        → r ≡ i + left
        → search_journal keys val left i ≡ none
        → first_for (update keys r val) (update entries r e) k (suc left) i
          ≡ (if k == val then some e else first_for keys entries k left i)
    unfolding first_for search_journal
    first_for_appended zero i r q s = ground arith
    first_for_appended (suc left) i r q s =
        let rest : search_journal keys val left (i + 1) ≡ none = ground arith in
        ground (arith, first_for_appended left (i + 1) r (omega arith) rest)

  -- Whether the journal has the key.
  pub first_for-none :
      (keys : ℕ → ℕ) (entries : ℕ → E) (val left i : ℕ)
      → search_journal keys val left i ≡ none
      → first_for keys entries val left i ≡ none
  unfolding first_for search_journal
  first_for-none keys entries val zero i h = refl
  first_for-none keys entries val (suc left) i h =
      ground (arith, first_for-none keys entries val left (i + 1))

  pub first_for-some :
      (keys : ℕ → ℕ) (entries : ℕ → E) (val left i : ℕ) {r : ℕ}
      → search_journal keys val left i ≡ some r
      → first_for keys entries val left i ≡ some (entries r)
  unfolding first_for search_journal
  first_for-some keys entries val zero i h = absurd (none≢some h)
  first_for-some keys entries val (suc left) i {r} h = elim (ℕ_discrete (keys i) val) [
    | yes p ↦ ground (arith, ap entries {x = i} {y = r})
    | no p ↦
        let rest : search_journal keys val left (i + 1) ≡ some r = ground arith in
        ground (arith, first_for-some keys entries val left (i + 1) rest)
  ]

  -- Where no entry before has the key.
  first_for_at :
      (keys : ℕ → ℕ) (entries : ℕ → E) (i left s : ℕ)
      → s ≤ i
      → i < s + left
      → ((j : ℕ) → j < i → keys j ≢ keys i)
      → first_for keys entries (keys i) left s ≡ some (entries i)
  unfolding first_for
  first_for_at keys entries i zero s low high none_before = absurd (omega arith)
  first_for_at keys entries i (suc left) s low high none_before = elim (ℕ_discrete s i) [
    | yes p ↦ rw p (ground arith)
    | no p ↦
        let other : keys s ≢ keys i = none_before s (omega arith) in
        ground
          (arith, first_for_at keys entries i left (s + 1) (omega arith) (omega arith) none_before)
  ]

  first_for-cases :
      (keys : ℕ → ℕ) (entries : ℕ → E) (val left s : ℕ)
      → (first_for keys entries val left s ≡ none) ⊎ ((j : ℕ) × (j < s + left) × (keys j ≡ val))
  unfolding first_for
  first_for-cases keys entries val zero s = inl refl
  first_for-cases keys entries val (suc left) s = elim (ℕ_discrete (keys s) val) [
    | yes p ↦ inr (s, omega arith, p)
    | no p ↦ elim (first_for-cases keys entries val left (s + 1)) [
      | inl e ↦ inl (ground arith)
      | inr (j, low, h) ↦ inr (j, omega arith, h)
    ]
  ]

  -- The entry at an offset, if it is the first for its key, and an id that the journal does not have.
  pub journal_at-first :
      (j : Journal E) (i : ℕ)
      → i < j.n
      → ((k : ℕ) → k < i → j.keys k ≢ j.keys i)
      → journal_at j (j.keys i) ≡ some (j.entries i)
  unfolding journal_at
  journal_at-first j i h none_before =
      first_for_at j.keys j.entries i j.n 0 (omega arith) (omega arith) none_before

  pub journal_at-cases :
      (j : Journal E) (val : ℕ)
      → (journal_at j val ≡ none) ⊎ ((i : ℕ) × (i < j.n) × (j.keys i ≡ val))
  unfolding journal_at
  journal_at-cases j val = elim (first_for-cases j.keys j.entries val j.n 0) [
    | inl e ↦ inl e
    | inr (i, low, h) ↦ inr (i, omega arith, h)
  ]

  pub journal_at-shorten :
      (j : Journal E) (val : ℕ)
      → j.n < 2 ^ 16
      → (journal_at (shorten j j.n) val ≡ none) × ((shorten j j.n).n ≡ 0)
  unfolding journal_at first_for shorten
  journal_at-shorten j val h =
      let none_left : (j.n + 2 ^ 16 - j.n) % 2 ^ 16 ≡ 0 = ground arith in
      (rw none_left refl, none_left)

  -- Without room asked for, `lookup_journal_in_cursum` changes nothing and gives the offset of the
  -- first entry for the key, below the count; it gives none exactly if the journal has no such entry.
  pub lookup_journal_in_cursum-find :
      (capacity : ℕ) (j : Journal E) (val : ℕ)
      → let r = lookup_journal_in_cursum capacity j val false in
        (r.1 ≡ j)
        × ((r.0 ≡ none) ↔ (journal_at j val ≡ none))
        × ((i : ℕ) → r.0 ≡ some i → (i < j.n) × (journal_at j val ≡ some (j.entries i)))
  unfolding lookup_journal_in_cursum journal_at
  lookup_journal_in_cursum-find capacity j val =
      elim (Option-cases (search_journal j.keys val j.n 0)) [
        | inl e ↦
            let nothing = first_for-none j.keys j.entries val j.n 0 e in
            rw (lookup_journal_in_cursum, e)
              (refl, (λ _. nothing, λ _. refl), λ i h. absurd (none≢some h))
        | inr (r, e) ↦
            let it = first_for-some j.keys j.entries val j.n 0 e in
            let low = search_journal-le j.keys val j.n 0 e in
            rw (lookup_journal_in_cursum, e)
              (
                refl,
                (λ h. absurd (none≢some (sym h)), λ h. absurd (none≢some (sym h ∙ it))),
                λ i h.
                    let same : r ≡ i = some_inj h in
                    (omega (arith, low, same), it ∙ ap (λ k. some (j.entries k)) same),
              )
      ]

  -- With room asked for, in a journal that is within its capacity, `lookup_journal_in_cursum` gives no
  -- offset exactly if the key has no entry and the journal is full. Otherwise a write at the offset that
  -- it gives makes that the key's entry, keeps every other key's, and stays within the capacity.
  pub write_entry-lookup_journal_in_cursum :
      (capacity : ℕ) (j : Journal E) (val : ℕ) (e : E)
      → capacity < 2 ^ 16
      → j.n ≤ capacity
      → let r = lookup_journal_in_cursum capacity j val true in
        ((r.0 ≡ none) ↔ ((journal_at j val ≡ none) × (j.n ≡ capacity)))
        × ((i : ℕ)
            → r.0 ≡ some i
            → ((write_entry r.1 i val e).n ≤ capacity)
              × ((k : ℕ)
                  → journal_at (write_entry r.1 i val e) k
                    ≡ (if k == val then some e else journal_at j k)))
  unfolding lookup_journal_in_cursum journal_at write_entry extend
  write_entry-lookup_journal_in_cursum capacity j val e small within =
      elim (Option-cases (search_journal j.keys val j.n 0)) [
        | inl s ↦
            let nothing = first_for-none j.keys j.entries val j.n 0 s in
            rw (lookup_journal_in_cursum, s)
              (elim (Bool-cases (ltb j.n capacity)) [
                | inl room ↦
                    let one_more : (j.n + 1) % 2 ^ 16 ≡ suc j.n = ground arith in
                    rw (room, one_more)
                      (
                        (λ h. absurd (none≢some (sym h)), λ h. ground arith),
                        λ i h.
                            let same : j.n ≡ i = some_inj h in
                            (
                              ground arith,
                              λ k. rw (← same) (
                                  first_for_appended j.keys j.entries val e k j.n 0 j.n
                                    (omega arith) s),
                            ),
                      )
                | inr full ↦
                    rw full ((λ _. (nothing, ground arith), λ _. refl), λ i h. absurd (none≢some h))
              ])
        | inr (r, s) ↦
            let it = first_for-some j.keys j.entries val j.n 0 s in
            rw (lookup_journal_in_cursum, s)
              (
                (λ h. absurd (none≢some (sym h)), λ h. absurd (none≢some (sym h.0 ∙ it))),
                λ i h.
                    let same : r ≡ i = some_inj h in
                    (
                      within,
                      λ k. rw (← same) (first_for_rewritten j.keys j.entries val e k j.n 0 r s),
                    ),
              )
      ]
