-- ===== src/Node/NatCache/Checkpoint.antt =====
-- `flush_nats_in_journal` and `flush_nat_entries` of fs/f2fs/node.c: after a flush the disk maps every
-- id as the cache and the disk together did before, but for the promises.
use f2fs.Base.{
  ℕ, zero, suc, ◌+◌, ◌-◌, ◌^◌, ◌<◌, ◌≤◌, ◌≡◌, ◌≢◌, refl, ap, sym, ◌∙◌, Bool, true, false, ◌||◌,
  none, some, List, [], ◌∷◌, on_list, arith, ltb, ◌==◌, Bool-cases, subst, Option-cases, inl, inr,
  ℕ_discrete,
}
use f2fs.Journal.{Journal, nat_journal_entries, shorten}
use f2fs.Journal.Laws.{journal_at, journal_at-first, journal_at-cases, journal_at-shorten}
use f2fs.Segment.Geometry.{new_addr}
use f2fs.Node.NatCache.{
  NatEntry, RawNat, NmInfo, raw_of, set_nat_cache_dirty, add_to_nat_cache, node_info_from_raw_nat,
  flush_journal_entry, flush_journal_from, flush_nats_in_journal, flush_list, flush_nat_entries,
  nm_wout_threshold,
}
use f2fs.Node.NatCache.View.{disk_view, view, is_dirty, IsCoherent}
use f2fs.Node.NatCache.Lookup.{
  add_to_nat_cache-IsCoherent, try_to_free_nats-view, try_to_free_nats-disk_view, view-found,
}
use f2fs.Node.NatCache.Dirty.{IsCoherent-IsCoherentBut, set_nat_cache_dirty-IsCoherent}
use f2fs.Node.NatCache.Written.{promised, IsEmptied}
use f2fs.Node.NatCache.Flush.{IsFlush, flush_entry-IsFlush}

flush_list-IsFlush :
    (flushed : Bool) (l : List ℕ) (m : NmInfo)
    → IsCoherent m
    → IsEmptied flushed m.journal
    → IsFlush flushed (λ k. on_list k l) m (flush_list flushed l m)
unfolding flush_list on_list
flush_list-IsFlush flushed [] m inv empty = record {
  coherent = inv;
  same_view = λ k. refl;
  emptied = empty;
  settled = λ k. ground arith;
  same_promises = λ k. refl;
}
flush_list-IsFlush flushed (nid ∷ rest) m inv empty =
    let one = flush_entry-IsFlush flushed m nid inv empty in
    let later = flush_list-IsFlush flushed rest _ one.coherent one.emptied in
    record {
      coherent = later.coherent;
      same_view = λ k. later.same_view k ∙ one.same_view k;
      emptied = later.emptied;
      settled = λ k. ground (arith, later.settled k, one.settled k, one.same_promises k);
      same_promises = λ k. later.same_promises k ∙ one.same_promises k;
    }

record IsOneLoaded (nid : ℕ) (m r : NmInfo) : Type 0 where
  coherent : IsCoherent r
  same_view : (k : ℕ) → view r k ≡ view m k
  same_journal : r.journal ≡ m.journal
  same_disk : (k : ℕ) → disk_view r k ≡ disk_view m k
  dirtied : (k : ℕ) → is_dirty r k ≡ (k == nid || is_dirty m k)

flush_journal_entry-IsOneLoaded :
    (m : NmInfo) (nid : ℕ) (raw : RawNat)
    → IsCoherent m
    → (m.nat_root nid ≡ none → raw ≡ disk_view m nid)
    → IsOneLoaded nid m (flush_journal_entry m nid raw)
unfolding flush_journal_entry node_info_from_raw_nat
flush_journal_entry-IsOneLoaded m nid raw inv right = elim (Option-cases (m.nat_root nid)) [
  | inl e ↦
      let x : NatEntry = record { ni = node_info_from_raw_nat nid raw; checkpointed = false } in
      let put = add_to_nat_cache-IsCoherent m x inv e (right e) in
      let m1 = add_to_nat_cache m x in
      let put2 =
        set_nat_cache_dirty-IsCoherent m1 nid x (IsCoherent-IsCoherentBut nid m1 put.0)
          (unfold add_to_nat_cache in ground arith) refl in
      rw (flush_journal_entry, e)
        (record {
          coherent = put2.0;
          same_view = λ k. put2.1 k ∙ put.1 k;
          same_journal = unfold set_nat_cache_dirty add_to_nat_cache in refl;
          same_disk = λ k. unfold set_nat_cache_dirty add_to_nat_cache in refl;
          dirtied = λ k. put2.2 k ∙ unfold add_to_nat_cache in refl;
        })
  | inr (x, e) ↦
      let put2 =
        set_nat_cache_dirty-IsCoherent m nid x (IsCoherent-IsCoherentBut nid m inv) e
          (inv.named nid x e) in
      rw (flush_journal_entry, e)
        (record {
          coherent = put2.0;
          same_view = put2.1;
          same_journal = unfold set_nat_cache_dirty in refl;
          same_disk = λ k. unfold set_nat_cache_dirty in refl;
          dirtied = put2.2;
        })
]

-- What the loop over the journal does to the cache, from entry `low` on: the disk stays, and the ids
-- of these entries are dirty.
record IsLoaded (j : Journal RawNat) (low : ℕ) (m r : NmInfo) : Type 0 where
  coherent : IsCoherent r
  same_view : (k : ℕ) → view r k ≡ view m k
  same_journal : r.journal ≡ j
  same_disk : (k : ℕ) → disk_view r k ≡ disk_view m k
  still_dirty : (k : ℕ) → is_dirty m k ≡ true → is_dirty r k ≡ true
  now_dirty : (i : ℕ) → low ≤ i → i < j.n → is_dirty r (j.keys i) ≡ true

flush_journal_from-IsLoaded :
    (j : Journal RawNat) (left i : ℕ) (m : NmInfo)
    → IsCoherent m
    → m.journal ≡ j
    → i + left ≡ j.n
    → ((k : ℕ) → k < i → is_dirty m (j.keys k) ≡ true)
    → IsLoaded j i m (flush_journal_from left i m)
unfolding flush_journal_from
flush_journal_from-IsLoaded j zero i m inv e bound before = record {
  coherent = inv;
  same_view = λ k. refl;
  same_journal = e;
  same_disk = λ k. refl;
  still_dirty = λ k d. d;
  now_dirty = λ k low high. absurd (omega arith);
}
flush_journal_from-IsLoaded j (suc left) i m inv e bound before =
    let fresh : m.nat_root (j.keys i) ≡ none → j.entries i ≡ disk_view m (j.keys i) = λ h.
      let at : journal_at j (j.keys i) ≡ some (j.entries i) =
        journal_at-first j i (omega arith)
          (λ k low same. inv.cached (j.keys i) (ap (is_dirty m) (sym same) ∙ before k low) h) in
      rw (e, at) refl in
    let one = flush_journal_entry-IsOneLoaded m (j.keys i) (j.entries i) inv fresh in
    let m1 = flush_journal_entry m (j.keys i) (j.entries i) in
    let known : (k : ℕ) → k < i + 1 → is_dirty m1 (j.keys k) ≡ true = λ k low.
      elim (ℕ_discrete k i) [
        | yes p ↦ ground (arith, one.dirtied (j.keys k), ap j.keys p)
        | no p ↦ ground (arith, one.dirtied (j.keys k), before k (omega arith))
      ] in
    let later =
      flush_journal_from-IsLoaded j left (i + 1) m1 one.coherent (one.same_journal ∙ e)
        (omega arith) known in
    subst
      (λ x.
        IsLoaded j i m
          (flush_journal_from left (i + 1) (flush_journal_entry m (x.keys i) (x.entries i))))
      (sym e)
      (record {
        coherent = later.coherent;
        same_view = λ k. later.same_view k ∙ one.same_view k;
        same_journal = later.same_journal;
        same_disk = λ k. later.same_disk k ∙ one.same_disk k;
        still_dirty = λ k d. later.still_dirty k (ground (arith, one.dirtied k));
        now_dirty = λ k low high. elim (ℕ_discrete k i) [
          | yes p ↦ later.still_dirty (j.keys k) (known k (omega arith))
          | no p ↦ later.now_dirty k (omega arith) high
        ];
      })

-- The journal emptied, once all its ids are dirty.
emptied-IsCoherent :
    (m : NmInfo) (j : Journal RawNat)
    → IsCoherent m
    → m.journal ≡ j
    → ((i : ℕ) → i < j.n → is_dirty m (j.keys i) ≡ true)
    → let r = record m { journal = shorten j j.n } in
      IsCoherent r × ((k : ℕ) → view r k ≡ view m k) × ((k : ℕ) → journal_at r.journal k ≡ none)
emptied-IsCoherent m j inv e dirty =
    let small : j.n < 2 ^ 16 = ground (arith, inv.room) in
    let gone : (k : ℕ) → journal_at (shorten j j.n) k ≡ none =
      λ k. (journal_at-shorten j k small).0 in
    let page : (k : ℕ) → is_dirty m k ≡ false → m.nat_pages k ≡ disk_view m k = λ k d.
      elim (journal_at-cases j k) [
        | inl h ↦ rw (e, h) refl
        | inr (i, low, h) ↦ absurd (ground (arith, dirty i low, ap (is_dirty m) h))
      ] in
    let missing : (k : ℕ) → m.nat_root k ≡ none → is_dirty m k ≡ false =
      λ k h. elim (Bool-cases (is_dirty m k)) [ inl d ↦ absurd (inv.cached k d h) | inr d ↦ d ] in
    (
      record {
        named = inv.named;
        clean = λ n x h d. rw (gone n) (inv.clean n x h d ∙ sym (page n d));
        cached = inv.cached;
        apart = inv.apart;
        room = rw ((journal_at-shorten j 0 small).1) (omega arith);
      },
      λ k. rw (gone k) (elim (Option-cases (m.nat_root k)) [
        | inl h ↦ rw h (page k (missing k h))
        | inr (x, h) ↦ rw h refl
      ]),
      gone,
    )

record IsJournalFlush (m : NmInfo) (r : Bool × NmInfo) : Type 0 where
  coherent : IsCoherent r.1
  same_view : (k : ℕ) → view r.1 k ≡ view m k
  emptied : IsEmptied r.0 r.1.journal

flush_nats_in_journal-IsJournalFlush :
    (m : NmInfo) → IsCoherent m → IsJournalFlush m (flush_nats_in_journal m)
unfolding flush_nats_in_journal
flush_nats_in_journal-IsJournalFlush m inv =
    let load =
      flush_journal_from-IsLoaded m.journal (m.journal).n 0 m inv refl (omega arith)
        (λ k low. absurd (omega arith)) in
    let m1 = flush_journal_from (m.journal).n 0 m in
    elim (Bool-cases (ltb (m.journal).n nat_journal_entries)) [
      | inl few ↦
          rw (flush_nats_in_journal, few)
            (record { coherent = inv; same_view = λ k. refl; emptied = λ h. absurd (ground arith) })
      | inr full ↦
          let it =
            emptied-IsCoherent m1 m.journal load.coherent load.same_journal
              (λ i low. load.now_dirty i (omega arith) low) in
          rw (flush_nats_in_journal, full)
            (subst (λ x. IsJournalFlush m (true, record m1 { journal = shorten x (m.journal).n }))
              (sym load.same_journal)
              (record {
                coherent = it.0;
                same_view = λ k. it.1 k ∙ load.same_view k;
                emptied = λ _. it.2;
              }))
    ]

not_promised : (m : NmInfo) (k : ℕ) → (view m k).block_addr ≢ new_addr → promised m k ≡ false
not_promised m k h = elim (Option-cases (m.nat_root k)) [
  | inl e ↦ rw e refl
  | inr (x, e) ↦
      let it : view m k ≡ raw_of x = view-found m k e in
      rw e (ground (arith, ap RawNat.block_addr it))
]

clean-disk_view :
    (m : NmInfo) (k : ℕ) → IsCoherent m → is_dirty m k ≡ false → disk_view m k ≡ view m k
clean-disk_view m k inv d = elim (Option-cases (m.nat_root k)) [
  | inl e ↦ rw e refl
  | inr (x, e) ↦ rw e (sym (inv.clean k x e d))
]

pub record IsCheckpointed (m r : NmInfo) : Type 0 where
  pub coherent : IsCoherent r
  pub same_view : (k : ℕ) → view r k ≡ view m k
  pub written : (k : ℕ) → (view m k).block_addr ≢ new_addr → disk_view r k ≡ view m k

-- On a coherent cache `flush_nat_entries` changes nothing that an id maps to and keeps the cache
-- coherent, and afterwards the disk alone maps every id that is not at `NEW_ADDR` as the cache and the
-- disk did together, whether the journal had room, was full or was emptied on the way.
pub flush_nat_entries-IsCheckpointed :
    (m : NmInfo) → IsCoherent m → IsCheckpointed m (flush_nat_entries m)
unfolding flush_nat_entries
flush_nat_entries-IsCheckpointed m inv =
    let first = flush_nats_in_journal-IsJournalFlush m inv in
    let m1 = (flush_nats_in_journal m).1 in
    let loop =
      flush_list-IsFlush (flush_nats_in_journal m).0 m1.dirty_nat_entries m1 first.coherent
        first.emptied in
    let m2 = flush_list (flush_nats_in_journal m).0 m1.dirty_nat_entries m1 in
    let last = try_to_free_nats-view m2 (m2.nat_cnt - nm_wout_threshold) loop.coherent in
    let seen : (k : ℕ) → view m2 k ≡ view m k = λ k. loop.same_view k ∙ first.same_view k in
    record {
      coherent = last.0;
      same_view = λ k. last.1 k ∙ seen k;
      written = λ k h.
          let open_slot : promised m1 k ≡ false = not_promised m1 k (rw (first.same_view k) h) in
          let d : is_dirty m2 k ≡ false = ground (arith, loop.settled k) in
          try_to_free_nats-disk_view m2 _ k ∙ clean-disk_view m2 k loop.coherent d ∙ seen k;
    }
