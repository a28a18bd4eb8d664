-- ===== src/Node/Build/Fill.antt =====
-- `build_free_nids` of fs/f2fs/node.c as a whole: the ids that it leaves on the list as new are ids of
-- no node, by the pages, the journal and the cache together.
use f2fs.Base.{
  ℕ, zero, suc, ◌+◌, ◌*◌, ◌%◌, ◌<◌, ◌≤◌, ◌≡◌, ◌≢◌, refl, ap, sym, ◌∙◌, false, Option, none, some,
  List, [], ◌∷◌, arith, ◌==◌, Bool-cases, Option-cases, inl, inr, Returns, Returns->>=, ℕ_discrete,
  none≢some,
}
use f2fs.Journal.{Journal}
use f2fs.Journal.Laws.{journal_at, journal_at-first, journal_at-cases}
use f2fs.Segment.Geometry.{null_addr, new_addr}
use f2fs.Nat.{nat_entry_per_block}
use f2fs.Node.FreeNids.{FreeNid, FreeNids, nid_new, add_free_nid, remove_free_nid}
use f2fs.Node.FreeNids.Entries.{state_of}
use f2fs.Node.FreeNids.Laws.{IsFreeNids, add_free_nid-IsFreeNids, remove_free_nid-IsFreeNids}
use f2fs.Node.NatCache.{NatEntry, RawNat, NmInfo}
use f2fs.Node.NatCache.View.{view, disk_view}
use f2fs.Node.Build.{take_journal, take_cached, in_use, build_free_nids}
use f2fs.Node.Build.Scan.{IsScanned, scan_pages-IsScanned}

abbrev IsNewIn : FreeNids → ℕ → Type 0
IsNewIn f k = state_of k f.free_nid_list ≡ some nid_new

-- No id has two entries in the journal.
abbrev pub IsDistinct : Journal RawNat → Type 0
IsDistinct j = (p q : ℕ) → p < q → q < j.n → j.keys p ≢ j.keys q

-- The list after some entries of the journal.
record IsMerged (pages : ℕ → RawNat) (j : Journal RawNat) (i : ℕ) (f : FreeNids) : Type 0 where
  list : IsFreeNids f
  by_journal :
      (k : ℕ) → IsNewIn f k → (q : ℕ) → q < i → j.keys q ≡ k → (j.entries q).block_addr ≡ null_addr
  by_page :
      (k : ℕ) → IsNewIn f k → ((q : ℕ) → q < i → j.keys q ≢ k) → (pages k).block_addr ≡ null_addr

module _ (pages : ℕ → RawNat) (j : Journal RawNat) (distinct : IsDistinct j) where
  take_journal-IsMerged :
      (left i : ℕ) (f : FreeNids)
      → i + left ≡ j.n
      → IsMerged pages j i f
      → IsMerged pages j j.n (take_journal left j i f)
  unfolding take_journal
  take_journal-IsMerged zero i f e inv =
      let same : i ≡ j.n = omega arith in
      record {
        list = inv.list;
        by_journal = λ k h q low. inv.by_journal k h q (omega arith);
        by_page = λ k h all. inv.by_page k h (λ q low. all q (omega arith));
      }
  take_journal-IsMerged (suc left) i f e inv =
      elim (Bool-cases ((j.entries i).block_addr == null_addr)) [
        | inl free ↦
            let add = add_free_nid-IsFreeNids f (j.keys i) inv.list in
            let old : (k : ℕ)
                → k ≢ j.keys i
                → IsNewIn (add_free_nid f (j.keys i)).1 k
                → IsNewIn f k =
              λ k p h. ground (arith, add.2 k) in
            rw free (
              take_journal-IsMerged left (i + 1) (add_free_nid f (j.keys i)).1 (omega arith)
                (record {
                  list = add.0;
                  by_journal = λ k h q low same. elim (ℕ_discrete q i) [
                    | yes p ↦ ground (arith, ap (λ x. (j.entries x).block_addr) p)
                    | no p ↦
                        inv.by_journal k
                          (old k (λ s. distinct q i (omega arith) (omega arith) (same ∙ s)) h) q
                          (omega arith) same
                  ];
                  by_page = λ k h all.
                      inv.by_page k (old k (λ s. all i (omega arith) (sym s)) h)
                        (λ q low. all q (omega arith));
                }))
        | inr used ↦
            let del = remove_free_nid-IsFreeNids f (j.keys i) inv.list in
            let old : (k : ℕ)
                → IsNewIn (remove_free_nid f (j.keys i)) k
                → IsNewIn f k × (k ≢ j.keys i) =
              λ k h. (
                ground (arith, del.1 k),
                λ s. ground (arith, del.1 k, ap (λ x. state_of x f.free_nid_list) s),
              ) in
            rw used (
              take_journal-IsMerged left (i + 1) (remove_free_nid f (j.keys i)) (omega arith)
                (record {
                  list = del.0;
                  by_journal = λ k h q low same. elim (ℕ_discrete q i) [
                    | yes p ↦ absurd ((old k h).1 (sym same ∙ ap j.keys p))
                    | no p ↦ inv.by_journal k (old k h).0 q (omega arith) same
                  ];
                  by_page = λ k h all. inv.by_page k (old k h).0 (λ q low. all q (omega arith));
                }))
      ]

-- The list after the ids that the cache has in use are taken off.
record IsPruned (nat_root : ℕ → Option NatEntry) (l : List FreeNid) (f r : FreeNids) : Type 0 where
  list : IsFreeNids r
  still : (k : ℕ) → IsNewIn r k → IsNewIn f k
  unused : (k : ℕ) → IsNewIn r k → state_of k l ≢ none → in_use (nat_root k) ≡ false

take_cached-IsPruned :
    (nat_root : ℕ → Option NatEntry) (l : List FreeNid) (f : FreeNids)
    → IsFreeNids f
    → IsPruned nat_root l f (take_cached nat_root l f)
unfolding take_cached state_of
take_cached-IsPruned nat_root [] f inv = record {
  list = inv;
  still = λ k h. h;
  unused = λ k h s. absurd (s refl);
}
take_cached-IsPruned nat_root (i ∷ rest) f inv = elim (Bool-cases (in_use (nat_root i.nid))) [
  | inl used ↦
      let del = remove_free_nid-IsFreeNids f i.nid inv in
      let later = take_cached-IsPruned nat_root rest (remove_free_nid f i.nid) del.0 in
      let old : (k : ℕ) → IsNewIn (remove_free_nid f i.nid) k → IsNewIn f k × (k ≢ i.nid) = λ k h. (
        ground (arith, del.1 k),
        λ s. ground (arith, del.1 k, ap (λ x. state_of x f.free_nid_list) s),
      ) in
      rw used (record {
        list = later.list;
        still = λ k h. (old k (later.still k h)).0;
        unused = λ k h s. later.unused k h (λ z. ground (arith, (old k (later.still k h)).1));
      })
  | inr unused ↦
      let later = take_cached-IsPruned nat_root rest f inv in
      rw unused (record {
        list = later.list;
        still = later.still;
        unused = λ k h s. elim (ℕ_discrete k i.nid) [
          | yes p ↦ ap (λ x. in_use (nat_root x)) p ∙ unused
          | no p ↦ later.unused k h (λ z. ground arith)
        ];
      })
]

-- With no new id on the list, no `NEW_ADDR` in the pages and no id twice in the journal, from an id that
-- is not in the last page: `build_free_nids` ends without a `BUG_ON`, keeps the list's entries distinct
-- and its count right, and every id that is then new has no block by the cache, the journal and the
-- pages together.
pub build_free_nids-view :
    (m : NmInfo) (max_nid next_scan_nid : ℕ)
    → IsFreeNids m.free
    → ((k : ℕ) → state_of k m.free.free_nid_list ≢ some nid_new)
    → ((k : ℕ) → (m.nat_pages k).block_addr ≢ new_addr)
    → IsDistinct m.journal
    → max_nid % nat_entry_per_block ≡ 0
    → next_scan_nid + nat_entry_per_block ≤ max_nid
    → Returns
        (λ r.
          IsFreeNids r.1.free
          × ((k : ℕ)
              → state_of k r.1.free.free_nid_list ≡ some nid_new
              → (view m k).block_addr ≡ null_addr))
        (build_free_nids m max_nid next_scan_nid)
unfolding build_free_nids
build_free_nids-view m max_nid next_scan_nid inv used_up settled distinct whole early =
    Returns->>= (λ (r : ℕ × FreeNids). IsScanned m.nat_pages r.1) _ _ _
      (scan_pages-IsScanned m.nat_pages settled (2 * max_nid + 2) max_nid next_scan_nid
        (record { nid = next_scan_nid; is_cycled = false; fcnt = 0; free = m.free }) whole early
        (omega arith) (λ h. absurd (ground arith)) (omega arith) (inv, λ k h. absurd (used_up k h)))
      (λ r _ it.
        let merge =
          take_journal-IsMerged m.nat_pages m.journal distinct (m.journal).n 0 r.1 (omega arith)
            (record {
              list = it.0;
              by_journal = λ k h q low. absurd (omega arith);
              by_page = λ k h _. it.1 k h;
            }) in
        let f = take_journal (m.journal).n m.journal 0 r.1 in
        let prune = take_cached-IsPruned m.nat_root f.free_nid_list f merge.list in
        let disk : (k : ℕ) → IsNewIn f k → (disk_view m k).block_addr ≡ null_addr = λ k h.
          elim (journal_at-cases m.journal k) [
            | inl e ↦
                let missing : (q : ℕ) → q < (m.journal).n → (m.journal).keys q ≢ k = λ q low s.
                  absurd (
                    none≢some (
                      sym e
                      ∙ ap (journal_at m.journal) (sym s)
                      ∙ journal_at-first m.journal q low (λ p below. distinct p q below low))) in
                rw e (merge.by_page k h missing)
            | inr (q, low, s) ↦
                let at =
                  ap (journal_at m.journal) (sym s)
                  ∙ journal_at-first m.journal q low (λ p below. distinct p q below low) in
                rw at (merge.by_journal k h q low s)
          ] in
        (
          prune.list,
          λ k h.
              let before = prune.still k h in
              let idle = prune.unused k h (λ z. none≢some (sym z ∙ before)) in
              elim (Option-cases (m.nat_root k)) [
                | inl e ↦ rw e (disk k before)
                | inr (x, e) ↦ rw e (ground (arith, idle, ap in_use e))
              ],
        ))
