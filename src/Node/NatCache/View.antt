-- ===== src/Node/NatCache/View.antt =====
-- What the cache of node addresses stands for: a map from ids to addresses, of which the disk holds
-- one copy (the journal before the NAT blocks) and the cache the changes to it. How single steps of
-- fs/f2fs/node.c change the two.
use f2fs.Base.{
  ℕ, ◌≤◌, ◌≡◌, ◌≢◌, refl, Bool, true, false, Option, none, some, on_list, arith, ◌==◌,
  if◌then◌else◌, Option-cases, inl, inr, ℕ_discrete,
}
use f2fs.Journal.{lookup_journal_in_cursum, nat_journal_entries}
use f2fs.Journal.Laws.{
  journal_at, lookup_journal_in_cursum-find, write_entry-lookup_journal_in_cursum,
}
use f2fs.Node.NatCache.{NatEntry, RawNat, NmInfo, raw_of, stored, write_raw}

abbrev pub or_page : Option RawNat → RawNat → RawNat
or_page none page = page
or_page (some raw) page = raw

-- What the disk has for an id.
abbrev pub disk_view : NmInfo → ℕ → RawNat
disk_view m nid = or_page (journal_at m.journal nid) (m.nat_pages nid)

abbrev pub cached_or : Option NatEntry → RawNat → RawNat
cached_or none raw = raw
cached_or (some e) raw = raw_of e

-- What an id maps to.
abbrev pub view : NmInfo → ℕ → RawNat
view m nid = cached_or (m.nat_root nid) (disk_view m nid)

abbrev pub is_dirty : NmInfo → ℕ → Bool
is_dirty m nid = on_list nid m.dirty_nat_entries

-- Entries stand under their own id, a clean one agrees with the disk, the lists are of entries and
-- share none, and the journal is within its room.
pub record IsCoherent (m : NmInfo) : Type 0 where
  pub named : (n : ℕ) (e : NatEntry) → m.nat_root n ≡ some e → (e.ni).nid ≡ n
  pub clean :
      (n : ℕ) (e : NatEntry)
      → m.nat_root n ≡ some e
      → is_dirty m n ≡ false
      → raw_of e ≡ disk_view m n
  pub cached : (n : ℕ) → is_dirty m n ≡ true → m.nat_root n ≢ none
  pub apart : (n : ℕ) → on_list n m.nat_entries ≡ true → is_dirty m n ≡ false
  pub room : (m.journal).n ≤ nat_journal_entries

-- `stored` is what the disk has.
pub stored-disk_view : (m : NmInfo) (nid : ℕ) → stored m nid ≡ disk_view m nid
unfolding stored
stored-disk_view m nid =
    let found = lookup_journal_in_cursum-find nat_journal_entries m.journal nid in
    elim (Option-cases (lookup_journal_in_cursum nat_journal_entries m.journal nid false).0) [
      | inl e ↦ let nothing = found.1.0 e in rw (stored, e, nothing) refl
      | inr (i, e) ↦ let it = found.2 i e in rw (stored, e, it.1) refl
    ]

-- A write of one entry changes what the disk has for that id only, and touches neither the cache nor
-- the free ids.
pub write_raw-disk_view :
    (flushed : Bool) (m : NmInfo) (nid : ℕ) (raw : RawNat)
    → (m.journal).n ≤ nat_journal_entries
    → (flushed ≡ true → (k : ℕ) → journal_at m.journal k ≡ none)
    → let r = write_raw flushed m nid raw in
      ((k : ℕ) → disk_view r k ≡ (if k == nid then raw else disk_view m k))
      × ((r.journal).n ≤ nat_journal_entries)
      × (flushed ≡ true → r.journal ≡ m.journal)
unfolding write_raw
write_raw-disk_view true m nid raw within empty =
    (λ k. rw (empty refl k) (ground arith), within, λ _. refl)
write_raw-disk_view false m nid raw within empty =
    let put =
      write_entry-lookup_journal_in_cursum nat_journal_entries m.journal nid raw (omega arith)
        within in
    elim (Option-cases (lookup_journal_in_cursum nat_journal_entries m.journal nid true).0) [
      | inl e ↦
          let nothing = ((put.0).0 e).0 in
          rw (write_raw, e)
            (
              λ k. elim (ℕ_discrete k nid) [
                | yes p ↦ rw (p, nothing) (ground arith)
                | no p ↦ ground arith
              ],
              within,
              λ h. ground arith,
            )
      | inr (i, e) ↦
          let it = put.1 i e in
          rw (write_raw, e)
            (
              λ k.
                  rw (it.1 k)
                    (elim (ℕ_discrete k nid) [ yes p ↦ ground arith | no p ↦ ground arith ]),
              it.0,
              λ h. ground arith,
            )
    ]
