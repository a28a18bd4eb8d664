-- ===== src/Node/NatCache/Written.antt =====
-- The cache after one dirty entry has been written: marked as clean, or dropped where the node is gone.
use f2fs.Base.{
  ℕ, ◌≤◌, ◌≡◌, refl, ap, sym, ◌∙◌, Bool, true, false, ◌&&◌, ◌||◌, not, Option, none, some, [], ◌∷◌,
  ◌++◌, without, on_list, on_list-without, on_list-append, update, arith, ◌==◌, if◌then◌else◌,
  Option-cases, inl, inr, ℕ_discrete,
}
use f2fs.Journal.{Journal, lookup_journal_in_cursum, nat_journal_entries}
use f2fs.Journal.Laws.{journal_at}
use f2fs.Segment.Geometry.{new_addr}
use f2fs.Node.NatCache.{
  NodeInfo, NatEntry, RawNat, NmInfo, raw_of, write_raw, del_from_nat_cache, clear_nat_cache_dirty,
}
use f2fs.Node.NatCache.View.{disk_view, view, is_dirty, IsCoherent}

-- A cached promise, which is not written.
abbrev pub promised_entry : Option NatEntry → Bool
promised_entry none = false
promised_entry (some e) = (e.ni).blk_addr == new_addr

abbrev pub promised : NmInfo → ℕ → Bool
promised m k = promised_entry (m.nat_root k)

-- The journal was just emptied.
abbrev pub IsEmptied : Bool → Journal RawNat → Type 0
IsEmptied flushed j = flushed ≡ true → (k : ℕ) → journal_at j k ≡ none

-- `write_raw` leaves the cache as it is.
pub write_raw-cache :
    (flushed : Bool) (m : NmInfo) (nid : ℕ) (raw : RawNat)
    → ((write_raw flushed m nid raw).nat_root ≡ m.nat_root)
      × ((write_raw flushed m nid raw).nat_entries ≡ m.nat_entries)
      × ((write_raw flushed m nid raw).dirty_nat_entries ≡ m.dirty_nat_entries)
unfolding write_raw
write_raw-cache true m nid raw = (refl, refl, refl)
write_raw-cache false m nid raw =
    elim (Option-cases (lookup_journal_in_cursum nat_journal_entries m.journal nid true).0) [
      | inl e ↦ rw (write_raw, e) (refl, refl, refl)
      | inr (i, e) ↦ rw (write_raw, e) (refl, refl, refl)
    ]

-- The cache with an entry under its id that is what the disk has, taken off the dirty list.
pub settle-IsCoherent :
    (m m1 : NmInfo) (nid : ℕ) (e : NatEntry)
    → IsCoherent m
    → m.nat_root nid ≡ some e
    → m1.nat_root ≡ m.nat_root
    → m1.nat_entries ≡ m.nat_entries
    → m1.dirty_nat_entries ≡ m.dirty_nat_entries
    → (m1.journal).n ≤ nat_journal_entries
    → ((k : ℕ) → disk_view m1 k ≡ (if k == nid then raw_of e else disk_view m k))
    → let r =
        clear_nat_cache_dirty
          (record m1 {
            nat_root = update m1.nat_root nid (some (record e { checkpointed = true }));
          })
          nid in
      IsCoherent r
      × ((k : ℕ) → view r k ≡ view m k)
      × ((k : ℕ) → is_dirty r k ≡ (if k == nid then false else is_dirty m k))
      × ((k : ℕ) → promised r k ≡ promised m k)
unfolding clear_nat_cache_dirty on_list
settle-IsCoherent m m1 nid e inv here root clean_list dirty_list room disk =
    let off : (k : ℕ)
        → on_list k (without nid m.dirty_nat_entries) ≡ (if k == nid then false else is_dirty m k) =
      λ k. on_list-without k nid m.dirty_nat_entries in
    let on : (k : ℕ)
        → on_list k (without nid m.nat_entries ++ nid ∷ [])
          ≡ (k == nid || on_list k m.nat_entries) =
      λ k. ground (
        arith,
        on_list-without k nid m.nat_entries,
        on_list-append k (without nid m.nat_entries) (nid ∷ []),
      ) in
    rw (root, clean_list, dirty_list)
      (
        record {
          named = λ n x h. elim (ℕ_discrete n nid) [
            | yes p ↦ ground (
              arith,
              inv.named nid e here,
              ap NatEntry.ni {x = record e { checkpointed = true }} {y = x},
              ap NodeInfo.nid {x = e.ni} {y = x.ni},
            )
            | no p ↦ inv.named n x (ground arith)
          ];
          clean = λ n x h d. elim (ℕ_discrete n nid) [
            | yes p ↦
                let it : record e { checkpointed = true } ≡ x = ground arith in
                let d : disk_view m1 n ≡ raw_of e = ground (arith, disk n) in
                ap raw_of (sym it) ∙ sym d
            | no p ↦ ground (arith, inv.clean n x, off n, disk n)
          ];
          cached = λ n d h. inv.cached n (ground (arith, off n)) (ground (arith, off n));
          apart = λ n h. ground (arith, off n, on n, inv.apart n);
          room = room;
        },
        λ k. elim (ℕ_discrete k nid) [
          | yes p ↦ rw (p, here) (ground arith)
          | no p ↦ ground (arith, disk k)
        ],
        off,
        λ k. elim (ℕ_discrete k nid) [ yes p ↦ rw (p, here) (ground arith) | no p ↦ ground arith ],
      )

-- The cache without an entry, where the disk has what the entry had.
pub remove-IsCoherent :
    (m m1 : NmInfo) (nid : ℕ) (e : NatEntry)
    → IsCoherent m
    → m.nat_root nid ≡ some e
    → m1.nat_root ≡ m.nat_root
    → m1.nat_entries ≡ m.nat_entries
    → m1.dirty_nat_entries ≡ m.dirty_nat_entries
    → (m1.journal).n ≤ nat_journal_entries
    → ((k : ℕ) → disk_view m1 k ≡ (if k == nid then raw_of e else disk_view m k))
    → let r = del_from_nat_cache m1 nid in
      IsCoherent r
      × ((k : ℕ) → view r k ≡ view m k)
      × ((k : ℕ) → is_dirty r k ≡ (if k == nid then false else is_dirty m k))
      × (promised m nid ≡ false → (k : ℕ) → promised r k ≡ promised m k)
unfolding del_from_nat_cache
remove-IsCoherent m m1 nid e inv here root clean_list dirty_list room disk =
    let off : (k : ℕ)
        → on_list k (without nid m.dirty_nat_entries) ≡ (if k == nid then false else is_dirty m k) =
      λ k. on_list-without k nid m.dirty_nat_entries in
    let off' : (k : ℕ)
        → on_list k (without nid m.nat_entries)
          ≡ (if k == nid then false else on_list k m.nat_entries) =
      λ k. on_list-without k nid m.nat_entries in
    rw (root, clean_list, dirty_list)
      (
        record {
          named = λ n x h. inv.named n x (ground arith);
          clean = λ n x h d. elim (ℕ_discrete n nid) [
            | yes p ↦ ground arith
            | no p ↦ ground (arith, inv.clean n x, off n, disk n)
          ];
          cached = λ n d h. inv.cached n (ground (arith, off n)) (ground (arith, off n));
          apart = λ n h. ground (arith, off n, off' n, inv.apart n);
          room = room;
        },
        λ k. elim (ℕ_discrete k nid) [
          | yes p ↦ rw (p, here) (ground (arith, disk nid))
          | no p ↦ ground (arith, disk k)
        ],
        off,
        λ h k. elim (ℕ_discrete k nid) [ yes p ↦ rw (p, h) (ground arith) | no p ↦ ground arith ],
      )

-- The list of dirty ids after one of them has been written.
pub settled_one :
    (m : NmInfo) (nid k : ℕ) (after : Bool)
    → promised m nid ≡ false
    → after ≡ (if k == nid then false else is_dirty m k)
    → after ≡ (is_dirty m k && (promised m k || not (k == nid)))
settled_one m nid k after h e = elim (ℕ_discrete k nid) [
  | yes p ↦ rw (p, h) (ground arith)
  | no p ↦ ground arith
]

-- An emptied journal stays so.
pub write_raw-IsEmptied :
    (flushed : Bool) (m : NmInfo) (nid : ℕ) (raw : RawNat)
    → IsEmptied flushed m.journal
    → IsEmptied flushed (write_raw flushed m nid raw).journal
unfolding write_raw
write_raw-IsEmptied true m nid raw empty h = empty h
write_raw-IsEmptied false m nid raw empty h = ground arith
