-- ===== src/Node/Build/Endless.antt =====
-- The scan of the NAT pages for free ids in `build_free_nids` of fs/f2fs/node.c, where it does not end.
use f2fs.Base.{
  ℕ, zero, suc, ◌+◌, ◌-◌, ◌%◌, ◌<◌, ◌≤◌, ◌≡◌, ◌≢◌, ◌⊎◌, refl, Bool, true, false, ◌&&◌, ◌||◌, none,
  some, arith, ltb, leb, ◌==◌, if◌then◌else◌, Bool-cases, inl, inr,
}
use f2fs.Segment.Geometry.{null_addr, new_addr}
use f2fs.Nat.{nat_entry_per_block}
use f2fs.Node.FreeNids.{FreeNids, max_free_nids}
use f2fs.Node.NatCache.{RawNat}
use f2fs.Node.Build.{ScanState, scan_entries, scan_nat_page, scan_round, scan_pages}
use f2fs.Node.Build.Scan.{next_page}

-- Rounds of the loop, one after the other, each of which goes on.
pub data Rounds (pages : ℕ → RawNat) (max_nid init : ℕ) : ℕ → ScanState → ScanState → Type 0 where
  start : (st : ScanState) → Rounds pages max_nid init 0 st st
  again :
      {n : ℕ} {st u t : ScanState}
      → scan_round pages max_nid init st ≡ some (true, u)
      → Rounds pages max_nid init n u t
      → Rounds pages max_nid init (suc n) st t

-- On pages without a free id a page adds none.
scan_entries-full :
    (pages : ℕ → RawNat) (left nid : ℕ) (f : FreeNids)
    → ((k : ℕ) → (pages k).block_addr ≢ null_addr)
    → ((k : ℕ) → (pages k).block_addr ≢ new_addr)
    → scan_entries left pages nid f ≡ some (0, f)
unfolding scan_entries
scan_entries-full pages zero nid f full settled = refl
scan_entries-full pages (suc left) nid f full settled =
    let used : ((pages nid).block_addr == null_addr) ≡ false = ground (arith, full nid) in
    let fine : ((pages nid).block_addr == new_addr) ≡ false = ground (arith, settled nid) in
    rw (scan_entries, used, fine, scan_entries-full pages left (nid + 1) f full settled) refl

abbrev pub scan_at : ℕ → Bool → FreeNids → ScanState
scan_at nid cycled f = record { nid = nid; is_cycled = cycled; fcnt = 0; free = f }

module _ (pages : ℕ → RawNat) (max_nid init : ℕ) (f : FreeNids)
    (full : (k : ℕ) → (pages k).block_addr ≢ null_addr)
    (settled : (k : ℕ) → (pages k).block_addr ≢ new_addr)
    (whole : max_nid % nat_entry_per_block ≡ 0) (low : init < max_nid)
    (last : max_nid < init + nat_entry_per_block) where
  -- The first round, or a later one, which starts at the first id of a page.
  abbrev IsOnTheWay : ℕ → Bool → Type 0
  IsOnTheWay nid cycled =
      ((nid ≡ init) × (cycled ≡ false))
      ⊎ ((nid % nat_entry_per_block ≡ 0) × (nid + nat_entry_per_block ≤ max_nid))

  abbrev next_nid : ℕ → ℕ
  next_nid nid =
      let next = nid + (nat_entry_per_block - nid % nat_entry_per_block) in
      if leb max_nid next then 0 else next

  abbrev next_cycled : ℕ → Bool → Bool
  next_cycled nid cycled =
      cycled || leb max_nid (nid + (nat_entry_per_block - nid % nat_entry_per_block))

  next-IsOnTheWay :
      (nid : ℕ) (cycled : Bool)
      → IsOnTheWay nid cycled
      → (next_nid nid < init)
        × (next_nid nid % nat_entry_per_block ≡ 0)
        × (next_nid nid + nat_entry_per_block ≤ max_nid)
  next-IsOnTheWay nid cycled at =
      let next = nid + (nat_entry_per_block - nid % nat_entry_per_block) in
      let after = next_page nid in
      let some_id : 0 < init = omega arith in
      elim (Bool-cases (leb max_nid next)) [
        | inl wrap ↦ rw wrap (some_id, omega arith, omega arith)
        | inr stays ↦
            let below : next < max_nid = ground arith in
            elim at [
              | inl (e, c) ↦ absurd (omega (arith, e, after, below))
              | inr (e, room) ↦
                  rw stays (omega (arith, after, below), after.0, omega (arith, after, below))
            ]
      ]

  goes_on :
      (nid : ℕ) (cycled : Bool)
      → IsOnTheWay nid cycled
      → scan_round pages max_nid init (scan_at nid cycled f)
        ≡ some (true, scan_at (next_nid nid) (next_cycled nid cycled) f)
  unfolding scan_round scan_nat_page
  goes_on nid cycled at =
      let start_nid = if nid == 0 then 1 else nid in
      let here = next-IsOnTheWay nid cycled at in
      let e =
        scan_entries-full pages (nat_entry_per_block - start_nid % nat_entry_per_block) start_nid f
          full settled in
      let stay : (ltb max_free_nids 0 || next_cycled nid cycled && leb init (next_nid nid))
          ≡ false =
        ground (arith, here) in
      rw (e, stay) refl

  each_goes_on :
      (n nid : ℕ) (cycled : Bool)
      → IsOnTheWay nid cycled
      → ((t : ScanState) × Rounds pages max_nid init n (scan_at nid cycled f) t × (t.free ≡ f))
        × (scan_pages n pages max_nid init (scan_at nid cycled f) ≡ none)
  unfolding scan_pages
  each_goes_on zero nid cycled at =
      ((scan_at nid cycled f, start (scan_at nid cycled f), refl), refl)
  each_goes_on (suc n) nid cycled at =
      let e = goes_on nid cycled at in
      let there = next-IsOnTheWay nid cycled at in
      let (going, stuck) =
        each_goes_on n (next_nid nid) (next_cycled nid cycled) (inr (there.1, there.2)) in
      ((going.0, again e going.1, going.2), rw (e, stuck) refl)

  -- On a volume whose ids fill whole pages, with no address in the pages that is `NULL_ADDR` or `NEW_ADDR`,
  -- from an id in the last page but not the first of it, the scan goes on for ever: whatever number of
  -- rounds is run, each of them meets no `BUG_ON` and goes on, and the list is what it was. So no fuel
  -- gives `scan_pages` a result.
  pub Rounds-endless :
      (n : ℕ)
      → ((t : ScanState) × Rounds pages max_nid init n (scan_at init false f) t × (t.free ≡ f))
        × (scan_pages n pages max_nid init (scan_at init false f) ≡ none)
  Rounds-endless n = each_goes_on n init false (inl (refl, refl))
