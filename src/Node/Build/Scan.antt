-- ===== src/Node/Build/Scan.antt =====
-- The scan of the NAT pages for free ids in `build_free_nids` of fs/f2fs/node.c: what it adds to the
-- list, and when it ends.
use f2fs.Base.{
  ℕ, zero, suc, ◌+◌, ◌-◌, ◌*◌, ◌%◌, ◌<◌, ◌≤◌, ◌≡◌, ◌≢◌, refl, ap, Bool, true, false, ◌||◌, some,
  arith, leb, ◌==◌, if◌then◌else◌, Bool-cases, inl, inr, Returns, Returns->>=, ℕ_discrete,
}
use f2fs.Segment.Geometry.{null_addr, new_addr}
use f2fs.Nat.{nat_entry_per_block}
use f2fs.Node.FreeNids.{FreeNids, nid_new, add_free_nid}
use f2fs.Node.FreeNids.Entries.{state_of}
use f2fs.Node.FreeNids.Laws.{IsFreeNids, add_free_nid-IsFreeNids}
use f2fs.Node.NatCache.{RawNat}
use f2fs.Node.Build.{ScanState, scan_entries, scan_nat_page, scan_round, scan_pages}

-- Ids that are on the list as new have no block in the pages.
abbrev pub IsScanned : (ℕ → RawNat) → FreeNids → Type 0
IsScanned pages f =
    IsFreeNids f
    × ((k : ℕ) → state_of k f.free_nid_list ≡ some nid_new → (pages k).block_addr ≡ null_addr)

pub next_page :
    (nid : ℕ)
    → let next = nid + (nat_entry_per_block - nid % nat_entry_per_block) in
      (next % nat_entry_per_block ≡ 0)
      × (nid < next)
      × (next ≤ nid + nat_entry_per_block)
      × (nid % nat_entry_per_block ≡ 0 → next ≡ nid + nat_entry_per_block)
next_page nid = (omega arith, omega arith, omega arith, λ h. omega arith)

module _ (pages : ℕ → RawNat) (settled : (k : ℕ) → (pages k).block_addr ≢ new_addr) where
  scan_entries-IsScanned :
      (left nid : ℕ) (f : FreeNids)
      → IsScanned pages f
      → Returns (λ r. IsScanned pages r.1) (scan_entries left pages nid f)
  unfolding scan_entries
  scan_entries-IsScanned zero nid f inv = inv
  scan_entries-IsScanned (suc left) nid f inv =
      let fine : ((pages nid).block_addr == new_addr) ≡ false = ground (arith, settled nid) in
      elim (Bool-cases ((pages nid).block_addr == null_addr)) [
        | inl free ↦
            let add = add_free_nid-IsFreeNids f nid inv.0 in
            let more : IsScanned pages (add_free_nid f nid).1 = (
              add.0,
              λ k h. elim (ℕ_discrete k nid) [
                | yes p ↦ ground (arith, ap (λ i. (pages i).block_addr) p)
                | no p ↦ inv.1 k (ground (arith, add.2 k))
              ],
            ) in
            rw (fine, free)
              (Returns->>= (λ (r : ℕ × FreeNids). IsScanned pages r.1)
                (λ (r : ℕ × FreeNids). IsScanned pages r.1) _ _
                (scan_entries-IsScanned left (nid + 1) (add_free_nid f nid).1 more) (λ r _ it. it))
        | inr used ↦
            rw (fine, used)
              (Returns->>= (λ (r : ℕ × FreeNids). IsScanned pages r.1)
                (λ (r : ℕ × FreeNids). IsScanned pages r.1) _ _
                (scan_entries-IsScanned left (nid + 1) f inv) (λ r _ it. it))
      ]

  scan_nat_page-IsScanned :
      (nid : ℕ) (f : FreeNids)
      → IsScanned pages f
      → Returns (λ r. IsScanned pages r.1) (scan_nat_page pages nid f)
  unfolding scan_nat_page
  scan_nat_page-IsScanned nid f inv = scan_entries-IsScanned _ _ f inv

  -- How much is left of the first round, and of the second.
  abbrev left_of : ℕ → ℕ → ℕ → Bool → ℕ
  left_of max_nid init nid cycled = if cycled then max_nid - nid else 2 * max_nid + 1 - nid

  -- What a round does.
  abbrev IsRound : ℕ → ℕ → ScanState → Bool × ScanState → Type 0
  IsRound max_nid init st r =
      let next = st.nid + (nat_entry_per_block - st.nid % nat_entry_per_block) in
      IsScanned pages r.1.free
      × (r.1.nid ≡ (if leb max_nid next then 0 else next))
      × (r.1.is_cycled ≡ (st.is_cycled || leb max_nid next))
      × (r.0 ≡ true → r.1.is_cycled ≡ true → r.1.nid < init)

  scan_round-IsRound :
      (max_nid init : ℕ) (st : ScanState)
      → IsScanned pages st.free
      → Returns (IsRound max_nid init st) (scan_round pages max_nid init st)
  unfolding scan_round
  scan_round-IsRound max_nid init st inv =
      Returns->>= (λ (r : ℕ × FreeNids). IsScanned pages r.1) (IsRound max_nid init st) _ _
        (scan_nat_page-IsScanned st.nid st.free inv)
        (λ r _ it. (it, refl, refl, λ again cycled. ground arith))

  -- From an id that is not in the last page the scan ends without a `BUG_ON`, if no address is
  -- `NEW_ADDR`, and what it adds has no block.
  pub scan_pages-IsScanned :
      (fuel max_nid init : ℕ) (st : ScanState)
      → max_nid % nat_entry_per_block ≡ 0
      → init + nat_entry_per_block ≤ max_nid
      → st.nid < max_nid
      → (st.is_cycled ≡ true → (st.nid < init) × (st.nid % nat_entry_per_block ≡ 0))
      → left_of max_nid init st.nid st.is_cycled < fuel
      → IsScanned pages st.free
      → Returns (λ r. IsScanned pages r.1) (scan_pages fuel pages max_nid init st)
  unfolding scan_pages
  scan_pages-IsScanned zero max_nid init st whole early low second enough inv = absurd (omega arith)
  scan_pages-IsScanned (suc fuel) max_nid init st whole early low second enough inv =
      let next = st.nid + (nat_entry_per_block - st.nid % nat_entry_per_block) in
      let after = next_page st.nid in
      Returns->>= (IsRound max_nid init st) (λ (r : ℕ × FreeNids). IsScanned pages r.1) _ _
        (scan_round-IsRound max_nid init st inv)
        (λ r _ it. elim (Bool-cases r.0) [
          | inr stop ↦ rw stop it.0
          | inl more ↦
              let aligned : r.1.nid % nat_entry_per_block ≡ 0 =
                elim (Bool-cases (leb max_nid next)) [
                  | inl wrap ↦ ground (arith, it.1)
                  | inr on ↦ ground (arith, it.1, after)
                ] in
              rw more (
                scan_pages-IsScanned fuel max_nid init r.1 whole early (ground (arith, it.1))
                  (λ h. (it.3 more h, aligned))
                  (elim (Bool-cases (leb max_nid next)) [
                    | inl wrap ↦ elim (Bool-cases st.is_cycled) [
                      | inl c ↦ absurd (ground (arith, second c, after))
                      | inr c ↦ ground (arith, it.1, it.2)
                    ]
                    | inr on ↦ elim (Bool-cases st.is_cycled) [
                      | inl c ↦ ground (arith, it.1, it.2, after)
                      | inr c ↦ ground (arith, it.1, it.2, after)
                    ]
                  ])
                  it.0)
        ])
