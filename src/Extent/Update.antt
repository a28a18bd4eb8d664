-- ===== src/Extent/Update.antt =====
-- `update_extent_cache` of fs/f2fs/data.c keeps the extent in agreement with the addresses.
use f2fs.Base.{
  ℕ, ◌+◌, ◌-◌, ◌/◌, ◌^◌, ◌<◌, ◌≤◌, ◌≡◌, refl, sym, ◌∙◌, Bool, false, ◌&&◌, arith, leb, ltb, ◌==◌,
  update, Bool-cases, inl, inr, ℕ_discrete, ◌⊎◌, false≢true, sub64, add64, Returns,
}
use f2fs.Segment.Geometry.{new_addr}
use f2fs.Extent.{
  ExtentInfo, end_fofs, end_blkaddr, drop_single, split, update_run, update_extent,
  update_extent_cache,
}
use f2fs.Extent.Laws.{IsExtent, agrees_at}

module _ (addrs : ℕ → ℕ) (e : ExtentInfo) (fofs blk_addr : ℕ) (it : IsExtent addrs e)
    (h : fofs + 1 < 2 ^ 32) (p : blk_addr + 1 < 2 ^ 32) where
  abbrev IsUpdated : ExtentInfo → Type 0
  IsUpdated = IsExtent (update addrs fofs blk_addr)

  -- A part of the run without the block.
  part :
      (e' : ExtentInfo)
      → e.fofs ≤ e'.fofs
      → e'.fofs + e'.len ≤ e.fofs + e.len
      → e'.blk_addr + e.fofs ≡ e.blk_addr + e'.fofs
      → ((fofs < e'.fofs) ⊎ (e'.fofs + e'.len ≤ fofs))
      → IsUpdated e'
  part e' low high same out = record {
    fits = omega (arith, it.fits);
    fits_blk = omega (arith, it.fits_blk);
    agrees = λ i q.
        let there = agrees_at addrs e (e'.fofs + i) it (omega arith) (omega arith) in
        let other : (e'.fofs + i == fofs) ≡ false = ground (arith, out) in
        rw other (there ∙ omega arith);
  }

  -- The block alone, or nothing.
  alone : (e' : ExtentInfo) → e'.fofs ≡ fofs → e'.blk_addr ≡ blk_addr → e'.len ≡ 1 → IsUpdated e'
  alone e' x y z = record {
    fits = omega arith;
    fits_blk = omega arith;
    agrees = λ i q. ground arith;
  }

  nothing :
      (e' : ExtentInfo) → e'.fofs ≡ e.fofs → e'.blk_addr ≡ e.blk_addr → e'.len ≡ 0 → IsUpdated e'
  nothing e' x y z = record {
    fits = omega (arith, it.fits);
    fits_blk = omega (arith, it.fits_blk);
    agrees = λ i q. absurd (omega arith);
  }

  -- The block before the run, or behind it.
  front :
      (e' : ExtentInfo)
      → fofs + 1 ≡ e.fofs
      → blk_addr + 1 ≡ e.blk_addr
      → e'.fofs ≡ fofs
      → e'.blk_addr ≡ blk_addr
      → e'.len ≡ e.len + 1
      → IsUpdated e'
  front e' x y a b c = record {
    fits = omega (arith, it.fits);
    fits_blk = omega (arith, it.fits_blk);
    agrees = λ i q. elim (ℕ_discrete i 0) [
      | yes z ↦ ground arith
      | no z ↦
          let there = agrees_at addrs e (e'.fofs + i) it (omega arith) (omega arith) in
          ground (arith, there)
    ];
  }

  back :
      (e' : ExtentInfo)
      → fofs ≡ e.fofs + e.len
      → blk_addr ≡ e.blk_addr + e.len
      → e'.fofs ≡ e.fofs
      → e'.blk_addr ≡ e.blk_addr
      → e'.len ≡ e.len + 1
      → IsUpdated e'
  back e' x y a b c = record {
    fits = omega (arith, it.fits);
    fits_blk = omega (arith, it.fits_blk);
    agrees = λ i q. elim (ℕ_discrete i e.len) [
      | yes z ↦ ground arith
      | no z ↦
          let there = agrees_at addrs e (e'.fofs + i) it (omega arith) (omega arith) in
          ground (arith, there)
    ];
  }

  split-IsUpdated : 1 < e.len → e.fofs ≤ fofs → fofs < e.fofs + e.len → IsUpdated (split e fofs)
  unfolding split
  split-IsUpdated x y z = elim (Bool-cases (ltb (end_fofs e - fofs) (e.len / 2))) [
    | inl c ↦
        rw (split, c)
          (part _ (omega arith) (omega (arith, it.fits, x, y, z)) (omega arith)
            (inr (omega (arith, it.fits, x, y, z))))
    | inr c ↦
        rw (split, c)
          (part _ (omega (arith, it.fits, h, x, y, z)) (omega (arith, it.fits, h, x, y, z))
            (omega (arith, it.fits, it.fits_blk, h, x, y, z)) (inl (omega (arith, it.fits, h))))
  ]

  -- Where the extent is not dropped.
  abbrev IsRight : ExtentInfo × Bool → Type 0
  IsRight r = IsUpdated r.0 × (r.1 ≡ false → r.0 ≡ e)

  run-IsRight :
      (e.len == 0) ≡ false
      → (e.len == 1 && fofs == e.fofs) ≡ false
      → IsRight (update_run e e fofs blk_addr)
  unfolding update_run
  run-IsRight full single =
      elim (Bool-cases (fofs == sub64 e.fofs 1 && blk_addr == sub64 e.blk_addr 1)) [
        | inl c ↦
            let facts : (fofs ≡ sub64 e.fofs 1) × (blk_addr ≡ sub64 e.blk_addr 1) =
              ground (arith, c) in
            let (x, y) = before facts.0 facts.1 in
            rw (update_run, c)
              (
                front _ x y (omega (arith, it.fits)) (omega (arith, it.fits_blk))
                    (omega (arith, it.fits)),
                λ f. absurd (false≢true (sym f)),
              )
        | inr c ↦
            elim (Bool-cases
              (fofs == add64 (end_fofs e) 1 && blk_addr == add64 (end_blkaddr e) 1)) [
                | inl c2 ↦
                    rw (update_run, c, c2)
                      (
                        back _ (ground (arith, c2, full, it.fits))
                            (ground (arith, c2, full, it.fits_blk)) refl refl
                            (let x : fofs ≡ e.fofs + e.len = ground (arith, c2, full, it.fits) in
                              omega (arith, x, h)),
                        λ f. absurd (false≢true (sym f)),
                      )
                | inr c2 ↦
                    elim (Bool-cases (ltb 1 e.len && leb e.fofs fofs && leb fofs (end_fofs e))) [
                      | inl c3 ↦
                          rw (update_run, c, c2, c3)
                            (
                              split-IsUpdated (ground (arith, c3)) (ground (arith, c3))
                                  (ground (arith, c3, it.fits)),
                              λ f. absurd (false≢true (sym f)),
                            )
                      | inr c3 ↦
                          rw (update_run, c, c2, c3)
                            (
                              part e (omega arith) (omega arith) (omega arith) (outside c3),
                              λ _. refl,
                            )
                    ]
              ]
      ]
    where
      before :
          fofs ≡ sub64 e.fofs 1
          → blk_addr ≡ sub64 e.blk_addr 1
          → (fofs + 1 ≡ e.fofs) × (blk_addr + 1 ≡ e.blk_addr)
      before x y = omega (arith, it.fits, it.fits_blk)

      outside :
          (ltb 1 e.len && leb e.fofs fofs && leb fofs (end_fofs e)) ≡ false
          → (fofs < e.fofs) ⊎ (e.fofs + e.len ≤ fofs)
      outside c3 = ground (arith, c3, full, single, it.fits)

  update_extent-IsRight : IsRight (update_extent e fofs blk_addr)
  unfolding update_extent drop_single
  update_extent-IsRight = elim (Bool-cases (e.len == 1 && fofs == e.fofs)) [
    | inl single ↦
        rw (update_extent, drop_single, single)
          (elim (Bool-cases (blk_addr == 0)) [
            | inl c ↦ rw c (nothing _ refl refl refl, λ f. absurd (false≢true (sym f)))
            | inr c ↦ rw c (
              alone _ (omega (arith, h)) (omega (arith, p)) refl,
              λ f. absurd (false≢true (sym f)),
            )
          ])
    | inr single ↦ elim (Bool-cases (e.len == 0)) [
      | inl c ↦
          rw (update_extent, drop_single, single, c)
            (elim (Bool-cases (blk_addr == 0)) [
              | inl c2 ↦
                  rw c2 (nothing e refl refl (ground (arith, c)), λ f. absurd (false≢true (sym f)))
              | inr c2 ↦ rw c2 (
                alone _ (omega (arith, h)) (omega (arith, p)) refl,
                λ f. absurd (false≢true (sym f)),
              )
            ])
      | inr c ↦ rw (update_extent, drop_single, single, c) (run-IsRight c single)
    ]
  ]

-- Where the extent agrees with the addresses and the new address and the file offset stay
-- below 2^32 - 1, `update_extent_cache` meets no `BUG_ON`, sets the address of
-- that block and of no other, and the extent agrees with the new addresses; it changes only where the
-- inode page is to be brought up to date.
pub update_extent_cache-IsExtent :
    (addrs : ℕ → ℕ) (e : ExtentInfo) (fofs blk_addr : ℕ)
    → IsExtent addrs e
    → fofs + 1 < 2 ^ 32
    → blk_addr + 1 < 2 ^ 32
    → Returns
        (λ r.
          IsExtent (update addrs fofs blk_addr) r.0
          × (r.1 ≡ false → r.0 ≡ e)
          × (r.2 ≡ update addrs fofs blk_addr))
        (update_extent_cache e addrs fofs blk_addr)
unfolding update_extent_cache
update_extent_cache-IsExtent addrs e fofs blk_addr it h p =
    let fine : (blk_addr == new_addr) ≡ false = ground arith in
    let (right, kept) = update_extent-IsRight addrs e fofs blk_addr it h p in
    rw (update_extent_cache, fine) (right, kept, refl)
