-- ===== src/Extent/Laws.antt =====
-- The extent cache never says anything of a block that the node blocks do not say.
use f2fs.Base.{
  ℕ, ◌+◌, ◌-◌, ◌*◌, ◌/◌, ◌^◌, ◌<◌, ◌≤◌, ◌≡◌, sym, ap, subst, ◌∙◌, true, false, ◌&&◌, arith, leb,
  ltb, ◌==◌, if◌then◌else◌, some, none, Bool-cases, inl, inr, sub64, add64, some_inj, none≢some,
}
use f2fs.Extent.{ExtentInfo, HitCounts, Mapping, end_fofs, check_extent_cache}

-- Each block of the run has the address that the extent gives it, and nothing wraps.
pub record IsExtent (addrs : ℕ → ℕ) (e : ExtentInfo) : Type 0 where
  pub fits : e.fofs + e.len < 2 ^ 32
  pub fits_blk : e.blk_addr + e.len < 2 ^ 32
  pub agrees : (i : ℕ) → i < e.len → addrs (e.fofs + i) ≡ e.blk_addr + i

-- The same, said of a block.
pub agrees_at :
    (addrs : ℕ → ℕ) (e : ExtentInfo) (k : ℕ)
    → IsExtent addrs e
    → e.fofs ≤ k
    → k < e.fofs + e.len
    → addrs k ≡ e.blk_addr + (k - e.fofs)
agrees_at addrs e k it low high =
    ap addrs {x = k} {y = e.fofs + (k - e.fofs)} (omega arith)
    ∙ it.agrees (k - e.fofs) (omega arith)

whole_blocks :
    (count b : ℕ)
    → 0 < b
    → (if ltb count ((2 ^ 32 - 1) / b) then count * b else 2 ^ 32 - 1) / b ≤ count
whole_blocks count b h = elim (Bool-cases (ltb count ((2 ^ 32 - 1) / b))) [
  | inl e ↦ rw e (grind arith)
  | inr e ↦ rw e (ground (arith, e))
]

-- On an extent that agrees with the addresses, `check_extent_cache` finds every block of the extent. What
-- it gives is the block's address, and as many whole blocks as it gives lie next to each other from
-- there on.
pub check_extent_cache-IsExtent :
    (blkbits : ℕ) (addrs : ℕ → ℕ) (e : ExtentInfo) (c : HitCounts) (pgofs : ℕ)
    → IsExtent addrs e
    → 0 < 2 ^ blkbits
    → let r = (check_extent_cache blkbits e c pgofs).0 in
      (r ≡ none → ¬ ((e.fofs ≤ pgofs) × (pgofs < e.fofs + e.len)))
      × ((m : Mapping)
          → r ≡ some m
          → (m.b_blocknr ≡ addrs pgofs)
            × ((i : ℕ) → i < m.b_size / 2 ^ blkbits → addrs (pgofs + i) ≡ m.b_blocknr + i))
unfolding check_extent_cache
check_extent_cache-IsExtent blkbits addrs e c pgofs it pos = elim (Bool-cases (e.len == 0)) [
  | inl z ↦
      rw (check_extent_cache, z) (λ _ q. ground (arith, z, q.0, q.1), λ m f. absurd (none≢some f))
  | inr z ↦ elim (Bool-cases (leb e.fofs pgofs && leb pgofs (end_fofs e))) [
    | inr out ↦
        rw (check_extent_cache, z, out)
          (λ _ q. ground (arith, z, out, q.0, q.1, it.fits), λ m f. absurd (none≢some f))
    | inl inside ↦
        rw (check_extent_cache, z, inside)
          (λ f. absurd (none≢some (sym f)), λ m f. subst (IsHit) (some_inj f) (hit z inside))
  ]
]
  where
    IsHit : Mapping → Type 0
    IsHit m =
        (m.b_blocknr ≡ addrs pgofs)
        × ((i : ℕ) → i < m.b_size / 2 ^ blkbits → addrs (pgofs + i) ≡ m.b_blocknr + i)

    count : ℕ
    count = end_fofs e - pgofs + 1

    hit :
        (e.len == 0) ≡ false
        → (leb e.fofs pgofs && leb pgofs (end_fofs e)) ≡ true
        → IsHit (record {
          b_blocknr = sub64 (add64 e.blk_addr pgofs) e.fofs;
          b_size =
              if ltb count ((2 ^ 32 - 1) / 2 ^ blkbits) then count * 2 ^ blkbits else 2 ^ 32 - 1;
        })
    hit z inside =
        let low : e.fofs ≤ pgofs = ground (arith, inside) in
        let high : (pgofs ≤ end_fofs e) = ground (arith, inside) in
        let whole = whole_blocks count (2 ^ blkbits) pos in
        let last : end_fofs e + 1 ≡ e.fofs + e.len = ground (arith, z, it.fits) in
        let here = agrees_at addrs e pgofs it low (omega arith) in
        let nr : sub64 (add64 e.blk_addr pgofs) e.fofs ≡ e.blk_addr + (pgofs - e.fofs) =
          omega (arith, it.fits, it.fits_blk) in
        (
          nr ∙ sym here,
          λ i q.
              let inside_i : i < end_fofs e - pgofs + 1 = omega (arith, whole, q) in
              let there =
                agrees_at addrs e (pgofs + i) it (omega arith) (omega (arith, inside_i)) in
              omega (arith, there, nr),
        )
