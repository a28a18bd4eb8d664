-- ===== src/Extent/Tests.antt =====
-- An extent of four blocks, of which the third gets a new address.
use f2fs.Base.{ℕ, ◌+◌, ◌/◌, ◌^◌, ◌<◌, ◌≤◌, ◌≡◌, false, arith, none, some, update, Returns}
use f2fs.Extent.{ExtentInfo, Mapping, check_extent_cache, update_extent_cache}
use f2fs.Extent.Laws.{IsExtent, check_extent_cache-IsExtent}
use f2fs.Extent.Update.{update_extent_cache-IsExtent}

abbrev four : ExtentInfo
four = record { fofs = 10; blk_addr = 110; len = 4 }

four-IsExtent : IsExtent (λ k. k + 100) four
four-IsExtent = record { fits = omega arith; fits_blk = omega arith; agrees = λ i h. omega arith }

check_extent_cache-IsExtent_example :
    let r = (check_extent_cache 12 four (record { total_hit_ext = 0; read_hit_ext = 0 }) 11).0 in
    (r ≡ none → ¬ ((10 ≤ 11) × (11 < 14)))
    × ((m : Mapping)
        → r ≡ some m
        → (m.b_blocknr ≡ 111) × ((i : ℕ) → i < m.b_size / 2 ^ 12 → 11 + i + 100 ≡ m.b_blocknr + i))
check_extent_cache-IsExtent_example =
    check_extent_cache-IsExtent 12 (λ k. k + 100) four
      (record { total_hit_ext = 0; read_hit_ext = 0 }) 11 four-IsExtent (omega arith)

update_extent_cache-IsExtent_example :
    Returns
      (λ r.
        IsExtent (update (λ k. k + 100) 12 700) r.0
        × (r.1 ≡ false → r.0 ≡ four)
        × (r.2 ≡ update (λ k. k + 100) 12 700))
      (update_extent_cache four (λ k. k + 100) 12 700)
update_extent_cache-IsExtent_example =
    update_extent_cache-IsExtent (λ k. k + 100) four 12 700 four-IsExtent (omega arith)
      (omega arith)
