-- ===== src/Journal.antt =====
-- The journals that a summary block carries: `nat_journal` and `sit_journal` of
-- include/linux/f2fs_fs.h, with `update_nats_in_cursum`, `update_sits_in_cursum` of
-- fs/f2fs/f2fs.h and `lookup_journal_in_cursum` of fs/f2fs/segment.c. Both have the same shape, a
-- count and an array of entries with a key; only the first `count` entries mean anything.
pub mod Laws
mod Tests
use f2fs.Base.{
  ℕ, zero, suc, ◌+◌, ◌-◌, ◌*◌, ◌/◌, ◌%◌, ◌^◌, Bool, true, false, ◌&&◌, Option, none, some, update,
  ltb, ◌==◌, if◌then◌else◌,
}

-- `SUM_JOURNAL_SIZE`: a page of 4096 bytes, less the footer of 5 and 512 summaries of 7.
abbrev pub sum_journal_size : ℕ
sum_journal_size = 4096 - 5 - 7 * 512

-- Entries of 4 + 9 and of 4 + 74 bytes.
abbrev pub nat_journal_entries : ℕ
nat_journal_entries = (sum_journal_size - 2) / 13

abbrev pub sit_journal_entries : ℕ
sit_journal_entries = (sum_journal_size - 2) / 78

module _ {ℓ} (E : Type ℓ) where
  pub record Journal : Type ℓ where
    -- `n_nats`, `n_sits`: 16 bits wide
    pub n : ℕ
    -- `nid`, `segno`
    pub keys : ℕ → ℕ
    pub entries : ℕ → E

-- The loop from entry `i` on, with `left` entries to go.
pub search_journal : (ℕ → ℕ) → ℕ → ℕ → ℕ → Option ℕ
search_journal keys val zero i = none
search_journal keys val (suc left) i =
    let rest = search_journal keys val left (i + 1) in if keys i == val then some i else rest

module _ {ℓ} {E : Type ℓ} where
  -- `update_nats_in_cursum(sum, 1)`, and with a negative count for the second.
  pub extend : Journal E → Journal E
  extend j = record j { n = (j.n + 1) % 2 ^ 16 }

  pub shorten : Journal E → ℕ → Journal E
  shorten j count = record j { n = (j.n + 2 ^ 16 - count) % 2 ^ 16 }

  -- The offset, and the journal, which has grown where `alloc` asked for room and there was some.
  pub lookup_journal_in_cursum : ℕ → Journal E → ℕ → Bool → Option ℕ × Journal E
  lookup_journal_in_cursum capacity j val alloc = elim (search_journal j.keys val j.n 0) [
    | some i ↦ (some i, j)
    | none ↦ if alloc && ltb j.n capacity then (some j.n, extend j) else (none, j)
  ]

  -- `nat_in_journal(sum, offset) = raw_ne; nid_in_journal(sum, offset) = nid`
  pub write_entry : Journal E → ℕ → ℕ → E → Journal E
  write_entry j offset key e = record j {
    keys = update j.keys offset key;
    entries = update j.entries offset e;
  }
