-- ===== src/Journal/Tests.antt =====
-- A journal with one entry.
use f2fs.Base.{ℕ, ◌≤◌, ◌≡◌, ◌↔◌, true, none, some, arith, ◌==◌, if◌then◌else◌}
use f2fs.Journal.{Journal, nat_journal_entries, lookup_journal_in_cursum, write_entry}
use f2fs.Journal.Laws.{journal_at, write_entry-lookup_journal_in_cursum}

abbrev one_entry : Journal ℕ
one_entry = record { n = 1; keys = λ k. 7; entries = λ k. 100 }

write_entry-lookup_journal_in_cursum_example :
    let r = lookup_journal_in_cursum nat_journal_entries one_entry 8 true in
    ((r.0 ≡ none) ↔ ((journal_at one_entry 8 ≡ none) × (1 ≡ nat_journal_entries)))
    × ((i : ℕ)
        → r.0 ≡ some i
        → ((write_entry r.1 i 8 200).n ≤ nat_journal_entries)
          × ((k : ℕ)
              → journal_at (write_entry r.1 i 8 200) k
                ≡ (if k == 8 then some 200 else journal_at one_entry k)))
write_entry-lookup_journal_in_cursum_example =
    write_entry-lookup_journal_in_cursum nat_journal_entries one_entry 8 200 (omega arith)
      (omega arith)
