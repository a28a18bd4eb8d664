-- ===== src/Node/NatCache/Tests.antt =====
-- A cache with a dirty entry, and an id that only the journal has.
use f2fs.Base.{
  ◌≡◌, ◌↔◌, refl, ap, true, false, none, some, [], ◌∷◌, arith, update, on_list, ℕ_discrete, Returns,
}
use f2fs.Node.NatCache.{NodeInfo, NatEntry, NmInfo, get_node_info, set_node_addr, flush_nat_entries}
use f2fs.Node.NatCache.View.{IsCoherent}
use f2fs.Node.NatCache.Lookup.{IsLookup, get_node_info-IsLookup}
use f2fs.Node.NatCache.Address.{IsAddressed, may_follow, set_node_addr-IsAddressed}
use f2fs.Node.NatCache.Checkpoint.{IsCheckpointed, flush_nat_entries-IsCheckpointed}

abbrev dirty_entry : NatEntry
dirty_entry = record {
  ni = record { nid = 8; ino = 8; blk_addr = 200; version = 1 };
  checkpointed = true;
}

abbrev cache : NmInfo
cache = record {
  nat_root = update (λ k. none) 8 (some dirty_entry);
  nat_entries = [];
  dirty_nat_entries = 8 ∷ [];
  nat_cnt = 1;
  journal = record {
    n = 1;
    keys = λ k. 7;
    entries = λ k. record { version = 0; ino = 7; block_addr = 100 };
  };
  nat_pages = λ k. record { version = 0; ino = 0; block_addr = 0 };
  free = record { free_nid_list = []; fcnt = 0 };
}

cache-IsCoherent : IsCoherent cache
unfolding on_list
cache-IsCoherent = record {
  named = λ n e h. elim (ℕ_discrete n 8) [
    | yes p ↦ ground (
      arith,
      ap NatEntry.ni {x = dirty_entry} {y = e},
      ap NodeInfo.nid {x = dirty_entry.ni} {y = e.ni},
    )
    | no p ↦ absurd (ground arith)
  ];
  clean = λ n e h d. elim (ℕ_discrete n 8) [
    | yes p ↦ absurd (ground arith)
    | no p ↦ absurd (ground arith)
  ];
  cached = λ n d h. absurd (ground arith);
  apart = λ n h. absurd (ground arith);
  room = omega arith;
}

get_node_info-IsLookup_example : IsLookup cache 7 (get_node_info cache 7)
get_node_info-IsLookup_example = get_node_info-IsLookup cache 7 cache-IsCoherent

flush_nat_entries-IsCheckpointed_example : IsCheckpointed cache (flush_nat_entries cache)
flush_nat_entries-IsCheckpointed_example = flush_nat_entries-IsCheckpointed cache cache-IsCoherent

set_node_addr-IsAddressed_example :
    ((set_node_addr cache dirty_entry.ni 300 ≡ none) ↔ (may_follow 200 300 ≡ false))
    × (may_follow 200 300 ≡ true
        → Returns (IsAddressed cache dirty_entry.ni 300) (set_node_addr cache dirty_entry.ni 300))
set_node_addr-IsAddressed_example =
    set_node_addr-IsAddressed cache dirty_entry.ni 300 cache-IsCoherent refl
      (λ h. absurd (ground arith))
