-- ===== src/Node/Build/Tests.antt =====
-- A table of two pages of ids: without a free id, and with one.
use f2fs.Base.{ℕ, ◌≡◌, refl, false, none, some, [], arith, ◌==◌, if◌then◌else◌, Returns}
use f2fs.Segment.Geometry.{null_addr}
use f2fs.Node.FreeNids.{FreeNids, nid_new}
use f2fs.Node.FreeNids.Entries.{state_of, distinct, count_new}
use f2fs.Node.FreeNids.Laws.{IsFreeNids}
use f2fs.Node.NatCache.{NmInfo, RawNat}
use f2fs.Node.NatCache.View.{view}
use f2fs.Node.Build.{ScanState, scan_pages, build_free_nids}
use f2fs.Node.Build.Endless.{Rounds, scan_at, Rounds-endless}
use f2fs.Node.Build.Fill.{build_free_nids-view}

abbrev no_ids : FreeNids
no_ids = record { free_nid_list = []; fcnt = 0 }

no_ids-IsFreeNids : IsFreeNids no_ids
unfolding distinct count_new
no_ids-IsFreeNids = record { nids = refl; counted = refl; small = omega arith }

abbrev full_pages : ℕ → RawNat
full_pages = λ k. record { version = 0; ino = 3; block_addr = 700 }

Rounds-endless_example :
    ((t : ScanState) × Rounds full_pages 910 700 9 (scan_at 700 false no_ids) t × (t.free ≡ no_ids))
    × (scan_pages 9 full_pages 910 700 (scan_at 700 false no_ids) ≡ none)
Rounds-endless_example =
    Rounds-endless full_pages 910 700 no_ids (λ k h. ground arith) (λ k h. ground arith) refl
      (omega arith) (omega arith) 9

abbrev table : NmInfo
table = record {
  nat_root = λ k. none;
  nat_entries = [];
  dirty_nat_entries = [];
  nat_cnt = 0;
  journal = record {
    n = 1;
    keys = λ k. 7;
    entries = λ k. record { version = 0; ino = 7; block_addr = 100 };
  };
  nat_pages = λ k. record { version = 0; ino = 0; block_addr = if k == 8 then 0 else 700 };
  free = no_ids;
}

build_free_nids-view_example :
    Returns
      (λ r.
        IsFreeNids r.1.free
        × ((k : ℕ)
            → state_of k r.1.free.free_nid_list ≡ some nid_new
            → (view table k).block_addr ≡ null_addr))
      (build_free_nids table 910 300)
unfolding state_of
build_free_nids-view_example =
    build_free_nids-view table 910 300 no_ids-IsFreeNids (λ k h. ground arith) (λ k h. ground arith)
      (λ p q h h'. absurd (omega arith)) refl (omega arith)
