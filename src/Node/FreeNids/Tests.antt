-- ===== src/Node/FreeNids/Tests.antt =====
-- A list with a new id and an allocated one, and threads that share it.
use f2fs.Base.{
  ℕ, ◌+◌, ◌*◌, ◌<◌, ◌≤◌, ◌≡◌, ◌≢◌, refl, true, false, none, List, [], ◌∷◌, arith, ◌==◌, Returns,
}
use f2fs.Node.FreeNids.{
  FreeNids, FreeNid, nid_new, nid_alloc, max_free_nids, insert_free_nid, take_nid, alloc_nid_done,
}
use f2fs.Node.FreeNids.Entries.{state_of, distinct, count_new}
use f2fs.Node.FreeNids.Threads.{Shared, Reach, IsShared, here, next, test, insert, Reach-exclusive}

abbrev two_ids : List FreeNid
two_ids = record { nid = 5; state = nid_new } ∷ record { nid = 9; state = nid_alloc } ∷ []

abbrev ids : FreeNids
ids = record { free_nid_list = two_ids; fcnt = 1 }

-- Two threads have tested the count for id 6, and one has inserted it.
abbrev shared : Shared
shared = record { nids = ids; waiting = []; out = λ k. k == 9 }

shared-IsShared : IsShared 2 shared
unfolding distinct count_new state_of
shared-IsShared = record {
  list = record { nids = ground arith; counted = ground arith; wide = omega arith };
  bounded = omega arith;
  held = λ k. (λ h. ground arith, λ h. ground arith);
}

abbrev both_wait : Shared
both_wait = record shared { waiting = 6 ∷ 6 ∷ [] }

abbrev one_waits : Shared
one_waits = record shared { nids = (insert_free_nid ids 6).1; waiting = 6 ∷ [] }

to_both_wait : Reach 2 shared both_wait
to_both_wait =
    next (next here (test shared 6 refl (omega arith)))
      (test (record shared { waiting = 6 ∷ [] }) 6 refl (omega arith))

to_one_waits : Reach 2 shared one_waits
to_one_waits = next to_both_wait (insert both_wait 6 [] (6 ∷ []) refl)

Reach-exclusive_example :
    (0 < one_waits.nids.fcnt → Returns (λ r. one_waits.out r.0 ≡ false) (take_nid one_waits.nids))
    × ((nid : ℕ) → one_waits.out nid ≡ true → alloc_nid_done one_waits.nids nid ≢ none)
    × (one_waits.nids.fcnt ≤ 2 * max_free_nids + 2)
Reach-exclusive_example = Reach-exclusive 2 (omega arith) shared-IsShared to_one_waits
