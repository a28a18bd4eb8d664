-- ===== src/Node/FreeNids/Laws.antt =====
-- The list of free node ids where one thread at a time adds to it: the entries stay distinct, the count
-- right, and no more ids are free than `add_free_nid` of fs/f2fs/node.c lets through.
use f2fs.Base.{
  ℕ, ◌+◌, ◌*◌, ◌≤◌, ◌≡◌, ◌↔◌, refl, true, ◌&&◌, none, some, arith, ltb, ◌==◌, if◌then◌else◌,
  Bool-cases, inl, inr, Option,
}
use f2fs.Node.FreeNids.{
  FreeNids, NidState, nid_new, nid_alloc, max_free_nids, add_free_nid, remove_free_nid,
}
use f2fs.Node.FreeNids.Entries.{state_of, distinct, count_new, may_take}
use f2fs.Node.FreeNids.Listed.{IsListed, insert_free_nid-IsListed, remove_free_nid-IsListed}

pub record IsFreeNids (f : FreeNids) : Type 0 where
  pub nids : distinct f.free_nid_list ≡ true
  pub counted : f.fcnt ≡ count_new f.free_nid_list
  pub small : f.fcnt ≤ 2 * max_free_nids + 1

listed : (f : FreeNids) → IsFreeNids f → IsListed f
listed f inv = record { nids = inv.nids; counted = inv.counted; wide = omega (arith, inv.small) }

kept_small : (f g : FreeNids) → IsFreeNids f → IsListed g → g.fcnt ≤ f.fcnt → IsFreeNids g
kept_small f g inv it le = record {
  nids = it.nids;
  counted = it.counted;
  small = omega (arith, inv.small);
}

module _ (f : FreeNids) (nid : ℕ) (inv : IsFreeNids f) where
  abbrev states : ℕ → Option NidState
  states k = state_of k f.free_nid_list

  -- `add_free_nid` adds exactly an id that is not on the list, unless more than twice
  -- `MAX_FREE_NIDS` are free. The id is then new, and nothing else changes.
  pub add_free_nid-IsFreeNids :
      let r = add_free_nid f nid in
      IsFreeNids r.1
      × ((r.0 ≡ true) ↔ ((f.fcnt ≤ 2 * max_free_nids) × (states nid ≡ none)))
      × ((k : ℕ)
          → state_of k r.1.free_nid_list ≡ (if r.0 && k == nid then some nid_new else states k))
  unfolding add_free_nid
  add_free_nid-IsFreeNids = elim (Bool-cases (ltb (2 * max_free_nids) f.fcnt)) [
    | inl full ↦ rw (add_free_nid, full) (inv, ground arith, λ k. refl)
    | inr room ↦
        let r = insert_free_nid-IsListed f nid (listed f inv) (ground arith) in
        rw (add_free_nid, room)
          (
            record { nids = r.0.nids; counted = r.0.counted; small = ground (arith, r.1) },
            (λ h. (ground arith, r.2.0 h), λ h. r.2.1 h.1),
            r.3,
          )
  ]

  -- `remove_free_nid` takes the id off the list exactly if it is new; an allocated id stays, and so
  -- does every other.
  pub remove_free_nid-IsFreeNids :
      IsFreeNids (remove_free_nid f nid)
      × ((k : ℕ)
          → state_of k (remove_free_nid f nid).free_nid_list
            ≡ (if k == nid && may_take (states nid) then none else states k))
  remove_free_nid-IsFreeNids =
      let r = remove_free_nid-IsListed f nid (listed f inv) in
      (kept_small f (remove_free_nid f nid) inv r.0 r.1, r.2)

abbrev IsTake : (FreeNids → Type 0) → FreeNids → ℕ × FreeNids → Type 0
IsTake P f r =
    (state_of r.0 f.free_nid_list ≡ some nid_new)
    × P r.1
    × (r.1.fcnt + 1 ≡ f.fcnt)
    × ((k : ℕ)
        → state_of k r.1.free_nid_list
          ≡ (if k == r.0 then some nid_alloc else state_of k f.free_nid_list))
