-- ===== src/Node/FreeNids/Listed.antt =====
-- What the functions of fs/f2fs/node.c on the list of free node ids do under its lock, for any count
-- of 32 bits.
use f2fs.Base.{
  ℕ, ◌+◌, ◌^◌, ◌<◌, ◌≤◌, ◌≡◌, ◌≢◌, ◌↔◌, refl, ap, sym, true, ◌&&◌, Option, none, some, arith, ◌==◌,
  if◌then◌else◌, Bool-cases, Option-cases, inl, inr, Returns, Returns->>=, none≢some, bit,
}
use f2fs.Node.FreeNids.{
  FreeNids, NidState, nid_new, nid_alloc, is_new, lookup_free_nid, del_free_nid, insert_free_nid,
  remove_free_nid, take_nid, alloc_nid_done,
}
use f2fs.Node.FreeNids.Entries.{
  state_of, distinct, count_new, lookup-state_of, state-cases, state_of-append, distinct-append,
  count_new-append, state_of-del, distinct-del, count_new-del, may_take, IsTaken, take_new-IsTaken,
}

pub record IsListed (f : FreeNids) : Type 0 where
  pub nids : distinct f.free_nid_list ≡ true
  pub counted : f.fcnt ≡ count_new f.free_nid_list
  pub wide : f.fcnt < 2 ^ 32

module _ (f : FreeNids) (nid : ℕ) (inv : IsListed f) where
  abbrev states : ℕ → Option NidState
  states k = state_of k f.free_nid_list

  -- `insert_free_nid` adds exactly an id that is not on the list. The id is then new, and nothing else
  -- changes.
  pub insert_free_nid-IsListed :
      f.fcnt + 1 < 2 ^ 32
      → let r = insert_free_nid f nid in
        IsListed r.1
        × (r.1.fcnt ≡ f.fcnt + bit r.0)
        × ((r.0 ≡ true) ↔ (states nid ≡ none))
        × ((k : ℕ)
            → state_of k r.1.free_nid_list ≡ (if r.0 && k == nid then some nid_new else states k))
  unfolding insert_free_nid
  insert_free_nid-IsListed room =
      let look = lookup-state_of nid f.free_nid_list in
      elim (Option-cases (lookup_free_nid nid f.free_nid_list)) [
        | inl e ↦
            let nothing : states nid ≡ none = ground arith in
            rw (insert_free_nid, e)
              (
                record {
                  nids = distinct-append nid nid_new f.free_nid_list inv.nids nothing;
                  counted = ground (arith, inv, count_new-append nid nid_new f.free_nid_list);
                  wide = ground arith;
                },
                ground arith,
                (λ _. nothing, λ _. refl),
                λ k. state_of-append k nid nid_new f.free_nid_list nothing,
              )
        | inr (i, e) ↦ rw (insert_free_nid, e) (inv, omega arith, ground arith, λ k. refl)
      ]

  -- `remove_free_nid` takes the id off the list exactly if it is new; an allocated id stays, and so
  -- does every other.
  pub remove_free_nid-IsListed :
      IsListed (remove_free_nid f nid)
      × ((remove_free_nid f nid).fcnt ≤ f.fcnt)
      × ((k : ℕ)
          → state_of k (remove_free_nid f nid).free_nid_list
            ≡ (if k == nid && may_take (states nid) then none else states k))
  unfolding remove_free_nid
  remove_free_nid-IsListed =
      let look = lookup-state_of nid f.free_nid_list in
      let del = distinct-del nid f.free_nid_list inv.nids in
      let fewer = count_new-del nid f.free_nid_list in
      elim (Option-cases (lookup_free_nid nid f.free_nid_list)) [
        | inl e ↦
            let nothing : states nid ≡ none = ground arith in
            rw (remove_free_nid, e, nothing) (inv, omega arith, λ k. ground arith)
        | inr (i, e) ↦
            let found : states nid ≡ some i.state = ground arith in
            rw (remove_free_nid, e, found)
              (elim (Bool-cases (is_new i.state)) [
                | inl new ↦
                    let one : count_new (del_free_nid nid f.free_nid_list) + 1
                        ≡ count_new f.free_nid_list =
                      ground arith in
                    rw new (
                      record {
                        nids = del;
                        counted = ground (arith, inv);
                        wide = ground (arith, inv);
                      },
                      ground (arith, inv),
                      λ k. ground (arith, state_of-del k nid f.free_nid_list),
                    )
                | inr old ↦ rw old (inv, omega arith, λ k. ground arith)
              ])
      ]

  -- `alloc_nid_done` meets its `BUG_ON` exactly if the id is on the list and not allocated; otherwise
  -- the id is off the list and nothing else changes.
  pub alloc_nid_done-IsListed :
      ((alloc_nid_done f nid ≡ none) ↔ (states nid ≡ some nid_new))
      × (states nid ≢ some nid_new
          → Returns
              (λ g.
                IsListed g
                × (g.fcnt ≡ f.fcnt)
                × ((k : ℕ) → state_of k g.free_nid_list ≡ (if k == nid then none else states k)))
              (alloc_nid_done f nid))
  unfolding alloc_nid_done
  alloc_nid_done-IsListed =
      let look = lookup-state_of nid f.free_nid_list in
      let del = distinct-del nid f.free_nid_list inv.nids in
      let fewer = count_new-del nid f.free_nid_list in
      elim (Option-cases (lookup_free_nid nid f.free_nid_list)) [
        | inl e ↦
            let nothing : states nid ≡ none = ground arith in
            rw (alloc_nid_done, e, nothing)
              (
                (λ h. absurd (none≢some (sym h)), λ h. absurd (none≢some h)),
                λ _. (inv, refl, λ k. ground (arith, ap states {x = k} {y = nid})),
              )
        | inr (i, e) ↦ elim (state-cases i.state) [
          | inl new ↦
              let found : states nid ≡ some nid_new = ground arith in
              rw (alloc_nid_done, e, new, found) ((λ _. refl, λ _. refl), λ h. absurd (h refl))
          | inr old ↦
              let found : states nid ≡ some nid_alloc = ground arith in
              rw (alloc_nid_done, e, old, found)
                (
                  (λ h. absurd (none≢some (sym h)), λ h. ground arith),
                  λ _. (
                    record { nids = del; counted = ground (arith, inv); wide = inv.wide },
                    refl,
                    λ k. state_of-del k nid f.free_nid_list inv.nids,
                  ),
                )
        ]
      ]

pub take_nid-IsListed :
    (f : FreeNids)
    → IsListed f
    → 0 < f.fcnt
    → Returns
        (λ r.
          (state_of r.0 f.free_nid_list ≡ some nid_new)
          × IsListed r.1
          × (r.1.fcnt + 1 ≡ f.fcnt)
          × ((k : ℕ)
              → state_of k r.1.free_nid_list
                ≡ (if k == r.0 then some nid_alloc else state_of k f.free_nid_list)))
        (take_nid f)
unfolding take_nid
take_nid-IsListed f inv pos =
    Returns->>= (IsTaken f.free_nid_list) _ _ _
      (take_new-IsTaken f.free_nid_list inv.nids (omega (arith, inv.counted)))
      (λ r _ t. (
        t.0,
        record { nids = t.1; counted = ground (arith, inv, t.2); wide = ground (arith, inv, t.2) },
        ground (arith, inv),
        t.3,
      ))
