-- ===== src/Node/NatCache/Lookup.antt =====
-- `get_node_info`, `set_node_addr` and `try_to_free_nats` of fs/f2fs/node.c as operations on the map
-- that the cache and the disk stand for.
use f2fs.Base.{
  ℕ, zero, suc, ◌*◌, ◌≡◌, ◌≢◌, ◌⊎◌, refl, ap, sym, ◌∙◌, true, false, none, some, List, [], ◌∷◌,
  on_list, on_list-without, on_list-append, arith, ltb, Bool-cases, Option-cases, inl, inr,
  ℕ_discrete,
}
use f2fs.Node.NatCache.{
  NodeInfo, NatEntry, RawNat, NmInfo, raw_of, stored, del_from_nat_cache, add_to_nat_cache,
  node_info_from_raw_nat, get_node_info, cache_nat_entry, shrink, try_to_free_nats,
  nm_wout_threshold,
}
use f2fs.Node.NatCache.View.{disk_view, view, is_dirty, IsCoherent, stored-disk_view}

-- An entry with what the disk has, put in.
pub add_to_nat_cache-IsCoherent :
    (m : NmInfo) (e : NatEntry)
    → IsCoherent m
    → m.nat_root (e.ni).nid ≡ none
    → raw_of e ≡ disk_view m (e.ni).nid
    → IsCoherent (add_to_nat_cache m e) × ((k : ℕ) → view (add_to_nat_cache m e) k ≡ view m k)
unfolding add_to_nat_cache on_list
add_to_nat_cache-IsCoherent m e inv free same =
    let nid = (e.ni).nid in
    let not_dirty : is_dirty m nid ≡ false = elim (Bool-cases (is_dirty m nid)) [
      | inl d ↦ absurd (inv.cached nid d free)
      | inr d ↦ d
    ] in
    (
      record {
        named = λ n x h. elim (ℕ_discrete n nid) [
          | yes p ↦
              ground (arith, ap NatEntry.ni {x = e} {y = x}, ap NodeInfo.nid {x = e.ni} {y = x.ni})
          | no p ↦ inv.named n x (ground arith)
        ];
        clean = λ n x h d. elim (ℕ_discrete n nid) [
          | yes p ↦ let it : e ≡ x = ground arith in rw (← it, p) same
          | no p ↦ inv.clean n x (ground arith) d
        ];
        cached = λ n d h. elim (ℕ_discrete n nid) [
          | yes p ↦ ground arith
          | no p ↦ inv.cached n d (ground arith)
        ];
        apart = λ n h. elim (ℕ_discrete n nid) [
          | yes p ↦ rw p not_dirty
          | no p ↦ inv.apart n (ground (arith, on_list-append n m.nat_entries (nid ∷ [])))
        ];
        room = inv.room;
      },
      λ k. elim (ℕ_discrete k nid) [
        | yes p ↦ rw (p, free) (ground (arith, same))
        | no p ↦ ground arith
      ],
    )

-- Both, where an entry is missing.
cache_nat_entry-missing :
    (m : NmInfo) (nid : ℕ) (ne : RawNat)
    → m.nat_root nid ≡ none
    → cache_nat_entry m nid ne
      ≡ add_to_nat_cache m (record { ni = node_info_from_raw_nat nid ne; checkpointed = true })
unfolding cache_nat_entry
cache_nat_entry-missing m nid ne e = rw (cache_nat_entry, e) refl

view-missing : (m : NmInfo) (nid : ℕ) → m.nat_root nid ≡ none → view m nid ≡ disk_view m nid
view-missing m nid e = rw e refl

pub view-found :
    (m : NmInfo) (nid : ℕ) {e : NatEntry} → m.nat_root nid ≡ some e → view m nid ≡ raw_of e
view-found m nid e = rw e refl

pub record IsLookup (m : NmInfo) (nid : ℕ) (r : NodeInfo × NmInfo) : Type 0 where
  pub info : r.0 ≡ node_info_from_raw_nat nid (view m nid)
  pub coherent : IsCoherent r.1
  pub same_view : (k : ℕ) → view r.1 k ≡ view m k
  pub now_cached : r.1.nat_root nid ≢ none

-- On a coherent cache `get_node_info` gives what the id maps to, and changes neither that nor what
-- another id maps to; the cache stays coherent, and has the id.
pub get_node_info-IsLookup :
    (m : NmInfo) (nid : ℕ) → IsCoherent m → IsLookup m nid (get_node_info m nid)
unfolding get_node_info cache_nat_entry node_info_from_raw_nat
get_node_info-IsLookup m nid inv = elim (Option-cases (m.nat_root nid)) [
  | inl e ↦
      let fresh : NatEntry = record {
        ni = node_info_from_raw_nat nid (stored m nid);
        checkpointed = true;
      } in
      let put = add_to_nat_cache-IsCoherent m fresh inv e (stored-disk_view m nid) in
      rw (get_node_info, e, cache_nat_entry-missing m nid (stored m nid) e)
        (record {
          info =
              ap (node_info_from_raw_nat nid) (stored-disk_view m nid ∙ sym (view-missing m nid e));
          coherent = put.0;
          same_view = put.1;
          now_cached = λ h. unfold add_to_nat_cache in ground arith;
        })
  | inr (x, e) ↦
      rw (get_node_info, e)
        (record {
          info = ap (node_info_from_raw_nat nid) (sym (view-found m nid e));
          coherent = inv;
          same_view = λ k. refl;
          now_cached = λ h. ground arith;
        })
]

-- A clean entry, dropped.
pub del_from_nat_cache-IsCoherent :
    (m : NmInfo) (nid : ℕ)
    → IsCoherent m
    → is_dirty m nid ≡ false
    → IsCoherent (del_from_nat_cache m nid)
      × ((k : ℕ) → view (del_from_nat_cache m nid) k ≡ view m k)
unfolding del_from_nat_cache
del_from_nat_cache-IsCoherent m nid inv d =
    let off = λ (k : ℕ). on_list-without k nid m.dirty_nat_entries in
    let off' = λ (k : ℕ). on_list-without k nid m.nat_entries in
    (
      record {
        named = λ n x h. inv.named n x (ground arith);
        clean = λ n x h c. inv.clean n x (ground arith) (ground (arith, off n));
        cached = λ n c h. inv.cached n (ground (arith, off n)) (ground (arith, off n));
        apart = λ n h. ground (arith, off n, off' n, inv.apart n);
        room = inv.room;
      },
      λ k. elim (Option-cases (m.nat_root k)) [
        | inl e ↦ rw e (ground arith)
        | inr (x, e) ↦ elim (ℕ_discrete k nid) [
          | yes p ↦ let it = inv.clean k x e (rw p d) in rw e (ground (arith, it))
          | no p ↦ ground arith
        ]
      ],
    )

List-cases : {A : Type 0} (l : List A) → (l ≡ []) ⊎ ((x : A) × (xs : List A) × (l ≡ x ∷ xs))
List-cases [] = inl refl
List-cases (x ∷ xs) = inr (x, xs, refl)

shrink-view :
    (nr : ℕ) (m : NmInfo)
    → IsCoherent m
    → IsCoherent (shrink nr m) × ((k : ℕ) → view (shrink nr m) k ≡ view m k)
unfolding shrink on_list
shrink-view zero m inv = (inv, λ k. refl)
shrink-view (suc nr) m inv = elim (List-cases m.nat_entries) [
  | inl e ↦ rw (shrink, e) (inv, λ k. refl)
  | inr (nid, rest, e) ↦
      let d : is_dirty m nid ≡ false = inv.apart nid (rw e (ground arith)) in
      let step = del_from_nat_cache-IsCoherent m nid inv d in
      let later = shrink-view nr (del_from_nat_cache m nid) step.0 in
      rw (shrink, e) (later.0, λ k. later.1 k ∙ step.1 k)
]

-- Shrinking the cache changes nothing that an id maps to, and keeps the cache coherent.
pub try_to_free_nats-view :
    (m : NmInfo) (nr_shrink : ℕ)
    → IsCoherent m
    → IsCoherent (try_to_free_nats m nr_shrink)
      × ((k : ℕ) → view (try_to_free_nats m nr_shrink) k ≡ view m k)
unfolding try_to_free_nats
try_to_free_nats-view m nr_shrink inv = elim (Bool-cases (ltb m.nat_cnt (2 * nm_wout_threshold))) [
  | inl few ↦ rw (try_to_free_nats, few) (inv, λ k. refl)
  | inr many ↦ rw (try_to_free_nats, many) (shrink-view nr_shrink m inv)
]

-- It does not touch the disk.
shrink-disk_view : (nr : ℕ) (m : NmInfo) (k : ℕ) → disk_view (shrink nr m) k ≡ disk_view m k
unfolding shrink
shrink-disk_view zero m k = refl
shrink-disk_view (suc nr) m k = elim (List-cases m.nat_entries) [
  | inl e ↦ rw (shrink, e) refl
  | inr (nid, rest, e) ↦
      rw (shrink, e)
        (shrink-disk_view nr (del_from_nat_cache m nid) k ∙ unfold del_from_nat_cache in refl)
]

pub try_to_free_nats-disk_view :
    (m : NmInfo) (nr_shrink k : ℕ) → disk_view (try_to_free_nats m nr_shrink) k ≡ disk_view m k
unfolding try_to_free_nats
try_to_free_nats-disk_view m nr_shrink k =
    elim (Bool-cases (ltb m.nat_cnt (2 * nm_wout_threshold))) [
      | inl few ↦ rw (try_to_free_nats, few) refl
      | inr many ↦ rw (try_to_free_nats, many) (shrink-disk_view nr_shrink m k)
    ]
