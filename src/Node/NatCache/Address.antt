-- ===== src/Node/NatCache/Address.antt =====
-- `set_node_addr` of fs/f2fs/node.c: which changes of a node's address it accepts, and what they do
-- to the map.
use f2fs.Base.{
  ℕ, ◌≡◌, ◌≢◌, ◌↔◌, refl, ap, sym, ◌∙◌, Bool, true, false, ◌&&◌, ◌||◌, not, none, some, update,
  arith, ◌==◌, if◌then◌else◌, Bool-cases, Option-cases, inl, inr, none≢some, ℕ_discrete, Returns,
}
use f2fs.Segment.Geometry.{null_addr, new_addr}
use f2fs.Node.NatCache.{
  NodeInfo, NatEntry, RawNat, NmInfo, raw_of, set_nat_cache_dirty, add_to_nat_cache, set_node_addr,
  entry_for, address_insane, with_address, inc_node_version,
}
use f2fs.Node.NatCache.View.{disk_view, view, is_dirty, IsCoherent}
use f2fs.Node.NatCache.Lookup.{view-found}
use f2fs.Node.NatCache.Dirty.{
  IsCoherent-IsCoherentBut, add_to_nat_cache-IsCoherentBut, put_dirty-IsCoherent,
}

-- Which address may follow which: a node without a block gets one or a promise of one, and only a
-- node that has either may lose it. A block may follow anything.
unfoldable pub may_follow : ℕ → ℕ → Bool
may_follow old new =
    if new == null_addr
    then not (old == null_addr)
    else if new == new_addr
    then old == null_addr
    else true

may_follow-address_insane : (old new : ℕ) → address_insane old old new ≡ not (may_follow old new)
unfolding may_follow address_insane
may_follow-address_insane old new = ground arith

-- The version and inode that the entry starts from: the cached ones, except for a promised block.
unfoldable pub base_raw : NmInfo → NodeInfo → ℕ → RawNat
base_raw m ni new = elim (m.nat_root ni.nid) [
  | none ↦ raw_of (record { ni = ni; checkpointed = true })
  | some e ↦ if new == new_addr then raw_of (record { ni = ni; checkpointed = true }) else raw_of e
]

unfoldable pub next_raw : RawNat → ℕ → RawNat
next_raw raw new = record raw {
  block_addr = new;
  version =
      if not (raw.block_addr == new_addr) && new == null_addr
      then inc_node_version raw.version
      else raw.version;
}

pub record IsAddressed (m : NmInfo) (ni : NodeInfo) (new : ℕ) (m' : NmInfo) : Type 0 where
  pub coherent : IsCoherent m'
  pub mapped :
      (k : ℕ) → view m' k ≡ (if k == ni.nid then next_raw (base_raw m ni new) new else view m k)
  pub disk : (k : ℕ) → disk_view m' k ≡ disk_view m k
  pub dirtied : (k : ℕ) → is_dirty m' k ≡ (k == ni.nid || is_dirty m k)

abbrev pub info_raw : NodeInfo → RawNat
info_raw ni = raw_of (record { ni = ni; checkpointed = true })

base-missing :
    (m : NmInfo) (ni : NodeInfo) (new : ℕ)
    → m.nat_root ni.nid ≡ none
    → base_raw m ni new ≡ info_raw ni
unfolding base_raw
base-missing m ni new e = rw (base_raw, e) refl

base-found :
    (m : NmInfo) (ni : NodeInfo) (new : ℕ) {e : NatEntry}
    → m.nat_root ni.nid ≡ some e
    → base_raw m ni new ≡ (if new == new_addr then info_raw ni else raw_of e)
unfolding base_raw
base-found m ni new e = rw (base_raw, e) refl

next-with_address : (e : NatEntry) (new : ℕ) → raw_of (with_address e new) ≡ next_raw (raw_of e) new
unfolding next_raw with_address
next-with_address e new = refl

set_missing :
    (m : NmInfo) (ni : NodeInfo) (new : ℕ)
    → IsCoherent m
    → m.nat_root ni.nid ≡ none
    → let e : NatEntry = record { ni = ni; checkpointed = true } in
      let m' = add_to_nat_cache m e in
      IsAddressed m ni new (
        set_nat_cache_dirty
          (record m' { nat_root = update m'.nat_root ni.nid (some (with_address e new)) })
          ni.nid)
set_missing m ni new inv missing =
    let e : NatEntry = record { ni = ni; checkpointed = true } in
    let put =
      put_dirty-IsCoherent (add_to_nat_cache m e) ni.nid (with_address e new)
        (add_to_nat_cache-IsCoherentBut m e inv) (unfold with_address in refl) in
    let base : base_raw m ni new ≡ raw_of e = base-missing m ni new missing in
    let same : (k : ℕ) → k ≢ ni.nid → view (add_to_nat_cache m e) k ≡ view m k =
      λ k p. unfold add_to_nat_cache in ground arith in
    let dirt : (k : ℕ) → is_dirty (add_to_nat_cache m e) k ≡ is_dirty m k =
      λ k. unfold add_to_nat_cache in refl in
    record {
      coherent = put.0;
      mapped = λ k. elim (ℕ_discrete k ni.nid) [
        | yes p ↦ ground (arith, put.1 k, base, next-with_address e new)
        | no p ↦ ground (arith, put.1 k, same k p)
      ];
      disk = λ k. unfold add_to_nat_cache set_nat_cache_dirty in refl;
      dirtied = λ k. ground (arith, put.2 k, dirt k);
    }

set_found :
    (m : NmInfo) (ni : NodeInfo) (new : ℕ) (e : NatEntry)
    → IsCoherent m
    → (e.ni).nid ≡ ni.nid
    → base_raw m ni new ≡ raw_of e
    → IsAddressed m ni new (
        set_nat_cache_dirty
          (record m { nat_root = update m.nat_root ni.nid (some (with_address e new)) })
          ni.nid)
unfolding with_address
set_found m ni new e inv named base =
    let put =
      put_dirty-IsCoherent m ni.nid (with_address e new) (IsCoherent-IsCoherentBut ni.nid m inv)
        named in
    record {
      coherent = put.0;
      mapped = λ k. rw (base, ← next-with_address e new) (put.1 k);
      disk = λ k. unfold set_nat_cache_dirty in refl;
      dirtied = put.2;
    }

-- On a coherent cache, for a caller whose address of the node is the current one and, if the node is
-- not cached, no promise: `set_node_addr` meets a `BUG_ON` exactly if the new address may not follow
-- the old one. Otherwise the id maps to the new address, with the next version if a block is given
-- up, and is dirty; no other id and nothing on the disk changes, and the cache stays coherent.
pub set_node_addr-IsAddressed :
    (m : NmInfo) (ni : NodeInfo) (new : ℕ)
    → IsCoherent m
    → ni.blk_addr ≡ (view m ni.nid).block_addr
    → (m.nat_root ni.nid ≡ none → ni.blk_addr ≢ new_addr)
    → ((set_node_addr m ni new ≡ none) ↔ (may_follow ni.blk_addr new ≡ false))
      × (may_follow ni.blk_addr new ≡ true
          → Returns (IsAddressed m ni new) (set_node_addr m ni new))
unfolding set_node_addr entry_for
set_node_addr-IsAddressed m ni new inv current promise =
    let sane = may_follow-address_insane ni.blk_addr new in
    elim (Option-cases (m.nat_root ni.nid)) [
      | inl e ↦
          let no_promise : (ni.blk_addr == new_addr) ≡ false = ground (arith, promise e) in
          let it = set_missing m ni new inv e in
          rw (set_node_addr, entry_for, e, no_promise)
            (elim (Bool-cases (may_follow ni.blk_addr new)) [
              | inl good ↦
                  rw (sane, good) ((λ h. absurd (none≢some (sym h)), λ h. ground arith), λ _. it)
              | inr bad ↦ rw (sane, bad) ((λ _. refl, λ _. refl), λ h. ground arith)
            ])
      | inr (x, e) ↦ elim (Bool-cases (new == new_addr)) [
        | inl p ↦ elim (Bool-cases (ni.blk_addr == null_addr)) [
          | inl z ↦
              let good : may_follow ni.blk_addr new ≡ true = unfold may_follow in ground arith in
              let copied : NatEntry = record x { ni = ni } in
              let it = set_found m ni new copied inv refl (base-found m ni new e ∙ rw p refl) in
              rw (set_node_addr, entry_for, e, p, z, sane, good)
                ((λ h. absurd (none≢some (sym h)), λ h. ground arith), λ _. it)
          | inr z ↦
              let bad : may_follow ni.blk_addr new ≡ false = unfold may_follow in ground arith in
              rw (set_node_addr, entry_for, e, p, z, bad)
                ((λ _. refl, λ _. refl), λ h. ground arith)
        ]
        | inr p ↦
            let old : ni.blk_addr ≡ (x.ni).blk_addr =
              current ∙ ap RawNat.block_addr (view-found m ni.nid e) in
            let it =
              set_found m ni new x inv (inv.named ni.nid x e) (base-found m ni new e ∙ rw p refl) in
            let sane' : address_insane (x.ni).blk_addr ni.blk_addr new
                ≡ not (may_follow ni.blk_addr new) =
              rw (← old) sane in
            rw (set_node_addr, entry_for, e, p)
              (elim (Bool-cases (may_follow ni.blk_addr new)) [
                | inl good ↦
                    rw (sane', good) ((λ h. absurd (none≢some (sym h)), λ h. ground arith), λ _. it)
                | inr bad ↦ rw (sane', bad) ((λ _. refl, λ _. refl), λ h. ground arith)
              ])
      ]
    ]
