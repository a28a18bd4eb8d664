-- ===== src/Node/NatCache/Dirty.antt =====
-- Entries of the cache that are set and made dirty: the steps of fs/f2fs/node.c that change what an id
-- maps to, or put it on the dirty list.
use f2fs.Base.{
  ℕ, ◌≤◌, ◌≡◌, ◌≢◌, refl, ap, sym, ◌∙◌, true, false, ◌||◌, none, some, [], ◌∷◌, ◌++◌, without,
  on_list, on_list-without, on_list-append, update, arith, ◌==◌, if◌then◌else◌, some_inj, none≢some,
  ℕ_discrete,
}
use f2fs.Journal.{nat_journal_entries}
use f2fs.Node.NatCache.{NatEntry, NmInfo, raw_of, set_nat_cache_dirty, add_to_nat_cache}
use f2fs.Node.NatCache.View.{disk_view, view, is_dirty, IsCoherent}

-- Coherent, but for what there is for one id.
pub record IsCoherentBut (nid : ℕ) (m : NmInfo) : Type 0 where
  pub named : (n : ℕ) (e : NatEntry) → n ≢ nid → m.nat_root n ≡ some e → (e.ni).nid ≡ n
  pub clean :
      (n : ℕ) (e : NatEntry)
      → n ≢ nid
      → m.nat_root n ≡ some e
      → is_dirty m n ≡ false
      → raw_of e ≡ disk_view m n
  pub cached : (n : ℕ) → n ≢ nid → is_dirty m n ≡ true → m.nat_root n ≢ none
  pub apart : (n : ℕ) → n ≢ nid → on_list n m.nat_entries ≡ true → is_dirty m n ≡ false
  pub room : (m.journal).n ≤ nat_journal_entries

pub IsCoherent-IsCoherentBut : (nid : ℕ) (m : NmInfo) → IsCoherent m → IsCoherentBut nid m
IsCoherent-IsCoherentBut nid m inv = record {
  named = λ n e _. inv.named n e;
  clean = λ n e _. inv.clean n e;
  cached = λ n _. inv.cached n;
  apart = λ n _. inv.apart n;
  room = inv.room;
}

pub add_to_nat_cache-IsCoherentBut :
    (m : NmInfo) (e : NatEntry) → IsCoherent m → IsCoherentBut (e.ni).nid (add_to_nat_cache m e)
unfolding add_to_nat_cache on_list
add_to_nat_cache-IsCoherentBut m e inv =
    let more : (k : ℕ)
        → on_list k (m.nat_entries ++ (e.ni).nid ∷ [])
          ≡ (on_list k m.nat_entries || on_list k ((e.ni).nid ∷ [])) =
      λ k. on_list-append k m.nat_entries ((e.ni).nid ∷ []) in
    record {
      named = λ n x p h. inv.named n x (ground arith);
      clean = λ n x p h d. inv.clean n x (ground arith) d;
      cached = λ n p d h. inv.cached n d (ground arith);
      apart = λ n p h. inv.apart n (ground (arith, more n));
      room = inv.room;
    }

-- An entry under its id, made dirty.
pub set_nat_cache_dirty-IsCoherent :
    (m : NmInfo) (nid : ℕ) (e : NatEntry)
    → IsCoherentBut nid m
    → m.nat_root nid ≡ some e
    → (e.ni).nid ≡ nid
    → let r = set_nat_cache_dirty m nid in
      IsCoherent r
      × ((k : ℕ) → view r k ≡ view m k)
      × ((k : ℕ) → is_dirty r k ≡ (k == nid || is_dirty m k))
unfolding set_nat_cache_dirty on_list
set_nat_cache_dirty-IsCoherent m nid e inv here named =
    let off' : (k : ℕ)
        → on_list k (without nid m.nat_entries)
          ≡ (if k == nid then false else on_list k m.nat_entries) =
      λ k. on_list-without k nid m.nat_entries in
    let dirt : (k : ℕ)
        → on_list k (without nid m.dirty_nat_entries ++ nid ∷ []) ≡ (k == nid || is_dirty m k) =
      λ k. ground (
        arith,
        on_list-without k nid m.dirty_nat_entries,
        on_list-append k (without nid m.dirty_nat_entries) (nid ∷ []),
      ) in
    (
      record {
        named = λ n x h. elim (ℕ_discrete n nid) [
          | yes p ↦
              let it : e ≡ x = some_inj (sym here ∙ ap m.nat_root (sym p) ∙ h) in rw (← it, p) named
          | no p ↦ inv.named n x p h
        ];
        clean = λ n x h d. elim (ℕ_discrete n nid) [
          | yes p ↦ absurd (ground (arith, dirt n))
          | no p ↦ inv.clean n x p h (ground (arith, dirt n))
        ];
        cached = λ n d h. elim (ℕ_discrete n nid) [
          | yes p ↦ absurd (none≢some (sym h ∙ ap m.nat_root p ∙ here))
          | no p ↦ inv.cached n p (ground (arith, dirt n)) h
        ];
        apart = λ n h. elim (ℕ_discrete n nid) [
          | yes p ↦ absurd (ground (arith, off' n))
          | no p ↦ ground (arith, dirt n, off' n, inv.apart n p)
        ];
        room = inv.room;
      },
      λ k. refl,
      dirt,
    )

-- The same for an entry that is set.
pub put_dirty-IsCoherent :
    (m : NmInfo) (nid : ℕ) (e : NatEntry)
    → IsCoherentBut nid m
    → (e.ni).nid ≡ nid
    → let r = set_nat_cache_dirty (record m { nat_root = update m.nat_root nid (some e) }) nid in
      IsCoherent r
      × ((k : ℕ) → view r k ≡ (if k == nid then raw_of e else view m k))
      × ((k : ℕ) → is_dirty r k ≡ (k == nid || is_dirty m k))
put_dirty-IsCoherent m nid e inv named =
    let m' : NmInfo = record m { nat_root = update m.nat_root nid (some e) } in
    let but : IsCoherentBut nid m' = record {
      named = λ n x p h. inv.named n x p (ground arith);
      clean = λ n x p h. inv.clean n x p (ground arith);
      cached = λ n p d h. inv.cached n p d (ground arith);
      apart = inv.apart;
      room = inv.room;
    } in
    let it = set_nat_cache_dirty-IsCoherent m' nid e but (ground arith) named in
    (it.0, λ k. it.1 k ∙ ground arith, it.2)
