-- ===== src/Node/NatCache/Flush.antt =====
-- The loop of `flush_nat_entries` of fs/f2fs/node.c: each round brings the disk up to date for one id
-- and changes nothing that an id maps to.
use f2fs.Base.{
  ℕ, ◌≡◌, refl, Bool, true, false, ◌&&◌, ◌||◌, not, arith, ◌==◌, Bool-cases, Option-cases, inl, inr,
  ℕ_discrete,
}
use f2fs.Segment.Geometry.{null_addr, new_addr}
use f2fs.Node.NatCache.{
  NmInfo, raw_of, write_raw, del_from_nat_cache, clear_nat_cache_dirty, flush_entry,
}
use f2fs.Node.NatCache.View.{view, is_dirty, IsCoherent, write_raw-disk_view}
use f2fs.Node.NatCache.Written.{
  promised, IsEmptied, write_raw-cache, settle-IsCoherent, remove-IsCoherent, settled_one,
  write_raw-IsEmptied,
}

-- What one round does, or several, for the ids `done`.
pub record IsFlush (flushed : Bool) (done : ℕ → Bool) (m r : NmInfo) : Type 0 where
  pub coherent : IsCoherent r
  pub same_view : (k : ℕ) → view r k ≡ view m k
  pub emptied : IsEmptied flushed r.journal
  pub settled : (k : ℕ) → is_dirty r k ≡ (is_dirty m k && (promised m k || not (done k)))
  pub same_promises : (k : ℕ) → promised r k ≡ promised m k

pub flush_entry-IsFlush :
    (flushed : Bool) (m : NmInfo) (nid : ℕ)
    → IsCoherent m
    → IsEmptied flushed m.journal
    → IsFlush flushed (λ k. k == nid) m (flush_entry flushed m nid)
unfolding flush_entry
flush_entry-IsFlush flushed m nid inv empty = elim (Option-cases (m.nat_root nid)) [
  | inl e ↦
      let clean : is_dirty m nid ≡ false = elim (Bool-cases (is_dirty m nid)) [
        | inl d ↦ absurd (inv.cached nid d e)
        | inr d ↦ d
      ] in
      rw (flush_entry, e)
        (record {
          coherent = inv;
          same_view = λ k. refl;
          emptied = empty;
          settled =
              λ k. elim (ℕ_discrete k nid) [ yes p ↦ rw (p, clean) refl | no p ↦ ground arith ];
          same_promises = λ k. refl;
        })
  | inr (x, e) ↦
      let put = write_raw-disk_view flushed m nid (raw_of x) inv.room empty in
      let kept = write_raw-cache flushed m nid (raw_of x) in
      let m1 = write_raw flushed m nid (raw_of x) in
      let settle = settle-IsCoherent m m1 nid x inv e kept.0 kept.1 kept.2 put.1 put.0 in
      elim (Bool-cases ((x.ni).blk_addr == new_addr)) [
        | inl promise ↦
            let mine : promised m nid ≡ true = rw e promise in
            rw (flush_entry, e, promise)
              (record {
                coherent = inv;
                same_view = λ k. refl;
                emptied = empty;
                settled = λ k. elim (ℕ_discrete k nid) [
                  | yes p ↦ rw (p, mine) (ground arith)
                  | no p ↦ ground arith
                ];
                same_promises = λ k. refl;
              })
        | inr block ↦
            let mine : promised m nid ≡ false = rw e block in
            elim (Bool-cases ((x.ni).blk_addr == null_addr)) [
              | inl gone ↦
                  let remove =
                    remove-IsCoherent m m1 nid x inv e kept.0 kept.1 kept.2 put.1 put.0 in
                  rw (flush_entry, e, block, gone)
                    (record {
                      coherent = record {
                        named = remove.0.named;
                        clean = remove.0.clean;
                        cached = remove.0.cached;
                        apart = remove.0.apart;
                        room = remove.0.room;
                      };
                      same_view = remove.1;
                      emptied =
                          unfold del_from_nat_cache in
                          write_raw-IsEmptied flushed m nid (raw_of x) empty;
                      settled = λ k. settled_one m nid k _ mine (remove.2 k);
                      same_promises = remove.3 mine;
                    })
              | inr stays ↦
                  rw (flush_entry, e, block, stays)
                    (record {
                      coherent = settle.0;
                      same_view = settle.1;
                      emptied =
                          unfold clear_nat_cache_dirty in
                          write_raw-IsEmptied flushed m nid (raw_of x) empty;
                      settled = λ k. settled_one m nid k _ mine (settle.2 k);
                      same_promises = settle.3;
                    })
            ]
      ]
]
