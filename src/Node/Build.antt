-- ===== src/Node/Build.antt =====
-- `scan_nat_page` and `build_free_nids` of fs/f2fs/node.c, which fill the list of free ids when it has
-- run out. `get_next_scan_nid` and `set_next_scan_nid` read and write one field under its lock, which
-- is an argument and a result here. `max_nid` is below 2 ^ 32, so that ids do not wrap around; the
-- read-ahead is left out. A missing result is a `BUG_ON`; `scan_pages` has none either where
-- its fuel is too little.
pub mod Scan
pub mod Endless
pub mod Fill
mod Tests
use f2fs.Base.{
  ℕ, zero, suc, ◌+◌, ◌-◌, ◌*◌, ◌/◌, ◌%◌, Bool, true, false, not, ◌&&◌, ◌||◌, Option, none, some,
  List, [], ◌∷◌, bit, ltb, leb, ◌==◌, if◌then◌else◌, bug_on, ◌>>=◌, ◌>>◌,
}
use f2fs.Journal.{Journal}
use f2fs.Segment.Geometry.{null_addr, new_addr}
use f2fs.Nat.{nat_entry_per_block}
use f2fs.Node.FreeNids.{FreeNid, FreeNids, max_free_nids, add_free_nid, remove_free_nid, take_nid}
use f2fs.Node.NatCache.{NatEntry, RawNat, NmInfo}

-- The loop over the entries of a page, from id `nid` on: how many ids it adds, and the list.
pub scan_entries : ℕ → (ℕ → RawNat) → ℕ → FreeNids → Option (ℕ × FreeNids)
scan_entries zero pages nid f = some (0, f)
scan_entries (suc left) pages nid f =
    let added = add_free_nid f nid in
    let next = if (pages nid).block_addr == null_addr then added else (false, f) in
    let rest = scan_entries left pages (nid + 1) next.1 in
    do bug_on ((pages nid).block_addr == new_addr); (fcnt, f') ← rest; some (bit next.0 + fcnt, f')

-- `nat_pages` has the entries of each page under their ids.
pub scan_nat_page : (ℕ → RawNat) → ℕ → FreeNids → Option (ℕ × FreeNids)
scan_nat_page pages start_nid f =
    let start = if start_nid == 0 then 1 else start_nid in
    scan_entries (nat_entry_per_block - start % nat_entry_per_block) pages start f

-- The variables of the `while (1)` loop.
pub record ScanState : Type 0 where
  pub nid : ℕ
  pub is_cycled : Bool
  pub fcnt : ℕ
  pub free : FreeNids

-- A round of the loop: whether it goes on, and the variables. There is none if it meets a `BUG_ON`.
pub scan_round : (ℕ → RawNat) → ℕ → ℕ → ScanState → Option (Bool × ScanState)
scan_round pages max_nid init st = do
  (more, f) ← scan_nat_page pages st.nid st.free
  let next = st.nid + (nat_entry_per_block - st.nid % nat_entry_per_block) in
      let nid' = if leb max_nid next then 0 else next in
      let cycled = st.is_cycled || leb max_nid next in
      some (
        not (ltb max_free_nids (st.fcnt + more) || cycled && leb init nid'),
        record { nid = nid'; is_cycled = cycled; fcnt = st.fcnt + more; free = f },
      )

-- The loop: the id after the last page, and the list.
pub scan_pages : ℕ → (ℕ → RawNat) → ℕ → ℕ → ScanState → Option (ℕ × FreeNids)
scan_pages zero pages max_nid init st = none
scan_pages (suc fuel) pages max_nid init st = do
  (again, st') ← scan_round pages max_nid init st
  let rest = scan_pages fuel pages max_nid init st' in
      if again then rest else some (st'.nid, st'.free)

-- The loop over the journal, from entry `i` on.
pub take_journal : ℕ → Journal RawNat → ℕ → FreeNids → FreeNids
take_journal zero j i f = f
take_journal (suc left) j i f = take_journal left j (i + 1) (
    if (j.entries i).block_addr == null_addr
    then (add_free_nid f (j.keys i)).1
    else remove_free_nid f (j.keys i))

abbrev pub in_use : Option NatEntry → Bool
in_use none = false
in_use (some e) = not ((e.ni).blk_addr == null_addr)

-- The loop over the list itself.
pub take_cached : (ℕ → Option NatEntry) → List FreeNid → FreeNids → FreeNids
take_cached nat_root [] f = f
take_cached nat_root (i ∷ rest) f =
    take_cached nat_root rest (if in_use (nat_root i.nid) then remove_free_nid f i.nid else f)

-- From `next_scan_nid` on, with the new value of it. A page has an id at least, so that two rounds
-- through all the ids are enough fuel.
pub build_free_nids : NmInfo → ℕ → ℕ → Option (ℕ × NmInfo)
build_free_nids m max_nid next_scan_nid = do
  (nid, f) ←
      scan_pages (2 * max_nid + 2) m.nat_pages max_nid next_scan_nid
        (record { nid = next_scan_nid; is_cycled = false; fcnt = 0; free = m.free })
  let f' = take_journal (m.journal).n m.journal 0 f in
      some (nid, record m { free = take_cached m.nat_root f'.free_nid_list f' })
