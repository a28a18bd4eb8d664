-- ===== src/Node/NatCache.antt =====
-- The cache of node addresses: `nat_entry` and `node_info` of fs/f2fs/node.h, and the functions of
-- fs/f2fs/node.c that look up, change, shrink and flush it. The radix tree `nat_root`, a structure of
-- the kernel, is the map from ids to entries; the two lists are of ids, so that an entry that both
-- the tree and a list point to is one entry. `nat_pages` is what the current copy of each NAT block
-- holds (`Nat` has its place on disk), and `journal` the one in the summary of the hot data log.
-- Each function is one step under `nat_tree_lock` and `curseg_mutex`; a `BUG_ON` that is met gives
-- `none`. `NM_WOUT_THRESHOLD` is a constant. The page cache, the `BUG_ON` of `flush_nat_entries` on a page
-- without an address, and the copy to `nat_upd_blkoff` at its end, are left out.
pub mod View
pub mod Lookup
pub mod Dirty
pub mod Address
pub mod Written
pub mod Flush
pub mod Checkpoint
mod Tests
use f2fs.Base.{
  ℕ, zero, suc, ◌+◌, ◌-◌, ◌*◌, ◌/◌, ◌%◌, ◌^◌, Bool, true, false, not, ◌&&◌, ◌||◌, Option, none,
  some, List, [], ◌∷◌, ◌++◌, without, update, add32, sub32, ltb, leb, ◌==◌, if◌then◌else◌, bug_on,
  ◌>>=◌, ◌>>◌,
}
use f2fs.Journal
use f2fs.Journal.{lookup_journal_in_cursum, write_entry, shorten, nat_journal_entries}
use f2fs.Segment.Geometry.{null_addr, new_addr}
use f2fs.Nat.{nat_entry_per_block}
use f2fs.Node.FreeNids.{FreeNids, add_free_nid}

-- `NM_WOUT_THRESHOLD`
abbrev pub nm_wout_threshold : ℕ
nm_wout_threshold = 64 * nat_entry_per_block

pub record NodeInfo : Type 0 where
  pub nid : ℕ
  pub ino : ℕ
  pub blk_addr : ℕ
  pub version : ℕ

pub record NatEntry : Type 0 where
  pub ni : NodeInfo
  pub checkpointed : Bool

-- `f2fs_nat_entry`
pub record RawNat : Type 0 where
  pub version : ℕ
  pub ino : ℕ
  pub block_addr : ℕ

pub record NmInfo : Type 0 where
  pub nat_root : ℕ → Option NatEntry
  pub nat_entries : List ℕ
  pub dirty_nat_entries : List ℕ
  pub nat_cnt : ℕ
  pub journal : Journal.Journal RawNat
  pub nat_pages : ℕ → RawNat
  pub free : FreeNids

pub inc_node_version : ℕ → ℕ
inc_node_version version = if version == 255 then 0 else version + 1

-- `node_info_from_raw_nat` behind `ni->nid = nid`.
pub node_info_from_raw_nat : ℕ → RawNat → NodeInfo
node_info_from_raw_nat nid raw = record {
  nid = nid;
  ino = raw.ino;
  blk_addr = raw.block_addr;
  version = raw.version;
}

-- An entry that is not in the cache, with what its fields are set to.
pub add_to_nat_cache : NmInfo → NatEntry → NmInfo
add_to_nat_cache m e = record m {
  nat_root = update m.nat_root (e.ni).nid (some e);
  nat_entries = m.nat_entries ++ (e.ni).nid ∷ [];
  nat_cnt = add32 m.nat_cnt 1;
}

-- `list_del` takes it from the list that it is on.
pub del_from_nat_cache : NmInfo → ℕ → NmInfo
del_from_nat_cache m nid = record m {
  nat_root = update m.nat_root nid none;
  nat_entries = without nid m.nat_entries;
  dirty_nat_entries = without nid m.dirty_nat_entries;
  nat_cnt = sub32 m.nat_cnt 1;
}

pub set_nat_cache_dirty : NmInfo → ℕ → NmInfo
set_nat_cache_dirty m nid = record m {
  nat_entries = without nid m.nat_entries;
  dirty_nat_entries = without nid m.dirty_nat_entries ++ nid ∷ [];
}

pub clear_nat_cache_dirty : NmInfo → ℕ → NmInfo
clear_nat_cache_dirty m nid = record m {
  nat_entries = without nid m.nat_entries ++ nid ∷ [];
  dirty_nat_entries = without nid m.dirty_nat_entries;
}

pub is_checkpointed_node : NmInfo → ℕ → Bool
is_checkpointed_node m nid = elim (m.nat_root nid) [ none ↦ true | some e ↦ e.checkpointed ]

pub cache_nat_entry : NmInfo → ℕ → RawNat → NmInfo
cache_nat_entry m nid ne = elim (m.nat_root nid) [
  | none ↦ add_to_nat_cache m (record { ni = node_info_from_raw_nat nid ne; checkpointed = true })
  | some e ↦ m
]

-- The entry of `set_node_addr` before its `sanity check`, and the cache with it.
pub entry_for : NmInfo → NodeInfo → ℕ → Option (NatEntry × NmInfo)
entry_for m ni new_blkaddr = elim (m.nat_root ni.nid) [
  | none ↦ do
    bug_on (ni.blk_addr == new_addr)
    some (
      record { ni = ni; checkpointed = true },
      add_to_nat_cache m (record { ni = ni; checkpointed = true }),
    )
  | some e ↦
      if new_blkaddr == new_addr
      then bug_on (not (ni.blk_addr == null_addr)) >> some (record e { ni = ni }, m)
      else some (e, m)
]

-- The four `BUG_ON`s.
pub address_insane : ℕ → ℕ → ℕ → Bool
address_insane old ni_addr new =
    not (old == ni_addr)
    || old == null_addr && new == null_addr
    || old == new_addr && new == new_addr
    || not (old == new_addr) && not (old == null_addr) && new == new_addr

-- The entry with its version, address and `checkpointed` changed.
pub with_address : NatEntry → ℕ → NatEntry
with_address e new_blkaddr = record {
  ni = record (e.ni) {
    blk_addr = new_blkaddr;
    version =
        if not ((e.ni).blk_addr == new_addr) && new_blkaddr == null_addr
        then inc_node_version (e.ni).version
        else (e.ni).version;
  };
  checkpointed = if new_blkaddr == new_addr then false else e.checkpointed;
}

pub set_node_addr : NmInfo → NodeInfo → ℕ → Option NmInfo
set_node_addr m ni new_blkaddr = do
  (e, m') ← entry_for m ni new_blkaddr
  bug_on (address_insane (e.ni).blk_addr ni.blk_addr new_blkaddr)
  some (
      set_nat_cache_dirty
        (record m' { nat_root = update m'.nat_root ni.nid (some (with_address e new_blkaddr)) })
        ni.nid)

-- The loop of `try_to_free_nats`, from the front of the clean list.
pub shrink : ℕ → NmInfo → NmInfo
shrink zero m = m
shrink (suc nr) m = elim m.nat_entries [
  | [] ↦ m
  | nid ∷ rest ↦ shrink nr (del_from_nat_cache m nid)
]

-- No caller uses the result. Where it gets to the loop, `nr_shrink` is not negative.
pub try_to_free_nats : NmInfo → ℕ → NmInfo
try_to_free_nats m nr_shrink =
    if ltb m.nat_cnt (2 * nm_wout_threshold) then m else shrink nr_shrink m

-- What `get_node_info` reads where the cache has no entry.
pub stored : NmInfo → ℕ → RawNat
stored m nid = elim (lookup_journal_in_cursum nat_journal_entries m.journal nid false).0 [
  | some i ↦ (m.journal).entries i
  | none ↦ m.nat_pages nid
]

pub get_node_info : NmInfo → ℕ → NodeInfo × NmInfo
get_node_info m nid = elim (m.nat_root nid) [
  | some e ↦ (record (e.ni) { nid = nid }, m)
  | none ↦ (node_info_from_raw_nat nid (stored m nid), cache_nat_entry m nid (stored m nid))
]

-- One round of the loop of `flush_nats_in_journal`. A fresh entry is zeroed, so it is not
-- `checkpointed`.
pub flush_journal_entry : NmInfo → ℕ → RawNat → NmInfo
flush_journal_entry m nid raw = elim (m.nat_root nid) [
  | some e ↦ set_nat_cache_dirty m nid
  | none ↦
      set_nat_cache_dirty
        (add_to_nat_cache m (record { ni = node_info_from_raw_nat nid raw; checkpointed = false }))
        nid
]

pub flush_journal_from : ℕ → ℕ → NmInfo → NmInfo
flush_journal_from zero i m = m
flush_journal_from (suc left) i m =
    flush_journal_from left (i + 1)
      (flush_journal_entry m ((m.journal).keys i) ((m.journal).entries i))

pub flush_nats_in_journal : NmInfo → Bool × NmInfo
flush_nats_in_journal m =
    let n = (m.journal).n in
    let m' = flush_journal_from n 0 m in
    if ltb n nat_journal_entries
    then (false, m)
    else (true, record m' { journal = shorten m'.journal n })

abbrev pub raw_of : NatEntry → RawNat
raw_of e = record { version = (e.ni).version; ino = (e.ni).ino; block_addr = (e.ni).blk_addr }

-- Where one dirty entry is written to: the journal, if it was not just emptied and has room, and else
-- the NAT page.
pub write_raw : Bool → NmInfo → ℕ → RawNat → NmInfo
write_raw flushed m nid raw =
    let (offset, j) = lookup_journal_in_cursum nat_journal_entries m.journal nid true in
    let to_page = record m { nat_pages = update m.nat_pages nid raw } in
    if flushed
    then to_page
    else elim offset [ none ↦ to_page | some i ↦ record m { journal = write_entry j i nid raw } ]

-- One round of the loop of `flush_nat_entries`.
pub flush_entry : Bool → NmInfo → ℕ → NmInfo
flush_entry flushed m nid = elim (m.nat_root nid) [
  | none ↦ m
  | some e ↦
      let m1 = write_raw flushed m nid (raw_of e) in
      let m2 = del_from_nat_cache m1 nid in
      let m3 =
        clear_nat_cache_dirty
          (record m1 {
            nat_root = update m1.nat_root nid (some (record e { checkpointed = true }));
          })
          nid in
      if (e.ni).blk_addr == new_addr
      then m
      else if (e.ni).blk_addr == null_addr
      then record m2 { free = (add_free_nid m2.free nid).1 }
      else m3
]

pub flush_list : Bool → List ℕ → NmInfo → NmInfo
flush_list flushed [] m = m
flush_list flushed (nid ∷ rest) m = flush_list flushed rest (flush_entry flushed m nid)

pub flush_nat_entries : NmInfo → NmInfo
flush_nat_entries m =
    let (flushed, m') = flush_nats_in_journal m in
    let m'' = flush_list flushed m'.dirty_nat_entries m' in
    try_to_free_nats m'' (m''.nat_cnt - nm_wout_threshold)
