-- ===== src/Node/FreeNids.antt =====
-- The list of free node ids: `free_nid` of fs/f2fs/node.h, and `__lookup_free_nid_list`,
-- `add_free_nid`, `remove_free_nid`, `alloc_nid`, `alloc_nid_done` and `alloc_nid_failed` of
-- fs/f2fs/node.c. `remove_free_nid`, `take_nid`, `alloc_nid_done` and `insert_free_nid` run under
-- `free_nid_list_lock`; `add_free_nid` tests `fcnt` before it takes the lock, and `alloc_nid_failed`
-- is `alloc_nid_done` and then `add_free_nid`. An allocation of memory that fails is tried again, so
-- it does not show. The list is in the order of `list_add_tail`, the oldest first.
pub mod Entries
pub mod Listed
pub mod Laws
pub mod Threads
mod Tests
use f2fs.Base.{
  ℕ, ◌+◌, ◌-◌, ◌*◌, ◌/◌, ◌^◌, Bool, true, false, ◌||◌, Option, none, some, List, [], ◌∷◌, ◌++◌,
  add32, sub32, ltb, ◌==◌, if◌then◌else◌, bug_on, ◌>>=◌, ◌>>◌,
}
use f2fs.Nat.{nat_entry_per_block}

-- `MAX_FREE_NIDS`
abbrev pub max_free_nids : ℕ
max_free_nids = nat_entry_per_block * 4

pub data NidState : Type 0 where
  nid_new nid_alloc : NidState

abbrev pub is_new : NidState → Bool
is_new nid_new = true
is_new nid_alloc = false

pub record FreeNid : Type 0 where
  pub nid : ℕ
  pub state : NidState

pub record FreeNids : Type 0 where
  pub free_nid_list : List FreeNid
  pub fcnt : ℕ

-- `__lookup_free_nid_list`
pub lookup_free_nid : ℕ → List FreeNid → Option FreeNid
lookup_free_nid n [] = none
lookup_free_nid n (i ∷ rest) =
    let later = lookup_free_nid n rest in if i.nid == n then some i else later

-- `__del_from_free_nid_list` of the entry that the lookup gives.
pub del_free_nid : ℕ → List FreeNid → List FreeNid
del_free_nid n [] = []
del_free_nid n (i ∷ rest) =
    let later = del_free_nid n rest in if i.nid == n then rest else i ∷ later

-- `add_free_nid` under the lock: whether the id was added, and the list.
pub insert_free_nid : FreeNids → ℕ → Bool × FreeNids
insert_free_nid f nid = elim (lookup_free_nid nid f.free_nid_list) [
  | some i ↦ (false, f)
  | none ↦ (
    true,
    record {
      free_nid_list = f.free_nid_list ++ record { nid = nid; state = nid_new } ∷ [];
      fcnt = add32 f.fcnt 1;
    },
  )
]

-- As one thread runs it.
pub add_free_nid : FreeNids → ℕ → Bool × FreeNids
add_free_nid f nid = if ltb (2 * max_free_nids) f.fcnt then (false, f) else insert_free_nid f nid

pub remove_free_nid : FreeNids → ℕ → FreeNids
remove_free_nid f nid = elim (lookup_free_nid nid f.free_nid_list) [
  | none ↦ f
  | some i ↦
      if is_new i.state
      then record { free_nid_list = del_free_nid nid f.free_nid_list; fcnt = sub32 f.fcnt 1 }
      else f
]

-- The walk of `alloc_nid` to the first entry that is new, and the list with that entry allocated. An
-- empty list, and a list without such an entry, meet a `BUG_ON`.
pub take_new : List FreeNid → Option (ℕ × List FreeNid)
take_new [] = none
take_new (i ∷ rest) =
    let later = take_new rest in
    if is_new i.state
    then some (i.nid, record i { state = nid_alloc } ∷ rest)
    else later >>= λ (r : ℕ × List FreeNid). some (r.0, i ∷ r.1)

-- The end of `alloc_nid`, behind the second test of `fcnt`.
pub take_nid : FreeNids → Option (ℕ × FreeNids)
take_nid f = do
  (nid, list) ← take_new f.free_nid_list
  some (nid, record { free_nid_list = list; fcnt = sub32 f.fcnt 1 })

pub alloc_nid_done : FreeNids → ℕ → Option FreeNids
alloc_nid_done f nid = elim (lookup_free_nid nid f.free_nid_list) [
  | none ↦ some f
  | some i ↦ do
    bug_on (is_new i.state)
    some (record f { free_nid_list = del_free_nid nid f.free_nid_list })
]

pub alloc_nid_failed : FreeNids → ℕ → Option FreeNids
alloc_nid_failed f nid = do g ← alloc_nid_done f nid; some (add_free_nid g nid).1
