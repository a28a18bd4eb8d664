-- ===== src/Orphans.antt =====
-- The list of orphan inodes, sorted by inode number: `check_orphan_space`, `add_orphan_inode` and
-- `remove_orphan_inode` of fs/f2fs/checkpoint.c, each one step under `orphan_inode_mutex`. An
-- allocation that fails is tried again, so it does not show.
pub mod Sorted
mod Tests
use f2fs.Base.{
  ℕ, ◌+◌, ◌-◌, ◌*◌, ◌%◌, ◌^◌, Bool, true, false, List, [], ◌∷◌, add32, sub32, leb, ltb, ◌==◌,
  if◌then◌else◌,
}

pub record Orphans : Type 0 where
  pub orphan_inode_list : List ℕ
  pub n_orphans : ℕ

-- `F2FS_ORPHANS_PER_BLOCK`
abbrev pub orphans_per_block : ℕ
orphans_per_block = 1020

-- Is there room for one more?
pub check_orphan_space : ℕ → Orphans → Bool
check_orphan_space blocks_per_seg o =
    ltb o.n_orphans (sub32 blocks_per_seg 5 * orphans_per_block % 2 ^ 32)

-- The walk of `list_for_each` to the first entry that is not below `ino`, and the list with `ino` in
-- front of that entry.
pub insert : ℕ → List ℕ → List ℕ
insert ino [] = ino ∷ []
insert ino (orphan ∷ rest) =
    let later = insert ino rest in if ltb ino orphan then ino ∷ orphan ∷ rest else orphan ∷ later

-- Whether that walk meets `ino` itself.
pub is_present : ℕ → List ℕ → Bool
is_present ino [] = false
is_present ino (orphan ∷ rest) =
    let later = is_present ino rest in
    if orphan == ino then true else if ltb ino orphan then false else later

pub add_orphan_inode : Orphans → ℕ → Orphans
add_orphan_inode o ino = if is_present ino o.orphan_inode_list then o else record {
  orphan_inode_list = insert ino o.orphan_inode_list;
  n_orphans = add32 o.n_orphans 1;
}

-- `list_del` of the first entry for `ino`.
pub delete : ℕ → List ℕ → List ℕ
delete ino [] = []
delete ino (orphan ∷ rest) =
    let later = delete ino rest in if orphan == ino then rest else orphan ∷ later

-- Whether the whole list has `ino`.
pub has : ℕ → List ℕ → Bool
has ino [] = false
has ino (orphan ∷ rest) = let later = has ino rest in if orphan == ino then true else later

pub remove_orphan_inode : Orphans → ℕ → Orphans
remove_orphan_inode o ino =
    if has ino o.orphan_inode_list
    then record {
      orphan_inode_list = delete ino o.orphan_inode_list;
      n_orphans = sub32 o.n_orphans 1;
    }
    else o
