-- ===== src/NodePath/Bounds.antt =====
-- The paths that `get_node_path` gives stay inside the arrays that they index.
use f2fs.Base.{ℕ, ◌+◌, ◌≤◌, ◌<◌, ◌≡◌, ◌↔◌, none, some, length, get_or, arith}
use f2fs.NodePath.{TreePath, get_node_path, max_blocks, addrs_per_inode, addrs_per_block}

-- An inode addresses its data itself (level 0), or by one of the five node ids behind its
-- addresses; each further node has 1018 slots.
pub record IsTreePath (p : TreePath) : Type 0 where
  pub depth : p.level ≤ 3
  pub offsets : length p.offset ≡ p.level + 1
  pub noffsets : length p.noffset ≡ p.level + 1
  pub in_inode : p.level ≡ 0 → get_or p.offset 0 0 < addrs_per_inode
  pub in_nids :
      1 ≤ p.level
      → (addrs_per_inode < get_or p.offset 0 0) × (get_or p.offset 0 0 ≤ addrs_per_inode + 5)
  pub second : 1 ≤ p.level → get_or p.offset 1 0 < addrs_per_block
  pub third : 2 ≤ p.level → get_or p.offset 2 0 < addrs_per_block
  pub fourth : 3 ≤ p.level → get_or p.offset 3 0 < addrs_per_block
  -- Node offsets grow from the root to the leaf.
  pub growing1 : 1 ≤ p.level → get_or p.noffset 0 0 < get_or p.noffset 1 0
  pub growing2 : 2 ≤ p.level → get_or p.noffset 1 0 < get_or p.noffset 2 0
  pub growing3 : 3 ≤ p.level → get_or p.noffset 2 0 < get_or p.noffset 3 0

-- `get_node_path` meets `BUG()` exactly at the offsets that no tree of four levels reaches.
pub get_node_path-eq-none_iff : (block : ℕ) → (get_node_path block ≡ none) ↔ (max_blocks ≤ block)
unfolding get_node_path
get_node_path-eq-none_iff block = ground arith

-- Every path that `get_node_path` gives has at most four nodes, writes one slot and one node
-- offset for each (so neither array of four overflows), indexes the inode's data addresses at
-- level 0 and its five node ids otherwise, stays below 1018 slots in every further node, and its
-- node offsets grow.
pub get_node_path-IsTreePath :
    (block : ℕ) {p : TreePath} → get_node_path block ≡ some p → IsTreePath p
unfolding get_node_path
get_node_path-IsTreePath block e = ground arith
