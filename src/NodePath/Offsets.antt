-- ===== src/NodePath/Offsets.antt =====
-- Node offsets: what `get_node_path` numbers, `IS_DNODE` and `start_bidx_of_node` read back.
use f2fs.Base.{ℕ, ◌≤◌, ◌≡◌, true, false, some, get_or, arith}
use f2fs.NodePath.{TreePath, get_node_path, is_dnode}

abbrev pub leaf : TreePath → ℕ
leaf p = get_or p.noffset p.level 0

abbrev pub slot : TreePath → ℕ
slot p = get_or p.offset p.level 0

-- Up to two levels below the inode `IS_DNODE` is right: true of the last node of a path, and false
-- of the indirect node above it.
pub is_dnode-get_node_path :
    (block : ℕ) {p : TreePath}
    → get_node_path block ≡ some p
    → p.level ≤ 2
    → (is_dnode (leaf p) ≡ true) × (p.level ≡ 2 → is_dnode (get_or p.noffset 1 0) ≡ false)
unfolding get_node_path is_dnode
is_dnode-get_node_path block e h = ground arith

-- Below the double indirect node `IS_DNODE` is the wrong way round: for every path of level 3 it
-- is false of the direct node at its end and true of the indirect node above that; it is right
-- about the double indirect node.
pub is_dnode-inverted :
    (block : ℕ) {p : TreePath}
    → get_node_path block ≡ some p
    → p.level ≡ 3
    → (is_dnode (leaf p) ≡ false)
      × (is_dnode (get_or p.noffset 2 0) ≡ true)
      × (is_dnode (get_or p.noffset 1 0) ≡ false)
unfolding get_node_path is_dnode
is_dnode-inverted block e h = ground arith
