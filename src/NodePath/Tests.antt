-- ===== src/NodePath/Tests.antt =====
-- Paths at the edges of the ranges of `get_node_path`.
use f2fs.Base.{◌≡◌, refl, true, false, none, some, [], ◌∷◌, get_or}
use f2fs.NodePath.{TreePath, get_node_path, is_dnode, max_blocks}
use f2fs.NodePath.Bounds.{IsTreePath, get_node_path-IsTreePath}
use f2fs.NodePath.Offsets.{leaf, is_dnode-inverted}

-- The last block below the second indirect node.
abbrev in_second_indirect : TreePath
in_second_indirect = record {
  level = 2;
  offset = 933 ∷ 1017 ∷ 1017 ∷ [];
  noffset = 0 ∷ 1022 ∷ 2040 ∷ [];
}

path_indirect : get_node_path 2075612 ≡ some in_second_indirect
unfolding get_node_path
path_indirect = refl

-- Two direct nodes and five blocks into the double indirect tree.
abbrev in_double : TreePath
in_double = record {
  level = 3;
  offset = 934 ∷ 0 ∷ 2 ∷ 5 ∷ [];
  noffset = 0 ∷ 2041 ∷ 2042 ∷ 2045 ∷ [];
}

path_double : get_node_path 2077654 ≡ some in_double
unfolding get_node_path
path_double = refl

past_the_tree : get_node_path max_blocks ≡ none
unfolding get_node_path
past_the_tree = refl

get_node_path-IsTreePath_example : IsTreePath in_double
get_node_path-IsTreePath_example = get_node_path-IsTreePath 2077654 path_double

is_dnode-inverted_example :
    (is_dnode (leaf in_double) ≡ false)
    × (is_dnode (get_or in_double.noffset 2 0) ≡ true)
    × (is_dnode (get_or in_double.noffset 1 0) ≡ false)
is_dnode-inverted_example = is_dnode-inverted 2077654 path_double refl
