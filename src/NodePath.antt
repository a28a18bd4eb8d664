-- ===== src/NodePath.antt =====
-- The shape of an inode's node tree: `get_node_path` of fs/f2fs/node.c, `IS_DNODE` of
-- fs/f2fs/node.h and `start_bidx_of_node` of fs/f2fs/gc.c. A file offset, in blocks, is a
-- nonnegative `long`; what `get_node_path` writes to its two arrays is returned as two lists, of
-- the entries written; `BUG()` is `none`.
pub mod Bounds
pub mod Offsets
mod Tests
use f2fs.Base.{
  ℕ, ◌+◌, ◌-◌, ◌*◌, ◌/◌, ◌%◌, Bool, true, false, ◌||◌, Option, none, some, List, [], ◌∷◌, ltb, leb,
  ◌==◌, if◌then◌else◌, sub32, mul32, add32,
}

abbrev pub addrs_per_inode : ℕ
addrs_per_inode = 929

abbrev pub addrs_per_block : ℕ
addrs_per_block = 1018

abbrev pub nids_per_block : ℕ
nids_per_block = 1018

abbrev pub node_dir1_block : ℕ
node_dir1_block = addrs_per_inode + 1

abbrev pub node_dir2_block : ℕ
node_dir2_block = addrs_per_inode + 2

abbrev pub node_ind1_block : ℕ
node_ind1_block = addrs_per_inode + 3

abbrev pub node_ind2_block : ℕ
node_ind2_block = addrs_per_inode + 4

abbrev pub node_dind_block : ℕ
node_dind_block = addrs_per_inode + 5

abbrev pub direct_index : ℕ
direct_index = addrs_per_inode

abbrev pub direct_blks : ℕ
direct_blks = addrs_per_block

abbrev pub dptrs_per_blk : ℕ
dptrs_per_blk = nids_per_block

abbrev pub indirect_blks : ℕ
indirect_blks = addrs_per_block * nids_per_block

abbrev pub dindirect_blks : ℕ
dindirect_blks = indirect_blks * nids_per_block

-- `level`, `offset[0 .. level]` and `noffset[0 .. level]`.
pub record TreePath : Type 0 where
  pub level : ℕ
  pub offset : List ℕ
  pub noffset : List ℕ

abbrev direct_path : ℕ → ℕ → ℕ → TreePath
direct_path slot ofs block = record {
  level = 1;
  offset = slot ∷ block ∷ [];
  noffset = 0 ∷ ofs ∷ [];
}

abbrev indirect_path : ℕ → ℕ → ℕ → TreePath
indirect_path slot ofs block = record {
  level = 2;
  offset = slot ∷ block / direct_blks ∷ block % direct_blks ∷ [];
  noffset = 0 ∷ ofs ∷ (ofs + 1 + block / direct_blks) ∷ [];
}

abbrev double_indirect_path : ℕ → TreePath
double_indirect_path block =
    let i = block / indirect_blks in
    let j = (block / direct_blks) % dptrs_per_blk in
    record {
      level = 3;
      offset = node_dind_block ∷ i ∷ j ∷ block % direct_blks ∷ [];
      noffset =
          0
          ∷ (5 + dptrs_per_blk * 2)
          ∷ (6 + dptrs_per_blk * 2 + i * (dptrs_per_blk + 1))
          ∷ (7 + dptrs_per_blk * 2 + i * (dptrs_per_blk + 1) + j)
          ∷ [];
    }

pub get_node_path : ℕ → Option TreePath
get_node_path block =
    let block1 = block - direct_index in
    let block2 = block1 - direct_blks in
    let block3 = block2 - direct_blks in
    let block4 = block3 - indirect_blks in
    let block5 = block4 - indirect_blks in
    if ltb block direct_index
    then some (record { level = 0; offset = block ∷ []; noffset = 0 ∷ [] })
    else if ltb block1 direct_blks
    then some (direct_path node_dir1_block 1 block1)
    else if ltb block2 direct_blks
    then some (direct_path node_dir2_block 2 block2)
    else if ltb block3 indirect_blks
    then some (indirect_path node_ind1_block 3 block3)
    else if ltb block4 indirect_blks
    then some (indirect_path node_ind2_block (4 + dptrs_per_blk) block4)
    else if ltb block5 dindirect_blks
    then some (double_indirect_path block5)
    else none

-- The blocks that the tree of one inode can reach.
abbrev pub max_blocks : ℕ
max_blocks = direct_index + direct_blks * 2 + indirect_blks * 2 + dindirect_blks

-- `IS_DNODE` of a node page whose footer has this offset.
pub is_dnode : ℕ → Bool
is_dnode ofs =
    if ofs == 3 || ofs == 4 + nids_per_block || ofs == 5 + 2 * nids_per_block
    then false
    else if leb (6 + 2 * nids_per_block) ofs
    then (ofs - (6 + 2 * nids_per_block)) % (nids_per_block + 1) == 0
    else true

-- `unsigned int` arithmetic wraps; `dec` is at most (2 ^ 32 - 1) / 1019, which is an `int`.
pub start_bidx_of_node : ℕ → ℕ
start_bidx_of_node node_ofs =
    let last_indirect = 2 * nids_per_block + 4 in
    let start = λ (bidx : ℕ). add32 (mul32 bidx addrs_per_block) addrs_per_inode in
    if node_ofs == 0
    then 0
    else if leb node_ofs 2
    then start (sub32 node_ofs 1)
    else if leb node_ofs last_indirect
    then start (sub32 (sub32 node_ofs 2) (sub32 node_ofs 4 / (nids_per_block + 1)))
    else start
        (sub32 (sub32 node_ofs 5) (sub32 (sub32 node_ofs last_indirect) 3 / (nids_per_block + 1)))
