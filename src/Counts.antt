-- ===== src/Counts.antt =====
-- The counts of valid blocks, nodes and inodes of fs/f2fs/f2fs.h, each step under `stat_lock`.
-- `block_t` is 64 bits wide, the node and inode counts 32. `i_blocks` holds the block count of
-- each inode. A `BUG_ON` that is met gives `none`.
pub mod Laws
pub mod Runs
mod Tests
use f2fs.Base.{
  ℕ, ◌+◌, ◌-◌, ◌%◌, ◌^◌, Bool, true, false, Option, none, some, update, add32, add64, ltb, ◌==◌,
  if◌then◌else◌, bug_on, ◌>>=◌, ◌>>◌,
}

pub record Volume : Type 0 where
  pub user_block_count : ℕ
  pub total_node_count : ℕ
  pub total_valid_block_count : ℕ
  pub alloc_valid_block_count : ℕ
  pub total_valid_node_count : ℕ
  pub total_valid_inode_count : ℕ
  pub i_blocks : ℕ → ℕ

pub inc_valid_block_count : Volume → ℕ → ℕ → Bool × Volume
inc_valid_block_count v inode count =
    let valid_block_count = add64 v.total_valid_block_count count in
    if ltb v.user_block_count valid_block_count then (false, v) else (
      true,
      record v {
        i_blocks = update v.i_blocks inode (add64 (v.i_blocks inode) count);
        total_valid_block_count = valid_block_count;
        alloc_valid_block_count = add64 v.alloc_valid_block_count count;
      },
    )

-- The subtractions run only where the `BUG_ON`s let them, and so do not wrap.
pub dec_valid_block_count : Volume → ℕ → ℕ → Option Volume
dec_valid_block_count v inode count = do
  bug_on (ltb v.total_valid_block_count count)
  bug_on (ltb (v.i_blocks inode) count)
  some (record v {
    i_blocks = update v.i_blocks inode (v.i_blocks inode - count);
    total_valid_block_count = v.total_valid_block_count - count;
  })

-- `if (inode) inode->i_blocks += count`
abbrev pub charge : (ℕ → ℕ) → Option ℕ → ℕ → ℕ → ℕ
charge i_blocks none count = i_blocks
charge i_blocks (some inode) count = update i_blocks inode (add64 (i_blocks inode) count)

-- `alloc_valid_block_count` is raised before the tests.
pub inc_valid_node_count : Volume → Option ℕ → ℕ → Bool × Volume
inc_valid_node_count v inode count =
    let valid_block_count = add64 v.total_valid_block_count count in
    let v' = record v { alloc_valid_block_count = add64 v.alloc_valid_block_count count } in
    let valid_node_count = add32 v.total_valid_node_count count in
    if ltb v.user_block_count valid_block_count
    then (false, v')
    else if ltb v.total_node_count valid_node_count
    then (false, v')
    else (
      true,
      record v' {
        i_blocks = charge v.i_blocks inode count;
        total_valid_node_count = valid_node_count;
        total_valid_block_count = valid_block_count;
      },
    )

pub dec_valid_node_count : Volume → ℕ → ℕ → Option Volume
dec_valid_node_count v inode count = do
  bug_on (ltb v.total_valid_block_count count)
  bug_on (ltb v.total_valid_node_count count)
  bug_on (ltb (v.i_blocks inode) count)
  some (record v {
    i_blocks = update v.i_blocks inode (v.i_blocks inode - count);
    total_valid_node_count = v.total_valid_node_count - count;
    total_valid_block_count = v.total_valid_block_count - count;
  })

pub inc_valid_inode_count : Volume → Option Volume
inc_valid_inode_count v = do
  bug_on (v.total_valid_inode_count == v.total_node_count)
  some (record v { total_valid_inode_count = add32 v.total_valid_inode_count 1 })

pub dec_valid_inode_count : Volume → Option Volume
dec_valid_inode_count v = do
  bug_on (v.total_valid_inode_count == 0)
  some (record v { total_valid_inode_count = v.total_valid_inode_count - 1 })
