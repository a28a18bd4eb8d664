-- ===== src/Counts/Tests.antt =====
-- The counters on a volume for 100 blocks and 40 nodes, in which inode 1 owns 7 of 9 blocks.
use f2fs.Base.{
  ◌+◌, ◌%◌, ◌^◌, ◌<◌, ◌≤◌, ◌≡◌, ◌↔◌, refl, true, false, some, [], ◌∷◌, List, arith, sum_range,
  if◌then◌else◌, ◌==◌, update,
}
use f2fs.Counts.{
  Volume, inc_valid_block_count, inc_valid_node_count, dec_valid_node_count, inc_valid_inode_count,
}
use f2fs.Counts.Laws.{IsCounted, inc_valid_node_count-IsCounted}
use f2fs.Counts.Runs.{
  Call, inc_blocks, dec_nodes, inc_nodes, inc_inode, All, step, run, run-IsCounted,
}

abbrev small : Volume
small = record {
  user_block_count = 100;
  total_node_count = 40;
  total_valid_block_count = 9;
  alloc_valid_block_count = 9;
  total_valid_node_count = 3;
  total_valid_inode_count = 2;
  i_blocks = λ i. if i == 1 then 7 else if i == 2 then 2 else 0;
}

small-IsCounted : IsCounted 4 small
unfolding sum_range
small-IsCounted = omega arith

inc_valid_node_count-IsCounted_example :
    let r = inc_valid_node_count small (some 1) 95 in
    ((r.0 ≡ true) ↔ ((9 + 95 ≤ 100) × (3 + 95 ≤ 40)))
    × (r.0 ≡ false → r.1 ≡ record small { alloc_valid_block_count = (9 + 95) % 2 ^ 64 })
    × (r.0 ≡ true
        → (r.1.total_valid_block_count ≡ 9 + 95)
          × (r.1.alloc_valid_block_count ≡ (9 + 95) % 2 ^ 64)
          × (r.1.total_valid_node_count ≡ 3 + 95)
          × (r.1.i_blocks 1 ≡ 7 + 95))
    × IsCounted 4 r.1
inc_valid_node_count-IsCounted_example =
    inc_valid_node_count-IsCounted 4 small 1 95 small-IsCounted (omega arith) true (omega arith)

-- Two blocks for inode 1, an inode's first node, a refused call, and a node given back.
abbrev script : List Call
script = inc_blocks 1 2 ∷ inc_inode ∷ inc_nodes true 3 1 ∷ inc_blocks 2 500 ∷ dec_nodes 1 1 ∷ []

abbrev after_script : Volume
after_script = record small {
  total_valid_block_count = 11;
  alloc_valid_block_count = 12;
  total_valid_inode_count = 3;
  i_blocks = update (update (update small.i_blocks 1 9) 3 1) 1 8;
}

run-script : run small script ≡ some after_script
unfolding run step inc_valid_block_count inc_valid_node_count dec_valid_node_count
    inc_valid_inode_count
run-script = refl

script-All : All 4 script
script-All =
    let o : (1 < 4) × (2 < 2 ^ 31) = (omega arith, omega arith) in
    let i : (3 < 4) × (1 < 2 ^ 31) = (omega arith, omega arith) in
    let r : (2 < 4) × (500 < 2 ^ 31) = (omega arith, omega arith) in
    let d : (1 < 4) × (1 < 2 ^ 31) = (omega arith, omega arith) in (o, (tt, (i, (r, (d, tt)))))

run-IsCounted_example : IsCounted 4 after_script
run-IsCounted_example = run-IsCounted 4 small script small-IsCounted script-All run-script
