-- ===== src/Counts/Laws.antt =====
-- What one call of a counter does, on every branch.
use f2fs.Base.{
  refl, Returns, if◌then◌else◌, ℕ, ◌+◌, ◌-◌, ◌%◌, ◌^◌, ◌<◌, ◌≤◌, ◌≡◌, ◌↔◌, Bool, true, false, none,
  some, update, add64, arith, sum_range, sum_range-update, le-sum_range,
}
use f2fs.Counts.{
  Volume, inc_valid_block_count, dec_valid_block_count, inc_valid_node_count, dec_valid_node_count,
  inc_valid_inode_count, dec_valid_inode_count,
}

-- The counts stay within the volume, and the first `n` inodes own no more blocks than are counted.
pub record IsCounted (n : ℕ) (v : Volume) : Type 0 where
  pub blocks : v.total_valid_block_count ≤ v.user_block_count
  pub nodes : v.total_valid_node_count ≤ v.total_node_count
  pub inodes : v.total_valid_inode_count ≤ v.total_node_count
  pub owned : sum_range 0 n v.i_blocks ≤ v.total_valid_block_count
  pub wide : v.user_block_count < 2 ^ 63
  pub wide_nodes : v.total_node_count < 2 ^ 31

module _ (n : ℕ) (v : Volume) (inode count : ℕ) (inv : IsCounted n v) (h : inode < n) where
  own-le : v.i_blocks inode ≤ v.total_valid_block_count
  own-le = omega (arith, inv.owned, le-sum_range 0 n inode v.i_blocks (omega arith) (omega arith))

  raised :
      (w : ℕ)
      → sum_range 0 n (update v.i_blocks inode w) + v.i_blocks inode ≡ sum_range 0 n v.i_blocks + w
  raised w =
      sum_range-update 0 n inode w v.i_blocks (update v.i_blocks inode w) (λ j. refl) (omega arith)
        (omega arith)

  -- For counts below 2 ^ 63, `inc_valid_block_count` succeeds exactly if the blocks fit the user's
  -- share; then it charges the inode and the volume, and otherwise it changes nothing. It keeps
  -- the counts within the volume.
  pub inc_valid_block_count-IsCounted :
      count < 2 ^ 63
      → let r = inc_valid_block_count v inode count in
        ((r.0 ≡ true) ↔ (v.total_valid_block_count + count ≤ v.user_block_count))
        × (r.0 ≡ false → r.1 ≡ v)
        × (r.0 ≡ true
            → (r.1.total_valid_block_count ≡ v.total_valid_block_count + count)
              × (r.1.i_blocks inode ≡ v.i_blocks inode + count))
        × IsCounted n r.1
  unfolding inc_valid_block_count
  inc_valid_block_count-IsCounted small =
      let own = own-le in
      (
        ground (arith, inv.blocks, inv.wide),
        ground arith,
        ground (arith, inv.blocks, inv.wide),
        ground (arith, inv, raised (add64 (v.i_blocks inode) count)),
      )

  lowered :
      (sum_range 0 n (update v.i_blocks inode (v.i_blocks inode - count)) + v.i_blocks inode
        ≡ sum_range 0 n v.i_blocks + (v.i_blocks inode - count))
      × (v.i_blocks inode ≤ sum_range 0 n v.i_blocks)
  lowered = (
    raised (v.i_blocks inode - count),
    le-sum_range 0 n inode v.i_blocks (omega arith) (omega arith),
  )

  -- `dec_valid_block_count` meets a `BUG_ON` exactly if the inode owns fewer blocks than are released,
  -- and otherwise keeps the counts within the volume.
  pub dec_valid_block_count-IsCounted :
      (v.i_blocks inode < count → dec_valid_block_count v inode count ≡ none)
      × (count ≤ v.i_blocks inode
          → Returns
              (λ w.
                IsCounted n w
                × (w.total_valid_block_count + count ≡ v.total_valid_block_count)
                × (w.i_blocks inode + count ≡ v.i_blocks inode))
              (dec_valid_block_count v inode count))
  unfolding dec_valid_block_count
  dec_valid_block_count-IsCounted =
      let own = own-le in let low = lowered in (λ p. ground arith, λ p. ground (arith, inv, low))

  -- For counts below 2 ^ 31, an inode among the first `n` and counts that are in order (`IsCounted`),
  -- `inc_valid_node_count` succeeds exactly if the blocks fit the user's share and the nodes the node
  -- table. Then it charges both counts and the inode, if one is given. The counts stay in order either
  -- way. But a call that is refused changes something too: it has counted the blocks in
  -- `alloc_valid_block_count`, as one that succeeds has, and nothing else.
  pub inc_valid_node_count-IsCounted :
      (own : Bool)
      → count < 2 ^ 31
      → let r = inc_valid_node_count v (if own then some inode else none) count in
        ((r.0 ≡ true) ↔ (
          (v.total_valid_block_count + count ≤ v.user_block_count)
          × (v.total_valid_node_count + count ≤ v.total_node_count)))
        × (r.0 ≡ false
            → r.1
              ≡ record v { alloc_valid_block_count = (v.alloc_valid_block_count + count) % 2 ^ 64 })
        × (r.0 ≡ true
            → (r.1.total_valid_block_count ≡ v.total_valid_block_count + count)
              × (r.1.alloc_valid_block_count ≡ (v.alloc_valid_block_count + count) % 2 ^ 64)
              × (r.1.total_valid_node_count ≡ v.total_valid_node_count + count)
              × (r.1.i_blocks inode ≡ (if own then v.i_blocks inode + count else v.i_blocks inode)))
        × IsCounted n r.1
  unfolding inc_valid_node_count
  inc_valid_node_count-IsCounted true small =
      let own = own-le in
      (
        ground (arith, inv),
        ground arith,
        ground (arith, inv),
        ground (arith, inv, raised (add64 (v.i_blocks inode) count)),
      )
  inc_valid_node_count-IsCounted false small =
      (ground (arith, inv), ground arith, ground (arith, inv), ground (arith, inv))

  pub dec_valid_node_count-IsCounted :
      (v.i_blocks inode < count → dec_valid_node_count v inode count ≡ none)
      × (v.total_valid_node_count < count → dec_valid_node_count v inode count ≡ none)
      × (count ≤ v.i_blocks inode
          → count ≤ v.total_valid_node_count
          → Returns
              (λ w.
                IsCounted n w
                × (w.total_valid_block_count + count ≡ v.total_valid_block_count)
                × (w.total_valid_node_count + count ≡ v.total_valid_node_count))
              (dec_valid_node_count v inode count))
  unfolding dec_valid_node_count
  dec_valid_node_count-IsCounted =
      let own = own-le in
      let low = lowered in (λ p. ground arith, λ p. ground arith, λ p q. ground (arith, inv, low))

module _ (n : ℕ) (v : Volume) (inv : IsCounted n v) where
  pub inc_valid_inode_count-IsCounted :
      {w : Volume} → inc_valid_inode_count v ≡ some w → IsCounted n w
  unfolding inc_valid_inode_count
  inc_valid_inode_count-IsCounted e = ground (arith, inv)

  pub dec_valid_inode_count-IsCounted :
      {w : Volume} → dec_valid_inode_count v ≡ some w → IsCounted n w
  unfolding dec_valid_inode_count
  dec_valid_inode_count-IsCounted e = ground (arith, inv)
