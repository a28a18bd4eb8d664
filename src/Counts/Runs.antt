-- ===== src/Counts/Runs.antt =====
-- Any sequence of calls: however they interleave, each is one step under `stat_lock`.
use f2fs.Base.{
  ℕ, ◌<◌, ◌^◌, ◌≡◌, Bool, Option, none, some, List, [], ◌∷◌, ◌>>=◌, >>=-eq-some, arith,
  if◌then◌else◌, dec_lt, Returns, subst, some_inj, sym, ◌∙◌, none≢some,
}
use f2fs.Counts.{
  Volume, inc_valid_block_count, dec_valid_block_count, inc_valid_node_count, dec_valid_node_count,
  inc_valid_inode_count, dec_valid_inode_count,
}
use f2fs.Counts.Laws.{
  IsCounted, inc_valid_block_count-IsCounted, dec_valid_block_count-IsCounted,
  inc_valid_node_count-IsCounted, dec_valid_node_count-IsCounted, inc_valid_inode_count-IsCounted,
  dec_valid_inode_count-IsCounted,
}

pub data Call : Type 0 where
  inc_blocks dec_blocks : ℕ → ℕ → Call
  inc_nodes : Bool → ℕ → ℕ → Call
  dec_nodes : ℕ → ℕ → Call
  inc_inode dec_inode : Call

unfoldable pub step : Volume → Call → Option Volume
step v (inc_blocks inode count) = some (inc_valid_block_count v inode count).1
step v (dec_blocks inode count) = dec_valid_block_count v inode count
step v (inc_nodes own inode count) =
    some (inc_valid_node_count v (if own then some inode else none) count).1
step v (dec_nodes inode count) = dec_valid_node_count v inode count
step v inc_inode = inc_valid_inode_count v
step v dec_inode = dec_valid_inode_count v

unfoldable pub run : Volume → List Call → Option Volume
run v [] = some v
run v (c ∷ cs) = step v c >>= λ (w : Volume). run w cs

-- The inode is one of the first `n`, and the count is one that the callers use.
abbrev pub IsCall : ℕ → Call → Type 0
IsCall n (inc_blocks inode count) = (inode < n) × (count < 2 ^ 31)
IsCall n (dec_blocks inode count) = (inode < n) × (count < 2 ^ 31)
IsCall n (inc_nodes own inode count) = (inode < n) × (count < 2 ^ 31)
IsCall n (dec_nodes inode count) = (inode < n) × (count < 2 ^ 31)
IsCall n inc_inode = Unit
IsCall n dec_inode = Unit

abbrev pub All : ℕ → List Call → Type 0
All n [] = Unit
All n (c ∷ cs) = IsCall n c × All n cs

of_Returns : (P : Volume → Type 0) (m : Option Volume) {w : Volume} → Returns P m → m ≡ some w → P w
of_Returns P none r e = absurd r
of_Returns P (some a) r e = subst P (some_inj e) r

step-IsCounted :
    (n : ℕ) (v : Volume) (c : Call) {w : Volume}
    → IsCounted n v
    → IsCall n c
    → step v c ≡ some w
    → IsCounted n w
unfolding step
step-IsCounted n v (inc_blocks inode count) inv h e =
    subst (IsCounted n) (some_inj e)
      (inc_valid_block_count-IsCounted n v inode count inv h.0 (omega arith)).3
step-IsCounted n v (dec_blocks inode count) inv h e =
    let r = dec_valid_block_count-IsCounted n v inode count inv h.0 in
    elim (dec_lt (v.i_blocks inode) count) [
      | yes p ↦ absurd (none≢some (sym (r.0 p) ∙ e))
      | no p ↦ (of_Returns _ _ (r.1 (omega arith)) e).0
    ]
step-IsCounted n v (inc_nodes own inode count) inv h e =
    subst (IsCounted n) (some_inj e)
      (inc_valid_node_count-IsCounted n v inode count inv h.0 own h.1).3
step-IsCounted n v (dec_nodes inode count) inv h e =
    let r = dec_valid_node_count-IsCounted n v inode count inv h.0 in
    elim (dec_lt (v.i_blocks inode) count) [
      | yes p ↦ absurd (none≢some (sym (r.0 p) ∙ e))
      | no p ↦ elim (dec_lt v.total_valid_node_count count) [
        | yes q ↦ absurd (none≢some (sym (r.1 q) ∙ e))
        | no q ↦ (of_Returns _ _ (r.2 (omega arith) (omega arith)) e).0
      ]
    ]
step-IsCounted n v inc_inode inv h e = inc_valid_inode_count-IsCounted n v inv e
step-IsCounted n v dec_inode inv h e = dec_valid_inode_count-IsCounted n v inv e

-- Whatever calls are made for the inodes that are counted, with counts below 2 ^ 31 and refused
-- calls included, the counts stay within the volume and cover what the inodes own, for as long as
-- no `BUG_ON` is met.
pub run-IsCounted :
    (n : ℕ) (v : Volume) (cs : List Call) {w : Volume}
    → IsCounted n v
    → All n cs
    → run v cs ≡ some w
    → IsCounted n w
unfolding run
run-IsCounted n v [] inv h e = subst (IsCounted n) (some_inj e) inv
run-IsCounted n v (c ∷ cs) inv h e =
    let (u, e1, e2) = >>=-eq-some (step v c) (λ (x : Volume). run x cs) e in
    run-IsCounted n u cs (step-IsCounted n v c inv h.0 e1) h.1 e2
