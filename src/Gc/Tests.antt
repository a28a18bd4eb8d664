-- ===== src/Gc/Tests.antt =====
-- Costs, on the small volume of the segment manager's tests.
use f2fs.Base.{◌^◌, arith, linear_search, Returns}
use f2fs.Segment.Example.{volume, volume-IsLayout, sit, sit-IsSit, lists}
use f2fs.Gc.{bg_gc, fg_gc, select_policy}
use f2fs.Gc.Victim.{search_from, first_round, get_victim_by_default}
use f2fs.Gc.Victim.Choice.{IsVictim, get_victim_by_default-IsVictim}
use f2fs.Gc.Victim.Least.{IsLeast}
use f2fs.Gc.Victim.Reuse.{used_blocks, search_from-reuse}

get_victim_by_default-IsVictim_example :
    Returns
      (IsVictim volume lists (λ t. 2) fg_gc (select_policy volume lists (λ t. 0) fg_gc 0))
      (get_victim_by_default linear_search (λ n. n) volume sit lists (λ t. 2) (λ t. 0) fg_gc 0)
get_victim_by_default-IsVictim_example =
    get_victim_by_default-IsVictim linear_search (λ n. n) volume lists (λ t. 2) fg_gc sit (λ t. 0) 0
      volume-IsLayout

search_from-reuse_example :
    Returns
      (IsLeast volume lists
        (λ t. 2)
        bg_gc
        (select_policy volume lists (λ t. 3) bg_gc (2 ^ 17))
        (used_blocks volume sit))
      (search_from linear_search
        (λ n. n)
        volume
        lists
        (λ t. 2)
        bg_gc
        (select_policy volume lists (λ t. 3) bg_gc (2 ^ 17))
        35
        (first_round linear_search
          (λ n. n)
          volume
          sit
          (λ t. 3)
          (select_policy volume lists (λ t. 3) bg_gc (2 ^ 17))))
search_from-reuse_example =
    search_from-reuse linear_search (λ n. n) volume lists (λ t. 2) (λ t. 3) sit (2 ^ 17)
      volume-IsLayout sit-IsSit (omega arith)
