-- ===== src/Orphans/Tests.antt =====
-- A list of two orphans.
use f2fs.Base.{ℕ, ◌≡◌, refl, true, false, [], ◌∷◌, arith, ◌==◌, if◌then◌else◌}
use f2fs.Orphans.{Orphans, insert, is_present, add_orphan_inode, remove_orphan_inode, has}
use f2fs.Orphans.Sorted.{
  rises, IsOrphans, add_orphan_inode-IsOrphans, remove_orphan_inode-IsOrphans,
}

abbrev two : Orphans
two = record { orphan_inode_list = 5 ∷ 9 ∷ []; n_orphans = 2 }

two-IsOrphans : IsOrphans two
unfolding rises
two-IsOrphans = record { sorted = refl; counted = refl; small = omega arith }

add_between : add_orphan_inode two 7 ≡ record { orphan_inode_list = 5 ∷ 7 ∷ 9 ∷ []; n_orphans = 3 }
unfolding add_orphan_inode insert is_present
add_between = refl

add_orphan_inode-IsOrphans_example :
    IsOrphans (add_orphan_inode two 7)
    × ((k : ℕ)
        → has k (add_orphan_inode two 7).orphan_inode_list
          ≡ (if k == 7 then true else has k two.orphan_inode_list))
add_orphan_inode-IsOrphans_example =
    add_orphan_inode-IsOrphans two 7 two-IsOrphans (omega arith) (omega arith)

remove_orphan_inode-IsOrphans_example :
    IsOrphans (remove_orphan_inode two 5)
    × ((k : ℕ)
        → has k (remove_orphan_inode two 5).orphan_inode_list
          ≡ (if k == 5 then false else has k two.orphan_inode_list))
remove_orphan_inode-IsOrphans_example = remove_orphan_inode-IsOrphans two 5 two-IsOrphans
