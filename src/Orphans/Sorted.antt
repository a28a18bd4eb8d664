-- ===== src/Orphans/Sorted.antt =====
-- The list stays sorted and without repetition, and the count is its length.
use f2fs.Base.{
  ℕ, ◌+◌, ◌^◌, ◌<◌, ◌≤◌, ◌≡◌, refl, ap, Bool, true, false, ◌&&◌, List, [], ◌∷◌, length, arith, ltb,
  ◌==◌, if◌then◌else◌, Bool-cases, inl, inr,
}
use f2fs.Orphans.{Orphans, insert, is_present, delete, has, add_orphan_inode, remove_orphan_inode}

-- Every entry is above `low`, and they rise.
unfoldable pub rises : ℕ → List ℕ → Bool
rises low [] = true
rises low (x ∷ xs) = ltb low x && rises x xs

-- Inode numbers start at 1.
pub record IsOrphans (o : Orphans) : Type 0 where
  pub sorted : rises 0 o.orphan_inode_list ≡ true
  pub counted : o.n_orphans ≡ length o.orphan_inode_list
  pub small : length o.orphan_inode_list + 1 < 2 ^ 32

has-below : (ino low : ℕ) (xs : List ℕ) → rises low xs ≡ true → ino ≤ low → has ino xs ≡ false
unfolding rises has
has-below ino low [] h p = refl
has-below ino low (x ∷ xs) h p = ground (arith, has-below ino x xs)

is_present-has : (ino low : ℕ) (xs : List ℕ) → rises low xs ≡ true → is_present ino xs ≡ has ino xs
unfolding rises is_present has
is_present-has ino low [] h = refl
is_present-has ino low (x ∷ xs) h = ground (arith, is_present-has ino x xs, has-below ino x xs)

insert-rises :
    (ino low : ℕ) (xs : List ℕ)
    → rises low xs ≡ true
    → low < ino
    → has ino xs ≡ false
    → rises low (insert ino xs) ≡ true
unfolding rises insert has
insert-rises ino low [] h p q = ground arith
insert-rises ino low (x ∷ xs) h p q = ground (arith, insert-rises ino x xs)

has-insert :
    (k ino : ℕ) (xs : List ℕ) → has k (insert ino xs) ≡ (if k == ino then true else has k xs)
unfolding insert has
has-insert k ino [] = ground arith
has-insert k ino (x ∷ xs) = ground (arith, has-insert k ino xs)

length-insert : (ino : ℕ) (xs : List ℕ) → length (insert ino xs) ≡ length xs + 1
unfolding insert
length-insert ino [] = refl
length-insert ino (x ∷ xs) = ground (arith, length-insert ino xs)

rises-weaken :
    (low low' : ℕ) (xs : List ℕ) → low ≤ low' → rises low' xs ≡ true → rises low xs ≡ true
unfolding rises
rises-weaken low low' [] p h = refl
rises-weaken low low' (x ∷ xs) p h = ground arith

delete-rises : (ino low : ℕ) (xs : List ℕ) → rises low xs ≡ true → rises low (delete ino xs) ≡ true
unfolding rises delete
delete-rises ino low [] h = refl
delete-rises ino low (x ∷ xs) h = ground (arith, delete-rises ino x xs, rises-weaken low x xs)

has-delete :
    (k ino low : ℕ) (xs : List ℕ)
    → rises low xs ≡ true
    → has k (delete ino xs) ≡ (if k == ino then false else has k xs)
unfolding rises delete has
has-delete k ino low [] h = ground arith
has-delete k ino low (x ∷ xs) h = ground (arith, has-delete k ino x xs, has-below ino x xs)

length-delete : (ino : ℕ) (xs : List ℕ) → has ino xs ≡ true → length (delete ino xs) + 1 ≡ length xs
unfolding delete has
length-delete ino [] h = ground arith
length-delete ino (x ∷ xs) h = ground (arith, length-delete ino xs)

module _ (o : Orphans) (ino : ℕ) (inv : IsOrphans o) where
  -- `add_orphan_inode` keeps the list sorted without repetition and the count its length, with the
  -- inode on it, and every other inode on it exactly if it was, while fewer than 2 ^ 32 - 2 are on it.
  pub add_orphan_inode-IsOrphans :
      0 < ino
      → length o.orphan_inode_list + 2 < 2 ^ 32
      → IsOrphans (add_orphan_inode o ino)
        × ((k : ℕ)
            → has k (add_orphan_inode o ino).orphan_inode_list
              ≡ (if k == ino then true else has k o.orphan_inode_list))
  unfolding add_orphan_inode
  add_orphan_inode-IsOrphans pos room =
      let same = is_present-has ino 0 o.orphan_inode_list inv.sorted in
      elim (Bool-cases (has ino o.orphan_inode_list)) [
        | inl e ↦
            rw (same, e)
              (inv, λ k. ground (arith, ap (λ j. has j o.orphan_inode_list) {x = k} {y = ino}))
        | inr e ↦
            rw (same, e)
              (
                record {
                  sorted = insert-rises ino 0 o.orphan_inode_list inv.sorted pos e;
                  counted = ground (arith, inv.counted, length-insert ino o.orphan_inode_list);
                  small = ground (arith, length-insert ino o.orphan_inode_list);
                },
                λ k. has-insert k ino o.orphan_inode_list,
              )
      ]

  -- `remove_orphan_inode` keeps the list sorted without repetition and the count its length, with the
  -- inode off it, and every other inode on it exactly if it was.
  pub remove_orphan_inode-IsOrphans :
      IsOrphans (remove_orphan_inode o ino)
      × ((k : ℕ)
          → has k (remove_orphan_inode o ino).orphan_inode_list
            ≡ (if k == ino then false else has k o.orphan_inode_list))
  unfolding remove_orphan_inode
  remove_orphan_inode-IsOrphans = elim (Bool-cases (has ino o.orphan_inode_list)) [
    | inl e ↦
        let shorter = length-delete ino o.orphan_inode_list e in
        let few = inv.small in
        let count = inv.counted in
        rw e (
          record {
            sorted = delete-rises ino 0 o.orphan_inode_list inv.sorted;
            counted = omega (arith, shorter, few, count);
            small = omega (arith, shorter, few);
          },
          λ k. has-delete k ino 0 o.orphan_inode_list inv.sorted,
        )
    | inr e ↦ rw e (inv, λ k. ground (arith, ap (λ j. has j o.orphan_inode_list) {x = k} {y = ino}))
  ]
