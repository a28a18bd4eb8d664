-- ===== src/Base/Lists.antt =====
-- Arrays as lists indexed by native numbers, under the library's names.
use Prim.Native.Nat.{ℕ, zero, suc, ◌+◌, ◌<◌, ◌≤◌}
use mathlib.Core.Path.{◌≡◌, refl, ap}
use mathlib.Core.Logic.{◌≢◌}
use mathlib.Core.List.{List, [], ◌∷◌, ◌++◌}
use mathlib.Core.Bool.{Bool, false, ◌||◌}
use native.Mathlib.Omega.{arith}
use f2fs.Base.Tests.{◌==◌, if◌then◌else◌}

module _ {ℓ} {A : Type ℓ} where
  abbrev pub length : List A → ℕ
  length [] = 0
  length (x ∷ xs) = suc (length xs)

  abbrev pub get_or : List A → ℕ → A → A
  get_or [] i d = d
  get_or (x ∷ xs) zero d = x
  get_or (x ∷ xs) (suc i) d = get_or xs i d

  -- A write out of bounds changes nothing.
  abbrev pub set : List A → ℕ → A → List A
  set [] i v = []
  set (x ∷ xs) zero v = v ∷ xs
  set (x ∷ xs) (suc i) v = x ∷ set xs i v

  abbrev pub take : ℕ → List A → List A
  take zero xs = []
  take (suc n) [] = []
  take (suc n) (x ∷ xs) = x ∷ take n xs

  abbrev pub drop : ℕ → List A → List A
  drop zero xs = xs
  drop (suc n) [] = []
  drop (suc n) (x ∷ xs) = drop n xs

  abbrev pub replicate : ℕ → A → List A
  replicate zero a = []
  replicate (suc n) a = a ∷ replicate n a

module _ {ℓ} {A : Type ℓ} where
  pub length-append : (xs ys : List A) → length (xs ++ ys) ≡ length xs + length ys
  length-append [] ys = omega arith
  length-append (x ∷ xs) ys = omega (arith, length-append xs ys)

  pub length-set : (xs : List A) (i : ℕ) (v : A) → length (set xs i v) ≡ length xs
  length-set [] i v = refl
  length-set (x ∷ xs) zero v = refl
  length-set (x ∷ xs) (suc i) v = ap suc (length-set xs i v)

  pub get_or-set_self :
      (xs : List A) (i : ℕ) (v d : A) → i < length xs → get_or (set xs i v) i d ≡ v
  get_or-set_self [] i v d h = absurd (omega arith)
  get_or-set_self (x ∷ xs) zero v d h = refl
  get_or-set_self (x ∷ xs) (suc i) v d h = get_or-set_self xs i v d (omega arith)

  pub get_or-set_ne :
      (xs : List A) (i j : ℕ) (v d : A) → i ≢ j → get_or (set xs i v) j d ≡ get_or xs j d
  get_or-set_ne [] i j v d h = refl
  get_or-set_ne (x ∷ xs) zero zero v d h = absurd (h refl)
  get_or-set_ne (x ∷ xs) zero (suc j) v d h = refl
  get_or-set_ne (x ∷ xs) (suc i) zero v d h = refl
  get_or-set_ne (x ∷ xs) (suc i) (suc j) v d h = get_or-set_ne xs i j v d (λ e. h (ap suc e))

  pub set_past : (xs : List A) (i : ℕ) (v : A) → length xs ≤ i → set xs i v ≡ xs
  set_past [] i v h = refl
  set_past (x ∷ xs) zero v h = absurd (omega arith)
  set_past (x ∷ xs) (suc i) v h = ap (λ ys. x ∷ ys) (set_past xs i v (omega arith))

-- `list_del` of the entry with that number, and whether it is on the list.
unfoldable pub without : ℕ → List ℕ → List ℕ
without a [] = []
without a (x ∷ xs) = let rest = without a xs in if x == a then rest else x ∷ rest

unfoldable pub on_list : ℕ → List ℕ → Bool
on_list a [] = false
on_list a (x ∷ xs) = x == a || on_list a xs

pub on_list-without :
    (k a : ℕ) (xs : List ℕ) → on_list k (without a xs) ≡ (if k == a then false else on_list k xs)
unfolding on_list without
on_list-without k a [] = ground arith
on_list-without k a (x ∷ xs) = ground (arith, on_list-without k a xs)

pub on_list-append :
    (k : ℕ) (xs ys : List ℕ) → on_list k (xs ++ ys) ≡ (on_list k xs || on_list k ys)
unfolding on_list
on_list-append k [] ys = refl
on_list-append k (x ∷ xs) ys = ground (arith, on_list-append k xs ys)
