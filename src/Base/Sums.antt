-- ===== src/Base/Sums.antt =====
-- Sums of an array's entries, and checks of a test at every number below a bound.
use native.Mathlib.Decide.{ℕ_discrete}
use Prim.Native.Nat.{ℕ, zero, suc, ◌+◌, ◌*◌, ◌≤◌, ◌<◌}
use mathlib.Core.Path.{◌≡◌, refl, ap}
use mathlib.Core.Bool.{Bool, true, false}
use native.Mathlib.Omega.{arith}
use f2fs.Base.BitSet.{update}
use f2fs.Base.Tests.{if◌then◌else◌}

-- `f start + … + f (start + n - 1)`
unfoldable pub sum_range : ℕ → ℕ → (ℕ → ℕ) → ℕ
sum_range start zero f = 0
sum_range start (suc n) f = f (start + n) + sum_range start n f

pub sum_range_ext :
    (start n : ℕ) (f f' : ℕ → ℕ)
    → ((k : ℕ) → start ≤ k → k < start + n → f k ≡ f' k)
    → sum_range start n f ≡ sum_range start n f'
unfolding sum_range
sum_range_ext start zero f f' h = refl
sum_range_ext start (suc n) f f' h = omega (
  arith,
  h (start + n) (omega arith) (omega arith),
  sum_range_ext start n f f' (λ k p q. h k p (omega arith)),
)

pub sum_range-update_outside :
    (start n k v : ℕ) (f f' : ℕ → ℕ)
    → ((j : ℕ) → f' j ≡ update f k v j)
    → ¬ ((start ≤ k) × (k < start + n))
    → sum_range start n f' ≡ sum_range start n f
sum_range-update_outside start n k v f f' e h =
    sum_range_ext start n f' f
      (λ j p q. ground (arith, e j, λ (r : (start ≤ k) × (k < start + n)). h r))

-- One entry of the range changes.
pub sum_range-update :
    (start n k v : ℕ) (f f' : ℕ → ℕ)
    → ((j : ℕ) → f' j ≡ update f k v j)
    → start ≤ k
    → k < start + n
    → sum_range start n f' + f k ≡ sum_range start n f + v
unfolding sum_range
sum_range-update start zero k v f f' e p q = absurd (omega arith)
sum_range-update start (suc n) k v f f' e p q = elim (ℕ_discrete k (start + n)) [
  | yes r ↦ ground (
    arith,
    e (start + n),
    ap f r,
    sum_range-update_outside start n k v f f' e (λ s. omega (arith, s.1)),
  )
  | no r ↦ ground (arith, e (start + n), sum_range-update start n k v f f' e p)
]

-- Does the test hold at every number below the limit?
unfoldable pub holds_below : ℕ → (ℕ → Bool) → Bool
holds_below zero test = true
holds_below (suc last) test = if test last then holds_below last test else false

pub holds_below-lt :
    (test : ℕ → Bool) (limit k : ℕ) → k < limit → holds_below limit test ≡ true → test k ≡ true
unfolding holds_below
holds_below-lt test zero k small all = absurd (omega arith)
holds_below-lt test (suc last) k small all = elim (ℕ_discrete k last) [
  | yes same ↦ ground (arith, ap test same)
  | no other ↦ ground (arith, holds_below-lt test last k (omega arith))
]

pub sum_range-le :
    (start n c : ℕ) (f : ℕ → ℕ)
    → ((k : ℕ) → start ≤ k → k < start + n → f k ≤ c)
    → sum_range start n f ≤ n * c
unfolding sum_range
sum_range-le start zero c f h = omega arith
sum_range-le start (suc n) c f h = grind (
  arith,
  h (start + n) (omega arith) (omega arith),
  sum_range-le start n c f (λ k p q. h k p (omega arith)),
)

pub le-sum_range :
    (start n k : ℕ) (f : ℕ → ℕ) → start ≤ k → k < start + n → f k ≤ sum_range start n f
unfolding sum_range
le-sum_range start zero k f p q = absurd (omega arith)
le-sum_range start (suc n) k f p q = elim (ℕ_discrete k (start + n)) [
  | yes r ↦ ground (arith, ap f r)
  | no r ↦ omega (arith, le-sum_range start n k f p (omega arith))
]
