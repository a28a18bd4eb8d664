-- ===== src/Base/BitSet.antt =====
-- A kernel bitmap (`unsigned long *`) is the function from bit numbers to bits. `set_bit`,
-- `clear_bit` and the reads are accesses to one bit of memory; the searches, which are kernel
-- code, are the parameter of `Search`.
use Prim.Native.Nat.{ℕ, zero, suc, ◌+◌, ◌≤◌, ◌<◌}
use mathlib.Core.Path.{◌≡◌, refl, ap}
use mathlib.Core.Bool.{Bool, true, false}
use mathlib.Core.Logic.{inl, inr}
use native.Mathlib.Omega.{arith}
use native.Mathlib.Decide.{ℕ_discrete}
use f2fs.Base.Tests.{◌==◌, if◌then◌else◌, Bool-cases}

abbrev pub Bitmap : Type 0
Bitmap = ℕ → Bool

abbrev pub update {ℓ} : {A : Type ℓ} → (ℕ → A) → ℕ → A → ℕ → A
update f k v j = if j == k then v else f j

abbrev pub set_bit : ℕ → Bitmap → Bitmap
set_bit k m = update m k true

abbrev pub clear_bit : ℕ → Bitmap → Bitmap
clear_bit k m = update m k false

abbrev pub bit : Bool → ℕ
bit true = 1
bit false = 0

-- The number of set bits below `n`.
unfoldable pub weight : ℕ → Bitmap → ℕ
weight zero m = 0
weight (suc n) m = bit (m n) + weight n m

-- The number of clear bits below `n`.
unfoldable pub zeros : ℕ → Bitmap → ℕ
zeros zero m = 0
zeros (suc n) m = (if m n then 0 else 1) + zeros n m

pub weight-le : (n : ℕ) (m : Bitmap) → weight n m ≤ n
unfolding weight
weight-le zero m = omega arith
weight-le (suc n) m = ground (arith, weight-le n m)

pub weight-add-zeros : (n : ℕ) (m : Bitmap) → weight n m + zeros n m ≡ n
unfolding weight zeros
weight-add-zeros zero m = omega arith
weight-add-zeros (suc n) m = ground (arith, weight-add-zeros n m)

pub weight-update_above :
    (n k : ℕ) (v : Bool) (m : Bitmap) → n ≤ k → weight n (update m k v) ≡ weight n m
unfolding weight
weight-update_above zero k v m h = refl
weight-update_above (suc n) k v m h = ground (arith, weight-update_above n k v m)

pub weight-update :
    (n k : ℕ) (v : Bool) (m : Bitmap)
    → k < n
    → weight n (update m k v) + bit (m k) ≡ weight n m + bit v
unfolding weight
weight-update zero k v m h = absurd (omega arith)
weight-update (suc n) k v m h = elim (ℕ_discrete k n) [
  | yes e ↦ ground (arith, ap m e, weight-update_above n k v m)
  | no e ↦ ground (arith, weight-update n k v m)
]

pub zeros-update_above :
    (n k : ℕ) (v : Bool) (m : Bitmap) → n ≤ k → zeros n (update m k v) ≡ zeros n m
zeros-update_above n k v m h =
    omega (
      arith,
      weight-update_above n k v m h,
      weight-add-zeros n m,
      weight-add-zeros n (update m k v),
    )

-- A bit below `n` that turns from set to clear adds one to the clear ones, and the other way round.
pub zeros-update :
    (n k : ℕ) (v : Bool) (m : Bitmap)
    → k < n
    → zeros n (update m k v) + bit v ≡ zeros n m + bit (m k)
zeros-update n k v m h =
    omega (arith, weight-update n k v m h, weight-add-zeros n m, weight-add-zeros n (update m k v))

pub weight_ext : (n : ℕ) (m m' : Bitmap) → ((k : ℕ) → k < n → m k ≡ m' k) → weight n m ≡ weight n m'
unfolding weight
weight_ext zero m m' h = refl
weight_ext (suc n) m m' h =
    ground (arith, h n (omega arith), weight_ext n m m' (λ k p. h k (omega arith)))

-- A set bit below `n` is counted.
pub weight_pos : (n k : ℕ) (m : Bitmap) → k < n → m k ≡ true → 0 < weight n m
weight_pos n k m h e = ground (arith, weight-update n k false m, weight-update_above n k false m)

pub zeros_ext : (n : ℕ) (m m' : Bitmap) → ((k : ℕ) → k < n → m k ≡ m' k) → zeros n m ≡ zeros n m'
zeros_ext n m m' h = omega (arith, weight_ext n m m' h, weight-add-zeros n m, weight-add-zeros n m')

pub zeros-le : (n : ℕ) (m : Bitmap) → zeros n m ≤ n
zeros-le n m = omega (arith, weight-add-zeros n m)

-- Where clear bits are counted, there is one.
pub zeros_find : (n : ℕ) (m : Bitmap) → 0 < zeros n m → (k : ℕ) × (k < n) × (m k ≡ false)
unfolding zeros
zeros_find zero m h = absurd (omega arith)
zeros_find (suc n) m h = elim (Bool-cases (m n)) [
  | inl e ↦ let (k, p, q) = zeros_find n m (ground arith) in (k, omega arith, q)
  | inr e ↦ (n, omega arith, e)
]

pub weight_zero : (m : Bitmap) → weight 0 m ≡ 0
unfolding weight
weight_zero m = refl

pub weight-add_one : (n : ℕ) (m : Bitmap) → weight (n + 1) m ≡ bit (m n) + weight n m
weight-add_one n m = let e : n + 1 ≡ suc n = omega arith in rw e (unfold weight in refl)

pub weight_none : (n : ℕ) (m : Bitmap) → ((k : ℕ) → k < n → m k ≡ false) → weight n m ≡ 0
unfolding weight
weight_none zero m h = refl
weight_none (suc n) m h =
    ground (arith, h n (omega arith), weight_none n m (λ k p. h k (omega arith)))
