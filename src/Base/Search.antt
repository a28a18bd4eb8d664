-- ===== src/Base/Search.antt =====
-- The kernel's bitmap searches, which this repository calls and does not hold
-- (`find_next_bit`, `find_next_zero_bit` of lib/find_next_bit.c), with what they document: the
-- first bit at or after `offset` that is set (clear), or `size` if there is none below it.
use Prim.Native.Nat.{ℕ, zero, suc, ◌+◌, ◌-◌, ◌≤◌, ◌<◌}
use mathlib.Core.Path.{◌≡◌, refl, sym, ap, ◌∙◌}
use mathlib.Core.Bool.{Bool, true, false, not}
use mathlib.Core.Logic.{inl, inr}
use native.Mathlib.Omega.{arith}
use native.Mathlib.Decide.{ℕ_discrete, dec_lt}
use f2fs.Base.Tests.{ltb, if◌then◌else◌, Bool-cases, lt→ltb, le→ltb_false}
use f2fs.Base.BitSet.{Bitmap}

-- `r` is the first number from `offset` on, below `size`, at which `m` is `v`; `size` if none is.
pub record IsFirst (v : Bool) (m : Bitmap) (size offset r : ℕ) : Type 0 where
  pub in_size : r ≤ size
  pub from_offset : r < size → offset ≤ r
  pub hit : r < size → m r ≡ v
  pub before : (k : ℕ) → offset ≤ k → k < r → m k ≡ not v

pub record BitSearch : Type 0 where
  pub find_next_bit : Bitmap → ℕ → ℕ → ℕ
  pub find_next_zero_bit : Bitmap → ℕ → ℕ → ℕ
  pub find_next_bit_lem :
      (m : Bitmap) (size offset : ℕ) → IsFirst true m size offset (find_next_bit m size offset)
  pub find_next_zero_bit_lem :
      (m : Bitmap) (size offset : ℕ)
      → IsFirst false m size offset (find_next_zero_bit m size offset)

-- A search that meets the documentation: bit by bit.
unfoldable pub scan : Bitmap → ℕ → ℕ → ℕ
scan m zero i = i
scan m (suc left) i = if m i then i else scan m left (suc i)

scan-le : (m : Bitmap) (left i : ℕ) → (i ≤ scan m left i) × (scan m left i ≤ i + left)
unfolding scan
scan-le m zero i = omega arith
scan-le m (suc left) i = ground (arith, scan-le m left (suc i))

scan-hit : (m : Bitmap) (left i : ℕ) → scan m left i < i + left → m (scan m left i) ≡ true
unfolding scan
scan-hit m zero i h = absurd (omega arith)
scan-hit m (suc left) i h = elim (Bool-cases (m i)) [
  | inl e ↦ rw e e
  | inr e ↦ rw e (scan-hit m left (suc i) (ground arith))
]

scan-before : (m : Bitmap) (left i k : ℕ) → i ≤ k → k < scan m left i → m k ≡ false
unfolding scan
scan-before m zero i k p q = absurd (omega arith)
scan-before m (suc left) i k p q = elim (Bool-cases (m i)) [
  | inl e ↦ absurd (ground arith)
  | inr e ↦ elim (ℕ_discrete i k) [
    | yes same ↦ ap m (sym same) ∙ e
    | no other ↦ scan-before m left (suc i) k (omega arith) (ground arith)
  ]
]

abbrev pub linear : Bitmap → ℕ → ℕ → ℕ
linear m size offset = if ltb offset size then scan m (size - offset) offset else size

pub linear_set : (m : Bitmap) (size offset : ℕ) → IsFirst true m size offset (linear m size offset)
linear_set m size offset = elim (dec_lt offset size) [
  | yes h ↦ rw (lt→ltb offset size h) (record {
    in_size = omega (arith, scan-le m (size - offset) offset);
    from_offset = λ _. (scan-le m (size - offset) offset).0;
    hit = λ p. scan-hit m (size - offset) offset (omega arith);
    before = λ k p q. scan-before m (size - offset) offset k p q;
  })
  | no h ↦ rw (le→ltb_false offset size (omega arith)) (record {
    in_size = omega arith;
    from_offset = λ p. absurd (omega arith);
    hit = λ p. absurd (omega arith);
    before = λ k p q. absurd (omega arith);
  })
]

pub linear_clear :
    (m : Bitmap) (size offset : ℕ)
    → IsFirst false m size offset (linear (λ k. not (m k)) size offset)
linear_clear m size offset =
    let first = linear_set (λ k. not (m k)) size offset in
    record {
      in_size = first.in_size;
      from_offset = first.from_offset;
      hit = λ p. not_true _ (first.hit p);
      before = λ k p q. not_false _ (first.before k p q);
    }
  where
    not_true : (b : Bool) → not b ≡ true → b ≡ false
    not_true true e = sym e
    not_true false e = refl

    not_false : (b : Bool) → not b ≡ false → b ≡ true
    not_false true e = refl
    not_false false e = sym e

unfoldable pub linear_search : BitSearch
unfolding scan
linear_search = record {
  find_next_bit = linear;
  find_next_zero_bit = λ m size offset. linear (λ k. not (m k)) size offset;
  find_next_bit_lem = linear_set;
  find_next_zero_bit_lem = linear_clear;
}
