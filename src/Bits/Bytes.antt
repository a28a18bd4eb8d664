-- ===== src/Bits/Bytes.antt =====
-- One byte: what the mask operations do to each of its eight bits, checked for every byte.
use f2fs.Base.{
  holds_below, holds_below-lt, ℕ, ◌-◌, ◌/◌, ◌%◌, ◌^◌, ◌<◌, ◌≡◌, refl, Bool, true, not, ◌&&◌,
  bit_and, bit_or, ◌==◌, ltb, if◌then◌else◌, ltb→lt, arith,
}

-- Bit `i` of a byte, from the top.
abbrev pub byte_bit : ℕ → ℕ → Bool
byte_bit b i = (b / 2 ^ (7 - i)) % 2 == 1

same : Bool → Bool → Bool
same true b = b
same _ true = Bool.false
same _ _ = true

same_sound : (a b : Bool) → same a b ≡ true → a ≡ b
unfolding same
same_sound a b h = ground arith

-- All bytes, all positions written, all positions read.
set_check : ℕ → ℕ → ℕ → Bool
set_check b i j =
    same (byte_bit (bit_or b (2 ^ (7 - i))) j) (if j == i then true else byte_bit b j)
    && ltb (bit_or b (2 ^ (7 - i))) 256

clear_check : ℕ → ℕ → ℕ → Bool
clear_check b i j =
    same (byte_bit (bit_and b (255 - 2 ^ (7 - i))) j) (if j == i then Bool.false else byte_bit b j)
    && ltb (bit_and b (255 - 2 ^ (7 - i))) 256

test_check : ℕ → ℕ → Bool
test_check b i = same (not (bit_and (2 ^ (7 - i)) b == 0)) (byte_bit b i)

set_table : holds_below 256 (λ b. holds_below 8 (λ i. holds_below 8 (set_check b i))) ≡ true
unfolding holds_below set_check same
set_table = refl

clear_table : holds_below 256 (λ b. holds_below 8 (λ i. holds_below 8 (clear_check b i))) ≡ true
unfolding holds_below clear_check same
clear_table = refl

test_table : holds_below 256 (λ b. holds_below 8 (test_check b)) ≡ true
unfolding holds_below test_check same
test_table = refl

module _ (b i : ℕ) (hb : b < 256) (hi : i < 8) where
  pub byte_test : not (bit_and (2 ^ (7 - i)) b == 0) ≡ byte_bit b i
  byte_test = same_sound _ _ (
      unfold test_check in
      holds_below-lt (test_check b) 8 i hi (holds_below-lt _ 256 b hb test_table))

  module _ (j : ℕ) (hj : j < 8) where
    set_checked : set_check b i j ≡ true
    set_checked = holds_below-lt (set_check b i) 8 j hj (
        holds_below-lt (λ i'. holds_below 8 (set_check b i')) 8 i hi
          (holds_below-lt _ 256 b hb set_table))

    clear_checked : clear_check b i j ≡ true
    clear_checked = holds_below-lt (clear_check b i) 8 j hj (
        holds_below-lt (λ i'. holds_below 8 (clear_check b i')) 8 i hi
          (holds_below-lt _ 256 b hb clear_table))

and_left : (a b : Bool) → (a && b) ≡ true → a ≡ true
and_left a b h = ground arith

and_right : (a b : Bool) → (a && b) ≡ true → b ≡ true
and_right a b h = ground arith

module _ (b i j : ℕ) (hb : b < 256) (hi : i < 8) (hj : j < 8) where
  pub byte_set : byte_bit (bit_or b (2 ^ (7 - i))) j ≡ (if j == i then true else byte_bit b j)
  unfolding set_check
  byte_set = same_sound _ _ (and_left _ _ (set_checked b i hb hi j hj))

  pub byte_clear :
      byte_bit (bit_and b (255 - 2 ^ (7 - i))) j ≡ (if j == i then Bool.false else byte_bit b j)
  unfolding clear_check
  byte_clear = same_sound _ _ (and_left _ _ (clear_checked b i hb hi j hj))

  pub byte_set-lt : bit_or b (2 ^ (7 - i)) < 256
  unfolding set_check
  byte_set-lt = ltb→lt _ _ (and_right _ _ (set_checked b i hb hi j hj))

  pub byte_clear-lt : bit_and b (255 - 2 ^ (7 - i)) < 256
  unfolding clear_check
  byte_clear-lt = ltb→lt _ _ (and_right _ _ (clear_checked b i hb hi j hj))
