-- ===== src/Base/Words.antt =====
-- `unsigned int` (32 bits): arithmetic with its wrap-around written out.
use Prim.Native.Nat.{ℕ, ◌+◌, ◌-◌, ◌*◌, ◌%◌, ◌^◌}

abbrev pub u32 : ℕ → ℕ
u32 x = x % 2 ^ 32

abbrev pub add32 : ℕ → ℕ → ℕ
add32 a b = (a + b) % 2 ^ 32

-- `-` stops at 0, so the modulus is added first; `b` is below it.
abbrev pub sub32 : ℕ → ℕ → ℕ
sub32 a b = (a + 2 ^ 32 - b) % 2 ^ 32

abbrev pub mul32 : ℕ → ℕ → ℕ
mul32 a b = (a * b) % 2 ^ 32

-- `u64`
abbrev pub add64 : ℕ → ℕ → ℕ
add64 a b = (a + b) % 2 ^ 64

abbrev pub sub64 : ℕ → ℕ → ℕ
sub64 a b = (a + 2 ^ 64 - b) % 2 ^ 64
