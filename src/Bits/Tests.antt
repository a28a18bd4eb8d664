-- ===== src/Bits/Tests.antt =====
-- The bit operations on two bytes: bits 0 and 15 of 128, 1 are set.
use f2fs.Base.{ℕ, ◌≡◌, refl, List, [], ◌∷◌}
use f2fs.Bits.{f2fs_set_bit, f2fs_clear_bit}

abbrev two_bytes : List ℕ
two_bytes = 128 ∷ 1 ∷ []

set_9 : f2fs_set_bit 9 two_bytes ≡ (0, 128 ∷ 65 ∷ [])
unfolding f2fs_set_bit
set_9 = refl

clear_0 : f2fs_clear_bit 0 two_bytes ≡ (128, 0 ∷ 1 ∷ [])
unfolding f2fs_clear_bit
clear_0 = refl
