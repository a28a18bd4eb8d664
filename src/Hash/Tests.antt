-- ===== src/Hash/Tests.antt =====
-- Hashes of short names.
use f2fs.Base.{◌≡◌, refl, [], ◌∷◌}
use f2fs.Hash.{str2hashbuf, fill}

-- "abcd" fills one word, and the pad, four times the length, the others.
abcd :
    str2hashbuf (97 ∷ 98 ∷ 99 ∷ 100 ∷ []) 4 ≡ 0x61626364 ∷ 0x04040404 ∷ 0x04040404 ∷ 0x04040404 ∷ []
unfolding str2hashbuf fill
abcd = refl
