-- ===== src/Hash/Words.antt =====
-- The words that go into the hash, and the loop over a long name.
use f2fs.Base.{
  ℕ, zero, suc, ◌+◌, ◌-◌, ◌*◌, ◌%◌, ◌^◌, ◌≤◌, ◌≡◌, refl, List, [], ◌∷◌, arith, ◌==◌, if◌then◌else◌,
  take, drop, replicate, length, u32, add32,
}
use f2fs.Hash.{fill, str2hashbuf, absorb, signed}

length-replicate : (n a : ℕ) → length (replicate n a) ≡ n
length-replicate zero a = refl
length-replicate (suc n) a = ground (arith, length-replicate n a)

length-take : (n : ℕ) (xs : List ℕ) → length (take n xs) ≤ n
length-take zero xs = omega arith
length-take (suc n) [] = omega arith
length-take (suc n) (x ∷ xs) = omega (arith, length-take n xs)

length-drop : (n : ℕ) (xs : List ℕ) → length (drop n xs) ≤ length xs
length-drop zero xs = omega arith
length-drop (suc n) [] = omega arith
length-drop (suc n) (x ∷ xs) = omega (arith, length-drop n xs)

length-fill :
    (pad : ℕ) (msg : List ℕ) (i val num : ℕ)
    → i % 4 + length msg ≤ 4 * num
    → length (fill pad msg i val num) ≡ num
unfolding fill
length-fill pad [] i val zero h = refl
length-fill pad [] i val (suc num) h = ground (arith, length-replicate num pad)
length-fill pad (c ∷ msg) i val num h =
    let start = if i % 4 == 0 then pad else val in
    let val' = add32 (signed c) (u32 (start * 2 ^ 8)) in
    ground (arith, length-fill pad msg (i + 1) pad (num - 1), length-fill pad msg (i + 1) val' num)

-- `str2hashbuf` writes exactly the words that its caller has room for, whatever the length of the
-- name: the array is never overrun and no word of it is left unset.
pub length-str2hashbuf : (msg : List ℕ) (num : ℕ) → length (str2hashbuf msg num) ≡ num
unfolding str2hashbuf
length-str2hashbuf msg num =
    length-fill _ (take (num * 4) msg) 0 _ num (omega (arith, length-take (num * 4) msg))

-- `absorb` on a name gives the same with any fuel of at least the name's length: the loop of
-- `f2fs_dentry_hash` ends within that many rounds.
pub absorb_fuel :
    (fuel fuel' : ℕ) (name : List ℕ) (buf : ℕ × ℕ)
    → length name ≤ fuel
    → length name ≤ fuel'
    → absorb fuel name buf ≡ absorb fuel' name buf
unfolding absorb
absorb_fuel zero zero name buf h h' = refl
absorb_fuel zero (suc fuel') [] buf h h' = refl
absorb_fuel (suc fuel) zero [] buf h h' = refl
absorb_fuel (suc fuel) (suc fuel') [] buf h h' = refl
absorb_fuel zero (suc fuel') (c ∷ name) buf h h' = absurd (omega arith)
absorb_fuel (suc fuel) zero (c ∷ name) buf h h' = absurd (omega arith)
absorb_fuel (suc fuel) (suc fuel') (c ∷ name) buf h h' =
    absorb_fuel fuel fuel' (drop 15 name) _ (omega (arith, length-drop 15 name))
      (omega (arith, length-drop 15 name))
