-- ===== src/Bits/Laws.antt =====
-- The byte array read as a map from bit numbers to bits, and the three operations on that view.
use native.Mathlib.Decide.{ℕ_discrete, dec_lt}
use f2fs.Base.{
  ℕ, ◌/◌, ◌%◌, ◌<◌, ◌≡◌, Bool, not, List, get_or, set, length, ◌==◌, if◌then◌else◌, arith, true,
  false, ap, update, set_past, ◌∙◌, sym, ◌≢◌, Bitmap, set_bit, clear_bit, get_or-set_self,
  get_or-set_ne, length-set,
}
use f2fs.Bits.{byte_of, f2fs_test_bit, f2fs_set_bit, f2fs_clear_bit}
use f2fs.Bits.Bytes.{byte_bit, byte_test, byte_set, byte_clear, byte_set-lt, byte_clear-lt}

abbrev pub bits : List ℕ → Bitmap
bits addr nr = byte_bit (byte_of nr addr) (nr % 8)

abbrev pub IsBytes : List ℕ → Type 0
IsBytes addr = (i : ℕ) → get_or addr i 0 < 256

-- A write of one byte, bit by bit.
module _ (nr k v : ℕ) (addr : List ℕ) (h : nr / 8 < length addr) where
  bits-set_same : k / 8 ≡ nr / 8 → bits (set addr (nr / 8) v) k ≡ byte_bit v (k % 8)
  bits-set_same e =
      ap (λ b. byte_bit b (k % 8))
        (ap (λ i. get_or (set addr (nr / 8) v) i 0) e ∙ get_or-set_self addr (nr / 8) v 0 h)

  bits-set_other : k / 8 ≢ nr / 8 → bits (set addr (nr / 8) v) k ≡ bits addr k
  bits-set_other e =
      ap (λ b. byte_bit b (k % 8)) (get_or-set_ne addr (nr / 8) (k / 8) v 0 (λ p. e (sym p)))

-- `f2fs_test_bit` is nonzero exactly on the set bits.
pub f2fs_test_bit-bits :
    (nr : ℕ) (addr : List ℕ) → IsBytes addr → not (f2fs_test_bit nr addr == 0) ≡ bits addr nr
unfolding f2fs_test_bit
f2fs_test_bit-bits nr addr b = byte_test (byte_of nr addr) (nr % 8) (b (nr / 8)) (omega arith)

module _ (nr k : ℕ) (addr : List ℕ) (b : IsBytes addr) (h : nr / 8 < length addr) where
  same_byte :
      (v : Bool)
      → k / 8 ≡ nr / 8
      → (if k % 8 == nr % 8 then v else byte_bit (byte_of nr addr) (k % 8))
        ≡ update (bits addr) nr v k
  same_byte v e = ground (arith, ap (λ i. get_or addr i 0) e)

  other_byte : (v : Bool) → k / 8 ≢ nr / 8 → bits addr k ≡ update (bits addr) nr v k
  other_byte v e = ground arith

  -- `f2fs_set_bit` inside the array sets its bit and no other.
  pub bits-f2fs_set_bit : bits (f2fs_set_bit nr addr).1 k ≡ set_bit nr (bits addr) k
  unfolding f2fs_set_bit
  bits-f2fs_set_bit = elim (ℕ_discrete (k / 8) (nr / 8)) [
    | yes e ↦
        bits-set_same nr k _ addr h e
        ∙ byte_set (byte_of nr addr) (nr % 8) (k % 8) (b (nr / 8)) (omega arith) (omega arith)
        ∙ same_byte true e
    | no e ↦ bits-set_other nr k _ addr h e ∙ other_byte true e
  ]

  -- `f2fs_clear_bit` inside the array clears its bit and no other.
  pub bits-f2fs_clear_bit : bits (f2fs_clear_bit nr addr).1 k ≡ clear_bit nr (bits addr) k
  unfolding f2fs_clear_bit
  bits-f2fs_clear_bit = elim (ℕ_discrete (k / 8) (nr / 8)) [
    | yes e ↦
        bits-set_same nr k _ addr h e
        ∙ byte_clear (byte_of nr addr) (nr % 8) (k % 8) (b (nr / 8)) (omega arith) (omega arith)
        ∙ same_byte false e
    | no e ↦ bits-set_other nr k _ addr h e ∙ other_byte false e
  ]

-- Both report what the bit was.
pub f2fs_set_bit-was :
    (nr : ℕ) (addr : List ℕ) → IsBytes addr → not ((f2fs_set_bit nr addr).0 == 0) ≡ bits addr nr
unfolding f2fs_set_bit f2fs_test_bit
f2fs_set_bit-was nr addr b = f2fs_test_bit-bits nr addr b

pub f2fs_clear_bit-was :
    (nr : ℕ) (addr : List ℕ) → IsBytes addr → not ((f2fs_clear_bit nr addr).0 == 0) ≡ bits addr nr
unfolding f2fs_clear_bit f2fs_test_bit
f2fs_clear_bit-was nr addr b = f2fs_test_bit-bits nr addr b

set-IsBytes : (i v : ℕ) (addr : List ℕ) → IsBytes addr → v < 256 → IsBytes (set addr i v)
set-IsBytes i v addr b h j = elim (ℕ_discrete i j) [
  | yes e ↦ elim (dec_lt i (length addr)) [
    | yes p ↦ rw (← e, get_or-set_self addr i v 0 p) h
    | no p ↦ rw (set_past addr i v (omega arith)) (b j)
  ]
  | no e ↦ rw (get_or-set_ne addr i j v 0 e) (b j)
]

pub f2fs_set_bit-IsBytes :
    (nr : ℕ) (addr : List ℕ) → IsBytes addr → IsBytes (f2fs_set_bit nr addr).1
unfolding f2fs_set_bit
f2fs_set_bit-IsBytes nr addr b =
    set-IsBytes (nr / 8) _ addr b
      (byte_set-lt (byte_of nr addr) (nr % 8) 0 (b (nr / 8)) (omega arith) (omega arith))

pub f2fs_clear_bit-IsBytes :
    (nr : ℕ) (addr : List ℕ) → IsBytes addr → IsBytes (f2fs_clear_bit nr addr).1
unfolding f2fs_clear_bit
f2fs_clear_bit-IsBytes nr addr b =
    set-IsBytes (nr / 8) _ addr b
      (byte_clear-lt (byte_of nr addr) (nr % 8) 0 (b (nr / 8)) (omega arith) (omega arith))

pub length-f2fs_set_bit : (nr : ℕ) (addr : List ℕ) → length (f2fs_set_bit nr addr).1 ≡ length addr
unfolding f2fs_set_bit
length-f2fs_set_bit nr addr = length-set addr (nr / 8) _

pub length-f2fs_clear_bit :
    (nr : ℕ) (addr : List ℕ) → length (f2fs_clear_bit nr addr).1 ≡ length addr
unfolding f2fs_clear_bit
length-f2fs_clear_bit nr addr = length-set addr (nr / 8) _
