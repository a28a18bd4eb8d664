-- ===== src/Dir/Change.antt =====
-- What adding and deleting an entry of a block does to the entries that it has: fs/f2fs/dir.c.
use f2fs.Base.{
  ℕ, zero, suc, ◌+◌, ◌<◌, ◌≤◌, ◌≡◌, ◌⊎◌, inl, inr, refl, ap, ◌∙◌, true, false, ◌&&◌, List, [], ◌∷◌,
  length, arith, Bitmap, update, set_bit, clear_bit, ltb, leb, if◌then◌else◌,
}
use f2fs.Dir.{
  DirEntry, DentryBlock, nr_dentry_in_block, slots_of, same_bytes, copy_bytes, set_bits, clear_bits,
}
use f2fs.Dir.Block.{slots_at, IsEntries}

pub set_bits-at :
    (n p k : ℕ) (m : Bitmap) → set_bits n p m k ≡ (if leb p k && ltb k (p + n) then true else m k)
unfolding set_bits
set_bits-at zero p k m = ground arith
set_bits-at (suc n) p k m = ground (arith, set_bits-at n (p + 1) k (set_bit p m))

pub clear_bits-at :
    (n p k : ℕ) (m : Bitmap)
    → clear_bits n p m k ≡ (if leb p k && ltb k (p + n) then false else m k)
unfolding clear_bits
clear_bits-at zero p k m = ground arith
clear_bits-at (suc n) p k m = ground (arith, clear_bits-at n (p + 1) k (clear_bit p m))

pub copy_bytes-outside :
    (bytes : ℕ → ℕ) (at : ℕ) (name : List ℕ) (k : ℕ)
    → (k < at) ⊎ (at + length name ≤ k)
    → copy_bytes bytes at name k ≡ bytes k
unfolding copy_bytes
copy_bytes-outside bytes at [] k out = refl
copy_bytes-outside bytes at (c ∷ name) k out =
    let later : (k < at + 1) ⊎ (at + 1 + length name ≤ k) = elim out [
      | inl h ↦ inl (omega arith)
      | inr h ↦ inr (omega arith)
    ] in
    ground (arith, copy_bytes-outside (update bytes at c) (at + 1) name k later)

pub same_bytes-copy :
    (bytes : ℕ → ℕ) (at : ℕ) (name : List ℕ) → same_bytes (copy_bytes bytes at name) at name ≡ true
unfolding same_bytes copy_bytes
same_bytes-copy bytes at [] = refl
same_bytes-copy bytes at (c ∷ name) =
    let here = copy_bytes-outside (update bytes at c) (at + 1) name at (inl (omega arith)) in
    ground (arith, same_bytes-copy (update bytes at c) (at + 1) name)

pub same_bytes_ext :
    (f g : ℕ → ℕ) (at : ℕ) (name : List ℕ)
    → ((k : ℕ) → at ≤ k → k < at + length name → f k ≡ g k)
    → same_bytes f at name ≡ same_bytes g at name
unfolding same_bytes
same_bytes_ext f g at [] same = refl
same_bytes_ext f g at (c ∷ name) same =
    let here = same at (omega arith) (omega arith) in
    ground
      (arith, same_bytes_ext f g (at + 1) name (λ k low high. same k (omega arith) (omega arith)))

pub same_bytes_inj :
    (f : ℕ → ℕ) (at : ℕ) (name name' : List ℕ)
    → length name ≡ length name'
    → same_bytes f at name ≡ true
    → same_bytes f at name' ≡ true
    → name ≡ name'
unfolding same_bytes
same_bytes_inj f at [] [] l h h' = refl
same_bytes_inj f at [] (c ∷ name') l h h' = absurd (omega arith)
same_bytes_inj f at (c ∷ name) [] l h h' = absurd (omega arith)
same_bytes_inj f at (c ∷ name) (c' ∷ name') l h h' =
    let first : c ≡ c' = ground arith in
    let rest = same_bytes_inj f (at + 1) name name' (omega arith) (ground arith) (ground arith) in
    cc

unfoldable pub insert_slot : ℕ → List ℕ → List ℕ
insert_slot q [] = q ∷ []
insert_slot q (p ∷ l) = let later = insert_slot q l in if ltb q p then q ∷ p ∷ l else p ∷ later

-- Entries where neither the bits nor the entries change.
pub IsEntries-ext :
    (b b' : DentryBlock) (pos : ℕ) (l : List ℕ)
    → ((k : ℕ) → pos ≤ k → k < nr_dentry_in_block → b'.dentry_bitmap k ≡ b.dentry_bitmap k)
    → ((k : ℕ) → pos ≤ k → b'.dentry k ≡ b.dentry k)
    → IsEntries b pos l
    → IsEntries b' pos l
unfolding IsEntries
IsEntries-ext b b' pos [] bits entries all = λ k low high. bits k low high ∙ all k low high
IsEntries-ext b b' pos (p ∷ l) bits entries all =
    let item = all.0 in
    let same : slots_at b' p ≡ slots_at b p =
      ap (λ e. slots_of (DirEntry.name_len e)) (entries p item.from) in
    (
      record {
        from = item.from;
        gap = λ k low high. bits k low (omega (arith, item.inside)) ∙ item.gap k low high;
        named = rw (entries p item.from) item.named;
        taken = λ k low high.
            bits k (omega (arith, item.from)) (omega (arith, item.inside, same))
            ∙ item.taken k low (omega (arith, same));
        inside = omega (arith, item.inside, same);
      },
      rw same (
          IsEntries-ext b b' (p + slots_at b p) l
            (λ k low high. bits k (omega (arith, item.from)) high)
            (λ k low. entries k (omega (arith, item.from))) all.1),
    )
