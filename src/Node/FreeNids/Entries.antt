-- ===== src/Node/FreeNids/Entries.antt =====
-- The list of free node ids as a map from ids to states: what `list_add_tail`, `list_del` and the walk
-- of `alloc_nid` in fs/f2fs/node.c do to that map.
use f2fs.Base.{
  ℕ, ◌+◌, ◌<◌, ◌≡◌, ◌⊎◌, refl, ap, Bool, true, false, ◌&&◌, Option, none, some, List, [], ◌∷◌, ◌++◌,
  arith, ◌==◌, if◌then◌else◌, inl, inr, Returns, Returns->>=, bit,
}
use f2fs.Node.FreeNids.{
  FreeNid, NidState, nid_new, nid_alloc, is_new, lookup_free_nid, del_free_nid, take_new,
}

unfoldable pub state_of : ℕ → List FreeNid → Option NidState
state_of n [] = none
state_of n (i ∷ rest) = let later = state_of n rest in if i.nid == n then some i.state else later

abbrev pub is_none : Option NidState → Bool
is_none none = true
is_none (some s) = false

unfoldable pub distinct : List FreeNid → Bool
unfolding state_of
distinct [] = true
distinct (i ∷ rest) = is_none (state_of i.nid rest) && distinct rest

unfoldable pub count_new : List FreeNid → ℕ
count_new [] = 0
count_new (i ∷ rest) = bit (is_new i.state) + count_new rest

abbrev pub state_found : Option FreeNid → Option NidState
state_found none = none
state_found (some i) = some i.state

pub lookup-state_of : (n : ℕ) (l : List FreeNid) → state_found (lookup_free_nid n l) ≡ state_of n l
unfolding lookup_free_nid state_of
lookup-state_of n [] = refl
lookup-state_of n (x ∷ l) = ground (arith, lookup-state_of n l)

pub state-cases : (s : NidState) → (s ≡ nid_new) ⊎ (s ≡ nid_alloc)
state-cases nid_new = inl refl
state-cases nid_alloc = inr refl

-- An entry at the end.
pub state_of-append :
    (k n : ℕ) (s : NidState) (l : List FreeNid)
    → state_of n l ≡ none
    → state_of k (l ++ record { nid = n; state = s } ∷ [])
      ≡ (if k == n then some s else state_of k l)
unfolding state_of
state_of-append k n s [] h = ground arith
state_of-append k n s (x ∷ l) h = ground (arith, state_of-append k n s l)

pub distinct-append :
    (n : ℕ) (s : NidState) (l : List FreeNid)
    → distinct l ≡ true
    → state_of n l ≡ none
    → distinct (l ++ record { nid = n; state = s } ∷ []) ≡ true
unfolding distinct state_of
distinct-append n s [] d h = refl
distinct-append n s (x ∷ l) d h = ground (arith, distinct-append n s l, state_of-append x.nid n s l)

pub count_new-append :
    (n : ℕ) (s : NidState) (l : List FreeNid)
    → count_new (l ++ record { nid = n; state = s } ∷ []) ≡ count_new l + bit (is_new s)
unfolding count_new
count_new-append n s [] = omega arith
count_new-append n s (x ∷ l) = omega (arith, count_new-append n s l)

-- The entry of an id, taken out.
pub state_of-del :
    (k n : ℕ) (l : List FreeNid)
    → distinct l ≡ true
    → state_of k (del_free_nid n l) ≡ (if k == n then none else state_of k l)
unfolding distinct state_of del_free_nid
state_of-del k n [] d = ground arith
state_of-del k n (x ∷ l) d =
    ground (arith, state_of-del k n l, ap (λ j. state_of j l) {x = x.nid} {y = k})

pub distinct-del :
    (n : ℕ) (l : List FreeNid) → distinct l ≡ true → distinct (del_free_nid n l) ≡ true
unfolding distinct del_free_nid
distinct-del n [] d = refl
distinct-del n (x ∷ l) d = ground (arith, distinct-del n l, state_of-del x.nid n l)

abbrev pub new_bit : Option NidState → ℕ
new_bit none = 0
new_bit (some s) = bit (is_new s)

pub count_new-del :
    (n : ℕ) (l : List FreeNid) → count_new (del_free_nid n l) + new_bit (state_of n l) ≡ count_new l
unfolding count_new del_free_nid state_of
count_new-del n [] = refl
count_new-del n (x ∷ l) = ground (arith, count_new-del n l)

abbrev pub may_take : Option NidState → Bool
may_take none = false
may_take (some s) = is_new s

-- What the walk of `alloc_nid` takes.
abbrev pub IsTaken : List FreeNid → ℕ × List FreeNid → Type 0
IsTaken l r =
    (state_of r.0 l ≡ some nid_new)
    × (distinct r.1 ≡ true)
    × (count_new r.1 + 1 ≡ count_new l)
    × ((k : ℕ) → state_of k r.1 ≡ (if k == r.0 then some nid_alloc else state_of k l))

pub take_new-IsTaken :
    (l : List FreeNid) → distinct l ≡ true → 0 < count_new l → Returns (IsTaken l) (take_new l)
unfolding take_new distinct count_new state_of
take_new-IsTaken [] d pos = absurd (omega arith)
take_new-IsTaken (x ∷ l) d pos = elim (state-cases x.state) [
  | inl new ↦ rw new (ground arith)
  | inr old ↦ rw old (
      Returns->>= (IsTaken l) _ _ _ (take_new-IsTaken l (ground arith) (ground arith)) (λ r _ t. (
        ground (arith, t),
        ground (arith, t, t.3 x.nid),
        ground (arith, t),
        λ k. ground (arith, t.3 k, t.0),
      )))
]

take_new-none : (l : List FreeNid) → count_new l ≡ 0 → take_new l ≡ none
unfolding take_new count_new
take_new-none [] h = refl
take_new-none (x ∷ l) h = ground (arith, take_new-none l)
