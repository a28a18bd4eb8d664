-- ===== src/Base/Tests.antt =====
-- Boolean tests on the native numbers, the conditional, and the chaining of steps that may stop.
use Prim.Native.Nat.{ℕ, ◌≤◌, ◌<◌, compare, Ordering}
use mathlib.Core.Path.{◌≡◌, refl}
use mathlib.Core.Logic.{◌↔◌, ◌⊎◌, inl, inr}
use mathlib.Core.Bool.{Bool, true, false}
use mathlib.Core.Option.{Option, none, some}
use native.Mathlib.Omega.{arith}

abbrev pub ltb : ℕ → ℕ → Bool
ltb a b = elim (compare a b) [ Ordering.lt ↦ true | _ ↦ false ]

abbrev pub leb : ℕ → ℕ → Bool
leb a b = elim (compare a b) [ Ordering.gt ↦ false | _ ↦ true ]

infix 50 ◌==◌
abbrev pub ◌==◌ : ℕ → ℕ → Bool
a == b = elim (compare a b) [ Ordering.eq ↦ true | _ ↦ false ]

infix 1 if◌then◌else◌
abbrev pub if◌then◌else◌ {ℓ} : {A : Type ℓ} → Bool → A → A → A
if true then x else y = x
if false then x else y = y

pub ltb→lt : (a b : ℕ) → ltb a b ≡ true → a < b
ltb→lt a b h = ground arith

pub lt→ltb : (a b : ℕ) → a < b → ltb a b ≡ true
lt→ltb a b h = ground arith

pub leb→le : (a b : ℕ) → leb a b ≡ true → a ≤ b
leb→le a b h = ground arith

pub le→leb : (a b : ℕ) → a ≤ b → leb a b ≡ true
le→leb a b h = ground arith

pub lt→leb_false : (a b : ℕ) → b < a → leb a b ≡ false
lt→leb_false a b h = ground arith

pub le→ltb_false : (a b : ℕ) → b ≤ a → ltb a b ≡ false
le→ltb_false a b h = ground arith

pub ==_iff : (a b : ℕ) → ((a == b) ≡ true) ↔ (a ≡ b)
==_iff a b = ground arith

pub ==_self : (a : ℕ) → (a == a) ≡ true
==_self a = ground arith

-- To split on a computed value and keep the equation.
pub Bool-cases : (b : Bool) → (b ≡ true) ⊎ (b ≡ false)
Bool-cases true = inl refl
Bool-cases false = inr refl

pub Option-cases {ℓ} : {A : Type ℓ} (o : Option A) → (o ≡ none) ⊎ ((a : A) × (o ≡ some a))
Option-cases none = inl refl
Option-cases (some a) = inr (a, refl)

-- A step that meets `BUG_ON` gives `none`, and what follows it is not run.
infixl 5 ◌>>=◌ ◌>>◌
abbrev pub ◌>>=◌ {ℓ κ} : {A : Type ℓ} {B : Type κ} → Option A → (A → Option B) → Option B
none >>= f = none
some a >>= f = f a

abbrev pub ◌>>◌ {ℓ} : {B : Type ℓ} → Option (Unit {0}) → Option B → Option B
m >> k = m >>= λ _. k

-- `BUG_ON(b)`
abbrev pub bug_on : Bool → Option (Unit {0})
bug_on true = none
bug_on false = some tt

pub >>=-eq-some {ℓ κ} :
    {A : Type ℓ} {B : Type κ} (m : Option A) (f : A → Option B) {b : B}
    → (m >>= f) ≡ some b
    → (a : A) × (m ≡ some a) × (f a ≡ some b)
>>=-eq-some none f h = cc
>>=-eq-some (some a) f h = (a, refl, h)

-- The step does not stop, and what it gives satisfies `P`.
abbrev pub Returns {ℓ} : {A : Type ℓ} → (A → Type 0) → Option A → Type 0
Returns P none = ⊥
Returns P (some a) = P a

pub Returns-map {ℓ} :
    {A : Type ℓ} (P Q : A → Type 0) (m : Option A)
    → ((a : A) → P a → Q a)
    → Returns P m
    → Returns Q m
Returns-map P Q none h r = r
Returns-map P Q (some a) h r = h a r

-- The rule for one step of a chain.
pub Returns->>= {ℓ κ} :
    {A : Type ℓ} {B : Type κ} (P : A → Type 0) (Q : B → Type 0) (m : Option A) (k : A → Option B)
    → Returns P m
    → ((a : A) → m ≡ some a → P a → Returns Q (k a))
    → Returns Q (m >>= k)
Returns->>= P Q none k r h = absurd r
Returns->>= P Q (some a) k r h = h a refl r

pub some_inj {ℓ} : {A : Type ℓ} {a b : A} → some a ≡ some b → a ≡ b
some_inj h = cc

pub none≢some {ℓ} : {A : Type ℓ} {a : A} → none ≡ some a → ⊥
none≢some h = cc

-- A conditional whose test is known, as the step of a chain.
pub Returns-if_false {ℓ} :
    {A : Type ℓ} (P : A → Type 0) (b : Bool) (x y : Option A)
    → b ≡ false
    → Returns P y
    → Returns P (if b then x else y)
Returns-if_false P b x y e r = rw e r
