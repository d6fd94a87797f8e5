-- ===== src/Base/Tests.antt =====
-- Boolean tests on the native numbers, the conditional, and the case lemmas that proofs split on.
use Prim.Native.Nat.{ℕ, compare, Ordering}
use mathlib.Core.Path.{◌≡◌, refl}
use mathlib.Core.Logic.{◌↔◌, ◌≢◌, ◌⊎◌, inl, inr}
use mathlib.Core.Bool.{Bool, true, false}
use mathlib.Core.Option.{Option, none, some}
use native.Mathlib.Omega.{arith}

abbrev pub ltb : ℕ → ℕ → Bool
ltb a b = elim (compare a b) [ Ordering.lt ↦ true | _ ↦ false ]

abbrev pub leb : ℕ → ℕ → Bool
leb a b = elim (compare a b) [ Ordering.gt ↦ false | _ ↦ true ]

infix 50 ◌==◌
abbrev pub ◌==◌ : ℕ → ℕ → Bool
a == b = elim (compare a b) [ Ordering.eq ↦ true | _ ↦ false ]

infix 1 if◌then◌else◌
abbrev pub if◌then◌else◌ {ℓ} : {A : Type ℓ} → Bool → A → A → A
if true then x else y = x
if false then x else y = y

pub ==_iff : (a b : ℕ) → ((a == b) ≡ true) ↔ (a ≡ b)
==_iff a b = ground arith

pub ==_refl : (a : ℕ) → (a == a) ≡ true
==_refl a = ground arith

pub ==-eq : (a b : ℕ) → (a == b) ≡ true → a ≡ b
==-eq a b h = ground arith

pub ==-ne : (a b : ℕ) → (a == b) ≡ false → a ≢ b
==-ne a b h = ground arith

pub Bool-cases : (b : Bool) → (b ≡ true) ⊎ (b ≡ false)
Bool-cases true = inl refl
Bool-cases false = inr refl

pub Option-cases {ℓ} : {A : Type ℓ} (o : Option A) → (o ≡ none) ⊎ ((a : A) × (o ≡ some a))
Option-cases none = inl refl
Option-cases (some a) = inr (a, refl)

-- A claim about a conditional, from one about each branch under its test.
pub if_ind {ℓ κ} :
    {A : Type ℓ} (P : A → Type κ) (b : Bool) {x y : A}
    → (b ≡ true → P x)
    → (b ≡ false → P y)
    → P (if b then x else y)
if_ind P true h k = h refl
if_ind P false h k = k refl

-- A further step, where there is a state to go on from.
abbrev pub and_then {ℓ κ} : {A : Type ℓ} {B : Type κ} → Option A → (A → Option B) → Option B
and_then none f = none
and_then (some a) f = f a

-- A claim about the state that there is, if there is one.
abbrev pub OnSome {ℓ κ} : {A : Type ℓ} → (A → Type κ) → Option A → Type κ
OnSome P none = Unit
OnSome P (some a) = P a

pub OnSome-then {ℓ κ μ ν} :
    {A : Type ℓ} {B : Type κ} (P : A → Type μ) (Q : B → Type ν) (o : Option A) (f : A → Option B)
    → OnSome P o
    → ((a : A) → P a → OnSome Q (f a))
    → OnSome Q (and_then o f)
OnSome-then P Q none f h k = tt
OnSome-then P Q (some a) f h k = k a h

pub OnSome-some {ℓ κ} :
    {A : Type ℓ} (P : A → Type κ) (o : Option A) {a : A} → OnSome P o → o ≡ some a → P a
OnSome-some P o h e = rw e at h

-- There is a state, and the claim holds of it.
abbrev pub IsSomeWith {ℓ} : {A : Type ℓ} → (A → Type 0) → Option A → Type 0
IsSomeWith P none = ⊥
IsSomeWith P (some a) = P a

pub IsSomeWith-then {ℓ κ} :
    {A : Type ℓ} {B : Type κ} (P : A → Type 0) (Q : B → Type 0) (o : Option A) (f : A → Option B)
    → IsSomeWith P o
    → ((a : A) → P a → IsSomeWith Q (f a))
    → IsSomeWith Q (and_then o f)
IsSomeWith-then P Q none f h k = absurd h
IsSomeWith-then P Q (some a) f h k = k a h

pub IsSomeWith-some {ℓ} :
    {A : Type ℓ} (P : A → Type 0) (o : Option A) → IsSomeWith P o → (a : A) × (o ≡ some a) × P a
IsSomeWith-some P none h = absurd h
IsSomeWith-some P (some a) h = (a, refl, h)
