-- ===== src/Base/Tests.antt =====
-- Boolean tests on the native numbers, the conditional, and the calls that may panic.
use Prim.Native.Nat.{ℕ, ◌≤◌, ◌<◌, compare, Ordering}
use mathlib.Core.Path.{◌≡◌, refl}
use mathlib.Core.Logic.{◌↔◌, ◌⊎◌, inl, inr}
use mathlib.Core.Bool.{Bool, true, false}
use mathlib.Core.Option.{Option, none, some}
use native.Mathlib.Omega.{arith}

abbrev pub ltb : ℕ → ℕ → Bool
ltb a b = elim (compare a b) [ Ordering.lt ↦ true | _ ↦ false ]

abbrev pub leb : ℕ → ℕ → Bool
leb a b = elim (compare a b) [ Ordering.gt ↦ false | _ ↦ true ]

infix 50 ◌==◌
abbrev pub ◌==◌ : ℕ → ℕ → Bool
a == b = elim (compare a b) [ Ordering.eq ↦ true | _ ↦ false ]

infix 1 if◌then◌else◌
abbrev pub if◌then◌else◌ {ℓ} : {A : Type ℓ} → Bool → A → A → A
if true then x else y = x
if false then x else y = y

pub ltb→lt : (a b : ℕ) → ltb a b ≡ true → a < b
ltb→lt a b h = ground arith

pub lt→ltb : (a b : ℕ) → a < b → ltb a b ≡ true
lt→ltb a b h = ground arith

pub leb→le : (a b : ℕ) → leb a b ≡ true → a ≤ b
leb→le a b h = ground arith

pub ==_iff : (a b : ℕ) → ((a == b) ≡ true) ↔ (a ≡ b)
==_iff a b = ground arith

pub ruleset tests = (arith, ltb→lt, lt→ltb, leb→le)

pub Bool-cases : (b : Bool) → (b ≡ true) ⊎ (b ≡ false)
Bool-cases true = inl refl
Bool-cases false = inr refl

pub Option-cases {ℓ} : {A : Type ℓ} (o : Option A) → (o ≡ none) ⊎ ((a : A) × (o ≡ some a))
Option-cases none = inl refl
Option-cases (some a) = inr (a, refl)

-- A call that may panic (or, in a loop of the model, run out of fuel) returns an `Option`.
infixl 5 ◌>>=◌
abbrev pub ◌>>=◌ {ℓ κ} : {A : Type ℓ} {B : Type κ} → Option A → (A → Option B) → Option B
some a >>= f = f a
none >>= f = none

-- The call returns, with a value that satisfies `P`.
pub data Returns {ℓ κ} {A : Type ℓ} (P : A → Type κ) : Option A → Type (ℓ ⊔ κ) where
  returns : {a : A} → P a → Returns P (some a)

module _ {ℓ κ} {A : Type ℓ} {P : A → Type κ} where
  pub Returns-if :
      {yes no : Option A} (test : Bool)
      → (test ≡ true → Returns P yes)
      → (test ≡ false → Returns P no)
      → Returns P (if test then yes else no)
  Returns-if true h g = h refl
  Returns-if false h g = g refl

  pub Returns-map {κ'} :
      {R : A → Type κ'} {o : Option A} → Returns P o → ((a : A) → P a → R a) → Returns R o
  Returns-map (returns h) step = returns (step _ h)

  pub Returns-inv : {r : Option A} → Returns P r → (a : A) × (r ≡ some a) × P a
  Returns-inv (returns p) = (_, refl, p)

  pub Returns-bind {μ ν} :
      {C : Type μ} {R : C → Type ν} {o : Option A} {next : A → Option C}
      → Returns P o
      → ((a : A) → P a → Returns R (next a))
      → Returns R (o >>= next)
  Returns-bind (returns h) step = step _ h
