-- ===== src/Prelude/Tests.antt =====
-- Boolean tests on the native numbers, on the codes of enumerations, and the conditional.
use Prim.Native.Nat.{ℕ, compare, Ordering}
use mathlib.Core.Path.{◌≡◌, refl}
use mathlib.Core.Logic.{◌⊎◌, inl, inr}
use mathlib.Core.Bool.{Bool, true, false}
use mathlib.Core.Option.{Option, none, some}

-- These compute to `compare`, which `ground` and `grind` read with no lemma listed.
abbrev pub ltb : ℕ → ℕ → Bool
ltb a b = elim (compare a b) [ Ordering.lt ↦ true | _ ↦ false ]

abbrev pub leb : ℕ → ℕ → Bool
leb a b = elim (compare a b) [ Ordering.gt ↦ false | _ ↦ true ]

abbrev pub beq : ℕ → ℕ → Bool
beq a b = elim (compare a b) [ Ordering.eq ↦ true | _ ↦ false ]

-- A type whose values the source compares as numbers: an enumeration by its Go constants.
pub record Coded (A : Type 0) : Type 0 where
  pub code : A → ℕ

infix 50 ◌==◌
abbrev pub ◌==◌ : {A : Type 0} ⦃c : Coded A⦄ → A → A → Bool
◌==◌ ⦃c⦄ a b = beq (c.code a) (c.code b)

infix 50 ◌<?◌
abbrev pub ◌<?◌ : {A : Type 0} ⦃c : Coded A⦄ → A → A → Bool
◌<?◌ ⦃c⦄ a b = ltb (c.code a) (c.code b)

instance abbrev pub nat_coded : Coded ℕ
nat_coded = record { code = λ n. n }

infix 1 if◌then◌else◌
abbrev pub if◌then◌else◌ {ℓ} : {A : Type ℓ} → Bool → A → A → A
if true then x else y = x
if false then x else y = y

-- To split on a computed value and keep the equation.
pub Option-cases {ℓ} : {A : Type ℓ} (o : Option A) → (o ≡ none) ⊎ ((a : A) × (o ≡ some a))
Option-cases none = inl refl
Option-cases (some a) = inr (a, refl)

pub Bool-cases : (b : Bool) → (b ≡ true) ⊎ (b ≡ false)
Bool-cases true = inl refl
Bool-cases false = inr refl
