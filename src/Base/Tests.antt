-- ===== src/Base/Tests.antt =====
-- Boolean tests on the native numbers, the conditional, and an interface for tests of equality.
use Prim.Native.Nat.{ℕ, compare, Ordering}
use mathlib.Core.Path.{◌≡◌, refl}
use mathlib.Core.Logic.{◌↔◌, ◌⊎◌, inl, inr}
use mathlib.Core.Bool.{Bool, true, false}
use mathlib.Core.Option.{Option, none, some}
use native.Mathlib.Omega.{arith}

abbrev pub ltb : ℕ → ℕ → Bool
ltb a b = elim (compare a b) [ Ordering.lt ↦ true | _ ↦ false ]

abbrev pub leb : ℕ → ℕ → Bool
leb a b = elim (compare a b) [ Ordering.gt ↦ false | _ ↦ true ]

abbrev pub nat_eqb : ℕ → ℕ → Bool
nat_eqb a b = elim (compare a b) [ Ordering.eq ↦ true | _ ↦ false ]

infix 1 if◌then◌else◌
abbrev pub if◌then◌else◌ {ℓ} : {A : Type ℓ} → Bool → A → A → A
if true then x else y = x
if false then x else y = y

pub nat_eqb_iff : (a b : ℕ) → (nat_eqb a b ≡ true) ↔ (a ≡ b)
nat_eqb_iff a b = ground arith

pub Bool-cases : (b : Bool) → (b ≡ true) ⊎ (b ≡ false)
Bool-cases true = inl refl
Bool-cases false = inr refl

pub Option-cases {ℓ} : {A : Type ℓ} (o : Option A) → (o ≡ none) ⊎ ((a : A) × (o ≡ some a))
Option-cases none = inl refl
Option-cases (some a) = inr (a, refl)

-- What Go's `==` gives on a key type.
pub record Comparable {ℓ} (A : Type ℓ) : Type ℓ where
  pub is_equal : A → A → Bool
  pub is_equal_iff : (a b : A) → (is_equal a b ≡ true) ↔ (a ≡ b)

infix 50 ◌==◌
abbrev pub ◌==◌ {ℓ} : {K : Type ℓ} ⦃keys : Comparable K⦄ (j k : K) → Bool
◌==◌ ⦃keys⦄ j k = keys.is_equal j k

module _ {ℓ} {A : Type ℓ} ⦃e : Comparable A⦄ where
  pub beq_self : (a : A) → (a == a) ≡ true
  beq_self a = (e.is_equal_iff a a).1 refl

instance abbrev pub nat_eq : Comparable ℕ
nat_eq = record { is_equal = nat_eqb; is_equal_iff = nat_eqb_iff }
