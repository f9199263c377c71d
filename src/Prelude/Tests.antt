-- ===== src/Prelude/Tests.antt =====
-- Boolean tests, equality as an interface, and the conditional.
use Prim.Native.Nat.{ℕ, compare, Ordering}
use Prim.Native.String.{String}
use mathlib.Core.Path.{◌≡◌, refl, ap}
use mathlib.Core.Logic.{◌↔◌, ◌⊎◌, inl, inr}
use mathlib.Core.Bool.{Bool, true, false}
use mathlib.Core.Option.{Option, none, some}
use native.Mathlib.Omega.{arith}
use text.Mathlib.Text.{◌==◌ as str_eq}
use text.Mathlib.TextEquality.{eq_iff}

abbrev pub ltb : ℕ → ℕ → Bool
ltb a b = elim (compare a b) [ Ordering.lt ↦ true | _ ↦ false ]

abbrev pub leb : ℕ → ℕ → Bool
leb a b = elim (compare a b) [ Ordering.gt ↦ false | _ ↦ true ]

abbrev pub nat_beq : ℕ → ℕ → Bool
nat_beq a b = elim (compare a b) [ Ordering.eq ↦ true | _ ↦ false ]

pub nat_beq_iff : (a b : ℕ) → (nat_beq a b ≡ true) ↔ (a ≡ b)
nat_beq_iff a b = ground arith

infix 1 if◌then◌else◌
abbrev pub if◌then◌else◌ {ℓ} : {A : Type ℓ} → Bool → A → A → A
if true then x else y = x
if false then x else y = y

-- Python's ==, for the types whose values the program compares.
pub record Comparable {ℓ} (A : Type ℓ) : Type ℓ where
  pub same : A → A → Bool
  pub same_iff : (x y : A) → (same x y ≡ true) ↔ (x ≡ y)

instance abbrev pub string_eq : Comparable String
string_eq = record { same = str_eq; same_iff = eq_iff }

instance abbrev pub nat_eq : Comparable ℕ
nat_eq = record { same = nat_beq; same_iff = nat_beq_iff }

module _ {ℓ} {A : Type ℓ} ⦃c : Comparable A⦄ where
  infix 50 ◌==◌
  abbrev pub ◌==◌ : A → A → Bool
  x == y = c.same x y

  -- None is equal to None alone.
  abbrev pub option_beq : Option A → Option A → Bool
  option_beq (some x) (some y) = x == y
  option_beq (some x) none = false
  option_beq none (some y) = false
  option_beq none none = true

  pub option_beq_iff : (o p : Option A) → (option_beq o p ≡ true) ↔ (o ≡ p)
  option_beq_iff (some x) (some y) =
      (λ h. ap some ((c.same_iff x y).0 h), λ h. (c.same_iff x y).1 (cc h))
  option_beq_iff (some x) none = (λ h. cc, λ h. cc)
  option_beq_iff none (some y) = (λ h. cc, λ h. cc)
  option_beq_iff none none = (λ _. refl, λ _. refl)

  instance abbrev pub option_eq : Comparable (Option A)
  option_eq = record { same = option_beq; same_iff = option_beq_iff }

-- To split on a computed value and keep the equation.
pub Bool-cases : (b : Bool) → (b ≡ true) ⊎ (b ≡ false)
Bool-cases true = inl refl
Bool-cases false = inr refl

pub Option-cases {ℓ} : {A : Type ℓ} (o : Option A) → (o ≡ none) ⊎ ((a : A) × (o ≡ some a))
Option-cases none = inl refl
Option-cases (some a) = inr (a, refl)

abbrev pub is_some {ℓ} : {A : Type ℓ} → Option A → Bool
is_some none = false
is_some (some a) = true

abbrev pub is_none {ℓ} : {A : Type ℓ} → Option A → Bool
is_none none = true
is_none (some a) = false

-- SQL's COALESCE, and Python's `a or b` on values that are never falsy.
abbrev pub coalesce {ℓ} : {A : Type ℓ} → Option A → Option A → Option A
coalesce none b = b
coalesce (some a) b = some a

-- dict.get(k, d)
abbrev pub get_or {ℓ} : {A : Type ℓ} → Option A → A → A
get_or none d = d
get_or (some a) d = a
