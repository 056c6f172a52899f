-- ===== src/Prelude/Tests.antt =====
-- Boolean tests on numbers and texts, the conditional, and case splits that keep an equation.
use Prim.Native.Nat.{ℕ, ◌≤◌, ◌<◌, compare, Ordering}
use Prim.Native.String.{String, compare as compare_text}
use mathlib.Core.Path.{◌≡◌, refl}
use mathlib.Core.Logic.{◌↔◌, ◌⊎◌, inl, inr}
use mathlib.Core.Bool.{Bool, true, false}
use mathlib.Core.Option.{Option, none, some}
use native.Mathlib.Omega.{arith}
use text.Mathlib.Text.{◌==◌ as same_text}
use text.Mathlib.TextEquality.{eq_iff}

abbrev pub ltb : ℕ → ℕ → Bool
ltb a b = elim (compare a b) [ Ordering.lt ↦ true | _ ↦ false ]

abbrev pub leb : ℕ → ℕ → Bool
leb a b = elim (compare a b) [ Ordering.gt ↦ false | _ ↦ true ]

abbrev same_number : ℕ → ℕ → Bool
same_number a b = elim (compare a b) [ Ordering.eq ↦ true | _ ↦ false ]

infix 1 if◌then◌else◌
abbrev pub if◌then◌else◌ {ℓ} : {A : Type ℓ} → Bool → A → A → A
if true then x else y = x
if false then x else y = y

-- A predicate holds of a conditional that it holds of on each branch.
pub if-cases {ℓ κ} :
    {A : Type ℓ} (P : A → Type κ) (b : Bool) (x y : A)
    → (b ≡ true → P x)
    → (b ≡ false → P y)
    → P (if b then x else y)
if-cases P true x y f g = f refl
if-cases P false x y f g = g refl

pub ltb→lt : (a b : ℕ) → ltb a b ≡ true → a < b
ltb→lt a b h = ground arith

pub lt→ltb : (a b : ℕ) → a < b → ltb a b ≡ true
lt→ltb a b h = ground arith

pub ltb_false→le : (a b : ℕ) → ltb a b ≡ false → b ≤ a
ltb_false→le a b h = ground arith

pub leb→le : (a b : ℕ) → leb a b ≡ true → a ≤ b
leb→le a b h = ground arith

pub le→leb : (a b : ℕ) → a ≤ b → leb a b ≡ true
le→leb a b h = ground arith

pub same_number_iff : (a b : ℕ) → (same_number a b ≡ true) ↔ (a ≡ b)
same_number_iff a b = ground arith

-- What Python's `==` means on the values of a type: a test, and that it decides equality.
pub record PyEq {ℓ} (K : Type ℓ) : Type ℓ where
  pub equals : K → K → Bool
  pub equal_iff : (x y : K) → (equals x y ≡ true) ↔ (x ≡ y)

infix 50 ◌==◌
abbrev pub ◌==◌ {ℓ} : {K : Type ℓ} ⦃q : PyEq K⦄ → K → K → Bool
◌==◌ ⦃q⦄ x y = q.equals x y

instance abbrev pub eq_text : PyEq String
eq_text = record { equals = same_text; equal_iff = eq_iff }

instance abbrev pub eq_number : PyEq ℕ
eq_number = record { equals = same_number; equal_iff = same_number_iff }

-- Python compares texts by code point.
abbrev pub le_text : String → String → Bool
le_text s t = elim (compare_text s t) [ Ordering.gt ↦ false | _ ↦ true ]

pub Bool-cases : (b : Bool) → (b ≡ true) ⊎ (b ≡ false)
Bool-cases true = inl refl
Bool-cases false = inr refl

pub Option-cases {ℓ} : {A : Type ℓ} (o : Option A) → (o ≡ none) ⊎ ((a : A) × (o ≡ some a))
Option-cases none = inl refl
Option-cases (some a) = inr (a, refl)
