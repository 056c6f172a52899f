-- ===== src/Prelude/Lists.antt =====
-- Lists measured by native numbers, membership tests (Python's `in`), and predicates on lists.
use Prim.Native.Nat.{ℕ, zero, suc, ◌+◌, ◌-◌, min}
use mathlib.Core.Path.{◌≡◌, refl, ap, subst}
use mathlib.Core.Logic.{◌⊎◌, inl, inr}
use mathlib.Core.Bool.{Bool, true, false, ◌&&◌, ◌||◌}
use mathlib.Core.List.{List, [], ◌∷◌, ◌++◌}
use native.Mathlib.Omega.{arith}
use motoro.Prelude.Tests.{PyEq, ◌==◌, if◌then◌else◌}

module _ {ℓ} {A : Type ℓ} where
  abbrev pub length : List A → ℕ
  length [] = 0
  length (x ∷ xs) = suc (length xs)

  abbrev pub take : ℕ → List A → List A
  take zero xs = []
  take (suc n) [] = []
  take (suc n) (x ∷ xs) = x ∷ take n xs

  abbrev pub drop : ℕ → List A → List A
  drop zero xs = xs
  drop (suc n) [] = []
  drop (suc n) (x ∷ xs) = drop n xs

  -- Python's `any(p(x) for x in xs)` and `all(...)`.
  abbrev pub any : (A → Bool) → List A → Bool
  any p [] = false
  any p (x ∷ xs) = p x || any p xs

  abbrev pub all : (A → Bool) → List A → Bool
  all p [] = true
  all p (x ∷ xs) = p x && all p xs

  abbrev pub select : (A → Bool) → List A → List A
  select p [] = []
  select p (x ∷ xs) = if p x then x ∷ select p xs else select p xs

  -- Every entry satisfies `P`.
  abbrev pub All {κ} : (A → Type κ) → List A → Type κ
  All holds [] = Unit
  All holds (entry ∷ rest) = holds entry × All holds rest

module _ {ℓ} {A : Type ℓ} where
  pub length-append : (xs ys : List A) → length (xs ++ ys) ≡ length xs + length ys
  length-append [] ys = omega arith
  length-append (x ∷ xs) ys = omega (arith, length-append xs ys)

  pub length-drop : (n : ℕ) (xs : List A) → length (drop n xs) ≡ length xs - n
  length-drop zero xs = omega arith
  length-drop (suc n) [] = omega arith
  length-drop (suc n) (x ∷ xs) = omega (arith, length-drop n xs)

  pub length-take : (n : ℕ) (xs : List A) → length (take n xs) ≡ min n (length xs)
  length-take zero xs = omega arith
  length-take (suc n) [] = omega arith
  length-take (suc n) (x ∷ xs) = omega (arith, length-take n xs)

  pub select-append :
      (p : A → Bool) (xs ys : List A) → select p (xs ++ ys) ≡ select p xs ++ select p ys
  select-append p [] ys = refl
  select-append p (x ∷ xs) ys = ground (arith, select-append p xs ys)

  pub take-append-drop : (n : ℕ) (xs : List A) → take n xs ++ drop n xs ≡ xs
  take-append-drop zero xs = refl
  take-append-drop (suc n) [] = refl
  take-append-drop (suc n) (x ∷ xs) = ap (λ t. x ∷ t) (take-append-drop n xs)

module _ {ℓ} {A : Type ℓ} ⦃e : PyEq A⦄ where
  -- Python's `a in xs`.
  abbrev pub has : List A → A → Bool
  has [] a = false
  has (x ∷ xs) a = x == a || has xs a

  pub has-append : (xs ys : List A) (a : A) → has (xs ++ ys) a ≡ (has xs a || has ys a)
  has-append [] ys a = refl
  has-append (x ∷ xs) ys a = ground (arith, has-append xs ys a)

module _ {ℓ} {A : Type ℓ} where
  pub All-append {κ} :
      (P : A → Type κ) (front back : List A) → All P front → All P back → All P (front ++ back)
  All-append P [] back f b = b
  All-append P (_ ∷ front) back f b = (f.0, All-append P front back f.1 b)

module _ {A : Type 0} where
  -- `a` is one of the entries.
  abbrev pub In : A → List A → Type 0
  In a [] = ⊥
  In a (x ∷ xs) = (x ≡ a) ⊎ In a xs

module _ {A : Type 0} where
  pub In-append_left : (a : A) (xs ys : List A) → In a xs → In a (xs ++ ys)
  In-append_left a [] ys m = absurd m
  In-append_left a (x ∷ xs) ys (inl e) = inl e
  In-append_left a (x ∷ xs) ys (inr m) = inr (In-append_left a xs ys m)

  pub In-append_right : (a : A) (xs ys : List A) → In a ys → In a (xs ++ ys)
  In-append_right a [] ys m = m
  In-append_right a (x ∷ xs) ys m = inr (In-append_right a xs ys m)

  pub All-In {κ} : (P : A → Type κ) (a : A) (xs : List A) → All P xs → In a xs → P a
  All-In P a [] h m = absurd m
  All-In P a (x ∷ xs) h (inl e) = subst P e h.0
  All-In P a (x ∷ xs) h (inr m) = All-In P a xs h.1 m
