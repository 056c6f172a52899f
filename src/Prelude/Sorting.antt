-- ===== src/Prelude/Sorting.antt =====
-- Python's `sorted(xs, key=...)`: a stable sort, and the buckets that it puts in a row.
use Prim.Native.Nat.{ℕ, zero, suc, ◌+◌, ◌≤◌, ◌<◌}
use mathlib.Core.Path.{◌≡◌, refl, sym, ap, ◌∙◌}
use mathlib.Core.Bool.{Bool, true, false}
use mathlib.Core.List.{List, [], ◌∷◌, ◌++◌}
use mathlib.Core.Logic.{inl, inr}
use native.Mathlib.Omega.{arith}
use motoro.Prelude.Tests.{leb, ◌==◌, eq_number, if◌then◌else◌, Bool-cases}
use motoro.Prelude.Lists.{select, All, All-append}

module _ {ℓ} {A : Type ℓ} (le : A → A → Bool) where
  -- Goes in front of the first entry that is not below it, so equal keys keep their order.
  unfoldable pub insert_sorted : A → List A → List A
  insert_sorted x [] = x ∷ []
  insert_sorted x (y ∷ ys) =
      let rest = insert_sorted x ys in if le x y then x ∷ y ∷ ys else y ∷ rest

  unfoldable pub sort : List A → List A
  unfolding insert_sorted
  sort [] = []
  sort (x ∷ xs) = insert_sorted x (sort xs)

  -- Entries strictly below `x` are passed over.
  insert_sorted-append :
      (x : A) (ys zs : List A)
      → All (λ y. le x y ≡ false) ys
      → insert_sorted x (ys ++ zs) ≡ ys ++ insert_sorted x zs
  unfolding insert_sorted
  insert_sorted-append x [] zs h = refl
  insert_sorted-append x (y ∷ ys) zs h = rw h.0 (ap (λ t. y ∷ t) (insert_sorted-append x ys zs h.1))

  insert_sorted_front :
      (x : A) (ys : List A) → All (λ y. le x y ≡ true) ys → insert_sorted x ys ≡ x ∷ ys
  unfolding insert_sorted
  insert_sorted_front x [] h = refl
  insert_sorted_front x (y ∷ ys) h = rw h.0

module _ {ℓ} {A : Type ℓ} (key : A → ℕ) where
  abbrev pub le_key : A → A → Bool
  le_key x y = leb (key x) (key y)

  -- The entries with keys n, n + 1, …, n + m - 1, key by key, each in the order given.
  abbrev pub buckets : ℕ → ℕ → List A → List A
  buckets n zero xs = []
  buckets n (suc m) xs = select (λ x. key x == n) xs ++ buckets (suc n) m xs

  bucket-lt :
      (x : A) (n : ℕ) (xs : List A)
      → n < key x
      → All (λ y. le_key x y ≡ false) (select (λ y. key y == n) xs)
  bucket-lt x n [] h = tt
  bucket-lt x n (y ∷ ys) h = elim (Bool-cases (key y == n)) [
    | inl e ↦ rw e (ground arith, bucket-lt x n ys h)
    | inr e ↦ rw e (bucket-lt x n ys h)
  ]

  bucket-ge :
      (x : A) (n : ℕ) (xs : List A)
      → key x ≤ n
      → All (λ y. le_key x y ≡ true) (select (λ y. key y == n) xs)
  bucket-ge x n [] h = tt
  bucket-ge x n (y ∷ ys) h = elim (Bool-cases (key y == n)) [
    | inl e ↦ rw e (ground arith, bucket-ge x n ys h)
    | inr e ↦ rw e (bucket-ge x n ys h)
  ]

  buckets-ge :
      (x : A) (n m : ℕ) (xs : List A) → key x ≤ n → All (λ y. le_key x y ≡ true) (buckets n m xs)
  buckets-ge x n zero xs h = tt
  buckets-ge x n (suc m) xs h =
      All-append (λ y. le_key x y ≡ true) _ _ (bucket-ge x n xs h)
        (buckets-ge x (suc n) m xs (omega arith))

  bucket_skip :
      (x : A) (n : ℕ) (xs : List A)
      → (key x == n) ≡ false
      → select (λ y. key y == n) (x ∷ xs) ≡ select (λ y. key y == n) xs
  bucket_skip x n xs e = rw e

  buckets_skip : (x : A) (n m : ℕ) (xs : List A) → key x < n → buckets n m (x ∷ xs) ≡ buckets n m xs
  buckets_skip x n zero xs h = refl
  buckets_skip x n (suc m) xs h =
      rw (bucket_skip x n xs (ground arith), buckets_skip x (suc n) m xs (omega arith))

  insert_sorted-buckets :
      (x : A) (n m : ℕ) (xs : List A)
      → n ≤ key x
      → key x < n + m
      → insert_sorted le_key x (buckets n m xs) ≡ buckets n m (x ∷ xs)
  insert_sorted-buckets x n zero xs lo hi = absurd (omega arith)
  insert_sorted-buckets x n (suc m) xs lo hi = elim (Bool-cases (key x == n)) [
    | inl e ↦
        insert_sorted_front le_key x _ (buckets-ge x n (suc m) xs (ground arith))
        ∙ rw (e, buckets_skip x (suc n) m xs (ground arith))
    | inr e ↦
        insert_sorted-append le_key x _ _ (bucket-lt x n xs (ground arith))
        ∙ rw (e, insert_sorted-buckets x (suc n) m xs (ground arith) (omega arith))
  ]

  -- With all keys below `m`, the sorted list is the buckets in a row.
  pub sort-eq-buckets :
      (m : ℕ) (xs : List A) → All (λ x. key x < m) xs → sort le_key xs ≡ buckets 0 m xs
  unfolding sort
  sort-eq-buckets m [] h = sym (buckets_nil 0 m)
    where
      buckets_nil : (n k : ℕ) → buckets n k [] ≡ []
      buckets_nil n zero = refl
      buckets_nil n (suc k) = buckets_nil (suc n) k
  sort-eq-buckets m (x ∷ xs) h =
      rw (sort-eq-buckets m xs h.1)
        (insert_sorted-buckets x 0 m xs (omega arith) (omega (arith, h.0)))
