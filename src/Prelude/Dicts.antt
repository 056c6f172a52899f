-- ===== src/Prelude/Dicts.antt =====
-- Python's `dict` as an association list in insertion order.
use mathlib.Core.Path.{◌≡◌, refl}
use mathlib.Core.List.{List, [], ◌∷◌}
use mathlib.Core.Option.{Option, none, some}
use native.Mathlib.Omega.{arith}
use mathlib.Core.Bool.{true, false, ◌&&◌}
use mathlib.Core.Logic.{◌↔◌}
use motoro.Prelude.Tests.{PyEq, ◌==◌, if◌then◌else◌}

abbrev pub Dict {ℓ κ} : Type ℓ → Type κ → Type (ℓ ⊔ κ)
Dict K V = List (K × V)

module _ {ℓ κ} {K : Type ℓ} {V : Type κ} ⦃e : PyEq K⦄ where
  -- d.get(k)
  unfoldable pub get : Dict K V → K → Option V
  get [] k = none
  get ((j, v) ∷ d) k = if j == k then some v else get d k

  -- d[k] = v: a key that is there keeps its place, a new one comes last.
  unfoldable pub put : Dict K V → K → V → Dict K V
  put [] k v = (k, v) ∷ []
  put ((j, w) ∷ d) k v = let rest = put d k v in if j == k then (j, v) ∷ d else (j, w) ∷ rest

  pub get-put :
      (d : Dict K V) (k j : K) (v : V) → get (put d k v) j ≡ (if k == j then some v else get d j)
  unfolding get put
  get-put [] k j v = refl
  get-put ((i, w) ∷ d) k j v =
      ground (arith, get-put d k j v, e.equal_iff k j, e.equal_iff i k, e.equal_iff i j)

  -- d.get(k, default)
  unfoldable pub get_or : Dict K V → K → V → V
  unfolding get
  get_or [] k v = v
  get_or ((j, w) ∷ d) k v = if j == k then w else get_or d k v

  pub get_or-put :
      (d : Dict K V) (k j : K) (v w : V)
      → get_or (put d k v) j w ≡ (if k == j then v else get_or d j w)
  unfolding get_or put
  get_or-put [] k j v w = refl
  get_or-put ((i, u) ∷ d) k j v w =
      ground (arith, get_or-put d k j v w, e.equal_iff k j, e.equal_iff i k, e.equal_iff i j)

  -- del d[k], where the key may be missing.
  unfoldable pub remove : Dict K V → K → Dict K V
  remove [] k = []
  remove ((j, v) ∷ d) k = let rest = remove d k in if j == k then rest else (j, v) ∷ rest

  pub get-remove :
      (d : Dict K V) (k j : K) → get (remove d k) j ≡ (if k == j then none else get d j)
  unfolding get remove
  get-remove [] k j = ground arith
  get-remove ((i, w) ∷ d) k j =
      ground (arith, get-remove d k j, e.equal_iff k j, e.equal_iff i k, e.equal_iff i j)

  pub get_or-remove :
      (d : Dict K V) (k j : K) (w : V)
      → get_or (remove d k) j w ≡ (if k == j then w else get_or d j w)
  unfolding get_or remove
  get_or-remove [] k j w = ground arith
  get_or-remove ((i, u) ∷ d) k j w =
      ground (arith, get_or-remove d k j w, e.equal_iff k j, e.equal_iff i k, e.equal_iff i j)

module _ {ℓ κ} {K : Type ℓ} {V : Type κ} ⦃e : PyEq K⦄ where
  pub remove-put_same : (d : Dict K V) (k : K) (v : V) → remove (put d k v) k ≡ remove d k
  unfolding put remove
  remove-put_same [] k v = ground (arith, e.equal_iff k k)
  remove-put_same ((j, w) ∷ d) k v = ground (arith, remove-put_same d k v)

  pub remove-put_other :
      (d : Dict K V) (k j : K) (v : V)
      → (k == j) ≡ false
      → remove (put d k v) j ≡ put (remove d j) k v
  unfolding put remove
  remove-put_other [] k j v n = ground (arith, n)
  remove-put_other ((i, w) ∷ d) k j v n =
      ground
        (arith, n, remove-put_other d k j v n, e.equal_iff i k, e.equal_iff i j, e.equal_iff k j)

pub pair_iff {ℓ κ} :
    {A : Type ℓ} {B : Type κ} ⦃a : PyEq A⦄ ⦃b : PyEq B⦄ (p q : A × B)
    → ((a.equals p.0 q.0 && b.equals p.1 q.1) ≡ true) ↔ (p ≡ q)
pair_iff ⦃a⦄ ⦃b⦄ p q = ground (arith, a.equal_iff p.0 q.0, b.equal_iff p.1 q.1)

instance abbrev pub eq_pair {ℓ κ} :
    {A : Type ℓ} {B : Type κ} → ⦃a : PyEq A⦄ → ⦃b : PyEq B⦄ → PyEq (A × B)
eq_pair ⦃a⦄ ⦃b⦄ = record {
  equals = λ p q. a.equals p.0 q.0 && b.equals p.1 q.1;
  equal_iff = pair_iff;
}
