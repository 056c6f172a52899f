-- ===== src/Sampling/Resolve/Ensures.antt =====
-- What holds of a result, if one is returned.
use motoro.Prelude.{◌≡◌, refl, subst}
use motoro.Sampling.Resolve.{Outcome, returned, raised, ◌>>=◌}

abbrev pub Ensures {ℓ} : {A : Type 0} → (A → Type ℓ) → Outcome A → Type ℓ
Ensures P (returned a) = P a
Ensures P (raised e) = Unit

module _ {ℓ} {A : Type 0} (P : A → Type ℓ) where
  pub Ensures-returned : (o : Outcome A) (a : A) → Ensures P o → o ≡ returned a → P a
  Ensures-returned o a h e = subst (Ensures P) e h

  pub Ensures-bind {κ} :
      {B : Type 0} (Q : B → Type κ) (o : Outcome B) (k : B → Outcome A)
      → Ensures Q o
      → ((b : B) → Q b → Ensures P (k b))
      → Ensures P (o >>= k)
  Ensures-bind Q (returned b) k h f = f b h
  Ensures-bind Q (raised e) k h f = tt

pub Ensures-nothing : {A : Type 0} (o : Outcome A) → Ensures (λ _. Unit {0}) o
Ensures-nothing (returned a) = tt
Ensures-nothing (raised e) = tt

pub Ensures-itself : {A : Type 0} (o : Outcome A) → Ensures (λ a. o ≡ returned a) o
Ensures-itself (returned a) = refl
Ensures-itself (raised e) = tt
