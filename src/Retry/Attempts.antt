-- ===== src/Retry/Attempts.antt =====
-- Which calls are made, and what comes of them.
use motoro.Prelude.{
  ℕ, zero, suc, ◌+◌, ◌-◌, ◌≤◌, ◌<◌, Bool, true, false, ◌==◌, eq_number, same_number_iff, some, List,
  [], ◌∷◌, ◌≡◌, ◌≢◌, ◌⊎◌, inl, inr, refl, sym, ap, subst, arith, if-cases, map,
}
use motoro.Retry.{
  Outcome, returned, raised, Retried, exponential_backoff_delay, try_once, attempts,
  retry_with_backoff,
}

module _ {A E : Type 0} (retryable : E → Bool) where
  -- A failure that is worth another try.
  abbrev pub Transient : Outcome A E → Type 0
  Transient o = (e : E) × (o ≡ raised e) × (retryable e ≡ true)

  -- An outcome that ends the loop at this attempt.
  pub Final : Outcome A E → ℕ → ℕ → Type 0
  Final (returned a) attempt max_retries = Unit
  Final (raised e) attempt max_retries = (retryable e ≡ false) ⊎ (attempt ≡ max_retries)

-- first, first + 1, … : as many as `count`.
unfoldable pub count_from : ℕ → ℕ → List ℕ
count_from first zero = []
count_from first (suc n) = first ∷ count_from (suc first) n

eq_or_less : (first k : ℕ) → first ≤ k → (first ≡ k) ⊎ (suc first ≤ k)
eq_or_less first k h = ground arith

-- The calls from number `first` on fail with a transient error, up to the last, which is final.
pub Tells :
    {A E : Type 0} (retryable : E → Bool) (func : ℕ → Outcome A E) (delay : ℕ → ℕ)
    (max_retries first : ℕ)
    → Retried A E
    → Type 0
Tells retryable func delay max_retries first r =
    (last : ℕ) × (first ≤ last)
    × (r.calls ≡ suc last)
    × (r.outcome ≡ some (func last))
    × Final retryable (func last) last max_retries
    × (r.sleeps ≡ map delay (count_from first (last - first)))
    × ((k : ℕ) → first ≤ k → k < last → Transient retryable (func k))

count_from_self : (first : ℕ) → count_from first (first - first) ≡ []
unfolding count_from
count_from_self first = let none_left : first - first ≡ 0 = omega arith in rw none_left

count_from-suc :
    (first last : ℕ)
    → suc first ≤ last
    → count_from first (last - first) ≡ first ∷ count_from (suc first) (last - suc first)
unfolding count_from
count_from-suc first last h =
    let one_less : last - first ≡ suc (last - suc first) = omega (arith, h) in rw one_less

module _ {A E : Type 0} (retryable : E → Bool) (func : ℕ → Outcome A E) (delay : ℕ → ℕ)
    (max_retries : ℕ) where
  Tells-stop :
      (first : ℕ) (o : Outcome A E)
      → o ≡ func first
      → Final retryable o first max_retries
      → Tells retryable func delay max_retries first
          (record { outcome = some o; calls = suc first; sleeps = [] })
  unfolding Tells
  Tells-stop first o q f = (
    first,
    omega arith,
    refl,
    ap (λ x. some x) q,
    subst (λ x. Final retryable x first max_retries) q f,
    rw (count_from_self first),
    λ k l h. ground arith,
  )

  Tells-later :
      (first : ℕ) (e : E) (r : Retried A E)
      → raised e ≡ func first
      → retryable e ≡ true
      → Tells retryable func delay max_retries (suc first) r
      → Tells retryable func delay max_retries first (record r { sleeps = delay first ∷ r.sleeps })
  unfolding Tells
  Tells-later first e r q t (last, l, c, o, f, s, b) = (
    last,
    omega (arith, l),
    c,
    o,
    f,
    rw (count_from-suc first last l, s),
    λ k m h. elim (eq_or_less first k m) [
      | inl g ↦ subst (λ j. Transient retryable (func j)) g (e, sym q, t)
      | inr g ↦ b k g h
    ],
  )

  try_once-Tells :
      (first : ℕ) (o : Outcome A E) (rest : Retried A E)
      → o ≡ func first
      → (first ≢ max_retries → Tells retryable func delay max_retries (suc first) rest)
      → Tells retryable func delay max_retries first
          (try_once retryable func delay max_retries o first rest)
  unfolding try_once Final
  try_once-Tells first (returned a) rest q later = Tells-stop first (returned a) q tt
  try_once-Tells first (raised e) rest q later =
      let tells = Tells retryable func delay max_retries first in
      if-cases tells (retryable e) _ _
        (λ t.
          if-cases tells (first == max_retries) _ _
            (λ m. Tells-stop first (raised e) q (inr ((same_number_iff first max_retries).0 m)))
            (λ m. Tells-later first e rest q t (later (λ g. ground (arith, m, g)))))
        (λ t. Tells-stop first (raised e) q (inl t))

  attempts-Tells :
      (left first : ℕ)
      → first + left ≡ max_retries
      → Tells retryable func delay max_retries first
          (attempts retryable func delay max_retries (suc left) first)
  unfolding attempts
  attempts-Tells zero first h =
      try_once-Tells first (func first) _ refl (λ g. absurd (g (omega (arith, h))))
  attempts-Tells (suc left) first h =
      try_once-Tells first (func first) _ refl
        (λ _. attempts-Tells left (suc first) (omega (arith, h)))

-- `func` is called for the attempts 0, 1, … up to a last one, whose outcome is the result: all
-- before it fail with a retryable exception, and it returns, fails with another exception or is
-- the attempt with number `max_retries`. Before each later call there is one sleep, the backoff
-- delay of the attempt that failed; the RuntimeError behind the loop is never reached.
pub retry_with_backoff_lem :
    {A E : Type 0} (retryable : E → Bool) (func : ℕ → Outcome A E) (jitter : ℕ → ℕ → ℕ)
    (max_retries base_delay max_delay : ℕ)
    → Tells retryable func
        (λ n. exponential_backoff_delay jitter n base_delay max_delay)
        max_retries
        0
        (retry_with_backoff retryable func jitter max_retries base_delay max_delay)
unfolding retry_with_backoff
retry_with_backoff_lem retryable func jitter max_retries base_delay max_delay =
    attempts-Tells retryable func (λ n. exponential_backoff_delay jitter n base_delay max_delay)
      max_retries max_retries 0 (omega arith)
