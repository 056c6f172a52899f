-- ===== src/Retry/Examples.antt =====
-- A call that fails twice before it returns.
use motoro.Prelude.{
  ℕ, zero, suc, ◌≤◌, ◌*◌, ◌/◌, ◌^◌, min, Bool, true, false, some, [], ◌∷◌, ◌≡◌, refl, arith,
}
use motoro.Retry.{Outcome, returned, raised, Retried, exponential_backoff_delay, retry_with_backoff}
use motoro.Retry.Attempts.{Tells, retry_with_backoff_lem}
use motoro.Retry.Delays.{exponential_backoff_delay_lem}

data Fault : Type 0 where
  timeout refused : Fault

abbrev is_timeout : Fault → Bool
is_timeout timeout = true
is_timeout refused = false

abbrev flaky : ℕ → Outcome ℕ Fault
flaky zero = raised timeout
flaky (suc zero) = raised timeout
flaky (suc (suc zero)) = returned 7
flaky (suc (suc (suc _))) = raised refused

-- The whole band.
abbrev most : ℕ → ℕ → ℕ
most n half = half

-- With a base of 1.0 and a cap of 1.5, in halves.
abbrev third_time : Retried ℕ Fault
third_time = record { outcome = some (returned 7); calls = 3; sleeps = 2 ∷ 3 ∷ [] }

returns_third : retry_with_backoff is_timeout flaky most 3 2 3 ≡ third_time
unfolding retry_with_backoff
returns_third = refl

runs_out :
    retry_with_backoff is_timeout flaky most 1 2 3
    ≡ record { outcome = some (raised timeout); calls = 2; sleeps = 2 ∷ [] }
unfolding retry_with_backoff
runs_out = refl

retry_with_backoff_lem_example :
    Tells is_timeout flaky
      (λ n. exponential_backoff_delay most n 2 3)
      3
      0
      (retry_with_backoff is_timeout flaky most 3 2 3)
retry_with_backoff_lem_example = retry_with_backoff_lem is_timeout flaky most 3 2 3

most-in_band : (n half : ℕ) → most n half ≤ half
most-in_band n half = omega arith

exponential_backoff_delay_lem_example :
    (exponential_backoff_delay most 1 2 3 ≤ min (2 * 2 ^ 1) 3)
    × (min (2 * 2 ^ 1 / 2) 3 ≤ exponential_backoff_delay most 1 2 3)
    × (min (2 / 2) 3 ≤ exponential_backoff_delay most 1 2 3)
exponential_backoff_delay_lem_example = exponential_backoff_delay_lem most 1 2 3 most-in_band
