-- ===== src/Retry.antt =====
-- services/retry.py: retries with exponential backoff.
pub mod Attempts
pub mod Delays
mod Examples
use motoro.Prelude.{
  ℕ, zero, suc, ◌+◌, ◌*◌, ◌/◌, ◌^◌, min, Bool, true, false, ◌==◌, eq_number, Option, none, some,
  List, [], ◌∷◌, ◌++◌, if◌then◌else◌,
}

-- The outcome of an awaited call.
pub data Outcome (A E : Type 0) : Type 0 where
  returned : A → Outcome A E
  raised : E → Outcome A E

-- A time is a whole number of some unit of which `base` is an even number, so that its half is
-- exact. `jitter attempt half` is random.uniform(0, half) before that retry.
unfoldable pub exponential_backoff_delay : (ℕ → ℕ → ℕ) → ℕ → ℕ → ℕ → ℕ
exponential_backoff_delay jitter attempt base cap =
    let exp = base * 2 ^ attempt in
    let half = exp / 2 in let delay = half + jitter attempt half in min delay cap

-- What a retried call leaves: its outcome, how often `func` was called, and the sleeps. No outcome
-- stands for the RuntimeError behind the loop.
pub record Retried (A E : Type 0) : Type 0 where
  pub outcome : Option (Outcome A E)
  pub calls : ℕ
  pub sleeps : List ℕ

module _ {A E : Type 0} (retryable : E → Bool) (func : ℕ → Outcome A E) (delay : ℕ → ℕ)
    (max_retries : ℕ) where
  abbrev slept : ℕ → Retried A E → Retried A E
  slept d r = record r { sleeps = d ∷ r.sleeps }

  abbrev stop : Outcome A E → ℕ → Retried A E
  stop outcome attempt = record { outcome = some outcome; calls = suc attempt; sleeps = [] }

  -- One pass of the loop body, `rest` is what the passes after it do.
  unfoldable pub try_once : Outcome A E → ℕ → Retried A E → Retried A E
  try_once (returned a) attempt rest = stop (returned a) attempt
  try_once (raised e) attempt rest =
      if retryable e
      then if attempt == max_retries then stop (raised e) attempt else slept (delay attempt) rest
      else stop (raised e) attempt

  -- for attempt in range(...): with `left` passes to come.
  unfoldable pub attempts : ℕ → ℕ → Retried A E
  unfolding try_once
  attempts zero attempt = record { outcome = none; calls = attempt; sleeps = [] }
  attempts (suc left) attempt =
      let rest = attempts left (suc attempt) in try_once (func attempt) attempt rest

-- `func n` is the outcome of call number n, which the program's state and the network decide.
unfoldable pub retry_with_backoff :
    {A E : Type 0} → (E → Bool) → (ℕ → Outcome A E) → (ℕ → ℕ → ℕ) → ℕ → ℕ → ℕ → Retried A E
unfolding attempts exponential_backoff_delay
retry_with_backoff retryable func jitter max_retries base_delay max_delay =
    attempts retryable func (λ n. exponential_backoff_delay jitter n base_delay max_delay)
      max_retries (suc max_retries) 0
