-- ===== src/Retry/Delays.antt =====
-- How long the sleeps are.
use motoro.Prelude.{ℕ, zero, suc, ◌+◌, ◌*◌, ◌/◌, ◌^◌, ◌≤◌, ◌≡◌, min, arith}
use motoro.Retry.{exponential_backoff_delay}

doubles : (base n : ℕ) → base * 2 ^ suc n ≡ base * 2 ^ n + base * 2 ^ n
doubles base n = grind arith

grows : (base n : ℕ) → base ≤ base * 2 ^ n
grows base zero = omega arith
grows base (suc n) = omega (arith, grows base n, doubles base n)

-- If the jitter stays within its band, the delay is at most the cap, and at most the exponential
-- base * 2 ^ attempt; it is at least half of the exponential, and so of the base, or the cap.
pub exponential_backoff_delay_lem :
    (jitter : ℕ → ℕ → ℕ) (attempt base cap : ℕ)
    → ((n half : ℕ) → jitter n half ≤ half)
    → (exponential_backoff_delay jitter attempt base cap ≤ min (base * 2 ^ attempt) cap)
      × (min (base * 2 ^ attempt / 2) cap ≤ exponential_backoff_delay jitter attempt base cap)
      × (min (base / 2) cap ≤ exponential_backoff_delay jitter attempt base cap)
unfolding exponential_backoff_delay
exponential_backoff_delay_lem jitter attempt base cap band =
    let b = band attempt (base * 2 ^ attempt / 2) in
    (omega (arith, b), omega (arith, b), omega (arith, b, grows base attempt))
