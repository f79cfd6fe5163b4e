-- ===== src/Client/Backoff/Bounds.antt =====
-- `computeBackoff` of client.ts: bounds of the delay, and how it grows.
use native.Mathlib.Nat.{pow-suc, le-div_iff_mul-le, div-lt_iff_lt-mul}
use native.Mathlib.Numerals.{towards_suc}
use msclaude_connector.Prelude.{ℕ, zero, suc, ◌+◌, ◌*◌, ◌/◌, ◌^◌, ◌≤◌, ◌<◌, ◌≡◌, arith, min}
use msclaude_connector.Client.{World}
use msclaude_connector.Client.Backoff.{
  raw_backoff, compute_backoff, backoff_base_ms, backoff_max_ms,
}

pow_pos : (n : ℕ) → 1 ≤ 2 ^ n
pow_pos zero = omega arith
pow_pos (suc n) = omega (arith, pow_pos n, pow-suc 2 n)

raw_backoff_bounds : (n : ℕ) → (backoff_base_ms ≤ raw_backoff n) × (raw_backoff n ≤ backoff_max_ms)
unfolding raw_backoff
raw_backoff_bounds n = omega (arith, pow_pos n)

raw_backoff-suc : (n : ℕ) → raw_backoff (suc n) ≡ min backoff_max_ms (2 * raw_backoff n)
unfolding raw_backoff
raw_backoff-suc n = omega (arith, pow-suc 2 n)

jitter_bounds :
    (raw num den : ℕ)
    → 500 ≤ raw
    → raw ≤ 30000
    → num < den
    → (350 ≤ (2 * raw * (7 * den + 6 * num) + 10 * den) / (20 * den))
      × ((2 * raw * (7 * den + 6 * num) + 10 * den) / (20 * den) < 39001)
jitter_bounds raw num den low high h = (
  (le-div_iff_mul-le (omega arith)).1 (omega (arith, least)),
  (div-lt_iff_lt-mul (omega arith)).1 (omega (arith, most, below)),
)
  where
    below : raw * num ≤ raw * den
    below = grind arith

    least : 500 * den ≤ raw * den
    least = grind arith

    most : raw * den ≤ 30000 * den
    most = grind arith

-- Whatever the attempt and the random number below 1, the delay lies between 350 ms and 39 s.
pub compute_backoff_bounds :
    (w : World) (attempt : ℕ)
    → w.random_num < w.random_den
    → (350 ≤ compute_backoff w attempt) × (compute_backoff w attempt ≤ 39000)
unfolding compute_backoff
compute_backoff_bounds w attempt h =
    let (low, high) = raw_backoff_bounds attempt in
    omega (arith, jitter_bounds (raw_backoff attempt) w.random_num w.random_den low high h)

pow_six : (n : ℕ) → 2 ^ (n + 6) ≡ 64 * 2 ^ n
pow_six n = simp towards_suc (omega arith)

-- Before the jitter the delay doubles with each attempt until it reaches half a minute, where it
-- stays from the sixth attempt on.
pub raw_backoff_lem :
    (n : ℕ)
    → (raw_backoff (suc n) ≡ min backoff_max_ms (2 * raw_backoff n))
      × (raw_backoff (n + 6) ≡ backoff_max_ms)
unfolding raw_backoff
raw_backoff_lem n = (raw_backoff-suc n, omega (arith, pow_six n, pow_pos n))
