-- ===== src/Client/Backoff.antt =====
-- `computeBackoff` of client.ts. The delay is computed there in floating point; here it is exact.
-- With `r = num / den` the jitter is `1 + (2 r - 1) 0.3 = (7 den + 6 num) / (10 den)`, and
-- `Math.round` is the floor of the number plus a half.
pub mod Bounds
use msclaude_connector.Prelude.{ℕ, ◌+◌, ◌*◌, ◌/◌, ◌^◌, min}
use msclaude_connector.Client.{World}

abbrev pub backoff_base_ms : ℕ
backoff_base_ms = 500

abbrev pub backoff_factor : ℕ
backoff_factor = 2

abbrev pub backoff_max_ms : ℕ
backoff_max_ms = 30000

-- The delay before the jitter.
unfoldable pub raw_backoff : ℕ → ℕ
raw_backoff attempt = min backoff_max_ms (backoff_base_ms * backoff_factor ^ attempt)

unfoldable pub compute_backoff : World → ℕ → ℕ
unfolding raw_backoff
compute_backoff w attempt =
    (2 * raw_backoff attempt * (7 * w.random_den + 6 * w.random_num) + 10 * w.random_den)
    / (20 * w.random_den)
