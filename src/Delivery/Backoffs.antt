-- ===== src/Delivery/Backoffs.antt =====
-- internal/delivery/worker.go: how long a failed event waits.
use tallerp_telemetry.Base.{ℕ, ◌*◌, ◌/◌, ◌≤◌, ◌<◌, arith}
use tallerp_telemetry.Delivery.{second, backoff, random_jitter}

backoff-bounds : (attempt : ℕ) → (5 * second ≤ backoff attempt) × (backoff attempt ≤ 1800 * second)
unfolding backoff
backoff-bounds attempt = ground arith

pub backoff_mono : (m n : ℕ) → m ≤ n → backoff m ≤ backoff n
unfolding backoff
backoff_mono m n h = ground arith

-- After any number of attempts the time to the next one is at least five seconds and less than 36
-- minutes, if the random source stays below its bound.
pub random_jitter-backoff :
    (draw : ℕ → ℕ) (attempt : ℕ)
    → ((n : ℕ) → 1 ≤ n → draw n < n)
    → (5 * second ≤ random_jitter draw (backoff attempt))
      × (random_jitter draw (backoff attempt) < 2160 * second)
unfolding random_jitter
random_jitter-backoff draw attempt h =
    let (low, high) = backoff-bounds attempt in
    let drawn = h (backoff attempt / 5) (omega arith) in ground arith
