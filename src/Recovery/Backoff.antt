-- ===== src/Recovery/Backoff.antt =====
-- src/client/internal/backoff.ts. `random c` is Math.floor(Math.random() * c * 0.5); times are whole
-- milliseconds, and none is negative.
use fitz_ts.Base.{ℕ, ◌+◌, ◌*◌, ◌<◌, ◌≤◌, max, min, arith, leb, if◌then◌else◌}

-- Math.random() is below 1.
abbrev pub IsJitter : (ℕ → ℕ) → Type 0
IsJitter random = (c : ℕ) → 0 < c → 2 * random c < c

unfoldable pub jittered_backoff_ms : (ℕ → ℕ) → ℕ → ℕ → ℕ
jittered_backoff_ms random base_delay_ms max_backoff_ms =
    let capped_base_ms = min base_delay_ms max_backoff_ms in
    if leb capped_base_ms 0
    then 0
    else min (max (capped_base_ms + random capped_base_ms) 1) max_backoff_ms

pub jittered_backoff_ms_bounds :
    (random : ℕ → ℕ) (base_delay_ms max_backoff_ms : ℕ)
    → IsJitter random
    → (min base_delay_ms max_backoff_ms ≤ jittered_backoff_ms random base_delay_ms max_backoff_ms)
      × (jittered_backoff_ms random base_delay_ms max_backoff_ms ≤ max_backoff_ms)
      × (2 * jittered_backoff_ms random base_delay_ms max_backoff_ms
          ≤ 3 * min base_delay_ms max_backoff_ms)
unfolding jittered_backoff_ms
jittered_backoff_ms_bounds random base top h = ground (arith, h (min base top))
