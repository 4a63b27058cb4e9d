-- ===== src/Lite/RateLimiter/Retry.antt =====
-- The Retry-After hint.
use mux_mail.Prelude.{◌+◌, ◌*◌, ◌-◌, ◌≤◌, ◌<◌, nat_eq, arith}
use mux_mail.Lite.Time.{Time, second}
use mux_mail.Lite.RateLimiter.{retry_after_seconds}

-- Inside a window the hint is the least number of seconds that reaches the window's end.
pub retry_after_least :
    (now expires_at : Time)
    → now < expires_at
    → (0 < retry_after_seconds now expires_at)
      × (expires_at ≤ now + retry_after_seconds now expires_at * second)
      × (now + (retry_after_seconds now expires_at - 1) * second < expires_at)
unfolding retry_after_seconds
retry_after_least now expires_at h = ground arith
