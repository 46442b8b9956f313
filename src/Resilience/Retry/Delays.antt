-- ===== src/Resilience/Retry/Delays.antt =====
-- How long a retry waits.
use revenium_go_sdk.Base.{ℕ, ◌*◌, ◌^◌, ◌≤◌, ◌<◌, ◌≡◌, min, some, arith, Unicode, ℤ}
use revenium_go_sdk.Core.Errors.{Failure}
use revenium_go_sdk.Resilience.Classify.{retry_after_of}
use revenium_go_sdk.Resilience.BreakerState.{second}
use revenium_go_sdk.Resilience.Retry.{
  RetryConfig, calculate_delay, HeaderValue, unusable, seconds, date, parse_retry_after,
  max_retry_after,
}

-- After a Retry-After answer the next attempt waits as long as the server asked, or the longest
-- delay that the config allows if that is less, and never longer than that delay.
pub asked_wait_bounds :
    (u : Unicode) (jitter : ℕ → ℕ) (attempt : ℕ) (c : RetryConfig) (last : Failure)
    → 0 < retry_after_of (some last)
    → (min (retry_after_of (some last)) c.max_delay ≤ calculate_delay u jitter attempt c last)
      × (calculate_delay u jitter attempt c last ≤ c.max_delay)
unfolding calculate_delay
asked_wait_bounds u jitter attempt c last h = ground arith

-- Otherwise the delay is at least the exponential one, capped, and passes the longest delay by no
-- more than the jitter's share, a tenth here.
pub backoff_bounds :
    (u : Unicode) (jitter : ℕ → ℕ) (attempt : ℕ) (c : RetryConfig) (last : Failure)
    → retry_after_of (some last) ≡ 0
    → ((d : ℕ) → 10 * jitter d ≤ d)
    → (min (c.base_delay * 2 ^ attempt) c.max_delay ≤ calculate_delay u jitter attempt c last)
      × (10 * calculate_delay u jitter attempt c last ≤ 11 * c.max_delay)
unfolding calculate_delay
backoff_bounds u jitter attempt c last z h =
    let delay = min (c.base_delay * 2 ^ attempt) c.max_delay in
    ground (arith, h delay, h (min (delay * 3) c.max_delay))

-- No Retry-After header holds deliveries back for more than five minutes, also where its number of
-- seconds overflows.
pub parse_retry_after_bounds :
    (v : HeaderValue) (now : ℕ) → parse_retry_after v now ≤ max_retry_after
unfolding parse_retry_after
parse_retry_after_bounds unusable now = omega arith
parse_retry_after_bounds (seconds n) now = ground arith
parse_retry_after_bounds (date at) now = ground arith

-- A number of seconds up to 9223372036, which does not overflow, is kept up to that limit.
parse_retry_after_seconds :
    (n now : ℕ)
    → n ≤ 9223372036
    → parse_retry_after (seconds (ℤ.pos n)) now ≡ min (n * second) max_retry_after
unfolding parse_retry_after
parse_retry_after_seconds n now h = ground arith
