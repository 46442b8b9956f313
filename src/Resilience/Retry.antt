-- ===== src/Resilience/Retry.antt =====
-- core/resilience/retry.go, with ParseRetryAfter of retry_after.go.
-- Delays are whole nanoseconds: the source's float64 products are exact for base delays below
-- 2^53 ns and the cap is applied to them, so only the random part is not; it is the parameter
-- `jitter`, the nanoseconds that were drawn for a delay. Contexts, clocks and the sending itself are
-- oracles by the number of the attempt. A config has at least zero retries.
pub mod Delays
pub mod Attempts
pub mod ThroughBreaker
pub mod Rules
use revenium_go_sdk.Base.{
  ℕ, zero, suc, ◌+◌, ◌*◌, ◌-◌, ◌%◌, ◌^◌, min, ℤ, Bool, true, false, not, ◌&&◌, ◌||◌, List, [], ◌∷◌,
  ◌++◌, Option, none, some, ltb, leb, ◌==◌, if◌then◌else◌, Unicode,
}
use revenium_go_sdk.Core.Errors.{
  Failure, circuit_open, circuit_open_after, retries_exhausted, is_circuit_open,
}
use revenium_go_sdk.Resilience.Classify.{
  ErrorClassification, retryable, throttled, non_retryable, classify_error, is_retryable,
  retry_after_of,
}
use revenium_go_sdk.Resilience.Breaker.{
  Outcome, succeeded, failed, error_of, execute_honoring_retry_after, can_execute,
}
use revenium_go_sdk.Resilience.BreakerState.{Breaker, Clock, second}

pub record RetryConfig : Type 0 where
  pub max_retries : ℕ
  pub base_delay : ℕ
  pub max_delay : ℕ
  pub retry_only : Option (Failure → Bool)
  pub retry_also : Option (Failure → Bool)

abbrev pub default_retry_config : RetryConfig
default_retry_config = record {
  max_retries = 3;
  base_delay = second;
  max_delay = 5 * second;
  retry_only = none;
  retry_also = none;
}

abbrev allowed_by : Option (Failure → Bool) → Bool → Failure → Bool
allowed_by none b err = b
allowed_by (some f) b err = f err

abbrev is_non_retryable : ErrorClassification → Bool
is_non_retryable non_retryable = true
is_non_retryable _ = false

-- `RetryConfig.retries`, of an error that is not nil.
unfoldable pub retries : Unicode → RetryConfig → Failure → Bool
unfolding is_circuit_open retry_after_of classify_error
retries u c err =
    if is_circuit_open err || ltb c.max_delay (retry_after_of (some err))
    then false
    else if not (allowed_by c.retry_only true err)
    then false
    else if not (is_non_retryable (classify_error u err))
    then true
    else allowed_by c.retry_also false err

abbrev is_throttled : ErrorClassification → Bool
is_throttled throttled = true
is_throttled _ = false

abbrev pub throttle_multiplier : ℕ
throttle_multiplier = 3

unfoldable pub calculate_delay : Unicode → (ℕ → ℕ) → ℕ → RetryConfig → Failure → ℕ
unfolding retry_after_of classify_error
calculate_delay u jitter attempt c last =
    let wait = retry_after_of (some last) in
    let delay = min (c.base_delay * 2 ^ attempt) c.max_delay in
    let slowed =
      if is_throttled (classify_error u last)
      then min (delay * throttle_multiplier) c.max_delay
      else delay in
    if ltb 0 wait then min (wait + jitter wait) c.max_delay else slowed + jitter slowed

-- What the contexts of a retried call say, and what the random source gives, by attempt.
pub record Env : Type 0 where
  -- ctx.Err() if the context ends during the wait before the attempt.
  pub ends_in_wait : ℕ → Option Failure
  -- ctx.Err() if it has ended when the attempt is about to begin.
  pub ended_before : ℕ → Option Failure
  pub jitter : ℕ → ℕ → ℕ

-- What is returned, the delays that were waited for (the last first), and the state left.
pub record Finished (S : Type 0) : Type 0 where
  pub error : Option Failure
  pub waits : List ℕ
  pub state : S

-- The loop over a function with a state. `may` is `config.retries` of an error; a filter of the
-- config may read what the function wrote, so it is asked with the state.
module _ {S : Type 0} (u : Unicode) (c : RetryConfig) (may : S → Failure → Bool) (env : Env)
    (fn : ℕ → S → Option Failure × S) where
  abbrev settle_attempt : Option Failure × S → List ℕ → (Failure → S → Finished S) → Finished S
  settle_attempt (none, s) waits again = record { error = none; waits = waits; state = s }
  settle_attempt (some err, s) waits again =
      if may s err then again err s else record { error = some err; waits = waits; state = s }

  -- The context is asked once more before the call.
  abbrev call_unless : Option Failure → ℕ → List ℕ → S → (Failure → S → Finished S) → Finished S
  call_unless (some ended) i waits s again = record { error = some ended; waits = waits; state = s }
  call_unless none i waits s again = settle_attempt (fn i s) waits again

  abbrev wait_unless : Option Failure → ℕ → List ℕ → S → (Failure → S → Finished S) → Finished S
  wait_unless (some ended) i waits s again = record { error = some ended; waits = waits; state = s }
  wait_unless none i waits s again = call_unless (env.ended_before i) i waits s again

  -- Attempt i after a failure, with `left` attempts from it on.
  unfoldable pub retry_loop_by : ℕ → ℕ → List ℕ → Failure → S → Finished S
  retry_loop_by zero i waits last s = record {
    error = some (retries_exhausted c.max_retries last);
    waits = waits;
    state = s;
  }
  retry_loop_by (suc left) i waits last s =
      let waits' = calculate_delay u (env.jitter i) (i - 1) c last ∷ waits in
      wait_unless (env.ends_in_wait i) i waits' s (retry_loop_by left (suc i) waits')

  -- `withRetryInternal`.
  unfoldable pub with_retry_by : S → Finished S
  unfolding retry_loop_by
  with_retry_by s = call_unless (env.ended_before 0) 0 [] s (retry_loop_by c.max_retries 1 [])

-- The filters of the config where they read nothing but the error.
module _ {S : Type 0} (u : Unicode) (c : RetryConfig) (env : Env)
    (fn : ℕ → S → Option Failure × S) where
  abbrev pub retry_loop : ℕ → ℕ → List ℕ → Failure → S → Finished S
  retry_loop = retry_loop_by u c (λ s. retries u c) env fn

  abbrev pub with_retry : S → Finished S
  with_retry = with_retry_by u c (λ s. retries u c) env fn

-- The clock readings of one attempt through the breaker.
pub record Times : Type 0 where
  pub admitted_at : ℕ
  pub clock : Clock
  pub held_at : ℕ
  pub asked_at : ℕ

-- The breaker and the last failure that the call itself saw.
pub record CallState : Type 0 where
  pub breaker : Breaker
  pub last_failure : Option Failure

abbrev pub outcome_of : Option Failure → Outcome
outcome_of none = succeeded
outcome_of (some err) = failed err

abbrev pub open_error : Option Failure → Failure → Failure
open_error none err = err
open_error (some cause) err = circuit_open_after cause

-- The function that RetryThroughBreaker retries, once the breaker has answered with `result`.
abbrev pub after_breaker : Times → Option Failure → Outcome × Breaker → Option Failure × CallState
after_breaker t last (failed err, b) =
    if is_circuit_open err
    then (some (open_error last err), record { breaker = b; last_failure = last })
    else if not (can_execute t.asked_at b) && retry_after_of (some err) == 0
    then (some (circuit_open_after err), record { breaker = b; last_failure = some err })
    else (some err, record { breaker = b; last_failure = some err })
after_breaker t last (_, b) = (none, record { breaker = b; last_failure = last })

unfoldable pub attempt_through_breaker :
    (ℕ → Times) → (ℕ → Option Failure) → ℕ → CallState → Option Failure × CallState
unfolding execute_honoring_retry_after can_execute is_circuit_open retry_after_of
attempt_through_breaker times post i p =
    let t = times i in
    after_breaker t p.last_failure
      (execute_honoring_retry_after t.admitted_at (outcome_of (post i)) t.clock t.held_at p.breaker)

-- `RetryThroughBreaker`; waiting for a place in the concurrency limit is part of the times.
unfoldable pub retry_through_breaker :
    Unicode → RetryConfig → Env → (ℕ → Times) → (ℕ → Option Failure) → Breaker → Finished CallState
unfolding with_retry_by attempt_through_breaker
retry_through_breaker u c env times post b =
    with_retry u c env (attempt_through_breaker times post)
      (record { breaker = b; last_failure = none })

abbrev pub max_retry_after : ℕ
max_retry_after = 5 * 60 * second

-- What the header's value says once trimmed: nothing of use, a number of seconds or a date.
pub data HeaderValue : Type 0 where
  unusable : HeaderValue
  seconds : ℤ → HeaderValue
  date : ℕ → HeaderValue

-- `time.Duration(seconds) * time.Second`, which wraps around, by the bits of the int64.
abbrev pub duration_bits : ℤ → ℕ
duration_bits (ℤ.pos n) = (n * second) % 2 ^ 64
duration_bits (ℤ.negsuc n) = (2 ^ 64 - (suc n * second) % 2 ^ 64) % 2 ^ 64

-- `wait <= 0` of an int64 with these bits gives 0.
abbrev positive_part : ℕ → ℕ
positive_part bits = if ltb bits (2 ^ 63) then bits else 0

abbrev capped_wait : ℕ → ℕ
capped_wait wait = if ltb max_retry_after wait then max_retry_after else wait

-- `ParseRetryAfter`; strconv and net/http read the two forms. A date that has passed gives 0.
unfoldable pub parse_retry_after : HeaderValue → ℕ → ℕ
parse_retry_after unusable now = 0
parse_retry_after (seconds n) now = capped_wait (positive_part (duration_bits n))
parse_retry_after (date at) now = capped_wait (at - now)
