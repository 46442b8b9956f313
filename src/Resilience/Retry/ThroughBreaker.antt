-- ===== src/Resilience/Retry/ThroughBreaker.antt =====
-- Retrying through the breaker: an open breaker ends the call.
use revenium_go_sdk.Base.{
  ℕ, suc, ◌≡◌, refl, true, false, List, Option, none, some, arith, Unicode, length,
}
use revenium_go_sdk.Core.Errors.{
  Failure, circuit_open, circuit_open_after, is_circuit_open, as_revenium,
}
use revenium_go_sdk.Resilience.Breaker.{
  refused, admit, execute, execute_honoring_retry_after, honor, Outcome, failed,
}
use revenium_go_sdk.Resilience.BreakerState.{Breaker, Clock}
use revenium_go_sdk.Resilience.Retry.{
  RetryConfig, Env, Times, CallState, retries, retry_loop, retry_loop_by, attempt_through_breaker,
  outcome_of, open_error,
}

refused_execute :
    (now at : ℕ) (o : Outcome) (c : Clock) (b : Breaker)
    → (admit now b).0 ≡ refused
    → execute_honoring_retry_after now o c at b ≡ (failed circuit_open, (admit now b).1)
unfolding execute_honoring_retry_after execute honor
refused_execute now at o c b h = ground arith

-- An attempt that the breaker refuses is decided by the breaker alone, whatever the sending would
-- have given: its error is ErrCircuitOpen, or wraps it with the last failure that the call itself
-- saw.
pub refused_attempt :
    (times : ℕ → Times) (post : ℕ → Option Failure) (i : ℕ) (p : CallState)
    → (admit (times i).admitted_at p.breaker).0 ≡ refused
    → attempt_through_breaker times post i p ≡ (
      some (open_error p.last_failure circuit_open),
      record { breaker = (admit (times i).admitted_at p.breaker).1; last_failure = p.last_failure },
    )
unfolding attempt_through_breaker is_circuit_open
refused_attempt times post i p h = ground (
  arith,
  refused_execute (times i).admitted_at (times i).held_at (outcome_of (post i)) (times i).clock
      p.breaker h,
)

open_error_final :
    (u : Unicode) (c : RetryConfig) (last : Option Failure)
    → retries u c (open_error last circuit_open) ≡ false
unfolding retries is_circuit_open
open_error_final u c none = refl
open_error_final u c (some cause) = refl

-- A retry that finds the breaker open ends the call there: after that attempt's wait no other wait
-- and no other attempt follow, and the error returned matches ErrCircuitOpen and wraps the failure
-- that the call saw last, so a caller still finds the server's answer in it.
pub open_breaker_ends_call :
    (u : Unicode) (c : RetryConfig) (env : Env) (times : ℕ → Times) (post : ℕ → Option Failure)
    (left i : ℕ) (waits : List ℕ) (last cause : Failure) (p : CallState)
    → env.ends_in_wait i ≡ none
    → env.ended_before i ≡ none
    → p.last_failure ≡ some cause
    → (admit (times i).admitted_at p.breaker).0 ≡ refused
    → let r = retry_loop u c env (attempt_through_breaker times post) (suc left) i waits last p in
      (r.error ≡ some (circuit_open_after cause))
      × (is_circuit_open (circuit_open_after cause) ≡ true)
      × (as_revenium (circuit_open_after cause) ≡ as_revenium cause)
      × (length r.waits ≡ suc (length waits))
unfolding retry_loop_by is_circuit_open as_revenium
open_breaker_ends_call u c env times post left i waits last cause p w e l h =
    ground (arith, refused_attempt times post i p h, open_error_final u c p.last_failure)
