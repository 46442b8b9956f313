-- ===== src/Resilience/Tests.antt =====
-- The theorems on the breaker, the retries and the answers at concrete inputs.
use revenium_go_sdk.Base.{
  update_at, ℕ, suc, ◌≤◌, ◌≡◌, refl, List, [], ◌∷◌, true, arith, length, Option, none, some, ascii,
  codes, ℤ, leb, if◌then◌else◌,
}
use revenium_go_sdk.Core.Errors.{
  Failure, circuit_open, circuit_open_after, plain, retries_exhausted, is_circuit_open, as_revenium,
}
use revenium_go_sdk.Resilience.Classify.{response_error}
use revenium_go_sdk.Resilience.Breaker.{succeeded, failed, refused, on_failure, admit, finish}
use revenium_go_sdk.Resilience.BreakerState.{
  Breaker, GivenConfig, Clock, closed, open_state, half_open, new_circuit_breaker,
}
use revenium_go_sdk.Resilience.Breaker.Invariant.{Inv, new_circuit_breaker-Inv}
use revenium_go_sdk.Resilience.Breaker.System.{System, Event, begins, ends, holds, step, run, start}
use revenium_go_sdk.Resilience.Breaker.System.Tickets.{holders}
use revenium_go_sdk.Resilience.Breaker.System.Probes.{one_probe_at_a_time}
use revenium_go_sdk.Resilience.Breaker.System.Late.{late_outcome_ignored}
use revenium_go_sdk.Resilience.Breaker.Opening.{
  record_failures, opens_at_threshold, threshold_above_history,
}
use revenium_go_sdk.Resilience.Breaker.Recovery.{
  Recovered, wait_is_kept, outage_is_kept, successes, recovers,
}
use revenium_go_sdk.Resilience.ConcurrencyLimit.{
  LimitEvent, calls, proceeds, let_in, gone, limit_run, new_concurrency_limit, Tallied, slots_exact,
}
use revenium_go_sdk.Resilience.Retry.{
  default_retry_config, Env, Times, CallState, with_retry, retry_loop, attempt_through_breaker,
  parse_retry_after, seconds, retries,
}
use revenium_go_sdk.Resilience.Retry.Attempts.{attempts_bounded, exhausted_wraps_last}
use revenium_go_sdk.Resilience.Retry.ThroughBreaker.{open_breaker_ends_call}

-- Two failures open it, for ten nanoseconds, and two successes close it.
abbrev given : GivenConfig
given = record {
  failure_threshold = ℤ.pos 2;
  recovery_timeout = ℤ.pos 10;
  success_threshold = ℤ.pos 2;
  time_window = ℤ.pos 100;
  should_trip = none;
  consecutive_failures = true;
}

abbrev at : ℕ → Clock
at t = record { now = t; at_cleanup = t }

abbrev outage : Failure
outage = plain (codes "connection refused")

-- Two calls fail, a third that began before them is late, and a probe begins.
abbrev two_fail : List Event
two_fail =
    begins 1
    ∷ begins 1
    ∷ begins 1
    ∷ ends 0 (failed outage) (at 2)
    ∷ ends 0 (failed outage) (at 3)
    ∷ begins 13
    ∷ []

two_fail_probes :
    ((run (start given 0) two_fail).breaker.state ≡ half_open)
    × ((run (start given 0) two_fail).breaker.generation ≡ 2)
unfolding run start
two_fail_probes = (refl, refl)

one_probe_at_a_time_example :
    let s = run (start given 0) two_fail in
    holders s.breaker.generation s.calls ≡ (if s.breaker.half_open_in_flight then 1 else 0)
one_probe_at_a_time_example = one_probe_at_a_time given 0 two_fail (omega arith) two_fail_probes.0

abbrev fail_twice : List Event
fail_twice =
    begins 1 ∷ begins 1 ∷ ends 0 (failed outage) (at 2) ∷ ends 0 (failed outage) (at 3) ∷ []

late_outcome_ignored_example :
    finish 0 succeeded (at 9) (run (run (step (start given 0) (begins 1)) fail_twice) []).breaker
    ≡ (run (run (step (start given 0) (begins 1)) fail_twice) []).breaker
unfolding run start step admit
late_outcome_ignored_example =
    late_outcome_ignored (start given 0) 1 0 fail_twice [] succeeded (at 9) refl (omega arith)
      (λ e. cc)

wait_is_kept_example :
    (admit 24 (run (step (start given 0) (holds 20 5)) (begins 6 ∷ holds 3 7 ∷ [])).breaker).0
    ≡ refused
wait_is_kept_example =
    wait_is_kept (start given 0) 20 5 24 (begins 6 ∷ holds 3 7 ∷ []) (omega arith) (omega arith)
      (omega arith)

abbrev closed_breaker : Breaker
closed_breaker = new_circuit_breaker given 0

abbrev one_failed : System
one_failed = record { breaker = on_failure (at 2) closed_breaker; calls = [] }

outage_is_kept_example :
    (admit 12
      (run
        (record one_failed { breaker = on_failure (at 3) one_failed.breaker })
        (begins 4 ∷ [])).breaker).0
    ≡ refused
unfolding on_failure new_circuit_breaker
outage_is_kept_example =
    outage_is_kept one_failed (at 3) 12 (begins 4 ∷ []) (λ e. cc) refl (omega arith) (omega arith)

opens_at_threshold_example :
    (record_failures (at 1 ∷ at 2 ∷ []) closed_breaker).state
    ≡ (if leb closed_breaker.config.failure_threshold 2 then open_state else closed)
unfolding new_circuit_breaker
opens_at_threshold_example =
    opens_at_threshold 1 (at 1 ∷ at 2 ∷ []) closed_breaker refl refl (omega arith) (omega arith)
      (omega arith)

abbrev opened : Breaker
opened = record closed_breaker { state = open_state; reopen_at = 13; generation = 1 }

opened-Inv : Inv opened
unfolding new_circuit_breaker
opened-Inv = ground arith

recovers_example : Recovered 2 2 (successes ((13, at 14) ∷ (15, at 16) ∷ []) opened)
unfolding new_circuit_breaker
recovers_example = recovers 13 (at 14) ((15, at 16) ∷ []) opened opened-Inv refl (omega arith)

one_is_too_few : (successes ((13, at 14) ∷ []) opened).state ≡ half_open
unfolding new_circuit_breaker
one_is_too_few = (recovers 13 (at 14) [] opened opened-Inv refl (omega arith)).0

-- A threshold that no history reaches.
abbrev patient : GivenConfig
patient = record given { failure_threshold = ℤ.pos 2000 }

threshold_above_history_example :
    (record_failures (at 1 ∷ at 2 ∷ []) (new_circuit_breaker patient 0)).state ≡ closed
unfolding new_circuit_breaker
threshold_above_history_example =
    threshold_above_history (at 1 ∷ at 2 ∷ []) (new_circuit_breaker patient 0)
      (new_circuit_breaker-Inv patient 0) refl (omega arith)

abbrev calm : Env
calm = record { ends_in_wait = λ i. none; ended_before = λ i. none; jitter = λ i d. 0 }

abbrev unavailable : ℕ → Failure
unavailable i = response_error (codes "unavailable") 503 0

-- A call that always fails, over the number of the calls made.
abbrev failing : ℕ → ℕ → Option Failure × ℕ
failing i n = (some (unavailable i), suc n)

attempts_bounded_example :
    ((with_retry ascii default_retry_config calm failing 0).state ≤ 4)
    × (length (with_retry ascii default_retry_config calm failing 0).waits ≤ 3)
attempts_bounded_example =
    attempts_bounded ascii default_retry_config calm failing (λ n. n) (λ i s. omega arith) 0

exhausted_wraps_last_example :
    ((with_retry ascii default_retry_config calm failing 0).error
      ≡ some (retries_exhausted 3 (unavailable 3)))
    × (length (with_retry ascii default_retry_config calm failing 0).waits ≡ 3)
unfolding retries response_error
exhausted_wraps_last_example =
    exhausted_wraps_last ascii default_retry_config calm failing unavailable (λ i s. refl)
      (λ i. refl) (λ i. refl) (λ i. refl) 0

abbrev shut : ℕ → ℕ → Option Failure × ℕ
shut i n = (some circuit_open, suc n)

abbrev early : ℕ → Times
early i = record { admitted_at = 5; clock = at 5; held_at = 5; asked_at = 5 }

abbrev seen : CallState
seen = record { breaker = opened; last_failure = some (unavailable 0) }

open_breaker_ends_call_example :
    let r =
      retry_loop ascii default_retry_config calm
        (attempt_through_breaker early (λ i. none))
        3
        1
        []
        (unavailable 0)
        seen in
    (r.error ≡ some (circuit_open_after (unavailable 0)))
    × (is_circuit_open (circuit_open_after (unavailable 0)) ≡ true)
    × (as_revenium (circuit_open_after (unavailable 0)) ≡ as_revenium (unavailable 0))
    × (length r.waits ≡ 1)
unfolding admit
open_breaker_ends_call_example =
    open_breaker_ends_call ascii default_retry_config calm early (λ i. none) 2 1 [] (unavailable 0)
      (unavailable 0) seen refl refl refl refl

abbrev busy : Failure
busy = response_error (codes "busy") 429 7

-- Eighteen thousand million seconds overflow to less than a second.
overflow_shortens : parse_retry_after (seconds (ℤ.pos 18446744074)) 0 ≡ 290448384
unfolding parse_retry_after
overflow_shortens = refl

-- Two calls for one slot: the second waits and is let in after the first.
abbrev two_calls : List LimitEvent
two_calls = calls ∷ calls ∷ proceeds 0 ∷ proceeds 0 ∷ proceeds 1 ∷ proceeds 0 ∷ []

slots_exact_example : Tallied 1 (limit_run (new_concurrency_limit 1) two_calls)
slots_exact_example = slots_exact 1 two_calls

second_let_in : (limit_run (new_concurrency_limit 1) two_calls).callers ≡ let_in ∷ gone ∷ []
unfolding limit_run update_at
second_let_in = refl
