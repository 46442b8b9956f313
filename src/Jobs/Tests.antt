-- ===== src/Jobs/Tests.antt =====
-- The theorems on job calls at concrete inputs.
use revenium_go_sdk.Base.{
  ℕ, zero, suc, ◌≤◌, ◌<◌, ◌≡◌, refl, arith, ℤ, Bool, true, false, List, [], ◌∷◌, ◌++◌, Option, none,
  some, Text, codes, ascii,
}
use revenium_go_sdk.Core.Errors.{Failure, net, is_type}
use revenium_go_sdk.Resilience.BreakerState.{Breaker, new_circuit_breaker}
use revenium_go_sdk.Resilience.Classify.{response_error}
use revenium_go_sdk.Resilience.Retry.{with_retry_by, retries, Times, Finished, default_retry_config}
use revenium_go_sdk.Jobs.WriteSafety.{allows_retry, widens_retry, refused_before_applying}
use revenium_go_sdk.Jobs.Calls.{
  attempt, execute_and_parse, HttpAnswer, no_answer, answered, posted, JobCall, do_retrying,
  is_conflict_error,
}
use revenium_go_sdk.Jobs.Calls.Reports.{count_timed_out, two_timeouts_at_most}
use revenium_go_sdk.Jobs.Outcome.{Decimal, OutcomeMetric, JobOutcome, JobResource, valid_metrics}
use revenium_go_sdk.Jobs.Outcome.Json.{Json, object, end}
use revenium_go_sdk.Jobs.Client.{
  CallResult, done, confirmed, append_outcome_metrics, amend_job_outcome, report_job_outcome,
}
use revenium_go_sdk.Jobs.Client.Applied.{AppliedBy, writes_applied_once}
use revenium_go_sdk.Jobs.Client.Reported.{Judged, conflict_judged}

abbrev calm_times : ℕ → Times
calm_times i = record {
  admitted_at = i;
  clock = record { now = i; at_cleanup = i };
  held_at = i;
  asked_at = i;
}

abbrev fresh : Breaker
fresh =
    new_circuit_breaker
      (record {
        failure_threshold = ℤ.pos 3;
        recovery_timeout = ℤ.pos 5;
        success_threshold = ℤ.pos 1;
        time_window = ℤ.pos 100;
        should_trip = none;
        consecutive_failures = true;
      })
      0

-- A server that refuses the first request and applies the others, counting them.
abbrev throttles_once : ℕ → ℕ → HttpAnswer × ℕ
throttles_once zero n = (answered 429 0 (codes "slow down") true, n)
throttles_once (suc i) n = (answered 200 0 [] true, suc n)

throttles_once-once : (i n : ℕ) → (throttles_once i n).1 ≤ suc n
throttles_once-once zero n = omega arith
throttles_once-once (suc i) n = omega arith

throttles_once-refusal :
    (i n wait : ℕ) (message : Text) (readable : Bool)
    → (throttles_once i n).0 ≡ answered 429 wait message readable
    → (throttles_once i n).1 ≡ n
throttles_once-refusal zero n wait message readable e = refl
throttles_once-refusal (suc i) n wait message readable e = absurd (ground arith)

throttles_once-acceptance :
    (i n status wait : ℕ) (message : Text) (readable : Bool)
    → (throttles_once i n).0 ≡ answered status wait message readable
    → 200 ≤ status
    → status < 300
    → (throttles_once i n).1 ≡ suc n
throttles_once-acceptance zero n status wait message readable e lo hi = absurd (ground arith)
throttles_once-acceptance (suc i) n status wait message readable e lo hi = refl

abbrev no_jitter : ℕ → ℕ → ℕ
no_jitter i d = 0

abbrev decodes_empty : Text → Option Json
decodes_empty s = some (object end)

abbrev half_a_cent : Decimal
half_a_cent = record { negative = false; digits = 5; places = 3 }

abbrev two_metrics : List OutcomeMetric
two_metrics =
    record { key = codes "saved"; value = some half_a_cent }
    ∷ record { key = codes "cost"; value = some half_a_cent }
    ∷ []

abbrev appended_metrics : CallResult × ℕ
appended_metrics =
    append_outcome_metrics ascii decodes_empty default_retry_config no_jitter calm_times
      (posted [] throttles_once) (codes "job") two_metrics fresh 0

abbrev amended_outcome : CallResult × ℕ
amended_outcome =
    amend_job_outcome ascii decodes_empty default_retry_config no_jitter calm_times
      (posted [] throttles_once) (codes "job")
      (some (codes "wrong cost", some (ℤ.pos 1), two_metrics)) fresh 0

writes_applied_once_example :
    AppliedBy (λ n. n) 0 appended_metrics × AppliedBy (λ n. n) 0 amended_outcome
writes_applied_once_example =
    writes_applied_once ascii decodes_empty default_retry_config no_jitter calm_times []
      throttles_once (λ n. n) throttles_once-once throttles_once-refusal throttles_once-acceptance
      (codes "job") two_metrics (some (codes "wrong cost", some (ℤ.pos 1), two_metrics)) fresh 0

-- Both are applied, by their second request.
both_applied : (appended_metrics ≡ (done, 1)) × (amended_outcome ≡ (done, 1))
unfolding append_outcome_metrics amend_job_outcome valid_metrics with_retry_by attempt
    new_circuit_breaker execute_and_parse retries refused_before_applying allows_retry widens_retry
    is_type response_error is_conflict_error
both_applied = (refl, refl)

-- A server that never answers in time.
abbrev silent : ℕ → Unit {0} → HttpAnswer × Unit {0}
silent i w = (no_answer (net true (codes "timeout")), w)

abbrev unanswered : Finished (JobCall Unit)
unanswered = do_retrying ascii default_retry_config no_jitter calm_times (posted [] silent) fresh tt

two_timeouts_at_most_example : count_timed_out unanswered.state.attempts ≤ 2
two_timeouts_at_most_example =
    two_timeouts_at_most ascii default_retry_config no_jitter calm_times (posted [] silent) fresh tt

-- Both requests are made.
two_timeouts : count_timed_out unanswered.state.attempts ≡ 2
unfolding count_timed_out with_retry_by attempt new_circuit_breaker execute_and_parse retries
    allows_retry is_type
two_timeouts = refl

-- A request that times out, and a conflict.
abbrev reported_before : ℕ → Unit {0} → HttpAnswer × Unit {0}
reported_before zero w = (no_answer (net true (codes "timeout")), w)
reported_before (suc i) w = (answered 409 0 (codes "reported") true, w)

abbrev outcome : JobOutcome
outcome = record {
  execution_status = codes "SUCCESS";
  outcome_type = [];
  outcome_value = some half_a_cent;
  outcome_currency = [];
  metadata = codes "{}";
  outcome_reason = [];
  metrics = [];
  reported_by = [];
}

abbrev stored_outcome : JobResource
stored_outcome = record {
  has_outcome = true;
  amendment_count = some 0;
  stored_status = some (codes "success");
  stored_type = none;
  stored_value = some (record { negative = false; digits = 50; places = 4 });
  stored_currency = some (codes "USD");
  stored_metadata = some (codes "{}");
  stored_reason = none;
}

conflict_judged_example :
    (before : List (Option Failure)) × (last : Failure) × ((do_retrying ascii default_retry_config
        no_jitter calm_times
        (posted [] reported_before)
        fresh
        tt).state.attempts
      ≡ before ++ some last ∷ [])
    × (is_conflict_error last ≡ true)
    × Judged ascii decodes_empty before (some stored_outcome) none outcome (
        report_job_outcome ascii decodes_empty default_retry_config no_jitter calm_times
          (posted [] reported_before)
          (codes "job")
          (some outcome)
          (some stored_outcome)
          none
          fresh
          tt)
unfolding valid_metrics with_retry_by attempt new_circuit_breaker execute_and_parse retries
    allows_retry widens_retry is_type response_error is_conflict_error
conflict_judged_example =
    conflict_judged ascii decodes_empty default_retry_config no_jitter calm_times [] reported_before
      (codes "job") outcome (some stored_outcome) none fresh tt
      (response_error (codes "reported") 409 0) refl refl refl refl

-- The job is read back after the timeout, and confirmed.
timeout_confirmed :
    report_job_outcome ascii decodes_empty default_retry_config no_jitter calm_times
      (posted [] reported_before)
      (codes "job")
      (some outcome)
      (some stored_outcome)
      none
      fresh
      tt
    ≡ some (confirmed stored_outcome, true)
unfolding report_job_outcome valid_metrics with_retry_by attempt new_circuit_breaker
    execute_and_parse retries allows_retry widens_retry is_type response_error is_conflict_error
timeout_confirmed = refl
