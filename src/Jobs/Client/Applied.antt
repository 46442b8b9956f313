-- ===== src/Jobs/Client/Applied.antt =====
-- How often Revenium applies a call that changes something.
use revenium_go_sdk.Base.{
  ℕ, suc, ◌≤◌, ◌<◌, ◌≡◌, refl, Bool, true, false, Option, none, some, List, if◌then◌else◌, Text, ℤ,
  Unicode,
}
use revenium_go_sdk.Core.Errors.{Failure}
use revenium_go_sdk.Resilience.BreakerState.{Breaker}
use revenium_go_sdk.Resilience.Retry.{RetryConfig, Times}
use revenium_go_sdk.Jobs.Calls.{
  JobCall, is_unprocessable_error, is_conflict_error, HttpAnswer, answered, posted,
  do_write_not_safe_to_repeat,
}
use revenium_go_sdk.Jobs.Calls.Writes.{AtMostOnce, write_applied_once}
use revenium_go_sdk.Jobs.Outcome.{OutcomeMetric}
use revenium_go_sdk.Jobs.Outcome.Json.{Json}
use revenium_go_sdk.Jobs.Client.{
  CallResult, invalid, done, not_reported, amend_conflict, call_failed, append_result,
  amend_refused, amend_result, append_outcome_metrics, amend_job_outcome,
}

-- By what a call returned, how often it was applied to a server that had applied n before: once if it
-- succeeded, not at all if its input was refused, and otherwise once at most.
abbrev pub AppliedBy : {W : Type 0} → (W → ℕ) → ℕ → CallResult × W → Type 0
AppliedBy applied n (done, w) = applied w ≡ suc n
AppliedBy applied n (invalid, w) = applied w ≡ n
AppliedBy applied n (result, w) = applied w ≤ suc n

module _ {W : Type 0} (applied : W → ℕ) (n : ℕ) where
  appended :
      (err : Option Failure) (s : JobCall W)
      → AtMostOnce applied n err s
      → AppliedBy applied n (append_result err, s.world)
  appended none s h = h
  appended (some err) s h = h

  amended :
      (err : Option Failure) (s : JobCall W)
      → AtMostOnce applied n err s
      → AppliedBy applied n (amend_result err, s.world)
  amended none s h = h
  amended (some err) s h =
      elim (is_unprocessable_error err)
        as (λ x. AppliedBy applied n (if x then not_reported else amend_refused err, s.world)) [
          | true ↦ h
          | false ↦
              elim (is_conflict_error err)
                as (λ x.
                  AppliedBy applied n (if x then amend_conflict else call_failed err, s.world)) [
                    | true ↦ h
                    | false ↦ h
                  ]
        ]

  -- A call whose input is refused sends nothing.
  guarded :
      (wrong : Bool) (w : W) (result : CallResult × W)
      → applied w ≡ n
      → AppliedBy applied n result
      → AppliedBy applied n (if wrong then (invalid, w) else result)
  guarded true w result e h = e
  guarded false w result e h = h

module _ (u : Unicode) (decode : Text → Option Json) (c : RetryConfig) (jitter : ℕ → ℕ → ℕ)
    (times : ℕ → Times) (guidance : Text) {W : Type 0} (serve : ℕ → W → HttpAnswer × W)
    (applied : W → ℕ) (once : (i : ℕ) (w : W) → applied (serve i w).1 ≤ suc (applied w))
    (refusal : (i : ℕ) (w : W) (wait : ℕ) (message : Text) (readable : Bool)
      → (serve i w).0 ≡ answered 429 wait message readable
      → applied (serve i w).1 ≡ applied w)
    (acceptance : (i : ℕ) (w : W) (status wait : ℕ) (message : Text) (readable : Bool)
      → (serve i w).0 ≡ answered status wait message readable
      → 200 ≤ status
      → status < 300
      → applied (serve i w).1 ≡ suc (applied w)) where
  append_applied :
      (job_id : Text) (metrics : List OutcomeMetric) (b : Breaker) (w : W)
      → AppliedBy applied (applied w) (
          append_outcome_metrics u decode c jitter times (posted guidance serve) job_id metrics b w)
  unfolding append_outcome_metrics
  append_applied job_id metrics b w =
      let r = do_write_not_safe_to_repeat u c jitter times (posted guidance serve) b w in
      let h =
        write_applied_once u c jitter times guidance serve applied once refusal acceptance b w in
      guarded applied (applied w) _ w _ refl (appended applied (applied w) r.error r.state h)

  amend_applied :
      (job_id : Text) (amendment : Option (Text × Option ℤ × List OutcomeMetric)) (b : Breaker)
      (w : W)
      → AppliedBy applied
          (applied w)
          (amend_job_outcome u decode c jitter times (posted guidance serve) job_id amendment b w)
  unfolding amend_job_outcome
  amend_applied job_id none b w = refl
  amend_applied job_id (some (reason, version, metrics)) b w =
      let r = do_write_not_safe_to_repeat u c jitter times (posted guidance serve) b w in
      let h =
        write_applied_once u c jitter times guidance serve applied once refusal acceptance b w in
      guarded applied (applied w) _ w _ refl (amended applied (applied w) r.error r.state h)

  -- AppendOutcomeMetrics and AmendJobOutcome, with their retries, are applied by Revenium exactly once
  -- if they succeed, not at all if their input is refused, and once at most if they fail. Of Revenium
  -- it is assumed that one request is applied once at most, that a 429 refuses it without applying it,
  -- and that a 2xx says that it was applied.
  pub writes_applied_once :
      (job_id : Text) (metrics : List OutcomeMetric)
      (amendment : Option (Text × Option ℤ × List OutcomeMetric)) (b : Breaker) (w : W)
      → AppliedBy applied (applied w) (
          append_outcome_metrics u decode c jitter times (posted guidance serve) job_id metrics b w)
        × AppliedBy applied
            (applied w)
            (amend_job_outcome u decode c jitter times (posted guidance serve) job_id amendment b w)
  writes_applied_once job_id metrics amendment b w =
      (append_applied job_id metrics b w, amend_applied job_id amendment b w)
