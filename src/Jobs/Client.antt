-- ===== src/Jobs/Client.antt =====
-- The calls of core/jobs/client.go that change something: ReportJobOutcome, AppendOutcomeMetrics and
-- AmendJobOutcome. The requests themselves are those of Calls.antt; what the two reads of a report
-- that met a conflict would give is an argument. The texts of the errors are left out.
pub mod Reported
pub mod Applied
use revenium_go_sdk.Base.{
  ℕ, suc, Bool, true, false, not, ◌&&◌, ◌||◌, List, [], ◌∷◌, Option, none, some, ℤ, pos, negsuc,
  if◌then◌else◌, Text, is_empty, trim_space, Unicode,
}
use revenium_go_sdk.Core.Errors.{Failure}
use revenium_go_sdk.Resilience.BreakerState.{Breaker}
use revenium_go_sdk.Resilience.Retry.{RetryConfig, Times, Finished}
use revenium_go_sdk.Jobs.WriteSafety.{any_may_have_been_applied}
use revenium_go_sdk.Jobs.Calls.{
  JobCall, begun, is_conflict_error, is_unprocessable_error, do_retrying,
  do_write_not_safe_to_repeat,
}
use revenium_go_sdk.Jobs.Outcome.{OutcomeMetric, JobOutcome, JobResource, valid_metrics}
use revenium_go_sdk.Jobs.Outcome.Json.{Json}
use revenium_go_sdk.Jobs.Confirmation.{job_storing_report, reads_job}

-- What a call returns. `invalid` is a ValidationError of the SDK's own.
pub data CallResult : Type 0 where
  invalid : CallResult
  done : CallResult
  -- The job as it was read back.
  confirmed : JobResource → CallResult
  already_reported not_reported amend_conflict : CallResult
  call_failed : Failure → CallResult

-- `attempts[:len(attempts)-1]`, which panics on an empty slice.
unfoldable pub all_but_last : List (Option Failure) → Option (List (Option Failure))
all_but_last [] = none
all_but_last (e ∷ []) = some []
all_but_last (e ∷ d ∷ es) = elim (all_but_last (d ∷ es)) [ none ↦ none | some ds ↦ some (e ∷ ds) ]

abbrev pub confirmed_or_reported : Option JobResource → CallResult
confirmed_or_reported none = already_reported
confirmed_or_reported (some job) = confirmed job

abbrev append_result : Option Failure → CallResult
append_result none = done
append_result (some err) = call_failed err

abbrev amend_refused : Failure → CallResult
amend_refused err = if is_conflict_error err then amend_conflict else call_failed err

abbrev amend_result : Option Failure → CallResult
amend_result none = done
amend_result (some err) = if is_unprocessable_error err then not_reported else amend_refused err

abbrev is_negative : Option ℤ → Bool
is_negative (some (negsuc n)) = true
is_negative _ = false

module _ (u : Unicode) (decode : Text → Option Json) (c : RetryConfig) (jitter : ℕ → ℕ → ℕ)
    (times : ℕ → Times) {W : Type 0} (post : ℕ → W → Option Failure × W) where
  -- After a conflict: what is returned and whether the job was read back; none is the panic.
  unfoldable pub after_report_conflict :
      Option (List (Option Failure))
      → Option JobResource
      → Option (List (Option Text))
      → JobOutcome
      → Option (CallResult × Bool)
  unfolding any_may_have_been_applied job_storing_report
  after_report_conflict none job history sent = none
  after_report_conflict (some before) job history sent = some (
      if any_may_have_been_applied before
      then (confirmed_or_reported (job_storing_report u decode job history sent), reads_job sent)
      else (already_reported, false))

  abbrev reported :
      Finished (JobCall W)
      → Option JobResource
      → Option (List (Option Text))
      → JobOutcome
      → Option (CallResult × Bool)
  reported r job history sent = elim r.error [
    | none ↦ some (done, false)
    | some err ↦
        if is_conflict_error err
        then after_report_conflict (all_but_last r.state.attempts) job history sent
        else some (call_failed err, false)
  ]

  -- `ReportJobOutcome`, with whether it read the job back; none is a panic. Nothing is sent if the input is refused.
  unfoldable pub report_job_outcome :
      Text
      → Option JobOutcome
      → Option JobResource
      → Option (List (Option Text))
      → Breaker
      → W
      → Option (CallResult × Bool)
  unfolding is_conflict_error after_report_conflict valid_metrics all_but_last
  report_job_outcome job_id none job history b w = some (invalid, false)
  report_job_outcome job_id (some sent) job history b w =
      if is_empty job_id || not (valid_metrics u sent.metrics)
      then some (invalid, false)
      else reported (do_retrying u c jitter times post b w) job history sent

  unfoldable pub append_outcome_metrics : Text → List OutcomeMetric → Breaker → W → CallResult × W
  unfolding valid_metrics
  append_outcome_metrics job_id metrics b w =
      let r = do_write_not_safe_to_repeat u c jitter times post b w in
      if is_empty job_id || (is_empty metrics || not (valid_metrics u metrics))
      then (invalid, w)
      else (append_result r.error, r.state.world)

  -- `AmendJobOutcome` of an amendment with this reason, expected version and metrics; none is nil.
  unfoldable pub amend_job_outcome :
      Text → Option (Text × Option ℤ × List OutcomeMetric) → Breaker → W → CallResult × W
  unfolding valid_metrics is_conflict_error is_unprocessable_error trim_space
  amend_job_outcome job_id none b w = (invalid, w)
  amend_job_outcome job_id (some (reason, version, metrics)) b w =
      let r = do_write_not_safe_to_repeat u c jitter times post b w in
      if is_empty job_id
        || (is_empty (trim_space u reason)
            || (is_negative version || not (valid_metrics u metrics)))
      then (invalid, w)
      else (amend_result r.error, r.state.world)
