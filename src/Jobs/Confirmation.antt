-- ===== src/Jobs/Confirmation.antt =====
-- core/jobs/report_confirmation.go: whether Revenium holds exactly the outcome that a call sent.
-- Decoding a JSON text is the parameter `decode`.
pub mod Spec
pub mod Held
use revenium_go_sdk.Base.{
  ℕ, Bool, true, false, not, ◌&&◌, ◌||◌, List, [], ◌∷◌, Option, none, some, ◌==◌, if◌then◌else◌,
  Text, text_eq, is_empty, trim_space, codes, Unicode,
}
use revenium_go_sdk.Jobs.Outcome.{
  Decimal, OutcomeMetric, JobOutcome, JobResource, same_outcome_value,
}
use revenium_go_sdk.Jobs.Outcome.Json.{Json, same_json}

abbrev blank_or_none : Option Text → Bool
blank_or_none none = true
blank_or_none (some s) = is_empty s

abbrev stored_as : (Text → Bool) → Option Text → Bool
stored_as test none = false
stored_as test (some s) = test s

abbrev is_none {ℓ} : {A : Type ℓ} → Option A → Bool
is_none none = true
is_none (some a) = false

unfoldable pub stored_currency_for : JobOutcome → Text
stored_currency_for o =
    if is_none o.outcome_value
    then []
    else if is_empty o.outcome_currency
    then codes "USD"
    else o.outcome_currency

-- `jobStoringReport` reads the job only if no metrics were sent.
abbrev pub reads_job : JobOutcome → Bool
reads_job sent = is_empty sent.metrics

abbrev is_zero_count : Option ℕ → Bool
is_zero_count none = false
is_zero_count (some n) = n == 0

-- The history that was read, by the reporters of its entries; none if it could not be read.
unfoldable pub history_shows_only_report_by : Text → Option (List (Option Text)) → Bool
unfolding text_eq
history_shows_only_report_by reporter (some (some name ∷ [])) = text_eq name reporter
history_shows_only_report_by reporter _ = false

module _ (u : Unicode) (decode : Text → Option Json) where
  unfoldable pub same_enum : Text → Option Text → Bool
  same_enum sent stored =
      if is_empty sent then blank_or_none stored else stored_as (λ s. u.equal_fold s sent) stored

  unfoldable pub same_outcome_reason : Text → Option Text → Bool
  unfolding trim_space text_eq
  same_outcome_reason sent stored =
      if is_empty (trim_space u sent)
      then is_none stored
      else stored_as (λ s. text_eq s sent) stored

  abbrev same_texts : Option Json → Option Json → Text → Text → Bool
  same_texts (some v) (some w) sent stored = same_json v w
  same_texts _ _ sent stored = text_eq sent stored

  unfoldable pub same_metadata : Text → Option Text → Bool
  unfolding same_json text_eq
  same_metadata sent none = is_empty sent
  same_metadata sent (some stored) =
      not (is_empty sent) && same_texts (decode sent) (decode stored) sent stored

  unfoldable pub stores_report_unamended : JobResource → JobOutcome → Bool
  unfolding same_enum same_outcome_reason same_metadata same_outcome_value stored_currency_for
  stores_report_unamended job sent =
      (job.has_outcome && is_zero_count job.amendment_count)
      && (same_enum sent.execution_status job.stored_status
          && (same_enum sent.outcome_type job.stored_type
              && (same_enum (stored_currency_for sent) job.stored_currency
                  && (same_outcome_reason sent.outcome_reason job.stored_reason
                      && (same_outcome_value sent.outcome_value job.stored_value
                          && same_metadata sent.metadata job.stored_metadata)))))

  -- `jobStoringReport`, with what the two reads gave.
  unfoldable pub job_storing_report :
      Option JobResource → Option (List (Option Text)) → JobOutcome → Option JobResource
  unfolding stores_report_unamended history_shows_only_report_by
  job_storing_report none history sent = none
  job_storing_report (some job) history sent =
      if not (is_empty sent.metrics) || not (stores_report_unamended job sent)
      then none
      else if not (is_empty sent.reported_by)
          && not (history_shows_only_report_by sent.reported_by history)
      then none
      else some job
