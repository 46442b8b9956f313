-- ===== src/Jobs/Client/Reported.antt =====
-- What a report returns, and whether it reads the job back.
use revenium_go_sdk.Base.{
  ℕ, Bool, sym, subst, ◌↔◌, ◌⊎◌, ◌≡◌, ◌≢◌, refl, true, false, not, ◌||◌, List, [], ◌∷◌, ◌++◌,
  Option, none, some, arith, if◌then◌else◌, Text, Unicode, is_empty, Option-cases, Bool-cases, inl,
  inr,
}
use revenium_go_sdk.Core.Errors.{Failure}
use revenium_go_sdk.Resilience.BreakerState.{Breaker}
use revenium_go_sdk.Resilience.Retry.{RetryConfig, Times}
use revenium_go_sdk.Jobs.WriteSafety.{any_may_have_been_applied}
use revenium_go_sdk.Jobs.WriteSafety.Refused.{AllRefused, AllRefused-iff}
use revenium_go_sdk.Jobs.Calls.{HttpAnswer, posted, do_retrying, is_conflict_error}
use revenium_go_sdk.Jobs.Calls.Conflicts.{conflict_is_last}
use revenium_go_sdk.Jobs.Outcome.{JobOutcome, JobResource, valid_metrics}
use revenium_go_sdk.Jobs.Outcome.Json.{Json}
use revenium_go_sdk.Jobs.Client.{
  CallResult, already_reported, confirmed, all_but_last, after_report_conflict, report_job_outcome,
  confirmed_or_reported,
}
use revenium_go_sdk.Jobs.Confirmation.{job_storing_report, reads_job}
use revenium_go_sdk.Jobs.Confirmation.Held.{stored_iff}
use revenium_go_sdk.Jobs.Confirmation.Spec.{Holds, ShownReporter}

all_but_last-append :
    (es : List (Option Failure)) (a : Option Failure) → all_but_last (es ++ a ∷ []) ≡ some es
unfolding all_but_last
all_but_last-append [] a = refl
all_but_last-append (e ∷ []) a = refl
all_but_last-append (e ∷ d ∷ es) a = ground (arith, all_but_last-append (d ∷ es) a)

abbrev read_answer : Option JobResource → Bool → Option (CallResult × Bool)
read_answer o r = some (confirmed_or_reported o, r)

confirmed_iff :
    (o : Option JobResource) (r : Bool) (found : JobResource)
    → (read_answer o r ≡ some (confirmed found, true)) ↔ ((o ≡ some found) × (r ≡ true))
confirmed_iff none r found = ground arith
confirmed_iff (some job) r found = ground arith

confirmed_cases :
    (o : Option JobResource) (r : Bool)
    → ((found : JobResource) → o ≡ some found → r ≡ true)
    → (read_answer o r ≡ some (already_reported, r))
      ⊎ ((found : JobResource) × (read_answer o r ≡ some (confirmed found, true)))
confirmed_cases none r h = inl refl
confirmed_cases (some job) r h = let q = h job refl in inr (job, ground arith)

module _ (u : Unicode) (decode : Text → Option Json) where
  -- What a report returns that reads the job back, unless metrics were sent.
  abbrev pub ReadBack :
      Option JobResource
      → Option (List (Option Text))
      → JobOutcome
      → Option (CallResult × Bool)
      → Type 0
  ReadBack job history sent answer =
      ((found : JobResource)
        → (answer ≡ some (confirmed found, true)) ↔ (
            (job ≡ some found)
            × (sent.metrics ≡ [])
            × Holds u decode found sent
            × ShownReporter sent.reported_by history))
      × ((answer ≡ some (already_reported, is_empty sent.metrics))
          ⊎ ((found : JobResource) × (answer ≡ some (confirmed found, true))))

  -- What a report that met a conflict returns, and whether it read the job back.
  abbrev pub Judged :
      List (Option Failure)
      → Option JobResource
      → Option (List (Option Text))
      → JobOutcome
      → Option (CallResult × Bool)
      → Type 0
  Judged before job history sent answer =
      (AllRefused before × (answer ≡ some (already_reported, false)))
      ⊎ ((¬ (AllRefused before)) × ReadBack job history sent answer)

  answer_iff :
      (job : Option JobResource) (history : Option (List (Option Text))) (sent : JobOutcome)
      (found : JobResource)
      → (read_answer (job_storing_report u decode job history sent) (reads_job sent)
          ≡ some (confirmed found, true))
        ↔ ((job ≡ some found)
            × (sent.metrics ≡ [])
            × Holds u decode found sent
            × ShownReporter sent.reported_by history)
  answer_iff job history sent found =
      let (there, back) = stored_iff u decode job history sent found in
      let (one, two) =
        confirmed_iff (job_storing_report u decode job history sent) (reads_job sent) found in
      (λ h. there (one h).0, λ (e, m, k, r). two (back (e, m, k, r), ground arith))

  found_was_read :
      (job : Option JobResource) (history : Option (List (Option Text))) (sent : JobOutcome)
      (found : JobResource)
      → job_storing_report u decode job history sent ≡ some found
      → reads_job sent ≡ true
  found_was_read job history sent found q =
      let (e, m, k, r) = (stored_iff u decode job history sent found).0 q in ground arith

  judged :
      (before : List (Option Failure)) (job : Option JobResource)
      (history : Option (List (Option Text))) (sent : JobOutcome)
      → Judged before job history sent (
          some (
            if any_may_have_been_applied before
            then (
              confirmed_or_reported (job_storing_report u decode job history sent),
              reads_job sent,
            )
            else (already_reported, false)))
  judged before job history sent =
      let (refused, back) = AllRefused-iff before in
      let o = job_storing_report u decode job history sent in
      elim (Bool-cases (any_may_have_been_applied before)) [
        | inl q ↦ inr (
          λ h. let p = back h in ground arith,
          subst
              (λ x. ReadBack job history sent (
                some (
                  if x
                  then (confirmed_or_reported o, reads_job sent)
                  else (already_reported, false))))
              (sym q)
              (
                answer_iff job history sent,
                confirmed_cases o (reads_job sent) (found_was_read job history sent),
              ),
        )
        | inr q ↦ inl (refused q, ground arith)
      ]

module _ (u : Unicode) (decode : Text → Option Json) (c : RetryConfig) (jitter : ℕ → ℕ → ℕ)
    (times : ℕ → Times) (guidance : Text) {W : Type 0} (serve : ℕ → W → HttpAnswer × W) where
  conflict_answered :
      (job_id : Text) (sent : JobOutcome) (job : Option JobResource)
      (history : Option (List (Option Text))) (b : Breaker) (w : W) (err : Failure)
      → is_empty job_id ≡ false
      → valid_metrics u sent.metrics ≡ true
      → (do_retrying u c jitter times (posted guidance serve) b w).error ≡ some err
      → is_conflict_error err ≡ true
      → (before : List (Option Failure)) × (last : Failure) × ((do_retrying u c jitter times
            (posted guidance serve)
            b
            w).state.attempts
          ≡ before ++ some last ∷ [])
        × (is_conflict_error last ≡ true)
        × (report_job_outcome u decode c jitter times
              (posted guidance serve)
              job_id
              (some sent)
              job
              history
              b
              w
            ≡ some (
                if any_may_have_been_applied before
                then (
                  confirmed_or_reported (job_storing_report u decode job history sent),
                  reads_job sent,
                )
                else (already_reported, false)))
  unfolding report_job_outcome after_report_conflict
  conflict_answered job_id sent job history b w err n v e k =
      let (before, last, q, j) = conflict_is_last u c jitter times guidance serve b w err e k in
      (before, last, q, j, ground (arith, all_but_last-append before (some last)))

  -- A report whose input is accepted and whose call ends in a conflict is judged by the requests before
  -- the last one, which was the conflict. If each of them succeeded or failed with a Revenium error of
  -- status 429, the job is not read back and the outcome is reported as there already. Otherwise the
  -- job is read back if no metrics were sent, and is confirmed exactly if it could be read, holds what
  -- was sent, and its history shows the reporter alone where one was named; if not, the outcome is
  -- reported as there already.
  pub conflict_judged :
      (job_id : Text) (sent : JobOutcome) (job : Option JobResource)
      (history : Option (List (Option Text))) (b : Breaker) (w : W) (err : Failure)
      → is_empty job_id ≡ false
      → valid_metrics u sent.metrics ≡ true
      → (do_retrying u c jitter times (posted guidance serve) b w).error ≡ some err
      → is_conflict_error err ≡ true
      → (before : List (Option Failure)) × (last : Failure) × ((do_retrying u c jitter times
            (posted guidance serve)
            b
            w).state.attempts
          ≡ before ++ some last ∷ [])
        × (is_conflict_error last ≡ true)
        × Judged u decode before job history sent (
            report_job_outcome u decode c jitter times
              (posted guidance serve)
              job_id
              (some sent)
              job
              history
              b
              w)
  conflict_judged job_id sent job history b w err n v e k =
      let (before, last, q, j, r) = conflict_answered job_id sent job history b w err n v e k in
      (
        before,
        last,
        q,
        j,
        subst (λ x. Judged u decode before job history sent x) (sym r)
            (judged u decode before job history sent),
      )

  -- ReportJobOutcome never panics, whatever Revenium answers.
  pub report_never_panics :
      (job_id : Text) (sent : Option JobOutcome) (job : Option JobResource)
      (history : Option (List (Option Text))) (b : Breaker) (w : W)
      → report_job_outcome u decode c jitter times
          (posted guidance serve)
          job_id
          sent
          job
          history
          b
          w
        ≢ none
  unfolding report_job_outcome
  report_never_panics job_id none job history b w = ground arith
  report_never_panics job_id (some sent) job history b w =
      elim (Bool-cases (is_empty job_id || not (valid_metrics u sent.metrics))) [
        | inl y ↦ ground arith
        | inr y ↦
            elim (Option-cases (do_retrying u c jitter times (posted guidance serve) b w).error) [
              | inl e ↦ ground arith
              | inr (err, e) ↦ elim (Bool-cases (is_conflict_error err)) [
                | inl k ↦
                    let (before, last, q, j, r) =
                      conflict_answered job_id sent job history b w err (ground arith)
                        (ground arith) e k in
                    ground arith
                | inr k ↦ ground arith
              ]
            ]
      ]
