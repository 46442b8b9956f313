-- ===== src/Jobs/Calls/Reports.antt =====
-- An outcome report: how often it is sent after a timeout, and that a conflict is the answer to the
-- last request sent.
use revenium_go_sdk.Base.{
  ℕ, suc, ◌≤◌, ◌≡◌, refl, Bool, true, List, [], ◌∷◌, ◌++◌, Option, none, some, arith, Unicode,
  Bool-cases, inl, inr,
}
use revenium_go_sdk.Core.Errors.{Failure}
use revenium_go_sdk.Resilience.Breaker.{admit}
use revenium_go_sdk.Resilience.BreakerState.{Breaker}
use revenium_go_sdk.Resilience.Retry.{RetryConfig, Times, retries}
use revenium_go_sdk.Resilience.Retry.Rules.{retry_keeps}
use revenium_go_sdk.Jobs.WriteSafety.{record_timeout, allows_retry}
use revenium_go_sdk.Jobs.Calls.{JobCall, was_sent, begun, attempt, report_config, do_retrying}
use revenium_go_sdk.Jobs.Calls.Sent.{sent_error, refused_error}

unfoldable pub count_timed_out : List (Option Failure) → ℕ
unfolding record_timeout
count_timed_out [] = 0
count_timed_out (a ∷ es) = record_timeout a (count_timed_out es)

count_timed_out-append :
    (es : List (Option Failure)) (a : Option Failure)
    → count_timed_out (es ++ a ∷ []) ≡ record_timeout a (count_timed_out es)
unfolding count_timed_out
count_timed_out-append [] a = refl
count_timed_out-append (none ∷ es) a = count_timed_out-append es a
count_timed_out-append (some err ∷ es) a = ground (arith, count_timed_out-append es a)

module _ (u : Unicode) (c : RetryConfig) (jitter : ℕ → ℕ → ℕ) (times : ℕ → Times) {W : Type 0}
    (post : ℕ → W → Option Failure × W) where
  abbrev run_attempt : JobCall W → ℕ → Option Failure × JobCall W
  run_attempt s i = attempt times post i s

  abbrev is_sent : JobCall W → ℕ → Bool
  is_sent s i = was_sent (admit (times i).admitted_at s.path.breaker).0

  abbrev may : JobCall W → Failure → Bool
  may s err = retries u (report_config c s.timeouts) err

  timeouts_raise : (i : ℕ) (s : JobCall W) → (run_attempt s i).1.timeouts ≤ suc s.timeouts
  unfolding attempt record_timeout
  timeouts_raise i s = ground arith

  -- A failure that may be retried is the answer to a request that was sent.
  pub retried_answer :
      (i : ℕ) (s : JobCall W) (err : Failure)
      → (run_attempt s i).0 ≡ some err
      → may (run_attempt s i).1 err ≡ true
      → (is_sent s i ≡ true) × ((post i s.world).0 ≡ some err)
  unfolding attempt retries
  retried_answer i s err e y =
      let answer = λ (j : ℕ). (post i s.world).0 in
      elim (Bool-cases (is_sent s i)) [
        | inl q ↦ elim (sent_error times answer i s.path q) [
          | inl same ↦ (q, ground arith)
          | inr (x, f, o) ↦ absurd (ground arith)
        ]
        | inr q ↦ let (x, f, o) = refused_error times answer i s.path q in absurd (ground arith)
      ]

  retried_timeouts :
      (i : ℕ) (s : JobCall W) (err : Failure)
      → s.timeouts ≤ 1
      → (run_attempt s i).0 ≡ some err
      → may (run_attempt s i).1 err ≡ true
      → (run_attempt s i).1.timeouts ≤ 1
  unfolding attempt retries record_timeout allows_retry
  retried_timeouts i s err l e y = let (q, a) = retried_answer i s err e y in ground arith

  -- The policy counts the requests that timed out.
  counts_timeouts :
      (i : ℕ) (s : JobCall W)
      → count_timed_out s.attempts ≡ s.timeouts
      → count_timed_out (run_attempt s i).1.attempts ≡ (run_attempt s i).1.timeouts
  unfolding attempt record_timeout
  counts_timeouts i s h = ground (arith, count_timed_out-append s.attempts (post i s.world).0)

  -- However often a report is retried, at most two of its requests time out: after one timeout it
  -- may be sent again, after a second it is not.
  pub two_timeouts_at_most :
      (b : Breaker) (w : W)
      → count_timed_out (do_retrying u c jitter times post b w).state.attempts ≤ 2
  unfolding count_timed_out
  two_timeouts_at_most b w =
      let (n, l) =
        retry_keeps u c may jitter (attempt times post)
          (λ s. (count_timed_out s.attempts ≡ s.timeouts) × (s.timeouts ≤ 1))
          (λ e s. (count_timed_out s.attempts ≡ s.timeouts) × (s.timeouts ≤ 2))
          (λ i s k f. let r = timeouts_raise i s in (counts_timeouts i s k.0, omega arith))
          (λ i s err k e y.
            let r = retried_timeouts i s err k.1 e y in
            let n = counts_timeouts i s k.0 in ((n, r), (n, omega arith)))
          (begun b w) (refl, omega arith) in
      omega arith
