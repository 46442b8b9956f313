-- ===== src/Jobs/Calls/Conflicts.antt =====
-- A conflict that ends a report is the answer to the last request sent.
use revenium_go_sdk.Base.{
  ℕ, ◌≡◌, refl, sym, subst, Bool, true, false, not, List, [], ◌∷◌, ◌++◌, Option, none, some, arith,
  Unicode, Text, Bool-cases, Option-cases, inl, inr,
}
use revenium_go_sdk.Core.Errors.{Failure, circuit_open, is_circuit_open, retries_exhausted}
use revenium_go_sdk.Resilience.Classify.{classify_http_response, is_http_client_timeout}
use revenium_go_sdk.Resilience.Breaker.{
  admit, Outcome, succeeded, failed, panicked, execute_honoring_retry_after,
}
use revenium_go_sdk.Resilience.BreakerState.{Breaker}
use revenium_go_sdk.Resilience.Retry.{
  RetryConfig, Times, retries, attempt_through_breaker, outcome_of, open_error, after_breaker,
}
use revenium_go_sdk.Resilience.Retry.Rules.{retry_keeps}
use revenium_go_sdk.Jobs.WriteSafety.{widens_retry}
use revenium_go_sdk.Jobs.Calls.{
  HttpAnswer, no_answer, answered, execute_and_parse, posted, JobCall, was_sent, begun, attempt,
  report_config, do_retrying, is_conflict_error,
}
use revenium_go_sdk.Jobs.Calls.Sent.{admitted_outcome, refused_cases}
use revenium_go_sdk.Jobs.Calls.Reports.{retried_answer}
use revenium_go_sdk.Resilience.Retry.ThroughBreaker.{refused_attempt}

abbrev no_conflict : Option Failure → Bool
no_conflict none = true
no_conflict (some err) = not (is_conflict_error err)

after_conflict :
    (t : Times) (last r : Option Failure) (o : Outcome) (b : Breaker) (err : Failure)
    → no_conflict last ≡ true
    → o ≡ outcome_of r
    → (after_breaker t last (o, b)).0 ≡ some err
    → is_conflict_error err ≡ true
    → (a : Failure) × (r ≡ some a) × (is_conflict_error a ≡ true)
unfolding is_conflict_error is_circuit_open
after_conflict t last none succeeded b err n e h k = absurd (ground arith)
after_conflict t last none (failed f) b err n e h k = absurd (ground arith)
after_conflict t last none panicked b err n e h k = absurd (ground arith)
after_conflict t last (some a) succeeded b err n e h k = absurd (ground arith)
after_conflict t last (some a) panicked b err n e h k = absurd (ground arith)
after_conflict t none (some a) (failed f) b err n e h k = (a, refl, ground arith)
after_conflict t (some l) (some a) (failed f) b err n e h k = (a, refl, ground arith)

refused_no_conflict :
    (last : Option Failure) (err : Failure)
    → no_conflict last ≡ true
    → open_error last circuit_open ≡ err
    → is_conflict_error err ≡ false
unfolding is_conflict_error
refused_no_conflict none err n e = ground arith
refused_no_conflict (some l) err n e = ground arith

-- After a failure that may be retried the call remembers it.
after_last :
    (t : Times) (last r : Option Failure) (o : Outcome) (b : Breaker) (err : Failure)
    → o ≡ outcome_of r
    → (after_breaker t last (o, b)).0 ≡ some err
    → is_circuit_open err ≡ false
    → (after_breaker t last (o, b)).1.last_failure ≡ some err
unfolding is_circuit_open
after_last t last r succeeded b err e h k = absurd (ground arith)
after_last t last r panicked b err e h k = absurd (ground arith)
after_last t none r (failed f) b err e h k = ground arith
after_last t (some l) r (failed f) b err e h k = ground arith

-- A conflict is never retried.
retried_no_conflict :
    (u : Unicode) (c : RetryConfig) (n : ℕ) (guidance : Text) (a : HttpAnswer) (err : Failure)
    → execute_and_parse guidance a ≡ some err
    → retries u (report_config c n) err ≡ true
    → is_conflict_error err ≡ false
unfolding is_conflict_error execute_and_parse retries widens_retry classify_http_response
    is_http_client_timeout
retried_no_conflict u c n guidance (no_answer cause) err e r = ground arith
retried_no_conflict u c n guidance (answered status wait message readable) err e r = ground arith

module _ (u : Unicode) (c : RetryConfig) (jitter : ℕ → ℕ → ℕ) (times : ℕ → Times) (guidance : Text)
    {W : Type 0} (serve : ℕ → W → HttpAnswer × W) where
  abbrev run_attempt : JobCall W → ℕ → Option Failure × JobCall W
  run_attempt s i = attempt times (posted guidance serve) i s

  abbrev is_sent : JobCall W → ℕ → Bool
  is_sent s i = was_sent (admit (times i).admitted_at s.path.breaker).0

  -- The last request sent was answered by a conflict.
  abbrev pub ConflictLast : List (Option Failure) → Type 0
  ConflictLast es =
      (before : List (Option Failure)) × (a : Failure) × (es ≡ before ++ some a ∷ [])
      × (is_conflict_error a ≡ true)

  abbrev Ended : Option Failure → JobCall W → Type 0
  Ended none s = Unit {0}
  Ended (some err) s = is_conflict_error err ≡ true → ConflictLast s.attempts

  conflict_answer :
      (i : ℕ) (s : JobCall W) (err : Failure)
      → no_conflict s.path.last_failure ≡ true
      → (run_attempt s i).0 ≡ some err
      → is_conflict_error err ≡ true
      → ConflictLast (run_attempt s i).1.attempts
  unfolding attempt attempt_through_breaker
  conflict_answer i s err n e k =
      let t = times i in
      let answer = execute_and_parse guidance (serve i s.world).0 in
      elim (Bool-cases (is_sent s i)) [
        | inl q ↦
            let r =
              execute_honoring_retry_after t.admitted_at (outcome_of answer) t.clock t.held_at
                s.path.breaker in
            let (a, f, j) =
              after_conflict t s.path.last_failure answer r.0 r.1 err n
                (admitted_outcome t.admitted_at t.held_at (outcome_of answer) t.clock s.path.breaker
                  q)
                (ground arith) k in
            (s.attempts, a, ground arith, j)
        | inr q ↦
            let f =
              refused_attempt times (λ j. answer) i s.path
                (refused_cases (admit t.admitted_at s.path.breaker).0 q) in
            let d = refused_no_conflict s.path.last_failure err n (ground arith) in
            absurd (ground arith)
      ]

  retried_last :
      (i : ℕ) (s : JobCall W) (err : Failure)
      → (run_attempt s i).0 ≡ some err
      → retries u (report_config c (run_attempt s i).1.timeouts) err ≡ true
      → no_conflict (run_attempt s i).1.path.last_failure ≡ true
  unfolding attempt attempt_through_breaker retries
  retried_last i s err e y =
      let t = times i in
      let answer = execute_and_parse guidance (serve i s.world).0 in
      let (q, a) = retried_answer u c jitter times (posted guidance serve) i s err e y in
      let r =
        execute_honoring_retry_after t.admitted_at (outcome_of answer) t.clock t.held_at
          s.path.breaker in
      let o =
        admitted_outcome t.admitted_at t.held_at (outcome_of answer) t.clock s.path.breaker q in
      let l = after_last t s.path.last_failure answer r.0 r.1 err o (ground arith) (ground arith) in
      let n =
        retried_no_conflict u c (run_attempt s i).1.timeouts guidance (serve i s.world).0 err a y in
      ground arith

  Ended-conflict :
      (i : ℕ) (s : JobCall W)
      → no_conflict s.path.last_failure ≡ true
      → Ended (run_attempt s i).0 (run_attempt s i).1
  Ended-conflict i s n = elim (Option-cases (run_attempt s i).0) [
    | inl e ↦ subst (λ x. Ended x (run_attempt s i).1) (sym e) tt
    | inr (err, e) ↦
        subst (λ x. Ended x (run_attempt s i).1) (sym e) (λ k. conflict_answer i s err n e k)
  ]

  exhausted_no_conflict :
      (err : Failure)
      → is_conflict_error err ≡ false
      → is_conflict_error (retries_exhausted c.max_retries err) ≡ false
  unfolding is_conflict_error
  exhausted_no_conflict err h = h

  -- Where a report ends with a conflict, a request was sent and the conflict was the answer to the
  -- last one: the attempts before the conflict can be cut off.
  pub conflict_is_last :
      (b : Breaker) (w : W) (err : Failure)
      → (do_retrying u c jitter times (posted guidance serve) b w).error ≡ some err
      → is_conflict_error err ≡ true
      → ConflictLast (do_retrying u c jitter times (posted guidance serve) b w).state.attempts
  conflict_is_last b w err e k =
      let r = do_retrying u c jitter times (posted guidance serve) b w in
      let h : Ended r.error r.state =
        retry_keeps u c (λ s. retries u (report_config c s.timeouts)) jitter
          (attempt times (posted guidance serve)) (λ s. no_conflict s.path.last_failure ≡ true)
          Ended (λ i s n f. Ended-conflict i s n)
          (λ i s err n e y.
            let l = retried_last i s err e y in
            let (q, a) = retried_answer u c jitter times (posted guidance serve) i s err e y in
            let d =
              retried_no_conflict u c (run_attempt s i).1.timeouts guidance (serve i s.world).0 err
                a y in
            (l, λ j. let z = exhausted_no_conflict err d in absurd (ground arith)))
          (begun b w) refl in
      subst (λ x. Ended x r.state) e h k
