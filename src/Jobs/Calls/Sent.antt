-- ===== src/Jobs/Calls/Sent.antt =====
-- What an attempt of a job call hands back.
use revenium_go_sdk.Base.{
  ℕ, ◌≤◌, ◌<◌, ◌≡◌, refl, Bool, true, false, not, ◌&&◌, Option, none, some, arith, Text, Bool-cases,
  Option-cases, inl, inr, ◌⊎◌, ◌==◌,
}
use revenium_go_sdk.Core.Errors.{Failure, is_circuit_open, circuit_open_after, circuit_open}
use revenium_go_sdk.Resilience.Breaker.{
  Admission, ticket, refused, admit, execute_honoring_retry_after, execute, honor, finish,
  can_execute, Outcome, succeeded, failed, panicked,
}
use revenium_go_sdk.Resilience.BreakerState.{Breaker, Clock}
use revenium_go_sdk.Resilience.Classify.{retry_after_of}
use revenium_go_sdk.Resilience.Retry.{
  Times, CallState, attempt_through_breaker, outcome_of, after_breaker,
}
use revenium_go_sdk.Resilience.Retry.ThroughBreaker.{refused_attempt}
use revenium_go_sdk.Jobs.WriteSafety.{refused_before_applying}
use revenium_go_sdk.Jobs.Calls.{HttpAnswer, no_answer, answered, execute_and_parse, was_sent}

-- Only a 429 proves that a request was not applied.
pub refusal_is_429 :
    (guidance : Text) (a : HttpAnswer) (err : Failure)
    → execute_and_parse guidance a ≡ some err
    → refused_before_applying err ≡ true
    → (wait : ℕ) × (message : Text) × (readable : Bool) × (a ≡ answered 429 wait message readable)
unfolding execute_and_parse refused_before_applying
refusal_is_429 guidance (no_answer cause) err e r = absurd (ground arith)
refusal_is_429 guidance (answered status wait message readable) err e r =
    (wait, message, readable, ground arith)

-- A call that is admitted ends with the outcome of its function.
honor_outcome : (at : ℕ) (o : Outcome) (b : Breaker) → (honor at (o, b)).0 ≡ o
unfolding honor
honor_outcome at succeeded b = refl
honor_outcome at (failed err) b = refl
honor_outcome at panicked b = refl

sent_cases : (a : Admission) → was_sent a ≡ true → (t : ℕ) × (a ≡ ticket t)
sent_cases (ticket t) h = (t, refl)
sent_cases refused h = absurd (ground arith)

pub refused_cases : (a : Admission) → was_sent a ≡ false → a ≡ refused
refused_cases (ticket t) h = absurd (ground arith)
refused_cases refused h = refl

pub admitted_outcome :
    (now at : ℕ) (o : Outcome) (c : Clock) (b : Breaker)
    → was_sent (admit now b).0 ≡ true
    → (execute_honoring_retry_after now o c at b).0 ≡ o
unfolding execute_honoring_retry_after execute
admitted_outcome now at o c b h =
    let (t, e) = sent_cases (admit now b).0 h in
    ground (arith, honor_outcome at o (finish t o c (admit now b).1))

after_plain :
    (t : Times) (last : Option Failure) (r err : Failure) (b : Breaker)
    → failed err ≡ outcome_of (some r)
    → is_circuit_open err ≡ false
    → ((after_breaker t last (failed err, b)).0 ≡ some r)
      ⊎ ((x : Failure) × ((after_breaker t last (failed err, b)).0 ≡ some x)
          × (is_circuit_open x ≡ true))
unfolding is_circuit_open
after_plain t last r err b e q =
    elim (Bool-cases (not (can_execute t.asked_at b) && retry_after_of (some err) == 0)) [
      | inl w ↦ inr (circuit_open_after err, ground arith, refl)
      | inr w ↦ inl (ground arith)
    ]

after_error :
    (t : Times) (last r : Option Failure) (o : Outcome) (b : Breaker)
    → o ≡ outcome_of r
    → ((after_breaker t last (o, b)).0 ≡ r)
      ⊎ ((err : Failure) × ((after_breaker t last (o, b)).0 ≡ some err)
          × (is_circuit_open err ≡ true))
unfolding is_circuit_open
after_error t last none succeeded b e = inl refl
after_error t last none (failed err) b e = absurd (ground arith)
after_error t last none panicked b e = absurd (ground arith)
after_error t last (some r) succeeded b e = absurd (ground arith)
after_error t last (some r) panicked b e = absurd (ground arith)
after_error t none (some r) (failed err) b e = elim (Bool-cases (is_circuit_open err)) [
  | inl q ↦ inr (err, ground arith, q)
  | inr q ↦ after_plain t none r err b e q
]
after_error t (some l) (some r) (failed err) b e = elim (Bool-cases (is_circuit_open err)) [
  | inl q ↦ inr (circuit_open_after l, ground arith, refl)
  | inr q ↦ after_plain t (some l) r err b e q
]

-- A success is an answer with a 2xx status.
pub accepted :
    (guidance : Text) (a : HttpAnswer)
    → execute_and_parse guidance a ≡ none
    → (status : ℕ) × (wait : ℕ) × (message : Text) × (readable : Bool) × (a
        ≡ answered status wait message readable)
      × (200 ≤ status)
      × (status < 300)
unfolding execute_and_parse
accepted guidance (no_answer cause) e = absurd (ground arith)
accepted guidance (answered status wait message readable) e =
    (status, wait, message, readable, refl, ground arith, ground arith)

-- What the breaker hands back after a request was sent: the request's own result, or an error that
-- says that the breaker is open.
pub sent_error :
    (times : ℕ → Times) (post : ℕ → Option Failure) (i : ℕ) (p : CallState)
    → was_sent (admit (times i).admitted_at p.breaker).0 ≡ true
    → ((attempt_through_breaker times post i p).0 ≡ post i)
      ⊎ ((err : Failure) × ((attempt_through_breaker times post i p).0 ≡ some err)
          × (is_circuit_open err ≡ true))
unfolding attempt_through_breaker
sent_error times post i p h =
    let t = times i in
    let r =
      execute_honoring_retry_after t.admitted_at (outcome_of (post i)) t.clock t.held_at
        p.breaker in
    after_error t p.last_failure (post i) r.0 r.1
      (admitted_outcome t.admitted_at t.held_at (outcome_of (post i)) t.clock p.breaker h)

-- An attempt that the breaker refuses ends with an error that says so.
pub refused_error :
    (times : ℕ → Times) (post : ℕ → Option Failure) (i : ℕ) (p : CallState)
    → was_sent (admit (times i).admitted_at p.breaker).0 ≡ false
    → (err : Failure) × ((attempt_through_breaker times post i p).0 ≡ some err)
      × (is_circuit_open err ≡ true)
unfolding is_circuit_open
refused_error times post i p h =
    let e =
      refused_attempt times post i p (refused_cases (admit (times i).admitted_at p.breaker).0 h) in
    elim (Option-cases p.last_failure) [
      | inl l ↦ (circuit_open, ground arith, refl)
      | inr (cause, l) ↦ (circuit_open_after cause, ground arith, refl)
    ]
