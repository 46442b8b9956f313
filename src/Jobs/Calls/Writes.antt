-- ===== src/Jobs/Calls/Writes.antt =====
-- How often a write that is not safe to repeat is applied.
use revenium_go_sdk.Base.{
  ℕ, suc, ◌≤◌, ◌<◌, ◌≡◌, refl, ◌∙◌, sym, ap, subst, Bool, true, Option, none, some, arith, Unicode,
  Text, Bool-cases, Option-cases, inl, inr,
}
use revenium_go_sdk.Core.Errors.{Failure}
use revenium_go_sdk.Resilience.Breaker.{admit}
use revenium_go_sdk.Resilience.BreakerState.{Breaker}
use revenium_go_sdk.Resilience.Retry.{RetryConfig, Times, retries}
use revenium_go_sdk.Resilience.Retry.Rules.{retry_keeps}
use revenium_go_sdk.Jobs.WriteSafety.{refused_before_applying}
use revenium_go_sdk.Jobs.Calls.{
  HttpAnswer, answered, execute_and_parse, JobCall, was_sent, begun, attempt, posted, write_config,
  do_write_not_safe_to_repeat,
}
use revenium_go_sdk.Jobs.Calls.Sent.{refusal_is_429, accepted, sent_error, refused_error}

-- The server applied a call exactly once, or if it failed once at most; n were applied before.
abbrev pub AtMostOnce : {W : Type 0} → (W → ℕ) → ℕ → Option Failure → JobCall W → Type 0
AtMostOnce applied n none s = applied s.world ≡ suc n
AtMostOnce applied n (some err) s = applied s.world ≤ suc n

module _ (u : Unicode) (c : RetryConfig) (jitter : ℕ → ℕ → ℕ) (times : ℕ → Times) (guidance : Text)
    {W : Type 0} (serve : ℕ → W → HttpAnswer × W) where
  abbrev run_attempt : JobCall W → ℕ → Option Failure × JobCall W
  run_attempt s i = attempt times (posted guidance serve) i s

  abbrev is_sent : JobCall W → ℕ → Bool
  is_sent s i = was_sent (admit (times i).admitted_at s.path.breaker).0

  -- A success, or a failure that may be retried, is the answer to a request that was sent.
  retry_was_sent :
      (i : ℕ) (s : JobCall W) (err : Failure)
      → (run_attempt s i).0 ≡ some err
      → retries u (write_config c) err ≡ true
      → (is_sent s i ≡ true)
        × (execute_and_parse guidance (serve i s.world).0 ≡ some err)
        × (refused_before_applying err ≡ true)
  unfolding attempt retries
  retry_was_sent i s err e r =
      let answer = λ (j : ℕ). execute_and_parse guidance (serve i s.world).0 in
      elim (Bool-cases (is_sent s i)) [
        | inl q ↦ elim (sent_error times answer i s.path q) [
          | inl same ↦ (q, ground arith, ground arith)
          | inr (x, f, o) ↦ absurd (ground arith)
        ]
        | inr q ↦ let (x, f, o) = refused_error times answer i s.path q in absurd (ground arith)
      ]

  success_was_sent :
      (i : ℕ) (s : JobCall W)
      → (run_attempt s i).0 ≡ none
      → (is_sent s i ≡ true) × (execute_and_parse guidance (serve i s.world).0 ≡ none)
  unfolding attempt
  success_was_sent i s e =
      let answer = λ (j : ℕ). execute_and_parse guidance (serve i s.world).0 in
      elim (Bool-cases (is_sent s i)) [
        | inl q ↦ elim (sent_error times answer i s.path q) [
          | inl same ↦ (q, ground arith)
          | inr (x, f, o) ↦ absurd (ground arith)
        ]
        | inr q ↦ let (x, f, o) = refused_error times answer i s.path q in absurd (ground arith)
      ]

  module _ (applied : W → ℕ) (once : (i : ℕ) (w : W) → applied (serve i w).1 ≤ suc (applied w))
      (refusal : (i : ℕ) (w : W) (wait : ℕ) (message : Text) (readable : Bool)
        → (serve i w).0 ≡ answered 429 wait message readable
        → applied (serve i w).1 ≡ applied w)
      (acceptance : (i : ℕ) (w : W) (status wait : ℕ) (message : Text) (readable : Bool)
        → (serve i w).0 ≡ answered status wait message readable
        → 200 ≤ status
        → status < 300
        → applied (serve i w).1 ≡ suc (applied w)) where
    attempt_raises :
        (i : ℕ) (s : JobCall W) → applied (run_attempt s i).1.world ≤ suc (applied s.world)
    unfolding attempt
    attempt_raises i s = ground (arith, once i s.world)

    success_applies :
        (i : ℕ) (s : JobCall W)
        → (run_attempt s i).0 ≡ none
        → applied (run_attempt s i).1.world ≡ suc (applied s.world)
    unfolding attempt
    success_applies i s e =
        let (q, a) = success_was_sent i s e in
        let (status, wait, message, readable, f, lo, hi) =
          accepted guidance (serve i s.world).0 a in
        ground (arith, acceptance i s.world status wait message readable f lo hi)

    again_keeps :
        (i : ℕ) (s : JobCall W) (err : Failure)
        → (run_attempt s i).0 ≡ some err
        → retries u (write_config c) err ≡ true
        → applied (run_attempt s i).1.world ≡ applied s.world
    unfolding attempt
    again_keeps i s err e r =
        let (q, a, n) = retry_was_sent i s err e r in
        let (wait, message, readable, f) = refusal_is_429 guidance (serve i s.world).0 err a n in
        ground (arith, refusal i s.world wait message readable f)

    ends_once :
        (n i : ℕ) (s : JobCall W)
        → applied s.world ≡ n
        → AtMostOnce applied n (run_attempt s i).0 (run_attempt s i).1
    ends_once n i s h = elim (Option-cases (run_attempt s i).0) [
      | inl e ↦
          subst (λ x. AtMostOnce applied n x (run_attempt s i).1) (sym e)
            (success_applies i s e ∙ ap suc h)
      | inr (err, e) ↦
          let l = attempt_raises i s in
          subst (λ x. AtMostOnce applied n x (run_attempt s i).1) (sym e) (omega arith)
    ]

    -- What doWriteNotSafeToRepeat sends, with its retries, is applied once at most, and exactly once
    -- if the call succeeds.
    pub write_applied_once :
        (b : Breaker) (w : W)
        → AtMostOnce applied
            (applied w)
            (do_write_not_safe_to_repeat u c jitter times (posted guidance serve) b w).error
            (do_write_not_safe_to_repeat u c jitter times (posted guidance serve) b w).state
    write_applied_once b w =
        retry_keeps u c (λ s. retries u (write_config c)) jitter
          (attempt times (posted guidance serve)) (λ s. applied s.world ≡ applied w)
          (AtMostOnce applied (applied w)) (λ i s h f. ends_once (applied w) i s h)
          (λ i s err h e y. let k = again_keeps i s err e y in (k ∙ h, omega arith)) (begun b w)
          refl
