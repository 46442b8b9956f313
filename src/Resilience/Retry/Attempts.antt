-- ===== src/Resilience/Retry/Attempts.antt =====
-- How often a call is made, and what is returned.
use revenium_go_sdk.Base.{
  ℕ, zero, suc, ◌+◌, ◌-◌, ◌≤◌, ◌<◌, ◌≡◌, Bool, true, false, List, [], ◌∷◌, Option, none, some,
  arith, Unicode, length, ◌⊎◌, Bool-cases, inl, inr,
}
use revenium_go_sdk.Core.Errors.{Failure, retries_exhausted, is_circuit_open}
use revenium_go_sdk.Resilience.Classify.{retry_after_of}
use revenium_go_sdk.Resilience.Retry.{
  RetryConfig, Env, Finished, retries, retry_loop, with_retry, retry_loop_by, with_retry_by,
  calculate_delay, settle_attempt, call_unless, wait_unless,
}

module _ {S : Type 0} (u : Unicode) (c : RetryConfig) (may : S → Failure → Bool) (env : Env)
    (fn : ℕ → S → Option Failure × S) where
  -- What holds of every way in which an attempt can end holds of the attempt.
  settle_rule :
      (P : Finished S → Type 0) (r : Option Failure × S) (waits : List ℕ)
      (again : Failure → S → Finished S)
      → ((e : Option Failure) → P (record { error = e; waits = waits; state = r.1 }))
      → ((err : Failure) → P (again err r.1))
      → P (settle_attempt u c may env fn r waits again)
  settle_rule P (none, s) waits again done more = done none
  settle_rule P (some err, s) waits again done more = elim (Bool-cases (may s err)) [
    | inl y ↦ rw y (more err)
    | inr n ↦ rw n (done (some err))
  ]

  call_rule :
      (P : Finished S → Type 0) (o : Option Failure) (i : ℕ) (waits : List ℕ) (s : S)
      (again : Failure → S → Finished S)
      → ((e : Option Failure) → P (record { error = e; waits = waits; state = s }))
      → ((e : Option Failure) → P (record { error = e; waits = waits; state = (fn i s).1 }))
      → ((err : Failure) → P (again err (fn i s).1))
      → P (call_unless u c may env fn o i waits s again)
  call_rule P (some ended) i waits s again stop done more = stop (some ended)
  call_rule P none i waits s again stop done more = settle_rule P (fn i s) waits again done more

  wait_rule :
      (P : Finished S → Type 0) (o : Option Failure) (i : ℕ) (waits : List ℕ) (s : S)
      (again : Failure → S → Finished S)
      → ((e : Option Failure) → P (record { error = e; waits = waits; state = s }))
      → ((e : Option Failure) → P (record { error = e; waits = waits; state = (fn i s).1 }))
      → ((err : Failure) → P (again err (fn i s).1))
      → P (wait_unless u c may env fn o i waits s again)
  wait_rule P (some ended) i waits s again stop done more = stop (some ended)
  wait_rule P none i waits s again stop done more =
      call_rule P (env.ended_before i) i waits s again stop done more

  -- At most `calls` calls by the measure m, and `slots` waits.
  abbrev Within : (S → ℕ) → ℕ → ℕ → Finished S → Type 0
  Within m calls slots r = (m r.state ≤ calls) × (length r.waits ≤ slots)

  module _ (m : S → ℕ) (h : (i : ℕ) (s : S) → m (fn i s).1 ≤ suc (m s)) where
    loop_counts :
        (left i : ℕ) (waits : List ℕ) (last : Failure) (s : S)
        → Within m
            (m s + left)
            (length waits + left)
            (retry_loop_by u c may env fn left i waits last s)
    unfolding retry_loop_by
    loop_counts zero i waits last s = (omega arith, omega arith)
    loop_counts (suc left) i waits last s =
        let waits' = calculate_delay u (env.jitter i) (i - 1) c last ∷ waits in
        wait_rule (Within m (m s + suc left) (length waits + suc left)) (env.ends_in_wait i) i
          waits' s (retry_loop_by u c may env fn left (suc i) waits')
          (λ e. (omega arith, omega arith)) (λ e. (omega (arith, h i s), omega arith))
          (λ err. omega (arith, h i s, loop_counts left (suc i) waits' err (fn i s).1))

    pub counts :
        (s : S)
        → (m (with_retry_by u c may env fn s).state ≤ m s + suc c.max_retries)
          × (length (with_retry_by u c may env fn s).waits ≤ c.max_retries)
    unfolding with_retry_by
    counts s =
        call_rule (Within m (m s + suc c.max_retries) c.max_retries) (env.ended_before 0) 0 [] s
          (retry_loop_by u c may env fn c.max_retries 1 []) (λ e. (omega arith, omega arith))
          (λ e. (omega (arith, h 0 s), omega arith))
          (λ err. omega (arith, h 0 s, loop_counts c.max_retries 1 [] err (fn 0 s).1))

module _ {S : Type 0} (u : Unicode) (c : RetryConfig) (env : Env)
    (fn : ℕ → S → Option Failure × S) where
  -- The function is called at most max_retries + 1 times, by any measure that a call raises by one at
  -- most, and there are at most max_retries waits between the calls.
  pub attempts_bounded :
      (m : S → ℕ)
      → ((i : ℕ) (s : S) → m (fn i s).1 ≤ suc (m s))
      → (s : S)
      → (m (with_retry u c env fn s).state ≤ m s + suc c.max_retries)
        × (length (with_retry u c env fn s).waits ≤ c.max_retries)
  attempts_bounded m h s = counts u c (λ s. retries u c) env fn m h s

  -- A failure that may not be retried is returned at once: an open breaker, a wait longer than the
  -- longest delay, or one that the filter for what may be retried refuses.
  pub forbidden_retry_returns :
      (s : S) (err : Failure)
      → env.ended_before 0 ≡ none
      → (fn 0 s).0 ≡ some err
      → (is_circuit_open err ≡ true)
        ⊎ ((c.max_delay < retry_after_of (some err))
            ⊎ ((f : Failure → Bool) × (c.retry_only ≡ some f) × (f err ≡ false)))
      → with_retry u c env fn s ≡ record { error = some err; waits = []; state = (fn 0 s).1 }
  unfolding with_retry_by retries
  forbidden_retry_returns s err o e (inl b) = ground arith
  forbidden_retry_returns s err o e (inr (inl b)) = ground arith
  forbidden_retry_returns s err o e (inr (inr (f, g, r))) = ground arith

  -- Where no context ends and every call fails with an error that may be retried, all attempts are
  -- made, and the error that is returned wraps the last failure.
  module _ (err : ℕ → Failure) (fails : (i : ℕ) (s : S) → (fn i s).0 ≡ some (err i))
      (again : (i : ℕ) → retries u c (err i) ≡ true)
      (open_wait : (i : ℕ) → env.ends_in_wait i ≡ none)
      (open_call : (i : ℕ) → env.ended_before i ≡ none) where
    loop_exhausts :
        (left i : ℕ) (waits : List ℕ) (s : S)
        → ((retry_loop u c env fn left (suc i) waits (err i) s).error
            ≡ some (retries_exhausted c.max_retries (err (i + left))))
          × (length (retry_loop u c env fn left (suc i) waits (err i) s).waits
              ≡ length waits + left)
    unfolding retry_loop_by
    loop_exhausts zero i waits s = ground arith
    loop_exhausts (suc left) i waits s =
        let waits' = calculate_delay u (env.jitter (suc i)) (suc i - 1) c (err i) ∷ waits in
        ground (
          arith,
          fails (suc i) s,
          again (suc i),
          open_wait (suc i),
          open_call (suc i),
          loop_exhausts left (suc i) waits' (fn (suc i) s).1,
        )

    pub exhausted_wraps_last :
        (s : S)
        → ((with_retry u c env fn s).error
            ≡ some (retries_exhausted c.max_retries (err c.max_retries)))
          × (length (with_retry u c env fn s).waits ≡ c.max_retries)
    unfolding with_retry_by
    exhausted_wraps_last s =
        ground (arith, fails 0 s, again 0, open_call 0, loop_exhausts c.max_retries 0 [] (fn 0 s).1)
