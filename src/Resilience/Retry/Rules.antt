-- ===== src/Resilience/Retry/Rules.antt =====
-- A rule for retry loops whose context never ends: an invariant of the state before each attempt.
use revenium_go_sdk.Base.{
  ℕ, zero, suc, ◌-◌, ◌≡◌, refl, Bool, true, false, List, [], ◌∷◌, Option, none, some, Unicode,
  Bool-cases, inl, inr,
}
use revenium_go_sdk.Core.Errors.{Failure, retries_exhausted}
use revenium_go_sdk.Resilience.Retry.{
  RetryConfig, Env, Finished, retry_loop_by, with_retry_by, calculate_delay, settle_attempt,
}

-- context.Background().
abbrev pub background : (ℕ → ℕ → ℕ) → Env
background jitter = record { ends_in_wait = λ i. none; ended_before = λ i. none; jitter = jitter }

-- An attempt after which the loop ends: a success, or a failure that may not be retried.
abbrev pub Final : {S : Type 0} → (S → Failure → Bool) → Option Failure × S → Type 0
Final may (none, s) = Unit {0}
Final may (some err, s) = may s err ≡ false

module _ {S : Type 0} (u : Unicode) (c : RetryConfig) (may : S → Failure → Bool)
    (jitter : ℕ → ℕ → ℕ) (fn : ℕ → S → Option Failure × S) (I : S → Type 0)
    (Q : Option Failure → S → Type 0)
    (ends : (i : ℕ) (s : S) → I s → Final may (fn i s) → Q (fn i s).0 (fn i s).1)
    (keeps : (i : ℕ) (s : S) (err : Failure)
      → I s
      → (fn i s).0 ≡ some err
      → may (fn i s).1 err ≡ true
      → I (fn i s).1 × Q (some (retries_exhausted c.max_retries err)) (fn i s).1) where
  abbrev Holds : Finished S → Type 0
  Holds r = Q r.error r.state

  settle_keeps :
      (r : Option Failure × S) (waits : List ℕ) (again : Failure → S → Finished S)
      → (Final may r → Q r.0 r.1)
      → ((err : Failure) → r.0 ≡ some err → may r.1 err ≡ true → Holds (again err r.1))
      → Holds (settle_attempt u c may (background jitter) fn r waits again)
  settle_keeps (none, s) waits again done more = done tt
  settle_keeps (some err, s) waits again done more = elim (Bool-cases (may s err)) [
    | inl y ↦ rw y (more err refl y)
    | inr n ↦ rw n (done n)
  ]

  loop_keeps :
      (left i : ℕ) (waits : List ℕ) (last : Failure) (s : S)
      → I s
      → Q (some (retries_exhausted c.max_retries last)) s
      → Holds (retry_loop_by u c may (background jitter) fn left i waits last s)
  unfolding retry_loop_by
  loop_keeps zero i waits last s h q = q
  loop_keeps (suc left) i waits last s h q =
      let waits' = calculate_delay u (jitter i) (i - 1) c last ∷ waits in
      settle_keeps (fn i s) waits'
        (retry_loop_by u c may (background jitter) fn left (suc i) waits') (ends i s h)
        (λ err e y.
          let (h', q') = keeps i s err h e y in loop_keeps left (suc i) waits' err (fn i s).1 h' q')

  -- What the invariant gives of every way in which an attempt ends holds of the whole call.
  pub retry_keeps : (s : S) → I s → Holds (with_retry_by u c may (background jitter) fn s)
  unfolding with_retry_by
  retry_keeps s h =
      settle_keeps (fn 0 s) [] (retry_loop_by u c may (background jitter) fn c.max_retries 1 [])
        (ends 0 s h)
        (λ err e y.
          let (h', q') = keeps 0 s err h e y in loop_keeps c.max_retries 1 [] err (fn 0 s).1 h' q')
