-- ===== src/Metering/Client/Sends.antt =====
-- The count of the running sends is that of the jobs and direct sends that have begun and not ended.
use revenium_go_sdk.Base.{
  ℕ, zero, suc, ◌+◌, ◌≡◌, refl, List, [], ◌∷◌, Bool, true, false, some, get_elem?, update_at,
  if◌then◌else◌, Unicode, arith, Option-cases, inl, inr,
}
use revenium_go_sdk.Metering.Record.{BufferLimits}
use revenium_go_sdk.Metering.Client.{
  Phase, reserved, begun, submitted, overflowed, panicked, settled, closing, ended, Job, Direct,
  finishing, returned, Client, ClientEvent, enqueues, begins, submits, overflows, delivers,
  releases_job, ends_job, sends_sync, delivers_sync, ends_sync, flushes_takes, flushes_resends,
  flushes_returns, to_phase, on_job, on_direct, begin_job, submit_job, overflow_job, deliver_job,
  release_job, end_job, deliver_direct, end_direct, client_step, client_run, new_client,
}

module _ (p : Phase → Bool) where
  unfoldable pub count_jobs : List Job → ℕ
  count_jobs [] = 0
  count_jobs (j ∷ js) = if p j.phase then suc (count_jobs js) else count_jobs js

  pub count_jobs-update :
      (js : List Job) (i : ℕ) (j : Job) (q : Phase)
      → get_elem? js i ≡ some j
      → count_jobs (update_at (to_phase q) js i) + (if p j.phase then 1 else 0)
        ≡ count_jobs js + (if p q then 1 else 0)
  unfolding count_jobs update_at
  count_jobs-update [] i j q e = ground arith
  count_jobs-update (k ∷ js) zero j q e = ground arith
  count_jobs-update (k ∷ js) (suc i) j q e = ground (arith, count_jobs-update js i j q e)

-- After sends.begin and before sends.end.
abbrev pub is_running : Phase → Bool
is_running reserved = false
is_running ended = false
is_running _ = true

abbrev direct_is_running : Direct → Bool
direct_is_running returned = false
direct_is_running _ = true

unfoldable pub count_direct : List Direct → ℕ
count_direct [] = 0
count_direct (d ∷ ds) = if direct_is_running d then suc (count_direct ds) else count_direct ds

count_direct-update :
    (ds : List Direct) (i : ℕ) (d q : Direct)
    → get_elem? ds i ≡ some d
    → count_direct (update_at (λ old. q) ds i) + (if direct_is_running d then 1 else 0)
      ≡ count_direct ds + (if direct_is_running q then 1 else 0)
unfolding count_direct update_at
count_direct-update [] i d q e = ground arith
count_direct-update (x ∷ ds) zero d q e = ground arith
count_direct-update (x ∷ ds) (suc i) d q e = ground (arith, count_direct-update ds i d q e)

abbrev pub SendsCounted : Client → Type 0
SendsCounted s = s.sends ≡ count_jobs is_running s.jobs + count_direct s.direct

module _ (u : Unicode) (s : Client) (h : SendsCounted s) where
  -- A step on a job that keeps the count if the job is there.
  at_job :
      (f : Job → ℕ → Client → Client) (i : ℕ)
      → ((j : Job) → get_elem? s.jobs i ≡ some j → SendsCounted (f j i s))
      → SendsCounted (on_job f (get_elem? s.jobs i) i s)
  at_job f i k = elim (Option-cases (get_elem? s.jobs i)) [
    | inl e ↦ ground arith
    | inr (j, e) ↦ let r = k j e in ground arith
  ]

  at_direct :
      (f : Direct → ℕ → Client → Client) (i : ℕ)
      → ((d : Direct) → get_elem? s.direct i ≡ some d → SendsCounted (f d i s))
      → SendsCounted (on_direct f (get_elem? s.direct i) i s)
  at_direct f i k = elim (Option-cases (get_elem? s.direct i)) [
    | inl e ↦ ground arith
    | inr (d, e) ↦ let r = k d e in ground arith
  ]

  pub client_step-SendsCounted : (e : ClientEvent) → SendsCounted (client_step u s e)
  unfolding client_step count_jobs count_direct
  client_step-SendsCounted (enqueues e) = ground arith
  client_step-SendsCounted (begins i) =
      at_job (λ j. begin_job u j.phase) i
        (λ j g. let c = count_jobs-update is_running s.jobs i j begun g in ground arith)
  client_step-SendsCounted (submits i taken room) =
      at_job (λ j. submit_job u taken room j.phase) i
        (λ j g.
          let c = count_jobs-update is_running s.jobs i j submitted g in
          let d = count_jobs-update is_running s.jobs i j overflowed g in ground arith)
  client_step-SendsCounted (overflows i now) =
      at_job (λ j. overflow_job u now j.event j.phase) i
        (λ j g. let c = count_jobs-update is_running s.jobs i j closing g in ground arith)
  client_step-SendsCounted (delivers i now d) =
      at_job (λ j. deliver_job u now d j.event j.phase) i
        (λ j g.
          let c = count_jobs-update is_running s.jobs i j settled g in
          let b = count_jobs-update is_running s.jobs i j panicked g in ground arith)
  client_step-SendsCounted (releases_job i) =
      at_job (λ j. release_job u j.phase) i
        (λ j g. let c = count_jobs-update is_running s.jobs i j closing g in ground arith)
  client_step-SendsCounted (ends_job i) =
      at_job (λ j. end_job u j.phase) i
        (λ j g. let c = count_jobs-update is_running s.jobs i j ended g in ground arith)
  client_step-SendsCounted (sends_sync e) = ground arith
  client_step-SendsCounted (delivers_sync i now d) =
      at_direct (deliver_direct u now d) i
        (λ x g. let c = count_direct-update s.direct i x finishing g in ground arith)
  client_step-SendsCounted (ends_sync i) =
      at_direct (end_direct u) i
        (λ x g. let c = count_direct-update s.direct i x returned g in ground arith)
  client_step-SendsCounted (flushes_takes now) = h
  client_step-SendsCounted (flushes_resends send) = h
  client_step-SendsCounted flushes_returns = h

run-SendsCounted :
    (u : Unicode) (es : List ClientEvent) (s : Client)
    → SendsCounted s
    → SendsCounted (client_run u s es)
unfolding client_run
run-SendsCounted u [] s h = h
run-SendsCounted u (e ∷ es) s h =
    run-SendsCounted u es (client_step u s e) (client_step-SendsCounted u s h e)

pub sends_counted :
    (u : Unicode) (l : BufferLimits) (es : List ClientEvent)
    → SendsCounted (client_run u (new_client l) es)
unfolding new_client count_jobs count_direct
sends_counted u l es = run-SendsCounted u es (new_client l) refl
