-- ===== src/Metering/Client/Owed.antt =====
-- Close counts every record that is not delivered.
use revenium_go_sdk.Base.{
  ℕ, zero, suc, ◌+◌, ◌≤◌, ◌≡◌, refl, length-update, List, [], ◌∷◌, Bool, true, false, some,
  get_elem?, update_at, length, if◌then◌else◌, Unicode, arith, Option-cases, inl, inr,
}
use revenium_go_sdk.Metering.Client.{
  Phase, reserved, begun, submitted, overflowed, panicked, settled, closing, ended, Job, Direct,
  delivering, finishing, returned, Client, ClientEvent, enqueues, begins, submits, overflows,
  delivers, releases_job, ends_job, sends_sync, delivers_sync, ends_sync, flushes_takes,
  flushes_resends, flushes_returns, to_phase, on_job, on_direct, begin_job, submit_job,
  overflow_job, deliver_job, release_job, end_job, deliver_direct, end_direct, client_step,
  client_run,
}
use revenium_go_sdk.Metering.Client.Sends.{count_jobs, count_jobs-update, is_running, count_direct}
use revenium_go_sdk.Metering.Client.Matched.{owes}

abbrev pub is_reserved : Phase → Bool
is_reserved reserved = true
is_reserved _ = false

-- A job that owes its record is running, or about to be.
pub owed_runs :
    (js : List Job) → count_jobs owes js ≤ count_jobs is_running js + count_jobs is_reserved js
unfolding count_jobs
owed_runs [] = omega arith
owed_runs (j ∷ js) = ground (arith, owed_runs js)

abbrev is_delivering : Direct → Bool
is_delivering (delivering e) = true
is_delivering _ = false

unfoldable pub being_sent : List Direct → ℕ
being_sent [] = 0
being_sent (d ∷ ds) = if is_delivering d then suc (being_sent ds) else being_sent ds

pub sent_runs : (ds : List Direct) → being_sent ds ≤ count_direct ds
unfolding being_sent count_direct
sent_runs [] = omega arith
sent_runs (d ∷ ds) = ground (arith, sent_runs ds)

being_sent-update :
    (ds : List Direct) (i : ℕ) (q : Direct)
    → is_delivering q ≡ false
    → being_sent (update_at (λ old. q) ds i) ≤ being_sent ds
unfolding being_sent update_at
being_sent-update [] i q e = omega arith
being_sent-update (x ∷ ds) zero q e = ground arith
being_sent-update (x ∷ ds) (suc i) q e = ground (arith, being_sent-update ds i q e)

-- The records that are owed, by jobs and by direct sends.
abbrev pub owed : Client → ℕ
owed s = count_jobs owes s.jobs + being_sent s.direct

abbrev pub calls : Client → ℕ
calls s = length s.jobs + length s.direct

abbrev pub OwesLess : Client → Client → Type 0
OwesLess s t = owed t + calls s ≤ owed s + calls t

module _ (u : Unicode) (s : Client) where
  at_job :
      (f : Job → ℕ → Client → Client) (i : ℕ)
      → ((j : Job) → get_elem? s.jobs i ≡ some j → OwesLess s (f j i s))
      → OwesLess s (on_job f (get_elem? s.jobs i) i s)
  at_job f i k = elim (Option-cases (get_elem? s.jobs i)) [
    | inl e ↦ ground arith
    | inr (j, e) ↦ let r = k j e in ground arith
  ]

  moves :
      (i : ℕ) (j : Job) (q : Phase)
      → get_elem? s.jobs i ≡ some j
      → (count_jobs owes (update_at (to_phase q) s.jobs i) + (if owes j.phase then 1 else 0)
          ≡ count_jobs owes s.jobs + (if owes q then 1 else 0))
        × (length (update_at (to_phase q) s.jobs i) ≡ length s.jobs)
  moves i j q g = (count_jobs-update owes s.jobs i j q g, length-update (to_phase q) s.jobs i)

  at_direct :
      (f : Direct → ℕ → Client → Client) (i : ℕ)
      → ((d : Direct) → OwesLess s (f d i s))
      → OwesLess s (on_direct f (get_elem? s.direct i) i s)
  at_direct f i k = elim (Option-cases (get_elem? s.direct i)) [
    | inl e ↦ ground arith
    | inr (d, e) ↦ let r = k d in ground arith
  ]

  step_owes : (e : ClientEvent) → OwesLess s (client_step u s e)
  unfolding client_step count_jobs being_sent
  step_owes (enqueues e) = ground arith
  step_owes (begins i) =
      at_job (λ j. begin_job u j.phase) i (λ j g. let c = moves i j begun g in ground arith)
  step_owes (submits i taken room) =
      at_job (λ j. submit_job u taken room j.phase) i
        (λ j g. let c = moves i j submitted g in let d = moves i j overflowed g in ground arith)
  step_owes (overflows i now) =
      at_job (λ j. overflow_job u now j.event j.phase) i
        (λ j g. let c = moves i j closing g in ground arith)
  step_owes (delivers i now d) =
      at_job (λ j. deliver_job u now d j.event j.phase) i
        (λ j g. let c = moves i j settled g in let b = moves i j panicked g in ground arith)
  step_owes (releases_job i) =
      at_job (λ j. release_job u j.phase) i (λ j g. let c = moves i j closing g in ground arith)
  step_owes (ends_job i) =
      at_job (λ j. end_job u j.phase) i (λ j g. let c = moves i j ended g in ground arith)
  step_owes (sends_sync e) = ground arith
  step_owes (delivers_sync i now d) = at_direct (deliver_direct u now d) i (λ x.
      let c = being_sent-update s.direct i finishing refl in
      let l = length-update (λ old. finishing) s.direct i in ground arith)
  step_owes (ends_sync i) = at_direct (end_direct u) i (λ x.
      let c = being_sent-update s.direct i returned refl in
      let l = length-update (λ old. returned) s.direct i in ground arith)
  step_owes (flushes_takes now) = omega arith
  step_owes (flushes_resends send) = omega arith
  step_owes flushes_returns = omega arith

pub run_owes : (u : Unicode) (es : List ClientEvent) (s : Client) → OwesLess s (client_run u s es)
unfolding client_run
run_owes u [] s = omega arith
run_owes u (e ∷ es) s = omega (arith, step_owes u s e, run_owes u es (client_step u s e))
