-- ===== src/Metering/Client/Matched.antt =====
-- Each job and its reservation agree on whether the reservation is settled, so that what the buffer
-- counts as being sent are the records that the jobs still owe.
use revenium_go_sdk.Base.{
  ℕ, zero, suc, ◌+◌, ◌≡◌, refl, List, [], ◌∷◌, Bool, true, false, not, Option, none, some,
  get_elem?, update_at, Unicode, arith, Option-cases, inl, inr,
}
use revenium_go_sdk.Metering.Record.{BufferedEvent}
use revenium_go_sdk.Metering.Buffer.System.{System, step}
use revenium_go_sdk.Metering.Client.{
  Phase, begun, submitted, overflowed, panicked, settled, closing, ended, Job, Direct, delivering,
  finishing, returned, Client, Delivery, ends_with, panics, ClientEvent, enqueues, begins, submits,
  overflows, delivers, releases_job, ends_job, sends_sync, delivers_sync, ends_sync, flushes_takes,
  flushes_resends, flushes_returns, to_phase, on_job, on_direct, begin_job, submit_job,
  overflow_job, deliver_job, release_job, end_job, deliver_direct, end_direct, client_step,
}
use revenium_go_sdk.Base.{set, drop, subst, sym}
use revenium_go_sdk.Metering.Buffer.Replay.{Sender}
use revenium_go_sdk.Metering.Buffer.{Buffer, SendReservation, release, hold, reserve_for_send}
use revenium_go_sdk.Metering.Buffer.System.{
  releases, holds, Flushing, window, window_done, takes_if_idle, returns_kept, idle, resending,
  returning,
}
use revenium_go_sdk.Metering.Buffer.System.Goodness.{running_sends}
use revenium_go_sdk.Metering.Client.Sends.{count_jobs}

-- The record was not handed to the buffer, nor its bytes given back.
abbrev pub owes : Phase → Bool
owes settled = false
owes closing = false
owes ended = false
owes _ = true

abbrev pub Matched : List SendReservation → List Job → Type 0
Matched [] [] = Unit {0}
Matched (r ∷ rs) (j ∷ js) = (r.settled ≡ not (owes j.phase)) × Matched rs js
Matched _ _ = ⊥

pub Matched-owed :
    (rs : List SendReservation) (js : List Job)
    → Matched rs js
    → running_sends rs ≡ count_jobs owes js
unfolding count_jobs
Matched-owed [] [] m = refl
Matched-owed [] (j ∷ js) m = absurd m
Matched-owed (r ∷ rs) [] m = absurd m
Matched-owed (r ∷ rs) (j ∷ js) m = ground (arith, Matched-owed rs js m.1)

-- A job whose phase moves on while its reservation stays as it was.
moved :
    (rs : List SendReservation) (js : List Job) (i : ℕ) (j : Job) (q : Phase)
    → Matched rs js
    → get_elem? js i ≡ some j
    → owes q ≡ owes j.phase
    → Matched rs (update_at (to_phase q) js i)
unfolding update_at
moved [] [] i j q m e k = tt
moved [] (x ∷ js) i j q m e k = absurd m
moved (r ∷ rs) [] i j q m e k = absurd m
moved (r ∷ rs) (x ∷ js) zero j q m e k = ground arith
moved (r ∷ rs) (x ∷ js) (suc i) j q m e k = (m.0, moved rs js i j q m.1 e k)

-- A job whose reservation is settled with it.
settled_with :
    (rs : List SendReservation) (js : List Job) (i : ℕ) (j : Job) (r : SendReservation) (q : Phase)
    → Matched rs js
    → get_elem? js i ≡ some j
    → get_elem? rs i ≡ some r
    → owes q ≡ false
    → Matched (set rs i (record r { settled = true })) (update_at (to_phase q) js i)
unfolding update_at
settled_with [] [] i j r q m e g k = tt
settled_with [] (x ∷ js) i j r q m e g k = absurd m
settled_with (y ∷ rs) [] i j r q m e g k = absurd m
settled_with (y ∷ rs) (x ∷ js) zero j r q m e g k = (ground arith, m.1)
settled_with (y ∷ rs) (x ∷ js) (suc i) j r q m e g k = (m.0, settled_with rs js i j r q m.1 e g k)

-- The reservation of a job.
reservation_of :
    (rs : List SendReservation) (js : List Job) (i : ℕ) (j : Job)
    → Matched rs js
    → get_elem? js i ≡ some j
    → (r : SendReservation) × (get_elem? rs i ≡ some r) × (r.settled ≡ not (owes j.phase))
reservation_of [] [] i j m e = ground arith
reservation_of [] (x ∷ js) i j m e = absurd m
reservation_of (r ∷ rs) [] i j m e = absurd m
reservation_of (r ∷ rs) (x ∷ js) zero j m e = (r, refl, ground arith)
reservation_of (r ∷ rs) (x ∷ js) (suc i) j m e = reservation_of rs js i j m.1 e

abbrev pub JobsMatched : Client → Type 0
JobsMatched s = Matched s.books.reservations s.jobs

release-settled : (r : SendReservation) (b : Buffer) → (release r b).0 ≡ record r { settled = true }
unfolding release
release-settled r b = ground arith

hold-settled :
    (now : ℕ) (e : BufferedEvent) (r : SendReservation) (b : Buffer)
    → (hold now e r b).0 ≡ record r { settled = true }
unfolding hold
hold-settled now e r b = ground arith

-- A flush leaves the reservations alone.
takes-reservations :
    (s : System) (now : ℕ) (f : Flushing) → (takes_if_idle f now s).reservations ≡ s.reservations
takes-reservations s now idle = refl
takes-reservations s now (resending a b c) = refl
takes-reservations s now (returning c) = refl

window_done-reservations :
    (s : System) (a : ℕ) (rest kept : List BufferedEvent) (b : Buffer)
    → (window_done a rest (kept, b) s).reservations ≡ s.reservations
window_done-reservations s a rest [] b = refl
window_done-reservations s a rest (k ∷ ks) b = refl

window-reservations :
    (u : Unicode) (send : Sender) (s : System) (f : Flushing)
    → (window u send f s).reservations ≡ s.reservations
window-reservations u send s idle = refl
window-reservations u send s (returning kept) = refl
window-reservations u send s (resending a n []) = refl
window-reservations u send s (resending a n (e ∷ es)) =
    window_done-reservations s (a + n) (drop n (e ∷ es)) _ _

returns-reservations :
    (s : System) (f : Flushing) → (returns_kept f s).reservations ≡ s.reservations
returns-reservations s idle = refl
returns-reservations s (resending a b c) = refl
returns-reservations s (returning kept) = refl

module _ (u : Unicode) (s : Client) (m : JobsMatched s) where
  released_by_job :
      (i : ℕ) (j : Job) (q : Phase)
      → get_elem? s.jobs i ≡ some j
      → owes q ≡ false
      → Matched (step u s.books (releases i)).reservations (update_at (to_phase q) s.jobs i)
  unfolding step
  released_by_job i j q e k =
      let (r, g, v) = reservation_of s.books.reservations s.jobs i j m e in
      let w = settled_with s.books.reservations s.jobs i j r q m e g k in
      let x = release-settled r s.books.buffer in ground arith

  held_by_job :
      (i now : ℕ) (j : Job) (q : Phase)
      → get_elem? s.jobs i ≡ some j
      → owes q ≡ false
      → Matched
          (step u s.books (holds i now j.event)).reservations
          (update_at (to_phase q) s.jobs i)
  unfolding step
  held_by_job i now j q e k =
      let (r, g, v) = reservation_of s.books.reservations s.jobs i j m e in
      let w = settled_with s.books.reservations s.jobs i j r q m e g k in
      let x = hold-settled now j.event r s.books.buffer in ground arith

  at_job :
      (f : Job → ℕ → Client → Client) (i : ℕ)
      → ((j : Job) → get_elem? s.jobs i ≡ some j → JobsMatched (f j i s))
      → JobsMatched (on_job f (get_elem? s.jobs i) i s)
  at_job f i k = elim (Option-cases (get_elem? s.jobs i)) [
    | inl e ↦ ground arith
    | inr (j, e) ↦ let r = k j e in ground arith
  ]

  enqueued : (e : BufferedEvent) → JobsMatched (client_step u s (enqueues e))
  unfolding client_step step reserve_for_send
  enqueued e = ground arith

  direct_keeps :
      (i now : ℕ) (d : Delivery) (o : Option Direct)
      → JobsMatched (on_direct (deliver_direct u now d) o i s)
  unfolding step
  direct_keeps i now d none = m
  direct_keeps i now (ends_with none) (some (delivering e)) = m
  direct_keeps i now (ends_with (some err)) (some (delivering e)) = ground arith
  direct_keeps i now (panics true) (some (delivering e)) = m
  direct_keeps i now (panics false) (some (delivering e)) = m
  direct_keeps i now (ends_with err) (some finishing) = m
  direct_keeps i now (ends_with err) (some returned) = m
  direct_keeps i now (panics b) (some finishing) = m
  direct_keeps i now (panics b) (some returned) = m

  ended_keeps : (i : ℕ) (o : Option Direct) → JobsMatched (on_direct (end_direct u) o i s)
  ended_keeps i none = m
  ended_keeps i (some (delivering e)) = m
  ended_keeps i (some finishing) = m
  ended_keeps i (some returned) = m

  pub client_step-JobsMatched : (e : ClientEvent) → JobsMatched (client_step u s e)
  unfolding client_step step
  client_step-JobsMatched (enqueues e) = enqueued e
  client_step-JobsMatched (begins i) =
      at_job (λ j. begin_job u j.phase) i
        (λ j g. let c = moved s.books.reservations s.jobs i j begun m g in ground arith)
  client_step-JobsMatched (submits i taken room) =
      at_job (λ j. submit_job u taken room j.phase) i
        (λ j g.
          let c = moved s.books.reservations s.jobs i j submitted m g in
          let d = moved s.books.reservations s.jobs i j overflowed m g in ground arith)
  client_step-JobsMatched (overflows i now) =
      at_job (λ j. overflow_job u now j.event j.phase) i
        (λ j g. let c = held_by_job i now j closing g refl in ground arith)
  client_step-JobsMatched (delivers i now d) =
      at_job (λ j. deliver_job u now d j.event j.phase) i
        (λ j g.
          let c = held_by_job i now j settled g refl in
          let a = released_by_job i j settled g refl in
          let b = moved s.books.reservations s.jobs i j panicked m g in ground arith)
  client_step-JobsMatched (releases_job i) =
      at_job (λ j. release_job u j.phase) i
        (λ j g. let c = released_by_job i j closing g refl in ground arith)
  client_step-JobsMatched (ends_job i) =
      at_job (λ j. end_job u j.phase) i
        (λ j g. let c = moved s.books.reservations s.jobs i j ended m g in ground arith)
  client_step-JobsMatched (sends_sync e) = m
  client_step-JobsMatched (delivers_sync i now d) = direct_keeps i now d (get_elem? s.direct i)
  client_step-JobsMatched (ends_sync i) = ended_keeps i (get_elem? s.direct i)
  client_step-JobsMatched (flushes_takes now) =
      subst (λ rs. Matched rs s.jobs) (sym (takes-reservations s.books now s.books.flushing)) m
  client_step-JobsMatched (flushes_resends send) =
      subst (λ rs. Matched rs s.jobs) (sym (window-reservations u send s.books s.books.flushing)) m
  client_step-JobsMatched flushes_returns =
      subst (λ rs. Matched rs s.jobs) (sym (returns-reservations s.books s.books.flushing)) m
