-- ===== src/Metering/Buffer/System/Goodness.antt =====
-- The invariant of the buffer with its sends and its flush, kept by every step.
use mathlib.Core.Path.{subst₂}
use revenium_go_sdk.Base.{
  ℕ, zero, suc, ◌+◌, ◌<◌, ◌≡◌, refl, inl, inr, List, [], ◌∷◌, true, false, arith, length, drop,
  take, if◌then◌else◌, length-append, some, Unicode, get_elem?, set, Option-cases, Bool-cases, ◌∙◌,
  sym,
}
use revenium_go_sdk.Metering.Buffer.{
  Buffer, SendReservation, release, hold, take_pending, new_buffer,
}
use revenium_go_sdk.Metering.Buffer.Replay.{Sender, settle_window, send_all}
use revenium_go_sdk.Metering.Record.{BufferedEvent, BufferLimits, total_held_bytes}
use revenium_go_sdk.Metering.Buffer.Evicting.{total-append}
use revenium_go_sdk.Metering.Buffer.System.{
  Flushing, idle, resending, returning, System, Event, pushes, reserves, releases, holds, takes,
  resends, returns, step, run, start, took, held_by, released_by, takes_if_idle, window,
  window_done, returns_kept,
}
use revenium_go_sdk.Metering.Buffer.System.Books.{
  Balanced, ledger, push-Balanced, reserve-Balanced, take-Balanced, put_back-Balanced,
  release_send-Balanced, hold_sent-Balanced,
}
use revenium_go_sdk.Metering.Buffer.System.Limits.{
  limits-push, limits-reserve, limits-release_send, limits-hold_sent, limits-take, limits-put_back,
}
use revenium_go_sdk.Metering.Buffer.System.Windows.{
  batch-Balanced, take-drop-length, take-drop-total,
}

abbrev pub flying : Flushing → List BufferedEvent
flying idle = []
flying (resending i window pending) = pending
flying (returning kept) = kept

-- The bytes and the number of the reservations that are not settled.
abbrev pub reserved_bytes : List SendReservation → ℕ
reserved_bytes [] = 0
reserved_bytes (r ∷ rs) = if r.settled then reserved_bytes rs else r.size + reserved_bytes rs

abbrev pub running_sends : List SendReservation → ℕ
running_sends [] = 0
running_sends (r ∷ rs) = if r.settled then running_sends rs else suc (running_sends rs)

pub record Good (l : BufferLimits) (s : System) : Type 0 where
  pub balanced :
      Balanced
        (length (flying s.flushing))
        (total_held_bytes (flying s.flushing))
        (reserved_bytes s.reservations)
        s.buffer
  pub complete : ledger s.buffer + running_sends s.reservations + s.finished ≡ s.accepted
  pub limits : s.buffer.limits ≡ l

set_settled :
    (rs : List SendReservation) (i : ℕ) (r : SendReservation)
    → get_elem? rs i ≡ some r
    → r.settled ≡ false
    → let rs' = set rs i (record r { settled = true }) in
      (reserved_bytes rs ≡ r.size + reserved_bytes rs')
      × (running_sends rs ≡ suc (running_sends rs'))
set_settled [] i r e h = ground arith
set_settled (x ∷ rs) zero r e h = ground arith
set_settled (x ∷ rs) (suc i) r e h = ground (arith, set_settled rs i r e h)

set_same :
    (rs : List SendReservation) (i : ℕ) (r : SendReservation)
    → get_elem? rs i ≡ some r
    → set rs i r ≡ rs
set_same [] i r e = refl
set_same (x ∷ rs) zero r e = ground arith
set_same (x ∷ rs) (suc i) r e = ground (arith, set_same rs i r e)

module _ (u : Unicode) (l : BufferLimits) (s : System) (g : Good l s) where
  abbrev counts : ℕ
  counts = length (flying s.flushing)

  abbrev bytes : ℕ
  bytes = total_held_bytes (flying s.flushing)

  pushes-Good : (now : ℕ) (e : BufferedEvent) → Good l (step u s (pushes now e))
  unfolding step
  pushes-Good now e =
      let (v, n) =
        push-Balanced counts bytes (reserved_bytes s.reservations) s.buffer g.balanced now e in
      record {
        balanced = v;
        complete = omega (arith, n, g.complete);
        limits = limits-push s.buffer now e ∙ g.limits;
      }

  reserves-Good : (size : ℕ) → Good l (step u s (reserves size))
  unfolding step
  reserves-Good size = ground (
    arith,
    g.balanced,
    g.complete,
    g.limits,
    limits-reserve s.buffer size,
    reserve-Balanced counts bytes (reserved_bytes s.reservations) s.buffer g.balanced size,
  )

  -- A call on a reservation that is not settled.
  unsettled :
      (i : ℕ) (r : SendReservation)
      → get_elem? s.reservations i ≡ some r
      → r.settled ≡ false
      → let rs = set s.reservations i (record r { settled = true }) in
        Balanced counts bytes (r.size + reserved_bytes rs) s.buffer
        × (running_sends s.reservations ≡ suc (running_sends rs))
  unsettled i r e h = let (p, q) = set_settled s.reservations i r e h in (rw p at g.balanced, q)

  released-Good :
      (i : ℕ) (r : SendReservation)
      → get_elem? s.reservations i ≡ some r
      → Good l (released_by (some r) i s)
  unfolding release
  released-Good i r e = elim (Bool-cases r.settled) [
    | inl done ↦ ground (arith, set_same s.reservations i r e, g.balanced, g.complete, g.limits)
    | inr live ↦
        let rs = set s.reservations i (record r { settled = true }) in
        let (v, q) = unsettled i r e live in
        ground (
          arith,
          g.complete,
          g.limits,
          q,
          release_send-Balanced counts bytes (reserved_bytes rs) s.buffer r.size v,
          limits-release_send s.buffer r.size,
        )
  ]

  held-Good :
      (i now : ℕ) (x : BufferedEvent) (r : SendReservation)
      → get_elem? s.reservations i ≡ some r
      → Good l (held_by (some r) i now x s)
  unfolding hold
  held-Good i now x r e = elim (Bool-cases r.settled) [
    | inl done ↦ ground (arith, set_same s.reservations i r e, g.balanced, g.complete, g.limits)
    | inr live ↦
        let rs = set s.reservations i (record r { settled = true }) in
        let (v, q) = unsettled i r e live in
        ground (
          arith,
          g.complete,
          g.limits,
          q,
          hold_sent-Balanced counts bytes (reserved_bytes rs) s.buffer now x r.size v,
          limits-hold_sent s.buffer now x r.size,
        )
  ]

  takes-Good : (now : ℕ) (f : Flushing) → s.flushing ≡ f → Good l (takes_if_idle f now s)
  takes-Good now idle e =
      took-Good (take_pending now s.buffer)
        (take-Balanced counts bytes (reserved_bytes s.reservations) s.buffer g.balanced now
          (rw e refl) (rw e refl))
        (limits-take s.buffer now)
    where
      took-Good :
          (t : List BufferedEvent × Buffer)
          → (Balanced (length t.0) (total_held_bytes t.0) (reserved_bytes s.reservations) t.1
              × (ledger t.1 ≡ ledger s.buffer))
          → t.1.limits ≡ s.buffer.limits
          → Good l (took t s)
      took-Good ([], b) v m = ground (arith, v, m, g.complete, g.limits)
      took-Good (x ∷ xs, b) v m = ground (arith, v, m, g.complete, g.limits)
  takes-Good now (resending i w p) e = g
  takes-Good now (returning k) e = g

  -- After a window: `rest` is still in flight beside the records that it keeps.
  done-Good :
      (at : ℕ) (rest : List BufferedEvent) (r : List BufferedEvent × Buffer)
      → Balanced
          (length r.0 + length rest)
          (total_held_bytes r.0 + total_held_bytes rest)
          (reserved_bytes s.reservations)
          r.1
        × (ledger r.1 ≡ ledger s.buffer)
        × (r.1.limits ≡ s.buffer.limits)
      → Good l (window_done at rest r s)
  done-Good at rest ([], b) v = record {
    balanced = ground (arith, v.0);
    complete = omega (arith, v.1, g.complete);
    limits = v.2 ∙ g.limits;
  }
  done-Good at rest (k ∷ ks, b) v = record {
    balanced =
        subst₂ (λ n m. Balanced n m (reserved_bytes s.reservations) b)
          (sym (length-append (k ∷ ks) rest)) (sym (total-append (k ∷ ks) rest)) v.0;
    complete = omega (arith, v.1, g.complete);
    limits = v.2 ∙ g.limits;
  }

  resends-Good : (send : Sender) (f : Flushing) → s.flushing ≡ f → Good l (window u send f s)
  resends-Good send idle e = g
  resends-Good send (returning k) e = g
  resends-Good send (resending i w []) e = ground (arith, g.balanced, g.complete, g.limits)
  resends-Good send (resending i w (x ∷ xs)) e =
      let batch = take w (x ∷ xs) in
      let rest = drop w (x ∷ xs) in
      done-Good (i + w) rest (settle_window u batch (send_all send i batch) s.buffer) (
        batch-Balanced u send i (length rest) (total_held_bytes rest)
          (reserved_bytes s.reservations) batch s.buffer
          (rw (take-drop-length w (x ∷ xs), take-drop-total w (x ∷ xs)) (rw e at g.balanced)))

  returns-Good : (f : Flushing) → s.flushing ≡ f → Good l (returns_kept f s)
  returns-Good idle e = g
  returns-Good (resending i w p) e = g
  returns-Good (returning k) e = ground (
    arith,
    g.complete,
    g.limits,
    put_back-Balanced counts bytes (reserved_bytes s.reservations) s.buffer g.balanced k (rw e refl)
        (rw e refl),
    limits-put_back s.buffer k,
  )

  releases-Good : (i : ℕ) → Good l (step u s (releases i))
  unfolding step
  releases-Good i = elim (Option-cases (get_elem? s.reservations i)) [
    | inl e ↦ rw (e, step) g
    | inr (r, e) ↦ rw (e, step) (released-Good i r e)
  ]

  holds-Good : (i now : ℕ) (x : BufferedEvent) → Good l (step u s (holds i now x))
  unfolding step
  holds-Good i now x = elim (Option-cases (get_elem? s.reservations i)) [
    | inl e ↦ rw (e, step) g
    | inr (r, e) ↦ rw (e, step) (held-Good i now x r e)
  ]

  pub step-Good : (e : Event) → Good l (step u s e)
  unfolding step
  step-Good (pushes now x) = pushes-Good now x
  step-Good (reserves size) = reserves-Good size
  step-Good (releases i) = releases-Good i
  step-Good (holds i now x) = holds-Good i now x
  step-Good (takes now) = takes-Good now s.flushing refl
  step-Good (resends send) = resends-Good send s.flushing refl
  step-Good returns = returns-Good s.flushing refl

pub run-Good :
    (u : Unicode) (l : BufferLimits) (s : System) (es : List Event) → Good l s → Good l (run u s es)
unfolding run
run-Good u l s [] g = g
run-Good u l s (e ∷ es) g = run-Good u l (step u s e) es (step-Good u l s g e)

pub start-Good : (l : BufferLimits) → 0 < l.records → Good l (start l)
unfolding start new_buffer
start-Good l h = ground arith
