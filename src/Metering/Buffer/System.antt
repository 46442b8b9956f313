-- ===== src/Metering/Buffer/System.antt =====
-- A buffer with the sends and the flush that run beside it. A step is one critical section
-- under `b.mu`, so any interleaving of goroutines is a list of steps; but the sends of a flush's
-- window, the counters that `settle` adds to outside of `b.mu`, and `releaseSettled` are one step. At
-- most one flush runs at a time, since it holds `flushMu`.
pub mod Limits
pub mod Books
pub mod Windows
pub mod Goodness
pub mod Bounds
use revenium_go_sdk.Base.{
  ℕ, zero, suc, ◌+◌, List, [], ◌∷◌, ◌++◌, Bool, true, false, Option, none, some, get_elem?, set,
  if◌then◌else◌, length, take, drop, Unicode, is_empty,
}
use revenium_go_sdk.Core.Errors.{Failure}
use revenium_go_sdk.Metering.Buffer.{
  Buffer, SendReservation, push, reserve_for_send, release, hold, take_pending, new_buffer,
}
use revenium_go_sdk.Metering.Buffer.Replay.{
  Sent, Sender, settle, release_settled, settle_window, put_back, send_all,
}
use revenium_go_sdk.Metering.Record.{BufferedEvent, replay_concurrency, BufferLimits}

-- Where a flush is: before `takePending`, in the loop of `replay`, or before `putBack`.
pub data Flushing : Type 0 where
  idle : Flushing
  resending : ℕ → ℕ → List BufferedEvent → Flushing
  returning : List BufferedEvent → Flushing

pub record System : Type 0 where
  pub buffer : Buffer
  pub reservations : List SendReservation
  pub flushing : Flushing
  -- Counted for the statements only: the records that came in, and those whose reservation was
  -- released because their first send ended with no need to hold them.
  pub accepted : ℕ
  pub finished : ℕ

pub data Event : Type 0 where
  pushes : ℕ → BufferedEvent → Event
  reserves : ℕ → Event
  releases : ℕ → Event
  holds : ℕ → ℕ → BufferedEvent → Event
  takes : ℕ → Event
  resends : Sender → Event
  returns : Event

abbrev pub reserved_by : Option SendReservation × Buffer → System → System
reserved_by (none, b) s = record s { buffer = b; accepted = suc s.accepted }
reserved_by (some r, b) s = record s {
  buffer = b;
  accepted = suc s.accepted;
  reservations = r ∷ s.reservations;
}

-- A call of a method of the i-th reservation.
abbrev pub used : ℕ → SendReservation × Buffer → System → System
used i (r, b) s = record s { buffer = b; reservations = set s.reservations i r }

abbrev pub released_by : Option SendReservation → ℕ → System → System
released_by none i s = s
released_by (some r) i s = record (used i (release r s.buffer) s) {
  finished = if r.settled then s.finished else suc s.finished;
}

abbrev pub held_by : Option SendReservation → ℕ → ℕ → BufferedEvent → System → System
held_by none i now e s = s
held_by (some r) i now e s = used i (hold now e r s.buffer) s

-- `flush` returns at once if nothing is pending.
abbrev pub flush_state : List BufferedEvent → Flushing
flush_state [] = idle
flush_state (e ∷ es) = resending 0 1 (e ∷ es)

abbrev pub took : List BufferedEvent × Buffer → System → System
took (pending, b) s = record s { buffer = b; flushing = flush_state pending }

abbrev pub takes_if_idle : Flushing → ℕ → System → System
takes_if_idle idle now s = took (take_pending now s.buffer) s
takes_if_idle _ now s = s

abbrev pub window_done : ℕ → List BufferedEvent → List BufferedEvent × Buffer → System → System
window_done start rest ([], b) s = record s {
  buffer = b;
  flushing = resending start replay_concurrency rest;
}
window_done start rest (k ∷ ks, b) s = record s {
  buffer = b;
  flushing = returning ((k ∷ ks) ++ rest);
}

abbrev pub window : Unicode → Sender → Flushing → System → System
window u send idle s = s
window u send (returning kept) s = s
window u send (resending start size []) s = record s { flushing = returning [] }
window u send (resending start size (e ∷ es)) s =
    let batch = take size (e ∷ es) in
    window_done (start + size) (drop size (e ∷ es))
      (settle_window u batch (send_all send start batch) s.buffer) s

abbrev pub returns_kept : Flushing → System → System
returns_kept (returning kept) s = record s { buffer = put_back kept s.buffer; flushing = idle }
returns_kept _ s = s

unfoldable pub step : Unicode → System → Event → System
unfolding push reserve_for_send
step u s (pushes now e) = record s { buffer = push now e s.buffer; accepted = suc s.accepted }
step u s (reserves size) = reserved_by (reserve_for_send size s.buffer) s
step u s (releases i) = released_by (get_elem? s.reservations i) i s
step u s (holds i now e) = held_by (get_elem? s.reservations i) i now e s
step u s (takes now) = takes_if_idle s.flushing now s
step u s (resends send) = window u send s.flushing s
step u s returns = returns_kept s.flushing s

unfoldable pub run : Unicode → System → List Event → System
unfolding step
run u s [] = s
run u s (e ∷ es) = run u (step u s e) es

unfoldable pub start : BufferLimits → System
unfolding new_buffer
start l = record {
  buffer = new_buffer l;
  reservations = [];
  flushing = idle;
  accepted = 0;
  finished = 0;
}
