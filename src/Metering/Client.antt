-- ===== src/Metering/Client.antt =====
-- core/metering/client.go and delivery_monitor.go: sends in the background (enqueue), direct sends
-- (SendSync), and what Close counts, beside the flushes of the buffer. Every step is one critical
-- section or one atomic operation; which requests the pool takes and how a delivery ends are
-- arguments of the steps. `sends` is the count of the client's activity. A record is encoded already: a
-- payload that is nil or cannot be encoded ends before any of these steps, or changes `sends` alone.
pub mod Sends
pub mod Matched
pub mod Owed
pub mod Books
pub mod Close
mod Tests
use revenium_go_sdk.Base.{
  ℕ, suc, ◌+◌, ◌-◌, List, [], ◌∷◌, Bool, true, false, Option, none, some, get_elem?, update_at,
  length, if◌then◌else◌, ◌==◌, Unicode,
}
use revenium_go_sdk.Core.Errors.{Failure}
use revenium_go_sdk.Resilience.Classify.{is_bufferable}
use revenium_go_sdk.Metering.Record.{BufferedEvent, event_bytes, BufferLimits}
use revenium_go_sdk.Metering.Buffer.{SendReservation, Buffer, reserve_for_send}
use revenium_go_sdk.Metering.Buffer.Replay.{Sender}
use revenium_go_sdk.Metering.Buffer.System.{
  System, Event, pushes, reserves, releases, holds, takes, resends, returns, step, start,
}
use revenium_go_sdk.Metering.DeliveryMonitor.{Monitor, new_monitor, record_outcome}

-- Where a call of enqueue, or the job that it hands to the pool, has got to.
pub data Phase : Type 0 where
  -- After reserveForSend, before sends.begin.
  reserved : Phase
  -- Before trySubmit.
  begun : Phase
  -- In the pool, waiting or being delivered.
  submitted : Phase
  -- The pool had no room: before reservation.hold.
  overflowed : Phase
  -- A panic was recovered: before the deferred release.
  panicked : Phase
  -- After settleQueuedSend: before the deferred release.
  settled : Phase
  -- Before sends.end, and after it.
  closing : Phase
  ended : Phase

pub record Job : Type 0 where
  pub event : BufferedEvent
  pub phase : Phase

-- A call of SendSync: being delivered, before sends.end, and after it.
pub data Direct : Type 0 where
  delivering : BufferedEvent → Direct
  finishing : Direct
  returned : Direct

-- `jobs` and the buffer's reservations are in the same order, the newest first.
pub record Client : Type 0 where
  pub books : System
  pub jobs : List Job
  pub direct : List Direct
  pub sends : ℕ
  pub overflowing : Bool
  pub monitor : Monitor

-- How a delivery ends: with an error, nil being none, or in a panic, which came from posting the
-- record (false) or after it was delivered (true).
pub data Delivery : Type 0 where
  ends_with : Option Failure → Delivery
  panics : Bool → Delivery

pub data ClientEvent : Type 0 where
  -- Send: reserveForSend, sends.begin, trySubmit with its answer and that of hasRoom.
  enqueues : BufferedEvent → ClientEvent
  begins : ℕ → ClientEvent
  submits : ℕ → Bool → Bool → ClientEvent
  -- The hold, at a time, of a record that the pool had no room for.
  overflows : ℕ → ℕ → ClientEvent
  -- The delivery in the pool, the deferred release, and sends.end.
  delivers : ℕ → ℕ → Delivery → ClientEvent
  releases_job : ℕ → ClientEvent
  ends_job : ℕ → ClientEvent
  -- SendSync: sends.begin, deliver with holdIfRetryable, sends.end.
  sends_sync : BufferedEvent → ClientEvent
  delivers_sync : ℕ → ℕ → Delivery → ClientEvent
  ends_sync : ℕ → ClientEvent
  -- A step of the flush that resends held records.
  flushes_takes : ℕ → ClientEvent
  flushes_resends : Sender → ClientEvent
  flushes_returns : ClientEvent

abbrev pub to_phase : Phase → Job → Job
to_phase p j = record j { phase = p }

abbrev pub set_phase : Phase → ℕ → Client → Client
set_phase p i s = record s { jobs = update_at (to_phase p) s.jobs i }

abbrev pub on_job : (Job → ℕ → Client → Client) → Option Job → ℕ → Client → Client
on_job f none i s = s
on_job f (some j) i s = f j i s

abbrev pub on_direct : (Direct → ℕ → Client → Client) → Option Direct → ℕ → Client → Client
on_direct f none i s = s
on_direct f (some d) i s = f d i s

abbrev pub set_direct : Direct → ℕ → Client → Client
set_direct d i s = record s { direct = update_at (λ old. d) s.direct i }

module _ (u : Unicode) where
  -- A step of the buffer, with the sends beside it.
  abbrev pub book : Event → Client → Client
  book e s = record s { books = step u s.books e }

  -- `enqueue` goes on if the reservation is not nil.
  abbrev pub reserved_job : BufferedEvent → System → Client → Client
  reserved_job e books s =
      if length books.reservations == length s.books.reservations
      then record s { books = books }
      else record s { books = books; jobs = record { event = e; phase = reserved } ∷ s.jobs }

  abbrev pub begin_job : Phase → ℕ → Client → Client
  begin_job reserved i s = set_phase begun i (record s { sends = suc s.sends })
  begin_job _ i s = s

  abbrev pub submit_job : Bool → Bool → Phase → ℕ → Client → Client
  submit_job true room begun i s =
      set_phase submitted i (record s { overflowing = if room then false else s.overflowing })
  submit_job false room begun i s = set_phase overflowed i (record s { overflowing = true })
  submit_job taken room _ i s = s

  abbrev pub overflow_job : ℕ → BufferedEvent → Phase → ℕ → Client → Client
  overflow_job now e overflowed i s = set_phase closing i (book (holds i now e) s)
  overflow_job now e _ i s = s

  -- The call of the reservation that settleQueuedSend makes.
  abbrev pub settling : ℕ → ℕ → BufferedEvent → Option Failure → Event
  settling i now e none = releases i
  settling i now e (some err) = if is_bufferable u err then holds i now e else releases i

  abbrev pub monitored : Delivery → Client → Client
  monitored (ends_with err) s = record s { monitor = record_outcome u err s.monitor }
  monitored (panics false) s = s
  monitored (panics true) s = record s { monitor = record_outcome u none s.monitor }

  abbrev pub deliver_job : ℕ → Delivery → BufferedEvent → Phase → ℕ → Client → Client
  deliver_job now (ends_with err) e submitted i s =
      set_phase settled i (book (settling i now e err) (monitored (ends_with err) s))
  deliver_job now (panics b) e submitted i s = set_phase panicked i (monitored (panics b) s)
  deliver_job now d e _ i s = s

  abbrev pub release_job : Phase → ℕ → Client → Client
  release_job settled i s = set_phase closing i (book (releases i) s)
  release_job panicked i s = set_phase closing i (book (releases i) s)
  release_job _ i s = s

  abbrev pub end_job : Phase → ℕ → Client → Client
  end_job closing i s = set_phase ended i (record s { sends = s.sends - 1 })
  end_job _ i s = s

  -- `holdIfRetryable`.
  abbrev pub hold_if_retryable : ℕ → BufferedEvent → Option Failure → Client → Client
  hold_if_retryable now e none s = s
  hold_if_retryable now e (some err) s = if is_bufferable u err then book (pushes now e) s else s

  abbrev pub deliver_direct : ℕ → Delivery → Direct → ℕ → Client → Client
  deliver_direct now (ends_with err) (delivering e) i s =
      set_direct finishing i (hold_if_retryable now e err (monitored (ends_with err) s))
  deliver_direct now (panics b) (delivering e) i s = set_direct finishing i (monitored (panics b) s)
  deliver_direct now d _ i s = s

  abbrev pub end_direct : Direct → ℕ → Client → Client
  end_direct finishing i s = set_direct returned i (record s { sends = s.sends - 1 })
  end_direct _ i s = s

  unfoldable pub client_step : Client → ClientEvent → Client
  unfolding step record_outcome is_bufferable
  client_step s (enqueues e) = reserved_job e (step u s.books (reserves (event_bytes e))) s
  client_step s (begins i) = on_job (λ j. begin_job j.phase) (get_elem? s.jobs i) i s
  client_step s (submits i taken room) =
      on_job (λ j. submit_job taken room j.phase) (get_elem? s.jobs i) i s
  client_step s (overflows i now) =
      on_job (λ j. overflow_job now j.event j.phase) (get_elem? s.jobs i) i s
  client_step s (delivers i now d) =
      on_job (λ j. deliver_job now d j.event j.phase) (get_elem? s.jobs i) i s
  client_step s (releases_job i) = on_job (λ j. release_job j.phase) (get_elem? s.jobs i) i s
  client_step s (ends_job i) = on_job (λ j. end_job j.phase) (get_elem? s.jobs i) i s
  client_step s (sends_sync e) = record s { direct = delivering e ∷ s.direct; sends = suc s.sends }
  client_step s (delivers_sync i now d) =
      on_direct (deliver_direct now d) (get_elem? s.direct i) i s
  client_step s (ends_sync i) = on_direct end_direct (get_elem? s.direct i) i s
  client_step s (flushes_takes now) = book (takes now) s
  client_step s (flushes_resends send) = book (resends send) s
  client_step s flushes_returns = book returns s

  unfoldable pub client_run : Client → List ClientEvent → Client
  unfolding client_step
  client_run s [] = s
  client_run s (e ∷ es) = client_run (client_step s e) es

unfoldable pub new_client : BufferLimits → Client
unfolding start
new_client l = record {
  books = start l;
  jobs = [];
  direct = [];
  sends = 0;
  overflowing = false;
  monitor = new_monitor;
}

-- `undelivered`, which reads the running sends in one state and the buffer in a later one.
unfoldable pub undelivered : Client → Client → ℕ
undelivered sampled later =
    sampled.sends + (length later.books.buffer.events + later.books.buffer.in_flight)
