-- ===== src/Metering/Tests.antt =====
-- The theorems on the buffer at concrete inputs.
use revenium_go_sdk.Base.{
  Text, replicate, ◌++◌, ℕ, ◌+◌, ◌-◌, ◌≤◌, ◌≡◌, refl, ◌⊎◌, List, [], ◌∷◌, false, arith, length,
  drop, none, some, ascii, codes,
}
use revenium_go_sdk.Core.Errors.{circuit_open}
use revenium_go_sdk.Resilience.Classify.{is_bufferable}
use revenium_go_sdk.Metering.FieldGuards.{
  units_of, Passes, truncate_ticket_id, ticket_longest_prefix,
}
use revenium_go_sdk.Metering.Buffer.{
  Buffer, SendReservation, new_buffer, held_bytes, evict_oldest_until, take_pending, evict_loop,
  hold,
}
use revenium_go_sdk.Metering.Buffer.Replay.{
  Sender, replay, settle, send_all, put_back, release_settled,
}
use revenium_go_sdk.Metering.Record.{BufferedEvent, BufferLimits, total_held_bytes, event_bytes}
use revenium_go_sdk.Metering.Buffer.Flush.{
  outage_costs_one_request, replay_reaches_all, evicts_oldest_to_limits,
}
use revenium_go_sdk.Metering.Buffer.System.{
  Event, pushes, reserves, holds, takes, resends, returns, run, start,
}
use revenium_go_sdk.Metering.Buffer.System.Goodness.{flying, reserved_bytes, running_sends}
use revenium_go_sdk.Metering.Buffer.System.Bounds.{limits_kept, counters_exact, records_accounted}

abbrev small : BufferLimits
small = record { records = 2; bytes = 100 }

abbrev event_of : ℕ → BufferedEvent
event_of n = record {
  url = codes "https://api";
  headers = (codes "h", codes "v") ∷ [];
  body = n ∷ n ∷ [];
  idempotency_key = [];
  created_at = 0;
}

abbrev breaker_open : Sender
breaker_open i e = some circuit_open

abbrev delivered : Sender
delivered i e = none

-- Three records for two places, a send that fails, a flush that fails and one that succeeds.
abbrev history : List Event
history =
    pushes 1 (event_of 1)
    ∷ pushes 2 (event_of 2)
    ∷ reserves 20
    ∷ pushes 3 (event_of 3)
    ∷ takes 4
    ∷ resends breaker_open
    ∷ holds 0 5 (event_of 4)
    ∷ returns
    ∷ takes 6
    ∷ resends delivered
    ∷ []

history_runs :
    let s = run ascii (start small) history in
    (s.buffer.events_replayed ≡ 1)
    × (s.buffer.events_evicted ≡ 2)
    × (length (flying s.flushing) ≡ 1)
unfolding run start is_bufferable event_bytes evict_oldest_until take_pending evict_loop settle
    send_all put_back hold release_settled
history_runs = (refl, refl, refl)

limits_kept_example :
    (held_bytes (run ascii (start small) history).buffer ≤ 100)
    × (length (run ascii (start small) history).buffer.events ≤ 2)
limits_kept_example = limits_kept ascii small history (omega arith)

counters_exact_example :
    let s = run ascii (start small) history in
    (s.buffer.queued_bytes ≡ total_held_bytes s.buffer.events)
    × (s.buffer.in_flight_bytes ≡ total_held_bytes (flying s.flushing))
    × (s.buffer.in_flight ≡ length (flying s.flushing))
    × (s.buffer.sending_bytes ≡ reserved_bytes s.reservations)
counters_exact_example = counters_exact ascii small history (omega arith)

records_accounted_example :
    let s = run ascii (start small) history in
    length s.buffer.events
      + s.buffer.in_flight
      + running_sends s.reservations
      + s.buffer.events_replayed
      + s.buffer.events_evicted
      + s.finished
    ≡ s.accepted
records_accounted_example = records_accounted ascii small history (omega arith)

abbrev pending : List BufferedEvent
pending = event_of 1 ∷ event_of 2 ∷ event_of 3 ∷ []

abbrev resending : Buffer
resending = record (new_buffer small) { in_flight = 3; in_flight_bytes = 45 }

outage_costs_one_request_example :
    replay ascii breaker_open pending resending ≡ (pending, resending)
unfolding is_bufferable
outage_costs_one_request_example =
    outage_costs_one_request ascii breaker_open (event_of 1) (event_of 2 ∷ event_of 3 ∷ [])
      circuit_open resending refl refl

replay_reaches_all_example :
    let (kept, b) = replay ascii delivered pending resending in
    (kept ≡ [])
    × (b.events_replayed + b.events_evicted
        ≡ resending.events_replayed + resending.events_evicted + 3)
replay_reaches_all_example = replay_reaches_all ascii delivered pending resending (λ j e. refl)

abbrev crowded : Buffer
crowded = record (new_buffer small) { events = pending; queued_bytes = 45 }

evicts_oldest_to_limits_example :
    let b = evict_oldest_until 2 100 crowded in
    (b.events ≡ drop (b.events_evicted - crowded.events_evicted) pending)
    × ((b.events ≡ []) ⊎ ((length b.events ≤ 2) × (held_bytes b ≤ 100)))
unfolding new_buffer event_bytes
evicts_oldest_to_limits_example = evicts_oldest_to_limits 2 100 crowded refl

abbrev sending : Buffer
sending = record (new_buffer small) { sending_bytes = 15 }

abbrev in_first_send : SendReservation
in_first_send = record { size = 15; settled = false }

-- A letter of two units, after 255 of one unit each, does not fit.
abbrev long_ticket : Text
long_ticket = replicate 255 97 ++ 128512 ∷ []

ticket_longest_prefix_example :
    (rest : Text) × (long_ticket ≡ truncate_ticket_id long_ticket ++ rest)
    × (units_of (truncate_ticket_id long_ticket) ≤ 256)
    × Passes 256 (units_of (truncate_ticket_id long_ticket)) rest
ticket_longest_prefix_example = ticket_longest_prefix long_ticket
