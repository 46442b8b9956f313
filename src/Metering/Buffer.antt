-- ===== src/Metering/Buffer.antt =====
-- core/metering/buffer.go: the records held for the next flush, under a limit of records and of
-- bytes. A method that holds `b.mu` is one step on the record. The byte counters are int64 in the
-- source; the subtractions here stop at 0, and the accounting theorem shows that they never get
-- there. Entries of the slice that are cleared for the garbage collector are not modelled.
pub mod Evicting
pub mod Flush
pub mod System
pub mod Replay
use revenium_go_sdk.Base.{
  ℕ, zero, suc, ◌+◌, ◌*◌, ◌/◌, ◌-◌, ◌^◌, List, [], ◌∷◌, ◌++◌, Bool, true, false, ◌||◌, Option, none,
  some, ℤ, positive_or, ltb, leb, if◌then◌else◌, length, take, drop, is_empty, Unicode,
}
use revenium_go_sdk.Core.Errors.{Failure}
use revenium_go_sdk.Resilience.Classify.{is_bufferable}
use revenium_go_sdk.Metering.Record.{
  Bytes, BufferedEvent, header_bytes, event_bytes, total_held_bytes, default_buffer_max_size,
  replay_concurrency, max_event_age, BufferLimits, with_defaults,
}

pub record Buffer : Type 0 where
  pub events : List BufferedEvent  -- oldest first
  pub limits : BufferLimits
  pub queued_bytes : ℕ
  pub in_flight_bytes : ℕ
  pub sending_bytes : ℕ
  pub events_replayed : ℕ
  pub events_evicted : ℕ
  pub in_flight : ℕ
  pub full : Bool
  pub resend_full : Bool

unfoldable pub new_buffer : BufferLimits → Buffer
new_buffer l = record {
  events = [];
  limits = l;
  queued_bytes = 0;
  in_flight_bytes = 0;
  sending_bytes = 0;
  events_replayed = 0;
  events_evicted = 0;
  in_flight = 0;
  full = false;
  resend_full = false;
}

abbrev pub held_bytes : Buffer → ℕ
held_bytes b = b.queued_bytes + b.in_flight_bytes + b.sending_bytes

abbrev pub fits_beside_undroppable : ℕ → Buffer → Bool
fits_beside_undroppable size b = leb (b.in_flight_bytes + b.sending_bytes + size) b.limits.bytes

-- What the loop of `evictOldestUntil` leaves.
pub record Eviction : Type 0 where
  pub rest : List BufferedEvent
  pub queued : ℕ
  pub dropped : ℕ

abbrev one_more : Eviction → Eviction
one_more v = record v { dropped = suc v.dropped }

-- `other` is the bytes that no eviction frees.
unfoldable pub evict_loop : ℕ → ℕ → ℕ → ℕ → List BufferedEvent → Eviction
evict_loop max_records max_bytes other queued [] = record {
  rest = [];
  queued = queued;
  dropped = 0;
}
evict_loop max_records max_bytes other queued (e ∷ es) =
    let next = one_more (evict_loop max_records max_bytes other (queued - event_bytes e) es) in
    if ltb max_records (suc (length es)) || ltb max_bytes (queued + other)
    then next
    else record { rest = e ∷ es; queued = queued; dropped = 0 }

-- `warnFullOncePerOutage` latches `full`.
abbrev evicted_to : Buffer → Eviction → Buffer
evicted_to b v = record b {
  events = v.rest;
  queued_bytes = v.queued;
  events_evicted = b.events_evicted + v.dropped;
  full = if ltb 0 v.dropped then true else b.full;
}

unfoldable pub evict_oldest_until : ℕ → ℕ → Buffer → Buffer
evict_oldest_until max_records max_bytes b =
    evicted_to b (
      evict_loop max_records max_bytes (b.in_flight_bytes + b.sending_bytes) b.queued_bytes
        b.events)

-- A record larger than the limit warns each time; one that finds no room latches `resend_full`.
unfoldable pub drop_newest : ℕ → Buffer → Buffer
drop_newest size b = record b {
  events_evicted = b.events_evicted + 1;
  resend_full = if ltb b.limits.bytes size then b.resend_full else true;
}

append_event : ℕ → BufferedEvent → Buffer → Buffer
append_event now e b = record b {
  events = b.events ++ record e { created_at = now } ∷ [];
  queued_bytes = b.queued_bytes + event_bytes e;
}

unfoldable pub push : ℕ → BufferedEvent → Buffer → Buffer
unfolding drop_newest append_event
push now e b =
    if fits_beside_undroppable (event_bytes e) b
    then append_event now e
        (evict_oldest_until (b.limits.records - 1) (b.limits.bytes - event_bytes e) b)
    else drop_newest (event_bytes e) b

-- The share of the byte limit that a record holds from the queue until its send is over.
pub record SendReservation : Type 0 where
  pub size : ℕ
  pub settled : Bool

refuse_send : ℕ → Buffer → Buffer
refuse_send size b = record b {
  events_evicted = b.events_evicted + 1;
  full = if ltb b.limits.bytes size then b.full else true;
}

abbrev reserve_bytes : ℕ → Buffer → Buffer
reserve_bytes size b = record b { sending_bytes = b.sending_bytes + size }

unfoldable pub reserve_for_send : ℕ → Buffer → Option SendReservation × Buffer
unfolding refuse_send
reserve_for_send size b =
    if fits_beside_undroppable size b
    then (
      some (record { size = size; settled = false }),
      reserve_bytes size (evict_oldest_until (length b.events) (b.limits.bytes - size) b),
    )
    else (none, refuse_send size b)

unfoldable pub end_outage : Buffer → Buffer
end_outage b =
    if ltb (b.limits.bytes / 2) b.sending_bytes
    then b
    else record b { full = false; resend_full = false }

unfoldable pub hold_sent : ℕ → BufferedEvent → ℕ → Buffer → Buffer
hold_sent now e size b = push now e (record b { sending_bytes = b.sending_bytes - size })

abbrev is_zero : ℕ → Bool
is_zero zero = true
is_zero (suc n) = false

abbrev idle_outage : Bool → Bool → Buffer → Buffer
idle_outage true true b = end_outage b
idle_outage _ _ b = b

unfoldable pub release_send : ℕ → Buffer → Buffer
unfolding end_outage
release_send size b =
    idle_outage (is_empty b.events) (is_zero b.in_flight)
      (record b { sending_bytes = b.sending_bytes - size })

abbrev settled_reservation : SendReservation → SendReservation
settled_reservation r = record r { settled = true }

-- The methods of a reservation: each acts on the first call of either only.
unfoldable pub release : SendReservation → Buffer → SendReservation × Buffer
unfolding release_send
release r b = if r.settled then (r, b) else (settled_reservation r, release_send r.size b)

unfoldable pub hold : ℕ → BufferedEvent → SendReservation → Buffer → SendReservation × Buffer
unfolding hold_sent
hold now e r b = if r.settled then (r, b) else (settled_reservation r, hold_sent now e r.size b)

-- `settleQueuedSend` of client.go: a failure worth retrying keeps the record.
unfoldable pub settle_queued_send :
    Unicode
    → ℕ
    → BufferedEvent
    → Option Failure
    → SendReservation
    → Buffer
    → SendReservation × Buffer
unfolding hold release
settle_queued_send u now e none r b = release r b
settle_queued_send u now e (some err) r b =
    if is_bufferable u err then hold now e r b else release r b

-- The records created after `now - max_event_age`, and how the others are accounted for.
unfoldable pub expire_loop : ℕ → ℕ → List BufferedEvent → Eviction
expire_loop now queued [] = record { rest = []; queued = queued; dropped = 0 }
expire_loop now queued (e ∷ es) =
    if ltb now (e.created_at + max_event_age)
    then (let v = expire_loop now queued es in record v { rest = e ∷ v.rest })
    else one_more (expire_loop now (queued - event_bytes e) es)

unfoldable pub evict_expired : ℕ → Buffer → Buffer
unfolding expire_loop
evict_expired now b =
    let v = expire_loop now b.queued_bytes b.events in
    record b {
      events = v.rest;
      queued_bytes = v.queued;
      events_evicted = b.events_evicted + v.dropped;
    }

abbrev taken : Buffer → List BufferedEvent × Buffer
taken b = (
  b.events,
  record b {
    events = [];
    in_flight = length b.events;
    resend_full = false;
    in_flight_bytes = b.queued_bytes;
    queued_bytes = 0;
  },
)

abbrev take_from : List BufferedEvent → Buffer → List BufferedEvent × Buffer
take_from [] b = ([], end_outage b)
take_from (e ∷ es) b = taken b

unfoldable pub take_pending : ℕ → Buffer → List BufferedEvent × Buffer
unfolding evict_expired end_outage
take_pending now b = let b1 = evict_expired now b in take_from b1.events b1
