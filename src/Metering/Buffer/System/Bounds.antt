-- ===== src/Metering/Buffer/System/Bounds.antt =====
-- The byte limit holds at every moment, and no record goes uncounted.
use revenium_go_sdk.Base.{◌+◌, ◌≤◌, ◌<◌, ◌≡◌, List, arith, length, Unicode}
use revenium_go_sdk.Metering.Buffer.{held_bytes}
use revenium_go_sdk.Metering.Record.{BufferLimits, total_held_bytes}
use revenium_go_sdk.Metering.Buffer.System.{Event, run, start}
use revenium_go_sdk.Metering.Buffer.System.Goodness.{
  flying, reserved_bytes, running_sends, run-Good, start-Good,
}

-- Whatever pushes, sends and flushes run beside each other, the bytes that the buffer counts never
-- pass the byte limit, and the records that it queues never pass the record limit.
pub limits_kept :
    (u : Unicode) (l : BufferLimits) (es : List Event)
    → 0 < l.records
    → (held_bytes (run u (start l) es).buffer ≤ l.bytes)
      × (length (run u (start l) es).buffer.events ≤ l.records)
limits_kept u l es h =
    let g = run-Good u l (start l) es (start-Good l h) in
    ground (arith, g.balanced.within, g.balanced.records, g.limits)

-- At every moment the counters are exact: the queued bytes are those of the queued records, the
-- bytes and the number in flight are those of the records that the flush still has, and the bytes
-- being sent are those of the reservations that are not settled.
pub counters_exact :
    (u : Unicode) (l : BufferLimits) (es : List Event)
    → 0 < l.records
    → let s = run u (start l) es in
      (s.buffer.queued_bytes ≡ total_held_bytes s.buffer.events)
      × (s.buffer.in_flight_bytes ≡ total_held_bytes (flying s.flushing))
      × (s.buffer.in_flight ≡ length (flying s.flushing))
      × (s.buffer.sending_bytes ≡ reserved_bytes s.reservations)
counters_exact u l es h =
    let g = run-Good u l (start l) es (start-Good l h) in
    (g.balanced.queued, g.balanced.resent, g.balanced.in_flight, g.balanced.sent)

-- No record is lost without being counted: each one that came in is queued, being resent or in its
-- first send, or was counted as replayed, as evicted, or as done with in its first send.
pub records_accounted :
    (u : Unicode) (l : BufferLimits) (es : List Event)
    → 0 < l.records
    → let s = run u (start l) es in
      length s.buffer.events
        + s.buffer.in_flight
        + running_sends s.reservations
        + s.buffer.events_replayed
        + s.buffer.events_evicted
        + s.finished
      ≡ s.accepted
records_accounted u l es h =
    let g = run-Good u l (start l) es (start-Good l h) in omega (arith, g.complete)
