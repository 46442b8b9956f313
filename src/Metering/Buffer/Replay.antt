-- ===== src/Metering/Buffer/Replay.antt =====
-- The resending of core/metering/buffer.go: settle, releaseSettled, markSettled, putBack, sendAll,
-- replay and flush.
use revenium_go_sdk.Base.{
  ℕ, zero, suc, ◌+◌, ◌-◌, List, [], ◌∷◌, ◌++◌, Option, none, some, if◌then◌else◌, length, take,
  drop, is_empty, Unicode,
}
use revenium_go_sdk.Core.Errors.{Failure}
use revenium_go_sdk.Resilience.Classify.{is_bufferable}
use revenium_go_sdk.Metering.Record.{BufferedEvent, total_held_bytes, replay_concurrency}
use revenium_go_sdk.Metering.Buffer.{Buffer, evict_oldest_until, end_outage, take_pending}

-- What became of each record of a batch: none for a record that was delivered.
abbrev pub Sent : Type 0
Sent = List (BufferedEvent × Option Failure)

abbrev pub keep_first : BufferedEvent → List BufferedEvent × Buffer → List BufferedEvent × Buffer
keep_first e (kept, b) = (e ∷ kept, b)

unfoldable pub settle : Unicode → Sent → Buffer → List BufferedEvent × Buffer
settle u [] b = ([], b)
settle u ((e, none) ∷ sent) b = settle u sent (record b { events_replayed = b.events_replayed + 1 })
settle u ((e, some err) ∷ sent) b =
    if is_bufferable u err
    then keep_first e (settle u sent b)
    else settle u sent (record b { events_evicted = b.events_evicted + 1 })

unfoldable pub mark_settled : ℕ → ℕ → Buffer → Buffer
mark_settled count bytes b = record b {
  in_flight = b.in_flight - count;
  in_flight_bytes = b.in_flight_bytes - bytes;
}

unfoldable pub release_settled : List BufferedEvent → List BufferedEvent → Buffer → Buffer
unfolding mark_settled
release_settled batch kept b =
    mark_settled (length batch - length kept) (total_held_bytes batch - total_held_bytes kept) b

-- `putBack`; with nothing to put back the outage may be over.
unfoldable pub put_back : List BufferedEvent → Buffer → Buffer
unfolding end_outage
put_back [] b = end_outage b
put_back (e ∷ es) b =
    let returned = total_held_bytes (e ∷ es) in
    let b1 = record b {
      in_flight = b.in_flight - suc (length es);
      in_flight_bytes = b.in_flight_bytes - returned;
      queued_bytes = b.queued_bytes + returned;
      events = (e ∷ es) ++ b.events;
    } in
    evict_oldest_until b1.limits.records b1.limits.bytes b1

-- How the i-th record handed to a flush fares.
abbrev pub Sender : Type 0
Sender = ℕ → BufferedEvent → Option Failure

unfoldable pub send_all : Sender → ℕ → List BufferedEvent → Sent
send_all send i [] = []
send_all send i (e ∷ es) = (e, send i e) ∷ send_all send (suc i) es

abbrev pub settle_window :
    Unicode → List BufferedEvent → Sent → Buffer → List BufferedEvent × Buffer
settle_window u batch sent b =
    let (kept, b1) = settle u sent b in (kept, release_settled batch kept b1)

-- The loop of `replay` from record `start` on; the records from there on are `pending`.
unfoldable pub replay_loop :
    ℕ → Unicode → Sender → ℕ → ℕ → List BufferedEvent → Buffer → List BufferedEvent × Buffer
unfolding settle release_settled send_all
replay_loop fuel u send start window [] b = ([], b)
replay_loop zero u send start window (e ∷ es) b = (e ∷ es, b)
replay_loop (suc fuel) u send start window (e ∷ es) b =
    let batch = take window (e ∷ es) in
    let rest = drop window (e ∷ es) in
    let (kept, b1) = settle_window u batch (send_all send start batch) b in
    let next = replay_loop fuel u send (start + window) replay_concurrency rest b1 in
    if is_empty kept then next else (kept ++ rest, b1)

unfoldable pub replay : Unicode → Sender → List BufferedEvent → Buffer → List BufferedEvent × Buffer
unfolding replay_loop
replay u send pending b = replay_loop (length pending) u send 0 1 pending b

abbrev pub put_back_after : List BufferedEvent × Buffer → Buffer
put_back_after (kept, b) = put_back kept b

abbrev pub flush_taken : Unicode → Sender → List BufferedEvent × Buffer → Buffer
flush_taken u send ([], b) = b
flush_taken u send (e ∷ es, b) = put_back_after (replay u send (e ∷ es) b)

-- `flush` with nothing else between its steps.
unfoldable pub flush : Unicode → Sender → ℕ → Buffer → Buffer
unfolding take_pending replay put_back
flush u send now b = flush_taken u send (take_pending now b)

abbrev pub undelivered : Buffer → ℕ
undelivered b = length b.events + b.in_flight
