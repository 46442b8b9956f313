-- ===== src/Metering/Buffer/Flush.antt =====
-- What a flush does with the records that it takes, and what room costs.
use revenium_go_sdk.Base.{
  ℕ, zero, suc, ◌+◌, ◌-◌, ◌≤◌, ◌<◌, ◌≡◌, refl, ◌⊎◌, List, [], ◌∷◌, Bool, true, false, arith, length,
  drop, take, Option, none, some, Unicode, length-drop, ap, length-append,
}
use revenium_go_sdk.Core.Errors.{Failure}
use revenium_go_sdk.Resilience.Classify.{is_bufferable}
use revenium_go_sdk.Metering.Buffer.{
  Buffer, evict_loop, SendReservation, held_bytes, evict_oldest_until, release, hold,
  settle_queued_send,
}
use revenium_go_sdk.Metering.Buffer.Replay.{
  Sender, replay, replay_loop, settle, settle_window, send_all, release_settled,
}
use revenium_go_sdk.Metering.Record.{BufferedEvent, replay_concurrency, total_held_bytes}
use revenium_go_sdk.Metering.Buffer.Evicting.{evict_loop_fits, evict_loop_newest, evict_loop_least}
use revenium_go_sdk.Metering.Buffer.System.Windows.{
  take-drop-length, settle-Settled, records_of-send_all,
}

-- A flush begins with one record. If that meets a failure worth retrying, no other record is sent:
-- every record is kept, in its order, and the buffer is as it was.
pub outage_costs_one_request :
    (u : Unicode) (send : Sender) (e : BufferedEvent) (es : List BufferedEvent) (err : Failure)
    (b : Buffer)
    → send 0 e ≡ some err
    → is_bufferable u err ≡ true
    → replay u send (e ∷ es) b ≡ (e ∷ es, b)
unfolding replay
outage_costs_one_request u send e es err b s r = ground arith

-- Whether a result of a send is a failure worth retrying.
abbrev pub worth_retrying : Unicode → Option Failure → Bool
worth_retrying u none = false
worth_retrying u (some err) = is_bufferable u err

settle_none_kept :
    (u : Unicode) (send : Sender) (i : ℕ) (es : List BufferedEvent) (b : Buffer)
    → ((j : ℕ) (e : BufferedEvent) → worth_retrying u (send j e) ≡ false)
    → (settle u (send_all send i es) b).0 ≡ []
unfolding settle send_all
settle_none_kept u send i [] b h = refl
settle_none_kept u send i (e ∷ es) b h = ground (
  arith,
  h i e,
  settle_none_kept u send (suc i) es (record b { events_replayed = b.events_replayed + 1 }) h,
  settle_none_kept u send (suc i) es (record b { events_evicted = b.events_evicted + 1 }) h,
)

batch_counts :
    (u : Unicode) (send : Sender) (i : ℕ) (batch : List BufferedEvent) (b : Buffer)
    → let (kept, b') = settle_window u batch (send_all send i batch) b in
      b'.events_replayed + b'.events_evicted + length kept
      ≡ b.events_replayed + b.events_evicted + length batch
unfolding release_settled
batch_counts u send i batch b = ground (
  arith,
  settle-Settled u (send_all send i batch) b,
  ap length (records_of-send_all send i batch),
)

replay_loop_counts :
    (fuel : ℕ) (u : Unicode) (send : Sender) (i w : ℕ) (pending : List BufferedEvent) (b : Buffer)
    → let (kept, b') = replay_loop fuel u send i w pending b in
      b'.events_replayed + b'.events_evicted + length kept
      ≡ b.events_replayed + b.events_evicted + length pending
unfolding replay_loop
replay_loop_counts zero u send i w [] b = refl
replay_loop_counts (suc fuel) u send i w [] b = refl
replay_loop_counts zero u send i w (e ∷ es) b = refl
replay_loop_counts (suc fuel) u send i w (e ∷ es) b =
    let batch = take w (e ∷ es) in
    let rest = drop w (e ∷ es) in
    let (kept, b1) = settle_window u batch (send_all send i batch) b in
    ground (
      arith,
      batch_counts u send i batch b,
      replay_loop_counts fuel u send (i + w) replay_concurrency rest b1,
      length-append kept rest,
      take-drop-length w (e ∷ es),
    )

replay_loop_finishes :
    (fuel : ℕ) (u : Unicode) (send : Sender) (i w : ℕ) (pending : List BufferedEvent) (b : Buffer)
    → length pending ≤ fuel
    → 0 < w
    → ((j : ℕ) (e : BufferedEvent) → worth_retrying u (send j e) ≡ false)
    → (replay_loop fuel u send i w pending b).0 ≡ []
unfolding replay_loop
replay_loop_finishes zero u send i w [] b l p h = refl
replay_loop_finishes (suc fuel) u send i w [] b l p h = refl
replay_loop_finishes zero u send i w (e ∷ es) b l p h = absurd (omega arith)
replay_loop_finishes (suc fuel) u send i w (e ∷ es) b l p h =
    let batch = take w (e ∷ es) in
    let rest = drop w (e ∷ es) in
    let b1 = (settle_window u batch (send_all send i batch) b).1 in
    ground (
      arith,
      settle_none_kept u send i batch b h,
      replay_loop_finishes fuel u send (i + w) replay_concurrency rest b1
          (omega (arith, length-drop w (e ∷ es))) (omega arith) h,
    )

-- A resend of any records ends, and counts each of them once: as replayed, as dropped because its
-- failure is not worth retrying, or among those that it gives back.
pub replay_counts_each :
    (u : Unicode) (send : Sender) (pending : List BufferedEvent) (b : Buffer)
    → let (kept, b') = replay u send pending b in
      b'.events_replayed + b'.events_evicted + length kept
      ≡ b.events_replayed + b.events_evicted + length pending
unfolding replay
replay_counts_each u send pending b = replay_loop_counts (length pending) u send 0 1 pending b

-- If no send meets a failure worth retrying, every record is sent in that one flush: none is given
-- back.
pub replay_reaches_all :
    (u : Unicode) (send : Sender) (pending : List BufferedEvent) (b : Buffer)
    → ((j : ℕ) (e : BufferedEvent) → worth_retrying u (send j e) ≡ false)
    → let (kept, b') = replay u send pending b in
      (kept ≡ [])
      × (b'.events_replayed + b'.events_evicted
          ≡ b.events_replayed + b.events_evicted + length pending)
unfolding replay
replay_reaches_all u send pending b h =
    let e =
      replay_loop_finishes (length pending) u send 0 1 pending b (omega arith) (omega arith) h in
    (e, omega (arith, replay_loop_counts (length pending) u send 0 1 pending b, ap length e))

-- Making room drops the oldest records, each counted, and ends within both limits or with nothing
-- queued.
pub evicts_oldest_to_limits :
    (max_records max_bytes : ℕ) (b : Buffer)
    → b.queued_bytes ≡ total_held_bytes b.events
    → let b' = evict_oldest_until max_records max_bytes b in
      (b'.events ≡ drop (b'.events_evicted - b.events_evicted) b.events)
      × ((b'.events ≡ []) ⊎ ((length b'.events ≤ max_records) × (held_bytes b' ≤ max_bytes)))
unfolding evict_oldest_until
evicts_oldest_to_limits mr mb b h =
    let others = b.in_flight_bytes + b.sending_bytes in
    let v = evict_loop mr mb others b.queued_bytes b.events in
    let n : b.events_evicted + v.dropped - b.events_evicted ≡ v.dropped = omega arith in
    (
      rw n (evict_loop_newest mr mb others b.queued_bytes b.events),
      ground (arith, evict_loop_fits mr mb others b.queued_bytes b.events),
    )

-- It drops no more records than it must: with any smaller number of the oldest gone, the queue
-- would still pass one of the limits.
pub evicts_no_more :
    (max_records max_bytes k : ℕ) (b : Buffer)
    → b.queued_bytes ≡ total_held_bytes b.events
    → b.events_evicted + k < (evict_oldest_until max_records max_bytes b).events_evicted
    → (max_records < length (drop k b.events))
      ⊎ (max_bytes < total_held_bytes (drop k b.events) + (b.in_flight_bytes + b.sending_bytes))
unfolding evict_oldest_until
evicts_no_more mr mb k b h l =
    evict_loop_least mr mb (b.in_flight_bytes + b.sending_bytes) b.queued_bytes k b.events h
      (omega arith)

-- Once a queued send's outcome has settled its reservation, the deferred release of the delivery
-- job changes nothing, whatever the outcome was.
pub deferred_release_nothing :
    (u : Unicode) (now : ℕ) (e : BufferedEvent) (result : Option Failure) (r : SendReservation)
    (b : Buffer)
    → let (r', b') = settle_queued_send u now e result r b in release r' b' ≡ (r', b')
unfolding settle_queued_send release hold
deferred_release_nothing u now e none r b = ground arith
deferred_release_nothing u now e (some err) r b = ground arith
