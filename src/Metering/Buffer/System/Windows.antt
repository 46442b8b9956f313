-- ===== src/Metering/Buffer/System/Windows.antt =====
-- What one window of a flush does to the counters.
use revenium_go_sdk.Base.{
  ℕ, suc, ◌+◌, ◌≤◌, ◌≡◌, refl, List, [], ◌∷◌, arith, length, drop, take, length-append,
  take-append-drop, ◌∙◌, ap, sym, none, some, Unicode, subst,
}
use revenium_go_sdk.Metering.Buffer.{Buffer}
use revenium_go_sdk.Metering.Buffer.Replay.{
  Sent, Sender, settle, settle_window, release_settled, send_all,
}
use revenium_go_sdk.Metering.Record.{BufferedEvent, total_held_bytes}
use revenium_go_sdk.Metering.Buffer.Evicting.{total-append}
use revenium_go_sdk.Metering.Buffer.System.Books.{Balanced, ledger}

abbrev pub records_of : Sent → List BufferedEvent
records_of [] = []
records_of ((e, r) ∷ sent) = e ∷ records_of sent

pub records_of-send_all :
    (send : Sender) (i : ℕ) (es : List BufferedEvent) → records_of (send_all send i es) ≡ es
unfolding send_all
records_of-send_all send i [] = refl
records_of-send_all send i (e ∷ es) = ap (◌∷◌ e) (records_of-send_all send (suc i) es)

-- Settling a batch counts each record once: as replayed, as dropped, or among those kept.
pub record Settled (sent : Sent) (b : Buffer) (r : List BufferedEvent × Buffer) : Type 0 where
  pub fewer : length r.0 ≤ length (records_of sent)
  pub smaller : total_held_bytes r.0 ≤ total_held_bytes (records_of sent)
  pub counted :
      r.1.events_replayed + r.1.events_evicted + length r.0
      ≡ b.events_replayed + b.events_evicted + length (records_of sent)
  pub same_events : r.1.events ≡ b.events
  pub same_limits : r.1.limits ≡ b.limits
  pub same_queued : r.1.queued_bytes ≡ b.queued_bytes
  pub same_flight : r.1.in_flight ≡ b.in_flight
  pub same_flight_bytes : r.1.in_flight_bytes ≡ b.in_flight_bytes
  pub same_sending : r.1.sending_bytes ≡ b.sending_bytes

pub settle-Settled : (u : Unicode) (sent : Sent) (b : Buffer) → Settled sent b (settle u sent b)
unfolding settle
settle-Settled u [] b = ground arith
settle-Settled u ((e, none) ∷ sent) b =
    ground (arith, settle-Settled u sent (record b { events_replayed = b.events_replayed + 1 }))
settle-Settled u ((e, some err) ∷ sent) b = ground (
  arith,
  settle-Settled u sent b,
  settle-Settled u sent (record b { events_evicted = b.events_evicted + 1 }),
)

-- A window whose batch is settled leaves its kept records in flight.
window-Balanced :
    (u : Unicode) (sent : Sent) (n m reserved : ℕ) (b : Buffer)
    → Balanced (length (records_of sent) + n) (total_held_bytes (records_of sent) + m) reserved b
    → let (kept, b') = settle_window u (records_of sent) sent b in
      Balanced (length kept + n) (total_held_bytes kept + m) reserved b'
      × (ledger b' ≡ ledger b)
      × (b'.limits ≡ b.limits)
unfolding release_settled
window-Balanced u sent n m reserved b v = ground (
  arith,
  v.queued,
  v.in_flight,
  v.resent,
  v.sent,
  v.within,
  v.records,
  v.some_records,
  settle-Settled u sent b,
)

pub batch-Balanced :
    (u : Unicode) (send : Sender) (start n m reserved : ℕ) (batch : List BufferedEvent) (b : Buffer)
    → Balanced (length batch + n) (total_held_bytes batch + m) reserved b
    → let (kept, b') = settle_window u batch (send_all send start batch) b in
      Balanced (length kept + n) (total_held_bytes kept + m) reserved b'
      × (ledger b' ≡ ledger b)
      × (b'.limits ≡ b.limits)
batch-Balanced u send start n m reserved batch b v =
    subst
      (λ k.
        let (kept, b') = settle_window u k (send_all send start batch) b in
        Balanced (length kept + n) (total_held_bytes kept + m) reserved b'
        × (ledger b' ≡ ledger b)
        × (b'.limits ≡ b.limits))
      (records_of-send_all send start batch)
      (window-Balanced u (send_all send start batch) n m reserved b
        (rw (records_of-send_all send start batch) v))

-- A pending list by its window and the rest.
pub take-drop-length :
    (w : ℕ) (es : List BufferedEvent) → length (take w es) + length (drop w es) ≡ length es
take-drop-length w es =
    sym (length-append (take w es) (drop w es)) ∙ ap length (take-append-drop w es)

pub take-drop-total :
    (w : ℕ) (es : List BufferedEvent)
    → total_held_bytes (take w es) + total_held_bytes (drop w es) ≡ total_held_bytes es
take-drop-total w es =
    sym (total-append (take w es) (drop w es)) ∙ ap total_held_bytes (take-append-drop w es)
