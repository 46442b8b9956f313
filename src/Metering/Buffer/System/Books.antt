-- ===== src/Metering/Buffer/System/Books.antt =====
-- What each operation does to the counters.
use revenium_go_sdk.Base.{
  ℕ, suc, ◌+◌, ◌-◌, ◌≤◌, ◌<◌, ◌≡◌, refl, ◌⊎◌, List, [], ◌∷◌, ◌++◌, false, arith, length,
  length-append, ◌∙◌, none, some,
}
use revenium_go_sdk.Metering.Buffer.{
  Buffer, evict_oldest_until, held_bytes, push, reserve_for_send, release_send, end_outage,
  hold_sent, evict_expired, take_pending, take_from,
}
use revenium_go_sdk.Metering.Buffer.Replay.{put_back}
use revenium_go_sdk.Metering.Record.{BufferedEvent, event_bytes, total_held_bytes}
use revenium_go_sdk.Metering.Buffer.Evicting.{
  evict_loop-Accounts, evict_loop_fits, expire_loop-Accounts, total-append,
}

-- The books of a buffer beside which records of `flying` bytes are being resent and `reserved`
-- bytes are in their first send.
pub record Balanced (count flying reserved : ℕ) (b : Buffer) : Type 0 where
  pub queued : b.queued_bytes ≡ total_held_bytes b.events
  pub in_flight : b.in_flight ≡ count
  pub resent : b.in_flight_bytes ≡ flying
  pub sent : b.sending_bytes ≡ reserved
  pub within : held_bytes b ≤ b.limits.bytes
  pub records : length b.events ≤ b.limits.records
  pub some_records : 0 < b.limits.records

-- The records that the buffer holds or has counted out.
abbrev pub ledger : Buffer → ℕ
ledger b = length b.events + b.in_flight + b.events_replayed + b.events_evicted

-- Dropping the oldest records down to given limits: the counters follow.
evict_counts :
    (mr mb : ℕ) (b : Buffer)
    → b.queued_bytes ≡ total_held_bytes b.events
    → let b' = evict_oldest_until mr mb b in
      (b'.queued_bytes ≡ total_held_bytes b'.events)
      × (length b'.events + b'.events_evicted ≡ length b.events + b.events_evicted)
      × ((b'.events ≡ []) ⊎ ((length b'.events ≤ mr) × (held_bytes b' ≤ mb)))
unfolding evict_oldest_until
evict_counts mr mb b h =
    let other = b.in_flight_bytes + b.sending_bytes in
    ground (
      arith,
      evict_loop-Accounts mr mb other b.queued_bytes b.events h,
      evict_loop_fits mr mb other b.queued_bytes b.events,
    )

-- The rest of the record is left alone.
evict_keeps :
    (mr mb : ℕ) (b : Buffer)
    → let b' = evict_oldest_until mr mb b in
      (b'.limits ≡ b.limits)
      × (b'.in_flight_bytes ≡ b.in_flight_bytes)
      × (b'.sending_bytes ≡ b.sending_bytes)
      × (b'.in_flight ≡ b.in_flight)
      × (b'.events_replayed ≡ b.events_replayed)
unfolding evict_oldest_until
evict_keeps mr mb b = (refl, refl, refl, refl, refl)

take_from-Balanced :
    (reserved : ℕ) (es : List BufferedEvent) (b : Buffer)
    → b.events ≡ es
    → Balanced 0 0 reserved b
    → let (pending, b') = take_from es b in
      Balanced (length pending) (total_held_bytes pending) reserved b' × (ledger b' ≡ ledger b)
unfolding end_outage
take_from-Balanced reserved [] b e v = ground arith
take_from-Balanced reserved (x ∷ es) b e v = ground arith

module _ (count flying reserved : ℕ) (b : Buffer) (v : Balanced count flying reserved b) where
  pub push-Balanced :
      (now : ℕ) (e : BufferedEvent)
      → Balanced count flying reserved (push now e b) × (ledger (push now e b) ≡ suc (ledger b))
  unfolding push event_bytes
  push-Balanced now e =
      let size = event_bytes e in
      let mr = b.limits.records - 1 in
      let mb = b.limits.bytes - size in
      ground (
        arith,
        v.queued,
        v.in_flight,
        v.resent,
        v.sent,
        v.within,
        v.records,
        v.some_records,
        evict_counts mr mb b v.queued,
        evict_keeps mr mb b,
        total-append (evict_oldest_until mr mb b).events (record e { created_at = now } ∷ []),
        length-append (evict_oldest_until mr mb b).events (record e { created_at = now } ∷ []),
      )

  pub reserve-Balanced :
      (size : ℕ)
      → let (r, b') = reserve_for_send size b in
        ((r ≡ none) × Balanced count flying reserved b' × (ledger b' ≡ suc (ledger b)))
        ⊎ ((r ≡ some (record { size = size; settled = false }))
            × Balanced count flying (reserved + size) b'
            × (ledger b' ≡ ledger b))
  unfolding reserve_for_send
  reserve-Balanced size =
      let mr = length b.events in
      let mb = b.limits.bytes - size in
      ground (
        arith,
        v.queued,
        v.in_flight,
        v.resent,
        v.sent,
        v.within,
        v.records,
        v.some_records,
        evict_counts mr mb b v.queued,
        evict_keeps mr mb b,
      )

  expired-Balanced :
      (now : ℕ)
      → Balanced count flying reserved (evict_expired now b)
        × (ledger (evict_expired now b) ≡ ledger b)
  unfolding evict_expired
  expired-Balanced now = ground (
    arith,
    v.queued,
    v.in_flight,
    v.resent,
    v.sent,
    v.within,
    v.records,
    v.some_records,
    expire_loop-Accounts now b.queued_bytes b.events v.queued,
  )

  pub take-Balanced :
      (now : ℕ)
      → count ≡ 0
      → flying ≡ 0
      → let (pending, b') = take_pending now b in
        Balanced (length pending) (total_held_bytes pending) reserved b' × (ledger b' ≡ ledger b)
  unfolding take_pending
  take-Balanced now c f =
      let (v1, l1) = expired-Balanced now in
      let (v2, l2) =
        take_from-Balanced reserved (evict_expired now b).events (evict_expired now b) refl
          (rw (c, f) at v1) in
      (v2, l2 ∙ l1)

  pub put_back-Balanced :
      (kept : List BufferedEvent)
      → count ≡ length kept
      → flying ≡ total_held_bytes kept
      → Balanced 0 0 reserved (put_back kept b) × (ledger (put_back kept b) ≡ ledger b)
  unfolding put_back
  put_back-Balanced [] c f = ground arith
  put_back-Balanced (e ∷ es) c f =
      let b1 = record b {
        in_flight = b.in_flight - suc (length es);
        in_flight_bytes = b.in_flight_bytes - total_held_bytes (e ∷ es);
        queued_bytes = b.queued_bytes + total_held_bytes (e ∷ es);
        events = (e ∷ es) ++ b.events;
      } in
      ground (
        arith,
        v.queued,
        v.in_flight,
        v.resent,
        v.sent,
        v.within,
        v.records,
        v.some_records,
        evict_counts b.limits.records b.limits.bytes b1,
        evict_keeps b.limits.records b.limits.bytes b1,
        total-append (e ∷ es) b.events,
        length-append (e ∷ es) b.events,
      )

module _ (count flying reserved : ℕ) (b : Buffer) where
  pub release_send-Balanced :
      (size : ℕ)
      → Balanced count flying (size + reserved) b
      → Balanced count flying reserved (release_send size b)
        × (ledger (release_send size b) ≡ ledger b)
  unfolding release_send
  release_send-Balanced size v = ground arith

  pub hold_sent-Balanced :
      (now : ℕ) (e : BufferedEvent) (size : ℕ)
      → Balanced count flying (size + reserved) b
      → Balanced count flying reserved (hold_sent now e size b)
        × (ledger (hold_sent now e size b) ≡ suc (ledger b))
  unfolding hold_sent
  hold_sent-Balanced now e size v =
      push-Balanced count flying reserved (record b { sending_bytes = b.sending_bytes - size })
        (ground arith) now e
