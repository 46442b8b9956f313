-- ===== src/Metering/Buffer/Evicting.antt =====
-- Which records are dropped for room, and that the counters follow.
use revenium_go_sdk.Base.{
  ℕ, zero, suc, ◌+◌, ◌-◌, ◌≤◌, ◌<◌, ◌≡◌, refl, ◌⊎◌, inl, List, [], ◌∷◌, ◌++◌, arith, length, drop,
}
use revenium_go_sdk.Metering.Buffer.{Eviction, evict_loop, expire_loop}
use revenium_go_sdk.Metering.Record.{BufferedEvent, event_bytes, total_held_bytes}

pub total-append :
    (xs ys : List BufferedEvent)
    → total_held_bytes (xs ++ ys) ≡ total_held_bytes xs + total_held_bytes ys
total-append [] ys = omega arith
total-append (x ∷ xs) ys = omega (arith, total-append xs ys)

-- The counters of an eviction fit the records it keeps.
pub record Accounts (es : List BufferedEvent) (v : Eviction) : Type 0 where
  pub bytes : v.queued ≡ total_held_bytes v.rest
  pub count : v.dropped + length v.rest ≡ length es
  pub less : total_held_bytes v.rest ≤ total_held_bytes es

pub evict_loop-Accounts :
    (mr mb other q : ℕ) (es : List BufferedEvent)
    → q ≡ total_held_bytes es
    → Accounts es (evict_loop mr mb other q es)
unfolding evict_loop
evict_loop-Accounts mr mb other q [] h = record {
  bytes = h;
  count = omega arith;
  less = omega arith;
}
evict_loop-Accounts mr mb other q (e ∷ es) h =
    ground (arith, evict_loop-Accounts mr mb other (q - event_bytes e) es)

-- The loop ends within both limits, or with nothing left to drop.
pub evict_loop_fits :
    (mr mb other q : ℕ) (es : List BufferedEvent)
    → let v = evict_loop mr mb other q es in
      (v.rest ≡ []) ⊎ ((length v.rest ≤ mr) × (v.queued + other ≤ mb))
unfolding evict_loop
evict_loop_fits mr mb other q [] = inl refl
evict_loop_fits mr mb other q (e ∷ es) =
    ground (arith, evict_loop_fits mr mb other (q - event_bytes e) es)

-- It keeps the newest records.
pub evict_loop_newest :
    (mr mb other q : ℕ) (es : List BufferedEvent)
    → let v = evict_loop mr mb other q es in v.rest ≡ drop v.dropped es
unfolding evict_loop
evict_loop_newest mr mb other q [] = refl
evict_loop_newest mr mb other q (e ∷ es) =
    ground (arith, evict_loop_newest mr mb other (q - event_bytes e) es)

-- It drops no more than it must: with fewer records dropped a limit is still passed.
pub evict_loop_least :
    (mr mb other q k : ℕ) (es : List BufferedEvent)
    → q ≡ total_held_bytes es
    → k < (evict_loop mr mb other q es).dropped
    → (mr < length (drop k es)) ⊎ (mb < total_held_bytes (drop k es) + other)
unfolding evict_loop
evict_loop_least mr mb other q k [] h l = absurd (omega arith)
evict_loop_least mr mb other q zero (e ∷ es) h l = ground arith
evict_loop_least mr mb other q (suc k) (e ∷ es) h l =
    ground (arith, evict_loop_least mr mb other (q - event_bytes e) k es)

-- The loop carries the bytes of the records that it has kept.
expire_loop_carries :
    (now q kept : ℕ) (es : List BufferedEvent)
    → q ≡ kept + total_held_bytes es
    → let v = expire_loop now q es in
      (v.queued ≡ kept + total_held_bytes v.rest)
      × (v.dropped + length v.rest ≡ length es)
      × (total_held_bytes v.rest ≤ total_held_bytes es)
unfolding expire_loop
expire_loop_carries now q kept [] h = (h, refl, omega arith)
expire_loop_carries now q kept (e ∷ es) h = ground (
  arith,
  expire_loop_carries now q (kept + event_bytes e) es,
  expire_loop_carries now (q - event_bytes e) kept es,
)

pub expire_loop-Accounts :
    (now q : ℕ) (es : List BufferedEvent)
    → q ≡ total_held_bytes es
    → Accounts es (expire_loop now q es)
expire_loop-Accounts now q es h =
    let (b, c, l) = expire_loop_carries now q 0 es (omega arith) in
    record { bytes = omega arith; count = c; less = l }
