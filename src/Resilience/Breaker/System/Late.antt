-- ===== src/Resilience/Breaker/System/Late.antt =====
-- A call that ends after the breaker has changed state.
use revenium_go_sdk.Base.{
  ℕ, suc, ◌+◌, ◌≤◌, ◌<◌, ◌≡◌, ◌≢◌, refl, ◌⊎◌, inl, List, [], ◌∷◌, arith, length,
}
use revenium_go_sdk.Resilience.Breaker.{Outcome, ticket, admit, finish}
use revenium_go_sdk.Resilience.BreakerState.{Clock, generations}
use revenium_go_sdk.Resilience.Breaker.System.{System, Event, begins, step, run}
use revenium_go_sdk.Resilience.Breaker.System.Tickets.{step-Moves, finish_stale}

-- The generation never falls, and has risen where the state differs.
run-grows :
    (s : System) (es : List Event)
    → s.breaker.generation + length es < generations
    → (s.breaker.generation ≤ (run s es).breaker.generation)
      × ((run s es).breaker.generation ≤ s.breaker.generation + length es)
      × (((run s es).breaker.state ≡ s.breaker.state)
          ⊎ (s.breaker.generation < (run s es).breaker.generation))
unfolding run
run-grows s [] h = (omega arith, omega arith, inl refl)
run-grows s (e ∷ es) h = ground (arith, step-Moves s e, run-grows (step s e) es)

admit_ticket :
    (now t : ℕ) (s : System)
    → (admit now s.breaker).0 ≡ ticket t
    → (step s (begins now)).breaker.generation ≡ t
unfolding step admit
admit_ticket now t s e = ground arith

-- A call is admitted, the breaker changes state, and anything may follow: when the call ends, its
-- outcome changes nothing, in any run of fewer than 2^64 events.
pub late_outcome_ignored :
    (s : System) (now t : ℕ) (es later : List Event) (o : Outcome) (c : Clock)
    → (admit now s.breaker).0 ≡ ticket t
    → s.breaker.generation + suc (length es + length later) < generations
    → (run (step s (begins now)) es).breaker.state ≢ (step s (begins now)).breaker.state
    → finish t o c (run (run (step s (begins now)) es) later).breaker
      ≡ (run (run (step s (begins now)) es) later).breaker
late_outcome_ignored s now t es later o c e h changed =
    finish_stale t o c (run (run s1 es) later).breaker (
      ground (
        arith,
        step-Moves s (begins now),
        admit_ticket now t s e,
        run-grows s1 es,
        run-grows (run s1 es) later,
      ))
  where
    s1 : System
    s1 = step s (begins now)
