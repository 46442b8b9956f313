-- ===== src/Resilience/Breaker/System/Probes.antt =====
-- Tickets and generations: one probe at a time while half-open.
use native.Mathlib.Decide.{ℕ_discrete}
use revenium_go_sdk.Base.{
  ℕ, ◌+◌, ◌<◌, ◌≡◌, ◌≢◌, inl, inr, List, [], ◌∷◌, arith, some, get_elem?, length, if◌then◌else◌,
  Option-cases, ap, ◌∙◌,
}
use revenium_go_sdk.Resilience.Breaker.{Outcome, admit, hold_open_for, reset}
use revenium_go_sdk.Resilience.BreakerState.{
  new_circuit_breaker, Clock, GivenConfig, half_open, generations,
}
use revenium_go_sdk.Resilience.Breaker.Invariant
use revenium_go_sdk.Resilience.Breaker.System.{
  System, Event, begins, ends, holds, resets, remove_at, step, run, start, ended,
}
use revenium_go_sdk.Resilience.Breaker.System.Tickets.{
  holders, UpTo, step-Moves, UpTo-mono, holders_above, remove_at-UpTo, holders-remove_at,
  finish-Moves, finish_stale, finish_current,
}

-- Tickets are not from the future, and a half-open breaker has a call in flight exactly when it
-- says so.
pub record Inv (s : System) : Type 0 where
  pub sound : Invariant.Inv s.breaker
  pub issued : UpTo s.breaker.generation s.calls
  pub one_probe :
      s.breaker.state ≡ half_open
      → holders s.breaker.generation s.calls ≡ (if s.breaker.half_open_in_flight then 1 else 0)

begins-Inv :
    (now : ℕ) (s : System)
    → s.breaker.generation + 1 < generations
    → Inv s
    → Inv (step s (begins now))
unfolding step admit
begins-Inv now s h v = ground (
  arith,
  Invariant.admit-Inv now s.breaker v.sound,
  holders_above s.breaker.generation (s.breaker.generation + 1) s.calls,
  UpTo-mono {m = s.breaker.generation} {n = s.breaker.generation + 1} s.calls,
)

-- The end of a call, by whether its ticket is still the generation's.
stale-Inv :
    (i t : ℕ) (o : Outcome) (c : Clock) (s : System)
    → get_elem? s.calls i ≡ some t
    → t ≢ s.breaker.generation
    → Inv s
    → Inv (ended (some t) i o c s)
stale-Inv i t o c s e n v = rw (finish_stale t o c s.breaker n) (record {
  sound = v.sound;
  issued = remove_at-UpTo i s.breaker.generation s.calls v.issued;
  one_probe = ground (arith, holders-remove_at i t s.breaker.generation s.calls e);
})

current-Inv :
    (i : ℕ) (o : Outcome) (c : Clock) (s : System)
    → get_elem? s.calls i ≡ some s.breaker.generation
    → s.breaker.generation + 1 < generations
    → Inv s
    → Inv (ended (some s.breaker.generation) i o c s)
current-Inv i o c s e h v = record {
  sound = Invariant.finish-Inv g o c s.breaker v.sound;
  issued = ground (
    arith,
    finish-Moves g o c s.breaker h,
    UpTo-mono {m = g} {n = g + 1} (remove_at i s.calls),
    remove_at-UpTo i g s.calls v.issued,
  );
  one_probe = ground (arith, finish_current o c s.breaker h, holders-remove_at i g g s.calls e);
}
  where
    g : ℕ
    g = s.breaker.generation

ends-Inv :
    (i : ℕ) (o : Outcome) (c : Clock) (s : System)
    → s.breaker.generation + 1 < generations
    → Inv s
    → Inv (step s (ends i o c))
unfolding step
ends-Inv i o c s h v = elim (Option-cases (get_elem? s.calls i)) [
  | inl e ↦ rw (e, step) v
  | inr (t, e) ↦
      rw (e, step)
        (elim (ℕ_discrete t s.breaker.generation) [
          | yes same ↦ rw same (current-Inv i o c s (e ∙ ap some same) h v)
          | no differs ↦ stale-Inv i t o c s e differs v
        ])
]

holds-Inv :
    (d now : ℕ) (s : System)
    → s.breaker.generation + 1 < generations
    → Inv s
    → Inv (step s (holds d now))
unfolding step hold_open_for
holds-Inv d now s h v = ground (
  arith,
  Invariant.hold_open_for-Inv d now s.breaker v.sound,
  UpTo-mono {m = s.breaker.generation} {n = s.breaker.generation + 1} s.calls,
)

resets-Inv :
    (now : ℕ) (s : System)
    → s.breaker.generation + 1 < generations
    → Inv s
    → Inv (step s (resets now))
unfolding step reset
resets-Inv now s h v = ground (
  arith,
  Invariant.reset-Inv now s.breaker v.sound,
  UpTo-mono {m = s.breaker.generation} {n = s.breaker.generation + 1} s.calls,
)

pub step-Inv :
    (s : System) (e : Event) → s.breaker.generation + 1 < generations → Inv s → Inv (step s e)
step-Inv s (begins now) h v = begins-Inv now s h v
step-Inv s (ends i o c) h v = ends-Inv i o c s h v
step-Inv s (holds d now) h v = holds-Inv d now s h v
step-Inv s (resets now) h v = resets-Inv now s h v

pub run-Inv :
    (s : System) (es : List Event)
    → s.breaker.generation + length es < generations
    → Inv s
    → Inv (run s es)
unfolding run
run-Inv s [] h v = v
run-Inv s (e ∷ es) h v =
    run-Inv (step s e) es (ground (arith, step-Moves s e)) (step-Inv s e (omega arith) v)

pub start-Inv : (g : GivenConfig) (now : ℕ) → Inv (start g now)
unfolding start new_circuit_breaker
start-Inv g now = record {
  sound = Invariant.new_circuit_breaker-Inv g now;
  issued = tt;
  one_probe = λ e. cc;
}

start_room :
    (g : GivenConfig) (now n : ℕ)
    → n < generations
    → (start g now).breaker.generation + n < generations
unfolding start new_circuit_breaker
start_room g now n h = omega arith

-- After any run of fewer than 2^64 events from a new breaker, a half-open breaker has exactly one
-- call that was admitted to it and has not ended when it refuses others, and none when it admits
-- the next one: at most one probe at a time, and no probe is ever waited for in vain.
pub one_probe_at_a_time :
    (g : GivenConfig) (now : ℕ) (es : List Event)
    → length es < generations
    → (run (start g now) es).breaker.state ≡ half_open
    → let s = run (start g now) es in
      holders s.breaker.generation s.calls ≡ (if s.breaker.half_open_in_flight then 1 else 0)
one_probe_at_a_time g now es h e =
    (run-Inv (start g now) es (start_room g now (length es) h) (start-Inv g now)).one_probe e
