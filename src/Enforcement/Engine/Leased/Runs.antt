-- ===== src/Enforcement/Engine/Leased/Runs.antt =====
-- Runs in which a lease keeps the poll of its team.
use revenium_go_sdk.Base.{
  ◌≡◌, refl, ℕ, ◌≤◌, List, [], ◌∷◌, Bool, true, false, some, get_elem?, arith, Text, Option-cases,
  inl, inr,
}
use revenium_go_sdk.Enforcement.Engine.{EngineKey, Registration, Poller, count_unreleased}
use revenium_go_sdk.Enforcement.Engine.Counting.{key_eq_sound}
use revenium_go_sdk.Enforcement.Engine.Counts.{AllCounted}
use revenium_go_sdk.Enforcement.Engine.Counts.Ends.{step_counted}
use revenium_go_sdk.Enforcement.Engine.Kept.Steps.{Up, step-Up}
use revenium_go_sdk.Enforcement.Engine.System.{System, Event, starts, step, run, no_clients, elem}
use revenium_go_sdk.Enforcement.Engine.Leased.{Kept, none_stops_all, register_own, step-Kept}

abbrev Good : System → Type 0
Good s = AllCounted s.registry × Up s

step-Good : (valid : Text → Bool) (s : System) (e : Event) → Good s → Good (step valid s e)
step-Good valid s e (inv, up) = (step_counted valid s e inv, step-Up valid s e inv up)

run-Good : (valid : Text → Bool) (s : System) (es : List Event) → Good s → Good (run valid s es)
unfolding run
run-Good valid s [] h = h
run-Good valid s (e ∷ es) h = run-Good valid (step valid s e) es (step-Good valid s e h)

run-Kept :
    (valid : Text → Bool) (j : EngineKey) (s : System) (es : List Event)
    → none_stops_all es ≡ true
    → Good s
    → Kept j s.registry
    → Good (run valid s es) × Kept j (run valid s es).registry
unfolding run
run-Kept valid j s [] o g h = (g, h)
run-Kept valid j s (e ∷ es) o (inv, up) h =
    run-Kept valid j (step valid s e) es (ground arith) (step-Good valid s e (inv, up))
      (step-Kept valid j s e (ground arith) inv h)

no_clients-Good : Good no_clients
unfolding elem
no_clients-Good = (λ j r e. absurd (ground arith), (λ k r e. absurd (ground arith), λ a l. refl))

-- A poller of the key that runs or is still to boot, and that nobody is about to stop.
abbrev pub PolledBy : EngineKey → System → ℕ → Poller → Type 0
PolledBy k s a p =
    (get_elem? s.registry.pollers a ≡ some p)
    × (p.key ≡ k)
    × (p.stopped ≡ false)
    × (elem a s.stopping ≡ false)

Good-poll :
    (k : EngineKey) (s : System)
    → Good s
    → Kept k s.registry
    → 1 ≤ count_unreleased k s.registry.leases
    → (reg : Registration) × (p : Poller) × (s.registry.registrations k ≡ some reg)
      × PolledBy k s reg.poller p
Good-poll k s (inv, (up, below)) h n = elim (Option-cases (s.registry.registrations k)) [
  | inl e ↦ elim h [ inl z ↦ absurd (omega arith) | inr o ↦ absurd (ground arith) ]
  | inr (reg, e) ↦
      let o = up k reg e in
      elim (Option-cases (get_elem? s.registry.pollers reg.poller)) [
        | inl z ↦ absurd (ground arith)
        | inr (p, z) ↦
            (reg, p, e, (z, key_eq_sound p.key k (ground arith), ground arith, ground arith))
      ]
]

-- A client of the key starts after `before`, and `after` follows.
abbrev pub started_between : (Text → Bool) → List Event → EngineKey → List Event → System
started_between valid before k after =
    run valid (step valid (run valid no_clients before) (starts k)) after

-- After a client of a key has started, and whatever clients start and release from then on, as
-- long as there is no Stop of all polls: while any lease on the key is unreleased, the key has a
-- registration whose poller is of this key, is not stopped, and is not about to be.
pub lease_keeps_poll :
    (valid : Text → Bool) (before after : List Event) (k : EngineKey)
    → none_stops_all after ≡ true
    → 1 ≤ count_unreleased k (started_between valid before k after).registry.leases
    → (reg : Registration) × (p : Poller) × ((started_between valid before k
            after).registry.registrations
          k
        ≡ some reg)
      × PolledBy k (started_between valid before k after) reg.poller p
unfolding step
lease_keeps_poll valid before after k o n =
    let s = run valid no_clients before in
    let g = run-Good valid no_clients before no_clients-Good in
    let (h, kept) =
      run-Kept valid k (step valid s (starts k)) after o (step-Good valid s (starts k) g)
        (inr (register_own k s.registry)) in
    Good-poll k (started_between valid before k after) h kept n
