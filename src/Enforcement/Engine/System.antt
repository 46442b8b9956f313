-- ===== src/Enforcement/Engine/System.antt =====
-- Clients that take and release leases beside each other, and the pollers. Every step is one
-- critical section, so any interleaving of goroutines is a list of steps. `stopping` holds the
-- pollers that `end` gave back and that `release` has still to stop. Any poller may boot or fetch at
-- any time, which is more than the clients do.
use revenium_go_sdk.Base.{
  update_at, ℕ, List, [], ◌∷◌, Bool, false, ◌&&◌, ◌||◌, Option, none, some, ◌==◌, if◌then◌else◌,
  get_elem?, Text,
}
use revenium_go_sdk.Enforcement.Engine.{
  EngineKey, Lease, Registry, Answer, no_engines, register, boot, stop_poll, fetch_rules, claim,
  end_lease, stop_all,
}

pub record System : Type 0 where
  pub registry : Registry
  pub stopping : List ℕ

-- `ends` comes after `claims`; `stops` after the `ends` that gave the poller back.
pub data Event : Type 0 where
  starts : EngineKey → Event
  boots : ℕ → Event
  fetches : ℕ → Answer → ℕ → Event
  claims : ℕ → Event
  ends : ℕ → Event
  stops : ℕ → Event
  stops_all : Event

unfoldable pub elem : ℕ → List ℕ → Bool
elem a [] = false
elem a (b ∷ bs) = a == b || elem a bs

unfoldable pub without : ℕ → List ℕ → List ℕ
without a [] = []
without a (b ∷ bs) = if a == b then without a bs else b ∷ without a bs

-- Between its `claims` and its `ends`.
abbrev pub ending : Option Lease → Bool
ending none = false
ending (some l) = l.released && l.held

abbrev pub on_registry : (Registry → Registry) → System → System
on_registry f s = record s { registry = f s.registry }

abbrev pub ended_by : Option ℕ × Registry → System → System
ended_by (none, r) s = record s { registry = r }
ended_by (some a, r) s = record { registry = r; stopping = a ∷ s.stopping }

module _ (valid_base_url : Text → Bool) where
  unfoldable pub step : System → Event → System
  unfolding register boot stop_poll fetch_rules claim update_at end_lease stop_all elem without
  step s (starts k) = on_registry (register k) s
  step s (boots a) =
      on_registry (λ r. record r { pollers = update_at (boot valid_base_url) r.pollers a }) s
  step s (fetches a answer now) =
      on_registry (λ r. record r { pollers = update_at (fetch_rules answer now) r.pollers a }) s
  step s (claims i) = on_registry (λ r. record r { leases = update_at claim r.leases i }) s
  step s (ends i) =
      if ending (get_elem? s.registry.leases i) then ended_by (end_lease i s.registry) s else s
  step s (stops a) =
      if elem a s.stopping
      then record {
        registry = record s.registry { pollers = update_at stop_poll s.registry.pollers a };
        stopping = without a s.stopping;
      }
      else s
  step s stops_all = on_registry stop_all s

  unfoldable pub run : System → List Event → System
  unfolding step
  run s [] = s
  run s (e ∷ es) = run (step s e) es

abbrev pub no_clients : System
no_clients = record { registry = no_engines; stopping = [] }
