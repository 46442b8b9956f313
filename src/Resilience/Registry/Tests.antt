-- ===== src/Resilience/Registry/Tests.antt =====
-- The theorems on the registry at concrete inputs.
use revenium_go_sdk.Base.{
  ℕ, ◌≤◌, ◌≡◌, refl, List, [], ◌∷◌, none, some, get_elem?, map, Text, text_eq, update_at, codes,
  ascii,
}
use revenium_go_sdk.Resilience.BreakerState.{Breaker, new_circuit_breaker}
use revenium_go_sdk.Resilience.Registry.{
  ScopedBreaker, no_breakers, Event, acquires, releases, uses, run,
}
use revenium_go_sdk.Resilience.Registry.Spec.{spec_run, view}
use revenium_go_sdk.Resilience.Registry.Counts.{users_of}
use revenium_go_sdk.Resilience.Registry.Counts.Runs.{users_exact}
use revenium_go_sdk.Resilience.Registry.Refine.Runs.{run_refines}

abbrev one_failure : Breaker → Breaker
one_failure b = record b { generation = 7 }

-- Two clients of one scope and one of another; one gives back and uses nothing more.
abbrev three_clients : List Event
three_clients =
    acquires (codes "a") 1
    ∷ acquires (codes "a") 2
    ∷ acquires (codes "b") 3
    ∷ uses one_failure 0
    ∷ releases 0
    ∷ releases 0
    ∷ []

users_exact_example :
    ((a : ℕ) (e : ScopedBreaker)
      → get_elem? (run ascii three_clients no_breakers).entries a ≡ some e
      → e.users ≡ users_of a (run ascii three_clients no_breakers).handles)
    × ((k : Text) (a : ℕ)
        → (run ascii three_clients no_breakers).scoped k ≡ some a
        → 1 ≤ users_of a (run ascii three_clients no_breakers).handles)
users_exact_example = users_exact ascii three_clients

run_refines_example :
    view (run ascii three_clients no_breakers)
    ≡ spec_run ascii three_clients (record { breakers = λ k. none; clients = [] })
run_refines_example = run_refines ascii three_clients refl

-- The second release of a handle does nothing, and the failure is seen by the client that is left.
one_left :
    map {B = ℕ × ℕ}
      (λ e. (e.users, e.breaker.generation))
      (run ascii three_clients no_breakers).entries
    ≡ (1, 7) ∷ (1, 0) ∷ []
unfolding run text_eq update_at new_circuit_breaker
one_left = refl
