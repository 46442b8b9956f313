-- ===== src/Resilience/Breaker/System.antt =====
-- Calls of one breaker from many goroutines: any order in which they are admitted and end, with
-- HoldOpenFor and Reset in between. `calls` holds the tickets of the calls that are running.
pub mod Tickets
pub mod Probes
pub mod Late
use revenium_go_sdk.Base.{ℕ, zero, suc, List, [], ◌∷◌, Option, none, some, get_elem?}
use revenium_go_sdk.Resilience.Breaker.{
  Outcome, Admission, ticket, refused, admit, finish, hold_open_for, reset,
}
use revenium_go_sdk.Resilience.BreakerState.{Breaker, Clock, GivenConfig, new_circuit_breaker}

pub record System : Type 0 where
  pub breaker : Breaker
  pub calls : List ℕ

pub data Event : Type 0 where
  begins : ℕ → Event
  ends : ℕ → Outcome → Clock → Event
  holds : ℕ → ℕ → Event
  resets : ℕ → Event

unfoldable pub remove_at : ℕ → List ℕ → List ℕ
remove_at i [] = []
remove_at zero (t ∷ ts) = ts
remove_at (suc i) (t ∷ ts) = t ∷ remove_at i ts

abbrev admitted : Admission × Breaker → List ℕ → System
admitted (refused, b) ts = record { breaker = b; calls = ts }
admitted (ticket t, b) ts = record { breaker = b; calls = t ∷ ts }

abbrev ended : Option ℕ → ℕ → Outcome → Clock → System → System
ended none i o c s = s
ended (some t) i o c s = record { breaker = finish t o c s.breaker; calls = remove_at i s.calls }

-- One critical section of some goroutine. The i-th running call is the one that ends.
unfoldable pub step : System → Event → System
unfolding admit finish hold_open_for reset remove_at
step s (begins now) = admitted (admit now s.breaker) s.calls
step s (ends i o c) = ended (get_elem? s.calls i) i o c s
step s (holds d now) = record s { breaker = hold_open_for d now s.breaker }
step s (resets now) = record s { breaker = reset now s.breaker }

unfoldable pub run : System → List Event → System
unfolding step
run s [] = s
run s (e ∷ es) = run (step s e) es

unfoldable pub start : GivenConfig → ℕ → System
unfolding new_circuit_breaker
start g now = record { breaker = new_circuit_breaker g now; calls = [] }
