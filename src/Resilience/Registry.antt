-- ===== src/Resilience/Registry.antt =====
-- core/resilience/global.go: the breakers that the clients of one scope share, and their users.
-- A pointer to an entry is its place in a list that only grows; a client holds a handle, whose
-- `released` is the sync.Once. The scope of an endpoint, a base URL and a key, which is a digest of
-- them, is a text that the caller gives. The legacy process-wide breaker is left out.
pub mod Counts
pub mod Spec
pub mod Refine
mod Tests
use revenium_go_sdk.Base.{
  ℕ, suc, ◌-◌, ◌*◌, Bool, true, false, ◌&&◌, List, [], ◌∷◌, ◌++◌, Option, none, some, ℤ, ◌==◌,
  length, get_elem?, update_at, if◌then◌else◌, Text, text_eq, Unicode,
}
use revenium_go_sdk.Resilience.Classify.{is_retryable_error}
use revenium_go_sdk.Resilience.BreakerState.{Breaker, GivenConfig, new_circuit_breaker, second}

-- `DeliveryCircuitBreakerConfig`; a time window of zero is the default.
abbrev pub delivery_circuit_breaker_config : Unicode → GivenConfig
delivery_circuit_breaker_config u = record {
  failure_threshold = ℤ.pos 3;
  recovery_timeout = ℤ.pos (5 * second);
  success_threshold = ℤ.pos 1;
  time_window = ℤ.pos 0;
  should_trip = some (is_retryable_error u);
  consecutive_failures = true;
}

pub record ScopedBreaker : Type 0 where
  pub breaker : Breaker
  pub users : ℕ

-- What AcquireCircuitBreaker returns: the entry, and what its release function refers to.
pub record Handle : Type 0 where
  pub scope : Text
  pub entry : ℕ
  pub released : Bool

pub record Breakers : Type 0 where
  pub entries : List ScopedBreaker
  -- `scopedCBs`
  pub scoped : Text → Option ℕ
  pub handles : List Handle

abbrev pub no_breakers : Breakers
no_breakers = record { entries = []; scoped = λ k. none; handles = [] }

abbrev pub fresh_breaker : Unicode → ℕ → ScopedBreaker
fresh_breaker u now = record {
  breaker = new_circuit_breaker (delivery_circuit_breaker_config u) now;
  users = 0;
}

abbrev pub add_user : ScopedBreaker → ScopedBreaker
add_user e = record e { users = suc e.users }

abbrev pub drop_user : ScopedBreaker → ScopedBreaker
drop_user e = record e { users = e.users - 1 }

abbrev pub give_back : Handle → Handle
give_back h = record h { released = true }

abbrev pub entry_at : Text → Option ℕ → (Text → Option ℕ) → Text → Option ℕ
entry_at scope a map k = if text_eq k scope then a else map k

abbrev pub hold_entry : Text → ℕ → Breakers → Breakers
hold_entry scope a s = record s {
  entries = update_at add_user s.entries a;
  handles = s.handles ++ record { scope = scope; entry = a; released = false } ∷ [];
}

abbrev pub store_entry : Text → ScopedBreaker → Breakers → Breakers
store_entry scope e s = record s {
  entries = s.entries ++ e ∷ [];
  scoped = entry_at scope (some (length s.entries)) s.scoped;
}

abbrev pub acquired : Text → ScopedBreaker → Option ℕ → Breakers → Breakers
acquired scope e (some a) s = hold_entry scope a s
acquired scope e none s = hold_entry scope (length s.entries) (store_entry scope e s)

unfoldable pub acquire_circuit_breaker : Unicode → Text → ℕ → Breakers → Breakers
acquire_circuit_breaker u scope now s = acquired scope (fresh_breaker u now) (s.scoped scope) s

abbrev pub has_no_users : Option ScopedBreaker → Bool
has_no_users none = false
has_no_users (some e) = e.users == 0

abbrev pub is_entry : Option ℕ → ℕ → Bool
is_entry none a = false
is_entry (some b) a = b == a

unfoldable pub release_scoped_breaker : Text → ℕ → Breakers → Breakers
release_scoped_breaker scope a s =
    let entries = update_at drop_user s.entries a in
    if has_no_users (get_elem? entries a) && is_entry (s.scoped scope) a
    then record s { entries = entries; scoped = entry_at scope none s.scoped }
    else record s { entries = entries }

abbrev pub released_handle : Option Handle → ℕ → Breakers → Breakers
released_handle none i s = s
released_handle (some h) i s =
    if h.released
    then s
    else release_scoped_breaker h.scope h.entry
        (record s { handles = update_at give_back s.handles i })

-- The release function of the i-th handle, which does its work once.
unfoldable pub release_handle : ℕ → Breakers → Breakers
unfolding release_scoped_breaker
release_handle i s = released_handle (get_elem? s.handles i) i s

-- `ResetCircuitBreakers`.
abbrev pub reset_circuit_breakers : Breakers → Breakers
reset_circuit_breakers s = record s { scoped = λ k. none }

abbrev pub change_breaker : (Breaker → Breaker) → ScopedBreaker → ScopedBreaker
change_breaker f e = record e { breaker = f e.breaker }

abbrev pub used : (Breaker → Breaker) → Option Handle → Breakers → Breakers
used f none s = s
used f (some h) s =
    if h.released then s else record s { entries = update_at (change_breaker f) s.entries h.entry }

-- A client that has not given its breaker back does something with it.
unfoldable pub use_breaker : (Breaker → Breaker) → ℕ → Breakers → Breakers
use_breaker f i s = used f (get_elem? s.handles i) s

-- What happens to the breakers, in the order in which globalMu and their own locks let it happen.
pub data Event : Type 0 where
  acquires : Text → ℕ → Event
  releases : ℕ → Event
  uses : (Breaker → Breaker) → ℕ → Event
  resets : Event

unfoldable pub step : Unicode → Event → Breakers → Breakers
unfolding acquire_circuit_breaker release_handle use_breaker
step u (acquires scope now) s = acquire_circuit_breaker u scope now s
step u (releases i) s = release_handle i s
step u (uses f i) s = use_breaker f i s
step u resets s = reset_circuit_breakers s

unfoldable pub run : Unicode → List Event → Breakers → Breakers
unfolding step
run u [] s = s
run u (e ∷ es) s = run u es (step u e s)
