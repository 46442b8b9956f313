-- ===== src/Metering/DeliveryMonitor.antt =====
-- core/metering/delivery_monitor.go: one warning for each outage, and one notice for its end.
use revenium_go_sdk.Base.{
  ℕ, suc, ◌+◌, ◌≡◌, Bool, true, false, Option, none, some, if◌then◌else◌, arith, Unicode,
}
use revenium_go_sdk.Core.Errors.{Failure, circuit_open}
use revenium_go_sdk.Resilience.Classify.{is_bufferable}

-- The flag, and the count of the warnings and of the calls of onRecovery.
pub record Monitor : Type 0 where
  pub failing : Bool
  pub warnings : ℕ
  pub recoveries : ℕ

abbrev pub new_monitor : Monitor
new_monitor = record { failing = false; warnings = 0; recoveries = 0 }

abbrev warn : Monitor → Monitor
warn m = if m.failing then m else record m { failing = true; warnings = suc m.warnings }

abbrev recover : Monitor → Monitor
recover m = if m.failing then record m { failing = false; recoveries = suc m.recoveries } else m

-- `err == resilience.ErrCircuitOpen`, which a wrapped one is not.
abbrev is_bare_circuit_open : Failure → Bool
is_bare_circuit_open circuit_open = true
is_bare_circuit_open _ = false

unfoldable pub record_outcome : Unicode → Option Failure → Monitor → Monitor
unfolding is_bufferable
record_outcome u none m = recover m
record_outcome u (some err) m =
    if is_bare_circuit_open err then m else if is_bufferable u err then warn m else m

-- There is one warning for each recovery, and one more during an outage.
abbrev pub IsPaired : Monitor → Type 0
IsPaired m = m.warnings ≡ m.recoveries + (if m.failing then 1 else 0)

pub record_outcome-IsPaired :
    (u : Unicode) (err : Option Failure) (m : Monitor)
    → IsPaired m
    → IsPaired (record_outcome u err m)
unfolding record_outcome
record_outcome-IsPaired u none m h = ground arith
record_outcome-IsPaired u (some err) m h = ground arith
