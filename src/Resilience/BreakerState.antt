-- ===== src/Resilience/BreakerState.antt =====
-- The state and the configuration of core/resilience/circuit_breaker.go. Times and durations are
-- nanoseconds.
use revenium_go_sdk.Base.{ℕ, ◌*◌, ◌^◌, List, [], Bool, false, Option, ℤ, positive_or}
use revenium_go_sdk.Core.Errors.{Failure}

pub data State : Type 0 where
  closed open_state half_open : State

abbrev pub second : ℕ
second = 10 ^ 9

abbrev pub max_failure_history : ℕ
max_failure_history = 1000

abbrev pub periodic_cleanup_interval : ℕ
periodic_cleanup_interval = 5 * 60 * second

abbrev pub periodic_cleanup_size : ℕ
periodic_cleanup_size = 100

-- What the caller gives; numbers that are not positive stand for the defaults.
pub record GivenConfig : Type 0 where
  pub failure_threshold : ℤ
  pub recovery_timeout : ℤ
  pub success_threshold : ℤ
  pub time_window : ℤ
  pub should_trip : Option (Failure → Bool)
  pub consecutive_failures : Bool

-- What the breaker keeps.
pub record Config : Type 0 where
  pub failure_threshold : ℕ
  pub recovery_timeout : ℕ
  pub success_threshold : ℕ
  pub time_window : ℕ
  pub should_trip : Option (Failure → Bool)
  pub consecutive_failures : Bool

pub record Breaker : Type 0 where
  pub state : State
  pub success_count : ℕ
  pub reopen_at : ℕ
  pub last_cleanup_time : ℕ
  pub failures : List ℕ  -- oldest first
  pub half_open_in_flight : Bool
  pub generation : ℕ  -- uint64
  pub config : Config

abbrev pub generations : ℕ
generations = 2 ^ 64

-- The two readings of the clock that one recorded outcome makes.
pub record Clock : Type 0 where
  pub now : ℕ
  pub at_cleanup : ℕ

unfoldable pub new_circuit_breaker : GivenConfig → ℕ → Breaker
new_circuit_breaker g now = record {
  state = closed;
  success_count = 0;
  reopen_at = 0;
  last_cleanup_time = now;
  failures = [];
  half_open_in_flight = false;
  generation = 0;
  config = record {
    failure_threshold = positive_or g.failure_threshold 5;
    recovery_timeout = positive_or g.recovery_timeout (30 * second);
    success_threshold = positive_or g.success_threshold 3;
    time_window = positive_or g.time_window (60 * second);
    should_trip = g.should_trip;
    consecutive_failures = g.consecutive_failures;
  };
}
