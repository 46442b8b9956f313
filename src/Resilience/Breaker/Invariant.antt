-- ===== src/Resilience/Breaker/Invariant.antt =====
-- What holds of a breaker between two calls, and that every call keeps it.
use revenium_go_sdk.Base.{
  ℕ, zero, suc, ◌≤◌, ◌<◌, ◌≡◌, ◌⊎◌, List, [], ◌∷◌, ◌++◌, Bool, true, false, arith, length,
  length-append, length-drop, ◌/◌, ℤ, positive_or,
}
use revenium_go_sdk.Resilience.Breaker.{
  Outcome, succeeded, failed, panicked, recent, remember, on_success, on_failure, admit, settle,
  release_probe, reset, hold_open_for, finish, dispatch_failure,
}
use revenium_go_sdk.Resilience.BreakerState.{
  Breaker, Config, GivenConfig, Clock, closed, half_open, generations, max_failure_history,
  new_circuit_breaker,
}

-- The configuration that NewCircuitBreaker makes.
pub record IsConfig (c : Config) : Type 0 where
  pub some_failures : 0 < c.failure_threshold
  pub some_successes : 0 < c.success_threshold

pub record Inv (b : Breaker) : Type 0 where
  pub config_ok : IsConfig b.config
  pub history : length b.failures ≤ max_failure_history
  pub probing : b.half_open_in_flight ≡ true → b.state ≡ half_open
  pub below_threshold : b.state ≡ closed → length b.failures < b.config.failure_threshold
  pub progress : b.state ≡ half_open → b.success_count < b.config.success_threshold
  pub no_progress : (b.state ≡ half_open) ⊎ (b.success_count ≡ 0)
  pub in_range : b.generation < generations

pub length-recent-le : (now w : ℕ) (ts : List ℕ) → length (recent now w ts) ≤ length ts
unfolding recent
length-recent-le now w [] = omega arith
length-recent-le now w (t ∷ ts) = ground (arith, length-recent-le now w ts)

pub length-remember-le :
    (now : ℕ) (ts : List ℕ)
    → length ts ≤ max_failure_history
    → length (remember now ts) ≤ max_failure_history
unfolding remember
length-remember-le now ts h =
    ground (
      arith,
      length-append ts (now ∷ []),
      length-drop (length (ts ++ now ∷ []) / 2) (ts ++ now ∷ []),
    )

positive_or_pos : (z : ℤ) (d : ℕ) → 0 < d → 0 < positive_or z d
positive_or_pos (ℤ.pos zero) d h = h
positive_or_pos (ℤ.pos (suc n)) d h = omega arith
positive_or_pos (ℤ.negsuc n) d h = h

pub new_circuit_breaker-Inv : (g : GivenConfig) (now : ℕ) → Inv (new_circuit_breaker g now)
unfolding new_circuit_breaker
new_circuit_breaker-Inv g now =
    let f = positive_or_pos g.failure_threshold 5 (omega arith) in
    let s = positive_or_pos g.success_threshold 3 (omega arith) in ground (arith, f, s)

on_success-Inv : (c : Clock) (b : Breaker) → Inv b → Inv (on_success c b)
unfolding on_success
on_success-Inv c b v = ground (arith, length-recent-le c.at_cleanup b.config.time_window b.failures)

pub on_failure-Inv : (c : Clock) (b : Breaker) → Inv b → Inv (on_failure c b)
unfolding on_failure dispatch_failure
on_failure-Inv c b v = ground (
  arith,
  length-recent-le c.at_cleanup b.config.time_window (remember c.now b.failures),
  length-remember-le c.now b.failures v.history,
)

pub admit-Inv : (now : ℕ) (b : Breaker) → Inv b → Inv (admit now b).1
unfolding admit
admit-Inv now b v = ground arith

pub settle-Inv : (t : ℕ) (bad : Bool) (c : Clock) (b : Breaker) → Inv b → Inv (settle t bad c b)
unfolding settle
settle-Inv t bad c b v = ground (arith, on_success-Inv c b v, on_failure-Inv c b v)

release_probe-Inv : (t : ℕ) (b : Breaker) → Inv b → Inv (release_probe t b)
unfolding release_probe
release_probe-Inv t b v = ground arith

pub finish-Inv : (t : ℕ) (o : Outcome) (c : Clock) (b : Breaker) → Inv b → Inv (finish t o c b)
unfolding finish
finish-Inv t succeeded c b v = settle-Inv t false c b v
finish-Inv t (failed err) c b v = ground (arith, settle-Inv t true c b v, release_probe-Inv t b v)
finish-Inv t panicked c b v = settle-Inv t true c b v

pub reset-Inv : (now : ℕ) (b : Breaker) → Inv b → Inv (reset now b)
unfolding reset
reset-Inv now b v = ground arith

pub hold_open_for-Inv : (d now : ℕ) (b : Breaker) → Inv b → Inv (hold_open_for d now b)
unfolding hold_open_for
hold_open_for-Inv d now b v = ground arith
