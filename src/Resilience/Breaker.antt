-- ===== src/Resilience/Breaker.antt =====
-- core/resilience/circuit_breaker.go and ExecuteHonoringRetryAfter of retry_after.go.
-- A method that holds the mutex is one step on the record. Times and durations are nanoseconds;
-- each reading of the clock is an argument. `now - d < t` is written `now < t + d`.
pub mod Invariant
pub mod System
pub mod Opening
pub mod Recovery
use revenium_go_sdk.Base.{
  ℕ, suc, ◌+◌, ◌*◌, ◌/◌, ◌%◌, ◌^◌, ◌-◌, List, [], ◌∷◌, ◌++◌, Bool, true, false, not, ◌&&◌, ◌||◌,
  Option, none, some, ℤ, positive_or, ltb, leb, ◌==◌, if◌then◌else◌, length, drop,
}
use revenium_go_sdk.Core.Errors.{Failure, circuit_open}
use revenium_go_sdk.Resilience.Classify.{retry_after_of}
use revenium_go_sdk.Resilience.BreakerState.{
  State, closed, open_state, half_open, second, max_failure_history, periodic_cleanup_interval,
  periodic_cleanup_size, GivenConfig, Config, Breaker, generations, Clock, new_circuit_breaker,
}

unfoldable pub move_to : State → Breaker → Breaker
move_to s b = record b { state = s; generation = (b.generation + 1) % generations }

-- The times after `now - window`.
unfoldable pub recent : ℕ → ℕ → List ℕ → List ℕ
recent now window [] = []
recent now window (t ∷ ts) =
    if ltb now (t + window) then t ∷ recent now window ts else recent now window ts

unfoldable pub cleanup_old_failures : ℕ → Breaker → Breaker
unfolding recent
cleanup_old_failures now b = record b { failures = recent now b.config.time_window b.failures }

-- `now.Sub(last) >= interval`: a difference, so it is written as a sum.
unfoldable pub perform_periodic_cleanup : Clock → Breaker → Breaker
unfolding cleanup_old_failures
perform_periodic_cleanup c b =
    if leb (b.last_cleanup_time + periodic_cleanup_interval) c.now
      || ltb periodic_cleanup_size (length b.failures)
    then record (cleanup_old_failures c.at_cleanup b) { last_cleanup_time = c.now }
    else b

-- The two live cases of the switch of `onSuccess`.
success_half_open : Breaker → Breaker
unfolding move_to
success_half_open b =
    let b1 = record b { half_open_in_flight = false; success_count = b.success_count + 1 } in
    if leb b1.config.success_threshold b1.success_count
    then record (move_to closed b1) { success_count = 0; failures = [] }
    else b1

success_closed : Clock → Breaker → Breaker
unfolding perform_periodic_cleanup
success_closed c b =
    perform_periodic_cleanup c
      (if b.config.consecutive_failures then record b { failures = [] } else b)

dispatch_success : State → Clock → Breaker → Breaker
unfolding success_half_open success_closed
dispatch_success half_open c b = success_half_open b
dispatch_success closed c b = success_closed c b
dispatch_success open_state c b = b

unfoldable pub on_success : Clock → Breaker → Breaker
unfolding dispatch_success
on_success c b = dispatch_success b.state c b

trip : ℕ → Breaker → Breaker
unfolding move_to
trip now b = record (move_to open_state b) {
  success_count = 0;
  reopen_at = now + b.config.recovery_timeout;
}

-- The switch of `onFailure`.
dispatch_failure : State → ℕ → Breaker → Breaker
unfolding trip
dispatch_failure half_open now b = trip now (record b { half_open_in_flight = false })
dispatch_failure closed now b =
    if leb b.config.failure_threshold (length b.failures) then trip now b else b
dispatch_failure open_state now b = b

-- The history, at most `max_failure_history` long: a longer one loses its older half.
unfoldable pub remember : ℕ → List ℕ → List ℕ
remember now ts =
    let all = ts ++ now ∷ [] in
    if ltb max_failure_history (length all) then drop (length all / 2) all else all

unfoldable pub on_failure : Clock → Breaker → Breaker
unfolding remember cleanup_old_failures dispatch_failure
on_failure c b =
    let b1 =
      cleanup_old_failures c.at_cleanup (record b { failures = remember c.now b.failures }) in
    dispatch_failure b1.state c.now b1

abbrev pub record_success : Clock → Breaker → Breaker
record_success = on_success

abbrev pub record_failure : Clock → Breaker → Breaker
record_failure = on_failure

-- A ticket, or ErrCircuitOpen.
pub data Admission : Type 0 where
  ticket : ℕ → Admission
  refused : Admission

abbrev probe : Breaker → Admission × Breaker
probe b =
    if b.half_open_in_flight
    then (refused, b)
    else (ticket b.generation, record b { half_open_in_flight = true })

dispatch_admit : State → ℕ → Breaker → Admission × Breaker
unfolding move_to
dispatch_admit open_state now b =
    if ltb now b.reopen_at
    then (refused, b)
    else probe (record (move_to half_open b) { success_count = 0 })
dispatch_admit half_open now b = probe b
dispatch_admit closed now b = (ticket b.generation, b)

unfoldable pub admit : ℕ → Breaker → Admission × Breaker
unfolding dispatch_admit
admit now b = dispatch_admit b.state now b

unfoldable pub settle : ℕ → Bool → Clock → Breaker → Breaker
unfolding on_failure on_success
settle t failed c b =
    if not (t == b.generation) then b else if failed then on_failure c b else on_success c b

unfoldable pub release_probe : ℕ → Breaker → Breaker
release_probe t b = if t == b.generation then record b { half_open_in_flight = false } else b

dispatch_can_execute : State → ℕ → Breaker → Bool
dispatch_can_execute closed now b = true
dispatch_can_execute half_open now b = not b.half_open_in_flight
dispatch_can_execute open_state now b = not (ltb now b.reopen_at)

unfoldable pub can_execute : ℕ → Breaker → Bool
unfolding dispatch_can_execute
can_execute now b = dispatch_can_execute b.state now b

unfoldable pub reset : ℕ → Breaker → Breaker
unfolding move_to
reset now b = record (move_to closed b) {
  success_count = 0;
  reopen_at = 0;
  failures = [];
  half_open_in_flight = false;
  last_cleanup_time = now;
}

abbrev pub is_open : State → Bool
is_open open_state = true
is_open _ = false

-- `d <= 0` is `d == 0` on a duration that is a number.
unfoldable pub hold_open_for : ℕ → ℕ → Breaker → Breaker
unfolding move_to
hold_open_for d now b =
    let until = now + d in
    let held = record b { reopen_at = if ltb b.reopen_at until then until else b.reopen_at } in
    if d == 0
    then b
    else if is_open b.state
    then held
    else record (move_to open_state held) { success_count = 0; half_open_in_flight = false }

-- What became of the guarded call: `panicked` is settled as a failure and goes on panicking.
pub data Outcome : Type 0 where
  succeeded : Outcome
  failed : Failure → Outcome
  panicked : Outcome

abbrev pub trips : Config → Failure → Bool
trips c err = elim c.should_trip [ none ↦ true | some f ↦ f err ]

-- What `Execute` does once the call has ended.
unfoldable pub finish : ℕ → Outcome → Clock → Breaker → Breaker
unfolding settle release_probe
finish t succeeded c b = settle t false c b
finish t (failed err) c b = if trips b.config err then settle t true c b else release_probe t b
finish t panicked c b = settle t true c b

abbrev pub after_admission : Admission × Breaker → Outcome → Clock → Outcome × Breaker
after_admission (refused, b) outcome c = (failed circuit_open, b)
after_admission (ticket t, b) outcome c = (outcome, finish t outcome c b)

-- `Execute` where no other call comes in between, and what the caller sees; what `fn` does is known
-- from its outcome, which a refused call does not have.
unfoldable pub execute : ℕ → Outcome → Clock → Breaker → Outcome × Breaker
unfolding admit finish
execute now outcome c b = after_admission (admit now b) outcome c

abbrev pub error_of : Outcome → Option Failure
error_of (failed err) = some err
error_of _ = none

-- `ExecuteHonoringRetryAfter`: a panic leaves before the breaker is held open.
unfoldable pub honor : ℕ → Outcome × Breaker → Outcome × Breaker
unfolding hold_open_for retry_after_of
honor held_at (panicked, b) = (panicked, b)
honor held_at (out, b) = (out, hold_open_for (retry_after_of (error_of out)) held_at b)

unfoldable pub execute_honoring_retry_after : ℕ → Outcome → Clock → ℕ → Breaker → Outcome × Breaker
unfolding execute honor
execute_honoring_retry_after now outcome c held_at b = honor held_at (execute now outcome c b)
