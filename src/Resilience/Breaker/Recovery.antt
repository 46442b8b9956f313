-- ===== src/Resilience/Breaker/Recovery.antt =====
-- While it is open: who is refused, and how it closes again.
use native.Mathlib.Decide.{dec_lt}
use revenium_go_sdk.Base.{
  ◌∙◌, subst, leb, if◌then◌else◌, ℕ, suc, ◌+◌, ◌≤◌, ◌<◌, ◌≡◌, ◌≢◌, List, [], ◌∷◌, Bool, true, false,
  arith, get_elem?, length, ap, Option-cases, inl, inr,
}
use revenium_go_sdk.Resilience.Breaker.{
  Outcome, succeeded, failed, panicked, Admission, ticket, refused, admit, finish, settle,
  on_failure, on_success, release_probe, hold_open_for, can_execute, execute,
}
use revenium_go_sdk.Resilience.BreakerState.{Breaker, Config, Clock, closed, open_state, half_open}
use revenium_go_sdk.Resilience.Breaker.Invariant.{Inv}
use revenium_go_sdk.Resilience.Breaker.System.{
  System, Event, begins, ends, holds, resets, step, run,
}

-- The state of a breaker that is open until T at least.
abbrev pub OpenUntil : ℕ → Breaker → Type 0
OpenUntil T b = (b.state ≡ open_state) × (T ≤ b.reopen_at)

-- Every admission that is asked for comes before T, and nobody resets the breaker.
abbrev pub Before : ℕ → Event → Type 0
Before T (begins now) = now < T
Before T (ends i o c) = Unit {0}
Before T (holds d now) = Unit {0}
Before T (resets now) = ⊥

abbrev pub AllBefore : ℕ → List Event → Type 0
AllBefore T [] = Unit {0}
AllBefore T (e ∷ es) = Before T e × AllBefore T es

settle-OpenUntil :
    (T t : ℕ) (bad : Bool) (c : Clock) (b : Breaker)
    → OpenUntil T b
    → OpenUntil T (settle t bad c b)
unfolding settle on_failure on_success
settle-OpenUntil T t bad c b o = ground arith

finish-OpenUntil :
    (T t : ℕ) (o : Outcome) (c : Clock) (b : Breaker) → OpenUntil T b → OpenUntil T (finish t o c b)
unfolding finish release_probe
finish-OpenUntil T t succeeded c b h = settle-OpenUntil T t false c b h
finish-OpenUntil T t (failed err) c b h = ground (arith, settle-OpenUntil T t true c b h)
finish-OpenUntil T t panicked c b h = settle-OpenUntil T t true c b h

step-OpenUntil :
    (T : ℕ) (s : System) (e : Event)
    → Before T e
    → OpenUntil T s.breaker
    → OpenUntil T (step s e).breaker
unfolding step admit hold_open_for
step-OpenUntil T s (begins now) h o = ground arith
step-OpenUntil T s (ends i out c) h o = elim (Option-cases (get_elem? s.calls i)) [
  | inl e ↦ rw (e, step) o
  | inr (t, e) ↦ rw (e, step) (finish-OpenUntil T t out c s.breaker o)
]
step-OpenUntil T s (holds d now) h o = ground arith
step-OpenUntil T s (resets now) h o = absurd h

run-OpenUntil :
    (T : ℕ) (s : System) (es : List Event)
    → AllBefore T es
    → OpenUntil T s.breaker
    → OpenUntil T (run s es).breaker
unfolding run
run-OpenUntil T s [] h o = o
run-OpenUntil T s (e ∷ es) h o = run-OpenUntil T (step s e) es h.1 (step-OpenUntil T s e h.0 o)

refused_before : (T now : ℕ) (b : Breaker) → OpenUntil T b → now < T → (admit now b).0 ≡ refused
unfolding admit
refused_before T now b o h = ground arith

-- A server asked at time `now` for a wait of d. Whatever calls begin before now + d, whatever
-- running calls end and whatever further waits are asked for, no call is admitted before now + d,
-- unless the breaker is reset.
pub wait_is_kept :
    (s : System) (d now later : ℕ) (es : List Event)
    → 0 < d
    → AllBefore (now + d) es
    → later < now + d
    → (admit later (run (step s (holds d now)) es).breaker).0 ≡ refused
unfolding step hold_open_for
wait_is_kept s d now later es pos h lt =
    refused_before (now + d) later _
      (run-OpenUntil (now + d) (step s (holds d now)) es h (ground arith)) lt

-- When a failure opens a breaker, the same holds for its recovery timeout.
pub outage_is_kept :
    (s : System) (c : Clock) (later : ℕ) (es : List Event)
    → s.breaker.state ≢ open_state
    → (on_failure c s.breaker).state ≡ open_state
    → AllBefore (c.now + s.breaker.config.recovery_timeout) es
    → later < c.now + s.breaker.config.recovery_timeout
    → (admit later (run (record s { breaker = on_failure c s.breaker }) es).breaker).0 ≡ refused
unfolding on_failure
outage_is_kept s c later es was now_open h lt =
    refused_before _ later _
      (run-OpenUntil (c.now + s.breaker.config.recovery_timeout) _ es h (now_open, ground arith)) lt

abbrev pub is_ticket : Admission → Bool
is_ticket (ticket t) = true
is_ticket refused = false

-- CanExecute says of a well-formed breaker just whether a call that begins then is admitted.
pub can_execute-admit :
    (now : ℕ) (b : Breaker) → Inv b → can_execute now b ≡ is_ticket (admit now b).0
unfolding can_execute admit
can_execute-admit now b v = ground arith

-- Successful calls, one after the other.
abbrev pub successes : List (ℕ × Clock) → Breaker → Breaker
successes [] b = b
successes ((now, c) ∷ cs) b = successes cs (execute now succeeded c b).1

-- A half-open breaker with no probe in flight and j successes so far.
abbrev Probing : ℕ → Breaker → Type 0
Probing j b = (b.state ≡ half_open) × (b.half_open_in_flight ≡ false) × (b.success_count ≡ j)

abbrev Closes : Breaker → Type 0
Closes b =
    (b.state ≡ closed) × (b.half_open_in_flight ≡ false) × (b.failures ≡ []) × (b.success_count ≡ 0)

probe_step :
    (j now : ℕ) (c : Clock) (b : Breaker)
    → Probing j b
    → suc j < b.config.success_threshold
    → Probing (suc j) (execute now succeeded c b).1
      × ((execute now succeeded c b).1.config ≡ b.config)
unfolding execute admit finish settle on_success
probe_step j now c b p h = ground arith

probe_last :
    (j now : ℕ) (c : Clock) (b : Breaker)
    → Probing j b
    → suc j ≡ b.config.success_threshold
    → Closes (execute now succeeded c b).1
unfolding execute admit finish settle on_success
probe_last j now c b p h = ground arith

-- A success on a closed breaker without failures leaves it so.
closed_stays : (now : ℕ) (c : Clock) (b : Breaker) → Closes b → Closes (execute now succeeded c b).1
unfolding execute admit finish settle on_success
closed_stays now c b p = ground arith

-- Where n successes in a row have brought a breaker with a success threshold.
abbrev pub Recovered : ℕ → ℕ → Breaker → Type 0
Recovered threshold n b =
    (b.state ≡ (if leb threshold n then closed else half_open))
    × (b.half_open_in_flight ≡ false)
    × (threshold ≤ n → (b.failures ≡ []) × (b.success_count ≡ 0))
    × (n < threshold → b.success_count ≡ n)

successes-Closes : (cs : List (ℕ × Clock)) (b : Breaker) → Closes b → Closes (successes cs b)
successes-Closes [] b p = p
successes-Closes ((now, c) ∷ cs) b p =
    successes-Closes cs (execute now succeeded c b).1 (closed_stays now c b p)

closed-Recovered : (th n : ℕ) (b : Breaker) → Closes b → th ≤ n → Recovered th n b
closed-Recovered th n b p h = (ground arith, p.1, λ k. (p.2, p.3), λ k. absurd (omega arith))

successes-Recovered :
    (j th : ℕ) (cs : List (ℕ × Clock)) (b : Breaker)
    → Probing j b
    → b.config.success_threshold ≡ th
    → j < th
    → Recovered th (j + length cs) (successes cs b)
successes-Recovered j th [] b p t h = ground arith
successes-Recovered j th ((now, c) ∷ cs) b p t h = elim (dec_lt (suc j) th) [
  | yes l ↦
      let (q, same) = probe_step j now c b p (omega arith) in
      let r =
        successes-Recovered (suc j) th cs (execute now succeeded c b).1 q
          (ap (λ (k : Config). k.success_threshold) same ∙ t) l in
      subst (λ n. Recovered th n (successes ((now, c) ∷ cs) b)) (omega arith) r
  | no m ↦
      let q = probe_last j now c b p (omega arith) in
      closed-Recovered th (j + length ((now, c) ∷ cs)) (successes ((now, c) ∷ cs) b)
        (successes-Closes cs (execute now succeeded c b).1 q) (omega arith)
]

open_step :
    (now : ℕ) (c : Clock) (b : Breaker)
    → b.state ≡ open_state
    → b.half_open_in_flight ≡ false
    → b.reopen_at ≤ now
    → 1 < b.config.success_threshold
    → Probing 1 (execute now succeeded c b).1 × ((execute now succeeded c b).1.config ≡ b.config)
unfolding execute admit finish settle on_success
open_step now c b o f r h = ground arith

open_last :
    (now : ℕ) (c : Clock) (b : Breaker)
    → b.state ≡ open_state
    → b.half_open_in_flight ≡ false
    → b.reopen_at ≤ now
    → b.config.success_threshold ≤ 1
    → Closes (execute now succeeded c b).1
unfolding execute admit finish settle on_success
open_last now c b o f r h = ground arith

-- Successful calls, one after the other, close an open, well-formed breaker whose time has come when
-- they are as many as its success threshold, and not before: with fewer it is half open and counts
-- each of them, with as many or more it is closed, its failures forgotten.
pub recovers :
    (now : ℕ) (c : Clock) (cs : List (ℕ × Clock)) (b : Breaker)
    → Inv b
    → b.state ≡ open_state
    → b.reopen_at ≤ now
    → Recovered b.config.success_threshold (suc (length cs)) (successes ((now, c) ∷ cs) b)
recovers now c cs b v o r = elim (dec_lt 1 b.config.success_threshold) [
  | yes l ↦
      let (q, same) = open_step now c b o (ground (arith, v.probing)) r l in
      subst (λ n. Recovered b.config.success_threshold n (successes ((now, c) ∷ cs) b))
        (omega arith)
        (successes-Recovered 1 b.config.success_threshold cs (execute now succeeded c b).1 q
          (ap (λ (k : Config). k.success_threshold) same) l)
  | no m ↦
      let q = open_last now c b o (ground (arith, v.probing)) r (omega arith) in
      closed-Recovered b.config.success_threshold (suc (length cs)) (successes ((now, c) ∷ cs) b)
        (successes-Closes cs (execute now succeeded c b).1 q) (omega arith)
]
