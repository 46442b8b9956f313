-- ===== src/Resilience/Breaker/System/Tickets.antt =====
-- Tickets and generations: what one critical section does to them.
use revenium_go_sdk.Base.{
  ℕ, zero, suc, ◌+◌, ◌≤◌, ◌<◌, ◌≡◌, ◌≢◌, refl, ◌⊎◌, inl, inr, List, [], ◌∷◌, Bool, true, false,
  arith, some, get_elem?, ◌==◌, if◌then◌else◌, Option-cases,
}
use revenium_go_sdk.Resilience.Breaker.{
  Outcome, succeeded, failed, panicked, admit, finish, settle, on_failure, on_success,
  release_probe, hold_open_for, reset,
}
use revenium_go_sdk.Resilience.BreakerState.{Breaker, Clock, half_open, generations}
use revenium_go_sdk.Resilience.Breaker.System.{
  System, Event, begins, ends, holds, resets, remove_at, step,
}

-- How many of the running calls hold ticket g.
abbrev pub holders : ℕ → List ℕ → ℕ
holders g [] = 0
holders g (t ∷ ts) = if t == g then suc (holders g ts) else holders g ts

abbrev pub UpTo : ℕ → List ℕ → Type 0
UpTo n [] = Unit {0}
UpTo n (t ∷ ts) = (t ≤ n) × UpTo n ts

pub UpTo-mono : {m n : ℕ} (ts : List ℕ) → m ≤ n → UpTo m ts → UpTo n ts
UpTo-mono [] h u = tt
UpTo-mono (t ∷ ts) h u = (omega arith, UpTo-mono ts h u.1)

pub holders_above : (n g : ℕ) (ts : List ℕ) → UpTo n ts → n < g → holders g ts ≡ 0
holders_above n g [] u h = refl
holders_above n g (t ∷ ts) u h = ground (arith, holders_above n g ts u.1 h)

pub remove_at-UpTo : (i n : ℕ) (ts : List ℕ) → UpTo n ts → UpTo n (remove_at i ts)
unfolding remove_at
remove_at-UpTo i n [] u = tt
remove_at-UpTo zero n (t ∷ ts) u = u.1
remove_at-UpTo (suc i) n (t ∷ ts) u = (u.0, remove_at-UpTo i n ts u.1)

pub holders-remove_at :
    (i t g : ℕ) (ts : List ℕ)
    → get_elem? ts i ≡ some t
    → holders g ts
      ≡ (if t == g then suc (holders g (remove_at i ts)) else holders g (remove_at i ts))
unfolding remove_at
holders-remove_at i t g [] e = ground arith
holders-remove_at zero t g (x ∷ ts) e = ground arith
holders-remove_at (suc i) t g (x ∷ ts) e = ground (arith, holders-remove_at i t g ts e)

-- What one critical section can do to state and generation.
abbrev pub Moves : Breaker → Breaker → Type 0
Moves b b' =
    ((b'.generation ≡ b.generation) × (b'.state ≡ b.state)) ⊎ (b'.generation ≡ b.generation + 1)

pub admit-Moves : (now : ℕ) (b : Breaker) → b.generation + 1 < generations → Moves b (admit now b).1
unfolding admit
admit-Moves now b h = ground arith

settle-Moves :
    (t : ℕ) (bad : Bool) (c : Clock) (b : Breaker)
    → b.generation + 1 < generations
    → Moves b (settle t bad c b)
unfolding settle on_failure on_success
settle-Moves t bad c b h = ground arith

pub finish-Moves :
    (t : ℕ) (o : Outcome) (c : Clock) (b : Breaker)
    → b.generation + 1 < generations
    → Moves b (finish t o c b)
unfolding finish release_probe
finish-Moves t succeeded c b h = settle-Moves t false c b h
finish-Moves t (failed err) c b h = ground (arith, settle-Moves t true c b h)
finish-Moves t panicked c b h = settle-Moves t true c b h

-- A call whose ticket is not the generation's changes nothing.
pub finish_stale :
    (t : ℕ) (o : Outcome) (c : Clock) (b : Breaker) → t ≢ b.generation → finish t o c b ≡ b
unfolding finish settle release_probe
finish_stale t succeeded c b h = ground arith
finish_stale t (failed err) c b h = ground arith
finish_stale t panicked c b h = ground arith

-- One that is leaves no probe behind, and does not make a half-open breaker.
pub finish_current :
    (o : Outcome) (c : Clock) (b : Breaker)
    → b.generation + 1 < generations
    → (finish b.generation o c b).state ≡ half_open
    → (b.state ≡ half_open)
      × ((finish b.generation o c b).generation ≡ b.generation)
      × ((finish b.generation o c b).half_open_in_flight ≡ false)
unfolding finish settle on_failure on_success release_probe
finish_current succeeded c b g h = ground arith
finish_current (failed err) c b g h = ground arith
finish_current panicked c b g h = ground arith

-- The generation grows by one at most.
pub step-Moves :
    (s : System) (e : Event)
    → s.breaker.generation + 1 < generations
    → Moves s.breaker (step s e).breaker
unfolding step hold_open_for reset
step-Moves s (begins now) h = ground (arith, admit-Moves now s.breaker h)
step-Moves s (ends i o c) h = elim (Option-cases (get_elem? s.calls i)) [
  | inl e ↦ rw (e, step) (inl (refl, refl))
  | inr (t, e) ↦ rw (e, step) (finish-Moves t o c s.breaker h)
]
step-Moves s (holds d now) h = ground arith
step-Moves s (resets now) h = ground arith
