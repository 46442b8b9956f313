-- ===== src/Resilience/Breaker/Opening.antt =====
-- How many failures open the breaker.
use native.Mathlib.Decide.{dec_lt}
use revenium_go_sdk.Base.{
  ℕ, suc, ◌+◌, ◌≤◌, ◌<◌, ◌≡◌, refl, List, [], ◌∷◌, ◌++◌, arith, length, leb, if◌then◌else◌,
  length-append, ◌∙◌,
}
use revenium_go_sdk.Resilience.Breaker.{on_failure, remember, recent, record_failure}
use revenium_go_sdk.Resilience.BreakerState.{
  Breaker, Clock, closed, open_state, max_failure_history,
}
use revenium_go_sdk.Resilience.Breaker.Invariant.{
  Inv, on_failure-Inv, length-recent-le, length-remember-le,
}

-- Failures, one after the other.
abbrev pub record_failures : List Clock → Breaker → Breaker
record_failures [] b = b
record_failures (c ∷ cs) b = record_failures cs (record_failure c b)

-- Each failure comes at `first` or later, and within one window of it.
abbrev pub Within : ℕ → ℕ → List Clock → Type 0
Within first window [] = Unit {0}
Within first window (c ∷ cs) =
    (first ≤ c.now) × (c.at_cleanup < first + window) × Within first window cs

abbrev pub From : ℕ → List ℕ → Type 0
From first [] = Unit {0}
From first (t ∷ ts) = (first ≤ t) × From first ts

recent_all :
    (first now w : ℕ) (ts : List ℕ) → From first ts → now < first + w → recent now w ts ≡ ts
unfolding recent
recent_all first now w [] f h = refl
recent_all first now w (t ∷ ts) f h = ground (arith, recent_all first now w ts f.1 h)

From-append : (first t : ℕ) (ts : List ℕ) → From first ts → first ≤ t → From first (ts ++ t ∷ [])
From-append first t [] f h = (h, tt)
From-append first t (x ∷ ts) f h = (f.0, From-append first t ts f.1 h)

remember_short :
    (now : ℕ) (ts : List ℕ) → length ts < max_failure_history → remember now ts ≡ ts ++ now ∷ []
unfolding remember
remember_short now ts h = ground (arith, length-append ts (now ∷ []))

-- A failure that counts and does not open the breaker.
abbrev Counting : ℕ → ℕ → Breaker → Type 0
Counting first k b = (b.state ≡ closed) × (length b.failures ≡ k) × From first b.failures

kept :
    (first k : ℕ) (c : Clock) (b : Breaker)
    → Counting first k b
    → k < max_failure_history
    → first ≤ c.now
    → c.at_cleanup < first + b.config.time_window
    → recent c.at_cleanup b.config.time_window (remember c.now b.failures)
      ≡ b.failures ++ c.now ∷ []
kept first k c b p h l w = rw (remember_short c.now b.failures (omega arith)) (
    recent_all first c.at_cleanup b.config.time_window (b.failures ++ c.now ∷ [])
      (From-append first c.now b.failures p.2 l) w)

failure_step :
    (first k : ℕ) (c : Clock) (b : Breaker)
    → Counting first k b
    → k < max_failure_history
    → first ≤ c.now
    → c.at_cleanup < first + b.config.time_window
    → suc k < b.config.failure_threshold
    → Counting first (suc k) (on_failure c b) × ((on_failure c b).config ≡ b.config)
unfolding on_failure
failure_step first k c b p h l w lt = ground (
  arith,
  kept first k c b p h l w,
  From-append first c.now b.failures,
  length-append b.failures (c.now ∷ []),
)

failure_opens :
    (first k : ℕ) (c : Clock) (b : Breaker)
    → Counting first k b
    → k < max_failure_history
    → first ≤ c.now
    → c.at_cleanup < first + b.config.time_window
    → b.config.failure_threshold ≡ suc k
    → (on_failure c b).state ≡ open_state
unfolding on_failure
failure_opens first k c b p h l w e =
    ground (arith, kept first k c b p h l w, length-append b.failures (c.now ∷ []))

open_failure :
    (c : Clock) (b : Breaker) → b.state ≡ open_state → (on_failure c b).state ≡ open_state
unfolding on_failure
open_failure c b e = ground arith

open_failures :
    (cs : List Clock) (b : Breaker)
    → b.state ≡ open_state
    → (record_failures cs b).state ≡ open_state
open_failures [] b e = e
open_failures (c ∷ cs) b e = open_failures cs (on_failure c b) (open_failure c b e)

count_failures :
    (first k n : ℕ) (cs : List Clock) (b : Breaker)
    → Counting first k b
    → b.config.failure_threshold ≡ n
    → n ≤ max_failure_history
    → k < n
    → Within first b.config.time_window cs
    → (record_failures cs b).state ≡ (if leb n (k + length cs) then open_state else closed)
count_failures first k n [] b p t m h w = ground arith
count_failures first k n (c ∷ cs) b p t m h w = elim (dec_lt (suc k) n) [
  | yes more ↦
      let (q, same) = failure_step first k c b p (omega arith) w.0 w.1 (omega arith) in
      count_failures first (suc k) n cs (on_failure c b) q (rw same t) m more (rw same w.2)
      ∙ ground arith
  | no full ↦
      open_failures cs (on_failure c b)
        (failure_opens first k c b p (omega arith) w.0 w.1 (omega arith))
      ∙ ground arith
]

-- A closed breaker with no failures on record, whose threshold is at most the history's limit of
-- 1000, meets failures within one time window of each other, with no success in between: it is open
-- exactly when they are as many as the threshold, or more.
pub opens_at_threshold :
    (first : ℕ) (cs : List Clock) (b : Breaker)
    → b.state ≡ closed
    → b.failures ≡ []
    → 0 < b.config.failure_threshold
    → b.config.failure_threshold ≤ max_failure_history
    → Within first b.config.time_window cs
    → (record_failures cs b).state
      ≡ (if leb b.config.failure_threshold (length cs) then open_state else closed)
opens_at_threshold first cs b s f pos m w =
    count_failures first 0 b.config.failure_threshold cs b (s, rw f refl, rw f tt) refl m pos w
    ∙ ground arith

stays_closed :
    (c : Clock) (b : Breaker)
    → Inv b
    → b.state ≡ closed
    → max_failure_history < b.config.failure_threshold
    → ((on_failure c b).state ≡ closed) × ((on_failure c b).config ≡ b.config)
unfolding on_failure
stays_closed c b v e h = ground (
  arith,
  length-recent-le c.at_cleanup b.config.time_window (remember c.now b.failures),
  length-remember-le c.now b.failures v.history,
)

-- A threshold above the history's limit is never reached: such a breaker stays closed whatever
-- failures it records.
pub threshold_above_history :
    (cs : List Clock) (b : Breaker)
    → Inv b
    → b.state ≡ closed
    → max_failure_history < b.config.failure_threshold
    → (record_failures cs b).state ≡ closed
threshold_above_history [] b v e h = e
threshold_above_history (c ∷ cs) b v e h =
    let (e', same) = stays_closed c b v e h in
    threshold_above_history cs (on_failure c b) (on_failure-Inv c b v) e' (ground (arith, same))
