-- ===== src/Resilience/ConcurrencyLimit.antt =====
-- core/resilience/concurrency_limit.go: the slots that cap how many calls run at once. A call is a
-- goroutine; each operation on the channel of slots or on the counter is one step. A nil limit, which
-- does not cap, is left out.
use revenium_go_sdk.Base.{
  ℕ, zero, suc, ◌+◌, ◌-◌, ◌≤◌, ◌≡◌, refl, Bool, true, false, List, [], ◌∷◌, Option, none, some, ltb,
  get_elem?, update_at, if◌then◌else◌, arith, Option-cases, inl, inr,
}

-- Where a call of Run is: before it counts itself as waiting, waiting for a slot, in the slot but
-- still counted as waiting, running `fn`, and done.
pub data Caller : Type 0 where
  turned_away queued let_in running gone : Caller

-- `slots` has the size of the channel and how many of its places are taken.
pub record Limit : Type 0 where
  pub size : ℕ
  pub taken : ℕ
  pub waiting : ℕ
  pub callers : List Caller

abbrev pub new_concurrency_limit : ℕ → Limit
new_concurrency_limit n = record { size = n; taken = 0; waiting = 0; callers = [] }

abbrev pub moves_to : Caller → ℕ → Limit → Limit
moves_to c i l = record l { callers = update_at (λ old. c) l.callers i }

-- The next operation of a caller; a caller that must wait for a slot stays where it is.
abbrev pub proceed : Caller → ℕ → Limit → Limit
proceed turned_away i l = moves_to queued i (record l { waiting = suc l.waiting })
proceed queued i l =
    if ltb l.taken l.size then moves_to let_in i (record l { taken = suc l.taken }) else l
proceed let_in i l = moves_to running i (record l { waiting = l.waiting - 1 })
proceed running i l = moves_to gone i (record l { taken = l.taken - 1 })
proceed gone i l = l

abbrev pub proceed_at : Option Caller → ℕ → Limit → Limit
proceed_at none i l = l
proceed_at (some c) i l = proceed c i l

pub data LimitEvent : Type 0 where
  calls : LimitEvent
  proceeds : ℕ → LimitEvent

unfoldable pub limit_step : Limit → LimitEvent → Limit
limit_step l calls =
    if ltb l.taken l.size
    then record l { taken = suc l.taken; callers = running ∷ l.callers }
    else record l { callers = turned_away ∷ l.callers }
limit_step l (proceeds i) = proceed_at (get_elem? l.callers i) i l

unfoldable pub limit_run : Limit → List LimitEvent → Limit
unfolding limit_step
limit_run l [] = l
limit_run l (e ∷ es) = limit_run (limit_step l e) es

abbrev has_slot : Caller → Bool
has_slot let_in = true
has_slot running = true
has_slot _ = false

abbrev is_waiting : Caller → Bool
is_waiting queued = true
is_waiting let_in = true
is_waiting _ = false

module _ (p : Caller → Bool) where
  unfoldable pub count_callers : List Caller → ℕ
  count_callers [] = 0
  count_callers (c ∷ cs) = if p c then suc (count_callers cs) else count_callers cs

  count_callers-update :
      (cs : List Caller) (i : ℕ) (c d : Caller)
      → get_elem? cs i ≡ some c
      → count_callers (update_at (λ old. d) cs i) + (if p c then 1 else 0)
        ≡ count_callers cs + (if p d then 1 else 0)
  unfolding count_callers update_at
  count_callers-update [] i c d e = ground arith
  count_callers-update (x ∷ cs) zero c d e = ground arith
  count_callers-update (x ∷ cs) (suc i) c d e = ground (arith, count_callers-update cs i c d e)

-- The slots taken are those of the calls that have one, no more than there are, and the counter is
-- that of the calls which wait.
abbrev pub Tallied : ℕ → Limit → Type 0
Tallied n l =
    (l.size ≡ n)
    × (l.taken ≤ n)
    × (l.taken ≡ count_callers has_slot l.callers)
    × (l.waiting ≡ count_callers is_waiting l.callers)

proceed-Tallied :
    (n : ℕ) (l : Limit) (i : ℕ) (c : Caller)
    → Tallied n l
    → get_elem? l.callers i ≡ some c
    → Tallied n (proceed c i l)
proceed-Tallied n l i turned_away h e =
    let a = count_callers-update has_slot l.callers i turned_away queued e in
    let b = count_callers-update is_waiting l.callers i turned_away queued e in ground arith
proceed-Tallied n l i queued h e =
    let a = count_callers-update has_slot l.callers i queued let_in e in
    let b = count_callers-update is_waiting l.callers i queued let_in e in ground arith
proceed-Tallied n l i let_in h e =
    let a = count_callers-update has_slot l.callers i let_in running e in
    let b = count_callers-update is_waiting l.callers i let_in running e in ground arith
proceed-Tallied n l i running h e =
    let a = count_callers-update has_slot l.callers i running gone e in
    let b = count_callers-update is_waiting l.callers i running gone e in ground arith
proceed-Tallied n l i gone h e = h

step-Tallied : (n : ℕ) (l : Limit) (e : LimitEvent) → Tallied n l → Tallied n (limit_step l e)
unfolding limit_step count_callers
step-Tallied n l calls h = ground arith
step-Tallied n l (proceeds i) h = elim (Option-cases (get_elem? l.callers i)) [
  | inl e ↦ ground arith
  | inr (c, e) ↦ let r = proceed-Tallied n l i c h e in ground arith
]

run-Tallied : (n : ℕ) (es : List LimitEvent) (l : Limit) → Tallied n l → Tallied n (limit_run l es)
unfolding limit_run
run-Tallied n [] l h = h
run-Tallied n (e ∷ es) l h = run-Tallied n es (limit_step l e) (step-Tallied n l e h)

-- However many calls are made and however they interleave, no more of them have a slot than the
-- limit has places, the places taken are theirs, so that none is lost, and Waiting counts exactly the
-- calls between their count and its return.
pub slots_exact :
    (n : ℕ) (es : List LimitEvent) → Tallied n (limit_run (new_concurrency_limit n) es)
unfolding count_callers
slots_exact n es = run-Tallied n es (new_concurrency_limit n) (refl, omega arith, refl, refl)
