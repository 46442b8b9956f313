-- ===== src/Enforcement/Engine/Polls.antt =====
-- No poll leaks: each poller that is not stopped belongs to a running registration, or is about to
-- be stopped.
pub mod Steps
use revenium_go_sdk.Base.{
  update_at, ◌≡◌, refl, ◌∙◌, sym, ap, ℕ, zero, suc, ◌+◌, ◌%◌, ◌^◌, ◌<◌, List, [], ◌∷◌, ◌++◌, Bool,
  true, not, ◌&&◌, ◌||◌, Option, some, none, get_elem?, arith, if◌then◌else◌, ◌==◌, length, Text,
  Bool-cases, Option-cases, inl, inr, subst,
}
use revenium_go_sdk.Enforcement.Engine.{
  EngineKey, Lease, Registration, Registry, Poller, key_eq, count_unreleased, new_poller, drop_held,
  put, stop_poll, boot, begin_poll, fetch_rules, Answer, register, registered_on, registers,
  stop_registered, one_lease_less, poll_dropped, ended_on, stop_all,
}
use revenium_go_sdk.Enforcement.Engine.Counting.{key_eq_refl, key_eq_sound}
use revenium_go_sdk.Enforcement.Engine.Counts.{AllCounted}
use revenium_go_sdk.Enforcement.Engine.Counts.Ends.{
  ended_cases, names_registration, ends_cases, step_counted,
}
use revenium_go_sdk.Enforcement.Engine.System.{
  System, Event, starts, boots, fetches, claims, ends, stops, stops_all, step, run, no_clients,
  elem, without, ended_by,
}

abbrev pub Registrations : Type 0
Registrations = EngineKey → Option Registration

unfoldable pub tracked : Registrations → List ℕ → ℕ → Poller → Bool
unfolding elem
tracked m st a p = if p.stopped then p.running == 0 else registers (m p.key) a || elem a st

-- The pollers from place `a` on.
abbrev pub Tracked : Registrations → List ℕ → ℕ → List Poller → Type 0
Tracked m st a [] = Unit {0}
Tracked m st a (p ∷ ps) = (tracked m st a p ≡ true) × Tracked m st (suc a) ps

Tracked-map :
    (m n : Registrations) (st tt' : List ℕ) (a : ℕ) (ps : List Poller)
    → ((b : ℕ) (p : Poller) → tracked m st b p ≡ true → tracked n tt' b p ≡ true)
    → Tracked m st a ps
    → Tracked n tt' a ps
Tracked-map m n st tt' a [] f t = tt
Tracked-map m n st tt' a (p ∷ ps) f (h, t) = (f a p h, Tracked-map m n st tt' (suc a) ps f t)

Tracked-append :
    (m : Registrations) (st : List ℕ) (a : ℕ) (ps : List Poller) (p : Poller)
    → Tracked m st a ps
    → tracked m st (a + length ps) p ≡ true
    → Tracked m st a (ps ++ p ∷ [])
Tracked-append m st a [] p t h = (ground (arith, h), tt)
Tracked-append m st a (q ∷ ps) p (g, t) h =
    (g, Tracked-append m st (suc a) ps p t (ground (arith, h)))

Tracked-update :
    (f : Poller → Poller) (m : Registrations) (st : List ℕ) (a : ℕ) (ps : List Poller) (i : ℕ)
    → ((b : ℕ) (p : Poller) → tracked m st b p ≡ true → tracked m st b (f p) ≡ true)
    → Tracked m st a ps
    → Tracked m st a (update_at f ps i)
unfolding update_at
Tracked-update f m st a [] i h t = tt
Tracked-update f m st a (p ∷ ps) zero h (g, t) = (h a p g, t)
Tracked-update f m st a (p ∷ ps) (suc i) h (g, t) = (g, Tracked-update f m st (suc a) ps i h t)

pub elem-without : (a b : ℕ) (st : List ℕ) → elem b (without a st) ≡ (elem b st && not (a == b))
unfolding elem without
elem-without a b [] = refl
elem-without a b (x ∷ st) = ground (arith, elem-without a b st)

-- After the place that is stopped.
stopped_before :
    (m : Registrations) (st : List ℕ) (a b : ℕ) (ps : List Poller)
    → a < b
    → Tracked m st b ps
    → Tracked m (without a st) b ps
unfolding tracked
stopped_before m st a b [] l t = tt
stopped_before m st a b (p ∷ ps) l (g, t) =
    (ground (arith, elem-without a b st), stopped_before m st a (suc b) ps (omega arith) t)

Tracked-stop :
    (m : Registrations) (st : List ℕ) (b : ℕ) (ps : List Poller) (i : ℕ)
    → Tracked m st b ps
    → Tracked m (without (b + i) st) b (update_at stop_poll ps i)
unfolding tracked update_at stop_poll
Tracked-stop m st b [] i t = tt
Tracked-stop m st b (p ∷ ps) zero (g, t) =
    (refl, stopped_before m st (b + 0) (suc b) ps (omega arith) t)
Tracked-stop m st b (p ∷ ps) (suc i) (g, t) =
    let e : suc b + i ≡ b + suc i = omega arith in
    (
      ground (arith, elem-without (b + suc i) b st),
      subst (λ x. Tracked m (without x st) (suc b) (update_at stop_poll ps i)) e
          (Tracked-stop m st (suc b) ps i t),
    )

Tracked-stop_registered :
    (m : Registrations) (st : List ℕ) (a : ℕ) (ps : List Poller)
    → Tracked m st a ps
    → Tracked (λ k. none) st a (stop_registered m a ps)
unfolding tracked stop_registered stop_poll
Tracked-stop_registered m st a [] t = tt
Tracked-stop_registered m st a (p ∷ ps) (g, t) =
    (ground arith, Tracked-stop_registered m st (suc a) ps t)

boot-tracked :
    (valid : Text → Bool) (m : Registrations) (st : List ℕ) (a : ℕ) (p : Poller)
    → tracked m st a p ≡ true
    → tracked m st a (boot valid p) ≡ true
unfolding tracked boot begin_poll
boot-tracked valid m st a p h = ground arith

fetch-tracked :
    (answer : Answer) (now : ℕ) (m : Registrations) (st : List ℕ) (a : ℕ) (p : Poller)
    → tracked m st a p ≡ true
    → tracked m st a (fetch_rules answer now p) ≡ true
unfolding tracked fetch_rules
fetch-tracked answer now m st a p h = ground arith

-- A registration that keeps its poller.
same_poller-tracked :
    (k : EngineKey) (reg r : Registration) (m : Registrations) (st : List ℕ) (a : ℕ) (p : Poller)
    → m k ≡ some reg
    → r.poller ≡ reg.poller
    → tracked m st a p ≡ true
    → tracked (put k (some r) m) st a p ≡ true
unfolding tracked put
same_poller-tracked k reg r m st a p e q h = elim (Bool-cases (key_eq p.key k)) [
  | inl s ↦ let same = ap m (key_eq_sound p.key k s) in ground arith
  | inr s ↦ ground arith
]

opened-tracked :
    (k : EngineKey) (r : Registration) (m : Registrations) (st : List ℕ) (a : ℕ) (p : Poller)
    → m k ≡ none
    → tracked m st a p ≡ true
    → tracked (put k (some r) m) st a p ≡ true
unfolding tracked put
opened-tracked k r m st a p e h = elim (Bool-cases (key_eq p.key k)) [
  | inl s ↦ let same = ap m (key_eq_sound p.key k s) in ground arith
  | inr s ↦ ground arith
]

dropped-tracked :
    (k : EngineKey) (reg : Registration) (m : Registrations) (st : List ℕ) (a : ℕ) (p : Poller)
    → m k ≡ some reg
    → tracked m st a p ≡ true
    → tracked (put k none m) (reg.poller ∷ st) a p ≡ true
unfolding tracked put elem
dropped-tracked k reg m st a p e h = elim (Bool-cases (key_eq p.key k)) [
  | inl s ↦ let same = ap m (key_eq_sound p.key k s) in ground arith
  | inr s ↦ ground arith
]

new_tracked :
    (k : EngineKey) (r : Registration) (m : Registrations) (st : List ℕ) (a : ℕ)
    → r.poller ≡ a
    → tracked (put k (some r) m) st a (new_poller k) ≡ true
unfolding tracked put
new_tracked k r m st a e = ground (arith, key_eq_refl k)
