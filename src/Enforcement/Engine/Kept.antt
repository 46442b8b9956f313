-- ===== src/Enforcement/Engine/Kept.antt =====
-- A registered poller is up: it is not stopped, and no release is about to stop it.
pub mod Steps
use revenium_go_sdk.Base.{
  update_at, ◌≡◌, ◌≢◌, refl, ◌∙◌, sym, ap, ℕ, zero, suc, ◌+◌, ◌-◌, ◌%◌, ◌^◌, ◌≤◌, ◌<◌, List, [],
  ◌∷◌, ◌++◌, Bool, true, false, not, ◌&&◌, ◌||◌, Option, some, none, map, get_elem?, arith,
  if◌then◌else◌, ◌==◌, ltb, length, Text, Bool-cases, Option-cases, inl, inr, subst, ◌⊎◌, is_empty,
  length-append,
}
use revenium_go_sdk.Enforcement.Engine.{
  EngineKey, Lease, Registration, Registry, Poller, key_eq, count_unreleased, new_poller, drop_held,
  put, stop_poll, boot, begin_poll, fetch_rules, Answer, register, joined, opened, registered_on,
  one_lease_less, poll_dropped, ended_on, stop_all, stop_registered,
}
use revenium_go_sdk.Enforcement.Engine.Counting.{key_eq_refl, key_eq_sound}
use revenium_go_sdk.Enforcement.Engine.Counts.{AllCounted}
use revenium_go_sdk.Enforcement.Engine.Counts.Ends.{
  ended_cases, names_registration, ends_cases, step_counted,
}
use revenium_go_sdk.Enforcement.Engine.System.{
  System, Event, starts, boots, fetches, claims, ends, stops, stops_all, step, run, no_clients,
  elem, without, ended_by,
}
use revenium_go_sdk.Enforcement.Engine.Polls.{elem-without}

abbrev pub is_up : EngineKey → Option Poller → Bool
is_up k none = false
is_up k (some p) = key_eq p.key k && not p.stopped

-- What holds of a registration of `k`.
abbrev up_at : EngineKey → List ℕ → List Poller → Registration → Bool
up_at k st ps reg = is_up k (get_elem? ps reg.poller) && not (elem reg.poller st)

abbrev AllUp : (EngineKey → Option Registration) → List ℕ → List Poller → Type 0
AllUp m st ps = (k : EngineKey) (reg : Registration) → m k ≡ some reg → up_at k st ps reg ≡ true

-- No poller is on the list to stop before it is made.
abbrev Below : ℕ → List ℕ → Type 0
Below n st = (a : ℕ) → n ≤ a → elem a st ≡ false

up_at-append :
    (k : EngineKey) (st : List ℕ) (ps : List Poller) (q : Poller) (i : ℕ)
    → is_up k (get_elem? ps i) ≡ true
    → is_up k (get_elem? (ps ++ q ∷ []) i) ≡ true
up_at-append k st [] q i h = ground arith
up_at-append k st (p ∷ ps) q zero h = h
up_at-append k st (p ∷ ps) q (suc i) h = up_at-append k st ps q i h

get-last : (ps : List Poller) (q : Poller) → get_elem? (ps ++ q ∷ []) (length ps) ≡ some q
get-last [] q = refl
get-last (p ∷ ps) q = get-last ps q

is_up-update :
    (f : Poller → Poller) (k : EngineKey) (ps : List Poller) (a i : ℕ)
    → ((p : Poller) → ((f p).key ≡ p.key) × ((f p).stopped ≡ p.stopped))
    → is_up k (get_elem? ps i) ≡ true
    → is_up k (get_elem? (update_at f ps a) i) ≡ true
unfolding update_at
is_up-update f k [] a i same h = h
is_up-update f k (p ∷ ps) zero zero same h = ground (arith, (same p).0, (same p).1)
is_up-update f k (p ∷ ps) zero (suc i) same h = h
is_up-update f k (p ∷ ps) (suc a) zero same h = h
is_up-update f k (p ∷ ps) (suc a) (suc i) same h = is_up-update f k ps a i same h

is_up-below :
    (k : EngineKey) (ps : List Poller) (i : ℕ) → is_up k (get_elem? ps i) ≡ true → i < length ps
is_up-below k [] i h = ground arith
is_up-below k (p ∷ ps) zero h = omega arith
is_up-below k (p ∷ ps) (suc i) h = let l = is_up-below k ps i h in omega arith

boot-same :
    (valid : Text → Bool) (p : Poller)
    → ((boot valid p).key ≡ p.key) × ((boot valid p).stopped ≡ p.stopped)
unfolding boot begin_poll
boot-same valid p = (ground arith, ground arith)

fetch-same :
    (answer : Answer) (now : ℕ) (p : Poller)
    → ((fetch_rules answer now p).key ≡ p.key) × ((fetch_rules answer now p).stopped ≡ p.stopped)
unfolding fetch_rules
fetch-same answer now p = (ground arith, ground arith)

put_up :
    (k : EngineKey) (v : Option Registration) (m : EngineKey → Option Registration) (st : List ℕ)
    (ps : List Poller)
    → ((reg : Registration) → v ≡ some reg → up_at k st ps reg ≡ true)
    → ((j : EngineKey) (reg : Registration)
        → key_eq j k ≡ false
        → m j ≡ some reg
        → up_at j st ps reg ≡ true)
    → AllUp (put k v m) st ps
unfolding put
put_up k v m st ps own other j reg h = elim (Bool-cases (key_eq j k)) [
  | inl q ↦
      subst (λ x. up_at x st ps reg ≡ true) (sym (key_eq_sound j k q)) (own reg (ground arith))
  | inr q ↦ other j reg q (ground arith)
]

-- A registration that keeps its poller.
same_poller_up :
    (k : EngineKey) (reg r : Registration) (m : EngineKey → Option Registration) (st : List ℕ)
    (ps : List Poller)
    → m k ≡ some reg
    → r.poller ≡ reg.poller
    → AllUp m st ps
    → AllUp (put k (some r) m) st ps
same_poller_up k reg r m st ps e q up =
    put_up k (some r) m st ps
      (λ x h. let o = up k reg e in let s : r ≡ x = ground arith in ground arith)
      (λ j x n h. up j x h)

opened_up :
    (k : EngineKey) (r : Registration) (m : EngineKey → Option Registration) (st : List ℕ)
    (ps : List Poller)
    → r.poller ≡ length ps
    → Below (length ps) st
    → AllUp m st ps
    → AllUp (put k (some r) m) st (ps ++ new_poller k ∷ [])
opened_up k r m st ps e below up =
    put_up k (some r) m st (ps ++ new_poller k ∷ [])
      (λ x h.
        let s : r ≡ x = ground arith in
        ground (arith, get-last ps (new_poller k), below (length ps) (omega arith), key_eq_refl k))
      (λ j x n h. let o = up j x h in ground (arith, up_at-append j st ps (new_poller k) x.poller))

other_place :
    (k j : EngineKey) (reg x : Registration) (st : List ℕ) (ps : List Poller)
    → key_eq j k ≡ false
    → up_at k st ps reg ≡ true
    → up_at j st ps x ≡ true
    → up_at j (reg.poller ∷ st) ps x ≡ true
unfolding elem
other_place k j reg x st ps n h g = elim (Bool-cases (x.poller == reg.poller)) [
  | inl q ↦
      let same : x.poller ≡ reg.poller = ground arith in
      let place = ap (get_elem? ps) same in
      elim (Option-cases (get_elem? ps reg.poller)) [
        | inl z ↦ absurd (ground arith)
        | inr (p, z) ↦
            absurd (ground (arith, key_eq_sound p.key k, key_eq_sound p.key j, key_eq_refl k))
      ]
  | inr q ↦ ground arith
]

-- Pollers of different keys stand at different places.
dropped_up :
    (k : EngineKey) (reg : Registration) (m : EngineKey → Option Registration) (st : List ℕ)
    (ps : List Poller)
    → m k ≡ some reg
    → AllUp m st ps
    → AllUp (put k none m) (reg.poller ∷ st) ps
unfolding elem
dropped_up k reg m st ps e up =
    put_up k none m (reg.poller ∷ st) ps (λ x h. absurd (ground arith))
      (λ j x n h. other_place k j reg x st ps n (up k reg e) (up j x h))
