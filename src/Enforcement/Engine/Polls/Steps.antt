-- ===== src/Enforcement/Engine/Polls/Steps.antt =====
-- Every step keeps track of the pollers, so none leaks.
use revenium_go_sdk.Base.{
  update_at, ◌≡◌, refl, ◌∙◌, sym, ap, ℕ, zero, suc, ◌+◌, ◌%◌, ◌^◌, List, [], ◌∷◌, Bool, true, some,
  none, get_elem?, arith, length, Text, Bool-cases, Option-cases, inl, inr, subst,
}
use revenium_go_sdk.Enforcement.Engine.{
  EngineKey, Lease, Registration, Registry, Poller, count_unreleased, new_poller, drop_held, put,
  stop_poll, boot, fetch_rules, register, registered_on, one_lease_less, poll_dropped, ended_on,
  stop_all,
}
use revenium_go_sdk.Enforcement.Engine.Counts.{AllCounted}
use revenium_go_sdk.Enforcement.Engine.Counts.Ends.{
  ended_cases, names_registration, ends_cases, step_counted,
}
use revenium_go_sdk.Enforcement.Engine.System.{
  System, Event, starts, boots, fetches, claims, ends, stops, stops_all, step, run, no_clients,
  elem, without, ended_by,
}
use revenium_go_sdk.Enforcement.Engine.Polls.{
  Registrations, tracked, Tracked, Tracked-map, Tracked-append, Tracked-update, Tracked-stop,
  Tracked-stop_registered, boot-tracked, fetch-tracked, same_poller-tracked, opened-tracked,
  dropped-tracked, new_tracked,
}

abbrev pub AllTracked : System → Type 0
AllTracked s = Tracked s.registry.registrations s.stopping 0 s.registry.pollers

register-Tracked :
    (k : EngineKey) (s : Registry) (st : List ℕ)
    → Tracked s.registrations st 0 s.pollers
    → Tracked (register k s).registrations st 0 (register k s).pollers
unfolding register
register-Tracked k s st t = elim (Option-cases (s.registrations k)) [
  | inl e ↦
      let a = length s.pollers in
      let r : Registration = record {
        poller = a;
        leases = suc (count_unreleased k s.leases);
        started = (s.registered + 1) % 2 ^ 64;
      } in
      subst (λ v. Tracked (registered_on v k s).registrations st 0 (registered_on v k s).pollers)
        (sym e)
        (Tracked-append (put k (some r) s.registrations) st 0 s.pollers (new_poller k)
          (Tracked-map s.registrations (put k (some r) s.registrations) st st 0 s.pollers
            (λ b p h. opened-tracked k r s.registrations st b p e h) t)
          (new_tracked k r s.registrations st (0 + a) (omega arith)))
  | inr (reg, e) ↦
      let r : Registration = record reg { leases = suc reg.leases } in
      subst (λ v. Tracked (registered_on v k s).registrations st 0 (registered_on v k s).pollers)
        (sym e)
        (Tracked-map s.registrations (put k (some r) s.registrations) st st 0 s.pollers
          (λ b p h. same_poller-tracked k reg r s.registrations st b p e refl h) t)
]

-- `end` with what it gives back put on the list of pollers to stop.
ended_tracked :
    (s : System) (i : ℕ) (l : Lease)
    → get_elem? s.registry.leases i ≡ some l
    → l.held ≡ true
    → AllCounted s.registry
    → AllTracked s
    → AllTracked (
        ended_by
          (ended_on
            (s.registry.registrations l.key)
            l
            (record s.registry { leases = update_at drop_held s.registry.leases i }))
          s)
ended_tracked s i l g held inv t =
    let s1 = record s.registry { leases = update_at drop_held s.registry.leases i } in
    let m = s.registry.registrations in
    elim (Option-cases (m l.key)) [
      | inl e ↦ subst (λ v. AllTracked (ended_by (ended_on v l s1) s)) (sym e) t
      | inr (reg, e) ↦
          subst (λ v. AllTracked (ended_by (ended_on v l s1) s)) (sym e)
            (elim (ended_cases l reg s1 (names_registration s.registry i l reg g held e inv)) [
              | inl (n, q) ↦
                  subst (λ v. AllTracked (ended_by v s)) (sym q)
                    (Tracked-map m (one_lease_less l.key reg s1).registrations s.stopping s.stopping
                      0 s.registry.pollers
                      (λ b p h. same_poller-tracked l.key reg _ m s.stopping b p e refl h) t)
              | inr (n, q) ↦
                  subst (λ v. AllTracked (ended_by v s)) (sym q)
                    (Tracked-map m (poll_dropped l.key s1).registrations s.stopping
                      (reg.poller ∷ s.stopping) 0 s.registry.pollers
                      (λ b p h. dropped-tracked l.key reg m s.stopping b p e h) t)
            ])
    ]

stops_tracked :
    (valid : Text → Bool) (s : System) (a : ℕ) → AllTracked s → AllTracked (step valid s (stops a))
unfolding step
stops_tracked valid s a t = elim (Bool-cases (elem a s.stopping)) [
  | inl q ↦
      let e : step valid s (stops a) ≡ record {
        registry = record s.registry { pollers = update_at stop_poll s.registry.pollers a };
        stopping = without a s.stopping;
      } =
        ground arith in
      let z : 0 + a ≡ a = omega arith in
      let m = s.registry.registrations in
      let ps = update_at stop_poll s.registry.pollers a in
      subst AllTracked (sym e) (
        subst (λ x. Tracked m (without x s.stopping) 0 ps) z
          (Tracked-stop m s.stopping 0 s.registry.pollers a t))
  | inr q ↦ let e : step valid s (stops a) ≡ s = ground arith in subst AllTracked (sym e) t
]

step_tracked :
    (valid : Text → Bool) (s : System) (e : Event)
    → AllCounted s.registry
    → AllTracked s
    → AllTracked (step valid s e)
unfolding step stop_all
step_tracked valid s (starts k) inv t = register-Tracked k s.registry s.stopping t
step_tracked valid s (boots a) inv t =
    let m = s.registry.registrations in
    Tracked-update (boot valid) m s.stopping 0 s.registry.pollers a
      (boot-tracked valid m s.stopping) t
step_tracked valid s (fetches a answer now) inv t =
    let m = s.registry.registrations in
    Tracked-update (fetch_rules answer now) m s.stopping 0 s.registry.pollers a
      (fetch-tracked answer now m s.stopping) t
step_tracked valid s (claims i) inv t = t
step_tracked valid s (ends i) inv t = elim (ends_cases valid s i) [
  | inl (l, g, held, q) ↦ subst AllTracked (sym q) (ended_tracked s i l g held inv t)
  | inr q ↦ subst AllTracked (sym q) t
]
step_tracked valid s (stops a) inv t = stops_tracked valid s a t
step_tracked valid s stops_all inv t =
    Tracked-stop_registered s.registry.registrations s.stopping 0 s.registry.pollers t

abbrev pub Sound : System → Type 0
Sound s = AllCounted s.registry × AllTracked s

pub run-Sound :
    (valid : Text → Bool) (s : System) (es : List Event) → Sound s → Sound (run valid s es)
unfolding run
run-Sound valid s [] i = i
run-Sound valid s (e ∷ es) (inv, t) =
    run-Sound valid (step valid s e) es (step_counted valid s e inv, step_tracked valid s e inv t)

pub no_clients-Sound : Sound no_clients
no_clients-Sound = (λ j r e. absurd (ground arith), tt)

get_tracked :
    (m : Registrations) (st : List ℕ) (a : ℕ) (ps : List Poller) (i : ℕ) (p : Poller)
    → Tracked m st a ps
    → get_elem? ps i ≡ some p
    → tracked m st (a + i) p ≡ true
get_tracked m st a [] i p t e = ground arith
get_tracked m st a (x ∷ ps) zero p (g, t) e = ground (arith, g)
get_tracked m st a (x ∷ ps) (suc i) p (g, t) e = ground (arith, get_tracked m st (suc a) ps i p t e)

pub unregistered :
    (k : EngineKey) (s : Registry)
    → AllCounted s
    → count_unreleased k s.leases ≡ 0
    → s.registrations k ≡ none
unregistered k s inv c = elim (Option-cases (s.registrations k)) [
  | inl e ↦ e
  | inr (reg, e) ↦ let (n, p, f) = inv k reg e in absurd (omega arith)
]

-- After any interleaving of clients that start and release, of pollers and of stops: once no lease
-- on a key is unreleased and no release has a poller left to stop, every poller ever made for the
-- key is stopped and nothing of it runs.
pub no_poll_leaks :
    (valid : Text → Bool) (es : List Event) (k : EngineKey) (a : ℕ) (p : Poller)
    → count_unreleased k (run valid no_clients es).registry.leases ≡ 0
    → (run valid no_clients es).stopping ≡ []
    → get_elem? (run valid no_clients es).registry.pollers a ≡ some p
    → p.key ≡ k
    → (p.stopped ≡ true) × (p.running ≡ 0)
unfolding tracked elem
no_poll_leaks valid es k a p c q g o =
    let s = run valid no_clients es in
    let (inv, t) = run-Sound valid no_clients es no_clients-Sound in
    let none_left : s.registry.registrations p.key ≡ none =
      unregistered p.key s.registry inv (ap (λ j. count_unreleased j s.registry.leases) o ∙ c) in
    let tr = get_tracked s.registry.registrations s.stopping 0 s.registry.pollers a p t g in
    (ground arith, ground arith)
