-- ===== src/Enforcement/Engine/Kept/Steps.antt =====
-- Every step leaves the registered pollers up.
use revenium_go_sdk.Base.{
  length-update, get_elem?-update_other, update_at, ◌≡◌, ◌≢◌, refl, sym, ap, ℕ, suc, ◌+◌, ◌%◌, ◌^◌,
  List, [], ◌∷◌, Bool, true, Option, some, get_elem?, arith, length, Text, Bool-cases, Option-cases,
  inl, inr, subst, length-append,
}
use revenium_go_sdk.Enforcement.Engine.{
  EngineKey, Lease, Registration, Poller, count_unreleased, new_poller, drop_held, stop_poll, boot,
  fetch_rules, register, registered_on, ended_on, stop_all, stop_registered,
}
use revenium_go_sdk.Enforcement.Engine.Counts.{AllCounted}
use revenium_go_sdk.Enforcement.Engine.Counts.Ends.{ended_cases, names_registration, ends_cases}
use revenium_go_sdk.Enforcement.Engine.System.{
  System, Event, starts, boots, fetches, claims, ends, stops, stops_all, step, elem, without,
  ended_by,
}
use revenium_go_sdk.Enforcement.Engine.Polls.{elem-without}
use revenium_go_sdk.Enforcement.Engine.Kept.{
  up_at, AllUp, Below, is_up-update, is_up-below, boot-same, fetch-same, same_poller_up, opened_up,
  dropped_up,
}

abbrev pub Up : System → Type 0
Up s =
    AllUp s.registry.registrations s.stopping s.registry.pollers
    × Below (length s.registry.pollers) s.stopping

update-Up :
    (f : Poller → Poller) (a : ℕ) (s : System)
    → ((p : Poller) → ((f p).key ≡ p.key) × ((f p).stopped ≡ p.stopped))
    → Up s
    → Up (record s { registry = record s.registry { pollers = update_at f s.registry.pollers a } })
update-Up f a s same (up, below) = (
  λ k reg h.
      let o = up k reg h in ground (arith, is_up-update f k s.registry.pollers a reg.poller same),
  λ b l. let e = length-update f s.registry.pollers a in below b (omega arith),
)

register-Up :
    (k : EngineKey) (s : System) → Up s → Up (record s { registry = register k s.registry })
unfolding register
register-Up k s (up, below) = elim (Option-cases (s.registry.registrations k)) [
  | inl e ↦
      let a = length s.registry.pollers in
      let r : Registration = record {
        poller = a;
        leases = suc (count_unreleased k s.registry.leases);
        started = (s.registry.registered + 1) % 2 ^ 64;
      } in
      subst (λ v. Up (record s { registry = registered_on v k s.registry })) (sym e)
        (
          opened_up k r s.registry.registrations s.stopping s.registry.pollers refl below up,
          λ b l.
              let n = length-append s.registry.pollers (new_poller k ∷ []) in below b (omega arith),
        )
  | inr (reg, e) ↦
      let r : Registration = record reg { leases = suc reg.leases } in
      subst (λ v. Up (record s { registry = registered_on v k s.registry })) (sym e)
        (
          same_poller_up k reg r s.registry.registrations s.stopping s.registry.pollers e refl up,
          below,
        )
]

Below-added :
    (k : EngineKey) (st : List ℕ) (ps : List Poller) (reg : Registration)
    → up_at k st ps reg ≡ true
    → Below (length ps) st
    → Below (length ps) (reg.poller ∷ st)
unfolding elem
Below-added k st ps reg h below b l =
    let i = is_up-below k ps reg.poller (ground arith) in ground (arith, below b l)

ended-Up :
    (s : System) (i : ℕ) (l : Lease)
    → get_elem? s.registry.leases i ≡ some l
    → l.held ≡ true
    → AllCounted s.registry
    → Up s
    → Up (
        ended_by
          (ended_on
            (s.registry.registrations l.key)
            l
            (record s.registry { leases = update_at drop_held s.registry.leases i }))
          s)
ended-Up s i l g held inv (up, below) =
    let s1 = record s.registry { leases = update_at drop_held s.registry.leases i } in
    let m = s.registry.registrations in
    let ps = s.registry.pollers in
    elim (Option-cases (m l.key)) [
      | inl e ↦ subst (λ v. Up (ended_by (ended_on v l s1) s)) (sym e) (up, below)
      | inr (reg, e) ↦
          subst (λ v. Up (ended_by (ended_on v l s1) s)) (sym e)
            (elim (ended_cases l reg s1 (names_registration s.registry i l reg g held e inv)) [
              | inl (n, q) ↦
                  subst (λ v. Up (ended_by v s)) (sym q)
                    (same_poller_up l.key reg _ m s.stopping ps e refl up, below)
              | inr (n, q) ↦
                  subst (λ v. Up (ended_by v s)) (sym q)
                    (
                      dropped_up l.key reg m s.stopping ps e up,
                      Below-added l.key s.stopping ps reg (up l.key reg e) below,
                    )
            ])
    ]

stopped-Up :
    (s : System) (a : ℕ)
    → elem a s.stopping ≡ true
    → Up s
    → Up (record {
      registry = record s.registry { pollers = update_at stop_poll s.registry.pollers a };
      stopping = without a s.stopping;
    })
stopped-Up s a q (up, below) = (
  λ k reg h.
      let o = up k reg h in
      let n : a ≢ reg.poller = λ e. absurd (ground arith) in
      ground (
        arith,
        get_elem?-update_other stop_poll s.registry.pollers a reg.poller n,
        elem-without a reg.poller s.stopping,
      ),
  λ b l.
      let e = length-update stop_poll s.registry.pollers a in
      ground (arith, elem-without a b s.stopping, below b (omega arith)),
)

stops-Up : (valid : Text → Bool) (s : System) (a : ℕ) → Up s → Up (step valid s (stops a))
unfolding step
stops-Up valid s a up = elim (Bool-cases (elem a s.stopping)) [
  | inl q ↦
      let e : step valid s (stops a) ≡ record {
        registry = record s.registry { pollers = update_at stop_poll s.registry.pollers a };
        stopping = without a s.stopping;
      } =
        ground arith in
      subst Up (sym e) (stopped-Up s a q up)
  | inr q ↦ let e : step valid s (stops a) ≡ s = ground arith in subst Up (sym e) up
]

length-stop_registered :
    (m : EngineKey → Option Registration) (a : ℕ) (ps : List Poller)
    → length (stop_registered m a ps) ≡ length ps
unfolding stop_registered
length-stop_registered m a [] = refl
length-stop_registered m a (p ∷ ps) = ap suc (length-stop_registered m (suc a) ps)

pub step-Up :
    (valid : Text → Bool) (s : System) (e : Event)
    → AllCounted s.registry
    → Up s
    → Up (step valid s e)
unfolding step stop_all
step-Up valid s (starts k) inv up = register-Up k s up
step-Up valid s (boots a) inv up = update-Up (boot valid) a s (boot-same valid) up
step-Up valid s (fetches a answer now) inv up =
    update-Up (fetch_rules answer now) a s (fetch-same answer now) up
step-Up valid s (claims i) inv up = up
step-Up valid s (ends i) inv up = elim (ends_cases valid s i) [
  | inl (l, g, held, q) ↦ subst Up (sym q) (ended-Up s i l g held inv up)
  | inr q ↦ subst Up (sym q) up
]
step-Up valid s (stops a) inv up = stops-Up valid s a up
step-Up valid s stops_all inv (up, below) = (
  λ k reg h. absurd (ground arith),
  λ b l.
      let n = length-stop_registered s.registry.registrations 0 s.registry.pollers in
      below b (omega arith),
)
