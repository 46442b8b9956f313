-- ===== src/Enforcement/Engine/Counts/Ends.antt =====
-- How ended leases, and every other step, keep the counts of the registrations.
use revenium_go_sdk.Base.{
  update_at, ◌≡◌, refl, ◌∙◌, sym, ap, ℕ, ◌-◌, ◌≤◌, List, [], ◌∷◌, Bool, true, false, ◌&&◌, Option,
  some, none, get_elem?, arith, ltb, Text, Bool-cases, Option-cases, inl, inr, subst, ◌⊎◌,
}
use revenium_go_sdk.Enforcement.Engine.{
  EngineKey, Lease, Registration, Registry, key_eq, unreleased_on, count_unreleased, claim,
  drop_held, stop_poll, one_lease_less, poll_dropped, ended_on, ended_lease, end_lease, stop_all,
}
use revenium_go_sdk.Enforcement.Engine.Counting.{
  key_eq_refl, key_eq_sound, count-claim, count-drop, claim-Follow, drop-Follow, get-Follow,
}
use revenium_go_sdk.Enforcement.Engine.System.{
  System, Event, elem, without, ended_by, starts, boots, fetches, claims, ends, stops, stops_all,
  step, run, no_clients,
}
use revenium_go_sdk.Enforcement.Engine.Counts.{
  Counted, AllCounted, put-Counted, only, register_counted,
}

still-Counted :
    (k : EngineKey) (ls : List Lease) (i : ℕ) (reg : Registration)
    → Counted k ls reg
    → Counted k (update_at claim ls i) reg
still-Counted k ls i reg (c, p, f) =
    (c ∙ sym (count-claim k ls i), p, claim-Follow k reg.poller ls i f)

drop_other :
    (k : EngineKey) (ls : List Lease) (i : ℕ) (l : Lease) (reg : Registration)
    → get_elem? ls i ≡ some l
    → key_eq k l.key ≡ false
    → Counted k ls reg
    → Counted k (update_at drop_held ls i) reg
unfolding unreleased_on
drop_other k ls i l reg g q (c, p, f) = (
  ground (arith, count-drop k ls i l g, key_eq_sound l.key k, key_eq_refl k),
  p,
  drop-Follow k reg.poller ls i f,
)

-- A key that has no registration, after the i-th lease ended.
drop_unregistered :
    (s : Registry) (i : ℕ) (l : Lease)
    → get_elem? s.leases i ≡ some l
    → s.registrations l.key ≡ none
    → AllCounted s
    → AllCounted (record s { leases = update_at drop_held s.leases i })
drop_unregistered s i l g e inv k reg h = elim (Bool-cases (key_eq k l.key)) [
  | inl q ↦ let same = ap s.registrations (key_eq_sound k l.key q) in absurd (ground arith)
  | inr q ↦ drop_other k s.leases i l reg g q (inv k reg h)
]

own_unreleased : (l : Lease) → l.held ≡ true → unreleased_on l.key l ≡ true
unfolding unreleased_on
own_unreleased l h = ground (arith, key_eq_refl l.key)

-- An ended lease leaves its registration to the others, or it was the last one.
pub ended_cases :
    (l : Lease) (reg : Registration) (s : Registry)
    → l.registration ≡ reg.poller
    → ((2 ≤ reg.leases) × (ended_on (some reg) l s ≡ (none, one_lease_less l.key reg s)))
      ⊎ ((reg.leases ≤ 1) × (ended_on (some reg) l s ≡ (some reg.poller, poll_dropped l.key s)))
ended_cases l reg s e = elim (Bool-cases (ltb 0 (reg.leases - 1))) [
  | inl m ↦ inl (ground arith, ground arith)
  | inr m ↦ inr (ground arith, ground arith)
]

fewer_counted :
    (s : Registry) (i : ℕ) (l : Lease) (reg : Registration)
    → get_elem? s.leases i ≡ some l
    → unreleased_on l.key l ≡ true
    → s.registrations l.key ≡ some reg
    → 2 ≤ reg.leases
    → AllCounted s
    → AllCounted (one_lease_less l.key reg (record s { leases = update_at drop_held s.leases i }))
fewer_counted s i l reg g own e m inv =
    let (c, p, f) = inv l.key reg e in
    let ls = update_at drop_held s.leases i in
    put-Counted l.key (some (record reg { leases = reg.leases - 1 })) s.registrations ls
      (only l.key ls (record reg { leases = reg.leases - 1 })
        (
          ground (arith, count-drop l.key s.leases i l g),
          omega arith,
          drop-Follow l.key reg.poller s.leases i f,
        ))
      (λ j r q h. drop_other j s.leases i l r g q (inv j r h))

dropped_counted :
    (s : Registry) (i : ℕ) (l : Lease)
    → get_elem? s.leases i ≡ some l
    → AllCounted s
    → AllCounted (poll_dropped l.key (record s { leases = update_at drop_held s.leases i }))
dropped_counted s i l g inv =
    put-Counted l.key none s.registrations (update_at drop_held s.leases i)
      (λ r h. absurd (ground arith)) (λ j r q h. drop_other j s.leases i l r g q (inv j r h))

pub names_registration :
    (s : Registry) (i : ℕ) (l : Lease) (reg : Registration)
    → get_elem? s.leases i ≡ some l
    → l.held ≡ true
    → s.registrations l.key ≡ some reg
    → AllCounted s
    → l.registration ≡ reg.poller
names_registration s i l reg g held e inv =
    get-Follow l.key reg.poller s.leases i l (inv l.key reg e).2 g (own_unreleased l held)

ended_counted :
    (s : Registry) (i : ℕ) (l : Lease) (reg : Registration)
    → get_elem? s.leases i ≡ some l
    → l.held ≡ true
    → s.registrations l.key ≡ some reg
    → AllCounted s
    → AllCounted (ended_on (some reg) l (record s { leases = update_at drop_held s.leases i })).1
ended_counted s i l reg g held e inv =
    let s1 = record s { leases = update_at drop_held s.leases i } in
    elim (ended_cases l reg s1 (names_registration s i l reg g held e inv)) [
      | inl (m, q) ↦
          subst (λ v. AllCounted v.1) (sym q)
            (fewer_counted s i l reg g (own_unreleased l held) e m inv)
      | inr (m, q) ↦ subst (λ v. AllCounted v.1) (sym q) (dropped_counted s i l g inv)
    ]

pub end_counted :
    (s : Registry) (i : ℕ) (l : Lease)
    → get_elem? s.leases i ≡ some l
    → l.held ≡ true
    → AllCounted s
    → AllCounted
        (ended_on
          (s.registrations l.key)
          l
          (record s { leases = update_at drop_held s.leases i })).1
end_counted s i l g held inv = elim (Option-cases (s.registrations l.key)) [
  | inl e ↦
      subst
        (λ v. AllCounted (ended_on v l (record s { leases = update_at drop_held s.leases i })).1)
        (sym e) (drop_unregistered s i l g e inv)
  | inr (reg, e) ↦
      subst
        (λ v. AllCounted (ended_on v l (record s { leases = update_at drop_held s.leases i })).1)
        (sym e) (ended_counted s i l reg g held e inv)
]

end_lease-some :
    (i : ℕ) (s : Registry) (l : Lease)
    → get_elem? s.leases i ≡ some l
    → end_lease i s
      ≡ ended_on (s.registrations l.key) l (record s { leases = update_at drop_held s.leases i })
unfolding end_lease
end_lease-some i s l g = ap (λ v. ended_lease v i s) g

ended_by-registry : (v : Option ℕ × Registry) (s : System) → (ended_by v s).registry ≡ v.1
ended_by-registry (none, r) s = refl
ended_by-registry (some a, r) s = refl

-- Either the i-th lease is being released, or `ends i` changes nothing.
pub ends_cases :
    (valid : Text → Bool) (s : System) (i : ℕ)
    → ((l : Lease) × (get_elem? s.registry.leases i ≡ some l)
        × (l.held ≡ true)
        × (step valid s (ends i)
            ≡ ended_by
                (ended_on
                  (s.registry.registrations l.key)
                  l
                  (record s.registry { leases = update_at drop_held s.registry.leases i }))
                s))
      ⊎ (step valid s (ends i) ≡ s)
unfolding step
ends_cases valid s i = elim (Option-cases (get_elem? s.registry.leases i)) [
  | inl g ↦ inr (ground arith)
  | inr (l, g) ↦ elim (Bool-cases (l.released && l.held)) [
    | inl h ↦ inl (l, g, ground arith, ground (arith, end_lease-some i s.registry l g))
    | inr h ↦ inr (ground arith)
  ]
]

ends_counted :
    (valid : Text → Bool) (s : System) (i : ℕ)
    → AllCounted s.registry
    → AllCounted (step valid s (ends i)).registry
ends_counted valid s i inv = elim (ends_cases valid s i) [
  | inl (l, g, held, q) ↦
      subst AllCounted (sym (ap (λ t. t.registry) q ∙ ended_by-registry _ s))
        (end_counted s.registry i l g held inv)
  | inr q ↦ subst (λ t. AllCounted t.registry) (sym q) inv
]

stops_counted :
    (valid : Text → Bool) (s : System) (a : ℕ)
    → AllCounted s.registry
    → AllCounted (step valid s (stops a)).registry
unfolding step
stops_counted valid s a inv = elim (Bool-cases (elem a s.stopping)) [
  | inl q ↦
      let e : step valid s (stops a) ≡ record {
        registry = record s.registry { pollers = update_at stop_poll s.registry.pollers a };
        stopping = without a s.stopping;
      } =
        ground arith in
      subst (λ t. AllCounted t.registry) (sym e) inv
  | inr q ↦
      let e : step valid s (stops a) ≡ s = ground arith in
      subst (λ t. AllCounted t.registry) (sym e) inv
]

pub step_counted :
    (valid : Text → Bool) (s : System) (e : Event)
    → AllCounted s.registry
    → AllCounted (step valid s e).registry
unfolding step stop_all
step_counted valid s (starts k) inv = register_counted k s.registry inv
step_counted valid s (boots a) inv = inv
step_counted valid s (fetches a answer now) inv = inv
step_counted valid s (claims i) inv =
    λ k reg h. still-Counted k s.registry.leases i reg (inv k reg h)
step_counted valid s (ends i) inv = ends_counted valid s i inv
step_counted valid s (stops a) inv = stops_counted valid s a inv
step_counted valid s stops_all inv = λ k reg h. absurd (ground arith)

run_counted :
    (valid : Text → Bool) (s : System) (es : List Event)
    → AllCounted s.registry
    → AllCounted (run valid s es).registry
unfolding run
run_counted valid s [] inv = inv
run_counted valid s (e ∷ es) inv =
    run_counted valid (step valid s e) es (step_counted valid s e inv)

-- After any interleaving of clients that start and release, of pollers and of stops, a running
-- registration counts exactly the unreleased leases on its key, and there is at least one.
pub leases_counted :
    (valid : Text → Bool) (es : List Event) (k : EngineKey) (reg : Registration)
    → (run valid no_clients es).registry.registrations k ≡ some reg
    → (reg.leases ≡ count_unreleased k (run valid no_clients es).registry.leases) × (1 ≤ reg.leases)
leases_counted valid es k reg h =
    let (c, p, f) = run_counted valid no_clients es (λ j r e. absurd (ground arith)) k reg h in
    (c, p)
