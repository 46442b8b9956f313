-- ===== src/Enforcement/Engine/Leased.antt =====
-- A lease keeps the poll of its team, whatever other clients do.
pub mod Runs
use revenium_go_sdk.Base.{
  update_at, ◌≡◌, refl, ◌∙◌, sym, ap, ℕ, zero, suc, ◌+◌, ◌-◌, ◌%◌, ◌^◌, ◌≤◌, ◌<◌, List, [], ◌∷◌,
  ◌++◌, Bool, true, false, not, ◌&&◌, ◌||◌, Option, some, none, map, get_elem?, arith,
  if◌then◌else◌, ◌==◌, ltb, length, Text, Bool-cases, Option-cases, inl, inr, subst, ◌⊎◌,
}
use revenium_go_sdk.Enforcement.Engine.{
  EngineKey, Lease, Registration, Registry, Poller, key_eq, unreleased_on, count_unreleased, adopt,
  new_lease, drop_held, put, register, registered_on, one_lease_less, poll_dropped, ended_on, claim,
}
use revenium_go_sdk.Enforcement.Engine.Counting.{
  key_eq_refl, key_eq_sound, count-append, count-adopt, count-claim, count-drop,
}
use revenium_go_sdk.Enforcement.Engine.Counts.{AllCounted, new_lease_other}
use revenium_go_sdk.Enforcement.Engine.Counts.Ends.{
  ended_cases, names_registration, ends_cases, step_counted,
}
use revenium_go_sdk.Enforcement.Engine.Kept.{is_up}
use revenium_go_sdk.Enforcement.Engine.Kept.Steps.{Up, step-Up}
use revenium_go_sdk.Enforcement.Engine.System.{
  System, Event, starts, boots, fetches, claims, ends, stops, stops_all, step, run, no_clients,
  elem, without, ended_by,
}

abbrev has_poll : Option Registration → Bool
has_poll none = false
has_poll (some reg) = true

abbrev Kept : EngineKey → Registry → Type 0
Kept k s = (count_unreleased k s.leases ≡ 0) ⊎ (has_poll (s.registrations k) ≡ true)

abbrev is_stop : Event → Bool
is_stop stops_all = true
is_stop _ = false

-- No event is the Stop of all polls.
abbrev pub none_stops_all : List Event → Bool
none_stops_all [] = true
none_stops_all (e ∷ es) = not (is_stop e) && none_stops_all es

put-has_poll :
    (k j : EngineKey) (r : Registration) (m : EngineKey → Option Registration)
    → (key_eq j k ≡ true) ⊎ (has_poll (m j) ≡ true)
    → has_poll (put k (some r) m j) ≡ true
unfolding put
put-has_poll k j r m h = ground arith

put_other :
    (k j : EngineKey) (v : Option Registration) (m : EngineKey → Option Registration)
    → key_eq j k ≡ false
    → put k v m j ≡ m j
unfolding put
put_other k j v m h = ground arith

register_own : (k : EngineKey) (s : Registry) → has_poll ((register k s).registrations k) ≡ true
unfolding register
register_own k s = elim (Option-cases (s.registrations k)) [
  | inl e ↦
      subst (λ v. has_poll ((registered_on v k s).registrations k) ≡ true) (sym e)
        (put-has_poll k k _ s.registrations (inl (key_eq_refl k)))
  | inr (reg, e) ↦
      subst (λ v. has_poll ((registered_on v k s).registrations k) ≡ true) (sym e)
        (put-has_poll k k _ s.registrations (inl (key_eq_refl k)))
]

register_other :
    (k j : EngineKey) (s : Registry) → key_eq j k ≡ false → Kept j s → Kept j (register k s)
unfolding register
register_other k j s q h = elim (Option-cases (s.registrations k)) [
  | inl e ↦
      let a = length s.pollers in
      let o = new_lease_other k j a q in
      subst (λ v. Kept j (registered_on v k s)) (sym e)
        (elim h [
          | inl z ↦ inl (
              ground (
                arith,
                count-append j (map (adopt k a) s.leases) (new_lease k a),
                count-adopt j k a s.leases,
              ))
          | inr p ↦ inr (put-has_poll k j _ s.registrations (inr p))
        ])
  | inr (reg, e) ↦
      let o = new_lease_other k j reg.poller q in
      subst (λ v. Kept j (registered_on v k s)) (sym e)
        (elim h [
          | inl z ↦ inl (ground (arith, count-append j s.leases (new_lease k reg.poller)))
          | inr p ↦ inr (put-has_poll k j _ s.registrations (inr p))
        ])
]

register-Kept : (k j : EngineKey) (s : Registry) → Kept j s → Kept j (register k s)
register-Kept k j s h = elim (Bool-cases (key_eq j k)) [
  | inl q ↦ subst (λ x. Kept x (register k s)) (sym (key_eq_sound j k q)) (inr (register_own k s))
  | inr q ↦ register_other k j s q h
]

ended_last :
    (j : EngineKey) (s : Registry) (i : ℕ) (l : Lease) (reg : Registration)
    → get_elem? s.leases i ≡ some l
    → l.held ≡ true
    → s.registrations l.key ≡ some reg
    → reg.leases ≤ 1
    → AllCounted s
    → Kept j s
    → Kept j (poll_dropped l.key (record s { leases = update_at drop_held s.leases i }))
unfolding unreleased_on
ended_last j s i l reg g held e m inv h =
    let (c, p, f) = inv l.key reg e in
    let d = count-drop j s.leases i l g in
    elim (Bool-cases (key_eq j l.key)) [
      | inl q ↦
          let same : j ≡ l.key = key_eq_sound j l.key q in
          let n = ap (λ x. count_unreleased x s.leases) same in
          let t = key_eq_refl l.key in
          let w : key_eq l.key j ≡ true = ap (key_eq l.key) same ∙ t in inl (ground arith)
      | inr q ↦ elim h [
        | inl z ↦ inl (ground arith)
        | inr o ↦ let k = put_other l.key j none s.registrations q in inr (ground arith)
      ]
    ]

ended-Kept :
    (j : EngineKey) (s : System) (i : ℕ) (l : Lease)
    → get_elem? s.registry.leases i ≡ some l
    → l.held ≡ true
    → AllCounted s.registry
    → Kept j s.registry
    → Kept j
        (ended_by
          (ended_on
            (s.registry.registrations l.key)
            l
            (record s.registry { leases = update_at drop_held s.registry.leases i }))
          s).registry
ended-Kept j s i l g held inv h =
    let s1 = record s.registry { leases = update_at drop_held s.registry.leases i } in
    let m = s.registry.registrations in
    let d = count-drop j s.registry.leases i l g in
    elim (Option-cases (m l.key)) [
      | inl e ↦
          subst (λ v. Kept j (ended_by (ended_on v l s1) s).registry) (sym e)
            (elim h [ inl z ↦ inl (ground arith) | inr o ↦ inr o ])
      | inr (reg, e) ↦
          subst (λ v. Kept j (ended_by (ended_on v l s1) s).registry) (sym e)
            (elim (ended_cases l reg s1 (names_registration s.registry i l reg g held e inv)) [
              | inl (n, q) ↦
                  subst (λ v. Kept j (ended_by v s).registry) (sym q)
                    (elim h [
                      | inl z ↦ inl (ground arith)
                      | inr o ↦ inr (put-has_poll l.key j _ m (inr o))
                    ])
              | inr (n, q) ↦
                  subst (λ v. Kept j (ended_by v s).registry) (sym q)
                    (ended_last j s.registry i l reg g held e n inv h)
            ])
    ]

step-Kept :
    (valid : Text → Bool) (j : EngineKey) (s : System) (e : Event)
    → is_stop e ≡ false
    → AllCounted s.registry
    → Kept j s.registry
    → Kept j (step valid s e).registry
unfolding step
step-Kept valid j s (starts k) o inv h = register-Kept k j s.registry h
step-Kept valid j s (boots a) o inv h = h
step-Kept valid j s (fetches a answer now) o inv h = h
step-Kept valid j s (claims i) o inv h = elim h [
  | inl z ↦ inl (count-claim j s.registry.leases i ∙ z)
  | inr p ↦ inr p
]
step-Kept valid j s (ends i) o inv h = elim (ends_cases valid s i) [
  | inl (l, g, held, q) ↦ subst (λ t. Kept j t.registry) (sym q) (ended-Kept j s i l g held inv h)
  | inr q ↦ subst (λ t. Kept j t.registry) (sym q) h
]
step-Kept valid j s (stops a) o inv h = elim h [
  | inl z ↦ inl (ground arith)
  | inr p ↦ inr (ground arith)
]
step-Kept valid j s stops_all o inv h = absurd (ground arith)
