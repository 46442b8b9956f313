-- ===== src/Enforcement/Engine/Counts.antt =====
-- Each running registration counts the leases of its key.
pub mod Ends
use revenium_go_sdk.Base.{
  update_at, ◌≡◌, refl, ◌∙◌, sym, ap, ℕ, suc, ◌+◌, ◌-◌, ◌%◌, ◌^◌, ◌≤◌, List, [], ◌∷◌, ◌++◌, Bool,
  true, false, ◌&&◌, Option, some, none, map, get_elem?, arith, ltb, length, Text, Bool-cases,
  Option-cases, inl, inr, subst, ◌⊎◌,
}
use revenium_go_sdk.Enforcement.Engine.{
  EngineKey, Lease, Registration, Registry, key_eq, unreleased_on, count_unreleased, adopt,
  new_lease, claim, drop_held, put, stop_poll, register, joined, opened, registered_on,
  one_lease_less, poll_dropped, ended_on, ended_lease, end_lease, stop_all,
}
use revenium_go_sdk.Enforcement.Engine.Counting.{
  Follow, key_eq_refl, key_eq_sound, count-append, count-adopt, count-claim, count-drop,
  append-Follow, adopt-Follow, adopt_other-Follow, claim-Follow, drop-Follow, get-Follow,
}
use revenium_go_sdk.Enforcement.Engine.System.{
  System, Event, elem, without, ended_by, starts, boots, fetches, claims, ends, stops, stops_all,
  step, run, no_clients,
}

-- What holds of a registration of `k`.
abbrev pub Counted : EngineKey → List Lease → Registration → Type 0
Counted k ls reg = (reg.leases ≡ count_unreleased k ls) × (1 ≤ reg.leases) × Follow k reg.poller ls

abbrev pub AllCounted : Registry → Type 0
AllCounted s =
    (k : EngineKey) (reg : Registration) → s.registrations k ≡ some reg → Counted k s.leases reg

abbrev CountedIn : (EngineKey → Option Registration) → List Lease → Type 0
CountedIn m ls = (j : EngineKey) (reg : Registration) → m j ≡ some reg → Counted j ls reg

put-Counted :
    (k : EngineKey) (v : Option Registration) (m : EngineKey → Option Registration)
    (ls : List Lease)
    → ((reg : Registration) → v ≡ some reg → Counted k ls reg)
    → ((j : EngineKey) (reg : Registration)
        → key_eq j k ≡ false
        → m j ≡ some reg
        → Counted j ls reg)
    → CountedIn (put k v m) ls
unfolding put
put-Counted k v m ls own other j reg h = elim (Bool-cases (key_eq j k)) [
  | inl q ↦ subst (λ x. Counted x ls reg) (sym (key_eq_sound j k q)) (own reg (ground arith))
  | inr q ↦ other j reg q (ground arith)
]

only :
    (k : EngineKey) (ls : List Lease) (reg : Registration)
    → Counted k ls reg
    → (r : Registration) → some reg ≡ some r
    → Counted k ls r
only k ls reg c r h = let e : reg ≡ r = ground arith in subst (Counted k ls) e c

pub new_lease_other :
    (k j : EngineKey) (a : ℕ) → key_eq j k ≡ false → unreleased_on j (new_lease k a) ≡ false
unfolding unreleased_on
new_lease_other k j a h = ground (arith, key_eq_sound k j, key_eq_refl k)

new_lease_own : (k : EngineKey) (a : ℕ) → unreleased_on k (new_lease k a) ≡ true
unfolding unreleased_on
new_lease_own k a = ground (arith, key_eq_refl k)

append_other :
    (k j : EngineKey) (a : ℕ) (ls : List Lease) (reg : Registration)
    → key_eq j k ≡ false
    → Counted j ls reg
    → Counted j (ls ++ new_lease k a ∷ []) reg
append_other k j a ls reg q (c, p, f) =
    let o = new_lease_other k j a q in
    (
      ground (arith, count-append j ls (new_lease k a)),
      p,
      append-Follow j reg.poller ls (new_lease k a) f (λ h. ground arith),
    )

adopt_other :
    (k j : EngineKey) (a : ℕ) (ls : List Lease) (reg : Registration)
    → key_eq j k ≡ false
    → Counted j ls reg
    → Counted j (map (adopt k a) ls) reg
adopt_other k j a ls reg q (c, p, f) =
    (c ∙ sym (count-adopt j k a ls), p, adopt_other-Follow j k reg.poller a ls q f)

joined_counted :
    (k : EngineKey) (reg : Registration) (s : Registry)
    → s.registrations k ≡ some reg
    → AllCounted s
    → AllCounted (joined k reg s)
joined_counted k reg s e inv =
    let (c, p, f) = inv k reg e in
    let l = new_lease k reg.poller in
    let own = new_lease_own k reg.poller in
    put-Counted k (some (record reg { leases = suc reg.leases })) s.registrations
      (s.leases ++ l ∷ [])
      (only k (s.leases ++ l ∷ []) (record reg { leases = suc reg.leases })
        (
          ground (arith, count-append k s.leases l),
          omega arith,
          append-Follow k reg.poller s.leases l f (λ g. refl),
        ))
      (λ j r q h. append_other k j reg.poller s.leases r q (inv j r h))

opened_counted : (k : EngineKey) (s : Registry) → AllCounted s → AllCounted (opened k s)
unfolding put
opened_counted k s inv =
    let a = length s.pollers in
    let l = new_lease k a in
    let ls = map (adopt k a) s.leases in
    let n = (s.registered + 1) % 2 ^ 64 in
    let reg : Registration = record {
      poller = a;
      leases = suc (count_unreleased k s.leases);
      started = n;
    } in
    let own = new_lease_own k a in
    put-Counted k (some reg) s.registrations (ls ++ l ∷ [])
      (only k (ls ++ l ∷ []) reg (
        ground (arith, count-append k ls l, count-adopt k k a s.leases),
        omega arith,
        append-Follow k a ls l (adopt-Follow k a s.leases) (λ g. refl),
      ))
      (λ j r q h. append_other k j a ls r q (adopt_other k j a s.leases r q (inv j r h)))

register_counted : (k : EngineKey) (s : Registry) → AllCounted s → AllCounted (register k s)
unfolding register
register_counted k s inv = elim (Option-cases (s.registrations k)) [
  | inl e ↦ subst (λ v. AllCounted (registered_on v k s)) (sym e) (opened_counted k s inv)
  | inr (reg, e) ↦
      subst (λ v. AllCounted (registered_on v k s)) (sym e) (joined_counted k reg s e inv)
]
