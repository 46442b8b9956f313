-- ===== src/Resilience/Registry/Counts/Runs.antt =====
-- The counts in every run.
use revenium_go_sdk.Base.{
  ℕ, ◌≤◌, ◌≡◌, refl, true, false, List, [], ◌∷◌, Option, none, some, get_elem?, update_at,
  if◌then◌else◌, Text, Unicode, arith, inl, inr, length-update, get_elem?-update_cases,
}
use revenium_go_sdk.Resilience.BreakerState.{Breaker}
use revenium_go_sdk.Resilience.Registry.{
  ScopedBreaker, Handle, Breakers, no_breakers, fresh_breaker, give_back, acquired, used,
  released_handle, reset_circuit_breakers, acquire_circuit_breaker, release_scoped_breaker,
  release_handle, use_breaker, change_breaker, Event, acquires, releases, uses, resets, step, run,
}
use revenium_go_sdk.Resilience.Registry.Counts.{
  users_of, IsCounted, no_breakers-IsCounted, join-IsCounted, first-IsCounted,
}
use revenium_go_sdk.Resilience.Registry.Counts.Releases.{given_back-IsCounted}

acquired-IsCounted :
    (s : Breakers) (c : IsCounted s) (scope : Text) (e : ScopedBreaker) (r : Option ℕ)
    → s.scoped scope ≡ r
    → e.users ≡ 0
    → IsCounted (acquired scope e r s)
acquired-IsCounted s c scope e (some a) q z = join-IsCounted s c scope a q
acquired-IsCounted s c scope e none q z = first-IsCounted s c scope e z

changed-IsCounted :
    (f : Breaker → Breaker) (a : ℕ) (s : Breakers)
    → IsCounted s
    → IsCounted (record s { entries = update_at (change_breaker f) s.entries a })
changed-IsCounted f a s c = record {
  counted = λ b e h. elim (get_elem?-update_cases (change_breaker f) s.entries a b e h) [
    | inl (q, d, y, z) ↦ let k = c.counted b d y in ground arith
    | inr (q, y) ↦ c.counted b e y
  ];
  bounded =
      λ b l. let k = length-update (change_breaker f) s.entries a in c.bounded b (omega arith);
  registered = c.registered;
  one_scope = c.one_scope;
  named = c.named;
}

released-IsCounted :
    (s : Breakers) (c : IsCounted s) (i : ℕ) (h : Option Handle)
    → get_elem? s.handles i ≡ h
    → IsCounted (released_handle h i s)
unfolding release_scoped_breaker
released-IsCounted s c i none q = c
released-IsCounted s c i (some h) q =
    let after =
      release_scoped_breaker h.scope h.entry
        (record s { handles = update_at give_back s.handles i }) in
    elim h.released as (λ b. h.released ≡ b → IsCounted (if b then s else after)) [
      | true ↦ λ y. c
      | false ↦ λ n. given_back-IsCounted s c i h q n
    ]
      refl

used-IsCounted :
    (s : Breakers) (c : IsCounted s) (f : Breaker → Breaker) (h : Option Handle)
    → IsCounted (used f h s)
used-IsCounted s c f none = c
used-IsCounted s c f (some h) =
    let after = record s { entries = update_at (change_breaker f) s.entries h.entry } in
    elim h.released as (λ b. IsCounted (if b then s else after)) [
      | true ↦ c
      | false ↦ changed-IsCounted f h.entry s c
    ]

reset-IsCounted : (s : Breakers) → IsCounted s → IsCounted (reset_circuit_breakers s)
reset-IsCounted s c = record {
  counted = c.counted;
  bounded = c.bounded;
  registered = λ k a h. ground arith;
  one_scope = λ j k a p q. ground arith;
  named = λ k i h e n p. ground arith;
}

pub step-IsCounted : (u : Unicode) (e : Event) (s : Breakers) → IsCounted s → IsCounted (step u e s)
unfolding step acquire_circuit_breaker release_handle use_breaker
step-IsCounted u (acquires scope now) s c =
    acquired-IsCounted s c scope (fresh_breaker u now) (s.scoped scope) refl refl
step-IsCounted u (releases i) s c = released-IsCounted s c i (get_elem? s.handles i) refl
step-IsCounted u (uses f i) s c = used-IsCounted s c f (get_elem? s.handles i)
step-IsCounted u resets s c = reset-IsCounted s c

pub run-IsCounted :
    (u : Unicode) (es : List Event) (s : Breakers) → IsCounted s → IsCounted (run u es s)
unfolding run
run-IsCounted u [] s c = c
run-IsCounted u (e ∷ es) s c = run-IsCounted u es (step u e s) (step-IsCounted u e s c)

-- After any run of clients that acquire breakers, use them and give them back, and of resets, each
-- entry counts exactly the handles on it that were not given back, and an entry is registered for a
-- scope only as long as there is one.
pub users_exact :
    (u : Unicode) (es : List Event)
    → ((a : ℕ) (e : ScopedBreaker)
        → get_elem? (run u es no_breakers).entries a ≡ some e
        → e.users ≡ users_of a (run u es no_breakers).handles)
      × ((k : Text) (a : ℕ)
          → (run u es no_breakers).scoped k ≡ some a
          → 1 ≤ users_of a (run u es no_breakers).handles)
users_exact u es =
    let c = run-IsCounted u es no_breakers no_breakers-IsCounted in (c.counted, c.registered)
