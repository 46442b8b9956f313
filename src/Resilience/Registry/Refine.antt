-- ===== src/Resilience/Registry/Refine.antt =====
-- What each operation of the registry does to what is seen of it, as Spec.antt says.
pub mod Held
pub mod Runs
use mathlib.Core.Path.{fun_ext, ap₂}
use mathlib.Core.List.{map-append}
use revenium_go_sdk.Base.{
  ℕ, zero, suc, ◌+◌, ◌-◌, ◌≤◌, ◌<◌, ◌≡◌, ◌≢◌, refl, ap, subst, sym, ◌∙◌, Bool, true, false, not,
  ◌&&◌, List, [], ◌∷◌, ◌++◌, Option, none, some, ◌==◌, length, get_elem?, update_at, if◌then◌else◌,
  Text, text_eq, Unicode, arith, Option-cases, Bool-cases, inl, inr, map, get_elem?-update_self,
  get_elem?-update_other, length-update, get_elem?-append, get_elem?-last, get_elem?-below,
  length-append, ◌⊎◌, get_elem?-append_cases, get_elem?-update_cases, get_elem?-defined,
  text_eq_sound, text_eq_refl, eq_cases,
}
use revenium_go_sdk.Resilience.BreakerState.{Breaker}
use revenium_go_sdk.Resilience.Registry.{
  ScopedBreaker, Handle, Breakers, no_breakers, fresh_breaker, add_user, drop_user, give_back,
  has_no_users, is_entry, hold_entry, store_entry, acquired, entry_at, acquire_circuit_breaker,
  release_scoped_breaker, release_handle, use_breaker, change_breaker, released_handle, used, Event,
  acquires, releases, uses, resets, step, run,
}
use revenium_go_sdk.Resilience.Registry.Counts.{
  users_of, users_of-give_back, users_of-holder, IsCounted, no_breakers-IsCounted, registered_below,
  entry_at_cases,
}
use revenium_go_sdk.Resilience.Registry.Counts.Releases.{without, kept_handle}
use revenium_go_sdk.Resilience.Registry.Counts.Runs.{step-IsCounted}
use revenium_go_sdk.Resilience.Registry.Spec.{
  Client, Shared, put_at, joined, left, changed, finish_client, leave, change, spec_step, spec_run,
  entry_of, client_of, view,
}

-- An entry that a change elsewhere leaves alone, as another scope sees it.
other_scope :
    (f : ScopedBreaker → ScopedBreaker) (s : Breakers) (scope : Text) (a : ℕ) (k : Text)
    → IsCounted s
    → s.scoped scope ≡ some a
    → text_eq k scope ≡ false
    → entry_of (update_at f s.entries a) (s.scoped k) ≡ entry_of s.entries (s.scoped k)
other_scope f s scope a k c r n = elim (Option-cases (s.scoped k)) [
  | inl e ↦ ground arith
  | inr (b, e) ↦ elim (eq_cases a b) [
    | inl q ↦
        let j = c.one_scope k scope b e (r ∙ ap some q) in
        let t = text_eq_refl k in absurd (ground arith)
    | inr q ↦ let g = get_elem?-update_other f s.entries a b q in ground arith
  ]
]

-- A change of a registered entry is a change at its scope.
changed_at :
    (f : ScopedBreaker → ScopedBreaker) (s : Breakers) (scope : Text) (a : ℕ) (e : ScopedBreaker)
    → IsCounted s
    → s.scoped scope ≡ some a
    → get_elem? s.entries a ≡ some e
    → (k : Text)
    → entry_of (update_at f s.entries a) (s.scoped k)
      ≡ put_at scope (some (f e)) (λ j. entry_of s.entries (s.scoped j)) k
changed_at f s scope a e c r g k = elim (Bool-cases (text_eq k scope)) [
  | inl y ↦
      let q = text_eq_sound k scope y in
      let v = get_elem?-update_self f s.entries a e g in
      let w : s.scoped k ≡ some a = ap s.scoped q ∙ r in ground arith
  | inr n ↦ let o = other_scope f s scope a k c r n in ground arith
]

stored_at :
    (s : Breakers) (scope : Text) (e : ScopedBreaker)
    → IsCounted s
    → s.scoped scope ≡ none
    → (k : Text)
    → entry_of
        (update_at add_user (s.entries ++ e ∷ []) (length s.entries))
        (entry_at scope (some (length s.entries)) s.scoped k)
      ≡ put_at scope (some (add_user e)) (λ j. entry_of s.entries (s.scoped j)) k
stored_at s scope e c r k = elim (Bool-cases (text_eq k scope)) [
  | inl y ↦
      let v =
        get_elem?-update_self add_user (s.entries ++ e ∷ []) (length s.entries) e
          (get_elem?-last s.entries e) in
      ground arith
  | inr n ↦ elim (Option-cases (s.scoped k)) [
    | inl q ↦ ground arith
    | inr (b, q) ↦
        let l = registered_below s c k b q in
        let (d, g) = get_elem?-defined s.entries b l in
        let v =
          get_elem?-update_other add_user (s.entries ++ e ∷ []) (length s.entries) b
            (λ p. omega arith) in
        let w = get_elem?-append s.entries e b d g in ground arith
  ]
]

map-update :
    (hs : List Handle) (i : ℕ)
    → map client_of (update_at give_back hs i) ≡ update_at finish_client (map client_of hs) i
unfolding update_at
map-update [] i = refl
map-update (h ∷ hs) zero = refl
map-update (h ∷ hs) (suc i) = ap (λ t. client_of h ∷ t) (map-update hs i)

-- What an option of a handle is to the specification.
abbrev pub client_at : Option Handle → Option Client
client_at none = none
client_at (some h) = some (client_of h)

pub get_elem?-map :
    (hs : List Handle) (i : ℕ) → get_elem? (map client_of hs) i ≡ client_at (get_elem? hs i)
get_elem?-map [] i = refl
get_elem?-map (h ∷ hs) zero = refl
get_elem?-map (h ∷ hs) (suc i) = get_elem?-map hs i

shared_eq :
    (a b : Shared) → ((k : Text) → a.breakers k ≡ b.breakers k) → a.clients ≡ b.clients → a ≡ b
shared_eq a b p q = λ i. record { breakers = fun_ext p i; clients = q i }

-- Without a reset, a client that has not given its breaker back holds the one of its scope.
abbrev pub IsHeld : Breakers → Type 0
IsHeld s =
    (i : ℕ) (h : Handle)
    → get_elem? s.handles i ≡ some h
    → h.released ≡ false
    → s.scoped h.scope ≡ some h.entry

pub view-acquired :
    (s : Breakers) (scope : Text) (e : ScopedBreaker) (r : Option ℕ)
    → IsCounted s
    → s.scoped scope ≡ r
    → view (acquired scope e r s) ≡ record {
      breakers =
          put_at scope (some (joined e (entry_of s.entries (s.scoped scope)))) (view s).breakers;
      clients = map client_of s.handles ++ record { scope = scope; done = false } ∷ [];
    }
view-acquired s scope e none c q =
    shared_eq _ _ (λ k. let v = stored_at s scope e c q k in ground arith)
      (map-append client_of s.handles _)
view-acquired s scope e (some a) c q =
    let (d, g) = get_elem?-defined s.entries a (registered_below s c scope a q) in
    shared_eq _ _ (λ k. let v = changed_at add_user s scope a d c q g k in ground arith)
      (map-append client_of s.handles _)

pub view-used :
    (s : Breakers) (f : Breaker → Breaker) (i : ℕ) (o : Option Handle)
    → IsCounted s
    → IsHeld s
    → get_elem? s.handles i ≡ o
    → view (used f o s) ≡ change f (client_at o) (view s)
view-used s f i none c t q = refl
view-used s f i (some h) c t q =
    elim h.released
        as (λ b.
          h.released ≡ b
          → view (
              if b
              then s
              else record s { entries = update_at (change_breaker f) s.entries h.entry })
            ≡ (if b then view s else record (view s) {
              breakers = put_at h.scope (changed f ((view s).breakers h.scope)) (view s).breakers;
            })) [
              | true ↦ λ y. refl
              | false ↦ λ n.
                  let r = t i h q n in
                  let (d, g) =
                    get_elem?-defined s.entries h.entry (registered_below s c h.scope h.entry r) in
                  shared_eq _ _
                    (λ k.
                      let v = changed_at (change_breaker f) s h.scope h.entry d c r g k in
                      ground arith)
                    refl
            ]
      refl

view-released :
    (s : Breakers) (i : ℕ) (h : Handle)
    → IsCounted s
    → IsHeld s
    → get_elem? s.handles i ≡ some h
    → h.released ≡ false
    → view (
        release_scoped_breaker h.scope h.entry
          (record s { handles = update_at give_back s.handles i }))
      ≡ record {
        breakers = put_at h.scope (left ((view s).breakers h.scope)) (view s).breakers;
        clients = update_at finish_client (view s).clients i;
      }
unfolding release_scoped_breaker
view-released s i h c t q n =
    let r = t i h q n in
    let (d, g) = get_elem?-defined s.entries h.entry (registered_below s c h.scope h.entry r) in
    let u = users_of-holder s.handles i h q n in
    let m = c.counted h.entry d g in
    let v = get_elem?-update_self drop_user s.entries h.entry d g in
    shared_eq _ _
      (λ k.
        let w = changed_at drop_user s h.scope h.entry d c r g k in
        let p = entry_at_cases h.scope none s.scoped k in
        let j = text_eq_sound k h.scope in ground arith)
      (ground (arith, map-update s.handles i))

pub view-left :
    (s : Breakers) (i : ℕ) (o : Option Handle)
    → IsCounted s
    → IsHeld s
    → get_elem? s.handles i ≡ o
    → view (released_handle o i s) ≡ leave i (client_at o) (view s)
view-left s i none c t q = refl
view-left s i (some h) c t q =
    let after =
      release_scoped_breaker h.scope h.entry
        (record s { handles = update_at give_back s.handles i }) in
    elim h.released
        as (λ b.
          h.released ≡ b
          → view (if b then s else after) ≡ (
              if b then view s else record {
                breakers = put_at h.scope (left ((view s).breakers h.scope)) (view s).breakers;
                clients = update_at finish_client (view s).clients i;
              })) [ true ↦ λ y. refl | false ↦ λ n. view-released s i h c t q n ]
      refl

abbrev pub is_reset : Event → Bool
is_reset resets = true
is_reset _ = false

abbrev pub no_resets : List Event → Bool
no_resets [] = true
no_resets (e ∷ es) = not (is_reset e) && no_resets es
