-- ===== src/Resilience/Registry/Counts.antt =====
-- The users of an entry are the handles on it that were not released: what a client that begins
-- does to them.
pub mod Releases
pub mod Runs
use native.Mathlib.Decide.{dec_lt}
use revenium_go_sdk.Base.{
  ℕ, zero, suc, ◌+◌, ◌-◌, ◌≤◌, ◌<◌, ◌≡◌, ◌≢◌, refl, ap, subst, sym, ◌∙◌, Bool, true, false, not,
  ◌&&◌, List, [], ◌∷◌, ◌++◌, Option, none, some, ◌==◌, length, get_elem?, update_at, if◌then◌else◌,
  Text, text_eq, Unicode, arith, Option-cases, Bool-cases, inl, inr, get_elem?-update_self,
  get_elem?-update_other, length-update, get_elem?-append, get_elem?-last, get_elem?-below,
  length-append, ◌⊎◌, get_elem?-append_cases, get_elem?-update_cases, text_eq_sound, eq_cases,
  text_eq_refl, get_elem?-defined,
}
use revenium_go_sdk.Resilience.BreakerState.{Breaker}
use revenium_go_sdk.Resilience.Registry.{
  ScopedBreaker, Handle, Breakers, no_breakers, fresh_breaker, add_user, drop_user, give_back,
  has_no_users, is_entry, hold_entry, store_entry, acquired, entry_at, acquire_circuit_breaker,
  release_scoped_breaker, release_handle, use_breaker, change_breaker, Event, acquires, releases,
  uses, resets, step, run,
}

abbrev pub holds_entry : ℕ → Handle → Bool
holds_entry a h = not h.released && (h.entry == a)

-- How many handles on an entry were not given back.
unfoldable pub users_of : ℕ → List Handle → ℕ
users_of a [] = 0
users_of a (h ∷ hs) = if holds_entry a h then suc (users_of a hs) else users_of a hs

pub users_of-append :
    (a : ℕ) (hs : List Handle) (h : Handle)
    → users_of a (hs ++ h ∷ []) ≡ users_of a hs + (if holds_entry a h then 1 else 0)
unfolding users_of
users_of-append a [] h = ground arith
users_of-append a (g ∷ hs) h = ground (arith, users_of-append a hs h)

pub users_of-give_back :
    (a : ℕ) (hs : List Handle) (i : ℕ) (h : Handle)
    → get_elem? hs i ≡ some h
    → h.released ≡ false
    → users_of a hs ≡ users_of a (update_at give_back hs i) + (if h.entry == a then 1 else 0)
unfolding users_of update_at
users_of-give_back a [] i h e n = ground arith
users_of-give_back a (g ∷ hs) zero h e n = ground arith
users_of-give_back a (g ∷ hs) (suc i) h e n = ground (arith, users_of-give_back a hs i h e n)

pub users_of-holder :
    (hs : List Handle) (i : ℕ) (h : Handle)
    → get_elem? hs i ≡ some h
    → h.released ≡ false
    → 1 ≤ users_of h.entry hs
unfolding users_of
users_of-holder [] i h e n = ground arith
users_of-holder (g ∷ hs) zero h e n = ground arith
users_of-holder (g ∷ hs) (suc i) h e n = ground (arith, users_of-holder hs i h e n)

-- Each entry counts the unreleased handles on it; a registered entry has one, and is registered for
-- the scope of all of them.
pub record IsCounted (s : Breakers) : Type 0 where
  pub counted :
      (a : ℕ) (e : ScopedBreaker) → get_elem? s.entries a ≡ some e → e.users ≡ users_of a s.handles
  pub bounded : (a : ℕ) → length s.entries ≤ a → users_of a s.handles ≡ 0
  pub registered : (k : Text) (a : ℕ) → s.scoped k ≡ some a → 1 ≤ users_of a s.handles
  pub one_scope : (j k : Text) (a : ℕ) → s.scoped j ≡ some a → s.scoped k ≡ some a → j ≡ k
  pub named :
      (k : Text) (i : ℕ) (h : Handle)
      → get_elem? s.handles i ≡ some h
      → h.released ≡ false
      → s.scoped k ≡ some h.entry
      → h.scope ≡ k

pub no_breakers-IsCounted : IsCounted no_breakers
unfolding users_of
no_breakers-IsCounted = record {
  counted = λ a e h. ground arith;
  bounded = λ a l. refl;
  registered = λ k a h. ground arith;
  one_scope = λ j k a p q. ground arith;
  named = λ k i h e n p. ground arith;
}

pub entry_at_cases :
    (scope : Text) (v : Option ℕ) (map : Text → Option ℕ) (k : Text)
    → ((k ≡ scope) × (entry_at scope v map k ≡ v)) ⊎ (entry_at scope v map k ≡ map k)
entry_at_cases scope v map k = elim (Bool-cases (text_eq k scope)) [
  | inl y ↦ inl (text_eq_sound k scope y, ground arith)
  | inr n ↦ inr (ground arith)
]

module _ (s : Breakers) (c : IsCounted s) where
  pub registered_below : (k : Text) (a : ℕ) → s.scoped k ≡ some a → a < length s.entries
  registered_below k a e =
      let r = c.registered k a e in
      elim (dec_lt a (length s.entries)) [
        | yes y ↦ y
        | no n ↦ let z = c.bounded a (omega arith) in absurd (omega arith)
      ]

  pub holder_below :
      (i : ℕ) (h : Handle)
      → get_elem? s.handles i ≡ some h
      → h.released ≡ false
      → h.entry < length s.entries
  holder_below i h e n =
      let r = users_of-holder s.handles i h e n in
      elim (dec_lt h.entry (length s.entries)) [
        | yes y ↦ y
        | no m ↦ let z = c.bounded h.entry (omega arith) in absurd (omega arith)
      ]

  -- A client joins the others of its scope.
  pub join-IsCounted :
      (scope : Text) (a : ℕ) → s.scoped scope ≡ some a → IsCounted (hold_entry scope a s)
  join-IsCounted scope a r =
      let l = registered_below scope a r in
      let new : Handle = record { scope = scope; entry = a; released = false } in
      let n = λ (b : ℕ). users_of-append b s.handles new in
      record {
        counted = λ b e h. elim (get_elem?-update_cases add_user s.entries a b e h) [
          | inl (q, d, y, z) ↦ let k = c.counted b d y in let m = n b in ground arith
          | inr (q, y) ↦ let k = c.counted b e y in let m = n b in ground arith
        ];
        bounded = λ b h.
            let k = length-update add_user s.entries a in
            let z = c.bounded b (omega arith) in let m = n b in ground arith;
        registered = λ k b h. let g = c.registered k b h in let m = n b in ground arith;
        one_scope = c.one_scope;
        named = λ k i h e u p. elim (get_elem?-append_cases s.handles new i h e) [
          | inl (q, y) ↦
              ap (λ g. g.scope) y ∙ c.one_scope scope k a r (p ∙ ap (λ g. some (g.entry)) y)
          | inr y ↦ c.named k i h y u p
        ];
      }

  -- The first client of a scope.
  pub first-IsCounted :
      (scope : Text) (e : ScopedBreaker)
      → e.users ≡ 0
      → IsCounted (hold_entry scope (length s.entries) (store_entry scope e s))
  first-IsCounted scope e z =
      let a = length s.entries in
      let new : Handle = record { scope = scope; entry = a; released = false } in
      let n = λ (b : ℕ). users_of-append b s.handles new in
      let none_yet = c.bounded a (omega arith) in
      record {
        counted = λ b d h. elim (get_elem?-update_cases add_user (s.entries ++ e ∷ []) a b d h) [
          | inl (q, x, y, w) ↦ elim (get_elem?-append_cases s.entries e b x y) [
            | inl (p, v) ↦ let m = n b in ground arith
            | inr v ↦ let k = get_elem?-below s.entries b x v in absurd (omega arith)
          ]
          | inr (q, y) ↦ elim (get_elem?-append_cases s.entries e b d y) [
            | inl (p, v) ↦ absurd (q (sym p))
            | inr v ↦ let k = c.counted b d v in let m = n b in ground arith
          ]
        ];
        bounded = λ b h.
            let k = length-update add_user (s.entries ++ e ∷ []) a in
            let j = length-append s.entries (e ∷ []) in
            let w = c.bounded b (omega arith) in let m = n b in ground arith;
        registered = λ k b h. elim (entry_at_cases scope (some a) s.scoped k) [
          | inl (q, p) ↦ let m = n b in ground arith
          | inr p ↦ let r = c.registered k b (sym p ∙ h) in let m = n b in ground arith
        ];
        one_scope = λ j k b p q. elim (entry_at_cases scope (some a) s.scoped j) [
          | inl (x, y) ↦ elim (entry_at_cases scope (some a) s.scoped k) [
            | inl (z, w) ↦ x ∙ sym z
            | inr w ↦ let l = registered_below k b (sym w ∙ q) in absurd (ground arith)
          ]
          | inr y ↦ elim (entry_at_cases scope (some a) s.scoped k) [
            | inl (z, w) ↦ let l = registered_below j b (sym y ∙ p) in absurd (ground arith)
            | inr w ↦ c.one_scope j k b (sym y ∙ p) (sym w ∙ q)
          ]
        ];
        named = λ k i h g u p. elim (get_elem?-append_cases s.handles new i h g) [
          | inl (q, y) ↦ elim (entry_at_cases scope (some a) s.scoped k) [
            | inl (z, w) ↦ ap (λ t. t.scope) y ∙ sym z
            | inr w ↦
                let l = registered_below k a (sym w ∙ p ∙ ap (λ t. some (t.entry)) y) in
                absurd (ground arith)
          ]
          | inr y ↦
              let l = holder_below i h y u in
              elim (entry_at_cases scope (some a) s.scoped k) [
                | inl (z, w) ↦ absurd (ground arith)
                | inr w ↦ c.named k i h y u (sym w ∙ p)
              ]
        ];
      }
