-- ===== src/Resilience/Registry/Refine/Held.antt =====
-- Without a reset clients hold the breaker of their scope.
use revenium_go_sdk.Base.{
  ℕ, ◌≤◌, ◌≡◌, refl, ap, subst, ◌∙◌, true, false, Option, none, some, length, get_elem?, update_at,
  if◌then◌else◌, Text, Unicode, arith, inl, inr, get_elem?-update_self, get_elem?-append_cases,
  get_elem?-defined, text_eq_refl,
}
use revenium_go_sdk.Resilience.BreakerState.{Breaker}
use revenium_go_sdk.Resilience.Registry.{
  ScopedBreaker, Handle, Breakers, fresh_breaker, drop_user, give_back, acquired,
  acquire_circuit_breaker, release_scoped_breaker, release_handle, use_breaker, change_breaker,
  released_handle, used, Event, acquires, releases, uses, resets, step,
}
use revenium_go_sdk.Resilience.Registry.Counts.{
  users_of, users_of-give_back, users_of-holder, IsCounted, registered_below, entry_at_cases,
}
use revenium_go_sdk.Resilience.Registry.Counts.Releases.{kept_handle}
use revenium_go_sdk.Resilience.Registry.Refine.{IsHeld, is_reset}

acquired-IsHeld :
    (s : Breakers) (scope : Text) (e : ScopedBreaker) (r : Option ℕ)
    → IsCounted s
    → IsHeld s
    → s.scoped scope ≡ r
    → IsHeld (acquired scope e r s)
acquired-IsHeld s scope e (some a) c t q i h g n = elim (get_elem?-append_cases s.handles _ i h g) [
  | inl (p, y) ↦ ground arith
  | inr y ↦ t i h y n
]
acquired-IsHeld s scope e none c t q i h g n = elim (get_elem?-append_cases s.handles _ i h g) [
  | inl (p, y) ↦ let r = text_eq_refl scope in ground arith
  | inr y ↦
      let k = t i h y n in
      elim (entry_at_cases scope (some (length s.entries)) s.scoped h.scope) [
        | inl (z, w) ↦ let m = ap s.scoped z in absurd (ground arith)
        | inr w ↦ w ∙ k
      ]
]

used-IsHeld :
    (s : Breakers) (f : Breaker → Breaker) (o : Option Handle) → IsHeld s → IsHeld (used f o s)
used-IsHeld s f none t = t
used-IsHeld s f (some h) t =
    let after = record s { entries = update_at (change_breaker f) s.entries h.entry } in
    elim h.released as (λ b. IsHeld (if b then s else after)) [ true ↦ t | false ↦ t ]

released-IsHeld :
    (s : Breakers) (i : ℕ) (h : Handle)
    → IsCounted s
    → IsHeld s
    → get_elem? s.handles i ≡ some h
    → h.released ≡ false
    → IsHeld (
        release_scoped_breaker h.scope h.entry
          (record s { handles = update_at give_back s.handles i }))
unfolding release_scoped_breaker
released-IsHeld s i h c t q n j k g m =
    let hs = update_at give_back s.handles i in
    let old = kept_handle s c i h q n j k (ground arith) m in
    let r = t j k old m in
    let (d, e) =
      get_elem?-defined s.entries h.entry (registered_below s c h.scope h.entry (t i h q n)) in
    let v = get_elem?-update_self drop_user s.entries h.entry d e in
    let x = c.counted h.entry d e in
    let y = users_of-give_back h.entry s.handles i h q n in
    let z = users_of-holder hs j k (ground arith) m in
    let w = t i h q n in
    elim (entry_at_cases h.scope none s.scoped k.scope) [
      | inl (a, b) ↦
          let f = ap s.scoped a in
          let o : k.entry ≡ h.entry = ground arith in
          let p = subst (λ b. 1 ≤ users_of b hs) o z in ground arith
      | inr b ↦ ground arith
    ]

left-IsHeld :
    (s : Breakers) (i : ℕ) (o : Option Handle)
    → IsCounted s
    → IsHeld s
    → get_elem? s.handles i ≡ o
    → IsHeld (released_handle o i s)
left-IsHeld s i none c t q = t
left-IsHeld s i (some h) c t q =
    let after =
      release_scoped_breaker h.scope h.entry
        (record s { handles = update_at give_back s.handles i }) in
    elim h.released as (λ b. h.released ≡ b → IsHeld (if b then s else after)) [
      | true ↦ λ y. t
      | false ↦ λ n. released-IsHeld s i h c t q n
    ]
      refl

pub step-IsHeld :
    (u : Unicode) (e : Event) (s : Breakers)
    → is_reset e ≡ false
    → IsCounted s
    → IsHeld s
    → IsHeld (step u e s)
unfolding step acquire_circuit_breaker release_handle use_breaker
step-IsHeld u (acquires scope now) s n c t =
    acquired-IsHeld s scope (fresh_breaker u now) (s.scoped scope) c t refl
step-IsHeld u (releases i) s n c t = left-IsHeld s i (get_elem? s.handles i) c t refl
step-IsHeld u (uses f i) s n c t = used-IsHeld s f (get_elem? s.handles i) t
step-IsHeld u resets s n c t = absurd (ground arith)
