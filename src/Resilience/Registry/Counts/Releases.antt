-- ===== src/Resilience/Registry/Counts/Releases.antt =====
-- What giving back a breaker does to the counts.
use revenium_go_sdk.Base.{
  ℕ, ◌≤◌, ◌≡◌, ◌≢◌, ap, subst, sym, ◌∙◌, Bool, false, ◌&&◌, none, some, length, get_elem?,
  update_at, if◌then◌else◌, Text, arith, Bool-cases, inl, inr, length-update,
  get_elem?-update_cases, eq_cases, text_eq_refl, get_elem?-defined,
}
use revenium_go_sdk.Resilience.Registry.{
  ScopedBreaker, Handle, Breakers, drop_user, give_back, has_no_users, is_entry, entry_at,
  release_scoped_breaker,
}
use revenium_go_sdk.Resilience.Registry.Counts.{
  users_of, users_of-give_back, IsCounted, holder_below, entry_at_cases,
}

module _ (s : Breakers) (c : IsCounted s) where
  -- The i-th handle is given back.
  module _ (i : ℕ) (h : Handle) (g : get_elem? s.handles i ≡ some h) (u : h.released ≡ false) where
    abbrev pub without : Breakers
    without = record s { handles = update_at give_back s.handles i }

    abbrev last_one : Bool
    last_one =
        has_no_users (get_elem? (update_at drop_user s.entries h.entry) h.entry)
        && is_entry (s.scoped h.scope) h.entry

    pub kept_handle :
        (j : ℕ) (k : Handle)
        → get_elem? without.handles j ≡ some k
        → k.released ≡ false
        → get_elem? s.handles j ≡ some k
    kept_handle j k e n = elim (get_elem?-update_cases give_back s.handles i j k e) [
      | inl (q, y, p, f) ↦ absurd (ground arith)
      | inr (q, p) ↦ p
    ]

    kept_scope :
        (k : Text) (a : ℕ) → entry_at h.scope none s.scoped k ≡ some a → s.scoped k ≡ some a
    kept_scope k a e = elim (entry_at_cases h.scope none s.scoped k) [
      | inl (q, p) ↦ absurd (ground arith)
      | inr p ↦ sym p ∙ e
    ]

    counted_after :
        (a : ℕ) (e : ScopedBreaker)
        → get_elem? (update_at drop_user s.entries h.entry) a ≡ some e
        → e.users ≡ users_of a without.handles
    counted_after a e p =
        let n = users_of-give_back a s.handles i h g u in
        elim (get_elem?-update_cases drop_user s.entries h.entry a e p) [
          | inl (q, d, y, z) ↦ let k = c.counted a d y in ground arith
          | inr (q, y) ↦ let k = c.counted a e y in ground arith
        ]

    bounded_after :
        (a : ℕ)
        → length (update_at drop_user s.entries h.entry) ≤ a
        → users_of a without.handles ≡ 0
    bounded_after a l =
        let k = length-update drop_user s.entries h.entry in
        let z = c.bounded a (omega arith) in
        let n = users_of-give_back a s.handles i h g u in omega arith

    other_users : (a : ℕ) → h.entry ≢ a → users_of a without.handles ≡ users_of a s.handles
    other_users a n = let m = users_of-give_back a s.handles i h g u in ground arith

    last_given_back : IsCounted (record without {
      entries = update_at drop_user s.entries h.entry;
      scoped = entry_at h.scope none s.scoped;
    })
    last_given_back = record {
      counted = counted_after;
      bounded = bounded_after;
      registered = λ k a e. elim (eq_cases h.entry a) [
        | inl q ↦
            let n = c.named k i h g u (kept_scope k a e ∙ ap some (sym q)) in
            let r = text_eq_refl k in absurd (ground arith)
        | inr q ↦
            let m = other_users a q in let r = c.registered k a (kept_scope k a e) in omega arith
      ];
      one_scope = λ j k a p q. c.one_scope j k a (kept_scope j a p) (kept_scope k a q);
      named = λ k j t e n p. c.named k j t (kept_handle j t e n) n (kept_scope k t.entry p);
    }

    others_left :
        last_one ≡ false → (k : Text) (a : ℕ) → s.scoped k ≡ some a → 1 ≤ users_of a without.handles
    others_left l k a e = elim (eq_cases h.entry a) [
      | inl q ↦
          let n = c.named k i h g u (e ∙ ap some (sym q)) in
          let (d, p) = get_elem?-defined (update_at drop_user s.entries h.entry) h.entry (
            let m = length-update drop_user s.entries h.entry in
            let b = holder_below s c i h g u in omega arith) in
          let v = counted_after h.entry d p in
          let w : s.scoped h.scope ≡ some h.entry = ap s.scoped n ∙ e ∙ ap some (sym q) in
          ground arith
      | inr q ↦ let m = other_users a q in let r = c.registered k a e in omega arith
    ]

    one_given_back :
        last_one ≡ false
        → IsCounted (record without { entries = update_at drop_user s.entries h.entry })
    one_given_back l = record {
      counted = counted_after;
      bounded = bounded_after;
      registered = others_left l;
      one_scope = c.one_scope;
      named = λ k j t e n p. c.named k j t (kept_handle j t e n) n p;
    }

    pub given_back-IsCounted : IsCounted (release_scoped_breaker h.scope h.entry without)
    unfolding release_scoped_breaker
    given_back-IsCounted =
        let after = λ (b : Bool).
          if b
          then record without {
            entries = update_at drop_user s.entries h.entry;
            scoped = entry_at h.scope none s.scoped;
          }
          else record without { entries = update_at drop_user s.entries h.entry } in
        elim (Bool-cases last_one) [
          | inl y ↦ subst (λ b. IsCounted (after b)) (sym y) last_given_back
          | inr n ↦ subst (λ b. IsCounted (after b)) (sym n) (one_given_back n)
        ]
