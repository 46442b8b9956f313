-- ===== src/Webhooks/Verify/Accepts.antt =====
-- Which webhooks are accepted.
use mathlib.Core.List.{Memᴰ}
use revenium_go_sdk.Base.{
  ℕ, ◌≤◌, ◌≡◌, ◌≢◌, ◌↔◌, refl, ℤ, positive_or, true, false, not, ◌&&◌, List, [], ◌∷◌, Option, some,
  Text, is_empty, text_eq, text_eq_sound, text_eq_refl, Unicode, arith, Bool-cases, Option-cases,
  inl, inr,
}
use revenium_go_sdk.Webhooks.Verify.{
  VerifyOptions, default_tolerance_seconds, parse_signatures, clock_difference, signed_payload,
  matches_any, signed_by_any, verify_signature,
}

matches_any-mem : (e : Text) (ss : List Text) → matches_any e ss ≡ true → Memᴰ e ss
unfolding matches_any
matches_any-mem e [] h = ground arith
matches_any-mem e (s ∷ ss) h = elim (Bool-cases (text_eq e s)) [
  | inl y ↦ Memᴰ.head (text_eq_sound e s y)
  | inr n ↦ Memᴰ.tail (matches_any-mem e ss (ground arith))
]

mem-matches_any : (e : Text) (ss : List Text) → Memᴰ e ss → matches_any e ss ≡ true
unfolding matches_any
mem-matches_any e [] m = elim m [ ]
mem-matches_any e (s ∷ ss) (Memᴰ.head p) = let r = text_eq_refl e in ground arith
mem-matches_any e (s ∷ ss) (Memᴰ.tail m) = ground (arith, mem-matches_any e ss m)

mem_not_empty : {x : Text} {xs : List Text} → Memᴰ x xs → is_empty xs ≡ false
mem_not_empty {xs = []} m = elim m [ ]
mem_not_empty {xs = y ∷ ys} m = refl

module _ (compute_hmac : Text → Text → Text) where
  -- A secret that is not empty made one of the signatures.
  abbrev pub IsSigned : List Text → List Text → Text → Type 0
  IsSigned secrets signatures message =
      (k : Text) × Memᴰ k secrets × (k ≢ []) × Memᴰ (compute_hmac k message) signatures

  signed_by_any-mem :
      (ks ss : List Text) (m : Text) → signed_by_any compute_hmac ks ss m ≡ true → IsSigned ks ss m
  unfolding signed_by_any
  signed_by_any-mem [] ss m h = ground arith
  signed_by_any-mem (k ∷ ks) ss m h =
      elim (Bool-cases (not (is_empty k) && matches_any (compute_hmac k m) ss)) [
        | inl y ↦ (
          k,
          Memᴰ.head refl,
          λ e. ground arith,
          matches_any-mem (compute_hmac k m) ss (ground arith),
        )
        | inr n ↦
            let (j, a, b, c) = signed_by_any-mem ks ss m (ground arith) in (j, Memᴰ.tail a, b, c)
      ]

  mem-signed_by_any :
      (ks ss : List Text) (m k : Text)
      → Memᴰ k ks
      → k ≢ []
      → Memᴰ (compute_hmac k m) ss
      → signed_by_any compute_hmac ks ss m ≡ true
  unfolding signed_by_any
  mem-signed_by_any [] ss m k p n s = elim p [ ]
  mem-signed_by_any (j ∷ ks) ss m [] (Memᴰ.head p) n s = absurd (n refl)
  mem-signed_by_any (j ∷ ks) ss m (c ∷ k) (Memᴰ.head p) n s =
      let r = mem-matches_any (compute_hmac (c ∷ k) m) ss s in ground arith
  mem-signed_by_any (j ∷ ks) ss m k (Memᴰ.tail p) n s =
      ground (arith, mem-signed_by_any ks ss m k p n s)

  -- A webhook is accepted exactly when its timestamp is a number within the tolerance of the clock
  -- (300 seconds unless a positive one is given) and a secret that is not empty makes one of the
  -- signatures in the header from the timestamp as it was sent, a dot and the payload.
  pub accepted_iff :
      (u : Unicode) (parse_int : Text → Option ℤ) (o : VerifyOptions) (now : ℕ)
      → (verify_signature compute_hmac u parse_int o now ≡ true) ↔ (
          (t : ℤ) × (parse_int o.timestamp_header ≡ some t)
          × (clock_difference now t ≤ positive_or o.tolerance_seconds default_tolerance_seconds)
          × IsSigned o.secrets (parse_signatures u o.signature_header) (signed_payload o))
  unfolding verify_signature
  accepted_iff u parse_int o now = (
    λ h. elim (Option-cases (parse_int o.timestamp_header)) [
      | inl e ↦ absurd (ground arith)
      | inr (t, e) ↦
          let s =
            signed_by_any-mem o.secrets (parse_signatures u o.signature_header) (signed_payload o)
              (ground arith) in
          (t, e, ground arith, s)
    ],
    λ (t, e, l, i).
        let (k, p, n, q) = i in
        let s =
          mem-signed_by_any o.secrets (parse_signatures u o.signature_header) (signed_payload o) k p
            n q in
        let a = mem_not_empty p in let b = mem_not_empty q in ground arith,
  )
