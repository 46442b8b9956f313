-- ===== src/Anthropic/CacheWrites.antt =====
-- anthropic/cache_write_split.go: the split of a Converse cache write by how long it is kept. Token
-- counts are 32-bit in the answer and not negative; their 64-bit sums do not wrap for fewer than 2^32
-- entries.
use revenium_go_sdk.Base.{
  ℕ, ◌+◌, ◌≡◌, refl, ◌↔◌, ◌⊎◌, Bool, true, false, List, [], ◌∷◌, Option, none, some, ◌==◌,
  if◌then◌else◌, Text, arith, is_empty, Option-cases, inl, inr,
}

pub data CacheTtl : Type 0 where
  five_minutes one_hour : CacheTtl
  other_ttl : Text → CacheTtl

pub record CacheDetail : Type 0 where
  pub ttl : CacheTtl
  pub input_tokens : Option ℕ

-- none is a count that was not reported.
pub record CacheWriteSplit : Type 0 where
  pub five_minute : Option ℕ
  pub one_hour_write : Option ℕ

abbrev pub not_split : CacheWriteSplit
not_split = record { five_minute = none; one_hour_write = none }

abbrev pub is_reported : CacheWriteSplit → Bool
is_reported s = elim s.five_minute [
  | some n ↦ true
  | none ↦ elim s.one_hour_write [ some n ↦ true | none ↦ false ]
]

-- `byTTL[key] += n`.
abbrev add_to : Option ℕ → ℕ → Option ℕ
add_to none n = some n
add_to (some m) n = some (m + n)

abbrev pub or_zero : Option ℕ → ℕ
or_zero none = 0
or_zero (some n) = n

abbrev pub total_of : CacheWriteSplit → ℕ
total_of s = or_zero s.five_minute + or_zero s.one_hour_write

abbrev add_detail : CacheTtl → Option ℕ → CacheWriteSplit → Option CacheWriteSplit
add_detail five_minutes (some n) s = some (record s { five_minute = add_to s.five_minute n })
add_detail one_hour (some n) s = some (record s { one_hour_write = add_to s.one_hour_write n })
add_detail _ _ s = none

abbrev then_split :
    (CacheWriteSplit → Option CacheWriteSplit) → Option CacheWriteSplit → Option CacheWriteSplit
then_split f none = none
then_split f (some s) = f s

-- The loop over the entries; none is its early return.
unfoldable pub split_details : List CacheDetail → CacheWriteSplit → Option CacheWriteSplit
split_details [] s = some s
split_details (d ∷ ds) s = then_split (split_details ds) (add_detail d.ttl d.input_tokens s)

abbrev if_whole : ℕ → Option CacheWriteSplit → CacheWriteSplit
if_whole written none = not_split
if_whole written (some s) = if total_of s == written then s else not_split

-- `converseCacheCreation`, with the usage's cache write and its entries, and cacheWriteSplitOf.
unfoldable pub converse_cache_creation : Option ℕ → List CacheDetail → CacheWriteSplit
unfolding split_details
converse_cache_creation none details = not_split
converse_cache_creation (some written) details =
    if is_empty details then not_split else if_whole written (split_details details not_split)

-- Every entry names a time that is priced and a count.
abbrev pub ArePriced : List CacheDetail → Type 0
ArePriced [] = Unit {0}
ArePriced (d ∷ ds) =
    ((n : ℕ) × (d.input_tokens ≡ some n))
    × ((d.ttl ≡ five_minutes) ⊎ (d.ttl ≡ one_hour))
    × ArePriced ds

-- The tokens kept for five minutes, and for an hour.
unfoldable pub five_minute_tokens : List CacheDetail → ℕ
five_minute_tokens [] = 0
five_minute_tokens (d ∷ ds) =
    (elim d.ttl [ five_minutes ↦ or_zero d.input_tokens | _ ↦ 0 ]) + five_minute_tokens ds

unfoldable pub one_hour_tokens : List CacheDetail → ℕ
one_hour_tokens [] = 0
one_hour_tokens (d ∷ ds) =
    (elim d.ttl [ one_hour ↦ or_zero d.input_tokens | _ ↦ 0 ]) + one_hour_tokens ds

added :
    (ttl : CacheTtl) (tokens : Option ℕ) (s r : CacheWriteSplit)
    → add_detail ttl tokens s ≡ some r
    → (or_zero r.five_minute
        ≡ or_zero s.five_minute + (elim ttl [ five_minutes ↦ or_zero tokens | _ ↦ 0 ]))
      × (or_zero r.one_hour_write
          ≡ or_zero s.one_hour_write + (elim ttl [ one_hour ↦ or_zero tokens | _ ↦ 0 ]))
      × ((n : ℕ) × (tokens ≡ some n))
      × ((ttl ≡ five_minutes) ⊎ (ttl ≡ one_hour))
      × (is_reported r ≡ true)
added five_minutes (some n) s r e = (ground arith, ground arith, (n, refl), inl refl, ground arith)
added one_hour (some n) s r e = (ground arith, ground arith, (n, refl), inr refl, ground arith)
added five_minutes none s r e = absurd (ground arith)
added one_hour none s r e = absurd (ground arith)
added (other_ttl t) tokens s r e = absurd (ground arith)

-- A split that the loop ends with has the tokens of each time added to it, and some count if there
-- is an entry.
split_adds :
    (ds : List CacheDetail) (s t : CacheWriteSplit)
    → split_details ds s ≡ some t
    → (or_zero t.five_minute ≡ or_zero s.five_minute + five_minute_tokens ds)
      × (or_zero t.one_hour_write ≡ or_zero s.one_hour_write + one_hour_tokens ds)
      × ArePriced ds
      × (is_reported s ≡ true → is_reported t ≡ true)
      × (is_empty ds ≡ false → is_reported t ≡ true)
unfolding split_details five_minute_tokens one_hour_tokens
split_adds [] s t h = ground arith
split_adds (d ∷ ds) s t h = elim (Option-cases (add_detail d.ttl d.input_tokens s)) [
  | inl e ↦ absurd (ground arith)
  | inr (r, e) ↦
      let (a, b, p, k, n) = split_adds ds r t (ground arith) in
      let (v, w, x, y, z) = added d.ttl d.input_tokens s r e in
      (ground arith, ground arith, (x, y, p), λ q. ground arith, λ q. ground arith)
]

split_exists :
    (ds : List CacheDetail) (s : CacheWriteSplit)
    → ArePriced ds
    → (t : CacheWriteSplit) × (split_details ds s ≡ some t)
unfolding split_details
split_exists [] s p = (s, refl)
split_exists (d ∷ ds) s ((n, e), inl k, p) =
    let (t, q) = split_exists ds (record s { five_minute = add_to s.five_minute n }) p in
    (t, ground arith)
split_exists (d ∷ ds) s ((n, e), inr k, p) =
    let (t, q) = split_exists ds (record s { one_hour_write = add_to s.one_hour_write n }) p in
    (t, ground arith)

-- The split is kept exactly when there are entries, each names a time that is priced and a count, and
-- they add up to the whole write; it then has the tokens of each time.
pub split_is_whole :
    (written : ℕ) (ds : List CacheDetail)
    → (is_reported (converse_cache_creation (some written) ds) ≡ true
        → (or_zero (converse_cache_creation (some written) ds).five_minute ≡ five_minute_tokens ds)
          × (or_zero (converse_cache_creation (some written) ds).one_hour_write
              ≡ one_hour_tokens ds))
      × ((is_reported (converse_cache_creation (some written) ds) ≡ true) ↔ (
          (is_empty ds ≡ false)
          × ArePriced ds
          × (five_minute_tokens ds + one_hour_tokens ds ≡ written)))
unfolding converse_cache_creation
split_is_whole written ds = elim (Option-cases (split_details ds not_split)) [
  | inl e ↦ (
    λ h. ground arith,
    (
      λ h. ground arith,
      λ (n, p, q). let (t, r) = split_exists ds not_split p in absurd (ground arith),
    ),
  )
  | inr (t, e) ↦
      let (a, b, p, k, n) = split_adds ds not_split t e in
      (
        λ h. (ground arith, ground arith),
        (λ h. (ground arith, p, ground arith), λ (m, x, q). let r = n m in ground arith),
      )
]
