-- ===== src/Anthropic/Tests.antt =====
-- The theorems on the records of a call at concrete inputs.
use revenium_go_sdk.Base.{
  ℕ, ◌+◌, ◌≡◌, ◌↔◌, refl, true, false, [], ◌∷◌, some, codes, Text, is_empty, List,
}
use revenium_go_sdk.Anthropic.Iterations.{pass_idempotency_key, pass_keys_differ}
use revenium_go_sdk.Anthropic.CacheWrites.{
  CacheDetail, five_minutes, one_hour, converse_cache_creation, is_reported, or_zero,
  five_minute_tokens, one_hour_tokens, ArePriced, split_is_whole,
}

abbrev shortened : Text → Text
shortened s = codes "digest"

pass_keys_differ_example : ◌≡◌ {A = ℕ} 12 12
pass_keys_differ_example = pass_keys_differ shortened (codes "key") (codes "id") 12 12 refl

derived_key :
    pass_idempotency_key shortened (codes "key") (codes "id") 12 ≡ codes "key-iteration-12"
unfolding pass_idempotency_key
derived_key = refl

abbrev details : List CacheDetail
details =
    record { ttl = five_minutes; input_tokens = some 3 }
    ∷ record { ttl = one_hour; input_tokens = some 4 }
    ∷ record { ttl = five_minutes; input_tokens = some 5 }
    ∷ []

split_is_whole_example :
    (is_reported (converse_cache_creation (some 12) details) ≡ true
      → (or_zero (converse_cache_creation (some 12) details).five_minute
          ≡ five_minute_tokens details)
        × (or_zero (converse_cache_creation (some 12) details).one_hour_write
            ≡ one_hour_tokens details))
    × ((is_reported (converse_cache_creation (some 12) details) ≡ true) ↔ (
        (is_empty details ≡ false)
        × ArePriced details
        × (five_minute_tokens details + one_hour_tokens details ≡ 12)))
split_is_whole_example = split_is_whole 12 details

eight_for_five_minutes : (converse_cache_creation (some 12) details).five_minute ≡ some 8
unfolding converse_cache_creation
eight_for_five_minutes = refl
