-- ===== src/Webhooks/Verify.antt =====
-- webhooks/verify.go. Texts and payloads are lists of bytes; the keyed digest in hexadecimal
-- (computeHmac) and strconv.ParseInt to 64 bits, with none for an error, are parameters. The clock
-- gives seconds below 2^62. The difference of two int64 wraps; its size is compared with the tolerance
-- as a float64, and here exactly, which is the same for tolerances below 2^53 seconds.
pub mod Accepts
pub mod Header
use revenium_go_sdk.Base.{
  ℕ, suc, ◌+◌, ◌-◌, ◌^◌, ℤ, pos, negsuc, positive_or, Bool, true, false, not, ◌&&◌, ◌||◌, List, [],
  ◌∷◌, ◌++◌, Option, none, some, ltb, leb, ◌==◌, if◌then◌else◌, Text, codes, is_empty, has_prefix,
  text_eq, trim_space, length, drop, Unicode,
}

pub record VerifyOptions : Type 0 where
  pub payload : Text
  pub signature_header : Text
  pub timestamp_header : Text
  pub secrets : List Text
  pub tolerance_seconds : ℤ

abbrev pub default_tolerance_seconds : ℕ
default_tolerance_seconds = 300

abbrev pub signature_prefix : Text
signature_prefix = codes "sha256="

abbrev in_first : ℕ → List Text → List Text
in_first c [] = (c ∷ []) ∷ []
in_first c (p ∷ ps) = (c ∷ p) ∷ ps

-- strings.Split at a comma.
unfoldable pub split_commas : Text → List Text
split_commas [] = [] ∷ []
split_commas (c ∷ s) = let rest = split_commas s in if c == 44 then [] ∷ rest else in_first c rest

abbrev pub signature_in : Text → List Text → List Text
signature_in part rest =
    if has_prefix part signature_prefix then drop (length signature_prefix) part ∷ rest else rest

unfoldable pub signatures_of : Unicode → List Text → List Text
unfolding has_prefix trim_space
signatures_of u [] = []
signatures_of u (p ∷ ps) = signature_in (trim_space u p) (signatures_of u ps)

unfoldable pub parse_signatures : Unicode → Text → List Text
unfolding split_commas signatures_of
parse_signatures u header = signatures_of u (split_commas header)

-- The size of the int64 difference of now and a timestamp.
unfoldable pub clock_difference : ℕ → ℤ → ℕ
clock_difference now (pos t) = if leb t now then now - t else t - now
clock_difference now (negsuc n) = let d = now + suc n in if ltb d (2 ^ 63) then d else 2 ^ 64 - d

abbrev pub signed_payload : VerifyOptions → Text
signed_payload o = o.timestamp_header ++ codes "." ++ o.payload

unfoldable pub matches_any : Text → List Text → Bool
unfolding text_eq
matches_any expected [] = false
matches_any expected (s ∷ ss) = text_eq expected s || matches_any expected ss

abbrev pub in_time : Option ℤ → ℕ → ℕ → Bool
in_time none tolerance now = false
in_time (some t) tolerance now = leb (clock_difference now t) tolerance

module _ (compute_hmac : Text → Text → Text) where
  unfoldable pub signed_by_any : List Text → List Text → Text → Bool
  unfolding matches_any
  signed_by_any [] signatures message = false
  signed_by_any (k ∷ ks) signatures message =
      not (is_empty k) && matches_any (compute_hmac k message) signatures
      || signed_by_any ks signatures message

  unfoldable pub verify_signature : Unicode → (Text → Option ℤ) → VerifyOptions → ℕ → Bool
  unfolding parse_signatures clock_difference signed_by_any
  verify_signature u parse_int o now =
      let signatures = parse_signatures u o.signature_header in
      if is_empty o.secrets || is_empty signatures
      then false
      else in_time (parse_int o.timestamp_header)
          (positive_or o.tolerance_seconds default_tolerance_seconds) now
        && signed_by_any o.secrets signatures (signed_payload o)
