-- ===== src/Webhooks/Tests.antt =====
-- The theorems on webhooks at concrete inputs.
use revenium_go_sdk.Base.{
  ◌≤◌, ◌≡◌, ◌↔◌, refl, ◌++◌, ℤ, positive_or, true, [], ◌∷◌, Option, some, Text, codes, ascii,
}
use revenium_go_sdk.Webhooks.Verify.{
  VerifyOptions, default_tolerance_seconds, parse_signatures, clock_difference, signed_payload,
  verify_signature,
}
use revenium_go_sdk.Webhooks.Verify.Accepts.{IsSigned, accepted_iff}
use revenium_go_sdk.Webhooks.Verify.Header.{header_of, header_read_back}

-- A stand-in for the digest, and for the reading of one number.
abbrev keyed : Text → Text → Text
keyed secret message = secret ++ message

abbrev reads_thousand : Text → Option ℤ
reads_thousand s = some (ℤ.pos 1000)

abbrev delivery : VerifyOptions
delivery = record {
  payload = codes "p";
  signature_header = codes "sha256=zz, sha256=k1000.p";
  timestamp_header = codes "1000";
  secrets = [] ∷ codes "k" ∷ [];
  tolerance_seconds = ℤ.pos 0;
}

accepted_iff_example : (verify_signature keyed ascii reads_thousand delivery 1300 ≡ true) ↔ (
    (t : ℤ) × (reads_thousand delivery.timestamp_header ≡ some t)
    × (clock_difference 1300 t ≤ positive_or delivery.tolerance_seconds default_tolerance_seconds)
    × IsSigned keyed delivery.secrets
        (parse_signatures ascii delivery.signature_header)
        (signed_payload delivery))
accepted_iff_example = accepted_iff keyed ascii reads_thousand delivery 1300

delivery_accepted : verify_signature keyed ascii reads_thousand delivery 1300 ≡ true
unfolding verify_signature
delivery_accepted = refl

header_read_back_example :
    parse_signatures ascii (header_of (codes "0a" ∷ codes "1b" ∷ [])) ≡ codes "0a" ∷ codes "1b" ∷ []
header_read_back_example =
    header_read_back ascii
      (
        refl,
        refl,
        (refl, refl, (refl, refl, (refl, refl, (refl, refl, (refl, refl, (refl, refl, tt)))))),
      )
      (codes "0a" ∷ codes "1b" ∷ [])
      ((refl, refl, (refl, refl, tt)), ((refl, refl, (refl, refl, tt)), tt))
