-- ===== src/Webhooks/Verify/Header.antt =====
-- The header of signatures is read back as it was written.
use mathlib.Core.List.{reverse, reverse_aux, reverse-reverse}
use revenium_go_sdk.Base.{
  ◌≡◌, refl, ap, ◌∙◌, false, List, [], ◌∷◌, ◌++◌, ◌==◌, Text, codes, has_prefix, drop_while,
  trim_space, Unicode, arith,
}
use revenium_go_sdk.Webhooks.Verify.{
  signature_prefix, split_commas, signature_in, signatures_of, parse_signatures,
}

-- A header with these signatures, joined by commas.
abbrev pub header_of : List Text → Text
header_of [] = []
header_of (s ∷ []) = signature_prefix ++ s
header_of (s ∷ t ∷ ss) = signature_prefix ++ s ++ codes "," ++ header_of (t ∷ ss)

-- Neither white space nor commas.
abbrev pub IsPlain : Unicode → Text → Type 0
IsPlain u [] = Unit {0}
IsPlain u (c ∷ s) = (u.is_space c ≡ false) × ((c == 44) ≡ false) × IsPlain u s

abbrev pub ArePlain : Unicode → List Text → Type 0
ArePlain u [] = Unit {0}
ArePlain u (s ∷ ss) = IsPlain u s × ArePlain u ss

IsPlain-append : (u : Unicode) (s t : Text) → IsPlain u s → IsPlain u t → IsPlain u (s ++ t)
IsPlain-append u [] t p q = q
IsPlain-append u (c ∷ s) t p q = (p.0, p.1, IsPlain-append u s t p.2 q)

drop_while-plain : (u : Unicode) (s : Text) → IsPlain u s → drop_while u.is_space s ≡ s
unfolding drop_while
drop_while-plain u [] p = refl
drop_while-plain u (c ∷ s) p = ground arith

IsPlain-reverse_aux :
    (u : Unicode) (s r : Text) → IsPlain u s → IsPlain u r → IsPlain u (reverse_aux s r)
IsPlain-reverse_aux u [] r p q = q
IsPlain-reverse_aux u (c ∷ s) r p q = IsPlain-reverse_aux u s (c ∷ r) p.2 (p.0, p.1, q)

trim-plain : (u : Unicode) (s : Text) → IsPlain u s → trim_space u s ≡ s
unfolding trim_space
trim-plain u s p =
    let back = IsPlain-reverse_aux u s [] p tt in
    rw (drop_while-plain u s p, drop_while-plain u (reverse s) back) (reverse-reverse s)

split-plain : (u : Unicode) (s : Text) → IsPlain u s → split_commas s ≡ s ∷ []
unfolding split_commas
split-plain u [] p = refl
split-plain u (c ∷ s) p = let r = split-plain u s p.2 in ground arith

split-comma :
    (u : Unicode) (s t : Text)
    → IsPlain u s
    → split_commas (s ++ codes "," ++ t) ≡ s ∷ split_commas t
unfolding split_commas
split-comma u [] t p = refl
split-comma u (c ∷ s) t p = let r = split-comma u s t p.2 in ground arith

prefix-signature_in :
    (s : Text) (rest : List Text) → signature_in (signature_prefix ++ s) rest ≡ s ∷ rest
unfolding has_prefix
prefix-signature_in s rest = refl

module _ (u : Unicode) (plain : IsPlain u signature_prefix) where
  signed_part :
      (s : Text) (rest : List Text)
      → IsPlain u s
      → signature_in (trim_space u (signature_prefix ++ s)) rest ≡ s ∷ rest
  signed_part s rest p =
      ap (λ t. signature_in t rest)
        (trim-plain u (signature_prefix ++ s) (IsPlain-append u signature_prefix s plain p))
      ∙ prefix-signature_in s rest

  -- The signatures of a header in which each is written with its prefix and they are joined by
  -- commas are read back in their order, if they, and the prefix, have no white space or comma.
  pub header_read_back :
      (signatures : List Text)
      → ArePlain u signatures
      → parse_signatures u (header_of signatures) ≡ signatures
  unfolding parse_signatures signatures_of split_commas trim_space drop_while has_prefix
  header_read_back [] p = refl
  header_read_back (s ∷ []) p =
      ap (signatures_of u)
        (split-plain u (signature_prefix ++ s) (IsPlain-append u signature_prefix s plain p.0))
      ∙ signed_part s [] p.0
  header_read_back (s ∷ t ∷ ss) p =
      ap (signatures_of u) (
        split-comma u (signature_prefix ++ s) (header_of (t ∷ ss))
          (IsPlain-append u signature_prefix s plain p.0))
      ∙ signed_part s (signatures_of u (split_commas (header_of (t ∷ ss)))) p.0
      ∙ ap (λ r. s ∷ r) (header_read_back (t ∷ ss) p.1)
