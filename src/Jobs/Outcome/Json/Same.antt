-- ===== src/Jobs/Outcome/Json/Same.antt =====
-- When two decoded JSON values are the same, set beside `sameJSON`.
use revenium_go_sdk.Base.{
  ◌*◌, ◌^◌, ◌≡◌, ap, ◌↔◌, ◌⊎◌, refl, sym, subst, Bool, true, false, ◌&&◌, ◌==◌, Text, text_eq_refl,
  text_eq_sound, arith, Option, none, some,
}
use mathlib.Core.Option.{some-injective}
use revenium_go_sdk.Jobs.Outcome.{Decimal}
use revenium_go_sdk.Jobs.Outcome.Json.{
  Json, null, truth, number, string, array, object, Items, nil, item, Fields, end, field,
  same_number, count_fields, lookup_field, same_json, same_items, all_in,
}

-- Two decimals of the same value.
abbrev pub SameSize : Decimal → Decimal → Type 0
SameSize d e =
    (d.digits * 10 ^ e.places ≡ e.digits * 10 ^ d.places)
    × ((d.digits ≡ 0) ⊎ (d.negative ≡ e.negative))

-- The same value: arrays item by item, objects with as many keys of which each has the same value.
unfoldable mutual
  pub SameValue : Json → Json → Type 0
  SameValue null w = w ≡ null
  SameValue (truth b) w = w ≡ truth b
  SameValue (string s) w = w ≡ string s
  SameValue (number none) w = ⊥
  SameValue (number (some d)) w = (e : Decimal) × (w ≡ number (some e)) × SameSize d e
  SameValue (array xs) w = (ys : Items) × (w ≡ array ys) × SameItems xs ys
  SameValue (object fs) w =
      (gs : Fields) × (w ≡ object gs) × (count_fields fs ≡ count_fields gs) × EachIn fs gs

  pub SameItems : Items → Items → Type 0
  SameItems nil ys = ys ≡ nil
  SameItems (item x xs) ys =
      (y : Json) × (zs : Items) × (ys ≡ item y zs) × SameValue x y × SameItems xs zs

  pub EachIn : Fields → Fields → Type 0
  EachIn end gs = Unit {0}
  EachIn (field k v fs) gs =
      ((w : Json) × (lookup_field k gs ≡ some w) × SameValue v w) × EachIn fs gs

size_iff : (d e : Decimal) → (same_number (some d) (some e) ≡ true) ↔ SameSize d e
unfolding same_number
size_iff d e = ground arith

and_iff : (a b : Bool) → (a && b ≡ true) ↔ ((a ≡ true) × (b ≡ true))
and_iff a b = ground arith

found_iff :
    (o : Option Json) (test : Json → Bool) (P : Json → Type 0)
    → ((w : Json) → (test w ≡ true) ↔ P w)
    → ((elim o [ none ↦ false | some w ↦ test w ]) ≡ true) ↔ ((w : Json) × (o ≡ some w) × P w)
found_iff none test P h = (λ x. absurd (ground arith), λ (w, e, y). absurd (ground arith))
found_iff (some v) test P h =
    (λ x. (v, refl, (h v).0 x), λ (w, e, y). (h v).1 (subst P (sym (some-injective v w e)) y))

abbrev decimal_of : Json → Decimal → Decimal
decimal_of (number (some d)) z = d
decimal_of _ z = z

abbrev items_of : Json → Items
items_of (array xs) = xs
items_of _ = nil

abbrev fields_of : Json → Fields
fields_of (object fs) = fs
fields_of _ = end

abbrev first_of : Items → Json
first_of (item x xs) = x
first_of nil = null

abbrev rest_of : Items → Items
rest_of (item x xs) = xs
rest_of nil = nil

null_iff : (w : Json) → (same_json null w ≡ true) ↔ (w ≡ null)
unfolding same_json
null_iff null = ground arith
null_iff (truth a) = ground arith
null_iff (number n) = ground arith
null_iff (string t) = ground arith
null_iff (array ys) = ground arith
null_iff (object gs) = ground arith

truth_iff : (b : Bool) (w : Json) → (same_json (truth b) w ≡ true) ↔ (w ≡ truth b)
unfolding same_json
truth_iff b null = ground arith
truth_iff true (truth a) = ground arith
truth_iff false (truth a) = ground arith
truth_iff b (number n) = ground arith
truth_iff b (string t) = ground arith
truth_iff b (array ys) = ground arith
truth_iff b (object gs) = ground arith

string_iff : (s : Text) (w : Json) → (same_json (string s) w ≡ true) ↔ (w ≡ string s)
unfolding same_json
string_iff s null = ground arith
string_iff s (truth a) = ground arith
string_iff s (number n) = ground arith
string_iff s (string t) = ground (arith, text_eq_sound s t, text_eq_refl s)
string_iff s (array ys) = ground arith
string_iff s (object gs) = ground arith

number_iff :
    (n : Option Decimal) (w : Json) → (same_json (number n) w ≡ true) ↔ SameValue (number n) w
unfolding same_json SameValue
number_iff none null = ground arith
number_iff none (truth a) = ground arith
number_iff none (number n) = ground arith
number_iff none (string t) = ground arith
number_iff none (array ys) = ground arith
number_iff none (object gs) = ground arith
number_iff (some d) null = ground arith
number_iff (some d) (truth a) = ground arith
number_iff (some d) (number none) = ground arith
number_iff (some d) (number (some e)) = (
  λ h. (e, refl, (size_iff d e).0 h),
  λ (x, q, h). (size_iff d e).1 (subst (SameSize d) (sym (ap (λ j. decimal_of j e) q)) h),
)
number_iff (some d) (string t) = ground arith
number_iff (some d) (array ys) = ground arith
number_iff (some d) (object gs) = ground arith

mutual
  unfolding same_json SameValue

  pub json_iff : (v w : Json) → (same_json v w ≡ true) ↔ SameValue v w
  json_iff null w = null_iff w
  json_iff (truth b) w = truth_iff b w
  json_iff (string s) w = string_iff s w
  json_iff (number n) w = number_iff n w
  json_iff (array xs) null = ground arith
  json_iff (array xs) (truth a) = ground arith
  json_iff (array xs) (number n) = ground arith
  json_iff (array xs) (string t) = ground arith
  json_iff (array xs) (array ys) = (
    λ h. (ys, refl, (items_iff xs ys).0 h),
    λ (zs, q, h). (items_iff xs ys).1 (subst (SameItems xs) (sym (ap items_of q)) h),
  )
  json_iff (array xs) (object gs) = ground arith
  json_iff (object fs) null = ground arith
  json_iff (object fs) (truth a) = ground arith
  json_iff (object fs) (number n) = ground arith
  json_iff (object fs) (string t) = ground arith
  json_iff (object fs) (array ys) = ground arith
  json_iff (object fs) (object gs) =
      let (both, whole) = and_iff (count_fields fs == count_fields gs) (all_in fs gs) in
      (
        λ h. (gs, refl, ground arith, (fields_iff fs gs).0 (both h).1),
        λ (hs, q, n, h).
            let back = sym (ap fields_of q) in
            let m : count_fields fs ≡ count_fields gs =
              subst (λ x. count_fields fs ≡ count_fields x) back n in
            whole (ground arith, (fields_iff fs gs).1 (subst (EachIn fs) back h)),
      )

  items_iff : (xs ys : Items) → (same_items xs ys ≡ true) ↔ SameItems xs ys
  items_iff nil nil = ground arith
  items_iff nil (item y ys) = ground arith
  items_iff (item x xs) nil = ground arith
  items_iff (item x xs) (item y ys) =
      let (both, whole) = and_iff (same_json x y) (same_items xs ys) in
      (
        λ h. (y, ys, refl, (json_iff x y).0 (both h).0, (items_iff xs ys).0 (both h).1),
        λ (z, zs, q, a, h). whole (
          (json_iff x y).1 (subst (SameValue x) (sym (ap first_of q)) a),
          (items_iff xs ys).1 (subst (SameItems xs) (sym (ap rest_of q)) h),
        ),
      )

  fields_iff : (fs gs : Fields) → (all_in fs gs ≡ true) ↔ EachIn fs gs
  fields_iff end gs = ground arith
  fields_iff (field k v fs) gs =
      let (both, whole) =
        and_iff (elim (lookup_field k gs) [ none ↦ false | some w ↦ same_json v w ])
          (all_in fs gs) in
      let (there, back) =
        found_iff (lookup_field k gs) (same_json v) (SameValue v) (λ w. json_iff v w) in
      (
        λ h. (there (both h).0, (fields_iff fs gs).0 (both h).1),
        λ (a, h). whole (back a, (fields_iff fs gs).1 h),
      )
