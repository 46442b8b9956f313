-- ===== src/Jobs/Outcome/Json.antt =====
-- `sameJSON` of core/jobs/report_confirmation.go. A decoded value is one of six kinds; a map is its
-- list of entries, each key once. A number is the decimal that big.Rat reads in its text and compares
-- exactly, or none where it reads none, as with an exponent that is too large.
pub mod Same
use revenium_go_sdk.Base.{
  ℕ, suc, ◌*◌, ◌^◌, Bool, true, false, not, ◌&&◌, ◌||◌, ◌==◌, ◌≡◌, refl, arith, Text, text_eq,
  text_eq_refl, text_eq_sound, if◌then◌else◌, Option, none, some,
}
use revenium_go_sdk.Jobs.Outcome.{Decimal}

mutual
  pub data Json : Type 0 where
    null : Json
    truth : Bool → Json
    number : Option Decimal → Json
    string : Text → Json
    array : Items → Json
    object : Fields → Json

  pub data Items : Type 0 where
    nil : Items
    item : Json → Items → Items

  pub data Fields : Type 0 where
    end : Fields
    field : Text → Json → Fields → Fields

unfoldable pub same_number : Option Decimal → Option Decimal → Bool
same_number (some d) (some e) =
    (d.digits * 10 ^ e.places == e.digits * 10 ^ d.places)
    && (d.digits == 0 || (if d.negative then e.negative else not e.negative))
same_number _ _ = false

abbrev same_truth : Bool → Bool → Bool
same_truth true b = b
same_truth false b = not b

unfoldable pub count_fields : Fields → ℕ
count_fields end = 0
count_fields (field k v fs) = suc (count_fields fs)

-- `t[key]`.
unfoldable pub lookup_field : Text → Fields → Option Json
lookup_field k end = none
lookup_field k (field j w gs) = if text_eq k j then some w else lookup_field k gs

unfoldable mutual
  unfolding same_number count_fields lookup_field

  pub same_json : Json → Json → Bool
  same_json null null = true
  same_json (truth a) (truth b) = same_truth a b
  same_json (number a) (number b) = same_number a b
  same_json (string a) (string b) = text_eq a b
  same_json (array xs) (array ys) = same_items xs ys
  same_json (object fs) (object gs) = (count_fields fs == count_fields gs) && all_in fs gs
  same_json _ _ = false

  pub same_items : Items → Items → Bool
  same_items nil nil = true
  same_items nil (item y ys) = false
  same_items (item x xs) nil = false
  same_items (item x xs) (item y ys) = same_json x y && same_items xs ys

  -- The loop over the entries of a map, with the look-up in the other.
  pub all_in : Fields → Fields → Bool
  all_in end gs = true
  all_in (field k v fs) gs =
      (elim (lookup_field k gs) [ none ↦ false | some w ↦ same_json v w ]) && all_in fs gs
