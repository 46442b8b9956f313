-- ===== src/Jobs/Outcome.antt =====
-- Outcomes of jobs: core/jobs/types.go (the fields that code reads), metrics.go, and the decimal
-- values and JSON texts that report_confirmation.go compares.
pub mod Rounding
pub mod Json
use revenium_go_sdk.Base.{
  ℕ, suc, ◌+◌, ◌*◌, ◌/◌, ◌^◌, Bool, true, false, not, ◌&&◌, ◌||◌, List, [], ◌∷◌, Option, none, some,
  ◌==◌, if◌then◌else◌, Text, is_empty, trim_space, Unicode,
}

-- A finite float64 as strconv prints it: its sign, its digits and how many of them are decimals.
pub record Decimal : Type 0 where
  pub negative : Bool
  pub digits : ℕ
  pub places : ℕ

-- A metric's value is none if it is NaN or infinite.
pub record OutcomeMetric : Type 0 where
  pub key : Text
  pub value : Option Decimal

pub record JobOutcome : Type 0 where
  pub execution_status : Text
  pub outcome_type : Text
  pub outcome_value : Option Decimal
  pub outcome_currency : Text
  pub metadata : Text
  pub outcome_reason : Text
  pub metrics : List OutcomeMetric
  pub reported_by : Text

-- A pointer field is an option. The stored value is `storedOutcomeValue`: the number that is read in
-- `exactOutcomeValue`, or else `OutcomeValue`; none if there is none or it cannot be read.
pub record JobResource : Type 0 where
  pub has_outcome : Bool
  pub amendment_count : Option ℕ
  pub stored_status : Option Text
  pub stored_type : Option Text
  pub stored_value : Option Decimal
  pub stored_currency : Option Text
  pub stored_metadata : Option Text
  pub stored_reason : Option Text

-- How many digits after the point Revenium stores.
abbrev pub stored_scale : ℕ
stored_scale = 10 ^ 10

-- `storedFormOf`: the whole number of units of 10^-10, rounded half away from zero, of the size.
unfoldable pub stored_units : Decimal → ℕ
stored_units d = (2 * (d.digits * stored_scale) + 10 ^ d.places) / (2 * 10 ^ d.places)

abbrev same_sign : Decimal → Decimal → Bool
same_sign d e = if d.negative then e.negative else not e.negative

-- `storedFormOf(sent).Cmp(stored) == 0`; zero has no sign.
unfoldable pub same_stored : Decimal → Decimal → Bool
unfolding stored_units
same_stored sent stored =
    (stored_units sent * 10 ^ stored.places == stored.digits * stored_scale)
    && (stored_units sent == 0 || same_sign sent stored)

unfoldable pub same_outcome_value : Option Decimal → Option Decimal → Bool
unfolding same_stored
same_outcome_value none none = true
same_outcome_value none (some d) = false
same_outcome_value (some d) none = false
same_outcome_value (some sent) (some stored) = same_stored sent stored

abbrev is_some {ℓ} : {A : Type ℓ} → Option A → Bool
is_some none = false
is_some (some a) = true

-- `validateMetrics`: each has a key and a finite value.
unfoldable pub valid_metrics : Unicode → List OutcomeMetric → Bool
unfolding trim_space
valid_metrics u [] = true
valid_metrics u (m ∷ ms) =
    not (is_empty (trim_space u m.key)) && (is_some m.value && valid_metrics u ms)
