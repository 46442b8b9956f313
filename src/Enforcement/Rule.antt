-- ===== src/Enforcement/Rule.antt =====
-- core/enforcement/rule.go and errors.go. An amount (float64) is only copied and compared by
-- nobody here, so it stands for its bit pattern. A constant's spelling is kept where code folds its
-- case; where code compares exactly, it is a constructor, with one more for any other text.
use revenium_go_sdk.Base.{
  ℕ, ℤ, Bool, true, false, ◌||◌, not, List, [], ◌∷◌, Option, none, some, Text, Unicode, codes,
  text_eq, trim_space, is_empty,
}

abbrev pub Amount : Type 0
Amount = ℕ

pub data Dimension : Type 0 where
  model subscriber product provider organization credential agent task_type : Dimension
  department org_unit : Dimension
  other_dimension : Text → Dimension

pub data Operator : Type 0 where
  is is_not one_of contains_text starts_with ends_with : Operator
  other_operator : Text → Operator

pub record Filter : Type 0 where
  pub dimension : Dimension
  pub operator : Operator
  pub value : Text
  pub values : List Text
  pub value_sent : Bool

abbrev pub has_value : Filter → Bool
has_value f = f.value_sent || not (is_empty f.value)

pub record GroupEntry : Type 0 where
  pub group_value : Text
  pub current_value : Amount
  pub breached : Bool

pub record Rule : Type 0 where
  pub rule_id : ℤ
  pub name : Text
  pub metric_type : Text
  pub threshold : Amount
  pub current_value : Amount
  pub period_type : Text
  pub action : Text
  pub breached : Bool
  pub shadow_mode : Bool
  pub filters : List Filter
  pub group_by : Text
  pub group_breakdown : List GroupEntry
  pub department_id : Option ℤ

abbrev pub is_some {ℓ} : {A : Type ℓ} → Option A → Bool
is_some none = false
is_some (some a) = true

module _ (u : Unicode) where
  unfoldable pub grouped_by : Rule → List Text → Bool
  grouped_by r [] = false
  grouped_by r (d ∷ ds) = text_eq (u.upper (trim_space u r.group_by)) d || grouped_by r ds

  abbrev pub is_per_person : Rule → Bool
  is_per_person r = grouped_by r (codes "SUBSCRIBER" ∷ [])

  unfoldable pub is_department_rule : Rule → Bool
  unfolding grouped_by
  is_department_rule r =
      is_some r.department_id || grouped_by r (codes "DEPARTMENT" ∷ codes "ORG_UNIT" ∷ [])

  unfoldable pub measures_cost : Rule → Bool
  measures_cost r = is_empty r.metric_type || u.equal_fold r.metric_type (codes "TOTAL_COST")

  unfoldable pub normalized_action : Rule → Text
  normalized_action r = u.upper (trim_space u r.action)

  unfoldable pub is_observation_only : Rule → Bool
  unfolding normalized_action
  is_observation_only r =
      r.shadow_mode
      || (text_eq (normalized_action r) (codes "WARN_ONLY")
          || text_eq (normalized_action r) (codes "THROTTLE"))

abbrev pub action_block : Text
action_block = codes "BLOCK"
