-- ===== src/Enforcement/RuleSet.antt =====
-- The rule set of core/enforcement/payload.go, the errors of errors.go and the set of logged warnings.
-- A Go map is a list of its entries.
use revenium_go_sdk.Base.{
  ℤ, pos, negsuc, int_eq, Bool, false, ◌&&◌, ◌||◌, List, [], ◌∷◌, Option, none, some, Text, text_eq,
  decimal, if◌then◌else◌, suc,
}
use revenium_go_sdk.Enforcement.Rule.{Amount, Rule}
use revenium_go_sdk.Enforcement.Context.{EvalContext}

pub data CandidateTier : Type 0 where
  block_tier warn_tier : CandidateTier

pub record DepartmentCandidate : Type 0 where
  pub candidate_rule : ℤ
  pub tier : CandidateTier
  pub balance : Option Amount

-- A Go map is a list of its entries.
pub record RuleSet : Type 0 where
  pub rules : List Rule
  pub department_blocks : List (Text × ℤ)
  pub department_balances : List (Text × Amount)
  pub department_candidates : List (Text × List DepartmentCandidate)

abbrev pub empty_rule_set : RuleSet
empty_rule_set = record {
  rules = [];
  department_blocks = [];
  department_balances = [];
  department_candidates = [];
}

unfoldable pub entry {ℓ} : {V : Type ℓ} → Text → List (Text × V) → Option V
entry k [] = none
entry k ((j, v) ∷ m) = if text_eq j k then some v else entry k m

-- ErrCostLimitExceeded; its action is always BLOCK.
pub record CostLimitExceeded : Type 0 where
  pub rule_id : Text
  pub rule_name : Text
  pub threshold : Amount
  pub current_value : Amount
  pub period_type : Text
  pub context : EvalContext

-- strconv.FormatInt.
unfoldable pub format_int : ℤ → Text
unfolding decimal
format_int (pos n) = decimal n
format_int (negsuc n) = b'-' ∷ decimal (suc n)

unfoldable pub rule_by_id : List Rule → ℤ → Option Rule
rule_by_id [] id = none
rule_by_id (r ∷ rs) id = if int_eq r.rule_id id then some r else rule_by_id rs id

unfoldable pub cost_limit_error : Rule → Amount → EvalContext → CostLimitExceeded
unfolding format_int
cost_limit_error r current ec = record {
  rule_id = format_int r.rule_id;
  rule_name = r.name;
  threshold = r.threshold;
  current_value = current;
  period_type = r.period_type;
  context = ec;
}

-- The emails and rules whose near-limit line has been logged; none where the rule set keeps no set.
abbrev pub NearLimitLog : Type 0
NearLimitLog = Option (List (Text × ℤ))

abbrev pub logged : Text → ℤ → List (Text × ℤ) → Bool
logged email id [] = false
logged email id ((e, i) ∷ seen) = (text_eq e email && int_eq i id) || logged email id seen

unfoldable pub warn_near_limit_once : Text → ℤ → NearLimitLog → NearLimitLog
warn_near_limit_once email id none = none
warn_near_limit_once email id (some seen) =
    if logged email id seen then some seen else some ((email, id) ∷ seen)
