-- ===== src/Enforcement/Evaluator.antt =====
-- core/enforcement/evaluator.go. An error is the record of an ErrCostLimitExceeded; nil is none. Log
-- lines are left out, but not the set that keeps one of them from being repeated.
pub mod Blocking
pub mod Departments
use revenium_go_sdk.Base.{
  ℕ, ◌+◌, ◌*◌, ◌^◌, ltb, ◌==◌, ℤ, pos, negsuc, int_eq, Bool, true, false, not, ◌&&◌, ◌||◌, List, [],
  ◌∷◌, Option, none, some, Text, Unicode, codes, text_eq, is_empty, decimal, if◌then◌else◌, suc,
}
use revenium_go_sdk.Enforcement.Rule.{
  Amount, Rule, GroupEntry, is_per_person, is_department_rule, measures_cost, normalized_action,
  is_observation_only, action_block,
}
use revenium_go_sdk.Enforcement.Context.{
  EvalContext, normalize_email, group_keys, case_folded_context,
}
use revenium_go_sdk.Enforcement.Matcher.{covers, covers_folded_call_scope}
use revenium_go_sdk.Enforcement.RuleSet.{
  CandidateTier, block_tier, warn_tier, DepartmentCandidate, RuleSet, empty_rule_set, entry,
  CostLimitExceeded, format_int, rule_by_id, cost_limit_error, NearLimitLog, logged,
  warn_near_limit_once,
}
use revenium_go_sdk.Enforcement.Cache.{rule_stale_after, Cache, new_cache, update_cache, snapshot}

abbrev pub Verdict : Type 0
Verdict = Option CostLimitExceeded × NearLimitLog

abbrev pub balance_or : Option Amount → Amount → Amount
balance_or none a = a
balance_or (some b) a = b

module _ (u : Unicode) where
  abbrev entry_with_key : Text → List GroupEntry → Option GroupEntry
  entry_with_key key [] = none
  entry_with_key key (g ∷ gs) = if text_eq g.group_value key then some g else entry_with_key key gs

  abbrev first_entry : Option GroupEntry → Option GroupEntry → Option GroupEntry
  first_entry none next = next
  first_entry (some g) next = some g

  unfoldable pub entry_for_keys : List Text → List GroupEntry → Option GroupEntry
  entry_for_keys [] gs = none
  entry_for_keys (key ∷ keys) gs = first_entry (entry_with_key key gs) (entry_for_keys keys gs)

  abbrev pub group_entry_for : Rule → EvalContext → Option GroupEntry
  group_entry_for r ec = entry_for_keys (group_keys u ec) r.group_breakdown

  abbrev breach_of_entry : Option GroupEntry → Option Amount
  breach_of_entry none = none
  breach_of_entry (some g) = if g.breached then some g.current_value else none

  abbrev own_breach : Rule → Option Amount
  own_breach r = if r.breached then some r.current_value else none

  -- `breachFor`: the balance that the rule is breached with, if it is.
  unfoldable pub breach_for : Rule → EvalContext → Option Amount
  unfolding entry_for_keys group_keys measures_cost
  breach_for r ec =
      if not (is_per_person u r)
      then own_breach r
      else if not (is_empty r.group_breakdown)
      then breach_of_entry (group_entry_for r ec)
      else if measures_cost u r
      then none
      else own_breach r

  abbrev judge :
      Rule → EvalContext → Option Amount → Option CostLimitExceeded → Option CostLimitExceeded
  judge r ec none next = next
  judge r ec (some current) next =
      if is_observation_only u r
      then next
      else if text_eq (normalized_action u r) action_block
      then some (cost_limit_error r current ec)
      else next

  -- The loop of `evaluate` over the rules.
  unfoldable pub evaluate_rules : List Rule → EvalContext → Option CostLimitExceeded
  unfolding breach_for is_observation_only cost_limit_error covers is_department_rule
  evaluate_rules [] ec = none
  evaluate_rules (r ∷ rs) ec =
      let rest = evaluate_rules rs ec in
      if is_department_rule u r || not (covers u r.filters ec)
      then rest
      else judge r ec (breach_for r ec) rest

  unfoldable pub blocks_as_department_budget : Rule → Bool
  unfolding normalized_action
  blocks_as_department_budget r =
      not r.shadow_mode
      && (is_empty (normalized_action u r) || text_eq (normalized_action u r) action_block)

  abbrev missing_rule_error : ℤ → Option Amount → EvalContext → CostLimitExceeded
  missing_rule_error id balance ec = record {
    rule_id = format_int id;
    rule_name = codes "Department budget";
    threshold = 0;
    current_value = balance_or balance 0;
    period_type = [];
    context = ec;
  }

  abbrev known_rule_verdict :
      Option Rule → ℤ → Option Amount → EvalContext → Option CostLimitExceeded
  known_rule_verdict none id balance ec = some (missing_rule_error id balance ec)
  known_rule_verdict (some r) id balance ec =
      if blocks_as_department_budget r
      then some (cost_limit_error r (balance_or balance r.current_value) ec)
      else none

  unfoldable pub department_budget_verdict :
      RuleSet → ℤ → Option Amount → EvalContext → Option CostLimitExceeded
  unfolding rule_by_id blocks_as_department_budget cost_limit_error
  department_budget_verdict s id balance ec =
      known_rule_verdict (rule_by_id s.rules id) id balance ec

  -- A candidate whose rule is missing covers every call.
  abbrev pub candidate_covers : Option Rule → EvalContext → Bool
  candidate_covers none call = true
  candidate_covers (some r) call = covers_folded_call_scope u r.filters call

  abbrev candidate_verdict :
      RuleSet → CandidateTier → DepartmentCandidate → EvalContext → NearLimitLog → Verdict
  candidate_verdict s warn_tier c ec log =
      (none, warn_near_limit_once (normalize_email u ec.subscriber_email) c.candidate_rule log)
  candidate_verdict s block_tier c ec log =
      (department_budget_verdict s c.candidate_rule c.balance ec, log)

  unfoldable pub department_candidate_verdict :
      RuleSet → List DepartmentCandidate → EvalContext → NearLimitLog → Verdict
  unfolding department_budget_verdict warn_near_limit_once covers_folded_call_scope rule_by_id
      case_folded_context normalize_email
  department_candidate_verdict s [] ec log = (none, log)
  department_candidate_verdict s (c ∷ cs) ec log =
      if candidate_covers (rule_by_id s.rules c.candidate_rule) (case_folded_context u ec)
      then candidate_verdict s c.tier c ec log
      else department_candidate_verdict s cs ec log

  abbrev slot_verdict : Option ℤ → RuleSet → Text → EvalContext → NearLimitLog → Verdict
  slot_verdict none s email ec log = (none, log)
  slot_verdict (some id) s email ec log =
      (department_budget_verdict s id (entry email s.department_balances) ec, log)

  abbrev listed_verdict :
      Option (List DepartmentCandidate) → RuleSet → Text → EvalContext → NearLimitLog → Verdict
  listed_verdict none s email ec log = slot_verdict (entry email s.department_blocks) s email ec log
  listed_verdict (some cs) s email ec log = department_candidate_verdict s cs ec log

  unfoldable pub department_block : RuleSet → EvalContext → NearLimitLog → Verdict
  unfolding department_candidate_verdict department_budget_verdict entry normalize_email
  department_block s ec log =
      let email = normalize_email u ec.subscriber_email in
      listed_verdict (entry email s.department_candidates) s email ec log

  abbrev rules_if_allowed : RuleSet → EvalContext → Verdict → Verdict
  rules_if_allowed s ec (some err, log) = (some err, log)
  rules_if_allowed s ec (none, log) = (evaluate_rules s.rules ec, log)

  -- `evaluate`; none allows the call.
  unfoldable pub evaluate : RuleSet → EvalContext → NearLimitLog → Verdict
  unfolding department_block evaluate_rules
  evaluate s ec log = rules_if_allowed s ec (department_block s ec log)
