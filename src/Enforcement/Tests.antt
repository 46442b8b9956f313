-- ===== src/Enforcement/Tests.antt =====
-- The theorems on cost-control rules at concrete inputs.
use mathlib.Core.List.{Memᴰ}
use revenium_go_sdk.Base.{
  ◌+◌, ◌≡◌, refl, ◌⊎◌, ◌↔◌, [], ◌∷◌, true, false, not, arith, none, some, ascii, codes, ℤ, leb,
  if◌then◌else◌, text_eq, trim_space,
}
use revenium_go_sdk.Enforcement.Rule.{
  model, provider, other_dimension, is, is_not, one_of, Filter, Rule, GroupEntry, Amount,
  grouped_by,
}
use revenium_go_sdk.Enforcement.Context.{EvalContext, group_keys}
use revenium_go_sdk.Enforcement.Models.{any_value}
use revenium_go_sdk.Enforcement.Matcher.{matches}
use revenium_go_sdk.Enforcement.Matcher.Negation.{is_not-matches, one_of-any_is, for_value}
use revenium_go_sdk.Enforcement.Evaluator.{
  evaluate, evaluate_rules, breach_for, department_block, department_budget_verdict,
}
use revenium_go_sdk.Enforcement.Cache.{snapshot, update_cache, new_cache, rule_stale_after}
use revenium_go_sdk.Enforcement.RuleSet.{
  RuleSet, DepartmentCandidate, block_tier, warn_tier, cost_limit_error, warn_near_limit_once,
}
use revenium_go_sdk.Enforcement.Evaluator.Blocking.{
  NoneBlocking, allowed_iff_none_blocks, first_blocking_rule, own_entry_decides, stale_rules_allow,
}
use revenium_go_sdk.Enforcement.Evaluator.Departments.{first_candidate_decides, email}

abbrev request : EvalContext
request = record {
  subscriber_id = codes "u1";
  subscriber_email = codes "Ann@x.io";
  product_name = [];
  model_name = codes "gpt-4.1";
  provider_name = codes "Foundry";
  agent_name = [];
  organization_name = [];
  task = [];
  credential_name = [];
  credential_opaque = false;
  credential_value_only = false;
  served_model_may_be_dated = false;
}

abbrev on_provider : Filter
on_provider = record {
  dimension = provider;
  operator = is;
  value = codes "anthropic";
  values = codes "openai" ∷ codes "anthropic" ∷ [];
  value_sent = true;
}

abbrev unknown_filter : Filter
unknown_filter = record on_provider { dimension = other_dimension (codes "REGION") }

abbrev budget : Rule
budget = record {
  rule_id = ℤ.pos 7;
  name = codes "cap";
  metric_type = [];
  threshold = 100;
  current_value = 120;
  period_type = codes "DAILY";
  action = codes " block";
  breached = true;
  shadow_mode = false;
  filters = on_provider ∷ [];
  group_by = [];
  group_breakdown = [];
  department_id = none;
}

abbrev shadowed : Rule
shadowed = record budget { shadow_mode = true }

abbrev per_person : Rule
per_person = record budget {
  group_by = codes "subscriber";
  group_breakdown =
      record { group_value = codes "u2"; current_value = 1; breached = false }
      ∷ record { group_value = codes "ann@x.io"; current_value = 55; breached = true }
      ∷ [];
}

is_not-matches_example :
    matches ascii request (record on_provider { operator = is_not })
    ≡ not (matches ascii request (record on_provider { operator = is }))
is_not-matches_example = is_not-matches ascii request on_provider refl refl refl

one_of-any_is_example :
    matches ascii request (record on_provider { operator = one_of })
    ≡ any_value on_provider.values (λ w. matches ascii request (for_value on_provider w))
one_of-any_is_example =
    one_of-any_is ascii request on_provider (codes "openai") (codes "anthropic" ∷ []) refl (λ e. cc)
      refl refl refl

allowed_iff_none_blocks_example :
    (evaluate_rules ascii (shadowed ∷ budget ∷ []) request ≡ none)
    ↔ NoneBlocking ascii request (shadowed ∷ budget ∷ [])
allowed_iff_none_blocks_example = allowed_iff_none_blocks ascii request (shadowed ∷ budget ∷ [])

first_blocking_rule_example :
    (a : Amount) × (breach_for ascii budget request ≡ some a)
    × (evaluate_rules ascii (shadowed ∷ budget ∷ []) request
        ≡ some (cost_limit_error budget a request))
unfolding evaluate_rules trim_space text_eq
first_blocking_rule_example =
    first_blocking_rule ascii request (shadowed ∷ []) budget [] (refl, tt) refl

own_entry_decides_example :
    (g : GroupEntry) × Memᴰ g per_person.group_breakdown
    × Memᴰ g.group_value (group_keys ascii request)
    × (g.breached ≡ true)
    × (g.current_value ≡ 55)
unfolding breach_for trim_space text_eq grouped_by
own_entry_decides_example = own_entry_decides ascii request per_person 55 refl (λ e. cc) refl

abbrev candidate : ℤ → DepartmentCandidate
candidate id = record { candidate_rule = id; tier = block_tier; balance = some 9 }

abbrev scoped_elsewhere : Rule
scoped_elsewhere = record budget {
  rule_id = ℤ.pos 8;
  filters = record on_provider { dimension = model; value = codes "o1" } ∷ [];
}

abbrev loaded_rules : RuleSet
loaded_rules = record {
  rules = scoped_elsewhere ∷ budget ∷ [];
  department_blocks = (codes "ann@x.io", ℤ.pos 99) ∷ [];
  department_balances = (codes "ann@x.io", 42) ∷ [];
  department_candidates = (codes "ann@x.io", candidate (ℤ.pos 8) ∷ candidate (ℤ.pos 7) ∷ []) ∷ [];
}

stale_rules_allow_example :
    evaluate ascii (snapshot 900000000000 (update_cache loaded_rules 5 new_cache)) request none ≡ (
      if leb 900000000000 (5 + rule_stale_after)
      then evaluate ascii loaded_rules request none
      else (none, none))
stale_rules_allow_example =
    stale_rules_allow ascii loaded_rules 5 900000000000 new_cache request none (omega arith)

first_candidate_decides_example :
    ((block_tier ≡ block_tier)
      × (department_block ascii loaded_rules request none
          ≡ (department_budget_verdict ascii loaded_rules (ℤ.pos 7) (some 9) request, none)))
    ⊎ ((block_tier ≡ warn_tier)
        × (department_block ascii loaded_rules request none
            ≡ (none, warn_near_limit_once (email ascii loaded_rules request) (ℤ.pos 7) none)))
unfolding department_block trim_space text_eq
first_candidate_decides_example =
    first_candidate_decides ascii loaded_rules request (candidate (ℤ.pos 8) ∷ []) []
      (candidate (ℤ.pos 7)) none refl (refl, tt) refl

abbrev narrow_rules : RuleSet
narrow_rules = record loaded_rules {
  department_candidates = (codes "ann@x.io", candidate (ℤ.pos 8) ∷ []) ∷ [];
}

abbrev slot_rules : RuleSet
slot_rules = record loaded_rules { department_candidates = [] }
