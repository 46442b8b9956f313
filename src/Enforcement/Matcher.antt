-- ===== src/Enforcement/Matcher.antt =====
-- core/enforcement/matcher.go: which requests a rule's filters cover.
pub mod Negation
pub mod Scope
use revenium_go_sdk.Base.{
  Bool, true, false, not, ◌&&◌, ◌||◌, List, [], ◌∷◌, map, Option, none, some, Text, Unicode, codes,
  text_eq, contains, has_prefix, has_suffix, is_empty, if◌then◌else◌,
}
use revenium_go_sdk.Enforcement.Rule.{
  Dimension, model, subscriber, provider, department, org_unit, credential, Operator, is, is_not,
  one_of, contains_text, starts_with, ends_with, other_operator, Filter, has_value, Rule, is_some,
}
use revenium_go_sdk.Enforcement.Context.{
  EvalContext, SubscriberValue, value_of, subscriber_value, normalize_email,
}
use revenium_go_sdk.Enforcement.Models.{
  any_value, carries_snapshot, dash_dated, metered_model_forms, metered_model_candidates,
  filter_spellings, first_text,
}

abbrev pub supported_operator : Operator → Bool
supported_operator (other_operator s) = false
supported_operator _ = true

abbrev pub is_negated : Operator → Bool
is_negated is_not = true
is_negated _ = false

abbrev compare_present : Text → Operator → Text → Bool
compare_present actual is expected = text_eq actual expected
compare_present actual is_not expected = not (text_eq actual expected)
compare_present actual contains_text expected = contains actual expected
compare_present actual starts_with expected = has_prefix actual expected
compare_present actual ends_with expected = has_suffix actual expected
compare_present actual one_of expected = false
compare_present actual (other_operator s) expected = false

unfoldable pub compare : Text → Operator → Text → Bool
unfolding contains has_suffix
compare actual operator expected =
    if is_empty actual then is_negated operator else compare_present actual operator expected

abbrev known_dimension : Dimension → EvalContext → Bool
known_dimension provider ec = true
known_dimension subscriber ec = true
known_dimension d ec = is_some (value_of ec d)

-- Whether a value is known does not depend on the request, so `ec` stands for the empty context.
unfoldable pub evaluable : EvalContext → Filter → Bool
evaluable ec f = supported_operator f.operator && known_dimension f.dimension ec

abbrev compare_model : Text → Operator → List Text → Bool
compare_model actual one_of values = any_value values (text_eq actual)
compare_model actual operator values = compare actual operator (first_text values)

abbrev any_spelling : Text → Operator → List (List Text) → Bool
any_spelling m operator [] = false
any_spelling m operator (values ∷ rest) =
    any_value (metered_model_candidates m values) (λ c. compare_model c operator values)
    || any_spelling m operator rest

-- `modelMatches`, for a call whose served model may carry a date.
unfoldable pub model_matches : Text → Operator → List Text → Bool
unfolding compare metered_model_candidates filter_spellings
model_matches m operator expected =
    if is_empty m
    then is_negated operator
    else if is_negated operator
    then not (carries_snapshot (dash_dated m))
      || not (any_value (metered_model_forms m) (text_eq (dash_dated (first_text expected))))
    else any_spelling m operator (filter_spellings operator expected)

abbrev pub text_or_empty : Option Text → Text
text_or_empty none = []
text_or_empty (some s) = s

module _ (u : Unicode) where
  abbrev foundry : Text
  foundry = codes "FOUNDRY"

  abbrev anthropic : Text
  anthropic = codes "ANTHROPIC"

  -- The one entry of `providerAliases`.
  unfoldable pub provider_via_alias : Text → Text → Bool
  provider_via_alias actual expected =
      not (is_empty actual)
      && (text_eq (u.upper actual) foundry
          && (text_eq foundry (u.upper expected) || text_eq anthropic (u.upper expected)))

  abbrev alias_verdict : Operator → Option Bool
  alias_verdict is = some true
  alias_verdict is_not = some false
  alias_verdict _ = none

  abbrev verdict_or : Option Bool → Bool → Bool
  verdict_or none b = b
  verdict_or (some v) b = v

  unfoldable pub compare_provider : Text → Operator → Text → Bool
  unfolding provider_via_alias compare
  compare_provider actual operator expected =
      let direct = compare (u.upper actual) operator (u.upper expected) in
      if provider_via_alias actual expected
      then verdict_or (alias_verdict operator) direct
      else direct

  unfoldable pub provider_equals : Text → Text → Bool
  unfolding compare_provider
  provider_equals actual expected = not (is_empty actual) && compare_provider actual is expected

  unfoldable pub subscriber_equals : SubscriberValue → Text → Bool
  unfolding normalize_email
  subscriber_equals s expected =
      not (is_empty s.value)
      && (if s.from_email
          then text_eq (normalize_email u s.value) (normalize_email u expected)
          else text_eq s.value expected)

  compare_email : Text → Operator → Text → Bool
  unfolding normalize_email compare
  compare_email actual is expected =
      compare (normalize_email u actual) is (normalize_email u expected)
  compare_email actual is_not expected =
      compare (normalize_email u actual) is_not (normalize_email u expected)
  compare_email actual operator expected = compare (u.lower actual) operator (u.lower expected)

  unfoldable pub compare_subscriber : SubscriberValue → Operator → Text → Bool
  unfolding compare_email compare
  compare_subscriber s operator expected =
      if s.from_email
      then compare_email s.value operator expected
      else compare s.value operator expected

  abbrev scalar_matches : Dimension → EvalContext → Filter → Bool
  scalar_matches provider ec f = compare_provider ec.provider_name f.operator f.value
  scalar_matches subscriber ec f = compare_subscriber (subscriber_value u ec) f.operator f.value
  scalar_matches model ec f =
      if ec.served_model_may_be_dated
      then model_matches ec.model_name f.operator (f.value ∷ [])
      else compare ec.model_name f.operator f.value
  scalar_matches d ec f = compare (text_or_empty (value_of ec d)) f.operator f.value

  abbrev present_equal : Text → Text → Bool
  present_equal actual v = not (is_empty actual) && text_eq actual v

  abbrev list_matches : Dimension → EvalContext → Filter → Bool
  list_matches provider ec f = any_value f.values (provider_equals ec.provider_name)
  list_matches subscriber ec f = any_value f.values (subscriber_equals (subscriber_value u ec))
  list_matches model ec f =
      if ec.served_model_may_be_dated
      then model_matches ec.model_name one_of f.values
      else any_value f.values (present_equal ec.model_name)
  list_matches d ec f = any_value f.values (present_equal (text_or_empty (value_of ec d)))

  -- `matchesAnyValue` for an IN filter; else an absent value constrains nothing.
  abbrev operand_matches : Operator → EvalContext → Filter → Bool
  operand_matches one_of ec f = is_empty f.values || list_matches f.dimension ec f
  operand_matches _ ec f = not (has_value f) || scalar_matches f.dimension ec f

  unfoldable pub matches : EvalContext → Filter → Bool
  unfolding evaluable compare_provider compare_subscriber provider_equals subscriber_equals
      model_matches compare subscriber_value
  matches ec f = evaluable ec f && operand_matches f.operator ec f

  unfoldable pub covers : List Filter → EvalContext → Bool
  unfolding matches
  covers [] ec = true
  covers (f ∷ fs) ec = matches ec f && covers fs ec

  abbrev pub settled_by_server : Dimension → Bool
  settled_by_server department = true
  settled_by_server org_unit = true
  settled_by_server subscriber = true
  settled_by_server _ = false

  abbrev pub is_credential : Dimension → Bool
  is_credential credential = true
  is_credential _ = false

  unfoldable pub case_folded : Filter → Filter
  case_folded f = record f { value = u.lower f.value; values = map u.lower f.values }

  -- The rows that a department candidate does not ask of the call.
  abbrev pub skipped : EvalContext → Filter → Bool
  skipped call f =
      settled_by_server f.dimension
      || (not (evaluable call f) || (is_credential f.dimension && call.credential_value_only))

  unfoldable pub covers_folded_call_scope : List Filter → EvalContext → Bool
  unfolding matches case_folded
  covers_folded_call_scope [] call = true
  covers_folded_call_scope (f ∷ fs) call =
      (skipped call f || matches call (case_folded f)) && covers_folded_call_scope fs call
