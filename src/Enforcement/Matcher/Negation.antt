-- ===== src/Enforcement/Matcher/Negation.antt =====
-- IS, IS_NOT and IN filters compared with each other, and the provider alias.
use revenium_go_sdk.Base.{
  ◌≡◌, refl, Bool, true, false, not, List, [], ◌∷◌, Text, Unicode, codes, text_eq, is_empty, arith,
  ◌≢◌,
}
use revenium_go_sdk.Enforcement.Rule.{
  Dimension, model, subscriber, provider, product, organization, credential, agent, task_type,
  department, org_unit, other_dimension, is, is_not, one_of, Filter, has_value,
}
use revenium_go_sdk.Enforcement.Context.{
  EvalContext, SubscriberValue, subscriber_value, normalize_email,
}
use revenium_go_sdk.Enforcement.Models.{any_value}
use revenium_go_sdk.Enforcement.Matcher.{
  compare, known_dimension, compare_provider, compare_subscriber, matches, provider_equals,
  scalar_matches, list_matches, present_equal,
}

compare_is_not : (a e : Text) → compare a is_not e ≡ not (compare a is e)
unfolding compare
compare_is_not a e = ground arith

compare_provider_is_not :
    (u : Unicode) (a e : Text) → compare_provider u a is_not e ≡ not (compare_provider u a is e)
unfolding compare_provider
compare_provider_is_not u a e = ground (arith, compare_is_not (u.upper a) (u.upper e))

compare_subscriber_is_not :
    (u : Unicode) (a : SubscriberValue) (e : Text)
    → compare_subscriber u a is_not e ≡ not (compare_subscriber u a is e)
unfolding compare_subscriber
compare_subscriber_is_not u a e = ground (
  arith,
  compare_is_not (normalize_email u a.value) (normalize_email u e),
  compare_is_not a.value e,
)

scalar_is_not :
    (u : Unicode) (d : Dimension) (ec : EvalContext) (f : Filter)
    → ec.served_model_may_be_dated ≡ false
    → scalar_matches u d ec (record f { operator = is_not })
      ≡ not (scalar_matches u d ec (record f { operator = is }))
scalar_is_not u provider ec f h = compare_provider_is_not u ec.provider_name f.value
scalar_is_not u subscriber ec f h = compare_subscriber_is_not u (subscriber_value u ec) f.value
scalar_is_not u model ec f h = ground (arith, compare_is_not ec.model_name f.value)
scalar_is_not u product ec f h = compare_is_not ec.product_name f.value
scalar_is_not u organization ec f h = compare_is_not ec.organization_name f.value
scalar_is_not u credential ec f h = compare_is_not ec.credential_name f.value
scalar_is_not u agent ec f h = compare_is_not ec.agent_name f.value
scalar_is_not u task_type ec f h = compare_is_not ec.task f.value
scalar_is_not u department ec f h = compare_is_not [] f.value
scalar_is_not u org_unit ec f h = compare_is_not [] f.value
scalar_is_not u (other_dimension s) ec f h = compare_is_not [] f.value

-- On every dimension that the SDK knows, and for a value that was sent, an IS_NOT filter matches
-- exactly the requests that the IS filter does not, also under the provider alias, for an email and
-- for a request without a value; a call whose served model may be dated is left out.
pub is_not-matches :
    (u : Unicode) (ec : EvalContext) (f : Filter)
    → ec.served_model_may_be_dated ≡ false
    → known_dimension f.dimension ec ≡ true
    → has_value f ≡ true
    → matches u ec (record f { operator = is_not })
      ≡ not (matches u ec (record f { operator = is }))
unfolding matches
is_not-matches u ec f h k v = ground (arith, scalar_is_not u f.dimension ec f h)

-- The alias works one way, whatever the case of the letters: FOUNDRY traffic satisfies a filter on
-- ANTHROPIC and fails its negation, and ANTHROPIC traffic does not satisfy a filter on FOUNDRY.
pub alias_one_way :
    (u : Unicode) (foundry anthropic : Text)
    → u.upper foundry ≡ codes "FOUNDRY"
    → u.upper anthropic ≡ codes "ANTHROPIC"
    → foundry ≢ []
    → (compare_provider u foundry is anthropic ≡ true)
      × (compare_provider u foundry is_not anthropic ≡ false)
      × (compare_provider u anthropic is foundry ≡ false)
unfolding compare_provider text_eq
alias_one_way u [] a hf ha n = absurd (n refl)
alias_one_way u (c ∷ f) [] hf ha n = rw (hf, ha) (refl, refl, refl)
alias_one_way u (c ∷ f) (x ∷ a) hf ha n = rw (hf, ha) (refl, refl, refl)

any_eq :
    (vs : List Text) (p q : Text → Bool)
    → ((v : Text) → p v ≡ q v)
    → any_value vs p ≡ any_value vs q
any_eq [] p q h = refl
any_eq (v ∷ vs) p q h = ground (arith, h v, any_eq vs p q h)

-- An IS filter for one value of an IN filter.
abbrev pub for_value : Filter → Text → Filter
for_value f v = record f { operator = is; value = v; value_sent = true }

provider_list :
    (u : Unicode) (a v : Text)
    → is_empty (u.upper a) ≡ is_empty a
    → provider_equals u a v ≡ compare_provider u a is v
unfolding provider_equals compare_provider
provider_list u a v h = ground arith

present_list : (u : Unicode) (a v : Text) → present_equal u a v ≡ compare a is v
unfolding compare
present_list u a v = ground arith

list_is :
    (u : Unicode) (d : Dimension) (ec : EvalContext) (f : Filter)
    → d ≢ subscriber
    → ec.served_model_may_be_dated ≡ false
    → is_empty (u.upper ec.provider_name) ≡ is_empty ec.provider_name
    → list_matches u d ec f ≡ any_value f.values (λ v. scalar_matches u d ec (for_value f v))
list_is u provider ec f n h e = any_eq f.values _ _ (λ v. provider_list u ec.provider_name v e)
list_is u subscriber ec f n h e = absurd (n refl)
list_is u model ec f n h e = ground (
  arith,
  any_eq f.values (present_equal u ec.model_name) (λ v. compare ec.model_name is v)
      (present_list u ec.model_name),
)
list_is u product ec f n h e = any_eq f.values _ _ (present_list u ec.product_name)
list_is u organization ec f n h e = any_eq f.values _ _ (present_list u ec.organization_name)
list_is u credential ec f n h e = any_eq f.values _ _ (present_list u ec.credential_name)
list_is u agent ec f n h e = any_eq f.values _ _ (present_list u ec.agent_name)
list_is u task_type ec f n h e = any_eq f.values _ _ (present_list u ec.task)
list_is u department ec f n h e = any_eq f.values _ _ (present_list u [])
list_is u org_unit ec f n h e = any_eq f.values _ _ (present_list u [])
list_is u (other_dimension s) ec f n h e = any_eq f.values _ _ (present_list u [])

any_known :
    (u : Unicode) (ec : EvalContext) (f : Filter) (vs : List Text)
    → known_dimension f.dimension ec ≡ true
    → any_value vs (λ v. scalar_matches u f.dimension ec (for_value f v))
      ≡ any_value vs (λ v. matches u ec (for_value f v))
unfolding matches
any_known u ec f vs k = any_eq vs _ _ (λ v. ground arith)

-- An IN filter with at least one value, on a known dimension other than SUBSCRIBER, matches exactly
-- the requests that an IS filter for some of its values matches; for a call whose served model is
-- not dated, and a case mapping that keeps a provider's name empty or not.
pub one_of-any_is :
    (u : Unicode) (ec : EvalContext) (f : Filter) (v : Text) (vs : List Text)
    → f.values ≡ v ∷ vs
    → f.dimension ≢ subscriber
    → known_dimension f.dimension ec ≡ true
    → ec.served_model_may_be_dated ≡ false
    → is_empty (u.upper ec.provider_name) ≡ is_empty ec.provider_name
    → matches u ec (record f { operator = one_of })
      ≡ any_value f.values (λ w. matches u ec (for_value f w))
unfolding matches
one_of-any_is u ec f v vs e n k h p = ground (
  arith,
  list_is u f.dimension ec (record f { operator = one_of }) n h p,
  any_known u ec f f.values k,
)
