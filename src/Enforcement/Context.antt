-- ===== src/Enforcement/Context.antt =====
-- core/enforcement/context.go: what a request says about itself.
use revenium_go_sdk.Base.{
  Bool, true, false, List, [], ◌∷◌, Option, none, some, Text, Unicode, trim_space, is_empty,
  if◌then◌else◌,
}
use revenium_go_sdk.Enforcement.Rule.{
  Dimension, model, product, organization, credential, agent, task_type,
}

pub record EvalContext : Type 0 where
  pub subscriber_id : Text
  pub subscriber_email : Text
  pub product_name : Text
  pub model_name : Text
  pub provider_name : Text
  pub agent_name : Text
  pub organization_name : Text
  pub task : Text
  pub credential_name : Text
  pub credential_opaque : Bool
  pub credential_value_only : Bool
  pub served_model_may_be_dated : Bool

-- `matcher.go`'s subscriberValue: which of the two texts a filter reads.
pub record SubscriberValue : Type 0 where
  pub value : Text
  pub from_email : Bool

-- none for a dimension that the request carries no value for.
abbrev pub value_of : EvalContext → Dimension → Option Text
value_of ec model = some ec.model_name
value_of ec product = some ec.product_name
value_of ec agent = some ec.agent_name
value_of ec task_type = some ec.task
value_of ec organization = some ec.organization_name
value_of ec credential = some ec.credential_name
value_of ec _ = none

module _ (u : Unicode) where
  -- normalizeEmail of matcher.go.
  unfoldable pub normalize_email : Text → Text
  normalize_email email = u.lower (trim_space u email)

  abbrev pub is_blank : Text → Bool
  is_blank s = is_empty (trim_space u s)

  unfoldable pub subscriber_value : EvalContext → SubscriberValue
  subscriber_value ec =
      if is_blank ec.subscriber_email
      then record { value = ec.subscriber_id; from_email = false }
      else record { value = ec.subscriber_email; from_email = true }

  abbrev keep_present : List Text → List Text
  keep_present [] = []
  keep_present (k ∷ ks) = if is_blank k then keep_present ks else k ∷ keep_present ks

  unfoldable pub group_keys : EvalContext → List Text
  unfolding normalize_email
  group_keys ec =
      keep_present
        (ec.subscriber_id ∷ normalize_email ec.subscriber_email ∷ ec.subscriber_email ∷ [])

  unfoldable pub case_folded_context : EvalContext → EvalContext
  case_folded_context ec = record ec {
    model_name = u.lower ec.model_name;
    provider_name = u.lower ec.provider_name;
    agent_name = u.lower ec.agent_name;
    task = u.lower ec.task;
    product_name = u.lower ec.product_name;
    organization_name = u.lower ec.organization_name;
    credential_name = u.lower ec.credential_name;
  }
