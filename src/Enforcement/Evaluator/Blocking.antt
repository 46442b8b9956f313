-- ===== src/Enforcement/Evaluator/Blocking.antt =====
-- Which rule blocks a call, and which cannot.
use mathlib.Core.List.{Memᴰ}
use native.Mathlib.Decide.{dec_lt}
use revenium_go_sdk.Base.{
  trim_space, codes, ◌≡◌, ◌≢◌, refl, sym, ◌∙◌, ap, Bool, true, false, not, ◌&&◌, List, [], ◌∷◌,
  ◌++◌, Unicode, arith, Text, text_eq, text_eq_sound, none, some, Bool-cases, Option-cases, inl,
  inr, ◌↔◌, ℕ, ◌+◌, ◌<◌, leb, subst, if◌then◌else◌,
}
use revenium_go_sdk.Enforcement.Rule.{
  Amount, Rule, GroupEntry, is_per_person, is_department_rule, normalized_action,
  is_observation_only, action_block, is_some,
}
use revenium_go_sdk.Enforcement.Context.{EvalContext, group_keys}
use revenium_go_sdk.Enforcement.Matcher.{covers}
use revenium_go_sdk.Enforcement.Evaluator.{
  breach_for, breach_of_entry, group_entry_for, entry_for_keys, entry_with_key, evaluate_rules,
  evaluate, department_block,
}
use revenium_go_sdk.Enforcement.Cache.{Cache, update_cache, snapshot, rule_stale_after}
use revenium_go_sdk.Enforcement.RuleSet.{RuleSet, NearLimitLog, cost_limit_error, empty_rule_set}

module _ (u : Unicode) where
  -- A rule that stops a call: it is judged here, covers the call, is breached for this caller, is not
  -- in shadow mode, and its action, trimmed and in upper case, is BLOCK.
  abbrev pub blocks : EvalContext → Rule → Bool
  blocks ec r =
      not (is_department_rule u r)
      && (covers u r.filters ec
          && (is_some (breach_for u r ec)
              && (not r.shadow_mode && text_eq (u.upper (trim_space u r.action)) (codes "BLOCK"))))

  -- An action to block is neither of the two that only observe.
  block_not_observed :
      (a : Text)
      → text_eq a (codes "BLOCK") ≡ true
      → (text_eq a (codes "WARN_ONLY") ≡ false) × (text_eq a (codes "THROTTLE") ≡ false)
  unfolding text_eq
  block_not_observed a h =
      let e = text_eq_sound a (codes "BLOCK") h in
      subst (λ t. (text_eq t (codes "WARN_ONLY") ≡ false) × (text_eq t (codes "THROTTLE") ≡ false))
        (sym e) (refl, refl)

  observed_unless_blocking :
      (r : Rule)
      → (not (is_observation_only u r) && text_eq (normalized_action u r) action_block)
        ≡ (not r.shadow_mode && text_eq (u.upper (trim_space u r.action)) (codes "BLOCK"))
  unfolding is_observation_only normalized_action
  observed_unless_blocking r =
      elim (Bool-cases (text_eq (u.upper (trim_space u r.action)) (codes "BLOCK"))) [
        | inl y ↦ let n = block_not_observed (u.upper (trim_space u r.action)) y in ground arith
        | inr n ↦ ground arith
      ]

  abbrev pub NoneBlocking : EvalContext → List Rule → Type 0
  NoneBlocking ec [] = Unit {0}
  NoneBlocking ec (r ∷ rs) = (blocks ec r ≡ false) × NoneBlocking ec rs

  passes :
      (ec : EvalContext) (r : Rule) (rs : List Rule)
      → blocks ec r ≡ false
      → evaluate_rules u (r ∷ rs) ec ≡ evaluate_rules u rs ec
  unfolding evaluate_rules
  passes ec r rs h = ground (arith, observed_unless_blocking r)

  stops :
      (ec : EvalContext) (r : Rule) (rs : List Rule)
      → blocks ec r ≡ true
      → (a : Amount) × (breach_for u r ec ≡ some a)
        × (evaluate_rules u (r ∷ rs) ec ≡ some (cost_limit_error r a ec))
  unfolding evaluate_rules
  stops ec r rs h = elim (Option-cases (breach_for u r ec)) [
    | inl e ↦ absurd (ground arith)
    | inr (a, e) ↦ (a, e, ground (arith, observed_unless_blocking r))
  ]

  allowed→none :
      (ec : EvalContext) (rs : List Rule) → evaluate_rules u rs ec ≡ none → NoneBlocking ec rs
  allowed→none ec [] h = tt
  allowed→none ec (r ∷ rs) h = elim (Bool-cases (blocks ec r)) [
    | inl b ↦ let (a, e, q) = stops ec r rs b in cc
    | inr b ↦ (b, allowed→none ec rs (sym (passes ec r rs b) ∙ h))
  ]

  none→allowed :
      (ec : EvalContext) (rs : List Rule) → NoneBlocking ec rs → evaluate_rules u rs ec ≡ none
  unfolding evaluate_rules
  none→allowed ec [] h = refl
  none→allowed ec (r ∷ rs) h = passes ec r rs h.0 ∙ none→allowed ec rs h.1

  -- The rules allow a call exactly when none of them is judged here, covers it, is breached for this
  -- caller, is not in shadow mode and has the action to block.
  pub allowed_iff_none_blocks :
      (ec : EvalContext) (rs : List Rule) → (evaluate_rules u rs ec ≡ none) ↔ NoneBlocking ec rs
  allowed_iff_none_blocks ec rs = (allowed→none ec rs, none→allowed ec rs)

  -- The error of a call that the rules stop is that of the first rule that blocks it, with the balance
  -- that the rule is breached with.
  pub first_blocking_rule :
      (ec : EvalContext) (before : List Rule) (r : Rule) (after : List Rule)
      → NoneBlocking ec before
      → blocks ec r ≡ true
      → (a : Amount) × (breach_for u r ec ≡ some a)
        × (evaluate_rules u (before ++ r ∷ after) ec ≡ some (cost_limit_error r a ec))
  first_blocking_rule ec [] r after h b = stops ec r after b
  first_blocking_rule ec (x ∷ before) r after h b =
      let (a, e, q) = first_blocking_rule ec before r after h.1 b in
      (a, e, passes ec x (before ++ r ∷ after) h.0 ∙ q)

  entry_with_key-mem :
      (g : GroupEntry) (key : Text) (gs : List GroupEntry)
      → entry_with_key u key gs ≡ some g
      → Memᴰ g gs × (g.group_value ≡ key)
  entry_with_key-mem g key [] h = cc
  entry_with_key-mem g key (x ∷ gs) h = elim (Bool-cases (text_eq x.group_value key)) [
    | inl hit ↦
        let e : x ≡ g = ground arith in
        (Memᴰ.head (sym e), ap (λ (y : GroupEntry). y.group_value) (sym e) ∙ text_eq_sound _ _ hit)
    | inr miss ↦ let (m, k) = entry_with_key-mem g key gs (ground arith) in (Memᴰ.tail m, k)
  ]

  entry_for_keys-mem :
      (g : GroupEntry) (keys : List Text) (gs : List GroupEntry)
      → entry_for_keys u keys gs ≡ some g
      → Memᴰ g gs × Memᴰ g.group_value keys
  unfolding entry_for_keys
  entry_for_keys-mem g [] gs h = cc
  entry_for_keys-mem g (key ∷ keys) gs h = elim (Option-cases (entry_with_key u key gs)) [
    | inl none_here ↦ let (m, k) = entry_for_keys-mem g keys gs (ground arith) in (m, Memᴰ.tail k)
    | inr (x, here) ↦
        let e : x ≡ g = ground arith in
        let (m, k) = entry_with_key-mem x key gs here in
        (subst (λ y. Memᴰ y gs) e m, Memᴰ.head (ap (λ (y : GroupEntry). y.group_value) (sym e) ∙ k))
  ]

  breach_by_entry :
      (ec : EvalContext) (r : Rule)
      → is_per_person u r ≡ true
      → r.group_breakdown ≢ []
      → breach_for u r ec ≡ breach_of_entry u (group_entry_for u r ec)
  unfolding breach_for
  breach_by_entry ec r p n = ground arith

  -- A per-person rule with a breakdown is breached for a caller only through an entry of the
  -- breakdown that is filed under one of the caller's own keys and is itself breached, and with that
  -- entry's balance; the rule's own balance and flag do not count.
  pub own_entry_decides :
      (ec : EvalContext) (r : Rule) (a : Amount)
      → is_per_person u r ≡ true
      → r.group_breakdown ≢ []
      → breach_for u r ec ≡ some a
      → (g : GroupEntry) × Memᴰ g r.group_breakdown
        × Memᴰ g.group_value (group_keys u ec)
        × (g.breached ≡ true)
        × (g.current_value ≡ a)
  own_entry_decides ec r a p n e = elim (Option-cases (group_entry_for u r ec)) [
    | inl missing ↦ absurd (ground (arith, breach_by_entry ec r p n))
    | inr (g, found) ↦
        let (m, k) = entry_for_keys-mem g (group_keys u ec) r.group_breakdown found in
        (
          g,
          m,
          k,
          ground (arith, breach_by_entry ec r p n),
          ground (arith, breach_by_entry ec r p n),
        )
  ]

  abbrev pub AllShadow : List Rule → Type 0
  AllShadow [] = Unit {0}
  AllShadow (r ∷ rs) = (r.shadow_mode ≡ true) × AllShadow rs

  shadow→none : (ec : EvalContext) (rs : List Rule) → AllShadow rs → NoneBlocking ec rs
  unfolding is_observation_only
  shadow→none ec [] h = tt
  shadow→none ec (r ∷ rs) h = (ground arith, shadow→none ec rs h.1)

  -- Rules in shadow mode never stop a call.
  pub shadow_never_blocks :
      (ec : EvalContext) (rs : List Rule) → AllShadow rs → evaluate_rules u rs ec ≡ none
  shadow_never_blocks ec rs h = (allowed_iff_none_blocks ec rs).1 (shadow→none ec rs h)

empty_allows :
    (u : Unicode) (ec : EvalContext) (log : NearLimitLog)
    → evaluate u empty_rule_set ec log ≡ (none, log)
unfolding evaluate department_block evaluate_rules
empty_allows u ec log = refl

-- A rule set decides calls for five minutes after it was loaded, and none after that: an engine
-- that has lost its connection allows what it can no longer judge.
pub stale_rules_allow :
    (u : Unicode) (s : RuleSet) (loaded now : ℕ) (c : Cache) (ec : EvalContext) (log : NearLimitLog)
    → 0 < loaded
    → evaluate u (snapshot now (update_cache s loaded c)) ec log
      ≡ (if leb now (loaded + rule_stale_after) then evaluate u s ec log else (none, log))
unfolding snapshot update_cache
stale_rules_allow u s loaded now c ec log pos = elim (dec_lt (loaded + rule_stale_after) now) [
  | yes old ↦ ground (arith, empty_allows u ec log)
  | no fresh ↦ ground arith
]
