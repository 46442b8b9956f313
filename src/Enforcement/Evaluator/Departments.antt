-- ===== src/Enforcement/Evaluator/Departments.antt =====
-- The server's department verdict for the caller.
use revenium_go_sdk.Base.{
  ◌≡◌, refl, ◌∙◌, ℤ, pos, negsuc, int_eq, Bool, true, false, List, [], ◌∷◌, ◌++◌, Unicode, arith,
  Text, codes, text_eq_refl, none, some, ◌⊎◌, inl, inr,
}
use revenium_go_sdk.Enforcement.Context.{EvalContext, normalize_email, case_folded_context}
use revenium_go_sdk.Enforcement.Evaluator.{
  candidate_covers, candidate_verdict, missing_rule_error, balance_or, department_budget_verdict,
  department_candidate_verdict, department_block, evaluate,
}
use revenium_go_sdk.Enforcement.RuleSet.{
  RuleSet, DepartmentCandidate, CandidateTier, block_tier, warn_tier, CostLimitExceeded,
  NearLimitLog, rule_by_id, entry, warn_near_limit_once, format_int,
}

module _ (u : Unicode) (s : RuleSet) (ec : EvalContext) where
  -- A candidate cap covers the call, as the server counted it.
  abbrev pub applies : DepartmentCandidate → Bool
  applies c = candidate_covers u (rule_by_id s.rules c.candidate_rule) (case_folded_context u ec)

  abbrev pub NoneApply : List DepartmentCandidate → Type 0
  NoneApply [] = Unit {0}
  NoneApply (c ∷ cs) = (applies c ≡ false) × NoneApply cs

  abbrev pub email : Text
  email = normalize_email u ec.subscriber_email

  skipped_candidates :
      (before rest : List DepartmentCandidate) (log : NearLimitLog)
      → NoneApply before
      → department_candidate_verdict u s (before ++ rest) ec log
        ≡ department_candidate_verdict u s rest ec log
  unfolding department_candidate_verdict
  skipped_candidates [] rest log h = refl
  skipped_candidates (c ∷ before) rest log h =
      ground (arith, skipped_candidates before rest log h.1)

  no_candidate :
      (cs : List DepartmentCandidate) (log : NearLimitLog)
      → NoneApply cs
      → department_candidate_verdict u s cs ec log ≡ (none, log)
  unfolding department_candidate_verdict
  no_candidate [] log h = refl
  no_candidate (c ∷ cs) log h = ground (arith, no_candidate cs log h.1)

  deciding_candidate :
      (c : DepartmentCandidate) (after : List DepartmentCandidate) (log : NearLimitLog)
      → applies c ≡ true
      → department_candidate_verdict u s (c ∷ after) ec log ≡ candidate_verdict u s c.tier c ec log
  unfolding department_candidate_verdict
  deciding_candidate c after log a = ground arith

  -- Where the server lists candidate caps for the caller and none of them covers the call, the
  -- department verdict allows it, whatever the single slot says.
  pub uncovered_call_allowed :
      (cs : List DepartmentCandidate) (log : NearLimitLog)
      → entry email s.department_candidates ≡ some cs
      → NoneApply cs
      → department_block u s ec log ≡ (none, log)
  unfolding department_block
  uncovered_call_allowed cs log e h = rw (e, department_block) (no_candidate cs log h)

  -- Otherwise the first candidate that covers the call decides alone: one over its cap gives that
  -- rule's verdict, and one near its cap allows the call and notes the warning.
  pub first_candidate_decides :
      (before after : List DepartmentCandidate) (c : DepartmentCandidate) (log : NearLimitLog)
      → entry email s.department_candidates ≡ some (before ++ c ∷ after)
      → NoneApply before
      → applies c ≡ true
      → ((c.tier ≡ block_tier)
          × (department_block u s ec log
              ≡ (department_budget_verdict u s c.candidate_rule c.balance ec, log)))
        ⊎ ((c.tier ≡ warn_tier)
            × (department_block u s ec log
                ≡ (none, warn_near_limit_once email c.candidate_rule log)))
  unfolding department_block
  first_candidate_decides before after c log e h a = by_tier c.tier refl
    where
      decided : department_block u s ec log ≡ candidate_verdict u s c.tier c ec log
      decided =
          rw (e, department_block)
            (skipped_candidates before (c ∷ after) log h ∙ deciding_candidate c after log a)

      by_tier :
          (t : CandidateTier)
          → c.tier ≡ t
          → ((c.tier ≡ block_tier)
              × (department_block u s ec log
                  ≡ (department_budget_verdict u s c.candidate_rule c.balance ec, log)))
            ⊎ ((c.tier ≡ warn_tier)
                × (department_block u s ec log
                    ≡ (none, warn_near_limit_once email c.candidate_rule log)))
      by_tier block_tier t = inl (t, decided ∙ rw t refl)
      by_tier warn_tier t = inr (t, decided ∙ rw t refl)

  -- With no candidates listed, a slot blocks by the server's word: also where its rule is missing from
  -- the payload, with the balance that the server gives, or 0 if it gives none.
  pub missing_rule_still_blocks :
      (id : ℤ) (log : NearLimitLog)
      → entry email s.department_candidates ≡ none
      → entry email s.department_blocks ≡ some id
      → rule_by_id s.rules id ≡ none
      → (err : CostLimitExceeded) × (evaluate u s ec log ≡ (some err, log))
        × (err.rule_id ≡ format_int id)
        × (err.rule_name ≡ codes "Department budget")
        × (err.current_value ≡ balance_or (entry email s.department_balances) 0)
  unfolding evaluate department_block department_budget_verdict
  missing_rule_still_blocks id log c b m = (
    missing_rule_error u id (entry email s.department_balances) ec,
    rw (c, b, m, evaluate, department_block, department_budget_verdict) refl,
    refl,
    refl,
    refl,
  )

-- The near-limit line is logged once for an email and a rule.
int_eq_refl : (i : ℤ) → int_eq i i ≡ true
int_eq_refl (pos n) = ground arith
int_eq_refl (negsuc n) = ground arith

pub warn_once :
    (email : Text) (id : ℤ) (log : NearLimitLog)
    → warn_near_limit_once email id (warn_near_limit_once email id log)
      ≡ warn_near_limit_once email id log
unfolding warn_near_limit_once
warn_once email id none = refl
warn_once email id (some seen) = ground (arith, text_eq_refl email, int_eq_refl id)
