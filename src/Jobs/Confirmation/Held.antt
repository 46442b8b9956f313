-- ===== src/Jobs/Confirmation/Held.antt =====
-- The read-back of report_confirmation.go, set beside Spec.
use revenium_go_sdk.Jobs.Confirmation.Spec.{
  HoldsValue, InCurrency, HoldsName, HoldsReason, SameText, HoldsMetadata, Holds, ShownReporter,
}
use revenium_go_sdk.Base.{
  ℕ, ◌≡◌, ◌≢◌, ◌↔◌, ◌⊎◌, subst, inl, inr, refl, sym, Bool, true, false, not, ◌&&◌, ◌||◌, Option,
  none, some, arith, if◌then◌else◌, Text, text_eq_refl, text_eq_sound, is_empty, trim_space,
  Unicode, codes, List, [], ◌∷◌,
}
use mathlib.Core.Option.{some-injective}
use revenium_go_sdk.Jobs.Outcome.{
  Decimal, JobOutcome, JobResource, same_outcome_value, same_stored, stored_units,
}
use revenium_go_sdk.Jobs.Outcome.Json.{Json}
use revenium_go_sdk.Jobs.Outcome.Json.Same.{json_iff}
use revenium_go_sdk.Jobs.Outcome.Rounding.{nearest_is_stored, stored-IsNearest}
use revenium_go_sdk.Jobs.Confirmation.{
  same_texts, is_none, is_zero_count, stored_currency_for, same_enum, same_outcome_reason,
  same_metadata, stores_report_unamended, job_storing_report, history_shows_only_report_by,
}

value_held : (v w : Option Decimal) → (same_outcome_value v w ≡ true) ↔ HoldsValue v w
unfolding same_outcome_value same_stored
value_held none none = ground arith
value_held none (some e) = ground arith
value_held (some d) none = ground arith
value_held (some d) (some e) = (
  λ h. (stored_units d, stored-IsNearest d, ground arith, ground arith),
  λ (n, near, size, sign). let q = nearest_is_stored n d near in ground arith,
)

blank_cases {ℓ} :
    {A : Type ℓ} (s : List A) → ((is_empty s ≡ true) × (s ≡ [])) ⊎ ((is_empty s ≡ false) × (s ≢ []))
blank_cases [] = inl (refl, refl)
blank_cases (c ∷ s) = inr (refl, ground arith)

module _ (u : Unicode) (decode : Text → Option Json) where
  name_held :
      (s : Text) (o : Option Text) → (same_enum u decode s o ≡ true) ↔ HoldsName u decode s o
  unfolding same_enum
  name_held [] none = ground arith
  name_held [] (some []) = ground arith
  name_held [] (some (x ∷ t)) = ground arith
  name_held (c ∷ s) none = ground arith
  name_held (c ∷ s) (some t) = (λ h. (t, refl, ground arith), λ (r, e, h). ground arith)

  reason_held :
      (s : Text) (o : Option Text)
      → (same_outcome_reason u decode s o ≡ true) ↔ HoldsReason u decode s o
  unfolding same_outcome_reason
  reason_held s none = elim (blank_cases (trim_space u s)) [
    | inl e ↦ ground arith
    | inr e ↦ ground arith
  ]
  reason_held s (some t) = elim (blank_cases (trim_space u s)) [
    | inl e ↦ ground arith
    | inr e ↦ ground (arith, text_eq_sound t s, text_eq_refl s)
  ]

  texts_held :
      (v w : Option Json) (s t : Text)
      → (same_texts u decode v w s t ≡ true) ↔ SameText u decode v w s t
  texts_held (some v) (some w) s t = json_iff v w
  texts_held none w s t = ground (arith, text_eq_sound s t, text_eq_refl s)
  texts_held (some v) none s t = ground (arith, text_eq_sound s t, text_eq_refl s)

  metadata_held :
      (s : Text) (o : Option Text)
      → (same_metadata u decode s o ≡ true) ↔ HoldsMetadata u decode s o
  unfolding same_metadata
  metadata_held [] none = ground arith
  metadata_held [] (some t) = ground arith
  metadata_held (c ∷ s) none = ground arith
  metadata_held (c ∷ s) (some t) =
      let (there, back) = texts_held (decode (c ∷ s)) (decode t) (c ∷ s) t in
      (
        λ h. (t, refl, there h),
        λ (r, e, h). back (
            subst (λ x. SameText u decode (decode (c ∷ s)) (decode x) (c ∷ s) x)
              (sym (some-injective t r e)) h),
      )

currency_of :
    (v : Option Decimal) (named kept : Text)
    → InCurrency v named kept
      ↔ (kept ≡ (if is_none v then [] else if is_empty named then codes "USD" else named))
currency_of none named kept = ground arith
currency_of (some d) [] kept = ground arith
currency_of (some d) (c ∷ named) kept = ground arith

reporter_shown :
    (reporter : Text) (history : Option (List (Option Text)))
    → (not (is_empty reporter) && not (history_shows_only_report_by reporter history) ≡ false)
      ↔ ShownReporter reporter history
unfolding history_shows_only_report_by
reporter_shown [] h = ground arith
reporter_shown (c ∷ r) none = ground arith
reporter_shown (c ∷ r) (some []) = ground arith
reporter_shown (c ∷ r) (some (none ∷ l)) = ground arith
reporter_shown (c ∷ r) (some (some n ∷ e ∷ l)) = ground arith
reporter_shown (c ∷ r) (some (some n ∷ [])) =
    ground (arith, text_eq_sound n (c ∷ r), text_eq_refl (c ∷ r))

nothing_in {ℓ} : {A : Type ℓ} (s : List A) → is_empty s ≡ true → s ≡ []
nothing_in [] h = refl
nothing_in (c ∷ s) h = ground arith

-- A value that two tests let through.
kept_iff {ℓ} :
    {A : Type ℓ} (a b c : Bool) (j f : A)
    → ((if not a || not b then none else if c then none else some j) ≡ some f)
      ↔ ((some j ≡ some f) × (a ≡ true) × (b ≡ true) × (c ≡ false))
kept_iff false b c j f = ground arith
kept_iff true false c j f = ground arith
kept_iff true true false j f = ground arith
kept_iff true true true j f = ground arith

zero_count : (o : Option ℕ) → (is_zero_count o ≡ true) ↔ (o ≡ some 0)
zero_count none = ground arith
zero_count (some n) = ground arith

module _ (u : Unicode) (decode : Text → Option Json) where
  held_of_stored :
      (job : JobResource) (sent : JobOutcome)
      → stores_report_unamended u decode job sent ≡ true
      → Holds u decode job sent
  unfolding stores_report_unamended stored_currency_for
  held_of_stored job sent h =
      let status = name_held u decode sent.execution_status job.stored_status in
      let type = name_held u decode sent.outcome_type job.stored_type in
      let currency = name_held u decode (stored_currency_for sent) job.stored_currency in
      let reason = reason_held u decode sent.outcome_reason job.stored_reason in
      let value = value_held sent.outcome_value job.stored_value in
      let metadata = metadata_held u decode sent.metadata job.stored_metadata in
      let count = zero_count job.amendment_count in
      record {
        reported = ground arith;
        unamended = count.0 (ground arith);
        status = status.0 (ground arith);
        type = type.0 (ground arith);
        currency = (
          stored_currency_for sent,
          (currency_of sent.outcome_value sent.outcome_currency (stored_currency_for sent)).1 refl,
          currency.0 (ground arith),
        );
        reason = reason.0 (ground arith);
        value = value.0 (ground arith);
        metadata = metadata.0 (ground arith);
      }

  stored_of_held :
      (job : JobResource) (sent : JobOutcome)
      → Holds u decode job sent
      → stores_report_unamended u decode job sent ≡ true
  unfolding stores_report_unamended stored_currency_for
  stored_of_held job sent h =
      let (kept, is_kept, named) = h.currency in
      let same = (currency_of sent.outcome_value sent.outcome_currency kept).0 is_kept in
      let a = (zero_count job.amendment_count).1 h.unamended in
      let s = (name_held u decode sent.execution_status job.stored_status).1 h.status in
      let t = (name_held u decode sent.outcome_type job.stored_type).1 h.type in
      let k = (name_held u decode kept job.stored_currency).1 named in
      let k2 : same_enum u decode (stored_currency_for sent) job.stored_currency ≡ true =
        subst (λ x. same_enum u decode x job.stored_currency ≡ true) same k in
      let r = (reason_held u decode sent.outcome_reason job.stored_reason).1 h.reason in
      let v = (value_held sent.outcome_value job.stored_value).1 h.value in
      let m = (metadata_held u decode sent.metadata job.stored_metadata).1 h.metadata in
      let q = h.reported in ground arith

  pub report_held_iff :
      (job : JobResource) (sent : JobOutcome)
      → (stores_report_unamended u decode job sent ≡ true) ↔ Holds u decode job sent
  report_held_iff job sent = (held_of_stored job sent, stored_of_held job sent)

  pub stored_iff :
      (job : Option JobResource) (history : Option (List (Option Text))) (sent : JobOutcome)
      (found : JobResource)
      → (job_storing_report u decode job history sent ≡ some found) ↔ (
          (job ≡ some found)
          × (sent.metrics ≡ [])
          × Holds u decode found sent
          × ShownReporter sent.reported_by history)
  unfolding job_storing_report
  stored_iff none history sent found = ground arith
  stored_iff (some job) history sent found =
      let (there, back) = report_held_iff job sent in
      let (shown, shown_back) = reporter_shown sent.reported_by history in
      (
        λ h.
            let (e, m, st, r) =
              (kept_iff (is_empty sent.metrics) (stores_report_unamended u decode job sent)
                  (not (is_empty sent.reported_by)
                    && not (history_shows_only_report_by sent.reported_by history))
                  job found).0
                h in
            (
              e,
              nothing_in sent.metrics m,
              subst (λ x. Holds u decode x sent) (some-injective job found e) (there st),
              shown r,
            ),
        λ (e, m, hs, r).
            (kept_iff (is_empty sent.metrics) (stores_report_unamended u decode job sent)
                (not (is_empty sent.reported_by)
                  && not (history_shows_only_report_by sent.reported_by history))
                job found).1
              (
                e,
                ground arith,
                back (subst (λ x. Holds u decode x sent) (sym (some-injective job found e)) hs),
                shown_back r,
              ),
      )
