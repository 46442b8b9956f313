-- ===== src/Jobs/Confirmation/Spec.antt =====
-- When a job of Revenium's has the outcome that a report sent, field by field.
use revenium_go_sdk.Base.{
  ℕ, ◌*◌, ◌^◌, ◌≡◌, ◌≢◌, ◌⊎◌, true, Option, none, some, Text, trim_space, Unicode, codes, List, [],
  ◌∷◌,
}
use revenium_go_sdk.Jobs.Outcome.{Decimal, JobOutcome, JobResource}
use revenium_go_sdk.Jobs.Outcome.Json.{Json}
use revenium_go_sdk.Jobs.Outcome.Json.Same.{SameValue}
use revenium_go_sdk.Jobs.Outcome.Rounding.{IsNearest}

-- The stored value is the one that was sent, rounded to ten places; both or neither are there.
abbrev pub HoldsValue : Option Decimal → Option Decimal → Type 0
HoldsValue none none = Unit {0}
HoldsValue (some sent) (some stored) =
    (n : ℕ) × IsNearest n sent
    × (stored.digits * 10 ^ 10 ≡ n * 10 ^ stored.places)
    × ((n ≡ 0) ⊎ (sent.negative ≡ stored.negative))
HoldsValue _ _ = ⊥

-- The currency that a value is in: none without a value, and dollars if none is named.
abbrev pub InCurrency : Option Decimal → Text → Text → Type 0
InCurrency none named kept = kept ≡ []
InCurrency (some d) [] kept = kept ≡ codes "USD"
InCurrency (some d) (c ∷ named) kept = kept ≡ c ∷ named

-- The two conditions on the reporter: it was not named, or the history shows its report alone.
abbrev pub ShownReporter : Text → Option (List (Option Text)) → Type 0
ShownReporter reporter history = (reporter ≡ []) ⊎ (history ≡ some (some reporter ∷ []))

module _ (u : Unicode) (decode : Text → Option Json) where
  -- An empty name is stored as nothing, another up to letter case.
  abbrev pub HoldsName : Text → Option Text → Type 0
  HoldsName [] stored = (stored ≡ none) ⊎ (stored ≡ some [])
  HoldsName (c ∷ sent) stored = (s : Text) × (stored ≡ some s) × (u.equal_fold s (c ∷ sent) ≡ true)

  -- A blank reason is not stored, another as it was sent.
  abbrev pub HoldsReason : Text → Option Text → Type 0
  HoldsReason sent stored =
      ((trim_space u sent ≡ []) × (stored ≡ none))
      ⊎ ((trim_space u sent ≢ []) × (stored ≡ some sent))

  -- Two texts with the same JSON value, or two equal texts of which one is not JSON.
  abbrev pub SameText : Option Json → Option Json → Text → Text → Type 0
  SameText (some v) (some w) sent stored = SameValue v w
  SameText _ _ sent stored = sent ≡ stored

  -- Empty metadata is not stored.
  abbrev pub HoldsMetadata : Text → Option Text → Type 0
  HoldsMetadata [] stored = stored ≡ none
  HoldsMetadata (c ∷ sent) stored =
      (t : Text) × (stored ≡ some t) × SameText (decode (c ∷ sent)) (decode t) (c ∷ sent) t

  -- The job has the outcome that was sent, and nobody amended it.
  pub record Holds (job : JobResource) (sent : JobOutcome) : Type 0 where
    pub reported : job.has_outcome ≡ true
    pub unamended : job.amendment_count ≡ some 0
    pub status : HoldsName sent.execution_status job.stored_status
    pub type : HoldsName sent.outcome_type job.stored_type
    pub currency :
        (kept : Text) × InCurrency sent.outcome_value sent.outcome_currency kept
        × HoldsName kept job.stored_currency
    pub reason : HoldsReason sent.outcome_reason job.stored_reason
    pub value : HoldsValue sent.outcome_value job.stored_value
    pub metadata : HoldsMetadata sent.metadata job.stored_metadata
