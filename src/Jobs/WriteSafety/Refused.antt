-- ===== src/Jobs/WriteSafety/Refused.antt =====
-- The requests that were certainly not applied.
use revenium_go_sdk.Base.{
  ℕ, ◌≡◌, ◌↔◌, ◌==◌, Bool, true, false, not, ◌&&◌, ◌||◌, List, [], ◌∷◌, Option, none, some, arith,
  sym, refl, subst,
}
use mathlib.Core.Option.{some-injective}
use revenium_go_sdk.Core.Errors.{Failure, ReveniumError, as_revenium}
use revenium_go_sdk.Resilience.Classify.{classify_http_response}
use revenium_go_sdk.Jobs.WriteSafety.{
  any_may_have_been_applied, may_have_been_applied, refused_before_applying, is_throttled,
}

-- A failure whose HTTP status is 429.
abbrev pub RefusedWith429 : Failure → Type 0
RefusedWith429 err = (e : ReveniumError) × (as_revenium err ≡ some e) × (e.status_code ≡ 429)

-- Each of these requests succeeded or was refused with a 429.
abbrev pub AllRefused : List (Option Failure) → Type 0
AllRefused [] = Unit {0}
AllRefused (none ∷ es) = AllRefused es
AllRefused (some err ∷ es) = RefusedWith429 err × AllRefused es

status_429 : (n : ℕ) → (not (n == 0) && is_throttled (classify_http_response n) ≡ true) ↔ (n ≡ 429)
unfolding classify_http_response
status_429 n = ground arith

refused_of :
    (o : Option ReveniumError)
    → ((elim o [
      | none ↦ false
      | some e ↦ not (e.status_code == 0) && is_throttled (classify_http_response e.status_code)
    ])
        ≡ true)
      ↔ ((e : ReveniumError) × (o ≡ some e) × (e.status_code ≡ 429))
refused_of none = (λ h. absurd (ground arith), λ (e, x, y). absurd (ground arith))
refused_of (some e) = (
  λ h. (e, refl, (status_429 e.status_code).0 h),
  λ (d, x, y).
      (status_429 e.status_code).1
        (subst (λ z. z.status_code ≡ 429) (sym (some-injective e d x)) y),
)

all_refused_step : (a b : Bool) → (not a || b ≡ false) ↔ ((a ≡ true) × (b ≡ false))
all_refused_step a b = ground arith

pub AllRefused-iff :
    (es : List (Option Failure)) → (any_may_have_been_applied es ≡ false) ↔ AllRefused es
unfolding any_may_have_been_applied may_have_been_applied refused_before_applying
AllRefused-iff [] = ground arith
AllRefused-iff (none ∷ es) = AllRefused-iff es
AllRefused-iff (some err ∷ es) =
    let (a, b) = AllRefused-iff es in
    let (c, d) = refused_of (as_revenium err) in
    let (p, q) = all_refused_step (refused_before_applying err) (any_may_have_been_applied es) in
    (λ h. let (x, y) = p h in (c x, a y), λ (x, y). q (d x, b y))
