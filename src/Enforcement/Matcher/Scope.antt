-- ===== src/Enforcement/Matcher/Scope.antt =====
-- What a list of filters covers.
use revenium_go_sdk.Base.{◌≡◌, refl, true, false, ◌&&◌, List, [], ◌∷◌, ◌++◌, Unicode, arith, Text}
use revenium_go_sdk.Enforcement.Rule.{Filter, is}
use revenium_go_sdk.Enforcement.Context.{EvalContext}
use revenium_go_sdk.Enforcement.Matcher.{covers, matches, evaluable, compare, model_matches}

-- A rule's scope is the conjunction of its filters: two lists of filters together cover just the
-- requests that each of them covers.
pub covers-append :
    (u : Unicode) (fs gs : List Filter) (ec : EvalContext)
    → covers u (fs ++ gs) ec ≡ (covers u fs ec && covers u gs ec)
unfolding covers
covers-append u [] gs ec = refl
covers-append u (f ∷ fs) gs ec = ground (arith, covers-append u fs gs ec)

-- A filter that the SDK cannot judge, wherever it stands, keeps its rule from covering any request:
-- the rule is left to the platform and never widened.
pub unknown_never_covers :
    (u : Unicode) (fs gs : List Filter) (f : Filter) (ec : EvalContext)
    → evaluable ec f ≡ false
    → covers u (fs ++ f ∷ gs) ec ≡ false
unfolding covers matches
unknown_never_covers u [] gs f ec h = ground arith
unknown_never_covers u (x ∷ fs) gs f ec h = ground (arith, unknown_never_covers u fs gs f ec h)

-- Marking a call as one whose served model may be dated never makes an IS filter on the requested
-- model miss it.
pub dated_keeps_exact : (m v : Text) → compare m is v ≡ true → model_matches m is (v ∷ []) ≡ true
unfolding model_matches
dated_keeps_exact m v h = ground arith
