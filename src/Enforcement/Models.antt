-- ===== src/Enforcement/Models.antt =====
-- core/enforcement/model_match.go: model names with snapshot dates. A set of names is a list; it is
-- only asked whether some member passes a test.
use revenium_go_sdk.Base.{
  ℕ, Bool, true, false, ◌&&◌, ◌||◌, List, [], ◌∷◌, ◌++◌, map, Option, none, some, Text, codes,
  text_eq, has_suffix, is_empty, leb, ◌==◌, if◌then◌else◌, length, take, drop, ◌-◌,
}
use revenium_go_sdk.Enforcement.Rule.{Operator, is, one_of}

abbrev is_digit : ℕ → Bool
is_digit c = leb 48 c && leb c 57

abbrev all_digits : Text → Bool
all_digits [] = true
all_digits (c ∷ s) = is_digit c && all_digits s

-- One of \d{4}-\d{2}-\d{2}, \d{8} and \d{4}, and nothing more.
unfoldable pub is_snapshot : Text → Bool
is_snapshot (y1 ∷ y2 ∷ y3 ∷ y4 ∷ d1 ∷ m1 ∷ m2 ∷ d2 ∷ t1 ∷ t2 ∷ []) =
    all_digits (y1 ∷ y2 ∷ y3 ∷ y4 ∷ m1 ∷ m2 ∷ t1 ∷ t2 ∷ []) && (d1 == b'-' && d2 == b'-')
is_snapshot s = all_digits s && (length s == 4 || length s == 8)

-- A snapshot of n characters at the front, before a dash or the end.
abbrev ends_or_dash : Text → Bool
ends_or_dash [] = true
ends_or_dash (c ∷ s) = c == b'-'

abbrev snapshot_of : ℕ → Text → Bool
snapshot_of n s = is_snapshot (take n s) && ends_or_dash (drop n s)

-- `-snapshot(?:-|$)` anywhere.
unfoldable pub carries_snapshot : Text → Bool
unfolding is_snapshot
carries_snapshot [] = false
carries_snapshot (c ∷ s) =
    (c == b'-' && (snapshot_of 10 s || (snapshot_of 8 s || snapshot_of 4 s))) || carries_snapshot s

-- `-snapshot$`: the text that matches, which is empty if none does.
unfoldable pub snapshot_tail : Text → Text
unfolding is_snapshot
snapshot_tail [] = []
snapshot_tail (c ∷ s) = if c == b'-' && is_snapshot s then c ∷ s else snapshot_tail s

-- `@snapshot$` with the @ replaced by a dash.
unfoldable pub dash_dated : Text → Text
unfolding is_snapshot
dash_dated [] = []
dash_dated (c ∷ s) = if c == b'@' && is_snapshot s then b'-' ∷ s else c ∷ dash_dated s

-- strings.Cut(model, "/"): what follows the first slash.
unfoldable pub unrouted : Text → Option Text
unrouted [] = none
unrouted (c ∷ s) = if c == b'/' then some s else unrouted s

abbrev latest_suffix : Text
latest_suffix = codes "-latest"

abbrev without_latest : List Text → List Text
without_latest [] = []
without_latest (n ∷ ns) =
    if has_suffix n latest_suffix
    then take (length n - length latest_suffix) n ∷ without_latest ns
    else without_latest ns

abbrev optional : Option Text → List Text
optional none = []
optional (some s) = s ∷ []

abbrev plus : List Text → (List Text → List Text) → List Text
plus ns f = ns ++ f ns

unfoldable pub metered_model_forms : Text → List Text
unfolding unrouted dash_dated has_suffix
metered_model_forms m = plus (plus (m ∷ optional (unrouted m)) (map dash_dated)) without_latest

abbrev with_tails : Text → List Text → List Text
with_tails form [] = []
with_tails form (v ∷ vs) =
    if is_empty (snapshot_tail v)
    then with_tails form vs
    else (form ++ snapshot_tail v) ∷ with_tails form vs

abbrev dated_forms : List Text → List Text → List Text
dated_forms expected [] = []
dated_forms expected (form ∷ forms) =
    (if carries_snapshot form then [] else with_tails form expected) ++ dated_forms expected forms

unfoldable pub metered_model_candidates : Text → List Text → List Text
unfolding metered_model_forms carries_snapshot snapshot_tail
metered_model_candidates m expected = plus (metered_model_forms m) (dated_forms expected)

abbrev pub any_value : List Text → (Text → Bool) → Bool
any_value [] p = false
any_value (v ∷ vs) p = p v || any_value vs p

abbrev same_texts : List Text → List Text → Bool
same_texts [] [] = true
same_texts (a ∷ as') (b ∷ bs) = text_eq a b && same_texts as' bs
same_texts _ _ = false

abbrev spellings : List Text → List (List Text)
spellings expected =
    if same_texts (map dash_dated expected) expected
    then expected ∷ []
    else expected ∷ map dash_dated expected ∷ []

unfoldable pub filter_spellings : Operator → List Text → List (List Text)
unfolding dash_dated
filter_spellings is expected = spellings expected
filter_spellings one_of expected = spellings expected
filter_spellings _ expected = expected ∷ []

abbrev pub first_text : List Text → Text
first_text [] = []
first_text (v ∷ vs) = v
