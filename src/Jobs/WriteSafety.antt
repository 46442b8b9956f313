-- ===== src/Jobs/WriteSafety.antt =====
-- core/jobs/write_safety.go: which failures prove that a request was not applied, and the cap on
-- resends after a timeout. A nil error is none.
pub mod Refused
use revenium_go_sdk.Base.{
  ℕ, suc, Bool, true, false, not, ◌&&◌, ◌||◌, List, [], ◌∷◌, Option, none, some, leb, ◌==◌,
  if◌then◌else◌,
}
use revenium_go_sdk.Core.Errors.{Failure, as_revenium, as_net}
use revenium_go_sdk.Resilience.Classify.{ErrorClassification, throttled, classify_http_response}

abbrev is_throttled : ErrorClassification → Bool
is_throttled throttled = true
is_throttled _ = false

unfoldable pub refused_before_applying : Failure → Bool
unfolding as_revenium classify_http_response
refused_before_applying err = elim (as_revenium err) [
  | none ↦ false
  | some e ↦ not (e.status_code == 0) && is_throttled (classify_http_response e.status_code)
]

unfoldable pub may_have_been_applied : Option Failure → Bool
unfolding refused_before_applying
may_have_been_applied none = false
may_have_been_applied (some err) = not (refused_before_applying err)

unfoldable pub any_may_have_been_applied : List (Option Failure) → Bool
unfolding may_have_been_applied
any_may_have_been_applied [] = false
any_may_have_been_applied (e ∷ es) = may_have_been_applied e || any_may_have_been_applied es

unfoldable pub timed_out : Failure → Bool
unfolding as_net
timed_out err = elim (as_net err) [ none ↦ false | some (timeout, text) ↦ timeout ]

-- `timeoutResendPolicy.record`, on the count of timeouts.
unfoldable pub record_timeout : Option Failure → ℕ → ℕ
unfolding timed_out
record_timeout none n = n
record_timeout (some err) n = if timed_out err then suc n else n

unfoldable pub allows_retry : ℕ → Failure → Bool
unfolding timed_out
allows_retry timeouts err = not (timed_out err) || leb timeouts 1

unfoldable pub widens_retry : ℕ → Failure → Bool
unfolding timed_out
widens_retry timeouts err = timed_out err && leb timeouts 1
