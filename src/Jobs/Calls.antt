-- ===== src/Jobs/Calls.antt =====
-- The part of core/jobs/client.go under every job call: what a request's answer becomes, and the
-- retries of reads, of writes that are not safe to repeat, and of outcome reports. What Revenium
-- does is a parameter: a world of the server's, and `post`, which says of the i-th attempt how it is
-- answered and what world it leaves. Marshalling and the building of a URL are left out.
pub mod Sent
pub mod Writes
pub mod Reports
pub mod Conflicts
use revenium_go_sdk.Base.{
  ℕ, suc, Bool, true, false, not, ◌&&◌, ◌||◌, List, [], ◌∷◌, ◌++◌, Option, none, some, leb, ltb,
  ◌==◌, if◌then◌else◌, Text, codes, Unicode,
}
use revenium_go_sdk.Core.Errors.{
  Failure, ReveniumError, revenium, revenium_caused, network_error, metering_error, auth_error,
  as_revenium,
}
use revenium_go_sdk.Resilience.Classify.{response_error}
use revenium_go_sdk.Resilience.Breaker.{Admission, ticket, refused, admit}
use revenium_go_sdk.Resilience.BreakerState.{Breaker}
use revenium_go_sdk.Resilience.Retry.{
  RetryConfig, default_retry_config, Times, CallState, Finished, retries, with_retry_by,
  attempt_through_breaker,
}
use revenium_go_sdk.Resilience.Retry.Rules.{background}
use revenium_go_sdk.Jobs.WriteSafety.{
  refused_before_applying, timed_out, record_timeout, allows_retry, widens_retry,
}

-- How the transport answers: an error of its own, or a status, the wait that the header asked for,
-- the message made from label, status and body, and whether the body can be decoded.
pub data HttpAnswer : Type 0 where
  no_answer : Failure → HttpAnswer
  answered : ℕ → ℕ → Text → Bool → HttpAnswer

-- The errors of NewNetworkError and NewMeteringError have no status and no wait.
abbrev request_failed : Failure → Failure
request_failed cause =
    revenium_caused
      (record {
        kind = network_error;
        message = codes "job request failed";
        status_code = 0;
        retry_after = 0;
      })
      cause

abbrev unreadable_answer : Failure
unreadable_answer = revenium (record {
  kind = metering_error;
  message = codes "failed to parse job API response";
  status_code = 0;
  retry_after = 0;
})

-- The message of a refusal also says which key is wanted, `guidance`.
unfoldable pub as_key_refusal : Text → Failure → Failure
as_key_refusal guidance (revenium e) = revenium (record e {
  kind = auth_error;
  message =
      e.message ++ (codes ". Check that the key is a valid write key for this team: " ++ guidance);
})
as_key_refusal guidance err = err

-- `executeAndParse`; none is success.
unfoldable pub execute_and_parse : Text → HttpAnswer → Option Failure
unfolding as_key_refusal response_error
execute_and_parse guidance (no_answer cause) = some (request_failed cause)
execute_and_parse guidance (answered status wait message readable) =
    if ltb status 200 || leb 300 status
    then if status == 401 || status == 403
      then some (as_key_refusal guidance (response_error message status wait))
      else some (response_error message status wait)
    else if readable
    then none
    else some unreadable_answer

abbrev has_status : ℕ → Failure → Bool
has_status code err = elim (as_revenium err) [ none ↦ false | some e ↦ e.status_code == code ]

unfoldable pub is_conflict_error : Failure → Bool
unfolding as_revenium
is_conflict_error err = has_status 409 err

unfoldable pub is_unprocessable_error : Failure → Bool
unfolding as_revenium
is_unprocessable_error err = has_status 422 err

-- A call under way: its own breaker state, the server's world, the errors of the requests sent, and
-- the count of timeouts.
pub record JobCall (W : Type 0) : Type 0 where
  pub path : CallState
  pub world : W
  pub attempts : List (Option Failure)
  pub timeouts : ℕ

abbrev pub was_sent : Admission → Bool
was_sent (ticket t) = true
was_sent refused = false

-- `callRetryConfig` with the filters of each kind of call.
abbrev pub read_config : RetryConfig → RetryConfig
read_config c = record c { retry_also = some timed_out }

abbrev pub write_config : RetryConfig → RetryConfig
write_config c = record c { retry_only = some refused_before_applying }

abbrev pub report_config : RetryConfig → ℕ → RetryConfig
report_config c timeouts = record c {
  retry_only = some (allows_retry timeouts);
  retry_also = some (widens_retry timeouts);
}

module _ {W : Type 0} where
  abbrev pub begun : Breaker → W → JobCall W
  begun b w = record {
    path = record { breaker = b; last_failure = none };
    world = w;
    attempts = [];
    timeouts = 0;
  }

  abbrev answered_call : Option Failure × CallState → Option Failure × W → JobCall W → JobCall W
  answered_call (err, p) (answer, w) s = record {
    path = p;
    world = w;
    attempts = s.attempts ++ answer ∷ [];
    timeouts = record_timeout answer s.timeouts;
  }

  -- The function that a call sends with: the answers of `serve`, as errors.
  abbrev pub posted : Text → (ℕ → W → HttpAnswer × W) → ℕ → W → Option Failure × W
  posted guidance serve i w = let (a, w') = serve i w in (execute_and_parse guidance a, w')

  -- One attempt through the breaker: the request is sent only if the breaker admits it.
  unfoldable pub attempt :
      (ℕ → Times) → (ℕ → W → Option Failure × W) → ℕ → JobCall W → Option Failure × JobCall W
  unfolding attempt_through_breaker admit record_timeout
  attempt times post i s =
      let result = attempt_through_breaker times (λ j. (post i s.world).0) i s.path in
      if was_sent (admit (times i).admitted_at s.path.breaker).0
      then (result.0, answered_call result (post i s.world) s)
      else (result.0, record s { path = result.1 })

  module _ (u : Unicode) (c : RetryConfig) (jitter : ℕ → ℕ → ℕ) (times : ℕ → Times)
      (post : ℕ → W → Option Failure × W) where
    abbrev pub do_read_safe_to_repeat : Breaker → W → Finished (JobCall W)
    do_read_safe_to_repeat b w =
        with_retry_by u c (λ s. retries u (read_config c)) (background jitter) (attempt times post)
          (begun b w)

    abbrev pub do_write_not_safe_to_repeat : Breaker → W → Finished (JobCall W)
    do_write_not_safe_to_repeat b w =
        with_retry_by u c (λ s. retries u (write_config c)) (background jitter) (attempt times post)
          (begun b w)

    -- `doRetrying`, whose filters ask the policy's count.
    abbrev pub do_retrying : Breaker → W → Finished (JobCall W)
    do_retrying b w =
        with_retry_by u c (λ s. retries u (report_config c s.timeouts)) (background jitter)
          (attempt times post) (begun b w)
