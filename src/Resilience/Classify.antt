-- ===== src/Resilience/Classify.antt =====
-- core/resilience/error_handler.go, failure_strategy.go and the classification half of
-- retry_after.go. The case mapping of strings.ToLower is the parameter `u`.
pub mod Answers
use revenium_go_sdk.Base.{
  ℕ, Bool, true, false, ◌&&◌, ◌||◌, not, List, [], ◌∷◌, Option, none, some, Text, codes, Unicode,
  contains, contains_any, leb, ltb, ◌==◌, if◌then◌else◌,
}
use revenium_go_sdk.Core.Errors.{
  Failure, revenium, ErrorType, network_error, metering_error, validation_error, error_text,
  as_revenium, as_net, is_circuit_open, is_context_error, is_config_error, is_auth_error,
  is_network_error, is_metering_error, is_validation_error,
}

pub data ErrorClassification : Type 0 where
  retryable non_retryable throttled : ErrorClassification

unfoldable pub classify_http_response : ℕ → ErrorClassification
classify_http_response status =
    if leb 200 status && ltb status 300
    then non_retryable
    else if status == 408
    then retryable
    else if status == 429
    then throttled
    else if leb 500 status
    then retryable
    else non_retryable

abbrev pub is_retryable : ErrorClassification → Bool
is_retryable retryable = true
is_retryable throttled = true
is_retryable non_retryable = false

abbrev raw_network_patterns : List Text
raw_network_patterns =
    codes "timeout"
    ∷ codes "connection refused"
    ∷ codes "connection reset"
    ∷ codes "no such host"
    ∷ codes "econnreset"
    ∷ codes "econnrefused"
    ∷ []

abbrev throttling_patterns : List Text
throttling_patterns =
    codes "rate limit"
    ∷ codes "rate_limit"
    ∷ codes "overloaded"
    ∷ codes "throttl"
    ∷ codes "too many requests"
    ∷ []

unfoldable pub is_http_client_timeout : Failure → Bool
unfolding as_net contains
is_http_client_timeout err = elim (as_net err) [
  | none ↦ false
  | some (timeout, text) ↦ timeout && contains text (codes "Client.Timeout")
]

module _ (u : Unicode) where
  unfoldable pub is_raw_network_error : Failure → Bool
  unfolding as_net contains_any error_text
  is_raw_network_error err = elim (as_net err) [
    | some n ↦ true
    | none ↦ contains_any (u.lower (error_text err)) raw_network_patterns
  ]

  unfoldable pub is_throttling_error : Failure → Bool
  unfolding contains_any error_text
  is_throttling_error err = contains_any (u.lower (error_text err)) throttling_patterns

  -- The tests after the one for a ReveniumError with a status.
  unfoldable pub classify_by_type : Failure → ErrorClassification
  unfolding is_raw_network_error is_throttling_error
  classify_by_type err =
      if is_throttling_error err
      then throttled
      else if is_validation_error err || (is_config_error err || is_auth_error err)
      then non_retryable
      else if is_network_error err || is_metering_error err
      then retryable
      else if is_raw_network_error err
      then retryable
      else non_retryable

  -- `ClassifyError` of an error that is not nil.
  unfoldable pub classify_error : Failure → ErrorClassification
  unfolding classify_by_type classify_http_response is_circuit_open is_context_error as_revenium
      is_http_client_timeout
  classify_error err =
      if is_circuit_open err || (is_context_error err || is_http_client_timeout err)
      then non_retryable
      else (elim (as_revenium err) [
        | none ↦ classify_by_type err
        | some e ↦
            if not (e.status_code == 0)
            then classify_http_response e.status_code
            else classify_by_type err
      ])

  -- `DefaultFailureStrategy.IsRetryableError`.
  abbrev pub is_retryable_error : Failure → Bool
  is_retryable_error err = is_retryable (classify_error err)

  -- `isBufferable` of core/metering/client.go, of an error that is not nil.
  unfoldable pub is_bufferable : Failure → Bool
  unfolding classify_error
  is_bufferable err = if is_circuit_open err then true else is_retryable (classify_error err)

-- `RetryAfterOf`, which is 0 for nil.
unfoldable pub retry_after_of : Option Failure → ℕ
unfolding as_revenium
retry_after_of none = 0
retry_after_of (some err) = elim (as_revenium err) [ none ↦ 0 | some e ↦ e.retry_after ]

abbrev response_kind : ErrorClassification → ErrorType
response_kind throttled = network_error
response_kind retryable = metering_error
response_kind non_retryable = validation_error

-- `ResponseError`: the message and the wait that the answer's header asked for are given.
unfoldable pub response_error : Text → ℕ → ℕ → Failure
unfolding classify_http_response
response_error message status wait = revenium (record {
  kind = response_kind (classify_http_response status);
  message = message;
  status_code = status;
  retry_after = wait;
})
