-- ===== src/Core/Errors.antt =====
-- core/errors.go, with the errors of core/resilience/errors.go and of the standard library that it
-- meets. An `error` value that is not nil is a `Failure`; nil is `none` of `Option Failure`.
use revenium_go_sdk.Base.{
  ℕ, Bool, true, false, Option, none, some, ◌++◌, Text, codes, decimal, leb, ltb, ◌&&◌,
}

pub data ErrorType : Type 0 where
  config_error metering_error provider_error auth_error : ErrorType
  network_error streaming_error validation_error internal_error : ErrorType

-- The fields of a ReveniumError that code reads; `Details` is for display only.
pub record ReveniumError : Type 0 where
  pub kind : ErrorType
  pub message : Text
  pub status_code : ℕ
  pub retry_after : ℕ

pub data Failure : Type 0 where
  -- resilience.ErrCircuitOpen
  circuit_open : Failure
  -- resilience.circuitOpenError
  circuit_open_after : Failure → Failure
  -- context.Canceled and context.DeadlineExceeded
  canceled deadline_exceeded : Failure
  -- *core.ReveniumError without and with an underlying error
  revenium : ReveniumError → Failure
  revenium_caused : ReveniumError → Failure → Failure
  -- a net.Error: its Timeout() and its text
  net : Bool → Text → Failure
  -- fmt.Errorf("failed after %d retries: %w", n, cause)
  retries_exhausted : ℕ → Failure → Failure
  -- any other error, by its text
  plain : Text → Failure

abbrev pub type_name : ErrorType → Text
type_name config_error = codes "CONFIG_ERROR"
type_name metering_error = codes "METERING_ERROR"
type_name provider_error = codes "PROVIDER_ERROR"
type_name auth_error = codes "AUTH_ERROR"
type_name network_error = codes "NETWORK_ERROR"
type_name streaming_error = codes "STREAMING_ERROR"
type_name validation_error = codes "VALIDATION_ERROR"
type_name internal_error = codes "INTERNAL_ERROR"

abbrev labelled : ReveniumError → Text
labelled e = codes "[" ++ (type_name e.kind ++ (codes "] " ++ e.message))

-- err.Error().
unfoldable pub error_text : Failure → Text
unfolding decimal
error_text circuit_open = codes "circuit breaker is open"
error_text (circuit_open_after cause) =
    codes "circuit breaker is open" ++ (codes " after: " ++ error_text cause)
error_text canceled = codes "context canceled"
error_text deadline_exceeded = codes "context deadline exceeded"
error_text (revenium e) = labelled e
error_text (revenium_caused e cause) = labelled e ++ (codes ": " ++ error_text cause)
error_text (net timeout text) = text
error_text (retries_exhausted n cause) =
    codes "failed after " ++ (decimal n ++ (codes " retries: " ++ error_text cause))
error_text (plain text) = text

-- errors.As(err, **ReveniumError): the first one of the chain.
unfoldable pub as_revenium : Failure → Option ReveniumError
as_revenium circuit_open = none
as_revenium (circuit_open_after cause) = as_revenium cause
as_revenium canceled = none
as_revenium deadline_exceeded = none
as_revenium (revenium e) = some e
as_revenium (revenium_caused e cause) = some e
as_revenium (net timeout text) = none
as_revenium (retries_exhausted n cause) = as_revenium cause
as_revenium (plain text) = none

-- errors.Is(err, ErrCircuitOpen).
unfoldable pub is_circuit_open : Failure → Bool
is_circuit_open circuit_open = true
is_circuit_open (circuit_open_after cause) = true
is_circuit_open canceled = false
is_circuit_open deadline_exceeded = false
is_circuit_open (revenium e) = false
is_circuit_open (revenium_caused e cause) = is_circuit_open cause
is_circuit_open (net timeout text) = false
is_circuit_open (retries_exhausted n cause) = is_circuit_open cause
is_circuit_open (plain text) = false

-- errors.Is(err, context.Canceled) || errors.Is(err, context.DeadlineExceeded).
unfoldable pub is_context_error : Failure → Bool
is_context_error circuit_open = false
is_context_error (circuit_open_after cause) = is_context_error cause
is_context_error canceled = true
is_context_error deadline_exceeded = true
is_context_error (revenium e) = false
is_context_error (revenium_caused e cause) = is_context_error cause
is_context_error (net timeout text) = false
is_context_error (retries_exhausted n cause) = is_context_error cause
is_context_error (plain text) = false

-- errors.As(err, *net.Error): the first net error's Timeout() and text. The context's deadline
-- error is a net.Error too; its callers ask `is_context_error` first.
unfoldable pub as_net : Failure → Option (Bool × Text)
as_net circuit_open = none
as_net (circuit_open_after cause) = as_net cause
as_net canceled = none
as_net deadline_exceeded = some (true, codes "context deadline exceeded")
as_net (revenium e) = none
as_net (revenium_caused e cause) = as_net cause
as_net (net timeout text) = some (timeout, text)
as_net (retries_exhausted n cause) = as_net cause
as_net (plain text) = none

abbrev of_type : ErrorType → ErrorType → Bool
of_type config_error config_error = true
of_type metering_error metering_error = true
of_type provider_error provider_error = true
of_type auth_error auth_error = true
of_type network_error network_error = true
of_type streaming_error streaming_error = true
of_type validation_error validation_error = true
of_type internal_error internal_error = true
of_type _ _ = false

-- The `Is…Error` family: the first ReveniumError of the chain has the given type.
unfoldable pub is_type : ErrorType → Failure → Bool
unfolding as_revenium
is_type k err = elim (as_revenium err) [ none ↦ false | some e ↦ of_type e.kind k ]

abbrev pub is_config_error : Failure → Bool
is_config_error = is_type config_error

abbrev pub is_metering_error : Failure → Bool
is_metering_error = is_type metering_error

abbrev pub is_auth_error : Failure → Bool
is_auth_error = is_type auth_error

abbrev pub is_network_error : Failure → Bool
is_network_error = is_type network_error

abbrev pub is_validation_error : Failure → Bool
is_validation_error = is_type validation_error

-- A provider answered with a 4xx status.
unfoldable pub is_client_refusal : Failure → Bool
unfolding as_revenium
is_client_refusal err = elim (as_revenium err) [
  | none ↦ false
  | some e ↦ leb 400 e.status_code && ltb e.status_code 500
]

default_status_code : ErrorType → ℕ
default_status_code config_error = 400
default_status_code validation_error = 400
default_status_code auth_error = 401
default_status_code provider_error = 502
default_status_code network_error = 503
default_status_code metering_error = 500
default_status_code _ = 500
