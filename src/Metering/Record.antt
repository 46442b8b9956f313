-- ===== src/Metering/Record.antt =====
-- The records that core/metering/buffer.go holds, and its limits.
use revenium_go_sdk.Base.{ℕ, ◌+◌, ◌*◌, ◌^◌, List, [], ◌∷◌, ℤ, positive_or, length}

-- A text or a body by its bytes.
abbrev pub Bytes : Type 0
Bytes = List ℕ

pub record BufferedEvent : Type 0 where
  pub url : Bytes
  pub headers : List (Bytes × Bytes)
  pub body : Bytes
  pub idempotency_key : Bytes
  pub created_at : ℕ

abbrev pub header_bytes : List (Bytes × Bytes) → ℕ
header_bytes [] = 0
header_bytes ((name, value) ∷ hs) = length name + length value + header_bytes hs

unfoldable pub event_bytes : BufferedEvent → ℕ
event_bytes e = length e.body + length e.url + length e.idempotency_key + header_bytes e.headers

abbrev pub total_held_bytes : List BufferedEvent → ℕ
total_held_bytes [] = 0
total_held_bytes (e ∷ es) = event_bytes e + total_held_bytes es

abbrev pub default_buffer_max_size : ℕ
default_buffer_max_size = 20000

abbrev pub replay_concurrency : ℕ
replay_concurrency = 16

abbrev pub max_event_age : ℕ
max_event_age = 24 * 3600 * 10 ^ 9

pub record BufferLimits : Type 0 where
  pub records : ℕ
  pub bytes : ℕ

-- The limits that a caller gives; `default_bytes` is what `core.BufferMaxBytes` reads.
unfoldable pub with_defaults : ℤ → ℤ → ℕ → BufferLimits
with_defaults records bytes default_bytes = record {
  records = positive_or records default_buffer_max_size;
  bytes = positive_or bytes default_bytes;
}
