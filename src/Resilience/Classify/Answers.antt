-- ===== src/Resilience/Classify/Answers.antt =====
-- How an answer from Revenium is treated once it has become an error.
use revenium_go_sdk.Base.{ℕ, ◌≤◌, ◌≡◌, ◌≢◌, refl, ◌⊎◌, ◌↔◌, Text, Unicode, true, some, arith}
use revenium_go_sdk.Resilience.Classify.{
  classify_http_response, classify_error, is_bufferable, response_error, retry_after_of,
}

-- The error made of an answer is classified as the answer's status is, whatever its message says,
-- and carries the wait that the answer asked for.
pub answer_keeps_class :
    (u : Unicode) (message : Text) (status wait : ℕ)
    → status ≢ 0
    → (classify_error u (response_error message status wait) ≡ classify_http_response status)
      × (retry_after_of (some (response_error message status wait)) ≡ wait)
unfolding classify_error response_error retry_after_of
answer_keeps_class u message status wait h = (ground arith, refl)

-- A record is held for a resend after exactly these answers: 408, 429, and 500 and above.
pub answers_held :
    (u : Unicode) (message : Text) (status wait : ℕ)
    → status ≢ 0
    → (is_bufferable u (response_error message status wait) ≡ true)
      ↔ ((status ≡ 408) ⊎ ((status ≡ 429) ⊎ (500 ≤ status)))
unfolding is_bufferable response_error
answers_held u message status wait h = (λ e. ground arith, λ e. ground arith)
