-- ===== src/Metering/FieldGuards.antt =====
-- core/metering/field_guards.go and the pattern of agentic_job.go: values that Revenium would refuse
-- with the whole record are cut or dropped. Texts are the code points of valid UTF-8; a key is its
-- bytes. Warnings are left out, and the generated transaction id is an argument.
use revenium_go_sdk.Base.{
  subst, ℕ, ◌+◌, ◌^◌, ◌≤◌, ◌<◌, ◌≡◌, refl, inl, inr, Bool, true, false, ◌&&◌, ◌||◌, [], ◌∷◌, ◌++◌,
  Option, none, some, ltb, leb, ◌==◌, length, take, if◌then◌else◌, Text, codes, text_eq, is_empty,
  arith, Bool-cases, ℤ, pos, negsuc,
}

abbrev pub max_error_reason_length : ℕ
max_error_reason_length = 255

abbrev pub max_ticket_id_units : ℕ
max_ticket_id_units = 256

unfoldable pub truncate_error_reason : Text → Text
truncate_error_reason reason =
    if leb (length reason) max_error_reason_length
    then reason
    else take max_error_reason_length reason

-- len(utf16.Encode([]rune{r})).
abbrev pub utf16_units : ℕ → ℕ
utf16_units r = if ltb r 65536 then 1 else 2

unfoldable pub truncate_from : ℕ → ℕ → Text → Text
truncate_from max units [] = []
truncate_from max units (r ∷ s) =
    let rest = truncate_from max (units + utf16_units r) s in
    if ltb max (units + utf16_units r) then [] else r ∷ rest

unfoldable pub truncate_utf16 : Text → ℕ → Text
unfolding truncate_from
truncate_utf16 value max = truncate_from max 0 value

unfoldable pub truncate_ticket_id : Text → Text
unfolding truncate_utf16
truncate_ticket_id ticket = truncate_utf16 ticket max_ticket_id_units

abbrev pub is_key_byte : ℕ → Bool
is_key_byte c = leb 33 c && leb c 126

unfoldable pub all_key_bytes : Text → Bool
all_key_bytes [] = true
all_key_bytes (c ∷ s) = is_key_byte c && all_key_bytes s

unfoldable pub is_sendable_idempotency_key : Text → Bool
unfolding all_key_bytes
is_sendable_idempotency_key key =
    if is_empty key || ltb 255 (length key) then false else all_key_bytes key

unfoldable pub drop_unsendable_idempotency_key : Text → Text
unfolding is_sendable_idempotency_key
drop_unsendable_idempotency_key key = if is_sendable_idempotency_key key then key else []

unfoldable pub ensure_sendable_idempotency_key : Text → Text → Text
unfolding is_sendable_idempotency_key
ensure_sendable_idempotency_key generated key =
    if is_sendable_idempotency_key key then key else generated

-- A retry number of a record, with nil as none.
abbrev pub is_sendable_retry_number : ℤ → Bool
is_sendable_retry_number (pos n) = ltb n (2 ^ 31)
is_sendable_retry_number (negsuc n) = false

unfoldable pub drop_unsendable_retry_number : Option ℤ → Option ℤ
drop_unsendable_retry_number none = none
drop_unsendable_retry_number (some n) = if is_sendable_retry_number n then some n else none

abbrev pub is_alphanumeric : ℕ → Bool
is_alphanumeric c = leb 48 c && leb c 57 || (leb 65 c && leb c 90 || leb 97 c && leb c 122)

abbrev pub is_job_id_char : ℕ → Bool
is_job_id_char c = is_alphanumeric c || (c == 46 || (c == 95 || c == 45))

unfoldable pub all_job_id_chars : Text → Bool
all_job_id_chars [] = true
all_job_id_chars (c ∷ s) = is_job_id_char c && all_job_id_chars s

abbrev matches_job_id_pattern : Text → Bool
matches_job_id_pattern [] = false
matches_job_id_pattern (c ∷ s) = is_alphanumeric c && (all_job_id_chars s && leb (length s) 254)

unfoldable pub is_valid_agentic_job_id : Text → Bool
unfolding all_job_id_chars text_eq
is_valid_agentic_job_id id =
    if text_eq id (codes "types") || text_eq id (codes "conversion-funnel")
    then false
    else matches_job_id_pattern id

unfoldable pub sanitize_agentic_job_id : Text → Text
unfolding is_valid_agentic_job_id
sanitize_agentic_job_id id = if is_empty id || is_valid_agentic_job_id id then id else []

unfoldable pub units_of : Text → ℕ
units_of [] = 0
units_of (r ∷ s) = utf16_units r + units_of s

-- The next rune of what was cut off would pass the limit.
abbrev pub Passes : ℕ → ℕ → Text → Type 0
Passes max units [] = Unit {0}
Passes max units (r ∷ s) = max < units + utf16_units r

truncated_prefix :
    (max units : ℕ) (s : Text)
    → units ≤ max
    → (rest : Text) × (s ≡ truncate_from max units s ++ rest)
      × (units + units_of (truncate_from max units s) ≤ max)
      × Passes max (units + units_of (truncate_from max units s)) rest
unfolding truncate_from units_of
truncated_prefix max units [] l = ([], refl, omega arith, tt)
truncated_prefix max units (r ∷ s) l = elim (Bool-cases (ltb max (units + utf16_units r))) [
  | inl y ↦ (r ∷ s, ground arith, ground arith, ground arith)
  | inr n ↦
      let (rest, e, k, p) = truncated_prefix max (units + utf16_units r) s (ground arith) in
      let w : (units + utf16_units r) + units_of (truncate_from max (units + utf16_units r) s)
          ≡ units + units_of (truncate_from max units (r ∷ s)) =
        ground arith in
      (rest, ground arith, ground arith, subst (λ v. Passes max v rest) w p)
]

-- A ticket id is cut to the longest prefix that has at most 256 units of UTF-16, the units in which
-- Revenium measures it, and so no character is cut in two.
pub ticket_longest_prefix :
    (ticket : Text)
    → (rest : Text) × (ticket ≡ truncate_ticket_id ticket ++ rest)
      × (units_of (truncate_ticket_id ticket) ≤ 256)
      × Passes 256 (units_of (truncate_ticket_id ticket)) rest
unfolding truncate_ticket_id truncate_utf16
ticket_longest_prefix ticket =
    let (rest, e, l, p) = truncated_prefix 256 0 ticket (omega arith) in
    let z : 0 + units_of (truncate_from 256 0 ticket) ≡ units_of (truncate_from 256 0 ticket) =
      omega arith in
    (rest, e, omega arith, subst (λ v. Passes 256 v rest) z p)
