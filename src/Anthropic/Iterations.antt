-- ===== src/Anthropic/Iterations.antt =====
-- anthropic/iterations.go: the identifiers of the records of a call's billed passes. Keys are lists
-- of bytes; the SHA-256 digest in hexadecimal is a parameter.
use mathlib.Core.List.{append_assoc}
use revenium_go_sdk.Base.{
  ℕ, ◌≡◌, ap, sym, ◌∙◌, [], ◌∷◌, ◌++◌, leb, length, if◌then◌else◌, Text, codes, decimal, is_empty,
  decimal_injective, NoDash, decimal-NoDash, arith, Bool-cases, inl, inr,
}

abbrev pub max_idempotency_key_length : ℕ
max_idempotency_key_length = 255

unfoldable pub iteration_transaction_id : Text → ℕ → Text
unfolding decimal
iteration_transaction_id main_id index = main_id ++ codes "-iteration-" ++ decimal index

module _ (digest : Text → Text) where
  unfoldable pub iteration_idempotency_key : Text → ℕ → Text
  unfolding iteration_transaction_id
  iteration_idempotency_key main_key index =
      let derived = iteration_transaction_id main_key index in
      if leb (length derived) max_idempotency_key_length
      then derived
      else iteration_transaction_id (digest main_key) index

  unfoldable pub pass_idempotency_key : Text → Text → ℕ → Text
  unfolding iteration_idempotency_key
  pass_idempotency_key main_key pass_transaction_id index =
      if is_empty main_key then pass_transaction_id else iteration_idempotency_key main_key index

-- What follows the last dash is the same on both sides.
dash_inside : (s : Text) (b e : Text) → NoDash s → s ≡ b ++ codes "-" ++ e → ⊥
dash_inside [] [] e n p = ground arith
dash_inside [] (c ∷ b) e n p = ground arith
dash_inside (c ∷ s) [] e n p = ground arith
dash_inside (c ∷ s) (d ∷ b) e n p = dash_inside s b e n.1 (ground arith)

after_last_dash :
    (a b d e : Text) → NoDash d → NoDash e → a ++ codes "-" ++ d ≡ b ++ codes "-" ++ e → d ≡ e
after_last_dash [] [] d e n m p = ground arith
after_last_dash [] (c ∷ b) d e n m p = absurd (dash_inside d b e n (ground arith))
after_last_dash (c ∷ a) [] d e n m p = absurd (dash_inside e a d m (ground arith))
after_last_dash (c ∷ a) (k ∷ b) d e n m p = after_last_dash a b d e n m (ground arith)

-- What follows the main key in a derived one.
iteration_dash :
    (m : Text) (i : ℕ)
    → iteration_transaction_id m i ≡ (m ++ codes "-iteration") ++ codes "-" ++ decimal i
unfolding iteration_transaction_id
iteration_dash m i =
    ap (λ t. t ++ decimal i) (sym (append_assoc m (codes "-iteration") (codes "-")))

transaction_id-injective :
    (m k : Text) (i j : ℕ) → iteration_transaction_id m i ≡ iteration_transaction_id k j → i ≡ j
transaction_id-injective m k i j e = decimal_injective i j (
    after_last_dash (m ++ codes "-iteration") (k ++ codes "-iteration") (decimal i) (decimal j)
      (decimal-NoDash i) (decimal-NoDash j) (sym (iteration_dash m i) ∙ e ∙ iteration_dash k j))

iteration_key_cases :
    (digest : Text → Text) (m : Text) (i : ℕ)
    → (k : Text) × (iteration_idempotency_key digest m i ≡ iteration_transaction_id k i)
unfolding iteration_idempotency_key
iteration_key_cases digest m i =
    elim (Bool-cases (leb (length (iteration_transaction_id m i)) max_idempotency_key_length)) [
      | inl y ↦ (m, ground arith)
      | inr n ↦ (digest m, ground arith)
    ]

-- The passes of one call have different keys, whether or not they are shortened by the digest, and
-- whether or not the call has a key: two passes with the same key have the same index.
pub pass_keys_differ :
    (digest : Text → Text) (main_key main_id : Text) (i j : ℕ)
    → pass_idempotency_key digest main_key (iteration_transaction_id main_id i) i
      ≡ pass_idempotency_key digest main_key (iteration_transaction_id main_id j) j
    → i ≡ j
unfolding pass_idempotency_key
pass_keys_differ digest [] main_id i j e = transaction_id-injective main_id main_id i j e
pass_keys_differ digest (c ∷ m) main_id i j e =
    let (k, p) = iteration_key_cases digest (c ∷ m) i in
    let (l, q) = iteration_key_cases digest (c ∷ m) j in
    transaction_id-injective k l i j (sym p ∙ e ∙ q)
