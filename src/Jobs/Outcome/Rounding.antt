-- ===== src/Jobs/Outcome/Rounding.antt =====
-- How Revenium rounds a value that is reported.
use revenium_go_sdk.Base.{ℕ, zero, suc, ◌+◌, ◌*◌, ◌^◌, ◌≤◌, ◌<◌, ◌≡◌, arith}
use native.Mathlib.Decide.{dec_lt}
use native.Mathlib.Nat.{mul-le-mul_left, mul-suc, pow-suc, mul-div-le, lt-mul-div-succ}
use revenium_go_sdk.Jobs.Outcome.{Decimal, stored_units, stored_scale}

pub pow10_pos : (n : ℕ) → 0 < 10 ^ n
pow10_pos zero = omega arith
pow10_pos (suc n) = omega (arith, pow10_pos n, pow-suc 10 n)

-- n units of 10^-10 are the nearest to the size of a value, and the larger of two that are as near.
abbrev pub IsNearest : ℕ → Decimal → Type 0
IsNearest n d =
    (2 * 10 ^ d.places * n ≤ 2 * (d.digits * 10 ^ 10) + 10 ^ d.places)
    × (2 * (d.digits * 10 ^ 10) < 2 * 10 ^ d.places * n + 10 ^ d.places)

pub stored-IsNearest : (d : Decimal) → IsNearest (stored_units d) d
unfolding stored_units
stored-IsNearest d =
    let n = 2 * (d.digits * stored_scale) + 10 ^ d.places in
    let p = pow10_pos d.places in
    (
      mul-div-le n (2 * 10 ^ d.places),
      grind (arith, lt-mul-div-succ n {b = 2 * 10 ^ d.places} (omega arith)),
    )

-- Of two multiples of p that lie within p below the same number, neither is the smaller.
no_smaller : (p n m k : ℕ) → 0 < p → p * n ≤ k → k < p * n + p → p * m ≤ k → m ≤ n
no_smaller p n m k z a b c = elim (dec_lt n m) [
  | yes l ↦
      let h : p * suc n ≤ p * m = mul-le-mul_left p l in let e = mul-suc p n in absurd (omega arith)
  | no x ↦ omega arith
]

pub nearest_is_stored : (n : ℕ) (d : Decimal) → IsNearest n d → n ≡ stored_units d
nearest_is_stored n d (a, b) =
    let (x, y) = stored-IsNearest d in
    let p = pow10_pos d.places in
    let k = 2 * (d.digits * 10 ^ 10) + 10 ^ d.places in
    let l = no_smaller (2 * 10 ^ d.places) n (stored_units d) k (omega arith) a (omega arith) x in
    let r = no_smaller (2 * 10 ^ d.places) (stored_units d) n k (omega arith) x (omega arith) a in
    omega arith
