-- ===== src/Base/Decimals.antt =====
-- A printed number is read back, so that different numbers are printed differently.
use Prim.Native.Nat.{ℕ, zero, suc, ◌+◌, ◌*◌, ◌-◌, ◌/◌, ◌%◌, ◌≤◌, ◌<◌}
use mathlib.Core.Path.{◌≡◌, ap, sym, ◌∙◌}
use mathlib.Core.Logic.{inl, inr}
use mathlib.Core.Bool.{false}
use mathlib.Core.List.{[], ◌∷◌}
use native.Mathlib.Omega.{arith}
use revenium_go_sdk.Base.Tests.{Bool-cases, ltb→lt, ltb, ◌==◌}
use revenium_go_sdk.Base.Texts.{Text, decimal, decimal_loop}

abbrev value : ℕ → Text → ℕ
value v [] = v
value v (c ∷ s) = value (v * 10 + (c - 48)) s

value-loop : (f n : ℕ) (acc : Text) → n < f → value 0 (decimal_loop f n acc) ≡ value n acc
unfolding decimal_loop
value-loop zero n acc h = absurd (omega arith)
value-loop (suc f) n acc h =
    let d = (48 + n % 10) ∷ acc in
    elim (Bool-cases (ltb n 10)) [
      | inl y ↦
          let v : value 0 d ≡ value n acc =
            ap (λ v. value v acc) (let l = ltb→lt n 10 y in omega arith) in
          ground arith
      | inr m ↦
          let l : 10 ≤ n = ground arith in
          let r = value-loop f (n / 10) d (omega arith) in
          let v : value (n / 10) d ≡ value n acc = ap (λ v. value v acc) (omega arith) in
          ground arith
    ]

pub decimal_injective : (m n : ℕ) → decimal m ≡ decimal n → m ≡ n
unfolding decimal
decimal_injective m n e =
    sym (value-loop (suc m) m [] (omega arith))
    ∙ ap (value 0) e
    ∙ value-loop (suc n) n [] (omega arith)

-- No digit is a dash.
abbrev pub NoDash : Text → Type 0
NoDash [] = Unit {0}
NoDash (c ∷ s) = ((c == 45) ≡ false) × NoDash s

loop-NoDash : (f n : ℕ) (acc : Text) → NoDash acc → NoDash (decimal_loop f n acc)
unfolding decimal_loop
loop-NoDash zero n acc h = h
loop-NoDash (suc f) n acc h =
    let r = loop-NoDash f (n / 10) ((48 + n % 10) ∷ acc) (ground arith, h) in ground arith

pub decimal-NoDash : (n : ℕ) → NoDash (decimal n)
unfolding decimal
decimal-NoDash n = loop-NoDash (suc n) n [] tt
