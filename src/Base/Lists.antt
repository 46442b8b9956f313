-- ===== src/Base/Lists.antt =====
-- Lists measured and indexed by native numbers, under the library's names.
use Prim.Native.Nat.{ℕ, zero, suc, ◌+◌, ◌-◌, ◌<◌, min}
use mathlib.Core.Path.{◌≡◌, refl, ap}
use mathlib.Core.Logic.{◌≢◌, ◌⊎◌, inl, inr}
use mathlib.Core.List.{List, [], ◌∷◌, ◌++◌, map}
use mathlib.Core.Option.{Option, none, some}
use native.Mathlib.Omega.{arith}

module _ {ℓ} {A : Type ℓ} where
  abbrev pub length : List A → ℕ
  length [] = 0
  length (x ∷ xs) = suc (length xs)

  abbrev pub get_elem? : List A → ℕ → Option A
  get_elem? [] i = none
  get_elem? (x ∷ xs) zero = some x
  get_elem? (x ∷ xs) (suc i) = get_elem? xs i

  -- A write out of bounds changes nothing.
  abbrev pub set : List A → ℕ → A → List A
  set [] i v = []
  set (x ∷ xs) zero v = v ∷ xs
  set (x ∷ xs) (suc i) v = x ∷ set xs i v

  pub length-append : (xs ys : List A) → length (xs ++ ys) ≡ length xs + length ys
  length-append [] ys = omega arith
  length-append (x ∷ xs) ys = omega (arith, length-append xs ys)

module _ {ℓ} {A : Type ℓ} where
  pub length-set : (xs : List A) (i : ℕ) (v : A) → length (set xs i v) ≡ length xs
  length-set [] i v = refl
  length-set (x ∷ xs) zero v = refl
  length-set (x ∷ xs) (suc i) v = ap suc (length-set xs i v)

  pub get_elem?-set_self :
      (xs : List A) (i : ℕ) (v : A) → i < length xs → get_elem? (set xs i v) i ≡ some v
  get_elem?-set_self [] i v h = elim h [ ]
  get_elem?-set_self (x ∷ xs) zero v h = refl
  get_elem?-set_self (x ∷ xs) (suc i) v h = get_elem?-set_self xs i v (omega arith)

  pub get_elem?-set_ne :
      (xs : List A) {i j : ℕ} (v : A) → i ≢ j → get_elem? (set xs i v) j ≡ get_elem? xs j
  get_elem?-set_ne [] v h = refl
  get_elem?-set_ne (x ∷ xs) {i = zero} {j = zero} v h = absurd (h refl)
  get_elem?-set_ne (x ∷ xs) {i = zero} {j = suc j} v h = refl
  get_elem?-set_ne (x ∷ xs) {i = suc i} {j = zero} v h = refl
  get_elem?-set_ne (x ∷ xs) {i = suc i} {j = suc j} v h = get_elem?-set_ne xs v (λ e. h (ap suc e))

module _ {ℓ} {A : Type ℓ} where
  abbrev pub get_or : List A → ℕ → A → A
  get_or [] i d = d
  get_or (x ∷ xs) zero d = x
  get_or (x ∷ xs) (suc i) d = get_or xs i d

  abbrev pub take : ℕ → List A → List A
  take zero xs = []
  take (suc n) [] = []
  take (suc n) (x ∷ xs) = x ∷ take n xs

  abbrev pub drop : ℕ → List A → List A
  drop zero xs = xs
  drop (suc n) [] = []
  drop (suc n) (x ∷ xs) = drop n xs

  abbrev pub replicate : ℕ → A → List A
  replicate zero a = []
  replicate (suc n) a = a ∷ replicate n a

  pub take-append-drop : (n : ℕ) (xs : List A) → take n xs ++ drop n xs ≡ xs
  take-append-drop zero xs = refl
  take-append-drop (suc n) [] = refl
  take-append-drop (suc n) (x ∷ xs) = rw (take-append-drop n xs)

  pub length-take : (n : ℕ) (xs : List A) → length (take n xs) ≡ min n (length xs)
  length-take zero xs = omega arith
  length-take (suc n) [] = omega arith
  length-take (suc n) (x ∷ xs) = omega (arith, length-take n xs)

  pub length-drop : (n : ℕ) (xs : List A) → length (drop n xs) ≡ length xs - n
  length-drop zero xs = omega arith
  length-drop (suc n) [] = omega arith
  length-drop (suc n) (x ∷ xs) = omega (arith, length-drop n xs)

  pub length-replicate : (n : ℕ) (a : A) → length (replicate n a) ≡ n
  length-replicate zero a = refl
  length-replicate (suc n) a = ap suc (length-replicate n a)

  pub length-map {κ} : {B : Type κ} (xs : List A) (f : A → B) → length (map f xs) ≡ length xs
  length-map [] f = refl
  length-map (x ∷ xs) f = ap suc (length-map xs f)

  -- The i-th element changed by f; nothing is changed out of bounds.
  unfoldable pub update_at : (A → A) → List A → ℕ → List A
  update_at f [] i = []
  update_at f (x ∷ xs) zero = f x ∷ xs
  update_at f (x ∷ xs) (suc i) = x ∷ update_at f xs i

  pub get_elem?-update_self :
      (f : A → A) (xs : List A) (i : ℕ) (a : A)
      → get_elem? xs i ≡ some a
      → get_elem? (update_at f xs i) i ≡ some (f a)
  unfolding update_at
  get_elem?-update_self f [] i a h = ground arith
  get_elem?-update_self f (x ∷ xs) zero a h = ground arith
  get_elem?-update_self f (x ∷ xs) (suc i) a h = get_elem?-update_self f xs i a h

  pub get_elem?-update_other :
      (f : A → A) (xs : List A) (a i : ℕ) → a ≢ i → get_elem? (update_at f xs a) i ≡ get_elem? xs i
  unfolding update_at
  get_elem?-update_other f [] a i n = refl
  get_elem?-update_other f (x ∷ xs) zero zero n = absurd (n refl)
  get_elem?-update_other f (x ∷ xs) zero (suc i) n = refl
  get_elem?-update_other f (x ∷ xs) (suc a) zero n = refl
  get_elem?-update_other f (x ∷ xs) (suc a) (suc i) n =
      get_elem?-update_other f xs a i (λ e. n (ap suc e))

  pub length-update : (f : A → A) (xs : List A) (a : ℕ) → length (update_at f xs a) ≡ length xs
  unfolding update_at
  length-update f [] a = refl
  length-update f (x ∷ xs) zero = refl
  length-update f (x ∷ xs) (suc a) = ap suc (length-update f xs a)

  pub get_elem?-append :
      (xs : List A) (x : A) (i : ℕ) (a : A)
      → get_elem? xs i ≡ some a
      → get_elem? (xs ++ x ∷ []) i ≡ some a
  get_elem?-append [] x i a h = ground arith
  get_elem?-append (y ∷ xs) x zero a h = h
  get_elem?-append (y ∷ xs) x (suc i) a h = get_elem?-append xs x i a h

  pub get_elem?-last : (xs : List A) (x : A) → get_elem? (xs ++ x ∷ []) (length xs) ≡ some x
  get_elem?-last [] x = refl
  get_elem?-last (y ∷ xs) x = get_elem?-last xs x

  pub get_elem?-below : (xs : List A) (i : ℕ) (a : A) → get_elem? xs i ≡ some a → i < length xs
  get_elem?-below [] i a h = ground arith
  get_elem?-below (x ∷ xs) zero a h = omega arith
  get_elem?-below (x ∷ xs) (suc i) a h = let l = get_elem?-below xs i a h in omega arith

  pub get_elem?-append_cases :
      (xs : List A) (x : A) (i : ℕ) (a : A)
      → get_elem? (xs ++ x ∷ []) i ≡ some a
      → ((i ≡ length xs) × (a ≡ x)) ⊎ (get_elem? xs i ≡ some a)
  get_elem?-append_cases [] x zero a h = inl (refl, ground arith)
  get_elem?-append_cases [] x (suc i) a h = ground arith
  get_elem?-append_cases (y ∷ xs) x zero a h = inr h
  get_elem?-append_cases (y ∷ xs) x (suc i) a h = elim (get_elem?-append_cases xs x i a h) [
    | inl (p, q) ↦ inl (ap suc p, q)
    | inr q ↦ inr q
  ]

  pub get_elem?-update_cases :
      (f : A → A) (xs : List A) (a i : ℕ) (x : A)
      → get_elem? (update_at f xs a) i ≡ some x
      → ((a ≡ i) × (y : A) × (get_elem? xs i ≡ some y) × (x ≡ f y))
        ⊎ ((a ≢ i) × (get_elem? xs i ≡ some x))
  unfolding update_at
  get_elem?-update_cases f [] a i x h = ground arith
  get_elem?-update_cases f (y ∷ xs) zero zero x h = inl (refl, y, refl, ground arith)
  get_elem?-update_cases f (y ∷ xs) zero (suc i) x h = inr (λ q. ground arith, h)
  get_elem?-update_cases f (y ∷ xs) (suc a) zero x h = inr (λ q. ground arith, h)
  get_elem?-update_cases f (y ∷ xs) (suc a) (suc i) x h =
      elim (get_elem?-update_cases f xs a i x h) [
        | inl (q, z, g, e) ↦ inl (ap suc q, z, g, e)
        | inr (n, g) ↦ inr (λ q. n (omega arith), g)
      ]

  pub get_elem?-defined :
      (xs : List A) (i : ℕ) → i < length xs → (a : A) × (get_elem? xs i ≡ some a)
  get_elem?-defined [] i h = absurd (omega arith)
  get_elem?-defined (x ∷ xs) zero h = (x, refl)
  get_elem?-defined (x ∷ xs) (suc i) h = get_elem?-defined xs i (omega arith)
