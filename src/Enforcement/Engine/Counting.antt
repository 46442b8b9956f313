-- ===== src/Enforcement/Engine/Counting.antt =====
-- How the operations on leases change the number of unreleased ones.
use revenium_go_sdk.Base.{
  update_at, ◌≡◌, refl, ℕ, zero, suc, ◌+◌, List, [], ◌∷◌, ◌++◌, true, false, some, map, get_elem?,
  text_eq_sound, text_eq_refl, arith, if◌then◌else◌,
}
use revenium_go_sdk.Enforcement.Engine.{
  EngineKey, Lease, key_eq, unreleased_on, count_unreleased, adopt, claim, drop_held,
}

pub key_eq_refl : (k : EngineKey) → key_eq k k ≡ true
unfolding key_eq
key_eq_refl k =
    ground (arith, text_eq_refl k.base_url, text_eq_refl k.api_key, text_eq_refl k.team_id)

pub key_eq_sound : (j k : EngineKey) → key_eq j k ≡ true → j ≡ k
unfolding key_eq
key_eq_sound j k h = ground (
  arith,
  text_eq_sound j.base_url k.base_url,
  text_eq_sound j.api_key k.api_key,
  text_eq_sound j.team_id k.team_id,
)

pub count-append :
    (k : EngineKey) (ls : List Lease) (l : Lease)
    → count_unreleased k (ls ++ l ∷ [])
      ≡ count_unreleased k ls + (if unreleased_on k l then 1 else 0)
unfolding count_unreleased
count-append k [] l = ground arith
count-append k (x ∷ ls) l = ground (arith, count-append k ls l)

pub count-adopt :
    (k j : EngineKey) (a : ℕ) (ls : List Lease)
    → count_unreleased k (map (adopt j a) ls) ≡ count_unreleased k ls
unfolding count_unreleased adopt unreleased_on
count-adopt k j a [] = refl
count-adopt k j a (x ∷ ls) = ground (arith, count-adopt k j a ls)

pub count-claim :
    (k : EngineKey) (ls : List Lease) (i : ℕ)
    → count_unreleased k (update_at claim ls i) ≡ count_unreleased k ls
unfolding count_unreleased update_at claim unreleased_on
count-claim k [] i = refl
count-claim k (x ∷ ls) zero = ground arith
count-claim k (x ∷ ls) (suc i) = ground (arith, count-claim k ls i)

pub count-drop :
    (k : EngineKey) (ls : List Lease) (i : ℕ) (l : Lease)
    → get_elem? ls i ≡ some l
    → count_unreleased k ls
      ≡ count_unreleased k (update_at drop_held ls i) + (if unreleased_on k l then 1 else 0)
unfolding count_unreleased update_at drop_held unreleased_on
count-drop k [] i l h = ground arith
count-drop k (x ∷ ls) zero l h = ground arith
count-drop k (x ∷ ls) (suc i) l h = ground (arith, count-drop k ls i l h)

-- Every unreleased lease of the key names the registration of the poller at `a`.
abbrev pub Follow : EngineKey → ℕ → List Lease → Type 0
Follow k a [] = Unit {0}
Follow k a (l ∷ ls) = (unreleased_on k l ≡ true → l.registration ≡ a) × Follow k a ls

pub append-Follow :
    (k : EngineKey) (a : ℕ) (ls : List Lease) (l : Lease)
    → Follow k a ls
    → (unreleased_on k l ≡ true → l.registration ≡ a)
    → Follow k a (ls ++ l ∷ [])
append-Follow k a [] l f h = (h, tt)
append-Follow k a (x ∷ ls) l (g, f) h = (g, append-Follow k a ls l f h)

pub adopt-Follow : (k : EngineKey) (a : ℕ) (ls : List Lease) → Follow k a (map (adopt k a) ls)
unfolding adopt unreleased_on
adopt-Follow k a [] = tt
adopt-Follow k a (x ∷ ls) = (λ h. ground arith, adopt-Follow k a ls)

pub adopt_other-Follow :
    (k j : EngineKey) (a b : ℕ) (ls : List Lease)
    → key_eq k j ≡ false
    → Follow k a ls
    → Follow k a (map (adopt j b) ls)
unfolding adopt unreleased_on
adopt_other-Follow k j a b [] n f = tt
adopt_other-Follow k j a b (x ∷ ls) n (g, f) = (
  λ h. ground (arith, g, key_eq_sound x.key k, key_eq_sound x.key j, key_eq_refl k, h),
  adopt_other-Follow k j a b ls n f,
)

pub claim-Follow :
    (k : EngineKey) (a : ℕ) (ls : List Lease) (i : ℕ)
    → Follow k a ls
    → Follow k a (update_at claim ls i)
unfolding update_at claim unreleased_on
claim-Follow k a [] i f = tt
claim-Follow k a (x ∷ ls) zero (g, f) = (g, f)
claim-Follow k a (x ∷ ls) (suc i) (g, f) = (g, claim-Follow k a ls i f)

pub drop-Follow :
    (k : EngineKey) (a : ℕ) (ls : List Lease) (i : ℕ)
    → Follow k a ls
    → Follow k a (update_at drop_held ls i)
unfolding update_at drop_held unreleased_on
drop-Follow k a [] i f = tt
drop-Follow k a (x ∷ ls) zero (g, f) = (λ h. ground arith, f)
drop-Follow k a (x ∷ ls) (suc i) (g, f) = (g, drop-Follow k a ls i f)

pub get-Follow :
    (k : EngineKey) (a : ℕ) (ls : List Lease) (i : ℕ) (l : Lease)
    → Follow k a ls
    → get_elem? ls i ≡ some l
    → unreleased_on k l ≡ true
    → l.registration ≡ a
get-Follow k a [] i l f e h = ground arith
get-Follow k a (x ∷ ls) zero l (g, f) e h = ground (arith, g)
get-Follow k a (x ∷ ls) (suc i) l (g, f) e h = get-Follow k a ls i l f e h
