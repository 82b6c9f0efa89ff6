-- ===== src/Prelude/Results.antt =====
-- A Go `(value, error)` pair: the value, or the error that is returned in its place.
use mathlib.Core.Path.{◌≡◌, refl}
use mathlib.Core.Bool.{Bool, true, false}
use mathlib.Core.Logic.{◌⊎◌, inl, inr}
use mathlib.Core.Option.{Option, none, some}

pub data Result {ℓ κ} (Failure : Type ℓ) (Value : Type κ) : Type (ℓ ⊔ κ) where
  ok : Value → Result Failure Value
  err : Failure → Result Failure Value

-- A missing value is the failure.
abbrev pub or_fail {ℓ κ} :
    {Failure : Type ℓ} {Value : Type κ} → Failure → Option Value → Result Failure Value
or_fail failure (some value) = ok value
or_fail failure none = err failure

-- `if !test { return failure }`
abbrev pub guard {ℓ} : {Failure : Type ℓ} → Bool → Failure → Result Failure (Unit {0})
guard false failure = err failure
guard true failure = ok tt

infixl 5 ◌>>=◌ ◌>>◌
abbrev pub ◌>>=◌ {ℓ κ μ} :
    {Failure : Type ℓ} {Value : Type κ} {Next : Type μ}
    → Result Failure Value
    → (Value → Result Failure Next)
    → Result Failure Next
err failure >>= next = err failure
ok value >>= next = next value

abbrev pub ◌>>◌ {ℓ κ} :
    {Failure : Type ℓ} {Next : Type κ}
    → Result Failure (Unit {0})
    → Result Failure Next
    → Result Failure Next
first >> second = first >>= λ _. second

-- A sequence that succeeds: its first step did, and the rest did on its value.
pub >>=-eq-ok {ℓ κ μ} :
    {Failure : Type ℓ} {Value : Type κ} {Next : Type μ} (first : Result Failure Value)
    (next : Value → Result Failure Next) {last : Next}
    → (first >>= next) ≡ ok last
    → (value : Value) × (first ≡ ok value) × (next value ≡ ok last)
>>=-eq-ok (err failure) next done = cc
>>=-eq-ok (ok value) next done = (value, refl, done)

pub Result-cases {ℓ κ} :
    {Failure : Type ℓ} {Value : Type κ} (r : Result Failure Value)
    → ((e : Failure) × (r ≡ err e)) ⊎ ((a : Value) × (r ≡ ok a))
Result-cases (err e) = inl (e, refl)
Result-cases (ok a) = inr (a, refl)
