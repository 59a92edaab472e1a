-- ===== src/Prelude/Results.antt =====
-- `Result`: a value or an error, with `?` as bind.
use mathlib.Core.Path.{◌≡◌, refl}
use mathlib.Core.Logic.{◌⊎◌, inl, inr}
use mathlib.Core.Bool.{Bool, true, false}

pub data Result {ℓ} (E A : Type ℓ) : Type ℓ where
  ok : A → Result E A
  err : E → Result E A

-- The early return of `?`
infixl 5 ◌>>=◌ ◌>>◌
abbrev pub ◌>>=◌ {ℓ} : {E A B : Type ℓ} → Result E A → (A → Result E B) → Result E B
err problem >>= next = err problem
ok value >>= next = next value

abbrev pub ◌>>◌ {ℓ} : {E B : Type ℓ} → Result E (Unit {ℓ}) → Result E B → Result E B
first >> next = first >>= λ done. next

-- `ensure!`
abbrev pub ensure {ℓ} : {E : Type ℓ} → Bool → E → Result E (Unit {ℓ})
ensure holds problem = elim holds [ true ↦ ok tt | false ↦ err problem ]

abbrev pub is_ok {ℓ} : {E A : Type ℓ} → Result E A → Bool
is_ok (ok _) = true
is_ok (err _) = false

abbrev pub is_err {ℓ} : {E A : Type ℓ} → Result E A → Bool
is_err (ok _) = false
is_err (err _) = true

-- A chain that succeeds has a first step that succeeds.
pub >>=-eq-ok {ℓ} :
    {E A B : Type ℓ} (step : Result E A) (next : A → Result E B) {last : B}
    → (step >>= next) ≡ ok last
    → (value : A) × (step ≡ ok value) × (next value ≡ ok last)
>>=-eq-ok (err problem) next h = cc
>>=-eq-ok (ok value) next h = (value, refl, h)

pub Result-cases {ℓ} :
    {E A : Type ℓ} (r : Result E A) → ((a : A) × (r ≡ ok a)) ⊎ ((e : E) × (r ≡ err e))
Result-cases (ok a) = inl (a, refl)
Result-cases (err e) = inr (e, refl)

pub ensure-eq-ok {ℓ} : {E : Type ℓ} (b : Bool) (e : E) {u : Unit {ℓ}} → ensure b e ≡ ok u → b ≡ true
ensure-eq-ok true e h = refl
ensure-eq-ok false e h = cc
