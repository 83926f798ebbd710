-- ===== src/Prelude/Results.antt =====
-- Fallible code: what the program throws, as a value.
use mathlib.Core.Logic.{◌⊎◌, inl, inr}
use mathlib.Core.Path.{◌≡◌, refl}

-- The exception types of the standard library; `failed_assert` is an `assert` that does not hold, and
-- `undefined_behaviour` an access that the language leaves undefined.
pub data Error : Type 0 where
  runtime_error : Error
  logic_error : Error
  out_of_range : Error
  bad_variant_access : Error
  bad_optional_access : Error
  failed_assert : Error
  undefined_behaviour : Error

pub data Result {ℓ} (A : Type ℓ) : Type ℓ where
  ok : A → Result A
  throw : Error → Result A

infixl 5 ◌>>=◌
abbrev pub ◌>>=◌ {ℓ μ} : {X : Type ℓ} {Y : Type μ} → Result X → (X → Result Y) → Result Y
throw problem >>= next = throw problem
ok x >>= next = next x

-- The value that a sequence of two steps passes from the first to the second, when both succeed.
pub >>=-eq-ok {ℓ μ} :
    {X : Type ℓ} {Y : Type μ} {y : Y} (first : Result X) (next : X → Result Y)
    → first >>= next ≡ ok y
    → (x : X) × (first ≡ ok x) × (next x ≡ ok y)
>>=-eq-ok (throw problem) next run = cc
>>=-eq-ok (ok x) next run = (x, refl, run)

pub ok-injective {ℓ} : {A : Type ℓ} {a b : A} → ok a ≡ ok b → a ≡ b
ok-injective h = cc

pub Result-cases {ℓ} :
    {A : Type ℓ} (r : Result A) → ((a : A) × (r ≡ ok a)) ⊎ ((e : Error) × (r ≡ throw e))
Result-cases (ok a) = inl (a, refl)
Result-cases (throw e) = inr (e, refl)
