-- ===== src/Prelude/Results.antt =====
-- Exceptions as values: kirin/exceptions.py, and the errors that Python itself raises.
use mathlib.Core.Path.{◌≡◌, refl, ap}
use mathlib.Core.Logic.{◌⊎◌, inl, inr}

-- The first seven are the classes of kirin/exceptions.py, the others are Python's own.
pub data Exception : Type 0 where
  invalid_arguments object_not_found message_not_published internal_exception : Exception
  sub_service_error unauthorized_on_sub_service unsupported_value : Exception
  key_error index_error type_error attribute_error : Exception

-- What a function does: it raises an exception, or it returns a value.
pub data Result {ℓ} (A : Type ℓ) : Type ℓ where
  err : Exception → Result A
  ok : A → Result A

infixl 5 ◌>>=◌
abbrev pub ◌>>=◌ {ℓ μ} : {A : Type ℓ} {B : Type μ} → Result A → (A → Result B) → Result B
err exception >>= next = err exception
ok value >>= next = next value

-- A sequence that returns has a first part that returns.
pub >>=-eq-ok {ℓ μ} :
    {A : Type ℓ} {B : Type μ} (first : Result A) (next : A → Result B) {y : B}
    → (first >>= next) ≡ ok y
    → (x : A) × (first ≡ ok x) × (next x ≡ ok y)
>>=-eq-ok (err exception) next h = cc
>>=-eq-ok (ok x) next h = (x, refl, h)

-- A computation that raises nothing.
abbrev pub Returns {ℓ} : {A : Type ℓ} → Result A → Type ℓ
Returns {A} r = (a : A) × (r ≡ ok a)

pub Returns-bind {ℓ κ} :
    {A : Type ℓ} {B : Type κ} (m : Result A) (f : A → Result B)
    → Returns m
    → ((a : A) → Returns (f a))
    → Returns (m >>= f)
Returns-bind m f (a, e) h = let (b, q) = h a in (b, rw e q)

pub Result-cases {ℓ} :
    {A : Type ℓ} (r : Result A) → ((a : A) × (r ≡ ok a)) ⊎ ((e : Exception) × (r ≡ err e))
Result-cases (ok a) = inl (a, refl)
Result-cases (err e) = inr (e, refl)

abbrev value_from {ℓ} : {A : Type ℓ} → A → Result A → A
value_from a (err e) = a
value_from a (ok b) = b

-- Two calls that return the same return the same value.
pub ok_injective {ℓ} : {A : Type ℓ} {a b : A} → ok a ≡ ok b → a ≡ b
ok_injective {A} {a} {b} h = ap (value_from a) h
