-- ===== src/Complete/Values.antt =====
-- kirin/utils.py: how the values of a JSON object are read (`get_value`, `as_utc_naive_dt`,
-- `as_duration`).
use kirin.Prelude.{
  ℤ, ◌*ℤ◌, String, Option, none, some, Result, ok, err, invalid_arguments, ◌≡◌, ap, ok_injective,
}
use kirin.Model.{second}

-- A key for which the code tells a null from a missing key.
pub data Field (A : Type 0) : Type 0 where
  missing null : Field A
  value : A → Field A

-- `get_value(sub_json, key)`: a null and a missing key are both refused. With `nullable=True` it is
-- the optional value itself.
unfoldable pub get_value : {A : Type 0} → Option A → Result A
get_value none = err invalid_arguments
get_value (some a) = ok a

-- `parse` reads a datetime with its zone and turns it into naive UTC, or fails.
unfoldable pub as_utc_naive_dt : (String → Option ℤ) → String → Result ℤ
as_utc_naive_dt parse str_time = elim (parse str_time) [
  | none ↦ err invalid_arguments
  | some dt ↦ ok dt
]

unfoldable pub as_duration : Option ℤ → Option ℤ
as_duration none = none
as_duration (some seconds) = some (seconds *ℤ second)

pub get_value-some : {A : Type 0} (o : Option A) (a : A) → get_value o ≡ ok a → o ≡ some a
unfolding get_value
get_value-some none a h = cc
get_value-some (some b) a h = ap some (ok_injective h)
