-- ===== src/Model/Circulations.antt =====
-- kirin/core/model.py: `VehicleJourney`, a circulation of a navitia vehicle journey on a day.
use kirin.Prelude.{
  ℕ, ℤ, String, Option, none, some, [], ◌∷◌, ◌+ℤ◌, ltb_ℤ, if◌then◌else◌, Result, ok, err, key_error,
  index_error, type_error, object_not_found, ◌>>=◌, or_else,
}
use kirin.Model.Time.{combine, date_of, one_day}
use kirin.Model.Navitia.{NavStop, NavVj}

pub record VehicleJourney : Type 0 where
  pub navitia_trip_id : Option String
  pub start_timestamp : ℤ
  pub navitia_vj : NavVj

-- The time of day of the first stop: its arrival, or its departure where that is null. With neither
-- `datetime.combine` refuses the `None`.
unfoldable pub first_start_time : NavStop → Result ℕ
first_start_time st = elim (or_else st.utc_arrival_time st.utc_departure_time) [
  | none ↦ err type_error
  | some t ↦ ok t
]

-- `navitia_vj.get("stop_times", [{}])[0]` and its start time: without the key it is read from `{}`.
unfoldable pub start_time : NavVj → Result ℕ
start_time vj = elim vj.stop_times [
  | none ↦ err key_error
  | some [] ↦ err index_error
  | some (st ∷ rest) ↦ first_start_time st
]

-- The closest moment at this time of day that is not before `since_dt`.
unfoldable pub start_after : ℤ → ℕ → ℤ
start_after since_dt time =
    let start = combine (date_of since_dt) time in
    if ltb_ℤ start since_dt then start +ℤ one_day else start

unfoldable pub start_within : ℤ → ℤ → ℕ → Result ℤ
start_within since_dt until_dt time =
    let start = start_after since_dt time in
    if ltb_ℤ until_dt start then err object_not_found else ok start

unfoldable pub start_timestamp : NavVj → ℤ → ℤ → Option ℤ → Result ℤ
start_timestamp vj since_dt until_dt vj_start_dt =
    let computed : Result ℤ = (do time ← start_time vj; start_within since_dt until_dt time) in
    elim vj.stop_times [
      | none ↦ elim vj_start_dt [ some dt ↦ ok dt | none ↦ computed ]
      | some [] ↦ elim vj_start_dt [ some dt ↦ ok dt | none ↦ computed ]
      | some (st ∷ rest) ↦ computed
    ]

-- `VehicleJourney(navitia_vj, since_dt, until_dt, vj_start_dt)`
unfoldable pub new_vehicle_journey : NavVj → ℤ → ℤ → Option ℤ → Result VehicleJourney
new_vehicle_journey vj since_dt until_dt vj_start_dt = do
  start ← start_timestamp vj since_dt until_dt vj_start_dt
  ok (record { navitia_trip_id = vj.trip_id; start_timestamp = start; navitia_vj = vj })

unfoldable pub get_circulation_date : VehicleJourney → ℤ
get_circulation_date vj = date_of vj.start_timestamp
