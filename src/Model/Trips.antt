-- ===== src/Model/Trips.antt =====
-- kirin/core/model.py: `TripUpdate`, the realtime information of one circulation.
use kirin.Prelude.{
  ℕ, String, Option, none, some, List, [], Bool, ◌&&◌, ◌==◌, nat_eq, string_eq, option_eq,
  find_first,
}
use kirin.Types.{ModificationType, unchanged, TripEffect}
use kirin.Model.Circulations.{VehicleJourney}
use kirin.Model.StopUpdates.{StopTimeUpdate}

pub record TripUpdate : Type 0 where
  pub vj : VehicleJourney
  pub status : ModificationType
  pub message : Option String
  pub stop_time_updates : List StopTimeUpdate
  pub company_id : Option String
  pub effect : Option TripEffect
  pub physical_mode_id : Option String
  pub headsign : Option String
  pub contributor_id : String

-- `TripUpdate(vj, contributor_id)` with the defaults of `__init__`.
unfoldable pub new_trip_update : VehicleJourney → String → TripUpdate
new_trip_update vj contributor_id = record {
  vj = vj;
  status = unchanged;
  message = none;
  stop_time_updates = [];
  company_id = none;
  effect = none;
  physical_mode_id = none;
  headsign = none;
  contributor_id = contributor_id;
}

abbrev pub at_stop : Option String → StopTimeUpdate → Bool
at_stop stop_id st = some st.stop_id == stop_id

abbrev pub at_order : Option ℕ → StopTimeUpdate → Bool
at_order order st = st.order == order

-- The stop with this id and order, else the first one with this id.
unfoldable pub find_stop : TripUpdate → Option String → Option ℕ → Option StopTimeUpdate
find_stop tu stop_id order =
    elim (find_first (λ st. at_stop stop_id st && at_order order st) tu.stop_time_updates) [
      | some st ↦ some st
      | none ↦ find_first (at_stop stop_id) tu.stop_time_updates
    ]
