-- ===== src/Cots/Lookup.antt =====
-- The vehicle journeys of a COTS train (kirin/cots/model_maker.py: `_get_vjs`, `_get_navitia_vjs`).
-- What navitia and the message handler answer, `parser.parse` and `datetime.fromtimestamp(0)` are
-- parameters.
use kirin.Prelude.{
  ℤ, ◌+ℤ◌, ◌-ℤ◌, String, Option, none, some, List, [], ◌∷◌, reverse, map, Bool, true, false, ◌==◌,
  string_eq, if◌then◌else◌, Result, ok, err, ◌>>=◌, invalid_arguments, object_not_found,
}
use kirin.Model.{arrival, departure, StopPoint, NavVj, VehicleJourney, new_vehicle_journey}
use kirin.Cots.Messages.{Pdp}
use kirin.Cots.Headsigns.{headsigns}
use kirin.Cots.Stops.{get_first_stop_datetime}
use kirin.Cots.Actions.{
  ActionOnTrip, not_added, first_time_added, previously_added, train_id, sncf_search_margin,
}

-- The answers of navitia: the vehicle journeys with a headsign in a period, the ids of the companies
-- with a code "RefProd", those of the physical modes that pass a filter, the stop points in a stop
-- area with a code "CR-CI-CH".
pub record Navitia : Type 0 where
  pub vehicle_journeys : String → ℤ → ℤ → List NavVj
  pub companies : String → List (Option String)
  pub physical_modes : String → List (Option String)
  pub stop_points : String → List StopPoint

-- `message_handler` is its `get_message`.
pub record Context : Type 0 where
  pub contributor_id : String
  pub navitia : Navitia
  pub parse_datetime : String → Option ℤ
  pub message_handler : String → Option String
  pub epoch : ℤ

unfoldable pub make_navitia_empty_vj : String → NavVj
make_navitia_empty_vj headsign = record {
  id = some (train_id headsign);
  trip_id = some (train_id headsign);
  stop_times = none;
}

-- A dictionary from the ids of navitia's vehicle journeys, its values in the order of insertion (the
-- code relies on no order).
unfoldable pub put :
    String → VehicleJourney → List (String × VehicleJourney) → List (String × VehicleJourney)
put id vj [] = (id, vj) ∷ []
put id vj (entry ∷ rest) =
    let others = put id vj rest in if entry.0 == id then (id, vj) ∷ rest else entry ∷ others

-- The body of the `try`, which passes over what it cannot make or has no id.
unfoldable pub put_made :
    Option String
    → Result VehicleJourney
    → List (String × VehicleJourney)
    → List (String × VehicleJourney)
unfolding put
put_made none made vjs = vjs
put_made (some id) (err e) vjs = vjs
put_made (some id) (ok vj) vjs = put id vj vjs

unfoldable pub collect_vjs :
    ℤ → ℤ → List NavVj → List (String × VehicleJourney) → List (String × VehicleJourney)
unfolding put_made
collect_vjs since_dt until_dt [] vjs = vjs
collect_vjs since_dt until_dt (nav_vj ∷ rest) vjs = collect_vjs since_dt until_dt rest (
    put_made nav_vj.id
      (new_vehicle_journey nav_vj (since_dt -ℤ sncf_search_margin) (until_dt +ℤ sncf_search_margin)
        (some since_dt))
      vjs)

-- The vehicle journeys to go through for one number of the train.
unfoldable pub checked_vjs : ActionOnTrip → String → List NavVj → Result (List NavVj)
unfolding make_navitia_empty_vj
checked_vjs not_added train_number navitia_vjs = ok navitia_vjs
checked_vjs first_time_added train_number (vj ∷ _) = err invalid_arguments
checked_vjs first_time_added train_number [] = ok (make_navitia_empty_vj train_number ∷ [])
checked_vjs previously_added train_number navitia_vjs = ok (make_navitia_empty_vj train_number ∷ [])

-- The loop over the numbers of the train.
unfoldable pub search_vjs :
    Navitia
    → ActionOnTrip
    → ℤ
    → ℤ
    → List String
    → List (String × VehicleJourney)
    → Result (List (String × VehicleJourney))
unfolding checked_vjs collect_vjs
search_vjs navitia action since_dt until_dt [] vjs = ok vjs
search_vjs navitia action since_dt until_dt (train_number ∷ rest) vjs = do
  navitia_vjs ← checked_vjs action train_number (
      navitia.vehicle_journeys train_number (since_dt -ℤ sncf_search_margin)
        (until_dt +ℤ sncf_search_margin))
  search_vjs navitia action since_dt until_dt rest (collect_vjs since_dt until_dt navitia_vjs vjs)

unfoldable pub require_vjs : List (String × VehicleJourney) → Result (List VehicleJourney)
require_vjs [] = err object_not_found
require_vjs (entry ∷ rest) = ok (map (λ (e : String × VehicleJourney). e.1) (entry ∷ rest))

-- Without a start or an end there is no vehicle journey, and nothing is raised.
unfoldable pub get_navitia_vjs :
    Navitia → String → Option ℤ → Option ℤ → ActionOnTrip → Result (List VehicleJourney)
unfolding headsigns search_vjs require_vjs
get_navitia_vjs navitia headsign_str none until_dt action = ok []
get_navitia_vjs navitia headsign_str (some since_dt) none action = ok []
get_navitia_vjs navitia headsign_str (some since_dt) (some until_dt) action = do
  vjs ← search_vjs navitia action since_dt until_dt (headsigns headsign_str) []
  require_vjs vjs

abbrev pub is_not_added : ActionOnTrip → Bool
is_not_added not_added = true
is_not_added _ = false

unfoldable pub get_vjs : Context → String → List Pdp → ActionOnTrip → Result (List VehicleJourney)
unfolding get_navitia_vjs get_first_stop_datetime
get_vjs cfg train_numbers pdps action = do
  vj_start ← get_first_stop_datetime cfg.parse_datetime pdps departure (is_not_added action)
  vj_end ← get_first_stop_datetime cfg.parse_datetime (reverse pdps) arrival (is_not_added action)
  get_navitia_vjs cfg.navitia train_numbers vj_start vj_end action
