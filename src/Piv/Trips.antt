-- ===== src/Piv/Trips.antt =====
-- The vehicle journey and the trip update of a PIV train (kirin/piv/model_maker.py). What navitia
-- answers, `parser.parse` and `datetime.fromtimestamp(0)` are parameters.
use kirin.Prelude.{
  ◌*◌, ℤ, pos, ◌+ℤ◌, ◌-ℤ◌, String, Option, none, some, List, [], ◌∷◌, ◌==◌, string_eq,
  if◌then◌else◌, Result, ok, err, ◌>>=◌, object_not_found,
}
use Prim.Native.String.{◌++◌ as str_append}
use kirin.Types.{
  TripEffect, no_service, modified_service, delete, update, get_effect_by_stop_time_status,
}
use kirin.Model.{
  second, StopPoint, NavVj, VehicleJourney, new_vehicle_journey, TripUpdate, new_trip_update,
}
use kirin.Complete.Values.{get_value}
use kirin.Complete.Drafts.{Draft, start_draft, extract_nav_stop, go_through}
use kirin.Piv.Messages.{Arret}
use kirin.Piv.Disruptions.{Chosen, effect_or_undefined}
use kirin.Piv.Stops.{get_first_stop_base_datetime, make_stop}

-- The answers of navitia: the vehicle journeys with a code "rt_piv", the ids of the companies with a
-- code "source", those of the physical modes at a uri, the stop points in a stop area with a code
-- "source".
pub record Navitia : Type 0 where
  pub vehicle_journeys : String → List NavVj
  pub companies : String → List (Option String)
  pub physical_modes : String → List (Option String)
  pub stop_points : String → List StopPoint

pub record Context : Type 0 where
  pub contributor_id : String
  pub navitia : Navitia
  pub parse_datetime : String → Option ℤ
  pub epoch : ℤ

-- The train once its feed is read: `json_train` with the disruption that was chosen and the stops
-- that were kept.
pub record ReadTrain : Type 0 where
  pub numero : String
  pub code_operateur : String
  pub type_mode : String
  pub evenement : Chosen
  pub arrets : List Arret

abbrev pub hour : ℤ
hour = pos (3600 * second)

unfoldable pub make_navitia_empty_vj : String → NavVj
make_navitia_empty_vj piv_key =
    let trip_id = str_append "PIV:REALTIME:" piv_key in
    record {
      id = some (str_append "vehicle_journey:" trip_id);
      trip_id = some trip_id;
      stop_times = none;
    }

-- The body of the `try`, where a missing start cannot be subtracted from.
unfoldable pub vehicle_journey_near : NavVj → Option ℤ → Result VehicleJourney
vehicle_journey_near navitia_vj none = err object_not_found
vehicle_journey_near navitia_vj (some vj_base_start) =
    new_vehicle_journey navitia_vj (vj_base_start -ℤ hour) (vj_base_start +ℤ hour)
      (some vj_base_start)

-- Whatever exception the `try` catches, there is no vehicle journey.
unfoldable pub or_not_found : {A : Type 0} → Result A → Result A
or_not_found (err e) = err object_not_found
or_not_found (ok a) = ok a

-- The only vehicle journey, or the empty one where navitia has none.
unfoldable pub only_vj : String → List NavVj → Result NavVj
unfolding make_navitia_empty_vj
only_vj piv_key [] = ok (make_navitia_empty_vj piv_key)
only_vj piv_key (vj ∷ []) = ok vj
only_vj piv_key (vj ∷ _ ∷ _) = err object_not_found

unfoldable pub get_navitia_vj : Context → String → List Arret → Result VehicleJourney
unfolding only_vj vehicle_journey_near or_not_found get_first_stop_base_datetime
get_navitia_vj cfg piv_key ads = do
  navitia_vj ← only_vj piv_key (cfg.navitia.vehicle_journeys piv_key)
  or_not_found (do
    vj_base_start ← get_first_stop_base_datetime cfg.parse_datetime ads
    vehicle_journey_near navitia_vj vj_base_start)

-- `DEFAULT_COMPANY_CODE`
abbrev pub default_company_code : String
default_company_code = "1187"

abbrev pub default_physical_mode_id : String
default_physical_mode_id = "physical_mode:LongDistanceTrain"

-- The company with this code, else the default one.
unfoldable pub get_navitia_company_id : Navitia → String → Result (Option String)
get_navitia_company_id navitia code = elim (navitia.companies code) [
  | company ∷ _ ↦ ok company
  | [] ↦ elim (navitia.companies default_company_code) [
    | company ∷ _ ↦ ok company
    | [] ↦ err object_not_found
  ]
]

unfoldable pub physical_mode_uri : String → String
physical_mode_uri indicator =
    if indicator == "FERRE"
    then "physical_mode:LongDistanceTrain"
    else if indicator == "ROUTIER"
    then "physical_mode:Coach"
    else default_physical_mode_id

unfoldable pub get_navitia_physical_mode_id : Navitia → String → Option String
unfolding physical_mode_uri
get_navitia_physical_mode_id navitia indicator =
    elim (navitia.physical_modes (physical_mode_uri indicator)) [
      | [] ↦ none
      | physical_mode ∷ _ ↦ physical_mode
    ]

unfoldable pub request_navitia_stop_point : Navitia → String → Option StopPoint
request_navitia_stop_point navitia uic8 = elim (navitia.stop_points uic8) [
  | [] ↦ none
  | stop_point ∷ _ ↦ some stop_point
]

-- The stop point on the vehicle journey, else what navitia knows of the stop area.
unfoldable pub get_navitia_stop_point : Navitia → String → NavVj → Option StopPoint
unfolding extract_nav_stop request_navitia_stop_point
get_navitia_stop_point navitia uic8 nav_vj = elim (extract_nav_stop "source" uic8 nav_vj) [
  | none ↦ request_navitia_stop_point navitia uic8
  | some nav_stop ↦ some nav_stop
]

-- One round of the loop over the stops.
unfoldable pub make_arret : Context → NavVj → Arret → Draft → Result Draft
unfolding get_value get_navitia_stop_point make_stop
make_arret cfg nav_vj arret d = do
  uic8 ← get_value arret.code
  make_stop cfg.parse_datetime cfg.epoch arret (get_navitia_stop_point cfg.navitia uic8 nav_vj) d

-- The effect from the stop times, where the disruption is a modified service.
unfoldable pub final_effect : TripEffect → Draft → TripEffect
unfolding get_effect_by_stop_time_status
final_effect modified_service d = get_effect_by_stop_time_status d.highest_st_status
final_effect effect d = effect

-- What the trip update has of the train, before its status.
unfoldable pub start_trip_update : Context → ReadTrain → VehicleJourney → Option String → TripUpdate
unfolding new_trip_update get_navitia_physical_mode_id effect_or_undefined
start_trip_update cfg train vj company_id = record (new_trip_update vj cfg.contributor_id) {
  headsign = some train.numero;
  company_id = company_id;
  physical_mode_id = get_navitia_physical_mode_id cfg.navitia train.type_mode;
  message = train.evenement.texte;
  effect = some (effect_or_undefined train.evenement.status);
}

abbrev pub with_stops : TripUpdate → TripEffect → Draft → TripUpdate
with_stops tu effect d = record tu {
  status = update;
  stop_time_updates = d.stop_time_updates;
  effect = some effect;
}

unfoldable pub fill_trip_update : Context → ReadTrain → TripUpdate → TripEffect → Result TripUpdate
unfolding make_arret go_through final_effect
fill_trip_update cfg train tu no_service =
    ok (record tu { status = delete; stop_time_updates = [] })
fill_trip_update cfg train tu effect = do
  d ← go_through (make_arret cfg tu.vj.navitia_vj) train.arrets start_draft
  ok (with_stops tu (final_effect effect d) d)

unfoldable pub make_trip_update : Context → ReadTrain → VehicleJourney → Result TripUpdate
unfolding get_navitia_company_id start_trip_update fill_trip_update effect_or_undefined
make_trip_update cfg train vj = do
  company_id ← get_navitia_company_id cfg.navitia train.code_operateur
  fill_trip_update cfg train (start_trip_update cfg train vj company_id)
      (effect_or_undefined train.evenement.status)
