-- ===== src/Cots/Trips.antt =====
-- The trip updates of a COTS train (kirin/cots/model_maker.py: `_make_trip_update`).
use kirin.Prelude.{
  String, Option, none, some, List, [], ◌∷◌, Bool, true, false, ◌==◌, string_eq, if◌then◌else◌,
  Result, ok, ◌>>=◌,
}
use Prim.Native.String.{◌++◌ as str_append}
use kirin.Types.{
  TripEffect, no_service, additional_service, modified_service, add, delete, update,
  get_effect_by_stop_time_status, get_mode_filter,
}
use kirin.Model.{text_truthy, StopPoint, NavVj, VehicleJourney, TripUpdate, new_trip_update}
use kirin.Complete.Values.{get_value}
use kirin.Complete.Drafts.{Draft, start_draft, extract_nav_stop, go_through}
use kirin.Cots.Messages.{TripStatus, supprimee, Version, Pdp}
use kirin.Cots.Stops.{retrieve_interesting_pdp, make_stop}
use kirin.Cots.Actions.{ActionOnTrip, not_added}
use kirin.Cots.Lookup.{Navitia, Context}

abbrev pub first_id : List (Option String) → Option String
first_id [] = none
first_id (id ∷ _) = id

abbrev pub or_text : Option String → Option String → Option String
or_text a b = if text_truthy a then a else b

-- `DEFAULT_COMPANY_ID`
abbrev pub default_company_id : String
default_company_id = "1187"

unfoldable pub get_navitia_company : Navitia → Option String → Option String
get_navitia_company navitia code =
    let asked : String = elim code [
      | none ↦ default_company_id
      | some c ↦ if c == "" then default_company_id else c
    ] in
    or_text (first_id (navitia.companies asked)) (first_id (navitia.companies default_company_id))

unfoldable pub get_navitia_physical_mode : Navitia → Option String → Option String
unfolding get_mode_filter
get_navitia_physical_mode navitia indicator =
    or_text (first_id (navitia.physical_modes (get_mode_filter indicator)))
      (first_id (navitia.physical_modes (get_mode_filter none)))

-- "cr-ci-ch"
abbrev pub external_code : String → String → String → String
external_code cr ci ch = str_append cr (str_append "-" (str_append ci (str_append "-" ch)))

unfoldable pub request_navitia_stop_point : Navitia → String → Option StopPoint
request_navitia_stop_point navitia code = elim (navitia.stop_points code) [
  | [] ↦ none
  | stop_point ∷ _ ↦ some stop_point
]

-- The stop point on the vehicle journey, else what navitia knows of the stop area.
unfoldable pub get_navitia_stop_point : Navitia → String → NavVj → Option StopPoint
unfolding extract_nav_stop request_navitia_stop_point
get_navitia_stop_point navitia code nav_vj = elim (extract_nav_stop "CR-CI-CH" code nav_vj) [
  | none ↦ request_navitia_stop_point navitia code
  | some nav_stop ↦ some nav_stop
]

-- One round of the loop over the stops.
unfoldable pub make_pdp : Context → NavVj → Pdp → Draft → Result Draft
unfolding get_value get_navitia_stop_point make_stop
make_pdp cfg nav_vj pdp d = do
  cr ← get_value pdp.cr
  ci ← get_value pdp.ci
  ch ← get_value pdp.ch
  make_stop cfg.parse_datetime cfg.epoch cfg.message_handler pdp
      (get_navitia_stop_point cfg.navitia (external_code cr ci ch) nav_vj) d

-- What the trip update has of the train, before its status.
unfoldable pub start_trip_update : Context → Version → VehicleJourney → TripUpdate
unfolding new_trip_update get_navitia_company
start_trip_update cfg json_train vj = record (new_trip_update vj cfg.contributor_id) {
  message = elim json_train.id_motif_interne_reference [
    | none ↦ none
    | some id ↦ if id == "" then none else cfg.message_handler id
  ];
  company_id = get_navitia_company cfg.navitia json_train.code_compagnie_transporteur;
}

abbrev pub is_supprimee : TripStatus → Bool
is_supprimee supprimee = true
is_supprimee _ = false

-- Deletes, adds or updates: what is known before the stops.
unfoldable pub start_effect : Context → Version → ActionOnTrip → TripUpdate → TripUpdate
unfolding get_navitia_physical_mode
start_effect cfg json_train not_added tu = record tu {
  status = update;
  effect = some modified_service;
}
start_effect cfg json_train _ tu = record tu {
  status = add;
  effect = some additional_service;
  physical_mode_id = get_navitia_physical_mode cfg.navitia json_train.indicateur_fer;
  headsign = json_train.numero_course;
}

-- The effect from the stop times, unless the trip is added.
unfoldable pub final_effect : ActionOnTrip → Draft → TripEffect
unfolding get_effect_by_stop_time_status
final_effect not_added d = get_effect_by_stop_time_status d.highest_st_status
final_effect _ d = additional_service

abbrev pub with_stops : TripUpdate → TripEffect → Draft → TripUpdate
with_stops tu effect d = record tu { stop_time_updates = d.stop_time_updates; effect = some effect }

unfoldable pub fill_trip_update :
    Context → Version → ActionOnTrip → TripStatus → TripUpdate → Result TripUpdate
unfolding get_value retrieve_interesting_pdp make_pdp go_through start_effect final_effect
fill_trip_update cfg json_train action status tu =
    if is_supprimee status
    then ok (record tu { status = delete; stop_time_updates = []; effect = some no_service })
    else (do
      list_pdp ← get_value json_train.liste_point_de_parcours
      d ← go_through (make_pdp cfg tu.vj.navitia_vj) (retrieve_interesting_pdp list_pdp) start_draft
      ok (with_stops (start_effect cfg json_train action tu) (final_effect action d) d))

unfoldable pub make_trip_update :
    Context → Version → ActionOnTrip → VehicleJourney → Result TripUpdate
unfolding get_value start_trip_update fill_trip_update
make_trip_update cfg json_train action vj = do
  trip_status ← get_value json_train.statut_operationnel
  fill_trip_update cfg json_train action trip_status (start_trip_update cfg json_train vj)
