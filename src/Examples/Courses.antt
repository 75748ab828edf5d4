-- ===== src/Examples/Courses.antt =====
-- Runs on a COTS feed: the night train, half an hour late, and a train that is added and deleted.
use kirin.Prelude.{
  ◌*◌, ◌+◌, pos, String, none, some, List, [], ◌∷◌, true, ok, ◌≡◌, ◌⊎◌, refl, SortedBy, All,
  find_first, enumerate, floor_div, floor_mod, ◌*ℤ◌, ◌+ℤ◌, ◌-ℤ◌, exists, insert_by, sorted_by,
}
use mathlib.Core.List.{Perm}
use kirin.Types.{
  ModificationType, add, delete, update, unchanged, significant_delays, no_service,
  additional_service, get_mode_filter, get_higher_status, get_effect_by_stop_time_status,
  get_modification_type_order,
}
use kirin.Model.{
  day, StopTimeUpdate, VehicleJourney, TripUpdate, find_stop, get_stop_times, get_stop_id,
  get_circulation_date, get_stop_event_status, is_not_equal, is_stop_event_added,
  is_stop_event_deleted, new_stop_time_update, combine, date_of, time_of, truthy, text_truthy,
  new_trip_update, new_vehicle_journey, start_timestamp, start_within, start_after, start_time,
  first_start_time,
}
use kirin.Merge.Chain.{Ordered}
use kirin.Complete.Interesting.{interesting, decide_stop, pick_stops}
use kirin.Cots.Messages.{TripStatus, supprimee, perturbee, StopEventKeys, Pdp, Version, CotsFeed}
use kirin.Cots.Stops.{
  has_depart, has_arrivee, is_station, retrieve_interesting_pdp, read_datetime,
  retrieve_stop_event_datetime, retrieve_projected_time, retrieve_stop_event_delay,
  expressed_statuses, is_fully_added_pdp, get_stop_datetime, get_first_stop_datetime,
  add_cots_delay, project, read_updated, read_added, read_traveler_time, read_event,
  check_stop_time_consistency, get_stop_message, make_stop,
}
use kirin.Cots.Actions.{
  previously_added, find_vj_by_period, action_on_trip, require_datetime, trip_added_in_db,
  get_action_on_trip,
}
use kirin.Cots.Headsigns.{
  headsigns, headsigns_of, slice_to_minus, text_take, lstrip_zeros, split_at_slash,
}
use kirin.Cots.Lookup.{
  Context, make_navitia_empty_vj, put, put_made, collect_vjs, checked_vjs, search_vjs, require_vjs,
  get_navitia_vjs, get_vjs,
}
use kirin.Cots.Trips.{
  get_navitia_company, get_navitia_physical_mode, request_navitia_stop_point,
  get_navitia_stop_point, make_pdp, start_trip_update, start_effect, final_effect, fill_trip_update,
  make_trip_update,
}
use kirin.Cots.Building.{
  read_feed, merge_trip_updates, read_version, require_pdps, make_trip_updates,
}
use kirin.Cots.Kept.{retrieve_interesting_pdp-interesting}
use kirin.Cots.Numbers.{Numbers, headsigns-Numbers}
use kirin.Cots.Built.{ReadFrom, Filled, cancelled}
use kirin.Cots.Merging.{IsWellBuilt, read_feed-IsWellBuilt, cots_merge-Ordered}
use kirin.Cots.Life.{feed, here, after, Reaches-add}
use kirin.Examples.{moment, minute, stop_point_a, stop_point_b, night_vj, silent}
use kirin.Merge.Loop.{
  merge, finish, run_loop, yielded, merge_stops, choose_stop_time, stop_point_of, start_state,
  base_event, base_stop_time_update, date_event, event_delay, is_past_midnight, merge_stop,
  new_delay, past_midnight, result_object, take_header, update_recorded,
}
use kirin.Merge.Stops.{
  yield_next_stop_from_trip_update, yield_next_stop_from_base_schedule_vj, find_st_in_vj,
  is_extra_stop, next_stop, next_stops,
}
use kirin.Merge.StopTimes.{
  make_stop_time_update, push_after, get_update_info_of_stop_event, add_delay, delayed, fake_stop,
  from_new_stu, make_fake_realtime_stop_time, time_or_error,
}
use kirin.Merge.Events.{
  is_stop_event_served, find_in, is_new_stop_event_valid, nav_time, same_status, served_in_base,
}
use kirin.Complete.Values.{get_value, as_utc_naive_dt, as_duration}
use kirin.Complete.Drafts.{
  make_stop_update, order_entity, append_stop, are_times_consistent, extract_nav_stop, go_through,
}

abbrev cots_context : Context
cots_context = record {
  contributor_id = "realtime.night";
  navitia = record {
    vehicle_journeys = λ headsign since until. night_vj ∷ [];
    companies = λ code. some "company:SNCF" ∷ [];
    physical_modes = λ filter. some "physical_mode:LongDistanceTrain" ∷ [];
    stop_points = λ code. [];
  };
  parse_datetime = moment;
  message_handler = λ index. none;
  epoch = pos 0;
}

abbrev no_keys : StopEventKeys
no_keys = record {
  horaire_voyageur = none;
  source_horaire_projete_reference = none;
  liste_horaire_projete = none;
  id_motif_interne_reference = none;
}

-- Half an hour late.
abbrev late_keys : String → StopEventKeys
late_keys time = record {
  horaire_voyageur =
      some (record { date_heure = some time; statut_circulation_ope = none; has_keys = true });
  source_horaire_projete_reference = some "ESCALE";
  liste_horaire_projete = some (
      record { source = some "OPE"; pronostic_iv = some (pos 0) }
      ∷ record { source = some "ESCALE"; pronostic_iv = some (pos 1800) }
      ∷ []);
  id_motif_interne_reference = none;
}

abbrev pdp_a : Pdp
pdp_a = record {
  rang = 1;
  type_arret = some "CD";
  cr = some "0087";
  ci = some "8700A";
  ch = some "BV";
  arrivee = no_keys;
  depart = late_keys "23:25";
}

-- A stop that is no station.
abbrev pdp_x : Pdp
pdp_x = record pdp_a { rang = 2; type_arret = some "X" }

abbrev pdp_b : Pdp
pdp_b = record {
  rang = 3;
  type_arret = some "FD";
  cr = some "0087";
  ci = some "8700B";
  ch = some "BV";
  arrivee = late_keys "00:10";
  depart = no_keys;
}

abbrev version : TripStatus → String → Version
version status numero = record {
  numero_course = some numero;
  statut_operationnel = some status;
  id_motif_interne_reference = none;
  code_compagnie_transporteur = none;
  indicateur_fer = none;
  liste_point_de_parcours = some (pdp_b ∷ pdp_x ∷ pdp_a ∷ []);
}

abbrev late_course : CotsFeed
late_course = record { nouvelle_version = some (version perturbee "9580/1") }

abbrev late_at_a : StopTimeUpdate
late_at_a = record {
  order = some 0;
  navitia_stop = stop_point_a;
  stop_id = "stop_point:A";
  message = none;
  departure = none;
  departure_delay = some (pos (30 * minute));
  departure_status = update;
  arrival = none;
  arrival_delay = none;
  arrival_status = unchanged;
}

abbrev late_at_b : StopTimeUpdate
late_at_b = record {
  order = some 1;
  navitia_stop = stop_point_b;
  stop_id = "stop_point:B";
  message = none;
  departure = none;
  departure_delay = none;
  departure_status = unchanged;
  arrival = none;
  arrival_delay = some (pos (30 * minute));
  arrival_status = update;
}

abbrev late_update : TripUpdate
late_update = record silent {
  status = update;
  stop_time_updates = late_at_a ∷ late_at_b ∷ [];
  company_id = some "company:SNCF";
  effect = some significant_delays;
}

-- One trip update for the two numbers of the train.
late_course_read : read_feed cots_context [] late_course ≡ ok (late_update ∷ [])
unfolding read_feed read_version require_pdps make_trip_updates make_navitia_empty_vj put put_made
    collect_vjs checked_vjs search_vjs require_vjs get_navitia_vjs get_vjs get_navitia_company
    get_navitia_physical_mode request_navitia_stop_point get_navitia_stop_point make_pdp
    start_trip_update start_effect final_effect fill_trip_update make_trip_update find_vj_by_period
    action_on_trip require_datetime trip_added_in_db get_action_on_trip lstrip_zeros split_at_slash
    text_take slice_to_minus headsigns_of headsigns is_station retrieve_interesting_pdp
    read_datetime retrieve_stop_event_datetime retrieve_projected_time retrieve_stop_event_delay
    expressed_statuses is_fully_added_pdp get_stop_datetime get_first_stop_datetime add_cots_delay
    project read_updated read_added read_traveler_time read_event check_stop_time_consistency
    get_stop_message make_stop get_value as_utc_naive_dt as_duration make_stop_update order_entity
    append_stop are_times_consistent extract_nav_stop go_through decide_stop pick_stops
    get_mode_filter get_higher_status get_effect_by_stop_time_status get_modification_type_order
    text_truthy new_trip_update get_stop_times new_vehicle_journey start_timestamp start_within
    start_after start_time first_start_time date_of combine find_first exists insert_by sorted_by
    floor_div ◌*ℤ◌ ◌+ℤ◌ ◌-ℤ◌
late_course_read = refl

late_update_merged : (merge_trip_updates night_vj none late_update).reply ≡ ok true
unfolding merge_trip_updates merge finish run_loop yielded merge_stops choose_stop_time
    stop_point_of start_state base_event base_stop_time_update date_event event_delay
    is_past_midnight merge_stop new_delay past_midnight result_object take_header update_recorded
    yield_next_stop_from_trip_update yield_next_stop_from_base_schedule_vj find_st_in_vj
    is_extra_stop next_stop next_stops make_stop_time_update push_after
    get_update_info_of_stop_event add_delay delayed fake_stop from_new_stu
    make_fake_realtime_stop_time time_or_error is_stop_event_served find_in is_new_stop_event_valid
    nav_time same_status served_in_base find_stop get_stop_times get_stop_id get_circulation_date
    get_stop_event_status is_not_equal is_stop_event_added is_stop_event_deleted
    new_stop_time_update combine date_of time_of truthy find_first enumerate floor_div floor_mod
    ◌*ℤ◌ ◌+ℤ◌ ◌-ℤ◌
late_update_merged = refl

retrieve_interesting_pdp-interesting_example :
    (l : List Pdp) × Perm l (pdp_b ∷ pdp_x ∷ pdp_a ∷ [])
    × SortedBy (λ (p : Pdp). p.rang) l
    × (retrieve_interesting_pdp (pdp_b ∷ pdp_x ∷ pdp_a ∷ [])
        ≡ interesting has_depart has_arrivee is_station l)
retrieve_interesting_pdp-interesting_example =
    retrieve_interesting_pdp-interesting (pdp_b ∷ pdp_x ∷ pdp_a ∷ [])

read_feed-IsWellBuilt_example : All IsWellBuilt (late_update ∷ [])
read_feed-IsWellBuilt_example =
    read_feed-IsWellBuilt cots_context [] late_course (late_update ∷ []) late_course_read

cots_merge-Ordered_example :
    Ordered none (merge_trip_updates night_vj none late_update).res.stop_time_updates
cots_merge-Ordered_example =
    cots_merge-Ordered cots_context [] late_course [] late_update [] night_vj none late_course_read
      refl late_update_merged

-- With nothing after "/" the second number is empty.
headsigns_empty : headsigns "02038/" ≡ "2038" ∷ "" ∷ []
unfolding headsigns headsigns_of slice_to_minus lstrip_zeros split_at_slash
headsigns_empty = refl

headsigns_two : headsigns "002038/12" ≡ "2038" ∷ "2012" ∷ []
unfolding headsigns headsigns_of slice_to_minus lstrip_zeros split_at_slash text_take
headsigns_two = refl

headsigns-Numbers_example : Numbers "02038/" (headsigns "02038/")
headsigns-Numbers_example = headsigns-Numbers "02038/"

-- The train 9581 is not in the base schedule.
abbrev added_vj : VehicleJourney
added_vj = record {
  navitia_trip_id = some "OCE:SN:9581";
  start_timestamp = pos (19000 * day + 1405 * minute);
  navitia_vj = record { id = some "OCE:SN:9581"; trip_id = some "OCE:SN:9581"; stop_times = none };
}

abbrev added_course : TripUpdate
added_course = record late_update { vj = added_vj; status = add; effect = some additional_service }

abbrev deleted_course : TripUpdate
deleted_course = record silent {
  vj = added_vj;
  status = delete;
  company_id = some "company:SNCF";
  effect = some no_service;
}

abbrev deletion : CotsFeed
deletion = record { nouvelle_version = some (version supprimee "9581") }

deletion_found :
    trip_added_in_db moment (added_course ∷ []) "9581" (pdp_a ∷ pdp_b ∷ []) ≡ ok (some added_course)
unfolding read_feed read_version require_pdps make_trip_updates make_navitia_empty_vj put put_made
    collect_vjs checked_vjs search_vjs require_vjs get_navitia_vjs get_vjs get_navitia_company
    get_navitia_physical_mode request_navitia_stop_point get_navitia_stop_point make_pdp
    start_trip_update start_effect final_effect fill_trip_update make_trip_update find_vj_by_period
    action_on_trip require_datetime trip_added_in_db get_action_on_trip lstrip_zeros split_at_slash
    text_take slice_to_minus headsigns_of headsigns is_station retrieve_interesting_pdp
    read_datetime retrieve_stop_event_datetime retrieve_projected_time retrieve_stop_event_delay
    expressed_statuses is_fully_added_pdp get_stop_datetime get_first_stop_datetime add_cots_delay
    project read_updated read_added read_traveler_time read_event check_stop_time_consistency
    get_stop_message make_stop get_value as_utc_naive_dt as_duration make_stop_update order_entity
    append_stop are_times_consistent extract_nav_stop go_through decide_stop pick_stops
    get_mode_filter get_higher_status get_effect_by_stop_time_status get_modification_type_order
    text_truthy new_trip_update get_stop_times new_vehicle_journey start_timestamp start_within
    start_after start_time first_start_time date_of combine find_first exists insert_by sorted_by
    floor_div ◌*ℤ◌ ◌+ℤ◌ ◌-ℤ◌
deletion_found = refl

deletion_decided : action_on_trip (some supprimee) (some add) ≡ ok previously_added
unfolding action_on_trip
deletion_decided = refl

deletion_vjs :
    get_vjs cots_context "9581" (pdp_a ∷ pdp_b ∷ []) previously_added ≡ ok (added_vj ∷ [])
unfolding read_feed read_version require_pdps make_trip_updates make_navitia_empty_vj put put_made
    collect_vjs checked_vjs search_vjs require_vjs get_navitia_vjs get_vjs get_navitia_company
    get_navitia_physical_mode request_navitia_stop_point get_navitia_stop_point make_pdp
    start_trip_update start_effect final_effect fill_trip_update make_trip_update find_vj_by_period
    action_on_trip require_datetime trip_added_in_db get_action_on_trip lstrip_zeros split_at_slash
    text_take slice_to_minus headsigns_of headsigns is_station retrieve_interesting_pdp
    read_datetime retrieve_stop_event_datetime retrieve_projected_time retrieve_stop_event_delay
    expressed_statuses is_fully_added_pdp get_stop_datetime get_first_stop_datetime add_cots_delay
    project read_updated read_added read_traveler_time read_event check_stop_time_consistency
    get_stop_message make_stop get_value as_utc_naive_dt as_duration make_stop_update order_entity
    append_stop are_times_consistent extract_nav_stop go_through decide_stop pick_stops
    get_mode_filter get_higher_status get_effect_by_stop_time_status get_modification_type_order
    text_truthy new_trip_update get_stop_times new_vehicle_journey start_timestamp start_within
    start_after start_time first_start_time date_of combine find_first exists insert_by sorted_by
    floor_div ◌*ℤ◌ ◌+ℤ◌ ◌-ℤ◌
deletion_vjs = refl

deletion-Filled :
    Filled cots_context
      (version supprimee "9581")
      previously_added
      supprimee
      (start_trip_update cots_context (version supprimee "9581") added_vj)
      deleted_course
unfolding read_feed read_version require_pdps make_trip_updates make_navitia_empty_vj put put_made
    collect_vjs checked_vjs search_vjs require_vjs get_navitia_vjs get_vjs get_navitia_company
    get_navitia_physical_mode request_navitia_stop_point get_navitia_stop_point make_pdp
    start_trip_update start_effect final_effect fill_trip_update make_trip_update find_vj_by_period
    action_on_trip require_datetime trip_added_in_db get_action_on_trip lstrip_zeros split_at_slash
    text_take slice_to_minus headsigns_of headsigns is_station retrieve_interesting_pdp
    read_datetime retrieve_stop_event_datetime retrieve_projected_time retrieve_stop_event_delay
    expressed_statuses is_fully_added_pdp get_stop_datetime get_first_stop_datetime add_cots_delay
    project read_updated read_added read_traveler_time read_event check_stop_time_consistency
    get_stop_message make_stop get_value as_utc_naive_dt as_duration make_stop_update order_entity
    append_stop are_times_consistent extract_nav_stop go_through decide_stop pick_stops
    get_mode_filter get_higher_status get_effect_by_stop_time_status get_modification_type_order
    text_truthy new_trip_update get_stop_times new_vehicle_journey start_timestamp start_within
    start_after start_time first_start_time date_of combine find_first exists insert_by sorted_by
    floor_div ◌*ℤ◌ ◌+ℤ◌ ◌-ℤ◌
deletion-Filled = cancelled refl

-- What is read of the deletion, which finds the added train.
abbrev deletion_read : ReadFrom cots_context (added_course ∷ []) deletion (deleted_course ∷ [])
deletion_read = record {
  dict_version = version supprimee "9581";
  train_numbers = "9581";
  pdps = pdp_a ∷ pdp_b ∷ [];
  action = previously_added;
  vjs = added_vj ∷ [];
  version = refl;
  numbered = refl;
  recorded = some added_course;
  looked_up = deletion_found;
  decided = deletion_decided;
  found = deletion_vjs;
  filled = (record { status = supprimee; has_status = refl; filled = deletion-Filled }, tt);
}

Reaches-add_example : ◌≡◌ {A = ModificationType} delete add ⊎ (delete ≡ delete)
Reaches-add_example =
    Reaches-add delete (
      after here
        (feed cots_context (added_course ∷ []) deletion [] deleted_course [] deletion_read))
