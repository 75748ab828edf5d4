-- ===== src/Examples/Trains.antt =====
-- Runs on a PIV feed: the night train, half an hour late.
use kirin.Prelude.{
  ◌*◌, ◌+◌, ℤ, pos, String, none, some, List, [], ◌∷◌, true, false, string_eq, ok, ◌≡◌, ◌≢◌, ◌⊎◌,
  refl, SortedBy, ◌+ℤ◌, ◌-ℤ◌, find_first, exists, insert_by, sorted_by, floor_div, ◌*ℤ◌, enumerate,
  floor_mod,
}
use mathlib.Core.List.{Perm}
use kirin.Types.{
  update, unchanged, significant_delays, undefined, get_higher_status,
  get_effect_by_stop_time_status, get_modification_type_order,
}
use kirin.Model.{
  text_truthy, day, StopTimeUpdate, TripUpdate, new_trip_update, get_stop_times,
  new_vehicle_journey, start_timestamp, start_within, start_after, start_time, first_start_time,
  date_of, combine, find_stop, get_stop_id, get_circulation_date, get_stop_event_status,
  is_not_equal, is_stop_event_added, is_stop_event_deleted, new_stop_time_update, time_of, truthy,
}
use kirin.Model.Start.{IsWithin}
use kirin.Merge.Chain.{Ordered}
use kirin.Complete.Values.{missing, value, get_value, as_utc_naive_dt, as_duration}
use kirin.Complete.Interesting.{interesting, decide_stop, pick_stops}
use kirin.Complete.Rounds.{Timed}
use kirin.Feed.{convert_to_gtfsrt}
use kirin.Piv.Messages.{
  retard, other_trip_status, modification_limitation, retard_observe, Disruption, PlannedEvent,
  Arret, Train, PivFeed,
}
use kirin.Piv.Disruptions.{
  select_disruption, trip_piv_status_to_effect, trip_effect_order, effect_or_undefined,
  get_trip_effect_order_from_piv_status, is_managed, prefer, choose_disruption, require_effect,
  require_source,
}
use kirin.Piv.Stops.{
  has_departure, has_arrival, is_stop, retrieve_interesting_stops, is_added_event,
  is_fully_added_stop, get_base_datetime, get_first_stop_base_datetime, or_read, event_texte,
  get_message, get_event_status, modification_of, get_real_datetime, get_event_delay, read_event,
  check_stop_time_consistency, make_stop,
}
use kirin.Piv.Trips.{
  Context, ReadTrain, hour, make_trip_update, get_navitia_vj, make_navitia_empty_vj,
  vehicle_journey_near, or_not_found, only_vj, get_navitia_company_id, physical_mode_uri,
  get_navitia_physical_mode_id, request_navitia_stop_point, get_navitia_stop_point, make_arret,
  final_effect, start_trip_update, fill_trip_update,
}
use kirin.Piv.Building.{
  build_trip_update, merge_trip_updates, first_object, read_train, require_stops, join,
}
use kirin.Piv.Choice.{Selects, select_disruption_highest}
use kirin.Piv.Kept.{retrieve_interesting_stops-interesting}
use kirin.Piv.Times.{build_trip_update-Timed}
use kirin.Piv.Merging.{merge_trip_updates-Ordered, build_trip_update-unpublished}
use kirin.Piv.Listing.{Lists, make_trip_update-Lists, get_navitia_vj-near}
use kirin.Examples.{moment, minute, stop_point_a, stop_point_b, night_vj, night}
use kirin.Complete.Drafts.{
  make_stop_update, order_entity, append_stop, are_times_consistent, extract_nav_stop, go_through,
}
use kirin.Merge.Loop.{
  merge, finish, run_loop, yielded, merge_stops, choose_stop_time, stop_point_of, start_state,
  base_event, base_stop_time_update, date_event, event_delay, is_past_midnight, merge_stop,
  new_delay, past_midnight, result_object, take_header, update_recorded,
}
use kirin.Merge.Stops.{
  yield_next_stop_from_trip_update, yield_next_stop_from_base_schedule_vj, find_st_in_vj,
  is_extra_stop, next_stop, next_stops,
}
use kirin.Merge.StopTimes.{
  make_stop_time_update, push_after, get_update_info_of_stop_event, add_delay, delayed, fake_stop,
  from_new_stu, make_fake_realtime_stop_time, time_or_error,
}
use kirin.Merge.Events.{
  is_stop_event_served, find_in, is_new_stop_event_valid, nav_time, same_status, served_in_base,
}

abbrev night_context : Context
night_context = record {
  contributor_id = "realtime.night";
  navitia = record {
    vehicle_journeys = λ key. night_vj ∷ [];
    companies = λ code. some "company:SNCF" ∷ [];
    physical_modes = λ uri. some uri ∷ [];
    stop_points = λ code. [];
  };
  parse_datetime = moment;
  epoch = pos 0;
}

abbrev late_event : String → String → PlannedEvent
late_event planned real = record {
  date_heure = some planned;
  date_heure_reelle = some real;
  plan_transport_source = none;
  motif_modification = none;
  statut_modification = missing;
  evenement = value (record {
    type_ = some retard_observe;
    texte = some "Trafic";
    retard_duree = value (value (pos 30));
  });
}

abbrev arret_a : Arret
arret_a = record {
  rang = 1;
  arrivee = none;
  depart = some (late_event "23:25" "23:55");
  indicateur_montee_interdite = false;
  indicateur_descente_interdite = false;
  code = some "8700A";
}

abbrev arret_b : Arret
arret_b = record {
  rang = 2;
  arrivee = some (late_event "00:10" "00:40");
  depart = none;
  indicateur_montee_interdite = false;
  indicateur_descente_interdite = false;
  code = some "8700B";
}

-- After the last stop where one can get off.
abbrev arret_c : Arret
arret_c = record arret_a { rang = 3; code = some "8700C" }

abbrev arrets : List Arret
arrets = arret_c ∷ arret_b ∷ arret_a ∷ []

abbrev late_disruption : Disruption
late_disruption = record { type_ = some retard; texte = some "Retard" }

abbrev night_train : Train
night_train = record {
  evenement =
      some (record late_disruption { type_ = some (other_trip_status "?") } ∷ late_disruption ∷ []);
  plan_transport_source = none;
  date_circulation = some "20220107";
  numero = some "9580";
  code_operateur = some "1187";
  mode_transport =
      some (record { code_mode = some "00"; code_sous_mode = some "01"; type_mode = some "FERRE" });
  arrets = some arrets;
}

abbrev late_feed : PivFeed
late_feed = record { objects = some (some night_train ∷ []) }

-- Nothing is said of the trip, which comes from the operational plan.
abbrev planned_train : Train
planned_train = record night_train { evenement = none; plan_transport_source = some "OPE" }

abbrev planned_feed : PivFeed
planned_feed = record { objects = some (some planned_train ∷ []) }

abbrev read_night : ReadTrain
read_night = record {
  numero = "9580";
  code_operateur = "1187";
  type_mode = "FERRE";
  evenement = record { status = retard; texte = some "Retard" };
  arrets = arret_a ∷ arret_b ∷ [];
}

abbrev late_a : StopTimeUpdate
late_a = record {
  order = some 0;
  navitia_stop = stop_point_a;
  stop_id = "stop_point:A";
  message = some "Trafic";
  departure = some (pos (19000 * day + 1435 * minute));
  departure_delay = some (pos (30 * minute));
  departure_status = update;
  arrival = none;
  arrival_delay = none;
  arrival_status = unchanged;
}

abbrev late_b : StopTimeUpdate
late_b = record {
  order = some 1;
  navitia_stop = stop_point_b;
  stop_id = "stop_point:B";
  message = some "Trafic";
  departure = none;
  departure_delay = none;
  departure_status = unchanged;
  arrival = some (pos (19001 * day + 40 * minute));
  arrival_delay = some (pos (30 * minute));
  arrival_status = update;
}

abbrev late_night : TripUpdate
late_night = record {
  vj = night;
  status = update;
  message = some "Retard";
  stop_time_updates = late_a ∷ late_b ∷ [];
  company_id = some "company:SNCF";
  effect = some significant_delays;
  physical_mode_id = some "physical_mode:LongDistanceTrain";
  headsign = some "9580";
  contributor_id = "realtime.night";
}

abbrev planned_night : TripUpdate
planned_night = record late_night { message = some ""; effect = some undefined }

late_night_built : build_trip_update night_context late_feed ≡ ok late_night
unfolding build_trip_update first_object read_train require_stops join merge_trip_updates
    make_navitia_empty_vj vehicle_journey_near or_not_found only_vj get_navitia_vj
    get_navitia_company_id physical_mode_uri get_navitia_physical_mode_id request_navitia_stop_point
    get_navitia_stop_point make_arret final_effect start_trip_update fill_trip_update
    make_trip_update has_departure has_arrival retrieve_interesting_stops is_added_event
    is_fully_added_stop get_base_datetime get_first_stop_base_datetime or_read event_texte
    get_message get_event_status modification_of get_real_datetime get_event_delay read_event
    check_stop_time_consistency make_stop trip_piv_status_to_effect trip_effect_order
    effect_or_undefined get_trip_effect_order_from_piv_status is_managed prefer choose_disruption
    require_effect require_source select_disruption get_value as_utc_naive_dt as_duration
    make_stop_update order_entity append_stop are_times_consistent extract_nav_stop go_through
    decide_stop pick_stops get_higher_status get_effect_by_stop_time_status
    get_modification_type_order text_truthy new_trip_update get_stop_times new_vehicle_journey
    start_timestamp start_within start_after start_time first_start_time date_of combine find_first
    exists insert_by sorted_by floor_div ◌*ℤ◌ ◌+ℤ◌ ◌-ℤ◌
late_night_built = refl

planned_night_built : build_trip_update night_context planned_feed ≡ ok planned_night
unfolding build_trip_update first_object read_train require_stops join merge_trip_updates
    make_navitia_empty_vj vehicle_journey_near or_not_found only_vj get_navitia_vj
    get_navitia_company_id physical_mode_uri get_navitia_physical_mode_id request_navitia_stop_point
    get_navitia_stop_point make_arret final_effect start_trip_update fill_trip_update
    make_trip_update has_departure has_arrival retrieve_interesting_stops is_added_event
    is_fully_added_stop get_base_datetime get_first_stop_base_datetime or_read event_texte
    get_message get_event_status modification_of get_real_datetime get_event_delay read_event
    check_stop_time_consistency make_stop trip_piv_status_to_effect trip_effect_order
    effect_or_undefined get_trip_effect_order_from_piv_status is_managed prefer choose_disruption
    require_effect require_source select_disruption get_value as_utc_naive_dt as_duration
    make_stop_update order_entity append_stop are_times_consistent extract_nav_stop go_through
    decide_stop pick_stops get_higher_status get_effect_by_stop_time_status
    get_modification_type_order text_truthy new_trip_update get_stop_times new_vehicle_journey
    start_timestamp start_within start_after start_time first_start_time date_of combine find_first
    exists insert_by sorted_by floor_div ◌*ℤ◌ ◌+ℤ◌ ◌-ℤ◌
planned_night_built = refl

first_planned : first_object planned_feed ≡ ok planned_train
unfolding first_object get_value
first_planned = refl

late_night_made : make_trip_update night_context read_night night ≡ ok late_night
unfolding build_trip_update first_object read_train require_stops join merge_trip_updates
    make_navitia_empty_vj vehicle_journey_near or_not_found only_vj get_navitia_vj
    get_navitia_company_id physical_mode_uri get_navitia_physical_mode_id request_navitia_stop_point
    get_navitia_stop_point make_arret final_effect start_trip_update fill_trip_update
    make_trip_update has_departure has_arrival retrieve_interesting_stops is_added_event
    is_fully_added_stop get_base_datetime get_first_stop_base_datetime or_read event_texte
    get_message get_event_status modification_of get_real_datetime get_event_delay read_event
    check_stop_time_consistency make_stop trip_piv_status_to_effect trip_effect_order
    effect_or_undefined get_trip_effect_order_from_piv_status is_managed prefer choose_disruption
    require_effect require_source select_disruption get_value as_utc_naive_dt as_duration
    make_stop_update order_entity append_stop are_times_consistent extract_nav_stop go_through
    decide_stop pick_stops get_higher_status get_effect_by_stop_time_status
    get_modification_type_order text_truthy new_trip_update get_stop_times new_vehicle_journey
    start_timestamp start_within start_after start_time first_start_time date_of combine find_first
    exists insert_by sorted_by floor_div ◌*ℤ◌ ◌+ℤ◌ ◌-ℤ◌
late_night_made = refl

night_found :
    get_navitia_vj night_context "20220107:9580:1187:00:01:FERRE" (arret_a ∷ arret_b ∷ [])
    ≡ ok night
unfolding build_trip_update first_object read_train require_stops join merge_trip_updates
    make_navitia_empty_vj vehicle_journey_near or_not_found only_vj get_navitia_vj
    get_navitia_company_id physical_mode_uri get_navitia_physical_mode_id request_navitia_stop_point
    get_navitia_stop_point make_arret final_effect start_trip_update fill_trip_update
    make_trip_update has_departure has_arrival retrieve_interesting_stops is_added_event
    is_fully_added_stop get_base_datetime get_first_stop_base_datetime or_read event_texte
    get_message get_event_status modification_of get_real_datetime get_event_delay read_event
    check_stop_time_consistency make_stop trip_piv_status_to_effect trip_effect_order
    effect_or_undefined get_trip_effect_order_from_piv_status is_managed prefer choose_disruption
    require_effect require_source select_disruption get_value as_utc_naive_dt as_duration
    make_stop_update order_entity append_stop are_times_consistent extract_nav_stop go_through
    decide_stop pick_stops get_higher_status get_effect_by_stop_time_status
    get_modification_type_order text_truthy new_trip_update get_stop_times new_vehicle_journey
    start_timestamp start_within start_after start_time first_start_time date_of combine find_first
    exists insert_by sorted_by floor_div ◌*ℤ◌ ◌+ℤ◌ ◌-ℤ◌
night_found = refl

late_night_merged : (merge_trip_updates night_vj none late_night).reply ≡ ok true
unfolding merge_trip_updates merge finish run_loop yielded merge_stops choose_stop_time
    stop_point_of start_state base_event base_stop_time_update date_event event_delay
    is_past_midnight merge_stop new_delay past_midnight result_object take_header update_recorded
    yield_next_stop_from_trip_update yield_next_stop_from_base_schedule_vj find_st_in_vj
    is_extra_stop next_stop next_stops make_stop_time_update push_after
    get_update_info_of_stop_event add_delay delayed fake_stop from_new_stu
    make_fake_realtime_stop_time time_or_error is_stop_event_served find_in is_new_stop_event_valid
    nav_time same_status served_in_base find_stop get_stop_times get_stop_id get_circulation_date
    get_stop_event_status is_not_equal is_stop_event_added is_stop_event_deleted
    new_stop_time_update combine date_of time_of truthy find_first enumerate floor_div floor_mod
    ◌*ℤ◌ ◌+ℤ◌ ◌-ℤ◌
late_night_merged = refl

select_disruption_highest_example :
    Selects
      (late_disruption ∷ record late_disruption { type_ = some modification_limitation } ∷ [])
      (select_disruption
        (some
          (late_disruption ∷ record late_disruption { type_ = some modification_limitation } ∷ []))
        none)
select_disruption_highest_example =
    select_disruption_highest late_disruption
      (record late_disruption { type_ = some modification_limitation } ∷ []) none

retrieve_interesting_stops-interesting_example :
    (l : List Arret) × Perm l arrets
    × SortedBy (λ (a : Arret). a.rang) l
    × (retrieve_interesting_stops arrets ≡ interesting has_departure has_arrival is_stop l)
retrieve_interesting_stops-interesting_example = retrieve_interesting_stops-interesting arrets

build_trip_update-Timed_example : Timed (pos 0) none (late_a ∷ late_b ∷ [])
build_trip_update-Timed_example =
    build_trip_update-Timed night_context late_feed late_night late_night_built

merge_trip_updates-Ordered_example :
    Ordered none (merge_trip_updates night_vj none late_night).res.stop_time_updates
merge_trip_updates-Ordered_example =
    merge_trip_updates-Ordered night_context late_feed night_vj none late_night late_night_built
      refl late_night_merged

build_trip_update-unpublished_example :
    convert_to_gtfsrt ((merge_trip_updates night_vj none planned_night).res ∷ []) ≢ ok []
build_trip_update-unpublished_example =
    build_trip_update-unpublished night_context planned_feed planned_train night_vj none
      planned_night first_planned refl planned_night_built []

make_trip_update-Lists_example : Lists night_context read_night night late_night
make_trip_update-Lists_example =
    make_trip_update-Lists night_context read_night night late_night late_night_made

get_navitia_vj-near_example :
    (start : ℤ) × (get_first_stop_base_datetime moment (arret_a ∷ arret_b ∷ []) ≡ ok (some start))
    × IsWithin (start -ℤ hour) (start +ℤ hour) night.start_timestamp
    × ((night_vj ∷ [] ≡ night_vj ∷ [])
        ⊎ ((night_vj ∷ [] ≡ [])
            × (night_vj ≡ make_navitia_empty_vj "20220107:9580:1187:00:01:FERRE")))
get_navitia_vj-near_example =
    get_navitia_vj-near night_context "20220107:9580:1187:00:01:FERRE" (arret_a ∷ arret_b ∷ [])
      night night_found
