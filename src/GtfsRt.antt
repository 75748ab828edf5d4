-- ===== src/GtfsRt.antt =====
-- kirin/gtfs_rt/model_maker.py: building trip updates from a GTFS-RT feed. Navitia's answer is a
-- parameter; logs, metrology and the memoising cache are not modelled.
pub mod Suffix
pub mod Orders
pub mod Effects
pub mod Lookup
use kirin.Prelude.{
  ◌*◌, ℕ, ◌+◌, ◌-◌, ℤ, pos, ◌+ℤ◌, ◌-ℤ◌, ◌*ℤ◌, floor_div, String, Option, none, some, List, [], ◌∷◌,
  ◌++◌, reverse, false, not, ◌==◌, int_eq, string_eq, option_eq, find_first, length, leb,
  if◌then◌else◌, ok, err,
}
use kirin.Types.{
  ModificationType, unchanged, update, get_higher_status, get_effect_by_stop_time_status,
}
use kirin.Model.{
  second, Code, StopPoint, NavStop, NavVj, get_stop_times, StopTimeUpdate, new_stop_time_update,
  VehicleJourney, new_vehicle_journey, TripUpdate, new_trip_update,
}
use kirin.Merge.Loop.{MergeOutcome, merge}

-- A stop of the feed: its delays in seconds are zero where protobuf has none.
pub record FeedStop : Type 0 where
  pub stop_id : String
  pub arrival_delay : ℤ
  pub departure_delay : ℤ

pub record FeedTrip : Type 0 where
  pub trip_id : String
  pub stop_time_update : List FeedStop

-- `self.stop_code_key`
abbrev pub stop_code_key : String
stop_code_key = "source"

-- `self._get_stop_code(nav_stop)`
unfoldable pub get_stop_code : StopPoint → Option String
get_stop_code nav_stop = elim (find_first (λ (c : Code). c.type_ == stop_code_key) nav_stop.codes) [
  | none ↦ none
  | some c ↦ some c.value
]

unfoldable pub init_stop_update : StopPoint → ℕ → StopTimeUpdate
init_stop_update nav_stop stop_sequence = record (new_stop_time_update nav_stop) {
  order = some stop_sequence;
}

-- `read_delay`: no delay where it is zero.
unfoldable pub read_delay : ℤ → Option ℤ
read_delay delay = if delay == pos 0 then none else some (delay *ℤ second)

unfoldable pub delay_status : Option ℤ → ModificationType
delay_status none = unchanged
delay_status (some d) = update

-- `_make_stoptime_update`, with `input_st_update.stop_sequence` as an argument: the loop has just
-- assigned it.
unfoldable pub make_stoptime_update : FeedStop → StopPoint → ℕ → StopTimeUpdate
unfolding read_delay delay_status
make_stoptime_update input_st_update nav_stop stop_sequence =
    let dep_delay = read_delay input_st_update.departure_delay in
    let arr_delay = read_delay input_st_update.arrival_delay in
    record (new_stop_time_update nav_stop) {
      departure_delay = dep_delay;
      arrival_delay = arr_delay;
      departure_status = delay_status dep_delay;
      arrival_status = delay_status arr_delay;
      order = some stop_sequence;
    }

-- The stop time of one round: `none` breaks the loop and makes the trip update invalid.
unfoldable pub match_stop : NavStop → Option FeedStop → ℕ → Option StopTimeUpdate
unfolding init_stop_update make_stoptime_update
match_stop vj_stop tu_stop order = elim vj_stop.stop_point [
  | none ↦ none
  | some sp ↦ elim tu_stop [
    | none ↦ some (init_stop_update sp order)
    | some t ↦
        if get_stop_code sp == some t.stop_id then some (make_stoptime_update t sp order) else none
  ]
]

-- The variables of the loop: the stop times in the order in which they were appended, and the
-- highest status.
pub record Matched : Type 0 where
  pub stop_time_updates : List StopTimeUpdate
  pub highest_st_status : ModificationType

unfoldable pub add_stop : StopTimeUpdate → Matched → Matched
add_stop st m = record {
  stop_time_updates = m.stop_time_updates ++ st ∷ [];
  highest_st_status =
      get_higher_status (get_higher_status m.highest_st_status st.departure_status)
        st.arrival_status;
}

-- The loop over the two reversed lists, the longer one to its end.
unfoldable pub match_stops : List NavStop → List FeedStop → ℕ → Matched → Option Matched
match_stops [] [] order m = some m
match_stops [] (t ∷ ts) order m = none
match_stops (v ∷ vs) [] order m = elim (match_stop v none order) [
  | none ↦ none
  | some st ↦ match_stops vs [] (order - 1) (add_stop st m)
]
match_stops (v ∷ vs) (t ∷ ts) order m = elim (match_stop v (some t) order) [
  | none ↦ none
  | some st ↦ match_stops vs ts (order - 1) (add_stop st m)
]

-- Python's stable sort by order; a missing order is before all others.
abbrev pub sort_key : StopTimeUpdate → ℕ
sort_key st = elim st.order [ none ↦ 0 | some n ↦ n + 1 ]

unfoldable pub insert_by_order : StopTimeUpdate → List StopTimeUpdate → List StopTimeUpdate
insert_by_order x [] = x ∷ []
insert_by_order x (y ∷ ys) =
    if leb (sort_key x) (sort_key y) then x ∷ y ∷ ys else y ∷ insert_by_order x ys

unfoldable pub sort_by_order : List StopTimeUpdate → List StopTimeUpdate
sort_by_order [] = []
sort_by_order (x ∷ xs) = insert_by_order x (sort_by_order xs)

-- The trip update of one vehicle journey, if the stops of the feed match the end of its stops.
unfoldable pub make_trip_update : String → FeedTrip → VehicleJourney → Option TripUpdate
make_trip_update contributor_id input_trip_update vj =
    let vj_stops = get_stop_times vj.navitia_vj in
    elim (match_stops (reverse vj_stops) (reverse input_trip_update.stop_time_update)
      (length vj_stops - 1) (record { stop_time_updates = []; highest_st_status = unchanged })) [
        | none ↦ none
        | some m ↦ some (record (new_trip_update vj contributor_id) {
          stop_time_updates = sort_by_order m.stop_time_updates;
          effect = some (get_effect_by_stop_time_status m.highest_st_status);
        })
      ]

-- `floor_datetime` of kirin/utils.py
unfoldable pub floor_datetime : ℤ → ℤ
floor_datetime dt = floor_div dt (3600 * second) *ℤ (3600 * second)

abbrev pub hour : ℤ
hour = pos (3600 * second)

-- `self.navitia.vehicle_journeys` for a code and a period.
abbrev pub VehicleJourneys : Type 0
VehicleJourneys = String → ℤ → ℤ → List NavVj

-- `_make_db_vj`: one vehicle journey, if exactly one is found and it circulates in the period.
unfoldable pub only_circulation : List NavVj → ℤ → ℤ → List VehicleJourney
only_circulation [] since_dt until_dt = []
only_circulation (nav_vj ∷ []) since_dt until_dt =
    elim (new_vehicle_journey nav_vj since_dt until_dt none) [ ok vj ↦ vj ∷ [] | err e ↦ [] ]
only_circulation (nav_vj ∷ other ∷ rest) since_dt until_dt = []

unfoldable pub make_db_vj : VehicleJourneys → String → ℤ → ℤ → List VehicleJourney
unfolding only_circulation
make_db_vj navitia vj_source_code since_dt until_dt =
    only_circulation (navitia vj_source_code since_dt until_dt) since_dt until_dt

-- `self.period_filter_tolerance`
abbrev pub period_filter_tolerance : ℤ
period_filter_tolerance = pos (3 * (3600 * second))

unfoldable pub get_navitia_vjs : VehicleJourneys → String → ℤ → List VehicleJourney
unfolding make_db_vj floor_datetime
get_navitia_vjs navitia trip_id input_data_time =
    make_db_vj navitia trip_id (floor_datetime (input_data_time -ℤ period_filter_tolerance))
      (floor_datetime (input_data_time +ℤ period_filter_tolerance +ℤ hour))

collect : String → FeedTrip → List VehicleJourney → List TripUpdate
collect contributor_id trip [] = []
collect contributor_id trip (vj ∷ rest) = elim (make_trip_update contributor_id trip vj) [
  | none ↦ collect contributor_id trip rest
  | some tu ↦ tu ∷ collect contributor_id trip rest
]

-- `_make_trip_updates`
unfoldable pub make_trip_updates : VehicleJourneys → String → FeedTrip → ℤ → List TripUpdate
unfolding collect
make_trip_updates navitia contributor_id trip input_data_time =
    collect contributor_id trip (get_navitia_vjs navitia trip.trip_id input_data_time)

-- `merge_trip_updates`: a differential feed.
unfoldable pub merge_trip_updates : NavVj → Option TripUpdate → TripUpdate → MergeOutcome
merge_trip_updates navitia_vj db_trip_update new_trip_update =
    merge navitia_vj db_trip_update new_trip_update false
