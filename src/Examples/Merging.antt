-- ===== src/Examples/Merging.antt =====
-- Runs of `merge`.
use kirin.Prelude.{
  ◌*◌, ◌+◌, ℤ, pos, none, some, [], ◌∷◌, map, ok, ◌≡◌, refl, true, false, Bool, enumerate, ◌<◌,
  arith, ◌-ℤ◌, ◌+ℤ◌, find_first, floor_div, floor_mod, ◌*ℤ◌,
}
use kirin.Types.{update, delete}
use kirin.Model.{
  get_circulation_date, get_stop_id, get_stop_times, day, combine, StopTimeUpdate, TripUpdate,
  find_stop, get_circulation_date, get_stop_event_status, is_not_equal, is_stop_event_added,
  is_stop_event_deleted, new_stop_time_update, date_of, time_of, truthy,
}
use kirin.Merge.Numbers.{merge_base_new-accepted}
use kirin.Consistency.{manage_consistency}
use kirin.Merge.Loop.{
  merge, take_header, result_object, date_event, TimeDelay, Clock, finish, run_loop, yielded,
  merge_stops, choose_stop_time, stop_point_of, start_state, base_event, base_stop_time_update,
  event_delay, is_past_midnight, merge_stop, new_delay, past_midnight, update_recorded,
}
use kirin.Merge.StopTimes.{
  make_stop_time_update, push_after, get_update_info_of_stop_event, add_delay, delayed, fake_stop,
  from_new_stu, make_fake_realtime_stop_time, time_or_error,
}
use kirin.Merge.Chain.{Ordered, merge_complete-Ordered}
use kirin.Merge.Shape.{merge_base_ids, merge_base_total}
use kirin.Merge.BaseSchedule.{DatedFrom, merge_base_schedule}
use kirin.Merge.Dates.{clock_at}
use kirin.Examples.{
  minute, stop_point_a, stop_point_b, night_vj, silent, late, late_trip, delayed_stop,
}
use kirin.Merge.Stops.{
  yield_next_stop_from_trip_update, yield_next_stop_from_base_schedule_vj, find_st_in_vj,
  is_extra_stop, next_stop, next_stops,
}
use kirin.Merge.Events.{
  is_stop_event_served, find_in, is_new_stop_event_valid, nav_time, same_status, served_in_base,
}

late_trip_returned : (merge night_vj none late_trip true).reply ≡ ok true
unfolding merge finish run_loop yielded merge_stops choose_stop_time stop_point_of start_state
    base_event base_stop_time_update date_event event_delay is_past_midnight merge_stop new_delay
    past_midnight result_object take_header update_recorded yield_next_stop_from_trip_update
    yield_next_stop_from_base_schedule_vj find_st_in_vj is_extra_stop next_stop next_stops
    make_stop_time_update push_after get_update_info_of_stop_event add_delay delayed fake_stop
    from_new_stu make_fake_realtime_stop_time time_or_error is_stop_event_served find_in
    is_new_stop_event_valid nav_time same_status served_in_base find_stop get_stop_times get_stop_id
    get_circulation_date get_stop_event_status is_not_equal is_stop_event_added
    is_stop_event_deleted new_stop_time_update combine date_of time_of truthy find_first enumerate
    floor_div floor_mod ◌*ℤ◌ ◌+ℤ◌ ◌-ℤ◌
late_trip_returned = refl

merge_complete-Ordered_example :
    Ordered none (merge night_vj none late_trip true).res.stop_time_updates
merge_complete-Ordered_example =
    merge_complete-Ordered night_vj none late_trip (refl, (refl, tt)) refl late_trip_returned

late_returned : (merge night_vj none late false).reply ≡ ok true
unfolding merge finish run_loop yielded merge_stops choose_stop_time stop_point_of start_state
    base_event base_stop_time_update date_event event_delay is_past_midnight merge_stop new_delay
    past_midnight result_object take_header update_recorded yield_next_stop_from_trip_update
    yield_next_stop_from_base_schedule_vj find_st_in_vj is_extra_stop next_stop next_stops
    make_stop_time_update push_after get_update_info_of_stop_event add_delay delayed fake_stop
    from_new_stu make_fake_realtime_stop_time time_or_error is_stop_event_served find_in
    is_new_stop_event_valid nav_time same_status served_in_base find_stop get_stop_times get_stop_id
    get_circulation_date get_stop_event_status is_not_equal is_stop_event_added
    is_stop_event_deleted new_stop_time_update combine date_of time_of truthy find_first enumerate
    floor_div floor_mod ◌*ℤ◌ ◌+ℤ◌ ◌-ℤ◌
late_returned = refl

merge_base_ids_example :
    map
      (λ (st : StopTimeUpdate). some st.stop_id)
      (merge night_vj none late false).res.stop_time_updates
    ≡ some "stop_point:A" ∷ some "stop_point:B" ∷ []
unfolding merge finish run_loop yielded merge_stops choose_stop_time stop_point_of start_state
    base_event base_stop_time_update date_event event_delay is_past_midnight merge_stop new_delay
    past_midnight result_object take_header update_recorded yield_next_stop_from_trip_update
    yield_next_stop_from_base_schedule_vj find_st_in_vj is_extra_stop next_stop next_stops
    make_stop_time_update push_after get_update_info_of_stop_event add_delay delayed fake_stop
    from_new_stu make_fake_realtime_stop_time time_or_error is_stop_event_served find_in
    is_new_stop_event_valid nav_time same_status served_in_base find_stop get_stop_times get_stop_id
    get_circulation_date get_stop_event_status is_not_equal is_stop_event_added
    is_stop_event_deleted new_stop_time_update combine date_of time_of truthy find_first enumerate
    floor_div floor_mod ◌*ℤ◌ ◌+ℤ◌ ◌-ℤ◌
merge_base_ids_example = merge_base_ids night_vj none late refl late_returned

merge_base_total_example :
    (returned : Bool) × ((merge night_vj none late false).reply ≡ ok returned)
unfolding get_stop_times
merge_base_total_example =
    merge_base_total night_vj none late (refl, (refl, tt))
      (record { arrival = λ h. refl; departure = λ h. refl }, tt)

-- The update, recorded.
abbrev recorded : TripUpdate
recorded = (merge night_vj none late false).res

merge_base_schedule_example :
    ((merge night_vj none silent false).reply ≡ ok true)
    × Ordered none (merge night_vj none silent false).res.stop_time_updates
    × DatedFrom
        (get_circulation_date silent.vj)
        (get_stop_times night_vj)
        (merge night_vj none silent false).res.stop_time_updates
unfolding get_stop_times
merge_base_schedule_example =
    merge_base_schedule night_vj silent refl refl (λ h. cc)
      (
        record {
          sp = stop_point_a;
          arr = 1400 * minute;
          dep = 1405 * minute;
          at_stop = refl;
          at_arr = refl;
          at_dep = refl;
          arr_bound = omega arith;
          dep_bound = omega arith;
        },
        (
          record {
            sp = stop_point_b;
            arr = 10 * minute;
            dep = 15 * minute;
            at_stop = refl;
            at_arr = refl;
            at_dep = refl;
            arr_bound = omega arith;
            dep_bound = omega arith;
          },
          tt,
        ),
      )

abbrev late_at_b : StopTimeUpdate
late_at_b = delayed_stop stop_point_b 1 (pos (30 * minute))

-- Ten in the morning of a day, a quarter past, and a departure from the last stop at eleven.
abbrev ten : ℤ
ten = pos (19000 * day + 600 * minute)

abbrev quarter_past : ℤ
quarter_past = pos (19000 * day + 615 * minute)

abbrev eleven : ℤ
eleven = pos (19000 * day + 660 * minute)

abbrev made_at_b : StopTimeUpdate
made_at_b = record {
  order = some 1;
  navitia_stop = stop_point_b;
  stop_id = "stop_point:B";
  message = none;
  departure = some eleven;
  departure_delay = some (pos (45 * minute));
  departure_status = update;
  arrival = some eleven;
  arrival_delay = some (pos (60 * minute));
  arrival_status = update;
}

made :
    make_stop_time_update (some ten) (some quarter_past) (some eleven) late_at_b stop_point_b 1
    ≡ ok made_at_b
unfolding merge finish run_loop yielded merge_stops choose_stop_time stop_point_of start_state
    base_event base_stop_time_update date_event event_delay is_past_midnight merge_stop new_delay
    past_midnight result_object take_header update_recorded yield_next_stop_from_trip_update
    yield_next_stop_from_base_schedule_vj find_st_in_vj is_extra_stop next_stop next_stops
    make_stop_time_update push_after get_update_info_of_stop_event add_delay delayed fake_stop
    from_new_stu make_fake_realtime_stop_time time_or_error is_stop_event_served find_in
    is_new_stop_event_valid nav_time same_status served_in_base find_stop get_stop_times get_stop_id
    get_circulation_date get_stop_event_status is_not_equal is_stop_event_added
    is_stop_event_deleted new_stop_time_update combine date_of time_of truthy find_first enumerate
    floor_div floor_mod ◌*ℤ◌ ◌+ℤ◌ ◌-ℤ◌
made = refl

midnight_passed : (1405 * minute < day) × (10 * minute < day)
midnight_passed = (omega arith, omega arith)

abbrev evening : Clock
evening = clock_at (pos 19000) (1405 * minute) (pos 0)

abbrev early_morning : TimeDelay
early_morning = record { time = some (10 * minute); delay = pos (30 * minute) }

-- What was recorded of the second stop.
abbrev late_stop : StopTimeUpdate
late_stop = delayed_stop stop_point_b 1 (pos (30 * minute))

abbrev dropped_stop : StopTimeUpdate
dropped_stop = record late_stop { arrival_status = delete; departure_status = delete }

late_found : find_in (some late) (some "stop_point:B") 1 ≡ some late_stop
unfolding merge finish run_loop yielded merge_stops choose_stop_time stop_point_of start_state
    base_event base_stop_time_update date_event event_delay is_past_midnight merge_stop new_delay
    past_midnight result_object take_header update_recorded yield_next_stop_from_trip_update
    yield_next_stop_from_base_schedule_vj find_st_in_vj is_extra_stop next_stop next_stops
    make_stop_time_update push_after get_update_info_of_stop_event add_delay delayed fake_stop
    from_new_stu make_fake_realtime_stop_time time_or_error is_stop_event_served find_in
    is_new_stop_event_valid nav_time same_status served_in_base find_stop get_stop_times get_stop_id
    get_circulation_date get_stop_event_status is_not_equal is_stop_event_added
    is_stop_event_deleted new_stop_time_update combine date_of time_of truthy find_first enumerate
    floor_div floor_mod ◌*ℤ◌ ◌+ℤ◌ ◌-ℤ◌
late_found = refl

merge_base_new-accepted_example : (manage_consistency (merge night_vj none late false).res).1 ≡ true
unfolding merge finish run_loop yielded merge_stops choose_stop_time stop_point_of start_state
    base_event base_stop_time_update date_event event_delay is_past_midnight merge_stop new_delay
    past_midnight result_object take_header update_recorded yield_next_stop_from_trip_update
    yield_next_stop_from_base_schedule_vj find_st_in_vj is_extra_stop next_stop next_stops
    make_stop_time_update push_after get_update_info_of_stop_event add_delay delayed fake_stop
    from_new_stu make_fake_realtime_stop_time time_or_error is_stop_event_served find_in
    is_new_stop_event_valid nav_time same_status served_in_base find_stop get_stop_times get_stop_id
    get_circulation_date get_stop_event_status is_not_equal is_stop_event_added
    is_stop_event_deleted new_stop_time_update combine date_of time_of truthy find_first enumerate
    floor_div floor_mod ◌*ℤ◌ ◌+ℤ◌ ◌-ℤ◌
merge_base_new-accepted_example =
    merge_base_new-accepted night_vj late refl late_returned (refl, (refl, tt))
