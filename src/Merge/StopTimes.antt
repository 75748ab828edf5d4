-- ===== src/Merge/StopTimes.antt =====
-- kirin/core/merge_utils.py: `_get_update_info_of_stop_event`, `_make_stop_time_update`,
-- `make_fake_realtime_stop_time`.
use kirin.Prelude.{
  ℕ, String, ℤ, pos, ◌+ℤ◌, ◌-ℤ◌, ltb_ℤ, Option, none, some, not, ◌&&◌, if◌then◌else◌, or_else,
  is_some, Result, ok, err, type_error, attribute_error, ◌>>=◌,
}
use kirin.Types.{
  ModificationType, add, delete, update, unchanged, deleted_for_detour, added_for_detour,
}
use kirin.Model.{truthy, time_of, StopPoint, NavStop, StopTimeUpdate, TripUpdate}
use kirin.Merge.Events.{find_in}

-- `new_time` and, where there is one and a non-zero delay, the delay on it.
unfoldable pub delayed : Option ℤ → Option ℤ → Option ℤ
delayed none delay = none
delayed (some t) none = some t
delayed (some t) (some d) = if truthy (some d) then some (t +ℤ d) else some t

-- The new time, status and delay of a stop event.
pub record EventInfo : Type 0 where
  pub time : Option ℤ
  pub status : ModificationType
  pub delay : Option ℤ

unfoldable pub get_update_info_of_stop_event :
    Option ℤ → Option ℤ → ModificationType → Option ℤ → EventInfo
unfolding delayed
get_update_info_of_stop_event base_time input_time update delay = record {
  time = delayed base_time delay;
  status = update;
  delay = delay;
}
get_update_info_of_stop_event base_time input_time delete delay = record {
  time = none;
  status = delete;
  delay = some (pos 0);
}
get_update_info_of_stop_event base_time input_time deleted_for_detour delay = record {
  time = none;
  status = deleted_for_detour;
  delay = some (pos 0);
}
get_update_info_of_stop_event base_time input_time add delay = record {
  time = delayed input_time delay;
  status = add;
  delay = some (pos 0);
}
get_update_info_of_stop_event base_time input_time added_for_detour delay = record {
  time = delayed input_time delay;
  status = added_for_detour;
  delay = some (pos 0);
}
get_update_info_of_stop_event base_time input_time unchanged delay = record {
  time = base_time;
  status = unchanged;
  delay = some (pos 0);
}

-- Where `limit` is after `time`: `delay += limit - time; time = limit`. A delay of `None` cannot be
-- added to. A `limit` without a `time` does not occur below.
unfoldable pub push_after : Option ℤ → Option ℤ → Option ℤ → Result (Option ℤ × Option ℤ)
push_after none time delay = ok (time, delay)
push_after (some limit) none delay = err type_error
push_after (some limit) (some t) none = if ltb_ℤ t limit then err type_error else ok (some t, none)
push_after (some limit) (some t) (some d) =
    if ltb_ℤ t limit then ok (some limit, some (d +ℤ (limit -ℤ t))) else ok (some t, some d)

-- The arrival: its own time, else the departure's, else the last departure.
unfoldable pub make_stop_time_update :
    Option ℤ → Option ℤ → Option ℤ → StopTimeUpdate → StopPoint → ℕ → Result StopTimeUpdate
make_stop_time_update base_arrival base_departure last_departure input_st stop_point order = do
  let dep =
      get_update_info_of_stop_event base_departure input_st.departure input_st.departure_status
        input_st.departure_delay
  let arr =
      get_update_info_of_stop_event base_arrival input_st.arrival input_st.arrival_status
        input_st.arrival_delay
  let arr_time = or_else arr.time (or_else dep.time last_departure)
  let dep_time = or_else dep.time arr_time
  pushed_arr ← push_after last_departure arr_time arr.delay
  pushed_dep ← push_after pushed_arr.0 dep_time dep.delay
  ok (record {
    order = some order;
    navitia_stop = stop_point;
    stop_id = stop_point.id;
    message = input_st.message;
    departure = pushed_dep.0;
    departure_delay = pushed_dep.1;
    departure_status = dep.status;
    arrival = pushed_arr.0;
    arrival_delay = pushed_arr.1;
    arrival_status = arr.status;
  })

-- `dt.time()` of a datetime that may be `None`.
unfoldable pub time_or_error : Option ℤ → Result ℕ
time_or_error none = err attribute_error
time_or_error (some dt) = ok (time_of dt)

-- `if delay: dt += delay`
unfoldable pub add_delay : Option ℤ → Option ℤ → Result (Option ℤ)
add_delay dt none = ok dt
add_delay none (some d) = if truthy (some d) then err type_error else ok none
add_delay (some t) (some d) = if truthy (some d) then ok (some (t +ℤ d)) else ok (some t)

unfoldable pub fake_stop : StopPoint → Option ℤ → Option ℤ → Result NavStop
unfolding time_or_error
fake_stop sp dep arr = do
  dep_time ← time_or_error dep
  arr_time ← time_or_error arr
  ok (record {
    stop_point = some sp;
    utc_arrival_time = some arr_time;
    utc_departure_time = some dep_time;
  })

unfoldable pub from_new_stu : StopTimeUpdate → Result NavStop
unfolding add_delay fake_stop
from_new_stu new_stu = do
  dep ← add_delay (or_else new_stu.departure new_stu.arrival) new_stu.departure_delay
  arr ← add_delay (or_else new_stu.arrival new_stu.departure) new_stu.arrival_delay
  fake_stop new_stu.navitia_stop dep arr

unfoldable pub make_fake_realtime_stop_time :
    ℕ → Option String → StopTimeUpdate → Option TripUpdate → Result NavStop
unfolding from_new_stu find_in
make_fake_realtime_stop_time order sp_id new_stu db_trip_update =
    elim (find_in db_trip_update sp_id order) [
      | none ↦ from_new_stu new_stu
      | some stu ↦
          if not (is_some new_stu.departure) && not (is_some new_stu.arrival)
          then fake_stop new_stu.navitia_stop stu.departure stu.arrival
          else from_new_stu new_stu
    ]
