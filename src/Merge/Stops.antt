-- ===== src/Merge/Stops.antt =====
-- kirin/core/merge_utils.py: the stops that `merge` goes through, with their orders. The source's
-- generators are the lists that they yield; an exception in one of them ends `merge`.
use kirin.Prelude.{
  ℕ, ◌+◌, String, Option, none, some, List, [], ◌∷◌, Bool, ◌||◌, ◌==◌, string_eq, option_eq,
  find_first, enumerate, if◌then◌else◌, Result, ok, ◌>>=◌,
}
use kirin.Model.{
  NavStop, NavVj, get_stop_times, get_stop_id, arrival, departure, StopTimeUpdate, TripUpdate,
}
use kirin.Merge.Events.{is_new_stop_event_valid}
use kirin.Merge.StopTimes.{make_fake_realtime_stop_time}

unfoldable pub find_st_in_vj : String → List NavStop → Option NavStop
find_st_in_vj st_id vj_sts = find_first (λ st. get_stop_id st == some st_id) vj_sts

-- A stop that is not in the base schedule is gone through where it is an addition, or a change of
-- an earlier addition.
unfoldable pub is_extra_stop : ℕ → StopTimeUpdate → Option TripUpdate → Bool
is_extra_stop order new_stu db_tu =
    let sp_id = some new_stu.stop_id in
    is_new_stop_event_valid arrival sp_id order none db_tu (some new_stu)
    || is_new_stop_event_valid departure sp_id order none db_tu (some new_stu)

-- What one stop of the new trip update yields.
unfoldable pub next_stop : ℕ → StopTimeUpdate → NavVj → Option TripUpdate → Result (Option NavStop)
unfolding is_extra_stop find_st_in_vj
next_stop order new_stu vj db_tu = elim (find_st_in_vj new_stu.stop_id (get_stop_times vj)) [
  | some vj_st ↦ ok (some vj_st)
  | none ↦
      if is_extra_stop order new_stu db_tu
      then (do
        fake ← make_fake_realtime_stop_time order (some new_stu.stop_id) new_stu db_tu
        ok (some fake))
      else ok none
]

unfoldable pub next_stops :
    ℕ → List StopTimeUpdate → NavVj → Option TripUpdate → Result (List (ℕ × NavStop))
unfolding next_stop
next_stops order [] vj db_tu = ok []
next_stops order (new_stu ∷ rest) vj db_tu = do
  st ← next_stop order new_stu vj db_tu
  others ← next_stops (order + 1) rest vj db_tu
  ok (elim st [ none ↦ others | some s ↦ (order, s) ∷ others ])

unfoldable pub yield_next_stop_from_trip_update :
    TripUpdate → Option TripUpdate → Result (List (ℕ × NavStop))
unfolding next_stops
yield_next_stop_from_trip_update new_tu db_tu =
    next_stops 0 new_tu.stop_time_updates new_tu.vj.navitia_vj db_tu

unfoldable pub yield_next_stop_from_base_schedule_vj : NavVj → List (ℕ × NavStop)
yield_next_stop_from_base_schedule_vj vj = enumerate 0 (get_stop_times vj)
