-- ===== src/Merge/Loop.antt =====
-- kirin/core/merge_utils.py: `is_past_midnight` and `merge`.
use kirin.Prelude.{
  ℕ, ℤ, pos, ◌+ℤ◌, ltb, ltb_ℤ, Option, none, some, List, [], ◌∷◌, ◌++◌, Bool, true, false, ◌&&◌,
  ◌≡◌, refl, arith, ◌||◌, ◌==◌, is_some, if◌then◌else◌, Result, ok, err, key_error, ◌>>=◌,
}
use kirin.Types.{delete, status_eq}
use kirin.Model.{
  combine, StopPoint, NavStop, NavVj, get_stop_id, get_circulation_date, StopEvent, arrival,
  departure, StopTimeUpdate, new_stop_time_update, is_not_equal, TripUpdate, find_stop,
}
use kirin.Merge.Events.{is_stop_event_served, nav_time}
use kirin.Merge.StopTimes.{make_stop_time_update}
use kirin.Merge.Stops.{yield_next_stop_from_trip_update, yield_next_stop_from_base_schedule_vj}

-- A time of day with a delay. Where there is no time the source's delay is never read.
pub record TimeDelay : Type 0 where
  pub time : Option ℕ
  pub delay : ℤ

unfoldable pub past_midnight : Option ℕ → Option ℕ → ℤ → ℤ → Bool
past_midnight none next prev_delay next_delay = false
past_midnight (some p) none prev_delay next_delay = false
past_midnight (some p) (some n) prev_delay next_delay =
    ltb n p && ltb_ℤ (pos n +ℤ next_delay) (pos p +ℤ prev_delay)

-- The common date of the source's two datetimes cancels out in their comparison.
unfoldable pub is_past_midnight : TimeDelay → TimeDelay → Bool
unfolding past_midnight
is_past_midnight prev next = past_midnight prev.time next.time prev.delay next.delay

-- The variables that the loop changes while it dates the events.
pub record Clock : Type 0 where
  pub circulation_date : ℤ
  pub previous_stop_event : TimeDelay

-- The base-schedule datetime of a served event with a time of day: one day later once midnight is
-- passed.
unfoldable pub date_event : Clock → TimeDelay → Clock × Option ℤ
date_event clock event =
    let date =
      if is_past_midnight clock.previous_stop_event event
      then clock.circulation_date +ℤ pos 1
      else clock.circulation_date in
    elim event.time [
      | none ↦ (record clock { previous_stop_event = event }, none)
      | some t ↦
          (record { circulation_date = date; previous_stop_event = event }, some (combine date t))
    ]

-- The delay of the new stop time, zero where there is none.
unfoldable pub event_delay : Option ℤ → ℤ
event_delay none = pos 0
event_delay (some d) = d

unfoldable pub new_delay : StopEvent → Option StopTimeUpdate → ℤ
unfolding event_delay
new_delay event none = pos 0
new_delay arrival (some st) = event_delay st.arrival_delay
new_delay departure (some st) = event_delay st.departure_delay

-- One of the two symmetric blocks of the loop: only served events are dated.
unfoldable pub base_event :
    StopEvent → ℕ → NavStop → Option TripUpdate → Option StopTimeUpdate → Clock → Clock × Option ℤ
unfolding new_delay
base_event event order st db_tu new_st clock =
    if is_stop_event_served event (get_stop_id st) order (some st) db_tu new_st
    then date_event clock (record { time = nav_time event st; delay = new_delay event new_st })
    else (clock, none)

-- `navitia_stop["stop_point"]`
unfoldable pub stop_point_of : NavStop → Result StopPoint
stop_point_of st = elim st.stop_point [ none ↦ err key_error | some sp ↦ ok sp ]

-- `StopTimeUpdate(stop_point, departure=..., arrival=..., order=...)`
unfoldable pub base_stop_time_update : StopPoint → Option ℤ → Option ℤ → ℕ → StopTimeUpdate
base_stop_time_update sp base_departure base_arrival order = record (new_stop_time_update sp) {
  departure = base_departure;
  arrival = base_arrival;
  order = some order;
}

-- The stop time to keep, and the new value of `has_changes`.
abbrev pub Kept : Type 0
Kept = StopTimeUpdate × Bool

-- First case: a recorded stop is kept until something changed, then replaced.
unfoldable pub update_recorded : Option StopTimeUpdate → StopTimeUpdate → Bool → Kept
update_recorded none new_st_update has_changes = (new_st_update, true)
update_recorded (some db_st) new_st_update has_changes =
    let changed = has_changes || is_not_equal db_st new_st_update in
    (if changed then new_st_update else db_st, changed)

-- The four cases of the loop: is there a recorded trip update, and a new stop time?
unfoldable pub choose_stop_time :
    Option TripUpdate
    → Option StopTimeUpdate
    → NavStop
    → ℕ
    → Option ℤ
    → Option ℤ
    → Option ℤ
    → Bool
    → Result (StopTimeUpdate × Bool)
unfolding update_recorded
choose_stop_time (some db_tu) (some new_st) st order base_arrival base_departure last has_changes =
    do
      sp ← stop_point_of st
      made ← make_stop_time_update base_arrival base_departure last new_st sp order
      ok (update_recorded (find_stop db_tu (get_stop_id st) (some order)) made has_changes)
choose_stop_time none (some new_st) st order base_arrival base_departure last has_changes = do
  sp ← stop_point_of st
  made ← make_stop_time_update base_arrival base_departure last new_st sp order
  ok (record made { message = new_st.message }, true)
choose_stop_time (some db_tu) none st order base_arrival base_departure last has_changes =
    elim (find_stop db_tu (get_stop_id st) (some order)) [
      | some db_st ↦ ok (db_st, has_changes)
      | none ↦ do
        sp ← stop_point_of st
        ok (base_stop_time_update sp base_departure base_arrival order, true)
    ]
choose_stop_time none none st order base_arrival base_departure last has_changes = do
  sp ← stop_point_of st
  ok (base_stop_time_update sp base_departure base_arrival order, true)

-- The variables of the loop.
pub record MergeState : Type 0 where
  pub clock : Clock
  pub last_departure : Option ℤ
  pub has_changes : Bool
  pub res_stoptime_updates : List StopTimeUpdate

-- The body of the loop.
unfoldable pub merge_stop :
    Option TripUpdate → TripUpdate → ℕ × NavStop → MergeState → Result MergeState
merge_stop db_tu new_tu (order, st) s = do
  let new_st = find_stop new_tu (get_stop_id st) (some order)
  let arr = base_event arrival order st db_tu new_st s.clock
  let dep = base_event departure order st db_tu new_st arr.0
  kept ← choose_stop_time db_tu new_st st order arr.1 dep.1 s.last_departure s.has_changes
  ok (record {
    clock = dep.0;
    last_departure = kept.0.departure;
    has_changes = kept.1;
    res_stoptime_updates = s.res_stoptime_updates ++ kept.0 ∷ [];
  })

unfoldable pub merge_stops :
    Option TripUpdate → TripUpdate → List (ℕ × NavStop) → MergeState → Result MergeState
unfolding merge_stop
merge_stops db_tu new_tu [] s = ok s
merge_stops db_tu new_tu (next ∷ rest) s = do
  s' ← merge_stop db_tu new_tu next s
  merge_stops db_tu new_tu rest s'

unfoldable pub start_state : TripUpdate → MergeState
start_state new_tu = record {
  clock = record {
    circulation_date = get_circulation_date new_tu.vj;
    previous_stop_event = record { time = none; delay = pos 0 };
  };
  last_departure = none;
  has_changes = false;
  res_stoptime_updates = [];
}

-- `res`, which the call has changed also where it raises, and what the call does: return `res`
-- (`ok true`), return `None` (`ok false`), raise.
pub record MergeOutcome : Type 0 where
  pub res : TripUpdate
  pub reply : Result Bool

-- Status, effect and message are taken over at once.
unfoldable pub take_header : TripUpdate → TripUpdate → Bool → TripUpdate
take_header res new_tu is_new_complete = record res {
  status = new_tu.status;
  effect = new_tu.effect;
  message = if is_some new_tu.message || is_new_complete then new_tu.message else res.message;
}

unfoldable pub yielded : NavVj → Option TripUpdate → TripUpdate → Bool → Result (List (ℕ × NavStop))
yielded vj db_tu new_tu is_new_complete =
    if is_new_complete
    then yield_next_stop_from_trip_update new_tu db_tu
    else ok (yield_next_stop_from_base_schedule_vj vj)

-- The end of `merge`: the stop times are replaced only if there are changes.
unfoldable pub finish : TripUpdate → Result MergeState → MergeOutcome
finish res (err e) = record { res = res; reply = err e }
finish res (ok s) =
    if s.has_changes
    then record { res = record res { stop_time_updates = s.res_stoptime_updates }; reply = ok true }
    else record { res = res; reply = ok false }

-- The loop over the stops that are yielded.
unfoldable pub run_loop : NavVj → Option TripUpdate → TripUpdate → Bool → Result MergeState
run_loop vj db_tu new_tu is_new_complete = do
  stops ← yielded vj db_tu new_tu is_new_complete
  merge_stops db_tu new_tu stops (start_state new_tu)

-- The object that is changed and returned: the recorded trip update, where there is one.
unfoldable pub result_object : Option TripUpdate → TripUpdate → TripUpdate
result_object none new_tu = new_tu
result_object (some db_tu) new_tu = db_tu

unfoldable pub merge : NavVj → Option TripUpdate → TripUpdate → Bool → MergeOutcome
unfolding take_header
merge vj db_tu new_tu is_new_complete =
    let res = take_header (result_object db_tu new_tu) new_tu is_new_complete in
    if res.status == delete
    then record { res = record res { stop_time_updates = [] }; reply = ok true }
    else finish res (run_loop vj db_tu new_tu is_new_complete)

-- Unless the trip is cancelled, the outcome is that of the loop.
pub merge-finish :
    (vj : NavVj) (db_tu : Option TripUpdate) (new_tu : TripUpdate) (is_new_complete : Bool)
    → (new_tu.status == delete) ≡ false
    → merge vj db_tu new_tu is_new_complete
      ≡ finish
          (take_header (result_object db_tu new_tu) new_tu is_new_complete)
          (run_loop vj db_tu new_tu is_new_complete)
unfolding merge
merge-finish vj db_tu new_tu is_new_complete d = rw d

-- What it takes to return the changed object.
pub finish_returned :
    (res : TripUpdate) (run : Result MergeState)
    → (finish res run).reply ≡ ok true
    → (s : MergeState) × (run ≡ ok s)
      × (s.has_changes ≡ true)
      × ((finish res run).res ≡ record res { stop_time_updates = s.res_stoptime_updates })
unfolding finish
finish_returned res (err e) h = cc
finish_returned res (ok s) h = (s, refl, ground arith, ground arith)
