-- ===== src/Merge/Events.antt =====
-- kirin/core/merge_utils.py: `is_stop_event_served`, `is_new_stop_event_valid`.
use kirin.Prelude.{
  ℕ, String, Option, none, some, Bool, true, false, not, ◌&&◌, ◌==◌, if◌then◌else◌, is_some,
}
use kirin.Types.{status_eq}
use kirin.Model.{
  StopEvent, arrival, departure, NavStop, StopTimeUpdate, TripUpdate, find_stop,
  get_stop_event_status, is_stop_event_deleted, is_stop_event_added,
}

-- `nav_stop["utc_{event}_time"]`, where `None` and a missing key are alike.
unfoldable pub nav_time : StopEvent → NavStop → Option ℕ
nav_time arrival st = st.utc_arrival_time
nav_time departure st = st.utc_departure_time

-- `db_tu.find_stop(stop_id, stop_order)` where there is a trip update.
unfoldable pub find_in : Option TripUpdate → Option String → ℕ → Option StopTimeUpdate
find_in none stop_id order = none
find_in (some tu) stop_id order = find_stop tu stop_id (some order)

unfoldable pub served_in_base : StopEvent → Option NavStop → Bool
unfolding nav_time
served_in_base event none = false
served_in_base event (some st) = is_some (nav_time event st)

-- The new stop time prevails, then the recorded one, then the base schedule.
unfoldable pub is_stop_event_served :
    StopEvent
    → Option String
    → ℕ
    → Option NavStop
    → Option TripUpdate
    → Option StopTimeUpdate
    → Bool
unfolding served_in_base find_in
is_stop_event_served event stop_id order nav_stop db_tu (some new_stu) =
    not (is_stop_event_deleted event new_stu)
is_stop_event_served event stop_id order nav_stop db_tu none = elim (find_in db_tu stop_id order) [
  | some db_stu ↦ not (is_stop_event_deleted event db_stu)
  | none ↦ served_in_base event nav_stop
]

-- The recorded stop has the status of the new one: a feed that is sent again.
unfoldable pub same_status : StopEvent → Option StopTimeUpdate → StopTimeUpdate → Bool
same_status event none new_stu = false
same_status event (some db_stu) new_stu =
    get_stop_event_status event db_stu == get_stop_event_status event new_stu

unfoldable pub is_new_stop_event_valid :
    StopEvent
    → Option String
    → ℕ
    → Option NavStop
    → Option TripUpdate
    → Option StopTimeUpdate
    → Bool
unfolding same_status find_in is_stop_event_served
is_new_stop_event_valid event stop_id order nav_stop db_tu none = false
is_new_stop_event_valid event stop_id order nav_stop db_tu (some new_stu) =
    let is_added_new = is_stop_event_added event new_stu in
    let is_served_old = is_stop_event_served event stop_id order nav_stop db_tu none in
    if same_status event (find_in db_tu stop_id order) new_stu
    then true
    else if is_added_new && is_served_old
    then false
    else if not is_added_new && not is_served_old
    then false
    else true
