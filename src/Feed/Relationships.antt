-- ===== src/Feed/Relationships.antt =====
-- The relationships of the published stop events (kirin/core/populate_pb.py, kirin/core/types.py).
use kirin.Prelude.{◌≡◌, ◌↔◌, refl, true, arith}
use kirin.Types.{PbStopTimeStatus, ModificationType, stop_time_status_to_protobuf, add}
use kirin.Model.{
  StopTimeUpdate, StopEvent, arrival, departure, is_stop_event_deleted, is_stop_event_added,
}
use kirin.Feed.{
  StopEventRelationship, skipped, added, scheduled, PbStopEvent, PbStopTime, get_st_event,
  fill_stop_times,
}

-- The published event of a stop.
abbrev pub pb_event : StopEvent → PbStopTime → PbStopEvent
pb_event arrival st = st.arrival
pb_event departure st = st.departure

-- The relationship that a consumer of the newer status field would read.
abbrev pub relationship_of : PbStopTimeStatus → StopEventRelationship
relationship_of PbStopTimeStatus.scheduled = scheduled
relationship_of PbStopTimeStatus.added = added
relationship_of PbStopTimeStatus.deleted = skipped
relationship_of PbStopTimeStatus.added_detour = added
relationship_of PbStopTimeStatus.deleted_detour = skipped

event_relationship :
    (status : ModificationType)
    → get_st_event status ≡ relationship_of (stop_time_status_to_protobuf status)
unfolding get_st_event stop_time_status_to_protobuf
event_relationship add = refl
event_relationship _ = refl

-- A published stop event is skipped exactly if the event is deleted, added exactly if it is added,
-- and its two status fields, the older and the newer, agree.
pub fill_stop_times_relationship :
    (event : StopEvent) (st : StopTimeUpdate)
    → (((pb_event event (fill_stop_times st)).relationship ≡ skipped)
        ↔ (is_stop_event_deleted event st ≡ true))
      × (((pb_event event (fill_stop_times st)).relationship ≡ added)
          ↔ (is_stop_event_added event st ≡ true))
      × ((pb_event event (fill_stop_times st)).relationship
          ≡ relationship_of (pb_event event (fill_stop_times st)).status)
unfolding fill_stop_times is_stop_event_deleted is_stop_event_added
fill_stop_times_relationship arrival st =
    (ground arith, ground arith, event_relationship st.arrival_status)
fill_stop_times_relationship departure st =
    (ground arith, ground arith, event_relationship st.departure_status)
