-- ===== src/Feed.antt =====
-- kirin/core/populate_pb.py: the GTFS-RT feed that is published, as records of what is set in the
-- protobuf messages. Entity ids (generated), the header's timestamp (the clock) and `strftime` are
-- not modelled: a start date stays a date. Protobuf refuses `None` where a value is set.
pub mod Relationships
pub mod Instants
pub mod Totality
use kirin.Prelude.{
  ℤ, pos, trunc_div, String, Option, none, some, List, [], ◌∷◌, if◌then◌else◌, Result, ok, err,
  type_error, ◌>>=◌, ◌==◌,
}
use kirin.Types.{
  ModificationType, add, delete, update, unchanged, deleted_for_detour, added_for_detour,
  TripEffect, PbStopTimeStatus, stop_time_status_to_protobuf, status_eq,
}
use kirin.Model.{second, truthy, text_truthy, StopTimeUpdate, TripUpdate, get_circulation_date}

-- `StopTimeUpdate.ScheduleRelationship` of the stop event extension.
pub data StopEventRelationship : Type 0 where
  skipped added scheduled : StopEventRelationship

-- `TripDescriptor.ScheduleRelationship`
pub data TripRelationship : Type 0 where
  canceled trip_added trip_scheduled : TripRelationship

-- `Alert.Effect`
pub data AlertEffect : Type 0 where
  no_service reduced_service significant_delays detour additional_service : AlertEffect
  modified_service other_effect unknown_effect stop_moved : AlertEffect

pub record PbStopEvent : Type 0 where
  pub time : ℤ
  pub delay : ℤ
  pub relationship : StopEventRelationship
  pub status : PbStopTimeStatus

pub record PbStopTime : Type 0 where
  pub stop_id : String
  pub arrival : PbStopEvent
  pub departure : PbStopEvent
  pub message : Option String

pub record PbTripUpdate : Type 0 where
  pub trip_id : String
  pub start_date : ℤ
  pub schedule_relationship : TripRelationship
  pub contributor : Option String
  pub company_id : Option String
  pub message : Option String
  pub effect : Option AlertEffect
  pub physical_mode_id : Option String
  pub headsign : Option String
  pub stop_time_update : List PbStopTime

-- Seconds since 1970, without the fraction.
unfoldable pub to_posix_time : Option ℤ → ℤ
to_posix_time none = pos 0
to_posix_time (some date_time) = trunc_div date_time second

unfoldable pub get_st_event : ModificationType → StopEventRelationship
get_st_event delete = skipped
get_st_event deleted_for_detour = skipped
get_st_event add = added
get_st_event added_for_detour = added
get_st_event update = scheduled
get_st_event unchanged = scheduled

unfoldable pub get_trip_event : TripEffect → Option AlertEffect
get_trip_event TripEffect.no_service = some AlertEffect.no_service
get_trip_event TripEffect.reduced_service = some AlertEffect.reduced_service
get_trip_event TripEffect.significant_delays = some AlertEffect.significant_delays
get_trip_event TripEffect.detour = some AlertEffect.detour
get_trip_event TripEffect.additional_service = some AlertEffect.additional_service
get_trip_event TripEffect.modified_service = some AlertEffect.modified_service
get_trip_event TripEffect.other_effect = some AlertEffect.other_effect
get_trip_event TripEffect.unknown_effect = some AlertEffect.unknown_effect
get_trip_event TripEffect.stop_moved = some AlertEffect.stop_moved
get_trip_event TripEffect.undefined = none

-- `int(delay.total_seconds())`, zero for a delay of zero or `None`.
unfoldable pub delay_seconds : Option ℤ → ℤ
delay_seconds none = pos 0
delay_seconds (some d) = if truthy (some d) then trunc_div d second else pos 0

unfoldable pub stop_event : Option ℤ → Option ℤ → ModificationType → PbStopEvent
unfolding to_posix_time get_st_event delay_seconds
stop_event time delay status = record {
  time = to_posix_time time;
  delay = delay_seconds delay;
  relationship = get_st_event status;
  status = stop_time_status_to_protobuf status;
}

-- An optional text is set only if it is true.
unfoldable pub set_text : Option String → Option String
set_text text = if text_truthy text then text else none

unfoldable pub fill_stop_times : StopTimeUpdate → PbStopTime
unfolding stop_event set_text
fill_stop_times st = record {
  stop_id = st.stop_id;
  arrival = stop_event st.arrival st.arrival_delay st.arrival_status;
  departure = stop_event st.departure st.departure_delay st.departure_status;
  message = set_text st.message;
}

unfoldable pub fill_stop_time_list : List StopTimeUpdate → List PbStopTime
fill_stop_time_list [] = []
fill_stop_time_list (st ∷ rest) = fill_stop_times st ∷ fill_stop_time_list rest

unfoldable pub fill_effect : Option TripEffect → Result (Option AlertEffect)
fill_effect none = ok none
fill_effect (some effect) = elim (get_trip_event effect) [
  | none ↦ err type_error
  | some e ↦ ok (some e)
]

unfoldable pub fill_trip_id : Option String → Result String
fill_trip_id none = err type_error
fill_trip_id (some id) = ok id

unfoldable pub trip_relationship : ModificationType → TripRelationship
trip_relationship status =
    if status == delete then canceled else if status == add then trip_added else trip_scheduled

unfoldable pub fill_trip_update : TripUpdate → Result PbTripUpdate
unfolding set_text fill_effect fill_trip_id trip_relationship
fill_trip_update tu = do
  effect ← fill_effect tu.effect
  trip_id ← fill_trip_id tu.vj.navitia_trip_id
  ok (record {
    trip_id = trip_id;
    start_date = get_circulation_date tu.vj;
    schedule_relationship = trip_relationship tu.status;
    contributor = set_text (some tu.contributor_id);
    company_id = set_text tu.company_id;
    message = set_text tu.message;
    effect = effect;
    physical_mode_id = set_text tu.physical_mode_id;
    headsign = set_text tu.headsign;
    stop_time_update = fill_stop_time_list tu.stop_time_updates;
  })

-- One entity for each trip update.
unfoldable pub convert_to_gtfsrt : List TripUpdate → Result (List PbTripUpdate)
convert_to_gtfsrt [] = ok []
convert_to_gtfsrt (tu ∷ rest) = do
  entity ← fill_trip_update tu
  entities ← convert_to_gtfsrt rest
  ok (entity ∷ entities)
