-- ===== src/Examples/Recording.antt =====
-- Runs of the recording of errors and of `wrap_build`.
use kirin.Prelude.{
  invalid_arguments, pos, String, none, some, List, [], ◌∷◌, length, ok, err, Exception, key_error,
  ◌≡◌, refl, arith, true, false, Bool, string_eq,
}
use kirin.Types.{ConnectorType}
use kirin.Merge.Loop.{merge}
use kirin.Feed.{PbTripUpdate}
use kirin.RtUpdates.{RtStatus, Store, manage_db_error, get_last_rtu}
use kirin.RtUpdates.Repeats.{Tells, manage_db_error-Tells}
use kirin.Handling.{
  warning, Builder, World, handle, wrap_build, process_rt_update, is_invalid_input_exception,
  process_trip_updates, handle_trip_updates, handle_trip_update, unless_raised, take_reply,
  link_consistent, link, keep, set_at, find_old, deliver, send, publish, after_publish, conclude,
  mark_no_new, no_new_information, linked, finish_call, settle_failure,
}
use kirin.Handling.Calls.{Published, call_status, wrap_build_call}
use kirin.Handling.Failures.{Traced, wrap_build_failure}
use kirin.Handling.Added.{Extends, handle_added}
use kirin.Examples.{late_trip}
use kirin.Connector.{Setting, gtfs_rt_builder}
use kirin.Connector.Undecodable.{later_call, undecodable_twice}

-- One row of the contributor, and the ETags of two.
abbrev store : Store
store = record {
  real_time_updates =
      record {
        id = 1;
        connector = ConnectorType.piv;
        status = RtStatus.rt_ok;
        error = none;
        raw_data = "{}";
        contributor_id = "realtime.night";
        created_at = pos 5;
        updated_at = some (pos 5);
        modified = false;
      }
      ∷ [];
  etags = ("realtime.night", "v1") ∷ ("realtime.day", "v8") ∷ [];
}

abbrev contributor : String
contributor = "realtime.night"

manage_db_error-Tells_example : Tells (pos 7) "{" "invalid json" (
    get_last_rtu ConnectorType.piv "realtime.night"
      (manage_db_error (pos 7) 2 "{" ConnectorType.piv "realtime.night" "invalid json" true store))
manage_db_error-Tells_example =
    manage_db_error-Tells (pos 7) 2 "{" ConnectorType.piv "realtime.night" "invalid json" true store
      (omega arith, tt)

-- A connector that reads every feed as the late trip, and one that refuses every feed.
abbrev reads : Builder (Unit {0})
reads = record {
  contributor_id = "realtime.night";
  build_rt_update = λ input s. (s, ok (1, tt));
  build_trip_updates = λ id rows s. (s, ok (late_trip ∷ []));
  merge_trip_updates = λ vj db new. merge vj db new false;
}

abbrev refuses : Builder (Unit {0})
refuses = record reads { build_trip_updates = λ id rows s. (s, err key_error) }

abbrev world : World
world = record { store = store; trip_updates = []; published = []; calls = [] }

abbrev broker : List PbTripUpdate → Bool
broker feed = true

abbrev error_text : Exception → String
error_text e = "error"

wrap_build_call_example :
    Published broker world (wrap_build reads broker error_text (pos 7) "{}" world)
    × ((wrap_build reads broker error_text (pos 7) "{}" world).0.calls
        ≡ call_status (wrap_build reads broker error_text (pos 7) "{}" world).1 ∷ [])
wrap_build_call_example = wrap_build_call reads broker error_text (pos 7) "{}" world

refused : (wrap_build refuses broker error_text (pos 7) "{}" world).1 ≡ err key_error
unfolding wrap_build process_rt_update process_trip_updates handle handle_trip_updates
    handle_trip_update unless_raised take_reply link_consistent link keep set_at find_old deliver
    send publish after_publish conclude mark_no_new no_new_information linked finish_call
    settle_failure is_invalid_input_exception
refused = refl

wrap_build_failure_example :
    Traced refuses error_text
      (some 1)
      key_error
      world
      (wrap_build refuses broker error_text (pos 7) "{}" world).0
unfolding process_rt_update process_trip_updates
wrap_build_failure_example =
    wrap_build_failure refuses broker error_text (pos 7) "{}" world key_error refused

-- A world that has recorded the trip.
abbrev recorded_world : World
recorded_world = record world { trip_updates = late_trip ∷ [] }

handle_added_example :
    Extends reads
      (late_trip ∷ [])
      recorded_world
      (handle reads broker (pos 7) 1 (late_trip ∷ []) recorded_world).0
handle_added_example = handle_added reads broker (pos 7) 1 (late_trip ∷ []) recorded_world

-- A feed of GTFS-RT that cannot be decoded.
abbrev setting : Setting
setting = record {
  contributor_id = "realtime.night";
  connector_type = ConnectorType.gtfs_rt;
  parse = λ input. none;
  escaped = λ input. input;
  text_of = λ proto. "feed";
  no_information = λ timestamp. "no information";
  navitia = λ code since_dt until_dt. [];
  now = pos 7;
  new_id = 2;
}

abbrev as_recorded : Exception → String
as_recorded e = "invalid protobuf"

undecodable_twice_example :
    let first = wrap_build (gtfs_rt_builder setting) broker as_recorded (pos 7) "{" world in
    let again =
      wrap_build
        (gtfs_rt_builder (later_call setting (pos 9) 3))
        broker
        as_recorded
        (pos 9)
        "{"
        first.0 in
    (first.1 ≡ err invalid_arguments)
    × (first.0.calls ≡ warning ∷ [])
    × (first.0.published ≡ [])
    × (length again.0.store.real_time_updates ≡ length first.0.store.real_time_updates)
undecodable_twice_example =
    undecodable_twice setting broker as_recorded "{" world (pos 9) 3 refl refl (omega arith, tt)
