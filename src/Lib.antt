-- ===== src/Lib.antt =====
-- Kirin receives real-time feeds on public transport (COTS, PIV, GTFS-RT), confronts them with the
-- base schedule of navitia and with the real time it has recorded, records the result and publishes
-- it. The parts that this library models, and how they meet:
--
-- * A builder (kirin/core/abstract_builder.py) turns a feed into trip updates: `Handling.Builder` is
--   its interface, `GtfsRt` (kirin/gtfs_rt/model_maker.py: the class KirinModelBuilder) has the
--   operations of one: `get_navitia_vjs` finds the circulation, `make_trip_update` matches the stops
--   from the end, `merge_trip_updates` calls `merge`. `Connector` puts them together with
--   build_rt_update and build_trip_updates into `gtfs_rt_builder`.
-- * `Piv` (kirin/piv/model_maker.py) and `Cots` (kirin/cots/model_maker.py) are the builders of the
--   other two connectors, `piv_builder` and `cots_builder`. In each `Messages` has the parts of the
--   decoded JSON, `Stops` what is read of a stop, `Trips` the trip update and `Building` the builder;
--   `Piv.Disruptions` chooses the disruption, `Cots.Actions` decides what is done to a trip from the
--   recorded ones, `Cots.Headsigns` has the numbers of a train and `Cots.Lookup` its vehicle journeys.
--   `Complete` has what both do in the same way: the loop that keeps stops, the values of JSON
--   (kirin/utils.py), the loop over the stops.
-- * `Merge` (kirin/core/merge_utils.py) combines base schedule, recorded and new trip update.
--   `Merge.Events` has is_stop_event_served and is_new_stop_event_valid, `Merge.StopTimes`
--   _get_update_info_of_stop_event, _make_stop_time_update and make_fake_realtime_stop_time,
--   `Merge.Stops` the two generators of stops, as the lists that they yield, `Merge.Loop` the
--   function merge: its local variables are the record `MergeState`, and its result is `MergeOutcome`,
--   the object that it has changed and what it replies (`ok true` for the object, `ok false` for
--   None, or an exception).
-- * `Consistency` (kirin/core/build_wrapper.py: manage_consistency) numbers, fills and pushes.
-- * `Handling` (kirin/core/build_wrapper.py: handle, publish, wrap_build) runs these on a feed over a
--   state `World`: the rows of the updates and the ETag memory (`RtUpdates.Store`), the rows of the
--   trip updates, what is published, and the calls recorded. Objects that the database session shares
--   are named by their index, so that a change of a recorded trip update is seen wherever it is
--   linked.
-- * `Feed` (kirin/core/populate_pb.py) writes the GTFS-RT feed, as records of what is set.
-- * `RtUpdates` (kirin/utils.py, and RealTimeUpdate of kirin/core/model.py) records updates and errors
--   and forgets ETags.
-- * `Polling` (kirin/gtfs_rt/tasks.py) decides whether to retrieve a feed, and handles it.
-- * `Contributors` (kirin/core/model.py, kirin/resources/contributors.py) has the contributors and the
--   requests on them, and the worker that stops when its contributor changes
--   (kirin/command/piv_worker.py: `start_worker` is __init__, `on_iteration` the check).
-- * `Cleaning` (kirin/core/model.py, kirin/tasks.py, kirin/command/purge_rt.py) has the tables with
--   their references, the tasks that purge them, and the answer to a request for all the real time
--   (kirin/rabbitmq_handler.py: `on_request` is _on_request).
-- * `Entries` (kirin/cots/cots.py, kirin/piv/piv.py, kirin/gtfs_rt/gtfs_rt.py) finds the contributor
--   of a feed that is sent over HTTP, and handles the feed.
-- * `Model` (kirin/core/model.py) has the records that all of these share, with their methods, and
--   `Types` (kirin/core/types.py) the enumerations. `Prelude` has what the parts share: integers,
--   results, equality tests, lists. `Examples` has concrete runs.
--
-- Conventions. A naive datetime, and a timedelta, is a number of microseconds (`ℤ`); a time of day is
-- a natural number below a day. An object that the code changes is returned changed. An exception is
-- a value of `Result`; the state that it leaves is returned with it where a caller can see it. A null
-- and a missing key of navitia's JSON are both `none`; a stop point has an id, as navitia documents.
-- A stop time that is appended without an order gets its index (`ordering_list` of kirin/core/model.py:
-- `Complete.Drafts.order_entity`); where the code gives an order, that stays.
-- Python's unbounded integers have no overflow to model. All recursion is on lists and texts: no fuel
-- is used.
-- Texts of a feed that the code compares with constants are constructors, with one for all other texts.
--
-- Parameters, since they are not code of the repository: the answers of navitia
-- (`GtfsRt.VehicleJourneys`), the decoding of protobuf and the texts that are stored
-- (`Connector.Setting`), the decoding of JSON and of datetimes and what navitia and the message handler
-- answer (`Setting` and `Context` of `Piv` and `Cots`), the answers of HTTP (`Polling.Poll`), the
-- broker (whether it takes a feed), the text of an exception, the clock and generated ids.
--
-- Not modelled: the client of the cause messages (kirin/cots/message_handler.py: input and output with
-- an outside service), the loop that restarts the workers, the protocol of the broker and the schedule
-- of the tasks, the other resources over HTTP (kirin/resources), the application and its settings, the
-- migrations; and within the parts above logs, metrology other than the status, the refusals of the
-- database other than a key that is taken or still referred to.
pub mod Prelude
pub mod Types
pub mod Model
pub mod Merge
pub mod Consistency
pub mod Feed
pub mod GtfsRt
pub mod RtUpdates
pub mod Handling
pub mod Connector
pub mod Polling
pub mod Complete
pub mod Piv
pub mod Cots
pub mod Contributors
pub mod Cleaning
pub mod Entries
pub mod Examples
