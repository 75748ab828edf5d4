-- ===== src/Connector.antt =====
-- kirin/gtfs_rt/model_maker.py: `KirinModelBuilder` as a builder, over its parts in GtfsRt. The
-- decoding of protobuf, the texts that are stored and navitia are parameters.
pub mod Undecodable
use kirin.Prelude.{
  ℕ, ℤ, pos, ◌*ℤ◌, String, Option, none, some, List, [], ◌∷◌, ◌++◌, false, if◌then◌else◌, Result,
  ok, err, invalid_arguments,
}
use kirin.Types.{ConnectorType}
use kirin.Model.{second, TripUpdate}
use kirin.GtfsRt.{FeedTrip, VehicleJourneys, make_trip_updates, merge_trip_updates}
use kirin.RtUpdates.{
  RtStatus, RealTimeUpdate, Store, make_rt_update, manage_db_error, get_last_rtu, is_same_error,
  set_rtu_status_ko,
}
use kirin.Handling.{Builder}

-- A decoded feed: an entity always has a trip update, the default message where none is set.
pub record FeedMessage : Type 0 where
  pub timestamp : ℕ
  pub entity : List FeedTrip

-- The contributor, and what is not code of the repository: `ParseFromString`, the text of a feed
-- that cannot be decoded and of one that can, the warning for a feed without information, navitia.
-- `now` and `new_id` are the moment and the id that the call generates.
pub record Setting : Type 0 where
  pub contributor_id : String
  pub connector_type : ConnectorType
  pub parse : String → Option FeedMessage
  pub escaped : String → String
  pub text_of : FeedMessage → String
  pub no_information : ℕ → String
  pub navitia : VehicleJourneys
  pub now : ℤ
  pub new_id : ℕ

-- The id of the row that `manage_db_error` returns.
unfoldable pub managed_id : ℕ → String → String → Option RealTimeUpdate → ℕ
managed_id new_id data_ error none = new_id
managed_id new_id data_ error (some last) =
    if is_same_error data_ error last then last.id else new_id

-- What `build_rt_update` attaches to the object is the decoded feed, if it was decoded.
unfoldable pub record_feed :
    Setting → String → Option FeedMessage → Store → Store × Result (ℕ × Option FeedMessage)
unfolding managed_id
record_feed cfg input_raw none s =
    let data_ = cfg.escaped input_raw in
    (
      manage_db_error cfg.now cfg.new_id data_ ConnectorType.gtfs_rt cfg.contributor_id
          "invalid protobuf" false s,
      ok (
        managed_id cfg.new_id data_ "invalid protobuf"
            (get_last_rtu ConnectorType.gtfs_rt cfg.contributor_id s),
        none,
      ),
    )
record_feed cfg input_raw (some proto) s = (
  make_rt_update cfg.now cfg.new_id (cfg.text_of proto) cfg.connector_type cfg.contributor_id
      RtStatus.rt_ok s,
  ok (cfg.new_id, some proto),
)

unfoldable pub build_rt_update : Setting → String → Store → Store × Result (ℕ × Option FeedMessage)
unfolding record_feed
build_rt_update cfg input_raw s = record_feed cfg input_raw (cfg.parse input_raw) s

unfoldable pub collect_trip_updates : Setting → ℤ → List FeedTrip → List TripUpdate
collect_trip_updates cfg input_data_time [] = []
collect_trip_updates cfg input_data_time (trip ∷ rest) =
    make_trip_updates cfg.navitia cfg.contributor_id trip input_data_time
    ++ collect_trip_updates cfg input_data_time rest

-- The update is KO, without a commit, if there is no trip update.
unfoldable pub warn_if_empty : Setting → ℕ → ℕ → List TripUpdate → Store → Store
warn_if_empty cfg id timestamp [] s =
    set_rtu_status_ko id cfg.contributor_id (cfg.no_information timestamp) false s
warn_if_empty cfg id timestamp (tu ∷ rest) s = s

unfoldable pub build_trip_updates :
    Setting → ℕ × Option FeedMessage → Store → Store × Result (List TripUpdate)
unfolding collect_trip_updates warn_if_empty
build_trip_updates cfg (id, none) s = (s, err invalid_arguments)
build_trip_updates cfg (id, some proto) s =
    let trip_updates = collect_trip_updates cfg (pos proto.timestamp *ℤ second) proto.entity in
    (warn_if_empty cfg id proto.timestamp trip_updates s, ok trip_updates)

unfoldable pub gtfs_rt_builder : Setting → Builder (Option FeedMessage)
unfolding build_rt_update build_trip_updates
gtfs_rt_builder cfg = record {
  contributor_id = cfg.contributor_id;
  build_rt_update = build_rt_update cfg;
  build_trip_updates = λ attached rows s. build_trip_updates cfg attached s;
  merge_trip_updates = merge_trip_updates;
}
