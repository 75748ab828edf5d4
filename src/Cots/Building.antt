-- ===== src/Cots/Building.antt =====
-- kirin/cots/model_maker.py: `KirinModelBuilder` as a builder. The decoding of JSON is a parameter.
use kirin.Prelude.{
  ℕ, ℤ, String, Option, none, some, List, [], ◌∷◌, true, ltb, length, if◌then◌else◌, Result, ok,
  err, ◌>>=◌, invalid_arguments,
}
use kirin.Types.{ConnectorType}
use kirin.Model.{NavVj, VehicleJourney, TripUpdate}
use kirin.Merge.Loop.{MergeOutcome, merge}
use kirin.RtUpdates.{Store, make_rt_update, RtStatus}
use kirin.Handling.{Builder}
use kirin.Complete.Values.{get_value}
use kirin.Cots.Messages.{Version, Pdp, CotsFeed}
use kirin.Cots.Stops.{retrieve_interesting_pdp}
use kirin.Cots.Actions.{ActionOnTrip, get_action_on_trip}
use kirin.Cots.Lookup.{Context, get_vjs}
use kirin.Cots.Trips.{make_trip_update}

-- `load` is `ujson.loads`; `now` and `new_id` are the moment and the id that the call generates.
pub record Setting : Type 0 where
  pub context : Context
  pub connector_type : ConnectorType
  pub load : String → Option CotsFeed
  pub now : ℤ
  pub new_id : ℕ

-- What is attached to the update is its raw data.
unfoldable pub build_rt_update : Setting → String → Store → Store × Result (ℕ × String)
build_rt_update cfg input_raw s = (
  make_rt_update cfg.now cfg.new_id input_raw cfg.connector_type cfg.context.contributor_id
      RtStatus.rt_ok s,
  ok (cfg.new_id, input_raw),
)

unfoldable pub require_pdps : List Pdp → Result (List Pdp)
require_pdps pdps = if ltb (length pdps) 2 then err invalid_arguments else ok pdps

-- `[self._make_trip_update(dict_version, vj, ...) for vj in vjs]`
unfoldable pub make_trip_updates :
    Context → Version → ActionOnTrip → List VehicleJourney → Result (List TripUpdate)
unfolding make_trip_update
make_trip_updates cfg dict_version action [] = ok []
make_trip_updates cfg dict_version action (vj ∷ vjs) = do
  tu ← make_trip_update cfg dict_version action vj
  tus ← make_trip_updates cfg dict_version action vjs
  ok (tu ∷ tus)

unfoldable pub read_version : Context → List TripUpdate → Version → Result (List TripUpdate)
unfolding get_value retrieve_interesting_pdp require_pdps get_action_on_trip get_vjs
    make_trip_updates
read_version cfg rows dict_version = do
  train_numbers ← get_value dict_version.numero_course
  list_pdp ← get_value dict_version.liste_point_de_parcours
  pdps ← require_pdps (retrieve_interesting_pdp list_pdp)
  action ← get_action_on_trip cfg.parse_datetime rows train_numbers dict_version pdps
  vjs ← get_vjs cfg train_numbers pdps action
  make_trip_updates cfg dict_version action vjs

unfoldable pub read_feed : Context → List TripUpdate → CotsFeed → Result (List TripUpdate)
unfolding get_value read_version
read_feed cfg rows json = do
  dict_version ← get_value json.nouvelle_version
  read_version cfg rows dict_version

unfoldable pub build_trip_updates :
    Setting → ℕ × String → List TripUpdate → Store → Store × Result (List TripUpdate)
unfolding read_feed
build_trip_updates cfg (id, raw_data) rows s = elim (cfg.load raw_data) [
  | none ↦ (s, err invalid_arguments)
  | some json ↦ (s, read_feed cfg.context rows json)
]

unfoldable pub merge_trip_updates : NavVj → Option TripUpdate → TripUpdate → MergeOutcome
merge_trip_updates navitia_vj db_trip_update new_trip_update =
    merge navitia_vj db_trip_update new_trip_update true

unfoldable pub cots_builder : Setting → Builder String
unfolding build_rt_update build_trip_updates merge_trip_updates
cots_builder cfg = record {
  contributor_id = cfg.context.contributor_id;
  build_rt_update = build_rt_update cfg;
  build_trip_updates = build_trip_updates cfg;
  merge_trip_updates = merge_trip_updates;
}
