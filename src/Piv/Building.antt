-- ===== src/Piv/Building.antt =====
-- kirin/piv/model_maker.py: `KirinModelBuilder` as a builder. The decoding of JSON is a parameter.
use kirin.Prelude.{
  ℕ, ℤ, String, Option, none, some, List, [], ◌∷◌, true, ltb, length, if◌then◌else◌, Result, ok,
  err, ◌>>=◌, invalid_arguments, index_error,
}
use Prim.Native.String.{◌++◌ as str_append}
use kirin.Types.{ConnectorType}
use kirin.Model.{NavVj, TripUpdate}
use kirin.Merge.Loop.{MergeOutcome, merge}
use kirin.RtUpdates.{Store, make_rt_update, RtStatus}
use kirin.Handling.{Builder}
use kirin.Complete.Values.{get_value}
use kirin.Piv.Messages.{Train, PivFeed, Arret}
use kirin.Piv.Disruptions.{select_disruption}
use kirin.Piv.Stops.{retrieve_interesting_stops}
use kirin.Piv.Trips.{Context, ReadTrain, get_navitia_vj, make_trip_update}

-- `load` is `ujson.loads`; `now` and `new_id` are the moment and the id that the call generates.
pub record Setting : Type 0 where
  pub context : Context
  pub connector_type : ConnectorType
  pub load : String → Option PivFeed
  pub now : ℤ
  pub new_id : ℕ

-- What is attached to the update is its raw data.
unfoldable pub build_rt_update : Setting → String → Store → Store × Result (ℕ × String)
build_rt_update cfg input_raw s = (
  make_rt_update cfg.now cfg.new_id input_raw cfg.connector_type cfg.context.contributor_id
      RtStatus.rt_ok s,
  ok (cfg.new_id, input_raw),
)

-- `get_value(json["objects"][0], "object")`
unfoldable pub first_object : PivFeed → Result Train
unfolding get_value
first_object feed = do
  dict_objects ← get_value feed.objects
  elim dict_objects [ [] ↦ err index_error | object ∷ _ ↦ get_value object ]

-- "{d}:{n}:{c}:{m}:{s}:{t}"
unfoldable pub join : List String → String
join [] = ""
join (s ∷ []) = s
join (s ∷ t ∷ rest) = str_append s (str_append ":" (join (t ∷ rest)))

unfoldable pub require_stops : List Arret → Result (List Arret)
require_stops ads = if ltb (length ads) 2 then err invalid_arguments else ok ads

-- The key of the train and what else is read of it, in the order of the code.
unfoldable pub read_train : Train → Result (String × ReadTrain)
unfolding get_value select_disruption retrieve_interesting_stops join require_stops
read_train json_train = do
  evenement ← select_disruption json_train.evenement json_train.plan_transport_source
  train_date ← get_value json_train.date_circulation
  train_numbers ← get_value json_train.numero
  train_company ← get_value json_train.code_operateur
  mode_dict ← get_value json_train.mode_transport
  train_mode ← get_value mode_dict.code_mode
  train_submode ← get_value mode_dict.code_sous_mode
  train_typemode ← get_value mode_dict.type_mode
  list_ads ← get_value json_train.arrets
  ads ← require_stops (retrieve_interesting_stops list_ads)
  ok (
    join (
        train_date ∷ train_numbers ∷ train_company ∷ train_mode ∷ train_submode ∷ train_typemode
        ∷ []),
    record {
      numero = train_numbers;
      code_operateur = train_company;
      type_mode = train_typemode;
      evenement = evenement;
      arrets = ads;
    },
  )

unfoldable pub build_trip_update : Context → PivFeed → Result TripUpdate
unfolding first_object read_train get_navitia_vj make_trip_update
build_trip_update cfg feed = do
  json_train ← first_object feed
  (piv_key, train) ← read_train json_train
  vj ← get_navitia_vj cfg piv_key train.arrets
  make_trip_update cfg train vj

unfoldable pub build_trip_updates : Setting → ℕ × String → Store → Store × Result (List TripUpdate)
unfolding build_trip_update
build_trip_updates cfg (id, raw_data) s = elim (cfg.load raw_data) [
  | none ↦ (s, err invalid_arguments)
  | some json ↦ (s, (do tu ← build_trip_update cfg.context json; ok (tu ∷ [])))
]

unfoldable pub merge_trip_updates : NavVj → Option TripUpdate → TripUpdate → MergeOutcome
merge_trip_updates navitia_vj db_trip_update new_trip_update =
    merge navitia_vj db_trip_update new_trip_update true

unfoldable pub piv_builder : Setting → Builder String
unfolding build_rt_update build_trip_updates merge_trip_updates
piv_builder cfg = record {
  contributor_id = cfg.context.contributor_id;
  build_rt_update = build_rt_update cfg;
  build_trip_updates = λ attached rows s. build_trip_updates cfg attached s;
  merge_trip_updates = merge_trip_updates;
}
