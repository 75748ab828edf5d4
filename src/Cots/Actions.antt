-- ===== src/Cots/Actions.antt =====
-- What a COTS feed does to a trip (kirin/cots/model_maker.py: `_get_action_on_trip`), from the
-- recorded trip updates (kirin/core/model.py: `find_vj_by_period`).
use kirin.Prelude.{
  ◌*◌, ℤ, pos, ◌+ℤ◌, ◌-ℤ◌, ltb_ℤ, String, Option, none, some, List, Bool, true, false, not, ◌&&◌,
  ◌==◌, string_eq, option_eq, find_first, reverse, Result, ok, err, ◌>>=◌, invalid_arguments,
  type_error, if◌then◌else◌,
}
use Prim.Native.String.{◌++◌ as str_append}
use kirin.Types.{ModificationType, add, delete}
use kirin.Model.{second, arrival, departure, TripUpdate}
use kirin.Cots.Messages.{TripStatus, ajoutee, Version, Pdp}
use kirin.Cots.Stops.{get_first_stop_datetime}

pub data ActionOnTrip : Type 0 where
  not_added first_time_added previously_added : ActionOnTrip

-- `TRAIN_ID_FORMAT`
abbrev pub train_id : String → String
train_id headsign = str_append "OCE:SN:" headsign

-- `SNCF_SEARCH_MARGIN`
abbrev pub sncf_search_margin : ℤ
sncf_search_margin = pos (3600 * second)

-- The first recorded trip update of this trip that starts in the period; the query has no order.
unfoldable pub find_vj_by_period : List TripUpdate → String → ℤ → ℤ → Option TripUpdate
unfolding find_first
find_vj_by_period rows navitia_trip_id start_date end_date =
    find_first
      (λ (tu : TripUpdate).
        tu.vj.navitia_trip_id == some navitia_trip_id
        && (not (ltb_ℤ tu.vj.start_timestamp start_date)
            && not (ltb_ℤ end_date tu.vj.start_timestamp)))
      rows

abbrev pub is_ajoutee : Option TripStatus → Bool
is_ajoutee (some ajoutee) = true
is_ajoutee _ = false

-- The action from the status of the feed and the status of the recorded trip update.
unfoldable pub action_on_trip : Option TripStatus → Option ModificationType → Result ActionOnTrip
action_on_trip status none = ok (if is_ajoutee status then first_time_added else not_added)
action_on_trip status (some add) =
    if is_ajoutee status then err invalid_arguments else ok previously_added
action_on_trip status (some delete) =
    if is_ajoutee status then ok first_time_added else err invalid_arguments
action_on_trip status (some _) = ok not_added

abbrev pub recorded_status : Option TripUpdate → Option ModificationType
recorded_status none = none
recorded_status (some tu) = some tu.status

-- A missing datetime cannot be subtracted from.
unfoldable pub require_datetime : Option ℤ → Result ℤ
require_datetime none = err type_error
require_datetime (some dt) = ok dt

-- `trip_added_in_db`
unfoldable pub trip_added_in_db :
    (String → Option ℤ) → List TripUpdate → String → List Pdp → Result (Option TripUpdate)
unfolding require_datetime find_vj_by_period get_first_stop_datetime
trip_added_in_db parse rows train_numbers pdps = do
  vj_start ← get_first_stop_datetime parse pdps departure false
  vj_end ← get_first_stop_datetime parse (reverse pdps) arrival false
  start ← require_datetime vj_start
  end ← require_datetime vj_end
  ok (
      find_vj_by_period rows (train_id train_numbers) (start -ℤ sncf_search_margin)
        (end +ℤ sncf_search_margin))

unfoldable pub get_action_on_trip :
    (String → Option ℤ) → List TripUpdate → String → Version → List Pdp → Result ActionOnTrip
unfolding action_on_trip trip_added_in_db
get_action_on_trip parse rows train_numbers dict_version pdps = do
  recorded ← trip_added_in_db parse rows train_numbers pdps
  action_on_trip dict_version.statut_operationnel (recorded_status recorded)
