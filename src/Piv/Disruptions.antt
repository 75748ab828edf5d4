-- ===== src/Piv/Disruptions.antt =====
-- The choice of the disruption of a train (kirin/piv/model_maker.py).
use kirin.Prelude.{
  ℕ, ltb, String, Option, none, some, List, [], ◌∷◌, Bool, true, false, ◌||◌, ◌==◌, string_eq,
  if◌then◌else◌, Result, ok, err, invalid_arguments, unsupported_value,
}
use kirin.Types.{
  TripEffect, no_service, reduced_service, significant_delays, detour, additional_service,
  modified_service, other_effect, unknown_effect, stop_moved, undefined,
}
use kirin.Piv.Messages.{
  TripStatus, suppression, trip_creation, modification_detournement,
  modification_desserte_supprimee, modification_limitation, modification_desserte_ajoutee,
  modification_prolongation, retard, trip_normal, undefined_status, other_trip_status, Disruption,
}

-- `sys.maxint` of a machine of 64 bits.
abbrev pub maxint : ℕ
maxint = 9_223_372_036_854_775_807

-- The dictionary: `none` for a text that is no key.
unfoldable pub trip_piv_status_to_effect : TripStatus → Option TripEffect
trip_piv_status_to_effect suppression = some no_service
trip_piv_status_to_effect trip_creation = some additional_service
trip_piv_status_to_effect modification_detournement = some detour
trip_piv_status_to_effect modification_desserte_supprimee = some reduced_service
trip_piv_status_to_effect modification_limitation = some reduced_service
trip_piv_status_to_effect modification_desserte_ajoutee = some modified_service
trip_piv_status_to_effect modification_prolongation = some modified_service
trip_piv_status_to_effect retard = some significant_delays
trip_piv_status_to_effect trip_normal = some unknown_effect
trip_piv_status_to_effect undefined_status = some undefined
trip_piv_status_to_effect (other_trip_status s) = none

-- `trip_effect_order.get(effect, maxint)`
unfoldable pub trip_effect_order : TripEffect → ℕ
trip_effect_order additional_service = 0
trip_effect_order no_service = 1
trip_effect_order detour = 2
trip_effect_order reduced_service = 3
trip_effect_order modified_service = 4
trip_effect_order significant_delays = 5
trip_effect_order unknown_effect = 6
trip_effect_order undefined = maxint
trip_effect_order other_effect = maxint
trip_effect_order stop_moved = maxint

-- `trip_piv_status_to_effect.get(status, TripEffect.UNDEFINED)`
unfoldable pub effect_or_undefined : TripStatus → TripEffect
unfolding trip_piv_status_to_effect
effect_or_undefined status = elim (trip_piv_status_to_effect status) [
  | none ↦ undefined
  | some effect ↦ effect
]

unfoldable pub get_trip_effect_order_from_piv_status : TripStatus → ℕ
unfolding trip_effect_order effect_or_undefined
get_trip_effect_order_from_piv_status status = trip_effect_order (effect_or_undefined status)

-- `status in trip_piv_status_to_effect and status in MANAGED_EVENTS`
unfoldable pub is_managed : TripStatus → Bool
is_managed retard = true
is_managed suppression = true
is_managed modification_desserte_supprimee = true
is_managed modification_limitation = true
is_managed modification_desserte_ajoutee = true
is_managed modification_prolongation = true
is_managed modification_detournement = true
is_managed trip_normal = true
is_managed _ = false

-- `higher_disruption`, which always has a type.
pub record Chosen : Type 0 where
  pub status : TripStatus
  pub texte : Option String

abbrev pub no_disruption : Chosen
no_disruption = record { status = undefined_status; texte = some "" }

unfoldable pub prefer : Option TripStatus → Option String → Chosen → Chosen
unfolding is_managed
prefer none texte higher = higher
prefer (some status) texte higher =
    if is_managed status
    then if ltb (get_trip_effect_order_from_piv_status status)
        (get_trip_effect_order_from_piv_status higher.status)
      then record { status = status; texte = texte }
      else higher
    else higher

-- The loop over the disruptions.
unfoldable pub choose_disruption : List Disruption → Chosen → Chosen
unfolding prefer
choose_disruption [] higher = higher
choose_disruption (d ∷ ds) higher = choose_disruption ds (prefer d.type_ d.texte higher)

unfoldable pub require_effect : Chosen → Result Chosen
require_effect higher = elim (effect_or_undefined higher.status) [
  | undefined ↦ err unsupported_value
  | _ ↦ ok higher
]

-- Without a disruption the feed has to tell its source.
unfoldable pub require_source : Option String → Result Chosen
require_source none = err invalid_arguments
require_source (some source) =
    if source == ""
    then err invalid_arguments
    else if source == "PTP" || source == "OPE"
    then ok no_disruption
    else err unsupported_value

-- From "evenement" and "planTransportSource" of the train.
unfoldable pub select_disruption : Option (List Disruption) → Option String → Result Chosen
unfolding choose_disruption require_effect require_source
select_disruption none source = require_source source
select_disruption (some []) source = require_source source
select_disruption (some (d ∷ ds)) source = require_effect (choose_disruption (d ∷ ds) no_disruption)
