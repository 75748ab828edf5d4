-- ===== src/Cots/Built.antt =====
-- How the trip updates that a COTS feed gives were filled (kirin/cots/model_maker.py:
-- `build_trip_updates`), and what they all have.
use kirin.Prelude.{
  String, Option, some, List, [], ◌∷◌, ◌≡◌, true, false, Bool-cases, inl, inr, >>=-eq-ok, ok,
  ok_injective,
}
use mathlib.Core.Path.{subst}
use kirin.Types.{delete, no_service, status_eq}
use kirin.Model.{VehicleJourney, TripUpdate}
use kirin.Complete.Values.{get_value, get_value-some}
use kirin.Complete.Drafts.{Draft, start_draft, go_through}
use kirin.Cots.Messages.{TripStatus, Version, Pdp, CotsFeed}
use kirin.Cots.Stops.{retrieve_interesting_pdp}
use kirin.Cots.Actions.{
  ActionOnTrip, action_on_trip, recorded_status, trip_added_in_db, get_action_on_trip,
}
use kirin.Cots.Lookup.{Context, get_vjs}
use kirin.Cots.Trips.{
  make_pdp, is_supprimee, start_trip_update, start_effect, final_effect, with_stops,
  fill_trip_update, make_trip_update,
}
use kirin.Cots.Building.{make_trip_updates, read_version, read_feed, require_pdps}

-- How a trip update is filled.
pub data Filled (cfg : Context) (json_train : Version) (action : ActionOnTrip) (status : TripStatus)
    (tu : TripUpdate) : TripUpdate → Type 0 where
  cancelled :
      is_supprimee status ≡ true
      → Filled cfg json_train action status tu
          (record tu { status = delete; stop_time_updates = []; effect = some no_service })
  running :
      (pdps : List Pdp) (d : Draft)
      → is_supprimee status ≡ false
      → go_through (make_pdp cfg tu.vj.navitia_vj) pdps start_draft ≡ ok d
      → Filled cfg json_train action status tu
          (with_stops (start_effect cfg json_train action tu) (final_effect action d) d)

fill_trip_update-Filled :
    (cfg : Context) (json_train : Version) (action : ActionOnTrip) (status : TripStatus)
    (tu r : TripUpdate)
    → fill_trip_update cfg json_train action status tu ≡ ok r
    → Filled cfg json_train action status tu r
unfolding fill_trip_update
fill_trip_update-Filled cfg json_train action status tu r h =
    elim (Bool-cases (is_supprimee status)) [
      | inl e ↦
          subst (Filled cfg json_train action status tu) (ok_injective (rw e at h)) (cancelled e)
      | inr e ↦
          let (l, _, h) = >>=-eq-ok (get_value json_train.liste_point_de_parcours) _ (rw e at h) in
          let (d, q, h) =
            >>=-eq-ok
              (go_through (make_pdp cfg tu.vj.navitia_vj) (retrieve_interesting_pdp l) start_draft)
              _ h in
          subst (Filled cfg json_train action status tu) (ok_injective h)
            (running (retrieve_interesting_pdp l) d e q)
    ]

-- A trip update of a feed, with the vehicle journey that it is for.
pub record FilledFor (cfg : Context) (json_train : Version) (action : ActionOnTrip)
    (vj : VehicleJourney) (tu : TripUpdate) : Type 0 where
  pub status : TripStatus
  pub has_status : json_train.statut_operationnel ≡ some status
  pub filled : Filled cfg json_train action status (start_trip_update cfg json_train vj) tu

make_trip_update-FilledFor :
    (cfg : Context) (json_train : Version) (action : ActionOnTrip) (vj : VehicleJourney)
    (tu : TripUpdate)
    → make_trip_update cfg json_train action vj ≡ ok tu
    → FilledFor cfg json_train action vj tu
unfolding make_trip_update
make_trip_update-FilledFor cfg json_train action vj tu h =
    let (status, q, h) = >>=-eq-ok (get_value json_train.statut_operationnel) _ h in
    record {
      status = status;
      has_status = get_value-some json_train.statut_operationnel status q;
      filled =
          fill_trip_update-Filled cfg json_train action status (start_trip_update cfg json_train vj)
            tu h;
    }

-- The trip updates are those of the vehicle journeys, in their order.
abbrev pub AllFilled :
    Context → Version → ActionOnTrip → List VehicleJourney → List TripUpdate → Type 0
AllFilled cfg json_train action [] [] = Unit
AllFilled cfg json_train action [] (tu ∷ tus) = ⊥
AllFilled cfg json_train action (vj ∷ vjs) [] = ⊥
AllFilled cfg json_train action (vj ∷ vjs) (tu ∷ tus) =
    FilledFor cfg json_train action vj tu × AllFilled cfg json_train action vjs tus

make_trip_updates-AllFilled :
    (cfg : Context) (json_train : Version) (action : ActionOnTrip) (vjs : List VehicleJourney)
    (tus : List TripUpdate)
    → make_trip_updates cfg json_train action vjs ≡ ok tus
    → AllFilled cfg json_train action vjs tus
unfolding make_trip_updates
make_trip_updates-AllFilled cfg json_train action [] tus h =
    subst (AllFilled cfg json_train action []) (ok_injective h) tt
make_trip_updates-AllFilled cfg json_train action (vj ∷ vjs) tus h =
    let (tu, q, h) = >>=-eq-ok (make_trip_update cfg json_train action vj) _ h in
    let (rest, r, h) = >>=-eq-ok (make_trip_updates cfg json_train action vjs) _ h in
    subst (AllFilled cfg json_train action (vj ∷ vjs)) (ok_injective h) (
      make_trip_update-FilledFor cfg json_train action vj tu q,
      make_trip_updates-AllFilled cfg json_train action vjs rest r,
    )

-- What was read of a feed that is accepted.
pub record ReadFrom (cfg : Context) (rows : List TripUpdate) (json : CotsFeed)
    (tus : List TripUpdate) : Type 0 where
  pub dict_version : Version
  pub train_numbers : String
  pub pdps : List Pdp
  pub action : ActionOnTrip
  pub vjs : List VehicleJourney
  pub version : json.nouvelle_version ≡ some dict_version
  pub numbered : dict_version.numero_course ≡ some train_numbers
  pub recorded : Option TripUpdate
  pub looked_up : trip_added_in_db cfg.parse_datetime rows train_numbers pdps ≡ ok recorded
  pub decided :
      action_on_trip dict_version.statut_operationnel (recorded_status recorded) ≡ ok action
  pub found : get_vjs cfg train_numbers pdps action ≡ ok vjs
  pub filled : AllFilled cfg dict_version action vjs tus

pub read_feed-ReadFrom :
    (cfg : Context) (rows : List TripUpdate) (json : CotsFeed) (tus : List TripUpdate)
    → read_feed cfg rows json ≡ ok tus
    → ReadFrom cfg rows json tus
unfolding read_feed read_version get_action_on_trip
read_feed-ReadFrom cfg rows json tus h =
    let (v, qv, h) = >>=-eq-ok (get_value json.nouvelle_version) _ h in
    let (n, qn, h) = >>=-eq-ok (get_value v.numero_course) _ h in
    let (l, _, h) = >>=-eq-ok (get_value v.liste_point_de_parcours) _ h in
    let (pdps, _, h) = >>=-eq-ok (require_pdps (retrieve_interesting_pdp l)) _ h in
    let (action, qa, h) = >>=-eq-ok (get_action_on_trip cfg.parse_datetime rows n v pdps) _ h in
    let (recorded, qr, qa) = >>=-eq-ok (trip_added_in_db cfg.parse_datetime rows n pdps) _ qa in
    let (vjs, qj, h) = >>=-eq-ok (get_vjs cfg n pdps action) _ h in
    record {
      dict_version = v;
      train_numbers = n;
      pdps = pdps;
      action = action;
      vjs = vjs;
      version = get_value-some json.nouvelle_version v qv;
      numbered = get_value-some v.numero_course n qn;
      recorded = recorded;
      looked_up = qr;
      decided = qa;
      found = qj;
      filled = make_trip_updates-AllFilled cfg v action vjs tus h;
    }
