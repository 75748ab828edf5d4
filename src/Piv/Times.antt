-- ===== src/Piv/Times.antt =====
-- The stop times of the trip updates that a PIV feed gives (kirin/piv/model_maker.py:
-- `_make_trip_update`): their identifiers and times.
use kirin.Prelude.{
  ℤ, String, Option, none, some, [], ◌≡◌, refl, arith, true, All, >>=-eq-ok, ok, ok_injective, ◌≢◌,
}
use mathlib.Core.Path.{subst}
use kirin.Types.{TripEffect, no_service, delete, status_eq}
use kirin.Model.{StopPoint, NavVj, VehicleJourney, TripUpdate}
use kirin.Merge.Chain.{HasOwnId}
use kirin.Complete.Values.{get_value}
use kirin.Complete.Drafts.{EventUpdate, Draft, start_draft, are_times_consistent, go_through}
use kirin.Complete.Rounds.{
  Round, skipped, appended, Rounds, IsChecked, Timed, go_through-Own, go_through-IsTimed,
}
use kirin.Piv.Messages.{PlannedEvent, Arret, PivFeed, Train}
use kirin.Piv.Reading.{ReadFrom, read_train-ReadFrom}
use kirin.Piv.Disruptions.{effect_or_undefined}
use kirin.Piv.Stops.{
  read_event, get_event_status, modification_of, get_real_datetime, get_event_delay, get_message,
  check_stop_time_consistency, make_stop,
}
use kirin.Piv.Trips.{
  Context, ReadTrain, get_navitia_stop_point, get_navitia_vj, get_navitia_company_id, make_arret,
  start_trip_update, with_stops, final_effect, fill_trip_update, make_trip_update,
}
use kirin.Piv.Building.{first_object, read_train, build_trip_update}

read_event-IsChecked :
    (parse : String → Option ℤ) (e : Option PlannedEvent) (u : EventUpdate)
    → read_event parse e ≡ ok u
    → IsChecked u
unfolding read_event
read_event-IsChecked parse none u h = ground arith
read_event-IsChecked parse (some e) u h =
    let (status, _, h1) = >>=-eq-ok (get_event_status e) _ h in
    let (_, _, h2) = >>=-eq-ok (modification_of status) _ h1 in
    let (_, _, h3) = >>=-eq-ok (get_real_datetime parse e.date_heure_reelle) _ h2 in
    let (_, _, h4) = >>=-eq-ok (get_event_delay e) _ h3 in ground arith

check_consistent :
    (epoch : ℤ) (last a b : Option ℤ) (t : Unit {0})
    → check_stop_time_consistency epoch last a b ≡ ok t
    → are_times_consistent epoch last a b ≡ true
unfolding check_stop_time_consistency
check_consistent epoch last a b t h = ground arith

make_stop-Round :
    (parse : String → Option ℤ) (epoch : ℤ) (arret : Arret) (sp : Option StopPoint) (d d' : Draft)
    → make_stop parse epoch arret sp d ≡ ok d'
    → Round IsChecked epoch d d'
unfolding make_stop
make_stop-Round parse epoch arret none d d' h =
    let e : d ≡ d' = ground arith in subst (Round IsChecked epoch d) e skipped
make_stop-Round parse epoch arret (some sp) d d' h =
    let (m, _, h1) = >>=-eq-ok (get_message arret) _ h in
    let (a, ea, h2) = >>=-eq-ok (read_event parse arret.arrivee) _ h1 in
    let (b, eb, h3) = >>=-eq-ok (read_event parse arret.depart) _ h2 in
    let (t, c, h4) =
      >>=-eq-ok (check_stop_time_consistency epoch d.last_departure a.projected b.projected) _ h3 in
    let p = read_event-IsChecked parse arret.arrivee a ea in
    let q = read_event-IsChecked parse arret.depart b eb in
    let k = check_consistent epoch d.last_departure a.projected b.projected t c in
    subst (Round IsChecked epoch d) (ok_injective h4) (appended sp m a b (p, q) k)

make_arret-Round :
    (cfg : Context) (nav_vj : NavVj) → Rounds IsChecked cfg.epoch (make_arret cfg nav_vj)
unfolding make_arret
make_arret-Round cfg nav_vj arret d d' h =
    let (uic8, _, h1) = >>=-eq-ok (get_value arret.code) _ h in
    make_stop-Round cfg.parse_datetime cfg.epoch arret
      (get_navitia_stop_point cfg.navitia uic8 nav_vj) d d' h1

-- How a trip update is filled.
pub data Filled (cfg : Context) (train : ReadTrain) (tu : TripUpdate) (effect : TripEffect)
    : TripUpdate → Type 0 where
  cancelled :
      effect ≡ no_service
      → Filled cfg train tu effect (record tu { status = delete; stop_time_updates = [] })
  running :
      (d : Draft)
      → go_through (make_arret cfg tu.vj.navitia_vj) train.arrets start_draft ≡ ok d
      → effect ≢ no_service
      → Filled cfg train tu effect (with_stops tu (final_effect effect d) d)

pub fill_trip_update-Filled :
    (cfg : Context) (train : ReadTrain) (tu : TripUpdate) (effect : TripEffect) (r : TripUpdate)
    → fill_trip_update cfg train tu effect ≡ ok r
    → Filled cfg train tu effect r
unfolding fill_trip_update
fill_trip_update-Filled cfg train tu no_service r h =
    subst (Filled cfg train tu no_service) (ok_injective h) (cancelled refl)
fill_trip_update-Filled cfg train tu effect r h =
    let (d, e, h1) =
      >>=-eq-ok (go_through (make_arret cfg tu.vj.navitia_vj) train.arrets start_draft) _ h in
    subst (Filled cfg train tu effect) (ok_injective h1) (running d e (λ q. cc))

-- A trip update that a PIV feed gives, from its feed on.
pub record Built (cfg : Context) (feed : PivFeed) (tu : TripUpdate) : Type 0 where
  pub json_train : Train
  pub first : first_object feed ≡ ok json_train
  pub train : ReadTrain
  pub read : ReadFrom json_train train
  pub vj : VehicleJourney
  pub company_id : Option String
  pub filled :
      Filled cfg train
        (start_trip_update cfg train vj company_id)
        (effect_or_undefined train.evenement.status)
        tu

pub make_trip_update-Filled :
    (cfg : Context) (train : ReadTrain) (vj : VehicleJourney) (tu : TripUpdate)
    → make_trip_update cfg train vj ≡ ok tu
    → (company_id : Option String) × Filled cfg train
        (start_trip_update cfg train vj company_id)
        (effect_or_undefined train.evenement.status)
        tu
unfolding make_trip_update
make_trip_update-Filled cfg train vj tu h =
    let (c, _, h1) = >>=-eq-ok (get_navitia_company_id cfg.navitia train.code_operateur) _ h in
    (
      c,
      fill_trip_update-Filled cfg train (start_trip_update cfg train vj c)
          (effect_or_undefined train.evenement.status) tu h1,
    )

pub build_trip_update-Built :
    (cfg : Context) (feed : PivFeed) (tu : TripUpdate)
    → build_trip_update cfg feed ≡ ok tu
    → Built cfg feed tu
unfolding build_trip_update
build_trip_update-Built cfg feed tu h =
    let (json_train, first, h1) = >>=-eq-ok (first_object feed) _ h in
    let ((piv_key, train), r, h2) = >>=-eq-ok (read_train json_train) _ h1 in
    let (vj, _, h3) = >>=-eq-ok (get_navitia_vj cfg piv_key train.arrets) _ h2 in
    let (c, f) = make_trip_update-Filled cfg train vj tu h3 in
    record {
      json_train = json_train;
      first = first;
      train = train;
      read = read_train-ReadFrom json_train piv_key train r;
      vj = vj;
      company_id = c;
      filled = f;
    }

Filled-HasOwnId :
    (cfg : Context) (train : ReadTrain) (tu : TripUpdate) (effect : TripEffect) (r : TripUpdate)
    → Filled cfg train tu effect r
    → All HasOwnId r.stop_time_updates
Filled-HasOwnId cfg train tu effect r (cancelled e) = tt
Filled-HasOwnId cfg train tu effect r (running d e q) =
    go_through-Own IsChecked cfg.epoch (make_arret cfg tu.vj.navitia_vj)
      (make_arret-Round cfg tu.vj.navitia_vj) train.arrets start_draft d tt e

Filled-Timed :
    (cfg : Context) (train : ReadTrain) (tu : TripUpdate) (effect : TripEffect) (r : TripUpdate)
    → Filled cfg train tu effect r
    → Timed cfg.epoch none r.stop_time_updates
Filled-Timed cfg train tu effect r (cancelled e) = tt
Filled-Timed cfg train tu effect r (running d e q) =
    (go_through-IsTimed cfg.epoch (make_arret cfg tu.vj.navitia_vj)
      (make_arret-Round cfg tu.vj.navitia_vj) train.arrets start_draft d (tt, refl) e).0

pub build_trip_update-HasOwnId :
    (cfg : Context) (feed : PivFeed) (tu : TripUpdate)
    → build_trip_update cfg feed ≡ ok tu
    → All HasOwnId tu.stop_time_updates
build_trip_update-HasOwnId cfg feed tu h =
    let b = build_trip_update-Built cfg feed tu h in
    Filled-HasOwnId cfg b.train (start_trip_update cfg b.train b.vj b.company_id)
      (effect_or_undefined b.train.evenement.status) tu b.filled

-- The stops of a trip update that a PIV feed gives follow each other in time: each is entered no
-- earlier than the one before is left, and left no earlier than entered, where a departure that is
-- missing counts as the epoch for the next stop, a missing arrival as the departure before, and a
-- missing departure as the arrival.
pub build_trip_update-Timed :
    (cfg : Context) (feed : PivFeed) (tu : TripUpdate)
    → build_trip_update cfg feed ≡ ok tu
    → Timed cfg.epoch none tu.stop_time_updates
build_trip_update-Timed cfg feed tu h =
    let b = build_trip_update-Built cfg feed tu h in
    Filled-Timed cfg b.train (start_trip_update cfg b.train b.vj b.company_id)
      (effect_or_undefined b.train.evenement.status) tu b.filled
