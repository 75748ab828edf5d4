-- ===== src/Piv/Listing.antt =====
-- Which stops a PIV trip update lists (kirin/piv/model_maker.py: `_make_trip_update`), and when its
-- circulation starts (`_get_navitia_vj`).
use kirin.Prelude.{
  ℤ, ◌+ℤ◌, ◌-ℤ◌, int_laws, String, Option, none, some, List, [], ◌∷◌, ◌++◌, map, ◌≡◌, ◌≢◌, refl,
  sym, ap, ◌∙◌, ◌⊎◌, arith, Option-cases, inl, inr, ok, err, Result, >>=-eq-ok, ok_injective,
  string_eq,
}
use mathlib.Core.List.{append_assoc, append-nil, map-append}
use kirin.Types.{no_service, delete, update, status_eq}
use kirin.Model.{StopPoint, NavVj, StopTimeUpdate, VehicleJourney, TripUpdate, new_trip_update}
use kirin.Model.Start.{IsWithin, new_vehicle_journey_given-IsWithin}
use kirin.Complete.Values.{get_value}
use kirin.Complete.Drafts.{
  Draft, start_draft, make_stop_update, order_entity, append_stop, go_through,
}
use kirin.Piv.Messages.{Arret}
use kirin.Piv.Disruptions.{effect_or_undefined}
use kirin.Piv.Stops.{
  get_message, read_event, check_stop_time_consistency, make_stop, get_first_stop_base_datetime,
}
use kirin.Piv.Trips.{
  Context, ReadTrain, hour, get_navitia_stop_point, make_arret, start_trip_update, make_trip_update,
  get_navitia_vj, only_vj, vehicle_journey_near, or_not_found, make_navitia_empty_vj,
}
use kirin.Piv.Times.{Filled, cancelled, running, make_trip_update-Filled}

abbrev stop_ids : List StopTimeUpdate → List String
stop_ids l = map (λ (st : StopTimeUpdate). st.stop_id) l

abbrev known_id : Option StopPoint → List String
known_id none = []
known_id (some sp) = sp.id ∷ []

abbrev known_at : Context → NavVj → Option String → List String
known_at cfg nav_vj none = []
known_at cfg nav_vj (some uic8) = known_id (get_navitia_stop_point cfg.navitia uic8 nav_vj)

-- The stop points of the stops whose stop area is on the vehicle journey or known to navitia.
abbrev pub known_ids : Context → NavVj → List Arret → List String
known_ids cfg nav_vj [] = []
known_ids cfg nav_vj (a ∷ l) = known_at cfg nav_vj a.code ++ known_ids cfg nav_vj l

make_stop-ids :
    (parse : String → Option ℤ) (epoch : ℤ) (arret : Arret) (sp : Option StopPoint) (d d' : Draft)
    → make_stop parse epoch arret sp d ≡ ok d'
    → stop_ids d'.stop_time_updates ≡ stop_ids d.stop_time_updates ++ known_id sp
unfolding make_stop append_stop make_stop_update order_entity
make_stop-ids parse epoch arret none d d' h = rw (← ok_injective h) (sym (append-nil _))
make_stop-ids parse epoch arret (some sp) d d' h =
    let (m, _, h) = >>=-eq-ok (get_message arret) _ h in
    let (a, _, h) = >>=-eq-ok (read_event parse arret.arrivee) _ h in
    let (b, _, h) = >>=-eq-ok (read_event parse arret.depart) _ h in
    let (_, _, h) =
      >>=-eq-ok (check_stop_time_consistency epoch d.last_departure a.projected b.projected) _ h in
    rw (← ok_injective h) (map-append (λ (st : StopTimeUpdate). st.stop_id) d.stop_time_updates _)

make_arret-ids :
    (cfg : Context) (nav_vj : NavVj) (a : Arret) (d d' : Draft)
    → make_arret cfg nav_vj a d ≡ ok d'
    → stop_ids d'.stop_time_updates ≡ stop_ids d.stop_time_updates ++ known_at cfg nav_vj a.code
unfolding make_arret get_value
make_arret-ids cfg nav_vj a d d' h = elim (Option-cases a.code) [
  | inl e ↦ ground arith
  | inr (uic8, e) ↦ rw e (
      make_stop-ids cfg.parse_datetime cfg.epoch a (get_navitia_stop_point cfg.navitia uic8 nav_vj)
        d d' (rw e at h))
]

go_through-ids :
    (cfg : Context) (nav_vj : NavVj) (l : List Arret) (d d' : Draft)
    → go_through (make_arret cfg nav_vj) l d ≡ ok d'
    → stop_ids d'.stop_time_updates ≡ stop_ids d.stop_time_updates ++ known_ids cfg nav_vj l
unfolding go_through
go_through-ids cfg nav_vj [] d d' h = rw (← ok_injective h) (sym (append-nil _))
go_through-ids cfg nav_vj (a ∷ l) d d' h =
    let (e, q, h) = >>=-eq-ok (make_arret cfg nav_vj a d) _ h in
    go_through-ids cfg nav_vj l e d' h
    ∙ ap (λ x. x ++ known_ids cfg nav_vj l) (make_arret-ids cfg nav_vj a d e q)
    ∙ append_assoc (stop_ids d.stop_time_updates) (known_at cfg nav_vj a.code)
        (known_ids cfg nav_vj l)

-- What the trip update of a train lists.
abbrev pub Lists : Context → ReadTrain → VehicleJourney → TripUpdate → Type 0
Lists cfg train vj tu =
    ((effect_or_undefined train.evenement.status ≡ no_service)
      × (tu.status ≡ delete)
      × (tu.stop_time_updates ≡ []))
    ⊎ ((effect_or_undefined train.evenement.status ≢ no_service)
        × (tu.status ≡ update)
        × (stop_ids tu.stop_time_updates ≡ known_ids cfg vj.navitia_vj train.arrets))

Filled-Lists :
    (cfg : Context) (train : ReadTrain) (vj : VehicleJourney) (c : Option String) (tu : TripUpdate)
    → Filled cfg train
        (start_trip_update cfg train vj c)
        (effect_or_undefined train.evenement.status)
        tu
    → Lists cfg train vj tu
unfolding start_trip_update new_trip_update
Filled-Lists cfg train vj c tu (cancelled e) = inl (e, refl, refl)
Filled-Lists cfg train vj c tu (running d e q) =
    inr (q, refl, go_through-ids cfg vj.navitia_vj train.arrets start_draft d e)

-- A trip update of a PIV train deletes the trip without listing a stop, if the train is cancelled;
-- otherwise it is an update that lists the stop points of exactly those kept stops of the train whose
-- stop area is on the vehicle journey or known to navitia, in their order.
pub make_trip_update-Lists :
    (cfg : Context) (train : ReadTrain) (vj : VehicleJourney) (tu : TripUpdate)
    → make_trip_update cfg train vj ≡ ok tu
    → Lists cfg train vj tu
make_trip_update-Lists cfg train vj tu h =
    let (c, f) = make_trip_update-Filled cfg train vj tu h in Filled-Lists cfg train vj c tu f

or_not_found_ok : {A : Type 0} (r : Result A) (a : A) → or_not_found r ≡ ok a → r ≡ ok a
unfolding or_not_found
or_not_found_ok (err e) a h = cc
or_not_found_ok (ok b) a h = h

vehicle_journey_near-IsWithin :
    (nav : NavVj) (base : Option ℤ) (vj : VehicleJourney)
    → vehicle_journey_near nav base ≡ ok vj
    → (start : ℤ) × (base ≡ some start)
      × IsWithin (start -ℤ hour) (start +ℤ hour) vj.start_timestamp
      × (vj.navitia_vj ≡ nav)
unfolding vehicle_journey_near
vehicle_journey_near-IsWithin nav none vj h = cc
vehicle_journey_near-IsWithin nav (some start) vj h =
    let near : IsWithin (start -ℤ hour) (start +ℤ hour) start = (omega int_laws, omega int_laws) in
    let (w, same) =
      new_vehicle_journey_given-IsWithin nav (start -ℤ hour) (start +ℤ hour) start vj near h in
    (start, refl, w, same)

only_vj_from :
    (piv_key : String) (l : List NavVj) (nav found : NavVj)
    → only_vj piv_key l ≡ ok nav
    → found ≡ nav
    → (l ≡ found ∷ []) ⊎ ((l ≡ []) × (found ≡ make_navitia_empty_vj piv_key))
unfolding only_vj
only_vj_from piv_key [] nav found h e = inr (refl, e ∙ sym (ok_injective h))
only_vj_from piv_key (v ∷ []) nav found h e = inl (ap (λ x. x ∷ []) (ok_injective h ∙ sym e))
only_vj_from piv_key (v ∷ w ∷ l) nav found h e = cc

-- The circulation found for a PIV train starts at most one hour before or after the planned departure
-- of the first kept stop that is not fully added; it is one of the only vehicle journey that navitia
-- has for the train, or of an empty one made from the key of the train where navitia has none.
pub get_navitia_vj-near :
    (cfg : Context) (piv_key : String) (ads : List Arret) (vj : VehicleJourney)
    → get_navitia_vj cfg piv_key ads ≡ ok vj
    → (start : ℤ) × (get_first_stop_base_datetime cfg.parse_datetime ads ≡ ok (some start))
      × IsWithin (start -ℤ hour) (start +ℤ hour) vj.start_timestamp
      × ((cfg.navitia.vehicle_journeys piv_key ≡ vj.navitia_vj ∷ [])
          ⊎ ((cfg.navitia.vehicle_journeys piv_key ≡ [])
              × (vj.navitia_vj ≡ make_navitia_empty_vj piv_key)))
unfolding get_navitia_vj
get_navitia_vj-near cfg piv_key ads vj h =
    let (nav, only, h1) = >>=-eq-ok (only_vj piv_key (cfg.navitia.vehicle_journeys piv_key)) _ h in
    let (base, q, h2) =
      >>=-eq-ok (get_first_stop_base_datetime cfg.parse_datetime ads) _ (or_not_found_ok _ vj h1) in
    let (start, e, w, same) = vehicle_journey_near-IsWithin nav base vj h2 in
    (
      start,
      q ∙ ap ok e,
      w,
      only_vj_from piv_key (cfg.navitia.vehicle_journeys piv_key) nav vj.navitia_vj only same,
    )
