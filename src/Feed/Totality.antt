-- ===== src/Feed/Totality.antt =====
-- Which trip updates can be published (kirin/core/populate_pb.py), and what is published of them.
use kirin.Prelude.{
  Returns-bind, Option, none, some, List, [], ◌∷◌, true, is_some, ok, >>=-eq-ok, ◌≡◌, ◌≢◌, ◌↔◌,
  refl, arith, All, some_of_is_some, String,
}
use kirin.Types.{TripEffect}
use kirin.Model.{get_circulation_date, TripUpdate}
use kirin.Feed.{
  PbTripUpdate, AlertEffect, get_trip_event, fill_effect, fill_trip_id, fill_trip_update,
  convert_to_gtfsrt, fill_stop_time_list,
}

-- A trip id, and an effect that GTFS-RT knows, if any.
pub record IsPublishable (tu : TripUpdate) : Type 0 where
  pub has_trip_id : is_some tu.vj.navitia_trip_id ≡ true
  pub has_effect : tu.effect ≢ some TripEffect.undefined

fill_effect_total :
    (effect : Option TripEffect)
    → effect ≢ some TripEffect.undefined
    → (e : Option AlertEffect) × (fill_effect effect ≡ ok e)
unfolding fill_effect get_trip_event
fill_effect_total none h = (none, refl)
fill_effect_total (some TripEffect.undefined) h = absurd (h refl)
fill_effect_total (some TripEffect.no_service) h = (_, refl)
fill_effect_total (some _) h = (_, refl)

fill_effect_undefined :
    (effect : Option TripEffect) (e : Option AlertEffect)
    → fill_effect effect ≡ ok e
    → (effect ≡ some TripEffect.undefined)
    → ⊥
unfolding fill_effect get_trip_event
fill_effect_undefined none e h k = cc
fill_effect_undefined (some TripEffect.undefined) e h k = cc
fill_effect_undefined (some TripEffect.no_service) e h k = cc
fill_effect_undefined (some _) e h k = cc

fill_trip_id-some : (o : Option String) (id : String) → fill_trip_id o ≡ ok id → some id ≡ o
unfolding fill_trip_id
fill_trip_id-some none id h = cc
fill_trip_id-some (some x) id h = cc

fill_trip_id_of :
    (tu : TripUpdate) (id : String)
    → tu.vj.navitia_trip_id ≡ some id
    → fill_trip_id tu.vj.navitia_trip_id ≡ ok id
unfolding fill_trip_id
fill_trip_id_of tu id h = ground arith

fill_trip_update_total :
    (tu : TripUpdate) → IsPublishable tu → (e : PbTripUpdate) × (fill_trip_update tu ≡ ok e)
unfolding fill_trip_update
fill_trip_update_total tu p =
    let (effect, e) = fill_effect_total tu.effect p.has_effect in
    let (id, q) = some_of_is_some tu.vj.navitia_trip_id p.has_trip_id in
    Returns-bind (fill_effect tu.effect) _ (effect, e)
      (λ a.
        Returns-bind (fill_trip_id tu.vj.navitia_trip_id) _ (id, fill_trip_id_of tu id q)
          (λ b. (_, refl)))

-- What an entity says of its trip update.
pub record Describes (tu : TripUpdate) (e : PbTripUpdate) : Type 0 where
  pub trip_id : some e.trip_id ≡ tu.vj.navitia_trip_id
  pub start_date : e.start_date ≡ get_circulation_date tu.vj
  pub stops : e.stop_time_update ≡ fill_stop_time_list tu.stop_time_updates

fill_trip_update-Describes :
    (tu : TripUpdate) (e : PbTripUpdate)
    → fill_trip_update tu ≡ ok e
    → IsPublishable tu × Describes tu e
unfolding fill_trip_update
fill_trip_update-Describes tu e h =
    let (effect, p, h1) = >>=-eq-ok (fill_effect tu.effect) _ h in
    let (id, q, h2) = >>=-eq-ok (fill_trip_id tu.vj.navitia_trip_id) _ h1 in
    let t = fill_trip_id-some tu.vj.navitia_trip_id id q in
    (
      record { has_trip_id = rw (← t) refl; has_effect = fill_effect_undefined tu.effect effect p },
      record {
        trip_id = let i : id ≡ e.trip_id = ground arith in rw (← i) t;
        start_date = ground arith;
        stops = ground arith;
      },
    )

-- The entities stand in the order of the trip updates, and each describes its own.
abbrev pub AllDescribe : List TripUpdate → List PbTripUpdate → Type 0
AllDescribe [] [] = Unit
AllDescribe [] (e ∷ es) = ⊥
AllDescribe (tu ∷ tus) [] = ⊥
AllDescribe (tu ∷ tus) (e ∷ es) = Describes tu e × AllDescribe tus es

-- A feed is produced if every trip update has a trip id and no effect that GTFS-RT does not know.
pub convert_to_gtfsrt_total :
    (tus : List TripUpdate)
    → All IsPublishable tus
    → (feed : List PbTripUpdate) × (convert_to_gtfsrt tus ≡ ok feed)
unfolding convert_to_gtfsrt
convert_to_gtfsrt_total [] p = ([], refl)
convert_to_gtfsrt_total (tu ∷ rest) (p, ps) =
    let (e, q) = fill_trip_update_total tu p in
    let (es, qs) = convert_to_gtfsrt_total rest ps in (e ∷ es, rw (q, qs))

pub convert_to_gtfsrt_inv :
    (tus : List TripUpdate) (feed : List PbTripUpdate)
    → convert_to_gtfsrt tus ≡ ok feed
    → All IsPublishable tus × AllDescribe tus feed
unfolding convert_to_gtfsrt
convert_to_gtfsrt_inv [] feed h =
    let q : ◌≡◌ {A = List PbTripUpdate} [] feed = ground arith in rw (← q) (tt, tt)
convert_to_gtfsrt_inv (tu ∷ rest) feed h =
    let (e, q, h1) = >>=-eq-ok (fill_trip_update tu) _ h in
    let (es, qs, h2) = >>=-eq-ok (convert_to_gtfsrt rest) _ h1 in
    let (p, d) = fill_trip_update-Describes tu e q in
    let (ps, ds) = convert_to_gtfsrt_inv rest es qs in
    let r : e ∷ es ≡ feed = ground arith in rw (← r) ((p, ps), (d, ds))

-- Publishing succeeds exactly for trip updates that all have a trip id and no effect unknown to
-- GTFS-RT; the feed then has one entity for each, in their order, with its trip, its start date and
-- its stop times.
pub convert_to_gtfsrt_iff :
    (tus : List TripUpdate)
    → ((feed : List PbTripUpdate) × (convert_to_gtfsrt tus ≡ ok feed) × AllDescribe tus feed)
      ↔ All IsPublishable tus
convert_to_gtfsrt_iff tus = (
  (λ (feed, e, _). (convert_to_gtfsrt_inv tus feed e).0),
  (λ p.
      let (feed, e) = convert_to_gtfsrt_total tus p in
      (feed, e, (convert_to_gtfsrt_inv tus feed e).1)),
)
