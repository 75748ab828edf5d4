-- ===== src/Piv/Merging.antt =====
-- PIV trip updates (kirin/piv/model_maker.py) once they are merged (kirin/core/merge_utils.py) and
-- published (kirin/core/populate_pb.py).
use kirin.Prelude.{
  String, Option, none, some, List, [], ◌∷◌, Bool, true, false, ◌≡◌, ◌≢◌, refl, sym, ap, ◌∙◌, arith,
  ok, err, Result, ok_injective, ◌==◌, Bool-cases, inl, inr,
}
use kirin.Types.{TripEffect, undefined, delete, status_eq}
use kirin.Model.{NavVj, TripUpdate}
use kirin.Merge.Loop.{MergeState, merge, take_header, finish}
use kirin.Merge.Chain.{Ordered, merge_complete-Ordered}
use kirin.Feed.{PbTripUpdate, convert_to_gtfsrt}
use kirin.Feed.Totality.{convert_to_gtfsrt_inv}
use kirin.Piv.Messages.{PivFeed, Train, Disruption}
use kirin.Piv.Disruptions.{
  Chosen, no_disruption, select_disruption, require_source, effect_or_undefined,
  trip_piv_status_to_effect,
}
use kirin.Piv.Trips.{Context, ReadTrain, start_trip_update, final_effect}
use kirin.Piv.Building.{build_trip_update, first_object, merge_trip_updates}
use kirin.Piv.Times.{
  Filled, cancelled, running, build_trip_update-HasOwnId, build_trip_update-Built,
}

-- What a PIV feed gives can be merged with any recorded trip update: the merged stop times, if `merge`
-- returns them, are in the order of time, unless the trip is cancelled. Nothing is asked of the feed
-- but that it is accepted.
pub merge_trip_updates-Ordered :
    (cfg : Context) (feed : PivFeed) (navitia_vj : NavVj) (db_tu : Option TripUpdate)
    (tu : TripUpdate)
    → build_trip_update cfg feed ≡ ok tu
    → (tu.status == delete) ≡ false
    → (merge_trip_updates navitia_vj db_tu tu).reply ≡ ok true
    → Ordered none (merge_trip_updates navitia_vj db_tu tu).res.stop_time_updates
unfolding merge_trip_updates
merge_trip_updates-Ordered cfg feed navitia_vj db_tu tu b d h =
    merge_complete-Ordered navitia_vj db_tu tu (build_trip_update-HasOwnId cfg feed tu b) d h

finish-effect :
    (res : TripUpdate) (run : Result MergeState) → (finish res run).res.effect ≡ res.effect
unfolding finish
finish-effect res (err e) = refl
finish-effect res (ok s) = ground arith

merge-effect :
    (vj : NavVj) (db_tu : Option TripUpdate) (new_tu : TripUpdate) (c : Bool)
    → (merge vj db_tu new_tu c).res.effect ≡ new_tu.effect
unfolding merge take_header
merge-effect vj db_tu new_tu c = elim (Bool-cases (new_tu.status == delete)) [
  | inl e ↦ rw e refl
  | inr e ↦ rw e (finish-effect _ _)
]

Filled-undefined :
    (cfg : Context) (train : ReadTrain) (tu : TripUpdate) (effect : TripEffect) (r : TripUpdate)
    → Filled cfg train tu effect r
    → effect ≡ undefined
    → r.effect ≡ some undefined
unfolding final_effect
Filled-undefined cfg train tu effect r (cancelled e) h = cc
Filled-undefined cfg train tu effect r (running d e q) h = rw h refl

source_undefined :
    (source : Option String) (c : Chosen) → require_source source ≡ ok c → c ≡ no_disruption
unfolding require_source
source_undefined none c h = cc
source_undefined (some s) c h = ground arith

select_none :
    (o : Option (List Disruption)) (source : Option String) (c : Chosen)
    → o ≡ none
    → select_disruption o source ≡ ok c
    → effect_or_undefined c.status ≡ undefined
unfolding select_disruption effect_or_undefined trip_piv_status_to_effect
select_none none source c e h = rw (source_undefined source c h) refl
select_none (some l) source c e h = cc

build_trip_update-undefined :
    (cfg : Context) (feed : PivFeed) (json_train : Train) (tu : TripUpdate)
    → first_object feed ≡ ok json_train
    → json_train.evenement ≡ none
    → build_trip_update cfg feed ≡ ok tu
    → tu.effect ≡ some undefined
build_trip_update-undefined cfg feed json_train tu f e h =
    let b = build_trip_update-Built cfg feed tu h in
    let same = ap (λ (t : Train). t.evenement) (ok_injective (sym b.first ∙ f)) in
    Filled-undefined cfg b.train (start_trip_update cfg b.train b.vj b.company_id)
      (effect_or_undefined b.train.evenement.status) tu b.filled
      (select_none b.json_train.evenement b.json_train.plan_transport_source b.train.evenement
        (same ∙ e) b.read.selected)

-- A train without "evenement" that is accepted for its "planTransportSource" cannot be published:
-- whatever it is merged with, no feed is written of the merged trip update.
pub build_trip_update-unpublished :
    (cfg : Context) (feed : PivFeed) (json_train : Train) (navitia_vj : NavVj)
    (db_tu : Option TripUpdate) (tu : TripUpdate)
    → first_object feed ≡ ok json_train
    → json_train.evenement ≡ none
    → build_trip_update cfg feed ≡ ok tu
    → (published : List PbTripUpdate)
    → convert_to_gtfsrt ((merge_trip_updates navitia_vj db_tu tu).res ∷ []) ≢ ok published
unfolding merge_trip_updates
build_trip_update-unpublished cfg feed json_train navitia_vj db_tu tu f e h published q =
    let res = (merge navitia_vj db_tu tu true).res in
    let u =
      merge-effect navitia_vj db_tu tu true
      ∙ build_trip_update-undefined cfg feed json_train tu f e h in
    ((convert_to_gtfsrt_inv (res ∷ []) published q).0.0.has_effect) u
