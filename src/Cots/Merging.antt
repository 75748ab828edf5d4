-- ===== src/Cots/Merging.antt =====
-- COTS trip updates (kirin/cots/model_maker.py): what they all have, once built and once merged
-- (kirin/core/merge_utils.py).
use kirin.Prelude.{Option, none, List, [], ◌∷◌, ◌++◌, ◌≡◌, true, false, All, ok, ◌==◌}
use kirin.Types.{delete, status_eq}
use kirin.Model.{NavVj, VehicleJourney, TripUpdate}
use kirin.Merge.Chain.{HasOwnId, Ordered, merge_complete-Ordered}
use kirin.Consistency.Sequence.{InSequence}
use kirin.Complete.Drafts.{start_draft}
use kirin.Complete.Rounds.{go_through-Own, go_through-Round, go_through-Numbered}
use kirin.Cots.Messages.{TripStatus, Version, CotsFeed}
use kirin.Cots.Actions.{ActionOnTrip}
use kirin.Cots.Lookup.{Context}
use kirin.Cots.Trips.{make_pdp, start_trip_update}
use kirin.Cots.Building.{read_feed, merge_trip_updates}
use kirin.Cots.Times.{IsRead, IsDelayMatched, AllMatched, Round-AllMatched, make_pdp-Round}
use kirin.Cots.Built.{Filled, cancelled, running, AllFilled, read_feed-ReadFrom}

-- Every stop has the id of its stop point, and delays exactly where it is updated; the stops are
-- numbered from 0.
abbrev pub IsWellBuilt : TripUpdate → Type 0
IsWellBuilt tu =
    All HasOwnId tu.stop_time_updates
    × All IsDelayMatched tu.stop_time_updates
    × InSequence 0 tu.stop_time_updates

Filled-IsWellBuilt :
    (cfg : Context) (json_train : Version) (action : ActionOnTrip) (status : TripStatus)
    (tu r : TripUpdate)
    → Filled cfg json_train action status tu r
    → IsWellBuilt r
Filled-IsWellBuilt cfg json_train action status tu r (cancelled e) = (tt, tt, tt)
Filled-IsWellBuilt cfg json_train action status tu r (running pdps d e q) = (
  go_through-Own IsRead cfg.epoch (make_pdp cfg tu.vj.navitia_vj)
      (make_pdp-Round cfg tu.vj.navitia_vj) pdps start_draft d tt q,
  go_through-Round IsRead cfg.epoch AllMatched (make_pdp cfg tu.vj.navitia_vj)
      (make_pdp-Round cfg tu.vj.navitia_vj) (Round-AllMatched cfg.epoch) pdps start_draft d tt q,
  go_through-Numbered IsRead cfg.epoch (make_pdp cfg tu.vj.navitia_vj)
      (make_pdp-Round cfg tu.vj.navitia_vj) pdps start_draft d tt q,
)

AllFilled-IsWellBuilt :
    (cfg : Context) (json_train : Version) (action : ActionOnTrip) (vjs : List VehicleJourney)
    (tus : List TripUpdate)
    → AllFilled cfg json_train action vjs tus
    → All IsWellBuilt tus
AllFilled-IsWellBuilt cfg json_train action [] [] h = tt
AllFilled-IsWellBuilt cfg json_train action [] (tu ∷ tus) h = elim h [ ]
AllFilled-IsWellBuilt cfg json_train action (vj ∷ vjs) [] h = elim h [ ]
AllFilled-IsWellBuilt cfg json_train action (vj ∷ vjs) (tu ∷ tus) h = (
  Filled-IsWellBuilt cfg json_train action h.0.status (start_trip_update cfg json_train vj) tu
      h.0.filled,
  AllFilled-IsWellBuilt cfg json_train action vjs tus h.1,
)

-- In all trip updates that an accepted COTS feed gives, every stop has the id of its stop point, and
-- its arrival and its departure have a delay exactly where their status is an update; and the stops are
-- numbered from 0.
pub read_feed-IsWellBuilt :
    (cfg : Context) (rows : List TripUpdate) (json : CotsFeed) (tus : List TripUpdate)
    → read_feed cfg rows json ≡ ok tus
    → All IsWellBuilt tus
read_feed-IsWellBuilt cfg rows json tus h =
    let r = read_feed-ReadFrom cfg rows json tus h in
    AllFilled-IsWellBuilt cfg r.dict_version r.action r.vjs tus r.filled

All-middle :
    (P : TripUpdate → Type 0) (pre : List TripUpdate) (tu : TripUpdate) (post : List TripUpdate)
    → All P (pre ++ tu ∷ post)
    → P tu
All-middle P [] tu post h = h.0
All-middle P (x ∷ pre) tu post h = All-middle P pre tu post h.1

-- Each trip update of an accepted COTS feed can be merged with any recorded one: the merged stop
-- times, if `merge` returns them, are in the order of time, unless the trip is deleted. Nothing else
-- is asked of the feed.
pub cots_merge-Ordered :
    (cfg : Context) (rows : List TripUpdate) (json : CotsFeed) (pre : List TripUpdate)
    (tu : TripUpdate) (post : List TripUpdate) (navitia_vj : NavVj) (db_tu : Option TripUpdate)
    → read_feed cfg rows json ≡ ok (pre ++ tu ∷ post)
    → (tu.status == delete) ≡ false
    → (merge_trip_updates navitia_vj db_tu tu).reply ≡ ok true
    → Ordered none (merge_trip_updates navitia_vj db_tu tu).res.stop_time_updates
unfolding merge_trip_updates
cots_merge-Ordered cfg rows json pre tu post navitia_vj db_tu b d h =
    let w = read_feed-IsWellBuilt cfg rows json (pre ++ tu ∷ post) b in
    merge_complete-Ordered navitia_vj db_tu tu (All-middle IsWellBuilt pre tu post w).0 d h
