-- ===== src/Handling/Delivery.antt =====
-- kirin/core/build_wrapper.py: `publish`, and `handle` from the end of its loop on.
use kirin.Prelude.{
  ℕ, nat_beq, ℤ, String, List, [], ◌∷◌, ◌++◌, Bool, false, if◌then◌else◌, string_eq, int_eq,
  option_eq, Result, ok, err, message_not_published,
}
use kirin.Types.{ConnectorType, cots, piv, gtfs_rt}
use kirin.Model.{TripUpdate}
use kirin.Feed.{PbTripUpdate, convert_to_gtfsrt}
use kirin.RtUpdates.{RtStatus, Store, RealTimeUpdate, rt_status_beq, db_commit, set_rtu_status_ko}
use kirin.Handling.Updates.{Builder, World, Link, Session, handle_trip_updates, linked}

-- `publish`: the broker takes the feed, or there is a socket error.
unfoldable pub publish :
    (List PbTripUpdate → Bool) → List PbTripUpdate → World → World × Result (Unit {0})
publish broker feed w =
    if broker feed
    then (record w { published = feed ∷ w.published }, ok tt)
    else (w, err message_not_published)

unfoldable pub no_new_information : ConnectorType → String
no_new_information cots = "No new information destined to navitia for this cots"
no_new_information piv = "No new information destined to navitia for this piv"
no_new_information gtfs_rt = "No new information destined to navitia for this gtfs-rt"

-- The update is not OK any more where nothing came of it.
unfoldable pub mark_no_new : ℤ → ℕ → String → List RealTimeUpdate → Store → Store
unfolding no_new_information
mark_no_new now id contributor_id [] s = s
mark_no_new now id contributor_id (rtu ∷ rest) s =
    if nat_beq rtu.id id
    then (if rt_status_beq rtu.status RtStatus.rt_ok
        then db_commit now
            (set_rtu_status_ko id contributor_id (no_new_information rtu.connector) false s)
        else s)
    else mark_no_new now id contributor_id rest s

-- The end of `handle`, once the feed is published.
unfoldable pub conclude : {P : Type 0} → Builder P → ℤ → ℕ → List Link → World → World
unfolding mark_no_new
conclude builder now id [] w = record w {
  store = mark_no_new now id builder.contributor_id w.store.real_time_updates w.store;
}
conclude builder now id (l ∷ links) w = w

unfoldable pub after_publish :
    {P : Type 0}
    → Builder P
    → ℤ
    → ℕ
    → List Link
    → World × Result (Unit {0})
    → World × Result (Unit {0})
unfolding conclude
after_publish builder now id links (w, err e) = (w, err e)
after_publish builder now id links (w, ok t) = (conclude builder now id links w, ok tt)

unfoldable pub send :
    {P : Type 0}
    → Builder P
    → (List PbTripUpdate → Bool)
    → ℤ
    → ℕ
    → List Link
    → Result (List PbTripUpdate)
    → World
    → World × Result (Unit {0})
unfolding publish after_publish
send builder broker now id links (err e) w = (w, err e)
send builder broker now id links (ok feed) w =
    after_publish builder now id links (publish broker feed w)

abbrev pub with_session : Session → World → World
with_session s w = record w { trip_updates = s.olds ++ s.news }

-- `handle` from the end of the loop on: the commit, the feed, its publication.
unfoldable pub deliver :
    {P : Type 0}
    → Builder P
    → (List PbTripUpdate → Bool)
    → ℤ
    → ℕ
    → World
    → Session × Result (Unit {0})
    → World × Result (Unit {0})
unfolding linked send
deliver builder broker now id w (s, err e) = (with_session s w, err e)
deliver builder broker now id w (s, ok t) =
    send builder broker now id s.links (convert_to_gtfsrt (linked s s.links))
      (record (with_session s w) { store = db_commit now w.store })

unfoldable pub handle :
    {P : Type 0}
    → Builder P
    → (List PbTripUpdate → Bool)
    → ℤ
    → ℕ
    → List TripUpdate
    → World
    → World × Result (Unit {0})
unfolding handle_trip_updates deliver
handle builder broker now id trip_updates w = deliver builder broker now id w (
    handle_trip_updates builder trip_updates
      (record { olds = w.trip_updates; news = []; links = [] }))
