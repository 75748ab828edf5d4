-- ===== src/Handling/Updates.antt =====
-- kirin/core/build_wrapper.py: the state of the handling, and the loop of `handle` over the trip
-- updates of a feed; kirin/core/abstract_builder.py: the interface of a connector.
use kirin.Prelude.{
  ℕ, zero, suc, String, Option, none, some, List, [], ◌∷◌, ◌++◌, Bool, true, false, ◌&&◌,
  if◌then◌else◌, ◌==◌, string_eq, int_eq, option_eq, length, Result, ok, err,
}
use kirin.Model.{NavVj, TripUpdate}
use kirin.Merge.Loop.{MergeOutcome}
use kirin.Consistency.{manage_consistency}
use kirin.Feed.{PbTripUpdate}
use kirin.RtUpdates.{Store}

-- What a connector provides. An update is named by the id of its row; `P` is the type of what the
-- connector attaches to the object besides. The trip updates that are built may depend on the recorded
-- ones.
pub record Builder (P : Type 0) : Type 0 where
  pub contributor_id : String
  pub build_rt_update : String → Store → Store × Result (ℕ × P)
  pub build_trip_updates : ℕ × P → List TripUpdate → Store → Store × Result (List TripUpdate)
  pub merge_trip_updates : NavVj → Option TripUpdate → TripUpdate → MergeOutcome

-- The `status` of `record_call`.
pub data CallStatus : Type 0 where
  status_ok failure warning : CallStatus

-- The newest publication and the newest call are first.
pub record World : Type 0 where
  pub store : Store
  pub trip_updates : List TripUpdate
  pub published : List (List PbTripUpdate)
  pub calls : List CallStatus

-- The recorded trip updates and those that the feed adds; an index stands for the object.
pub data Link : Type 0 where
  recorded added : ℕ → Link

pub record Session : Type 0 where
  pub olds : List TripUpdate
  pub news : List TripUpdate
  pub links : List Link

abbrev pub is_same_circulation : TripUpdate → TripUpdate → Bool
is_same_circulation new old =
    old.vj.navitia_trip_id == new.vj.navitia_trip_id
    && old.vj.start_timestamp == new.vj.start_timestamp

-- `find_by_dated_vjs` keeps all rows of the circulations in the feed; `next` takes the first of one.
unfoldable pub find_old : TripUpdate → ℕ → List TripUpdate → Option (ℕ × TripUpdate)
find_old new i [] = none
find_old new i (old ∷ olds) =
    if is_same_circulation new old then some (i, old) else find_old new (suc i) olds

unfoldable pub set_at : ℕ → TripUpdate → List TripUpdate → List TripUpdate
set_at i tu [] = []
set_at zero tu (old ∷ olds) = tu ∷ olds
set_at (suc i) tu (old ∷ olds) = old ∷ set_at i tu olds

-- A new object that is not linked is not in the session.
unfoldable pub keep : Option (ℕ × TripUpdate) → TripUpdate → Session → Session
unfolding set_at
keep none tu s = s
keep (some (i, old)) tu s = record s { olds = set_at i tu s.olds }

-- `current_trip_update.real_time_updates.append(real_time_update)`
unfoldable pub link : Option (ℕ × TripUpdate) → TripUpdate → Session → Session
unfolding set_at
link none tu s = record s {
  news = s.news ++ tu ∷ [];
  links = s.links ++ added (length s.news) ∷ [];
}
link (some (i, old)) tu s = record s {
  olds = set_at i tu s.olds;
  links = s.links ++ recorded i ∷ [];
}

unfoldable pub link_consistent : Option (ℕ × TripUpdate) → TripUpdate × Bool → Session → Session
unfolding keep link
link_consistent old (tu, true) s = link old tu s
link_consistent old (tu, false) s = keep old tu s

abbrev pub object_of : Option (ℕ × TripUpdate) → Option TripUpdate
object_of none = none
object_of (some (i, old)) = some old

-- What follows the reply of `merge_trip_updates`.
unfoldable pub take_reply :
    Option (ℕ × TripUpdate) → TripUpdate → Result Bool → Session → Session × Result (Unit {0})
unfolding keep link_consistent
take_reply old res (err e) s = (keep old res s, err e)
take_reply old res (ok false) s = (keep old res s, ok tt)
take_reply old res (ok true) s = (link_consistent old (manage_consistency res) s, ok tt)

-- One round of the loop of `handle`: what it leaves also where it raises.
unfoldable pub handle_trip_update :
    {P : Type 0} → Builder P → TripUpdate → Session → Session × Result (Unit {0})
unfolding find_old take_reply
handle_trip_update builder trip_update s =
    let old = find_old trip_update 0 s.olds in
    let merged = builder.merge_trip_updates trip_update.vj.navitia_vj (object_of old) trip_update in
    take_reply old merged.res merged.reply s

unfoldable pub unless_raised :
    Session × Result (Unit {0})
    → (Session → Session × Result (Unit {0}))
    → Session × Result (Unit {0})
unless_raised (s, err e) next = (s, err e)
unless_raised (s, ok t) next = next s

unfoldable pub handle_trip_updates :
    {P : Type 0} → Builder P → List TripUpdate → Session → Session × Result (Unit {0})
unfolding handle_trip_update unless_raised
handle_trip_updates builder [] s = (s, ok tt)
handle_trip_updates builder (tu ∷ rest) s =
    unless_raised (handle_trip_update builder tu s) (λ s'. handle_trip_updates builder rest s')

abbrev pub at_index : ℕ → List TripUpdate → List TripUpdate
at_index i [] = []
at_index zero (tu ∷ rest) = tu ∷ []
at_index (suc i) (tu ∷ rest) = at_index i rest

-- `real_time_update.trip_updates`, in the order in which they were linked.
unfoldable pub linked : Session → List Link → List TripUpdate
linked s [] = []
linked s (recorded i ∷ rest) = at_index i s.olds ++ linked s rest
linked s (added i ∷ rest) = at_index i s.news ++ linked s rest
