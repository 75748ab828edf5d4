-- ===== src/Cots/Life.antt =====
-- The life of a trip that COTS feeds add (kirin/cots/model_maker.py: `_get_action_on_trip` and the
-- status that `_make_trip_update` gives).
use kirin.Prelude.{
  Option, some, List, [], ◌∷◌, ◌++◌, ◌≡◌, refl, sym, ap, ◌∙◌, ◌⊎◌, inl, inr, ok, if◌then◌else◌,
}
use mathlib.Core.Path.{subst}
use kirin.Types.{ModificationType, add, delete, update}
use kirin.Model.{VehicleJourney, TripUpdate}
use kirin.Cots.Messages.{TripStatus, ajoutee, supprimee, Version, CotsFeed}
use kirin.Cots.Actions.{
  ActionOnTrip, not_added, first_time_added, previously_added, action_on_trip, recorded_status,
}
use kirin.Cots.Lookup.{Context}
use kirin.Cots.Trips.{is_supprimee, start_trip_update, start_effect}
use kirin.Cots.Built.{Filled, cancelled, running, FilledFor, AllFilled, ReadFrom}

-- The status of the trip update, from the action and the status in the feed.
abbrev pub status_after : ActionOnTrip → TripStatus → ModificationType
status_after not_added status = if is_supprimee status then delete else update
status_after _ status = if is_supprimee status then delete else add

Filled-status :
    (cfg : Context) (json_train : Version) (action : ActionOnTrip) (status : TripStatus)
    (tu r : TripUpdate)
    → Filled cfg json_train action status tu r
    → r.status ≡ status_after action status
unfolding start_effect
Filled-status cfg json_train not_added status tu r (cancelled e) = rw e refl
Filled-status cfg json_train first_time_added status tu r (cancelled e) = rw e refl
Filled-status cfg json_train previously_added status tu r (cancelled e) = rw e refl
Filled-status cfg json_train not_added status tu r (running pdps d e q) = rw e refl
Filled-status cfg json_train first_time_added status tu r (running pdps d e q) = rw e refl
Filled-status cfg json_train previously_added status tu r (running pdps d e q) = rw e refl

AllFilled-middle :
    (cfg : Context) (json_train : Version) (action : ActionOnTrip) (vjs : List VehicleJourney)
    (pre : List TripUpdate) (tu : TripUpdate) (post : List TripUpdate)
    → AllFilled cfg json_train action vjs (pre ++ tu ∷ post)
    → (vj : VehicleJourney) × FilledFor cfg json_train action vj tu
AllFilled-middle cfg json_train action [] [] tu post h = elim h [ ]
AllFilled-middle cfg json_train action [] (x ∷ pre) tu post h = elim h [ ]
AllFilled-middle cfg json_train action (vj ∷ vjs) [] tu post h = (vj, h.0)
AllFilled-middle cfg json_train action (vj ∷ vjs) (x ∷ pre) tu post h =
    AllFilled-middle cfg json_train action vjs pre tu post h.1

-- One feed that is accepted: from the status of the trip update that it finds recorded, if there is
-- one, to the status of a trip update that it gives.
pub data Step : Option ModificationType → ModificationType → Type 0 where
  feed :
      (cfg : Context) (rows : List TripUpdate) (json : CotsFeed) (pre : List TripUpdate)
      (tu : TripUpdate) (post : List TripUpdate)
      → (read : ReadFrom cfg rows json (pre ++ tu ∷ post))
      → Step (recorded_status read.recorded) tu.status

-- Any number of feeds, each of which finds what the one before gave.
pub data Reaches (from : ModificationType) : ModificationType → Type 0 where
  here : Reaches from from
  after : {m n : ModificationType} → Reaches from m → Step (some m) n → Reaches from n

-- What the code allows: the status of the feed, and the action.
Step-allowed :
    (m : Option ModificationType) (n : ModificationType)
    → Step m n
    → (status : TripStatus) × (action : ActionOnTrip) × (action_on_trip (some status) m ≡ ok action)
      × (n ≡ status_after action status)
Step-allowed m n (feed cfg rows json pre tu post read) =
    let (vj, f) =
      AllFilled-middle cfg read.dict_version read.action read.vjs pre tu post read.filled in
    (
      f.status,
      read.action,
      ap (λ s. action_on_trip s (recorded_status read.recorded)) (sym f.has_status) ∙ read.decided,
      Filled-status cfg read.dict_version read.action f.status
          (start_trip_update cfg read.dict_version vj) tu f.filled,
    )

from_add :
    (status : TripStatus) (action : ActionOnTrip)
    → action_on_trip (some status) (some add) ≡ ok action
    → (status_after action status ≡ add) ⊎ (status_after action status ≡ delete)
unfolding action_on_trip
from_add ajoutee action h = cc
from_add supprimee previously_added h = inr refl
from_add supprimee not_added h = cc
from_add supprimee first_time_added h = cc
from_add _ previously_added h = inl refl
from_add _ not_added h = cc
from_add _ first_time_added h = cc

from_delete :
    (status : TripStatus) (action : ActionOnTrip)
    → action_on_trip (some status) (some delete) ≡ ok action
    → status_after action status ≡ add
unfolding action_on_trip
from_delete ajoutee first_time_added h = refl
from_delete ajoutee not_added h = cc
from_delete ajoutee previously_added h = cc
from_delete _ action h = cc

Step-add : (m n : ModificationType) → Step (some m) n → m ≡ add → (n ≡ add) ⊎ (n ≡ delete)
Step-add m n s e =
    let (status, action, h, q) = Step-allowed (some m) n s in
    rw q (from_add status action (rw (← e) h))

-- A deleted trip can only be added again: whatever feed finds it deleted and is accepted, the trip is
-- added after it.
pub Step-delete : (n : ModificationType) → Step (some delete) n → n ≡ add
Step-delete n s =
    let (status, action, h, q) = Step-allowed (some delete) n s in q ∙ from_delete status action h

-- A trip that a COTS feed has added is, after any number of accepted feeds of which each finds the
-- trip update that the one before gave, either added or deleted: it never becomes an update of a trip
-- of the base schedule.
pub Reaches-add : (n : ModificationType) → Reaches add n → (n ≡ add) ⊎ (n ≡ delete)
Reaches-add n here = inl refl
Reaches-add n (after {m} r s) = elim (Reaches-add m r) [
  | inl e ↦ Step-add m n s e
  | inr e ↦ inl (Step-delete n (subst (λ x. Step (some x) n) e s))
]
