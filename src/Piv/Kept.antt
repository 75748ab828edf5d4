-- ===== src/Piv/Kept.antt =====
-- Which stops of a PIV feed are kept (kirin/piv/model_maker.py: `_retrieve_interesting_stops`).
use kirin.Prelude.{List, ◌≡◌, sorted_by, SortedBy, sorted_by-Perm, sorted_by-SortedBy}
use mathlib.Core.List.{Perm}
use kirin.Complete.Interesting.{interesting, pick_stops-interesting}
use kirin.Piv.Messages.{Arret}
use kirin.Piv.Stops.{has_departure, has_arrival, is_stop, retrieve_interesting_stops}

-- The stops of the feed in the order of their ranks, of which are kept those where travellers can get
-- on or off, from the first one where they can get on to the last one where they can get off.
pub retrieve_interesting_stops-interesting :
    (list_ad : List Arret)
    → (l : List Arret) × Perm l list_ad
      × SortedBy (λ (a : Arret). a.rang) l
      × (retrieve_interesting_stops list_ad ≡ interesting has_departure has_arrival is_stop l)
unfolding retrieve_interesting_stops
retrieve_interesting_stops-interesting list_ad = (
  sorted_by (λ (a : Arret). a.rang) list_ad,
  sorted_by-Perm (λ (a : Arret). a.rang) list_ad,
  sorted_by-SortedBy (λ (a : Arret). a.rang) list_ad,
  pick_stops-interesting has_departure has_arrival is_stop
      (sorted_by (λ (a : Arret). a.rang) list_ad),
)
