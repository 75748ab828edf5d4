-- ===== src/Cots/Kept.antt =====
-- Which stops of a COTS feed are kept (kirin/cots/model_maker.py: `_retrieve_interesting_pdp`).
use kirin.Prelude.{List, ◌≡◌, sorted_by, SortedBy, sorted_by-Perm, sorted_by-SortedBy}
use mathlib.Core.List.{Perm}
use kirin.Complete.Interesting.{interesting, pick_stops-interesting}
use kirin.Cots.Messages.{Pdp}
use kirin.Cots.Stops.{has_depart, has_arrivee, is_station, retrieve_interesting_pdp}

-- The stops of the feed in the order of their ranks, of which are kept those that are stations and
-- where travellers can get on or off, from the first station where they can get on to the last one
-- where they can get off.
pub retrieve_interesting_pdp-interesting :
    (list_pdp : List Pdp)
    → (l : List Pdp) × Perm l list_pdp
      × SortedBy (λ (p : Pdp). p.rang) l
      × (retrieve_interesting_pdp list_pdp ≡ interesting has_depart has_arrivee is_station l)
unfolding retrieve_interesting_pdp
retrieve_interesting_pdp-interesting list_pdp = (
  sorted_by (λ (p : Pdp). p.rang) list_pdp,
  sorted_by-Perm (λ (p : Pdp). p.rang) list_pdp,
  sorted_by-SortedBy (λ (p : Pdp). p.rang) list_pdp,
  pick_stops-interesting has_depart has_arrivee is_station
      (sorted_by (λ (p : Pdp). p.rang) list_pdp),
)
