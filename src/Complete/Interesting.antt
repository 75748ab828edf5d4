-- ===== src/Complete/Interesting.antt =====
-- The selection of stops that travellers can use: the loop that `_retrieve_interesting_pdp`
-- (kirin/cots/model_maker.py) and `_retrieve_interesting_stops` (kirin/piv/model_maker.py) share,
-- over the tests of a stop that they make, and a description of it without a loop.
use kirin.Prelude.{
  select, List, [], ◌∷◌, Bool, true, false, not, ◌&&◌, ◌||◌, if◌then◌else◌, ◌≡◌, refl, arith,
  exists,
}

-- What a round of the loop does: `continue`, `break` or `res.append`.
pub data Decision : Type 0 where
  skip stop take : Decision

module _ {A : Type 0} (has_departure has_arrival is_station : A → Bool) where
  -- `following` starts with the stop itself.
  unfoldable pub decide_stop : Bool → A → List A → Decision
  decide_stop picked_one x following =
      if not picked_one && not (has_departure x)
      then skip
      else if not (is_station x)
      then skip
      else if not (has_departure x) && not (has_arrival x)
      then skip
      else if not (has_arrival x) && not (exists (λ y. has_arrival y && is_station y) following)
      then stop
      else take

  unfoldable pub pick_stops : Bool → List A → List A
  unfolding decide_stop
  pick_stops picked_one [] = []
  pick_stops picked_one (x ∷ xs) = elim (decide_stop picked_one x (x ∷ xs)) [
    | skip ↦ pick_stops picked_one xs
    | stop ↦ []
    | take ↦ x ∷ pick_stops true xs
  ]

-- The list from its first element that passes the test.
unfoldable pub from_first : {A : Type 0} → (A → Bool) → List A → List A
from_first p [] = []
from_first p (x ∷ xs) = if p x then x ∷ xs else from_first p xs

-- The list up to its last element that passes the test.
unfoldable pub up_to_last : {A : Type 0} → (A → Bool) → List A → List A
up_to_last p [] = []
up_to_last p (x ∷ xs) = let rest = up_to_last p xs in if exists p (x ∷ xs) then x ∷ rest else []

module _ {A : Type 0} (has_departure has_arrival is_station : A → Bool) where
  abbrev pub departs : A → Bool
  departs x = has_departure x && is_station x

  abbrev pub arrives : A → Bool
  arrives x = has_arrival x && is_station x

  -- Travellers can get on or off.
  abbrev pub serves : A → Bool
  serves x = is_station x && (has_departure x || has_arrival x)

  -- From the first stop where they can get on to the last one where they can get off.
  unfoldable pub interesting : List A → List A
  interesting l = select serves (up_to_last arrives (from_first departs l))

  none_arrives : (l : List A) → exists arrives l ≡ false → up_to_last arrives l ≡ []
  unfolding up_to_last exists
  none_arrives [] h = refl
  none_arrives (x ∷ xs) h = ground arith

  picked_stops :
      (l : List A)
      → pick_stops has_departure has_arrival is_station true l
        ≡ select serves (up_to_last arrives l)
  unfolding pick_stops decide_stop select up_to_last exists
  picked_stops [] = refl
  picked_stops (x ∷ xs) = ground (arith, picked_stops xs, none_arrives xs)

  -- The loop takes exactly the stops of the description.
  pub pick_stops-interesting :
      (l : List A) → pick_stops has_departure has_arrival is_station false l ≡ interesting l
  unfolding pick_stops decide_stop interesting select from_first up_to_last exists
  pick_stops-interesting [] = refl
  pick_stops-interesting (x ∷ xs) = ground (arith, pick_stops-interesting xs, picked_stops xs)
