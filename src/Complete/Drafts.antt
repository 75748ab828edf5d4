-- ===== src/Complete/Drafts.antt =====
-- The stop times of a complete trip update while `_make_trip_update` (kirin/cots/model_maker.py and
-- kirin/piv/model_maker.py) goes through the stops of the feed: the parts that both connectors have.
use kirin.Prelude.{
  ℕ, length, ℤ, leb, pos_part, neg_part, ◌+◌, String, Option, none, some, List, [], ◌∷◌, ◌++◌, Bool,
  false, ◌&&◌, ◌&&◌, ◌==◌, string_eq, find_first, exists, Result, ok, ◌>>=◌, >>=-eq-ok, ◌≡◌,
  ok_injective,
}
use mathlib.Core.Path.{subst}
use kirin.Types.{ModificationType, unchanged, get_higher_status}
use kirin.Model.{Code, NavStop, NavVj, get_stop_times, StopPoint, StopTimeUpdate}

-- What is read of one stop event of the feed: the time that is checked, and the attributes that are
-- set. What is not set is as in a new stop time update.
pub record EventUpdate : Type 0 where
  pub projected : Option ℤ
  pub time : Option ℤ
  pub delay : Option ℤ
  pub status : ModificationType

abbrev pub no_update : EventUpdate
no_update = record { projected = none; time = none; delay = none; status = unchanged }

-- The variables of the loop over the stops, the stop times in the order in which they were appended.
pub record Draft : Type 0 where
  pub stop_time_updates : List StopTimeUpdate
  pub highest_st_status : ModificationType
  pub last_departure : Option ℤ

abbrev pub start_draft : Draft
start_draft = record {
  stop_time_updates = [];
  highest_st_status = unchanged;
  last_departure = none;
}

-- `StopTimeUpdate(nav_stop)` with its message and the attributes of its two events, without an order.
unfoldable pub make_stop_update :
    StopPoint → Option String → EventUpdate → EventUpdate → StopTimeUpdate
make_stop_update nav_stop message arrival departure = record {
  order = none;
  navitia_stop = nav_stop;
  stop_id = nav_stop.id;
  message = message;
  departure = departure.time;
  departure_delay = departure.delay;
  departure_status = departure.status;
  arrival = arrival.time;
  arrival_delay = arrival.delay;
  arrival_status = arrival.status;
}

-- `stop_time_updates` is an `ordering_list("order")` (kirin/core/model.py): an object without an order
-- that is appended is numbered by its index.
unfoldable pub order_entity : ℕ → StopTimeUpdate → StopTimeUpdate
order_entity index st = elim st.order [ none ↦ record st { order = some index } | some order ↦ st ]

-- The stop time, which is appended, and the end of a round.
unfoldable pub append_stop : StopTimeUpdate → EventUpdate → EventUpdate → Draft → Draft
unfolding order_entity
append_stop st arrival departure d = record {
  stop_time_updates = d.stop_time_updates ++ order_entity (length d.stop_time_updates) st ∷ [];
  highest_st_status =
      get_higher_status (get_higher_status d.highest_st_status arrival.status) departure.status;
  last_departure = departure.projected;
}

-- `x if x is not None else y`
abbrev pub value_or : Option ℤ → ℤ → ℤ
value_or none d = d
value_or (some t) d = t

abbrev pub leb_ℤ : ℤ → ℤ → Bool
leb_ℤ a b = leb (pos_part a + neg_part b) (pos_part b + neg_part a)

-- The test of `_check_stop_time_consistency`: a missing departure before counts as `epoch`
-- (`datetime.fromtimestamp(0)`), a missing arrival as the departure before, a missing departure as
-- the arrival.
unfoldable pub are_times_consistent : ℤ → Option ℤ → Option ℤ → Option ℤ → Bool
are_times_consistent epoch last arrival departure =
    let l = value_or last epoch in
    let a = value_or arrival l in let d = value_or departure a in leb_ℤ l a && leb_ℤ a d

-- `codes[? value=='...' && type=='...']` of the stop area is not empty.
abbrev pub is_in_stop_area : String → String → NavStop → Bool
is_in_stop_area type_ code st = elim st.stop_point [
  | none ↦ false
  | some sp ↦ exists (λ (c : Code). c.value == code && c.type_ == type_) sp.stop_area_codes
]

-- The stop point of the first stop time of the vehicle journey in this stop area.
unfoldable pub extract_nav_stop : String → String → NavVj → Option StopPoint
extract_nav_stop type_ code nav_vj =
    elim (find_first (is_in_stop_area type_ code) (get_stop_times nav_vj)) [
      | none ↦ none
      | some st ↦ st.stop_point
    ]

-- The loop over the stops, for the body of one round.
unfoldable pub go_through :
    {A : Type 0} → (A → Draft → Result Draft) → List A → Draft → Result Draft
go_through round [] d = ok d
go_through round (x ∷ xs) d = round x d >>= λ d'. go_through round xs d'

-- What every round keeps holds after the loop.
pub go_through-keeps :
    {A : Type 0} (P : Draft → Type 0) (round : A → Draft → Result Draft)
    → ((x : A) (d d' : Draft) → P d → round x d ≡ ok d' → P d')
    → (xs : List A) (d d' : Draft) → P d
    → go_through round xs d ≡ ok d'
    → P d'
unfolding go_through
go_through-keeps P round keeps [] d d' p h = subst P (ok_injective h) p
go_through-keeps P round keeps (x ∷ xs) d d' p h =
    let (e, q, r) = >>=-eq-ok (round x d) _ h in
    go_through-keeps P round keeps xs e d' (keeps x d e p q) r
