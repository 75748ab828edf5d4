-- ===== src/Consistency.antt =====
-- kirin/core/build_wrapper.py: `manage_consistency`, which adjusts the stop times of a trip update
-- or rejects it. Its log messages are not modelled.
pub mod Sequence
pub mod Adjusted
pub mod Idempotent
use kirin.Prelude.{
  ℕ, ◌+◌, ℤ, pos, ◌+ℤ◌, ◌-ℤ◌, ltb_ℤ, Option, none, some, List, [], ◌∷◌, Bool, true, false, not,
  ◌&&◌, ◌==◌, option_eq, nat_eq, is_some, or_else, if◌then◌else◌, ◌≡◌, arith, inl, inr, Bool-cases,
  Option-cases, ==_iff,
}
use kirin.Model.{truthy, arrival, departure, StopTimeUpdate, is_stop_event_deleted, TripUpdate}

-- `TimeDelayTuple` with a datetime; the previous stop event is `none` until one is served.
pub record Event : Type 0 where
  pub time : ℤ
  pub delay : ℤ

abbrev pub previous_time : Option Event → Option ℤ
previous_time none = none
previous_time (some p) = some p.time

-- The arrival, else the departure, else the time of the previous stop event.
unfoldable pub filled_arrival : Option Event → StopTimeUpdate → Option ℤ
filled_arrival prev stu = or_else stu.arrival (or_else stu.departure (previous_time prev))

-- A missing time takes the other event's delay, where that is not zero and its own is.
unfoldable pub filled_delay : Option ℤ → Option ℤ → Option ℤ → Option ℤ
filled_delay time delay other =
    if not (is_some time) && (not (truthy delay) && truthy other) then other else delay

unfoldable pub or_zero : Option ℤ → ℤ
or_zero none = pos 0
or_zero (some d) = d

-- An event before the previous one is moved so that it has the delay of the previous one.
unfoldable pub push : Option Event → Event → Event
push none e = e
push (some p) e =
    let delay_diff = p.delay -ℤ e.delay in
    if ltb_ℤ e.time p.time
    then record { time = e.time +ℤ delay_diff; delay = e.delay +ℤ delay_diff }
    else e

-- A deleted event is left alone and does not become the previous one.
unfoldable pub settle : Bool → Option Event → Event → Event × Option Event
settle true prev e = (e, prev)
settle false prev e = let e' = push prev e in (e', some e')

-- The stop with its events, all known.
unfoldable pub with_events : StopTimeUpdate → Event → Event → StopTimeUpdate
with_events stu arr dep = record stu {
  arrival = some arr.time;
  arrival_delay = some arr.delay;
  departure = some dep.time;
  departure_delay = some dep.delay;
}

unfoldable pub settle_stop :
    Option Event → StopTimeUpdate → Event → Event → StopTimeUpdate × Option Event
unfolding with_events
settle_stop prev stu arr dep =
    let (arr', prev') = settle (is_stop_event_deleted arrival stu) prev arr in
    let (dep', prev'') = settle (is_stop_event_deleted departure stu) prev' dep in
    (with_events stu arr' dep', prev'')

-- One round of the loop after the test of the order; `none` is the rejection for want of a time.
unfoldable pub manage_stop : Option Event → StopTimeUpdate → Option (StopTimeUpdate × Option Event)
unfolding filled_arrival filled_delay or_zero settle_stop
manage_stop prev stu = elim (filled_arrival prev stu) [
  | none ↦ none
  | some arr ↦
      let arr_delay = filled_delay stu.arrival stu.arrival_delay stu.departure_delay in
      let dep_delay = filled_delay stu.departure stu.departure_delay arr_delay in
      let dep : ℤ = elim stu.departure [ none ↦ arr | some d ↦ d ] in
      some (
        settle_stop prev stu (record { time = arr; delay = or_zero arr_delay })
          (record { time = dep; delay = or_zero dep_delay }))
]

-- The loop from order `i` on: the stops as they are left, and the answer. A rejection leaves the
-- rest untouched.
unfoldable pub manage_stops : ℕ → Option Event → List StopTimeUpdate → List StopTimeUpdate × Bool
manage_stops i prev [] = ([], true)
manage_stops i prev (stu ∷ rest) =
    if stu.order == some i
    then elim (manage_stop prev stu) [
      | none ↦ (stu ∷ rest, false)
      | some (stu', prev') ↦
          let (others, answer) = manage_stops (i + 1) prev' rest in (stu' ∷ others, answer)
    ]
    else (stu ∷ rest, false)

unfoldable pub manage_consistency : TripUpdate → TripUpdate × Bool
unfolding manage_stops
manage_consistency trip_update =
    let (stops, answer) = manage_stops 0 none trip_update.stop_time_updates in
    (record trip_update { stop_time_updates = stops }, answer)

-- What an accepted stop went through.
pub record Step (i : ℕ) (prev : Option Event) (stu : StopTimeUpdate)
    (rest out : List StopTimeUpdate) : Type 0 where
  pub next : StopTimeUpdate
  pub next_prev : Option Event
  pub others : List StopTimeUpdate
  pub numbered : stu.order ≡ some i
  pub managed : manage_stop prev stu ≡ some (next, next_prev)
  pub looped : manage_stops (i + 1) next_prev rest ≡ (others, true)
  pub result : out ≡ next ∷ others

pub manage_stops-Step :
    (i : ℕ) (prev : Option Event) (stu : StopTimeUpdate) (rest out : List StopTimeUpdate)
    → manage_stops i prev (stu ∷ rest) ≡ (out, true)
    → Step i prev stu rest out
unfolding manage_stops
manage_stops-Step i prev stu rest out h = elim (Bool-cases (stu.order == some i)) [
  | inl o ↦ elim (Option-cases (manage_stop prev stu)) [
    | inl e ↦ ground arith
    | inr ((x, p), e) ↦ record {
      next = x;
      next_prev = p;
      others = (manage_stops (i + 1) p rest).0;
      numbered = (==_iff stu.order (some i)).0 o;
      managed = e;
      looped = ground arith;
      result = ground arith;
    }
  ]
  | inr o ↦ ground arith
]
