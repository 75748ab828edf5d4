-- ===== src/Consistency/Adjusted.antt =====
-- The times that `manage_consistency` (kirin/core/build_wrapper.py) leaves, against the base
-- schedule that they stand for: time minus delay.
use kirin.Prelude.{
  ℕ, ◌+◌, ℤ, ◌-ℤ◌, ◌≤ℤ◌, ltb_ℤ, int_laws, Option, none, some, List, [], ◌∷◌, ◌++◌, map, Bool, true,
  false, option_eq, nat_eq, ◌≡◌, refl, sym, ◌∙◌, arith, inl, inr, Bool-cases, All,
}
use mathlib.Core.List.{append_assoc, map-append}
use kirin.Model.{arrival, departure, StopTimeUpdate, is_stop_event_deleted, TripUpdate}
use kirin.Consistency.{
  Event, push, settle, manage_stop, manage_stops, manage_consistency, manage_stops-Step,
  settle_stop, or_zero,
}
use kirin.Consistency.Sequence.{IsComplete, pair_of}

-- The base-schedule time of an event.
unfoldable pub base : Event → ℤ
base e = e.time -ℤ e.delay

abbrev pub events_of : Bool → Event → List Event
events_of true e = []
events_of false e = e ∷ []

abbrev pub event_at : Option ℤ → Option ℤ → Event
event_at time delay = record { time = or_zero time; delay = or_zero delay }

-- The events of a complete stop that are not deleted, arrival first.
unfoldable pub stop_events : StopTimeUpdate → List Event
unfolding or_zero
stop_events stu =
    events_of (is_stop_event_deleted arrival stu) (event_at stu.arrival stu.arrival_delay)
    ++ events_of (is_stop_event_deleted departure stu) (event_at stu.departure stu.departure_delay)

-- The events that are not deleted, along the trip.
unfoldable pub served_events : List StopTimeUpdate → List Event
served_events [] = []
served_events (stu ∷ rest) = stop_events stu ++ served_events rest

abbrev pub After : Option Event → Event → Type 0
After none e = Unit
After (some p) e = p.time ≤ℤ e.time

abbrev pub BaseAfter : Option Event → Event → Type 0
BaseAfter none e = Unit
BaseAfter (some p) e = base p ≤ℤ base e

-- Each event is related to the one before.
abbrev pub SortedFrom : (Option Event → Event → Type 0) → Option Event → List Event → Type 0
SortedFrom R prev [] = Unit
SortedFrom R prev (e ∷ rest) = R prev e × SortedFrom R (some e) rest

-- A push moves time and delay alike.
base-push : (prev : Option Event) (e : Event) → base (push prev e) ≡ base e
unfolding push base
base-push none e = refl
base-push (some p) e = elim (Bool-cases (ltb_ℤ e.time p.time)) [
  | inl q ↦ rw q (omega int_laws)
  | inr q ↦ rw q
]

-- A push moves an event behind the previous one, if its base time is.
After-push : (prev : Option Event) (e : Event) → BaseAfter prev e → After prev (push prev e)
unfolding push base
After-push none e h = tt
After-push (some p) e h = elim (Bool-cases (ltb_ℤ e.time p.time)) [
  | inl q ↦ rw q (omega int_laws)
  | inr q ↦ rw q (ground arith)
]

SortedFrom-base :
    (p q : Event) (l : List Event)
    → base p ≡ base q
    → SortedFrom BaseAfter (some p) l
    → SortedFrom BaseAfter (some q) l
SortedFrom-base p q [] e h = tt
SortedFrom-base p q (x ∷ l) e (h, hs) = (rw (← e) h, hs)

settle-base :
    (b : Bool) (prev : Option Event) (e : Event)
    → map base (events_of b (settle b prev e).0) ≡ map base (events_of b e)
unfolding settle
settle-base true prev e = refl
settle-base false prev e = rw (base-push prev e)

settle-Sorted-rest :
    (b : Bool) (prev : Option Event) (e : Event) (rest : List Event)
    → SortedFrom BaseAfter prev (events_of b e ++ rest)
    → SortedFrom BaseAfter (settle b prev e).1 rest
unfolding settle
settle-Sorted-rest true prev e rest h = h
settle-Sorted-rest false prev e rest (h, hs) =
    SortedFrom-base e (push prev e) rest (sym (base-push prev e)) hs

settle-Sorted :
    (b : Bool) (prev : Option Event) (e : Event) (rest out : List Event)
    → SortedFrom BaseAfter prev (events_of b e ++ rest)
    → SortedFrom After (settle b prev e).1 out
    → SortedFrom After prev (events_of b (settle b prev e).0 ++ out)
unfolding settle
settle-Sorted true prev e rest out h k = k
settle-Sorted false prev e rest out (h, hs) k = (After-push prev e h, k)

-- A complete stop is settled as it is.
manage_stop_complete :
    (prev : Option Event) (stu : StopTimeUpdate)
    → IsComplete stu
    → manage_stop prev stu
      ≡ some (
          settle_stop prev stu
            (event_at stu.arrival stu.arrival_delay)
            (event_at stu.departure stu.departure_delay))
unfolding manage_stop
manage_stop_complete prev stu (a, da, d, dd) = ground arith

stop_events_append :
    (stu : StopTimeUpdate) (prev : Option Event) (rest : List Event)
    → SortedFrom BaseAfter prev (stop_events stu ++ rest)
    → SortedFrom BaseAfter prev (
        events_of (is_stop_event_deleted arrival stu) (event_at stu.arrival stu.arrival_delay)
        ++ (events_of
              (is_stop_event_deleted departure stu)
              (event_at stu.departure stu.departure_delay)
            ++ rest))
unfolding stop_events
stop_events_append stu prev rest h = rw append_assoc at h

module _ (prev : Option Event) (stu : StopTimeUpdate) where
  arr : Event
  arr = event_at stu.arrival stu.arrival_delay

  dep : Event
  dep = event_at stu.departure stu.departure_delay

  first : Event × Option Event
  unfolding arr
  first = settle (is_stop_event_deleted arrival stu) prev arr

  second : Event × Option Event
  unfolding dep first
  second = settle (is_stop_event_deleted departure stu) first.1 dep

  -- The settled stop has the settled events, and the previous event after both.
  settle_stop-events :
      (stop_events (settle_stop prev stu arr dep).0
        ≡ events_of (is_stop_event_deleted arrival stu) first.0
          ++ events_of (is_stop_event_deleted departure stu) second.0)
      × ((settle_stop prev stu arr dep).1 ≡ second.1)
  unfolding settle_stop stop_events is_stop_event_deleted first second
  settle_stop-events = (refl, refl)

  settle_stop-base :
      map base (stop_events (settle_stop prev stu arr dep).0) ≡ map base (stop_events stu)
  unfolding stop_events first second
  settle_stop-base = rw (
    settle_stop-events.0,
    map-append,
    map-append,
    settle-base (is_stop_event_deleted arrival stu) prev arr,
    settle-base (is_stop_event_deleted departure stu) first.1 dep,
  )

  settle_stop-Sorted_rest :
      (rest : List Event)
      → SortedFrom BaseAfter prev (stop_events stu ++ rest)
      → SortedFrom BaseAfter (settle_stop prev stu arr dep).1 rest
  unfolding stop_events first second arr dep
  settle_stop-Sorted_rest rest h = rw (settle_stop-events.1) (
      settle-Sorted-rest (is_stop_event_deleted departure stu) first.1 dep rest (
        settle-Sorted-rest (is_stop_event_deleted arrival stu) prev arr
          (events_of (is_stop_event_deleted departure stu) dep ++ rest)
          (stop_events_append stu prev rest h)))

  settle_stop-Sorted :
      (rest out : List Event)
      → SortedFrom BaseAfter prev (stop_events stu ++ rest)
      → SortedFrom After (settle_stop prev stu arr dep).1 out
      → SortedFrom After prev (stop_events (settle_stop prev stu arr dep).0 ++ out)
  unfolding first second arr dep
  settle_stop-Sorted rest out h k =
      let d1 = is_stop_event_deleted arrival stu in
      let d2 = is_stop_event_deleted departure stu in
      let h' : SortedFrom BaseAfter prev (events_of d1 arr ++ (events_of d2 dep ++ rest)) =
        stop_events_append stu prev rest h in
      let mid = settle-Sorted-rest d1 prev arr (events_of d2 dep ++ rest) h' in
      rw (settle_stop-events.0, append_assoc)
        (settle-Sorted d1 prev arr (events_of d2 dep ++ rest) (events_of d2 second.0 ++ out) h'
          (settle-Sorted d2 first.1 dep rest out mid (rw settle_stop-events.1 at k)))

-- What holds of one accepted stop, in terms of what `manage_stop` returned.
record Settled (prev : Option Event) (stu next : StopTimeUpdate) (next_prev : Option Event)
    : Type 0 where
  pub result : settle_stop prev stu (arr prev stu) (dep prev stu) ≡ (next, next_prev)

Settled-intro :
    (prev : Option Event) (stu next : StopTimeUpdate) (next_prev : Option Event)
    → IsComplete stu
    → manage_stop prev stu ≡ some (next, next_prev)
    → Settled prev stu next next_prev
unfolding arr dep
Settled-intro prev stu next next_prev c h = record {
  result = let q = sym (manage_stop_complete prev stu c) ∙ h in cc;
}

manage_stops-base :
    (i : ℕ) (prev : Option Event) (l out : List StopTimeUpdate)
    → All IsComplete l
    → manage_stops i prev l ≡ (out, true)
    → map base (served_events out) ≡ map base (served_events l)
unfolding served_events
manage_stops-base i prev [] out a h =
    let q : ◌≡◌ {A = List StopTimeUpdate} [] out = unfold manage_stops in ground arith in rw (← q)
manage_stops-base i prev (stu ∷ rest) out (c, cs) h =
    let s = manage_stops-Step i prev stu rest out h in
    let t = Settled-intro prev stu s.next s.next_prev c s.managed in
    let b = rw t.result at (settle_stop-base prev stu) in
    let ih = manage_stops-base (i + 1) s.next_prev rest s.others cs s.looped in
    rw (s.result, map-append, map-append, b, ih)

manage_stops-Sorted :
    (i : ℕ) (prev : Option Event) (l out : List StopTimeUpdate)
    → All IsComplete l
    → manage_stops i prev l ≡ (out, true)
    → SortedFrom BaseAfter prev (served_events l)
    → SortedFrom After prev (served_events out)
unfolding served_events
manage_stops-Sorted i prev [] out a h k =
    let q : ◌≡◌ {A = List StopTimeUpdate} [] out = unfold manage_stops in ground arith in
    rw (← q) tt
manage_stops-Sorted i prev (stu ∷ rest) out (c, cs) h k =
    let s = manage_stops-Step i prev stu rest out h in
    let t = Settled-intro prev stu s.next s.next_prev c s.managed in
    let k' = rw t.result at (settle_stop-Sorted_rest prev stu (served_events rest) k) in
    let ih = manage_stops-Sorted (i + 1) s.next_prev rest s.others cs s.looped k' in
    let f =
      settle_stop-Sorted prev stu (served_events rest) (served_events s.others) k
        (rw t.result ih) in
    rw s.result (rw t.result at f)

-- An accepted trip update with all times and delays known keeps the base-schedule times (time minus
-- delay) of its served events; and where these are in the order of time, so are the times it is
-- left with.
pub manage_consistency_sorted :
    (tu : TripUpdate)
    → All IsComplete tu.stop_time_updates
    → (manage_consistency tu).1 ≡ true
    → SortedFrom BaseAfter none (served_events tu.stop_time_updates)
    → (map base (served_events (manage_consistency tu).0.stop_time_updates)
        ≡ map base (served_events tu.stop_time_updates))
      × SortedFrom After none (served_events (manage_consistency tu).0.stop_time_updates)
unfolding manage_consistency
manage_consistency_sorted tu c h k =
    let r = pair_of (manage_stops 0 none tu.stop_time_updates) h in
    (
      manage_stops-base 0 none tu.stop_time_updates _ c r,
      manage_stops-Sorted 0 none tu.stop_time_updates _ c r k,
    )
