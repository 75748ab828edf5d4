-- ===== src/Complete/Rounds.antt =====
-- What the loops over the stops of a complete feed (kirin/cots/model_maker.py and
-- kirin/piv/model_maker.py: `_make_trip_update`) keep, for any round that appends at most one stop.
use kirin.Prelude.{
  ℕ, ◌+◌, ap, some, length, ℤ, ◌≤ℤ◌, String, Option, none, List, [], ◌∷◌, ◌++◌, ◌≡◌, refl, true,
  arith, All, All-append, Result, ok, ◌∙◌,
}
use kirin.Model.{StopPoint, StopTimeUpdate}
use kirin.Merge.Chain.{HasOwnId}
use kirin.Consistency.Sequence.{InSequence}
use kirin.Complete.Drafts.{
  EventUpdate, Draft, make_stop_update, order_entity, append_stop, value_or, are_times_consistent,
  go_through, go_through-keeps,
}

-- What a round that is accepted leaves: the same draft, or one with one stop more whose times were
-- found consistent. `P` is what the connector knows of the two events.
pub data Round (P : EventUpdate → Type 0) (epoch : ℤ) (d : Draft) : Draft → Type 0 where
  skipped : Round P epoch d d
  appended :
      (sp : StopPoint) (message : Option String) (a b : EventUpdate)
      → P a × P b
      → are_times_consistent epoch d.last_departure a.projected b.projected ≡ true
      → Round P epoch d (append_stop (make_stop_update sp message a b) a b d)

abbrev pub Rounds : {A : Type 0} → (EventUpdate → Type 0) → ℤ → (A → Draft → Result Draft) → Type 0
Rounds {A} P epoch round = (x : A) (d d' : Draft) → round x d ≡ ok d' → Round P epoch d d'

-- What holds of a draft after the loop, if appending a stop keeps it.
pub go_through-Round :
    {A : Type 0} (P : EventUpdate → Type 0) (epoch : ℤ) (Q : Draft → Type 0)
    (round : A → Draft → Result Draft)
    → Rounds P epoch round
    → ((d d' : Draft) → Round P epoch d d' → Q d → Q d')
    → (xs : List A) (d d' : Draft) → Q d
    → go_through round xs d ≡ ok d'
    → Q d'
go_through-Round P epoch Q round rounds keeps xs d d' q h =
    go_through-keeps Q round (λ x. λ e e' p r. keeps e e' (rounds x e e' r) p) xs d d' q h

abbrev pub Own : Draft → Type 0
Own d = All HasOwnId d.stop_time_updates

Round-Own :
    (P : EventUpdate → Type 0) (epoch : ℤ) (d d' : Draft) → Round P epoch d d' → Own d → Own d'
unfolding append_stop make_stop_update order_entity
Round-Own P epoch d d' skipped h = h
Round-Own P epoch d d' (appended sp m a b p c) h =
    All-append HasOwnId d.stop_time_updates
      (order_entity (length d.stop_time_updates) (make_stop_update sp m a b) ∷ []) h (refl, tt)

-- Every stop has the id of its stop point.
pub go_through-Own :
    {A : Type 0} (P : EventUpdate → Type 0) (epoch : ℤ) (round : A → Draft → Result Draft)
    → Rounds P epoch round
    → (xs : List A) (d d' : Draft) → Own d
    → go_through round xs d ≡ ok d'
    → Own d'
go_through-Own P epoch round rounds xs d d' o h =
    go_through-Round P epoch Own round rounds (Round-Own P epoch) xs d d' o h

-- The times of a stop after a departure: a missing departure before counts as `epoch`, a missing
-- arrival as the departure before and a missing departure as the arrival.
abbrev pub Follows : ℤ → Option ℤ → Option ℤ → Option ℤ → Type 0
Follows epoch last arrival departure =
    (value_or last epoch ≤ℤ value_or arrival (value_or last epoch))
    × (value_or arrival (value_or last epoch)
        ≤ℤ value_or departure (value_or arrival (value_or last epoch)))

pub are_times_consistent-Follows :
    (epoch : ℤ) (last a b : Option ℤ)
    → are_times_consistent epoch last a b ≡ true
    → Follows epoch last a b
unfolding are_times_consistent
are_times_consistent-Follows epoch last a b h = ground arith

-- The stops follow each other in time.
abbrev pub Timed : ℤ → Option ℤ → List StopTimeUpdate → Type 0
Timed epoch last [] = Unit
Timed epoch last (st ∷ rest) =
    Follows epoch last st.arrival st.departure × Timed epoch st.departure rest

abbrev last_departure : Option ℤ → List StopTimeUpdate → Option ℤ
last_departure last [] = last
last_departure last (st ∷ rest) = last_departure st.departure rest

Timed-append :
    (epoch : ℤ) (last : Option ℤ) (l : List StopTimeUpdate) (st : StopTimeUpdate)
    → Timed epoch last l
    → Follows epoch (last_departure last l) st.arrival st.departure
    → Timed epoch last (l ++ st ∷ [])
Timed-append epoch last [] st h f = (f, tt)
Timed-append epoch last (x ∷ l) st h f = (h.0, Timed-append epoch x.departure l st h.1 f)

last_departure-append :
    (last : Option ℤ) (l : List StopTimeUpdate) (st : StopTimeUpdate)
    → last_departure last (l ++ st ∷ []) ≡ st.departure
last_departure-append last [] st = refl
last_departure-append last (x ∷ l) st = last_departure-append x.departure l st

-- What is set is what was checked.
abbrev pub IsChecked : EventUpdate → Type 0
IsChecked a = a.time ≡ a.projected

abbrev pub IsTimed : ℤ → Draft → Type 0
IsTimed epoch d =
    Timed epoch none d.stop_time_updates
    × (last_departure none d.stop_time_updates ≡ d.last_departure)

Round-IsTimed :
    (epoch : ℤ) (d d' : Draft) → Round IsChecked epoch d d' → IsTimed epoch d → IsTimed epoch d'
unfolding append_stop make_stop_update order_entity
Round-IsTimed epoch d d' skipped h = h
Round-IsTimed epoch d d' (appended sp m a b (p, q) c) (t, e) =
    let f = are_times_consistent-Follows epoch d.last_departure a.projected b.projected c in
    let st = order_entity (length d.stop_time_updates) (make_stop_update sp m a b) in
    (
      Timed-append epoch none d.stop_time_updates st t (rw (e, p, q) f),
      last_departure-append none d.stop_time_updates st ∙ q,
    )

-- The stops follow each other in time, where what is set is what was checked.
pub go_through-IsTimed :
    {A : Type 0} (epoch : ℤ) (round : A → Draft → Result Draft)
    → Rounds IsChecked epoch round
    → (xs : List A) (d d' : Draft) → IsTimed epoch d
    → go_through round xs d ≡ ok d'
    → IsTimed epoch d'
go_through-IsTimed epoch round rounds xs d d' o h =
    go_through-Round IsChecked epoch (IsTimed epoch) round rounds (Round-IsTimed epoch) xs d d' o h

-- The stops are numbered from 0.
abbrev pub Numbered : Draft → Type 0
Numbered d = InSequence 0 d.stop_time_updates

InSequence-append :
    (i : ℕ) (l : List StopTimeUpdate) (st : StopTimeUpdate)
    → InSequence i l
    → st.order ≡ some (length l + i)
    → InSequence i (l ++ st ∷ [])
InSequence-append i [] st h e =
    let none_before : 0 + i ≡ i = omega arith in (e ∙ ap some none_before, tt)
InSequence-append i (x ∷ l) st h e =
    let shift : length (x ∷ l) + i ≡ length l + (i + 1) = omega arith in
    (h.0, InSequence-append (i + 1) l st h.1 (e ∙ ap some shift))

Round-Numbered :
    (P : EventUpdate → Type 0) (epoch : ℤ) (d d' : Draft)
    → Round P epoch d d'
    → Numbered d
    → Numbered d'
unfolding append_stop make_stop_update order_entity
Round-Numbered P epoch d d' skipped h = h
Round-Numbered P epoch d d' (appended sp m a b p c) h =
    let n : length d.stop_time_updates ≡ length d.stop_time_updates + 0 = omega arith in
    InSequence-append 0 d.stop_time_updates
      (order_entity (length d.stop_time_updates) (make_stop_update sp m a b)) h (ap some n)

pub go_through-Numbered :
    {A : Type 0} (P : EventUpdate → Type 0) (epoch : ℤ) (round : A → Draft → Result Draft)
    → Rounds P epoch round
    → (xs : List A) (d d' : Draft) → Numbered d
    → go_through round xs d ≡ ok d'
    → Numbered d'
go_through-Numbered P epoch round rounds xs d d' o h =
    go_through-Round P epoch Numbered round rounds (Round-Numbered P epoch) xs d d' o h
