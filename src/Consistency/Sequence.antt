-- ===== src/Consistency/Sequence.antt =====
-- What an accepted trip update looks like (kirin/core/build_wrapper.py: `manage_consistency`), and
-- which trip updates are accepted.
use kirin.Prelude.{
  ℕ, ◌+◌, Option, none, some, List, [], ◌∷◌, Bool, true, ◌==◌, option_eq, nat_eq, is_some,
  some_of_is_some, or_else, ◌≡◌, ◌↔◌, refl, ◌∙◌, arith, inl, inr, Bool-cases, Option-cases, ==_iff,
  All,
}
use mathlib.Core.Path.{subst}
use kirin.Model.{StopTimeUpdate, TripUpdate}
use kirin.Consistency.{
  Event, manage_stop, manage_stops, manage_consistency, manage_stops-Step, with_events,
  filled_arrival,
}

pub pair_of : (r : List StopTimeUpdate × Bool) → r.1 ≡ true → r ≡ (r.0, true)
pair_of (l, b) h = ground arith

-- The orders count up from `i`.
abbrev pub InSequence : ℕ → List StopTimeUpdate → Type 0
InSequence i [] = Unit
InSequence i (stu ∷ rest) = (stu.order ≡ some i) × InSequence (i + 1) rest

-- Both times and both delays are known.
abbrev pub IsComplete : StopTimeUpdate → Type 0
IsComplete stu =
    (is_some stu.arrival ≡ true)
    × (is_some stu.arrival_delay ≡ true)
    × (is_some stu.departure ≡ true)
    × (is_some stu.departure_delay ≡ true)

pub manage_stop_result :
    (prev : Option Event) (stu next : StopTimeUpdate) (next_prev : Option Event)
    → manage_stop prev stu ≡ some (next, next_prev)
    → (next.order ≡ stu.order) × IsComplete next
unfolding manage_stop with_events
manage_stop_result prev stu next next_prev h = elim (Option-cases (filled_arrival prev stu)) [
  | inl e ↦ ground arith
  | inr (a, e) ↦ (ground arith, (ground arith, ground arith, ground arith, ground arith))
]

manage_stops_accepted :
    (i : ℕ) (prev : Option Event) (l out : List StopTimeUpdate)
    → manage_stops i prev l ≡ (out, true)
    → InSequence i out × All IsComplete out
manage_stops_accepted i prev [] out h =
    let q : ◌≡◌ {A = List StopTimeUpdate} [] out = unfold manage_stops in ground arith in
    subst (λ (o : List StopTimeUpdate). InSequence i o × All IsComplete o) q (tt, tt)
manage_stops_accepted i prev (stu ∷ rest) out h =
    let s = manage_stops-Step i prev stu rest out h in
    let (o, c) = manage_stop_result prev stu s.next s.next_prev s.managed in
    let (seq, all) = manage_stops_accepted (i + 1) s.next_prev rest s.others s.looped in
    rw s.result ((o ∙ s.numbered, seq), (c, all))

-- A trip update that is accepted has its stops numbered from 0 on, each with both times and both
-- delays.
pub manage_consistency_accepted :
    (tu : TripUpdate)
    → (manage_consistency tu).1 ≡ true
    → InSequence 0 (manage_consistency tu).0.stop_time_updates
      × All IsComplete (manage_consistency tu).0.stop_time_updates
unfolding manage_consistency
manage_consistency_accepted tu h =
    manage_stops_accepted 0 none tu.stop_time_updates _
      (pair_of (manage_stops 0 none tu.stop_time_updates) h)

-- At least one of the two times is known.
abbrev pub HasTime : StopTimeUpdate → Type 0
HasTime stu = is_some (or_else stu.arrival stu.departure) ≡ true

is_some-manage_stop :
    (prev : Option Event) (stu : StopTimeUpdate)
    → HasTime stu
    → is_some (manage_stop prev stu) ≡ true
unfolding manage_stop
is_some-manage_stop prev stu h = ground arith

manage_stop_total :
    (prev : Option Event) (stu : StopTimeUpdate)
    → HasTime stu
    → (r : StopTimeUpdate × Option Event) × (manage_stop prev stu ≡ some r)
manage_stop_total prev stu h =
    some_of_is_some (manage_stop prev stu) (is_some-manage_stop prev stu h)

manage_stops_iff :
    (i : ℕ) (prev : Option Event) (l : List StopTimeUpdate)
    → All HasTime l
    → ((manage_stops i prev l).1 ≡ true) ↔ InSequence i l
unfolding manage_stops
manage_stops_iff i prev [] a = ((λ h. tt), (λ h. refl))
manage_stops_iff i prev (stu ∷ rest) (t, ts) =
    let ((next, next_prev), e) = manage_stop_total prev stu t in
    let ih = manage_stops_iff (i + 1) next_prev rest ts in
    elim (Bool-cases (stu.order == some i)) [
      | inl o ↦ (
        (λ h. ((==_iff stu.order (some i)).0 o, ih.0 (ground arith))),
        (λ h. rw (o, e) (ih.1 h.1)),
      )
      | inr o ↦
          ((λ h. ground arith), (λ h. let q = (==_iff stu.order (some i)).1 h.0 in ground arith))
    ]

-- Where every stop has a time, a trip update is accepted exactly if its orders count up from 0.
pub manage_consistency_iff :
    (tu : TripUpdate)
    → All HasTime tu.stop_time_updates
    → ((manage_consistency tu).1 ≡ true) ↔ InSequence 0 tu.stop_time_updates
unfolding manage_consistency
manage_consistency_iff tu a = manage_stops_iff 0 none tu.stop_time_updates a
