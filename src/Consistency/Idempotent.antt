-- ===== src/Consistency/Idempotent.antt =====
-- `manage_consistency` (kirin/core/build_wrapper.py) run again on its own result.
use kirin.Prelude.{
  ℕ, ◌+◌, ℤ, ◌+ℤ◌, ◌-ℤ◌, ltb_ℤ, int_laws, Option, none, some, List, [], ◌∷◌, Bool, true, false,
  option_eq, nat_eq, ◌≡◌, refl, ap, ◌∙◌, arith, inl, inr, Bool-cases, Option-cases, ==_iff,
}
use kirin.Model.{arrival, departure, StopTimeUpdate, is_stop_event_deleted, TripUpdate}
use kirin.Consistency.{
  Event, push, settle, manage_stop, manage_stops, manage_consistency, manage_stops-Step,
  settle_stop, with_events, filled_arrival, filled_delay, or_zero,
}
use kirin.Consistency.Sequence.{pair_of, manage_stop_result}

none_ne_some {ℓ} : {A : Type ℓ} {a : A} → ◌≡◌ {A = Option A} none (some a) → ⊥
none_ne_some h = cc

some_inj {ℓ} : {A : Type ℓ} {a b : A} → ◌≡◌ {A = Option A} (some a) (some b) → a ≡ b
some_inj h = cc

Event_ext : {a b : Event} → a.time ≡ b.time → a.delay ≡ b.delay → a ≡ b
Event_ext p q = λ i. record { time = p i; delay = q i }

shift_zero : (t d k : ℤ) → d ≡ k → t +ℤ (k -ℤ d) ≡ t
shift_zero t d k h = rw h (omega int_laws)

-- An event with the delay of the previous one stays, also where it is before it.
push_same_delay : (p e : Event) → e.delay ≡ p.delay → push (some p) e ≡ e
unfolding push
push_same_delay p e h = elim (Bool-cases (ltb_ℤ e.time p.time)) [
  | inl q ↦ rw q (Event_ext (shift_zero e.time _ _ h) (shift_zero e.delay _ _ h))
  | inr q ↦ rw q
]

push_idem : (prev : Option Event) (e : Event) → push prev (push prev e) ≡ push prev e
unfolding push
push_idem none e = refl
push_idem (some p) e = elim (Bool-cases (ltb_ℤ e.time p.time)) [
  | inl q ↦ rw q (push_same_delay p _ (omega int_laws))
  | inr q ↦ rw q (rw q)
]

settle_idem :
    (b : Bool) (prev : Option Event) (e : Event)
    → settle b prev (settle b prev e).0 ≡ settle b prev e
unfolding settle
settle_idem true prev e = refl
settle_idem false prev e = rw (push_idem prev e)

-- Both events of a stop, with the flags of deletion.
abbrev settle_both :
    Bool → Bool → Option Event → StopTimeUpdate → Event → Event → StopTimeUpdate × Option Event
settle_both b1 b2 prev stu arr dep =
    let a = settle b1 prev arr in let d = settle b2 a.1 dep in (with_events stu a.0 d.0, d.1)

settle_both_idem :
    (b1 b2 : Bool) (prev : Option Event) (stu : StopTimeUpdate) (arr dep : Event)
    → settle_both b1 b2 prev
        (settle_both b1 b2 prev stu arr dep).0
        (settle b1 prev arr).0
        (settle b2 (settle b1 prev arr).1 dep).0
      ≡ settle_both b1 b2 prev stu arr dep
unfolding with_events
settle_both_idem b1 b2 prev stu arr dep =
    rw (settle_idem b1 prev arr, settle_idem b2 (settle b1 prev arr).1 dep)

-- What `manage_stop` makes of a stop it has settled.
manage_stop_settled :
    (prev : Option Event) (stu : StopTimeUpdate) (arr dep : Event)
    → manage_stop prev (settle_stop prev stu arr dep).0 ≡ some (settle_stop prev stu arr dep)
unfolding manage_stop is_stop_event_deleted
manage_stop_settled prev stu arr dep = ap some (
    settle_both_idem (is_stop_event_deleted arrival stu) (is_stop_event_deleted departure stu) prev
      stu arr dep)

manage_stop-form :
    (prev : Option Event) (stu : StopTimeUpdate) (r : StopTimeUpdate × Option Event)
    → manage_stop prev stu ≡ some r
    → (arr : Event) × (dep : Event) × (settle_stop prev stu arr dep ≡ r)
unfolding manage_stop
manage_stop-form prev stu r h = elim (Option-cases (filled_arrival prev stu)) [
  | inl e ↦ absurd (none_ne_some (rw (e, manage_stop) at h))
  | inr (a, e) ↦
      let arr_delay = filled_delay stu.arrival stu.arrival_delay stu.departure_delay in
      let dep_delay = filled_delay stu.departure stu.departure_delay arr_delay in
      let dep : ℤ = elim stu.departure [ none ↦ a | some d ↦ d ] in
      (
        record { time = a; delay = or_zero arr_delay },
        record { time = dep; delay = or_zero dep_delay },
        some_inj (rw (e, manage_stop) at h),
      )
]

manage_stop_idem :
    (prev : Option Event) (stu next : StopTimeUpdate) (next_prev : Option Event)
    → manage_stop prev stu ≡ some (next, next_prev)
    → manage_stop prev next ≡ some (next, next_prev)
manage_stop_idem prev stu next next_prev h =
    let (arr, dep, e) = manage_stop-form prev stu (next, next_prev) h in
    rw e at (manage_stop_settled prev stu arr dep)

manage_stops_idem :
    (i : ℕ) (prev : Option Event) (l out : List StopTimeUpdate)
    → manage_stops i prev l ≡ (out, true)
    → manage_stops i prev out ≡ (out, true)
unfolding manage_stops
manage_stops_idem i prev [] out h =
    let q : ◌≡◌ {A = List StopTimeUpdate} [] out = ground arith in rw (← q)
manage_stops_idem i prev (stu ∷ rest) out h =
    let s = manage_stops-Step i prev stu rest out h in
    let m = manage_stop_idem prev stu s.next s.next_prev s.managed in
    let o = (manage_stop_result prev stu s.next s.next_prev s.managed).0 ∙ s.numbered in
    let b = (==_iff s.next.order (some i)).1 o in
    let ih = manage_stops_idem (i + 1) s.next_prev rest s.others s.looped in
    rw s.result (rw (b, m) (rw ih))

-- An accepted trip update is left as it is by a second run, which accepts it again.
pub manage_consistency_idem :
    (tu : TripUpdate)
    → (manage_consistency tu).1 ≡ true
    → manage_consistency (manage_consistency tu).0 ≡ ((manage_consistency tu).0, true)
unfolding manage_consistency
manage_consistency_idem tu h =
    let r = pair_of (manage_stops 0 none tu.stop_time_updates) h in
    rw (manage_stops_idem 0 none tu.stop_time_updates _ r)
