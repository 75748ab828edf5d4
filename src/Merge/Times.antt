-- ===== src/Merge/Times.antt =====
-- What `_make_stop_time_update` (kirin/core/merge_utils.py) guarantees of the times of one stop.
use kirin.Prelude.{
  ℕ, ℤ, pos, ◌+ℤ◌, ◌-ℤ◌, ◌≤ℤ◌, ltb_ℤ, int_laws, Option, none, some, ◌≡◌, refl, sym, ◌∙◌, or_else,
  is_some, true, ◌==◌, int_eq, int_beq_iff, ok, arith, Bool-cases, inl, inr,
}
use kirin.Types.{ModificationType, update}
use kirin.Model.{truthy, StopPoint, StopTimeUpdate}
use kirin.Merge.StopTimes.{
  push_after, make_stop_time_update, get_update_info_of_stop_event, EventInfo,
}

-- The first time, where there is one, is followed by a second that is not before it.
abbrev pub AtMost : Option ℤ → Option ℤ → Type 0
AtMost none b = Unit
AtMost (some a) none = ⊥
AtMost (some a) (some b) = a ≤ℤ b

pub AtMost-push_after :
    (limit time delay : Option ℤ) (r : Option ℤ × Option ℤ)
    → push_after limit time delay ≡ ok r
    → AtMost limit r.0
unfolding push_after
AtMost-push_after none time delay r h = tt
AtMost-push_after (some l) none delay r h = cc
AtMost-push_after (some l) (some t) none (a, b) h = ground arith
AtMost-push_after (some l) (some t) (some d) (a, b) h = ground arith

-- What a successful call has computed: the two pushes, and their results in the stop.
pub record Made (base_arrival base_departure last : Option ℤ) (st : StopTimeUpdate) (sp : StopPoint)
    (order : ℕ) (r : StopTimeUpdate) : Type 0 where
  pub arr : EventInfo
  pub arr_info :
      arr ≡ get_update_info_of_stop_event base_arrival st.arrival st.arrival_status st.arrival_delay
  pub dep : EventInfo
  pub dep_info :
      dep
      ≡ get_update_info_of_stop_event base_departure st.departure st.departure_status
          st.departure_delay
  pub arr_push :
      push_after last (or_else arr.time (or_else dep.time last)) arr.delay
      ≡ ok (r.arrival, r.arrival_delay)
  pub dep_push :
      push_after r.arrival (or_else dep.time (or_else arr.time (or_else dep.time last))) dep.delay
      ≡ ok (r.departure, r.departure_delay)
  pub stop_id : r.stop_id ≡ sp.id
  pub order_kept : r.order ≡ some order
  pub message : r.message ≡ st.message
  pub arrival_status : r.arrival_status ≡ arr.status
  pub departure_status : r.departure_status ≡ dep.status

pub make_stop_time_update-Made :
    (base_arrival base_departure last : Option ℤ) (st : StopTimeUpdate) (sp : StopPoint) (order : ℕ)
    (r : StopTimeUpdate)
    → make_stop_time_update base_arrival base_departure last st sp order ≡ ok r
    → Made base_arrival base_departure last st sp order r
unfolding make_stop_time_update
make_stop_time_update-Made base_arrival base_departure last st sp order r h = record {
  arr = get_update_info_of_stop_event base_arrival st.arrival st.arrival_status st.arrival_delay;
  arr_info = refl;
  dep =
      get_update_info_of_stop_event base_departure st.departure st.departure_status
        st.departure_delay;
  dep_info = refl;
  arr_push = ground arith;
  dep_push = ground arith;
  stop_id = ground arith;
  order_kept = ground arith;
  message = ground arith;
  arrival_status = ground arith;
  departure_status = ground arith;
}

-- A stop that is made is entered no earlier than the last one was left, and left no earlier than
-- entered, where a missing time counts as before all others.
pub make_stop_time_update_ordered :
    (base_arrival base_departure last : Option ℤ) (st : StopTimeUpdate) (sp : StopPoint) (order : ℕ)
    (r : StopTimeUpdate)
    → make_stop_time_update base_arrival base_departure last st sp order ≡ ok r
    → AtMost last r.arrival × AtMost r.arrival r.departure
make_stop_time_update_ordered base_arrival base_departure last st sp order r h =
    let m = make_stop_time_update-Made base_arrival base_departure last st sp order r h in
    (AtMost-push_after _ _ _ _ m.arr_push, AtMost-push_after _ _ _ _ m.dep_push)

-- An update comes with its delay.
pub record HasDelays (st : StopTimeUpdate) : Type 0 where
  pub arrival : st.arrival_status ≡ update → is_some st.arrival_delay ≡ true
  pub departure : st.departure_status ≡ update → is_some st.departure_delay ≡ true

info_delay :
    (base input : Option ℤ) (status : ModificationType) (delay : Option ℤ)
    → (status ≡ update → is_some delay ≡ true)
    → (d : ℤ) × ((get_update_info_of_stop_event base input status delay).delay ≡ some d)
unfolding get_update_info_of_stop_event
info_delay base input update none h = cc (h refl)
info_delay base input update (some d) h = (d, refl)
info_delay base input _ delay h = (pos 0, refl)

-- With a delay and, unless there is no limit, a time, the push succeeds and leaves a delay.
push_after_total :
    (limit time : Option ℤ) (d : ℤ)
    → (is_some limit ≡ true → is_some time ≡ true)
    → (r : Option ℤ × Option ℤ) × (push_after limit time (some d) ≡ ok r)
      × (is_some r.1 ≡ true)
      × (is_some r.0 ≡ is_some time)
unfolding push_after
push_after_total none time d u = ((time, some d), refl, refl, refl)
push_after_total (some l) none d u = cc (u refl)
push_after_total (some l) (some t) d u = elim (Bool-cases (ltb_ℤ t l)) [
  | inl e ↦ ((some l, some (d +ℤ (l -ℤ t))), rw e, refl, refl)
  | inr e ↦ ((some t, some d), rw e, refl, refl)
]

is_some-or_else : (a b c : Option ℤ) → is_some c ≡ true → is_some (or_else a (or_else b c)) ≡ true
is_some-or_else (some a) b c h = refl
is_some-or_else none (some b) c h = refl
is_some-or_else none none c h = h

is_some-or_else_second : (a b : Option ℤ) → is_some b ≡ true → is_some (or_else a b) ≡ true
is_some-or_else_second (some a) b h = refl
is_some-or_else_second none b h = h

-- Where every update comes with its delay nothing is raised, and both delays are then known.
pub make_stop_time_update_total :
    (base_arrival base_departure last : Option ℤ) (st : StopTimeUpdate) (sp : StopPoint) (order : ℕ)
    → HasDelays st
    → (r : StopTimeUpdate) × (make_stop_time_update base_arrival base_departure last st sp order
        ≡ ok r)
      × (is_some r.arrival_delay ≡ true)
      × (is_some r.departure_delay ≡ true)
unfolding make_stop_time_update
make_stop_time_update_total base_arrival base_departure last st sp order h =
    let arr =
      get_update_info_of_stop_event base_arrival st.arrival st.arrival_status st.arrival_delay in
    let dep =
      get_update_info_of_stop_event base_departure st.departure st.departure_status
        st.departure_delay in
    let (da, ea) =
      info_delay base_arrival st.arrival st.arrival_status st.arrival_delay h.arrival in
    let (dd, ed) =
      info_delay base_departure st.departure st.departure_status st.departure_delay h.departure in
    let arr_time = or_else arr.time (or_else dep.time last) in
    let (pa, qa, sa, ta) =
      push_after_total last arr_time da (is_some-or_else arr.time dep.time last) in
    let (pd, qd, sd, td) =
      push_after_total pa.0 (or_else dep.time arr_time) dd
        (λ e. is_some-or_else_second dep.time arr_time (sym ta ∙ e)) in
    (
      record {
        order = some order;
        navitia_stop = sp;
        stop_id = sp.id;
        message = st.message;
        departure = pd.0;
        departure_delay = pd.1;
        departure_status = dep.status;
        arrival = pa.0;
        arrival_delay = pa.1;
        arrival_status = arr.status;
      },
      rw (ea, ed, qa) (rw qd),
      sa,
      sd,
    )

-- A delay that the push changes is changed by as much as the time.
push_after_base :
    (limit : Option ℤ) (t d t' d' : ℤ)
    → push_after limit (some t) (some d) ≡ ok (some t', some d')
    → t' -ℤ d' ≡ t -ℤ d
unfolding push_after
push_after_base none t d t' d' h = ground arith
push_after_base (some l) t d t' d' h = elim (Bool-cases (ltb_ℤ t l)) [
  | inl e ↦
      let p : l ≡ t' = ground arith in
      let q : d +ℤ (l -ℤ t) ≡ d' = ground arith in rw (← p, ← q) (omega int_laws)
  | inr e ↦ ground arith
]

info_update :
    (b d : ℤ) (input : Option ℤ)
    → (t : ℤ) × ((get_update_info_of_stop_event (some b) input update (some d)).time ≡ some t)
      × ((get_update_info_of_stop_event (some b) input update (some d)).delay ≡ some d)
      × (t -ℤ d ≡ b)
unfolding get_update_info_of_stop_event truthy
info_update b d input = elim (Bool-cases (d == pos 0)) [
  | inl e ↦ (b, rw e, refl, rw ((int_beq_iff d (pos 0)).0 e) (omega int_laws))
  | inr e ↦ (b +ℤ d, rw e, refl, omega int_laws)
]

-- A push of a known time and delay that succeeds has a known time and delay.
push_after_known :
    (limit : Option ℤ) (t d : ℤ) (r : Option ℤ × Option ℤ)
    → push_after limit (some t) (some d) ≡ ok r
    → (t' d' : ℤ) × (r.0 ≡ some t') × (r.1 ≡ some d') × (t' -ℤ d' ≡ t -ℤ d)
push_after_known limit t d (some t', some d') h =
    (t', d', refl, refl, push_after_base limit t d t' d' h)
push_after_known limit t d (none, b) h =
    let (r, q, sd, st) = push_after_total limit (some t) d (λ _. refl) in cc (q, h, st)
push_after_known limit t d (some a, none) h =
    let (r, q, sd, st) = push_after_total limit (some t) d (λ _. refl) in cc (q, h, sd)

-- The delay of a stop event that is updated counts from its base-schedule time: where both events
-- are updated with known delays, time minus delay is the base time, whatever was pushed.
pub make_stop_time_update_base :
    (ba bd da dd : ℤ) (last : Option ℤ) (st : StopTimeUpdate) (sp : StopPoint) (order : ℕ)
    (r : StopTimeUpdate)
    → st.arrival_status ≡ update
    → st.departure_status ≡ update
    → st.arrival_delay ≡ some da
    → st.departure_delay ≡ some dd
    → make_stop_time_update (some ba) (some bd) last st sp order ≡ ok r
    → (ta ea td ed : ℤ) × (r.arrival ≡ some ta)
      × (r.arrival_delay ≡ some ea)
      × (r.departure ≡ some td)
      × (r.departure_delay ≡ some ed)
      × (ta -ℤ ea ≡ ba)
      × (td -ℤ ed ≡ bd)
make_stop_time_update_base ba bd da dd last st sp order r sa sd ha hd h =
    let m = make_stop_time_update-Made (some ba) (some bd) last st sp order r h in
    let (ta, pa, qa, ra) = info_update ba da st.arrival in
    let (td, pd, qd, rd) = info_update bd dd st.departure in
    let ia : m.arr ≡ get_update_info_of_stop_event (some ba) st.arrival update (some da) =
      rw (← sa, ← ha) m.arr_info in
    let id : m.dep ≡ get_update_info_of_stop_event (some bd) st.departure update (some dd) =
      rw (← sd, ← hd) m.dep_info in
    let ea : push_after last (some ta) (some da) ≡ ok (r.arrival, r.arrival_delay) =
      rw (ia, pa, qa) at m.arr_push in
    let ed : push_after r.arrival (some td) (some dd) ≡ ok (r.departure, r.departure_delay) =
      rw (id, pd, qd) at m.dep_push in
    let (ta', ea', xa, ya, za) = push_after_known last ta da _ ea in
    let (td', ed', xd, yd, zd) = push_after_known r.arrival td dd _ ed in
    (ta', ea', td', ed', xa, ya, xd, yd, za ∙ ra, zd ∙ rd)
