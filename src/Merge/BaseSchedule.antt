-- ===== src/Merge/BaseSchedule.antt =====
-- `merge` (kirin/core/merge_utils.py) with no realtime information: the base schedule on its day.
use kirin.Prelude.{
  ℕ, ◌+◌, ◌<◌, String, ℤ, pos, ◌≤ℤ◌, ◌<ℤ◌, ◌+ℤ◌, int_laws, ap, Option, none, some, List, [], ◌∷◌,
  ◌++◌, true, false, ◌==◌, ◌≡◌, ◌≢◌, refl, sym, ◌∙◌, ok, arith, All, enumerate, find_first,
}
use mathlib.Core.List.{append_assoc, append-nil}
use kirin.Model.{
  day, one_day, combine, get_circulation_date, arrival, departure, StopPoint, NavStop, NavVj,
  get_stop_id, get_stop_times, StopTimeUpdate, TripUpdate, find_stop, new_stop_time_update,
}
use kirin.Merge.Events.{is_stop_event_served}
use kirin.Merge.Loop.{
  TimeDelay, Clock, is_past_midnight, date_event, past_midnight, base_event, merge_stop,
  merge_stops, MergeState, choose_stop_time, stop_point_of, base_stop_time_update, start_state,
  merge, merge-finish, run_loop, finish, yielded,
}
use kirin.Merge.Dates.{clock_at, date_event_after}
use kirin.Merge.Chain.{Ordered}
use kirin.Merge.Stops.{yield_next_stop_from_base_schedule_vj}
use kirin.Types.{status_eq, delete}

-- A stop of the base schedule with both its times of day.
pub record IsTimed (st : NavStop) : Type 0 where
  pub sp : StopPoint
  pub arr : ℕ
  pub dep : ℕ
  pub at_stop : st.stop_point ≡ some sp
  pub at_arr : st.utc_arrival_time ≡ some arr
  pub at_dep : st.utc_departure_time ≡ some dep
  pub arr_bound : arr < day
  pub dep_bound : dep < day

-- The first moment at the time of day `t` that is not before `p`.
abbrev pub IsNext : ℤ → ℕ → ℤ → Type 0
IsNext p t m = (date : ℤ) × (m ≡ combine date t) × (p ≤ℤ m) × (m <ℤ p +ℤ one_day)

-- The stops of the base schedule with their arrivals and departures dated from the moment `p` on.
abbrev pub Dated : ℤ → List NavStop → List StopTimeUpdate → Type 0
Dated p [] [] = Unit
Dated p [] (stu ∷ stus) = ⊥
Dated p (st ∷ stops) [] = ⊥
Dated p (st ∷ stops) (stu ∷ stus) =
    (arr : ℕ) × (dep : ℕ) × (a : ℤ) × (d : ℤ) × (st.utc_arrival_time ≡ some arr)
    × (st.utc_departure_time ≡ some dep)
    × (st.stop_point ≡ some stu.navitia_stop)
    × (stu.arrival ≡ some a)
    × (stu.departure ≡ some d)
    × IsNext p arr a
    × IsNext a dep d
    × Dated d stops stus

-- The first arrival is on the day of the trip.
abbrev pub DatedFrom : ℤ → List NavStop → List StopTimeUpdate → Type 0
DatedFrom date [] stus = ⊥
DatedFrom date (st ∷ stops) stus =
    (arr : ℕ) × (st.utc_arrival_time ≡ some arr) × Dated (combine date arr) (st ∷ stops) stus

abbrev nav_stops : List (ℕ × NavStop) → List NavStop
nav_stops [] = []
nav_stops (x ∷ xs) = x.1 ∷ nav_stops xs

nav_stops-enumerate : (i : ℕ) (l : List NavStop) → nav_stops (enumerate i l) ≡ l
unfolding enumerate
nav_stops-enumerate i [] = refl
nav_stops-enumerate i (x ∷ xs) = ap (λ l. x ∷ l) (nav_stops-enumerate (i + 1) xs)

moment_after_self : (m : ℤ) → (m ≤ℤ m) × (m <ℤ m +ℤ one_day)
moment_after_self m = (omega int_laws, omega int_laws)

abbrev event_at : ℕ → TimeDelay
event_at t = record { time = some t; delay = pos 0 }

base_arrival :
    (order : ℕ) (st : NavStop) (clock : Clock) (a : ℕ)
    → st.utc_arrival_time ≡ some a
    → base_event arrival order st none none clock ≡ date_event clock (event_at a)
unfolding base_event is_stop_event_served
base_arrival order st clock a e = rw e

base_departure :
    (order : ℕ) (st : NavStop) (clock : Clock) (d : ℕ)
    → st.utc_departure_time ≡ some d
    → base_event departure order st none none clock ≡ date_event clock (event_at d)
unfolding base_event is_stop_event_served
base_departure order st clock d e = rw e

find_stop_empty :
    (new_tu : TripUpdate) (stop_id : Option String) (order : ℕ)
    → new_tu.stop_time_updates ≡ []
    → find_stop new_tu stop_id (some order) ≡ none
unfolding find_stop find_first
find_stop_empty new_tu stop_id order h = rw h

stop_point_of-some :
    (st : NavStop) (sp : StopPoint) → st.stop_point ≡ some sp → stop_point_of st ≡ ok sp
unfolding stop_point_of
stop_point_of-some st sp h = ground arith

module _ (new_tu : TripUpdate) (empty : new_tu.stop_time_updates ≡ []) where
  -- A round whose arrival was dated at `first`: the departure is dated after it, and both are kept.
  round :
      (order : ℕ) (st : NavStop) (t : IsTimed st) (s : MergeState) (first : ℤ)
      → date_event s.clock (event_at t.arr)
        ≡ (clock_at first t.arr (pos 0), some (combine first t.arr))
      → (next : ℤ) × (combine first t.arr ≤ℤ combine next t.dep)
        × (combine next t.dep <ℤ combine first t.arr +ℤ one_day)
        × (merge_stop none new_tu (order, st) s
            ≡ ok (record {
              clock = clock_at next t.dep (pos 0);
              last_departure = some (combine next t.dep);
              has_changes = true;
              res_stoptime_updates =
                  s.res_stoptime_updates
                  ++ base_stop_time_update t.sp
                      (some (combine next t.dep))
                      (some (combine first t.arr))
                      order
                    ∷ [];
            }))
  unfolding merge_stop choose_stop_time base_stop_time_update
  round order st t s first e =
      let (next, q, after, within) =
        date_event_after first (pos 0) t.arr t.dep t.arr_bound t.dep_bound in
      (
        next,
        after,
        within,
        rw (
          find_stop_empty new_tu (get_stop_id st) order empty,
          base_arrival order st s.clock t.arr t.at_arr,
          e,
          base_departure order st (clock_at first t.arr (pos 0)) t.dep t.at_dep,
          q,
          stop_point_of-some st t.sp t.at_stop,
        ),
      )

  -- From a round that was dated at `date`, the rest of the trip goes on in the order of time.
  rounds :
      (stops : List (ℕ × NavStop)) (date : ℤ) (p : ℕ) (s : MergeState)
      → p < day
      → All (λ (x : ℕ × NavStop). IsTimed x.1) stops
      → s.clock ≡ clock_at date p (pos 0)
      → ((s' : MergeState) × (l : List StopTimeUpdate) × (merge_stops none new_tu stops s ≡ ok s')
          × (s'.res_stoptime_updates ≡ s.res_stoptime_updates ++ l)
          × (s.has_changes ≡ true → s'.has_changes ≡ true)
          × Ordered (some (combine date p)) l
          × Dated (combine date p) (nav_stops stops) l)
  unfolding merge_stops base_stop_time_update new_stop_time_update
  rounds [] date p s hp a c = (s, [], refl, sym (append-nil s.res_stoptime_updates), λ h. h, tt, tt)
  rounds ((order, st) ∷ rest) date p s hp (t, ts) c =
      let (first, q, before, soon) = date_event_after date (pos 0) p t.arr hp t.arr_bound in
      let (next, after, within, e) = round order st t s first (rw c q) in
      let kept =
        base_stop_time_update t.sp (some (combine next t.dep)) (some (combine first t.arr)) order in
      let m : MergeState = record {
        clock = clock_at next t.dep (pos 0);
        last_departure = some (combine next t.dep);
        has_changes = true;
        res_stoptime_updates = s.res_stoptime_updates ++ kept ∷ [];
      } in
      let (s', l, e', q', ch, o, dd) = rounds rest next t.dep m t.dep_bound ts refl in
      (
        s',
        kept ∷ l,
        rw e e',
        q' ∙ append_assoc s.res_stoptime_updates (kept ∷ []) l,
        (λ _. ch refl),
        (before, after, o),
        (
          t.arr,
          t.dep,
          combine first t.arr,
          combine next t.dep,
          t.at_arr,
          t.at_dep,
          t.at_stop,
          refl,
          refl,
          (first, refl, before, soon),
          (next, refl, after, within),
          dd,
        ),
      )

  first_event :
      (date : ℤ) (t : ℕ)
      → date_event
          (record {
            circulation_date = date;
            previous_stop_event = record { time = none; delay = pos 0 };
          })
          (event_at t)
        ≡ (clock_at date t (pos 0), some (combine date t))
  unfolding date_event is_past_midnight past_midnight
  first_event date t = refl

  run :
      (stops : List (ℕ × NavStop))
      → stops ≢ []
      → All (λ (x : ℕ × NavStop). IsTimed x.1) stops
      → (s' : MergeState) × (merge_stops none new_tu stops (start_state new_tu) ≡ ok s')
        × (s'.has_changes ≡ true)
        × Ordered none s'.res_stoptime_updates
        × DatedFrom (get_circulation_date new_tu.vj) (nav_stops stops) s'.res_stoptime_updates
  unfolding merge_stops
  run [] ne a = absurd (ne refl)
  run ((order, st) ∷ rest) ne (t, ts) =
      let date = get_circulation_date new_tu.vj in
      let s = start_state new_tu in
      let (next, after, within, e) =
        round order st t s date (unfold start_state in first_event date t.arr) in
      let kept =
        base_stop_time_update t.sp (some (combine next t.dep)) (some (combine date t.arr)) order in
      let m : MergeState = record {
        clock = clock_at next t.dep (pos 0);
        last_departure = some (combine next t.dep);
        has_changes = true;
        res_stoptime_updates = s.res_stoptime_updates ++ kept ∷ [];
      } in
      let (s', l, e', q', ch, o, dd) = rounds rest next t.dep m t.dep_bound ts refl in
      let self = moment_after_self (combine date t.arr) in
      (
        s',
        rw e e',
        ch refl,
        rw q' (unfold start_state base_stop_time_update new_stop_time_update in (tt, after, o)),
        (
          t.arr,
          t.at_arr,
          rw q' (
              unfold start_state base_stop_time_update new_stop_time_update in
              (
                t.arr,
                t.dep,
                combine date t.arr,
                combine next t.dep,
                t.at_arr,
                t.at_dep,
                t.at_stop,
                refl,
                refl,
                (date, refl, self.0, self.1),
                (next, refl, after, within),
                dd,
              )),
        ),
      )

enumerate_nonempty : (i : ℕ) (l : List NavStop) → l ≢ [] → enumerate i l ≢ []
unfolding enumerate
enumerate_nonempty i [] ne = λ h. ne refl
enumerate_nonempty i (x ∷ xs) ne = λ h. cc

All-IsTimed-enumerate :
    (i : ℕ) (l : List NavStop)
    → All IsTimed l
    → All (λ (x : ℕ × NavStop). IsTimed x.1) (enumerate i l)
unfolding enumerate
All-IsTimed-enumerate i [] h = tt
All-IsTimed-enumerate i (x ∷ xs) h = (h.0, All-IsTimed-enumerate (i + 1) xs h.1)

-- With nothing recorded, and a differential update that says nothing of any stop and does not
-- cancel the trip, `merge` returns the dated base schedule, where every stop of it has both its times
-- of day: one stop time for each of its stops, in its order and with its stop point; the first arrival
-- is on the day of the trip, and each further arrival and departure is at its time of day, at the first
-- moment that is not before the one before, across any number of midnights. So the times are in order.
pub merge_base_schedule :
    (vj : NavVj) (new_tu : TripUpdate)
    → new_tu.stop_time_updates ≡ []
    → (new_tu.status == delete) ≡ false
    → get_stop_times vj ≢ []
    → All IsTimed (get_stop_times vj)
    → ((merge vj none new_tu false).reply ≡ ok true)
      × Ordered none (merge vj none new_tu false).res.stop_time_updates
      × DatedFrom
          (get_circulation_date new_tu.vj)
          (get_stop_times vj)
          (merge vj none new_tu false).res.stop_time_updates
unfolding finish run_loop yielded yield_next_stop_from_base_schedule_vj enumerate
merge_base_schedule vj new_tu empty d ne a =
    let stops = get_stop_times vj in
    let (s', e, c, o, dd) =
      run new_tu empty (enumerate 0 stops) (enumerate_nonempty 0 stops ne)
        (All-IsTimed-enumerate 0 stops a) in
    rw (merge-finish vj none new_tu false d, e, c)
      (refl, o, rw (sym (nav_stops-enumerate 0 stops)) dd)
