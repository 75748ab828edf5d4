-- ===== src/Merge/Chain.antt =====
-- The times along the whole trip that `merge` (kirin/core/merge_utils.py) produces.
use kirin.Prelude.{
  some_of_is_some, ℕ, ◌+◌, String, ℤ, Option, none, some, List, [], ◌∷◌, ◌++◌, Bool, true, false,
  ◌||◌, ◌==◌, ==_iff, string_eq, option_eq, ◌≡◌, ap, ◌∙◌, is_some, ==_refl, All-zip,
  All-exists_self, ok, arith, Bool-cases, Option-cases, inl, inr, All, find_first-passes, exists,
  >>=-eq-ok,
}
use mathlib.Core.Path.{subst}
use mathlib.Core.List.{append_assoc, append-nil}
use kirin.Types.{status_eq, delete}
use kirin.Model.{
  arrival, departure, NavStop, NavVj, get_stop_id, get_stop_times, StopTimeUpdate, TripUpdate,
  find_stop, is_not_equal, at_stop,
}
use kirin.Model.Columns.{is_not_equal-SameColumns}
use kirin.Model.Finding.{find_stop_found}
use kirin.Merge.StopTimes.{make_stop_time_update, make_fake_realtime_stop_time}
use kirin.Merge.Stops.{find_st_in_vj, next_stop, next_stops, yield_next_stop_from_trip_update}
use kirin.Merge.Loop.{
  base_event, choose_stop_time, update_recorded, stop_point_of, merge_stop, merge_stops, MergeState,
  start_state, merge, take_header, finish_returned, merge-finish, result_object, run_loop, yielded,
}
use kirin.Merge.Times.{AtMost, make_stop_time_update_ordered}

-- Every stop is entered no earlier than the one before was left, and left no earlier than entered.
abbrev pub Ordered : Option ℤ → List StopTimeUpdate → Type 0
Ordered last [] = Unit
Ordered last (st ∷ rest) =
    AtMost last st.arrival × AtMost st.arrival st.departure × Ordered st.departure rest

abbrev Fits : Option ℤ → StopTimeUpdate → Type 0
Fits last st = AtMost last st.arrival × AtMost st.arrival st.departure

-- A recorded stop that is kept has the times of the stop that was made.
update_recorded-Fits :
    (db_st : Option StopTimeUpdate) (made : StopTimeUpdate) (has_changes : Bool) (last : Option ℤ)
    → Fits last made
    → Fits last (update_recorded db_st made has_changes).0
unfolding update_recorded
update_recorded-Fits none made has_changes last h = h
update_recorded-Fits (some db_st) made has_changes last h =
    elim (Bool-cases (has_changes || is_not_equal db_st made)) [
      | inl e ↦ rw e h
      | inr e ↦
          let same = is_not_equal-SameColumns db_st made (ground arith) in
          rw (e, same.arrival, same.departure) h
    ]

choose_stop_time-Fits :
    (db_tu : Option TripUpdate) (new_st : StopTimeUpdate) (st : NavStop) (order : ℕ)
    (ba bd last : Option ℤ) (has_changes : Bool) (kept : StopTimeUpdate × Bool)
    → choose_stop_time db_tu (some new_st) st order ba bd last has_changes ≡ ok kept
    → Fits last kept.0
unfolding choose_stop_time
choose_stop_time-Fits none new_st st order ba bd last has_changes kept h =
    let (sp, _, h1) = >>=-eq-ok (stop_point_of st) _ h in
    let (made, e, h2) = >>=-eq-ok (make_stop_time_update ba bd last new_st sp order) _ h1 in
    let f = make_stop_time_update_ordered ba bd last new_st sp order made e in
    let q : record made { message = new_st.message } ≡ kept.0 = ground arith in
    subst (Fits last) q f
choose_stop_time-Fits (some db) new_st st order ba bd last has_changes kept h =
    let (sp, _, h1) = >>=-eq-ok (stop_point_of st) _ h in
    let (made, e, h2) = >>=-eq-ok (make_stop_time_update ba bd last new_st sp order) _ h1 in
    let f = make_stop_time_update_ordered ba bd last new_st sp order made e in
    let r = find_stop db (get_stop_id st) (some order) in
    let q : update_recorded r made has_changes ≡ kept = ground arith in
    subst (λ (k : StopTimeUpdate × Bool). Fits last k.0) q
      (update_recorded-Fits r made has_changes last f)

-- The stop that one round of the loop keeps.
pub record Round (db_tu : Option TripUpdate) (new_tu : TripUpdate) (order : ℕ) (st : NavStop)
    (s s' : MergeState) : Type 0 where
  pub kept : StopTimeUpdate
  pub base_arrival : Option ℤ
  pub base_departure : Option ℤ
  pub chosen :
      choose_stop_time db_tu
        (find_stop new_tu (get_stop_id st) (some order))
        st
        order
        base_arrival
        base_departure
        s.last_departure
        s.has_changes
      ≡ ok (kept, s'.has_changes)
  pub appended : s'.res_stoptime_updates ≡ s.res_stoptime_updates ++ kept ∷ []
  pub left : s'.last_departure ≡ kept.departure

pub merge_stop-Round :
    (db_tu : Option TripUpdate) (new_tu : TripUpdate) (order : ℕ) (st : NavStop) (s s' : MergeState)
    → merge_stop db_tu new_tu (order, st) s ≡ ok s'
    → Round db_tu new_tu order st s s'
unfolding merge_stop
merge_stop-Round db_tu new_tu order st s s' h =
    let new_st = find_stop new_tu (get_stop_id st) (some order) in
    let arr = base_event arrival order st db_tu new_st s.clock in
    let dep = base_event departure order st db_tu new_st arr.0 in
    let (k, e, q) =
      >>=-eq-ok (choose_stop_time db_tu new_st st order arr.1 dep.1 s.last_departure s.has_changes)
        _ h in
    record {
      kept = k.0;
      base_arrival = arr.1;
      base_departure = dep.1;
      chosen = let c : k.1 ≡ s'.has_changes = ground arith in rw (← c) e;
      appended = ground arith;
      left = ground arith;
    }

abbrev pub HasNew : TripUpdate → ℕ × NavStop → Type 0
HasNew new_tu (order, st) = is_some (find_stop new_tu (get_stop_id st) (some order)) ≡ true

merge_stops-Ordered :
    (db_tu : Option TripUpdate) (new_tu : TripUpdate) (stops : List (ℕ × NavStop))
    (s s' : MergeState)
    → All (HasNew new_tu) stops
    → merge_stops db_tu new_tu stops s ≡ ok s'
    → (l : List StopTimeUpdate) × (s'.res_stoptime_updates ≡ s.res_stoptime_updates ++ l)
      × Ordered s.last_departure l
unfolding merge_stops
merge_stops-Ordered db_tu new_tu [] s s' a h =
    ([], ground (arith, append-nil s.res_stoptime_updates), tt)
merge_stops-Ordered db_tu new_tu ((order, st) ∷ rest) s s' (a, as') h =
    let (m, e, h') = >>=-eq-ok (merge_stop db_tu new_tu (order, st) s) _ h in
    let r = merge_stop-Round db_tu new_tu order st s m e in
    let (new_st, n) = some_of_is_some (find_stop new_tu (get_stop_id st) (some order)) a in
    let f =
      choose_stop_time-Fits db_tu new_st st order r.base_arrival r.base_departure s.last_departure
        s.has_changes _ (rw n at r.chosen) in
    let (l, q, o) = merge_stops-Ordered db_tu new_tu rest m s' as' h' in
    (
      r.kept ∷ l,
      q
          ∙ ap (λ (x : List StopTimeUpdate). x ++ l) r.appended
          ∙ append_assoc s.res_stoptime_updates (r.kept ∷ []) l,
      (f.0, f.1, rw (← r.left) o),
    )

-- The stop id of a stop time is that of the stop point that it was made from, as in `__init__`.
abbrev pub HasOwnId : StopTimeUpdate → Type 0
HasOwnId st = st.stop_id ≡ st.navitia_stop.id

stop_point-make_fake :
    (order : ℕ) (sp_id : Option String) (new_stu : StopTimeUpdate) (db_tu : Option TripUpdate)
    (fake : NavStop)
    → make_fake_realtime_stop_time order sp_id new_stu db_tu ≡ ok fake
    → fake.stop_point ≡ some new_stu.navitia_stop
unfolding make_fake_realtime_stop_time
stop_point-make_fake order sp_id new_stu db_tu fake h = ground arith

get_stop_id-next_stop :
    (order : ℕ) (new_stu : StopTimeUpdate) (vj : NavVj) (db_tu : Option TripUpdate) (st : NavStop)
    → HasOwnId new_stu
    → next_stop order new_stu vj db_tu ≡ ok (some st)
    → get_stop_id st ≡ some new_stu.stop_id
unfolding next_stop get_stop_id
get_stop_id-next_stop order new_stu vj db_tu st own h =
    elim (Option-cases (find_st_in_vj new_stu.stop_id (get_stop_times vj))) [
      | inl e ↦
          let q : make_fake_realtime_stop_time order (some new_stu.stop_id) new_stu db_tu ≡ ok st =
            ground arith in
          let p = stop_point-make_fake order (some new_stu.stop_id) new_stu db_tu st q in
          ground arith
      | inr (x, e) ↦
          let q : x ≡ st = ground arith in
          let p = find_first-passes _ (get_stop_times vj) x e in rw (← q) ((==_iff _ _).0 p)
    ]

abbrev Listed : TripUpdate → StopTimeUpdate → Type 0
Listed new_tu st =
    HasOwnId st × (exists (at_stop (some st.stop_id)) new_tu.stop_time_updates ≡ true)

HasNew-intro :
    (new_tu : TripUpdate) (order : ℕ) (st : NavStop) (new_stu : StopTimeUpdate)
    → get_stop_id st ≡ some new_stu.stop_id
    → exists (at_stop (some new_stu.stop_id)) new_tu.stop_time_updates ≡ true
    → HasNew new_tu (order, st)
HasNew-intro new_tu order st new_stu e h =
    let (x, q, _, _) = find_stop_found new_tu (get_stop_id st) (some order) (rw e h) in rw q

next_stops-HasNew :
    (new_tu : TripUpdate) (order : ℕ) (l : List StopTimeUpdate) (vj : NavVj)
    (db_tu : Option TripUpdate) (stops : List (ℕ × NavStop))
    → All (Listed new_tu) l
    → next_stops order l vj db_tu ≡ ok stops
    → All (HasNew new_tu) stops
unfolding next_stops
next_stops-HasNew new_tu order [] vj db_tu stops a h =
    let q : ◌≡◌ {A = List (ℕ × NavStop)} [] stops = ground arith in subst (All (HasNew new_tu)) q tt
next_stops-HasNew new_tu order (x ∷ l) vj db_tu stops (a, as') h =
    let (o, e, h1) = >>=-eq-ok (next_stop order x vj db_tu) _ h in
    let (others, e', h2) = >>=-eq-ok (next_stops (order + 1) l vj db_tu) _ h1 in
    let rest = next_stops-HasNew new_tu (order + 1) l vj db_tu others as' e' in
    elim (Option-cases o) [
      | inl n ↦ let q : others ≡ stops = ground arith in subst (All (HasNew new_tu)) q rest
      | inr (st, n) ↦
          let q : (order, st) ∷ others ≡ stops = ground arith in
          let i = get_stop_id-next_stop order x vj db_tu st a.0 (e ∙ ap ok n) in
          subst (All (HasNew new_tu)) q ((HasNew-intro new_tu order st x i a.1, rest))
    ]

run_loop-Ordered :
    (vj : NavVj) (db_tu : Option TripUpdate) (new_tu : TripUpdate) (s : MergeState)
    → All HasOwnId new_tu.stop_time_updates
    → run_loop vj db_tu new_tu true ≡ ok s
    → Ordered none s.res_stoptime_updates
unfolding run_loop yielded yield_next_stop_from_trip_update start_state
run_loop-Ordered vj db_tu new_tu s own h =
    let l = new_tu.stop_time_updates in
    let listed =
      All-zip HasOwnId (λ x. exists (at_stop (some x.stop_id)) l ≡ true) l own
        (All-exists_self (λ x y. at_stop (some x.stop_id) y) l (λ x. ==_refl (some x.stop_id))) in
    let (stops, e, h') = >>=-eq-ok (next_stops 0 l new_tu.vj.navitia_vj db_tu) _ h in
    let a = next_stops-HasNew new_tu 0 l new_tu.vj.navitia_vj db_tu stops listed e in
    let (kept, q, o) = merge_stops-Ordered db_tu new_tu stops (start_state new_tu) s a h' in rw q o

-- A complete trip update that does not cancel the trip, if `merge` returns it, has all its stops in
-- the order of time: each is entered no earlier than the one before was left, and left no earlier
-- than entered, where a missing time counts as before all others. Whatever the base schedule, the
-- recorded update and the delays are, provided that each stop has the id of its stop point.
pub merge_complete-Ordered :
    (vj : NavVj) (db_tu : Option TripUpdate) (new_tu : TripUpdate)
    → All HasOwnId new_tu.stop_time_updates
    → (new_tu.status == delete) ≡ false
    → (merge vj db_tu new_tu true).reply ≡ ok true
    → Ordered none (merge vj db_tu new_tu true).res.stop_time_updates
merge_complete-Ordered vj db_tu new_tu own d h =
    let res = take_header (result_object db_tu new_tu) new_tu true in
    let run = run_loop vj db_tu new_tu true in
    let e = merge-finish vj db_tu new_tu true d in
    let (s, r, _, q) = finish_returned res run (rw e at h) in
    rw (e, q) (run_loop-Ordered vj db_tu new_tu s own r)
