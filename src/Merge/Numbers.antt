-- ===== src/Merge/Numbers.antt =====
-- The orders of the stops that `merge` (kirin/core/merge_utils.py) makes where nothing is recorded,
-- and the consistency of the trip update (kirin/core/build_wrapper.py: `manage_consistency`).
use kirin.Prelude.{
  ℕ, ◌+◌, ℤ, Option, none, some, List, [], ◌∷◌, ◌++◌, map, Bool, true, false, ◌==◌, string_eq,
  option_eq, ◌≡◌, ◌∙◌, ok, arith, All, >>=-eq-ok, enumerate,
}
use mathlib.Core.Path.{subst}
use mathlib.Core.List.{append_assoc, append-nil, map-append}
use kirin.Types.{status_eq, delete}
use kirin.Model.{NavStop, NavVj, get_stop_id, get_stop_times, StopTimeUpdate, TripUpdate, find_stop}
use kirin.Merge.StopTimes.{make_stop_time_update}
use kirin.Merge.Stops.{yield_next_stop_from_base_schedule_vj}
use kirin.Merge.Loop.{
  choose_stop_time, stop_point_of, merge_stop, merge_stops, MergeState, start_state, merge,
  take_header, yielded, base_stop_time_update, run_loop, result_object, merge-finish,
  finish_returned,
}
use kirin.Merge.Times.{make_stop_time_update-Made}
use kirin.Merge.Chain.{merge_stop-Round}
use kirin.Consistency.{manage_consistency}
use kirin.Consistency.Sequence.{InSequence, HasTime, manage_consistency_iff}

-- Where nothing is recorded, the stop that is kept has the order of the round.
choose_stop_time-order :
    (new_st : Option StopTimeUpdate) (st : NavStop) (order : ℕ) (ba bd last : Option ℤ)
    (has_changes : Bool) (kept : StopTimeUpdate × Bool)
    → choose_stop_time none new_st st order ba bd last has_changes ≡ ok kept
    → kept.0.order ≡ some order
unfolding choose_stop_time base_stop_time_update
choose_stop_time-order none st order ba bd last has_changes kept h =
    let (sp, p, h1) = >>=-eq-ok (stop_point_of st) _ h in ground arith
choose_stop_time-order (some new_st) st order ba bd last has_changes kept h =
    let (sp, p, h1) = >>=-eq-ok (stop_point_of st) _ h in
    let (made, e, h2) = >>=-eq-ok (make_stop_time_update ba bd last new_st sp order) _ h1 in
    let m = make_stop_time_update-Made ba bd last new_st sp order made e in
    let q : record made { message = new_st.message } ≡ kept.0 = ground arith in
    subst (λ (k : StopTimeUpdate). k.order ≡ some order) q m.order_kept

abbrev orders : List StopTimeUpdate → List (Option ℕ)
orders = map (λ st. st.order)

merge_stops-orders :
    (new_tu : TripUpdate) (stops : List (ℕ × NavStop)) (s s' : MergeState)
    → merge_stops none new_tu stops s ≡ ok s'
    → orders s'.res_stoptime_updates
      ≡ orders s.res_stoptime_updates ++ map (λ (p : ℕ × NavStop). some p.0) stops
unfolding merge_stops
merge_stops-orders new_tu [] s s' h = ground (arith, append-nil (orders s.res_stoptime_updates))
merge_stops-orders new_tu ((order, st) ∷ rest) s s' h =
    let (m, e, h') = >>=-eq-ok (merge_stop none new_tu (order, st) s) _ h in
    let r = merge_stop-Round none new_tu order st s m e in
    let c =
      choose_stop_time-order (find_stop new_tu (get_stop_id st) (some order)) st order
        r.base_arrival r.base_departure s.last_departure s.has_changes _ r.chosen in
    let ih = merge_stops-orders new_tu rest m s' h' in
    ih ∙ rw (r.appended, map-append, append_assoc, c)

InSequence-orders :
    (i : ℕ) (l : List StopTimeUpdate) (stops : List NavStop)
    → orders l ≡ map (λ (p : ℕ × NavStop). some p.0) (enumerate i stops)
    → InSequence i l
unfolding enumerate
InSequence-orders i [] stops h = tt
InSequence-orders i (x ∷ l) [] h = cc
InSequence-orders i (x ∷ l) (st ∷ stops) h = (cc, InSequence-orders (i + 1) l stops cc)

-- Where nothing is recorded, a differential update that does not cancel the trip and that `merge`
-- returns has its stops numbered from 0 on.
merge_base_new-InSequence :
    (vj : NavVj) (new_tu : TripUpdate)
    → (new_tu.status == delete) ≡ false
    → (merge vj none new_tu false).reply ≡ ok true
    → InSequence 0 (merge vj none new_tu false).res.stop_time_updates
unfolding run_loop yielded yield_next_stop_from_base_schedule_vj start_state
merge_base_new-InSequence vj new_tu d h =
    let res = take_header (result_object none new_tu) new_tu false in
    let e = merge-finish vj none new_tu false d in
    let (s, r, _, q) = finish_returned res (run_loop vj none new_tu false) (rw e at h) in
    rw (e, q)
      (InSequence-orders 0 s.res_stoptime_updates (get_stop_times vj)
        (merge_stops-orders new_tu (enumerate 0 (get_stop_times vj)) (start_state new_tu) s r))

-- Where nothing is recorded, a differential update that does not cancel the trip and that `merge`
-- returns with a time at each stop is accepted by `manage_consistency`.
pub merge_base_new-accepted :
    (vj : NavVj) (new_tu : TripUpdate)
    → (new_tu.status == delete) ≡ false
    → (merge vj none new_tu false).reply ≡ ok true
    → All HasTime (merge vj none new_tu false).res.stop_time_updates
    → (manage_consistency (merge vj none new_tu false).res).1 ≡ true
merge_base_new-accepted vj new_tu d h t =
    (manage_consistency_iff (merge vj none new_tu false).res t).1
      (merge_base_new-InSequence vj new_tu d h)
