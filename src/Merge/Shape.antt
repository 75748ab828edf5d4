-- ===== src/Merge/Shape.antt =====
-- Which stops `merge` (kirin/core/merge_utils.py) lists for a differential feed, and that it then
-- raises nothing.
use kirin.Prelude.{
  some_of_is_some, Returns, Returns-bind, ℕ, ◌+◌, String, ℤ, Option, none, some, List, [], ◌∷◌,
  ◌++◌, map, Bool, true, false, ◌||◌, ◌==◌, string_eq, option_eq, ◌≡◌, refl, sym, ap, ◌∙◌, is_some,
  ok, arith, Bool-cases, Option-cases, inl, inr, All, ◌>>=◌, >>=-eq-ok, enumerate,
}
use mathlib.Core.Path.{subst}
use mathlib.Core.List.{append_assoc, append-nil, map-append}
use kirin.Types.{status_eq, delete}
use kirin.Model.{
  StopPoint, NavStop, NavVj, get_stop_id, get_stop_times, StopTimeUpdate, TripUpdate, find_stop,
  is_not_equal, new_stop_time_update,
}
use kirin.Model.Columns.{is_not_equal-SameColumns}
use kirin.Model.Finding.{stop_id-find_stop, find_stop-All}
use kirin.Merge.StopTimes.{make_stop_time_update}
use kirin.Merge.Stops.{yield_next_stop_from_base_schedule_vj}
use kirin.Merge.Loop.{
  choose_stop_time, update_recorded, stop_point_of, merge_stop, merge_stops, MergeState,
  start_state, merge, take_header, finish, yielded, base_stop_time_update, run_loop, result_object,
  merge-finish, finish_returned,
}
use kirin.Merge.Times.{make_stop_time_update-Made, HasDelays, make_stop_time_update_total}
use kirin.Merge.Chain.{merge_stop-Round}

abbrev Serves : NavStop → StopTimeUpdate → Type 0
Serves st stu = some stu.stop_id ≡ get_stop_id st

get_stop_id-stop_point_of :
    (st : NavStop) (sp : StopPoint) → stop_point_of st ≡ ok sp → get_stop_id st ≡ some sp.id
unfolding stop_point_of get_stop_id
get_stop_id-stop_point_of st sp h = ground arith

made-Serves :
    (st : NavStop) (sp : StopPoint) (ba bd last : Option ℤ) (new_st : StopTimeUpdate) (order : ℕ)
    (made : StopTimeUpdate)
    → stop_point_of st ≡ ok sp
    → make_stop_time_update ba bd last new_st sp order ≡ ok made
    → Serves st made
made-Serves st sp ba bd last new_st order made h k =
    let m = make_stop_time_update-Made ba bd last new_st sp order made k in
    ap some m.stop_id ∙ sym (get_stop_id-stop_point_of st sp h)

update_recorded-Serves :
    (st : NavStop) (db_st : Option StopTimeUpdate) (made : StopTimeUpdate) (has_changes : Bool)
    → Serves st made
    → Serves st (update_recorded db_st made has_changes).0
unfolding update_recorded
update_recorded-Serves st none made has_changes h = h
update_recorded-Serves st (some db_st) made has_changes h =
    elim (Bool-cases (has_changes || is_not_equal db_st made)) [
      | inl e ↦ rw e h
      | inr e ↦
          let same = is_not_equal-SameColumns db_st made (ground arith) in
          rw e (ap some same.stop_id ∙ h)
    ]

base-Serves :
    (st : NavStop) (ba bd : Option ℤ) (order : ℕ) (kept : StopTimeUpdate × Bool)
    → (stop_point_of st >>= λ sp. ok (base_stop_time_update sp bd ba order, true)) ≡ ok kept
    → Serves st kept.0
unfolding base_stop_time_update new_stop_time_update
base-Serves st ba bd order kept h =
    let (sp, e, q) = >>=-eq-ok (stop_point_of st) _ h in
    let p = get_stop_id-stop_point_of st sp e in ground arith

-- Whichever case of the loop is taken, the stop that is kept is the one gone through.
choose_stop_time-Serves :
    (db_tu : Option TripUpdate) (new_st : Option StopTimeUpdate) (st : NavStop) (order : ℕ)
    (ba bd last : Option ℤ) (has_changes : Bool) (kept : StopTimeUpdate × Bool)
    → choose_stop_time db_tu new_st st order ba bd last has_changes ≡ ok kept
    → Serves st kept.0
unfolding choose_stop_time
choose_stop_time-Serves none none st order ba bd last has_changes kept h =
    base-Serves st ba bd order kept h
choose_stop_time-Serves none (some new_st) st order ba bd last has_changes kept h =
    let (sp, p, h1) = >>=-eq-ok (stop_point_of st) _ h in
    let (made, e, h2) = >>=-eq-ok (make_stop_time_update ba bd last new_st sp order) _ h1 in
    let f = made-Serves st sp ba bd last new_st order made p e in
    let q : record made { message = new_st.message } ≡ kept.0 = ground arith in
    subst (Serves st) q f
choose_stop_time-Serves (some db) (some new_st) st order ba bd last has_changes kept h =
    let (sp, p, h1) = >>=-eq-ok (stop_point_of st) _ h in
    let (made, e, h2) = >>=-eq-ok (make_stop_time_update ba bd last new_st sp order) _ h1 in
    let f = made-Serves st sp ba bd last new_st order made p e in
    let r = find_stop db (get_stop_id st) (some order) in
    let q : update_recorded r made has_changes ≡ kept = ground arith in
    subst (λ (k : StopTimeUpdate × Bool). Serves st k.0) q
      (update_recorded-Serves st r made has_changes f)
choose_stop_time-Serves (some db) none st order ba bd last has_changes kept h =
    elim (Option-cases (find_stop db (get_stop_id st) (some order))) [
      | inl e ↦ base-Serves st ba bd order kept (rw (e, choose_stop_time) at h)
      | inr (x, e) ↦
          let q : x ≡ kept.0 = ground arith in
          subst (Serves st) q (stop_id-find_stop db (get_stop_id st) (some order) x e)
    ]

abbrev ids : List StopTimeUpdate → List (Option String)
ids = map (λ st. some st.stop_id)

merge_stops-ids :
    (db_tu : Option TripUpdate) (new_tu : TripUpdate) (stops : List (ℕ × NavStop))
    (s s' : MergeState)
    → merge_stops db_tu new_tu stops s ≡ ok s'
    → ids s'.res_stoptime_updates
      ≡ ids s.res_stoptime_updates ++ map (λ (p : ℕ × NavStop). get_stop_id p.1) stops
unfolding merge_stops
merge_stops-ids db_tu new_tu [] s s' h = ground (arith, append-nil (ids s.res_stoptime_updates))
merge_stops-ids db_tu new_tu ((order, st) ∷ rest) s s' h =
    let (m, e, h') = >>=-eq-ok (merge_stop db_tu new_tu (order, st) s) _ h in
    let r = merge_stop-Round db_tu new_tu order st s m e in
    let c =
      choose_stop_time-Serves db_tu (find_stop new_tu (get_stop_id st) (some order)) st order
        r.base_arrival r.base_departure s.last_departure s.has_changes _ r.chosen in
    let ih = merge_stops-ids db_tu new_tu rest m s' h' in
    ih ∙ rw (r.appended, map-append, append_assoc, c)

map-enumerate :
    (i : ℕ) (l : List NavStop)
    → map (λ (p : ℕ × NavStop). get_stop_id p.1) (enumerate i l) ≡ map get_stop_id l
unfolding enumerate
map-enumerate i [] = refl
map-enumerate i (x ∷ xs) = rw (map-enumerate (i + 1) xs)

run_loop-ids :
    (vj : NavVj) (db_tu : Option TripUpdate) (new_tu : TripUpdate) (s : MergeState)
    → run_loop vj db_tu new_tu false ≡ ok s
    → ids s.res_stoptime_updates ≡ map get_stop_id (get_stop_times vj)
unfolding run_loop yielded yield_next_stop_from_base_schedule_vj start_state
run_loop-ids vj db_tu new_tu s h =
    merge_stops-ids db_tu new_tu (enumerate 0 (get_stop_times vj)) (start_state new_tu) s h
    ∙ map-enumerate 0 (get_stop_times vj)

-- A differential update that does not cancel the trip, if `merge` returns it, lists exactly the
-- stops of the base schedule, in its order, also where a stop comes several times.
pub merge_base_ids :
    (vj : NavVj) (db_tu : Option TripUpdate) (new_tu : TripUpdate)
    → (new_tu.status == delete) ≡ false
    → (merge vj db_tu new_tu false).reply ≡ ok true
    → map (λ st. some st.stop_id) (merge vj db_tu new_tu false).res.stop_time_updates
      ≡ map get_stop_id (get_stop_times vj)
merge_base_ids vj db_tu new_tu d h =
    let res = take_header (result_object db_tu new_tu) new_tu false in
    let run = run_loop vj db_tu new_tu false in
    let e = merge-finish vj db_tu new_tu false d in
    let (s, r, _, q) = finish_returned res run (rw e at h) in
    rw (e, q) (run_loop-ids vj db_tu new_tu s r)

stop_point_of_total :
    (st : NavStop) → is_some st.stop_point ≡ true → (sp : StopPoint) × (stop_point_of st ≡ ok sp)
unfolding stop_point_of
stop_point_of_total st h =
    let (sp, e) = some_of_is_some st.stop_point h in (sp, rw (e, stop_point_of))

abbrev OptionAll : (StopTimeUpdate → Type 0) → Option StopTimeUpdate → Type 0
OptionAll P none = Unit
OptionAll P (some x) = P x

choose_stop_time_total :
    (db_tu : Option TripUpdate) (new_st : Option StopTimeUpdate) (st : NavStop) (order : ℕ)
    (ba bd last : Option ℤ) (has_changes : Bool)
    → is_some st.stop_point ≡ true
    → OptionAll HasDelays new_st
    → Returns (choose_stop_time db_tu new_st st order ba bd last has_changes)
unfolding choose_stop_time
choose_stop_time_total none none st order ba bd last has_changes h d =
    Returns-bind _ _ (stop_point_of_total st h) (λ sp. (_, refl))
choose_stop_time_total none (some new_st) st order ba bd last has_changes h d =
    Returns-bind _ _ (stop_point_of_total st h) (λ sp.
      let (r, e, _, _) = make_stop_time_update_total ba bd last new_st sp order d in
      Returns-bind _ _ (r, e) (λ made. (_, refl)))
choose_stop_time_total (some db) (some new_st) st order ba bd last has_changes h d =
    Returns-bind _ _ (stop_point_of_total st h) (λ sp.
      let (r, e, _, _) = make_stop_time_update_total ba bd last new_st sp order d in
      Returns-bind _ _ (r, e) (λ made. (_, refl)))
choose_stop_time_total (some db) none st order ba bd last has_changes h d =
    elim (Option-cases (find_stop db (get_stop_id st) (some order))) [
      | inl e ↦
          rw (e, choose_stop_time) (Returns-bind _ _ (stop_point_of_total st h) (λ sp. (_, refl)))
      | inr (x, e) ↦ ((x, has_changes), rw (e, choose_stop_time))
    ]

find_stop-OptionAll :
    (new_tu : TripUpdate) (stop_id : Option String) (order : ℕ)
    → All HasDelays new_tu.stop_time_updates
    → OptionAll HasDelays (find_stop new_tu stop_id (some order))
find_stop-OptionAll new_tu stop_id order a =
    elim (Option-cases (find_stop new_tu stop_id (some order))) [
      | inl e ↦ rw e tt
      | inr (x, e) ↦ rw e (find_stop-All HasDelays new_tu stop_id (some order) x a e)
    ]

merge_stops_total :
    (db_tu : Option TripUpdate) (new_tu : TripUpdate) (stops : List (ℕ × NavStop)) (s : MergeState)
    → All HasDelays new_tu.stop_time_updates
    → All (λ (p : ℕ × NavStop). is_some p.1.stop_point ≡ true) stops
    → Returns (merge_stops db_tu new_tu stops s)
unfolding merge_stops merge_stop
merge_stops_total db_tu new_tu [] s a p = (s, refl)
merge_stops_total db_tu new_tu ((order, st) ∷ rest) s a (p, ps) =
    Returns-bind _ _
      (Returns-bind _ _
        (choose_stop_time_total db_tu (find_stop new_tu (get_stop_id st) (some order)) st order _ _
          _ _ p (find_stop-OptionAll new_tu (get_stop_id st) order a))
        (λ kept. (_, refl)))
      (λ s'. merge_stops_total db_tu new_tu rest s' a ps)

All-enumerate :
    (P : NavStop → Type 0) (i : ℕ) (l : List NavStop)
    → All P l
    → All (λ (p : ℕ × NavStop). P p.1) (enumerate i l)
unfolding enumerate
All-enumerate P i [] h = tt
All-enumerate P i (x ∷ xs) h = (h.0, All-enumerate P (i + 1) xs h.1)

-- A differential update raises nothing, where the base schedule has a stop point at every stop and
-- every updated event of the feed has its delay.
pub merge_base_total :
    (vj : NavVj) (db_tu : Option TripUpdate) (new_tu : TripUpdate)
    → All (λ st. is_some st.stop_point ≡ true) (get_stop_times vj)
    → All HasDelays new_tu.stop_time_updates
    → (returned : Bool) × ((merge vj db_tu new_tu false).reply ≡ ok returned)
unfolding merge finish run_loop yielded yield_next_stop_from_base_schedule_vj
merge_base_total vj db_tu new_tu p a =
    let (s, e) =
      merge_stops_total db_tu new_tu (enumerate 0 (get_stop_times vj)) (start_state new_tu) a
        (All-enumerate (λ st. is_some st.stop_point ≡ true) 0 (get_stop_times vj) p) in
    elim (Bool-cases (new_tu.status == delete)) [
      | inl c ↦ (true, rw c)
      | inr c ↦ (s.has_changes, rw (c, e) (ground arith))
    ]
