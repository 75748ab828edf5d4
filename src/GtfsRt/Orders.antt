-- ===== src/GtfsRt/Orders.antt =====
-- The stop times of a trip update built from a GTFS-RT feed (kirin/gtfs_rt/model_maker.py:
-- `_make_trip_updates`): their orders and stops.
use kirin.Prelude.{
  ℕ, ◌+◌, ◌-◌, String, Option, none, some, List, [], ◌∷◌, ◌++◌, reverse, map, false, length,
  length-append, length-reverse, map-reverse, leb, ◌≡◌, refl, ap, ◌∙◌, arith, Option-cases, inl,
  inr,
}
use mathlib.Core.List.{append_assoc, append-nil, map-append, reverse-cons, reverse-reverse}
use kirin.Types.{unchanged}
use kirin.Model.{
  NavStop, get_stop_id, get_stop_times, StopTimeUpdate, new_stop_time_update, VehicleJourney,
  TripUpdate,
}
use kirin.Consistency.Sequence.{InSequence}
use kirin.GtfsRt.{
  FeedStop, FeedTrip, match_stop, Matched, add_stop, match_stops, insert_by_order, sort_by_order,
  make_trip_update, sort_key,
}

-- The stop times count down to 0 and serve the stops of the list.
abbrev CountsDown : List NavStop → List StopTimeUpdate → Type 0
CountsDown [] [] = Unit
CountsDown [] (x ∷ xs) = ⊥
CountsDown (v ∷ vs) [] = ⊥
CountsDown (v ∷ vs) (x ∷ xs) =
    (x.order ≡ some (length vs)) × (some x.stop_id ≡ get_stop_id v) × CountsDown vs xs

match_stop_result :
    (v : NavStop) (t : Option FeedStop) (order : ℕ) (st : StopTimeUpdate)
    → match_stop v t order ≡ some st
    → (st.order ≡ some order) × (some st.stop_id ≡ get_stop_id v)
unfolding match_stop new_stop_time_update get_stop_id
match_stop_result v t order st h = ground arith

match_stops-CountsDown :
    (vs : List NavStop) (ts : List FeedStop) (order : ℕ) (m m' : Matched)
    → order ≡ length vs - 1
    → match_stops vs ts order m ≡ some m'
    → (l : List StopTimeUpdate) × (m'.stop_time_updates ≡ m.stop_time_updates ++ l)
      × CountsDown vs l
unfolding match_stops add_stop
match_stops-CountsDown [] [] order m m' o h =
    ([], ground (arith, append-nil m.stop_time_updates), tt)
match_stops-CountsDown [] (t ∷ ts) order m m' o h = cc
match_stops-CountsDown (v ∷ vs) [] order m m' o h = elim (Option-cases (match_stop v none order)) [
  | inl e ↦ ground arith
  | inr (st, e) ↦
      let (a, b) = match_stop_result v none order st e in
      let (l, q, c) =
        match_stops-CountsDown vs [] (order - 1) (add_stop st m) m' (omega arith) (ground arith) in
      (st ∷ l, q ∙ append_assoc m.stop_time_updates (st ∷ []) l, (a ∙ ap some (omega arith), b, c))
]
match_stops-CountsDown (v ∷ vs) (t ∷ ts) order m m' o h =
    elim (Option-cases (match_stop v (some t) order)) [
      | inl e ↦ ground arith
      | inr (st, e) ↦
          let (a, b) = match_stop_result v (some t) order st e in
          let (l, q, c) =
            match_stops-CountsDown vs ts (order - 1) (add_stop st m) m' (omega arith)
              (ground arith) in
          (
            st ∷ l,
            q ∙ append_assoc m.stop_time_updates (st ∷ []) l,
            (a ∙ ap some (omega arith), b, c),
          )
    ]

-- A stop time with the next order goes to the end.
insert-InSequence :
    (i : ℕ) (x : StopTimeUpdate) (l : List StopTimeUpdate)
    → InSequence i l
    → x.order ≡ some (i + length l)
    → (insert_by_order x l ≡ l ++ x ∷ []) × InSequence i (l ++ x ∷ [])
unfolding insert_by_order
insert-InSequence i x [] s o = (refl, (o ∙ ap some (omega arith), tt))
insert-InSequence i x (y ∷ ys) (h, s) o =
    let (e, s') = insert-InSequence (i + 1) x ys s (o ∙ ap some (omega arith)) in
    let b : leb (sort_key x) (sort_key y) ≡ false = rw (o, h) (ground arith) in
    (rw b (ap (λ (r : List StopTimeUpdate). y ∷ r) e), (h, s'))

sort-CountsDown :
    (vs : List NavStop) (l : List StopTimeUpdate)
    → CountsDown vs l
    → InSequence 0 (sort_by_order l)
      × (length (sort_by_order l) ≡ length vs)
      × (map (λ (st : StopTimeUpdate). some st.stop_id) (sort_by_order l)
          ≡ reverse (map get_stop_id vs))
unfolding sort_by_order
sort-CountsDown [] [] c = (tt, refl, refl)
sort-CountsDown [] (x ∷ xs) c = elim c [ ]
sort-CountsDown (v ∷ vs) [] c = elim c [ ]
sort-CountsDown (v ∷ vs) (x ∷ xs) (o, i, c) =
    let (s, n, m) = sort-CountsDown vs xs c in
    let (e, s') = insert-InSequence 0 x (sort_by_order xs) s (o ∙ ap some (omega arith)) in
    (
      rw e s',
      rw e (omega (arith, length-append (sort_by_order xs) (x ∷ []))),
      rw (e, map-append, m, i, reverse-cons (get_stop_id v) (map get_stop_id vs)),
    )

-- A trip update that is built lists the stops of the base schedule, all and in order, numbered from 0
-- on.
pub make_trip_update_orders :
    (contributor_id : String) (trip : FeedTrip) (vj : VehicleJourney) (tu : TripUpdate)
    → make_trip_update contributor_id trip vj ≡ some tu
    → InSequence 0 tu.stop_time_updates
      × (map (λ st. some st.stop_id) tu.stop_time_updates
          ≡ map get_stop_id (get_stop_times vj.navitia_vj))
unfolding make_trip_update
make_trip_update_orders contributor_id trip vj tu h =
    let vs = get_stop_times vj.navitia_vj in
    let start : Matched = record { stop_time_updates = []; highest_st_status = unchanged } in
    elim (Option-cases
      (match_stops (reverse vs) (reverse trip.stop_time_update) (length vs - 1) start)) [
        | inl e ↦ ground arith
        | inr (m, e) ↦
            let (l, q, c) =
              match_stops-CountsDown (reverse vs) (reverse trip.stop_time_update) (length vs - 1)
                start m (rw (length-reverse vs)) e in
            let (s, _, i) = sort-CountsDown (reverse vs) l c in
            let t : sort_by_order m.stop_time_updates ≡ tu.stop_time_updates = ground arith in
            rw (← t, q)
              (
                s,
                i ∙ ap reverse (map-reverse get_stop_id vs) ∙ reverse-reverse (map get_stop_id vs),
              )
      ]
