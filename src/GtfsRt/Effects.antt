-- ===== src/GtfsRt/Effects.antt =====
-- The effect of a trip update built from a GTFS-RT feed (kirin/gtfs_rt/model_maker.py).
use kirin.Prelude.{
  ℕ, ◌-◌, pos, String, none, some, List, [], ◌∷◌, reverse, Bool, true, false, not, ◌||◌, ◌==◌,
  int_eq, length, if◌then◌else◌, exists, exists-reverse, ◌≡◌, refl, ap, ◌∙◌, arith, Option-cases,
  inl, inr,
}
use kirin.Types.{
  ModificationType, unchanged, update, get_higher_status, significant_delays, unknown_effect,
  get_effect_by_stop_time_status,
}
use kirin.Model.{
  NavStop, get_stop_times, StopTimeUpdate, VehicleJourney, TripUpdate, new_stop_time_update,
}
use kirin.GtfsRt.{FeedStop, FeedTrip, match_stop, Matched, add_stop, match_stops, make_trip_update}

-- The feed tells of a delay at this stop.
abbrev pub is_delayed : FeedStop → Bool
is_delayed t = not (t.arrival_delay == pos 0) || not (t.departure_delay == pos 0)

abbrev status_if : Bool → ModificationType
status_if delayed = if delayed then update else unchanged

higher_status_if : (a b : Bool) → get_higher_status (status_if a) (status_if b) ≡ status_if (a || b)
unfolding get_higher_status
higher_status_if true true = refl
higher_status_if true false = refl
higher_status_if false true = refl
higher_status_if false false = refl

match_stop_statuses :
    (v : NavStop) (t : FeedStop) (order : ℕ) (st : StopTimeUpdate)
    → match_stop v (some t) order ≡ some st
    → (st.departure_status ≡ status_if (not (t.departure_delay == pos 0)))
      × (st.arrival_status ≡ status_if (not (t.arrival_delay == pos 0)))
unfolding match_stop new_stop_time_update
match_stop_statuses v t order st h = (ground arith, ground arith)

raise_status :
    (v : NavStop) (t : FeedStop) (order : ℕ) (st : StopTimeUpdate) (delayed : Bool) (m : Matched)
    → match_stop v (some t) order ≡ some st
    → m.highest_st_status ≡ status_if delayed
    → (add_stop st m).highest_st_status ≡ status_if (delayed || is_delayed t)
unfolding add_stop
raise_status v t order st delayed m h e =
    let (d, a) = match_stop_statuses v t order st h in
    let dep = not (t.departure_delay == pos 0) in
    let arr = not (t.arrival_delay == pos 0) in
    rw (e, d, a, higher_status_if delayed dep, higher_status_if (delayed || dep) arr)
      (ap status_if (or_swap delayed dep arr))
  where
    or_swap : (x y z : Bool) → ((x || y) || z) ≡ (x || (z || y))
    or_swap true y z = refl
    or_swap false true true = refl
    or_swap false true false = refl
    or_swap false false true = refl
    or_swap false false false = refl

keep_status :
    (v : NavStop) (order : ℕ) (st : StopTimeUpdate) (delayed : Bool) (m : Matched)
    → match_stop v none order ≡ some st
    → m.highest_st_status ≡ status_if delayed
    → (add_stop st m).highest_st_status ≡ status_if delayed
unfolding match_stop add_stop get_higher_status new_stop_time_update
keep_status v order st delayed m h e = ground arith

match_stops-status :
    (vs : List NavStop) (ts : List FeedStop) (order : ℕ) (m m' : Matched) (delayed : Bool)
    → m.highest_st_status ≡ status_if delayed
    → match_stops vs ts order m ≡ some m'
    → m'.highest_st_status ≡ status_if (delayed || exists is_delayed ts)
unfolding match_stops exists
match_stops-status [] [] order m m' delayed e h = ground arith
match_stops-status [] (t ∷ ts) order m m' delayed e h = cc
match_stops-status (v ∷ vs) [] order m m' delayed e h =
    elim (Option-cases (match_stop v none order)) [
      | inl n ↦ ground arith
      | inr (st, n) ↦
          match_stops-status vs [] (order - 1) (add_stop st m) m' delayed
            (keep_status v order st delayed m n e) (ground arith)
    ]
match_stops-status (v ∷ vs) (t ∷ ts) order m m' delayed e h =
    elim (Option-cases (match_stop v (some t) order)) [
      | inl n ↦ ground arith
      | inr (st, n) ↦
          let ih =
            match_stops-status vs ts (order - 1) (add_stop st m) m' (delayed || is_delayed t)
              (raise_status v t order st delayed m n e) (ground arith) in
          ih ∙ ap status_if (or_if delayed (is_delayed t) (exists is_delayed ts))
    ]
  where
    or_if : (x y z : Bool) → ((x || y) || z) ≡ (x || (if y then true else z))
    or_if true y z = refl
    or_if false true z = refl
    or_if false false z = refl

effect_of :
    (m : Matched) (delayed : Bool)
    → m.highest_st_status ≡ status_if delayed
    → some (get_effect_by_stop_time_status m.highest_st_status)
      ≡ some (if delayed then significant_delays else unknown_effect)
unfolding get_effect_by_stop_time_status
effect_of m true h = rw h
effect_of m false h = rw h

-- The effect of a trip update that is built is a delay exactly if the feed has a non-zero delay at
-- one of its stops, and is unknown otherwise.
pub make_trip_update_effect :
    (contributor_id : String) (trip : FeedTrip) (vj : VehicleJourney) (tu : TripUpdate)
    → make_trip_update contributor_id trip vj ≡ some tu
    → tu.effect
      ≡ some
          (if exists is_delayed trip.stop_time_update then significant_delays else unknown_effect)
unfolding make_trip_update get_effect_by_stop_time_status
make_trip_update_effect contributor_id trip vj tu h =
    let vs = get_stop_times vj.navitia_vj in
    let ts = trip.stop_time_update in
    let start : Matched = record { stop_time_updates = []; highest_st_status = unchanged } in
    elim (Option-cases (match_stops (reverse vs) (reverse ts) (length vs - 1) start)) [
      | inl e ↦ ground arith
      | inr (m, e) ↦
          let s =
            match_stops-status (reverse vs) (reverse ts) (length vs - 1) start m false refl e in
          let r = exists-reverse is_delayed ts in
          let q : tu.effect ≡ some (get_effect_by_stop_time_status m.highest_st_status) =
            ground arith in
          q ∙ effect_of m (exists is_delayed ts) (s ∙ ap status_if r)
    ]
