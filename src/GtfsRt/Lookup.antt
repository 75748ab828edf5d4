-- ===== src/GtfsRt/Lookup.antt =====
-- The circulations that a GTFS-RT trip can stand for (kirin/gtfs_rt/model_maker.py:
-- `_get_navitia_vjs` and `_make_db_vj`).
use kirin.Prelude.{
  ◌*◌, ◌≤◌, ℤ, pos, negsuc, ◌+ℤ◌, ◌-ℤ◌, ◌*ℤ◌, ◌≤ℤ◌, ◌<ℤ◌, int_laws, floor_div, arith, none, List,
  [], ◌∷◌, inl, inr, Result-cases, String, All, All-map, length,
}
use kirin.Model.{second, NavVj, VehicleJourney, new_vehicle_journey}
use kirin.Model.Start.{IsWithin, new_vehicle_journey-IsWithin}
use kirin.GtfsRt.{
  VehicleJourneys, floor_datetime, hour, period_filter_tolerance, only_circulation, make_db_vj,
  get_navitia_vjs,
}

only_circulation-IsWithin :
    (found : List NavVj) (since_dt until_dt : ℤ)
    → All
        (λ (vj : VehicleJourney). IsWithin since_dt until_dt vj.start_timestamp)
        (only_circulation found since_dt until_dt)
      × (length (only_circulation found since_dt until_dt) ≤ 1)
unfolding only_circulation
only_circulation-IsWithin [] since_dt until_dt = (tt, ground arith)
only_circulation-IsWithin (nav_vj ∷ other ∷ rest) since_dt until_dt = (tt, ground arith)
only_circulation-IsWithin (nav_vj ∷ []) since_dt until_dt =
    elim (Result-cases (new_vehicle_journey nav_vj since_dt until_dt none)) [
      | inl (vj, e) ↦
          rw (e, All, length)
            ((new_vehicle_journey-IsWithin nav_vj since_dt until_dt vj e, tt), ground arith)
      | inr (x, e) ↦ rw (e, All, length) (tt, ground arith)
    ]

floor_datetime_bounds : (dt : ℤ) → (floor_datetime dt ≤ℤ dt) × (dt <ℤ floor_datetime dt +ℤ hour)
unfolding floor_datetime floor_div ◌*ℤ◌
floor_datetime_bounds (pos n) = grind int_laws
floor_datetime_bounds (negsuc n) = grind int_laws

near :
    (data_time start : ℤ)
    → IsWithin
        (floor_datetime (data_time -ℤ period_filter_tolerance))
        (floor_datetime (data_time +ℤ period_filter_tolerance +ℤ hour))
        start
    → (data_time <ℤ start +ℤ pos (4 * (3600 * second)))
      × (start ≤ℤ data_time +ℤ pos (4 * (3600 * second)))
near data_time start h =
    let a = floor_datetime_bounds (data_time -ℤ period_filter_tolerance) in
    let b = floor_datetime_bounds (data_time +ℤ period_filter_tolerance +ℤ hour) in omega int_laws

-- A circulation that the feed's trip stands for starts less than four hours before the time of the
-- feed, and at most four hours after it; there is at most one, whatever navitia answers.
pub get_navitia_vjs_near :
    (navitia : VehicleJourneys) (trip_id : String) (data_time : ℤ)
    → All
        (λ (vj : VehicleJourney).
          (data_time <ℤ vj.start_timestamp +ℤ pos (4 * (3600 * second)))
          × (vj.start_timestamp ≤ℤ data_time +ℤ pos (4 * (3600 * second))))
        (get_navitia_vjs navitia trip_id data_time)
      × (length (get_navitia_vjs navitia trip_id data_time) ≤ 1)
unfolding get_navitia_vjs make_db_vj
get_navitia_vjs_near navitia trip_id data_time =
    let since_dt = floor_datetime (data_time -ℤ period_filter_tolerance) in
    let until_dt = floor_datetime (data_time +ℤ period_filter_tolerance +ℤ hour) in
    let (w, n) = only_circulation-IsWithin (navitia trip_id since_dt until_dt) since_dt until_dt in
    (
      All-map
          (λ vj (h : IsWithin since_dt until_dt vj.start_timestamp).
            near data_time vj.start_timestamp h)
          (get_navitia_vjs navitia trip_id data_time) w,
      n,
    )
