-- ===== src/Examples/Building.antt =====
-- Runs of the GTFS-RT builder.
use kirin.Prelude.{
  ◌*◌, ◌+◌, ℤ, pos, none, some, [], ◌∷◌, map, length, is_some, ◌≡◌, ◌↔◌, refl, true, find_first,
  ◌*ℤ◌,
}
use kirin.Types.{
  unchanged, significant_delays, get_higher_status, get_effect_by_stop_time_status,
  get_modification_type_order,
}
use kirin.Model.{
  day, get_stop_id, get_stop_times, StopTimeUpdate, TripUpdate, new_trip_update,
  new_stop_time_update,
}
use kirin.Consistency.Sequence.{InSequence}
use kirin.GtfsRt.{
  FeedTrip, VehicleJourneys, make_trip_update, match_stops, match_stop, add_stop, init_stop_update,
  make_stoptime_update, read_delay, delay_status, get_stop_code, sort_by_order, insert_by_order,
}
use kirin.GtfsRt.Orders.{make_trip_update_orders}
use kirin.GtfsRt.Suffix.{IsEnding, make_trip_update_iff}
use kirin.Examples.{minute, stop_point_a, stop_point_b, night, night_vj, delayed_stop, silent}

-- Two minutes late on leaving the last stop.
abbrev feed_trip : FeedTrip
feed_trip = record {
  trip_id = "night";
  stop_time_update =
      record { stop_id = "B"; arrival_delay = pos 0; departure_delay = pos 120 } ∷ [];
}

abbrev built_trip : TripUpdate
built_trip = record silent {
  effect = some significant_delays;
  stop_time_updates =
      record (delayed_stop stop_point_a 0 (pos 0)) {
        arrival_delay = none;
        arrival_status = unchanged;
        departure_delay = none;
        departure_status = unchanged;
      }
      ∷ record (delayed_stop stop_point_b 1 (pos (2 * minute))) {
        arrival_delay = none;
        arrival_status = unchanged;
      }
      ∷ [];
}

built : make_trip_update "realtime.night" feed_trip night ≡ some built_trip
unfolding make_trip_update match_stops match_stop add_stop init_stop_update make_stoptime_update
    read_delay delay_status get_stop_code sort_by_order insert_by_order get_higher_status
    get_effect_by_stop_time_status get_modification_type_order new_trip_update new_stop_time_update
    get_stop_times find_first ◌*ℤ◌ length
built = refl

make_trip_update_orders_example :
    InSequence 0 built_trip.stop_time_updates
    × (map (λ (st : StopTimeUpdate). some st.stop_id) built_trip.stop_time_updates
        ≡ map get_stop_id (get_stop_times night.navitia_vj))
make_trip_update_orders_example =
    make_trip_update_orders "realtime.night" feed_trip night built_trip built

make_trip_update_iff_example :
    (is_some (make_trip_update "realtime.night" feed_trip night) ≡ true)
    ↔ IsEnding (get_stop_times night.navitia_vj) feed_trip.stop_time_update
make_trip_update_iff_example = make_trip_update_iff "realtime.night" feed_trip night

abbrev only_night : VehicleJourneys
only_night code since_dt until_dt = night_vj ∷ []

abbrev eleven_pm : ℤ
eleven_pm = pos (19000 * day + 1380 * minute)
