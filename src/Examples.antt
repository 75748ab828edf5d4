-- ===== src/Examples.antt =====
-- Concrete runs: the data that they share is here, the runs stand in the modules below.
mod Merging
mod Adjusting
mod Publishing
mod Building
mod Recording
mod Polled
mod Trains
mod Courses
mod Contributing
mod Cleaning
mod Sending
use kirin.Prelude.{
  ℕ, ◌*◌, ◌+◌, ℤ, pos, String, Option, none, some, [], ◌∷◌, ◌==◌, string_eq, if◌then◌else◌,
}
use kirin.Types.{update, unchanged, significant_delays}
use kirin.Model.{second, day, StopPoint, NavStop, NavVj, StopTimeUpdate, VehicleJourney, TripUpdate}

abbrev pub minute : ℕ
minute = 60 * second

abbrev pub stop_point_a : StopPoint
stop_point_a = record {
  id = "stop_point:A";
  codes = record { type_ = "source"; value = "A" } ∷ [];
  stop_area_codes =
      record { type_ = "source"; value = "8700A" }
      ∷ record { type_ = "CR-CI-CH"; value = "0087-8700A-BV" }
      ∷ [];
}

abbrev pub stop_point_b : StopPoint
stop_point_b = record {
  id = "stop_point:B";
  codes = record { type_ = "source"; value = "B" } ∷ [];
  stop_area_codes =
      record { type_ = "source"; value = "8700B" }
      ∷ record { type_ = "CR-CI-CH"; value = "0087-8700B-BV" }
      ∷ [];
}

abbrev pub stop_a : NavStop
stop_a = record {
  stop_point = some stop_point_a;
  utc_arrival_time = some (1400 * minute);
  utc_departure_time = some (1405 * minute);
}

-- After midnight.
abbrev pub stop_b : NavStop
stop_b = record {
  stop_point = some stop_point_b;
  utc_arrival_time = some (10 * minute);
  utc_departure_time = some (15 * minute);
}

abbrev pub night_vj : NavVj
night_vj = record {
  id = some "vehicle_journey:night";
  trip_id = some "trip:night";
  stop_times = some (stop_a ∷ stop_b ∷ []);
}

abbrev pub night : VehicleJourney
night = record {
  navitia_trip_id = some "trip:night";
  start_timestamp = pos (19000 * day + 1400 * minute);
  navitia_vj = night_vj;
}

-- Nothing is said of any stop.
abbrev pub silent : TripUpdate
silent = record {
  vj = night;
  status = unchanged;
  message = none;
  stop_time_updates = [];
  company_id = none;
  effect = none;
  physical_mode_id = none;
  headsign = none;
  contributor_id = "realtime.night";
}

abbrev pub delayed_stop : StopPoint → ℕ → ℤ → StopTimeUpdate
delayed_stop sp order delay = record {
  order = some order;
  navitia_stop = sp;
  stop_id = sp.id;
  message = none;
  departure = none;
  departure_delay = some delay;
  departure_status = update;
  arrival = none;
  arrival_delay = some delay;
  arrival_status = update;
}

-- Half an hour late at the second stop.
abbrev pub late : TripUpdate
late = record silent {
  status = update;
  effect = some significant_delays;
  stop_time_updates = delayed_stop stop_point_b 1 (pos (30 * minute)) ∷ [];
}

-- The whole trip, half an hour late and then only ten minutes.
abbrev pub late_trip : TripUpdate
late_trip = record silent {
  status = update;
  effect = some significant_delays;
  stop_time_updates =
      delayed_stop stop_point_a 0 (pos (30 * minute))
      ∷ delayed_stop stop_point_b 1 (pos (10 * minute))
      ∷ [];
}

-- A text that is no name of a moment is no datetime.
abbrev pub moment : String → Option ℤ
moment s =
    if s == "23:25"
    then some (pos (19000 * day + 1405 * minute))
    else if s == "23:55"
    then some (pos (19000 * day + 1435 * minute))
    else if s == "00:10"
    then some (pos (19001 * day + 10 * minute))
    else if s == "00:40"
    then some (pos (19001 * day + 40 * minute))
    else none
