-- ===== src/Examples/Cleaning.antt =====
-- Purges of a small database, and a request for all the real time.
use kirin.Prelude.{
  ℤ, ◌-ℤ◌, ◌+ℤ◌, ◌*ℤ◌, pos, String, Option, none, some, List, [], ◌∷◌, true, false, nat_eq,
  string_eq, ◌≡◌, refl, exists, select, find_first,
}
use kirin.Types.{ConnectorType}
use kirin.Model.{combine}
use kirin.RtUpdates.{RealTimeUpdate, RtStatus}
use kirin.Contributors.Rows.{Contributor}
use kirin.Cleaning.Database.{
  TripUpdateRow, Database, is_in_period, starts_from, starts_before, is_removable,
  find_by_contributor_period, remove_by_contributors_and_period, remove_all, remove_trip_update,
  remove_by_contributors_until,
}
use kirin.Cleaning.Tasks.{
  Purge, purge_trip_update, purge_rt_update, purge_contributor, delete_found, is_referenced,
  run_purge, run_purges,
}
use kirin.Cleaning.Loading.{Task, on_request}
use kirin.Cleaning.Integrity.{Integrity, run_purges-Integrity}
use kirin.Cleaning.Purged.{IsPurged, purge_trip_update_removes}
use kirin.Cleaning.Answering.{Answered, on_request_iff}
use kirin.Examples.{late_trip}

-- Retired, with what it has sent.
abbrev night_contributor : Contributor
night_contributor = record {
  id = "realtime.night";
  navitia_coverage = "fr";
  navitia_token = none;
  feed_url = none;
  connector_type = ConnectorType.gtfs_rt;
  retrieval_interval = some (pos 10);
  is_active = false;
  broker_url = none;
  exchange_name = none;
  queue_name = none;
  nb_days_to_keep_trip_update = pos 3;
  nb_days_to_keep_rt_update = pos 10;
}

abbrev kept_update : RealTimeUpdate
kept_update = record {
  id = 1;
  connector = ConnectorType.gtfs_rt;
  status = RtStatus.rt_ok;
  error = none;
  raw_data = "";
  contributor_id = "realtime.night";
  created_at = pos 5;
  updated_at = none;
  modified = false;
}

abbrev night_row : TripUpdateRow
night_row = record { vj_id = 7; trip_update = late_trip }

abbrev night_database : Database
night_database = record {
  contributors = night_contributor ∷ [];
  trip_updates = night_row ∷ [];
  real_time_updates = kept_update ∷ [];
  associations = record { real_time_update_id = 1; trip_update_id = 7 } ∷ [];
}

night_database-Integrity : Integrity night_database
unfolding exists
night_database-Integrity = record {
  updates = (refl, tt);
  trips = (refl, tt);
  trip_contributors = (refl, tt);
  update_contributors = (refl, tt);
}

abbrev early_purges : List Purge
early_purges =
    Purge.contributor_of "realtime.night"
    ∷ Purge.real_time_updates_of true (pos 19010) "realtime.night" (pos 3)
    ∷ []

-- Nothing is purged while the trip update is there.
early_purges_keep : run_purges early_purges night_database ≡ night_database
unfolding run_purges run_purge purge_contributor purge_rt_update delete_found is_referenced
    find_first exists select remove_by_contributors_until is_removable ◌-ℤ◌ combine ◌+ℤ◌ ◌*ℤ◌
early_purges_keep = refl

abbrev all_purges : List Purge
all_purges =
    Purge.trip_updates_of true (pos 19010) "realtime.night" (pos 3)
    ∷ Purge.real_time_updates_of true (pos 19010) "realtime.night" (pos 3)
    ∷ Purge.contributor_of "realtime.night"
    ∷ []

-- In this order all is purged.
all_purges_empty : (run_purges all_purges night_database).contributors ≡ []
unfolding run_purges run_purge purge_contributor purge_rt_update delete_found is_referenced
    find_first exists select remove_by_contributors_until is_removable ◌-ℤ◌ combine ◌+ℤ◌ ◌*ℤ◌
    purge_trip_update remove_by_contributors_and_period remove_all remove_trip_update
    find_by_contributor_period is_in_period starts_from starts_before
all_purges_empty = refl

run_purges-Integrity_example : Integrity (run_purges all_purges night_database)
run_purges-Integrity_example =
    run_purges-Integrity all_purges night_database night_database-Integrity

purge_trip_update_removes_example :
    IsPurged "realtime.night"
      (pos 19010 -ℤ pos 3)
      night_database
      (purge_trip_update true (pos 19010) "realtime.night" (pos 3) night_database)
purge_trip_update_removes_example =
    purge_trip_update_removes (pos 19010) "realtime.night" (pos 3) night_database

abbrev request : Task
request = record {
  is_load_realtime = true;
  contributors = "realtime.night" ∷ [];
  begin_date = "";
  end_date = "";
  queue_name = "queue";
}

abbrev no_date : String → Option ℤ
no_date s = none

on_request_iff_example :
    Answered no_date
      (some request)
      night_database
      (on_request no_date (some request) night_database)
on_request_iff_example = on_request_iff no_date (some request) night_database
