-- ===== src/Cleaning/Tasks.antt =====
-- The tasks that purge the database (kirin/tasks.py), and the command that deletes a contributor
-- (kirin/command/purge_rt.py: `purge_contributor`). Each task is one step: whether redis gives the
-- lock and what day it is are arguments. The retries and the scheduling by Celery are not modelled.
use kirin.Prelude.{
  ℤ, ◌-ℤ◌, String, Option, none, some, List, [], ◌∷◌, Bool, true, not, ◌||◌, ◌==◌, string_eq,
  if◌then◌else◌, exists, find_first, select,
}
use kirin.Types.{ConnectorType}
use kirin.RtUpdates.{RealTimeUpdate}
use kirin.Contributors.Rows.{Contributor, has_id, find_by_connector_type}
use kirin.Cleaning.Database.{
  TripUpdateRow, Database, remove_by_contributors_and_period, remove_by_contributors_until,
}

unfoldable pub purge_trip_update : Bool → ℤ → String → ℤ → Database → Database
unfolding remove_by_contributors_and_period
purge_trip_update locked today contributor nb_days_to_keep db =
    if locked
    then remove_by_contributors_and_period (contributor ∷ []) none (some (today -ℤ nb_days_to_keep))
        db
    else db

unfoldable pub purge_rt_update : Bool → ℤ → String → ℤ → Database → Database
unfolding remove_by_contributors_until
purge_rt_update locked today contributor nb_days_to_keep db =
    if locked
    then remove_by_contributors_until (contributor ∷ []) (today -ℤ nb_days_to_keep) db
    else db

-- The tasks that are sent for a connector, each for its contributor with the days to keep.
unfoldable pub purges_of : (Contributor → ℤ) → List Contributor → List (String × ℤ)
purges_of days [] = []
purges_of days (c ∷ rest) = (c.id, days c) ∷ purges_of days rest

unfoldable pub purge_trip_update_by_connector_type : ConnectorType → Database → List (String × ℤ)
unfolding purges_of find_by_connector_type
purge_trip_update_by_connector_type type_ db =
    purges_of (λ (c : Contributor). c.nb_days_to_keep_trip_update)
      (find_by_connector_type type_ true db.contributors)

unfoldable pub purge_rt_update_by_connector_type : ConnectorType → Database → List (String × ℤ)
unfolding purges_of find_by_connector_type
purge_rt_update_by_connector_type type_ db =
    purges_of (λ (c : Contributor). c.nb_days_to_keep_rt_update)
      (find_by_connector_type type_ true db.contributors)

-- The foreign keys to a contributor, which make the database refuse its deletion.
unfoldable pub is_referenced : String → Database → Bool
is_referenced id db =
    exists (λ (row : TripUpdateRow). row.trip_update.contributor_id == id) db.trip_updates
    || exists (λ (rtu : RealTimeUpdate). rtu.contributor_id == id) db.real_time_updates

-- Only a contributor that is found, not active and not referenced is deleted.
unfoldable pub delete_found : Option Contributor → String → Database → Database
unfolding is_referenced
delete_found none contributor_id db = db
delete_found (some contrib) contributor_id db =
    if contrib.is_active || is_referenced contributor_id db
    then db
    else record db { contributors = select (λ c. not (has_id contributor_id c)) db.contributors }

unfoldable pub purge_contributor : String → Database → Database
unfolding delete_found find_first
purge_contributor contributor_id db =
    delete_found (find_first (has_id contributor_id) db.contributors) contributor_id db

-- One step of the cleaning.
pub data Purge : Type 0 where
  trip_updates_of real_time_updates_of : Bool → ℤ → String → ℤ → Purge
  contributor_of : String → Purge

unfoldable pub run_purge : Purge → Database → Database
unfolding purge_trip_update purge_rt_update purge_contributor
run_purge (trip_updates_of locked today contributor days) db =
    purge_trip_update locked today contributor days db
run_purge (real_time_updates_of locked today contributor days) db =
    purge_rt_update locked today contributor days db
run_purge (contributor_of contributor_id) db = purge_contributor contributor_id db

unfoldable pub run_purges : List Purge → Database → Database
unfolding run_purge
run_purges [] db = db
run_purges (p ∷ purges) db = run_purges purges (run_purge p db)
