-- ===== src/Cleaning/Integrity.antt =====
-- The references between the tables (kirin/core/model.py) under the purges (kirin/tasks.py,
-- kirin/command/purge_rt.py).
use kirin.Prelude.{
  ℕ, ℤ, ◌-ℤ◌, String, Option, none, some, List, [], ◌∷◌, Bool, true, false, not, ◌||◌, ◌≡◌, refl,
  arith, exists, find_first, select, All-select, All-select_test, exists-select, All-not_exists,
  All, All-map, All-zip, All-exists_self, Bool-cases, inl, inr, ◌==◌, ==_iff, ==_refl, nat_eq,
  string_eq,
}
use kirin.RtUpdates.{RealTimeUpdate}
use kirin.Contributors.Rows.{Contributor, has_id}
use kirin.Cleaning.Database.{
  TripUpdateRow, Association, Database, is_associated, is_removable, find_by_contributor_period,
  remove_trip_update, remove_all, remove_by_contributors_and_period, remove_by_contributors_until,
}
use kirin.Cleaning.Tasks.{
  purge_trip_update, purge_rt_update, is_referenced, delete_found, purge_contributor, Purge,
  trip_updates_of, real_time_updates_of, contributor_of, run_purge, run_purges,
}

abbrev has_row : List TripUpdateRow → ℕ → Bool
has_row rows id = exists (λ (row : TripUpdateRow). row.vj_id == id) rows

abbrev has_update : List RealTimeUpdate → ℕ → Bool
has_update rtus id = exists (λ (rtu : RealTimeUpdate). rtu.id == id) rtus

abbrev has_contributor : List Contributor → String → Bool
has_contributor rows id = exists (has_id id) rows

-- Every reference leads to a row.
pub record Integrity (db : Database) : Type 0 where
  pub updates :
      All
        (λ (a : Association). has_update db.real_time_updates a.real_time_update_id ≡ true)
        db.associations
  pub trips :
      All (λ (a : Association). has_row db.trip_updates a.trip_update_id ≡ true) db.associations
  pub trip_contributors :
      All
        (λ (row : TripUpdateRow).
          has_contributor db.contributors row.trip_update.contributor_id ≡ true)
        db.trip_updates
  pub update_contributors :
      All
        (λ (rtu : RealTimeUpdate). has_contributor db.contributors rtu.contributor_id ≡ true)
        db.real_time_updates

kept_row :
    (id : ℕ) (a : Association) (rows : List TripUpdateRow)
    → not (a.trip_update_id == id) ≡ true
    → has_row rows a.trip_update_id ≡ true
    → has_row (select (λ (row : TripUpdateRow). not (row.vj_id == id)) rows) a.trip_update_id ≡ true
kept_row id a rows q h =
    exists-select (λ (row : TripUpdateRow). row.vj_id == a.trip_update_id)
      (λ (row : TripUpdateRow). not (row.vj_id == id)) rows
      (λ row. λ e. rw ((==_iff row.vj_id a.trip_update_id).0 e) q) h

remove_trip_update-Integrity :
    (t : TripUpdateRow) (db : Database) → Integrity db → Integrity (remove_trip_update t db)
unfolding remove_trip_update
remove_trip_update-Integrity t db i =
    let q = λ (a : Association). not (a.trip_update_id == t.vj_id) in
    record {
      updates = All-select _ q db.associations i.updates;
      trips =
          All-map (λ a. λ (k : _ × _). kept_row t.vj_id a db.trip_updates k.0 k.1)
            (select q db.associations)
            (All-zip (λ (a : Association). q a ≡ true)
              (λ (a : Association). has_row db.trip_updates a.trip_update_id ≡ true)
              (select q db.associations) (All-select_test q db.associations)
              (All-select _ q db.associations i.trips));
      trip_contributors = All-select _ _ db.trip_updates i.trip_contributors;
      update_contributors = i.update_contributors;
    }

remove_all-Integrity :
    (ts : List TripUpdateRow) (db : Database) → Integrity db → Integrity (remove_all ts db)
unfolding remove_all
remove_all-Integrity [] db i = i
remove_all-Integrity (t ∷ ts) db i =
    remove_all-Integrity ts (remove_trip_update t db) (remove_trip_update-Integrity t db i)

kept_update :
    (contributors : List String) (until : ℤ) (assoc : List Association) (a : Association)
    (rtus : List RealTimeUpdate)
    → is_associated assoc a.real_time_update_id ≡ true
    → has_update rtus a.real_time_update_id ≡ true
    → has_update
        (select (λ rtu. not (is_removable contributors until assoc rtu)) rtus)
        a.real_time_update_id
      ≡ true
unfolding is_removable
kept_update contributors until assoc a rtus q h =
    exists-select (λ (rtu : RealTimeUpdate). rtu.id == a.real_time_update_id)
      (λ rtu. not (is_removable contributors until assoc rtu)) rtus
      (λ rtu. λ e. rw ((==_iff rtu.id a.real_time_update_id).0 e, q) (ground arith)) h

remove_by_contributors_until-Integrity :
    (contributors : List String) (until : ℤ) (db : Database)
    → Integrity db
    → Integrity (remove_by_contributors_until contributors until db)
unfolding remove_by_contributors_until
remove_by_contributors_until-Integrity contributors until db i = record {
  updates =
      All-map
        (λ a. λ (k : _ × _).
          kept_update contributors until db.associations a db.real_time_updates k.0 k.1)
        db.associations
        (All-zip (λ (a : Association). is_associated db.associations a.real_time_update_id ≡ true)
          (λ (a : Association). has_update db.real_time_updates a.real_time_update_id ≡ true)
          db.associations
          (All-exists_self (λ (a b : Association). b.real_time_update_id == a.real_time_update_id)
            db.associations (λ a. ==_refl a.real_time_update_id))
          i.updates);
  trips = i.trips;
  trip_contributors = i.trip_contributors;
  update_contributors = All-select _ _ db.real_time_updates i.update_contributors;
}

kept_contributor :
    (contributor_id id : String) (rows : List Contributor)
    → (id == contributor_id) ≡ false
    → has_contributor rows id ≡ true
    → has_contributor (select (λ c. not (has_id contributor_id c)) rows) id ≡ true
kept_contributor contributor_id id rows q h =
    exists-select (has_id id) (λ c. not (has_id contributor_id c)) rows
      (λ c. λ e. rw ((==_iff c.id id).0 e, q) refl) h

-- What a deletion of the contributor leaves.
abbrev without_contributor : String → Database → Database
without_contributor id db = record db {
  contributors = select (λ c. not (has_id id c)) db.contributors;
}

without_contributor-Integrity :
    (id : String) (db : Database)
    → is_referenced id db ≡ false
    → Integrity db
    → Integrity (without_contributor id db)
unfolding is_referenced
without_contributor-Integrity id db r i =
    let rows =
      All-not_exists (λ (row : TripUpdateRow). row.trip_update.contributor_id == id) db.trip_updates
        (ground arith) in
    let rtus =
      All-not_exists (λ (rtu : RealTimeUpdate). rtu.contributor_id == id) db.real_time_updates
        (ground arith) in
    record {
      updates = i.updates;
      trips = i.trips;
      trip_contributors =
          All-map
            (λ row. λ (k : _ × _).
              kept_contributor id row.trip_update.contributor_id db.contributors k.0 k.1)
            db.trip_updates (All-zip _ _ db.trip_updates rows i.trip_contributors);
      update_contributors =
          All-map
            (λ rtu. λ (k : _ × _). kept_contributor id rtu.contributor_id db.contributors k.0 k.1)
            db.real_time_updates (All-zip _ _ db.real_time_updates rtus i.update_contributors);
    }

delete_found-Integrity :
    (found : Option Contributor) (id : String) (db : Database)
    → Integrity db
    → Integrity (delete_found found id db)
unfolding delete_found
delete_found-Integrity none id db i = i
delete_found-Integrity (some contrib) id db i =
    elim (Bool-cases (contrib.is_active || is_referenced id db)) [
      | inl q ↦ rw q i
      | inr q ↦ rw q (without_contributor-Integrity id db (ground arith) i)
    ]

run_purge-Integrity : (p : Purge) (db : Database) → Integrity db → Integrity (run_purge p db)
unfolding run_purge purge_trip_update purge_rt_update purge_contributor
    remove_by_contributors_and_period
run_purge-Integrity (trip_updates_of true today contributor days) db i =
    remove_all-Integrity
      (find_by_contributor_period (contributor ∷ []) none (some (today -ℤ days)) db) db i
run_purge-Integrity (trip_updates_of false today contributor days) db i = i
run_purge-Integrity (real_time_updates_of true today contributor days) db i =
    remove_by_contributors_until-Integrity (contributor ∷ []) (today -ℤ days) db i
run_purge-Integrity (real_time_updates_of false today contributor days) db i = i
run_purge-Integrity (contributor_of id) db i =
    delete_found-Integrity (find_first (has_id id) db.contributors) id db i

-- Any sequence of purges, of trip updates, of updates and of contributors, keeps the references:
-- every association leads to an update and to a trip update that are there, and both of these to
-- their contributor.
pub run_purges-Integrity :
    (purges : List Purge) (db : Database) → Integrity db → Integrity (run_purges purges db)
unfolding run_purges
run_purges-Integrity [] db i = i
run_purges-Integrity (p ∷ purges) db i =
    run_purges-Integrity purges (run_purge p db) (run_purge-Integrity p db i)
