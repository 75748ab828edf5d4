-- ===== src/Cleaning/Database.antt =====
-- The tables that refer to each other (kirin/core/model.py), and the deletions from them. A row is
-- named by its key. A commit is not modelled: each operation ends with one.
use kirin.Prelude.{
  ℕ, ℤ, ltb_ℤ, String, Option, none, some, List, [], ◌∷◌, Bool, true, not, ◌&&◌, ◌==◌, nat_eq,
  string_eq, exists, select,
}
use kirin.Model.{combine, TripUpdate}
use kirin.RtUpdates.{RealTimeUpdate}
use kirin.Contributors.Rows.{Contributor}

-- A row of trip_update, by its key `vj_id`.
pub record TripUpdateRow : Type 0 where
  pub vj_id : ℕ
  pub trip_update : TripUpdate

-- An element of associate_realtimeupdate_tripupdate.
pub record Association : Type 0 where
  pub real_time_update_id : ℕ
  pub trip_update_id : ℕ

pub record Database : Type 0 where
  pub contributors : List Contributor
  pub trip_updates : List TripUpdateRow
  pub real_time_updates : List RealTimeUpdate
  pub associations : List Association

abbrev pub is_in : List String → String → Bool
is_in contributors id = exists (λ c. c == id) contributors

-- `start_timestamp >= datetime.combine(start_date, time(0, 0))`, if there is a date.
unfoldable pub starts_from : Option ℤ → ℤ → Bool
starts_from none start_timestamp = true
starts_from (some start_date) start_timestamp = not (ltb_ℤ start_timestamp (combine start_date 0))

-- `start_timestamp < datetime.combine(end_date, time(0, 0))`, if there is a date.
unfoldable pub starts_before : Option ℤ → ℤ → Bool
starts_before none start_timestamp = true
starts_before (some end_date) start_timestamp = ltb_ℤ start_timestamp (combine end_date 0)

unfoldable pub is_in_period : List String → Option ℤ → Option ℤ → TripUpdateRow → Bool
unfolding starts_from starts_before
is_in_period contributors start_date end_date row =
    is_in contributors row.trip_update.contributor_id
    && (starts_from start_date row.trip_update.vj.start_timestamp
        && starts_before end_date row.trip_update.vj.start_timestamp)

unfoldable pub find_by_contributor_period :
    List String → Option ℤ → Option ℤ → Database → List TripUpdateRow
unfolding is_in_period
find_by_contributor_period contributors start_date end_date db =
    select (is_in_period contributors start_date end_date) db.trip_updates

-- One round of the loop: the associations of the row, then the row.
unfoldable pub remove_trip_update : TripUpdateRow → Database → Database
remove_trip_update t db = record db {
  trip_updates = select (λ (row : TripUpdateRow). not (row.vj_id == t.vj_id)) db.trip_updates;
  associations = select (λ (a : Association). not (a.trip_update_id == t.vj_id)) db.associations;
}

unfoldable pub remove_all : List TripUpdateRow → Database → Database
unfolding remove_trip_update
remove_all [] db = db
remove_all (t ∷ rest) db = remove_all rest (remove_trip_update t db)

unfoldable pub remove_by_contributors_and_period :
    List String → Option ℤ → Option ℤ → Database → Database
unfolding remove_all find_by_contributor_period
remove_by_contributors_and_period contributors start_date end_date db =
    remove_all (find_by_contributor_period contributors start_date end_date db) db

-- `outerjoin(associate_realtimeupdate_tripupdate)`: some association has this update.
abbrev pub is_associated : List Association → ℕ → Bool
is_associated associations id =
    exists (λ (a : Association). a.real_time_update_id == id) associations

-- The rows of the sub-query: old ones of the contributors without a trip update.
unfoldable pub is_removable : List String → ℤ → List Association → RealTimeUpdate → Bool
is_removable contributors until associations rtu =
    is_in contributors rtu.contributor_id
    && (ltb_ℤ rtu.created_at (combine until 0) && not (is_associated associations rtu.id))

unfoldable pub remove_by_contributors_until : List String → ℤ → Database → Database
unfolding is_removable
remove_by_contributors_until contributors until db = record db {
  real_time_updates =
      select (λ rtu. not (is_removable contributors until db.associations rtu))
        db.real_time_updates;
}
