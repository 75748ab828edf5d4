-- ===== src/RtUpdates.antt =====
-- kirin/utils.py and `RealTimeUpdate` of kirin/core/model.py: the raw updates that are recorded, and
-- the memory of what was polled last. The database is the list of its rows, as the session sees
-- them; redis is the list of the ETags by contributor (the key is `build_redis_etag_key`). The clock
-- and the generated ids are arguments, one moment for each operation. Errors of the database, New
-- Relic and logs are not modelled. `Probes` has what is known of each contributor. `Latest` and
-- `Newest` are about the last row, `Repeats` about an error that is managed again, `Memory` about the
-- ETags, `Valid` about the last valid update.
pub mod Latest
pub mod Repeats
pub mod Memory
pub mod Probes
pub mod Newest
pub mod Valid
use kirin.Prelude.{
  ℕ, ℤ, ltb_ℤ, String, Option, none, some, List, [], ◌∷◌, map, Bool, true, false, not, ◌&&◌, ◌||◌,
  if◌then◌else◌, ◌==◌, nat_eq, string_eq, option_eq, ap,
}
use kirin.Types.{ConnectorType, gtfs_rt, cots, piv}

pub data RtStatus : Type 0 where
  rt_ok rt_ko pending : RtStatus

abbrev pub rt_status_beq : RtStatus → RtStatus → Bool
rt_status_beq rt_ok rt_ok = true
rt_status_beq rt_ko rt_ko = true
rt_status_beq pending pending = true
rt_status_beq _ _ = false

abbrev pub connector_beq : ConnectorType → ConnectorType → Bool
connector_beq gtfs_rt gtfs_rt = true
connector_beq cots cots = true
connector_beq piv piv = true
connector_beq _ _ = false

-- A row; `modified` says that the session has a change of it which is not committed yet.
pub record RealTimeUpdate : Type 0 where
  pub id : ℕ
  pub connector : ConnectorType
  pub status : RtStatus
  pub error : Option String
  pub raw_data : String
  pub contributor_id : String
  pub created_at : ℤ
  pub updated_at : Option ℤ
  pub modified : Bool

-- The newest row is first.
pub record Store : Type 0 where
  pub real_time_updates : List RealTimeUpdate
  pub etags : List (String × String)

-- What a commit writes of a row: `onupdate` sets `updated_at` where something has changed.
unfoldable pub flush : ℤ → RealTimeUpdate → RealTimeUpdate
flush now rtu = if rtu.modified then record rtu { updated_at = some now; modified = false } else rtu

-- `db_commit` of rows that the database has.
unfoldable pub db_commit : ℤ → Store → Store
unfolding flush
db_commit now s = record s { real_time_updates = map (flush now) s.real_time_updates }

-- `RealTimeUpdate(...)` and the commit that inserts it.
unfoldable pub make_rt_update : ℤ → ℕ → String → ConnectorType → String → RtStatus → Store → Store
unfolding db_commit
make_rt_update now id raw_data connector_type contributor_id status s =
    let committed = db_commit now s in
    record committed {
      real_time_updates =
          record {
            id = id;
            connector = connector_type;
            status = status;
            error = none;
            raw_data = raw_data;
            contributor_id = contributor_id;
            created_at = now;
            updated_at = some now;
            modified = false;
          }
          ∷ committed.real_time_updates;
    }

unfoldable pub remove_key : String → List (String × String) → List (String × String)
remove_key contributor_id [] = []
remove_key contributor_id (k ∷ keys) =
    let rest = remove_key contributor_id keys in if k.0 == contributor_id then rest else k ∷ rest

-- `redis_client.delete`
unfoldable pub allow_reprocess_same_data : String → Store → Store
unfolding remove_key
allow_reprocess_same_data contributor_id s = record s { etags = remove_key contributor_id s.etags }

-- An assignment of status and error to the object of this id.
unfoldable pub assign : ℕ → RtStatus → Option String → RealTimeUpdate → RealTimeUpdate
assign id status error rtu =
    if rtu.id == id
    then (record rtu {
      status = status;
      error = error;
      modified = rtu.modified || not (rt_status_beq rtu.status status && rtu.error == error);
    })
    else rtu

unfoldable pub assign_in : ℕ → RtStatus → Option String → Store → Store
unfolding assign
assign_in id status error s = record s {
  real_time_updates = map (assign id status error) s.real_time_updates;
}

-- Without the commit.
unfoldable pub set_rtu_status_ko : ℕ → String → String → Bool → Store → Store
unfolding allow_reprocess_same_data assign_in
set_rtu_status_ko id contributor_id error is_reprocess_same_data_allowed s =
    let allowed =
      if is_reprocess_same_data_allowed then allow_reprocess_same_data contributor_id s else s in
    assign_in id rt_ko (some error) allowed

unfoldable pub save_rt_data_with_error :
    ℤ → ℕ → String → ConnectorType → String → String → Bool → Store → Store
unfolding make_rt_update set_rtu_status_ko db_commit
save_rt_data_with_error now id data_ connector_type contributor_id error allowed s =
    let made = make_rt_update now id data_ connector_type contributor_id rt_ok s in
    db_commit now (set_rtu_status_ko id contributor_id error allowed made)

-- The status that `poke_updated_at` writes in between.
unfoldable pub poked : RtStatus → RtStatus
poked pending = rt_ok
poked rt_ok = pending
poked rt_ko = pending

unfoldable pub poke_updated_at : ℤ → Option RealTimeUpdate → Store → Store
unfolding poked db_commit assign_in
poke_updated_at now none s = s
poke_updated_at now (some rtu) s =
    let first = db_commit now (assign_in rtu.id (poked rtu.status) rtu.error s) in
    db_commit now (assign_in rtu.id rtu.status rtu.error first)

-- The row of the two that was created later.
unfoldable pub later : RealTimeUpdate → Option RealTimeUpdate → RealTimeUpdate
later a none = a
later a (some b) = if ltb_ℤ a.created_at b.created_at then b else a

-- `RealTimeUpdate.get_last_rtu`: of rows created at one moment, the one recorded last.
unfoldable pub last_of : ConnectorType → String → List RealTimeUpdate → Option RealTimeUpdate
unfolding later
last_of connector_type contributor_id [] = none
last_of connector_type contributor_id (r ∷ rest) =
    let last = last_of connector_type contributor_id rest in
    if connector_beq r.connector connector_type && r.contributor_id == contributor_id
    then some (later r last)
    else last

unfoldable pub get_last_rtu : ConnectorType → String → Store → Option RealTimeUpdate
unfolding last_of
get_last_rtu connector_type contributor_id s =
    last_of connector_type contributor_id s.real_time_updates

-- The error that the last row already tells.
unfoldable pub is_same_error : String → String → RealTimeUpdate → Bool
is_same_error data_ error last =
    rt_status_beq last.status rt_ko && last.error == some error && last.raw_data == data_

unfoldable pub manage_db_error :
    ℤ → ℕ → String → ConnectorType → String → String → Bool → Store → Store
unfolding get_last_rtu is_same_error poke_updated_at allow_reprocess_same_data
    save_rt_data_with_error
manage_db_error now id data_ connector_type contributor_id error allowed s =
    let saved =
      save_rt_data_with_error now id data_ connector_type contributor_id error allowed s in
    elim (get_last_rtu connector_type contributor_id s) [
      | none ↦ saved
      | some last ↦
          if is_same_error data_ error last
          then (let touched = poke_updated_at now (some last) s in
              if allowed then allow_reprocess_same_data contributor_id touched else touched)
          else saved
    ]

unfoldable pub manage_db_no_new : ℤ → ConnectorType → String → Store → Store
unfolding get_last_rtu poke_updated_at
manage_db_no_new now connector_type contributor_id s =
    poke_updated_at now (get_last_rtu connector_type contributor_id s) s
