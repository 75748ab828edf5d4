-- ===== src/RtUpdates/Probes.antt =====
-- kirin/core/model.py: `RealTimeUpdate.get_probes_by_contributor`, what is known of the updates of
-- each contributor. A dict is the list of its items, the last one set first. Datetimes are not
-- formatted as texts.
use kirin.Prelude.{
  ℤ, String, Option, none, some, List, [], ◌∷◌, Bool, ◌&&◌, if◌then◌else◌, ◌==◌, string_eq,
}
use kirin.RtUpdates.{RealTimeUpdate, RtStatus, rt_status_beq, later}
use kirin.Contributors.Rows.{Contributor, query_existing}

-- `filter(q).order_by(desc(created_at)).first()`
unfoldable pub newest : (RealTimeUpdate → Bool) → List RealTimeUpdate → Option RealTimeUpdate
unfolding later
newest q [] = none
newest q (r ∷ rest) = let last = newest q rest in if q r then some (later r last) else last

abbrev pub is_of : String → RealTimeUpdate → Bool
is_of c_id row = row.contributor_id == c_id

abbrev pub is_valid : RealTimeUpdate → Bool
is_valid row = rt_status_beq row.status RtStatus.rt_ok

pub record Probes : Type 0 where
  pub last_update : List (String × ℤ)
  pub last_valid_update : List (String × ℤ)
  pub last_update_error : List (String × Option String)

-- `row.updated_at if row.updated_at else row.created_at`
unfoldable pub update_date : Option ℤ → ℤ → ℤ
update_date (some updated_at) created_at = updated_at
update_date none created_at = created_at

unfoldable pub probe_valid : Option RealTimeUpdate → String → Probes → Probes
probe_valid none c_id result = result
probe_valid (some row_ok) c_id result = record result {
  last_valid_update = (c_id, row_ok.created_at) ∷ result.last_valid_update;
}

unfoldable pub probe_row : Option RealTimeUpdate → String → List RealTimeUpdate → Probes → Probes
unfolding update_date probe_valid newest
probe_row none c_id rows result = result
probe_row (some row) c_id rows result =
    let dated : Probes = record result {
      last_update = (c_id, update_date row.updated_at row.created_at) ∷ result.last_update;
    } in
    if is_valid row
    then probe_valid (some row) c_id dated
    else probe_valid (newest (λ r. is_of c_id r && is_valid r) rows) c_id
        (record dated { last_update_error = (c_id, row.error) ∷ dated.last_update_error })

unfoldable pub probe_contributors : List Contributor → List RealTimeUpdate → Probes → Probes
unfolding probe_row newest
probe_contributors [] rows result = result
probe_contributors (c ∷ rest) rows result =
    probe_contributors rest rows (probe_row (newest (is_of c.id) rows) c.id rows result)

unfoldable pub get_probes_by_contributor : List Contributor → List RealTimeUpdate → Probes
unfolding probe_contributors query_existing
get_probes_by_contributor contributors rows =
    probe_contributors (query_existing contributors) rows
      (record { last_update = []; last_valid_update = []; last_update_error = [] })
