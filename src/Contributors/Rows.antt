-- ===== src/Contributors/Rows.antt =====
-- kirin/core/model.py: `Contributor`, and its queries over the rows of the database.
use kirin.Prelude.{ℤ, String, Option, List, Bool, ◌&&◌, ◌||◌, ◌==◌, string_eq, select}
use kirin.Types.{ConnectorType}
use kirin.RtUpdates.{connector_beq}

pub record Contributor : Type 0 where
  pub id : String
  pub navitia_coverage : String
  pub navitia_token : Option String
  pub feed_url : Option String
  pub connector_type : ConnectorType
  pub retrieval_interval : Option ℤ
  pub is_active : Bool
  pub broker_url : Option String
  pub exchange_name : Option String
  pub queue_name : Option String
  pub nb_days_to_keep_trip_update : ℤ
  pub nb_days_to_keep_rt_update : ℤ

abbrev pub has_id : String → Contributor → Bool
has_id id c = c.id == id

unfoldable pub find_by_connector_type : ConnectorType → Bool → List Contributor → List Contributor
find_by_connector_type type_ include_deactivated rows =
    select
      (λ (c : Contributor).
        connector_beq c.connector_type type_ && (include_deactivated || c.is_active))
      rows

unfoldable pub query_existing : List Contributor → List Contributor
query_existing rows = select (λ (c : Contributor). c.is_active) rows
