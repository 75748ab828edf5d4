-- ===== src/Contributors/Workers.antt =====
-- kirin/command/piv_worker.py: `PivWorker`, from its start to the check of its configuration, and the
-- contributor that it asks for (kirin/piv/piv.py). The protocol of the broker is not modelled.
use kirin.Prelude.{
  ℤ, ◌-ℤ◌, ltb_ℤ, String, Option, none, some, List, Bool, true, false, not, ◌&&◌, ◌||◌, ◌==◌,
  string_eq, option_eq, if◌then◌else◌, find_first,
}
use kirin.Types.{ConnectorType}
use kirin.Model.{text_truthy}
use kirin.RtUpdates.{connector_beq}
use kirin.Contributors.Rows.{Contributor, has_id, find_by_connector_type}

-- The fields of the worker, and the exchange and queue that `__enter__` makes, by their names.
pub record PivWorker : Type 0 where
  pub last_config_checked_time : ℤ
  pub contributor_id : String
  pub broker_url : Option String
  pub navitia_coverage : String
  pub navitia_token : Option String
  pub exchange : Option String
  pub queue : Option String
  pub should_stop : Bool

unfoldable pub get_piv_contributors : Bool → List Contributor → List Contributor
unfolding find_by_connector_type
get_piv_contributors include_deactivated rows =
    find_by_connector_type ConnectorType.piv include_deactivated rows

unfoldable pub get_piv_contributor : String → List Contributor → Option Contributor
unfolding get_piv_contributors find_first
get_piv_contributor contributor_id rows =
    find_first (has_id contributor_id) (get_piv_contributors false rows)

-- `PivWorker(contributor)` and `__enter__`; `none` is the ValueError.
unfoldable pub start_worker : ℤ → Contributor → Option PivWorker
start_worker now c =
    if connector_beq c.connector_type ConnectorType.piv
      && (c.is_active
          && (text_truthy c.broker_url
              && (text_truthy c.exchange_name && text_truthy c.queue_name)))
    then some (record {
      last_config_checked_time = now;
      contributor_id = c.id;
      broker_url = c.broker_url;
      navitia_coverage = c.navitia_coverage;
      navitia_token = c.navitia_token;
      exchange = c.exchange_name;
      queue = c.queue_name;
      should_stop = false;
    })
    else none

unfoldable pub is_config_changed : PivWorker → Option Contributor → Bool
is_config_changed w none = true
is_config_changed w (some c) =
    not (c.broker_url == w.broker_url)
    || (not (c.navitia_coverage == w.navitia_coverage)
        || (not (c.navitia_token == w.navitia_token)
            || (not (c.exchange_name == w.exchange) || not (c.queue_name == w.queue))))

-- `on_iteration`, with `CONF_RELOAD_INTERVAL` as an argument.
unfoldable pub on_iteration : ℤ → ℤ → List Contributor → PivWorker → PivWorker
unfolding get_piv_contributor is_config_changed
on_iteration interval now rows w =
    if ltb_ℤ (now -ℤ w.last_config_checked_time) interval then w else record w {
      last_config_checked_time = now;
      should_stop =
          w.should_stop || is_config_changed w (get_piv_contributor w.contributor_id rows);
    }
