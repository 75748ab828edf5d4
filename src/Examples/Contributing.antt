-- ===== src/Examples/Contributing.antt =====
-- Requests on contributors, and a PIV worker.
use kirin.Prelude.{
  ◌-ℤ◌, pos, ltb_ℤ, String, none, some, [], ◌∷◌, true, false, ◌≡◌, ◌↔◌, refl, find_first, exists,
  select,
}
use kirin.Types.{ConnectorType}
use kirin.Complete.Values.{missing, null}
use kirin.Contributors.Rows.{Contributor, query_existing, find_by_connector_type}
use kirin.Contributors.Requests.{
  valid, PostData, PutData, created, no_content, or_id, new_contributor, post_contributor,
  delete_contributor, get_contributors, post_request, put_request, after_requests, handle_request,
  deactivate, put_contributor, put_to, update_where, set_columns, insert_contributor, is_partial,
}
use kirin.Contributors.Workers.{
  PivWorker, get_piv_contributor, start_worker, on_iteration, get_piv_contributors,
  is_config_changed,
}
use kirin.Contributors.Answers.{Found, IsKey, post_contributor-get}
use kirin.Contributors.Stopping.{
  current_row, SameSettings, on_iteration_continues, deleted_on_iteration,
}
use kirin.Model.{text_truthy}

abbrev posted : PostData
posted = record {
  id = some "realtime.piv";
  navitia_coverage = "fr";
  navitia_token = some "secret";
  feed_url = none;
  connector_type = ConnectorType.piv;
  retrieval_interval = missing;
  is_active = none;
  broker_url = some "pyamqp://broker";
  exchange_name = some "exchange";
  queue_name = some "queue";
  nb_days_to_keep_trip_update = pos 3;
  nb_days_to_keep_rt_update = pos 10;
}

abbrev pub piv_row : Contributor
piv_row = record {
  id = "realtime.piv";
  navitia_coverage = "fr";
  navitia_token = some "secret";
  feed_url = none;
  connector_type = ConnectorType.piv;
  retrieval_interval = some (pos 10);
  is_active = true;
  broker_url = some "pyamqp://broker";
  exchange_name = some "exchange";
  queue_name = some "queue";
  nb_days_to_keep_trip_update = pos 3;
  nb_days_to_keep_rt_update = pos 10;
}

-- The queue is taken away, which no test refuses.
abbrev without_queue : PutData
without_queue = record {
  id = none;
  navitia_coverage = none;
  navitia_token = missing;
  feed_url = missing;
  connector_type = none;
  retrieval_interval = missing;
  is_active = none;
  broker_url = missing;
  exchange_name = missing;
  queue_name = null;
  nb_days_to_keep_trip_update = none;
  nb_days_to_keep_rt_update = none;
}

posted_created : (post_contributor none (valid posted) []).1.status ≡ created
unfolding after_requests handle_request get_contributors delete_contributor deactivate
    put_contributor put_to update_where set_columns post_contributor insert_contributor
    new_contributor is_partial or_id query_existing find_by_connector_type get_piv_contributors
    get_piv_contributor start_worker is_config_changed on_iteration text_truthy find_first exists
    select ◌-ℤ◌
posted_created = refl

-- A worker cannot be started any more, although the contributor is active.
no_queue :
    after_requests
      (post_request none (valid posted)
        ∷ put_request (some "realtime.piv") (valid without_queue)
        ∷ [])
      []
    ≡ record piv_row { queue_name = none } ∷ []
unfolding after_requests handle_request get_contributors delete_contributor deactivate
    put_contributor put_to update_where set_columns post_contributor insert_contributor
    new_contributor is_partial or_id query_existing find_by_connector_type get_piv_contributors
    get_piv_contributor start_worker is_config_changed on_iteration text_truthy find_first exists
    select ◌-ℤ◌
no_queue = refl

no_worker : start_worker (pos 0) (record piv_row { queue_name = none }) ≡ none
unfolding after_requests handle_request get_contributors delete_contributor deactivate
    put_contributor put_to update_where set_columns post_contributor insert_contributor
    new_contributor is_partial or_id query_existing find_by_connector_type get_piv_contributors
    get_piv_contributor start_worker is_config_changed on_iteration text_truthy find_first exists
    select ◌-ℤ◌
no_worker = refl

post_contributor-get_example :
    (key : String) × IsKey none (some "realtime.piv") key
    × Found key posted (post_contributor none (valid posted) []).0
post_contributor-get_example = post_contributor-get none posted [] posted_created

abbrev listening : PivWorker
listening = record {
  last_config_checked_time = pos 0;
  contributor_id = "realtime.piv";
  broker_url = some "pyamqp://broker";
  navitia_coverage = "fr";
  navitia_token = some "secret";
  exchange = some "exchange";
  queue = some "queue";
  should_stop = false;
}

listening_started : start_worker (pos 0) piv_row ≡ some listening
unfolding after_requests handle_request get_contributors delete_contributor deactivate
    put_contributor put_to update_where set_columns post_contributor insert_contributor
    new_contributor is_partial or_id query_existing find_by_connector_type get_piv_contributors
    get_piv_contributor start_worker is_config_changed on_iteration text_truthy find_first exists
    select ◌-ℤ◌
listening_started = refl

interval_passed : ltb_ℤ (pos 60 -ℤ pos 0) (pos 60) ≡ false
unfolding ◌-ℤ◌
interval_passed = refl

pub piv_row_deleted :
    (delete_contributor (some "realtime.piv") (piv_row ∷ [])).1.status ≡ no_content
unfolding after_requests handle_request get_contributors delete_contributor deactivate
    put_contributor put_to update_where set_columns post_contributor insert_contributor
    new_contributor is_partial or_id query_existing find_by_connector_type get_piv_contributors
    get_piv_contributor start_worker is_config_changed on_iteration text_truthy find_first exists
    select ◌-ℤ◌
piv_row_deleted = refl

on_iteration_continues_example :
    ((on_iteration (pos 60) (pos 60) (piv_row ∷ []) listening).should_stop ≡ false) ↔ (
      (c : Contributor) × (current_row "realtime.piv" (piv_row ∷ []) ≡ some c)
      × SameSettings piv_row c)
on_iteration_continues_example =
    on_iteration_continues (pos 60) (pos 0) (pos 60) piv_row (piv_row ∷ []) listening
      listening_started interval_passed

deleted_on_iteration_example :
    (on_iteration
      (pos 60)
      (pos 60)
      (delete_contributor (some "realtime.piv") (piv_row ∷ [])).0
      listening).should_stop
    ≡ true
deleted_on_iteration_example =
    deleted_on_iteration (pos 60) (pos 60) (piv_row ∷ []) listening piv_row_deleted interval_passed
