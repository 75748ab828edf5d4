-- ===== src/Contributors/Requests.antt =====
-- kirin/resources/contributors.py: the requests on contributors, over the rows of the database. What
-- JSON schema accepts is a body with its values decoded; the other errors of the database than a
-- missing or a repeated key are not modelled.
use kirin.Prelude.{
  or_else, ℤ, pos, String, Option, none, some, List, [], ◌∷◌, ◌++◌, map, Bool, true, false, not,
  ◌&&◌, ◌||◌, string_eq, if◌then◌else◌, exists, find_first,
}
use kirin.Types.{ConnectorType}
use kirin.Model.{text_truthy}
use kirin.Complete.Values.{Field, missing, null, value}
use kirin.Contributors.Rows.{Contributor, has_id, query_existing}

-- The body of a request: there is no JSON, it is refused by the schema, or it is valid.
pub data Body (A : Type 0) : Type 0 where
  no_json rejected : Body A
  valid : A → Body A

-- The status codes 200, 201, 204, 400 and 404.
pub data Status : Type 0 where
  http_ok created no_content bad_request not_found : Status

-- What is answered: a status, and the contributors in the body.
pub record Reply : Type 0 where
  pub status : Status
  pub contributors : List Contributor

abbrev pub only : Status → Reply
only status = record { status = status; contributors = [] }

-- `post_data_schema`
pub record PostData : Type 0 where
  pub id : Option String
  pub navitia_coverage : String
  pub navitia_token : Option String
  pub feed_url : Option String
  pub connector_type : ConnectorType
  pub retrieval_interval : Field ℤ
  pub is_active : Option Bool
  pub broker_url : Option String
  pub exchange_name : Option String
  pub queue_name : Option String
  pub nb_days_to_keep_trip_update : ℤ
  pub nb_days_to_keep_rt_update : ℤ

-- `put_data_schema`: any of the keys, of which some can be null.
pub record PutData : Type 0 where
  pub id : Option String
  pub navitia_coverage : Option String
  pub navitia_token : Field String
  pub feed_url : Field String
  pub connector_type : Option ConnectorType
  pub retrieval_interval : Field ℤ
  pub is_active : Option Bool
  pub broker_url : Field String
  pub exchange_name : Field String
  pub queue_name : Field String
  pub nb_days_to_keep_trip_update : Option ℤ
  pub nb_days_to_keep_rt_update : Option ℤ

-- `id or data.get("id")`
unfoldable pub or_id : Option String → Option String → Option String
or_id id data_id = if text_truthy id then id else data_id

-- `data.get(key, default)`
abbrev pub get_field : {A : Type 0} → Field A → Option A → Option A
get_field missing default = default
get_field null default = none
get_field (value a) default = some a

abbrev pub get_or : {A : Type 0} → Option A → A → A
get_or none default = default
get_or (some a) default = a

-- `any([...]) and not all([...])`
unfoldable pub is_partial : Option String → Option String → Option String → Bool
is_partial broker_url exchange_name queue_name =
    (text_truthy broker_url || (text_truthy exchange_name || text_truthy queue_name))
    && not (text_truthy broker_url && (text_truthy exchange_name && text_truthy queue_name))

-- The row that is inserted: the default of the column stands for an interval that is null.
unfoldable pub new_contributor : String → PostData → Contributor
new_contributor id data_ = record {
  id = id;
  navitia_coverage = data_.navitia_coverage;
  navitia_token = data_.navitia_token;
  feed_url = data_.feed_url;
  connector_type = data_.connector_type;
  retrieval_interval = or_else (get_field data_.retrieval_interval (some (pos 10))) (some (pos 10));
  is_active = get_or data_.is_active true;
  broker_url = data_.broker_url;
  exchange_name = data_.exchange_name;
  queue_name = data_.queue_name;
  nb_days_to_keep_trip_update = data_.nb_days_to_keep_trip_update;
  nb_days_to_keep_rt_update = data_.nb_days_to_keep_rt_update;
}

-- The commit, which refuses a missing key and one that is there.
unfoldable pub insert_contributor :
    Option String → PostData → List Contributor → List Contributor × Reply
unfolding new_contributor
insert_contributor none data_ rows = (rows, only bad_request)
insert_contributor (some id) data_ rows =
    if exists (has_id id) rows then (rows, only bad_request) else (
      rows ++ new_contributor id data_ ∷ [],
      record { status = created; contributors = new_contributor id data_ ∷ [] },
    )

unfoldable pub post_contributor :
    Option String → Body PostData → List Contributor → List Contributor × Reply
unfolding or_id is_partial insert_contributor
post_contributor id no_json rows = (rows, only bad_request)
post_contributor id rejected rows = (rows, only bad_request)
post_contributor id (valid data_) rows =
    if is_partial data_.broker_url data_.exchange_name data_.queue_name
    then (rows, only bad_request)
    else insert_contributor (or_id id data_.id) data_ rows

-- The columns of the keys that are there; the id is never one of them.
unfoldable pub set_columns : PutData → Contributor → Contributor
set_columns data_ c = record c {
  navitia_coverage = get_or data_.navitia_coverage c.navitia_coverage;
  navitia_token = get_field data_.navitia_token c.navitia_token;
  feed_url = get_field data_.feed_url c.feed_url;
  connector_type = get_or data_.connector_type c.connector_type;
  retrieval_interval = get_field data_.retrieval_interval c.retrieval_interval;
  is_active = get_or data_.is_active c.is_active;
  broker_url = get_field data_.broker_url c.broker_url;
  exchange_name = get_field data_.exchange_name c.exchange_name;
  queue_name = get_field data_.queue_name c.queue_name;
  nb_days_to_keep_trip_update =
      get_or data_.nb_days_to_keep_trip_update c.nb_days_to_keep_trip_update;
  nb_days_to_keep_rt_update = get_or data_.nb_days_to_keep_rt_update c.nb_days_to_keep_rt_update;
}

-- An update of the rows that pass the test.
unfoldable pub update_where :
    (Contributor → Bool) → (Contributor → Contributor) → List Contributor → List Contributor
update_where p f rows = map (λ c. if p c then f c else c) rows

abbrev pub answer_one : Status → Option Contributor → Reply
answer_one status none = only not_found
answer_one status (some c) = record { status = status; contributors = c ∷ [] }

unfoldable pub put_to : Option String → PutData → List Contributor → List Contributor × Reply
unfolding set_columns update_where find_first
put_to none data_ rows = (rows, only bad_request)
put_to (some id) data_ rows =
    let updated = update_where (has_id id) (set_columns data_) rows in
    (updated, answer_one http_ok (find_first (has_id id) updated))

unfoldable pub put_contributor :
    Option String → Body PutData → List Contributor → List Contributor × Reply
unfolding or_id put_to
put_contributor id no_json rows = (rows, only bad_request)
put_contributor id rejected rows = (rows, only bad_request)
put_contributor id (valid data_) rows = put_to (or_id id data_.id) data_ rows

unfoldable pub deactivate : Contributor → Contributor
deactivate c = record c { is_active = false }

-- Only an active contributor can be deleted, which deactivates it.
unfoldable pub delete_contributor : Option String → List Contributor → List Contributor × Reply
unfolding query_existing update_where deactivate
delete_contributor none rows = (rows, only bad_request)
delete_contributor (some id) rows =
    if exists (has_id id) (query_existing rows)
    then (update_where (has_id id) deactivate rows, only no_content)
    else (rows, only not_found)

unfoldable pub get_contributors : Option String → List Contributor → Reply
unfolding query_existing find_first
get_contributors none rows = record { status = http_ok; contributors = query_existing rows }
get_contributors (some id) rows = answer_one http_ok (find_first (has_id id) rows)

pub data Request : Type 0 where
  get_request delete_request : Option String → Request
  post_request : Option String → Body PostData → Request
  put_request : Option String → Body PutData → Request

unfoldable pub handle_request : Request → List Contributor → List Contributor × Reply
unfolding get_contributors delete_contributor post_contributor put_contributor
handle_request (get_request id) rows = (rows, get_contributors id rows)
handle_request (delete_request id) rows = delete_contributor id rows
handle_request (post_request id body) rows = post_contributor id body rows
handle_request (put_request id body) rows = put_contributor id body rows

-- The rows after a sequence of requests.
unfoldable pub after_requests : List Request → List Contributor → List Contributor
unfolding handle_request
after_requests [] rows = rows
after_requests (r ∷ requests) rows = after_requests requests (handle_request r rows).0
