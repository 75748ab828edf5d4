-- ===== src/Cleaning/Loading.antt =====
-- kirin/rabbitmq_handler.py: `_on_request`, the answer to a request for all the real time. The
-- decoding of the request and the parsing of a date (none for a text that is no date) are parameters.
-- What is returned is what is handed to the broker: its retries and its failure, logs and metrology are
-- not modelled.
use kirin.Prelude.{
  ℤ, String, Option, none, some, List, map, Bool, ◌==◌, string_eq, if◌then◌else◌, Result, ok, ◌>>=◌,
}
use kirin.Model.{TripUpdate}
use kirin.Feed.{PbTripUpdate, convert_to_gtfsrt}
use kirin.Cleaning.Database.{TripUpdateRow, Database, find_by_contributor_period}

-- A decoded `task_pb2.Task`; the texts are empty where protobuf has none.
pub record Task : Type 0 where
  pub is_load_realtime : Bool
  pub contributors : List String
  pub begin_date : String
  pub end_date : String
  pub queue_name : String

-- `str_to_date`
unfoldable pub str_to_date : (String → Option ℤ) → String → Option ℤ
str_to_date parse_date s = if s == "" then none else parse_date s

abbrev pub trip_updates_of : List TripUpdateRow → List TripUpdate
trip_updates_of rows = map (λ (row : TripUpdateRow). row.trip_update) rows

-- What is published, with the queue that it is for: nothing for a request that cannot be decoded or
-- asks for something else.
unfoldable pub on_request :
    (String → Option ℤ) → Option Task → Database → Result (Option (String × List PbTripUpdate))
unfolding str_to_date find_by_contributor_period
on_request parse_date none db = ok none
on_request parse_date (some task) db =
    if task.is_load_realtime
    then (do
      feed ← convert_to_gtfsrt (
          trip_updates_of (
            find_by_contributor_period task.contributors (str_to_date parse_date task.begin_date)
              (str_to_date parse_date task.end_date) db))
      ok (some (task.queue_name, feed)))
    else ok none
