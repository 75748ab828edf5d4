-- ===== src/Polling.antt =====
-- kirin/gtfs_rt/tasks.py: the polling of a GTFS-RT contributor. HTTP answers are arguments: the HEAD
-- request raises or has an ETag or not, the GET request fails or has a content. The lock and the
-- settings of the task are arguments too, and so is its contributor: where the query finds none, the
-- task raises before it does anything, which is not modelled. Celery, the retries and logs are not
-- modelled. Redis forgets the last call ten seconds after its interval has ended, which no operation can
-- tell.
pub mod Newer
pub mod Interval
pub mod Failing
use kirin.Prelude.{
  ℕ, ℤ, pos, ltb_ℤ, ◌+ℤ◌, ◌*◌, String, Option, none, some, List, [], ◌∷◌, Bool, true, false, not,
  ◌||◌, if◌then◌else◌, ◌==◌, string_eq, option_eq, Result, ok, err, Exception,
}
use kirin.Types.{ConnectorType}
use kirin.Model.{second, text_truthy}
use kirin.Feed.{PbTripUpdate}
use kirin.RtUpdates.{Store, remove_key, manage_db_error, manage_db_no_new}
use kirin.Handling.{World, with_store, wrap_build}
use kirin.Connector.{Setting, gtfs_rt_builder}

-- `redis_client.get`
unfoldable pub get_etag : String → List (String × String) → Option String
get_etag contributor [] = none
get_etag contributor (k ∷ keys) =
    let rest = get_etag contributor keys in if k.0 == contributor then some k.1 else rest

-- `redis_client.set`
unfoldable pub set_etag : String → String → Store → Store
set_etag contributor etag s = record s {
  etags = (contributor, etag) ∷ remove_key contributor s.etags;
}

-- What the HEAD request gives.
pub data Head : Type 0 where
  raised : Head
  answered : Option String → Head

unfoldable pub compare_etag : String → Option String → Store → Store × Bool
unfolding get_etag set_etag
compare_etag contributor none s = (s, true)
compare_etag contributor (some new_etag) s =
    if get_etag contributor s.etags == some new_etag
    then (s, false)
    else (set_etag contributor new_etag s, true)

-- An empty ETag is none.
unfoldable pub is_newer : String → Head → Store → Store × Bool
unfolding compare_etag
is_newer contributor raised s = (s, true)
is_newer contributor (answered new_etag) s =
    compare_etag contributor (if text_truthy new_etag then new_etag else none) s

-- `now <= last_exe_dt + as_duration(minimal_call_interval)`
unfoldable pub is_recent : ℤ → ℕ → Option ℤ → Bool
is_recent now interval none = false
is_recent now interval (some last_exe_dt) = not (ltb_ℤ (last_exe_dt +ℤ pos (interval * second)) now)

-- The last call that redis has afterwards, and the answer.
unfoldable pub is_last_call_too_recent : ℤ → ℕ → Option ℤ → Option ℤ × Bool
unfolding is_recent
is_last_call_too_recent now minimal_call_interval last_exe_dt =
    if is_recent now minimal_call_interval last_exe_dt
    then (last_exe_dt, true)
    else (some now, false)

pub record Poller : Type 0 where
  pub world : World
  pub last_call : Option ℤ

-- What one run of the task meets.
pub record Poll : Type 0 where
  pub locked : Bool
  pub has_feed_url : Bool
  pub retrieval_interval : ℕ
  pub head : Head
  pub response : Option String

-- The feed is retrieved: an error is recorded, a content is processed.
unfoldable pub take_response :
    Setting
    → (List PbTripUpdate → Bool)
    → (Exception → String)
    → Option String
    → World
    → World × Result (Unit {0})
take_response cfg broker error_text none w = (
  with_store
      (manage_db_error cfg.now cfg.new_id "" ConnectorType.gtfs_rt cfg.contributor_id "Http Error"
        true w.store)
      w,
  ok tt,
)
take_response cfg broker error_text (some content) w =
    wrap_build (gtfs_rt_builder cfg) broker error_text cfg.now content w

unfoldable pub retrieve_if_newer :
    Setting
    → (List PbTripUpdate → Bool)
    → (Exception → String)
    → Poll
    → World
    → Store × Bool
    → World × Result (Unit {0})
unfolding take_response
retrieve_if_newer cfg broker error_text poll w (s, true) =
    take_response cfg broker error_text poll.response (with_store s w)
retrieve_if_newer cfg broker error_text poll w (s, false) =
    (with_store (manage_db_no_new cfg.now ConnectorType.gtfs_rt cfg.contributor_id s) w, ok tt)

unfoldable pub poll_unless_recent :
    Setting
    → (List PbTripUpdate → Bool)
    → (Exception → String)
    → Poll
    → World
    → Option ℤ × Bool
    → Poller × Result (Unit {0})
unfolding retrieve_if_newer is_newer
poll_unless_recent cfg broker error_text poll w (last_call, true) =
    (record { world = w; last_call = last_call }, ok tt)
poll_unless_recent cfg broker error_text poll w (last_call, false) =
    let (w', r) =
      retrieve_if_newer cfg broker error_text poll w
        (is_newer cfg.contributor_id poll.head w.store) in
    (record { world = w'; last_call = last_call }, r)

unfoldable pub gtfs_poller :
    Setting
    → (List PbTripUpdate → Bool)
    → (Exception → String)
    → Poll
    → Poller
    → Poller × Result (Unit {0})
unfolding poll_unless_recent is_last_call_too_recent
gtfs_poller cfg broker error_text poll p =
    if not poll.locked || not poll.has_feed_url
    then (p, ok tt)
    else poll_unless_recent cfg broker error_text poll p.world
        (is_last_call_too_recent cfg.now poll.retrieval_interval p.last_call)
