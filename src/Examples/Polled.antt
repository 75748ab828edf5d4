-- ===== src/Examples/Polled.antt =====
-- Runs of the poller.
use kirin.Prelude.{
  ◌+ℤ◌, ℤ, pos, String, none, some, List, [], ◌∷◌, true, Bool, ◌≡◌, refl, Exception,
}
use kirin.Types.{ConnectorType}
use kirin.Feed.{PbTripUpdate}
use kirin.Model.{text_truthy}
use kirin.RtUpdates.{Store, remove_key}
use kirin.Connector.{Setting}
use kirin.Polling.{
  Poll, Poller, answered, is_newer, get_etag, set_etag, compare_etag, is_recent, gtfs_poller,
}
use kirin.Polling.Failing.{gtfs_poller_failed}

abbrev redis : Store
redis = record { real_time_updates = []; etags = ("realtime.day", "v8") ∷ [] }

abbrev at : ℤ → Setting
at now = record {
  contributor_id = "realtime.day";
  connector_type = ConnectorType.gtfs_rt;
  parse = λ input. none;
  escaped = λ input. input;
  text_of = λ proto. "feed";
  no_information = λ timestamp. "no information";
  navitia = λ code since_dt until_dt. [];
  now = now;
  new_id = 2;
}

-- The HEAD request has a new ETag, and the GET request fails.
abbrev poll : Poll
poll = record {
  locked = true;
  has_feed_url = true;
  retrieval_interval = 10;
  head = answered (some "v9");
  response = none;
}

abbrev first_poller : Poller
first_poller = record {
  world = record { store = redis; trip_updates = []; published = []; calls = [] };
  last_call = none;
}

abbrev any_broker : List PbTripUpdate → Bool
any_broker feed = true

abbrev text_of_error : Exception → String
text_of_error e = "error"

seems_new : (is_newer "realtime.day" (answered (some "v9")) redis).1 ≡ true
unfolding is_newer compare_etag get_etag set_etag text_truthy remove_key
seems_new = refl

gtfs_poller_failed_example :
    (is_newer "realtime.day"
      (answered (some "v9"))
      (gtfs_poller (at (pos 7)) any_broker text_of_error poll first_poller).0.world.store).1
    ≡ true
unfolding is_recent ◌+ℤ◌
gtfs_poller_failed_example =
    gtfs_poller_failed (at (pos 7)) any_broker text_of_error poll first_poller
      (answered (some "v9")) refl refl refl seems_new refl
