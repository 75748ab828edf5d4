-- ===== src/Polling/Failing.antt =====
-- A feed that cannot be retrieved (kirin/gtfs_rt/tasks.py: `gtfs_poller`).
use kirin.Prelude.{
  String, Option, none, some, List, Bool, true, false, ==_refl, string_eq, option_eq, Exception,
  ◌≡◌, refl,
}
use kirin.Types.{ConnectorType}
use kirin.Feed.{PbTripUpdate}
use kirin.RtUpdates.{Store, manage_db_error}
use kirin.RtUpdates.Memory.{is_remembered, manage_db_error_forgets}
use kirin.Handling.{World, with_store}
use kirin.Connector.{Setting}
use kirin.Polling.{
  Poll, Poller, Head, is_newer, is_recent, is_last_call_too_recent, poll_unless_recent,
  retrieve_if_newer, take_response, gtfs_poller,
}
use kirin.Polling.Newer.{is_newer_forgotten}

taken :
    (cfg : Setting) (broker : List PbTripUpdate → Bool) (error_text : Exception → String)
    (response : Option String) (w : World)
    → response ≡ none
    → (take_response cfg broker error_text response w).0.store
      ≡ manage_db_error cfg.now cfg.new_id "" ConnectorType.gtfs_rt cfg.contributor_id "Http Error"
          true w.store
unfolding take_response
taken cfg broker error_text none w e = refl
taken cfg broker error_text (some content) w e = cc

retrieved :
    (cfg : Setting) (broker : List PbTripUpdate → Bool) (error_text : Exception → String)
    (poll : Poll) (w : World) (newer : Store × Bool)
    → newer.1 ≡ true
    → poll.response ≡ none
    → (retrieve_if_newer cfg broker error_text poll w newer).0.store
      ≡ manage_db_error cfg.now cfg.new_id "" ConnectorType.gtfs_rt cfg.contributor_id "Http Error"
          true newer.0
unfolding retrieve_if_newer
retrieved cfg broker error_text poll w (s, true) n e =
    taken cfg broker error_text poll.response (with_store s w) e
retrieved cfg broker error_text poll w (s, false) n e = cc

passed :
    (cfg : Setting) (broker : List PbTripUpdate → Bool) (error_text : Exception → String)
    (poll : Poll) (p : Poller)
    → poll.locked ≡ true
    → poll.has_feed_url ≡ true
    → is_recent cfg.now poll.retrieval_interval p.last_call ≡ false
    → gtfs_poller cfg broker error_text poll p
      ≡ poll_unless_recent cfg broker error_text poll p.world (some cfg.now, false)
unfolding gtfs_poller is_last_call_too_recent
passed cfg broker error_text poll p l f r = rw (l, f, r) refl

retrieval_failed :
    (cfg : Setting) (broker : List PbTripUpdate → Bool) (error_text : Exception → String)
    (poll : Poll) (p : Poller)
    → poll.locked ≡ true
    → poll.has_feed_url ≡ true
    → is_recent cfg.now poll.retrieval_interval p.last_call ≡ false
    → (is_newer cfg.contributor_id poll.head p.world.store).1 ≡ true
    → poll.response ≡ none
    → (gtfs_poller cfg broker error_text poll p).0.world.store
      ≡ manage_db_error cfg.now cfg.new_id "" ConnectorType.gtfs_rt cfg.contributor_id "Http Error"
          true
          (is_newer cfg.contributor_id poll.head p.world.store).0
unfolding poll_unless_recent
retrieval_failed cfg broker error_text poll p l f r n e =
    rw (passed cfg broker error_text poll p l f r) (
      retrieved cfg broker error_text poll p.world
        (is_newer cfg.contributor_id poll.head p.world.store) n e)

-- Where a feed that seemed new could not be retrieved, the next HEAD request finds it new again,
-- whatever its answer is.
pub gtfs_poller_failed :
    (cfg : Setting) (broker : List PbTripUpdate → Bool) (error_text : Exception → String)
    (poll : Poll) (p : Poller) (next : Head)
    → poll.locked ≡ true
    → poll.has_feed_url ≡ true
    → is_recent cfg.now poll.retrieval_interval p.last_call ≡ false
    → (is_newer cfg.contributor_id poll.head p.world.store).1 ≡ true
    → poll.response ≡ none
    → (is_newer cfg.contributor_id next (gtfs_poller cfg broker error_text poll p).0.world.store).1
      ≡ true
gtfs_poller_failed cfg broker error_text poll p next l f r n e =
    let s = (is_newer cfg.contributor_id poll.head p.world.store).0 in
    let managed =
      manage_db_error cfg.now cfg.new_id "" ConnectorType.gtfs_rt cfg.contributor_id "Http Error"
        true s in
    let m =
      manage_db_error_forgets cfg.now cfg.new_id "" ConnectorType.gtfs_rt cfg.contributor_id
        "Http Error" true s cfg.contributor_id in
    let forgotten : is_remembered cfg.contributor_id managed.etags ≡ false =
      rw (==_refl cfg.contributor_id) at m in
    rw (retrieval_failed cfg broker error_text poll p l f r n e)
      (is_newer_forgotten cfg.contributor_id next managed forgotten)
