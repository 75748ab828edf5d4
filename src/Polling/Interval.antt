-- ===== src/Polling/Interval.antt =====
-- The interval between two calls (kirin/gtfs_rt/tasks.py: `_is_last_call_too_recent`, `gtfs_poller`).
use kirin.Prelude.{
  ℕ, ℤ, pos, ◌≤ℤ◌, ◌+ℤ◌, ◌*◌, String, some, List, Bool, true, false, not, ◌||◌, ok, Exception, ◌≡◌,
  refl, arith, Bool-cases, inl, inr,
}
use kirin.Model.{second}
use kirin.Feed.{PbTripUpdate}
use kirin.Connector.{Setting}
use kirin.Polling.{
  Poll, Poller, is_recent, is_last_call_too_recent, poll_unless_recent, gtfs_poller,
}

-- A call that has passed the lock and the interval keeps its moment, whatever becomes of it.
called :
    (cfg : Setting) (broker : List PbTripUpdate → Bool) (error_text : Exception → String)
    (poll : Poll) (p : Poller)
    → poll.locked ≡ true
    → poll.has_feed_url ≡ true
    → is_recent cfg.now poll.retrieval_interval p.last_call ≡ false
    → (gtfs_poller cfg broker error_text poll p).0.last_call ≡ some cfg.now
unfolding gtfs_poller is_last_call_too_recent poll_unless_recent
called cfg broker error_text poll p l f r = rw (l, f, r) refl

too_recent :
    (cfg : Setting) (broker : List PbTripUpdate → Bool) (error_text : Exception → String)
    (poll : Poll) (p : Poller)
    → is_recent cfg.now poll.retrieval_interval p.last_call ≡ true
    → gtfs_poller cfg broker error_text poll p ≡ (p, ok tt)
unfolding gtfs_poller is_last_call_too_recent poll_unless_recent
too_recent cfg broker error_text poll p r =
    elim (Bool-cases (not poll.locked || not poll.has_feed_url)) [
      | inl b ↦ rw b refl
      | inr b ↦ rw (b, r) refl
    ]

recent_after :
    (first now : ℤ) (interval : ℕ)
    → now ≤ℤ first +ℤ pos (interval * second)
    → is_recent now interval (some first) ≡ true
unfolding is_recent
recent_after first now interval h = ground arith

-- After a call that has passed the lock and the interval, also one that raises, a call that comes
-- before the interval has passed does nothing.
pub gtfs_poller_rate :
    (cfg cfg' : Setting) (broker : List PbTripUpdate → Bool) (error_text : Exception → String)
    (poll poll' : Poll) (p : Poller)
    → poll.locked ≡ true
    → poll.has_feed_url ≡ true
    → is_recent cfg.now poll.retrieval_interval p.last_call ≡ false
    → cfg'.now ≤ℤ cfg.now +ℤ pos (poll'.retrieval_interval * second)
    → let after = (gtfs_poller cfg broker error_text poll p).0 in
      gtfs_poller cfg' broker error_text poll' after ≡ (after, ok tt)
gtfs_poller_rate cfg cfg' broker error_text poll poll' p l f r h =
    let after = (gtfs_poller cfg broker error_text poll p).0 in
    let c = called cfg broker error_text poll p l f r in
    too_recent cfg' broker error_text poll' after
      (rw c (recent_after cfg.now cfg'.now poll'.retrieval_interval h))
