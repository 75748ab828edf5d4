-- ===== src/Examples/Adjusting.antt =====
-- Runs of `manage_consistency` and of the methods of the model.
use kirin.Prelude.{◌*◌, ◌+◌, pos, none, some, [], ◌∷◌, map, ◌≡◌, refl, All, true, arith, ◌-ℤ◌, ◌+ℤ◌}
use kirin.Model.{day, TripUpdate, is_stop_event_deleted, get_stop_event_status}
use kirin.Consistency.{
  manage_consistency, manage_stops, manage_stop, filled_arrival, filled_delay, or_zero, settle_stop,
  settle, push, with_events,
}
use kirin.Consistency.Sequence.{InSequence, IsComplete, manage_consistency_accepted}
use kirin.Consistency.Adjusted.{
  SortedFrom, After, base, served_events, stop_events, manage_consistency_sorted,
}
use kirin.Consistency.Idempotent.{manage_consistency_idem}
use kirin.Examples.{minute, stop_point_a, stop_point_b, silent, delayed_stop}

-- Left at 23:55, reached at 0:10 of the next day, both half an hour and ten minutes late: the second
-- stop comes before the first one.
abbrev timed_trip : TripUpdate
timed_trip = record silent {
  stop_time_updates =
      record (delayed_stop stop_point_a 0 (pos (30 * minute))) {
        arrival = some (pos (19000 * day + 1430 * minute));
        departure = some (pos (19000 * day + 1435 * minute));
      }
      ∷ record (delayed_stop stop_point_b 1 (pos 0)) {
        arrival = some (pos (19000 * day + 1410 * minute));
        departure = some (pos (19000 * day + 1415 * minute));
      }
      ∷ [];
}

accepted : (manage_consistency timed_trip).1 ≡ true
unfolding manage_consistency manage_stops manage_stop filled_arrival filled_delay or_zero
    settle_stop settle push with_events is_stop_event_deleted get_stop_event_status ◌+ℤ◌ ◌-ℤ◌
accepted = refl

manage_consistency_accepted_example :
    InSequence 0 (manage_consistency timed_trip).0.stop_time_updates
    × All IsComplete (manage_consistency timed_trip).0.stop_time_updates
manage_consistency_accepted_example = manage_consistency_accepted timed_trip accepted

manage_consistency_sorted_example :
    (map base (served_events (manage_consistency timed_trip).0.stop_time_updates)
      ≡ map base (served_events timed_trip.stop_time_updates))
    × SortedFrom After none (served_events (manage_consistency timed_trip).0.stop_time_updates)
unfolding served_events stop_events base manage_consistency manage_stops manage_stop filled_arrival
    filled_delay or_zero settle_stop settle push with_events is_stop_event_deleted
    get_stop_event_status ◌+ℤ◌ ◌-ℤ◌
manage_consistency_sorted_example =
    manage_consistency_sorted timed_trip ((refl, refl, refl, refl), ((refl, refl, refl, refl), tt))
      accepted (tt, (omega arith, (omega arith, (omega arith, tt))))

manage_consistency_idem_example :
    manage_consistency (manage_consistency timed_trip).0 ≡ ((manage_consistency timed_trip).0, true)
manage_consistency_idem_example = manage_consistency_idem timed_trip accepted
