-- ===== src/Model/StopUpdates.antt =====
-- kirin/core/model.py: `StopTimeUpdate`. The generated id, the timestamps of the mixin and the
-- foreign key are not modelled. `navitia_stop` is the attribute that is not persisted.
use kirin.Prelude.{
  ℕ, ℤ, String, Option, none, some, Bool, ◌||◌, not, ◌==◌, nat_eq, int_eq, string_eq, option_eq,
  ◌≡◌, or_else,
}
use kirin.Types.{
  ModificationType, add, delete, unchanged, deleted_for_detour, added_for_detour, status_eq,
}
use kirin.Model.Navitia.{StopPoint}

-- The `event_name` of the source, "arrival" or "departure".
pub data StopEvent : Type 0 where
  arrival departure : StopEvent

pub record StopTimeUpdate : Type 0 where
  pub order : Option ℕ
  pub navitia_stop : StopPoint
  pub stop_id : String
  pub message : Option String
  pub departure : Option ℤ
  pub departure_delay : Option ℤ
  pub departure_status : ModificationType
  pub arrival : Option ℤ
  pub arrival_delay : Option ℤ
  pub arrival_status : ModificationType

-- `StopTimeUpdate(navitia_stop)` with the defaults of `__init__`.
unfoldable pub new_stop_time_update : StopPoint → StopTimeUpdate
new_stop_time_update sp = record {
  order = none;
  navitia_stop = sp;
  stop_id = sp.id;
  message = none;
  departure = none;
  departure_delay = none;
  departure_status = unchanged;
  arrival = none;
  arrival_delay = none;
  arrival_status = unchanged;
}

unfoldable pub update_departure :
    StopTimeUpdate → Option ℤ → Option ℤ → Option ModificationType → StopTimeUpdate
update_departure stu time delay status = record stu {
  departure = or_else time stu.departure;
  departure_delay = or_else delay stu.departure_delay;
  departure_status = elim status [ none ↦ stu.departure_status | some s ↦ s ];
}

unfoldable pub update_arrival :
    StopTimeUpdate → Option ℤ → Option ℤ → Option ModificationType → StopTimeUpdate
update_arrival stu time delay status = record stu {
  arrival = or_else time stu.arrival;
  arrival_delay = or_else delay stu.arrival_delay;
  arrival_status = elim status [ none ↦ stu.arrival_status | some s ↦ s ];
}

unfoldable pub is_not_equal : StopTimeUpdate → StopTimeUpdate → Bool
is_not_equal a b =
    not (a.stop_id == b.stop_id)
    || (not (a.message == b.message)
        || (not (a.order == b.order)
            || (not (a.departure == b.departure)
                || (not (a.departure_delay == b.departure_delay)
                    || (not (a.departure_status == b.departure_status)
                        || (not (a.arrival == b.arrival)
                            || (not (a.arrival_delay == b.arrival_delay)
                                || not (a.arrival_status == b.arrival_status))))))))

unfoldable pub get_stop_event_status : StopEvent → StopTimeUpdate → ModificationType
get_stop_event_status arrival stu = stu.arrival_status
get_stop_event_status departure stu = stu.departure_status

unfoldable pub is_stop_event_deleted : StopEvent → StopTimeUpdate → Bool
unfolding get_stop_event_status
is_stop_event_deleted event stu =
    let status = get_stop_event_status event stu in status == delete || status == deleted_for_detour

unfoldable pub is_stop_event_added : StopEvent → StopTimeUpdate → Bool
unfolding get_stop_event_status
is_stop_event_added event stu =
    let status = get_stop_event_status event stu in status == add || status == added_for_detour

-- All columns that `is_not_equal` compares agree.
pub record SameColumns (a b : StopTimeUpdate) : Type 0 where
  pub stop_id : a.stop_id ≡ b.stop_id
  pub message : a.message ≡ b.message
  pub order : a.order ≡ b.order
  pub departure : a.departure ≡ b.departure
  pub departure_delay : a.departure_delay ≡ b.departure_delay
  pub departure_status : a.departure_status ≡ b.departure_status
  pub arrival : a.arrival ≡ b.arrival
  pub arrival_delay : a.arrival_delay ≡ b.arrival_delay
  pub arrival_status : a.arrival_status ≡ b.arrival_status
