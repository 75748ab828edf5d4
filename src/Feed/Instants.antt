-- ===== src/Feed/Instants.antt =====
-- The times of the published stop events (kirin/core/populate_pb.py).
use kirin.Prelude.{
  ℤ, pos, negsuc, ◌*ℤ◌, trunc_div, Option, some, ◌≡◌, ap, ◌∙◌, arith, Bool-cases, inl, inr, ◌==◌,
  int_eq, int_beq_iff,
}
use kirin.Model.{second, truthy, StopTimeUpdate, StopEvent, arrival, departure}
use kirin.Feed.{to_posix_time, delay_seconds, fill_stop_times}
use kirin.Feed.Relationships.{pb_event}

-- A whole number of seconds is read back exactly, also a negative one.
trunc_div-seconds : (s : ℤ) → trunc_div (s *ℤ second) second ≡ s
unfolding trunc_div ◌*ℤ◌
trunc_div-seconds (pos n) = ground arith
trunc_div-seconds (negsuc n) = ground arith

zero_of_seconds : (d : ℤ) → d *ℤ second ≡ pos 0 → pos 0 ≡ d
unfolding trunc_div
zero_of_seconds d e = rw e at (trunc_div-seconds d)

delay_seconds-whole : (d : ℤ) → delay_seconds (some (d *ℤ second)) ≡ d
unfolding delay_seconds truthy
delay_seconds-whole d = elim (Bool-cases (d *ℤ second == pos 0)) [
  | inl e ↦ rw e (zero_of_seconds d ((int_beq_iff (d *ℤ second) (pos 0)).0 e))
  | inr e ↦ rw e (trunc_div-seconds d)
]

abbrev stop_time : StopEvent → StopTimeUpdate → Option ℤ
stop_time arrival st = st.arrival
stop_time departure st = st.departure

abbrev stop_delay : StopEvent → StopTimeUpdate → Option ℤ
stop_delay arrival st = st.arrival_delay
stop_delay departure st = st.departure_delay

-- A time and a delay of whole seconds, before 1970 and early ones too, are published exactly.
pub fill_stop_times_seconds :
    (event : StopEvent) (st : StopTimeUpdate) (time delay : ℤ)
    → stop_time event st ≡ some (time *ℤ second)
    → stop_delay event st ≡ some (delay *ℤ second)
    → ((pb_event event (fill_stop_times st)).time ≡ time)
      × ((pb_event event (fill_stop_times st)).delay ≡ delay)
unfolding fill_stop_times to_posix_time
fill_stop_times_seconds arrival st time delay e f =
    (rw (e, to_posix_time) (trunc_div-seconds time), ap delay_seconds f ∙ delay_seconds-whole delay)
fill_stop_times_seconds departure st time delay e f =
    (rw (e, to_posix_time) (trunc_div-seconds time), ap delay_seconds f ∙ delay_seconds-whole delay)
