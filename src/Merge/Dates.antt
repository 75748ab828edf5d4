-- ===== src/Merge/Dates.antt =====
-- The dates that the loop of `merge` (kirin/core/merge_utils.py) gives to times of day.
use kirin.Prelude.{
  ℕ, ◌<◌, ◌≤◌, ltb, ℤ, pos, ◌+ℤ◌, ◌≤ℤ◌, ◌<ℤ◌, int_laws, some, ◌≡◌, ◌⊎◌, arith, Bool-cases, inl, inr,
  +ℤ_parts,
}
use kirin.Model.{day, one_day, combine, combine_parts}
use kirin.Merge.Loop.{TimeDelay, Clock, is_past_midnight, date_event, past_midnight}

-- One more day, at the same time of day.
pub combine_next_day : (date : ℤ) (t : ℕ) → combine (date +ℤ pos 1) t ≡ combine date t +ℤ one_day
combine_next_day date t = omega (int_laws, combine_parts date t, combine_parts (date +ℤ pos 1) t)

pub combine_mono : (date : ℤ) (p t : ℕ) → p ≤ t → combine date p ≤ℤ combine date t
combine_mono date p t h = omega (int_laws, combine_parts date p, combine_parts date t)

pub combine_lt_next_day :
    (date : ℤ) (p t : ℕ) → t < p → p < day → combine date p ≤ℤ combine (date +ℤ pos 1) t
combine_lt_next_day date p t h k =
    omega (int_laws, combine_parts date p, combine_parts (date +ℤ pos 1) t)

combine_before_next_day :
    (date : ℤ) (p t : ℕ) → t < p → combine (date +ℤ pos 1) t <ℤ combine date p +ℤ one_day
combine_before_next_day date p t h =
    omega (int_laws, combine_parts date p, combine_parts (date +ℤ pos 1) t)

combine_before_day : (date : ℤ) (p t : ℕ) → t < day → combine date t <ℤ combine date p +ℤ one_day
combine_before_day date p t h = omega (int_laws, combine_parts date p, combine_parts date t)

abbrev pub clock_at : ℤ → ℕ → ℤ → Clock
clock_at date p d = record {
  circulation_date = date;
  previous_stop_event = record { time = some p; delay = d };
}

past_midnight_same_delay : (p t : ℕ) (d : ℤ) → past_midnight (some p) (some t) d d ≡ ltb t p
unfolding past_midnight
past_midnight_same_delay p t d = ground (arith, +ℤ_parts (pos t) d, +ℤ_parts (pos p) d)

-- An event that follows one with the same delay is dated at the first moment with its time of day
-- that is not before the other's, and becomes the previous event.
pub date_event_after :
    (date d : ℤ) (p t : ℕ)
    → p < day
    → t < day
    → (next : ℤ) × (date_event (clock_at date p d) (record { time = some t; delay = d })
        ≡ (clock_at next t d, some (combine next t)))
      × (combine date p ≤ℤ combine next t)
      × (combine next t <ℤ combine date p +ℤ one_day)
unfolding date_event is_past_midnight
date_event_after date d p t hp ht = elim (Bool-cases (ltb t p)) [
  | inl e ↦ (
    date +ℤ pos 1,
    rw (past_midnight_same_delay, e),
    omega (int_laws, combine_lt_next_day date p t (ground arith) hp),
    combine_before_next_day date p t (ground arith),
  )
  | inr e ↦ (
    date,
    rw (past_midnight_same_delay, e),
    combine_mono date p t (ground arith),
    combine_before_day date p t ht,
  )
]

-- The date stays or goes on by one day at each event, whatever the delays are.
pub date_event_step :
    (clock : Clock) (event : TimeDelay)
    → ((date_event clock event).0.circulation_date ≡ clock.circulation_date)
      ⊎ ((date_event clock event).0.circulation_date ≡ clock.circulation_date +ℤ pos 1)
unfolding date_event
date_event_step clock event = ground arith
