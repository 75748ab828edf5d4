-- ===== src/Model/Time.antt =====
-- Python's datetime values. A naive (UTC) datetime is a number of microseconds since 1970-01-01, a
-- timedelta is a number of microseconds, a date a number of days, and a time of day a number of
-- microseconds below one day. All datetimes here are naive, so the code's guards on `tzinfo` never
-- fire; the OverflowError outside the years 1 to 9999 is not modelled.
use kirin.Prelude.{
  ℕ, ◌+◌, ◌-◌, ◌*◌, ◌/◌, ◌%◌, ◌<◌, ◌≡◌, ℤ, pos, negsuc, ◌+ℤ◌, ◌*ℤ◌, floor_div, floor_mod, +ℤ_parts,
  pos_part, neg_part, int_laws, arith, Bool, false, Option, none, some, not, ◌==◌, int_eq,
}

abbrev pub second : ℕ
second = 1_000_000

abbrev pub day : ℕ
day = 86_400_000_000

-- `datetime.timedelta(days=1)`
abbrev pub one_day : ℤ
one_day = pos day

-- `datetime.datetime.combine(date, time)`
unfoldable pub combine : ℤ → ℕ → ℤ
combine date time = date *ℤ day +ℤ pos time

-- `dt.date()`
unfoldable pub date_of : ℤ → ℤ
date_of dt = floor_div dt day

-- `dt.time()`
unfoldable pub time_of : ℤ → ℕ
time_of dt = floor_mod dt day

-- Python's truth of a timedelta that may be missing: `None` and zero are false.
unfoldable pub truthy : Option ℤ → Bool
truthy none = false
truthy (some d) = not (d == pos 0)

pub combine_parts :
    (date : ℤ) (time : ℕ)
    → pos_part (combine date time) + neg_part date * day
      ≡ neg_part (combine date time) + pos_part date * day + time
unfolding combine ◌*ℤ◌
combine_parts (pos d) t = ground (arith, +ℤ_parts (pos d *ℤ day) (pos t))
combine_parts (negsuc d) t = ground (arith, +ℤ_parts (negsuc d *ℤ day) (pos t))

-- A datetime is its date and its time of day.
pub combine-date_of-time_of : (dt : ℤ) → combine (date_of dt) (time_of dt) ≡ dt
unfolding date_of time_of floor_div floor_mod
combine-date_of-time_of (pos n) = omega (int_laws, combine_parts (pos (n / day)) (n % day))
combine-date_of-time_of (negsuc n) =
    omega (int_laws, combine_parts (negsuc (n / day)) (day - 1 - n % day))

pub time_of-lt : (dt : ℤ) → time_of dt < day
unfolding time_of floor_mod
time_of-lt (pos n) = omega arith
time_of-lt (negsuc n) = omega arith
