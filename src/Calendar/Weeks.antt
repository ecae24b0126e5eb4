-- ===== src/Calendar/Weeks.antt =====
-- ISO weeks: how many a year has, and which days a week names.
use tgs_hrms.Base.{ℕ, ◌+◌, ◌-◌, ◌/◌, ◌≤◌, ◌<◌, ◌≡◌, arith, ◌==◌, if◌then◌else◌, ok}
use tgs_hrms.Calendar.{get_utc_day, leap_day, year_start, utc_year, iso_weeks_in_year, week_days}

-- A year has 53 ISO weeks if 1 January is a Thursday, or a Wednesday of a leap year, and 52 if not.
pub iso_weeks_in_year_lem :
    (y : ℕ)
    → let first = get_utc_day (year_start (utc_year y)) in
      iso_weeks_in_year y
      ≡ (if first == 4 then 53 else if first == 3 then 52 + leap_day (utc_year y) else 52)
unfolding iso_weeks_in_year
iso_weeks_in_year_lem y = ground arith

-- the first day that can be named lies far behind day 0, so no subtraction is cut off
year_start-ge : (y : ℕ) → 100 ≤ year_start (utc_year y)
unfolding year_start utc_year
year_start-ge y = ground arith

-- A week that is accepted runs from a Monday to the Sunday behind it, and its Thursday lies in the
-- year that was named: it is the week of that number by ISO 8601.
pub week_days_lem :
    (year week monday sunday : ℕ)
    → week_days year week ≡ ok (monday, sunday)
    → (get_utc_day monday ≡ 1)
      × (sunday ≡ monday + 6)
      × (year_start (utc_year year) ≤ monday + 3)
      × (monday + 3 < year_start (utc_year year) + 365 + leap_day (utc_year year))
      × (1 ≤ week)
      × ((monday + 3 - year_start (utc_year year)) / 7 + 1 ≡ week)
unfolding week_days
week_days_lem year week monday sunday h =
    ground (arith, year_start-ge year, iso_weeks_in_year_lem year)
