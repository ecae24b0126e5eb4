-- ===== src/Calendar.antt =====
-- Days, as JavaScript's Date has them in UTC: a day is its number, 0 for 1 January of the year 0 in
-- the Gregorian calendar. `parseISOWeek` and `isoWeeksInYear` of
-- src/modules/workflow/workflow.service.ts, and `findWeekdayInRange` of
-- src/modules/overtime/overtime.service.ts, `calculateWorkingDays` of
-- src/modules/leave/leave.service.ts, and the years of a Date that the latter reads and moves.
--
-- A loop over days takes as fuel the number of days from its start to its end.
pub mod Weeks
pub mod Ranges
pub mod Years
pub mod WorkingDays
use tgs_hrms.Base.{
  ℕ, zero, suc, ◌+◌, ◌-◌, ◌*◌, ◌/◌, ◌%◌, Text, Bool, true, false, not, ◌&&◌, ◌||◌, Option, none,
  some, List, [], ◌∷◌, ◌==◌, leb, ltb, if◌then◌else◌, Result, ok, err, bad_request,
  invalid_week_format, invalid_week,
}

-- `getUTCDay()`: 0 is Sunday. Day 0 was a Saturday.
unfoldable pub get_utc_day : ℕ → ℕ
get_utc_day d = (d + 6) % 7

-- `getUTCDay() || 7`
unfoldable pub iso_day : ℕ → ℕ
unfolding get_utc_day
iso_day d = if get_utc_day d == 0 then 7 else get_utc_day d

abbrev pub is_weekend : ℕ → Bool
is_weekend d = get_utc_day d == 0 || get_utc_day d == 6

abbrev pub is_leap : ℕ → Bool
is_leap y = (y % 4 == 0) && (not (y % 100 == 0) || (y % 400 == 0))

abbrev pub leap_day : ℕ → ℕ
leap_day y = if is_leap y then 1 else 0

-- 1 January
unfoldable pub year_start : ℕ → ℕ
year_start y = 365 * y + (y + 3) / 4 + (y + 399) / 400 - (y + 99) / 100

-- `Date.UTC` reads a year below 100 as one of the twentieth century.
unfoldable pub utc_year : ℕ → ℕ
utc_year y = if ltb y 100 then 1900 + y else y

-- `Date.UTC(year, 0, 4)`
unfoldable pub jan4 : ℕ → ℕ
unfolding utc_year
jan4 y = year_start (utc_year y) + 3

-- `Date.UTC(year, 11, 28)`: December starts 334 or 335 days into the year
unfoldable pub dec28 : ℕ → ℕ
unfolding utc_year
dec28 y = year_start (utc_year y) + 334 + leap_day (utc_year y) + 27

-- `d.setUTCDate(d.getUTCDate() - (day - 1))`
unfoldable pub monday_of : ℕ → ℕ
unfolding iso_day
monday_of d = d - (iso_day d - 1)

-- The two Mondays are whole weeks apart, so `Math.round` rounds nothing.
unfoldable pub iso_weeks_in_year : ℕ → ℕ
unfolding monday_of jan4 dec28
iso_weeks_in_year y = (monday_of (dec28 y) - monday_of (jan4 y)) / 7 + 1

abbrev is_digit : ℕ → Bool
is_digit c = leb b'0' c && leb c b'9'

abbrev digit : ℕ → ℕ
digit c = c - b'0'

-- the groups of /^(\d{4})-W(\d{1,2})$/, as numbers
unfoldable pub match_week : Text → Option (ℕ × ℕ)
match_week (a ∷ b ∷ c ∷ d ∷ dash ∷ w ∷ e ∷ []) =
    if is_digit a
      && is_digit b
      && is_digit c
      && is_digit d
      && (dash == b'-')
      && (w == b'W')
      && is_digit e
    then some (digit a * 1000 + digit b * 100 + digit c * 10 + digit d, digit e)
    else none
match_week (a ∷ b ∷ c ∷ d ∷ dash ∷ w ∷ e ∷ f ∷ []) =
    if is_digit a
      && is_digit b
      && is_digit c
      && is_digit d
      && (dash == b'-')
      && (w == b'W')
      && is_digit e
      && is_digit f
    then some (digit a * 1000 + digit b * 100 + digit c * 10 + digit d, digit e * 10 + digit f)
    else none
match_week _ = none

-- the range that follows the match: the Monday of the week, and its Sunday
unfoldable pub week_days : ℕ → ℕ → Result (ℕ × ℕ)
unfolding jan4 iso_day
week_days year week =
    if ltb week 1 || ltb (iso_weeks_in_year year) week
    then err (bad_request invalid_week)
    else let monday = jan4 year - (iso_day (jan4 year) - 1) + (week - 1) * 7 in
      ok (monday, monday + 6)

unfoldable pub parse_iso_week : Text → Result (ℕ × ℕ)
unfolding match_week week_days
parse_iso_week week = elim (match_week week) [
  | none ↦ err (bad_request invalid_week_format)
  | some (year, number) ↦ week_days year number
]

-- `while (cursor <= endDate)` of `findWeekdayInRange`
unfoldable pub find_weekday_from : ℕ → ℕ → ℕ → Option ℕ
find_weekday_from zero cursor end = none
find_weekday_from (suc fuel) cursor end =
    let rest = find_weekday_from fuel (cursor + 1) end in
    if leb cursor end then (if is_weekend cursor then rest else some cursor) else none

unfoldable pub find_weekday_in_range : ℕ → ℕ → Option ℕ
unfolding find_weekday_from
find_weekday_in_range start end = find_weekday_from (end + 1 - start) start end

-- `getFullYear()`: a year is 146097 / 400 days long on average, so the quotient is the year or one of
-- its neighbours
unfoldable pub get_full_year : ℕ → ℕ
get_full_year d =
    let guess = 400 * d / 146097 in
    if leb (year_start (guess + 1)) d
    then guess + 1
    else if ltb d (year_start guess)
    then guess - 1
    else guess

-- the days from a day of the year `y`, number `offset` of it, to the same date of the next year; what
-- was 29 February is 1 March
abbrev pub year_step : ℕ → ℕ → ℕ
year_step y offset =
    if is_leap y
    then (if leb offset 59 then 366 else 365)
    else if ltb offset 59
    then 365
    else 365 + leap_day (y + 1)

-- `d.setFullYear(d.getFullYear() + 1)`
unfoldable pub next_year : ℕ → ℕ
next_year d = d + year_step (get_full_year d) (d - year_start (get_full_year d))

-- `while (start <= end)` of `calculateWorkingDays`
unfoldable pub working_days_from : ℕ → ℕ → ℕ → ℕ
working_days_from zero start end = 0
working_days_from (suc fuel) start end =
    let rest = working_days_from fuel (start + 1) end in
    if leb start end then (if is_weekend start then rest else suc rest) else 0

unfoldable pub calculate_working_days : ℕ → ℕ → ℕ
unfolding working_days_from
calculate_working_days start end = working_days_from (end + 1 - start) start end
