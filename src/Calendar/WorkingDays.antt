-- ===== src/Calendar/WorkingDays.antt =====
-- `calculateWorkingDays` of src/modules/leave/leave.service.ts, without its loop.
use tgs_hrms.Base.{
  ℕ, zero, suc, ◌+◌, ◌-◌, ◌*◌, ◌/◌, ◌%◌, ◌≤◌, ◌≡◌, true, false, arith, leb, Bool-cases, inl, inr,
}
use tgs_hrms.Calendar.{get_utc_day, is_weekend, working_days_from, calculate_working_days}

-- the days from Monday to Friday among the first `d` days, of which the first is a Saturday
abbrev pub weekdays_before : ℕ → ℕ
weekdays_before d = 5 * (d / 7) + (d % 7 - 2)

weekdays_before_weekend :
    (d : ℕ) → is_weekend d ≡ true → weekdays_before (d + 1) ≡ weekdays_before d
unfolding get_utc_day
weekdays_before_weekend d h = ground arith

weekdays_before_weekday :
    (d : ℕ) → is_weekend d ≡ false → weekdays_before (d + 1) ≡ weekdays_before d + 1
unfolding get_utc_day
weekdays_before_weekday d h = ground arith

working_days_from_lem :
    (fuel start end : ℕ)
    → end + 1 ≤ fuel + start
    → start ≤ end + 1
    → working_days_from fuel start end + weekdays_before start ≡ weekdays_before (end + 1)
unfolding working_days_from
working_days_from_lem zero start end h k =
    let same : start ≡ end + 1 = omega arith in omega (arith, same)
working_days_from_lem (suc fuel) start end h k = elim (Bool-cases (leb start end)) [
  | inl within ↦
      let rest = working_days_from_lem fuel (start + 1) end (omega arith) (ground arith) in
      elim (Bool-cases (is_weekend start)) [
        | inl free ↦ rw (within, free) (omega (arith, rest, weekdays_before_weekend start free))
        | inr busy ↦ rw (within, busy) (omega (arith, rest, weekdays_before_weekday start busy))
      ]
  | inr past ↦ let same : start ≡ end + 1 = ground arith in rw past (omega (arith, same))
]

-- The loop counts the days from Monday to Friday in the range: those before the day behind its end,
-- less those before its start.
pub calculate_working_days_lem :
    (start end : ℕ)
    → start ≤ end + 1
    → calculate_working_days start end ≡ weekdays_before (end + 1) - weekdays_before start
unfolding calculate_working_days
calculate_working_days_lem start end h =
    omega (arith, working_days_from_lem (end + 1 - start) start end (omega arith) h)

-- At most five days of each begun week count.
pub calculate_working_days_bound :
    (start end : ℕ)
    → start ≤ end
    → (calculate_working_days start end ≤ end + 1 - start)
      × (7 * calculate_working_days start end ≤ 5 * (end + 1 - start) + 10)
calculate_working_days_bound start end h =
    rw (calculate_working_days_lem start end (omega arith)) (omega arith, omega arith)
