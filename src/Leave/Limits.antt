-- ===== src/Leave/Limits.antt =====
-- What a request for leave that passes the checks of src/modules/leave/leave.service.ts satisfies.
use tgs_hrms.Base.{ℕ, ◌+◌, ◌-◌, ◌*◌, ◌≤◌, ◌≡◌, false, some, arith, any, ok, Option-cases, inl, inr}
use mathlib.Core.Path.{subst}
use tgs_hrms.Calendar.{next_year, calculate_working_days}
use tgs_hrms.Calendar.Years.{next_year_lem}
use tgs_hrms.Calendar.WorkingDays.{
  weekdays_before, calculate_working_days_lem, calculate_working_days_bound,
}
use tgs_hrms.Bookings.{overlaps}
use tgs_hrms.Flex.{LeaveType, World, RequestTables, wfh_booking, overtime_booking}
use tgs_hrms.Leave.{CreateLeave, find_active_type, settled_overlap, check_leave}

-- the days of a request that was let through
abbrev pub IsWithinLimits : ℕ → ℕ → ℕ → ℕ → Type 0
IsWithinLimits today start end total =
    (start ≤ end)
    × (start ≤ today + 366)
    × (1 ≤ total)
    × (total ≡ weekdays_before (end + 1) - weekdays_before start)
    × (7 * total ≤ 5 * (end + 1 - start) + 10)

-- nothing that the three queries look for stands in the tables
abbrev pub IsFree : ℕ → ℕ → ℕ → ℕ → RequestTables → Type 0
IsFree employee tenant start end t =
    (any (settled_overlap employee tenant start end) t.leaves ≡ false)
    × (any (λ w. overlaps employee tenant start end (wfh_booking w)) t.wfh_requests ≡ false)
    × (any (λ o. overlaps employee tenant start end (overtime_booking o)) t.overtime_requests
        ≡ false)

days-IsWithinLimits :
    (today start end : ℕ)
    → start ≤ end
    → start ≤ next_year today
    → 1 ≤ calculate_working_days start end
    → IsWithinLimits today start end (calculate_working_days start end)
days-IsWithinLimits today start end a b c = (
  a,
  omega (arith, b, next_year_lem today),
  c,
  calculate_working_days_lem start end (omega arith),
  (calculate_working_days_bound start end a).1,
)

check_leave_found :
    (employee tenant : ℕ) (dto : CreateLeave) (world : World) (t : RequestTables) (total : ℕ)
    (type : LeaveType)
    → find_active_type dto.leave_type_id tenant t.leave_types ≡ some type
    → check_leave employee tenant dto world t ≡ ok total
    → (dto.start_date ≤ dto.end_date)
      × (dto.start_date ≤ next_year world.today)
      × (1 ≤ calculate_working_days dto.start_date dto.end_date)
      × (calculate_working_days dto.start_date dto.end_date ≡ total)
      × IsFree employee tenant dto.start_date dto.end_date t
unfolding check_leave
check_leave_found employee tenant dto world t total type f h =
    let h' = rw (f, check_leave) at h in
    (
      ground arith,
      ground arith,
      ground arith,
      ground arith,
      (ground arith, ground arith, ground arith),
    )

-- A request that passes the checks is for an active leave type of the tenant, starts at most 366 days
-- ahead and no later than it ends, counts as many days as there are from Monday to Friday in it, one at
-- least and at most five for each week that it begins, and meets no approved or processing leave and
-- no pending or approved day at home or overtime of the employee.
pub check_leave_lem :
    (employee tenant : ℕ) (dto : CreateLeave) (world : World) (t : RequestTables) (total : ℕ)
    → check_leave employee tenant dto world t ≡ ok total
    → ((type : LeaveType) × (find_active_type dto.leave_type_id tenant t.leave_types ≡ some type))
      × IsWithinLimits world.today dto.start_date dto.end_date total
      × IsFree employee tenant dto.start_date dto.end_date t
unfolding check_leave
check_leave_lem employee tenant dto world t total h =
    elim (Option-cases (find_active_type dto.leave_type_id tenant t.leave_types)) [
      | inl e ↦ ground arith
      | inr (type, e) ↦
          let (a, b, c, same, free) =
            check_leave_found employee tenant dto world t total type e h in
          (
            (type, e),
            subst (λ n. IsWithinLimits world.today dto.start_date dto.end_date n) same
                (days-IsWithinLimits world.today dto.start_date dto.end_date a b c),
            free,
          )
    ]
