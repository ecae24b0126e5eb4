-- ===== src/Tests/Leaves.antt =====
-- Leaves of user 5 of tenant 1, whose manager is user 3.
use tgs_hrms.Base.{
  ◌+◌, ◌-◌, ◌≡◌, refl, text_eq, lower, trim, codes, true, false, none, some, List, [], ◌∷◌, arith,
  ok, err, forbidden, own_leave,
}
use tgs_hrms.Calendar.{
  get_utc_day, year_start, get_full_year, next_year, working_days_from, calculate_working_days,
}
use tgs_hrms.Calendar.WorkingDays.{weekdays_before, calculate_working_days_lem}
use tgs_hrms.Flex.{LeaveStatus, Leave, LeaveType, World, RequestTables, FlexSession}
use tgs_hrms.Leave.{
  CreateLeave, check_leave, find_active_type, create_leave_work, initial_status, is_user_admin,
  is_direct_to_admin_role, deduct_leave_balance, add_used,
}
use tgs_hrms.Leave.Decide.{check_approval, approve_leave_work}
use tgs_hrms.Leave.Ledger.{LedgerRun}
use tgs_hrms.Leave.Ledger.Refine
use tgs_hrms.Leave.Ledger.Refine.{Call, perform, perform_all, perform-run}
use tgs_hrms.Leave.Balances.{IsBooked, used_days}
use tgs_hrms.Leave.Balances.Kept.{perform_all-IsBooked}
use tgs_hrms.Leave.Final.{StaysApproved, approved_kept}
use tgs_hrms.Leave.Limits.{IsWithinLimits, IsFree, check_leave_lem}
use tgs_hrms.Leave.Approval.{ApprovedBy, approve_leave_work_lem}
use tgs_hrms.Tests.Days.{world}

abbrev annual : LeaveType
annual = record { id = 7; tenant_id = 1; max_days_per_year = 20; is_active = true }

-- Thursday 5 March to Monday 9 March 2026
abbrev pub trip : CreateLeave
trip = record {
  leave_type_id = 7;
  start_date = 740045;
  end_date = 740049;
  reason = codes "trip";
  files = [];
}

abbrev pub quiet_world : World
quiet_world = record world { leave_enabled = λ tenant. false; provisioned = λ tenant. false }

abbrev pub empty_tables : RequestTables
empty_tables = record {
  wfh_requests = [];
  overtime_requests = [];
  leaves = [];
  leave_types = annual ∷ [];
  leave_balances = [];
}

abbrev pub start : FlexSession
start = record { tables = empty_tables; outside = quiet_world }

pub start-IsBooked : IsBooked start
start-IsBooked = (tt, tt, λ employee type year tenant. refl)

-- three working days
trip_days : check_leave 5 1 trip quiet_world empty_tables ≡ ok 3
unfolding check_leave next_year get_full_year year_start calculate_working_days working_days_from
    get_utc_day
trip_days = refl

check_leave_lem_example :
    ((type : LeaveType) × (find_active_type 7 1 (annual ∷ []) ≡ some type))
    × IsWithinLimits 740042 740045 740049 3
    × IsFree 5 1 740045 740049 empty_tables
check_leave_lem_example = check_leave_lem 5 1 trip quiet_world empty_tables 3 trip_days

calculate_working_days_lem_example :
    calculate_working_days 740045 740049 ≡ weekdays_before (740049 + 1) - weekdays_before 740045
calculate_working_days_lem_example = calculate_working_days_lem 740045 740049 (omega arith)

-- 29 February 2028 and 1 March 2029
leap : next_year 740771 ≡ 741137
unfolding next_year get_full_year year_start
leap = refl

-- requested by the employee, moved on by nobody else than the manager, approved by user 4
abbrev pub story : List Call
story =
    Refine.create 5 1 trip
    ∷ Refine.approve 1 5 1 none
    ∷ Refine.approve 1 4 1 none
    ∷ Refine.create 5 1 trip
    ∷ []

perform_all-IsBooked_example : IsBooked (perform_all story start)
perform_all-IsBooked_example = perform_all-IsBooked story start start-IsBooked

perform-run_example : LedgerRun start (perform (Refine.create 5 1 trip) start)
perform-run_example = perform-run (Refine.create 5 1 trip) start tt

told_days : used_days 5 7 2026 1 (perform_all story start).tables.leave_balances ≡ 3
unfolding create_leave_work approve_leave_work check_leave next_year get_full_year year_start
    calculate_working_days working_days_from get_utc_day initial_status is_direct_to_admin_role
    is_user_admin check_approval deduct_leave_balance add_used text_eq lower trim
told_days = refl

abbrev pub asked_leave : Leave
asked_leave = record {
  id = 1;
  employee_id = 5;
  tenant_id = 1;
  leave_type_id = 7;
  start_date = 740045;
  end_date = 740049;
  total_days = 3;
  reason = codes "trip";
  status = LeaveStatus.pending;
  approved_by = none;
  approved_at = none;
  remarks = none;
  manager_remarks = none;
  documents = [];
  workflow_request_id = none;
}

abbrev with_leave : Leave → FlexSession
with_leave l = record {
  tables = record empty_tables { leaves = l ∷ [] };
  outside = record quiet_world { next_id = 2 };
}

-- approved by user 4
abbrev pub approved_leave : Leave
approved_leave = record asked_leave {
  status = LeaveStatus.approved;
  approved_by = some 4;
  approved_at = some 100;
  remarks = some [];
}

abbrev pub approved_session : FlexSession
approved_session = record {
  tables = record empty_tables {
    leaves = approved_leave ∷ [];
    leave_balances =
        record {
          employee_id = 5;
          leave_type_id = 7;
          year = 2026;
          tenant_id = 1;
          allocated = 20;
          used = 3;
        }
        ∷ [];
  };
  outside = record quiet_world { next_id = 2 };
}

pub approved_session-IsBooked : IsBooked approved_session
unfolding get_full_year year_start
approved_session-IsBooked = ((omega arith, tt), (tt, tt), λ employee type year tenant. ground arith)

approved_kept_example : StaysApproved approved_leave (perform_all story approved_session)
approved_kept_example =
    approved_kept story approved_session approved_leave approved_session-IsBooked refl refl

approve_leave_work_lem_example :
    ApprovedBy 1 4 1 none (with_leave asked_leave) (record approved_leave { id = 1 })
unfolding approve_leave_work check_approval is_user_admin lower text_eq
approve_leave_work_lem_example =
    approve_leave_work_lem 1 4 1 none (with_leave asked_leave) approved_leave refl

-- nobody approves their own leave
own : (approve_leave_work 1 5 1 none (with_leave asked_leave)).0 ≡ err (forbidden own_leave)
unfolding approve_leave_work check_approval
own = refl
