-- ===== src/Leave/Balances.antt =====
-- Balances of src/modules/leave/leave.service.ts: the days in use are those of the approved leaves.
pub mod Sums
pub mod Kept
use tgs_hrms.Base.{
  ℕ, ◌+◌, ◌≡◌, refl, ◌≢◌, Bool, true, false, ◌&&◌, Option, none, some, List, [], ◌∷◌, arith, ◌==◌,
  if◌then◌else◌, All,
}
use tgs_hrms.Calendar.{get_full_year}
use tgs_hrms.Flex.{Leave, LeaveBalance, FlexSession}
use tgs_hrms.Leave.{has_key}
use tgs_hrms.Leave.Decide.{is_approved_leave}
use tgs_hrms.Leave.Ledger.{IsNumbered}

-- what the row of a key says, or 0 where there is none
abbrev pub used_days : ℕ → ℕ → ℕ → ℕ → List LeaveBalance → ℕ
used_days employee type year tenant [] = 0
used_days employee type year tenant (b ∷ rows) =
    if has_key employee type year tenant b then b.used else used_days employee type year tenant rows

abbrev pub is_charged : ℕ → ℕ → ℕ → ℕ → Leave → Bool
is_charged employee type year tenant l =
    is_approved_leave l.status
    && (l.employee_id == employee)
    && (l.leave_type_id == type)
    && (get_full_year l.start_date == year)
    && (l.tenant_id == tenant)

-- the days of one leave that count for a key
abbrev pub charge : ℕ → ℕ → ℕ → ℕ → Leave → ℕ
charge employee type year tenant l =
    if is_charged employee type year tenant l then l.total_days else 0

abbrev pub sum_by : (Leave → ℕ) → List Leave → ℕ
sum_by f [] = 0
sum_by f (l ∷ rows) = f l + sum_by f rows

-- the days of the approved leaves of a key
abbrev pub taken_days : ℕ → ℕ → ℕ → ℕ → List Leave → ℕ
taken_days employee type year tenant rows = sum_by (charge employee type year tenant) rows

-- no two rows have one number
abbrev pub HasOwnIds : List Leave → Type 0
HasOwnIds [] = Unit
HasOwnIds (l ∷ rows) = All (λ x. x.id ≢ l.id) rows × HasOwnIds rows

-- every balance is the sum of the approved leaves of its employee, type, year and tenant
abbrev pub IsBalanced : FlexSession → Type 0
IsBalanced s =
    (employee type year tenant : ℕ)
    → used_days employee type year tenant s.tables.leave_balances
      ≡ taken_days employee type year tenant s.tables.leaves

abbrev pub IsBooked : FlexSession → Type 0
IsBooked s = IsNumbered s × HasOwnIds s.tables.leaves × IsBalanced s
