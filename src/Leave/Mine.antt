-- ===== src/Leave/Mine.antt =====
-- getMyBalances of src/modules/leave/leave.service.ts. The relation to the leave type is left out of the
-- entries, and those that are made up have no number.
pub mod Told
pub mod Keys
pub mod Entries
use tgs_hrms.Base.{
  ℕ, Bool, not, ◌&&◌, Option, none, some, List, ◌++◌, map, ◌==◌, any, keep, Exec, gets, pure, ◌>>=◌,
}
use tgs_hrms.Tenancy.{Database}
use tgs_hrms.Calendar.{get_full_year}
use tgs_hrms.Flex.{LeaveType, LeaveBalance, World, RequestTables, FlexSession, in_tenant}

-- `where: { employeeId, tenantId, year: targetYear }`
abbrev pub is_mine : ℕ → ℕ → ℕ → LeaveBalance → Bool
is_mine employee tenant year b =
    (b.employee_id == employee) && (b.tenant_id == tenant) && (b.year == year)

-- `where: { tenantId, status: 'active' }`
abbrev pub active_types : ℕ → List LeaveType → List LeaveType
active_types tenant types = keep (λ t. (t.tenant_id == tenant) && t.is_active) types

-- `existingTypeIds.has(lt.id)`
abbrev pub has_entry : List LeaveBalance → LeaveType → Bool
has_entry balances t = any (λ b. b.leave_type_id == t.id) balances

abbrev pub virtual_balance : ℕ → ℕ → ℕ → LeaveType → LeaveBalance
virtual_balance employee tenant year t = record {
  employee_id = employee;
  leave_type_id = t.id;
  year = year;
  tenant_id = tenant;
  allocated = t.max_days_per_year;
  used = 0;
}

-- the entries that the loop adds to the rows
abbrev pub virtual_balances : ℕ → ℕ → ℕ → List LeaveBalance → List LeaveType → List LeaveBalance
virtual_balances employee tenant year balances types =
    map (virtual_balance employee tenant year) (keep (λ t. not (has_entry balances t)) types)

unfoldable pub balances_of : ℕ → ℕ → ℕ → RequestTables → List LeaveBalance
balances_of employee tenant year t =
    let balances = keep (is_mine employee tenant year) t.leave_balances in
    balances ++ virtual_balances employee tenant year balances (active_types tenant t.leave_types)

-- `year ?? new Date().getFullYear()`
abbrev pub target_year : Option ℕ → World → ℕ
target_year none world = get_full_year world.today
target_year (some year) world = year

unfoldable pub get_my_balances_work : ℕ → ℕ → Option ℕ → Exec FlexSession (List LeaveBalance)
get_my_balances_work employee tenant year = do
  s ← gets (λ s. s)
  pure (balances_of employee tenant (target_year year s.outside) s.tables)

unfoldable pub get_my_balances :
    ℕ → ℕ → Option ℕ → Exec (Database RequestTables World) (List LeaveBalance)
get_my_balances employee tenant year = in_tenant tenant (get_my_balances_work employee tenant year)
