-- ===== src/Leave/Mine/Told.antt =====
-- What an employee is told of the days of leave.
use tgs_hrms.Base.{ℕ, ◌≡◌, refl, true, List, keep, Option, All, All-append, ok}
use tgs_hrms.Flex.{LeaveBalance, FlexSession}
use tgs_hrms.Leave.Balances.{used_days, taken_days, IsBooked}
use tgs_hrms.Leave.Balances.Kept.{perform_all-IsBooked}
use tgs_hrms.Leave.Ledger.Refine.{Call, perform_all}
use tgs_hrms.Leave.Mine.{
  is_mine, active_types, has_entry, virtual_balances, balances_of, target_year,
  get_my_balances_work,
}
use tgs_hrms.Leave.Mine.Keys.{HasOwnKeys, perform_all-HasOwnKeys}
use tgs_hrms.Leave.Mine.Entries.{
  mine-used, virtual-used, has_entry-virtual, used_of-rows, has_entry-both,
}

-- every entry has the days of the approved leaves of its type, and every active type has an entry
abbrev pub IsTold : ℕ → ℕ → ℕ → FlexSession → List LeaveBalance → Type 0
IsTold employee tenant year s answer =
    All (λ b. b.used ≡ taken_days employee b.leave_type_id year tenant s.tables.leaves) answer
    × All (λ t. has_entry answer t ≡ true) (active_types tenant s.tables.leave_types)

balances_of-IsTold :
    (employee tenant year : ℕ) (s : FlexSession)
    → IsBooked s
    → HasOwnKeys s.tables.leave_balances
    → IsTold employee tenant year s (balances_of employee tenant year s.tables)
unfolding balances_of
balances_of-IsTold employee tenant year s v h =
    let taken : ℕ → ℕ = λ type. taken_days employee type year tenant s.tables.leaves in
    let booked : (type : ℕ)
        → used_days employee type year tenant s.tables.leave_balances ≡ taken type =
      λ type. v.2 employee type year tenant in
    let rows = s.tables.leave_balances in
    let mine = keep (is_mine employee tenant year) rows in
    let types = active_types tenant s.tables.leave_types in
    (
      All-append (λ b. b.used ≡ taken b.leave_type_id) mine
          (virtual_balances employee tenant year mine types)
          (mine-used employee tenant year taken rows rows booked (used_of-rows rows h))
          (virtual-used employee tenant year taken rows types booked),
      has_entry-both mine (virtual_balances employee tenant year mine types) types
          (has_entry-virtual employee tenant year mine types),
    )

-- Let every balance be the sum of the days of the approved leaves of its employee, type, year and
-- tenant, let the numbers of the leaves be their own and lie below the next one, and let no two rows
-- of the balances have one employee, type, year and tenant. After any calls of the methods of the
-- service, by anybody and in any order, an employee who asks for the balances of a year, or of the
-- current year where none is named, gets an answer in which the days in use of each entry are the sum of
-- the days of the employee's approved leaves of its type and the year, and in which each active type of
-- the tenant has an entry.
pub get_my_balances-IsTold :
    (calls : List Call) (s : FlexSession) (employee tenant : ℕ) (year : Option ℕ)
    → IsBooked s
    → HasOwnKeys s.tables.leave_balances
    → (answer : List LeaveBalance) × ((get_my_balances_work employee tenant year
          (perform_all calls s)).0
        ≡ ok answer)
      × IsTold employee tenant
          (target_year year (perform_all calls s).outside)
          (perform_all calls s)
          answer
unfolding get_my_balances_work
get_my_balances-IsTold calls s employee tenant year v h =
    let told = perform_all calls s in
    let y = target_year year told.outside in
    (
      balances_of employee tenant y told.tables,
      refl,
      balances_of-IsTold employee tenant y told (perform_all-IsBooked calls s v)
          (perform_all-HasOwnKeys calls s v h),
    )
