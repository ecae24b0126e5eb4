-- ===== src/Leave.antt =====
-- src/modules/leave/leave.service.ts: what its methods share, and the request for leave. A `…_work`
-- is what the method does in its tenant's context.
--
-- A storage service that throws makes the method throw, and what was stored before stays stored
-- unless the transaction undoes it.
pub mod Decide
pub mod Edit
pub mod Listener
pub mod Ledger
pub mod Balances
pub mod Final
pub mod Limits
pub mod Approval
pub mod Gaps
pub mod Mine
use tgs_hrms.Base.{
  ℕ, ◌+◌, Text, codes, text_eq, lower, trim, Bool, true, false, not, ◌&&◌, ◌||◌, Option, none, some,
  List, [], ◌∷◌, ◌++◌, map, ◌==◌, leb, ltb, if◌then◌else◌, find, any, Exec, Result, ok, err,
  conflict, not_found, forbidden, internal, end_before_start, has_wfh, has_overtime,
  leave_type_missing, too_far_ahead, leave_overlap, weekends_only, not_member, upload_failed, pure,
  gets, lift, or_throw, throw, throw_unless, modify, ◌>>=◌, ◌>>◌,
}
use tgs_hrms.Tenancy.{Session, Database}
use tgs_hrms.Workflow.{RequestType, leave, WorkflowRequest}
use tgs_hrms.Bookings.{overlaps, save_row}
use tgs_hrms.Calendar.{get_full_year, next_year, calculate_working_days}
use tgs_hrms.Flex.{
  LeaveStatus, Leave, LeaveType, LeaveBalance, Notice, NoticeKind, World, RequestTables,
  FlexSession, leave_booking, wfh_booking, overtime_booking, request_workflow, call_workflow,
  notify, fresh_id, in_tenant,
}

-- CreateLeaveDto, with the files of the request
pub record CreateLeave : Type 0 where
  pub leave_type_id : ℕ
  pub start_date : ℕ
  pub end_date : ℕ
  pub reason : Text
  pub files : List ℕ

abbrev pub put_leaves : List Leave → FlexSession → FlexSession
put_leaves rows s = record s { tables = record (s.tables) { leaves = rows } }

abbrev pub save_leave : Leave → FlexSession → FlexSession
save_leave l s = put_leaves (save_row leave_booking l s.tables.leaves) s

-- `findOne({ where: { id, tenantId } })`
abbrev pub find_leave : ℕ → ℕ → List Leave → Option Leave
find_leave id tenant rows = find (λ l. (l.id == id) && (l.tenant_id == tenant)) rows

abbrev one_of : Text → List Text → Bool
one_of r names = any (text_eq r) names

-- `isDirectToAdminRole`
unfoldable pub is_direct_to_admin_role : Option Text → Bool
is_direct_to_admin_role none = false
is_direct_to_admin_role (some role) =
    one_of (lower (trim role)) (codes "manager" ∷ codes "hr-admin" ∷ codes "network-admin" ∷ [])

-- `isUserAdmin`
unfoldable pub is_user_admin : World → ℕ → Bool
is_user_admin world user = elim (world.role_of user) [
  | none ↦ false
  | some role ↦ one_of (lower role) (codes "admin" ∷ codes "system-admin" ∷ [])
]

-- `isAdminOrHrAdmin`, of the role that the request comes with
unfoldable pub is_admin_or_hr_admin : Text → Bool
is_admin_or_hr_admin role =
    one_of (lower role) (codes "admin" ∷ codes "hr-admin" ∷ codes "system-admin" ∷ [])

-- `status: 'active'`
abbrev pub find_active_type : ℕ → ℕ → List LeaveType → Option LeaveType
find_active_type id tenant rows =
    find (λ t. (t.id == id) && (t.tenant_id == tenant) && t.is_active) rows

abbrev pub find_type : ℕ → ℕ → List LeaveType → Option LeaveType
find_type id tenant rows = find (λ t. (t.id == id) && (t.tenant_id == tenant)) rows

abbrev pub allocated_days : Option LeaveType → ℕ
allocated_days none = 0
allocated_days (some t) = t.max_days_per_year

-- the row of a key
abbrev pub has_key : ℕ → ℕ → ℕ → ℕ → LeaveBalance → Bool
has_key employee type year tenant b =
    (b.employee_id == employee)
    && (b.leave_type_id == type)
    && (b.year == year)
    && (b.tenant_id == tenant)

-- `save` of the row that was found, or of a new one, with some days more in use
unfoldable pub add_used : ℕ → ℕ → ℕ → ℕ → ℕ → ℕ → List LeaveBalance → List LeaveBalance
add_used employee type year tenant allocated days [] =
    record {
      employee_id = employee;
      leave_type_id = type;
      year = year;
      tenant_id = tenant;
      allocated = allocated;
      used = 0 + days;
    }
    ∷ []
add_used employee type year tenant allocated days (b ∷ rows) =
    let rest = add_used employee type year tenant allocated days rows in
    if has_key employee type year tenant b
    then record b { used = b.used + days } ∷ rows
    else b ∷ rest

unfoldable pub deduct_leave_balance : Leave → ℕ → FlexSession → FlexSession
deduct_leave_balance l tenant s = record s {
  tables = record (s.tables) {
    leave_balances =
        add_used l.employee_id l.leave_type_id (get_full_year l.start_date) tenant
          (allocated_days (find_type l.leave_type_id tenant s.tables.leave_types)) l.total_days
          s.tables.leave_balances;
  };
}

-- status IN ('approved', 'processing')
abbrev pub is_settled : LeaveStatus → Bool
is_settled LeaveStatus.approved = true
is_settled LeaveStatus.processing = true
is_settled _ = false

-- the overlap query of a new request
abbrev pub settled_overlap : ℕ → ℕ → ℕ → ℕ → Leave → Bool
settled_overlap employee tenant start end l =
    (l.employee_id == employee)
    && (l.tenant_id == tenant)
    && is_settled l.status
    && leb l.start_date end
    && leb start l.end_date

-- the checks of `doCreateLeave`, and the number of days where they pass
unfoldable pub check_leave : ℕ → ℕ → CreateLeave → World → RequestTables → Result ℕ
check_leave employee tenant dto world t =
    elim (find_active_type dto.leave_type_id tenant t.leave_types) [
      | none ↦ err (not_found leave_type_missing)
      | some type ↦
          if ltb dto.end_date dto.start_date
          then err (forbidden end_before_start)
          else if ltb (next_year world.today) dto.start_date
          then err (forbidden too_far_ahead)
          else if any (settled_overlap employee tenant dto.start_date dto.end_date) t.leaves
          then err (conflict leave_overlap)
          else if any (λ w. overlaps employee tenant dto.start_date dto.end_date (wfh_booking w))
              t.wfh_requests
          then err (forbidden has_wfh)
          else if any
              (λ o. overlaps employee tenant dto.start_date dto.end_date (overtime_booking o))
              t.overtime_requests
          then err (forbidden has_overtime)
          else if calculate_working_days dto.start_date dto.end_date == 0
          then err (forbidden weekends_only)
          else ok (calculate_working_days dto.start_date dto.end_date)
    ]

-- the status that a new request starts with
unfoldable pub initial_status : World → ℕ → ℕ → LeaveStatus
initial_status world employee tenant =
    if not (world.leave_enabled tenant) && is_direct_to_admin_role (world.role_of employee)
    then LeaveStatus.processing
    else LeaveStatus.pending

abbrev pub new_leave : World → ℕ → ℕ → CreateLeave → ℕ → Leave
new_leave world employee tenant dto total = record {
  id = world.next_id;
  employee_id = employee;
  tenant_id = tenant;
  leave_type_id = dto.leave_type_id;
  start_date = dto.start_date;
  end_date = dto.end_date;
  total_days = total;
  reason = dto.reason;
  status = initial_status world employee tenant;
  approved_by = none;
  approved_at = none;
  remarks = none;
  manager_remarks = none;
  documents = [];
  workflow_request_id = none;
}

abbrev pub insert_leave : Leave → FlexSession → FlexSession
insert_leave l s = fresh_id (put_leaves (s.tables.leaves ++ l ∷ []) s)

-- `if (files && files.length > 0)`: the row is saved once more with its documents
abbrev pub keep_documents : Option (List Text) → Leave → Exec FlexSession Leave
keep_documents none l = throw (internal upload_failed)
keep_documents (some urls) l = do
  modify (save_leave (record l { documents = urls }))
  pure (record l { documents = urls })

abbrev pub store_documents : List ℕ → Leave → Exec FlexSession Leave
store_documents [] l s = pure l s
store_documents (f ∷ files) l s =
    keep_documents (s.outside.upload (f ∷ files) l.id l.employee_id) l s

-- the notices of a new request
abbrev pub tell_all : List ℕ → ℕ → FlexSession → FlexSession
tell_all [] entity s = s
tell_all (user ∷ users) entity s = tell_all users entity (
    notify
      (record { to = user; kind = NoticeKind.applied; type = leave; related_entity_id = entity }) s)

abbrev pub tell_team_manager : ℕ → ℕ → FlexSession → FlexSession
tell_team_manager employee entity s = elim (s.outside.team_manager_of employee) [
  | none ↦ s
  | some manager ↦ if manager == employee then s else tell_all (manager ∷ []) entity s
]

-- the path without a workflow
abbrev pub tell_of_request : ℕ → ℕ → ℕ → FlexSession → FlexSession
tell_of_request employee tenant entity s =
    if is_direct_to_admin_role (s.outside.role_of employee)
    then tell_all (s.outside.admins_of tenant) entity s
    else tell_team_manager employee entity s

abbrev pub linked : WorkflowRequest → Leave → Leave
linked request l = record l { workflow_request_id = some request.id }

-- what is done with the row that is stored: `if (workflowEnabled)`
abbrev pub submit : Bool → ℕ → ℕ → Leave → Exec FlexSession Leave
submit true employee tenant l = do
  request ← call_workflow (request_workflow tenant leave l.id employee) tenant
  modify (save_leave (linked request l))
  modify (tell_team_manager employee l.id)
  pure (linked request l)
submit false employee tenant l = do modify (tell_of_request employee tenant l.id); pure l

-- `doCreateLeave`, and `doCreateLeaveForEmployee`, whose body is the same but for the words of the
-- messages
unfoldable pub create_leave_work : ℕ → ℕ → CreateLeave → Exec FlexSession Leave
create_leave_work employee tenant dto = do
  tables ← gets (λ s. s.tables)
  world ← gets (λ s. s.outside)
  total ← lift (check_leave employee tenant dto world tables)
  modify (insert_leave (new_leave world employee tenant dto total))
  saved ← store_documents dto.files (new_leave world employee tenant dto total)
  submit (world.leave_enabled tenant) employee tenant saved

unfoldable pub create_leave : ℕ → ℕ → CreateLeave → Exec (Database RequestTables World) Leave
create_leave employee tenant dto = in_tenant tenant (create_leave_work employee tenant dto)

-- by an administrator, for an employee of the tenant
unfoldable pub create_leave_for_employee :
    ℕ → ℕ → CreateLeave → Exec (Database RequestTables World) Leave
create_leave_for_employee employee tenant dto = do
  world ← gets (λ d. d.outside)
  throw_unless (world.is_member employee tenant) (not_found not_member)
  in_tenant tenant (create_leave_work employee tenant dto)
