-- ===== src/Leave/Decide.antt =====
-- src/modules/leave/leave.service.ts: `approveLeave` and `rejectLeave`, less the notices that follow
-- them, and `addManagerRemarks`.
use tgs_hrms.Base.{
  ℕ, Text, Bool, true, false, not, ◌&&◌, ◌||◌, Option, none, some, [], trim, is_blank, ◌==◌,
  if◌then◌else◌, Exec, Result, ok, err, bad_request, not_found, forbidden, leave_missing, own_leave,
  not_open_leave, awaiting_admin, not_authorized, remarks_required, not_pending_leave,
  not_team_member, pure, gets, lift, or_throw, throw_if, throw_unless, modify, ◌>>=◌, ◌>>◌,
}
use tgs_hrms.Tenancy.{Database}
use tgs_hrms.Flex.{LeaveStatus, Leave, World, RequestTables, FlexSession, in_tenant}
use tgs_hrms.Leave.{save_leave, find_leave, is_user_admin, deduct_leave_balance}

abbrev pub is_pending_leave : LeaveStatus → Bool
is_pending_leave LeaveStatus.pending = true
is_pending_leave _ = false

abbrev pub is_processing_leave : LeaveStatus → Bool
is_processing_leave LeaveStatus.processing = true
is_processing_leave _ = false

abbrev pub is_approved_leave : LeaveStatus → Bool
is_approved_leave LeaveStatus.approved = true
is_approved_leave _ = false

-- `managerId && approverId === managerId`
abbrev pub is_manager_of : World → ℕ → ℕ → Bool
is_manager_of world user employee = elim (world.team_manager_of employee) [
  | none ↦ false
  | some manager ↦ user == manager
]

-- the status that an approval leads to
unfoldable pub check_approval : World → ℕ → Leave → Result LeaveStatus
check_approval world approver l =
    if approver == l.employee_id
    then err (forbidden own_leave)
    else if not (is_pending_leave l.status) && not (is_processing_leave l.status)
    then err (forbidden not_open_leave)
    else if is_pending_leave l.status && is_manager_of world approver l.employee_id
    then ok LeaveStatus.processing
    else if (is_pending_leave l.status || is_processing_leave l.status)
        && is_user_admin world approver
    then ok LeaveStatus.approved
    else if is_processing_leave l.status && is_manager_of world approver l.employee_id
    then err (forbidden awaiting_admin)
    else err (forbidden not_authorized)

-- `remarks || ''`
abbrev pub or_empty : Option Text → Text
or_empty none = []
or_empty (some t) = t

abbrev pub decided : LeaveStatus → ℕ → ℕ → Text → Leave → Leave
decided status approver now remarks l = record l {
  status = status;
  approved_by = some approver;
  approved_at = some now;
  remarks = some remarks;
}

-- the balance is deducted before the row is saved as approved
abbrev pub settle_approval : LeaveStatus → Leave → ℕ → FlexSession → FlexSession
settle_approval LeaveStatus.approved l tenant s = deduct_leave_balance l tenant s
settle_approval _ l tenant s = s

unfoldable pub approve_leave_work : ℕ → ℕ → ℕ → Option Text → Exec FlexSession Leave
approve_leave_work id approver tenant remarks = do
  rows ← gets (λ s. s.tables.leaves)
  l ← or_throw (find_leave id tenant rows) (not_found leave_missing)
  world ← gets (λ s. s.outside)
  status ← lift (check_approval world approver l)
  modify (settle_approval status l tenant)
  modify (save_leave (decided status approver world.now (or_empty remarks) l))
  pure (decided status approver world.now (or_empty remarks) l)

unfoldable pub approve_leave : ℕ → ℕ → ℕ → Option Text → Exec (Database RequestTables World) Leave
approve_leave id approver tenant remarks =
    in_tenant tenant (approve_leave_work id approver tenant remarks)

unfoldable pub check_rejection : World → ℕ → Leave → Result (Unit {0})
check_rejection world approver l =
    let can_reject = is_pending_leave l.status || is_processing_leave l.status in
    if approver == l.employee_id
    then err (forbidden own_leave)
    else if not can_reject
    then err (forbidden not_open_leave)
    else if (is_pending_leave l.status && is_manager_of world approver l.employee_id)
        || (is_user_admin world approver && can_reject)
    then ok tt
    else err (forbidden not_authorized)

unfoldable pub reject_leave_work : ℕ → ℕ → ℕ → Text → Exec FlexSession Leave
reject_leave_work id approver tenant remarks = do
  rows ← gets (λ s. s.tables.leaves)
  l ← or_throw (find_leave id tenant rows) (not_found leave_missing)
  world ← gets (λ s. s.outside)
  lift (check_rejection world approver l)
  modify (save_leave (decided LeaveStatus.rejected approver world.now (trim remarks) l))
  pure (decided LeaveStatus.rejected approver world.now (trim remarks) l)

unfoldable pub reject_leave : ℕ → ℕ → ℕ → Option Text → Exec (Database RequestTables World) Leave
reject_leave id approver tenant remarks = do
  throw_if (is_blank (trim (or_empty remarks))) (bad_request remarks_required)
  in_tenant tenant (reject_leave_work id approver tenant (or_empty remarks))

-- the query for the employee in a team of the manager
abbrev pub is_team_member : World → ℕ → ℕ → ℕ → Bool
is_team_member world employee tenant manager =
    world.is_member employee tenant && is_manager_of world manager employee

abbrev pub remarked : Text → Leave → Leave
remarked remarks l = record l { manager_remarks = some remarks }

unfoldable pub add_manager_remarks_work : ℕ → ℕ → ℕ → Option Text → Exec FlexSession Leave
add_manager_remarks_work id manager tenant remarks = do
  rows ← gets (λ s. s.tables.leaves)
  world ← gets (λ s. s.outside)
  l ← or_throw (find_leave id tenant rows) (not_found leave_missing)
  throw_unless (is_pending_leave l.status) (forbidden not_pending_leave)
  throw_unless (is_team_member world l.employee_id tenant manager) (forbidden not_team_member)
  modify (save_leave (remarked (or_empty remarks) l))
  pure (remarked (or_empty remarks) l)

unfoldable pub add_manager_remarks :
    ℕ → ℕ → ℕ → Option Text → Exec (Database RequestTables World) Leave
add_manager_remarks id manager tenant remarks =
    in_tenant tenant (add_manager_remarks_work id manager tenant remarks)
