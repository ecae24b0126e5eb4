-- ===== src/Leave/Ledger.antt =====
-- What a leave and its balance may go through, as an abstract step relation. Its children show that
-- every method of src/modules/leave/leave.service.ts is a run of such steps.
pub mod Rows
pub mod Changes
pub mod Requests
pub mod Refine
use tgs_hrms.Base.{
  sym, ap, trim, ℕ, ◌+◌, ◌≤◌, ◌≡◌, refl, Text, Bool, true, false, not, ◌&&◌, ◌||◌, Option, none,
  some, List, [], ◌∷◌, ◌++◌, arith, ◌==◌, if◌then◌else◌, find, find_sat, Option-cases, Result-cases,
  Bool-cases, ◌⊎◌, inl, inr, ok, err, Result, Error, forbidden, not_team_member, Exec, modify, pure,
  gets, lift, or_throw, throw_if, throw_unless, ◌>>=◌, ◌>>◌, bind-keeps,
}
use mathlib.Core.Path.{subst}
use tgs_hrms.Bookings.{Below, save_row}
use tgs_hrms.Workflow.{RequestType, leave, WorkflowRequest}
use tgs_hrms.Flex.{
  LeaveStatus, Leave, LeaveBalance, World, RequestTables, FlexSession, leave_booking, drop_first,
  request_workflow, call_workflow,
}
use tgs_hrms.Leave.{
  CreateLeave, is_direct_to_admin_role, find_leave, save_leave, insert_leave, deduct_leave_balance,
  check_leave, new_leave, initial_status, keep_documents, store_documents, linked, submit, tell_all,
  tell_team_manager, tell_of_request, create_leave_work,
}
use tgs_hrms.Leave.Decide.{
  is_approved_leave, is_pending_leave, is_processing_leave, check_approval, settle_approval,
  decided, approve_leave_work, check_rejection, reject_leave_work, add_manager_remarks_work,
  remarked, or_empty, is_team_member,
}
use tgs_hrms.Leave.Edit.{
  EditLeave, may_change, check_type, check_days, cancelled_leave, cancel_leave_workflow,
  cancel_leave_work, documented, remove_leave_document_work, check_leave_edit, check_open_edit,
  edited_leave, edit_documents, edit_leave_work,
}

-- what a balance depends on
abbrev pub SameCharge : Leave → Leave → Type 0
SameCharge a b =
    (b.employee_id ≡ a.employee_id)
    × (b.tenant_id ≡ a.tenant_id)
    × (b.leave_type_id ≡ a.leave_type_id)
    × (b.start_date ≡ a.start_date)
    × (b.end_date ≡ a.end_date)
    × (b.total_days ≡ a.total_days)

-- Leaves and balances are written in three ways only: a new leave that is not approved, a change of
-- one that either leaves its days and status alone or stays short of an approval, and an approval,
-- which charges the balance in the same step.
pub data LedgerStep (s : FlexSession) : FlexSession → Type 0 where
  idle :
      (t : FlexSession)
      → t.tables.leaves ≡ s.tables.leaves
      → t.tables.leave_balances ≡ s.tables.leave_balances
      → t.outside.next_id ≡ s.outside.next_id
      → LedgerStep s t
  request :
      (l : Leave)
      → l.id ≡ s.outside.next_id
      → is_approved_leave l.status ≡ false
      → LedgerStep s (insert_leave l s)
  amend :
      (tenant : ℕ) (old new : Leave)
      → find_leave old.id tenant s.tables.leaves ≡ some old
      → new.id ≡ old.id
      → (is_approved_leave old.status ≡ false) × (is_approved_leave new.status ≡ false)
        ⊎ SameCharge old new × (new.status ≡ old.status)
      → LedgerStep s (save_leave new s)
  grant :
      (tenant : ℕ) (old new : Leave)
      → find_leave old.id tenant s.tables.leaves ≡ some old
      → new.id ≡ old.id
      → is_approved_leave old.status ≡ false
      → is_approved_leave new.status ≡ true
      → SameCharge old new
      → LedgerStep s (save_leave new (deduct_leave_balance old tenant s))

pub data LedgerRun (s : FlexSession) : FlexSession → Type 0 where
  done : LedgerRun s s
  then_step : {t u : FlexSession} → LedgerRun s t → LedgerStep t u → LedgerRun s u

-- all numbers that were given lie below the next one
abbrev pub IsNumbered : FlexSession → Type 0
IsNumbered s = Below leave_booking s.outside.next_id s.tables.leaves
