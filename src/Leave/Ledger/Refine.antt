-- ===== src/Leave/Ledger/Refine.antt =====
-- The methods of src/modules/leave/leave.service.ts that write leaves, as one type of calls, against the
-- ledger.
use tgs_hrms.Base.{ℕ, Text, Option, List, [], ◌∷◌}
use tgs_hrms.Flex.{FlexSession}
use tgs_hrms.Leave.{CreateLeave, create_leave_work}
use tgs_hrms.Leave.Decide.{approve_leave_work, reject_leave_work, add_manager_remarks_work}
use tgs_hrms.Leave.Edit.{EditLeave, cancel_leave_work, remove_leave_document_work, edit_leave_work}
use tgs_hrms.Leave.Ledger.{LedgerRun, IsNumbered}
use tgs_hrms.Leave.Ledger.Changes.{
  reject_leave_work_run, add_manager_remarks_work_run, remove_leave_document_work_run,
  cancel_leave_work_run, approve_leave_work_run, edit_leave_work_run,
}
use tgs_hrms.Leave.Ledger.Requests.{create_leave_work_run}

-- A call of a method, by whoever and with whatever arguments.
pub data Call : Type 0 where
  create : (employee tenant : ℕ) → CreateLeave → Call
  approve : (id approver tenant : ℕ) → Option Text → Call
  reject : (id approver tenant : ℕ) → Text → Call
  remark : (id manager tenant : ℕ) → Option Text → Call
  cancel : (id user tenant : ℕ) → Text → Call
  remove_document : (id : ℕ) → Text → (user tenant : ℕ) → Text → Call
  edit : (id user tenant : ℕ) → EditLeave → Text → Call

-- what it leaves of the tables, whether it returns or throws
abbrev pub perform : Call → FlexSession → FlexSession
perform (create employee tenant dto) s = (create_leave_work employee tenant dto s).1
perform (approve id approver tenant remarks) s = (approve_leave_work id approver tenant remarks s).1
perform (reject id approver tenant remarks) s = (reject_leave_work id approver tenant remarks s).1
perform (remark id manager tenant remarks) s =
    (add_manager_remarks_work id manager tenant remarks s).1
perform (cancel id user tenant role) s = (cancel_leave_work id user tenant role s).1
perform (remove_document id url user tenant role) s =
    (remove_leave_document_work id url user tenant role s).1
perform (edit id user tenant dto role) s = (edit_leave_work id user tenant dto role s).1

abbrev pub perform_all : List Call → FlexSession → FlexSession
perform_all [] s = s
perform_all (c ∷ calls) s = perform_all calls (perform c s)

-- If all numbers that were given lie below the next one, every call of a method, whether it returns
-- or throws, is a run of the steps of the ledger: it writes leaves and balances in no other way.
pub perform-run : (c : Call) (s : FlexSession) → IsNumbered s → LedgerRun s (perform c s)
perform-run (create employee tenant dto) s n = create_leave_work_run s employee tenant dto n
perform-run (approve id approver tenant remarks) s n =
    approve_leave_work_run s id approver tenant remarks
perform-run (reject id approver tenant remarks) s n =
    reject_leave_work_run s id approver tenant remarks
perform-run (remark id manager tenant remarks) s n =
    add_manager_remarks_work_run s id manager tenant remarks
perform-run (cancel id user tenant role) s n = cancel_leave_work_run s id user tenant role
perform-run (remove_document id url user tenant role) s n =
    remove_leave_document_work_run s id url user tenant role
perform-run (edit id user tenant dto role) s n = edit_leave_work_run s id user tenant dto role
