-- ===== src/Tests/Flexible.antt =====
-- Requests of user 5 of tenant 1 to work from home and for overtime.
use tgs_hrms.Base.{
  true, List, map, sort_by, text_eq, lower, ℕ, ◌≡◌, refl, none, some, [], ◌∷◌, arith, codes, err,
  forbidden, overlaps_pending,
}
use tgs_hrms.Tenancy
use tgs_hrms.Tenancy.{Database, Session, run_in_tenant_context}
use tgs_hrms.Workflow.Config.{get_config_steps}
use tgs_hrms.Workflow.Request.{
  create_workflow_request, act_on_current_step, check_step, find_current, record_decision,
  write_audit, decide, outcome_of, new_request,
}
use tgs_hrms.Workflow.{
  Emission, StepAction, WorkflowTables, Outside, wfh, WorkflowCompletedEvent, Outcome,
}
use tgs_hrms.Flex.{request_workflow, World, RequestTables, FlexStatus, Wfh, Overtime, FlexSession}
use tgs_hrms.Wfh.{
  new_wfh, create_wfh_request, insert_wfh, mark_approved, mark_wfh, CreateWfh, UpdateWfh, find_wfh,
  check_dates, create_wfh_work, own_pending, cancel_wfh_work, handle_approved,
}
use tgs_hrms.Wfh.Rows.{IsValid}
use tgs_hrms.Wfh.Overlap.{create_wfh_work-IsValid}
use tgs_hrms.Wfh.Calls.{late_approval}
use tgs_hrms.Overtime.{create_overtime_work}
use tgs_hrms.Overtime.Edits.{edit_overtime_work}
use tgs_hrms.Overtime.Rows
use tgs_hrms.Overtime.Overlap.{create_overtime_work-IsValid, edit_overtime_work-IsValid}
use tgs_hrms.Tests.Days.{world, stored, plan, weekend, moved}

-- Friday 6 March
abbrev at_home : Wfh
at_home = record {
  id = 0;
  employee_id = 5;
  tenant_id = 1;
  start_date = 740046;
  end_date = 740046;
  reason = codes "delivery";
  status = FlexStatus.pending;
  attachments = [];
  workflow_request_id = none;
}

abbrev overtime_row : Overtime
overtime_row = record stored { id = 0 }

abbrev session : FlexSession
session = record {
  tables = record {
    wfh_requests = at_home ∷ [];
    overtime_requests = overtime_row ∷ [];
    leaves = [];
    leave_types = [];
    leave_balances = [];
  };
  outside = world;
}

abbrev asked : ℕ → ℕ → CreateWfh
asked start end = record {
  start_date = start;
  end_date = end;
  reason = codes "delivery";
  files = [];
}

-- days that were asked for already
asked_twice :
    (create_wfh_work 5 1 (asked 740045 740046) session).0 ≡ err (forbidden overlaps_pending)
unfolding create_wfh_work check_dates
asked_twice = refl

session-IsValid : IsValid session
session-IsValid = ((tt, tt), (omega arith, tt))

create_wfh_work-IsValid_example : IsValid (create_wfh_work 5 1 (asked 740049 740049) session).1
create_wfh_work-IsValid_example =
    create_wfh_work-IsValid 5 1 (asked 740049 740049) session session-IsValid

abbrev days : ℕ → ℕ → UpdateWfh
days start end = record { start_date = some start; end_date = some end; reason = none; files = [] }

abbrev approval : WorkflowCompletedEvent
approval = record {
  workflow_request_id = 1;
  related_entity_id = 0;
  request_type = wfh;
  tenant_id = 1;
  requestor_id = 5;
  outcome = Outcome.approved;
  final_approver_id = some 3;
  final_remarks = none;
}

late_approval_example :
    find_wfh 0 1 (handle_approved approval (cancel_wfh_work 0 5 1 session).1).tables.wfh_requests
    ≡ some (record at_home { status = FlexStatus.approved })
unfolding own_pending
late_approval_example = late_approval 0 5 1 session at_home approval refl refl refl refl

overtime-IsValid : Rows.IsValid session
overtime-IsValid = ((tt, tt), (omega arith, tt))

create_overtime_work-IsValid_example :
    Rows.IsValid (create_overtime_work 6 1 plan weekend session).1
create_overtime_work-IsValid_example =
    create_overtime_work-IsValid 6 1 plan weekend session overtime-IsValid

edit_overtime_work-IsValid_example :
    Rows.IsValid (edit_overtime_work 0 5 1 (moved (some 740054) (some 740055)) session).1
edit_overtime_work-IsValid_example =
    edit_overtime_work-IsValid 0 5 1 (moved (some 740054) (some 740055)) session overtime-IsValid

-- A request from home, from its creation to its approval: the manager, user 3, signs the only step, and
-- the listener handles the event.
abbrev tables_of_flex : Database RequestTables World
tables_of_flex = record {
  schemas = record {
    public_schema = session.tables;
    tenant_schema = λ tenant. record {
      wfh_requests = [];
      overtime_requests = [];
      leaves = [];
      leave_types = [];
      leave_balances = [];
    };
  };
  outside = world;
}

abbrev after_request : Database RequestTables World
after_request = (create_wfh_request 5 1 (asked 740049 740049) tables_of_flex).1

abbrev after_approval : Database WorkflowTables Outside
after_approval =
    (run_in_tenant_context true 1
      (act_on_current_step 1 3 (codes "manager") 1 StepAction.approved none)
      after_request.outside.workflow).1

abbrev handled : List Emission → FlexSession → FlexSession
handled [] s = s
handled (e ∷ events) s = handled events (handle_approved e.event s)

request_to_approval :
    map
      (λ w. w.status)
      (handled after_approval.outside.events
        (Tenancy.open_session true 1 after_request)).tables.wfh_requests
    ≡ FlexStatus.approved ∷ []
unfolding create_wfh_request create_wfh_work check_dates insert_wfh run_in_tenant_context
    request_workflow create_workflow_request get_config_steps sort_by act_on_current_step check_step
    find_current text_eq lower record_decision write_audit decide outcome_of handle_approved
    mark_approved mark_wfh new_request
request_to_approval = refl

abbrev linked_row : Wfh
linked_row = record (new_wfh 1 5 1 (asked 740049 740049)) { workflow_request_id = some 1 }

abbrev linked_session : FlexSession
linked_session = (create_wfh_work 5 1 (asked 740049 740049) session).1
