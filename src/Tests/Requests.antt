-- ===== src/Tests/Requests.antt =====
-- Workflow requests: an overtime request of user 5, which user 3 (a manager) and user 4 (HR) decide,
-- of tenant 1, which has no steps of its own and so the default ones.
use tgs_hrms.Base.{
  ℕ, ◌+◌, ◌≡◌, refl, ◌≢◌, ◌↔◌, Bool, true, false, Option, none, some, List, [], ◌∷◌, ◌++◌, map,
  arith, length, sort_by, All, codes, text_eq, lower, Exec, err, forbidden, wrong_role, own_request,
}
use mathlib.Core.Path.{subst}
use tgs_hrms.Tenancy.{Database}
use tgs_hrms.Workflow.{
  StepAction, leave, wfh, overtime, RequestStatus, StepStatus, WorkflowConfig, WorkflowStep,
  WorkflowRequest, WorkflowTables, Outside, default_workflow_configs,
}
use tgs_hrms.Workflow.Config.{WorkflowSession, get_config_steps}
use tgs_hrms.Workflow.Request.{
  find_request, find_current, save_request, check_step, new_request, new_step,
  create_workflow_request, act_on_current_step, outcome_of, completed, record_decision, write_audit,
  decide, audit_of, cut_at_rejection, truncate_steps_at_rejection, step_order_of,
}
use tgs_hrms.Workflow.Request.Sound.{IsSound, new_request-IsSound}
use tgs_hrms.Workflow.Request.Effects.{name_of, act_records}
use tgs_hrms.Workflow.Request.Reach.{
  created, acted, Reach, here, next, IsNumberedTable, Reach-IsSound,
}
use tgs_hrms.Workflow.Request.Progress.{act_enabled, approve_by, approve_by_each}
use tgs_hrms.Workflow.Request.Stuck.{gap_never_approved}

abbrev outside : Outside
outside = record { events = []; next_id = 1; now = 100 }

abbrev session_of : List WorkflowConfig → List WorkflowRequest → WorkflowSession
session_of configs requests = record {
  tables = record { configs = configs; requests = requests; audits = [] };
  outside = outside;
}

abbrev start : WorkflowSession
start = session_of [] []

abbrev request : WorkflowRequest
request = new_request 1 1 overtime 7 5 (default_workflow_configs overtime)

abbrev open_table : WorkflowSession
open_table = session_of [] (request ∷ [])

abbrev after_create : WorkflowSession
after_create = (create_workflow_request 1 overtime 7 5 start).1

abbrev after_manager : WorkflowSession
after_manager =
    (act_on_current_step 1 3 (codes "Manager") 1 StepAction.approved none after_create).1

abbrev after_hr : WorkflowSession
after_hr = (act_on_current_step 1 4 (codes "HR-Admin") 1 StepAction.approved none after_manager).1

-- both approvals, with roles in another case than the configured ones
approved_twice : map (λ r. r.status) after_hr.tables.requests ≡ RequestStatus.approved ∷ []
unfolding act_on_current_step create_workflow_request check_step get_config_steps sort_by
    find_current text_eq lower record_decision write_audit decide
approved_twice = refl

-- the employee's own approval is refused, and so is the wrong role
own_approval :
    (act_on_current_step 1 5 (codes "manager") 1 StepAction.approved none after_create).0
    ≡ err (forbidden own_request)
unfolding act_on_current_step create_workflow_request check_step get_config_steps sort_by
    find_current
own_approval = refl

request-IsSound : IsSound request
request-IsSound =
    new_request-IsSound 1 1 overtime 7 5 (default_workflow_configs overtime) (refl, (refl, tt))
      (omega arith)

default-IsNumberedTable : IsNumberedTable []
unfolding get_config_steps sort_by
default-IsNumberedTable tenant leave = (refl, (refl, tt))
default-IsNumberedTable tenant wfh = (refl, tt)
default-IsNumberedTable tenant overtime = (refl, (refl, tt))

abbrev two_calls : Reach start after_manager
two_calls =
    next (next here (created 1 overtime 7 5 start))
      (acted 1 3 (codes "Manager") 1 StepAction.approved none after_create)

Reach-IsSound_example : All IsSound after_manager.tables.requests
Reach-IsSound_example =
    Reach-IsSound {s = start} {t = after_manager} default-IsNumberedTable tt two_calls

abbrev two_users : List ℕ
two_users = 3 ∷ 4 ∷ []

approve_by_each_example :
    ((approve_by two_users 0 request).status ≡ RequestStatus.approved)
    ↔ (length two_users + request.current_step_order ≡ request.total_steps + 1)
unfolding new_request
approve_by_each_example =
    approve_by_each 0 two_users request request-IsSound refl
      (λ e. omega (arith, e), (λ e. omega (arith, e), tt)) (omega arith)

abbrev manager_step : WorkflowStep
manager_step = new_step (record {
  step_order = 1;
  approver_role = codes "manager";
  step_label = codes "Manager Approval";
})

act_enabled_example :
    (act_on_current_step 1 3 (codes "manager") 1 StepAction.approved none open_table).0
    ≢ err (forbidden wrong_role)
unfolding new_request find_current text_eq lower
act_enabled_example =
    act_enabled 1 3 (codes "manager") 1 StepAction.approved none open_table request refl
      request-IsSound refl (λ e. omega (arith, e))
      (λ step e.
        let same : manager_step ≡ step = ground arith in
        subst (λ z. text_eq (lower z.approver_role) (lower (codes "manager")) ≡ true) same refl)
      (forbidden wrong_role)

abbrev cancelled_session : WorkflowSession
cancelled_session = session_of [] (record request { status = RequestStatus.cancelled } ∷ [])

abbrev cancelled_request : WorkflowRequest
cancelled_request = record request { status = RequestStatus.cancelled }

-- the second step of the two was deactivated, and a third one added
abbrev config : ℕ → Bool → WorkflowConfig
config order active = record {
  tenant_id = 1;
  request_type = overtime;
  step_order = order;
  approver_role = codes "manager";
  step_label = codes "Approval";
  is_active = active;
}

abbrev gap_start : WorkflowSession
gap_start = session_of (config 1 true ∷ config 2 false ∷ config 3 true ∷ []) []

abbrev gap_session : WorkflowSession
gap_session = (create_workflow_request 1 overtime 7 5 gap_start).1

abbrev gap_request : WorkflowRequest
gap_request =
    record (new_request 1 1 overtime 7 5 (get_config_steps 1 overtime gap_start.tables.configs)) {
      current_step_order = 2;
      status = RequestStatus.in_review;
    }

gap_never_approved_example :
    All
      (λ r. r.tenant_id ≡ 1 → r.request_type ≡ overtime → r.status ≢ RequestStatus.approved)
      gap_session.tables.requests
unfolding get_config_steps sort_by create_workflow_request
gap_never_approved_example =
    gap_never_approved 1 overtime 2 gap_start gap_session (omega arith) (omega arith)
      (λ e. omega (arith, e), (λ e. omega (arith, e), tt)) refl
      (next here (created 1 overtime 7 5 gap_start))

abbrev open_after_manager : WorkflowSession
open_after_manager =
    (act_on_current_step 1 3 (codes "manager") 1 StepAction.approved none open_table).1

act_records_example :
    (r : WorkflowRequest) × (new : WorkflowRequest) × (find_request 1 1 open_table.tables.requests
      ≡ some r)
    × (open_after_manager.tables.requests ≡ save_request new open_table.tables.requests)
    × (open_after_manager.tables.audits
        ≡ open_table.tables.audits ++ audit_of r 1 3 r.status new.status none ∷ [])
    × (open_after_manager.outside.events
        ≡ open_table.outside.events
          ++ record {
            name = name_of new.status;
            event = completed r 1 (outcome_of StepAction.approved r) 3 none;
          }
            ∷ [])
    × (open_after_manager.tables.configs ≡ open_table.tables.configs)
unfolding act_on_current_step check_step new_request find_current text_eq lower record_decision
    write_audit decide
act_records_example = act_records 1 3 (codes "manager") 1 StepAction.approved none open_table refl

abbrev approved_session : WorkflowSession
approved_session = session_of [] (record request { status = RequestStatus.approved } ∷ [])

abbrev database : Database WorkflowTables Outside
database = record {
  schemas = record { public_schema = start.tables; tenant_schema = λ tenant. open_table.tables };
  outside = outside;
}

-- an employee's own approval, in a tenant's context
abbrev own_approval_work : Exec WorkflowSession (Option WorkflowRequest)
own_approval_work = act_on_current_step 1 5 (codes "manager") 1 StepAction.approved none

abbrev creation_work : Exec WorkflowSession WorkflowRequest
creation_work = create_workflow_request 1 overtime 7 5

abbrev rejected_steps : List WorkflowStep
rejected_steps =
    record manager_step { step_order = 2; status = StepStatus.rejected }
    ∷ record manager_step { step_order = 3 }
    ∷ record manager_step { status = StepStatus.approved }
    ∷ []

-- the steps up to the rejected one are shown, in order
truncate_rejected : map step_order_of (truncate_steps_at_rejection rejected_steps) ≡ 1 ∷ 2 ∷ []
unfolding truncate_steps_at_rejection cut_at_rejection sort_by
truncate_rejected = refl
