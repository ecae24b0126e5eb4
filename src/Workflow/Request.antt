-- ===== src/Workflow/Request.antt =====
-- The lifecycle of a workflow request: `createWorkflowRequest`, `actOnCurrentStep`,
-- `cancelWorkflowRequest`, `writeAudit` and `truncateStepsAtRejection` of
-- src/modules/workflow/workflow.service.ts. A failure of the database itself is not modelled, so
-- the `catch` of `writeAudit` is never taken.
pub mod Sound
pub mod Decide
pub mod Reach
pub mod Progress
pub mod Stuck
pub mod Effects
pub mod Truncate
use tgs_hrms.Base.{
  ℕ, ◌+◌, Text, Bool, true, false, ◌&&◌, Option, none, some, List, [], ◌∷◌, ◌++◌, map, ◌==◌, leb,
  if◌then◌else◌, length, find, sort_by, text_eq, lower, Exec, Result, ok, err, bad_request,
  not_found, forbidden, no_workflow_config, workflow_request_missing, already_decided,
  no_pending_step, own_request, wrong_role, pure, gets, lift, or_throw, throw_if, modify, ◌>>=◌,
  ◌>>◌,
}
use tgs_hrms.Tenancy.{Session}
use tgs_hrms.Workflow.{
  RequestType, RequestStatus, StepStatus, StepAction, ConfigStep, WorkflowStep, WorkflowRequest,
  FlexRequestAudit, EventName, on_step_approved, on_request_approved, on_request_rejected,
  on_request_cancelled, Outcome, WorkflowCompletedEvent, Emission, WorkflowTables, Outside,
}
use tgs_hrms.Workflow.Config.{WorkflowSession, get_config_steps}

abbrev pub step_order_of : WorkflowStep → ℕ
step_order_of s = s.step_order

-- status is `pending` or `in_review`
abbrev pub is_open : RequestStatus → Bool
is_open RequestStatus.pending = true
is_open RequestStatus.in_review = true
is_open _ = false

abbrev pub is_pending : StepStatus → Bool
is_pending StepStatus.pending = true
is_pending _ = false

abbrev pub is_rejected : StepStatus → Bool
is_rejected StepStatus.rejected = true
is_rejected _ = false

-- `steps.slice(0, rejectedIdx + 1)`
unfoldable pub cut_at_rejection : List WorkflowStep → List WorkflowStep
cut_at_rejection [] = []
cut_at_rejection (s ∷ steps) = if is_rejected s.status then s ∷ [] else s ∷ cut_at_rejection steps

unfoldable pub truncate_steps_at_rejection : List WorkflowStep → List WorkflowStep
unfolding cut_at_rejection
truncate_steps_at_rejection steps = cut_at_rejection (sort_by step_order_of steps)

abbrev pub find_request : ℕ → ℕ → List WorkflowRequest → Option WorkflowRequest
find_request id tenant rows = find (λ r. r.id == id && r.tenant_id == tenant) rows

-- `requestRepo.save` on a row that is there
abbrev pub save_request : WorkflowRequest → List WorkflowRequest → List WorkflowRequest
save_request r = map (λ x. if x.id == r.id then r else x)

abbrev pub put_requests : List WorkflowRequest → WorkflowSession → WorkflowSession
put_requests rows s = record s { tables = record (s.tables) { requests = rows } }

unfoldable pub write_audit : FlexRequestAudit → WorkflowSession → WorkflowSession
write_audit a s = record s { tables = record (s.tables) { audits = s.tables.audits ++ a ∷ [] } }

abbrev pub emit : Emission → WorkflowSession → WorkflowSession
emit e s = record s { outside = record (s.outside) { events = s.outside.events ++ e ∷ [] } }

abbrev pub new_step : ConfigStep → WorkflowStep
new_step cfg = record {
  step_order = cfg.step_order;
  approver_role = cfg.approver_role;
  step_label = cfg.step_label;
  status = StepStatus.pending;
  approver_id = none;
  remarks = none;
  acted_at = none;
}

unfoldable pub new_request : ℕ → ℕ → RequestType → ℕ → ℕ → List ConfigStep → WorkflowRequest
new_request id tenant type entity requestor config = record {
  id = id;
  tenant_id = tenant;
  request_type = type;
  related_entity_id = entity;
  requestor_id = requestor;
  status = RequestStatus.pending;
  current_step_order = 1;
  total_steps = length config;
  steps = map new_step config;
}

abbrev add_request : WorkflowRequest → WorkflowSession → WorkflowSession
add_request r s = record s {
  tables = record (s.tables) { requests = s.tables.requests ++ r ∷ [] };
  outside = record (s.outside) { next_id = s.outside.next_id + 1 };
}

unfoldable pub create_workflow_request :
    ℕ → RequestType → ℕ → ℕ → Exec WorkflowSession WorkflowRequest
unfolding new_request
create_workflow_request tenant type entity requestor = do
  config ← gets (λ s. get_config_steps tenant type s.tables.configs)
  throw_if (length config == 0) (bad_request no_workflow_config)
  id ← gets (λ s. s.outside.next_id)
  let request = new_request id tenant type entity requestor config
  modify (add_request request)
  pure request

-- the pending step of the current level
unfoldable pub find_current : WorkflowRequest → Option WorkflowStep
find_current r = find (λ s. s.step_order == r.current_step_order && is_pending s.status) r.steps

-- the checks of `actOnCurrentStep`, in their order
unfoldable pub check_step : WorkflowRequest → ℕ → Text → Result WorkflowStep
check_step r actor role =
    if is_open r.status
    then elim (find_current r) [
      | none ↦ err (bad_request no_pending_step)
      | some step ↦
          if actor == r.requestor_id
          then err (forbidden own_request)
          else if text_eq (lower step.approver_role) (lower role)
          then ok step
          else err (forbidden wrong_role)
    ]
    else err (bad_request already_decided)

abbrev pub step_status : StepAction → StepStatus
step_status StepAction.approved = StepStatus.approved
step_status StepAction.rejected = StepStatus.rejected

abbrev pub sign : WorkflowStep → StepAction → ℕ → Option Text → ℕ → WorkflowStep
sign step action actor remarks now = record step {
  status = step_status action;
  approver_id = some actor;
  remarks = remarks;
  acted_at = some now;
}

-- `stepRepo.save(currentStep)`
unfoldable pub save_step : WorkflowStep → List WorkflowStep → List WorkflowStep
save_step step = map (λ s. if s.step_order == step.step_order then step else s)

-- `current_step_order >= total_steps`
abbrev pub is_last_step : WorkflowRequest → Bool
is_last_step r = leb r.total_steps r.current_step_order

-- what becomes of the request once the step is signed
unfoldable pub settle : StepAction → WorkflowRequest → WorkflowRequest
settle StepAction.rejected r = record r { status = RequestStatus.rejected }
settle StepAction.approved r =
    if is_last_step r then record r { status = RequestStatus.approved } else record r {
      current_step_order = r.current_step_order + 1;
      status = RequestStatus.in_review;
    }

unfoldable pub event_name : StepAction → WorkflowRequest → EventName
event_name StepAction.rejected r = on_request_rejected
event_name StepAction.approved r = if is_last_step r then on_request_approved else on_step_approved

unfoldable pub outcome_of : StepAction → WorkflowRequest → Outcome
outcome_of StepAction.rejected r = Outcome.rejected
outcome_of StepAction.approved r =
    if is_last_step r then Outcome.approved else Outcome.step_approved

abbrev pub completed : WorkflowRequest → ℕ → Outcome → ℕ → Option Text → WorkflowCompletedEvent
completed r tenant out actor remarks = record {
  workflow_request_id = r.id;
  related_entity_id = r.related_entity_id;
  request_type = r.request_type;
  tenant_id = tenant;
  requestor_id = r.requestor_id;
  outcome = out;
  final_approver_id = some actor;
  final_remarks = remarks;
}

abbrev pub audit_of :
    WorkflowRequest → ℕ → ℕ → RequestStatus → RequestStatus → Option Text → FlexRequestAudit
audit_of r tenant actor from to note = record {
  workflow_request_id = r.id;
  tenant_id = tenant;
  actor_id = actor;
  from_status = from;
  to_status = to;
  note = note;
}

-- the request with the current step signed, and then settled
unfoldable pub decide :
    WorkflowRequest → WorkflowStep → StepAction → ℕ → Option Text → ℕ → WorkflowRequest
unfolding settle save_step
decide r step action actor remarks now =
    settle action (record r { steps = save_step (sign step action actor remarks now) r.steps })

-- the row as it is read back, its steps cut
abbrev pub view : WorkflowRequest → WorkflowRequest
view r = record r { steps = truncate_steps_at_rejection r.steps }

-- the writes of `actOnCurrentStep`, and the event that it emits
unfoldable pub record_decision :
    WorkflowRequest
    → WorkflowStep
    → StepAction
    → ℕ
    → ℕ
    → Option Text
    → WorkflowSession
    → WorkflowSession
record_decision request step action actor tenant remarks s =
    let decided = decide request step action actor remarks s.outside.now in
    let saved = put_requests (save_request decided s.tables.requests) s in
    let audit = audit_of request tenant actor request.status decided.status remarks in
    emit
      (record {
        name = event_name action request;
        event = completed request tenant (outcome_of action request) actor remarks;
      })
      (write_audit audit saved)

unfoldable pub act_on_current_step :
    ℕ → ℕ → Text → ℕ → StepAction → Option Text → Exec WorkflowSession (Option WorkflowRequest)
act_on_current_step id actor role tenant action remarks = do
  found ← gets (λ s. find_request id tenant s.tables.requests)
  request ← or_throw found (not_found workflow_request_missing)
  step ← lift (check_step request actor role)
  modify (record_decision request step action actor tenant remarks)
  result ← gets (λ s. find (λ r. r.id == id) s.tables.requests)
  pure (elim result [ none ↦ none | some r ↦ some (view r) ])

abbrev pub is_decided : RequestStatus → Bool
is_decided RequestStatus.approved = true
is_decided RequestStatus.rejected = true
is_decided _ = false

abbrev pub cancel_row : WorkflowRequest → WorkflowRequest
cancel_row r = record r { status = RequestStatus.cancelled }

-- the part of `cancelWorkflowRequest` behind its early returns
unfoldable pub do_cancel : WorkflowRequest → ℕ → ℕ → WorkflowSession → WorkflowSession
do_cancel r tenant actor s =
    let saved = put_requests (save_request (cancel_row r) s.tables.requests) s in
    let audit = audit_of r tenant actor r.status RequestStatus.cancelled none in
    emit
      (record {
        name = on_request_cancelled;
        event = completed r tenant Outcome.cancelled actor none;
      })
      (write_audit audit saved)

unfoldable pub cancel_workflow_request : ℕ → ℕ → ℕ → WorkflowSession → WorkflowSession
unfolding do_cancel write_audit
cancel_workflow_request id tenant actor s = elim (find_request id tenant s.tables.requests) [
  | none ↦ s
  | some r ↦ if is_decided r.status then s else do_cancel r tenant actor s
]
