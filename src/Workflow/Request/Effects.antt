-- ===== src/Workflow/Request/Effects.antt =====
-- What one operation on the table of requests does, on each of its ends.
use tgs_hrms.Base.{
  ap, ◌∙◌, ℕ, ◌≤◌, ◌≡◌, Text, true, false, Option, none, some, [], ◌∷◌, ◌++◌, arith, length, Error,
  ok, err, bad_request, already_decided, Option-cases, Result-cases, inl, inr,
}
use tgs_hrms.Workflow.{
  RequestType, RequestStatus, StepAction, WorkflowStep, WorkflowRequest, EventName,
  on_step_approved, on_request_approved, on_request_rejected,
}
use tgs_hrms.Workflow.Config.{WorkflowSession, get_config_steps}
use tgs_hrms.Workflow.Request.{
  is_open, is_decided, find_request, save_request, check_step, decide, outcome_of, event_name,
  audit_of, completed, write_audit, act_on_current_step, new_request, create_workflow_request,
  do_cancel, cancel_workflow_request, record_decision,
}

-- The event that tells of a request's new status.
abbrev pub name_of : RequestStatus → EventName
name_of RequestStatus.approved = on_request_approved
name_of RequestStatus.rejected = on_request_rejected
name_of _ = on_step_approved

module _ (id actor : ℕ) (role : Text) (tenant : ℕ) (action : StepAction) (remarks : Option Text)
    (s : WorkflowSession) where
  abbrev after : WorkflowSession
  after = (act_on_current_step id actor role tenant action remarks s).1

  -- A decision that is refused changes nothing, and tells nobody.
  pub act_refused_unchanged :
      {e : Error}
      → (act_on_current_step id actor role tenant action remarks s).0 ≡ err e
      → after ≡ s
  unfolding act_on_current_step
  act_refused_unchanged h = ground arith

  -- A decision that passes: the request that was found, the step that was checked, and what was
  -- written.
  pub act_passed :
      {v : Option WorkflowRequest}
      → (act_on_current_step id actor role tenant action remarks s).0 ≡ ok v
      → (r : WorkflowRequest) × (step : WorkflowStep) × (find_request id tenant s.tables.requests
          ≡ some r)
        × (check_step r actor role ≡ ok step)
        × (after ≡ record_decision r step action actor tenant remarks s)
  unfolding act_on_current_step
  act_passed h = elim (Option-cases (find_request id tenant s.tables.requests)) [
    | inl e ↦ ground arith
    | inr (r, e) ↦ elim (Result-cases (check_step r actor role)) [
      | inl (c, f) ↦ ground arith
      | inr (step, f) ↦ (r, step, e, f, ground arith)
    ]
  ]

  event_name-status :
      (r : WorkflowRequest) (step : WorkflowStep) (now : ℕ)
      → event_name action r ≡ name_of (decide r step action actor remarks now).status
  unfolding event_name decide
  event_name-status r step now = ground arith

  -- A decision that passes leaves one audit record, from the old status of the request to its new
  -- one, and emits one event: that of the new status. Nothing else is told or recorded.
  pub act_records :
      {v : Option WorkflowRequest}
      → (act_on_current_step id actor role tenant action remarks s).0 ≡ ok v
      → (r : WorkflowRequest) × (new : WorkflowRequest) × (find_request id tenant s.tables.requests
          ≡ some r)
        × (after.tables.requests ≡ save_request new s.tables.requests)
        × (after.tables.audits
            ≡ s.tables.audits ++ audit_of r tenant actor r.status new.status remarks ∷ [])
        × (after.outside.events
            ≡ s.outside.events
              ++ record {
                name = name_of new.status;
                event = completed r tenant (outcome_of action r) actor remarks;
              }
                ∷ [])
        × (after.tables.configs ≡ s.tables.configs)
  unfolding record_decision write_audit
  act_records h =
      let (r, step, e, f, g) = act_passed h in
      (
        r,
        decide r step action actor remarks s.outside.now,
        e,
        ap (λ (t : WorkflowSession). t.tables.requests) g,
        ap (λ (t : WorkflowSession). t.tables.audits) g,
        ap (λ (t : WorkflowSession). t.outside.events) g
            ∙ cc (event_name-status r step s.outside.now),
        ap (λ (t : WorkflowSession). t.tables.configs) g,
      )

  -- A request that is approved, rejected or cancelled takes no decision: the call is refused as a
  -- bad request, whoever makes it.
  pub act_closed :
      (r : WorkflowRequest)
      → find_request id tenant s.tables.requests ≡ some r
      → is_open r.status ≡ false
      → act_on_current_step id actor role tenant action remarks s
        ≡ (err (bad_request already_decided), s)
  unfolding act_on_current_step check_step
  act_closed r e h = ground arith

-- When `createWorkflowRequest` returns, it returns the pending request made from the configured
-- steps, at least one of them; it has added that row behind the others, and it has changed no
-- configuration and told nobody.
pub create_passed :
    (tenant : ℕ) (type : RequestType) (entity requestor : ℕ) (s : WorkflowSession)
    {r : WorkflowRequest}
    → (create_workflow_request tenant type entity requestor s).0 ≡ ok r
    → let config = get_config_steps tenant type s.tables.configs in
      let after = (create_workflow_request tenant type entity requestor s).1 in
      (r ≡ new_request s.outside.next_id tenant type entity requestor config)
      × (1 ≤ length config)
      × (after.tables.requests ≡ s.tables.requests ++ r ∷ [])
      × (after.tables.configs ≡ s.tables.configs)
      × (after.outside.events ≡ s.outside.events)
unfolding create_workflow_request
create_passed tenant type entity requestor s h = ground arith

-- A request that cannot be created leaves nothing behind.
pub create_refused_unchanged :
    (tenant : ℕ) (type : RequestType) (entity requestor : ℕ) (s : WorkflowSession) {e : Error}
    → (create_workflow_request tenant type entity requestor s).0 ≡ err e
    → (create_workflow_request tenant type entity requestor s).1 ≡ s
unfolding create_workflow_request
create_refused_unchanged tenant type entity requestor s h = ground arith

-- A request that is approved or rejected is not cancelled, and nothing is told.
pub cancel_decided :
    (id tenant actor : ℕ) (s : WorkflowSession) (r : WorkflowRequest)
    → find_request id tenant s.tables.requests ≡ some r
    → is_decided r.status ≡ true
    → cancel_workflow_request id tenant actor s ≡ s
unfolding cancel_workflow_request
cancel_decided id tenant actor s r e h = ground arith

pub cancel_open :
    (id tenant actor : ℕ) (s : WorkflowSession) (r : WorkflowRequest)
    → find_request id tenant s.tables.requests ≡ some r
    → is_decided r.status ≡ false
    → cancel_workflow_request id tenant actor s ≡ do_cancel r tenant actor s
unfolding cancel_workflow_request
cancel_open id tenant actor s r e h = rw (e, cancel_workflow_request) (rw h)

pub cancel_missing :
    (id tenant actor : ℕ) (s : WorkflowSession)
    → find_request id tenant s.tables.requests ≡ none
    → cancel_workflow_request id tenant actor s ≡ s
unfolding cancel_workflow_request
cancel_missing id tenant actor s e = ground arith
