-- ===== src/Workflow/Request/Reach.antt =====
-- The operations on requests as a step relation, and what every reachable table has.
use tgs_hrms.Base.{
  ap, ◌∙◌, ℕ, ◌≤◌, ◌≡◌, refl, ◌≢◌, Text, true, false, Option, some, List, [], ◌∷◌, ◌++◌, arith,
  length, All, All-append, All-find, ok, Option-cases, Result-cases, Bool-cases, inl, inr,
}
use tgs_hrms.Workflow.{
  RequestType, RequestStatus, StepStatus, StepAction, WorkflowConfig, WorkflowStep, WorkflowRequest,
}
use tgs_hrms.Workflow.Config.{WorkflowSession, get_config_steps}
use tgs_hrms.Workflow.Request.{
  is_open, is_decided, find_request, find_current, save_request, check_step, decide,
  act_on_current_step, new_request, create_workflow_request, do_cancel, cancel_workflow_request,
  cancel_row, record_decision, write_audit,
}
use tgs_hrms.Workflow.Request.Sound.{mark, IsSound, NumberedConfig, new_request-IsSound}
use tgs_hrms.Workflow.Request.Decide.{check_step_passed, decide-IsSound, cancel_row-IsSound}
use tgs_hrms.Workflow.Request.Effects.{
  act_refused_unchanged, act_passed, create_passed, create_refused_unchanged, cancel_decided,
  cancel_open, cancel_missing,
}

-- One call of the service, by anybody, with any arguments, whether it passes or not.
pub data Step : WorkflowSession → WorkflowSession → Type 0 where
  created :
      (tenant : ℕ) (type : RequestType) (entity requestor : ℕ) (s : WorkflowSession)
      → Step s (create_workflow_request tenant type entity requestor s).1
  acted :
      (id actor : ℕ) (role : Text) (tenant : ℕ) (action : StepAction) (remarks : Option Text)
      (s : WorkflowSession)
      → Step s (act_on_current_step id actor role tenant action remarks s).1
  cancelled :
      (id tenant actor : ℕ) (s : WorkflowSession)
      → Step s (cancel_workflow_request id tenant actor s)

pub data Reach (s : WorkflowSession) : WorkflowSession → Type 0 where
  here : Reach s s
  next : {t u : WorkflowSession} → Reach s t → Step t u → Reach s u

All-save_request :
    (P : WorkflowRequest → Type 0) (new : WorkflowRequest) (rows : List WorkflowRequest)
    → P new
    → All P rows
    → All P (save_request new rows)
All-save_request P new [] p h = tt
All-save_request P new (r ∷ rows) p h = (ground arith, All-save_request P new rows p h.1)

-- A property of single requests that a creation from the given configuration, a decision and a
-- cancellation keep.
pub record IsKept (P : WorkflowRequest → Type 0) (configs : List WorkflowConfig) : Type 0 where
  pub on_create :
      (id tenant : ℕ) (type : RequestType) (entity requestor : ℕ)
      → 1 ≤ length (get_config_steps tenant type configs)
      → P (new_request id tenant type entity requestor (get_config_steps tenant type configs))
  pub on_decide :
      (r : WorkflowRequest) (step : WorkflowStep) (action : StepAction) (actor : ℕ)
      (remarks : Option Text) (now : ℕ)
      → P r
      → is_open r.status ≡ true
      → find_current r ≡ some step
      → actor ≢ r.requestor_id
      → P (decide r step action actor remarks now)
  pub on_cancel : (r : WorkflowRequest) → P r → is_decided r.status ≡ false → P (cancel_row r)

module _ (P : WorkflowRequest → Type 0) (configs : List WorkflowConfig)
    (kept : IsKept P configs) where
  abbrev Holds : WorkflowSession → Type 0
  Holds s = (s.tables.configs ≡ configs) × All P s.tables.requests

  record_decision-Holds :
      (s : WorkflowSession) (r : WorkflowRequest) (step : WorkflowStep) (action : StepAction)
      (actor tenant : ℕ) (remarks : Option Text)
      → Holds s
      → P (decide r step action actor remarks s.outside.now)
      → Holds (record_decision r step action actor tenant remarks s)
  unfolding record_decision write_audit
  record_decision-Holds s r step action actor tenant remarks h p =
      (h.0, All-save_request P _ s.tables.requests p h.1)

  do_cancel-Holds :
      (s : WorkflowSession) (r : WorkflowRequest) (tenant actor : ℕ)
      → Holds s
      → P (cancel_row r)
      → Holds (do_cancel r tenant actor s)
  unfolding do_cancel write_audit
  do_cancel-Holds s r tenant actor h p = (h.0, All-save_request P _ s.tables.requests p h.1)

  created-Holds :
      (tenant : ℕ) (type : RequestType) (entity requestor : ℕ) (s : WorkflowSession)
      → Holds s
      → Holds (create_workflow_request tenant type entity requestor s).1
  created-Holds tenant type entity requestor s h =
      elim (Result-cases (create_workflow_request tenant type entity requestor s).0) [
        | inl (e, f) ↦ rw (create_refused_unchanged tenant type entity requestor s f) h
        | inr (r, f) ↦ passed r (create_passed tenant type entity requestor s f)
      ]
    where
      passed :
          (r : WorkflowRequest)
          → let config = get_config_steps tenant type s.tables.configs in
            let after = (create_workflow_request tenant type entity requestor s).1 in
            (r ≡ new_request s.outside.next_id tenant type entity requestor config)
              × (1 ≤ length config)
              × (after.tables.requests ≡ s.tables.requests ++ r ∷ [])
              × (after.tables.configs ≡ s.tables.configs)
              × (after.outside.events ≡ s.outside.events)
            → Holds (create_workflow_request tenant type entity requestor s).1
      passed r (made, some_step, written, kept_configs, told) =
          let config = ap (get_config_steps tenant type) h.0 in
          let p =
            kept.on_create s.outside.next_id tenant type entity requestor
              (rw config at some_step) in
          (
            kept_configs ∙ h.0,
            rw (written, made, config) (All-append P s.tables.requests _ h.1 (p, tt)),
          )

  acted-Holds :
      (id actor : ℕ) (role : Text) (tenant : ℕ) (action : StepAction) (remarks : Option Text)
      (s : WorkflowSession)
      → Holds s
      → Holds (act_on_current_step id actor role tenant action remarks s).1
  acted-Holds id actor role tenant action remarks s h =
      elim (Result-cases (act_on_current_step id actor role tenant action remarks s).0) [
        | inl (e, f) ↦ rw (act_refused_unchanged id actor role tenant action remarks s f) h
        | inr (v, f) ↦ passed (act_passed id actor role tenant action remarks s f)
      ]
    where
      passed :
          ((r : WorkflowRequest) × (step : WorkflowStep) × (find_request id tenant s.tables.requests
              ≡ some r)
            × (check_step r actor role ≡ ok step)
            × ((act_on_current_step id actor role tenant action remarks s).1
                ≡ record_decision r step action actor tenant remarks s))
          → Holds (act_on_current_step id actor role tenant action remarks s).1
      passed (r, step, found, checked, written) =
          let (live, current, other, _) = check_step_passed r actor role step checked in
          let p = All-find P _ s.tables.requests r h.1 found in
          rw written (
            record_decision-Holds s r step action actor tenant remarks h
              (kept.on_decide r step action actor remarks s.outside.now p live current other))

  cancelled-Holds :
      (id tenant actor : ℕ) (s : WorkflowSession)
      → Holds s
      → Holds (cancel_workflow_request id tenant actor s)
  cancelled-Holds id tenant actor s h =
      elim (Option-cases (find_request id tenant s.tables.requests)) [
        | inl e ↦ rw (cancel_missing id tenant actor s e) h
        | inr (r, e) ↦ elim (Bool-cases (is_decided r.status)) [
          | inl d ↦ rw (cancel_decided id tenant actor s r e d) h
          | inr d ↦ rw (cancel_open id tenant actor s r e d) (
              do_cancel-Holds s r tenant actor h
                (kept.on_cancel r (All-find P _ s.tables.requests r h.1 e) d))
        ]
      ]

  Step-Holds : {s t : WorkflowSession} → Step s t → Holds s → Holds t
  Step-Holds (created tenant type entity requestor s) h =
      created-Holds tenant type entity requestor s h
  Step-Holds (acted id actor role tenant action remarks s) h =
      acted-Holds id actor role tenant action remarks s h
  Step-Holds (cancelled id tenant actor s) h = cancelled-Holds id tenant actor s h

  pub Reach-Holds : {s t : WorkflowSession} → Holds s → Reach s t → Holds t
  Reach-Holds h here = h
  Reach-Holds h (next r st) = Step-Holds st (Reach-Holds h r)

-- every type of every tenant has its active steps numbered 1, 2, 3, …
abbrev pub IsNumberedTable : List WorkflowConfig → Type 0
IsNumberedTable configs =
    (tenant : ℕ) (type : RequestType) → NumberedConfig 1 (get_config_steps tenant type configs)

cancel_mark : (s : RequestStatus) → is_decided s ≡ false → mark s ≡ StepStatus.pending
cancel_mark s h = ground arith

IsSound-IsKept : (configs : List WorkflowConfig) → IsNumberedTable configs → IsKept IsSound configs
IsSound-IsKept configs n = record {
  on_create = λ id tenant type entity requestor some_step.
      new_request-IsSound id tenant type entity requestor (get_config_steps tenant type configs)
        (n tenant type) some_step;
  on_decide = λ r step action actor remarks now h live current other.
      decide-IsSound r step actor remarks now h live current other action;
  on_cancel = λ r h d. cancel_row-IsSound r h (cancel_mark r.status d);
}

-- Where the active steps of every type are numbered 1, 2, 3, … and every request in the table is
-- sound, every request is sound after whatever creations, decisions and cancellations, by anybody and
-- in any order: the levels below the current
-- one are approved and those above it wait, and whoever signed a step is not the requestor.
pub Reach-IsSound :
    {s t : WorkflowSession}
    → IsNumberedTable s.tables.configs
    → All IsSound s.tables.requests
    → Reach s t
    → All IsSound t.tables.requests
Reach-IsSound {s} n h r =
    (Reach-Holds IsSound s.tables.configs (IsSound-IsKept s.tables.configs n) (refl, h) r).1
