-- ===== src/Workflow/Request/Sound.antt =====
-- What holds of every request between two operations: the steps are numbered, those below the
-- current one are approved, those above it wait, and each signature is another user's than the
-- requestor's.
use tgs_hrms.Base.{
  ℕ, suc, ◌+◌, ◌≤◌, ◌≡◌, refl, ◌≢◌, Option, none, some, List, [], ◌∷◌, map, arith, ◌==◌, ltb,
  if◌then◌else◌, length, All, Numbered, length-map,
}
use tgs_hrms.Workflow.{
  RequestType, RequestStatus, StepStatus, ConfigStep, WorkflowStep, WorkflowRequest,
}
use tgs_hrms.Workflow.Request.{step_order_of, new_step, new_request, save_step}

-- the status of the step at the current level, by that of the request
abbrev pub mark : RequestStatus → StepStatus
mark RequestStatus.approved = StepStatus.approved
mark RequestStatus.rejected = StepStatus.rejected
mark _ = StepStatus.pending

abbrev pub status_at : ℕ → StepStatus → ℕ → StepStatus
status_at current at_current order =
    if ltb order current
    then StepStatus.approved
    else if order == current
    then at_current
    else StepStatus.pending

-- A step is signed exactly when it is decided, and never by the requestor.
abbrev pub IsSigned : ℕ → StepStatus → Option ℕ → Type 0
IsSigned requestor StepStatus.pending none = Unit
IsSigned requestor StepStatus.pending (some a) = ⊥
IsSigned requestor StepStatus.approved none = ⊥
IsSigned requestor StepStatus.approved (some a) = a ≢ requestor
IsSigned requestor StepStatus.rejected none = ⊥
IsSigned requestor StepStatus.rejected (some a) = a ≢ requestor

abbrev pub IsMarked : ℕ → StepStatus → WorkflowStep → Type 0
IsMarked current at_current s = s.status ≡ status_at current at_current s.step_order

pub record IsSound (r : WorkflowRequest) : Type 0 where
  pub numbered : Numbered step_order_of 1 r.steps
  pub counted : length r.steps ≡ r.total_steps
  pub low : 1 ≤ r.current_step_order
  pub high : r.current_step_order ≤ r.total_steps
  pub marked : All (IsMarked r.current_step_order (mark r.status)) r.steps
  pub signed : All (λ s. IsSigned r.requestor_id s.status s.approver_id) r.steps
  pub first : r.status ≡ RequestStatus.pending → r.current_step_order ≡ 1
  pub later : r.status ≡ RequestStatus.in_review → 2 ≤ r.current_step_order
  pub last : r.status ≡ RequestStatus.approved → r.current_step_order ≡ r.total_steps

-- the steps that a request is created with
abbrev pub NumberedConfig : ℕ → List ConfigStep → Type 0
NumberedConfig k [] = Unit
NumberedConfig k (c ∷ cs) = (c.step_order ≡ k) × NumberedConfig (suc k) cs

pub new_steps-Numbered :
    (k : ℕ) (config : List ConfigStep)
    → NumberedConfig k config
    → Numbered step_order_of k (map new_step config)
new_steps-Numbered k [] h = tt
new_steps-Numbered k (c ∷ cs) h = (h.0, new_steps-Numbered (suc k) cs h.1)

new_steps-IsMarked :
    (k : ℕ) (config : List ConfigStep)
    → 1 ≤ k
    → NumberedConfig k config
    → All (IsMarked 1 StepStatus.pending) (map new_step config)
new_steps-IsMarked k [] p h = tt
new_steps-IsMarked k (c ∷ cs) p h = (ground arith, new_steps-IsMarked (suc k) cs (omega arith) h.1)

new_steps-IsSigned :
    (requestor : ℕ) (config : List ConfigStep)
    → All (λ s. IsSigned requestor s.status s.approver_id) (map new_step config)
new_steps-IsSigned requestor [] = tt
new_steps-IsSigned requestor (c ∷ cs) = (tt, new_steps-IsSigned requestor cs)

-- A request that is created from steps numbered 1, 2, 3, …, at least one, is sound.
pub new_request-IsSound :
    (id tenant : ℕ) (type : RequestType) (entity requestor : ℕ) (config : List ConfigStep)
    → NumberedConfig 1 config
    → 1 ≤ length config
    → IsSound (new_request id tenant type entity requestor config)
unfolding new_request
new_request-IsSound id tenant type entity requestor config h p = record {
  numbered = new_steps-Numbered 1 config h;
  counted = length-map new_step config;
  low = omega arith;
  high = p;
  marked = new_steps-IsMarked 1 config (omega arith) h;
  signed = new_steps-IsSigned requestor config;
  first = λ e. refl;
  later = λ e. cc;
  last = λ e. cc;
}

pub save_step-Numbered :
    (k : ℕ) (step : WorkflowStep) (steps : List WorkflowStep)
    → Numbered step_order_of k steps
    → Numbered step_order_of k (save_step step steps)
unfolding save_step
save_step-Numbered k step [] h = tt
save_step-Numbered k step (s ∷ steps) h = (ground arith, save_step-Numbered (suc k) step steps h.1)

pub length-save_step :
    (step : WorkflowStep) (steps : List WorkflowStep) → length (save_step step steps) ≡ length steps
unfolding save_step
length-save_step step steps = length-map _ steps

-- What every other step has, and the saved one too, all steps have after the save.
pub All-save_step :
    (P Q : WorkflowStep → Type 0) (step : WorkflowStep) (steps : List WorkflowStep)
    → Q step
    → ((s : WorkflowStep) → P s → s.step_order ≢ step.step_order → Q s)
    → All P steps
    → All Q (save_step step steps)
unfolding save_step
All-save_step P Q step [] q f h = tt
All-save_step P Q step (s ∷ steps) q f h =
    (ground (arith, f s), All-save_step P Q step steps q f h.1)

-- marks below, at and above the level that is decided
pub mark_same :
    (current : ℕ) (old new : StepStatus) (s : WorkflowStep)
    → IsMarked current old s
    → s.step_order ≢ current
    → IsMarked current new s
mark_same current old new s h n = ground arith

pub mark_next :
    (current : ℕ) (s : WorkflowStep)
    → IsMarked current StepStatus.pending s
    → s.step_order ≢ current
    → IsMarked (current + 1) StepStatus.pending s
mark_next current s h n = ground arith
