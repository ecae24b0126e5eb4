-- ===== src/Workflow.antt =====
-- The data of src/modules/workflow: the entities (src/entities/workflow-*.entity.ts,
-- flex-request-audit.entity.ts), the events and their payload.
--
-- A request's row holds the rows of its steps, as the entity's `steps` does: they are read and
-- written only through the request. A row of a step has its `step_order` for a key within the
-- request, and a configuration row has (tenant, type, order), by the tables' unique constraints.
-- Tenants, users and rows are numbers, for they are only compared.
pub mod Config
pub mod Request
use tgs_hrms.Base.{ℕ, Text, Bool, true, false, Option, List, [], ◌∷◌, codes}

pub data RequestType : Type 0 where
  leave wfh overtime : RequestType

pub data RequestStatus : Type 0 where
  pending in_review approved rejected cancelled : RequestStatus

pub data StepStatus : Type 0 where
  pending approved rejected : StepStatus

pub data StepAction : Type 0 where
  approved rejected : StepAction

abbrev pub type_eq : RequestType → RequestType → Bool
type_eq leave leave = true
type_eq wfh wfh = true
type_eq overtime overtime = true
type_eq _ _ = false

pub record WorkflowConfig : Type 0 where
  pub tenant_id : ℕ
  pub request_type : RequestType
  pub step_order : ℕ
  pub approver_role : Text
  pub step_label : Text
  pub is_active : Bool

-- an entry of DEFAULT_WORKFLOW_CONFIGS, and what `getConfigSteps` returns
pub record ConfigStep : Type 0 where
  pub step_order : ℕ
  pub approver_role : Text
  pub step_label : Text

pub record WorkflowStep : Type 0 where
  pub step_order : ℕ
  pub approver_role : Text
  pub step_label : Text
  pub status : StepStatus
  pub approver_id : Option ℕ
  pub remarks : Option Text
  pub acted_at : Option ℕ

pub record WorkflowRequest : Type 0 where
  pub id : ℕ
  pub tenant_id : ℕ
  pub request_type : RequestType
  pub related_entity_id : ℕ
  pub requestor_id : ℕ
  pub status : RequestStatus
  pub current_step_order : ℕ
  pub total_steps : ℕ
  pub steps : List WorkflowStep

pub record FlexRequestAudit : Type 0 where
  pub workflow_request_id : ℕ
  pub tenant_id : ℕ
  pub actor_id : ℕ
  pub from_status : RequestStatus
  pub to_status : RequestStatus
  pub note : Option Text

-- WORKFLOW_EVENTS
pub data EventName : Type 0 where
  on_step_approved on_request_approved on_request_rejected on_request_cancelled : EventName

-- the outcomes of a WorkflowCompletedEvent
pub data Outcome : Type 0 where
  approved rejected cancelled step_approved : Outcome

pub record WorkflowCompletedEvent : Type 0 where
  pub workflow_request_id : ℕ
  pub related_entity_id : ℕ
  pub request_type : RequestType
  pub tenant_id : ℕ
  pub requestor_id : ℕ
  pub outcome : Outcome
  pub final_approver_id : Option ℕ
  pub final_remarks : Option Text

pub record Emission : Type 0 where
  pub name : EventName
  pub event : WorkflowCompletedEvent

-- the tables of one schema that the workflow service reads and writes
pub record WorkflowTables : Type 0 where
  pub configs : List WorkflowConfig
  pub requests : List WorkflowRequest
  pub audits : List FlexRequestAudit

-- What no transaction takes back: the events, oldest first, and the next number for a row. `now`
-- is what `new Date()` reads.
pub record Outside : Type 0 where
  pub events : List Emission
  pub next_id : ℕ
  pub now : ℕ

abbrev config_step : ℕ → Text → Text → ConfigStep
config_step order role label = record {
  step_order = order;
  approver_role = role;
  step_label = label;
}

-- DEFAULT_WORKFLOW_CONFIGS
abbrev pub default_workflow_configs : RequestType → List ConfigStep
default_workflow_configs leave =
    config_step 1 (codes "manager") (codes "Manager Approval")
    ∷ config_step 2 (codes "admin") (codes "Admin Approval")
    ∷ []
default_workflow_configs wfh = config_step 1 (codes "manager") (codes "Manager Approval") ∷ []
default_workflow_configs overtime =
    config_step 1 (codes "manager") (codes "Manager Approval")
    ∷ config_step 2 (codes "hr-admin") (codes "HR Approval")
    ∷ []
