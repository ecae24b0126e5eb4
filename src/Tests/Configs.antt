-- ===== src/Tests/Configs.antt =====
-- The approval steps of tenant 1: three for overtime, and one of tenant 2 for leave.
use tgs_hrms.Base.{
  any, ◌==◌, ◌≤◌, length, map, ℕ, ◌≡◌, refl, true, not, none, List, [], ◌∷◌, keep, Numbered,
  sort_by, codes,
}
use tgs_hrms.Tenancy.{Database}
use tgs_hrms.Workflow.{RequestType, leave, overtime, WorkflowConfig, WorkflowTables, Outside}
use tgs_hrms.Workflow.Config.{
  WorkflowSession, is_of, order_of, find_configs, renumber, delete_workflow_config_step,
  add_workflow_config_step, remaining_steps,
}
use tgs_hrms.Workflow.Config.Removal.{content}
use tgs_hrms.Workflow.Config.Order.{delete-Numbered}

abbrev config : ℕ → RequestType → ℕ → WorkflowConfig
config tenant type order = record {
  tenant_id = tenant;
  request_type = type;
  step_order = order;
  approver_role = codes "manager";
  step_label = codes "Approval";
  is_active = true;
}

abbrev tables : WorkflowTables
tables = record {
  configs = config 1 overtime 3 ∷ config 2 leave 1 ∷ config 1 overtime 1 ∷ config 1 overtime 2 ∷ [];
  requests = [];
  audits = [];
}

abbrev session : WorkflowSession
session = record { tables = tables; outside = record { events = []; next_id = 1; now = 100 } }

abbrev left : List WorkflowConfig
left = config 1 overtime 1 ∷ config 1 overtime 2 ∷ []

abbrev after_delete : List WorkflowConfig
after_delete = (delete_workflow_config_step 1 overtime 2 session).1.tables.configs

abbrev before : List WorkflowConfig
before = find_configs 1 overtime session.tables.configs

delete-Numbered_example :
    (any (λ r. r.step_order == 2) before ≡ true)
    × (2 ≤ length before)
    × (map content left
        ≡ map content (sort_by order_of (keep (λ r. not (r.step_order == 2)) before)))
    × Numbered order_of 1 left
    × (find_configs 1 overtime after_delete ≡ left)
    × (keep (λ r. not (is_of 1 overtime r)) after_delete
        ≡ keep (λ r. not (is_of 1 overtime r)) session.tables.configs)
unfolding delete_workflow_config_step find_configs sort_by renumber remaining_steps
delete-Numbered_example = delete-Numbered 1 overtime 2 session refl

abbrev after_add : WorkflowSession
after_add = (add_workflow_config_step 1 overtime (codes "admin") (codes "Last") none session).1

abbrev database : Database WorkflowTables Outside
database = record {
  schemas = record { public_schema = tables; tenant_schema = λ tenant. tables };
  outside = session.outside;
}
