-- ===== src/Workflow/Config.antt =====
-- Config management of src/modules/workflow/workflow.service.ts. Each definition is the work that
-- a method does in its tenant's context; `seed_default_configs_for_tenant` uses the injected
-- repository, which is that of the public schema, and has no context.
pub mod Order
pub mod Removal
pub mod Seeding
use tgs_hrms.Base.{
  ℕ, ◌+◌, Text, Bool, true, false, not, ◌&&◌, Option, none, some, List, [], ◌∷◌, ◌++◌, map, ◌==◌,
  arith, if◌then◌else◌, length, any, find, keep, sort_by, Exec, Result, bad_request, not_found,
  no_field_to_update, config_step_missing, last_config_step, pure, gets, or_throw, throw_if, modify,
  ◌>>=◌, ◌>>◌,
}
use tgs_hrms.Tenancy.{Session, Database, Schemas}
use tgs_hrms.Workflow.{
  RequestType, leave, wfh, overtime, type_eq, WorkflowConfig, ConfigStep, WorkflowTables, Outside,
  default_workflow_configs,
}

abbrev pub WorkflowSession : Type 0
WorkflowSession = Session WorkflowTables Outside

-- `where: { tenant_id, request_type }`
abbrev pub is_of : ℕ → RequestType → WorkflowConfig → Bool
is_of tenant type r = r.tenant_id == tenant && type_eq r.request_type type

-- `where: { tenant_id, request_type, step_order }`
abbrev pub is_step : ℕ → RequestType → ℕ → WorkflowConfig → Bool
is_step tenant type order r = is_of tenant type r && r.step_order == order

abbrev pub order_of : WorkflowConfig → ℕ
order_of r = r.step_order

unfoldable pub find_configs : ℕ → RequestType → List WorkflowConfig → List WorkflowConfig
find_configs tenant type rows = sort_by order_of (keep (is_of tenant type) rows)

abbrev pub set_configs : List WorkflowConfig → WorkflowSession → WorkflowSession
set_configs rows s = record s { tables = record (s.tables) { configs = rows } }

-- `existing[existing.length - 1].step_order + 1`, or 1
unfoldable pub next_order : List WorkflowConfig → ℕ
next_order [] = 1
next_order (r ∷ []) = r.step_order + 1
next_order (_ ∷ r ∷ rows) = next_order (r ∷ rows)

unfoldable pub add_workflow_config_step :
    ℕ → RequestType → Text → Text → Option Bool → Exec WorkflowSession (List WorkflowConfig)
add_workflow_config_step tenant type role label active = do
  rows ← gets (λ s. s.tables.configs)
  let existing = find_configs tenant type rows
  let created : WorkflowConfig = record {
    tenant_id = tenant;
    request_type = type;
    step_order = next_order existing;
    approver_role = role;
    step_label = label;
    is_active = elim active [ none ↦ true | some b ↦ b ];
  }
  modify (set_configs (rows ++ created ∷ []))
  pure (sort_by order_of (existing ++ created ∷ []))

-- UpdateWorkflowConfigStepDto
pub record UpdateStep : Type 0 where
  pub approver_role : Option Text
  pub step_label : Option Text
  pub is_active : Option Bool

abbrev pub or_keep {ℓ} : {A : Type ℓ} → Option A → A → A
or_keep none a = a
or_keep (some b) a = b

abbrev is_missing {ℓ} : {A : Type ℓ} → Option A → Bool
is_missing none = true
is_missing (some _) = false

abbrev pub apply_update : UpdateStep → WorkflowConfig → WorkflowConfig
apply_update dto r = record r {
  approver_role = or_keep dto.approver_role r.approver_role;
  step_label = or_keep dto.step_label r.step_label;
  is_active = or_keep dto.is_active r.is_active;
}

-- `configRepo.save(step)` on a row that is there
abbrev pub save_step :
    ℕ → RequestType → ℕ → WorkflowConfig → List WorkflowConfig → List WorkflowConfig
save_step tenant type order step = map (λ r. if is_step tenant type order r then step else r)

unfoldable pub update_workflow_config_step :
    ℕ → RequestType → ℕ → UpdateStep → Exec WorkflowSession WorkflowConfig
update_workflow_config_step tenant type order dto = do
  throw_if (is_missing dto.approver_role && is_missing dto.step_label && is_missing dto.is_active)
      (bad_request no_field_to_update)
  rows ← gets (λ s. s.tables.configs)
  found ← or_throw (find (is_step tenant type order) rows) (not_found config_step_missing)
  let step = apply_update dto found
  modify (set_configs (save_step tenant type order step rows))
  pure step

-- `remaining[i].step_order = i + 1`
unfoldable pub renumber : ℕ → List WorkflowConfig → List WorkflowConfig
renumber order [] = []
renumber order (r ∷ rows) = record r { step_order = order } ∷ renumber (order + 1) rows

-- `configRepo.remove(step)`: the unique index lets one row have the tenant, the type and the order
abbrev pub remove_step : ℕ → RequestType → ℕ → List WorkflowConfig → List WorkflowConfig
remove_step tenant type order rows = keep (λ r. not (is_step tenant type order r)) rows

-- a row of the tenant and the type that is one of `old`, by its order
abbrev pub is_among : ℕ → RequestType → List WorkflowConfig → WorkflowConfig → Bool
is_among tenant type old r = is_of tenant type r && any (λ x. x.step_order == r.step_order) old

-- `configRepo.save(remaining)`: an UPDATE of each row, whose new version comes after the rows that
-- are left as they are
abbrev pub save_all :
    ℕ
    → RequestType
    → List WorkflowConfig
    → List WorkflowConfig
    → List WorkflowConfig
    → List WorkflowConfig
save_all tenant type old new rows = keep (λ r. not (is_among tenant type old r)) rows ++ new

-- `all.filter((r) => r.step_order !== stepOrder).sort(…)`
unfoldable pub remaining_steps : ℕ → List WorkflowConfig → List WorkflowConfig
remaining_steps order all = sort_by order_of (keep (λ r. not (r.step_order == order)) all)

unfoldable pub delete_workflow_config_step :
    ℕ → RequestType → ℕ → Exec WorkflowSession (List WorkflowConfig)
unfolding renumber
delete_workflow_config_step tenant type order = do
  rows ← gets (λ s. s.tables.configs)
  or_throw (find (is_step tenant type order) rows) (not_found config_step_missing)
  let all = find_configs tenant type rows
  throw_if (length all == 1) (bad_request last_config_step)
  modify (set_configs (remove_step tenant type order rows))
  left ← gets (λ s. s.tables.configs)
  let remaining = remaining_steps order all
  modify (set_configs (save_all tenant type remaining (renumber 1 remaining) left))
  pure (sort_by order_of (renumber 1 remaining))

abbrev pub default_config : ℕ → RequestType → ConfigStep → WorkflowConfig
default_config tenant type step = record {
  tenant_id = tenant;
  request_type = type;
  step_order = step.step_order;
  approver_role = step.approver_role;
  step_label = step.step_label;
  is_active = true;
}

-- one round of the inner loop: the row is created unless it is there
unfoldable pub seed_step : ℕ → RequestType → List WorkflowConfig → ConfigStep → List WorkflowConfig
seed_step tenant type rows step = elim (find (is_step tenant type step.step_order) rows) [
  | none ↦ rows ++ default_config tenant type step ∷ []
  | some _ ↦ rows
]

unfoldable pub seed_steps :
    ℕ → RequestType → List WorkflowConfig → List ConfigStep → List WorkflowConfig
unfolding seed_step
seed_steps tenant type rows [] = rows
seed_steps tenant type rows (step ∷ steps) =
    seed_steps tenant type (seed_step tenant type rows step) steps

-- `Object.entries(DEFAULT_WORKFLOW_CONFIGS)`, in the order of the literal
abbrev pub seeded : ℕ → List WorkflowConfig → List WorkflowConfig
seeded tenant rows =
    let a = seed_steps tenant leave rows (default_workflow_configs leave) in
    let b = seed_steps tenant wfh a (default_workflow_configs wfh) in
    seed_steps tenant overtime b (default_workflow_configs overtime)

unfoldable pub seed_default_configs_for_tenant :
    ℕ → Database WorkflowTables Outside → Database WorkflowTables Outside
unfolding seed_steps
seed_default_configs_for_tenant tenant d =
    let t = d.schemas.public_schema in
    record d {
      schemas = record (d.schemas) {
        public_schema = record t { configs = seeded tenant t.configs };
      };
    }

abbrev pub as_step : WorkflowConfig → ConfigStep
as_step r = record {
  step_order = r.step_order;
  approver_role = r.approver_role;
  step_label = r.step_label;
}

-- DEFAULT_WORKFLOW_CONFIGS[requestType] where there is no row
abbrev pub or_default : RequestType → List WorkflowConfig → List ConfigStep
or_default type [] = default_workflow_configs type
or_default type (r ∷ rows) = map as_step (r ∷ rows)

unfoldable pub get_config_steps : ℕ → RequestType → List WorkflowConfig → List ConfigStep
get_config_steps tenant type rows =
    or_default type (sort_by order_of (keep (λ r. is_of tenant type r && r.is_active) rows))
