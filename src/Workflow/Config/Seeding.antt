-- ===== src/Workflow/Config/Seeding.antt =====
-- Seeding the default steps, by the listener of `tenant.created`
-- (src/modules/workflow/listeners), may be repeated.
use tgs_hrms.Base.{
  ℕ, ◌≡◌, refl, ◌≢◌, Bool, true, none, List, [], ◌∷◌, ◌++◌, arith, find, Option-cases, inl, inr,
}
use tgs_hrms.Workflow.{
  RequestType, leave, wfh, overtime, type_eq, WorkflowConfig, ConfigStep, WorkflowTables, Outside,
  default_workflow_configs,
}
use tgs_hrms.Workflow.Config.{
  is_step, default_config, seed_step, seed_steps, seeded, seed_default_configs_for_tenant,
}
use tgs_hrms.Tenancy.{Database}

-- the tenant has a row for the step
abbrev pub HasStep : ℕ → RequestType → List WorkflowConfig → ConfigStep → Type 0
HasStep tenant type rows step = find (is_step tenant type step.step_order) rows ≢ none

abbrev pub HasSteps : ℕ → RequestType → List WorkflowConfig → List ConfigStep → Type 0
HasSteps tenant type rows [] = Unit
HasSteps tenant type rows (step ∷ steps) =
    HasStep tenant type rows step × HasSteps tenant type rows steps

find-append :
    (p : WorkflowConfig → Bool) (rows more : List WorkflowConfig)
    → find p rows ≢ none
    → find p (rows ++ more) ≢ none
find-append p [] more h = absurd (h refl)
find-append p (r ∷ rows) more h = ground (arith, find-append p rows more)

find-append_last :
    (p : WorkflowConfig → Bool) (rows : List WorkflowConfig) (r : WorkflowConfig)
    → p r ≡ true
    → find p (rows ++ r ∷ []) ≢ none
find-append_last p [] r h = ground arith
find-append_last p (x ∷ rows) r h = ground (arith, find-append_last p rows r h)

type_eq_refl : (t : RequestType) → type_eq t t ≡ true
type_eq_refl leave = refl
type_eq_refl wfh = refl
type_eq_refl overtime = refl

module _ (tenant : ℕ) (type : RequestType) where
  default_config-is_step :
      (step : ConfigStep)
      → is_step tenant type step.step_order (default_config tenant type step) ≡ true
  default_config-is_step step = ground (arith, type_eq_refl type)

  seed_step_new :
      (rows : List WorkflowConfig) (step : ConfigStep)
      → find (is_step tenant type step.step_order) rows ≡ none
      → seed_step tenant type rows step ≡ rows ++ default_config tenant type step ∷ []
  unfolding seed_step
  seed_step_new rows step e = rw (e, seed_step)

  -- a step that is there is left alone
  seed_step_old :
      (rows : List WorkflowConfig) (step : ConfigStep)
      → HasStep tenant type rows step
      → seed_step tenant type rows step ≡ rows
  unfolding seed_step
  seed_step_old rows step h = ground arith

  seed_step-HasStep :
      (rows : List WorkflowConfig) (step : ConfigStep)
      → HasStep tenant type (seed_step tenant type rows step) step
  seed_step-HasStep rows step =
      elim (Option-cases (find (is_step tenant type step.step_order) rows)) [
        | inl e ↦ rw (seed_step_new rows step e) (
            find-append_last (is_step tenant type step.step_order) rows
              (default_config tenant type step) (default_config-is_step step))
        | inr (r, e) ↦ rw (seed_step_old rows step (λ n. cc)) (λ n. cc)
      ]

  -- a row that is there is not lost, whatever it is looked up by
  seed_step-keeps :
      (p : WorkflowConfig → Bool) (rows : List WorkflowConfig) (step : ConfigStep)
      → find p rows ≢ none
      → find p (seed_step tenant type rows step) ≢ none
  seed_step-keeps p rows step h =
      elim (Option-cases (find (is_step tenant type step.step_order) rows)) [
        | inl e ↦ rw (seed_step_new rows step e) (find-append p rows _ h)
        | inr (r, e) ↦ rw (seed_step_old rows step (λ n. cc)) h
      ]

  seed_steps-keeps :
      (p : WorkflowConfig → Bool) (rows : List WorkflowConfig) (steps : List ConfigStep)
      → find p rows ≢ none
      → find p (seed_steps tenant type rows steps) ≢ none
  unfolding seed_steps
  seed_steps-keeps p rows [] h = h
  seed_steps-keeps p rows (step ∷ steps) h =
      seed_steps-keeps p (seed_step tenant type rows step) steps (seed_step-keeps p rows step h)

  seed_steps-HasSteps :
      (rows : List WorkflowConfig) (steps : List ConfigStep)
      → HasSteps tenant type (seed_steps tenant type rows steps) steps
  unfolding seed_steps
  seed_steps-HasSteps rows [] = tt
  seed_steps-HasSteps rows (step ∷ steps) = (
    seed_steps-keeps (is_step tenant type step.step_order) (seed_step tenant type rows step) steps
        (seed_step-HasStep rows step),
    seed_steps-HasSteps (seed_step tenant type rows step) steps,
  )

  seed_steps_old :
      (rows : List WorkflowConfig) (steps : List ConfigStep)
      → HasSteps tenant type rows steps
      → seed_steps tenant type rows steps ≡ rows
  unfolding seed_steps
  seed_steps_old rows [] h = refl
  seed_steps_old rows (step ∷ steps) h =
      rw (seed_step_old rows step h.0) (seed_steps_old rows steps h.1)

HasSteps-keeps :
    (tenant : ℕ) (type t : RequestType) (more : List ConfigStep) (rows : List WorkflowConfig)
    (steps : List ConfigStep)
    → HasSteps tenant type rows steps
    → HasSteps tenant type (seed_steps tenant t rows more) steps
HasSteps-keeps tenant type t more rows [] h = tt
HasSteps-keeps tenant type t more rows (step ∷ steps) h = (
  seed_steps-keeps tenant t (is_step tenant type step.step_order) rows more h.0,
  HasSteps-keeps tenant type t more rows steps h.1,
)

abbrev pub IsSeeded : ℕ → List WorkflowConfig → Type 0
IsSeeded tenant rows =
    HasSteps tenant leave rows (default_workflow_configs leave)
    × HasSteps tenant wfh rows (default_workflow_configs wfh)
    × HasSteps tenant overtime rows (default_workflow_configs overtime)

seeded-IsSeeded : (tenant : ℕ) (rows : List WorkflowConfig) → IsSeeded tenant (seeded tenant rows)
seeded-IsSeeded tenant rows =
    let leaves = default_workflow_configs leave in
    let wfhs = default_workflow_configs wfh in
    let overtimes = default_workflow_configs overtime in
    let a = seed_steps tenant leave rows leaves in
    let b = seed_steps tenant wfh a wfhs in
    (
      HasSteps-keeps tenant leave overtime overtimes b leaves (
          HasSteps-keeps tenant leave wfh wfhs a leaves
            (seed_steps-HasSteps tenant leave rows leaves)),
      HasSteps-keeps tenant wfh overtime overtimes b wfhs (seed_steps-HasSteps tenant wfh a wfhs),
      seed_steps-HasSteps tenant overtime b overtimes,
    )

seeded_old :
    (tenant : ℕ) (rows : List WorkflowConfig) → IsSeeded tenant rows → seeded tenant rows ≡ rows
seeded_old tenant rows (l, w, o) =
    let a = seed_steps_old tenant leave rows (default_workflow_configs leave) l in
    let b = seed_steps_old tenant wfh rows (default_workflow_configs wfh) w in
    rw (a, b) (seed_steps_old tenant overtime rows (default_workflow_configs overtime) o)

-- Seeding gives the tenant a row in the public schema for every default step of every type, and
-- seeding a second time changes nothing.
pub seed_idempotent :
    (tenant : ℕ) (d : Database WorkflowTables Outside)
    → let once = seed_default_configs_for_tenant tenant d in
      IsSeeded tenant once.schemas.public_schema.configs
      × (seed_default_configs_for_tenant tenant once ≡ once)
unfolding seed_default_configs_for_tenant
seed_idempotent tenant d =
    let rows = d.schemas.public_schema.configs in
    (
      seeded-IsSeeded tenant rows,
      rw (seeded_old tenant (seeded tenant rows) (seeded-IsSeeded tenant rows)),
    )
