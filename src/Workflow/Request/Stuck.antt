-- ===== src/Workflow/Request/Stuck.antt =====
-- Where the active steps of a type skip a level, which deactivating a step by
-- `updateWorkflowConfigStep` brings about, its requests can be rejected or cancelled, never
-- approved: `createWorkflowRequest` copies the configured orders, and `actOnCurrentStep` counts the
-- levels 1, 2, 3, ….
use tgs_hrms.Base.{
  sym, ◌∙◌, ℕ, ◌≤◌, ◌≡◌, refl, ◌≢◌, Text, true, Option, none, some, List, [], ◌∷◌, map, arith,
  length, All, All-find, err, bad_request, no_pending_step, Option-cases, inl, inr,
}
use tgs_hrms.Workflow.{
  RequestType, RequestStatus, StepAction, WorkflowConfig, ConfigStep, WorkflowStep, WorkflowRequest,
}
use tgs_hrms.Workflow.Config.{WorkflowSession, get_config_steps}
use tgs_hrms.Workflow.Request.{
  is_open, find_current, find_request, check_step, sign, new_step, save_step, decide, new_request,
  act_on_current_step,
}
use tgs_hrms.Workflow.Request.Sound.{All-save_step}
use tgs_hrms.Workflow.Request.Decide.{find_current_order}
use tgs_hrms.Workflow.Request.Reach.{IsKept, Reach, Reach-Holds}

-- no configured step has the order
abbrev pub Skips : ℕ → List ConfigStep → Type 0
Skips k config = All (λ c. c.step_order ≢ k) config

-- The request has levels at and behind `k`, no step of order `k`, and is not past it.
pub record HasGap (k : ℕ) (r : WorkflowRequest) : Type 0 where
  pub skipped : All (λ s. s.step_order ≢ k) r.steps
  pub before : r.current_step_order ≤ k
  pub levels : k ≤ r.total_steps
  pub unapproved : r.status ≢ RequestStatus.approved

new_steps-Skips :
    (k : ℕ) (config : List ConfigStep)
    → Skips k config
    → All (λ s. s.step_order ≢ k) (map new_step config)
new_steps-Skips k [] h = tt
new_steps-Skips k (c ∷ config) h = (h.0, new_steps-Skips k config h.1)

new_request-HasGap :
    (k id tenant : ℕ) (type : RequestType) (entity requestor : ℕ) (config : List ConfigStep)
    → 1 ≤ k
    → k ≤ length config
    → Skips k config
    → HasGap k (new_request id tenant type entity requestor config)
unfolding new_request
new_request-HasGap k id tenant type entity requestor config low high h = record {
  skipped = new_steps-Skips k config h;
  before = low;
  levels = high;
  unapproved = λ e. cc;
}

module _ (k : ℕ) (r : WorkflowRequest) (step : WorkflowStep) (action : StepAction) (actor : ℕ)
    (remarks : Option Text) (now : ℕ) (gap : HasGap k r)
    (current : find_current r ≡ some step) where
  current_ne_gap : r.current_step_order ≢ k
  unfolding find_current
  current_ne_gap e =
      All-find (λ s. s.step_order ≢ k) _ r.steps step gap.skipped current
        ((find_current_order r step current).0 ∙ e)

  decided_skipped :
      All (λ s. s.step_order ≢ k) (save_step (sign step action actor remarks now) r.steps)
  unfolding find_current
  decided_skipped =
      All-save_step (λ s. s.step_order ≢ k) (λ s. s.step_order ≢ k) _ r.steps
        (All-find (λ s. s.step_order ≢ k) _ r.steps step gap.skipped current) (λ s h n. h)
        gap.skipped

  decided_fields :
      let r' = decide r step action actor remarks now in
      (r'.steps ≡ save_step (sign step action actor remarks now) r.steps)
      × (r'.current_step_order ≤ k)
      × (k ≤ r'.total_steps)
      × (r'.status ≢ RequestStatus.approved)
  unfolding decide
  decided_fields = ground (arith, gap.before, gap.levels, current_ne_gap)

  decide-HasGap : HasGap k (decide r step action actor remarks now)
  decide-HasGap =
      let (steps, before, levels, unapproved) = decided_fields in
      record {
        skipped = rw steps decided_skipped;
        before = before;
        levels = levels;
        unapproved = unapproved;
      }

module _ (tenant : ℕ) (type : RequestType) (k : ℕ) where
  -- of a request of this tenant and this type
  abbrev pub GapOf : WorkflowRequest → Type 0
  GapOf r = r.tenant_id ≡ tenant → r.request_type ≡ type → HasGap k r

  created-GapOf :
      (configs : List WorkflowConfig)
      → 1 ≤ k
      → k ≤ length (get_config_steps tenant type configs)
      → Skips k (get_config_steps tenant type configs)
      → (id tenant' : ℕ) (type' : RequestType) (entity requestor : ℕ)
      → GapOf
          (new_request id tenant' type' entity requestor (get_config_steps tenant' type' configs))
  unfolding new_request
  created-GapOf configs low high h id tenant' type' entity requestor e f =
      rw (e, f)
        (new_request-HasGap k id tenant type entity requestor (get_config_steps tenant type configs)
          low high h)

  decided_same :
      (r : WorkflowRequest) (step : WorkflowStep) (action : StepAction) (actor : ℕ)
      (remarks : Option Text) (now : ℕ)
      → let r' = decide r step action actor remarks now in
        (r'.tenant_id ≡ r.tenant_id) × (r'.request_type ≡ r.request_type)
  unfolding decide
  decided_same r step action actor remarks now = ground arith

  GapOf-IsKept :
      (configs : List WorkflowConfig)
      → 1 ≤ k
      → k ≤ length (get_config_steps tenant type configs)
      → Skips k (get_config_steps tenant type configs)
      → IsKept GapOf configs
  GapOf-IsKept configs low high h = record {
    on_create = λ id tenant' type' entity requestor some_step.
        created-GapOf configs low high h id tenant' type' entity requestor;
    on_decide = λ r step action actor remarks now gap live current other e f.
        let (same_tenant, same_type) = decided_same r step action actor remarks now in
        decide-HasGap k r step action actor remarks now
          (gap (sym same_tenant ∙ e) (sym same_type ∙ f)) current;
    on_cancel = λ r gap d e f. record {
      skipped = (gap e f).skipped;
      before = (gap e f).before;
      levels = (gap e f).levels;
      unapproved = λ c. cc;
    };
  }

  -- Where no active step of the tenant and the type has order `k`, though there are `k` of them or
  -- more, whatever creations, decisions and cancellations follow on an empty table of
  -- requests, no request of that tenant and that type is ever approved.
  pub gap_never_approved :
      (s t : WorkflowSession)
      → 1 ≤ k
      → k ≤ length (get_config_steps tenant type s.tables.configs)
      → Skips k (get_config_steps tenant type s.tables.configs)
      → s.tables.requests ≡ []
      → Reach s t
      → All
          (λ r. r.tenant_id ≡ tenant → r.request_type ≡ type → r.status ≢ RequestStatus.approved)
          t.tables.requests
  gap_never_approved s t low high h empty reach =
      weaken t.tables.requests
        (Reach-Holds GapOf s.tables.configs (GapOf-IsKept s.tables.configs low high h)
          (refl, rw empty tt) reach).1
    where
      weaken :
          (rows : List WorkflowRequest)
          → All GapOf rows
          → All
              (λ r.
                r.tenant_id ≡ tenant → r.request_type ≡ type → r.status ≢ RequestStatus.approved)
              rows
      weaken [] a = tt
      weaken (r ∷ rows) a = (λ e f. (a.0 e f).unapproved, weaken rows a.1)

none_found :
    (r : WorkflowRequest)
    → All (λ x. x.step_order ≢ r.current_step_order) r.steps
    → find_current r ≡ none
unfolding find_current
none_found r h = elim (Option-cases (find_current r)) [
  | inl e ↦ e
  | inr (step, e) ↦ absurd (
      All-find (λ x. x.step_order ≢ r.current_step_order) _ r.steps step h e
        (find_current_order r step e).0)
]

-- At the level that is skipped nobody can decide: the call is refused for want of a pending step,
-- and nothing is written.
pub gap_blocks :
    (id actor : ℕ) (role : Text) (tenant : ℕ) (action : StepAction) (remarks : Option Text)
    (s : WorkflowSession) (r : WorkflowRequest)
    → find_request id tenant s.tables.requests ≡ some r
    → is_open r.status ≡ true
    → All (λ x. x.step_order ≢ r.current_step_order) r.steps
    → act_on_current_step id actor role tenant action remarks s
      ≡ (err (bad_request no_pending_step), s)
unfolding act_on_current_step check_step
gap_blocks id actor role tenant action remarks s r found live h = ground (arith, none_found r h)
