-- ===== src/Wfh/Links.antt =====
-- The workflow request of a request to work from home.
use tgs_hrms.Base.{
  sym, ◌∙◌, ℕ, ◌≡◌, refl, Bool, some, List, [], ◌∷◌, ◌++◌, arith, ok, Option-cases, Bool-cases,
  bind-ok, lift, ◌==◌, Exec, modify, pure, ◌>>=◌, ◌>>◌, inl, inr,
}
use mathlib.Core.Path.{ap, subst}
use tgs_hrms.Tenancy.{Database, schema_of, open_session}
use tgs_hrms.Tenancy.Atomic.{run_in_tenant_context_commits}
use tgs_hrms.Workflow.{WorkflowRequest, RequestStatus, RequestType, wfh, WorkflowTables, Outside}
use tgs_hrms.Workflow.Config.{get_config_steps}
use tgs_hrms.Workflow.Request.{create_workflow_request, new_request}
use tgs_hrms.Workflow.Request.Effects.{create_passed}
use tgs_hrms.Flex.{Wfh, FlexSession, request_workflow, call_workflow, notify_manager}
use tgs_hrms.Wfh.Rows.{attach-booking}
use tgs_hrms.Wfh.{
  CreateWfh, save_wfh, new_wfh, attach, check_dates, insert_wfh, link, create_wfh_work,
}

-- what the workflow service made for the entity
abbrev pub IsFor : RequestType → ℕ → ℕ → ℕ → WorkflowRequest → Type 0
IsFor type entity requestor tenant r =
    (r.status ≡ RequestStatus.pending)
    × (r.request_type ≡ type)
    × (r.related_entity_id ≡ entity)
    × (r.requestor_id ≡ requestor)
    × (r.tenant_id ≡ tenant)

new_request-IsFor :
    (id tenant : ℕ) (type : RequestType) (entity requestor : ℕ) (d : WorkflowTables)
    → IsFor type entity requestor tenant
        (new_request id tenant type entity requestor (get_config_steps tenant type d.configs))
unfolding new_request
new_request-IsFor id tenant type entity requestor d = (refl, refl, refl, refl, refl)

request_workflow_passed :
    (tenant : ℕ) (type : RequestType) (entity requestor : ℕ) (provisioned : Bool)
    (d : Database WorkflowTables Outside) (r : WorkflowRequest)
    → (request_workflow tenant type entity requestor provisioned d).0 ≡ ok r
    → IsFor type entity requestor tenant r
      × ((schema_of provisioned tenant
            (request_workflow tenant type entity requestor provisioned d).1.schemas).requests
          ≡ (schema_of provisioned tenant d.schemas).requests ++ r ∷ [])
unfolding request_workflow
request_workflow_passed tenant type entity requestor provisioned d r h =
    let work = create_workflow_request tenant type entity requestor in
    let c = run_in_tenant_context_commits provisioned tenant work d h in
    let s = open_session provisioned tenant d in
    let p = create_passed tenant type entity requestor s c.0 in
    (
      subst (IsFor type entity requestor tenant) (sym p.0)
          (new_request-IsFor s.outside.next_id tenant type entity requestor s.tables),
      ap (λ t. t.requests) c.1 ∙ p.2,
    )

notify_manager-workflow :
    (employee tenant : ℕ) (type : RequestType) (entity : ℕ) (s : FlexSession)
    → (notify_manager employee tenant type entity s).outside.workflow ≡ s.outside.workflow
notify_manager-workflow employee tenant type entity s =
    elim (Option-cases (s.outside.manager_of employee tenant)) [
      | inl e ↦ rw (e, notify_manager) refl
      | inr (m, e) ↦
          rw (e, notify_manager)
            (elim (Bool-cases (m == employee)) [ inl f ↦ rw f refl | inr f ↦ rw f refl ])
    ]

-- the requests that the workflow service keeps for a tenant
abbrev pub requests_of : Bool → ℕ → FlexSession → List WorkflowRequest
requests_of provisioned tenant s =
    (schema_of provisioned tenant s.outside.workflow.schemas).requests

module _ (employee tenant : ℕ) (dto : CreateWfh) (s : FlexSession) where
  abbrev id : ℕ
  id = s.outside.next_id

  abbrev saved : Wfh
  saved = attach s.outside dto.files employee (new_wfh id employee tenant dto)

  abbrev ask : Exec FlexSession WorkflowRequest
  ask = call_workflow (request_workflow tenant wfh id employee) tenant

  abbrev finish : WorkflowRequest → Exec FlexSession Wfh
  finish request = do
    modify (save_wfh (link request saved))
    modify (notify_manager employee tenant wfh id)
    pure (link request saved)

  abbrev after : FlexSession
  after = (create_wfh_work employee tenant dto s).1

  create_wfh_work_steps :
      (w : Wfh)
      → (create_wfh_work employee tenant dto s).0 ≡ ok w
      → (r : WorkflowRequest) × ((ask (insert_wfh employee tenant dto s)).0 ≡ ok r)
        × (link r saved ≡ w)
        × (after ≡ (finish r (ask (insert_wfh employee tenant dto s)).1).1)
  unfolding create_wfh_work
  create_wfh_work_steps w h =
      let inserted = insert_wfh employee tenant dto s in
      let (u, checked, f, g) =
        bind-ok (lift (check_dates employee tenant dto.start_date dto.end_date s.tables))
          (λ _ t. (ask >>= finish) (insert_wfh employee tenant dto t)) s {b = w} h in
      let (r, a, b, c) = bind-ok ask finish inserted {b = w} f in (r, a, ground arith, g ∙ c)

  -- Where the work of `createWfhRequest` returns a row, the row names a workflow request, which is
  -- pending, of the type and the tenant, for that row and by that employee; and it is the one request
  -- that was added to those of the tenant.
  pub create_wfh_work_linked :
      (w : Wfh)
      → (create_wfh_work employee tenant dto s).0 ≡ ok w
      → (r : WorkflowRequest) × (w.workflow_request_id ≡ some r.id)
        × IsFor wfh w.id employee tenant r
        × (requests_of (s.outside.provisioned tenant) tenant after
            ≡ requests_of (s.outside.provisioned tenant) tenant s ++ r ∷ [])
  unfolding insert_wfh
  create_wfh_work_linked w h =
      let (r, a, b, c) = create_wfh_work_steps w h in
      let same : w.id ≡ id =
        sym (ap (λ z. z.id) b)
        ∙ ap (λ z. z.id)
            (attach-booking s.outside dto.files employee (new_wfh id employee tenant dto)) in
      let p =
        request_workflow_passed tenant wfh id employee (s.outside.provisioned tenant)
          s.outside.workflow r a in
      let told =
        notify_manager-workflow employee tenant wfh id
          (save_wfh (link r saved) (ask (insert_wfh employee tenant dto s)).1) in
      (
        r,
        subst (λ z. z.workflow_request_id ≡ some r.id) b refl,
        subst (λ z. IsFor wfh z employee tenant r) (sym same) p.0,
        ap (requests_of (s.outside.provisioned tenant) tenant) c
            ∙ ap
                (λ (d : Database WorkflowTables Outside).
                  (schema_of (s.outside.provisioned tenant) tenant d.schemas).requests)
                told
            ∙ p.1,
      )
