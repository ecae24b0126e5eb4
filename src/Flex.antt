-- ===== src/Flex.antt =====
-- What src/modules/wfh/wfh.service.ts, src/modules/overtime/overtime.service.ts and
-- src/modules/leave/leave.service.ts have in common: the rows, the tables that a transaction covers, and the services that they call.
--
-- Days are whole UTC days (Calendar). Whoever is notified is listed in `notices`; that a notice is
-- sent is never a reason for a request to fail, for the calls stand in a `try` of their own.
mod Rows
pub use Rows.*
use tgs_hrms.Base.{
  ℕ, ◌+◌, ℤ, Text, Bool, true, false, ◌&&◌, Option, none, some, List, [], ◌∷◌, ◌++◌, ◌==◌, leb,
  if◌then◌else◌, Exec, Error, ok, forbidden, overlaps_approved, overlaps_pending,
}
use tgs_hrms.Tenancy.{Session, Database, run_in_tenant_context}
use tgs_hrms.Workflow.{RequestType, WorkflowTables, Outside, WorkflowRequest}
use tgs_hrms.Workflow.Request.{create_workflow_request, cancel_workflow_request}
use tgs_hrms.Bookings.{Booking}

-- the exception of the overlap check names the status of the row that was found
abbrev pub overlap_error : FlexStatus → Error
overlap_error s = forbidden (if is_approved s then overlaps_approved else overlaps_pending)

-- What lies outside the transaction of the service. `upload` and `same_object` stand for the storage
-- service, `none` for an upload that throws; `manager_of` and `team_manager_of` for the queries that
-- join employees and teams; `role_of`, `is_member` and `admins_of` for those on users; `…_enabled`
-- for the tenant's settings.
pub record World : Type 0 where
  pub workflow : Database WorkflowTables Outside
  pub next_id : ℕ
  pub today : ℕ
  pub provisioned : ℕ → Bool
  pub wfh_enabled : ℕ → Bool
  pub overtime_enabled : ℕ → Bool
  pub leave_enabled : ℕ → Bool
  pub now : ℕ
  pub manager_of : ℕ → ℕ → Option ℕ
  pub team_manager_of : ℕ → Option ℕ
  pub role_of : ℕ → Option Text
  pub is_member : ℕ → ℕ → Bool
  pub admins_of : ℕ → List ℕ
  pub upload : List ℕ → ℕ → ℕ → Option (List Text)
  pub same_object : Text → Text → Bool
  pub notices : List Notice

-- the tables of one schema that the three services read and write
pub record RequestTables : Type 0 where
  pub wfh_requests : List Wfh
  pub overtime_requests : List Overtime
  pub leaves : List Leave
  pub leave_types : List LeaveType
  pub leave_balances : List LeaveBalance

abbrev pub FlexSession : Type 0
FlexSession = Session RequestTables World

-- The workflow service runs in a context, and a transaction, of its own.
unfoldable pub request_workflow :
    ℕ → RequestType → ℕ → ℕ → Bool → Exec (Database WorkflowTables Outside) WorkflowRequest
request_workflow tenant type entity requestor provisioned =
    run_in_tenant_context provisioned tenant (create_workflow_request tenant type entity requestor)

cancel_work : ℕ → ℕ → ℕ → Exec (Session WorkflowTables Outside) (Unit {0})
cancel_work id tenant actor s = (ok tt, cancel_workflow_request id tenant actor s)

pub cancel_workflow : ℕ → ℕ → ℕ → Bool → Exec (Database WorkflowTables Outside) (Unit {0})
cancel_workflow id tenant actor provisioned =
    run_in_tenant_context provisioned tenant (cancel_work id tenant actor)

module _ {A : Type 0} where
  -- a call of the workflow service from a method of another service
  abbrev pub call_workflow :
      (Bool → Exec (Database WorkflowTables Outside) A) → ℕ → Exec FlexSession A
  call_workflow m tenant s =
      let (r, d) = m (s.outside.provisioned tenant) s.outside.workflow in
      (r, record s { outside = record (s.outside) { workflow = d } })

abbrev pub notify : Notice → FlexSession → FlexSession
notify n s = record s { outside = record (s.outside) { notices = s.outside.notices ++ n ∷ [] } }

-- the manager is told of a new request, unless there is none or it is the employee
abbrev pub notify_manager : ℕ → ℕ → RequestType → ℕ → FlexSession → FlexSession
notify_manager employee tenant type entity s = elim (s.outside.manager_of employee tenant) [
  | none ↦ s
  | some manager ↦
      if manager == employee
      then s
      else notify
          (record {
            to = manager;
            kind = NoticeKind.applied;
            type = type;
            related_entity_id = entity;
          })
          s
]

-- `findIndex` and the `filter` that drops the element of that index
unfoldable pub drop_first : (Text → Bool) → List Text → Option (List Text)
drop_first p [] = none
drop_first p (x ∷ xs) =
    if p x then some xs else elim (drop_first p xs) [ none ↦ none | some rest ↦ some (x ∷ rest) ]

-- the row is stored under the next number
abbrev pub fresh_id : FlexSession → FlexSession
fresh_id s = record s { outside = record (s.outside) { next_id = s.outside.next_id + 1 } }

-- what an optional field of a request says, and what stays without it
abbrev pub or_keep {ℓ} : {A : Type ℓ} → Option A → A → A
or_keep none a = a
or_keep (some b) a = b

abbrev pub is_given {ℓ} : {A : Type ℓ} → Option A → Bool
is_given none = false
is_given (some _) = true

module _ {A : Type 0} where
  -- `runInTenantContext` of the three services
  abbrev pub in_tenant : ℕ → Exec FlexSession A → Exec (Database RequestTables World) A
  in_tenant tenant work d = run_in_tenant_context (d.outside.provisioned tenant) tenant work d
