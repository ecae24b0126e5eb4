-- ===== src/Leave/Listener.antt =====
-- src/modules/leave/listeners/workflow.listener.ts: what the events of the workflow service do to a
-- leave, less the notices. `handleCancelled` does nothing.
--
-- `handleApproved` opens a transaction of its own, and sets the search path to the identifier of a
-- provisioned tenant.
use tgs_hrms.Base.{
  ℕ, ◌≡◌, ok, Text, Bool, true, false, Option, none, some, List, ◌==◌, if◌then◌else◌, find,
}
use tgs_hrms.Tenancy.{Database, open_session, rollback_transaction, written}
use tgs_hrms.Tenancy.Names.{get_schema_name}
use tgs_hrms.Workflow.{leave, WorkflowCompletedEvent, type_eq}
use tgs_hrms.Flex.{LeaveStatus, Leave, World, RequestTables, FlexSession}
use tgs_hrms.Leave.{save_leave, deduct_leave_balance}
use tgs_hrms.Leave.Decide.{or_empty}

-- `findOne({ where: { id } })`
abbrev pub find_by_id : ℕ → List Leave → Option Leave
find_by_id id rows = find (λ l. l.id == id) rows

-- `finalApproverId === requestorId`
abbrev pub is_own_decision : WorkflowCompletedEvent → Bool
is_own_decision e = elim e.final_approver_id [ none ↦ false | some user ↦ user == e.requestor_id ]

abbrev pub forwarded : WorkflowCompletedEvent → ℕ → Leave → Leave
forwarded e now l = record l {
  status = LeaveStatus.processing;
  approved_by = e.final_approver_id;
  approved_at = some now;
}

unfoldable pub handle_step_approved : WorkflowCompletedEvent → FlexSession → FlexSession
handle_step_approved e s =
    if type_eq e.request_type leave
    then (if is_own_decision e then s else elim (find_by_id e.related_entity_id s.tables.leaves) [
      | none ↦ s
      | some l ↦ save_leave (forwarded e s.outside.now l) s
    ])
    else s

abbrev pub settled : LeaveStatus → WorkflowCompletedEvent → ℕ → Leave → Leave
settled status e now l = record l {
  status = status;
  approved_by = e.final_approver_id;
  approved_at = some now;
  remarks = some (or_empty e.final_remarks);
}

-- the transaction of `handleApproved`, where its queries find the tables
unfoldable pub approve_found : WorkflowCompletedEvent → FlexSession → FlexSession
approve_found e s = elim (find_by_id e.related_entity_id s.tables.leaves) [
  | none ↦ s
  | some l ↦
      save_leave (settled LeaveStatus.approved e s.outside.now l)
        (deduct_leave_balance l e.tenant_id s)
]

-- The schemas that PostgreSQL has: `uuid` writes a tenant's identifier, and `tenant_named` says whose
-- schema has a name, none where no schema has it.
pub record Catalogue : Type 0 where
  pub uuid : ℕ → Text
  pub tenant_named : Text → Option ℕ

-- a tenant whose schema has the name has it from `getSchemaName`
abbrev pub IsNamedBy : (ℕ → Text) → Text → Option ℕ → Type 0
IsNamedBy uuid name none = Unit
IsNamedBy uuid name (some tenant) = get_schema_name (uuid tenant) ≡ ok name

abbrev pub IsCatalogue : Catalogue → Type 0
IsCatalogue c = (name : Text) → IsNamedBy c.uuid name (c.tenant_named name)

-- The schema in which the transaction finds its tables: `SET search_path TO "<tenantId>"` for a
-- provisioned tenant, which leaves out the public schema too.
abbrev pub place_of : Catalogue → Bool → ℕ → Option (Bool × ℕ)
place_of c true tenant = elim (c.tenant_named (c.uuid tenant)) [
  | none ↦ none
  | some t ↦ some (true, t)
]
place_of c false tenant = some (false, tenant)

-- The transaction at a place. Without one the first query throws, as its table is not found; the
-- exception is caught, rolled back and logged.
unfoldable pub approve_at :
    WorkflowCompletedEvent
    → Option (Bool × ℕ)
    → Database RequestTables World
    → Database RequestTables World
approve_at e none d = rollback_transaction d.schemas d
approve_at e (some (provisioned, tenant)) d =
    written provisioned tenant d (approve_found e (open_session provisioned tenant d))

unfoldable pub handle_leave_approved :
    Catalogue → WorkflowCompletedEvent → Database RequestTables World → Database RequestTables World
handle_leave_approved c e d =
    if type_eq e.request_type leave
    then (if is_own_decision e
        then d
        else approve_at e (place_of c (d.outside.provisioned e.tenant_id) e.tenant_id) d)
    else d

unfoldable pub handle_leave_rejected : WorkflowCompletedEvent → FlexSession → FlexSession
handle_leave_rejected e s =
    if type_eq e.request_type leave
    then elim (find_by_id e.related_entity_id s.tables.leaves) [
      | none ↦ s
      | some l ↦ save_leave (settled LeaveStatus.rejected e s.outside.now l) s
    ]
    else s
