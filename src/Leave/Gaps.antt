-- ===== src/Leave/Gaps.antt =====
-- What the checks of src/modules/leave/leave.service.ts do not see, and what the listener does to a
-- leave that is settled already.
use mathlib.Core.Path.{subst}
use tgs_hrms.Base.{
  ◌∙◌, ℕ, ◌+◌, ◌≤◌, ◌≡◌, refl, ◌≢◌, Bool, true, false, ◌||◌, Text, Option, none, some, List, [],
  ◌∷◌, ◌++◌, arith, ◌==◌, find_sat, any, All, Bool-cases, Option-cases, ◌⊎◌, inl, inr,
}
use tgs_hrms.Tenancy.{Database, open_session}
use tgs_hrms.Tenancy.Names.{is_uuid}
use tgs_hrms.Tenancy.Names.Apart.{schema_name_no_uuid}
use tgs_hrms.Workflow.{leave, WorkflowCompletedEvent, type_eq}
use tgs_hrms.Calendar.{get_full_year}
use tgs_hrms.Flex.{LeaveStatus, Leave, LeaveBalance, World, RequestTables, FlexSession, or_keep}
use tgs_hrms.Leave.{
  CreateLeave, check_leave, settled_overlap, find_leave, find_type, allocated_days,
  deduct_leave_balance, find_active_type,
}
use tgs_hrms.Leave.Edit.{EditLeave, check_days, other_overlap}
use tgs_hrms.Leave.Listener.{
  find_by_id, is_own_decision, settled, approve_found, approve_at, Catalogue, IsNamedBy,
  IsCatalogue, place_of, handle_leave_approved, handle_leave_rejected,
}
use tgs_hrms.Leave.Balances.{used_days, charge, IsBalanced, IsBooked}
use tgs_hrms.Leave.Balances.Sums.{used_days-add_used, sum_by-save_row}

any-append :
    (p : Leave → Bool) (rows : List Leave) (l : Leave) → any p (rows ++ l ∷ []) ≡ any p rows || p l
any-append p [] l = ground arith
any-append p (x ∷ rows) l = ground (arith, any-append p rows l)

-- The checks of a request for leave come out the same with a pending leave more in the table, so the
-- same days can be requested again and again until one of the requests is taken up.
pub pending_ignored :
    (employee tenant : ℕ) (dto : CreateLeave) (world : World) (t : RequestTables) (l : Leave)
    → l.status ≡ LeaveStatus.pending
    → check_leave employee tenant dto world (record t { leaves = t.leaves ++ l ∷ [] })
      ≡ check_leave employee tenant dto world t
unfolding check_leave
pending_ignored employee tenant dto world t l h =
    let p = settled_overlap employee tenant dto.start_date dto.end_date in
    let unseen : p l ≡ false = ground (arith, h) in
    let same : any p (t.leaves ++ l ∷ []) ≡ any p t.leaves =
      ground (arith, any-append p t.leaves l, unseen) in
    elim (Option-cases (find_active_type dto.leave_type_id tenant t.leave_types)) [
      | inl e ↦ rw (e, check_leave) refl
      | inr (type, e) ↦ rw (e, check_leave, same) refl
    ]

any-none : (p : Leave → Bool) (rows : List Leave) → All (λ l. p l ≡ false) rows → any p rows ≡ false
any-none p [] h = refl
any-none p (x ∷ rows) h = ground (arith, h.0, any-none p rows h.1)

others_apart :
    (id user tenant start end : ℕ) (rows : List Leave)
    → All (λ x. x.employee_id ≢ user) rows
    → any (other_overlap id user tenant start end) rows ≡ false
others_apart id user tenant start end [] h = refl
others_apart id user tenant start end (x ∷ rows) h =
    ground (arith, h.0, others_apart id user tenant start end rows h.1)

-- Where whoever edits has no leave of their own, the check of the new days of somebody's leave comes out
-- as if the table were empty: an administrator may move a leave onto another one of the same employee.
pub others_ignored :
    (user tenant : ℕ) (dto : EditLeave) (world : World) (l : Leave) (rows : List Leave)
    → All (λ x. x.employee_id ≢ user) rows
    → check_days user tenant dto world l rows ≡ check_days user tenant dto world l []
unfolding check_days
others_ignored user tenant dto world l rows h =
    rw
      (others_apart l.id user tenant (or_keep dto.start_date l.start_date)
        (or_keep dto.end_date l.end_date) rows h)
      refl

found_by_id :
    (id : ℕ) (rows : List Leave) (l : Leave)
    → find_by_id id rows ≡ some l
    → find_leave l.id l.tenant_id rows ≡ some l
found_by_id id [] l e = ground arith
found_by_id id (x ∷ rows) l e = elim (Bool-cases (x.id == id)) [
  | inl m ↦
      let same : x ≡ l = ground arith in
      subst (λ z. find_leave z.id z.tenant_id (x ∷ rows) ≡ some z) same (ground arith)
  | inr m ↦
      let later : find_by_id id rows ≡ some l = ground arith in
      let i : l.id ≡ id = ground (arith, find_sat (λ z. z.id == id) rows l later) in
      ground (arith, found_by_id id rows l later)
]

-- the key that a leave is charged to
abbrev pub used_for : Leave → ℕ → List LeaveBalance → ℕ
used_for l tenant rows =
    used_days l.employee_id l.leave_type_id (get_full_year l.start_date) tenant rows

approve_found_charges :
    (e : WorkflowCompletedEvent) (s : FlexSession) (l : Leave)
    → find_by_id e.related_entity_id s.tables.leaves ≡ some l
    → used_for l e.tenant_id (approve_found e s).tables.leave_balances
      ≡ used_for l e.tenant_id s.tables.leave_balances + l.total_days
unfolding approve_found deduct_leave_balance
approve_found_charges e s l f =
    rw (f, approve_found)
      (used_days-add_used l.employee_id l.leave_type_id (get_full_year l.start_date) e.tenant_id
          l.employee_id l.leave_type_id (get_full_year l.start_date) e.tenant_id
          (allocated_days (find_type l.leave_type_id e.tenant_id s.tables.leave_types)) l.total_days
          s.tables.leave_balances
        ∙ ground arith)

-- no schema is named as the identifier of a tenant
no_schema_of_uuid :
    (uuid : ℕ → Text) (tenant : ℕ) (found : Option ℕ)
    → is_uuid (uuid tenant) ≡ true
    → IsNamedBy uuid (uuid tenant) found
    → found ≡ none
no_schema_of_uuid uuid tenant none h k = refl
no_schema_of_uuid uuid tenant (some t) h k =
    let other = schema_name_no_uuid (uuid t) (uuid tenant) k in ground (arith, h, other)

-- Let the identifier of the tenant be a UUID, and let every schema of a tenant have the name that
-- `getSchemaName` gives it. When somebody else has signed the last step of the workflow of a leave, the
-- listener does nothing for a provisioned tenant; for another tenant it charges the days of the leave to
-- the balance, whatever the status of the leave, so one that was approved before is charged a second
-- time.
pub handle_leave_approved_lem :
    (c : Catalogue) (e : WorkflowCompletedEvent) (d : Database RequestTables World) (l : Leave)
    → IsCatalogue c
    → is_uuid (c.uuid e.tenant_id) ≡ true
    → type_eq e.request_type leave ≡ true
    → is_own_decision e ≡ false
    → find_by_id e.related_entity_id d.schemas.public_schema.leaves ≡ some l
    → (d.outside.provisioned e.tenant_id ≡ true) × (handle_leave_approved c e d ≡ d)
      ⊎ (d.outside.provisioned e.tenant_id ≡ false)
        × (used_for l e.tenant_id (handle_leave_approved c e d).schemas.public_schema.leave_balances
            ≡ used_for l e.tenant_id d.schemas.public_schema.leave_balances + l.total_days)
unfolding handle_leave_approved approve_at
handle_leave_approved_lem c e d l names id t o f =
    elim (Bool-cases (d.outside.provisioned e.tenant_id)) [
      | inl p ↦
          let nowhere =
            no_schema_of_uuid c.uuid e.tenant_id (c.tenant_named (c.uuid e.tenant_id)) id
              (names (c.uuid e.tenant_id)) in
          let placed : place_of c true e.tenant_id ≡ none = rw (nowhere, place_of) refl in
          inl (p, rw (t, o, p, handle_leave_approved) (rw placed refl))
      | inr p ↦ inr (
        p,
        rw (t, o, p, handle_leave_approved)
            (approve_found_charges e (open_session false e.tenant_id d) l f),
      )
    ]

-- If the balances are those of the approved leaves, a leave of one day at least is approved, and the
-- workflow of that leave is rejected after that, then the listener leaves balances that are no longer
-- those of the approved leaves: the status is taken back and the days are not.
pub late_rejection :
    (e : WorkflowCompletedEvent) (s : FlexSession) (l : Leave)
    → type_eq e.request_type leave ≡ true
    → find_by_id e.related_entity_id s.tables.leaves ≡ some l
    → l.status ≡ LeaveStatus.approved
    → 1 ≤ l.total_days
    → IsBooked s
    → ¬ IsBalanced (handle_leave_rejected e s)
unfolding handle_leave_rejected
late_rejection e s l t f a d (n, o, b) after =
    let year = get_full_year l.start_date in
    let new = settled LeaveStatus.rejected e s.outside.now l in
    let count = charge l.employee_id l.leave_type_id year l.tenant_id in
    let old_charge : count l ≡ l.total_days = ground (arith, a) in
    let new_charge : count new ≡ 0 = ground arith in
    let before = b l.employee_id l.leave_type_id year l.tenant_id in
    let then_on =
      rw (t, f, handle_leave_rejected) at (after l.employee_id l.leave_type_id year l.tenant_id) in
    omega (
      arith,
      old_charge,
      new_charge,
      before,
      then_on,
      d,
      sum_by-save_row count l.tenant_id l new s.tables.leaves o
          (found_by_id e.related_entity_id s.tables.leaves l f) refl,
    )
