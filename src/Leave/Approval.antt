-- ===== src/Leave/Approval.antt =====
-- Who may decide on a leave, by `approveLeave` and `rejectLeave` of
-- src/modules/leave/leave.service.ts, and what the decision writes.
use tgs_hrms.Base.{
  trim, ℕ, ◌+◌, ◌==◌, if◌then◌else◌, List, ◌≡◌, refl, ◌≢◌, Text, true, ◌&&◌, ◌||◌, Option, some,
  arith, ok, Bool-cases, Option-cases, Result-cases, ◌⊎◌, inl, inr,
}
use mathlib.Core.Path.{ap, subst}
use tgs_hrms.Bookings.{save_row}
use tgs_hrms.Calendar.{get_full_year}
use tgs_hrms.Flex.{LeaveStatus, Leave, LeaveBalance, World, FlexSession, leave_booking}
use tgs_hrms.Leave.{
  find_leave, save_leave, is_user_admin, deduct_leave_balance, find_type, allocated_days,
}
use tgs_hrms.Leave.Balances.{used_days}
use tgs_hrms.Leave.Balances.Sums.{used_days-add_used}
use tgs_hrms.Leave.Decide.{
  is_pending_leave, is_approved_leave, is_processing_leave, is_manager_of, check_approval,
  settle_approval, decided, or_empty, approve_leave_work, check_rejection, reject_leave_work,
}

-- the two ways to approve
abbrev pub IsApproval : World → ℕ → Leave → LeaveStatus → Type 0
IsApproval world approver l status =
    (approver ≢ l.employee_id)
    × ((l.status ≡ LeaveStatus.pending)
          × (is_manager_of world approver l.employee_id ≡ true)
          × (status ≡ LeaveStatus.processing)
        ⊎ ((l.status ≡ LeaveStatus.pending) ⊎ (l.status ≡ LeaveStatus.processing))
          × (is_user_admin world approver ≡ true)
          × (status ≡ LeaveStatus.approved))

open_status :
    (l : Leave)
    → (is_pending_leave l.status || is_processing_leave l.status) ≡ true
    → (l.status ≡ LeaveStatus.pending) ⊎ (l.status ≡ LeaveStatus.processing)
open_status l h = elim (Bool-cases (is_pending_leave l.status)) [
  | inl e ↦ inl (ground arith)
  | inr e ↦ inr (ground arith)
]

check_approval_lem :
    (world : World) (approver : ℕ) (l : Leave) (status : LeaveStatus)
    → check_approval world approver l ≡ ok status
    → IsApproval world approver l status
unfolding check_approval
check_approval_lem world approver l status h = (
  ground arith,
  elim (Bool-cases (is_pending_leave l.status && is_manager_of world approver l.employee_id)) [
    | inl e ↦ inl (ground arith, ground arith, ground arith)
    | inr e ↦ inr (open_status l (ground arith), ground arith, ground arith)
  ],
)

-- each balance before and after: a final approval adds the days of the leave to the balance of its
-- employee, its type, the year of its first day and the tenant, and nothing else is added to any
abbrev pub Charges : LeaveStatus → ℕ → Leave → List LeaveBalance → List LeaveBalance → Type 0
Charges status tenant l before after =
    (e t y n : ℕ)
    → used_days e t y n after
      ≡ used_days e t y n before
        + (if is_approved_leave status
              && (l.employee_id == e)
              && (l.leave_type_id == t)
              && (get_full_year l.start_date == y)
              && (tenant == n)
            then l.total_days
            else 0)

-- what `r` says of the call that returned it
abbrev pub ApprovedBy : ℕ → ℕ → ℕ → Option Text → FlexSession → Leave → Type 0
ApprovedBy id approver tenant remarks s r =
    (l : Leave) × (find_leave id tenant s.tables.leaves ≡ some l)
    × IsApproval s.outside approver l r.status
    × (r ≡ decided r.status approver s.outside.now (or_empty remarks) l)
    × ((approve_leave_work id approver tenant remarks s).1.tables.leaves
        ≡ save_row leave_booking r s.tables.leaves)
    × Charges r.status tenant l s.tables.leave_balances
        (approve_leave_work id approver tenant remarks s).1.tables.leave_balances

settle_approval-Charges :
    (status : LeaveStatus) (l : Leave) (tenant : ℕ) (s : FlexSession)
    → Charges status tenant l s.tables.leave_balances
        (settle_approval status l tenant s).tables.leave_balances
unfolding deduct_leave_balance
settle_approval-Charges LeaveStatus.approved l tenant s e t y n =
    used_days-add_used e t y n l.employee_id l.leave_type_id (get_full_year l.start_date) tenant
      (allocated_days (find_type l.leave_type_id tenant s.tables.leave_types)) l.total_days
      s.tables.leave_balances
settle_approval-Charges LeaveStatus.pending l tenant s e t y n = omega arith
settle_approval-Charges LeaveStatus.processing l tenant s e t y n = omega arith
settle_approval-Charges LeaveStatus.rejected l tenant s e t y n = omega arith
settle_approval-Charges LeaveStatus.cancelled l tenant s e t y n = omega arith

settle_approval-leaves :
    (status : LeaveStatus) (l : Leave) (tenant : ℕ) (s : FlexSession)
    → (settle_approval status l tenant s).tables.leaves ≡ s.tables.leaves
unfolding deduct_leave_balance
settle_approval-leaves LeaveStatus.approved l tenant s = refl
settle_approval-leaves LeaveStatus.pending l tenant s = refl
settle_approval-leaves LeaveStatus.processing l tenant s = refl
settle_approval-leaves LeaveStatus.rejected l tenant s = refl
settle_approval-leaves LeaveStatus.cancelled l tenant s = refl

approved-ApprovedBy :
    (id approver tenant : ℕ) (remarks : Option Text) (s : FlexSession) (r l : Leave)
    (status : LeaveStatus)
    → find_leave id tenant s.tables.leaves ≡ some l
    → check_approval s.outside approver l ≡ ok status
    → (approve_leave_work id approver tenant remarks s).0 ≡ ok r
    → ApprovedBy id approver tenant remarks s r
unfolding approve_leave_work
approved-ApprovedBy id approver tenant remarks s r l status e f h =
    let new = decided status approver s.outside.now (or_empty remarks) l in
    let returned : (approve_leave_work id approver tenant remarks s).0 ≡ ok new =
      rw (e, f, approve_leave_work) refl in
    let same : new ≡ r = ground (arith, h, returned) in
    subst (λ z. ApprovedBy id approver tenant remarks s z) same
      (
        l,
        e,
        check_approval_lem s.outside approver l status f,
        refl,
        rw (e, f, approve_leave_work)
            (ap (save_row leave_booking new) (settle_approval-leaves status l tenant s)),
        rw (e, f, approve_leave_work) (settle_approval-Charges status l tenant s),
      )

-- An approval that returns is one of two: the manager of the employee's team moved a pending leave to
-- processing, or an administrator approved a pending or processing leave; nobody approves a leave of
-- their own. The row is saved with the new status. The days in use of the employee for the type of the
-- leave, the year of its first day and the tenant grow by the days of the leave if it was approved, and
-- no other days in use change.
pub approve_leave_work_lem :
    (id approver tenant : ℕ) (remarks : Option Text) (s : FlexSession) (r : Leave)
    → (approve_leave_work id approver tenant remarks s).0 ≡ ok r
    → ApprovedBy id approver tenant remarks s r
unfolding approve_leave_work
approve_leave_work_lem id approver tenant remarks s r h =
    elim (Option-cases (find_leave id tenant s.tables.leaves)) [
      | inl e ↦ let refused = rw (e, approve_leave_work) at h in ground arith
      | inr (l, e) ↦ elim (Result-cases (check_approval s.outside approver l)) [
        | inl (x, f) ↦ let refused = rw (e, f, approve_leave_work) at h in ground arith
        | inr (status, f) ↦ approved-ApprovedBy id approver tenant remarks s r l status e f h
      ]
    ]

abbrev pub RejectedBy : ℕ → ℕ → ℕ → Text → FlexSession → Leave → Type 0
RejectedBy id approver tenant remarks s r =
    (l : Leave) × (find_leave id tenant s.tables.leaves ≡ some l)
    × (approver ≢ l.employee_id)
    × ((is_pending_leave l.status && is_manager_of s.outside approver l.employee_id)
          || ((is_pending_leave l.status || is_processing_leave l.status)
              && is_user_admin s.outside approver)
        ≡ true)
    × (r ≡ decided LeaveStatus.rejected approver s.outside.now (trim remarks) l)
    × ((reject_leave_work id approver tenant remarks s).1 ≡ save_leave r s)

check_rejection_lem :
    (world : World) (approver : ℕ) (l : Leave) (u : Unit {0})
    → check_rejection world approver l ≡ ok u
    → (approver ≢ l.employee_id)
      × ((is_pending_leave l.status && is_manager_of world approver l.employee_id)
            || ((is_pending_leave l.status || is_processing_leave l.status)
                && is_user_admin world approver)
          ≡ true)
unfolding check_rejection
check_rejection_lem world approver l u h = (ground arith, ground arith)

-- A rejection that returns is by somebody other than the employee, of a leave that was pending or
-- processing: by an administrator, or by the manager of the team if it was pending. The row is written
-- as rejected and no balance is touched.
pub reject_leave_work_lem :
    (id approver tenant : ℕ) (remarks : Text) (s : FlexSession) (r : Leave)
    → (reject_leave_work id approver tenant remarks s).0 ≡ ok r
    → RejectedBy id approver tenant remarks s r
unfolding reject_leave_work
reject_leave_work_lem id approver tenant remarks s r h =
    elim (Option-cases (find_leave id tenant s.tables.leaves)) [
      | inl e ↦ let refused = rw (e, reject_leave_work) at h in ground arith
      | inr (l, e) ↦ elim (Result-cases (check_rejection s.outside approver l)) [
        | inl (x, f) ↦ let refused = rw (e, f, reject_leave_work) at h in ground arith
        | inr (u, f) ↦
            let new = decided LeaveStatus.rejected approver s.outside.now (trim remarks) l in
            let returned : (reject_leave_work id approver tenant remarks s).0 ≡ ok new =
              rw (e, f, reject_leave_work) refl in
            let same : new ≡ r = ground (arith, h, returned) in
            let (other, right) = check_rejection_lem s.outside approver l u f in
            subst (λ z. RejectedBy id approver tenant remarks s z) same
              (l, e, other, right, refl, rw (e, f, reject_leave_work) refl)
      ]
    ]
