-- ===== src/Leave/Ledger/Changes.antt =====
-- The methods on a leave that exists are runs of the steps of the ledger.
use tgs_hrms.Base.{
  sym, ap, trim, ℕ, ◌≡◌, refl, Text, Bool, true, false, ◌&&◌, Option, none, some, List, arith, ◌==◌,
  Option-cases, Result-cases, Bool-cases, ◌⊎◌, inl, inr, ok, Error, forbidden, not_team_member,
  modify, pure, throw_unless, ◌>>◌, bind-keeps,
}
use mathlib.Core.Path.{subst}
use tgs_hrms.Flex.{LeaveStatus, Leave, World, RequestTables, FlexSession, drop_first}
use tgs_hrms.Leave.{find_leave, save_leave}
use tgs_hrms.Leave.Decide.{
  is_approved_leave, is_pending_leave, is_processing_leave, check_approval, settle_approval,
  decided, approve_leave_work, check_rejection, reject_leave_work, add_manager_remarks_work,
  remarked, or_empty, is_team_member,
}
use tgs_hrms.Leave.Edit.{
  EditLeave, may_change, check_type, check_days, cancelled_leave, cancel_leave_workflow,
  cancel_leave_work, documented, remove_leave_document_work, check_leave_edit, check_open_edit,
  edited_leave, edit_documents, edit_leave_work,
}
use tgs_hrms.Leave.Ledger.{SameCharge, idle, amend, grant, LedgerRun, done, then_step}
use tgs_hrms.Leave.Ledger.Rows.{found_id}

found_self :
    (id tenant : ℕ) (rows : List Leave) (l : Leave)
    → find_leave id tenant rows ≡ some l
    → find_leave l.id tenant rows ≡ some l
found_self id tenant rows l e =
    subst (λ n. find_leave n tenant rows ≡ some l) (sym (found_id id tenant rows l e).0) e

check_rejection_open :
    (world : World) (approver : ℕ) (l : Leave) (u : Unit {0})
    → check_rejection world approver l ≡ ok u
    → is_approved_leave l.status ≡ false
unfolding check_rejection
check_rejection_open world approver l u h = ground arith

check_approval_open :
    (world : World) (approver : ℕ) (l : Leave) (status : LeaveStatus)
    → check_approval world approver l ≡ ok status
    → (is_approved_leave l.status ≡ false)
      × ((status ≡ LeaveStatus.processing) ⊎ (status ≡ LeaveStatus.approved))
unfolding check_approval
check_approval_open world approver l status h = (ground arith, ground arith)

pending_open : (l : Leave) → is_pending_leave l.status ≡ true → is_approved_leave l.status ≡ false
pending_open l h = ground arith

check_open_edit_keeps :
    (user tenant : ℕ) (dto : EditLeave) (world : World) (t : RequestTables) (l new : Leave)
    → check_open_edit user tenant dto world t l ≡ ok new
    → (new.id ≡ l.id) × (new.status ≡ l.status)
unfolding check_open_edit
check_open_edit_keeps user tenant dto world t l new h =
    elim (Bool-cases ((l.employee_id == user) && is_processing_leave l.status)) [
      | inl e ↦ ground arith
      | inr e ↦ elim (Result-cases (check_type tenant dto t)) [
        | inl (x, f) ↦ ground arith
        | inr (u, f) ↦ elim (Result-cases (check_days user tenant dto world l t.leaves)) [
          | inl (x, g) ↦ ground arith
          | inr (total, g) ↦
              let same : edited_leave dto total l ≡ new = ground arith in
              (sym (ap (λ n. n.id) same), sym (ap (λ n. n.status) same))
        ]
      ]
    ]

check_leave_edit_keeps :
    (user tenant : ℕ) (dto : EditLeave) (world : World) (t : RequestTables) (l new : Leave)
    → check_leave_edit user tenant dto world t l ≡ ok new
    → (new.id ≡ l.id)
      × ((is_approved_leave l.status ≡ false) × (is_approved_leave new.status ≡ false)
          ⊎ SameCharge l new × (new.status ≡ l.status))
unfolding check_leave_edit
check_leave_edit_keeps user tenant dto world t l new h =
    elim (Bool-cases (is_approved_leave l.status)) [
      | inl e ↦
          let same : l ≡ new = ground arith in
          subst
            (λ n.
              (n.id ≡ l.id)
              × ((is_approved_leave l.status ≡ false) × (is_approved_leave n.status ≡ false)
                  ⊎ SameCharge l n × (n.status ≡ l.status)))
            same (refl, inr ((refl, refl, refl, refl, refl, refl), refl))
      | inr e ↦
          let (same_id, same_status) =
            check_open_edit_keeps user tenant dto world t l new (rw e at h) in
          (same_id, inl (e, rw same_status e))
    ]

module _ (s : FlexSession) where
  abbrev Runs : FlexSession → Type 0
  Runs t = LedgerRun s t

  -- a row that was found is written with the same days and status, or short of an approval
  amend_found :
      (id tenant : ℕ) (l new : Leave)
      → find_leave id tenant s.tables.leaves ≡ some l
      → new.id ≡ l.id
      → (is_approved_leave l.status ≡ false) × (is_approved_leave new.status ≡ false)
        ⊎ SameCharge l new × (new.status ≡ l.status)
      → LedgerRun s (save_leave new s)
  amend_found id tenant l new e i h =
      then_step done (amend tenant l new (found_self id tenant s.tables.leaves l e) i h)

  pub reject_leave_work_run :
      (id approver tenant : ℕ) (remarks : Text)
      → LedgerRun s (reject_leave_work id approver tenant remarks s).1
  unfolding reject_leave_work
  reject_leave_work_run id approver tenant remarks =
      elim (Option-cases (find_leave id tenant s.tables.leaves)) [
        | inl e ↦ rw e done
        | inr (l, e) ↦ rw e (elim (Result-cases (check_rejection s.outside approver l)) [
          | inl (x, f) ↦ rw f done
          | inr (u, f) ↦ rw f (
              amend_found id tenant l
                (decided LeaveStatus.rejected approver s.outside.now (trim remarks) l) e refl
                (inl (check_rejection_open s.outside approver l u f, refl)))
        ])
      ]

  remark_run :
      (b : Bool) (x : Error) (id tenant : ℕ) (l : Leave) (remarks : Text)
      → find_leave id tenant s.tables.leaves ≡ some l
      → LedgerRun s
          ((throw_unless b x
              >> (modify (save_leave (remarked remarks l)) >> pure (remarked remarks l)))
            s).1
  remark_run false x id tenant l remarks e = done
  remark_run true x id tenant l remarks e =
      amend_found id tenant l (remarked remarks l) e refl
        (inr ((refl, refl, refl, refl, refl, refl), refl))

  pub add_manager_remarks_work_run :
      (id manager tenant : ℕ) (remarks : Option Text)
      → LedgerRun s (add_manager_remarks_work id manager tenant remarks s).1
  unfolding add_manager_remarks_work
  add_manager_remarks_work_run id manager tenant remarks =
      elim (Option-cases (find_leave id tenant s.tables.leaves)) [
        | inl e ↦ rw e done
        | inr (l, e) ↦ rw e (elim (Bool-cases (is_pending_leave l.status)) [
          | inr f ↦ rw f done
          | inl f ↦ rw f (
              remark_run (is_team_member s.outside l.employee_id tenant manager)
                (forbidden not_team_member) id tenant l (or_empty remarks) e)
        ])
      ]

  pub remove_leave_document_work_run :
      (id : ℕ) (url : Text) (user tenant : ℕ) (role : Text)
      → LedgerRun s (remove_leave_document_work id url user tenant role s).1
  unfolding remove_leave_document_work
  remove_leave_document_work_run id url user tenant role =
      elim (Option-cases (find_leave id tenant s.tables.leaves)) [
        | inl e ↦ rw e done
        | inr (l, e) ↦ rw e (elim (Bool-cases (may_change l user role)) [
          | inr f ↦ rw f done
          | inl f ↦
              rw f
                (elim (Option-cases (drop_first (λ d. s.outside.same_object d url) l.documents)) [
                  | inl g ↦ rw g done
                  | inr (left, g) ↦ rw g (
                      amend_found id tenant l (documented left l) e refl
                        (inr ((refl, refl, refl, refl, refl, refl), refl)))
                ])
        ])
      ]

  cancel_leave_workflow_run :
      (request : Option ℕ) (tenant actor : ℕ) (l : Leave) (t : FlexSession)
      → LedgerRun s t
      → LedgerRun s ((cancel_leave_workflow request tenant actor >> pure l) t).1
  cancel_leave_workflow_run none tenant actor l t r = r
  cancel_leave_workflow_run (some id) tenant actor l t r =
      bind-keeps {B = Leave} Runs (cancel_leave_workflow (some id) tenant actor) (λ _. pure l) t
        (then_step r (idle _ refl refl refl)) (λ a e. then_step r (idle _ refl refl refl))

  pub cancel_leave_work_run :
      (id user tenant : ℕ) (role : Text) → LedgerRun s (cancel_leave_work id user tenant role s).1
  unfolding cancel_leave_work
  cancel_leave_work_run id user tenant role =
      elim (Option-cases (find_leave id tenant s.tables.leaves)) [
        | inl e ↦ rw e done
        | inr (l, e) ↦ rw e (elim (Bool-cases (may_change l user role)) [
          | inr f ↦ rw f done
          | inl f ↦ rw f (elim (Bool-cases (is_pending_leave l.status)) [
            | inr g ↦ rw g done
            | inl g ↦ rw g (
                cancel_leave_workflow_run l.workflow_request_id tenant user (cancelled_leave l)
                  (save_leave (cancelled_leave l) s)
                  (amend_found id tenant l (cancelled_leave l) e refl
                    (inl (pending_open l g, refl))))
          ])
        ])
      ]

  settle_run :
      (id approver tenant : ℕ) (remarks : Text) (l : Leave) (status : LeaveStatus)
      → find_leave id tenant s.tables.leaves ≡ some l
      → check_approval s.outside approver l ≡ ok status
      → LedgerRun s (
          save_leave
            (decided status approver s.outside.now remarks l)
            (settle_approval status l tenant s))
  settle_run id approver tenant remarks l status e h =
      let (short, which) = check_approval_open s.outside approver l status h in
      elim which [
        | inl p ↦ rw p (amend_found id tenant l _ e refl (inl (short, refl)))
        | inr p ↦ rw p (
            then_step done (
              grant tenant l (decided LeaveStatus.approved approver s.outside.now remarks l)
                (found_self id tenant s.tables.leaves l e) refl short refl
                (refl, refl, refl, refl, refl, refl)))
      ]

  pub approve_leave_work_run :
      (id approver tenant : ℕ) (remarks : Option Text)
      → LedgerRun s (approve_leave_work id approver tenant remarks s).1
  unfolding approve_leave_work
  approve_leave_work_run id approver tenant remarks =
      elim (Option-cases (find_leave id tenant s.tables.leaves)) [
        | inl e ↦ rw e done
        | inr (l, e) ↦ rw e (elim (Result-cases (check_approval s.outside approver l)) [
          | inl (x, f) ↦ rw f done
          | inr (status, f) ↦ rw f (settle_run id approver tenant (or_empty remarks) l status e f)
        ])
      ]

  pub edit_leave_work_run :
      (id user tenant : ℕ) (dto : EditLeave) (role : Text)
      → LedgerRun s (edit_leave_work id user tenant dto role s).1
  unfolding edit_leave_work
  edit_leave_work_run id user tenant dto role =
      elim (Option-cases (find_leave id tenant s.tables.leaves)) [
        | inl e ↦ rw e done
        | inr (l, e) ↦ rw e (elim (Bool-cases (may_change l user role)) [
          | inr f ↦ rw f done
          | inl f ↦
              rw f (elim (Result-cases (check_leave_edit user tenant dto s.outside s.tables l)) [
                | inl (x, g) ↦ rw g done
                | inr (new, g) ↦ rw g (elim (Result-cases (edit_documents s.outside dto new)) [
                  | inl (x, h) ↦ rw h done
                  | inr (documents, h) ↦
                      let (same_id, kept) =
                        check_leave_edit_keeps user tenant dto s.outside s.tables l new g in
                      rw h (amend_found id tenant l (documented documents new) e same_id kept)
                ])
              ])
        ])
      ]
