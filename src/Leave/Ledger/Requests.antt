-- ===== src/Leave/Ledger/Requests.antt =====
-- A request for leave is a run of the steps of the ledger.
use tgs_hrms.Base.{
  ap, ℕ, ◌≡◌, refl, Text, Bool, true, false, Option, none, some, List, [], ◌∷◌, arith, ◌==◌,
  Option-cases, Result-cases, Bool-cases, inl, inr, Exec, modify, pure, ◌>>=◌, ◌>>◌, bind-keeps,
}
use tgs_hrms.Workflow.{leave, WorkflowRequest}
use tgs_hrms.Flex.{Leave, FlexSession, request_workflow, call_workflow}
use tgs_hrms.Leave.{
  CreateLeave, is_direct_to_admin_role, find_leave, save_leave, insert_leave, check_leave,
  new_leave, initial_status, keep_documents, store_documents, linked, submit, tell_all,
  tell_team_manager, tell_of_request, create_leave_work,
}
use tgs_hrms.Leave.Decide.{is_approved_leave}
use tgs_hrms.Leave.Edit.{documented}
use tgs_hrms.Leave.Ledger.{idle, request, amend, LedgerRun, done, then_step, IsNumbered}
use tgs_hrms.Leave.Ledger.Rows.{find-save_row, find-append_new}

-- notices write no table
tell_all_idle :
    (users : List ℕ) (entity : ℕ) (t : FlexSession)
    → ((tell_all users entity t).tables ≡ t.tables)
      × ((tell_all users entity t).outside.next_id ≡ t.outside.next_id)
tell_all_idle [] entity t = (refl, refl)
tell_all_idle (user ∷ users) entity t = tell_all_idle users entity _

tell_team_manager_idle :
    (employee entity : ℕ) (t : FlexSession)
    → ((tell_team_manager employee entity t).tables ≡ t.tables)
      × ((tell_team_manager employee entity t).outside.next_id ≡ t.outside.next_id)
tell_team_manager_idle employee entity t =
    elim (Option-cases (t.outside.team_manager_of employee)) [
      | inl e ↦ rw (e, tell_team_manager) (refl, refl)
      | inr (m, e) ↦
          rw (e, tell_team_manager)
            (elim (Bool-cases (m == employee)) [
              | inl f ↦ rw f (refl, refl)
              | inr f ↦ rw f (refl, refl)
            ])
    ]

tell_of_request_idle :
    (employee tenant entity : ℕ) (t : FlexSession)
    → ((tell_of_request employee tenant entity t).tables ≡ t.tables)
      × ((tell_of_request employee tenant entity t).outside.next_id ≡ t.outside.next_id)
tell_of_request_idle employee tenant entity t =
    elim (Bool-cases (is_direct_to_admin_role (t.outside.role_of employee))) [
      | inl e ↦ rw e (tell_all_idle (t.outside.admins_of tenant) entity t)
      | inr e ↦ rw e (tell_team_manager_idle employee entity t)
    ]

module _ (s : FlexSession) where
  idle_run :
      (t u : FlexSession)
      → (u.tables ≡ t.tables) × (u.outside.next_id ≡ t.outside.next_id)
      → LedgerRun s t
      → LedgerRun s u
  idle_run t u (same, next) r =
      then_step r (idle u (ap (λ x. x.leaves) same) (ap (λ x. x.leave_balances) same) next)

  -- the new row is stored, found under its number, and short of an approval
  abbrev Stored : ℕ → Leave → FlexSession → Type 0
  Stored tenant l t =
      LedgerRun s t
      × (find_leave l.id tenant t.tables.leaves ≡ some l)
      × (is_approved_leave l.status ≡ false)

  -- what is left of `submit` once the workflow service has answered
  abbrev finish : ℕ → Leave → WorkflowRequest → Exec FlexSession Leave
  finish employee l r = do
    modify (save_leave (linked r l))
    modify (tell_team_manager employee l.id)
    pure (linked r l)

  submit_run :
      (enabled : Bool) (employee tenant : ℕ) (l : Leave) (t : FlexSession)
      → Stored tenant l t
      → LedgerRun s (submit enabled employee tenant l t).1
  submit_run false employee tenant l t (r, f, n) =
      idle_run t _ (tell_of_request_idle employee tenant l.id t) r
  submit_run true employee tenant l t (r, f, n) =
      bind-keeps {B = Leave} (λ u. LedgerRun s u)
        (call_workflow (request_workflow tenant leave l.id employee) tenant) (finish employee l) t
        (then_step r (idle _ refl refl refl))
        (λ request e.
          let t' = (call_workflow (request_workflow tenant leave l.id employee) tenant t).1 in
          let u = save_leave (linked request l) t' in
          idle_run u (tell_team_manager employee l.id u) (tell_team_manager_idle employee l.id u) (
            then_step (then_step r (idle t' refl refl refl))
              (amend tenant l (linked request l) f refl (inl (n, n)))))

  keep_documents_run :
      (uploaded : Option (List Text)) (enabled : Bool) (employee tenant : ℕ) (l : Leave)
      (t : FlexSession)
      → l.tenant_id ≡ tenant
      → Stored tenant l t
      → LedgerRun s ((keep_documents uploaded l >>= submit enabled employee tenant) t).1
  keep_documents_run none enabled employee tenant l t e h = h.0
  keep_documents_run (some urls) enabled employee tenant l t e h =
      submit_run enabled employee tenant (documented urls l) (save_leave (documented urls l) t) (
        then_step h.0 (amend tenant l (documented urls l) h.1 refl (inl (h.2, h.2))),
        find-save_row l.id tenant t.tables.leaves l (documented urls l) h.1 refl e,
        h.2,
      )

  store_documents_run :
      (enabled : Bool) (files : List ℕ) (employee tenant : ℕ) (l : Leave) (t : FlexSession)
      → l.tenant_id ≡ tenant
      → Stored tenant l t
      → LedgerRun s ((store_documents files l >>= submit enabled employee tenant) t).1
  store_documents_run enabled [] employee tenant l t e h = submit_run enabled employee tenant l t h
  store_documents_run enabled (f ∷ files) employee tenant l t e h =
      keep_documents_run (t.outside.upload (f ∷ files) l.id l.employee_id) enabled employee tenant l
        t e h

  initial_status_open :
      (employee tenant : ℕ) → is_approved_leave (initial_status s.outside employee tenant) ≡ false
  unfolding initial_status
  initial_status_open employee tenant = ground arith

  pub create_leave_work_run :
      (employee tenant : ℕ) (dto : CreateLeave)
      → IsNumbered s
      → LedgerRun s (create_leave_work employee tenant dto s).1
  unfolding create_leave_work
  create_leave_work_run employee tenant dto n =
      elim (Result-cases (check_leave employee tenant dto s.outside s.tables)) [
        | inl (x, f) ↦ rw f done
        | inr (total, f) ↦
            let l = new_leave s.outside employee tenant dto total in
            rw f (
              store_documents_run (s.outside.leave_enabled tenant) dto.files employee tenant l
                (insert_leave l s) refl
                (
                  then_step done (request l refl (initial_status_open employee tenant)),
                  find-append_new tenant s.tables.leaves l n refl,
                  initial_status_open employee tenant,
                ))
      ]
