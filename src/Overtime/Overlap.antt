-- ===== src/Overtime/Overlap.antt =====
-- No employee holds two active requests on one day: what the creation and the edit of a request in
-- src/modules/overtime/overtime.service.ts keep of it.
use tgs_hrms.Base.{
  sym, ℕ, ◌+◌, ◌≡◌, refl, ℤ, false, not, ◌&&◌, ◌||◌, none, [], ◌∷◌, ◌++◌, arith, ◌==◌, All,
  Bool-cases, Option-cases, inl, inr, ok, Result-cases, Exec, modify, pure, ◌>>◌, bind-keeps,
}
use mathlib.Core.Path.{ap, subst}
use tgs_hrms.Workflow.{WorkflowRequest, overtime}
use tgs_hrms.Bookings.{
  overlaps, Apart, NoOverlap-append, Apart-of_query, NoOverlap-save_row, ApartFromOthers,
  ApartFromOthers-query, ApartFromOthers-found, Below-save_row, find-none, Below-suc-append,
  ApartFromOthers-appended, ApartFromOthers-booking,
}
use tgs_hrms.Flex.{
  Overtime, RequestTables, FlexSession, overtime_booking, is_given, notify_manager,
  request_workflow, call_workflow,
}
use tgs_hrms.Overtime.{
  CreateOvertime, UpdateOvertime, save_overtime, find_clash, find_other_clash, new_overtime,
  attach_overtime, check_overtime_dates, insert_overtime, link_overtime, create_overtime_work,
  own_pending_overtime,
}
use tgs_hrms.Overtime.Edits.{plan_edit, check_edit_overtime, edited_overtime, edit_overtime_work}
use tgs_hrms.Overtime.Rows.{
  IsValid, attach_overtime-booking, notify_manager-IsValid, own_pending_overtime-found,
  own_pending_overtime-below, save_attached-IsValid, own_pending_overtime-booking,
}

check_overtime_dates_found_none :
    (employee tenant : ℕ) (plan : ℕ × ℕ × ℤ) (t : RequestTables) (u : Unit {0})
    → check_overtime_dates employee tenant plan t ≡ ok u
    → find_clash employee tenant plan.0 plan.1 t.overtime_requests ≡ none
unfolding check_overtime_dates
check_overtime_dates_found_none employee tenant plan t u h =
    elim (Option-cases (find_clash employee tenant plan.0 plan.1 t.overtime_requests)) [
      | inl e ↦ e
      | inr (w, e) ↦ ground arith
    ]

module _ (employee tenant : ℕ) (plan : ℕ × ℕ × ℤ) (dto : CreateOvertime) (s : FlexSession) where
  abbrev row : Overtime
  row = new_overtime s.outside.next_id employee tenant plan dto.reason

  abbrev saved : Overtime
  saved = attach_overtime s.outside dto.files employee row

  -- what is left of the method once the workflow service has answered
  abbrev finish : WorkflowRequest → Exec FlexSession Overtime
  finish request = do
    modify (save_overtime (link_overtime request saved))
    modify (notify_manager employee tenant overtime s.outside.next_id)
    pure (link_overtime request saved)

  saved-booking : overtime_booking saved ≡ overtime_booking row
  saved-booking = attach_overtime-booking s.outside dto.files employee row

  saved-Apart :
      (u : Unit {0})
      → check_overtime_dates employee tenant plan s.tables ≡ ok u
      → IsValid s
      → All (λ x. Apart (overtime_booking x) (overtime_booking saved)) s.tables.overtime_requests
  saved-Apart u h v =
      subst (λ b. All (λ x. Apart (overtime_booking x) b) s.tables.overtime_requests)
        (sym saved-booking)
        (Apart-of_query overtime_booking s.outside.next_id row s.tables.overtime_requests refl v.1 (
          find-none (λ w. overlaps employee tenant plan.0 plan.1 (overtime_booking w))
            s.tables.overtime_requests
            (check_overtime_dates_found_none employee tenant plan s.tables u h)))

  insert_overtime-IsValid :
      (u : Unit {0})
      → check_overtime_dates employee tenant plan s.tables ≡ ok u
      → IsValid s
      → IsValid (insert_overtime saved s)
  unfolding insert_overtime
  insert_overtime-IsValid u h v = (
    NoOverlap-append overtime_booking s.tables.overtime_requests saved v.0 (saved-Apart u h v),
    Below-suc-append overtime_booking s.outside.next_id saved s.tables.overtime_requests
        (ap (λ b. b.id) saved-booking) v.1,
  )

  save_link-IsValid :
      (request : WorkflowRequest) (u : Unit {0})
      → check_overtime_dates employee tenant plan s.tables ≡ ok u
      → IsValid s
      → IsValid (save_overtime (link_overtime request saved) (insert_overtime saved s))
  unfolding insert_overtime
  save_link-IsValid request u h v =
      let i = insert_overtime-IsValid u h v in
      (
        NoOverlap-save_row overtime_booking (link_overtime request saved)
            (s.tables.overtime_requests ++ saved ∷ []) i.0
            (ApartFromOthers-appended overtime_booking saved (link_overtime request saved)
              s.tables.overtime_requests refl (saved-Apart u h v)),
        Below-save_row overtime_booking (s.outside.next_id + 1) (link_overtime request saved)
            (s.tables.overtime_requests ++ saved ∷ [])
            (let e : saved.id ≡ s.outside.next_id = ap (λ b. b.id) saved-booking in omega arith)
            i.1,
      )

  -- If no employee has two active requests for one day, and all numbers lie below the next one, that
  -- still holds after the work of `createOvertimeRequest`, whether it succeeds or throws, also where
  -- the workflow service throws or an upload fails.
  pub create_overtime_work-IsValid :
      IsValid s → IsValid (create_overtime_work employee tenant plan dto s).1
  unfolding create_overtime_work
  create_overtime_work-IsValid v =
      elim (Result-cases (check_overtime_dates employee tenant plan s.tables)) [
        | inl (e, h) ↦ rw h v
        | inr (u, h) ↦ rw h (
            bind-keeps IsValid
              (call_workflow (request_workflow tenant overtime s.outside.next_id employee) tenant)
              finish (insert_overtime saved s) (insert_overtime-IsValid u h v)
              (λ r f.
                notify_manager-IsValid employee tenant overtime s.outside.next_id
                  (save_overtime (link_overtime r saved)
                    (call_workflow (request_workflow tenant overtime s.outside.next_id employee)
                      tenant (insert_overtime saved s)).1)
                  (save_link-IsValid r u h v)))
      ]

-- without a date in the request, the days of the row stay
plan_edit-same :
    (o : Overtime) (dto : UpdateOvertime) (plan : ℕ × ℕ × ℤ)
    → plan_edit o dto ≡ ok plan
    → (is_given dto.start_date || is_given dto.end_date) ≡ false
    → plan ≡ (o.start_date, o.end_date, o.hours)
unfolding plan_edit
plan_edit-same o dto plan h g =
    let s : dto.start_date ≡ none = ground arith in
    let e : dto.end_date ≡ none = ground arith in
    elim (Option-cases dto.hours) [
      | inl f ↦
          let p : ok (o.start_date, o.end_date, o.hours) ≡ ok plan = rw (f, e, s) at h in
          ground arith
      | inr (hours, f) ↦ let refused = rw (f, s) at h in ground arith
    ]

edited_overtime-Apart :
    (id employee tenant : ℕ) (dto : UpdateOvertime) (s : FlexSession) (w : Overtime)
    (plan : ℕ × ℕ × ℤ) (u : Unit {0})
    → own_pending_overtime id employee tenant s.tables.overtime_requests ≡ ok w
    → plan_edit w dto ≡ ok plan
    → check_edit_overtime id employee tenant plan dto s.tables.overtime_requests ≡ ok u
    → IsValid s
    → ApartFromOthers overtime_booking (edited_overtime plan dto w) s.tables.overtime_requests
unfolding check_edit_overtime
edited_overtime-Apart id employee tenant dto s w plan u h p c v =
    let b = own_pending_overtime-booking id employee tenant s.tables.overtime_requests w h in
    let f = own_pending_overtime-found id employee tenant s.tables.overtime_requests w h in
    elim (Bool-cases (is_given dto.start_date || is_given dto.end_date)) [
      | inl g ↦
          let q : find_other_clash w.id w.employee_id w.tenant_id plan.0 plan.1
                s.tables.overtime_requests
              ≡ none =
            rw (b.0, b.1, b.2) (ground arith) in
          ApartFromOthers-query overtime_booking (edited_overtime plan dto w)
            s.tables.overtime_requests
            (find-none
              (λ x.
                overlaps w.employee_id w.tenant_id plan.0 plan.1 (overtime_booking x)
                && not ((overtime_booking x).id == w.id))
              s.tables.overtime_requests q)
      | inr g ↦
          let n = plan_edit-same w dto plan p g in
          ApartFromOthers-booking overtime_booking w (edited_overtime plan dto w)
            s.tables.overtime_requests (rw n refl)
            (ApartFromOthers-found overtime_booking (λ x. (x.id == id) && (x.tenant_id == tenant))
              s.tables.overtime_requests w f.0 v.0)
    ]

-- If no employee has two active requests for one day, and all numbers lie below the next one, that
-- still holds after the work of `editOvertimeRequest`, whatever the edit and whether it is refused.
pub edit_overtime_work-IsValid :
    (id employee tenant : ℕ) (dto : UpdateOvertime) (s : FlexSession)
    → IsValid s
    → IsValid (edit_overtime_work id employee tenant dto s).1
unfolding edit_overtime_work
edit_overtime_work-IsValid id employee tenant dto s v =
    elim (Result-cases (own_pending_overtime id employee tenant s.tables.overtime_requests)) [
      | inl (e, h) ↦ rw h v
      | inr (w, h) ↦ rw h (elim (Result-cases (plan_edit w dto)) [
        | inl (e, p) ↦ rw p v
        | inr (plan, p) ↦
            rw p
              (elim (Result-cases
                (check_edit_overtime id employee tenant plan dto s.tables.overtime_requests)) [
                  | inl (e, c) ↦ rw c v
                  | inr (u, c) ↦ rw c (
                      save_attached-IsValid (edited_overtime plan dto w) dto.files employee s
                        (own_pending_overtime-below id employee tenant w s h v)
                        (edited_overtime-Apart id employee tenant dto s w plan u h p c v) v)
                ])
      ])
    ]
