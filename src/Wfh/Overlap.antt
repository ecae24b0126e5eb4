-- ===== src/Wfh/Overlap.antt =====
-- No employee holds two active requests on one day: what the creation and the edit of a request in
-- src/modules/wfh/wfh.service.ts keep of it.
use tgs_hrms.Base.{
  sym, ℕ, ◌+◌, ◌≡◌, refl, true, not, ◌&&◌, none, List, [], ◌∷◌, ◌++◌, arith, ◌==◌, All, find_sat,
  Option-cases, ◌⊎◌, inl, inr, ok, Result-cases, Exec, modify, pure, ◌>>◌, bind-keeps,
}
use mathlib.Core.Path.{ap, subst}
use tgs_hrms.Workflow.{WorkflowRequest, wfh}
use tgs_hrms.Bookings.{
  overlaps, Apart, NoOverlap-append, Apart-of_query, NoOverlap-save_row, ApartFromOthers,
  ApartFromOthers-query, ApartFromOthers-found, Below-save_row, find-none, Below-suc-append,
  ApartFromOthers-appended, ApartFromOthers-booking,
}
use tgs_hrms.Flex.{
  Wfh, RequestTables, FlexSession, wfh_booking, notify_manager, request_workflow, call_workflow,
}
use tgs_hrms.Wfh.{
  CreateWfh, UpdateWfh, save_wfh, find_overlap, find_other_overlap, new_wfh, attach, check_dates,
  insert_wfh, link, create_wfh_work, own_pending, check_edit, edited, edit_wfh_work,
}
use tgs_hrms.Wfh.Rows.{
  IsValid, attach-booking, notify_manager-IsValid, save_wfh-IsValid, own_pending-found,
  own_pending-below,
}

check_dates_found_none :
    (employee tenant start end : ℕ) (t : RequestTables) (u : Unit {0})
    → check_dates employee tenant start end t ≡ ok u
    → find_overlap employee tenant start end t.wfh_requests ≡ none
unfolding check_dates
check_dates_found_none employee tenant start end t u h =
    elim (Option-cases (find_overlap employee tenant start end t.wfh_requests)) [
      | inl e ↦ e
      | inr (w, e) ↦ ground arith
    ]

module _ (employee tenant : ℕ) (dto : CreateWfh) (s : FlexSession) where
  abbrev row : Wfh
  row = new_wfh s.outside.next_id employee tenant dto

  abbrev saved : Wfh
  saved = attach s.outside dto.files employee row

  -- what is left of the method once the workflow service has answered
  abbrev finish : WorkflowRequest → Exec FlexSession Wfh
  finish request = do
    modify (save_wfh (link request saved))
    modify (notify_manager employee tenant wfh s.outside.next_id)
    pure (link request saved)

  saved-booking : wfh_booking saved ≡ wfh_booking row
  saved-booking = attach-booking s.outside dto.files employee row

  saved-Apart :
      (u : Unit {0})
      → check_dates employee tenant dto.start_date dto.end_date s.tables ≡ ok u
      → IsValid s
      → All (λ x. Apart (wfh_booking x) (wfh_booking saved)) s.tables.wfh_requests
  saved-Apart u h v =
      subst (λ b. All (λ x. Apart (wfh_booking x) b) s.tables.wfh_requests) (sym saved-booking)
        (Apart-of_query wfh_booking s.outside.next_id row s.tables.wfh_requests refl v.1 (
          find-none (λ w. overlaps employee tenant dto.start_date dto.end_date (wfh_booking w))
            s.tables.wfh_requests
            (check_dates_found_none employee tenant dto.start_date dto.end_date s.tables u h)))

  insert_wfh-IsValid :
      (u : Unit {0})
      → check_dates employee tenant dto.start_date dto.end_date s.tables ≡ ok u
      → IsValid s
      → IsValid (insert_wfh employee tenant dto s)
  unfolding insert_wfh
  insert_wfh-IsValid u h v = (
    NoOverlap-append wfh_booking s.tables.wfh_requests saved v.0 (saved-Apart u h v),
    Below-suc-append wfh_booking s.outside.next_id saved s.tables.wfh_requests
        (ap (λ b. b.id) saved-booking) v.1,
  )

  save_link-IsValid :
      (request : WorkflowRequest) (u : Unit {0})
      → check_dates employee tenant dto.start_date dto.end_date s.tables ≡ ok u
      → IsValid s
      → IsValid (save_wfh (link request saved) (insert_wfh employee tenant dto s))
  unfolding insert_wfh
  save_link-IsValid request u h v =
      let i = insert_wfh-IsValid u h v in
      (
        NoOverlap-save_row wfh_booking (link request saved) (s.tables.wfh_requests ++ saved ∷ [])
            i.0
            (ApartFromOthers-appended wfh_booking saved (link request saved) s.tables.wfh_requests
              refl (saved-Apart u h v)),
        Below-save_row wfh_booking (s.outside.next_id + 1) (link request saved)
            (s.tables.wfh_requests ++ saved ∷ [])
            (let e : saved.id ≡ s.outside.next_id = ap (λ b. b.id) saved-booking in omega arith)
            i.1,
      )

-- If no employee has two active requests for one day, and all numbers lie below the next one, that
-- still holds after the work of `createWfhRequest`, whether it succeeds or throws, also where the
-- workflow service throws or an upload fails.
pub create_wfh_work-IsValid :
    (employee tenant : ℕ) (dto : CreateWfh) (s : FlexSession)
    → IsValid s
    → IsValid (create_wfh_work employee tenant dto s).1
unfolding create_wfh_work
create_wfh_work-IsValid employee tenant dto s v =
    elim (Result-cases (check_dates employee tenant dto.start_date dto.end_date s.tables)) [
      | inl (e, h) ↦ rw h v
      | inr (u, h) ↦
          let i = insert_wfh-IsValid employee tenant dto s u h v in
          rw h (
            bind-keeps IsValid
              (call_workflow (request_workflow tenant wfh s.outside.next_id employee) tenant)
              (finish employee tenant dto s) (insert_wfh employee tenant dto s) i
              (λ r f.
                notify_manager-IsValid employee tenant wfh s.outside.next_id
                  (save_wfh (link r (saved employee tenant dto s))
                    (call_workflow (request_workflow tenant wfh s.outside.next_id employee) tenant
                      (insert_wfh employee tenant dto s)).1)
                  (save_link-IsValid employee tenant dto s r u h v)))
    ]

-- the days of the row stay, or no other row clashes with the new ones
check_edit-cases :
    (employee tenant : ℕ) (w : Wfh) (dto : UpdateWfh) (rows : List Wfh) (u : Unit {0})
    → check_edit employee tenant w dto rows ≡ ok u
    → (((edited w dto).start_date ≡ w.start_date) × ((edited w dto).end_date ≡ w.end_date))
      ⊎ (find_other_overlap w.id employee tenant
            (edited w dto).start_date
            (edited w dto).end_date
            rows
          ≡ none)
unfolding check_edit
check_edit-cases employee tenant w dto rows u h = elim (Option-cases dto.start_date) [
  | inl e ↦ elim (Option-cases dto.end_date) [
    | inl f ↦ inl (rw e refl, rw f refl)
    | inr (end, f) ↦ let refused = rw (e, f) at h in ground arith
  ]
  | inr (start, e) ↦ elim (Option-cases dto.end_date) [
    | inl f ↦ let refused = rw (e, f) at h in ground arith
    | inr (end, f) ↦ let passed = rw (e, f) at h in inr (rw (e, f) (ground arith))
  ]
]

own_pending-tenant :
    (id employee tenant : ℕ) (rows : List Wfh) (w : Wfh)
    → own_pending id employee tenant rows ≡ ok w
    → w.tenant_id ≡ tenant
own_pending-tenant id employee tenant rows w h =
    let sat : ((w.id == id) && (w.tenant_id == tenant)) ≡ true =
      find_sat (λ x. (x.id == id) && (x.tenant_id == tenant)) rows w
        (own_pending-found id employee tenant rows w h).0 in
    ground arith

edited-Apart :
    (id employee tenant : ℕ) (dto : UpdateWfh) (s : FlexSession) (w : Wfh) (u : Unit {0})
    → own_pending id employee tenant s.tables.wfh_requests ≡ ok w
    → check_edit employee tenant w dto s.tables.wfh_requests ≡ ok u
    → IsValid s
    → ApartFromOthers wfh_booking (edited w dto) s.tables.wfh_requests
edited-Apart id employee tenant dto s w u h f v =
    elim (check_edit-cases employee tenant w dto s.tables.wfh_requests u f) [
      | inl (a, b) ↦
          ApartFromOthers-booking wfh_booking w (edited w dto) s.tables.wfh_requests
            (rw (a, b) refl)
            (ApartFromOthers-found wfh_booking (λ x. (x.id == id) && (x.tenant_id == tenant))
              s.tables.wfh_requests w
              (own_pending-found id employee tenant s.tables.wfh_requests w h).0 v.0)
      | inr q ↦
          let e = (own_pending-found id employee tenant s.tables.wfh_requests w h).1 in
          let t = own_pending-tenant id employee tenant s.tables.wfh_requests w h in
          ApartFromOthers-query wfh_booking (edited w dto) s.tables.wfh_requests (
            find-none
              (λ x.
                overlaps w.employee_id w.tenant_id (edited w dto).start_date (edited w dto).end_date
                  (wfh_booking x)
                && not ((wfh_booking x).id == w.id))
              s.tables.wfh_requests (rw (e, t) q))
    ]

-- If no employee has two active requests for one day, and all numbers lie below the next one, that
-- still holds after the work of `editWfhRequest`, whatever the edit and whether it is refused.
pub edit_wfh_work-IsValid :
    (id employee tenant : ℕ) (dto : UpdateWfh) (s : FlexSession)
    → IsValid s
    → IsValid (edit_wfh_work id employee tenant dto s).1
unfolding edit_wfh_work
edit_wfh_work-IsValid id employee tenant dto s v =
    elim (Result-cases (own_pending id employee tenant s.tables.wfh_requests)) [
      | inl (e, h) ↦ rw h v
      | inr (w, h) ↦
          rw h (elim (Result-cases (check_edit employee tenant w dto s.tables.wfh_requests)) [
            | inl (e, f) ↦ rw f v
            | inr (u, f) ↦ rw f (
                save_wfh-IsValid (attach s.outside dto.files employee (edited w dto)) s
                  (let b : (attach s.outside dto.files employee (edited w dto)).id ≡ w.id =
                      ap (λ b. b.id) (attach-booking s.outside dto.files employee (edited w dto)) in
                    let l = own_pending-below id employee tenant w s h v in omega arith)
                  (ApartFromOthers-booking wfh_booking (edited w dto)
                    (attach s.outside dto.files employee (edited w dto)) s.tables.wfh_requests
                    (sym (attach-booking s.outside dto.files employee (edited w dto)))
                    (edited-Apart id employee tenant dto s w u h f v))
                  v)
          ])
    ]
