-- ===== src/Overtime/Closing.antt =====
-- No employee holds two active requests on one day: what the other methods of
-- src/modules/overtime/overtime.service.ts keep of it.
use tgs_hrms.Base.{
  ℕ, ◌≡◌, refl, Text, true, ◌&&◌, Option, none, some, ◌==◌, Bool-cases, Option-cases, inl, inr,
  Result-cases, pure, bind-keeps,
}
use tgs_hrms.Workflow.{WorkflowCompletedEvent, overtime, type_eq}
use tgs_hrms.Bookings.{ApartFromOthers-inactive, ApartFromOthers-found, ApartFromOthers-booking}
use tgs_hrms.Flex.{FlexStatus, is_active, Overtime, FlexSession, overtime_booking, drop_first}
use tgs_hrms.Overtime.{
  save_overtime, find_request, own_pending_overtime, cancelled_overtime, cancel_overtime_workflow,
  cancel_overtime_work,
}
use tgs_hrms.Overtime.Events.{
  remove_overtime_attachment_work, mark_overtime, mark_overtime_rejected, mark_overtime_approved,
  handle_overtime_rejected, handle_overtime_approved,
}
use tgs_hrms.Overtime.Rows.{
  IsValid, save_overtime-IsValid, found-below, own_pending_overtime-found,
  own_pending_overtime-below,
}

cancel_overtime_workflow-IsValid :
    (request : Option ℕ) (tenant actor : ℕ) (s : FlexSession)
    → IsValid s
    → IsValid (cancel_overtime_workflow request tenant actor s).1
cancel_overtime_workflow-IsValid none tenant actor s v = v
cancel_overtime_workflow-IsValid (some id) tenant actor s v = v

-- `cancelWfhRequest` keeps the table valid.
pub cancel_overtime_work-IsValid :
    (id employee tenant : ℕ) (s : FlexSession)
    → IsValid s
    → IsValid (cancel_overtime_work id employee tenant s).1
unfolding cancel_overtime_work
cancel_overtime_work-IsValid id employee tenant s v =
    elim (Result-cases (own_pending_overtime id employee tenant s.tables.overtime_requests)) [
      | inl (e, h) ↦ rw h v
      | inr (w, h) ↦
          let kept : IsValid (save_overtime (cancelled_overtime w) s) =
            save_overtime-IsValid (cancelled_overtime w) s
              (own_pending_overtime-below id employee tenant w s h v)
              (ApartFromOthers-inactive overtime_booking (cancelled_overtime w)
                s.tables.overtime_requests refl)
              v in
          rw h (
            bind-keeps IsValid (cancel_overtime_workflow w.workflow_request_id tenant employee)
              (λ _. pure (cancelled_overtime w)) (save_overtime (cancelled_overtime w) s)
              (cancel_overtime_workflow-IsValid w.workflow_request_id tenant employee
                (save_overtime (cancelled_overtime w) s) kept)
              (λ _ _.
                cancel_overtime_workflow-IsValid w.workflow_request_id tenant employee
                  (save_overtime (cancelled_overtime w) s) kept))
    ]

-- `removeAttachment` keeps the table valid.
pub remove_overtime_attachment_work-IsValid :
    (id employee tenant : ℕ) (url : Text) (s : FlexSession)
    → IsValid s
    → IsValid (remove_overtime_attachment_work id employee tenant url s).1
unfolding remove_overtime_attachment_work
remove_overtime_attachment_work-IsValid id employee tenant url s v =
    elim (Result-cases (own_pending_overtime id employee tenant s.tables.overtime_requests)) [
      | inl (e, h) ↦ rw h v
      | inr (w, h) ↦
          rw h (elim (Option-cases (drop_first (λ a. s.outside.same_object a url) w.attachments)) [
            | inl f ↦ rw f v
            | inr (left, f) ↦ rw f (
                save_overtime-IsValid (record w { attachments = left }) s
                  (own_pending_overtime-below id employee tenant w s h v)
                  (ApartFromOthers-booking overtime_booking w (record w { attachments = left })
                    s.tables.overtime_requests refl
                    (ApartFromOthers-found overtime_booking
                      (λ x. (x.id == id) && (x.tenant_id == tenant)) s.tables.overtime_requests w
                      (own_pending_overtime-found id employee tenant s.tables.overtime_requests w
                        h).0
                      v.0))
                  v)
          ])
    ]

-- A rejected request books no day.
mark_overtime-IsValid_rejected :
    (id tenant : ℕ) (s : FlexSession)
    → IsValid s
    → IsValid (mark_overtime id tenant FlexStatus.rejected s)
unfolding mark_overtime
mark_overtime-IsValid_rejected id tenant s v =
    elim (Option-cases (find_request id tenant s.tables.overtime_requests)) [
      | inl e ↦ rw (e, mark_overtime) v
      | inr (w, e) ↦
          rw (e, mark_overtime)
            (save_overtime-IsValid (record w { status = FlexStatus.rejected }) s
              (found-below id tenant w s e v)
              (ApartFromOthers-inactive overtime_booking (record w { status = FlexStatus.rejected })
                s.tables.overtime_requests refl)
              v)
    ]

-- The listener of rejected workflows keeps the table valid, whatever the event names.
pub handle_overtime_rejected-IsValid :
    (e : WorkflowCompletedEvent) (s : FlexSession)
    → IsValid s
    → IsValid (handle_overtime_rejected e s)
unfolding handle_overtime_rejected mark_overtime_rejected
handle_overtime_rejected-IsValid e s v = elim (Bool-cases (type_eq e.request_type overtime)) [
  | inl t ↦ rw t (mark_overtime-IsValid_rejected e.related_entity_id e.tenant_id s v)
  | inr f ↦ rw f v
]

-- The listener of approved workflows keeps the table valid if the request that the event names still
-- books its days.
pub handle_overtime_approved-IsValid :
    (e : WorkflowCompletedEvent) (w : Overtime) (s : FlexSession)
    → find_request e.related_entity_id e.tenant_id s.tables.overtime_requests ≡ some w
    → is_active w.status ≡ true
    → IsValid s
    → IsValid (handle_overtime_approved e s)
unfolding handle_overtime_approved mark_overtime_approved
handle_overtime_approved-IsValid e w s f a v = elim (Bool-cases (type_eq e.request_type overtime)) [
  | inl t ↦
      rw (t, f, mark_overtime_approved, mark_overtime)
        (save_overtime-IsValid (record w { status = FlexStatus.approved }) s
          (found-below e.related_entity_id e.tenant_id w s f v)
          (ApartFromOthers-booking overtime_booking w (record w { status = FlexStatus.approved })
            s.tables.overtime_requests (rw a refl)
            (ApartFromOthers-found overtime_booking
              (λ x. (x.id == e.related_entity_id) && (x.tenant_id == e.tenant_id))
              s.tables.overtime_requests w f v.0))
          v)
  | inr n ↦ rw n v
]
