-- ===== src/Wfh/Closing.antt =====
-- No employee holds two active requests on one day: what the other methods of
-- src/modules/wfh/wfh.service.ts keep of it.
use tgs_hrms.Base.{
  ℕ, ◌≡◌, refl, Text, true, ◌&&◌, Option, none, some, ◌==◌, Bool-cases, Option-cases, inl, inr,
  Result-cases, pure, bind-keeps,
}
use tgs_hrms.Workflow.{WorkflowCompletedEvent, wfh, type_eq}
use tgs_hrms.Bookings.{ApartFromOthers-inactive, ApartFromOthers-found, ApartFromOthers-booking}
use tgs_hrms.Flex.{FlexStatus, is_active, Wfh, FlexSession, wfh_booking, drop_first}
use tgs_hrms.Wfh.{
  save_wfh, find_wfh, own_pending, cancelled, cancel_linked, cancel_wfh_work,
  remove_wfh_attachment_work, mark_wfh, mark_rejected, mark_approved, handle_rejected,
  handle_approved,
}
use tgs_hrms.Wfh.Rows.{IsValid, save_wfh-IsValid, found-below, own_pending-found, own_pending-below}

cancel_linked-IsValid :
    (request : Option ℕ) (tenant actor : ℕ) (s : FlexSession)
    → IsValid s
    → IsValid (cancel_linked request tenant actor s).1
cancel_linked-IsValid none tenant actor s v = v
cancel_linked-IsValid (some id) tenant actor s v = v

-- `cancelWfhRequest` keeps the table valid.
pub cancel_wfh_work-IsValid :
    (id employee tenant : ℕ) (s : FlexSession)
    → IsValid s
    → IsValid (cancel_wfh_work id employee tenant s).1
unfolding cancel_wfh_work
cancel_wfh_work-IsValid id employee tenant s v =
    elim (Result-cases (own_pending id employee tenant s.tables.wfh_requests)) [
      | inl (e, h) ↦ rw h v
      | inr (w, h) ↦
          let kept : IsValid (save_wfh (cancelled w) s) =
            save_wfh-IsValid (cancelled w) s (own_pending-below id employee tenant w s h v)
              (ApartFromOthers-inactive wfh_booking (cancelled w) s.tables.wfh_requests refl) v in
          rw h (
            bind-keeps IsValid (cancel_linked w.workflow_request_id tenant employee)
              (λ _. pure (cancelled w)) (save_wfh (cancelled w) s)
              (cancel_linked-IsValid w.workflow_request_id tenant employee
                (save_wfh (cancelled w) s) kept)
              (λ _ _.
                cancel_linked-IsValid w.workflow_request_id tenant employee
                  (save_wfh (cancelled w) s) kept))
    ]

-- `removeAttachment` keeps the table valid.
pub remove_wfh_attachment_work-IsValid :
    (id employee tenant : ℕ) (url : Text) (s : FlexSession)
    → IsValid s
    → IsValid (remove_wfh_attachment_work id employee tenant url s).1
unfolding remove_wfh_attachment_work
remove_wfh_attachment_work-IsValid id employee tenant url s v =
    elim (Result-cases (own_pending id employee tenant s.tables.wfh_requests)) [
      | inl (e, h) ↦ rw h v
      | inr (w, h) ↦
          rw h (elim (Option-cases (drop_first (λ a. s.outside.same_object a url) w.attachments)) [
            | inl f ↦ rw f v
            | inr (left, f) ↦ rw f (
                save_wfh-IsValid (record w { attachments = left }) s
                  (own_pending-below id employee tenant w s h v)
                  (ApartFromOthers-booking wfh_booking w (record w { attachments = left })
                    s.tables.wfh_requests refl
                    (ApartFromOthers-found wfh_booking
                      (λ x. (x.id == id) && (x.tenant_id == tenant)) s.tables.wfh_requests w
                      (own_pending-found id employee tenant s.tables.wfh_requests w h).0 v.0))
                  v)
          ])
    ]

-- A rejected request books no day.
mark_wfh-IsValid_rejected :
    (id tenant : ℕ) (s : FlexSession)
    → IsValid s
    → IsValid (mark_wfh id tenant FlexStatus.rejected s)
unfolding mark_wfh
mark_wfh-IsValid_rejected id tenant s v =
    elim (Option-cases (find_wfh id tenant s.tables.wfh_requests)) [
      | inl e ↦ rw (e, mark_wfh) v
      | inr (w, e) ↦
          rw (e, mark_wfh)
            (save_wfh-IsValid (record w { status = FlexStatus.rejected }) s
              (found-below id tenant w s e v)
              (ApartFromOthers-inactive wfh_booking (record w { status = FlexStatus.rejected })
                s.tables.wfh_requests refl)
              v)
    ]

-- The listener of rejected workflows keeps the table valid, whatever the event names.
pub handle_rejected-IsValid :
    (e : WorkflowCompletedEvent) (s : FlexSession) → IsValid s → IsValid (handle_rejected e s)
unfolding handle_rejected mark_rejected
handle_rejected-IsValid e s v = elim (Bool-cases (type_eq e.request_type wfh)) [
  | inl t ↦ rw t (mark_wfh-IsValid_rejected e.related_entity_id e.tenant_id s v)
  | inr f ↦ rw f v
]

-- If no employee has two active requests for one day, and all numbers lie below the next one, that
-- still holds after the listener has handled the approval of a request that is pending or approved.
pub handle_approved-IsValid :
    (e : WorkflowCompletedEvent) (w : Wfh) (s : FlexSession)
    → find_wfh e.related_entity_id e.tenant_id s.tables.wfh_requests ≡ some w
    → is_active w.status ≡ true
    → IsValid s
    → IsValid (handle_approved e s)
unfolding handle_approved mark_approved mark_wfh
handle_approved-IsValid e w s f a v = elim (Bool-cases (type_eq e.request_type wfh)) [
  | inl t ↦
      rw (t, f, mark_approved, mark_wfh)
        (save_wfh-IsValid (record w { status = FlexStatus.approved }) s
          (found-below e.related_entity_id e.tenant_id w s f v)
          (ApartFromOthers-booking wfh_booking w (record w { status = FlexStatus.approved })
            s.tables.wfh_requests (rw a refl)
            (ApartFromOthers-found wfh_booking
              (λ x. (x.id == e.related_entity_id) && (x.tenant_id == e.tenant_id))
              s.tables.wfh_requests w f v.0))
          v)
  | inr n ↦ rw n v
]
