-- ===== src/Wfh/Calls.antt =====
-- What the methods of src/modules/wfh/wfh.service.ts write, and what they refuse.
use tgs_hrms.Base.{
  ℕ, ◌≡◌, refl, true, false, ◌&&◌, Option, none, some, List, [], ◌∷◌, arith, ◌==◌, find_sat,
  Bool-cases, inl, inr, Error, ok, err, pure, bind-keeps,
}
use mathlib.Core.Path.{ap}
use tgs_hrms.Workflow.{WorkflowCompletedEvent, wfh, type_eq}
use tgs_hrms.Bookings.{save_row}
use tgs_hrms.Flex.{FlexStatus, Wfh, RequestTables, FlexSession, wfh_booking}
use tgs_hrms.Wfh.{
  UpdateWfh, save_wfh, find_wfh, own_pending, cancelled, cancel_linked, cancel_wfh_work,
  edit_wfh_work, mark_wfh, mark_approved, handle_approved,
}
use tgs_hrms.Wfh.Rows.{own_pending-found}

-- a saved row is the one that is found from then on
find_wfh-save_row :
    (id tenant : ℕ) (w r : Wfh) (rows : List Wfh)
    → find_wfh id tenant rows ≡ some w
    → r.id ≡ id
    → r.tenant_id ≡ tenant
    → find_wfh id tenant (save_row wfh_booking r rows) ≡ some r
find_wfh-save_row id tenant w r [] h i t = ground arith
find_wfh-save_row id tenant w r (x ∷ rows) h i t = elim (Bool-cases (x.id == r.id)) [
  | inl e ↦ ground arith
  | inr e ↦
      let a : (x.id == id) ≡ false = ground arith in
      rw (e, a) (find_wfh-save_row id tenant w r rows (rw a at h) i t)
]

found_keys :
    (id tenant : ℕ) (rows : List Wfh) (w : Wfh)
    → find_wfh id tenant rows ≡ some w
    → (w.id ≡ id) × (w.tenant_id ≡ tenant)
found_keys id tenant rows w h =
    let sat : ((w.id == id) && (w.tenant_id == tenant)) ≡ true =
      find_sat (λ x. (x.id == id) && (x.tenant_id == tenant)) rows w h in
    (ground arith, ground arith)

cancel_linked-tables :
    (request : Option ℕ) (tenant actor : ℕ) (s : FlexSession)
    → (cancel_linked request tenant actor s).1.tables ≡ s.tables
cancel_linked-tables none tenant actor s = refl
cancel_linked-tables (some id) tenant actor s = refl

module _ (id employee tenant : ℕ) (s : FlexSession) where
  cancel_wfh_work-rows :
      (w : Wfh)
      → own_pending id employee tenant s.tables.wfh_requests ≡ ok w
      → (cancel_wfh_work id employee tenant s).1.tables.wfh_requests
        ≡ save_row wfh_booking (cancelled w) s.tables.wfh_requests
  unfolding cancel_wfh_work
  cancel_wfh_work-rows w h =
      let same = λ (t : RequestTables). t.wfh_requests in
      let kept =
        ap same
          (cancel_linked-tables w.workflow_request_id tenant employee (save_wfh (cancelled w) s)) in
      rw h (
        bind-keeps
          (λ z. z.tables.wfh_requests ≡ save_row wfh_booking (cancelled w) s.tables.wfh_requests)
          (cancel_linked w.workflow_request_id tenant employee) (λ _. pure (cancelled w))
          (save_wfh (cancelled w) s) kept (λ _ _. kept))

  -- `cancelWfhRequest` on a pending request of the employee leaves the request cancelled, also
  -- where the workflow service then throws.
  pub cancel_wfh_work_lem :
      (w : Wfh)
      → own_pending id employee tenant s.tables.wfh_requests ≡ ok w
      → find_wfh id tenant (cancel_wfh_work id employee tenant s).1.tables.wfh_requests
        ≡ some (cancelled w)
  cancel_wfh_work_lem w h =
      let f = own_pending-found id employee tenant s.tables.wfh_requests w h in
      let k = found_keys id tenant s.tables.wfh_requests w f.0 in
      rw (cancel_wfh_work-rows w h)
        (find_wfh-save_row id tenant w (cancelled w) s.tables.wfh_requests f.0 k.0 k.1)

  -- A cancellation is refused, and nothing is written, unless the request is there, the employee's
  -- own, and pending; the three refusals come in this order.
  pub cancel_wfh_work_refused :
      (e : Error)
      → own_pending id employee tenant s.tables.wfh_requests ≡ err e
      → cancel_wfh_work id employee tenant s ≡ (err e, s)
  unfolding cancel_wfh_work
  cancel_wfh_work_refused e h = rw h refl

  -- An edit that is refused, by the state of the request or by its new days, writes nothing.
  pub edit_wfh_work_refused :
      (dto : UpdateWfh) (e : Error)
      → (edit_wfh_work id employee tenant dto s).0 ≡ err e
      → (edit_wfh_work id employee tenant dto s).1 ≡ s
  unfolding edit_wfh_work
  edit_wfh_work_refused dto e h = ground arith

  -- An approval of the request that is handled late, after the employee has cancelled the request,
  -- which was pending, overrides the cancellation: the request ends up approved.
  pub late_approval :
      (w : Wfh) (e : WorkflowCompletedEvent)
      → own_pending id employee tenant s.tables.wfh_requests ≡ ok w
      → e.request_type ≡ wfh
      → e.related_entity_id ≡ id
      → e.tenant_id ≡ tenant
      → find_wfh id tenant
          (handle_approved e (cancel_wfh_work id employee tenant s).1).tables.wfh_requests
        ≡ some (record w { status = FlexStatus.approved })
  unfolding handle_approved mark_approved mark_wfh
  late_approval w e h t i n =
      let ty : type_eq e.request_type wfh ≡ true = rw t refl in
      let rows = (cancel_wfh_work id employee tenant s).1.tables.wfh_requests in
      let f = cancel_wfh_work_lem w h in
      let found : find_wfh e.related_entity_id e.tenant_id rows ≡ some (cancelled w) =
        rw (i, n) f in
      let k = found_keys id tenant rows (cancelled w) f in
      rw (ty, found, mark_approved, mark_wfh)
        (find_wfh-save_row id tenant (cancelled w) (record w { status = FlexStatus.approved }) rows
          f k.0 k.1)
