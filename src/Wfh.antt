-- ===== src/Wfh.antt =====
-- src/modules/wfh/wfh.service.ts: working from home. A `…_work` is what the method does in its
-- tenant's context.
pub mod Calls
pub mod Links
pub mod Overlap
pub mod Rows
pub mod Closing
use tgs_hrms.Base.{
  ℕ, Text, Bool, true, false, not, ◌&&◌, ◌||◌, Option, none, some, List, [], ◌∷◌, ◌++◌, map, ◌==◌,
  leb, ltb, if◌then◌else◌, find, any, Exec, Result, ok, err, bad_request, not_found, forbidden,
  type_not_enabled, date_in_past, end_before_start, internal, not_a_date, has_leave, has_overtime,
  request_missing, not_own_request, not_pending, attachment_missing, pure, gets, lift, or_throw,
  throw_if, throw_unless, modify, ◌>>=◌, ◌>>◌,
}
use tgs_hrms.Tenancy.{Session, Database}
use tgs_hrms.Workflow.{RequestType, wfh, WorkflowRequest, WorkflowCompletedEvent, type_eq}
use tgs_hrms.Bookings.{overlaps, save_row}
use tgs_hrms.Flex.{
  FlexStatus, is_pending, Wfh, NoticeKind, World, RequestTables, FlexSession, wfh_booking,
  overtime_booking, leave_overlaps, overlap_error, request_workflow, cancel_workflow, call_workflow,
  notify, notify_manager, drop_first, fresh_id, or_keep, is_given, in_tenant,
}

-- CreateWfhDto, with the files of the request
pub record CreateWfh : Type 0 where
  pub start_date : ℕ
  pub end_date : ℕ
  pub reason : Text
  pub files : List ℕ

-- UpdateWfhDto
pub record UpdateWfh : Type 0 where
  pub start_date : Option ℕ
  pub end_date : Option ℕ
  pub reason : Option Text
  pub files : List ℕ

abbrev pub put_wfh : List Wfh → FlexSession → FlexSession
put_wfh rows s = record s { tables = record (s.tables) { wfh_requests = rows } }

abbrev pub save_wfh : Wfh → FlexSession → FlexSession
save_wfh w s = put_wfh (save_row wfh_booking w s.tables.wfh_requests) s

-- `findOne({ where: { id, tenant_id } })`
abbrev pub find_wfh : ℕ → ℕ → List Wfh → Option Wfh
find_wfh id tenant rows = find (λ w. (w.id == id) && (w.tenant_id == tenant)) rows

-- the overlap check of `createWfhRequest`, and that of `editWfhRequest`, which leaves out the row
abbrev pub find_overlap : ℕ → ℕ → ℕ → ℕ → List Wfh → Option Wfh
find_overlap employee tenant start end rows =
    find (λ w. overlaps employee tenant start end (wfh_booking w)) rows

abbrev pub find_other_overlap : ℕ → ℕ → ℕ → ℕ → ℕ → List Wfh → Option Wfh
find_other_overlap id employee tenant start end rows =
    find (λ w. overlaps employee tenant start end (wfh_booking w) && not ((wfh_booking w).id == id))
      rows

abbrev pub no_overlap : Option Wfh → Result (Unit {0})
no_overlap none = ok tt
no_overlap (some w) = err (overlap_error w.status)

abbrev pub new_wfh : ℕ → ℕ → ℕ → CreateWfh → Wfh
new_wfh id employee tenant dto = record {
  id = id;
  employee_id = employee;
  tenant_id = tenant;
  start_date = dto.start_date;
  end_date = dto.end_date;
  reason = dto.reason;
  status = FlexStatus.pending;
  attachments = [];
  workflow_request_id = none;
}

-- `if (files?.length)`: the row with the uploaded files behind its attachments, or as it was where
-- there is no file or the upload throws
abbrev pub attach : World → List ℕ → ℕ → Wfh → Wfh
attach world [] employee w = w
attach world (f ∷ files) employee w = elim (world.upload (f ∷ files) w.id employee) [
  | none ↦ w
  | some urls ↦ record w { attachments = w.attachments ++ urls }
]

-- the overlap check and the two cross-type checks
unfoldable pub check_dates : ℕ → ℕ → ℕ → ℕ → RequestTables → Result (Unit {0})
check_dates employee tenant start end t =
    elim (find_overlap employee tenant start end t.wfh_requests) [
      | some w ↦ err (overlap_error w.status)
      | none ↦
          if any (leave_overlaps employee tenant start end) t.leaves
          then err (forbidden has_leave)
          else if any (λ o. overlaps employee tenant start end (overtime_booking o))
              t.overtime_requests
          then err (forbidden has_overtime)
          else ok tt
    ]

-- the row is stored, and once more with its attachments
unfoldable pub insert_wfh : ℕ → ℕ → CreateWfh → FlexSession → FlexSession
insert_wfh employee tenant dto s =
    let row = new_wfh s.outside.next_id employee tenant dto in
    let uploaded = attach s.outside dto.files employee row in
    fresh_id (put_wfh (s.tables.wfh_requests ++ uploaded ∷ []) s)

abbrev pub link : WorkflowRequest → Wfh → Wfh
link request w = record w { workflow_request_id = some request.id }

unfoldable pub create_wfh_work : ℕ → ℕ → CreateWfh → Exec FlexSession Wfh
unfolding insert_wfh
create_wfh_work employee tenant dto = do
  tables ← gets (λ s. s.tables)
  lift (check_dates employee tenant dto.start_date dto.end_date tables)
  id ← gets (λ s. s.outside.next_id)
  world ← gets (λ s. s.outside)
  let saved = attach world dto.files employee (new_wfh id employee tenant dto)
  modify (insert_wfh employee tenant dto)
  request ← call_workflow (request_workflow tenant wfh id employee) tenant
  modify (save_wfh (link request saved))
  modify (notify_manager employee tenant wfh id)
  pure (link request saved)

-- the checks before the context
abbrev pub check_create : World → ℕ → CreateWfh → Result (Unit {0})
check_create world tenant dto =
    if not (world.wfh_enabled tenant)
    then err (bad_request type_not_enabled)
    else if ltb dto.start_date world.today
    then err (bad_request date_in_past)
    else if ltb dto.end_date dto.start_date
    then err (bad_request end_before_start)
    else ok tt

unfoldable pub create_wfh_request : ℕ → ℕ → CreateWfh → Exec (Database RequestTables World) Wfh
create_wfh_request employee tenant dto = do
  world ← gets (λ d. d.outside)
  lift (check_create world tenant dto)
  in_tenant tenant (create_wfh_work employee tenant dto)

-- the checks that `cancel`, `edit` and `removeAttachment` begin with
unfoldable pub own_pending : ℕ → ℕ → ℕ → List Wfh → Result Wfh
own_pending id employee tenant rows = elim (find_wfh id tenant rows) [
  | none ↦ err (not_found request_missing)
  | some w ↦
      if not (w.employee_id == employee)
      then err (forbidden not_own_request)
      else if not (is_pending w.status)
      then err (forbidden not_pending)
      else ok w
]

abbrev pub cancelled : Wfh → Wfh
cancelled w = record w { status = FlexStatus.cancelled }

-- the workflow of the row, if it has one, is cancelled too
abbrev pub cancel_linked : Option ℕ → ℕ → ℕ → Exec FlexSession (Unit {0})
cancel_linked none tenant actor = pure tt
cancel_linked (some id) tenant actor = call_workflow (cancel_workflow id tenant actor) tenant

unfoldable pub cancel_wfh_work : ℕ → ℕ → ℕ → Exec FlexSession Wfh
cancel_wfh_work id employee tenant = do
  rows ← gets (λ s. s.tables.wfh_requests)
  w ← lift (own_pending id employee tenant rows)
  modify (save_wfh (cancelled w))
  cancel_linked w.workflow_request_id tenant employee
  pure (cancelled w)

unfoldable pub cancel_wfh_request : ℕ → ℕ → ℕ → Exec (Database RequestTables World) Wfh
cancel_wfh_request id employee tenant = in_tenant tenant (cancel_wfh_work id employee tenant)

-- The checks on the new days of an edit. The row has its days as texts, which compare as days do; with
-- one new day, a Date and a text compare as NaN, and `toISOString` is then called on the text.
unfoldable pub check_edit : ℕ → ℕ → Wfh → UpdateWfh → List Wfh → Result (Unit {0})
check_edit employee tenant w dto rows = elim dto.start_date [
  | none ↦ elim dto.end_date [
    | none ↦ if ltb w.end_date w.start_date then err (bad_request end_before_start) else ok tt
    | some end ↦ err (internal not_a_date)
  ]
  | some start ↦ elim dto.end_date [
    | none ↦ err (internal not_a_date)
    | some end ↦
        if ltb end start
        then err (bad_request end_before_start)
        else no_overlap (find_other_overlap w.id employee tenant start end rows)
  ]
]

abbrev pub edited : Wfh → UpdateWfh → Wfh
edited w dto = record w {
  start_date = or_keep dto.start_date w.start_date;
  end_date = or_keep dto.end_date w.end_date;
  reason = or_keep dto.reason w.reason;
}

unfoldable pub edit_wfh_work : ℕ → ℕ → ℕ → UpdateWfh → Exec FlexSession Wfh
edit_wfh_work id employee tenant dto = do
  rows ← gets (λ s. s.tables.wfh_requests)
  w ← lift (own_pending id employee tenant rows)
  lift (check_edit employee tenant w dto rows)
  world ← gets (λ s. s.outside)
  let saved = attach world dto.files employee (edited w dto)
  modify (save_wfh saved)
  pure saved

unfoldable pub edit_wfh_request : ℕ → ℕ → ℕ → UpdateWfh → Exec (Database RequestTables World) Wfh
edit_wfh_request id employee tenant dto = in_tenant tenant (edit_wfh_work id employee tenant dto)

unfoldable pub remove_wfh_attachment_work : ℕ → ℕ → ℕ → Text → Exec FlexSession Wfh
unfolding drop_first
remove_wfh_attachment_work id employee tenant url = do
  rows ← gets (λ s. s.tables.wfh_requests)
  w ← lift (own_pending id employee tenant rows)
  world ← gets (λ s. s.outside)
  left ←
      or_throw (drop_first (λ a. world.same_object a url) w.attachments)
        (bad_request attachment_missing)
  let saved : Wfh = record w { attachments = left }
  modify (save_wfh saved)
  pure saved

unfoldable pub remove_wfh_attachment : ℕ → ℕ → ℕ → Text → Exec (Database RequestTables World) Wfh
remove_wfh_attachment id employee tenant url =
    in_tenant tenant (remove_wfh_attachment_work id employee tenant url)

-- `markApproved` and `markRejected` set the status of the row, whatever it is, if there is one
unfoldable pub mark_wfh : ℕ → ℕ → FlexStatus → FlexSession → FlexSession
mark_wfh id tenant status s = elim (find_wfh id tenant s.tables.wfh_requests) [
  | none ↦ s
  | some w ↦ save_wfh (record w { status = status }) s
]

abbrev pub told : ℕ → ℕ → NoticeKind → FlexSession → FlexSession
told id requestor kind =
    notify (record { to = requestor; kind = kind; type = wfh; related_entity_id = id })

unfoldable pub mark_approved : ℕ → ℕ → ℕ → FlexSession → FlexSession
unfolding mark_wfh
mark_approved id tenant requestor s =
    told id requestor NoticeKind.approved (mark_wfh id tenant FlexStatus.approved s)

unfoldable pub mark_rejected : ℕ → ℕ → ℕ → FlexSession → FlexSession
unfolding mark_wfh
mark_rejected id tenant requestor s =
    told id requestor NoticeKind.rejected (mark_wfh id tenant FlexStatus.rejected s)

-- src/modules/wfh/listeners/workflow.listener.ts
unfoldable pub handle_approved : WorkflowCompletedEvent → FlexSession → FlexSession
unfolding mark_approved
handle_approved e s =
    if type_eq e.request_type wfh
    then mark_approved e.related_entity_id e.tenant_id e.requestor_id s
    else s

unfoldable pub handle_rejected : WorkflowCompletedEvent → FlexSession → FlexSession
unfolding mark_rejected
handle_rejected e s =
    if type_eq e.request_type wfh
    then mark_rejected e.related_entity_id e.tenant_id e.requestor_id s
    else s
