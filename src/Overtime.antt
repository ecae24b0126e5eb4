-- ===== src/Overtime.antt =====
-- src/modules/overtime/overtime.service.ts: the requests for overtime on weekends, up to their
-- cancellation. A `…_work` is what the method does in its tenant's context. Hours are in hundredths,
-- as the column of the table keeps them.
pub mod Days
pub mod Overlap
pub mod Rows
pub mod Closing
pub mod Edits
pub mod Events
use tgs_hrms.Base.{
  ℕ, ◌+◌, ◌*◌, ℤ, pos, sub_ℕ, Text, Bool, true, false, not, ◌&&◌, ◌||◌, Option, none, some, List,
  [], ◌∷◌, ◌++◌, ◌==◌, leb, ltb, if◌then◌else◌, find, any, Exec, Result, ok, err, bad_request,
  not_found, forbidden, type_not_enabled, date_in_past, end_before_start, has_leave, has_wfh,
  request_missing, not_own_request, not_pending, attachment_missing, hours_and_end_date,
  no_hours_nor_end_date, weekday_overtime, pure, gets, lift, or_throw, throw_if, modify, ◌>>=◌,
  ◌>>◌,
}
use tgs_hrms.Tenancy.{Session, Database}
use tgs_hrms.Workflow.{RequestType, overtime, WorkflowRequest, WorkflowCompletedEvent, type_eq}
use tgs_hrms.Calendar.{is_weekend, find_weekday_in_range}
use tgs_hrms.Bookings.{overlaps, save_row}
use tgs_hrms.Flex.{
  FlexStatus, is_pending, Overtime, NoticeKind, World, RequestTables, FlexSession, wfh_booking,
  overtime_booking, leave_overlaps, overlap_error, request_workflow, cancel_workflow, call_workflow,
  notify, notify_manager, drop_first, fresh_id, or_keep, is_given, in_tenant,
}

-- CreateOvertimeDto, with the files of the request
pub record CreateOvertime : Type 0 where
  pub start_date : ℕ
  pub end_date : Option ℕ
  pub hours : Option ℕ
  pub reason : Text
  pub files : List ℕ

-- UpdateOvertimeDto
pub record UpdateOvertime : Type 0 where
  pub start_date : Option ℕ
  pub end_date : Option ℕ
  pub hours : Option ℕ
  pub reason : Option Text
  pub files : List ℕ

abbrev pub put_overtime : List Overtime → FlexSession → FlexSession
put_overtime rows s = record s { tables = record (s.tables) { overtime_requests = rows } }

abbrev pub save_overtime : Overtime → FlexSession → FlexSession
save_overtime o s = put_overtime (save_row overtime_booking o s.tables.overtime_requests) s

abbrev pub find_request : ℕ → ℕ → List Overtime → Option Overtime
find_request id tenant rows = find (λ o. (o.id == id) && (o.tenant_id == tenant)) rows

abbrev pub find_clash : ℕ → ℕ → ℕ → ℕ → List Overtime → Option Overtime
find_clash employee tenant start end rows =
    find (λ o. overlaps employee tenant start end (overtime_booking o)) rows

abbrev pub find_other_clash : ℕ → ℕ → ℕ → ℕ → ℕ → List Overtime → Option Overtime
find_other_clash id employee tenant start end rows =
    find
      (λ o.
        overlaps employee tenant start end (overtime_booking o)
        && not ((overtime_booking o).id == id))
      rows

-- eight hours for each day from `start` to `end`: `(totalDays) * 8`
abbrev pub full_days : ℕ → ℕ → ℤ
full_days start end = sub_ℕ (800 * (end + 1)) (800 * start)

-- hours mode: a single day, which has to be on a weekend
unfoldable pub single_day : ℕ → ℕ → Result (ℕ × ℕ × ℤ)
single_day start hours =
    if is_weekend start then ok (start, start, pos hours) else err (bad_request weekday_overtime)

-- range mode: every day has to be on a weekend
unfoldable pub whole_days : ℕ → ℕ → Result (ℕ × ℕ × ℤ)
whole_days start end =
    if ltb end start
    then err (bad_request end_before_start)
    else elim (find_weekday_in_range start end) [
      | some weekday ↦ err (bad_request weekday_overtime)
      | none ↦ ok (start, end, full_days start end)
    ]

-- the days and the hours of a new request
unfoldable pub plan_create : CreateOvertime → Result (ℕ × ℕ × ℤ)
plan_create dto = elim dto.hours [
  | some hours ↦ elim dto.end_date [
    | some end ↦ err (bad_request hours_and_end_date)
    | none ↦ single_day dto.start_date hours
  ]
  | none ↦ elim dto.end_date [
    | some end ↦ whole_days dto.start_date end
    | none ↦ err (bad_request no_hours_nor_end_date)
  ]
]

-- the checks before the context, and what they compute
unfoldable pub check_create_overtime : World → ℕ → CreateOvertime → Result (ℕ × ℕ × ℤ)
check_create_overtime world tenant dto =
    if not (world.overtime_enabled tenant)
    then err (bad_request type_not_enabled)
    else if ltb dto.start_date world.today
    then err (bad_request date_in_past)
    else plan_create dto

abbrev pub new_overtime : ℕ → ℕ → ℕ → ℕ × ℕ × ℤ → Text → Overtime
new_overtime id employee tenant (start, end, hours) reason = record {
  id = id;
  employee_id = employee;
  tenant_id = tenant;
  start_date = start;
  end_date = end;
  hours = hours;
  reason = reason;
  status = FlexStatus.pending;
  attachments = [];
  workflow_request_id = none;
}

abbrev pub attach_overtime : World → List ℕ → ℕ → Overtime → Overtime
attach_overtime world [] employee o = o
attach_overtime world (f ∷ files) employee o = elim (world.upload (f ∷ files) o.id employee) [
  | none ↦ o
  | some urls ↦ record o { attachments = o.attachments ++ urls }
]

-- the overlap check and the two cross-type checks
unfoldable pub check_overtime_dates : ℕ → ℕ → ℕ × ℕ × ℤ → RequestTables → Result (Unit {0})
check_overtime_dates employee tenant (start, end, hours) t =
    elim (find_clash employee tenant start end t.overtime_requests) [
      | some o ↦ err (overlap_error o.status)
      | none ↦
          if any (leave_overlaps employee tenant start end) t.leaves
          then err (forbidden has_leave)
          else if any (λ w. overlaps employee tenant start end (wfh_booking w)) t.wfh_requests
          then err (forbidden has_wfh)
          else ok tt
    ]

unfoldable pub insert_overtime : Overtime → FlexSession → FlexSession
insert_overtime o s = fresh_id (put_overtime (s.tables.overtime_requests ++ o ∷ []) s)

abbrev pub link_overtime : WorkflowRequest → Overtime → Overtime
link_overtime request o = record o { workflow_request_id = some request.id }

unfoldable pub create_overtime_work : ℕ → ℕ → ℕ × ℕ × ℤ → CreateOvertime → Exec FlexSession Overtime
create_overtime_work employee tenant plan dto = do
  tables ← gets (λ s. s.tables)
  lift (check_overtime_dates employee tenant plan tables)
  id ← gets (λ s. s.outside.next_id)
  world ← gets (λ s. s.outside)
  let saved =
      attach_overtime world dto.files employee (new_overtime id employee tenant plan dto.reason)
  modify (insert_overtime saved)
  request ← call_workflow (request_workflow tenant overtime id employee) tenant
  modify (save_overtime (link_overtime request saved))
  modify (notify_manager employee tenant overtime id)
  pure (link_overtime request saved)

unfoldable pub create_overtime_request :
    ℕ → ℕ → CreateOvertime → Exec (Database RequestTables World) Overtime
create_overtime_request employee tenant dto = do
  world ← gets (λ d. d.outside)
  plan ← lift (check_create_overtime world tenant dto)
  in_tenant tenant (create_overtime_work employee tenant plan dto)

unfoldable pub own_pending_overtime : ℕ → ℕ → ℕ → List Overtime → Result Overtime
own_pending_overtime id employee tenant rows = elim (find_request id tenant rows) [
  | none ↦ err (not_found request_missing)
  | some o ↦
      if not (o.employee_id == employee)
      then err (forbidden not_own_request)
      else if not (is_pending o.status)
      then err (forbidden not_pending)
      else ok o
]

abbrev pub cancelled_overtime : Overtime → Overtime
cancelled_overtime o = record o { status = FlexStatus.cancelled }

abbrev pub cancel_overtime_workflow : Option ℕ → ℕ → ℕ → Exec FlexSession (Unit {0})
cancel_overtime_workflow none tenant actor = pure tt
cancel_overtime_workflow (some id) tenant actor =
    call_workflow (cancel_workflow id tenant actor) tenant

unfoldable pub cancel_overtime_work : ℕ → ℕ → ℕ → Exec FlexSession Overtime
cancel_overtime_work id employee tenant = do
  rows ← gets (λ s. s.tables.overtime_requests)
  o ← lift (own_pending_overtime id employee tenant rows)
  modify (save_overtime (cancelled_overtime o))
  cancel_overtime_workflow o.workflow_request_id tenant employee
  pure (cancelled_overtime o)

unfoldable pub cancel_overtime_request : ℕ → ℕ → ℕ → Exec (Database RequestTables World) Overtime
cancel_overtime_request id employee tenant =
    in_tenant tenant (cancel_overtime_work id employee tenant)
