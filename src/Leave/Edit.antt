-- ===== src/Leave/Edit.antt =====
-- src/modules/leave/leave.service.ts: `cancelLeave`, `removeLeaveDocument` and `editLeave`.
--
-- The early return of `editLeave` where every document was removed and no file came stores the same
-- row as the end of the method, so it has no clause of its own.
use tgs_hrms.Base.{
  ℕ, Text, Bool, false, not, ◌&&◌, ◌||◌, Option, none, some, List, [], ◌∷◌, ◌++◌, is_blank, keep,
  ◌==◌, ltb, if◌then◌else◌, any, Exec, Result, ok, err, not_found, forbidden, internal,
  leave_missing, leave_type_missing, end_before_start, too_far_ahead, leave_overlap, weekends_only,
  not_own_request, not_pending_leave, approved_details, awaiting_admin, document_missing,
  upload_failed, pure, gets, lift, or_throw, throw_unless, modify, ◌>>=◌, ◌>>◌,
}
use tgs_hrms.Tenancy.{Database}
use tgs_hrms.Bookings.{overlaps}
use tgs_hrms.Calendar.{next_year, calculate_working_days}
use tgs_hrms.Flex.{
  LeaveStatus, Leave, World, RequestTables, FlexSession, leave_booking, cancel_workflow,
  call_workflow, drop_first, or_keep, is_given, in_tenant,
}
use tgs_hrms.Leave.{save_leave, find_leave, find_active_type, is_admin_or_hr_admin}
use tgs_hrms.Leave.Decide.{is_pending_leave, is_processing_leave, is_approved_leave}

-- EditLeaveDto, with the files of the request. An empty `leave_type_id` is none; no documents to
-- remove is the empty list.
pub record EditLeave : Type 0 where
  pub leave_type_id : Option ℕ
  pub start_date : Option ℕ
  pub end_date : Option ℕ
  pub reason : Option Text
  pub documents_to_remove : List Text
  pub files : List ℕ

-- the employee, or an administrator
abbrev pub may_change : Leave → ℕ → Text → Bool
may_change l user role = (l.employee_id == user) || is_admin_or_hr_admin role

abbrev pub cancelled_leave : Leave → Leave
cancelled_leave l = record l { status = LeaveStatus.cancelled }

abbrev pub cancel_leave_workflow : Option ℕ → ℕ → ℕ → Exec FlexSession (Unit {0})
cancel_leave_workflow none tenant actor = pure tt
cancel_leave_workflow (some id) tenant actor =
    call_workflow (cancel_workflow id tenant actor) tenant

unfoldable pub cancel_leave_work : ℕ → ℕ → ℕ → Text → Exec FlexSession Leave
cancel_leave_work id user tenant role = do
  rows ← gets (λ s. s.tables.leaves)
  l ← or_throw (find_leave id tenant rows) (not_found leave_missing)
  throw_unless (may_change l user role) (forbidden not_own_request)
  throw_unless (is_pending_leave l.status) (forbidden not_pending_leave)
  modify (save_leave (cancelled_leave l))
  cancel_leave_workflow l.workflow_request_id tenant user
  pure (cancelled_leave l)

unfoldable pub cancel_leave : ℕ → ℕ → ℕ → Text → Exec (Database RequestTables World) Leave
cancel_leave id user tenant role = in_tenant tenant (cancel_leave_work id user tenant role)

abbrev pub documented : List Text → Leave → Leave
documented documents l = record l { documents = documents }

unfoldable pub remove_leave_document_work : ℕ → Text → ℕ → ℕ → Text → Exec FlexSession Leave
remove_leave_document_work id url user tenant role = do
  rows ← gets (λ s. s.tables.leaves)
  l ← or_throw (find_leave id tenant rows) (not_found leave_missing)
  throw_unless (may_change l user role) (forbidden not_own_request)
  world ← gets (λ s. s.outside)
  left ←
      or_throw (drop_first (λ d. world.same_object d url) l.documents) (not_found document_missing)
  modify (save_leave (documented left l))
  pure (documented left l)

unfoldable pub remove_leave_document :
    ℕ → Text → ℕ → ℕ → Text → Exec (Database RequestTables World) Leave
remove_leave_document id url user tenant role =
    in_tenant tenant (remove_leave_document_work id url user tenant role)

-- `dto.reason` as a condition
abbrev pub is_said : Option Text → Bool
is_said none = false
is_said (some t) = not (is_blank t)

abbrev pub touches_details : EditLeave → Bool
touches_details dto =
    is_given dto.leave_type_id
    || is_given dto.start_date
    || is_given dto.end_date
    || is_said dto.reason

-- the new type, if one is asked for, is an active one of the tenant
unfoldable pub check_type : ℕ → EditLeave → RequestTables → Result (Unit {0})
check_type tenant dto t = elim dto.leave_type_id [
  | none ↦ ok tt
  | some id ↦ elim (find_active_type id tenant t.leave_types) [
    | none ↦ err (not_found leave_type_missing)
    | some type ↦ ok tt
  ]
]

-- the overlap query, which looks at the rows of whoever edits
abbrev pub other_overlap : ℕ → ℕ → ℕ → ℕ → ℕ → Leave → Bool
other_overlap id user tenant start end l =
    overlaps user tenant start end (leave_booking l) && not (l.id == id)

-- the new days, if there are any, and how many of them are working days
unfoldable pub check_days : ℕ → ℕ → EditLeave → World → Leave → List Leave → Result ℕ
check_days user tenant dto world l rows =
    let start = or_keep dto.start_date l.start_date in
    let end = or_keep dto.end_date l.end_date in
    if not (is_given dto.start_date || is_given dto.end_date)
    then ok l.total_days
    else if ltb end start
    then err (forbidden end_before_start)
    else if is_given dto.start_date && ltb (next_year world.today) start
    then err (forbidden too_far_ahead)
    else if any (other_overlap l.id user tenant start end) rows
    then err (forbidden leave_overlap)
    else if calculate_working_days start end == 0
    then err (forbidden weekends_only)
    else ok (calculate_working_days start end)

abbrev pub edited_leave : EditLeave → ℕ → Leave → Leave
edited_leave dto total l = record l {
  leave_type_id = or_keep dto.leave_type_id l.leave_type_id;
  start_date = or_keep dto.start_date l.start_date;
  end_date = or_keep dto.end_date l.end_date;
  total_days = total;
  reason = or_keep dto.reason l.reason;
}

-- of an approved request only the documents change
abbrev pub check_approved_edit : EditLeave → Leave → Result Leave
check_approved_edit dto l = if touches_details dto then err (forbidden approved_details) else ok l

unfoldable pub check_open_edit : ℕ → ℕ → EditLeave → World → RequestTables → Leave → Result Leave
check_open_edit user tenant dto world t l =
    if (l.employee_id == user) && is_processing_leave l.status
    then err (forbidden awaiting_admin)
    else elim (check_type tenant dto t) [
      | err e ↦ err e
      | ok u ↦ elim (check_days user tenant dto world l t.leaves) [
        | err e ↦ err e
        | ok total ↦ ok (edited_leave dto total l)
      ]
    ]

-- the request with its new fields, the documents apart
unfoldable pub check_leave_edit : ℕ → ℕ → EditLeave → World → RequestTables → Leave → Result Leave
check_leave_edit user tenant dto world t l =
    if is_approved_leave l.status
    then check_approved_edit dto l
    else check_open_edit user tenant dto world t l

abbrev pub left_documents : World → List Text → List Text → List Text
left_documents world removed documents =
    keep (λ d. not (any (λ r. world.same_object d r) removed)) documents

-- documents that are removed go first, new ones come last; an upload that throws stores nothing
abbrev pub edit_documents : World → EditLeave → Leave → Result (List Text)
edit_documents world dto l = elim dto.files [
  | [] ↦ ok (left_documents world dto.documents_to_remove l.documents)
  | f ∷ files ↦ elim (world.upload (f ∷ files) l.id l.employee_id) [
    | none ↦ err (internal upload_failed)
    | some urls ↦ ok (left_documents world dto.documents_to_remove l.documents ++ urls)
  ]
]

unfoldable pub edit_leave_work : ℕ → ℕ → ℕ → EditLeave → Text → Exec FlexSession Leave
edit_leave_work id user tenant dto role = do
  tables ← gets (λ s. s.tables)
  world ← gets (λ s. s.outside)
  l ← or_throw (find_leave id tenant tables.leaves) (not_found leave_missing)
  throw_unless (may_change l user role) (forbidden not_own_request)
  changed ← lift (check_leave_edit user tenant dto world tables l)
  documents ← lift (edit_documents world dto changed)
  modify (save_leave (documented documents changed))
  pure (documented documents changed)

unfoldable pub edit_leave : ℕ → ℕ → ℕ → EditLeave → Text → Exec (Database RequestTables World) Leave
edit_leave id user tenant dto role = in_tenant tenant (edit_leave_work id user tenant dto role)
