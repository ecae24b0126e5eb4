-- ===== src/Attendance.antt =====
-- src/modules/attendance/attendance.service.ts: check-ins and check-outs, and the decisions of a manager
-- on a check-in. Times are those of Timesheet. The notices to the manager and to the employee, which
-- stand in a `try` of their own, are not modelled.
pub mod Sessions
pub mod Members
pub mod Hours
pub mod Bulk
use tgs_hrms.Base.{
  ℕ, zero, suc, ◌+◌, ◌-◌, ◌*◌, ◌/◌, ◌≤◌, Text, codes, text_eq, lower, Bool, true, false, not, ◌&&◌,
  ◌||◌, Option, none, some, List, [], ◌∷◌, ◌++◌, map, ◌==◌, leb, ltb, if◌then◌else◌, find, any,
  length, sort_by, Exec, Result, ok, err, bad_request, not_found, forbidden, no_location,
  outside_fence, session_active, no_session, check_in_missing, not_check_in, not_team, pure, gets,
  lift, or_throw, throw_unless, modify, ◌>>=◌, ◌>>◌,
}
use tgs_hrms.Tenancy.{Session, Database, run_in_tenant_context}
use tgs_hrms.Timesheet.{
  AttendanceType, check_in, check_out, break_start, break_end, ApprovalStatus, Attendance, Sheets,
  is_check_in, is_check_out, start_of_day, latest, end_work,
}

-- CreateAttendanceDto; a location is what the distance functions read of it
pub record CreateAttendance : Type 0 where
  pub type : AttendanceType
  pub location : Option ℕ

-- a page of `getAllMembersForManager`
pub record MemberPage : Type 0 where
  pub items : List ℕ
  pub limit : ℕ
  pub total_pages : ℕ

-- What lies outside the transaction. `fence_of` stands for the query of the active geofence of the
-- user's team, `within` for `checkPointWithinGeofence`: whether the point is inside, and near the
-- boundary. `leads_team` stands for `getManagerTeams`, `members` for `getAllMembersForManager`.
pub record Outside : Type 0 where
  pub sheets : Sheets
  pub next_id : ℕ
  pub now : ℕ
  pub provisioned : ℕ → Bool
  pub fence_of : ℕ → Option ℕ
  pub within : ℕ → ℕ → Bool × Bool
  pub leads_team : ℕ → ℕ → Bool
  pub role_of : ℕ → Option Text
  pub members : ℕ → ℕ → ℕ → MemberPage

abbrev pub AttendanceSession : Type 0
AttendanceSession = Session (List Attendance) Outside

-- the check-ins of a user from a time on
abbrev pub is_check_in_since : ℕ → ℕ → Attendance → Bool
is_check_in_since user since a = (a.user_id == user) && is_check_in a.type && leb since a.timestamp

abbrev pub is_check_out_after : ℕ → ℕ → Attendance → Bool
is_check_out_after user after a =
    (a.user_id == user) && is_check_out a.type && ltb after a.timestamp

-- the latest check-in of the day, unless a check-out follows it
unfoldable pub get_active_session : ℕ → ℕ → List Attendance → Option Attendance
get_active_session user now rows = elim (latest (is_check_in_since user (start_of_day now)) rows) [
  | none ↦ none
  | some a ↦ if any (is_check_out_after user a.timestamp) rows then none else some a
]

abbrev pub is_open : ℕ → ℕ → List Attendance → Bool
is_open user now rows = elim (get_active_session user now rows) [ none ↦ false | some _ ↦ true ]

-- Whether the place of a check-in is near the boundary; only a provisioned tenant has a repository for
-- geofences.
unfoldable pub check_place : Bool → ℕ → CreateAttendance → Outside → Result Bool
check_place provisioned user dto w =
    if is_check_in dto.type && provisioned
    then elim (w.fence_of user) [
      | none ↦ ok false
      | some fence ↦ elim dto.location [
        | none ↦ err (bad_request no_location)
        | some place ↦
            if (w.within place fence).0
            then ok (w.within place fence).1
            else err (bad_request outside_fence)
      ]
    ]
    else ok false

-- the check of the session, by the type of the event
unfoldable pub check_session : AttendanceType → Bool → Result (Unit {0})
check_session check_in true = err (bad_request session_active)
check_session check_in false = ok tt
check_session check_out true = ok tt
check_session check_out false = err (bad_request no_session)
check_session break_start active = ok tt
check_session break_end active = ok tt

-- a manager's check-in, and that of a network administrator, needs no approval
unfoldable pub is_self_approved : ℕ → Option ℕ → Outside → Bool
is_self_approved user tenant w =
    elim tenant [ none ↦ false | some t ↦ w.leads_team user t ] || elim (w.role_of user) [
      | none ↦ false
      | some role ↦ text_eq (lower role) (codes "network-admin")
    ]

abbrev pub plain : ℕ → AttendanceType → Bool → Outside → Attendance
plain user type near w = record {
  id = w.next_id;
  user_id = user;
  type = type;
  timestamp = w.now;
  approval_status = none;
  approved_by = none;
  approved_at = none;
  approval_remarks = none;
  near_boundary = near;
}

abbrev pub new_attendance : ℕ → Option ℕ → AttendanceType → Bool → Outside → Attendance
new_attendance user tenant type near w =
    if is_check_in type
    then (if is_self_approved user tenant w
        then record (plain user type near w) {
          approval_status = some ApprovalStatus.approved;
          approved_by = some user;
          approved_at = some w.now;
        }
        else record (plain user type near w) { approval_status = some ApprovalStatus.pending })
    else plain user type near w

abbrev pub insert_attendance : Attendance → AttendanceSession → AttendanceSession
insert_attendance a s = record {
  tables = s.tables ++ a ∷ [];
  outside = record (s.outside) { next_id = s.outside.next_id + 1 };
}

-- `autoEndIfActive` after a check-out
abbrev pub auto_end : AttendanceType → ℕ → AttendanceSession → AttendanceSession
auto_end check_out user s = record s {
  outside = record (s.outside) {
    sheets = end_work user (record (s.outside.sheets) { now = s.outside.now });
  };
}
auto_end _ user s = s

-- `doCreate`
unfoldable pub do_create :
    Bool → ℕ → Option ℕ → CreateAttendance → Exec AttendanceSession Attendance
do_create provisioned user tenant dto = do
  rows ← gets (λ s. s.tables)
  w ← gets (λ s. s.outside)
  near ← lift (check_place provisioned user dto w)
  lift (check_session dto.type (is_open user w.now rows))
  modify (insert_attendance (new_attendance user tenant dto.type near w))
  modify (auto_end dto.type user)
  pure (new_attendance user tenant dto.type near w)

-- without a tenant the method runs in the public schema
unfoldable pub create :
    ℕ → Option ℕ → CreateAttendance → Exec (Database (List Attendance) Outside) Attendance
create user none dto d = run_in_tenant_context false 0 (do_create false user none dto) d
create user (some t) dto d =
    let provisioned = d.outside.provisioned t in
    run_in_tenant_context provisioned t (do_create provisioned user (some t) dto) d

-- the loop of `verifyTeamMember`, from a page on
unfoldable pub verify_from : ℕ → ℕ → (ℕ → MemberPage) → ℕ → Bool
verify_from zero user pages page = false
verify_from (suc fuel) user pages page =
    let rest = verify_from fuel user pages (page + 1) in
    let result = pages page in
    if any (λ m. m == user) result.items
    then true
    else if (length result.items == result.limit) && ltb page result.total_pages
    then rest
    else false

-- The fuel is the number of pages that the first one names.
unfoldable pub verify_team_member : ℕ → ℕ → ℕ → Outside → Bool
verify_team_member user manager tenant w =
    verify_from (suc (w.members tenant manager 1).total_pages) user (w.members tenant manager) 1

abbrev pub find_attendance : ℕ → List Attendance → Option Attendance
find_attendance id rows = find (λ a. a.id == id) rows

abbrev pub save_attendance : Attendance → AttendanceSession → AttendanceSession
save_attendance a s = record s { tables = map (λ x. if x.id == a.id then a else x) s.tables }

abbrev pub or_null : Option Text → Option Text
or_null none = none
or_null (some []) = none
or_null (some (c ∷ t)) = some (c ∷ t)

abbrev pub judged : ApprovalStatus → ℕ → ℕ → Option Text → Attendance → Attendance
judged status manager now remarks a = record a {
  approval_status = some status;
  approved_by = some manager;
  approved_at = some now;
  approval_remarks = or_null remarks;
}

-- `approveCheckIn` and `disapproveCheckIn`, by the status that they set
unfoldable pub judge_check_in :
    ApprovalStatus → ℕ → ℕ → ℕ → Option Text → Exec AttendanceSession Attendance
judge_check_in status id manager tenant remarks = do
  rows ← gets (λ s. s.tables)
  w ← gets (λ s. s.outside)
  a ← or_throw (find_attendance id rows) (not_found check_in_missing)
  throw_unless (is_check_in a.type) (bad_request not_check_in)
  throw_unless (verify_team_member a.user_id manager tenant w) (forbidden not_team)
  modify (save_attendance (judged status manager w.now remarks a))
  pure (judged status manager w.now remarks a)

-- the check-in that is still open, and the milliseconds of the sessions that are complete
unfoldable pub add_hours : Option ℕ → ℕ → List Attendance → ℕ
add_hours since total [] = total
add_hours since total (a ∷ events) =
    if is_check_in a.type
    then add_hours (some a.timestamp) total events
    else if is_check_out a.type
    then elim since [
      | none ↦ add_hours none total events
      | some start ↦ add_hours none (total + (a.timestamp - start)) events
    ]
    else add_hours since total events

-- `calculateTotalWorkHours`, in hundredths of hours
unfoldable pub calculate_total_work_hours : List Attendance → ℕ
unfolding add_hours
calculate_total_work_hours events =
    (add_hours none 0 (sort_by (λ a. a.timestamp) events) + 18000) / 36000
