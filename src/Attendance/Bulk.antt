-- ===== src/Attendance/Bulk.antt =====
-- `getTodayTeamCheckIns`, `approveAllCheckIns` and `disapproveAllCheckIns` of the attendance service. Of the
-- response, what the bulk decisions read of it is modelled; the notices are left out.
pub mod Reach
use tgs_hrms.Base.{
  ℕ, zero, suc, ◌+◌, ◌-◌, ◌*◌, ◌/◌, Text, Bool, true, false, ◌&&◌, ◌||◌, Option, none, some, List,
  [], ◌∷◌, ◌++◌, map, keep, ◌==◌, leb, ltb, if◌then◌else◌, any, length, sort_by, Exec, pure, gets,
  modify, ◌>>=◌, ◌>>◌,
}
use tgs_hrms.Timesheet.{ApprovalStatus, Attendance, is_check_in, start_of_day}
use tgs_hrms.Attendance.{MemberPage, Outside, AttendanceSession, judged}

-- the loop that gathers the members of a team, from a page on
unfoldable pub collect_members : ℕ → (ℕ → MemberPage) → ℕ → List ℕ
collect_members zero pages page = []
collect_members (suc fuel) pages page =
    let rest = collect_members fuel pages (page + 1) in
    let result = pages page in
    if (length result.items == result.limit) && ltb page result.total_pages
    then result.items ++ rest
    else result.items

-- The fuel is the number of pages that the first one names.
unfoldable pub all_team_members : ℕ → ℕ → Outside → List ℕ
all_team_members manager tenant w =
    collect_members (suc (w.members tenant manager 1).total_pages) (w.members tenant manager) 1

-- a check-in of today
abbrev pub is_today : ℕ → Attendance → Bool
is_today now a =
    is_check_in a.type
    && leb (start_of_day now) a.timestamp
    && ltb a.timestamp (start_of_day now + 86400000)

-- `orderBy('timestamp', 'DESC')`; a later time has the smaller key
abbrev pub newest_first : ℕ → List Attendance → List Attendance
newest_first now rows = sort_by (λ a. start_of_day now + 86400000 - a.timestamp) rows

-- one turn of the loop over `userCheckInMap`, whose values are listed in the order of their insertion
unfoldable pub put_latest : Attendance → List Attendance → List Attendance
put_latest a [] = a ∷ []
put_latest a (b ∷ m) =
    let rest = put_latest a m in
    if b.user_id == a.user_id
    then (if ltb b.timestamp a.timestamp then a ∷ m else b ∷ m)
    else b ∷ rest

unfoldable pub latest_each : List Attendance → List Attendance → List Attendance
latest_each [] m = m
latest_each (a ∷ rows) m = latest_each rows (put_latest a m)

unfoldable pub get_today_team_check_ins : ℕ → ℕ → Outside → List Attendance → List Attendance
get_today_team_check_ins manager tenant w rows =
    let team = all_team_members manager tenant w in
    let today = keep (λ a. any (λ m. m == a.user_id) team && is_today w.now a) rows in
    newest_first w.now (latest_each (newest_first w.now today) [])

abbrev pub is_undecided : Option ApprovalStatus → Bool
is_undecided none = true
is_undecided (some ApprovalStatus.pending) = true
is_undecided (some _) = false

-- the identifiers of `pendingCheckIns`
abbrev pub undecided_ids : ℕ → ℕ → Outside → List Attendance → List ℕ
undecided_ids manager tenant w rows =
    map (λ a. a.id)
      (keep (λ a. is_undecided a.approval_status) (get_today_team_check_ins manager tenant w rows))

-- the update of the rows with one of the identifiers
abbrev pub judge_among : ApprovalStatus → ℕ → ℕ → Option Text → List ℕ → Attendance → Attendance
judge_among status manager now remarks ids a =
    if any (λ i. i == a.id) ids && is_check_in a.type
    then judged status manager now remarks a
    else a

abbrev pub has_id : List ℕ → Attendance → Bool
has_id ids a = any (λ i. i == a.id) ids

unfoldable pub do_update :
    ApprovalStatus → ℕ → ℕ → Option Text → List ℕ → Exec AttendanceSession (List Attendance)
do_update status manager now remarks [] = pure []
do_update status manager now remarks (i ∷ ids) = do
  modify
      (λ s. record s { tables = map (judge_among status manager now remarks (i ∷ ids)) s.tables })
  gets (λ s. keep (has_id (i ∷ ids)) s.tables)

-- `approveAllCheckIns` and `disapproveAllCheckIns`, by the status that they set
unfoldable pub judge_all :
    ApprovalStatus → ℕ → ℕ → Option Text → Exec AttendanceSession (List Attendance)
judge_all status manager tenant remarks = do
  rows ← gets (λ s. s.tables)
  w ← gets (λ s. s.outside)
  do_update status manager w.now remarks (undecided_ids manager tenant w rows)
