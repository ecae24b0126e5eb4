-- ===== src/Timesheet.antt =====
-- src/modules/timesheet/timesheet.service.ts: sessions of work.
--
-- A time is in milliseconds since 1970, and the clock is not set back. Hours are in hundredths, as
-- `Math.round(hours * 100) / 100` leaves them; what floating point does before the rounding is not
-- modelled.
pub mod Single
use tgs_hrms.Base.{
  ℕ, ◌+◌, ◌-◌, ◌*◌, ◌/◌, ◌%◌, Text, Bool, true, false, not, ◌&&◌, Option, none, some, List, [], ◌∷◌,
  ◌++◌, ◌==◌, leb, ltb, if◌then◌else◌, find, keep, Exec, bad_request, check_in_first, work_active,
  pure, gets, throw_if, throw_unless, modify, ◌>>=◌, ◌>>◌,
}
use tgs_hrms.Tenancy.{Session}

pub data AttendanceType : Type 0 where
  check_in check_out break_start break_end : AttendanceType

pub data ApprovalStatus : Type 0 where
  pending approved rejected : ApprovalStatus

-- src/entities/attendance.entity.ts
pub record Attendance : Type 0 where
  pub id : ℕ
  pub user_id : ℕ
  pub type : AttendanceType
  pub timestamp : ℕ
  pub approval_status : Option ApprovalStatus
  pub approved_by : Option ℕ
  pub approved_at : Option ℕ
  pub approval_remarks : Option Text
  pub near_boundary : Bool

-- src/entities/timesheet.entity.ts
pub record Timesheet : Type 0 where
  pub id : ℕ
  pub user_id : ℕ
  pub start_time : ℕ
  pub end_time : Option ℕ
  pub duration_hours : Option ℕ
  pub employee_full_name : Option Text

abbrev pub is_check_in : AttendanceType → Bool
is_check_in check_in = true
is_check_in _ = false

abbrev pub is_check_out : AttendanceType → Bool
is_check_out check_out = true
is_check_out _ = false

-- `Date.UTC(now.getUTCFullYear(), now.getUTCMonth(), now.getUTCDate())`
unfoldable pub start_of_day : ℕ → ℕ
start_of_day now = now - now % 86400000

-- `orderBy('timestamp', 'DESC').getOne()` of the rows that `p` selects
unfoldable pub latest : (Attendance → Bool) → List Attendance → Option Attendance
latest p [] = none
latest p (a ∷ rows) =
    let rest = latest p rows in
    if p a
    then elim rest [
      | none ↦ some a
      | some b ↦ if ltb b.timestamp a.timestamp then some a else some b
    ]
    else rest

-- The table of this service is that of the public schema for every tenant, so it lies outside the
-- transactions of the attendance service.
pub record Sheets : Type 0 where
  pub rows : List Timesheet
  pub next_id : ℕ
  pub now : ℕ
  pub name_of : ℕ → Option Text

abbrev pub put_sheets : List Timesheet → Sheets → Sheets
put_sheets rows s = record s { rows = rows }

-- `where: { user_id: userId, end_time: IsNull() }`
abbrev pub is_running : ℕ → Timesheet → Bool
is_running user t = (t.user_id == user) && elim t.end_time [ none ↦ true | some _ ↦ false ]

-- `Math.round(ms / (1000 * 60 * 60) * 100) / 100`, in hundredths
unfoldable pub hours_between : ℕ → ℕ → ℕ
hours_between start end = ((end - start) + 18000) / 36000

abbrev pub or_name : Option Text → Option Text → Option Text
or_name (some n) other = some n
or_name none other = other

abbrev pub ended : ℕ → (ℕ → Option Text) → Timesheet → Timesheet
ended now name_of t = record t {
  end_time = some now;
  duration_hours = some (hours_between t.start_time now);
  employee_full_name = or_name t.employee_full_name (name_of t.user_id);
}

-- the row that `findOne` returns, written anew
unfoldable pub end_first : ℕ → ℕ → (ℕ → Option Text) → List Timesheet → List Timesheet
end_first user now name_of [] = []
end_first user now name_of (t ∷ rows) =
    let rest = end_first user now name_of rows in
    if is_running user t then ended now name_of t ∷ rows else t ∷ rest

-- `endWork` and `autoEndIfActive`, whose bodies are the same
unfoldable pub end_work : ℕ → Sheets → Sheets
unfolding end_first
end_work user s = put_sheets (end_first user s.now s.name_of s.rows) s

-- the rows of the user from the day of `now`
abbrev pub is_of_day : ℕ → ℕ → Attendance → Bool
is_of_day user now a =
    (a.user_id == user)
    && leb (start_of_day now) a.timestamp
    && ltb a.timestamp (start_of_day now + 86400000)

abbrev pub is_at_work : Option Attendance → Bool
is_at_work none = false
is_at_work (some a) = is_check_in a.type

abbrev pub new_sheet : ℕ → Sheets → Timesheet
new_sheet user s = record {
  id = s.next_id;
  user_id = user;
  start_time = s.now;
  end_time = none;
  duration_hours = none;
  employee_full_name = s.name_of user;
}

abbrev pub insert_sheet : ℕ → Sheets → Sheets
insert_sheet user s = record s { rows = s.rows ++ new_sheet user s ∷ []; next_id = s.next_id + 1 }

-- `attendance` are the rows that the tenant's search path finds
unfoldable pub start_work : List Attendance → ℕ → Exec Sheets Timesheet
start_work attendance user = do
  s ← gets (λ s. s)
  throw_unless (is_at_work (latest (is_of_day user s.now) attendance)) (bad_request check_in_first)
  let running = find (is_running user) s.rows
  throw_if (elim running [ none ↦ false | some _ ↦ true ]) (bad_request work_active)
  modify (insert_sheet user)
  pure (new_sheet user s)
