-- ===== src/Overtime/Edits.antt =====
-- editOvertimeRequest of src/modules/overtime/overtime.service.ts.
use tgs_hrms.Base.{
  ℕ, ℤ, ◌&&◌, ◌||◌, Option, none, some, List, if◌then◌else◌, Exec, Result, Error, ok, err, internal,
  not_a_date, bad_request, hours_and_end_date, weekday_overtime, pure, gets, lift, throw_if, modify,
  ◌>>=◌, ◌>>◌,
}
use tgs_hrms.Tenancy.{Database}
use tgs_hrms.Calendar.{find_weekday_in_range}
use tgs_hrms.Flex.{
  Overtime, World, RequestTables, FlexSession, overlap_error, or_keep, is_given, in_tenant,
}
use tgs_hrms.Overtime.{
  UpdateOvertime, save_overtime, find_other_clash, single_day, whole_days, attach_overtime,
  own_pending_overtime,
}

-- A method of Date, called on the text that a stored date is: a TypeError.
abbrev pub no_method : Error
no_method = internal not_a_date

-- Range mode with the stored start. The text is never after the end, for it compares as NaN; the loop
-- makes a Date of it; `getTime` after the loop is a method that it lacks.
unfoldable pub plan_from_stored : ℕ → ℕ → Result (ℕ × ℕ × ℤ)
plan_from_stored start end = elim (find_weekday_in_range start end) [
  | some weekday ↦ err (bad_request weekday_overtime)
  | none ↦ err no_method
]

-- The days and the hours after an edit. `newStart` is a Date where the request names it, else the text
-- of the row; the branch of a new start alone calls `toISOString` of the text first.
unfoldable pub plan_edit : Overtime → UpdateOvertime → Result (ℕ × ℕ × ℤ)
plan_edit o dto = elim dto.hours [
  | some hours ↦ elim dto.start_date [ some start ↦ single_day start hours | none ↦ err no_method ]
  | none ↦ elim dto.end_date [
    | some end ↦ elim dto.start_date [
      | some start ↦ whole_days start end
      | none ↦ plan_from_stored o.start_date end
    ]
    | none ↦ elim dto.start_date [
      | some start ↦ err no_method
      | none ↦ ok (o.start_date, o.end_date, o.hours)
    ]
  ]
]

abbrev pub edited_overtime : ℕ × ℕ × ℤ → UpdateOvertime → Overtime → Overtime
edited_overtime (start, end, hours) dto o = record o {
  start_date = start;
  end_date = end;
  hours = hours;
  reason = or_keep dto.reason o.reason;
}

abbrev pub no_clash : Option Overtime → Result (Unit {0})
no_clash none = ok tt
no_clash (some o) = err (overlap_error o.status)

-- the overlap check, which is made only where the request names a date
unfoldable pub check_edit_overtime :
    ℕ → ℕ → ℕ → ℕ × ℕ × ℤ → UpdateOvertime → List Overtime → Result (Unit {0})
check_edit_overtime id employee tenant (start, end, hours) dto rows =
    if is_given dto.start_date || is_given dto.end_date
    then no_clash (find_other_clash id employee tenant start end rows)
    else ok tt

unfoldable pub edit_overtime_work : ℕ → ℕ → ℕ → UpdateOvertime → Exec FlexSession Overtime
edit_overtime_work id employee tenant dto = do
  rows ← gets (λ s. s.tables.overtime_requests)
  o ← lift (own_pending_overtime id employee tenant rows)
  plan ← lift (plan_edit o dto)
  lift (check_edit_overtime id employee tenant plan dto rows)
  world ← gets (λ s. s.outside)
  let saved = attach_overtime world dto.files employee (edited_overtime plan dto o)
  modify (save_overtime saved)
  pure saved

unfoldable pub edit_overtime_request :
    ℕ → ℕ → ℕ → UpdateOvertime → Exec (Database RequestTables World) Overtime
edit_overtime_request id employee tenant dto = do
  throw_if (is_given dto.hours && is_given dto.end_date) (bad_request hours_and_end_date)
  in_tenant tenant (edit_overtime_work id employee tenant dto)
