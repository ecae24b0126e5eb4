-- ===== src/Tests/Attending.antt =====
-- Check-ins of user 5, whose manager is user 3, on 5 March 2026, which begins at 1772668800000.
use tgs_hrms.Base.{
  ℕ, ◌+◌, ◌-◌, ◌/◌, ◌≤◌, ◌≡◌, refl, text_eq, lower, codes, true, false, none, some, List, [], ◌∷◌,
  arith, map, any, ◌⊎◌, inl, inr, err, bad_request, no_session, sort_by,
}
use tgs_hrms.Timesheet.{
  ApprovalStatus, check_in, check_out, break_start, Attendance, Sheets, start_of_day, latest,
}
use tgs_hrms.Timesheet.Single
use tgs_hrms.Timesheet.Single.{IsSingle, perform_all, perform_all-IsSingle}
use tgs_hrms.Attendance.{
  CreateAttendance, MemberPage, Outside, AttendanceSession, is_open, get_active_session,
  check_place, check_session, is_self_approved, do_create, verify_team_member, add_hours,
  calculate_total_work_hours, new_attendance, plain, judged, find_attendance,
}
use tgs_hrms.Attendance.Bulk.{
  judge_all, get_today_team_check_ins, all_team_members, collect_members, latest_each, put_latest,
  do_update,
}
use tgs_hrms.Attendance.Bulk.Reach.{is_reached, map_row, judge_all_lem}
use tgs_hrms.Attendance.Sessions.{Turns, do_create-Turns, overnight_refused}
use tgs_hrms.Attendance.Members.{is_on_pages, verify_team_member_lem}
use tgs_hrms.Attendance.Hours.{calculate_total_work_hours_bound}

-- nine o'clock, noon, and one in the morning of the next day
abbrev nine : ℕ
nine = 1772701200000

abbrev noon : ℕ
noon = 1772712000000

abbrev night : ℕ
night = 1772758800000

abbrev sheets : Sheets
sheets = record { rows = []; next_id = 1; now = nine; name_of = λ user. some (codes "A B") }

-- one page with users 5 and 6
abbrev page : MemberPage
page = record { items = 5 ∷ 6 ∷ []; limit = 25; total_pages = 1 }

abbrev outside : ℕ → Outside
outside now = record {
  sheets = sheets;
  next_id = 1;
  now = now;
  provisioned = λ tenant. true;
  fence_of = λ user. none;
  within = λ place fence. (true, false);
  leads_team = λ user tenant. false;
  role_of = λ user. some (codes "Employee");
  members = λ tenant manager number. page;
}

abbrev arrival : CreateAttendance
arrival = record { type = check_in; location = none }

abbrev departure : CreateAttendance
departure = record { type = check_out; location = none }

abbrev first : Attendance
first = new_attendance 5 (some 1) check_in false (outside nine)

abbrev second : Attendance
second = new_attendance 5 (some 1) check_out false (record (outside noon) { next_id = 2 })

abbrev at_noon : AttendanceSession
at_noon = record { tables = first ∷ []; outside = record (outside noon) { next_id = 2 } }

do_create-Turns_example :
    Turns check_out
      (is_open 5 noon (first ∷ []))
      (is_open 5 noon (do_create true 5 (some 1) departure at_noon).1.tables)
unfolding do_create check_place check_session get_active_session latest start_of_day
    is_self_approved text_eq lower
do_create-Turns_example =
    do_create-Turns true 5 (some 1) departure at_noon second (omega arith, tt) refl

-- the same check-out after midnight, when user 5 has had a break and user 6 has come
abbrev pause : Attendance
pause = plain 5 break_start false (record (outside night) { next_id = 2 })

abbrev colleague : Attendance
colleague = new_attendance 6 (some 1) check_in false (record (outside night) { next_id = 3 })

abbrev at_night : AttendanceSession
at_night = record {
  tables = first ∷ pause ∷ colleague ∷ [];
  outside = record (outside night) { next_id = 4 };
}

overnight_refused_example :
    do_create true 5 (some 1) departure at_night ≡ (err (bad_request no_session), at_night)
unfolding start_of_day is_self_approved text_eq lower
overnight_refused_example =
    overnight_refused true 5 (some 1) departure at_night
      (inr (inr (omega arith)), (inr (inl (ground arith)), (inl (ground arith), tt))) refl

verify_team_member_lem_example :
    verify_team_member 6 3 1 (outside nine) ≡ is_on_pages 6 (λ number. page) 1 0
verify_team_member_lem_example =
    verify_team_member_lem 6 3 1 1 (outside nine) (λ number positive. (refl, ground arith))

-- three hours
three : calculate_total_work_hours (second ∷ first ∷ []) ≡ 300
unfolding calculate_total_work_hours add_hours sort_by is_self_approved text_eq lower
three = refl

calculate_total_work_hours_bound_example :
    calculate_total_work_hours (second ∷ first ∷ []) ≤ (noon - nine + 18000) / 36000
unfolding is_self_approved text_eq lower
calculate_total_work_hours_bound_example =
    calculate_total_work_hours_bound nine noon (second ∷ first ∷ []) (omega arith)
      (omega arith, (omega arith, tt)) (omega arith, (omega arith, tt))

abbrev day : List Single.Call
day =
    Single.begin_at nine (first ∷ []) 5
    ∷ Single.begin_at noon (first ∷ []) 5
    ∷ Single.end_at noon 5
    ∷ Single.begin_at noon (first ∷ []) 5
    ∷ []

perform_all-IsSingle_example : IsSingle (perform_all day sheets)
perform_all-IsSingle_example = perform_all-IsSingle day sheets (λ user. omega arith)

-- user 5 came at nine and again at noon
abbrev again : Attendance
again = new_attendance 5 (some 1) check_in false (record (outside noon) { next_id = 3 })

abbrev twice : AttendanceSession
twice = record { tables = first ∷ again ∷ []; outside = outside noon }

-- the manager approves all, and the check-in of nine is still to be decided
one_of_two :
    map (λ a. a.approval_status) (judge_all ApprovalStatus.approved 3 1 none twice).1.tables
    ≡ some ApprovalStatus.pending ∷ some ApprovalStatus.approved ∷ []
unfolding judge_all get_today_team_check_ins all_team_members collect_members latest_each put_latest
    do_update start_of_day sort_by is_self_approved text_eq lower
one_of_two = refl

judge_all_lem_example :
    (find_attendance 3 (judge_all ApprovalStatus.approved 3 1 none twice).1.tables
      ≡ find_attendance 3 twice.tables)
    ⊎ ((any (is_reached 3 1 twice.outside 3) twice.tables ≡ true)
        × (find_attendance 3 (judge_all ApprovalStatus.approved 3 1 none twice).1.tables
            ≡ map_row
                (judged ApprovalStatus.approved 3 noon none)
                (find_attendance 3 twice.tables)))
judge_all_lem_example = judge_all_lem ApprovalStatus.approved 3 3 1 none twice
