-- ===== src/Tests/Days.antt =====
-- Days of 2026: day 740042 is Monday 2 March. A request of user 5 for overtime on Saturday 7 and
-- Sunday 8 March.
use tgs_hrms.Base.{
  ◌⊎◌, ◌∷◌, ℕ, ◌≤◌, ◌≡◌, refl, ℤ, pos, true, false, Option, none, some, [], ◌==◌, if◌then◌else◌,
  codes, ok,
}
use tgs_hrms.Calendar.{
  get_utc_day, iso_day, year_start, utc_year, jan4, dec28, monday_of, iso_weeks_in_year, match_week,
  week_days, parse_iso_week, find_weekday_from, find_weekday_in_range,
}
use tgs_hrms.Flex.{FlexStatus, Overtime, World}
use tgs_hrms.Overtime.{
  CreateOvertime, UpdateOvertime, whole_days, plan_create, check_create_overtime,
}
use tgs_hrms.Overtime.{whole_days}
use tgs_hrms.Calendar.{find_weekday_in_range, find_weekday_from, get_utc_day}
use tgs_hrms.Overtime.Edits.{plan_edit}
use tgs_hrms.Overtime.Days.{
  IsWeekendPlan, IsAsked, check_create_overtime_lem, IsReplaced, plan_edit_lem,
}
use tgs_hrms.Calendar.Ranges.{IsFirstWeekday, find_weekday_in_range_first}

-- week 10 of 2026 begins on 2 March
week_10 : parse_iso_week (codes "2026-W10") ≡ ok (740042, 740048)
unfolding parse_iso_week match_week week_days iso_weeks_in_year monday_of jan4 dec28 iso_day
    get_utc_day year_start utc_year
week_10 = refl

-- the Monday behind the weekend
first_weekday : find_weekday_in_range 740047 740050 ≡ some 740049
unfolding find_weekday_in_range find_weekday_from get_utc_day
first_weekday = refl

find_weekday_in_range_first_example :
    IsFirstWeekday 740047 740050 (find_weekday_in_range 740047 740050)
find_weekday_in_range_first_example = find_weekday_in_range_first 740047 740050

abbrev pub weekend : CreateOvertime
weekend = record {
  start_date = 740047;
  end_date = some 740048;
  hours = none;
  reason = codes "release";
  files = [];
}

abbrev pub world : World
world = record {
  workflow = record {
    schemas = record {
      public_schema = record { configs = []; requests = []; audits = [] };
      tenant_schema = λ tenant. record { configs = []; requests = []; audits = [] };
    };
    outside = record { events = []; next_id = 1; now = 100 };
  };
  next_id = 1;
  today = 740042;
  provisioned = λ tenant. true;
  wfh_enabled = λ tenant. true;
  overtime_enabled = λ tenant. true;
  leave_enabled = λ tenant. true;
  now = 100;
  manager_of = λ employee tenant. some 3;
  team_manager_of = λ employee. some 3;
  role_of = λ user. if user == 4 then some (codes "Admin") else some (codes "manager");
  is_member = λ user tenant. true;
  admins_of = λ tenant. 4 ∷ [];
  upload = λ files id employee. none;
  same_object = λ a b. false;
  notices = [];
}

abbrev pub plan : ℕ × ℕ × ℤ
plan = (740047, 740048, pos 1600)

check_create_overtime_lem_example :
    (740042 ≤ 740047) × (740047 ≡ weekend.start_date) × IsWeekendPlan plan × IsAsked weekend plan
unfolding check_create_overtime plan_create whole_days find_weekday_in_range find_weekday_from
    get_utc_day
check_create_overtime_lem_example = check_create_overtime_lem world 1 weekend plan refl

-- what is stored for it
abbrev pub stored : Overtime
stored = record {
  id = 1;
  employee_id = 5;
  tenant_id = 1;
  start_date = 740047;
  end_date = 740048;
  hours = pos 1600;
  reason = codes "release";
  status = FlexStatus.pending;
  attachments = [];
  workflow_request_id = none;
}

abbrev pub moved : Option ℕ → Option ℕ → UpdateOvertime
moved start end = record {
  start_date = start;
  end_date = end;
  hours = none;
  reason = none;
  files = [];
}

-- Saturday 14 and Sunday 15 March
abbrev next_weekend : ℕ × ℕ × ℤ
next_weekend = (740054, 740055, pos 1600)

plan_edit_lem_example :
    ((moved (some 740054) (some 740055)).hours ≡ none)
      × ((moved (some 740054) (some 740055)).end_date ≡ none)
      × ((moved (some 740054) (some 740055)).start_date ≡ none)
      × (next_weekend ≡ (stored.start_date, stored.end_date, stored.hours))
    ⊎ IsWeekendPlan next_weekend × IsReplaced (moved (some 740054) (some 740055)) next_weekend
unfolding plan_edit whole_days find_weekday_in_range find_weekday_from get_utc_day
plan_edit_lem_example = plan_edit_lem stored (moved (some 740054) (some 740055)) next_weekend refl
