-- ===== src/Tests/Decisions.antt =====
-- What decisions on the leaves of Tests.Leaves leave, and settings of their tenant.
use tgs_hrms.Base.{
  ℕ, Text, text_eq, if◌then◌else◌, Bool-cases, inl, inr, ap, sym, text_eq_sound, ◌+◌, ◌≡◌, refl,
  ◌⊎◌, codes, true, false, none, some, List, [], ◌∷◌, arith, err, conflict, leave_overlap,
}
use tgs_hrms.Tenancy.{Database}
use tgs_hrms.Tenancy.Names.Apart.{get_schema_name_inj}
use tgs_hrms.Tenancy.Names.{get_schema_name, fits_all, has_lower_digits}
use tgs_hrms.Workflow.{leave, WorkflowCompletedEvent, Outcome}
use tgs_hrms.Calendar.{year_start, get_full_year, next_year}
use tgs_hrms.Flex.{World, RequestTables}
use tgs_hrms.Leave.{check_leave}
use tgs_hrms.Leave.Edit.{EditLeave}
use tgs_hrms.Leave.Listener.{Catalogue, IsCatalogue, handle_leave_approved, handle_leave_rejected}
use tgs_hrms.Leave.Balances.{IsBalanced}
use tgs_hrms.Leave.Gaps.{pending_ignored, handle_leave_approved_lem, late_rejection, used_for}
use tgs_hrms.Leave.Mine.{get_my_balances_work, target_year}
use tgs_hrms.Leave.Mine.Told.{IsTold, get_my_balances-IsTold}
use tgs_hrms.Leave.Ledger.Refine.{perform_all}
use tgs_hrms.Flex.{LeaveBalance}
use tgs_hrms.Base.{ok}
use tgs_hrms.Settings.{TenantSetting}
use tgs_hrms.Settings.Replay
use tgs_hrms.Settings.Replay.{Answer, answers, promises, answers_lem}
use tgs_hrms.Settings.Entries.{stored}
use tgs_hrms.Tests.Leaves.{
  start, story, start-IsBooked, trip, quiet_world, empty_tables, asked_leave, approved_leave,
  approved_session, approved_session-IsBooked,
}

pending_ignored_example :
    check_leave 5 1 trip quiet_world (record empty_tables { leaves = asked_leave ∷ [] })
    ≡ check_leave 5 1 trip quiet_world empty_tables
pending_ignored_example = pending_ignored 5 1 trip quiet_world empty_tables asked_leave refl

-- an approved one is seen
taken_already :
    check_leave 5 1 trip quiet_world approved_session.tables ≡ err (conflict leave_overlap)
unfolding check_leave next_year get_full_year year_start
taken_already = refl

abbrev shifted : EditLeave
shifted = record {
  leave_type_id = none;
  start_date = some 740045;
  end_date = some 740049;
  reason = none;
  documents_to_remove = [];
  files = [];
}

abbrev decision : WorkflowCompletedEvent
decision = record {
  workflow_request_id = 1;
  related_entity_id = 1;
  request_type = leave;
  tenant_id = 1;
  requestor_id = 5;
  outcome = Outcome.approved;
  final_approver_id = some 4;
  final_remarks = none;
}

abbrev approved_database : Database RequestTables World
approved_database = record {
  schemas = record {
    public_schema = approved_session.tables;
    tenant_schema = λ tenant. empty_tables;
  };
  outside = approved_session.outside;
}

abbrev uuid : ℕ → Text
uuid tenant = codes "0f8fad5b-d9cb-469f-a165-70867728950e"

abbrev schema_name : Text
schema_name = codes "tenant_0f8fad5bd9cb469fa16570867728950e"

-- the schema of tenant 1 is the only one
abbrev catalogue : Catalogue
catalogue = record {
  uuid = uuid;
  tenant_named = λ name. if text_eq name schema_name then some 1 else none;
}

catalogue-IsCatalogue : IsCatalogue catalogue
unfolding get_schema_name fits_all has_lower_digits
catalogue-IsCatalogue name = elim (Bool-cases (text_eq name schema_name)) [
  | inl e ↦ rw e (ap ok (sym (text_eq_sound name schema_name e)))
  | inr e ↦ rw e tt
]

handle_leave_approved_lem_example :
    (false ≡ true)
      × (handle_leave_approved catalogue decision approved_database ≡ approved_database)
    ⊎ (false ≡ false)
      × (used_for approved_leave 1
            (handle_leave_approved catalogue decision
              approved_database).schemas.public_schema.leave_balances
          ≡ used_for approved_leave 1 approved_session.tables.leave_balances + 3)
unfolding fits_all
handle_leave_approved_lem_example =
    handle_leave_approved_lem catalogue decision approved_database approved_leave
      catalogue-IsCatalogue refl refl refl refl

late_rejection_example : ¬ IsBalanced (handle_leave_rejected decision approved_session)
late_rejection_example =
    late_rejection decision approved_session approved_leave refl refl refl (omega arith)
      approved_session-IsBooked

-- the settings of tenant 1
abbrev stored_rows : List TenantSetting
stored_rows =
    record { tenant_id = 1; key = codes "leave_workflow_enabled"; value = codes "true" } ∷ []

abbrev session_of_calls : List Replay.Call
session_of_calls =
    Replay.ask_boolean 1 (codes "leave_workflow_enabled")
    ∷ Replay.change 1 (codes "mobile_login_enabled") (codes "false")
    ∷ Replay.ask 1 (codes "mobile_login_enabled")
    ∷ Replay.forget 1
    ∷ Replay.ask 1 (codes "mobile_login_enabled")
    ∷ []

answers_lem_example :
    answers session_of_calls (record { rows = stored_rows; cache = λ tenant. none })
    ≡ promises session_of_calls (λ tenant k. stored tenant k stored_rows)
answers_lem_example = answers_lem session_of_calls stored_rows

get_my_balances-IsTold_example :
    (answer : List LeaveBalance) × ((get_my_balances_work 5 1 none (perform_all story start)).0
      ≡ ok answer)
    × IsTold 5 1
        (target_year none (perform_all story start).outside)
        (perform_all story start)
        answer
get_my_balances-IsTold_example = get_my_balances-IsTold story start 5 1 none start-IsBooked tt

get_schema_name_inj_example : uuid 1 ≡ uuid 1
unfolding get_schema_name fits_all has_lower_digits
get_schema_name_inj_example = get_schema_name_inj (uuid 1) (uuid 1) schema_name refl refl
