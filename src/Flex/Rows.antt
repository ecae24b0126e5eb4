-- ===== src/Flex/Rows.antt =====
-- The rows of the three kinds of request, src/entities/wfh.entity.ts, overtime.entity.ts and
-- leave.entity.ts, with what the queries read of them.
use tgs_hrms.Base.{ℕ, ℤ, Text, Bool, true, false, ◌&&◌, Option, List, ◌==◌, leb}
use tgs_hrms.Workflow.{RequestType}
use tgs_hrms.Bookings.{Booking}

-- WfhStatus and OvertimeStatus, which have the same members
pub data FlexStatus : Type 0 where
  pending approved rejected cancelled : FlexStatus

pub data LeaveStatus : Type 0 where
  pending processing approved rejected cancelled : LeaveStatus

-- src/entities/wfh.entity.ts
pub record Wfh : Type 0 where
  pub id : ℕ
  pub employee_id : ℕ
  pub tenant_id : ℕ
  pub start_date : ℕ
  pub end_date : ℕ
  pub reason : Text
  pub status : FlexStatus
  pub attachments : List Text
  pub workflow_request_id : Option ℕ

-- src/entities/overtime.entity.ts. The hours are in hundredths, as the column keeps them; an edit can
-- make them negative.
pub record Overtime : Type 0 where
  pub id : ℕ
  pub employee_id : ℕ
  pub tenant_id : ℕ
  pub start_date : ℕ
  pub end_date : ℕ
  pub hours : ℤ
  pub reason : Text
  pub status : FlexStatus
  pub attachments : List Text
  pub workflow_request_id : Option ℕ

-- src/entities/leave.entity.ts
pub record Leave : Type 0 where
  pub id : ℕ
  pub employee_id : ℕ
  pub tenant_id : ℕ
  pub leave_type_id : ℕ
  pub start_date : ℕ
  pub end_date : ℕ
  pub total_days : ℕ
  pub reason : Text
  pub status : LeaveStatus
  pub approved_by : Option ℕ
  pub approved_at : Option ℕ
  pub remarks : Option Text
  pub manager_remarks : Option Text
  pub documents : List Text
  pub workflow_request_id : Option ℕ

-- what the leave service reads of a row of src/entities/leave-type.entity.ts
pub record LeaveType : Type 0 where
  pub id : ℕ
  pub tenant_id : ℕ
  pub max_days_per_year : ℕ
  pub is_active : Bool

-- src/entities/leave-balance.entity.ts, whose unique index makes the first four fields a key
pub record LeaveBalance : Type 0 where
  pub employee_id : ℕ
  pub leave_type_id : ℕ
  pub year : ℕ
  pub tenant_id : ℕ
  pub allocated : ℕ
  pub used : ℕ

pub data NoticeKind : Type 0 where
  applied approved rejected processing : NoticeKind

pub record Notice : Type 0 where
  pub to : ℕ
  pub kind : NoticeKind
  pub type : RequestType
  pub related_entity_id : ℕ

-- status IN ('pending', 'approved')
abbrev pub is_active : FlexStatus → Bool
is_active FlexStatus.pending = true
is_active FlexStatus.approved = true
is_active _ = false

abbrev pub is_pending : FlexStatus → Bool
is_pending FlexStatus.pending = true
is_pending _ = false

abbrev pub is_approved : FlexStatus → Bool
is_approved FlexStatus.approved = true
is_approved _ = false

-- status IN ('pending', 'processing', 'approved')
abbrev pub is_active_leave : LeaveStatus → Bool
is_active_leave LeaveStatus.pending = true
is_active_leave LeaveStatus.processing = true
is_active_leave LeaveStatus.approved = true
is_active_leave _ = false

abbrev pub wfh_booking : Wfh → Booking
wfh_booking w = record {
  id = w.id;
  employee_id = w.employee_id;
  tenant_id = w.tenant_id;
  start_date = w.start_date;
  end_date = w.end_date;
  is_active = is_active w.status;
}

abbrev pub overtime_booking : Overtime → Booking
overtime_booking o = record {
  id = o.id;
  employee_id = o.employee_id;
  tenant_id = o.tenant_id;
  start_date = o.start_date;
  end_date = o.end_date;
  is_active = is_active o.status;
}

abbrev pub leave_booking : Leave → Booking
leave_booking l = record {
  id = l.id;
  employee_id = l.employee_id;
  tenant_id = l.tenant_id;
  start_date = l.start_date;
  end_date = l.end_date;
  is_active = is_active_leave l.status;
}

abbrev pub leave_overlaps : ℕ → ℕ → ℕ → ℕ → Leave → Bool
leave_overlaps employee tenant start end l =
    (l.employee_id == employee)
    && (l.tenant_id == tenant)
    && is_active_leave l.status
    && leb l.start_date end
    && leb start l.end_date
