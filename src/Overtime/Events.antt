-- ===== src/Overtime/Events.antt =====
-- removeAttachment and the marks of a finished workflow in src/modules/overtime/overtime.service.ts,
-- with src/modules/overtime/listeners/workflow.listener.ts.
use tgs_hrms.Base.{
  ℕ, Text, none, some, if◌then◌else◌, Exec, bad_request, attachment_missing, pure, gets, lift,
  or_throw, modify, ◌>>=◌, ◌>>◌,
}
use tgs_hrms.Tenancy.{Database}
use tgs_hrms.Workflow.{overtime, WorkflowCompletedEvent, type_eq}
use tgs_hrms.Flex.{
  FlexStatus, Overtime, NoticeKind, World, RequestTables, FlexSession, notify, drop_first,
  in_tenant,
}
use tgs_hrms.Overtime.{save_overtime, find_request, own_pending_overtime}

unfoldable pub remove_overtime_attachment_work : ℕ → ℕ → ℕ → Text → Exec FlexSession Overtime
remove_overtime_attachment_work id employee tenant url = do
  rows ← gets (λ s. s.tables.overtime_requests)
  o ← lift (own_pending_overtime id employee tenant rows)
  world ← gets (λ s. s.outside)
  left ←
      or_throw (drop_first (λ a. world.same_object a url) o.attachments)
        (bad_request attachment_missing)
  let saved : Overtime = record o { attachments = left }
  modify (save_overtime saved)
  pure saved

unfoldable pub remove_overtime_attachment :
    ℕ → ℕ → ℕ → Text → Exec (Database RequestTables World) Overtime
remove_overtime_attachment id employee tenant url =
    in_tenant tenant (remove_overtime_attachment_work id employee tenant url)

unfoldable pub mark_overtime : ℕ → ℕ → FlexStatus → FlexSession → FlexSession
mark_overtime id tenant status s = elim (find_request id tenant s.tables.overtime_requests) [
  | none ↦ s
  | some o ↦ save_overtime (record o { status = status }) s
]

abbrev pub told_overtime : ℕ → ℕ → NoticeKind → FlexSession → FlexSession
told_overtime id requestor kind =
    notify (record { to = requestor; kind = kind; type = overtime; related_entity_id = id })

unfoldable pub mark_overtime_approved : ℕ → ℕ → ℕ → FlexSession → FlexSession
unfolding mark_overtime
mark_overtime_approved id tenant requestor s =
    told_overtime id requestor NoticeKind.approved (mark_overtime id tenant FlexStatus.approved s)

unfoldable pub mark_overtime_rejected : ℕ → ℕ → ℕ → FlexSession → FlexSession
unfolding mark_overtime
mark_overtime_rejected id tenant requestor s =
    told_overtime id requestor NoticeKind.rejected (mark_overtime id tenant FlexStatus.rejected s)

-- src/modules/overtime/listeners/workflow.listener.ts, for the events that end a workflow
unfoldable pub handle_overtime_approved : WorkflowCompletedEvent → FlexSession → FlexSession
unfolding mark_overtime_approved
handle_overtime_approved e s =
    if type_eq e.request_type overtime
    then mark_overtime_approved e.related_entity_id e.tenant_id e.requestor_id s
    else s

unfoldable pub handle_overtime_rejected : WorkflowCompletedEvent → FlexSession → FlexSession
unfolding mark_overtime_rejected
handle_overtime_rejected e s =
    if type_eq e.request_type overtime
    then mark_overtime_rejected e.related_entity_id e.tenant_id e.requestor_id s
    else s
