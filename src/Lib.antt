-- ===== src/Lib.antt =====
-- The requests and the working time of a human resources server, tgs-hrms: who may take leave, work at
-- home or work overtime, how such a request is approved and charged, and how presence is recorded.
--
-- The program is a NestJS server with one service per module and a PostgreSQL database. A provisioned
-- tenant has a schema of its own, in which a method runs in a transaction; the others share the public
-- schema. The services for leave, work from home and overtime store a request and ask the workflow
-- service for an approval, which is a list of steps that users of certain roles sign one after another.
-- When the last step is signed, or one is declined, the workflow service emits an event, and a listener
-- of the requesting service sets the status of its row.
--
-- Base: comparisons, lists, stable sorting, texts, exceptions and state. A method is a function from the
-- state to its result and the new state; the state comes back after an exception too.
-- Tenancy: src/common/services/tenant-database.service.ts and the `runInTenantContext` of every service.
-- The tables of a session are rolled back by an exception, what lies outside of it is not. Tenancy.Names
-- has getSchemaName with its patterns.
-- Workflow: src/modules/workflow/workflow.service.ts, its entities, constants and events. Workflow.Config
-- has the methods for the configured steps (addWorkflowConfigStep is add_workflow_config_step, and so
-- on), Workflow.Request those for requests: create_workflow_request, act_on_current_step,
-- cancel_workflow_request. Workflow.Request.Reach has these three as a step relation.
-- Calendar: parseISOWeek and isoWeeksInYear of the workflow service, findWeekdayInRange of the overtime
-- service, calculateWorkingDays of the leave service, and the years of a Date. A day is a number, 0 for
-- 1 January of the year 0.
-- Bookings: the overlap query that the services share, and what it establishes.
-- Flex: the rows of leaves, work from home and overtime, and what their services have in common: the
-- calls of the workflow service, the notifications and the storage.
-- Wfh: src/modules/wfh/wfh.service.ts and its listener. Overtime: src/modules/overtime/overtime.service.ts
-- with the edits in Overtime.Edits, the attachments and the listener in Overtime.Events.
-- Leave: src/modules/leave/leave.service.ts and its listener: createLeave and deductLeaveBalance in
-- Leave, approveLeave, rejectLeave and addManagerRemarks in Leave.Decide, cancelLeave,
-- removeLeaveDocument and editLeave in Leave.Edit, getMyBalances in Leave.Mine, the handlers in
-- Leave.Listener. Leave.Ledger is an
-- abstract step relation on leaves and balances; Leave.Balances, Leave.Final, Leave.Limits,
-- Leave.Approval and Leave.Gaps are about what the methods keep, let through and miss.
-- Settings: src/modules/tenant-settings/tenant-settings.service.ts, a cache before a table, and the
-- function from tenants and keys to values that it stands for.
-- IpWhitelist: src/modules/ip-whitelist/ip-whitelist.service.ts with its cache of 30 seconds,
-- src/common/utils/ip.util.ts and src/common/guards/ip-whitelist.guard.ts.
-- Auth: src/modules/auth/auth.service.ts, auth-token-cleanup.service.ts and strategies/jwt.strategy.ts:
-- refresh tokens and their sessions in Auth.Tokens, the logins in Auth.Login, of Google's users in
-- Auth.Login.Google, the test for mobile clients in Auth.Device, the change of an invitation at a login in
-- Auth.Joining, registration and
-- passwords in Auth.Password, and any sequence of these calls in Auth.Calls. The check of the address at
-- a login is that of IpWhitelist, the setting for mobile clients that of Settings.
-- Timesheet: startWork and endWork of src/modules/timesheet/timesheet.service.ts. Attendance: create,
-- approveCheckIn, disapproveCheckIn, approveAllCheckIns, disapproveAllCheckIns, verifyTeamMember and calculateTotalWorkHours of
-- src/modules/attendance/attendance.service.ts.
-- Guards: roles.guard.ts, permissions.guard.ts, subscription.guard.ts and tenant.guard.ts in
-- src/common/guards, the last two on the rows of the tenants.
-- Tests: runs on concrete data, and the theorems at such data.
--
-- Rows, users and tenants are numbers, for they are only compared. A row gets the next number, as the
-- database gives it a fresh identifier. A table is a list of rows in the order of insertion; `findOne`
-- is the first match. A column of type date is read back as text, as TypeORM reads it, whatever the
-- entities declare; a row has the number of its day, and a method of Date that is called on the text
-- throws (Wfh.check_edit, Overtime.Edits.plan_edit). A date string names a whole UTC day. Hours are in hundredths. Validation of the request bodies is not
-- modelled, so the theorems hold for bodies that it would refuse as well. `toLowerCase` is that of
-- ASCII.
--
-- The loop of findWeekdayInRange takes as fuel the number of days from its start to its end, and
-- find_weekday_in_range_first shows that this is enough: the result is right without a condition. The
-- loop of calculateWorkingDays does the same, and that of verifyTeamMember takes the number of pages.
-- The server's local time is UTC, as the container of a Node server has it, for the leave service sets
-- hours in local time.
--
-- Code that is not in the repository is a parameter: the upload of documents (`upload`, none where it
-- throws), the comparison of stored objects (`same_object`), and bcrypt, crypto and JwtService (the
-- record `Crypto`; a random value is the next of a row of draws). The queries on
-- users, teams and geofences are parameters too, and so are the settings of a tenant where a request
-- reads them. Two requests that run at the same time are not
-- modelled; nor is a failure of the database, so the `catch` of writeAudit is never taken; nor are the
-- methods that only read, but for getMyBalances, the notification of the next approvers (markStepApproved), nor the deletion of
-- a stored object.
--
-- The guard for features and the remaining modules are not modelled.
pub mod Base
pub mod Tenancy
pub mod Workflow
pub mod Calendar
pub mod Bookings
pub mod Flex
pub mod Wfh
pub mod Overtime
pub mod Guards
pub mod Leave
pub mod Settings
pub mod IpWhitelist
pub mod Auth
pub mod Timesheet
pub mod Attendance
pub mod Tests
