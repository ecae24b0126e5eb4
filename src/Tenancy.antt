-- ===== src/Tenancy.antt =====
-- `runInTenantContext`, which every service has, and `withTenantSchema` of
-- src/common/services/tenant-database.service.ts, which it calls.
--
-- The rows of a provisioned tenant lie in the tenant's own schema, and a method runs in a
-- transaction there; all other tenants share the public schema, where every write stays. `T` is
-- what the transaction covers, the tables of the service. `W` is what it does not cover: the
-- events that were emitted, and what a service called by this one commits by itself.
pub mod Atomic
pub mod Names
use tgs_hrms.Base.{ℕ, Bool, true, false, ok, err, Exec, Result, ◌==◌, if◌then◌else◌}

pub record Schemas (T : Type 0) : Type 0 where
  pub public_schema : T
  pub tenant_schema : ℕ → T

-- What a method sees while it runs.
pub record Session (T W : Type 0) : Type 0 where
  pub tables : T
  pub outside : W

pub record Database (T W : Type 0) : Type 0 where
  pub schemas : Schemas T
  pub outside : W

module _ {T : Type 0} where
  -- the tables that the search path of the tenant finds
  abbrev pub schema_of : Bool → ℕ → Schemas T → T
  schema_of true tenant d = d.tenant_schema tenant
  schema_of false tenant d = d.public_schema

  abbrev pub update : ℕ → T → (ℕ → T) → ℕ → T
  update k v f j = if k == j then v else f j

  abbrev pub put_schema : Bool → ℕ → T → Schemas T → Schemas T
  put_schema true tenant t d = record d { tenant_schema = update tenant t d.tenant_schema }
  put_schema false tenant t d = record d { public_schema = t }

module _ {T W : Type 0} where
  abbrev pub open_session : Bool → ℕ → Database T W → Session T W
  open_session provisioned tenant d = record {
    tables = schema_of provisioned tenant d.schemas;
    outside = d.outside;
  }

  -- `startTransaction` has kept the schemas as it found them, and `rollbackTransaction` puts them back
  abbrev pub rollback_transaction : Schemas T → Database T W → Database T W
  rollback_transaction before d = record d { schemas = before }

  -- what the work has written so far
  abbrev pub written : Bool → ℕ → Database T W → Session T W → Database T W
  written provisioned tenant d s = record {
    schemas = put_schema provisioned tenant s.tables d.schemas;
    outside = s.outside;
  }

module _ {T W A : Type 0} where
  -- commit, or roll back in the `catch`; without a schema of the tenant's there is no transaction
  abbrev pub close_session :
      Bool → ℕ → Database T W → Result A × Session T W → Result A × Database T W
  close_session true tenant d (err e, s) =
      (err e, rollback_transaction d.schemas (written true tenant d s))
  close_session provisioned tenant d (r, s) = (r, written provisioned tenant d s)

  unfoldable pub run_in_tenant_context : Bool → ℕ → Exec (Session T W) A → Exec (Database T W) A
  run_in_tenant_context provisioned tenant work d =
      close_session provisioned tenant d (work (open_session provisioned tenant d))
