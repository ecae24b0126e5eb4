-- ===== src/Tenancy/Atomic.antt =====
-- What a run in a tenant's context leaves alone.
use tgs_hrms.Base.{ℕ, ◌≡◌, refl, ◌≢◌, Bool, true, false, ok, err, Exec, Result, arith}
use tgs_hrms.Tenancy.{
  Database, Session, schema_of, open_session, close_session, run_in_tenant_context,
}

module _ {T W A : Type 0} where
  close_session-isolated :
      (provisioned : Bool) (tenant other : ℕ) (d : Database T W) (p : Result A × Session T W)
      → tenant ≢ other
      → schema_of true other (close_session provisioned tenant d p).1.schemas
        ≡ schema_of true other d.schemas
  close_session-isolated true tenant other d (ok a, s) h = ground arith
  close_session-isolated true tenant other d (err e, s) h = refl
  close_session-isolated false tenant other d (ok a, s) h = refl
  close_session-isolated false tenant other d (err e, s) h = refl

  -- Whatever a method of one tenant does, the schema of another tenant stays as it was.
  pub run_in_tenant_context_isolated :
      (provisioned : Bool) (tenant other : ℕ) (work : Exec (Session T W) A) (d : Database T W)
      → tenant ≢ other
      → schema_of true other (run_in_tenant_context provisioned tenant work d).1.schemas
        ≡ schema_of true other d.schemas
  unfolding run_in_tenant_context
  run_in_tenant_context_isolated provisioned tenant other work d h =
      close_session-isolated provisioned tenant other d (work (open_session provisioned tenant d)) h

  -- A method of a tenant without a schema of its own keeps its writes even where it throws.
  pub run_in_tenant_context_keeps_writes :
      (tenant : ℕ) (work : Exec (Session T W) A) (d : Database T W)
      → (run_in_tenant_context false tenant work d).1.schemas.public_schema
        ≡ (work (open_session false tenant d)).1.tables
  unfolding run_in_tenant_context
  run_in_tenant_context_keeps_writes tenant work d =
      close_session-keeps (work (open_session false tenant d))
    where
      close_session-keeps :
          (p : Result A × Session T W)
          → (close_session false tenant d p).1.schemas.public_schema ≡ p.1.tables
      close_session-keeps (ok a, s) = refl
      close_session-keeps (err e, s) = refl

  close_session-commits :
      (provisioned : Bool) (tenant : ℕ) (d : Database T W) (p : Result A × Session T W) {a : A}
      → (close_session provisioned tenant d p).0 ≡ ok a
      → (p.0 ≡ ok a)
        × (schema_of provisioned tenant (close_session provisioned tenant d p).1.schemas
            ≡ p.1.tables)
  close_session-commits true tenant d (ok a, s) h = (h, ground arith)
  close_session-commits true tenant d (err e, s) h = ground arith
  close_session-commits false tenant d (ok a, s) h = (h, refl)
  close_session-commits false tenant d (err e, s) h = ground arith

  -- A method that returns in a tenant's context has returned the same from its work, and the tenant's
  -- tables are those that the work left.
  pub run_in_tenant_context_commits :
      (provisioned : Bool) (tenant : ℕ) (work : Exec (Session T W) A) (d : Database T W) {a : A}
      → (run_in_tenant_context provisioned tenant work d).0 ≡ ok a
      → ((work (open_session provisioned tenant d)).0 ≡ ok a)
        × (schema_of provisioned tenant (run_in_tenant_context provisioned tenant work d).1.schemas
            ≡ (work (open_session provisioned tenant d)).1.tables)
  unfolding run_in_tenant_context
  run_in_tenant_context_commits provisioned tenant work d h =
      close_session-commits provisioned tenant d (work (open_session provisioned tenant d)) h
