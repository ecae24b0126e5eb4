-- ===== src/Guards/Tenants.antt =====
-- src/common/guards/tenant.guard.ts and the lookup of src/common/guards/subscription.guard.ts: what a
-- request meets before the row of its tenant is judged. Tenant 0 is GLOBAL_SYSTEM_TENANT_ID.
use tgs_hrms.Base.{
  ℕ, ◌≡◌, refl, Bool, true, false, not, ◌&&◌, Option, none, some, List, [], ◌∷◌, arith, ◌==◌,
  if◌then◌else◌, find, Result, ok, err, unauthorized, payment_required, subscription_inactive,
  tenant_missing, tenant_inactive, Bool-cases, inl, inr,
}
use tgs_hrms.Guards.{SubscriptionStatus, evaluate}

-- what the guards read of a row of `tenants`
pub record TenantRow : Type 0 where
  pub id : ℕ
  pub is_active : Bool
  pub is_deleted : Bool
  pub subscription_status : SubscriptionStatus
  pub trial_ends_at : Option ℕ
  pub grace_period_ends_at : Option ℕ

unfoldable pub check_tenant : Option TenantRow → Result Bool
check_tenant none = err (unauthorized tenant_missing)
check_tenant (some r) =
    if r.is_deleted
    then err (unauthorized tenant_missing)
    else if r.is_active
    then ok true
    else err (unauthorized tenant_inactive)

unfoldable pub tenant_guard : Option ℕ → List TenantRow → Result Bool
tenant_guard none rows = ok false
tenant_guard (some tenant) rows =
    if tenant == 0 then ok true else check_tenant (find (λ r. r.id == tenant) rows)

-- let in, and whether the request is marked as one of the grace period
unfoldable pub mark : Result Bool → Result (Bool × Bool)
mark (ok grace) = ok (true, grace)
mark (err e) = err e

unfoldable pub check_subscription : ℕ → Option TenantRow → Result (Bool × Bool)
check_subscription now none = err (payment_required subscription_inactive)
check_subscription now (some r) =
    mark (evaluate r.subscription_status r.trial_ends_at r.grace_period_ends_at now)

unfoldable pub subscription_guard : Bool → Option ℕ → ℕ → List TenantRow → Result (Bool × Bool)
subscription_guard true tenant now rows = ok (true, false)
subscription_guard false none now rows = ok (false, false)
subscription_guard false (some tenant) now rows =
    if tenant == 0
    then ok (true, false)
    else check_subscription now (find (λ r. (r.id == tenant) && not r.is_deleted) rows)

find_live :
    (tenant : ℕ) (rows : List TenantRow) (r : TenantRow)
    → find (λ x. x.id == tenant) rows ≡ some r
    → r.is_deleted ≡ false
    → find (λ x. (x.id == tenant) && not x.is_deleted) rows ≡ some r
find_live tenant [] r h d = ground arith
find_live tenant (x ∷ rows) r h d = elim (Bool-cases (x.id == tenant)) [
  | inl e ↦ let same : some x ≡ some r = rw e at h in ground (arith, e, d, same)
  | inr e ↦ let later = rw e at h in rw e (find_live tenant rows r later d)
]

-- Where the tenant guard lets the user of a tenant other than the global one in, the subscription guard
-- looks at the row that the tenant guard has seen, which is active and not deleted.
pub guards_same_row :
    (tenant now : ℕ) (rows : List TenantRow) (r : TenantRow)
    → (tenant == 0) ≡ false
    → tenant_guard (some tenant) rows ≡ ok true
    → find (λ x. x.id == tenant) rows ≡ some r
    → ((r.is_active ≡ true) × (r.is_deleted ≡ false))
      × (subscription_guard false (some tenant) now rows
          ≡ mark (evaluate r.subscription_status r.trial_ends_at r.grace_period_ends_at now))
unfolding tenant_guard subscription_guard check_tenant check_subscription
guards_same_row tenant now rows r z h f =
    let passed : check_tenant (some r) ≡ ok true = rw (z, tenant_guard, f) at h in
    let active : r.is_active ≡ true = ground (arith, passed) in
    let live : r.is_deleted ≡ false = ground (arith, passed) in
    ((active, live), rw (z, subscription_guard, find_live tenant rows r f live) refl)
