-- ===== src/Guards.antt =====
-- src/common/guards: who is let in to a route. The routes' decorators are arguments: `is_public` of
-- @Public, and the list of @Roles or @Permissions, empty where the route has none. Moments are
-- milliseconds. Logging is left out.
pub mod Access
pub mod Tenants
use tgs_hrms.Base.{
  ℕ, Text, Bool, true, false, ◌&&◌, ◌||◌, Option, none, some, List, [], ◌∷◌, map, ◌==◌, ltb,
  if◌then◌else◌, any, text_eq, lower, codes, Result, ok, err, payment_required, forbidden,
  subscription_inactive, missing_permission,
}

-- `xs.includes(x)`
abbrev pub includes : Text → List Text → Bool
includes x xs = any (λ y. text_eq x y) xs

-- `(s ?? '')`
abbrev pub or_empty : Option Text → Text
or_empty none = []
or_empty (some s) = s

abbrev pub system_admin : Text
system_admin = codes "system-admin"

-- `isAdminEquivalent` of the roles guard
unfoldable pub is_admin_equivalent : Text → Bool
is_admin_equivalent role =
    text_eq role (codes "admin")
    || text_eq role system_admin
    || text_eq role (codes "network-admin")
    || text_eq role (codes "hr-admin")

-- `length === 1 && [0] === 'system-admin'`
abbrev pub is_system_admin_only : List Text → Bool
is_system_admin_only (r ∷ []) = text_eq r system_admin
is_system_admin_only _ = false

-- the part of the roles guard behind its early returns
unfoldable pub match_roles : List Text → Text → Bool
match_roles required role =
    if is_system_admin_only required
    then text_eq role system_admin
    else if includes role required
    then true
    else any is_admin_equivalent required && is_admin_equivalent role

unfoldable pub roles_guard : Bool → List Text → Option Text → Bool
unfolding match_roles
roles_guard true required role = true
roles_guard false [] role = true
roles_guard false (r ∷ required) role =
    match_roles (map lower (r ∷ required)) (lower (or_empty role))

-- `isAdminEquivalent` of the permissions guard, without hr-admin
unfoldable pub has_all_permissions : Text → Bool
has_all_permissions role =
    text_eq role system_admin
    || text_eq role (codes "admin")
    || text_eq role (codes "network-admin")

unfoldable pub permissions_guard : List Text → Option Text → List Text → Result Bool
unfolding has_all_permissions
permissions_guard [] role granted = ok true
permissions_guard (p ∷ required) role granted =
    if has_all_permissions (lower (or_empty role))
      || any (λ q. includes (lower q) (map lower granted)) (p ∷ required)
    then ok true
    else err (forbidden missing_permission)

pub data SubscriptionStatus : Type 0 where
  trial active cancelled expired grace_period : SubscriptionStatus

-- `end && new Date(end) > now`
unfoldable pub is_ahead : Option ℕ → ℕ → Bool
is_ahead none now = false
is_ahead (some end) now = ltb now end

-- whether the request is marked as one of the grace period
unfoldable pub evaluate : SubscriptionStatus → Option ℕ → Option ℕ → ℕ → Result Bool
evaluate SubscriptionStatus.active trial_ends_at grace_ends_at now = ok false
evaluate SubscriptionStatus.trial trial_ends_at grace_ends_at now =
    if is_ahead trial_ends_at now then ok false else err (payment_required subscription_inactive)
evaluate SubscriptionStatus.grace_period trial_ends_at grace_ends_at now =
    if is_ahead grace_ends_at now then ok true else err (payment_required subscription_inactive)
evaluate SubscriptionStatus.cancelled trial_ends_at grace_ends_at now =
    err (payment_required subscription_inactive)
evaluate SubscriptionStatus.expired trial_ends_at grace_ends_at now =
    err (payment_required subscription_inactive)
