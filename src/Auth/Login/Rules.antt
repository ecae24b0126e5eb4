-- ===== src/Auth/Login/Rules.antt =====
-- The rules of the tenant that a login has to pass, and what asking them writes.
use tgs_hrms.Base.{
  ℕ, ◌≡◌, refl, Text, true, false, not, ◌&&◌, Option, none, some, [], ◌∷◌, arith, ok, check-keeps,
  check-ok, throw_if-ok, throw_if-state, forbidden, mobile_disabled, Bool-cases, inl, inr, ◌⊎◌,
  throw_if,
}
use tgs_hrms.Settings.{get_boolean}
use tgs_hrms.IpWhitelist.{Whitelist, is_ip_whitelisted}
use tgs_hrms.Auth.{
  User, Accounts, login_role, is_system_admin_role, is_gone, is_suspended, find_tenant,
  check_tenant_account, find_employee, is_deactivated, check_employee,
}
use tgs_hrms.Auth.Device.{LoginRequest, is_mobile_request}
use tgs_hrms.Auth.Login.{
  is_login_exempt, mobile_login, check_address, check_tenant_rules, tenant_rules,
}

-- no restriction of the tenant stands against the address
abbrev pub IsAddressOk : ℕ → Text → Option Text → Whitelist → Type 0
IsAddressOk tenant role none w = Unit
IsAddressOk tenant role (some []) w = Unit
IsAddressOk tenant role (some (x ∷ ip)) w =
    (is_login_exempt role ≡ true) ⊎ ((is_ip_whitelisted tenant (x ∷ ip) w).0 ≡ true)

-- what asking for the setting leaves
abbrev pub after_setting : ℕ → Whitelist → Whitelist
after_setting tenant w = record w { settings = (get_boolean tenant mobile_login w.settings).1 }

abbrev pub asked : ℕ → Accounts → Accounts
asked tenant s = record s { whitelist = after_setting tenant s.whitelist }

pub check_tenant_account_ok :
    (u : User) (role : Text) (s : Accounts)
    → (check_tenant_account u role s).0 ≡ ok tt
    → (is_system_admin_role role ≡ true)
      ⊎ ((is_gone (find_tenant u.tenant_id s.tenants) ≡ false)
          × (is_suspended (find_tenant u.tenant_id s.tenants) ≡ false))
unfolding check_tenant_account
check_tenant_account_ok u role s h = elim (Bool-cases (is_system_admin_role role)) [
  | inl e ↦ inl e
  | inr e ↦ inr (let passed = rw e at h in ground arith)
]

pub check_employee_ok :
    (u : User) (s : Accounts)
    → (check_employee u s).0 ≡ ok tt
    → is_deactivated (find_employee u.id s.employees) ≡ false
unfolding check_employee
check_employee_ok u s h = ground arith

check_address_ok :
    (tenant : ℕ) (role : Text) (ip : Option Text) (s : Accounts)
    → (check_address tenant role ip s).0 ≡ ok tt
    → IsAddressOk tenant role ip s.whitelist
unfolding check_address
check_address_ok tenant role none s h = tt
check_address_ok tenant role (some []) s h = tt
check_address_ok tenant role (some (x ∷ ip)) s h = elim (Bool-cases (is_login_exempt role)) [
  | inl e ↦ inl e
  | inr e ↦ elim (Bool-cases (is_ip_whitelisted tenant (x ∷ ip) s.whitelist).0) [
    | inl f ↦ inr f
    | inr f ↦ let refused = rw (e, f, check_address) at h in ground arith
  ]
]

-- the tests that a user passes who is no system administrator
abbrev pub IsWithinRules : LoginRequest → User → Text → Whitelist → Type 0
IsWithinRules r u role w =
    ((is_mobile_request r ≡ false)
      ⊎ ((get_boolean u.tenant_id mobile_login w.settings).0 ≡ true)
      ⊎ (is_login_exempt role ≡ true))
    × IsAddressOk u.tenant_id role r.ip_address (after_setting u.tenant_id w)

check_tenant_rules_ok :
    (r : LoginRequest) (u : User) (role : Text) (s : Accounts)
    → (check_tenant_rules r u role s).0 ≡ ok tt
    → IsWithinRules r u role s.whitelist
unfolding check_tenant_rules
check_tenant_rules_ok r u role s h =
    let enabled = (get_boolean u.tenant_id mobile_login s.whitelist.settings).0 in
    let test = is_mobile_request r && not enabled && not (is_login_exempt role) in
    let z = asked u.tenant_id s in
    let (x, a, h1, e1) =
      check-ok (throw_if test (forbidden mobile_disabled))
        (λ _. check_address u.tenant_id role r.ip_address) z
        (throw_if-state test (forbidden mobile_disabled) z) h in
    let passed = throw_if-ok test (forbidden mobile_disabled) z x a in
    (ground (arith, passed), check_address_ok u.tenant_id role r.ip_address z h1)

abbrev pub IsFramed : Accounts → Accounts → Type 0
IsFramed s z = z ≡ record s { whitelist = z.whitelist }

check_address-IsFramed :
    (tenant : ℕ) (role : Text) (ip : Option Text) (s : Accounts)
    → IsFramed s (check_address tenant role ip s).1
unfolding check_address
check_address-IsFramed tenant role none s = refl
check_address-IsFramed tenant role (some []) s = refl
check_address-IsFramed tenant role (some (x ∷ ip)) s = elim (Bool-cases (is_login_exempt role)) [
  | inl e ↦ rw (e, check_address) refl
  | inr e ↦ elim (Bool-cases (is_ip_whitelisted tenant (x ∷ ip) s.whitelist).0) [
    | inl f ↦ rw (e, f, check_address) refl
    | inr f ↦ rw (e, f, check_address) refl
  ]
]

check_tenant_rules-IsFramed :
    (r : LoginRequest) (u : User) (role : Text) (s : Accounts)
    → IsFramed s (check_tenant_rules r u role s).1
unfolding check_tenant_rules
check_tenant_rules-IsFramed r u role s =
    let enabled = (get_boolean u.tenant_id mobile_login s.whitelist.settings).0 in
    let test = is_mobile_request r && not enabled && not (is_login_exempt role) in
    let z = asked u.tenant_id s in
    check-keeps (IsFramed s) (throw_if test (forbidden mobile_disabled))
      (λ _. check_address u.tenant_id role r.ip_address) z
      (throw_if-state test (forbidden mobile_disabled) z) refl
      (λ _ _. check_address-IsFramed u.tenant_id role r.ip_address z)

-- asking the settings and the whitelist writes nothing but their caches
pub tenant_rules-IsFramed :
    (r : LoginRequest) (u : User) (role : Text) (s : Accounts)
    → IsFramed s (tenant_rules r u role s).1
tenant_rules-IsFramed r u role s = elim (Bool-cases (is_system_admin_role role)) [
  | inl e ↦ rw e refl
  | inr e ↦ rw e (check_tenant_rules-IsFramed r u role s)
]

-- what holds of a user whom a login lets in
pub record MaySignIn (r : LoginRequest) (u : User) (s : Accounts) : Type 0 where
  pub verified : u.email_verified ≡ true
  pub role : Text
  pub named : login_role u s ≡ some role
  pub within :
      (is_system_admin_role role ≡ true)
      ⊎ ((is_gone (find_tenant u.tenant_id s.tenants) ≡ false)
          × (is_suspended (find_tenant u.tenant_id s.tenants) ≡ false)
          × IsWithinRules r u role s.whitelist)
  pub active : is_deactivated (find_employee u.id s.employees) ≡ false

pub tenant_rules_ok :
    (r : LoginRequest) (u : User) (role : Text) (s : Accounts)
    → (tenant_rules r u role s).0 ≡ ok tt
    → (is_system_admin_role role ≡ true) ⊎ IsWithinRules r u role s.whitelist
tenant_rules_ok r u role s h = elim (Bool-cases (is_system_admin_role role)) [
  | inl e ↦ inl e
  | inr e ↦ inr (check_tenant_rules_ok r u role s (rw e at h))
]

pub both :
    (r : LoginRequest) (u : User) (role : Text) (s : Accounts)
    → (is_system_admin_role role ≡ true)
      ⊎ ((is_gone (find_tenant u.tenant_id s.tenants) ≡ false)
          × (is_suspended (find_tenant u.tenant_id s.tenants) ≡ false))
    → (is_system_admin_role role ≡ true) ⊎ IsWithinRules r u role s.whitelist
    → (is_system_admin_role role ≡ true)
      ⊎ ((is_gone (find_tenant u.tenant_id s.tenants) ≡ false)
          × (is_suspended (find_tenant u.tenant_id s.tenants) ≡ false)
          × IsWithinRules r u role s.whitelist)
both r u role s (inl e) k = inl e
both r u role s (inr h) (inl e) = inl e
both r u role s (inr (a, b)) (inr k) = inr (a, b, k)
