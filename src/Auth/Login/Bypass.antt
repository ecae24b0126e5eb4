-- ===== src/Auth/Login/Bypass.antt =====
-- Who is let in besides: the converse of Checks, and the login with Google.
use tgs_hrms.Base.{
  ap, ◌∙◌, sym, ℕ, ◌≡◌, refl, Text, lower, true, false, not, ◌&&◌, Option, none, some, List, [],
  ◌∷◌, find, arith, Result, ok, check-pass, bind-pass, or_throw-pass, throw_unless-pass,
  or_throw-state, throw_unless-state, unauthorized, forbidden, role_missing, email_unverified,
  Bool-cases, inl, inr, ◌⊎◌, or_throw, throw_unless, ◌>>◌,
}
use mathlib.Core.Path.{subst}
use tgs_hrms.Settings.{get_boolean}
use tgs_hrms.Auth.{
  User, Accounts, Crypto, clock, login_role, is_system_admin_role, is_gone, is_suspended,
  find_tenant, check_tenant_account, find_employee, is_deactivated, check_employee,
}
use tgs_hrms.Auth.Tokens.Rotation.{check_tenant_account-state, check_employee-state}
use tgs_hrms.Auth.Device.{LoginRequest, is_mobile_request}
use tgs_hrms.Auth.Login.{
  LoginSession, LoginOutcome, signed_in, is_locked, is_login_exempt, mobile_login, check_password,
  clear_failures, check_address, check_tenant_rules, tenant_rules, finish_login, admit_user,
  login_as, complete_login, login_among, users_of, validate_user, start_session, login_answer,
  access_token,
}
use tgs_hrms.Auth.Login.Google.{google_login, google_as, google_answer, finish_google}
use tgs_hrms.Auth.Login.Checks.{after_clear}
use tgs_hrms.Auth.Login.Rules.{IsAddressOk, IsWithinRules, asked, tenant_rules-IsFramed, MaySignIn}

check_tenant_account_pass :
    (u : User) (role : Text) (s : Accounts)
    → (is_system_admin_role role ≡ true)
      ⊎ ((is_gone (find_tenant u.tenant_id s.tenants) ≡ false)
          × (is_suspended (find_tenant u.tenant_id s.tenants) ≡ false))
    → (check_tenant_account u role s).0 ≡ ok tt
unfolding check_tenant_account
check_tenant_account_pass u role s (inl e) = rw (e, check_tenant_account) refl
check_tenant_account_pass u role s (inr (g, h)) = elim (Bool-cases (is_system_admin_role role)) [
  | inl e ↦ rw (e, check_tenant_account) refl
  | inr e ↦ rw (e, check_tenant_account, g, h) refl
]

check_address_pass :
    (tenant : ℕ) (role : Text) (ip : Option Text) (s : Accounts)
    → IsAddressOk tenant role ip s.whitelist
    → (check_address tenant role ip s).0 ≡ ok tt
unfolding check_address
check_address_pass tenant role none s h = refl
check_address_pass tenant role (some []) s h = refl
check_address_pass tenant role (some (x ∷ ip)) s (inl e) = rw (e, check_address) refl
check_address_pass tenant role (some (x ∷ ip)) s (inr f) =
    elim (Bool-cases (is_login_exempt role)) [
      | inl e ↦ rw (e, check_address) refl
      | inr e ↦ rw (e, f, check_address) refl
    ]

check_tenant_rules_pass :
    (r : LoginRequest) (u : User) (role : Text) (s : Accounts)
    → IsWithinRules r u role s.whitelist
    → (check_tenant_rules r u role s).0 ≡ ok tt
unfolding check_tenant_rules
check_tenant_rules_pass r u role s (m, a) =
    let enabled = (get_boolean u.tenant_id mobile_login s.whitelist.settings).0 in
    let test = is_mobile_request r && not enabled && not (is_login_exempt role) in
    let z = asked u.tenant_id s in
    let free : test ≡ false = ground (arith, m) in
    rw free (check_address_pass u.tenant_id role r.ip_address z a)

tenant_rules_pass :
    (r : LoginRequest) (u : User) (role : Text) (s : Accounts)
    → (is_system_admin_role role ≡ true) ⊎ IsWithinRules r u role s.whitelist
    → (tenant_rules r u role s).0 ≡ ok tt
tenant_rules_pass r u role s (inl e) = rw e refl
tenant_rules_pass r u role s (inr h) = elim (Bool-cases (is_system_admin_role role)) [
  | inl e ↦ rw e refl
  | inr e ↦ rw e (check_tenant_rules_pass r u role s h)
]

check_employee_pass :
    (u : User) (s : Accounts)
    → is_deactivated (find_employee u.id s.employees) ≡ false
    → (check_employee u s).0 ≡ ok tt
unfolding check_employee
check_employee_pass u s h = rw (h, check_employee) refl

abbrev Within : LoginRequest → User → Text → Accounts → Type 0
Within r u role s =
    (is_system_admin_role role ≡ true)
    ⊎ ((is_gone (find_tenant u.tenant_id s.tenants) ≡ false)
        × (is_suspended (find_tenant u.tenant_id s.tenants) ≡ false)
        × IsWithinRules r u role s.whitelist)

in_tenant :
    (r : LoginRequest) (u : User) (role : Text) (s : Accounts)
    → Within r u role s
    → (is_system_admin_role role ≡ true)
      ⊎ ((is_gone (find_tenant u.tenant_id s.tenants) ≡ false)
          × (is_suspended (find_tenant u.tenant_id s.tenants) ≡ false))
in_tenant r u role s (inl e) = inl e
in_tenant r u role s (inr (g, h, w)) = inr (g, h)

in_rules :
    (r : LoginRequest) (u : User) (role : Text) (s : Accounts)
    → Within r u role s
    → (is_system_admin_role role ≡ true) ⊎ IsWithinRules r u role s.whitelist
in_rules r u role s (inl e) = inl e
in_rules r u role s (inr (g, h, w)) = inr w

-- the call opens a session of the user
abbrev pub SignsIn : User → Result LoginOutcome → Type 0
SignsIn u r = (l : LoginSession) × (r ≡ ok (signed_in l)) × (l.user ≡ u)

finish_login-SignsIn :
    (c : Crypto) (r : LoginRequest) (u : User) (role : Text) (s : Accounts)
    → SignsIn u (finish_login c r u role s).0
unfolding finish_login start_session
finish_login-SignsIn c r u role s = (
  login_answer r u role s
      (access_token u role s.draws (is_mobile_request r), c.sign_refresh u.id s.draws),
  refl,
  refl,
)

admit_user-SignsIn :
    (c : Crypto) (r : LoginRequest) (u : User) (role : Text) (s : Accounts)
    → Within r u role s
    → is_deactivated (find_employee u.id s.employees) ≡ false
    → SignsIn u (admit_user c r u role s).0
unfolding admit_user
admit_user-SignsIn c r u role s w a =
    let z = (tenant_rules r u role s).1 in
    let same : z.employees ≡ s.employees =
      ap (λ y. y.employees) (tenant_rules-IsFramed r u role s) in
    let active : is_deactivated (find_employee u.id z.employees) ≡ false =
      ap (λ l. is_deactivated (find_employee u.id l)) same ∙ a in
    let tenant =
      check-pass (check_tenant_account u role)
        (λ _. tenant_rules r u role >> (check_employee u >> finish_login c r u role)) s tt
        (check_tenant_account_pass u role s (in_tenant r u role s w))
        (check_tenant_account-state u role s) in
    let rules =
      bind-pass (tenant_rules r u role) (λ _. check_employee u >> finish_login c r u role) s tt
        (tenant_rules_pass r u role s (in_rules r u role s w)) in
    let employee =
      check-pass (check_employee u) (λ _. finish_login c r u role) z tt
        (check_employee_pass u z active) (check_employee-state u z) in
    subst (λ y. SignsIn u y.0) (sym (tenant ∙ rules ∙ employee)) (finish_login-SignsIn c r u role z)

complete_login-SignsIn :
    (c : Crypto) (r : LoginRequest) (u : User) (s : Accounts)
    → MaySignIn r u s
    → SignsIn u (complete_login c r u s).0
unfolding complete_login login_as clear_failures
complete_login-SignsIn c r u s may =
    let z = after_clear u s in
    let named : login_role u z ≡ some may.role = may.named in
    let verified =
      check-pass (throw_unless u.email_verified (forbidden email_unverified)) (λ _. login_as c r u)
        s tt (throw_unless-pass u.email_verified (forbidden email_unverified) s may.verified)
        (throw_unless-state u.email_verified (forbidden email_unverified) s) in
    let role =
      check-pass (or_throw (login_role u z) (unauthorized role_missing)) (admit_user c r u) z
        may.role (or_throw-pass (login_role u z) (unauthorized role_missing) z may.role named)
        (or_throw-state (login_role u z) (unauthorized role_missing) z) in
    subst (λ y. SignsIn u y.0) (sym (verified ∙ role))
      (admit_user-SignsIn c r u may.role z may.within may.active)

-- If the first account of the email is not locked, and the first one whose password matches meets the
-- conditions of validate_user_lem, then the login opens a session of that account. Nothing else is looked
-- at; in particular not whether its employee is deactivated in the schema of a provisioned tenant.
pub validate_user-SignsIn :
    (c : Crypto) (r : LoginRequest) (s : Accounts) (candidate u : User) (users : List User)
    → users_of (lower r.email) s ≡ candidate ∷ users
    → is_locked (clock s) candidate ≡ false
    → find (λ u. c.matches r.password u.password) (candidate ∷ users) ≡ some u
    → MaySignIn r u s
    → SignsIn u (validate_user c r s).0
unfolding validate_user login_among check_password
validate_user-SignsIn c r s candidate u users e open_ found may =
    rw (e, open_, found) (complete_login-SignsIn c r u s may)

-- the call opens a session of the user, with the next identifier
abbrev pub GoogleSignsIn : User → Accounts → Result LoginSession → Type 0
GoogleSignsIn u s r = (l : LoginSession) × (r ≡ ok l) × (l.user ≡ u) × (l.access.sid ≡ some s.draws)

finish_google-GoogleSignsIn :
    (c : Crypto) (platform device ip : Option Text) (u : User) (role : Text) (s : Accounts)
    → GoogleSignsIn u s (finish_google c platform device ip u role s).0
unfolding finish_google start_session
finish_google-GoogleSignsIn c platform device ip u role s = (
  google_answer u role s (access_token u role s.draws false, c.sign_refresh u.id s.draws),
  refl,
  refl,
  refl,
)

-- A token of Google's for an email signs its first account in, if that has a role, a tenant in order and no
-- deactivated employee in the public schema: locked, not verified, from whatever address or device.
pub google_login-returns :
    (c : Crypto) (x : ℕ) (email : Text) (platform device ip : Option Text) (s : Accounts) (u : User)
    (users : List User) (role : Text)
    → users_of (lower (x ∷ email)) s ≡ u ∷ users
    → login_role u s ≡ some role
    → (is_system_admin_role role ≡ true)
      ⊎ ((is_gone (find_tenant u.tenant_id s.tenants) ≡ false)
          × (is_suspended (find_tenant u.tenant_id s.tenants) ≡ false))
    → is_deactivated (find_employee u.id s.employees) ≡ false
    → GoogleSignsIn u s (google_login c (some (x ∷ email)) platform device ip s).0
unfolding google_login google_as
google_login-returns c x email platform device ip s u users role e named w a =
    let found =
      check-pass (or_throw (login_role u s) (unauthorized role_missing))
        (λ role.
          check_tenant_account u role
          >> (check_employee u >> finish_google c platform device ip u role))
        s role (or_throw-pass (login_role u s) (unauthorized role_missing) s role named)
        (or_throw-state (login_role u s) (unauthorized role_missing) s) in
    let tenant =
      check-pass (check_tenant_account u role)
        (λ _. check_employee u >> finish_google c platform device ip u role) s tt
        (check_tenant_account_pass u role s w) (check_tenant_account-state u role s) in
    let employee =
      check-pass (check_employee u) (λ _. finish_google c platform device ip u role) s tt
        (check_employee_pass u s a) (check_employee-state u s) in
    rw e (
      subst (λ y. GoogleSignsIn u s y.0) (sym (found ∙ tenant ∙ employee))
        (finish_google-GoogleSignsIn c platform device ip u role s))
