-- ===== src/Auth/Login.antt =====
-- validateUser of the auth service. The permissions in the answers, which are read from another table,
-- and the logs are left out.
pub mod Checks
pub mod Lockout
pub mod Bypass
pub mod Google
pub mod Rules
use tgs_hrms.Base.{
  ℕ, suc, ◌+◌, ◌*◌, Text, codes, text_eq, lower, Bool, true, false, not, ◌&&◌, ◌||◌, Option, none,
  some, List, [], ◌∷◌, map, keep, find, any, ◌==◌, leb, ltb, if◌then◌else◌, Exec, Error, ok,
  unauthorized, bad_request, forbidden, email_missing, wrong_password, account_locked,
  too_many_failures, email_unverified, role_missing, mobile_disabled, login_ip, google_token,
  no_account, user_missing, pure, gets, throw, or_throw, throw_if, throw_unless, modify, ◌>>=◌,
  ◌>>◌,
}
use tgs_hrms.Settings.{get_boolean}
use tgs_hrms.IpWhitelist.{is_ip_whitelisted}
use tgs_hrms.Auth.{
  User, Employee, InviteStatus, SignupSession, Company, Accounts, Crypto, AccessToken, clock, draw,
  update_user, login_role, is_system_admin_role, tenant_of, check_tenant_account, find_employee,
  check_employee, new_token, insert_token,
}
use tgs_hrms.Auth.Device.{LoginRequest, is_mobile_request}
use tgs_hrms.Auth.Joining.{update_invite_status}

pub record LoginSession : Type 0 where
  pub access : AccessToken
  pub refresh : Text
  pub user : User
  pub employee : Option Employee
  pub requires_payment : Bool
  pub session_id : Option ℕ

pub data LoginOutcome : Type 0 where
  resumed : (signup : ℕ) → LoginOutcome
  signed_in : LoginSession → LoginOutcome

abbrev pub is_after : Option ℕ → ℕ → Bool
is_after none now = false
is_after (some t) now = ltb now t

abbrev pub is_locked : ℕ → User → Bool
is_locked now u = is_after u.locked_until now

-- the update after a wrong password, which locks from the fifth failure on
abbrev pub failed : ℕ → ℕ → User → User
failed now attempts u =
    if leb 5 attempts
    then record u { failed_login_attempts = attempts; locked_until = some (now + 15 * 60000) }
    else record u { failed_login_attempts = attempts }

abbrev pub refusal : ℕ → Error
refusal attempts = bad_request (if leb 5 attempts then too_many_failures else wrong_password)

-- the row that is written when no password matches: that of the first account of the email
unfoldable pub reject_password : User → Exec Accounts User
reject_password u = do
  now ← gets clock
  modify (update_user u.id (failed now (u.failed_login_attempts + 1)))
  throw (refusal (u.failed_login_attempts + 1))

-- the first account of the email whose password matches
unfoldable pub check_password : Option User → User → Exec Accounts User
check_password none candidate = reject_password candidate
check_password (some u) candidate = pure u

abbrev pub cleared : User → User
cleared u = record u { failed_login_attempts = 0; locked_until = none }

abbrev pub has_failures : User → Bool
has_failures u =
    ltb 0 u.failed_login_attempts || elim u.locked_until [ none ↦ false | some _ ↦ true ]

unfoldable pub clear_failures : User → Exec Accounts (Unit {0})
clear_failures u = modify (λ s. record s {
  users = if has_failures u then (update_user u.id cleared s).users else s.users;
})

-- `exemptRoles` of the mobile check, and those of the check of the address
abbrev pub is_login_exempt : Text → Bool
is_login_exempt role =
    text_eq (lower role) (codes "admin") || text_eq (lower role) (codes "system-admin")

abbrev pub mobile_login : Text
mobile_login = codes "mobile_login_enabled"

-- the setting, whose lookup may fill the cache
abbrev pub ask_setting : ℕ → Text → Exec Accounts Bool
ask_setting tenant key s =
    let (v, settings) = get_boolean tenant key s.whitelist.settings in
    pure v (record s { whitelist = record (s.whitelist) { settings = settings } })

abbrev pub ask_whitelist : ℕ → Text → Exec Accounts Bool
ask_whitelist tenant ip s =
    let (v, whitelist) = is_ip_whitelisted tenant ip s.whitelist in
    pure v (record s { whitelist = whitelist })

-- an address that is missing or empty is not checked
unfoldable pub check_address : ℕ → Text → Option Text → Exec Accounts (Unit {0})
check_address tenant role none = pure tt
check_address tenant role (some []) = pure tt
check_address tenant role (some (x ∷ ip)) =
    if is_login_exempt role
    then pure tt
    else (do listed ← ask_whitelist tenant (x ∷ ip); throw_unless listed (forbidden login_ip))

-- what a user who is no system administrator has to pass
unfoldable pub check_tenant_rules : LoginRequest → User → Text → Exec Accounts (Unit {0})
check_tenant_rules r u role = do
  enabled ← ask_setting u.tenant_id mobile_login
  throw_if (is_mobile_request r && not enabled && not (is_login_exempt role))
      (forbidden mobile_disabled)
  check_address u.tenant_id role r.ip_address

abbrev pub tenant_rules : LoginRequest → User → Text → Exec Accounts (Unit {0})
tenant_rules r u role = if is_system_admin_role role then pure tt else check_tenant_rules r u role

abbrev pub is_never : Option ℕ → Bool
is_never none = true
is_never (some t) = false

-- the time of the first login
unfoldable pub note_login : User → Accounts → Accounts
note_login u s =
    if is_never u.first_login_time
    then update_user u.id (λ x. record x { first_login_time = some (clock s) }) s
    else s

abbrev pub must_pay : Option Company → Bool
must_pay none = false
must_pay (some c) = not c.is_paid

abbrev pub find_company : ℕ → List Company → Option Company
find_company tenant companies = find (λ c. c.tenant_id == tenant) companies

abbrev pub id_of : Option SignupSession → Option ℕ
id_of none = none
id_of (some s) = some s.id

-- the access token of a session
abbrev pub access_token : User → Text → ℕ → Bool → AccessToken
access_token u role jti is_mobile = record {
  sub = u.id;
  sid = some jti;
  tenant_id = tenant_of u role;
  role = lower role;
  is_mobile = is_mobile;
}

-- `createUserTokenRecord` and the two tokens
unfoldable pub start_session :
    Crypto
    → User
    → Text
    → Option Text
    → Option Text
    → Option Text
    → Bool
    → Exec Accounts (AccessToken × Text)
start_session c u role platform device ip is_mobile s =
    let jti = s.draws in
    (
      ok (access_token u role jti is_mobile, c.sign_refresh u.id jti),
      record (insert_token (new_token u.id jti platform device ip (clock s)) s) {
        draws = s.draws + 1;
      },
    )

-- the answer of a login
abbrev pub login_answer : LoginRequest → User → Text → Accounts → AccessToken × Text → LoginSession
login_answer r u role s (access, refresh) = record {
  access = access;
  refresh = refresh;
  user = u;
  employee = find_employee u.id s.employees;
  requires_payment = must_pay (find_company (tenant_of u role) s.companies);
  session_id = id_of (find (λ x. text_eq x.email (lower r.email)) s.signups);
}

-- the new session, and what is noted of the login
unfoldable pub finish_login : Crypto → LoginRequest → User → Text → Exec Accounts LoginOutcome
finish_login c r u role = do
  s ← gets (λ s. s)
  tokens ← start_session c u role r.platform r.device_info r.ip_address (is_mobile_request r)
  modify (note_login u)
  modify (update_invite_status u.id)
  pure (signed_in (login_answer r u role s tokens))

unfoldable pub admit_user : Crypto → LoginRequest → User → Text → Exec Accounts LoginOutcome
admit_user c r u role = do
  check_tenant_account u role
  tenant_rules r u role
  check_employee u
  finish_login c r u role

unfoldable pub login_as : Crypto → LoginRequest → User → Exec Accounts LoginOutcome
login_as c r u = do
  clear_failures u
  role_name ← gets (login_role u)
  role ← or_throw role_name (unauthorized role_missing)
  admit_user c r u role

-- the login of an account whose password matched
unfoldable pub complete_login : Crypto → LoginRequest → User → Exec Accounts LoginOutcome
complete_login c r u = do throw_unless u.email_verified (forbidden email_unverified); login_as c r u

-- an email without an account, whose signup may be under way
unfoldable pub resume_signup : Crypto → LoginRequest → Exec Accounts LoginOutcome
resume_signup c r = do
  signups ← gets (λ s. s.signups)
  x ← or_throw (find (λ x. text_eq x.email (lower r.email)) signups) (bad_request email_missing)
  throw_unless (c.matches r.password x.password_hash) (bad_request wrong_password)
  pure (resumed x.id)

unfoldable pub login_among : Crypto → LoginRequest → List User → Exec Accounts LoginOutcome
login_among c r [] = resume_signup c r
login_among c r (candidate ∷ users) = do
  now ← gets clock
  throw_if (is_locked now candidate) (bad_request account_locked)
  u ← check_password (find (λ u. c.matches r.password u.password) (candidate ∷ users)) candidate
  complete_login c r u

abbrev pub users_of : Text → Accounts → List User
users_of email s = keep (λ u. text_eq u.email email) s.users

unfoldable pub validate_user : Crypto → LoginRequest → Exec Accounts LoginOutcome
validate_user c r = do users ← gets (users_of (lower r.email)); login_among c r users
