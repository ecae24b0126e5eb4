-- ===== src/Auth.antt =====
-- src/modules/auth/auth.service.ts and src/modules/auth/strategies/jwt.strategy.ts: accounts, sessions and
-- who may sign in. Tenant 0 is GLOBAL_SYSTEM_TENANT_ID. Moments are milliseconds.
pub mod Tokens
pub mod Login
pub mod Password
pub mod Calls
pub mod Device
pub mod Joining
use tgs_hrms.Base.{
  ℕ, ◌+◌, ◌*◌, Text, codes, text_eq, lower, trim, Bool, true, false, not, ◌&&◌, ◌||◌, Option, none,
  some, List, [], ◌∷◌, ◌++◌, map, find, any, ◌==◌, if◌then◌else◌, Exec, Error, unauthorized,
  tenant_deleted, tenant_suspended, employee_deactivated, pure, gets, throw_if, modify, ◌>>=◌, ◌>>◌,
}
use tgs_hrms.IpWhitelist.{Whitelist}

-- src/entities/user.entity.ts: what the service reads and writes of an account
pub record User : Type 0 where
  pub id : ℕ
  pub email : Text
  pub password : Text
  pub role_id : ℕ
  pub tenant_id : ℕ
  pub first_login_time : Option ℕ
  pub reset_token : Option Text
  pub reset_token_expiry : Option ℕ
  pub email_verified : Bool
  pub email_verification_token : Option Text
  pub email_verification_expires_at : Option ℕ
  pub failed_login_attempts : ℕ
  pub locked_until : Option ℕ

pub record Role : Type 0 where
  pub id : ℕ
  pub name : Text

pub record TenantAccount : Type 0 where
  pub id : ℕ
  pub status : Text
  pub is_deleted : Bool

pub data InviteStatus : Type 0 where
  invite_sent invite_expired joined declined : InviteStatus

pub record Employee : Type 0 where
  pub id : ℕ
  pub user_id : ℕ
  pub invite_status : InviteStatus
  pub is_deleted : Bool

-- src/entities/user-token.entity.ts
pub record UserToken : Type 0 where
  pub id : ℕ
  pub user_id : ℕ
  pub platform : Option Text
  pub device_info : Option Text
  pub ip_address : Option Text
  pub expires_at : ℕ
  pub last_used_at : Option ℕ
  pub is_revoked : Bool
  pub created_at : ℕ

pub record SignupSession : Type 0 where
  pub id : ℕ
  pub email : Text
  pub password_hash : Text

pub record Company : Type 0 where
  pub tenant_id : ℕ
  pub is_paid : Bool

pub data Mail : Type 0 where
  verification reset_link : (email token : Text) → Mail
  reset_done : (email : Text) → Mail

-- `employees` is the table of the public schema, `tenant_employees` that of a provisioned tenant's. The
-- settings and the clock are those of the whitelist. `draws` counts what `crypto` has drawn at random.
pub record Accounts : Type 0 where
  pub users : List User
  pub roles : List Role
  pub tenants : List TenantAccount
  pub tokens : List UserToken
  pub provisioned : ℕ → Bool
  pub employees : List Employee
  pub tenant_employees : ℕ → List Employee
  pub signups : List SignupSession
  pub companies : List Company
  pub whitelist : Whitelist
  pub draws : ℕ
  pub mails : List Mail

pub record RefreshPayload : Type 0 where
  pub sub : ℕ
  pub jti : ℕ
  pub is_refresh : Bool

-- bcrypt, crypto and JwtService: the hash of a text with a salt, the text of a random draw, the refresh
-- token of a user and a session, and what `verify` at a time and `decode` read in a text
pub record Crypto : Type 0 where
  pub matches : Text → Text → Bool
  pub hash : ℕ → Text → Text
  pub secret : ℕ → Text
  pub sign_refresh : ℕ → ℕ → Text
  pub verify : ℕ → Text → Option RefreshPayload
  pub decode : Text → Option ℕ

pub record AccessToken : Type 0 where
  pub sub : ℕ
  pub sid : Option ℕ
  pub tenant_id : ℕ
  pub role : Text
  pub is_mobile : Bool

abbrev pub clock : Accounts → ℕ
clock s = s.whitelist.now

-- a new random value
abbrev pub draw : Exec Accounts ℕ
draw = do n ← gets (λ s. s.draws); modify (λ s. record s { draws = s.draws + 1 }); pure n

abbrev pub put_tokens : List UserToken → Accounts → Accounts
put_tokens tokens s = record s { tokens = tokens }

abbrev pub update_user : ℕ → (User → User) → Accounts → Accounts
update_user id f s = record s { users = map (λ u. if u.id == id then f u else u) s.users }

abbrev pub send_mail : Mail → Accounts → Accounts
send_mail m s = record s { mails = s.mails ++ m ∷ [] }

-- `user.role?.name`, none where it is missing or empty
abbrev pub name_of_role : Option Role → Option Text
name_of_role none = none
name_of_role (some r) = elim r.name [ [] ↦ none | c ∷ t ↦ some (c ∷ t) ]

abbrev pub login_role : User → Accounts → Option Text
login_role u s = name_of_role (find (λ r. r.id == u.role_id) s.roles)

-- `isSystemAdminRole`
unfoldable pub is_system_admin_role : Text → Bool
is_system_admin_role name = text_eq (lower (trim name)) (codes "system-admin")

abbrev pub tenant_of : User → Text → ℕ
tenant_of u role = if is_system_admin_role role then 0 else u.tenant_id

abbrev pub is_gone : Option TenantAccount → Bool
is_gone none = true
is_gone (some t) = t.is_deleted

abbrev pub is_suspended : Option TenantAccount → Bool
is_suspended none = false
is_suspended (some t) = text_eq t.status (codes "suspended")

abbrev pub find_tenant : ℕ → List TenantAccount → Option TenantAccount
find_tenant id tenants = find (λ t. t.id == id) tenants

-- the check of the tenant, from which system administrators are exempt
unfoldable pub check_tenant_account : User → Text → Exec Accounts (Unit {0})
check_tenant_account u role = do
  tenants ← gets (λ s. s.tenants)
  throw_if (not (is_system_admin_role role) && is_gone (find_tenant (tenant_of u role) tenants))
      (unauthorized tenant_deleted)
  throw_if
      (not (is_system_admin_role role) && is_suspended (find_tenant (tenant_of u role) tenants))
      (unauthorized tenant_suspended)

abbrev pub find_employee : ℕ → List Employee → Option Employee
find_employee user employees = find (λ e. e.user_id == user) employees

-- `employee?.deleted_at`
abbrev pub is_deactivated : Option Employee → Bool
is_deactivated none = false
is_deactivated (some e) = e.is_deleted

-- the check of the employee, whom the injected repository looks up in the public schema
unfoldable pub check_employee : User → Exec Accounts (Unit {0})
check_employee u = do
  employees ← gets (λ s. s.employees)
  throw_if (is_deactivated (find_employee u.id employees)) (unauthorized employee_deactivated)

-- `createUserTokenRecord`
abbrev pub new_token : ℕ → ℕ → Option Text → Option Text → Option Text → ℕ → UserToken
new_token user jti platform device ip now = record {
  id = jti;
  user_id = user;
  platform = platform;
  device_info = device;
  ip_address = ip;
  expires_at = now + 7 * 86400000;
  last_used_at = none;
  is_revoked = false;
  created_at = now;
}

abbrev pub insert_token : UserToken → Accounts → Accounts
insert_token t s = put_tokens (s.tokens ++ t ∷ []) s
