-- ===== src/Auth/Password.antt =====
-- register, verifyEmail, resendVerificationEmail, forgotPassword, verifyResetToken and resetPassword of the
-- auth service. Names and phone numbers are left out. A mail is put on a list.
pub mod Reset
use tgs_hrms.Base.{
  ℕ, suc, ◌+◌, ◌*◌, Text, codes, text_eq, lower, Bool, true, false, not, ◌&&◌, ◌||◌, Option, none,
  some, List, [], ◌∷◌, ◌++◌, map, keep, find, any, ◌==◌, ltb, if◌then◌else◌, Exec, Error,
  bad_request, internal, email_taken, system_admin_exists, token_invalid, token_expired,
  tenant_missing, no_account, pure, gets, throw, or_throw, throw_if, throw_unless, modify, ◌>>=◌,
  ◌>>◌,
}
use tgs_hrms.Auth.{
  User, Role, TenantAccount, Accounts, Crypto, Mail, verification, reset_link, reset_done, clock,
  draw, update_user, send_mail, find_tenant, is_gone,
}
use tgs_hrms.Auth.Joining.{update_invite_status}
use tgs_hrms.Auth.Login.Google.{first_of}

-- RegisterDto
pub record Registration : Type 0 where
  pub email : Text
  pub password : Text
  pub role_id : ℕ
  pub tenant_id : ℕ

-- `role?.name === 'system-admin'`
abbrev pub is_system_role : Option Role → Bool
is_system_role none = false
is_system_role (some r) = text_eq r.name (codes "system-admin")

abbrev pub final_tenant : Option Role → Registration → ℕ
final_tenant role d = if is_system_role role then 0 else d.tenant_id

abbrev pub hours : ℕ → ℕ
hours n = n * 3600000

abbrev pub new_user : Crypto → Registration → ℕ → ℕ → ℕ → ℕ → ℕ → User
new_user c d tenant salt secret id now = record {
  id = id;
  email = lower d.email;
  password = c.hash salt d.password;
  role_id = d.role_id;
  tenant_id = tenant;
  first_login_time = none;
  reset_token = none;
  reset_token_expiry = none;
  email_verified = false;
  email_verification_token = some (c.secret secret);
  email_verification_expires_at = some (now + hours 24);
  failed_login_attempts = 0;
  locked_until = none;
}

-- the row and the mail of a registration that is accepted
unfoldable pub store_user : Crypto → Registration → ℕ → Exec Accounts (Unit {0})
store_user c d tenant = do
  salt ← draw
  secret ← draw
  id ← draw
  now ← gets clock
  modify (λ s. record s { users = s.users ++ new_user c d tenant salt secret id now ∷ [] })
  modify (send_mail (verification (lower d.email) (c.secret secret)))

unfoldable pub register : Crypto → Registration → Exec Accounts (Unit {0})
register c d = do
  roles ← gets (λ s. s.roles)
  users ← gets (λ s. s.users)
  let role = find (λ r. r.id == d.role_id) roles
  let tenant = final_tenant role d
  throw_if (any (λ u. text_eq u.email (lower d.email) && (u.tenant_id == tenant)) users)
      (bad_request email_taken)
  throw_if (is_system_role role && any (λ u. (u.role_id == d.role_id) && (u.tenant_id == 0)) users)
      (bad_request system_admin_exists)
  store_user c d tenant

abbrev pub holds : Option Text → Text → Bool
holds none t = false
holds (some x) t = text_eq x t

-- `!expiry || expiry < now`
abbrev pub is_over : Option ℕ → ℕ → Bool
is_over none now = true
is_over (some t) now = ltb t now

abbrev pub confirmed : User → User
confirmed u = record u {
  email_verified = true;
  email_verification_token = none;
  email_verification_expires_at = none;
}

unfoldable pub verify_email : Text → Exec Accounts (Unit {0})
verify_email token = do
  users ← gets (λ s. s.users)
  u ←
      or_throw (find (λ u. holds u.email_verification_token token) users)
        (bad_request token_invalid)
  now ← gets clock
  throw_if (is_over u.email_verification_expires_at now) (bad_request token_expired)
  modify (λ s. if u.email_verified then s else update_user u.id confirmed s)

abbrev pub find_email : Text → List User → Option User
find_email email users = find (λ u. text_eq u.email (lower email)) users

pub data ResendAnswer : Type 0 where
  sent_if_registered already_verified : ResendAnswer

abbrev pub with_verification : Text → ℕ → User → User
with_verification token expiry u = record u {
  email_verification_token = some token;
  email_verification_expires_at = some expiry;
}

unfoldable pub resend_to : Crypto → Option User → Exec Accounts ResendAnswer
resend_to c none = pure sent_if_registered
resend_to c (some u) = if u.email_verified then pure already_verified else (do
  secret ← draw
  now ← gets clock
  modify (update_user u.id (with_verification (c.secret secret) (now + hours 24)))
  modify (send_mail (verification u.email (c.secret secret)))
  pure sent_if_registered)

unfoldable pub resend_verification_email : Crypto → Text → Exec Accounts ResendAnswer
resend_verification_email c email = do
  users ← gets (λ s. s.users)
  resend_to c (find_email email users)

abbrev pub with_reset : Text → ℕ → User → User
with_reset token expiry u = record u { reset_token = some token; reset_token_expiry = some expiry }

-- the token is stored before the name of the tenant, which is missing where that is deleted, is read
unfoldable pub forgot_password : Crypto → Text → Exec Accounts (Unit {0})
forgot_password c email = do
  users ← gets (λ s. s.users)
  u ← or_throw (find_email email users) (bad_request no_account)
  secret ← draw
  salt ← draw
  now ← gets clock
  modify (update_user u.id (with_reset (c.hash salt (c.secret secret)) (now + hours 1)))
  tenants ← gets (λ s. s.tenants)
  throw_if (is_gone (find_tenant u.tenant_id tenants)) (internal tenant_missing)
  modify (send_mail (reset_link u.email (c.secret secret)))

abbrev pub is_ahead_of : Option ℕ → ℕ → Bool
is_ahead_of none now = false
is_ahead_of (some t) now = ltb now t

abbrev pub matches_token : Crypto → Text → Option Text → Bool
matches_token c token none = false
matches_token c token (some h) = c.matches token h

-- the accounts with a token that is not over, and matches
unfoldable pub has_reset : Crypto → Text → ℕ → User → Bool
has_reset c token now u =
    is_ahead_of u.reset_token_expiry now && matches_token c token u.reset_token

unfoldable pub verify_reset_token : Crypto → Text → Accounts → Bool
verify_reset_token c [] s = false
verify_reset_token c (x ∷ token) s = any (has_reset c (x ∷ token) (clock s)) s.users

abbrev pub reset_to : Text → User → User
reset_to password u = record u {
  password = password;
  reset_token = none;
  reset_token_expiry = none;
}

-- the loop over the accounts that match
unfoldable pub reset_each : Text → List User → Accounts → Accounts
reset_each password [] s = s
reset_each password (m ∷ matching) s =
    reset_each password matching
      (update_invite_status m.id (update_user m.id (reset_to password) s))

unfoldable pub reset_password : Crypto → Text → Text → Exec Accounts (Unit {0})
reset_password c token password = do
  users ← gets (λ s. s.users)
  now ← gets clock
  let matching = keep (has_reset c token now) users
  first ← or_throw (first_of matching) (bad_request token_invalid)
  salt ← draw
  modify (reset_each (c.hash salt password) matching)
  tenants ← gets (λ s. s.tenants)
  throw_if (is_gone (find_tenant first.tenant_id tenants)) (internal tenant_missing)
  modify (send_mail (reset_done first.email))
