-- ===== src/Tests/Accounts.antt =====
-- Two accounts of one email, in tenants 1 and 2, with the passwords "a" and "b". bcrypt is the identity, and
-- a refresh token is the pair of its user and its session.
use tgs_hrms.Base.{ℕ, Text, codes, text_eq, Bool, true, false, Option, none, some, [], ◌∷◌}
use tgs_hrms.Auth.{User, UserToken, Accounts, RefreshPayload, Crypto}
use tgs_hrms.Auth.Device.{LoginRequest}

abbrev payload_of : Text → Option RefreshPayload
payload_of (u ∷ j ∷ []) = some (record { sub = u; jti = j; is_refresh = true })
payload_of _ = none

abbrev session_in : Text → Option ℕ
session_in (u ∷ j ∷ []) = some j
session_in _ = none

abbrev pub plain : Crypto
plain = record {
  matches = text_eq;
  hash = λ salt t. t;
  secret = λ n. n ∷ [];
  sign_refresh = λ u j. u ∷ j ∷ [];
  verify = λ now t. payload_of t;
  decode = session_in;
}

abbrev pub email : Text
email = codes "ann@x.org"

abbrev pub account : ℕ → Text → ℕ → User
account id password tenant = record {
  id = id;
  email = email;
  password = password;
  role_id = 1;
  tenant_id = tenant;
  first_login_time = some 1;
  reset_token = none;
  reset_token_expiry = none;
  email_verified = true;
  email_verification_token = none;
  email_verification_expires_at = none;
  failed_login_attempts = 0;
  locked_until = none;
}

abbrev pub ann : User
ann = account 7 (codes "a") 1

abbrev pub other_ann : User
other_ann = account 8 (codes "b") 2

abbrev pub world : Accounts
world = record {
  users = ann ∷ other_ann ∷ [];
  roles = record { id = 1; name = codes "employee" } ∷ [];
  tenants =
      record { id = 1; status = codes "active"; is_deleted = false }
      ∷ record { id = 2; status = codes "active"; is_deleted = false }
      ∷ [];
  tokens = [];
  provisioned = λ t. false;
  employees = [];
  tenant_employees = λ t. [];
  signups = [];
  companies = [];
  whitelist = record {
    rows = [];
    cache = λ t. none;
    settings = record { rows = []; cache = λ t. none };
    now = 1000;
  };
  draws = 100;
  mails = [];
}

abbrev pub with_password : Text → LoginRequest
with_password password = record {
  email = codes "Ann@X.org";
  password = password;
  platform = none;
  device_info = none;
  ip_address = none;
  user_agent = some (codes "Firefox");
  app_platform = none;
}

-- one session of user 7
abbrev pub session : UserToken
session = record {
  id = 50;
  user_id = 7;
  platform = none;
  device_info = none;
  ip_address = none;
  expires_at = 5000;
  last_used_at = none;
  is_revoked = false;
  created_at = 0;
}

abbrev pub with_session : Bool → Accounts
with_session revoked = record world { tokens = record session { is_revoked = revoked } ∷ [] }
