-- ===== src/Auth/Tokens.antt =====
-- refreshToken, logout, logoutAll and getActiveSessions of the auth service, the nightly purge of
-- src/modules/auth/auth-token-cleanup.service.ts, and the check of src/modules/auth/strategies/jwt.strategy.ts
-- that a request with an access token passes.
pub mod Rotation
pub mod Reuse
pub mod Access
use tgs_hrms.Base.{
  ℕ, ◌+◌, ◌*◌, Text, codes, text_eq, lower, Bool, true, false, not, ◌&&◌, ◌||◌, Option, none, some,
  List, [], ◌∷◌, map, keep, find, any, length, ◌==◌, ltb, if◌then◌else◌, Exec, Result, ok, err,
  Error, unauthorized, bad_request, token_required, token_invalid, token_expired, token_reused,
  user_missing, session_missing, session_revoked, pure, gets, throw, lift, or_throw, throw_if,
  throw_unless, modify, ◌>>=◌, ◌>>◌, tenant_deleted, tenant_suspended,
}
use tgs_hrms.Auth.{
  User, TenantAccount, UserToken, Accounts, RefreshPayload, Crypto, AccessToken, clock, draw,
  put_tokens, login_role, tenant_of, find_tenant, is_suspended, check_tenant_account,
  check_employee, new_token, insert_token,
}

-- `update({ user_id, is_revoked: false }, { is_revoked: true })`
abbrev pub revoke : UserToken → UserToken
revoke t = record t { is_revoked = true }

abbrev pub revoke_of : ℕ → List UserToken → List UserToken
revoke_of user tokens = map (λ t. if t.user_id == user then revoke t else t) tokens

abbrev pub revoke_one : ℕ → List UserToken → List UserToken
revoke_one id tokens = map (λ t. if t.id == id then revoke t else t) tokens

-- the update within the rotation
abbrev pub use_up : ℕ → ℕ → List UserToken → List UserToken
use_up id now tokens =
    map (λ t. if t.id == id then record t { is_revoked = true; last_used_at = some now } else t)
      tokens

abbrev pub is_mobile_platform : Option Text → Bool
is_mobile_platform none = false
is_mobile_platform (some p) =
    any (text_eq (lower p)) (codes "mobile" ∷ codes "ios" ∷ codes "android" ∷ [])

-- the row that the payload names
abbrev pub find_token : RefreshPayload → List UserToken → Option UserToken
find_token p tokens = find (λ t. (t.id == p.jti) && (t.user_id == p.sub)) tokens

-- a revoked or an expired row ends the refresh, and is itself written
unfoldable pub check_record : RefreshPayload → UserToken → Exec Accounts (Unit {0})
check_record p t s =
    if t.is_revoked
    then (err (unauthorized token_reused), put_tokens (revoke_of p.sub s.tokens) s)
    else if ltb t.expires_at (clock s)
    then (err (unauthorized token_expired), put_tokens (revoke_one t.id s.tokens) s)
    else (ok tt, s)

abbrev pub renewed : UserToken → User → ℕ → ℕ → UserToken
renewed t u jti now = new_token u.id jti t.platform t.device_info t.ip_address now

-- the transaction that uses the row up and inserts its successor
unfoldable pub rotate : Crypto → UserToken → User → Text → Exec Accounts (AccessToken × Text)
rotate c t u role s =
    let jti = s.draws in
    let access : AccessToken = record {
      sub = u.id;
      sid = some jti;
      tenant_id = tenant_of u role;
      role = lower role;
      is_mobile = is_mobile_platform t.platform;
    } in
    (
      ok (access, c.sign_refresh u.id jti),
      record (insert_token (renewed t u jti (clock s))
          (put_tokens (use_up t.id (clock s) s.tokens) s)) { draws = s.draws + 1 },
    )

-- the checks of the user who owns the row, and the rotation
unfoldable pub refresh_user : Crypto → UserToken → User → Exec Accounts (AccessToken × Text)
refresh_user c t u = do
  role_name ← gets (login_role u)
  role ← or_throw role_name (unauthorized user_missing)
  check_tenant_account u role
  check_employee u
  rotate c t u role

unfoldable pub refresh_row :
    Crypto → RefreshPayload → UserToken → Exec Accounts (AccessToken × Text)
refresh_row c p t = do
  check_record p t
  users ← gets (λ s. s.users)
  u ← or_throw (find (λ u. u.id == p.sub) users) (unauthorized user_missing)
  refresh_user c t u

unfoldable pub refresh_payload : Crypto → RefreshPayload → Exec Accounts (AccessToken × Text)
refresh_payload c p = do
  throw_unless p.is_refresh (unauthorized token_invalid)
  tokens ← gets (λ s. s.tokens)
  t ← or_throw (find_token p tokens) (unauthorized token_invalid)
  refresh_row c p t

unfoldable pub refresh_token : Crypto → Text → Exec Accounts (AccessToken × Text)
refresh_token c [] = throw (bad_request token_required)
refresh_token c (x ∷ text) = do
  now ← gets clock
  p ← or_throw (c.verify now (x ∷ text)) (unauthorized token_invalid)
  refresh_payload c p

-- the signature of the token is not looked at
unfoldable pub logout : Crypto → Text → Exec Accounts (Unit {0})
logout c [] = throw (bad_request token_required)
logout c (x ∷ text) = do
  jti ← or_throw (c.decode (x ∷ text)) (unauthorized token_invalid)
  modify (λ s. put_tokens (revoke_one jti s.tokens) s)

abbrev pub is_live_of : ℕ → UserToken → Bool
is_live_of user t = (t.user_id == user) && not t.is_revoked

-- the number of sessions revoked
unfoldable pub logout_all : ℕ → Exec Accounts ℕ
logout_all user = do
  tokens ← gets (λ s. s.tokens)
  modify (λ s. put_tokens (revoke_of user s.tokens) s)
  pure (length (keep (is_live_of user) tokens))

unfoldable pub get_active_sessions : ℕ → Accounts → List UserToken
get_active_sessions user s = keep (λ t. is_live_of user t && ltb (clock s) t.expires_at) s.tokens

-- `purgeStaleTokens`
abbrev pub is_stale : ℕ → UserToken → Bool
is_stale now t = (t.is_revoked || ltb t.expires_at now) && ltb (t.created_at + 30 * 86400000) now

unfoldable pub purge_stale_tokens : Accounts → Accounts
purge_stale_tokens s = put_tokens (keep (λ t. not (is_stale (clock s) t)) s.tokens) s

-- `checkTenantStatus`; a tenant that is not there passes
abbrev pub is_removed : Option TenantAccount → Bool
is_removed none = false
is_removed (some t) = t.is_deleted

abbrev pub check_status : Option TenantAccount → Result (Unit {0})
check_status t =
    if is_removed t
    then err (unauthorized tenant_deleted)
    else if is_suspended t
    then err (unauthorized tenant_suspended)
    else ok tt

abbrev pub check_user_status : Bool → Option User → Accounts → Result (Unit {0})
check_user_status is_system_admin none s = err (unauthorized user_missing)
check_user_status is_system_admin (some u) s =
    if is_system_admin then ok tt else check_status (find_tenant u.tenant_id s.tenants)

abbrev pub check_session_row : Option UserToken → Result (Unit {0})
check_session_row none = err (unauthorized session_missing)
check_session_row (some t) = if t.is_revoked then err (unauthorized session_revoked) else ok tt

abbrev pub check_sid : ℕ → Option ℕ → List UserToken → Result (Unit {0})
check_sid user none tokens = ok tt
check_sid user (some sid) tokens =
    check_session_row (find (λ t. (t.id == sid) && (t.user_id == user)) tokens)

-- `validate` of the strategy, for a token with a good signature
unfoldable pub validate_session : AccessToken → Exec Accounts (Unit {0})
validate_session a = do
  tokens ← gets (λ s. s.tokens)
  lift (check_sid a.sub a.sid tokens)
  s ← gets (λ s. s)
  lift (check_user_status (a.tenant_id == 0) (find (λ u. u.id == a.sub) s.users) s)
