-- ===== src/Auth/Login/Google.antt =====
-- googleLogin and validateToken of the auth service.
use tgs_hrms.Base.{
  ℕ, Text, lower, false, Option, none, some, List, [], ◌∷◌, find, ◌==◌, if◌then◌else◌, Exec,
  unauthorized, bad_request, role_missing, google_token, no_account, user_missing, pure, gets,
  throw, or_throw, modify, ◌>>=◌, ◌>>◌,
}
use tgs_hrms.Auth.{
  User, Accounts, Crypto, AccessToken, login_role, tenant_of, check_tenant_account, find_employee,
  check_employee,
}
use tgs_hrms.Auth.Login.{
  LoginSession, is_never, note_login, must_pay, find_company, start_session, users_of,
}
use tgs_hrms.Auth.Joining.{update_invite_status}

abbrev pub google_answer : User → Text → Accounts → AccessToken × Text → LoginSession
google_answer u role s (access, refresh) = record {
  access = access;
  refresh = refresh;
  user = u;
  employee = find_employee u.id s.employees;
  requires_payment = must_pay (find_company (tenant_of u role) s.companies);
  session_id = none;
}

unfoldable pub finish_google :
    Crypto → Option Text → Option Text → Option Text → User → Text → Exec Accounts LoginSession
finish_google c platform device ip u role = do
  s ← gets (λ s. s)
  tokens ← start_session c u role platform device ip false
  modify (note_login u)
  modify (λ z. if is_never u.first_login_time then update_invite_status u.id z else z)
  pure (google_answer u role s tokens)

unfoldable pub google_as :
    Crypto → Option Text → Option Text → Option Text → User → Exec Accounts LoginSession
google_as c platform device ip u = do
  role_name ← gets (login_role u)
  role ← or_throw role_name (unauthorized role_missing)
  check_tenant_account u role
  check_employee u
  finish_google c platform device ip u role

abbrev pub first_of : List User → Option User
first_of [] = none
first_of (u ∷ users) = some u

-- the first account of the email that Google's answer names; none where the request fails
unfoldable pub google_login :
    Crypto → Option Text → Option Text → Option Text → Option Text → Exec Accounts LoginSession
google_login c none platform device ip = throw (unauthorized google_token)
google_login c (some []) platform device ip = throw (unauthorized google_token)
google_login c (some (x ∷ email)) platform device ip = do
  users ← gets (users_of (lower (x ∷ email)))
  u ← or_throw (first_of users) (bad_request no_account)
  google_as c platform device ip u

-- the role and the tenant that a valid token answers
unfoldable pub validate_token : ℕ → Exec Accounts (Text × ℕ)
validate_token user = do
  users ← gets (λ s. s.users)
  u ← or_throw (find (λ u. u.id == user) users) (unauthorized user_missing)
  role_name ← gets (login_role u)
  role ← or_throw role_name (unauthorized role_missing)
  check_tenant_account u role
  pure (lower role, tenant_of u role)
