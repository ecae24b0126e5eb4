-- ===== src/Tests/Signing.antt =====
-- Logins and sessions of the accounts of Tests.Accounts.
use tgs_hrms.Base.{
  ◌≡◌, refl, codes, text_eq, text_eq_refl, lower, lower_char, trim, true, false, none, some, List,
  [], ◌∷◌, All, arith, err, bad_request, unauthorized, account_locked, token_invalid, token_reused,
  session_missing, session_revoked, ◌⊎◌, inl, inr, any, keep, ◌==◌, map, find,
}
use tgs_hrms.Auth.{
  reset_link, Accounts, AccessToken, is_system_admin_role, check_tenant_account, check_employee,
}
use tgs_hrms.Auth.Tokens.{
  refresh_token, refresh_payload, refresh_row, refresh_user, check_record, rotate, is_live_of,
  validate_session,
}
use tgs_hrms.Auth.Tokens.Access.{reuse_revokes_all}
use tgs_hrms.Auth.Device.{LoginRequest, contains, is_mobile_request}
use tgs_hrms.Auth.Login.{
  LoginSession, login_answer, access_token, validate_user, login_among, check_password,
  reject_password, complete_login, login_as, clear_failures, admit_user, check_tenant_rules,
  check_address, finish_login, start_session, note_login, users_of,
}
use tgs_hrms.Auth.Joining.{update_invite_status}
use tgs_hrms.Auth.Login.Google.{first_of, google_login}
use tgs_hrms.Auth.Login.Rules.{MaySignIn}
use tgs_hrms.Auth.Login.Checks.{is_unlocked, validate_user_lem}
use tgs_hrms.Auth.Login.Lockout.{try_all, five_failures_lock}
use tgs_hrms.Auth.Login.Bypass.{SignsIn, validate_user-SignsIn, GoogleSignsIn, google_login-returns}
use tgs_hrms.Auth.Password.{forgot_password, reset_password}
use tgs_hrms.Auth.Password.Reset.{IsReset, later, reset_password-forgot_password}
use tgs_hrms.Auth.Calls.{wait, perform_all}
use tgs_hrms.Auth.Calls.Once.{refresh_once}
use tgs_hrms.Tests.Accounts.{
  plain, email, ann, other_ann, world, with_password, session, with_session,
}

reuse_revokes_all_example :
    ((refresh_token plain (7 ∷ 50 ∷ []) (with_session true)).0 ≡ err (unauthorized token_reused))
    × (any (is_live_of 7) (refresh_token plain (7 ∷ 50 ∷ []) (with_session true)).1.tokens ≡ false)
    × (keep (λ t. t.user_id == 8) (refresh_token plain (7 ∷ 50 ∷ []) (with_session true)).1.tokens
        ≡ keep (λ t. t.user_id == 8) (with_session true).tokens)
reuse_revokes_all_example =
    reuse_revokes_all plain 7 (50 ∷ []) (with_session true)
      (record { sub = 7; jti = 50; is_refresh = true }) (record session { is_revoked = true }) 8
      refl refl refl refl refl

-- one wrong password after another
abbrev guesses : List LoginRequest
guesses =
    with_password []
    ∷ with_password []
    ∷ with_password []
    ∷ with_password []
    ∷ with_password []
    ∷ []

five_failures_lock_example :
    validate_user plain (with_password (codes "a")) (try_all plain guesses world)
    ≡ (err (bad_request account_locked), try_all plain guesses world)
unfolding lower lower_char text_eq
five_failures_lock_example =
    five_failures_lock plain email guesses world ann (other_ann ∷ []) (with_password (codes "a"))
      refl (refl, refl, (refl, refl, (refl, refl, (refl, refl, (refl, refl, tt))))) (omega arith)
      (omega arith) refl

may_ann : MaySignIn (with_password (codes "a")) ann world
unfolding is_system_admin_role text_eq lower lower_char trim contains is_mobile_request
may_ann = record {
  verified = refl;
  role = codes "employee";
  named = refl;
  within = inr (refl, refl, (inl refl, tt));
  active = refl;
}

validate_user-SignsIn_example :
    SignsIn ann (validate_user plain (with_password (codes "a")) world).0
unfolding lower lower_char text_eq
validate_user-SignsIn_example =
    validate_user-SignsIn plain (with_password (codes "a")) world ann ann (other_ann ∷ []) refl refl
      refl may_ann

google_login-returns_example :
    GoogleSignsIn ann world (google_login plain (some email) none none none world).0
unfolding lower lower_char text_eq
google_login-returns_example =
    google_login-returns plain b'a' (codes "nn@x.org") none none none world ann (other_ann ∷ [])
      (codes "employee") refl refl (inr (refl, refl)) refl

reset_password-forgot_password_example :
    ((forgot_password plain email world).1.mails ≡ reset_link email (100 ∷ []) ∷ [])
    × All
        (IsReset 7 (codes "new"))
        (reset_password plain
          (100 ∷ [])
          (codes "new")
          (later 60000 (forgot_password plain email world).1)).1.users
    × (text_eq (codes "new") (codes "new") ≡ true)
unfolding lower lower_char text_eq
reset_password-forgot_password_example =
    reset_password-forgot_password plain email (codes "new") world ann 60000
      (λ salt t. text_eq_refl t) refl refl refl

abbrev renewed_once : Accounts
renewed_once = (refresh_token plain (7 ∷ 50 ∷ []) (with_session false)).1

abbrev old_access : AccessToken
old_access = record {
  sub = 7;
  sid = some 50;
  tenant_id = 1;
  role = codes "employee";
  is_mobile = false;
}

refresh_once_example :
    let z = perform_all plain (wait 10 ∷ []) renewed_once in
    (((refresh_token plain (7 ∷ 50 ∷ []) z).0 ≡ err (unauthorized token_invalid))
      ⊎ ((refresh_token plain (7 ∷ 50 ∷ []) z).0 ≡ err (unauthorized token_reused)))
    × (((validate_session old_access z).0 ≡ err (unauthorized session_missing))
        ⊎ ((validate_session old_access z).0 ≡ err (unauthorized session_revoked)))
unfolding refresh_token refresh_payload refresh_row refresh_user check_record check_tenant_account
    check_employee rotate is_system_admin_role text_eq lower lower_char trim
refresh_once_example =
    refresh_once plain (7 ∷ 50 ∷ []) (with_session false)
      (record old_access { sid = some 100 }, 7 ∷ 100 ∷ [])
      (record { sub = 7; jti = 50; is_refresh = true }) (wait 10 ∷ []) 7 (50 ∷ [])
      (record { sub = 7; jti = 50; is_refresh = true }) old_access (omega arith, tt) refl refl refl
      refl refl

abbrev ann_session : LoginSession
ann_session =
    login_answer (with_password (codes "a")) ann (codes "employee") world
      (access_token ann (codes "employee") 100 false, 7 ∷ 100 ∷ [])

validate_user_lem_example :
    (text_eq email email ≡ true)
    × (is_unlocked 1000 (first_of (users_of email world)) ≡ true)
    × (find (λ u. text_eq (codes "a") u.password) (users_of email world) ≡ some ann)
    × MaySignIn (with_password (codes "a")) ann world
    × (ann_session.access.sub ≡ 7)
unfolding validate_user login_among check_password complete_login login_as clear_failures admit_user
    check_tenant_account check_tenant_rules check_address check_employee finish_login start_session
    note_login update_invite_status is_system_admin_role text_eq lower lower_char trim contains
    is_mobile_request
validate_user_lem_example =
    validate_user_lem plain (with_password (codes "a")) world ann_session refl

-- Four wrong passwords, a login to the account of tenant 2, and one more wrong password: the account of tenant
-- 1, whose failures the login has not cleared, is locked.
other_login_clears_nothing :
    map
      (λ u. u.locked_until)
      (try_all plain
        (with_password []
          ∷ with_password []
          ∷ with_password []
          ∷ with_password []
          ∷ with_password (codes "b")
          ∷ with_password []
          ∷ [])
        world).users
    ≡ some 901000 ∷ none ∷ []
unfolding validate_user login_among check_password reject_password complete_login login_as
    clear_failures admit_user check_tenant_account check_tenant_rules check_address check_employee
    finish_login start_session note_login update_invite_status is_system_admin_role text_eq lower
    lower_char trim contains is_mobile_request
other_login_clears_nothing = refl
