-- ===== src/Auth/Calls/Once.antt =====
-- A refresh token is good for one refresh.
use tgs_hrms.Base.{
  sym, ℕ, ◌+◌, ◌≡◌, Text, text_eq, lower, ◌&&◌, Option, none, some, List, [], ◌∷◌, keep, find, any,
  arith, ◌==◌, ok, err, check-keeps, throw_if-state, unauthorized, bad_request, email_taken,
  system_admin_exists, token_invalid, token_reused, session_missing, session_revoked, Bool-cases,
  Option-cases, inl, inr, ◌⊎◌, throw_if, ◌>>◌,
}
use mathlib.Core.Path.{subst}
use tgs_hrms.Auth.{User, Accounts, RefreshPayload, Crypto, AccessToken, clock, find_tenant, is_gone}
use tgs_hrms.Auth.Tokens.{refresh_token, validate_session}
use tgs_hrms.Auth.Tokens.Reuse.{
  IsSpent, IsDrawn, refresh_token-IsSpent, logout-IsSpent, logout_all-IsSpent,
  purge_stale_tokens-IsSpent,
}
use tgs_hrms.Auth.Tokens.Access.{refresh_token_spends, refresh_token_refused, spent_access}
use tgs_hrms.Auth.Login.{validate_user, users_of}
use tgs_hrms.Auth.Login.Google.{first_of}
use tgs_hrms.Auth.Password.{
  Registration, register, store_user, verify_email, resend_to, resend_verification_email,
  forgot_password, reset_password, reset_each, has_reset, find_email, is_over, holds,
  is_system_role, final_tenant,
}
use tgs_hrms.Auth.Calls.{
  AuthCall, sign_in, google, refresh, sign_out, sign_out_all, join, confirm, resend, forgot, reset,
  purge, wait, perform, perform_all,
}
use tgs_hrms.Auth.Calls.Logins.{
  reset_each-Grows, grown-IsSpent, login_among-IsSpent, google_login-IsSpent,
}

module _ (jti : ℕ) where
  register-IsSpent :
      (c : Crypto) (d : Registration) (s : Accounts)
      → IsSpent jti s
      → IsSpent jti (register c d s).1
  unfolding register store_user
  register-IsSpent c d s v =
      let role = find (λ r. r.id == d.role_id) s.roles in
      let tenant = final_tenant role d in
      let taken = any (λ u. text_eq u.email (lower d.email) && (u.tenant_id == tenant)) s.users in
      let second =
        is_system_role role && any (λ u. (u.role_id == d.role_id) && (u.tenant_id == 0)) s.users in
      check-keeps (IsSpent jti) (throw_if taken (bad_request email_taken))
        (λ _. throw_if second (bad_request system_admin_exists) >> store_user c d tenant) s
        (throw_if-state taken (bad_request email_taken) s) v
        λ _ _.
          check-keeps (IsSpent jti) (throw_if second (bad_request system_admin_exists))
            (λ _. store_user c d tenant) s
            (throw_if-state second (bad_request system_admin_exists) s) v
            (λ _ _. (omega (arith, v.0), v.1))

  verify_email-IsSpent :
      (token : Text) (s : Accounts) → IsSpent jti s → IsSpent jti (verify_email token s).1
  unfolding verify_email
  verify_email-IsSpent token s v =
      elim (Option-cases (find (λ u. holds u.email_verification_token token) s.users)) [
        | inl e ↦ rw (e, verify_email) v
        | inr (u, e) ↦ elim (Bool-cases (is_over u.email_verification_expires_at (clock s))) [
          | inl f ↦ rw (e, f, verify_email) v
          | inr f ↦ elim (Bool-cases u.email_verified) [
            | inl g ↦ rw (e, f, g, verify_email) v
            | inr g ↦ rw (e, f, g, verify_email) v
          ]
        ]
      ]

  resend_to-IsSpent :
      (c : Crypto) (o : Option User) (s : Accounts)
      → IsSpent jti s
      → IsSpent jti (resend_to c o s).1
  unfolding resend_to
  resend_to-IsSpent c none s v = v
  resend_to-IsSpent c (some u) s v = elim (Bool-cases u.email_verified) [
    | inl e ↦ rw (e, resend_to) v
    | inr e ↦ rw (e, resend_to) (omega (arith, v.0), v.1)
  ]

  forgot_password-IsSpent :
      (c : Crypto) (email : Text) (s : Accounts)
      → IsSpent jti s
      → IsSpent jti (forgot_password c email s).1
  unfolding forgot_password
  forgot_password-IsSpent c email s v = elim (Option-cases (find_email email s.users)) [
    | inl e ↦ rw (e, forgot_password) v
    | inr (u, e) ↦ elim (Bool-cases (is_gone (find_tenant u.tenant_id s.tenants))) [
      | inl f ↦ rw (e, f, forgot_password) (rw f (omega (arith, v.0), v.1))
      | inr f ↦ rw (e, f, forgot_password) (rw f (omega (arith, v.0), v.1))
    ]
  ]

  reset_password-IsSpent :
      (c : Crypto) (token password : Text) (s : Accounts)
      → IsSpent jti s
      → IsSpent jti (reset_password c token password s).1
  unfolding reset_password
  reset_password-IsSpent c token password s v =
      let matching = keep (has_reset c token (clock s)) s.users in
      let drawn : Accounts = record s { draws = s.draws + 1 } in
      let z = reset_each (c.hash s.draws password) matching drawn in
      let w : IsSpent jti z =
        grown-IsSpent jti drawn z (reset_each-Grows (c.hash s.draws password) matching drawn)
          (omega (arith, v.0), v.1) in
      elim (Option-cases (first_of matching)) [
        | inl e ↦ rw (e, reset_password) v
        | inr (u, e) ↦ elim (Bool-cases (is_gone (find_tenant u.tenant_id z.tenants))) [
          | inl f ↦ rw (e, f, reset_password) w
          | inr f ↦ rw (e, f, reset_password) w
        ]
      ]

  perform-IsSpent :
      (c : Crypto) (a : AuthCall) (s : Accounts) → IsSpent jti s → IsSpent jti (perform c a s)
  unfolding perform validate_user resend_verification_email
  perform-IsSpent c (sign_in r) s v = login_among-IsSpent jti c r (users_of (lower r.email) s) s v
  perform-IsSpent c (google email platform device ip) s v =
      google_login-IsSpent jti c email platform device ip s v
  perform-IsSpent c (refresh text) s v = refresh_token-IsSpent jti c text s v
  perform-IsSpent c (sign_out text) s v = logout-IsSpent jti c text s v
  perform-IsSpent c (sign_out_all user) s v = logout_all-IsSpent jti user s v
  perform-IsSpent c (join d) s v = register-IsSpent c d s v
  perform-IsSpent c (confirm token) s v = verify_email-IsSpent token s v
  perform-IsSpent c (resend email) s v = resend_to-IsSpent c (find_email email s.users) s v
  perform-IsSpent c (forgot email) s v = forgot_password-IsSpent c email s v
  perform-IsSpent c (reset token password) s v = reset_password-IsSpent c token password s v
  perform-IsSpent c purge s v = purge_stale_tokens-IsSpent jti s v
  perform-IsSpent c (wait n) s v = v

  -- A session without a live row stays without one.
  pub perform_all-IsSpent :
      (c : Crypto) (calls : List AuthCall) (s : Accounts)
      → IsSpent jti s
      → IsSpent jti (perform_all c calls s)
  unfolding perform_all
  perform_all-IsSpent c [] s v = v
  perform_all-IsSpent c (a ∷ calls) s v =
      perform_all-IsSpent c calls (perform c a s) (perform-IsSpent c a s v)

-- If the identifiers of all sessions were drawn, and a refresh with a token returns, then after any
-- sequence of calls, of whoever, and of waiting, a refresh with a token of the same session is refused,
-- and so is an access token of this session.
pub refresh_once :
    (c : Crypto) (text : Text) (s : Accounts) (r : AccessToken × Text) (p : RefreshPayload)
    (calls : List AuthCall) (x : ℕ) (again : Text) (q : RefreshPayload) (a : AccessToken)
    → IsDrawn s
    → (refresh_token c text s).0 ≡ ok r
    → c.verify (clock s) text ≡ some p
    → c.verify (clock (perform_all c calls (refresh_token c text s).1)) (x ∷ again) ≡ some q
    → q.jti ≡ p.jti
    → a.sid ≡ some p.jti
    → let z = perform_all c calls (refresh_token c text s).1 in
      (((refresh_token c (x ∷ again) z).0 ≡ err (unauthorized token_invalid))
        ⊎ ((refresh_token c (x ∷ again) z).0 ≡ err (unauthorized token_reused)))
      × (((validate_session a z).0 ≡ err (unauthorized session_missing))
          ⊎ ((validate_session a z).0 ≡ err (unauthorized session_revoked)))
refresh_once c text s r p calls x again q a drawn h v w same sid =
    let z = perform_all c calls (refresh_token c text s).1 in
    let spent : IsSpent p.jti z =
      perform_all-IsSpent p.jti c calls (refresh_token c text s).1
        (refresh_token_spends c text s r p drawn h v) in
    (
      refresh_token_refused c x again z q w (subst (λ i. IsSpent i z) (sym same) spent),
      spent_access a p.jti z sid spent,
    )
