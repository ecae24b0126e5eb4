-- ===== src/Auth/Tokens/Rotation.antt =====
-- What a refresh that returns has checked and written.
use tgs_hrms.Base.{
  ◌∙◌, ◌≡◌, Text, true, false, some, [], ◌∷◌, find, arith, ◌==◌, ltb, Exec, ok, bind-ok, check-ok,
  or_throw-ok, or_throw-state, throw_unless-state, throw_unless-ok, unauthorized, user_missing,
  token_invalid, or_throw, throw_unless, ◌>>=◌, ◌>>◌,
}
use tgs_hrms.Auth.{
  User, UserToken, Accounts, RefreshPayload, Crypto, AccessToken, clock, login_role,
  check_tenant_account, check_employee,
}
use tgs_hrms.Auth.Tokens.{
  find_token, check_record, rotate, refresh_user, refresh_row, refresh_payload, refresh_token,
}

pub check_tenant_account-state :
    (u : User) (role : Text) (s : Accounts) → (check_tenant_account u role s).1 ≡ s
unfolding check_tenant_account
check_tenant_account-state u role s = ground arith

pub check_employee-state : (u : User) (s : Accounts) → (check_employee u s).1 ≡ s
unfolding check_employee
check_employee-state u s = ground arith

-- the user and the role under which a refresh has rotated
pub refresh_user_ok :
    (c : Crypto) (t : UserToken) (u : User) (s : Accounts) (r : AccessToken × Text)
    → (refresh_user c t u s).0 ≡ ok r
    → (role : Text) × (login_role u s ≡ some role)
      × ((check_tenant_account u role s).0 ≡ ok tt)
      × ((check_employee u s).0 ≡ ok tt)
      × (refresh_user c t u s ≡ rotate c t u role s)
unfolding refresh_user
refresh_user_ok c t u s r h =
    let (role, e, h1, e1) =
      check-ok (or_throw (login_role u s) (unauthorized user_missing))
        (λ role. check_tenant_account u role >> (check_employee u >> rotate c t u role)) s
        (or_throw-state (login_role u s) (unauthorized user_missing) s) h in
    let (x, a, h2, e2) =
      check-ok (check_tenant_account u role) (λ _. check_employee u >> rotate c t u role) s
        (check_tenant_account-state u role s) h1 in
    let (y, b, h3, e3) =
      check-ok (check_employee u) (λ _. rotate c t u role) s (check_employee-state u s) h2 in
    (role, or_throw-ok (login_role u s) (unauthorized user_missing) s role e, a, b, e1 ∙ e2 ∙ e3)

check_record_ok :
    (p : RefreshPayload) (t : UserToken) (s : Accounts)
    → (check_record p t s).0 ≡ ok tt
    → (t.is_revoked ≡ false) × (ltb t.expires_at (clock s) ≡ false) × ((check_record p t s).1 ≡ s)
unfolding check_record
check_record_ok p t s h = ground arith

-- all that a refresh has found when it returns
pub record Rotates (c : Crypto) (p : RefreshPayload) (s : Accounts) : Type 0 where
  pub token : UserToken
  pub user : User
  pub role : Text
  pub is_refresh : p.is_refresh ≡ true
  pub found : find_token p s.tokens ≡ some token
  pub live : token.is_revoked ≡ false
  pub in_time : ltb token.expires_at (clock s) ≡ false
  pub owner : find (λ u. u.id == p.sub) s.users ≡ some user
  pub named : login_role user s ≡ some role
  pub tenant : (check_tenant_account user role s).0 ≡ ok tt
  pub employee : (check_employee user s).0 ≡ ok tt
  pub done : refresh_payload c p s ≡ rotate c token user role s

pub refresh_payload_ok :
    (c : Crypto) (p : RefreshPayload) (s : Accounts) (r : AccessToken × Text)
    → (refresh_payload c p s).0 ≡ ok r
    → Rotates c p s
unfolding refresh_payload refresh_row
refresh_payload_ok c p s r h =
    let (x, a, h1, e1) =
      check-ok (throw_unless p.is_refresh (unauthorized token_invalid))
        (λ _ z.
          (or_throw (find_token p z.tokens) (unauthorized token_invalid) >>= refresh_row c p) z)
        s (throw_unless-state p.is_refresh (unauthorized token_invalid) s) h in
    let (t, b, h2, e2) =
      check-ok (or_throw (find_token p s.tokens) (unauthorized token_invalid)) (refresh_row c p) s
        (or_throw-state (find_token p s.tokens) (unauthorized token_invalid) s) h1 in
    let look_up : Accounts → Exec Accounts User =
      λ z. or_throw (find (λ u. u.id == p.sub) z.users) (unauthorized user_missing) in
    let (y, d, h3, e3) =
      bind-ok (check_record p t) (λ _ z. (look_up z >>= refresh_user c t) z) s h2 in
    let (live, in_time, same) = check_record_ok p t s d in
    let (y', d', h3, e3) =
      check-ok (check_record p t) (λ _ z. (look_up z >>= refresh_user c t) z) s same h2 in
    let (u, f, h4, e4) =
      check-ok (look_up s) (refresh_user c t) s
        (or_throw-state (find (λ u. u.id == p.sub) s.users) (unauthorized user_missing) s) h3 in
    let (role, named, tenant, employee, e5) = refresh_user_ok c t u s r h4 in
    record {
      token = t;
      user = u;
      role = role;
      is_refresh = throw_unless-ok p.is_refresh (unauthorized token_invalid) s x a;
      found = or_throw-ok (find_token p s.tokens) (unauthorized token_invalid) s t b;
      live = live;
      in_time = in_time;
      owner = or_throw-ok (find (λ u. u.id == p.sub) s.users) (unauthorized user_missing) s u f;
      named = named;
      tenant = tenant;
      employee = employee;
      done = e1 ∙ e2 ∙ e3 ∙ e4 ∙ e5;
    }

pub refresh_token_ok :
    (c : Crypto) (text : Text) (s : Accounts) (r : AccessToken × Text)
    → (refresh_token c text s).0 ≡ ok r
    → (p : RefreshPayload) × (c.verify (clock s) text ≡ some p)
      × Rotates c p s
      × (refresh_token c text s ≡ refresh_payload c p s)
unfolding refresh_token
refresh_token_ok c [] s r h = ground arith
refresh_token_ok c (x ∷ text) s r h =
    let o = c.verify (clock s) (x ∷ text) in
    let (p, a, h1, e1) =
      check-ok (or_throw o (unauthorized token_invalid)) (refresh_payload c) s
        (or_throw-state o (unauthorized token_invalid) s) h in
    (p, or_throw-ok o (unauthorized token_invalid) s p a, refresh_payload_ok c p s r h1, e1)
