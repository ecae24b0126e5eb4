-- ===== src/Auth/Calls/Logins.antt =====
-- A login leaves spent sessions spent.
use tgs_hrms.Base.{
  ◌∙◌, ℕ, ◌≤◌, ◌≡◌, refl, Text, text_eq, lower, Bool, false, Option, none, some, List, [], ◌∷◌,
  find, arith, ◌==◌, if◌then◌else◌, check-keeps, bind-keeps, or_throw-state, throw_if-state,
  throw_unless-state, unauthorized, bad_request, forbidden, role_missing, email_unverified,
  account_locked, no_account, Bool-cases, Option-cases, inl, inr, or_throw, throw_if, throw_unless,
  modify, pure, ◌>>=◌, ◌>>◌,
}
use tgs_hrms.Auth.{
  User, Accounts, Crypto, clock, login_role, check_tenant_account, check_employee, update_user,
  new_token,
}
use tgs_hrms.Auth.Tokens.Rotation.{check_tenant_account-state, check_employee-state}
use tgs_hrms.Auth.Tokens.Reuse.{IsSpent, inserted-IsSpent}
use tgs_hrms.Auth.Device.{LoginRequest, is_mobile_request}
use tgs_hrms.Auth.Login.{
  signed_in, login_among, complete_login, login_as, admit_user, finish_login, start_session,
  clear_failures, check_password, reject_password, resume_signup, tenant_rules, is_locked,
  note_login, is_never, users_of, login_answer,
}
use tgs_hrms.Auth.Joining.{update_invite_status, join_in}
use tgs_hrms.Auth.Login.Google.{google_answer, google_login, google_as, finish_google, first_of}
use tgs_hrms.Auth.Login.Rules.{tenant_rules-IsFramed}
use tgs_hrms.Auth.Login.Checks.{after_clear}
use tgs_hrms.Auth.Password.{reset_each, reset_to}

-- the sessions are as before, and no draw is taken back
abbrev pub Grows : Accounts → Accounts → Type 0
Grows s z = (z.tokens ≡ s.tokens) × (s.draws ≤ z.draws)

join_in-Grows : (user : ℕ) (o : Option User) (s : Accounts) → Grows s (join_in user o s)
join_in-Grows user none s = (refl, omega arith)
join_in-Grows user (some u) s = elim (Bool-cases (s.provisioned u.tenant_id)) [
  | inl e ↦ rw e (refl, omega arith)
  | inr e ↦ rw e (refl, omega arith)
]

Grows-trans : (s z w : Accounts) → Grows s z → Grows z w → Grows s w
Grows-trans s z w (e, l) (f, m) = (f ∙ e, omega arith)

update_invite_status-Grows : (user : ℕ) (s : Accounts) → Grows s (update_invite_status user s)
unfolding update_invite_status
update_invite_status-Grows user s = join_in-Grows user (find (λ u. u.id == user) s.users) s

note_login-Grows : (u : User) (s : Accounts) → Grows s (note_login u s)
unfolding note_login
note_login-Grows u s = elim (Bool-cases (is_never u.first_login_time)) [
  | inl e ↦ rw (e, note_login) (refl, omega arith)
  | inr e ↦ rw (e, note_login) (refl, omega arith)
]

pub reset_each-Grows :
    (password : Text) (matching : List User) (s : Accounts)
    → Grows s (reset_each password matching s)
unfolding reset_each
reset_each-Grows password [] s = (refl, omega arith)
reset_each-Grows password (m ∷ matching) s =
    let z = update_user m.id (reset_to password) s in
    Grows-trans s (update_invite_status m.id z)
      (reset_each password matching (update_invite_status m.id z))
      (update_invite_status-Grows m.id z)
      (reset_each-Grows password matching (update_invite_status m.id z))

module _ (jti : ℕ) where
  pub grown-IsSpent : (s z : Accounts) → Grows s z → IsSpent jti s → IsSpent jti z
  grown-IsSpent s z (e, l) (lt, dead) = (omega arith, rw e dead)

  opened-IsSpent :
      (c : Crypto) (u : User) (role : Text) (platform device ip : Option Text) (m : Bool)
      (s : Accounts)
      → IsSpent jti s
      → IsSpent jti (start_session c u role platform device ip m s).1
  unfolding start_session
  opened-IsSpent c u role platform device ip m s v =
      inserted-IsSpent jti s (new_token u.id s.draws platform device ip (clock s)) refl v

  finish_login-IsSpent :
      (c : Crypto) (r : LoginRequest) (u : User) (role : Text) (s : Accounts)
      → IsSpent jti s
      → IsSpent jti (finish_login c r u role s).1
  unfolding finish_login
  finish_login-IsSpent c r u role s v =
      bind-keeps (IsSpent jti)
        (start_session c u role r.platform r.device_info r.ip_address (is_mobile_request r))
        (λ tokens.
          modify (note_login u)
          >> (modify (update_invite_status u.id)
              >> pure (signed_in (login_answer r u role s tokens))))
        s (opened-IsSpent c u role r.platform r.device_info r.ip_address (is_mobile_request r) s v)
        λ tokens _.
          let z =
            (start_session c u role r.platform r.device_info r.ip_address (is_mobile_request r)
              s).1 in
          grown-IsSpent z (update_invite_status u.id (note_login u z))
            (Grows-trans z (note_login u z) (update_invite_status u.id (note_login u z))
              (note_login-Grows u z) (update_invite_status-Grows u.id (note_login u z)))
            (opened-IsSpent c u role r.platform r.device_info r.ip_address (is_mobile_request r) s
              v)

  admit_user-IsSpent :
      (c : Crypto) (r : LoginRequest) (u : User) (role : Text) (s : Accounts)
      → IsSpent jti s
      → IsSpent jti (admit_user c r u role s).1
  unfolding admit_user
  admit_user-IsSpent c r u role s v =
      let z = (tenant_rules r u role s).1 in
      let frame = tenant_rules-IsFramed r u role s in
      let w : IsSpent jti z = rw frame v in
      check-keeps (IsSpent jti) (check_tenant_account u role)
        (λ _. tenant_rules r u role >> (check_employee u >> finish_login c r u role)) s
        (check_tenant_account-state u role s) v
        λ _ _.
          bind-keeps (IsSpent jti) (tenant_rules r u role)
            (λ _. check_employee u >> finish_login c r u role) s w
            λ _ _.
              check-keeps (IsSpent jti) (check_employee u) (λ _. finish_login c r u role) z
                (check_employee-state u z) w (λ _ _. finish_login-IsSpent c r u role z w)

  complete_login-IsSpent :
      (c : Crypto) (r : LoginRequest) (u : User) (s : Accounts)
      → IsSpent jti s
      → IsSpent jti (complete_login c r u s).1
  unfolding complete_login login_as clear_failures
  complete_login-IsSpent c r u s v =
      let z = after_clear u s in
      check-keeps (IsSpent jti) (throw_unless u.email_verified (forbidden email_unverified))
        (λ _. login_as c r u) s (throw_unless-state u.email_verified (forbidden email_unverified) s)
        v
        λ _ _.
          check-keeps (IsSpent jti) (or_throw (login_role u z) (unauthorized role_missing))
            (admit_user c r u) z (or_throw-state (login_role u z) (unauthorized role_missing) z) v
            (λ role _. admit_user-IsSpent c r u role z v)

  check_password-IsSpent :
      (o : Option User) (candidate : User) (s : Accounts)
      → IsSpent jti s
      → IsSpent jti (check_password o candidate s).1
  unfolding check_password reject_password
  check_password-IsSpent none candidate s v = v
  check_password-IsSpent (some u) candidate s v = v

  resume_signup-state : (c : Crypto) (r : LoginRequest) (s : Accounts) → (resume_signup c r s).1 ≡ s
  unfolding resume_signup
  resume_signup-state c r s =
      elim (Option-cases (find (λ x. text_eq x.email (lower r.email)) s.signups)) [
        | inl e ↦ rw (e, resume_signup) refl
        | inr (x, e) ↦ elim (Bool-cases (c.matches r.password x.password_hash)) [
          | inl f ↦ rw (e, f, resume_signup) refl
          | inr f ↦ rw (e, f, resume_signup) refl
        ]
      ]

  pub login_among-IsSpent :
      (c : Crypto) (r : LoginRequest) (users : List User) (s : Accounts)
      → IsSpent jti s
      → IsSpent jti (login_among c r users s).1
  unfolding login_among
  login_among-IsSpent c r [] s v = rw (resume_signup-state c r s) v
  login_among-IsSpent c r (candidate ∷ users) s v =
      let matching = find (λ u. c.matches r.password u.password) (candidate ∷ users) in
      let locked = is_locked (clock s) candidate in
      check-keeps (IsSpent jti) (throw_if locked (bad_request account_locked))
        (λ _. check_password matching candidate >>= complete_login c r) s
        (throw_if-state locked (bad_request account_locked) s) v
        λ _ _.
          bind-keeps (IsSpent jti) (check_password matching candidate) (complete_login c r) s
            (check_password-IsSpent matching candidate s v)
            λ u _.
              complete_login-IsSpent c r u (check_password matching candidate s).1
                (check_password-IsSpent matching candidate s v)

  finish_google-IsSpent :
      (c : Crypto) (platform device ip : Option Text) (u : User) (role : Text) (s : Accounts)
      → IsSpent jti s
      → IsSpent jti (finish_google c platform device ip u role s).1
  unfolding finish_google
  finish_google-IsSpent c platform device ip u role s v =
      let z = (start_session c u role platform device ip false s).1 in
      let w = opened-IsSpent c u role platform device ip false s v in
      let noted = note_login u z in
      let k = grown-IsSpent z noted (note_login-Grows u z) w in
      bind-keeps (IsSpent jti) (start_session c u role platform device ip false)
        (λ tokens.
          modify (note_login u)
          >> (modify (λ y. if is_never u.first_login_time then update_invite_status u.id y else y)
              >> pure (google_answer u role s tokens)))
        s w
        λ tokens _. elim (Bool-cases (is_never u.first_login_time)) [
          | inl e ↦ rw e (
              grown-IsSpent noted (update_invite_status u.id noted)
                (update_invite_status-Grows u.id noted) k)
          | inr e ↦ rw e k
        ]

  google_as-IsSpent :
      (c : Crypto) (platform device ip : Option Text) (u : User) (s : Accounts)
      → IsSpent jti s
      → IsSpent jti (google_as c platform device ip u s).1
  unfolding google_as
  google_as-IsSpent c platform device ip u s v =
      check-keeps (IsSpent jti) (or_throw (login_role u s) (unauthorized role_missing))
        (λ role.
          check_tenant_account u role
          >> (check_employee u >> finish_google c platform device ip u role))
        s (or_throw-state (login_role u s) (unauthorized role_missing) s) v
        λ role _.
          check-keeps (IsSpent jti) (check_tenant_account u role)
            (λ _. check_employee u >> finish_google c platform device ip u role) s
            (check_tenant_account-state u role s) v
            λ _ _.
              check-keeps (IsSpent jti) (check_employee u)
                (λ _. finish_google c platform device ip u role) s (check_employee-state u s) v
                (λ _ _. finish_google-IsSpent c platform device ip u role s v)

  pub google_login-IsSpent :
      (c : Crypto) (email platform device ip : Option Text) (s : Accounts)
      → IsSpent jti s
      → IsSpent jti (google_login c email platform device ip s).1
  unfolding google_login
  google_login-IsSpent c none platform device ip s v = v
  google_login-IsSpent c (some []) platform device ip s v = v
  google_login-IsSpent c (some (x ∷ email)) platform device ip s v =
      let o = first_of (users_of (lower (x ∷ email)) s) in
      check-keeps (IsSpent jti) (or_throw o (bad_request no_account))
        (google_as c platform device ip) s (or_throw-state o (bad_request no_account) s) v
        (λ u _. google_as-IsSpent c platform device ip u s v)
