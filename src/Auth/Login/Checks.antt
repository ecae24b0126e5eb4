-- ===== src/Auth/Login/Checks.antt =====
-- Whom a login lets in.
use tgs_hrms.Base.{
  ap, ◌∙◌, sym, ℕ, ◌≡◌, refl, Text, text_eq, lower, Bool, true, false, not, Option, none, some,
  List, [], ◌∷◌, keep, find, arith, Result, ok, err, check-ok, bind-ok, or_throw-ok, or_throw-state,
  throw_unless-state, throw_unless-ok, throw_if-ok, throw_if-state, unauthorized, forbidden,
  bad_request, role_missing, email_unverified, account_locked, Bool-cases, Option-cases, inl, inr,
  ◌⊎◌, or_throw, throw_unless, throw_if, ◌>>=◌, ◌>>◌,
}
use mathlib.Core.Path.{subst}
use tgs_hrms.Auth.{
  User, Accounts, Crypto, clock, login_role, is_system_admin_role, is_gone, is_suspended,
  find_tenant, check_tenant_account, find_employee, is_deactivated, check_employee,
}
use tgs_hrms.Auth.Tokens.Rotation.{check_tenant_account-state, check_employee-state}
use tgs_hrms.Auth.Device.{LoginRequest}
use tgs_hrms.Auth.Login.{
  LoginSession, LoginOutcome, resumed, signed_in, is_locked, check_password, clear_failures,
  tenant_rules, reject_password, finish_login, admit_user, login_as, complete_login, login_among,
  users_of, validate_user, resume_signup, start_session,
}
use tgs_hrms.Auth.Login.Google.{first_of}
use tgs_hrms.Auth.Login.Rules.{
  check_tenant_account_ok, check_employee_ok, IsWithinRules, tenant_rules-IsFramed, MaySignIn,
  tenant_rules_ok, both,
}

abbrev pub after_clear : User → Accounts → Accounts
after_clear u s = (clear_failures u s).1

-- the session is the user's
abbrev pub IsFor : User → Result LoginOutcome → Type 0
IsFor u (err e) = ⊥
IsFor u (ok (resumed signup)) = ⊥
IsFor u (ok (signed_in l)) = (l.user ≡ u) × (l.access.sub ≡ u.id)

finish_login-IsFor :
    (c : Crypto) (r : LoginRequest) (u : User) (role : Text) (s : Accounts) (x : LoginOutcome)
    → (finish_login c r u role s).0 ≡ ok x
    → IsFor u (ok x)
unfolding finish_login start_session
finish_login-IsFor c r u role s x h = subst (IsFor u) h (refl, refl)

admit_user_ok :
    (c : Crypto) (r : LoginRequest) (u : User) (role : Text) (s : Accounts) (x : LoginOutcome)
    → (admit_user c r u role s).0 ≡ ok x
    → ((is_system_admin_role role ≡ true)
        ⊎ ((is_gone (find_tenant u.tenant_id s.tenants) ≡ false)
            × (is_suspended (find_tenant u.tenant_id s.tenants) ≡ false)
            × IsWithinRules r u role s.whitelist))
      × (is_deactivated (find_employee u.id s.employees) ≡ false)
      × IsFor u (ok x)
unfolding admit_user
admit_user_ok c r u role s x h =
    let (a, tenant, h1, e1) =
      check-ok (check_tenant_account u role)
        (λ _. tenant_rules r u role >> (check_employee u >> finish_login c r u role)) s
        (check_tenant_account-state u role s) h in
    let (b, rules, h2, e2) =
      bind-ok (tenant_rules r u role) (λ _. check_employee u >> finish_login c r u role) s h1 in
    let z = (tenant_rules r u role s).1 in
    let (d, employee, h3, e3) =
      check-ok (check_employee u) (λ _. finish_login c r u role) z (check_employee-state u z) h2 in
    let active : is_deactivated (find_employee u.id z.employees) ≡ false =
      check_employee_ok u z employee in
    let same : z.employees ≡ s.employees =
      ap (λ y. y.employees) (tenant_rules-IsFramed r u role s) in
    (
      both r u role s (check_tenant_account_ok u role s tenant) (tenant_rules_ok r u role s rules),
      sym (ap (λ l. is_deactivated (find_employee u.id l)) same) ∙ active,
      finish_login-IsFor c r u role z x h3,
    )

complete_login_ok :
    (c : Crypto) (r : LoginRequest) (u : User) (s : Accounts) (x : LoginOutcome)
    → (complete_login c r u s).0 ≡ ok x
    → MaySignIn r u s × IsFor u (ok x)
unfolding complete_login login_as clear_failures
complete_login_ok c r u s x h =
    let (a, verified, h1, e1) =
      check-ok (throw_unless u.email_verified (forbidden email_unverified)) (λ _. login_as c r u) s
        (throw_unless-state u.email_verified (forbidden email_unverified) s) h in
    let z = after_clear u s in
    let (role, named, h2, e2) =
      check-ok (or_throw (login_role u z) (unauthorized role_missing)) (admit_user c r u) z
        (or_throw-state (login_role u z) (unauthorized role_missing) z) h1 in
    let (within, active, own) = admit_user_ok c r u role z x h2 in
    (
      record {
        verified = throw_unless-ok u.email_verified (forbidden email_unverified) s a verified;
        role = role;
        named = or_throw-ok (login_role u z) (unauthorized role_missing) z role named;
        within = within;
        active = active;
      },
      own,
    )

check_password_ok :
    (o : Option User) (candidate u : User) (s : Accounts)
    → (check_password o candidate s).0 ≡ ok u
    → (o ≡ some u) × ((check_password o candidate s).1 ≡ s)
unfolding check_password reject_password
check_password_ok none candidate u s h = ground arith
check_password_ok (some x) candidate u s h = (ground arith, refl)

login_among_ok :
    (c : Crypto) (r : LoginRequest) (candidate : User) (users : List User) (s : Accounts)
    (x : LoginOutcome)
    → (login_among c r (candidate ∷ users) s).0 ≡ ok x
    → (is_locked (clock s) candidate ≡ false)
      × ((u : User) × (find (λ u. c.matches r.password u.password) (candidate ∷ users) ≡ some u)
          × MaySignIn r u s
          × IsFor u (ok x))
unfolding login_among
login_among_ok c r candidate users s x h =
    let matching = find (λ u. c.matches r.password u.password) (candidate ∷ users) in
    let locked = is_locked (clock s) candidate in
    let (a, open_, h1, e1) =
      check-ok (throw_if locked (bad_request account_locked))
        (λ _. check_password matching candidate >>= complete_login c r) s
        (throw_if-state locked (bad_request account_locked) s) h in
    let (u, found, h2, e2) =
      bind-ok (check_password matching candidate) (complete_login c r) s h1 in
    let (match, same) = check_password_ok matching candidate u s found in
    let done : (complete_login c r u s).0 ≡ ok x =
      sym (ap (λ z. (complete_login c r u z).0) same) ∙ h2 in
    (
      throw_if-ok locked (bad_request account_locked) s a open_,
      let (may, own) = complete_login_ok c r u s x done in (u, match, may, own),
    )

keep-find :
    (p q : User → Bool) (users : List User) (u : User) → find q (keep p users) ≡ some u → p u ≡ true
keep-find p q [] u h = ground arith
keep-find p q (x ∷ users) u h = elim (Bool-cases (p x)) [
  | inr e ↦ let later = rw e at h in keep-find p q users u later
  | inl e ↦
      let kept = rw e at h in
      elim (Bool-cases (q x)) [
        | inl f ↦
            let this : some x ≡ some u = rw f at kept in
            let same : x ≡ u = ground (arith, this) in sym (ap p same) ∙ e
        | inr f ↦ let later = rw f at kept in keep-find p q users u later
      ]
]

-- the first account of an email decides whether it is locked
abbrev pub is_unlocked : ℕ → Option User → Bool
is_unlocked now none = false
is_unlocked now (some u) = not (is_locked now u)

among_ok :
    (c : Crypto) (r : LoginRequest) (users : List User) (s : Accounts) (l : LoginSession)
    → (login_among c r users s).0 ≡ ok (signed_in l)
    → (is_unlocked (clock s) (first_of users) ≡ true)
      × (find (λ u. c.matches r.password u.password) users ≡ some l.user)
      × MaySignIn r l.user s
      × (l.access.sub ≡ l.user.id)
unfolding login_among resume_signup
among_ok c r [] s l h =
    elim (Option-cases (find (λ x. text_eq x.email (lower r.email)) s.signups)) [
      | inl e ↦ let refused = rw (e, resume_signup) at h in ground arith
      | inr (x, e) ↦ elim (Bool-cases (c.matches r.password x.password_hash)) [
        | inl f ↦ let only = rw (e, f, resume_signup) at h in ground arith
        | inr f ↦ let refused = rw (e, f, resume_signup) at h in ground arith
      ]
    ]
among_ok c r (candidate ∷ users) s l h =
    let (open_, (u, found, may, (same, own))) =
      login_among_ok c r candidate users s (signed_in l) h in
    (
      ap not open_,
      found ∙ ap some (sym same),
      subst (λ z. MaySignIn r z s) (sym same) may,
      own ∙ ap (λ z. z.id) (sym same),
    )

-- If a login opens a session, then the session is that of the first account of the email, in lower case,
-- whose password matches; the first account of the email is not locked; the email of the account is verified, it has a role,
-- and no deactivated employee in the public schema; and unless the role is that of a system administrator, its
-- tenant is there and neither deleted nor suspended, a mobile client is let in by the setting or by the
-- role, and the address by the whitelist or by the role, where one is known.
pub validate_user_lem :
    (c : Crypto) (r : LoginRequest) (s : Accounts) (l : LoginSession)
    → (validate_user c r s).0 ≡ ok (signed_in l)
    → (text_eq l.user.email (lower r.email) ≡ true)
      × (is_unlocked (clock s) (first_of (users_of (lower r.email) s)) ≡ true)
      × (find (λ u. c.matches r.password u.password) (users_of (lower r.email) s) ≡ some l.user)
      × MaySignIn r l.user s
      × (l.access.sub ≡ l.user.id)
unfolding validate_user
validate_user_lem c r s l h =
    let (open_, found, may, own) = among_ok c r (users_of (lower r.email) s) s l h in
    (
      keep-find (λ u. text_eq u.email (lower r.email)) (λ u. c.matches r.password u.password)
          s.users l.user found,
      open_,
      found,
      may,
      own,
    )
