-- ===== src/Auth/Login/Lockout.antt =====
-- Wrong passwords and the lock.
use tgs_hrms.Base.{
  ap, ◌∙◌, sym, ℕ, suc, ◌+◌, ◌*◌, ◌≤◌, ◌<◌, ◌≡◌, refl, Text, text_eq, lower, Bool, true, false,
  none, List, [], ◌∷◌, map, keep, length, find, arith, ◌==◌, leb, if◌then◌else◌, err, bad_request,
  account_locked, Bool-cases, inl, inr, ◌⊎◌,
}
use mathlib.Core.Path.{subst}
use tgs_hrms.Auth.{User, Accounts, Crypto, clock, update_user}
use tgs_hrms.Auth.Device.{LoginRequest}
use tgs_hrms.Auth.Login.{
  is_locked, failed, refusal, reject_password, check_password, login_among, users_of, validate_user,
}

-- While the first account of an email is locked, a login is refused whatever the password, and nothing changes.
pub locked_out :
    (c : Crypto) (r : LoginRequest) (s : Accounts) (u : User) (users : List User)
    → users_of (lower r.email) s ≡ u ∷ users
    → is_locked (clock s) u ≡ true
    → validate_user c r s ≡ (err (bad_request account_locked), s)
unfolding validate_user login_among
locked_out c r s u users e h = rw (e, h) refl

-- what a wrong password writes
abbrev pub after_failure : User → Accounts → Accounts
after_failure u s = update_user u.id (failed (clock s) (u.failed_login_attempts + 1)) s

pub wrong_password_lem :
    (c : Crypto) (r : LoginRequest) (s : Accounts) (u : User) (users : List User)
    → users_of (lower r.email) s ≡ u ∷ users
    → is_locked (clock s) u ≡ false
    → find (λ u. c.matches r.password u.password) (u ∷ users) ≡ none
    → validate_user c r s ≡ (err (refusal (u.failed_login_attempts + 1)), after_failure u s)
unfolding validate_user login_among check_password reject_password
wrong_password_lem c r s u users e h f = rw (e, h, f) refl

keep-map :
    (p : User → Bool) (g : User → User) (users : List User)
    → ((u : User) → p (g u) ≡ p u)
    → keep p (map g users) ≡ map g (keep p users)
keep-map p g [] h = refl
keep-map p g (u ∷ users) h = elim (Bool-cases (p u)) [
  | inl e ↦ rw (h u, e) (ap (λ l. g u ∷ l) (keep-map p g users h))
  | inr e ↦ rw (h u, e) (keep-map p g users h)
]

abbrev marked : User → Accounts → User → User
marked u s x = if x.id == u.id then failed (clock s) (u.failed_login_attempts + 1) x else x

marked_email :
    (email : Text) (u x : User) (s : Accounts)
    → text_eq (marked u s x).email email ≡ text_eq x.email email
marked_email email u x s = elim (Bool-cases (x.id == u.id)) [
  | inr e ↦ rw e refl
  | inl e ↦ elim (Bool-cases (leb 5 (u.failed_login_attempts + 1))) [
    | inl f ↦ rw (e, f) refl
    | inr f ↦ rw (e, f) refl
  ]
]

marked_password : (u x : User) (s : Accounts) → (marked u s x).password ≡ x.password
marked_password u x s = elim (Bool-cases (x.id == u.id)) [
  | inr e ↦ rw e refl
  | inl e ↦ elim (Bool-cases (leb 5 (u.failed_login_attempts + 1))) [
    | inl f ↦ rw (e, f) refl
    | inr f ↦ rw (e, f) refl
  ]
]

-- no account of the list has the password
abbrev pub IsWrong : Crypto → Text → List User → Type 0
IsWrong c password users = find (λ u. c.matches password u.password) users ≡ none

marked-IsWrong :
    (c : Crypto) (password : Text) (u : User) (s : Accounts) (users : List User)
    → IsWrong c password users
    → IsWrong c password (map (marked u s) users)
marked-IsWrong c password u s [] h = refl
marked-IsWrong c password u s (x ∷ users) h = elim (Bool-cases (c.matches password x.password)) [
  | inl e ↦ let refused = rw e at h in ground arith
  | inr e ↦
      let later = rw e at h in
      rw (marked_password u x s, e) (marked-IsWrong c password u s users later)
]

-- logins with an email and wrong passwords, one after another
abbrev pub try_all : Crypto → List LoginRequest → Accounts → Accounts
try_all c [] s = s
try_all c (r ∷ requests) s = try_all c requests (validate_user c r s).1

abbrev pub AllWrong : Crypto → Text → List User → List LoginRequest → Type 0
AllWrong c email users [] = Unit
AllWrong c email users (r ∷ requests) =
    (lower r.email ≡ email) × IsWrong c r.password users × AllWrong c email users requests

marked-AllWrong :
    (c : Crypto) (email : Text) (u : User) (s : Accounts) (users : List User)
    (requests : List LoginRequest)
    → AllWrong c email users requests
    → AllWrong c email (map (marked u s) users) requests
marked-AllWrong c email u s users [] h = tt
marked-AllWrong c email u s users (r ∷ requests) (e, w, rest) =
    (e, marked-IsWrong c r.password u s users w, marked-AllWrong c email u s users requests rest)

-- locked, or with so many requests to come that it will be
abbrev pub IsDue : ℕ → User → ℕ → Type 0
IsDue now u requests =
    (is_locked now u ≡ true)
    ⊎ ((u.failed_login_attempts < 5) × (5 ≤ u.failed_login_attempts + requests))

marked_self :
    (u : User) (s : Accounts) → marked u s u ≡ failed (clock s) (u.failed_login_attempts + 1) u
marked_self u s = let self : (u.id == u.id) ≡ true = ground arith in rw self refl

marked-IsDue :
    (u : User) (s : Accounts) (n : ℕ)
    → u.failed_login_attempts < 5
    → 5 ≤ u.failed_login_attempts + suc n
    → IsDue (clock s) (marked u s u) n
marked-IsDue u s n few due = elim (Bool-cases (leb 5 (u.failed_login_attempts + 1))) [
  | inl e ↦ inl (rw (marked_self u s, e) (ground arith))
  | inr e ↦ inr (rw (marked_self u s, e) (ground arith))
]

abbrev pub Ends : ℕ → Text → Accounts → Type 0
Ends now email s =
    (u : User) × (users : List User) × (users_of email s ≡ u ∷ users)
    × (is_locked now u ≡ true)
    × (clock s ≡ now)

users_of-failure :
    (email : Text) (s : Accounts) (u : User) (users : List User)
    → users_of email s ≡ u ∷ users
    → users_of email (after_failure u s) ≡ marked u s u ∷ map (marked u s) users
users_of-failure email s u users e =
    keep-map (λ x. text_eq x.email email) (marked u s) s.users (λ x. marked_email email u x s)
    ∙ ap (map (marked u s)) e

try_all-Ends :
    (c : Crypto) (email : Text) (requests : List LoginRequest) (s : Accounts) (u : User)
    (users : List User)
    → users_of email s ≡ u ∷ users
    → AllWrong c email (u ∷ users) requests
    → IsDue (clock s) u (length requests)
    → Ends (clock s) email (try_all c requests s)
try_all-Ends c email [] s u users e w (inl locked) = (u, users, e, locked, refl)
try_all-Ends c email [] s u users e w (inr (few, due)) = absurd (omega arith)
try_all-Ends c email (r ∷ requests) s u users e (m, w, rest) k =
    let here : users_of (lower r.email) s ≡ u ∷ users = rw m e in
    let now = clock s in
    elim (Bool-cases (is_locked now u)) [
      | inl locked ↦
          let still = try_all-Ends c email requests s u users e rest (inl locked) in
          subst (λ z. Ends now email (try_all c requests z.1))
            (sym (locked_out c r s u users here locked)) still
      | inr open_ ↦ elim k [
        | inl locked ↦ absurd (ground (arith, locked, open_))
        | inr (few, due) ↦
            let next =
              try_all-Ends c email requests (after_failure u s) (marked u s u)
                (map (marked u s) users) (users_of-failure email s u users e)
                (marked-AllWrong c email u s (u ∷ users) requests rest)
                (marked-IsDue u s (length requests) few due) in
            subst (λ z. Ends now email (try_all c requests z.1))
              (sym (wrong_password_lem c r s u users here open_ w)) next
      ]
    ]

-- Whoever sends wrong passwords for an email, at one time, so many that the failures of its first account,
-- fewer than five before, come to five, is told with any further login for this email, whatever the
-- password, that the account is locked, and nothing changes.
pub five_failures_lock :
    (c : Crypto) (email : Text) (requests : List LoginRequest) (s : Accounts) (u : User)
    (users : List User) (r : LoginRequest)
    → users_of email s ≡ u ∷ users
    → AllWrong c email (u ∷ users) requests
    → u.failed_login_attempts < 5
    → 5 ≤ u.failed_login_attempts + length requests
    → lower r.email ≡ email
    → validate_user c r (try_all c requests s)
      ≡ (err (bad_request account_locked), try_all c requests s)
five_failures_lock c email requests s u users r e w few due m =
    let (v, rest, f, locked, time) = try_all-Ends c email requests s u users e w (inr (few, due)) in
    locked_out c r (try_all c requests s) v rest (rw m f) (rw time locked)

-- The fifth failure locks until fifteen minutes later, so a login at any time before is refused.
pub lock_lasts :
    (u : User) (now later attempts : ℕ)
    → 5 ≤ attempts
    → later < now + 15 * 60000
    → is_locked later (failed now attempts u) ≡ true
lock_lasts u now later attempts h l =
    let full : leb 5 attempts ≡ true = ground arith in rw full (ground arith)
