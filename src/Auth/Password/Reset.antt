-- ===== src/Auth/Password/Reset.antt =====
-- From a forgotten password to a new one.
use tgs_hrms.Base.{
  ap, ◌∙◌, sym, ℕ, ◌+◌, ◌≡◌, refl, Text, text_eq, lower, Bool, true, false, Option, none, some,
  List, [], ◌∷◌, ◌++◌, map, keep, find, any, All, arith, ◌==◌, ltb, if◌then◌else◌, Bool-cases, inl,
  inr, ◌⊎◌,
}
use mathlib.Core.Path.{subst}
use tgs_hrms.Auth.{User, Accounts, reset_link, Crypto, clock, update_user, find_tenant, is_gone}
use tgs_hrms.Auth.Joining.{update_invite_status, join_in}
use tgs_hrms.Auth.Login.Google.{first_of}
use tgs_hrms.Auth.Password.{
  hours, find_email, with_reset, forgot_password, has_reset, reset_to, reset_each, reset_password,
}

-- every row with the identifier has the new password and no token
abbrev pub IsReset : ℕ → Text → User → Type 0
IsReset i password u = ((u.id == i) ≡ false) ⊎ ((u.password ≡ password) × (u.reset_token ≡ none))

join_in-users : (user : ℕ) (o : Option User) (s : Accounts) → (join_in user o s).users ≡ s.users
join_in-users user none s = refl
join_in-users user (some u) s = elim (Bool-cases (s.provisioned u.tenant_id)) [
  | inl e ↦ rw e refl
  | inr e ↦ rw e refl
]

update_invite_status-users :
    (user : ℕ) (s : Accounts) → (update_invite_status user s).users ≡ s.users
unfolding update_invite_status
update_invite_status-users user s = join_in-users user (find (λ u. u.id == user) s.users) s

module _ (i : ℕ) (password : Text) where
  reset_to-IsReset :
      (id : ℕ) (u : User)
      → IsReset i password u
      → IsReset i password (if u.id == id then reset_to password u else u)
  reset_to-IsReset id u h = elim (Bool-cases (u.id == id)) [
    | inl e ↦ rw e (inr (refl, refl))
    | inr e ↦ rw e h
  ]

  reset_to-all :
      (id : ℕ) (users : List User)
      → All (IsReset i password) users
      → All (IsReset i password) (map (λ u. if u.id == id then reset_to password u else u) users)
  reset_to-all id [] h = tt
  reset_to-all id (u ∷ users) h = (reset_to-IsReset id u h.0, reset_to-all id users h.1)

  -- the update of the account itself
  reset_to-own :
      (users : List User)
      → All (IsReset i password) (map (λ u. if u.id == i then reset_to password u else u) users)
  reset_to-own [] = tt
  reset_to-own (u ∷ users) = (
    elim (Bool-cases (u.id == i)) [ inl e ↦ rw e (inr (refl, refl)) | inr e ↦ rw e (inl e) ],
    reset_to-own users,
  )

  abbrev step_reset : ℕ → Accounts → Accounts
  step_reset id s = update_invite_status id (update_user id (reset_to password) s)

  step_reset-users :
      (id : ℕ) (s : Accounts)
      → (step_reset id s).users ≡ (update_user id (reset_to password) s).users
  step_reset-users id s = update_invite_status-users id (update_user id (reset_to password) s)

  reset_each-keeps :
      (matching : List User) (s : Accounts)
      → All (IsReset i password) s.users
      → All (IsReset i password) (reset_each password matching s).users
  unfolding reset_each
  reset_each-keeps [] s h = h
  reset_each-keeps (m ∷ matching) s h = reset_each-keeps matching (step_reset m.id s) (
      subst (All (IsReset i password)) (sym (step_reset-users m.id s))
        (reset_to-all m.id s.users h))

  -- a loop that meets the account leaves it reset
  reset_each-meets :
      (matching : List User) (s : Accounts)
      → any (λ m. m.id == i) matching ≡ true
      → All (IsReset i password) (reset_each password matching s).users
  unfolding reset_each
  reset_each-meets [] s h = ground arith
  reset_each-meets (m ∷ matching) s h = elim (Bool-cases (m.id == i)) [
    | inl e ↦
        let same : m.id ≡ i = ground (arith, e) in
        let own : All (IsReset i password) (update_user m.id (reset_to password) s).users =
          rw same (reset_to-own s.users) in
        reset_each-keeps matching (step_reset m.id s)
          (subst (All (IsReset i password)) (sym (step_reset-users m.id s)) own)
    | inr e ↦ reset_each-meets matching (step_reset m.id s) (rw e at h)
  ]

-- the rows after a reset of which an account matched
reset_password-users :
    (c : Crypto) (token password : Text) (s : Accounts) (first : User)
    → first_of (keep (has_reset c token (clock s)) s.users) ≡ some first
    → (reset_password c token password s).1.users
      ≡ (reset_each
          (c.hash s.draws password)
          (keep (has_reset c token (clock s)) s.users)
          (record s { draws = s.draws + 1 })).users
unfolding reset_password
reset_password-users c token password s first e =
    let z =
      reset_each (c.hash s.draws password) (keep (has_reset c token (clock s)) s.users)
        (record s { draws = s.draws + 1 }) in
    elim (Bool-cases (is_gone (find_tenant first.tenant_id z.tenants))) [
      | inl g ↦ rw (e, g) refl
      | inr g ↦ rw (e, g) refl
    ]

first_of-any :
    (p : User → Bool) (users : List User)
    → any p users ≡ true
    → (u : User) × (first_of users ≡ some u)
first_of-any p [] h = absurd (ground (arith, h))
first_of-any p (u ∷ users) h = (u, refl)

-- If a token matches that of an account and is not over, then a reset with it, whether or not it throws for
-- a tenant that is missing, gives the account the new password and takes its token.
pub reset_password_lem :
    (c : Crypto) (token password : Text) (s : Accounts) (i : ℕ)
    → any (λ m. m.id == i) (keep (has_reset c token (clock s)) s.users) ≡ true
    → All (IsReset i (c.hash s.draws password)) (reset_password c token password s).1.users
reset_password_lem c token password s i h =
    let matching = keep (has_reset c token (clock s)) s.users in
    let (first, e) = first_of-any (λ m. m.id == i) matching h in
    subst (All (IsReset i (c.hash s.draws password)))
      (sym (reset_password-users c token password s first e))
      (reset_each-meets i (c.hash s.draws password) matching (record s { draws = s.draws + 1 }) h)

-- the account keeps its place when its token is stored
stored :
    (p q : User → Bool) (f : User → User) (users : List User) (r : User → Bool) (u : User)
    → find r users ≡ some u
    → p (f u) ≡ true
    → q (f u) ≡ true
    → any q (keep p (map f users)) ≡ true
stored p q f [] r u h a b = ground arith
stored p q f (x ∷ users) r u h a b = elim (Bool-cases (r x)) [
  | inl e ↦
      let this : some x ≡ some u = rw e at h in
      let same : x ≡ u = ground (arith, this) in
      let pass : p (f x) ≡ true = ap (λ z. p (f z)) same ∙ a in
      let own : q (f x) ≡ true = ap (λ z. q (f z)) same ∙ b in rw (pass, own) refl
  | inr e ↦
      let later = rw e at h in
      let rest = stored p q f users r u later a b in
      elim (Bool-cases (p (f x))) [ inl g ↦ rw g (ground (arith, rest)) | inr g ↦ rw g rest ]
]

-- time passes
abbrev pub later : ℕ → Accounts → Accounts
later n s = record s { whitelist = record (s.whitelist) { now = clock s + n } }

abbrev storing : Crypto → User → Accounts → User → User
storing c u s x =
    if x.id == u.id
    then with_reset (c.hash (s.draws + 1) (c.secret s.draws)) (clock s + hours 1) x
    else x

own_id : (c : Crypto) (u : User) (s : Accounts) → ((storing c u s u).id == u.id) ≡ true
own_id c u s = let self : (u.id == u.id) ≡ true = ground arith in rw self self

matching_token :
    (c : Crypto) (u : User) (s : Accounts) (n : ℕ)
    → ((salt : ℕ) (t : Text) → c.matches t (c.hash salt t) ≡ true)
    → ltb n (hours 1) ≡ true
    → has_reset c (c.secret s.draws) (clock s + n) (storing c u s u) ≡ true
unfolding has_reset
matching_token c u s n law soon =
    let self : (u.id == u.id) ≡ true = ground arith in
    let fits = law (s.draws + 1) (c.secret s.draws) in
    let ahead : ltb (clock s + n) (clock s + hours 1) ≡ true = ground (arith, soon) in
    rw (self, has_reset, ahead, fits) refl

-- Let an email have an account whose tenant is there. A forgotten password puts a reset link on the list of mails,
-- and a reset with the token of this link, less than an hour later, gives the account the new password, which
-- bcrypt then matches, and takes the token away.
pub reset_password-forgot_password :
    (c : Crypto) (email password : Text) (s : Accounts) (u : User) (n : ℕ)
    → ((salt : ℕ) (t : Text) → c.matches t (c.hash salt t) ≡ true)
    → find_email email s.users ≡ some u
    → is_gone (find_tenant u.tenant_id s.tenants) ≡ false
    → ltb n (hours 1) ≡ true
    → ((forgot_password c email s).1.mails ≡ s.mails ++ reset_link u.email (c.secret s.draws) ∷ [])
      × All
          (IsReset u.id (c.hash (s.draws + 1 + 1) password))
          (reset_password c
            (c.secret s.draws)
            password
            (later n (forgot_password c email s).1)).1.users
      × (c.matches password (c.hash (s.draws + 1 + 1) password) ≡ true)
unfolding forgot_password
reset_password-forgot_password c email password s u n law found tenant soon =
    let z : Accounts = record s {
      users = map (storing c u s) s.users;
      draws = s.draws + 1 + 1;
      mails = s.mails ++ reset_link u.email (c.secret s.draws) ∷ [];
    } in
    let forgot : (forgot_password c email s).1 ≡ z = rw (found, tenant) (rw tenant refl) in
    let token = c.secret s.draws in
    let hit : any (λ m. m.id == u.id) (keep (has_reset c token (clock (later n z))) z.users)
        ≡ true =
      stored (has_reset c token (clock (later n z))) (λ m. m.id == u.id) (storing c u s) s.users
        (λ x. text_eq x.email (lower email)) u found (matching_token c u s n law soon)
        (own_id c u s) in
    (
      ap (λ y. y.mails) forgot,
      subst
          (λ y.
            All (IsReset u.id (c.hash (s.draws + 1 + 1) password))
              (reset_password c token password (later n y)).1.users)
          (sym forgot) (reset_password_lem c token password (later n z) u.id hit),
      law (s.draws + 1 + 1) password,
    )
