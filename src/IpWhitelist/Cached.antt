-- ===== src/IpWhitelist/Cached.antt =====
-- What the cache of addresses may answer.
use tgs_hrms.Base.{
  ap, ◌∙◌, sym, ℕ, ◌+◌, ◌≡◌, refl, Text, text_eq, Bool, true, false, not, ◌||◌, Option, none, some,
  List, [], ◌∷◌, ◌++◌, keep, any, arith, ◌==◌, if◌then◌else◌, ok, err, Bool-cases, Option-cases,
  inl, inr, forbidden, ip_not_allowed,
}
use tgs_hrms.Settings.{get_boolean}
use tgs_hrms.IpWhitelist.{
  normalize_ip, TenantIp, CacheEntry, Whitelist, is_ip_row, add_ip, remove_ip, restriction,
  is_fresh, ips_of, load_ips, reload_ips, is_ip_whitelisted, admit, is_exempt_role,
  ip_whitelist_guard, set_restriction,
}
use tgs_hrms.IpWhitelist.Normal.{keep_absent, add_ip-rows, remove_ip-rows}

-- the calls of the service, and the passing of time
pub data IpStep : Type 0 where
  add_one : ℕ → Text → IpStep
  remove_one : ℕ → Text → IpStep
  turn : ℕ → Text → IpStep
  ask : ℕ → Text → IpStep
  wait : ℕ → IpStep

unfoldable pub step_ips : IpStep → Whitelist → Whitelist
step_ips (add_one tenant ip) s = (add_ip tenant ip s).1
step_ips (remove_one tenant ip) s = (remove_ip tenant ip s).1
step_ips (turn tenant v) s = set_restriction tenant v s
step_ips (ask tenant ip) s = (is_ip_whitelisted tenant ip s).1
step_ips (wait n) s = record s { now = s.now + n }

unfoldable pub run_ips : List IpStep → Whitelist → Whitelist
run_ips [] s = s
run_ips (a ∷ steps) s = run_ips steps (step_ips a s)

-- every entry of the cache has the addresses of the table
abbrev pub IsCoherent : Whitelist → Type 0
IsCoherent s = (t : ℕ) (e : CacheEntry) → s.cache t ≡ some e → e.ips ≡ ips_of t s.rows

load_ips_lem :
    (tenant : ℕ) (s : Whitelist) → IsCoherent s → (load_ips tenant s).0 ≡ ips_of tenant s.rows
unfolding load_ips
load_ips_lem tenant s c = elim (Option-cases (s.cache tenant)) [
  | inl e ↦ rw (e, load_ips) refl
  | inr (entry, e) ↦ elim (Bool-cases (is_fresh s.now entry)) [
    | inl f ↦ rw (e, load_ips, f) (c tenant entry e)
    | inr f ↦ rw (e, load_ips, f) refl
  ]
]

-- While the cache is coherent, an address is admitted exactly when the check is off for the tenant or
-- the table has the normal form of the address among those of the tenant's rows.
pub is_ip_whitelisted_lem :
    (tenant : ℕ) (ip : Text) (s : Whitelist)
    → IsCoherent s
    → (is_ip_whitelisted tenant ip s).0
      ≡ not (get_boolean tenant restriction s.settings).0
        || any (text_eq (normalize_ip ip)) (ips_of tenant s.rows)
unfolding is_ip_whitelisted
is_ip_whitelisted_lem tenant ip s c =
    elim (Bool-cases (get_boolean tenant restriction s.settings).0) [
      | inl e ↦
          rw (e, is_ip_whitelisted)
            (ap (any (text_eq (normalize_ip ip))) (
              load_ips_lem tenant
                (record s { settings = (get_boolean tenant restriction s.settings).1 }) c))
      | inr e ↦ rw (e, is_ip_whitelisted) refl
    ]

ips_of-append :
    (t : ℕ) (rows : List TenantIp) (r : TenantIp)
    → (r.tenant_id == t) ≡ false
    → ips_of t (rows ++ r ∷ []) ≡ ips_of t rows
ips_of-append t [] r h = rw h refl
ips_of-append t (x ∷ rows) r h = elim (Bool-cases (x.tenant_id == t)) [
  | inl e ↦ rw e (ap (λ l. normalize_ip x.ip_address ∷ l) (ips_of-append t rows r h))
  | inr e ↦ rw e (ips_of-append t rows r h)
]

ips_of-keep :
    (t tenant : ℕ) (ip : Text) (rows : List TenantIp)
    → (tenant == t) ≡ false
    → ips_of t (keep (λ x. not (is_ip_row tenant ip x)) rows) ≡ ips_of t rows
ips_of-keep t tenant ip [] h = refl
ips_of-keep t tenant ip (x ∷ rows) h = elim (Bool-cases (is_ip_row tenant ip x)) [
  | inl e ↦
      let other : (x.tenant_id == t) ≡ false = ground (arith, e, h) in
      rw (e, other) (ips_of-keep t tenant ip rows h)
  | inr e ↦ elim (Bool-cases (x.tenant_id == t)) [
    | inl d ↦ rw (e, d) (ap (λ l. normalize_ip x.ip_address ∷ l) (ips_of-keep t tenant ip rows h))
    | inr d ↦ rw (e, d) (ips_of-keep t tenant ip rows h)
  ]
]

-- the tenant's entry is dropped, and no other tenant's addresses have changed
dropped :
    (tenant : ℕ) (s u : Whitelist)
    → IsCoherent s
    → ((t : ℕ) → (tenant == t) ≡ false → ips_of t u.rows ≡ ips_of t s.rows)
    → ((t : ℕ) → u.cache t ≡ (if tenant == t then none else s.cache t))
    → IsCoherent u
dropped tenant s u c same there t entry h = elim (Bool-cases (tenant == t)) [
  | inl e ↦
      let refused : none ≡ some entry =
        sym (there t ∙ ap (λ b. if b then none else s.cache t) e) ∙ h in
      ground arith
  | inr e ↦
      c t entry (sym (there t ∙ ap (λ b. if b then none else s.cache t) e) ∙ h) ∙ sym (same t e)
]

pub add_ip-IsCoherent :
    (tenant : ℕ) (ip : Text) (s : Whitelist) → IsCoherent s → IsCoherent (add_ip tenant ip s).1
unfolding add_ip
add_ip-IsCoherent tenant ip s c =
    elim (Bool-cases (any (is_ip_row tenant (normalize_ip ip)) s.rows)) [
      | inl e ↦ rw (e, add_ip) c
      | inr e ↦
          let row : TenantIp = record { tenant_id = tenant; ip_address = normalize_ip ip } in
          dropped tenant s (add_ip tenant ip s).1 c
            (λ t d. ap (ips_of t) (add_ip-rows tenant ip s e) ∙ ips_of-append t s.rows row d)
            (λ t. rw (e, add_ip) refl)
    ]

pub remove_ip-IsCoherent :
    (tenant : ℕ) (ip : Text) (s : Whitelist) → IsCoherent s → IsCoherent (remove_ip tenant ip s).1
unfolding remove_ip
remove_ip-IsCoherent tenant ip s c =
    elim (Bool-cases (any (is_ip_row tenant (normalize_ip ip)) s.rows)) [
      | inl e ↦
          dropped tenant s (remove_ip tenant ip s).1 c
            (λ t d.
              ap (ips_of t) (remove_ip-rows tenant ip s)
              ∙ ips_of-keep t tenant (normalize_ip ip) s.rows d)
            (λ t. rw (e, remove_ip) refl)
      | inr e ↦
          let same : (remove_ip tenant ip s).1.rows ≡ s.rows =
            remove_ip-rows tenant ip s ∙ keep_absent tenant (normalize_ip ip) s.rows e in
          λ t entry h. c t entry (sym (rw (e, remove_ip) refl) ∙ h) ∙ sym (ap (ips_of t) same)
    ]

ips_in : List Text → Option CacheEntry → List Text
ips_in ips none = ips
ips_in ips (some e) = e.ips

reload_ips-IsCoherent :
    (tenant : ℕ) (s : Whitelist) → IsCoherent s → IsCoherent (reload_ips tenant s).1
unfolding ips_in
reload_ips-IsCoherent tenant s c t entry h = elim (Bool-cases (tenant == t)) [
  | inl e ↦
      let kept = rw e at h in
      let same : tenant ≡ t = ground (arith, e) in
      sym (ap (ips_in (ips_of tenant s.rows)) kept) ∙ ap (λ x. ips_of x s.rows) same
  | inr e ↦ let kept = rw e at h in c t entry kept
]

load_ips-IsCoherent : (tenant : ℕ) (s : Whitelist) → IsCoherent s → IsCoherent (load_ips tenant s).1
unfolding load_ips
load_ips-IsCoherent tenant s c = elim (Option-cases (s.cache tenant)) [
  | inl e ↦ rw (e, load_ips) (reload_ips-IsCoherent tenant s c)
  | inr (entry, e) ↦ elim (Bool-cases (is_fresh s.now entry)) [
    | inl f ↦ rw (e, load_ips, f) c
    | inr f ↦ rw (e, load_ips, f) (reload_ips-IsCoherent tenant s c)
  ]
]

is_ip_whitelisted-IsCoherent :
    (tenant : ℕ) (ip : Text) (s : Whitelist)
    → IsCoherent s
    → IsCoherent (is_ip_whitelisted tenant ip s).1
unfolding is_ip_whitelisted
is_ip_whitelisted-IsCoherent tenant ip s c =
    let read : Whitelist = record s { settings = (get_boolean tenant restriction s.settings).1 } in
    elim (Bool-cases (get_boolean tenant restriction s.settings).0) [
      | inl e ↦ rw (e, is_ip_whitelisted) (load_ips-IsCoherent tenant read c)
      | inr e ↦ rw (e, is_ip_whitelisted) c
    ]

-- Adding an address, removing one, turning the check on or off, asking about an address and the passing
-- of time each keep the cache coherent, whether the call returns or throws.
pub step_ips-IsCoherent : (a : IpStep) (s : Whitelist) → IsCoherent s → IsCoherent (step_ips a s)
unfolding step_ips set_restriction
step_ips-IsCoherent (add_one tenant ip) s c = add_ip-IsCoherent tenant ip s c
step_ips-IsCoherent (remove_one tenant ip) s c = remove_ip-IsCoherent tenant ip s c
step_ips-IsCoherent (turn tenant v) s c =
    dropped tenant s (set_restriction tenant v s) c (λ t d. refl) (λ t. refl)
step_ips-IsCoherent (ask tenant ip) s c = is_ip_whitelisted-IsCoherent tenant ip s c
step_ips-IsCoherent (wait n) s c = c

-- From a coherent cache, after any sequence of calls of the service and of waiting, an address is admitted
-- exactly when the check is off for the tenant or the tenant's rows have the normal form of the address.
pub run_ips_lem :
    (steps : List IpStep) (tenant : ℕ) (ip : Text) (s : Whitelist)
    → IsCoherent s
    → (is_ip_whitelisted tenant ip (run_ips steps s)).0
      ≡ not (get_boolean tenant restriction (run_ips steps s).settings).0
        || any (text_eq (normalize_ip ip)) (ips_of tenant (run_ips steps s).rows)
unfolding run_ips
run_ips_lem [] tenant ip s c = is_ip_whitelisted_lem tenant ip s c
run_ips_lem (a ∷ steps) tenant ip s c =
    run_ips_lem steps tenant ip (step_ips a s) (step_ips-IsCoherent a s c)

admit_lem :
    (a : Bool × Whitelist) → (admit a).0 ≡ (if a.0 then ok true else err (forbidden ip_not_allowed))
admit_lem (true, s) = refl
admit_lem (false, s) = refl

-- From a coherent cache, after any sequence of calls of the service and of waiting, the guard lets a user of a
-- tenant in to a route that is neither public nor exempt, who is no administrator, exactly when the check is off
-- for the tenant or the tenant's rows have the normal form of the address; otherwise it throws a 403.
pub ip_whitelist_guard_lem :
    (steps : List IpStep) (tenant : ℕ) (role : Option Text) (ip : Text) (s : Whitelist)
    → IsCoherent s
    → is_exempt_role role ≡ false
    → (ip_whitelist_guard false false (some tenant) role ip (run_ips steps s)).0 ≡ (
        if not (get_boolean tenant restriction (run_ips steps s).settings).0
          || any (text_eq (normalize_ip ip)) (ips_of tenant (run_ips steps s).rows)
        then ok true
        else err (forbidden ip_not_allowed))
unfolding ip_whitelist_guard
ip_whitelist_guard_lem steps tenant role ip s c e =
    rw (e, ip_whitelist_guard) (admit_lem (is_ip_whitelisted tenant ip (run_ips steps s)))
    ∙ ap (λ b. if b then ok true else err (forbidden ip_not_allowed))
        (run_ips_lem steps tenant ip s c)
