-- ===== src/IpWhitelist.antt =====
-- src/modules/ip-whitelist/ip-whitelist.service.ts, src/common/utils/ip.util.ts and
-- src/common/guards/ip-whitelist.guard.ts: the addresses from which a tenant may be used, in a table and
-- in a cache that forgets after 30 seconds. The setting that turns the check on is read through Settings.
pub mod Normal
pub mod Cached
use tgs_hrms.Base.{
  ℕ, zero, suc, ◌+◌, ◌-◌, Text, codes, text_eq, lower, Bool, true, false, not, ◌&&◌, ◌||◌, Option,
  none, some, List, [], ◌∷◌, ◌++◌, map, keep, any, ◌==◌, leb, ltb, if◌then◌else◌, Exec, Error,
  conflict, not_found, forbidden, already_listed, not_listed, ip_not_allowed, ok, err, Result, pure,
  gets, throw_if, throw_unless, modify, ◌>>=◌, ◌>>◌,
}
use tgs_hrms.Settings
use tgs_hrms.Settings.{Settings, get_boolean}

abbrev pub is_ip_digit : ℕ → Bool
is_ip_digit c = leb b'0' c && leb c b'9'

-- /^\d+\.\d+\.\d+\.\d+$/, where `dots` are still to come and `seen` says that a group has a digit
unfoldable pub is_dotted : ℕ → Bool → Text → Bool
is_dotted dots seen [] = (dots == 0) && seen
is_dotted dots seen (c ∷ s) =
    let more = is_dotted dots true s in
    let next = is_dotted (dots - 1) false s in
    if is_ip_digit c then more else if (c == b'.') && seen && ltb 0 dots then next else false

-- what follows a prefix, in upper or lower case
unfoldable pub drop_prefix : Text → Text → Option Text
drop_prefix [] s = some s
drop_prefix (p ∷ prefix) [] = none
drop_prefix (p ∷ prefix) (c ∷ s) =
    let rest = drop_prefix prefix s in if text_eq (lower (c ∷ [])) (p ∷ []) then rest else none

abbrev pub mapped : Text → Option Text → Text
mapped ip none = ip
mapped ip (some rest) = if is_dotted 3 false rest then rest else ip

-- `normalizeIp`
unfoldable pub normalize_ip : Text → Text
normalize_ip ip = mapped ip (drop_prefix (codes "::ffff:") ip)

-- what the service reads of a row of src/entities/tenant-ip-whitelist.entity.ts
pub record TenantIp : Type 0 where
  pub tenant_id : ℕ
  pub ip_address : Text

pub record CacheEntry : Type 0 where
  pub ips : List Text
  pub cached_at : ℕ

pub record Whitelist : Type 0 where
  pub rows : List TenantIp
  pub cache : ℕ → Option CacheEntry
  pub settings : Settings
  pub now : ℕ

abbrev pub is_ip_row : ℕ → Text → TenantIp → Bool
is_ip_row tenant ip r = (r.tenant_id == tenant) && text_eq r.ip_address ip

abbrev pub put_entry : ℕ → Option CacheEntry → Whitelist → Whitelist
put_entry tenant entry s = record s { cache = λ t. if tenant == t then entry else s.cache t }

abbrev pub invalidate_ips : ℕ → Whitelist → Whitelist
invalidate_ips tenant s = put_entry tenant none s

abbrev pub put_rows : List TenantIp → Whitelist → Whitelist
put_rows rows s = record s { rows = rows }

unfoldable pub add_ip : ℕ → Text → Exec Whitelist TenantIp
add_ip tenant ip = do
  let row : TenantIp = record { tenant_id = tenant; ip_address = normalize_ip ip }
  rows ← gets (λ s. s.rows)
  throw_if (any (is_ip_row tenant (normalize_ip ip)) rows) (conflict already_listed)
  modify (put_rows (rows ++ row ∷ []))
  modify (invalidate_ips tenant)
  pure row

unfoldable pub remove_ip : ℕ → Text → Exec Whitelist Text
remove_ip tenant ip = do
  rows ← gets (λ s. s.rows)
  modify (put_rows (keep (λ r. not (is_ip_row tenant (normalize_ip ip) r)) rows))
  throw_unless (any (is_ip_row tenant (normalize_ip ip)) rows) (not_found not_listed)
  modify (invalidate_ips tenant)
  pure (normalize_ip ip)

abbrev pub restriction : Text
restriction = codes "ip_restriction_enabled"

unfoldable pub set_restriction : ℕ → Text → Whitelist → Whitelist
set_restriction tenant v s =
    invalidate_ips tenant (record s { settings = Settings.set tenant restriction v s.settings })

-- `Date.now() - entry.cachedAt < CACHE_TTL_MS`
abbrev pub is_fresh : ℕ → CacheEntry → Bool
is_fresh now e = ltb (now - e.cached_at) 30000

abbrev pub ips_of : ℕ → List TenantIp → List Text
ips_of tenant rows = map (λ r. normalize_ip r.ip_address) (keep (λ r. r.tenant_id == tenant) rows)

abbrev pub reload_ips : ℕ → Whitelist → List Text × Whitelist
reload_ips tenant s =
    let ips = ips_of tenant s.rows in
    (ips, put_entry tenant (some (record { ips = ips; cached_at = s.now })) s)

unfoldable pub load_ips : ℕ → Whitelist → List Text × Whitelist
load_ips tenant s = elim (s.cache tenant) [
  | none ↦ reload_ips tenant s
  | some e ↦ if is_fresh s.now e then (e.ips, s) else reload_ips tenant s
]

abbrev pub ask_ips : Text → List Text × Whitelist → Bool × Whitelist
ask_ips ip (ips, s) = (any (text_eq ip) ips, s)

unfoldable pub is_ip_whitelisted : ℕ → Text → Whitelist → Bool × Whitelist
is_ip_whitelisted tenant ip s =
    let (enabled, settings) = get_boolean tenant restriction s.settings in
    let s' : Whitelist = record s { settings = settings } in
    if enabled then ask_ips (normalize_ip ip) (load_ips tenant s') else (true, s')

-- `ADMIN_ROLES`
abbrev pub is_exempt_role : Option Text → Bool
is_exempt_role none = false
is_exempt_role (some role) =
    any (text_eq role) (codes "admin" ∷ codes "system-admin" ∷ codes "network-admin" ∷ [])

abbrev pub admit : Bool × Whitelist → Result Bool × Whitelist
admit (true, s) = (ok true, s)
admit (false, s) = (err (forbidden ip_not_allowed), s)

-- `canActivate` of the guard; `ip` is `request.clientIp ?? request.ip ?? '0.0.0.0'`
unfoldable pub ip_whitelist_guard :
    Bool → Bool → Option ℕ → Option Text → Text → Whitelist → Result Bool × Whitelist
ip_whitelist_guard is_public bypass none role ip s = (ok true, s)
ip_whitelist_guard is_public bypass (some tenant) role ip s =
    if is_public || bypass || is_exempt_role role
    then (ok true, s)
    else admit (is_ip_whitelisted tenant ip s)
