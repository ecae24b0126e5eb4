-- ===== src/Settings.antt =====
-- src/modules/tenant-settings/tenant-settings.service.ts: the settings of the tenants, in a table and in
-- a cache before it. A `Map` is an association list: `set` writes the entry of the key or adds one.
pub mod Entries
pub mod Replay
use tgs_hrms.Base.{
  ℕ, Text, codes, text_eq, Bool, true, false, ◌&&◌, Option, none, some, List, [], ◌∷◌, ◌++◌, keep,
  any, ◌==◌, if◌then◌else◌,
}

-- src/entities/tenant-setting.entity.ts
pub record TenantSetting : Type 0 where
  pub tenant_id : ℕ
  pub key : Text
  pub value : Text

abbrev pub Entries : Type 0
Entries = List (Text × Text)

unfoldable pub map_get : Text → Entries → Option Text
map_get k [] = none
map_get k ((j, v) ∷ m) = if text_eq j k then some v else map_get k m

unfoldable pub map_set : Text → Text → Entries → Entries
map_set k v [] = (k, v) ∷ []
map_set k v ((j, w) ∷ m) =
    let rest = map_set k v m in if text_eq j k then (j, v) ∷ m else (j, w) ∷ rest

-- the table, and what the service has of it in memory
pub record Settings : Type 0 where
  pub rows : List TenantSetting
  pub cache : ℕ → Option Entries

-- `DEFAULTS`
abbrev pub defaults : Entries
defaults =
    (codes "mobile_login_enabled", codes "true")
    ∷ (codes "leave_workflow_enabled", codes "false")
    ∷ (codes "wfh_workflow_enabled", codes "false")
    ∷ (codes "overtime_workflow_enabled", codes "false")
    ∷ (codes "ip_restriction_enabled", codes "false")
    ∷ []

abbrev pub put_cache : ℕ → Option Entries → Settings → Settings
put_cache tenant entries s = record s { cache = λ t. if tenant == t then entries else s.cache t }

-- `new Map(rows.map((r) => [r.key, r.value]))`
unfoldable pub map_of : List TenantSetting → Entries → Entries
map_of [] m = m
map_of (r ∷ rows) m = map_of rows (map_set r.key r.value m)

-- `repo.find({ where: { tenant_id } })`
abbrev pub rows_of : ℕ → List TenantSetting → List TenantSetting
rows_of tenant rows = keep (λ r. r.tenant_id == tenant) rows

unfoldable pub load_tenant : ℕ → Settings → Entries × Settings
load_tenant tenant s = elim (s.cache tenant) [
  | some entries ↦ (entries, s)
  | none ↦
      let entries = map_of (rows_of tenant s.rows) [] in
      (entries, put_cache tenant (some entries) s)
]

-- `a ?? b`
abbrev pub or_else : Option Text → Text → Text
or_else none b = b
or_else (some a) b = a

-- what is answered for an entry of the table, or for none
abbrev pub with_default : Text → Option Text → Text
with_default k o = or_else o (or_else (map_get k defaults) (codes "false"))

unfoldable pub get : ℕ → Text → Settings → Text × Settings
get tenant k s =
    let (entries, s') = load_tenant tenant s in (with_default k (map_get k entries), s')

unfoldable pub get_boolean : ℕ → Text → Settings → Bool × Settings
get_boolean tenant k s = let (v, s') = get tenant k s in (text_eq v (codes "true"), s')

abbrev pub is_row : ℕ → Text → TenantSetting → Bool
is_row tenant k r = (r.tenant_id == tenant) && text_eq r.key k

-- the update of an upsert
unfoldable pub write_rows : ℕ → Text → Text → List TenantSetting → List TenantSetting
write_rows tenant k v [] = []
write_rows tenant k v (r ∷ rows) =
    let rest = write_rows tenant k v rows in
    if is_row tenant k r then record r { value = v } ∷ rest else r ∷ rest

-- `repo.upsert` on the pair of tenant and key
unfoldable pub upsert : ℕ → Text → Text → List TenantSetting → List TenantSetting
unfolding write_rows
upsert tenant k v rows =
    if any (is_row tenant k) rows
    then write_rows tenant k v rows
    else rows ++ record { tenant_id = tenant; key = k; value = v } ∷ []

unfoldable pub set : ℕ → Text → Text → Settings → Settings
set tenant k v s =
    let written : Settings = record s { rows = upsert tenant k v s.rows } in
    let (entries, s') = load_tenant tenant written in
    put_cache tenant (some (map_set k v entries)) s'

-- `tenantCache.forEach((value, key) => { result[key] = value; })`
unfoldable pub override : Entries → Entries → Entries
override [] result = result
override ((k, v) ∷ m) result = override m (map_set k v result)

unfoldable pub get_all : ℕ → Settings → Entries × Settings
get_all tenant s = let (entries, s') = load_tenant tenant s in (override entries defaults, s')

unfoldable pub invalidate : ℕ → Settings → Settings
invalidate tenant s = put_cache tenant none s
