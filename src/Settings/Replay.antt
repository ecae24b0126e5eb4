-- ===== src/Settings/Replay.antt =====
-- The cache is not seen: the service answers as the table would.
use tgs_hrms.Base.{
  sym, ap, ◌∙◌, ℕ, ◌≡◌, refl, Text, codes, text_eq, Bool, false, ◌&&◌, Option, none, some, List, [],
  ◌∷◌, ◌==◌, if◌then◌else◌, arith, Bool-cases, Option-cases, inl, inr,
}
use mathlib.Core.Path.{subst}
use tgs_hrms.Settings.{
  TenantSetting, Entries, map_get, map_set, Settings, put_cache, map_of, rows_of, load_tenant,
  with_default, get, get_boolean, upsert, set, invalidate,
}
use tgs_hrms.Settings.Entries.{stored, get-set, get-map_of, stored-upsert}

-- what the service holds of a tenant are the entries of the table
abbrev pub IsCoherent : Settings → Type 0
IsCoherent s =
    (tenant : ℕ) (entries : Entries)
    → s.cache tenant ≡ some entries
    → (k : Text) → map_get k entries ≡ stored tenant k s.rows

load_tenant-entries :
    (tenant : ℕ) (k : Text) (s : Settings)
    → IsCoherent s
    → map_get k (load_tenant tenant s).0 ≡ stored tenant k s.rows
unfolding load_tenant map_get
load_tenant-entries tenant k s c = elim (Option-cases (s.cache tenant)) [
  | inl e ↦ rw (e, load_tenant) (get-map_of k (rows_of tenant s.rows) [])
  | inr (entries, e) ↦ rw (e, load_tenant) (c tenant entries e k)
]

put_cache-IsCoherent :
    (tenant : ℕ) (entries : Entries) (s : Settings)
    → IsCoherent s
    → ((k : Text) → map_get k entries ≡ stored tenant k s.rows)
    → IsCoherent (put_cache tenant (some entries) s)
put_cache-IsCoherent tenant entries s c h t found e k = elim (Bool-cases (tenant == t)) [
  | inl m ↦
      let same : entries ≡ found = ground (arith, rw m at e) in
      let a : tenant ≡ t = ground (arith, m) in
      subst (λ z. map_get k z ≡ stored t k s.rows) same
        (subst (λ z. map_get k entries ≡ stored z k s.rows) a (h k))
  | inr m ↦ c t found (rw m at e) k
]

load_tenant-IsCoherent :
    (tenant : ℕ) (s : Settings) → IsCoherent s → IsCoherent (load_tenant tenant s).1
unfolding load_tenant map_get
load_tenant-IsCoherent tenant s c = elim (Option-cases (s.cache tenant)) [
  | inl e ↦
      rw (e, load_tenant)
        (put_cache-IsCoherent tenant (map_of (rows_of tenant s.rows) []) s c
          (λ k. get-map_of k (rows_of tenant s.rows) []))
  | inr (entries, e) ↦ rw (e, load_tenant) c
]

load_tenant-rows : (tenant : ℕ) (s : Settings) → (load_tenant tenant s).1.rows ≡ s.rows
unfolding load_tenant
load_tenant-rows tenant s = elim (Option-cases (s.cache tenant)) [
  | inl e ↦ rw (e, load_tenant) refl
  | inr (entries, e) ↦ rw (e, load_tenant) refl
]

write-IsCoherent :
    (tenant : ℕ) (k v : Text) (entries : Entries) (s u : Settings)
    → IsCoherent s
    → u.rows ≡ upsert tenant k v s.rows
    → ((t : ℕ) → (tenant == t) ≡ false → u.cache t ≡ s.cache t)
    → ((j : Text) → map_get j entries ≡ (if text_eq k j then some v else stored tenant j s.rows))
    → IsCoherent (put_cache tenant (some entries) u)
write-IsCoherent tenant k v entries s u c r others h t found e j = elim (Bool-cases (tenant == t)) [
  | inl m ↦
      let same : entries ≡ found = ground (arith, rw m at e) in
      let a : tenant ≡ t = ground (arith, m) in
      subst (λ z. map_get j z ≡ stored t j u.rows) same
        (h j ∙ rw (r, stored-upsert tenant t k j v s.rows, m, a) refl)
  | inr m ↦
      c t found (sym (others t m) ∙ (rw m at e)) j
      ∙ rw (r, stored-upsert tenant t k j v s.rows, m) refl
]

-- entries that are loaded after the upsert have it already
loaded_late :
    (tenant : ℕ) (k j v : Text) (rows : List TenantSetting)
    → (if text_eq k j
        then some v
        else map_get j (map_of (rows_of tenant (upsert tenant k v rows)) []))
      ≡ (if text_eq k j then some v else stored tenant j rows)
unfolding map_get
loaded_late tenant k j v rows = elim (Bool-cases (text_eq k j)) [
  | inl e ↦ rw e refl
  | inr e ↦ rw e (
      get-map_of j (rows_of tenant (upsert tenant k v rows)) []
      ∙ stored-upsert tenant tenant k j v rows
      ∙ ground (arith, e))
]

set-IsCoherent :
    (tenant : ℕ) (k v : Text) (s : Settings) → IsCoherent s → IsCoherent (set tenant k v s)
unfolding set load_tenant map_get
set-IsCoherent tenant k v s c = elim (Option-cases (s.cache tenant)) [
  | inl e ↦
      let entries = map_of (rows_of tenant (upsert tenant k v s.rows)) [] in
      rw (e, set, load_tenant)
        (write-IsCoherent tenant k v (map_set k v entries) s
          (put_cache tenant (some entries) (record s { rows = upsert tenant k v s.rows })) c refl
          (λ t m. rw m refl) (λ j. get-set j k v entries ∙ loaded_late tenant k j v s.rows))
  | inr (entries, e) ↦
      rw (e, set, load_tenant)
        (write-IsCoherent tenant k v (map_set k v entries) s
          (record s { rows = upsert tenant k v s.rows }) c refl (λ t m. refl)
          (λ j. get-set j k v entries ∙ rw (c tenant entries e j) refl))
]

set-rows :
    (tenant : ℕ) (k v : Text) (s : Settings) → (set tenant k v s).rows ≡ upsert tenant k v s.rows
unfolding set
set-rows tenant k v s = load_tenant-rows tenant (record s { rows = upsert tenant k v s.rows })

invalidate-IsCoherent :
    (tenant : ℕ) (s : Settings) → IsCoherent s → IsCoherent (invalidate tenant s)
unfolding invalidate
invalidate-IsCoherent tenant s c t found e k = elim (Bool-cases (tenant == t)) [
  | inl m ↦ ground (arith, rw m at e)
  | inr m ↦ c t found (rw m at e) k
]

-- the calls of the service
pub data Call : Type 0 where
  ask : (tenant : ℕ) → Text → Call
  ask_boolean : (tenant : ℕ) → Text → Call
  change : (tenant : ℕ) → Text → Text → Call
  forget : (tenant : ℕ) → Call

pub data Answer : Type 0 where
  text : Text → Answer
  flag : Bool → Answer
  nothing : Answer

abbrev pub answer : Call → Settings → Answer × Settings
answer (ask tenant k) s = let (v, s') = get tenant k s in (text v, s')
answer (ask_boolean tenant k) s = let (b, s') = get_boolean tenant k s in (flag b, s')
answer (change tenant k v) s = (nothing, set tenant k v s)
answer (forget tenant) s = (nothing, invalidate tenant s)

abbrev pub answers : List Call → Settings → List Answer
answers [] s = []
answers (c ∷ calls) s = let (a, s') = answer c s in a ∷ answers calls s'

-- What the service promises: a function from tenants and keys to values, without a cache. An
-- invalidation changes nothing, and a key without a value has its default.
abbrev pub Values : Type 0
Values = ℕ → Text → Option Text

abbrev pub promise : Call → Values → Answer × Values
promise (ask tenant k) f = (text (with_default k (f tenant k)), f)
promise (ask_boolean tenant k) f = (flag (text_eq (with_default k (f tenant k)) (codes "true")), f)
promise (change tenant k v) f =
    (nothing, λ t j. if (tenant == t) && text_eq k j then some v else f t j)
promise (forget tenant) f = (nothing, f)

abbrev pub promises : List Call → Values → List Answer
promises [] f = []
promises (c ∷ calls) f = let (a, f') = promise c f in a ∷ promises calls f'

abbrev IsSame : Settings → Values → Type 0
IsSame s f = (tenant : ℕ) (k : Text) → stored tenant k s.rows ≡ f tenant k

answer-promise :
    (c : Call) (s : Settings) (f : Values)
    → IsCoherent s
    → IsSame s f
    → ((answer c s).0 ≡ (promise c f).0)
      × IsCoherent (answer c s).1
      × IsSame (answer c s).1 (promise c f).1
unfolding get get_boolean invalidate
answer-promise (ask tenant k) s f c m = (
  ap (λ o. text (with_default k o)) (load_tenant-entries tenant k s c ∙ m tenant k),
  load_tenant-IsCoherent tenant s c,
  λ t j. rw (load_tenant-rows tenant s) (m t j),
)
answer-promise (ask_boolean tenant k) s f c m = (
  ap (λ o. flag (text_eq (with_default k o) (codes "true")))
      (load_tenant-entries tenant k s c ∙ m tenant k),
  load_tenant-IsCoherent tenant s c,
  λ t j. rw (load_tenant-rows tenant s) (m t j),
)
answer-promise (change tenant k v) s f c m = (
  refl,
  set-IsCoherent tenant k v s c,
  λ t j. rw (set-rows tenant k v s) (
      stored-upsert tenant t k j v s.rows
      ∙ ap (λ o. if (tenant == t) && text_eq k j then some v else o) (m t j)),
)
answer-promise (forget tenant) s f c m = (refl, invalidate-IsCoherent tenant s c, m)

answers-promises :
    (calls : List Call) (s : Settings) (f : Values)
    → IsCoherent s
    → IsSame s f
    → answers calls s ≡ promises calls f
answers-promises [] s f c m = refl
answers-promises (x ∷ calls) s f c m =
    let (same, c', m') = answer-promise x s f c m in
    rw (same, answers-promises calls (answer x s).1 (promise x f).1 c' m') refl

-- With an empty cache before any table, the service gives to any sequence of reads, writes and
-- invalidations the answers of a function from tenants and keys to values that begins with the rows of
-- the table, is changed by the writes, and knows no cache.
pub answers_lem :
    (calls : List Call) (rows : List TenantSetting)
    → answers calls (record { rows = rows; cache = λ tenant. none })
      ≡ promises calls (λ tenant k. stored tenant k rows)
answers_lem calls rows =
    answers-promises calls (record { rows = rows; cache = λ tenant. none })
      (λ tenant k. stored tenant k rows) (λ tenant entries e. ground arith) (λ tenant k. refl)
