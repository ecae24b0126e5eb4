-- ===== src/Settings/Entries.antt =====
-- What a table of settings says of a tenant and a key, after a load and after an upsert.
use tgs_hrms.Base.{
  sym, ap, ◌∙◌, ℕ, ◌≡◌, refl, Text, text_eq, text_eq_refl, text_eq_sound, true, false, ◌&&◌, Option,
  none, some, List, [], ◌∷◌, ◌++◌, any, ◌==◌, if◌then◌else◌, arith, Bool-cases, inl, inr,
}
use mathlib.Core.Path.{subst}
use tgs_hrms.Settings.{
  TenantSetting, Entries, map_get, map_set, map_of, rows_of, is_row, write_rows, upsert,
}

-- the entry of a table without a cache
abbrev pub last_value : Text → List TenantSetting → Option Text → Option Text
last_value k [] o = o
last_value k (r ∷ rows) o = last_value k rows (if text_eq r.key k then some r.value else o)

abbrev pub stored : ℕ → Text → List TenantSetting → Option Text
stored tenant k rows = last_value k (rows_of tenant rows) none

text_eq_trans : (a b c : Text) → text_eq a b ≡ true → text_eq a c ≡ text_eq b c
text_eq_trans a b c h = ap (λ z. text_eq z c) (text_eq_sound a b h)

pub get-set :
    (j k v : Text) (m : Entries)
    → map_get j (map_set k v m) ≡ (if text_eq k j then some v else map_get j m)
unfolding map_get map_set
get-set j k v [] = refl
get-set j k v ((i, w) ∷ m) = elim (Bool-cases (text_eq i k)) [
  | inl e ↦ ground (arith, text_eq_trans i k j e)
  | inr e ↦ elim (Bool-cases (text_eq k j)) [
    | inl f ↦
        let same : text_eq i k ≡ text_eq i j = ap (text_eq i) (text_eq_sound k j f) in
        ground (arith, get-set j k v m, same)
    | inr f ↦ ground (arith, get-set j k v m)
  ]
]

pub get-map_of :
    (k : Text) (rows : List TenantSetting) (m : Entries)
    → map_get k (map_of rows m) ≡ last_value k rows (map_get k m)
unfolding map_of
get-map_of k [] m = refl
get-map_of k (r ∷ rows) m =
    get-map_of k rows (map_set r.key r.value m) ∙ ap (last_value k rows) (get-set k r.key r.value m)

-- the same without the selection of the tenant's rows
last_of : ℕ → Text → List TenantSetting → Option Text → Option Text
last_of tenant k [] o = o
last_of tenant k (r ∷ rows) o =
    last_of tenant k rows (if is_row tenant k r then some r.value else o)

last_of_lem :
    (tenant : ℕ) (k : Text) (rows : List TenantSetting) (o : Option Text)
    → last_value k (rows_of tenant rows) o ≡ last_of tenant k rows o
unfolding last_of
last_of_lem tenant k [] o = refl
last_of_lem tenant k (r ∷ rows) o = elim (Bool-cases (r.tenant_id == tenant)) [
  | inl e ↦ rw e (last_of_lem tenant k rows (if text_eq r.key k then some r.value else o))
  | inr e ↦ rw e (last_of_lem tenant k rows o)
]

last_of-write_rows :
    (tenant : ℕ) (k v : Text) (rows : List TenantSetting) (o : Option Text)
    → last_of tenant k (write_rows tenant k v rows) o
      ≡ (if any (is_row tenant k) rows then some v else o)
unfolding last_of write_rows
last_of-write_rows tenant k v [] o = refl
last_of-write_rows tenant k v (r ∷ rows) o = elim (Bool-cases (is_row tenant k r)) [
  | inl e ↦ ground (arith, e, last_of-write_rows tenant k v rows (some v))
  | inr e ↦ ground (arith, e, last_of-write_rows tenant k v rows o)
]

last_of-write_rows_other :
    (tenant t : ℕ) (k j v : Text) (rows : List TenantSetting) (o : Option Text)
    → ((r : TenantSetting) → is_row tenant k r ≡ true → is_row t j r ≡ false)
    → last_of t j (write_rows tenant k v rows) o ≡ last_of t j rows o
unfolding last_of write_rows
last_of-write_rows_other tenant t k j v [] o h = refl
last_of-write_rows_other tenant t k j v (r ∷ rows) o h = elim (Bool-cases (is_row tenant k r)) [
  | inl e ↦
      let rest = last_of-write_rows_other tenant t k j v rows o h in ground (arith, e, h r e, rest)
  | inr e ↦ rw e (last_of-write_rows_other tenant t k j v rows _ h)
]

last_of-append :
    (tenant : ℕ) (k : Text) (rows : List TenantSetting) (r : TenantSetting) (o : Option Text)
    → last_of tenant k (rows ++ r ∷ []) o
      ≡ (if is_row tenant k r then some r.value else last_of tenant k rows o)
unfolding last_of
last_of-append tenant k [] r o = refl
last_of-append tenant k (x ∷ rows) r o = last_of-append tenant k rows r _

last_of_absent :
    (tenant : ℕ) (k : Text) (rows : List TenantSetting) (o : Option Text)
    → any (is_row tenant k) rows ≡ false
    → last_of tenant k rows o ≡ o
unfolding last_of
last_of_absent tenant k [] o h = refl
last_of_absent tenant k (r ∷ rows) o h =
    let this : is_row tenant k r ≡ false = ground (arith, h) in
    let later : any (is_row tenant k) rows ≡ false = ground (arith, h) in
    rw this (last_of_absent tenant k rows o later)

same_row :
    (tenant t : ℕ) (k j : Text) (r : TenantSetting)
    → ((tenant == t) && text_eq k j) ≡ false
    → is_row tenant k r ≡ true
    → is_row t j r ≡ false
same_row tenant t k j r h e =
    let key : r.key ≡ k = text_eq_sound r.key k (ground arith) in rw key (ground arith)

upsert_same :
    (tenant : ℕ) (k v : Text) (rows : List TenantSetting)
    → last_of tenant k (upsert tenant k v rows) none ≡ some v
unfolding upsert
upsert_same tenant k v rows = elim (Bool-cases (any (is_row tenant k) rows)) [
  | inl e ↦ ground (arith, e, last_of-write_rows tenant k v rows none)
  | inr e ↦
      let new : TenantSetting = record { tenant_id = tenant; key = k; value = v } in
      ground (arith, e, text_eq_refl k, last_of-append tenant k rows new none)
]

upsert_other :
    (tenant t : ℕ) (k j v : Text) (rows : List TenantSetting)
    → ((r : TenantSetting) → is_row tenant k r ≡ true → is_row t j r ≡ false)
    → last_of t j (upsert tenant k v rows) none ≡ last_of t j rows none
unfolding upsert
upsert_other tenant t k j v rows h = elim (Bool-cases (any (is_row tenant k) rows)) [
  | inl e ↦ rw e (last_of-write_rows_other tenant t k j v rows none h)
  | inr e ↦
      let new : TenantSetting = record { tenant_id = tenant; key = k; value = v } in
      let other : is_row t j new ≡ false = h new (ground (arith, text_eq_refl k)) in
      rw e (last_of-append t j rows new none ∙ rw other refl)
]

-- an upsert writes the entry of its pair, and no other
pub stored-upsert :
    (tenant t : ℕ) (k j v : Text) (rows : List TenantSetting)
    → stored t j (upsert tenant k v rows)
      ≡ (if (tenant == t) && text_eq k j then some v else stored t j rows)
unfolding upsert
stored-upsert tenant t k j v rows =
    last_of_lem t j (upsert tenant k v rows) none
    ∙ (elim (Bool-cases ((tenant == t) && text_eq k j)) [
      | inl e ↦
          let a : tenant ≡ t = ground (arith, e) in
          let b : k ≡ j = text_eq_sound k j (ground (arith, e)) in
          rw e (
            subst (λ z. last_of z j (upsert tenant k v rows) none ≡ some v) a
              (subst (λ z. last_of tenant z (upsert tenant k v rows) none ≡ some v) b
                (upsert_same tenant k v rows)))
      | inr e ↦ rw e (upsert_other tenant t k j v rows (λ r. same_row tenant t k j r e))
    ])
    ∙ ap (λ o. if (tenant == t) && text_eq k j then some v else o) (sym (last_of_lem t j rows none))
