-- ===== src/Tenancy/Names/Apart.antt =====
-- No two tenants share a schema, and no schema has the identifier of a tenant as its name.
use tgs_hrms.Base.{
  sym, ◌∙◌, ap, ℕ, zero, suc, ◌≡◌, refl, Text, codes, true, false, List, [], ◌∷◌, ◌++◌, arith, ◌==◌,
  ok,
}
use mathlib.Core.Path.{subst}
use tgs_hrms.Tenancy.Names.{
  is_hex, Place, digit, dash, fits_all, uuid_places, is_uuid, without_dashes, get_schema_name,
}

digit_no_dash : (c : ℕ) → is_hex c ≡ true → (c == 45) ≡ false
digit_no_dash c h = ground arith

-- the dashes stand at the same places, so they can be put back
without_dashes_inj :
    (ps : List Place) (s t : Text)
    → fits_all ps s ≡ true
    → fits_all ps t ≡ true
    → without_dashes s ≡ without_dashes t
    → s ≡ t
unfolding fits_all
without_dashes_inj [] [] [] h k e = refl
without_dashes_inj [] [] (d ∷ t) h k e = ground arith
without_dashes_inj [] (c ∷ s) t h k e = ground arith
without_dashes_inj (p ∷ ps) [] t h k e = ground arith
without_dashes_inj (p ∷ ps) (c ∷ s) [] h k e = ground arith
without_dashes_inj (digit ∷ ps) (c ∷ s) (d ∷ t) h k e =
    let m : (c == 45) ≡ false = digit_no_dash c (ground arith) in
    let n : (d == 45) ≡ false = digit_no_dash d (ground arith) in
    let f : c ∷ without_dashes s ≡ d ∷ without_dashes t = rw (m, n) at e in
    let rest = without_dashes_inj ps s t (ground arith) (ground arith) (ground arith) in
    ground (arith, rest)
without_dashes_inj (dash ∷ ps) (c ∷ s) (d ∷ t) h k e =
    let m : (c == 45) ≡ true = ground arith in
    let n : (d == 45) ≡ true = ground arith in
    let f : without_dashes s ≡ without_dashes t = rw (m, n) at e in
    let rest = without_dashes_inj ps s t (ground arith) (ground arith) f in ground (arith, rest)

schema_name_of :
    (id name : Text)
    → get_schema_name id ≡ ok name
    → (is_uuid id ≡ true) × (name ≡ codes "tenant_" ++ without_dashes id)
unfolding get_schema_name
schema_name_of id name h = (ground arith, ground arith)

abbrev skip : ℕ → Text → Text
skip zero s = s
skip (suc n) [] = []
skip (suc n) (c ∷ s) = skip n s

-- Two identifiers of tenants that lead to the same name of a schema are the same: no two tenants share a
-- schema.
pub get_schema_name_inj :
    (id other name : Text)
    → get_schema_name id ≡ ok name
    → get_schema_name other ≡ ok name
    → id ≡ other
get_schema_name_inj id other name h k =
    let (m, e) = schema_name_of id name h in
    let (n, f) = schema_name_of other name k in
    without_dashes_inj uuid_places id other m n (ap (skip 7) (sym e ∙ f))

-- the name of a schema is no identifier, for it begins with `tenant_`
pub schema_name_no_uuid : (id name : Text) → get_schema_name id ≡ ok name → is_uuid name ≡ false
unfolding fits_all
schema_name_no_uuid id name h =
    subst (λ z. is_uuid z ≡ false) (sym (schema_name_of id name h).1) refl
