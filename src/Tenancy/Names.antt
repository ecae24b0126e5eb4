-- ===== src/Tenancy/Names.antt =====
-- getSchemaName of src/common/services/tenant-database.service.ts. A text is a list of code points.
pub mod Apart
use tgs_hrms.Base.{
  ℕ, zero, suc, Text, codes, Bool, true, false, not, ◌&&◌, ◌||◌, List, [], ◌∷◌, ◌++◌, ◌==◌, leb,
  if◌then◌else◌, keep, Result, ok, err, bad_request, invalid_tenant,
}

-- `[0-9a-f]`
abbrev pub is_lower_hex : ℕ → Bool
is_lower_hex c = (leb 48 c && leb c 57) || (leb 97 c && leb c 102)

-- `[0-9a-f]` of a pattern with the flag `i`
abbrev pub is_hex : ℕ → Bool
is_hex c = is_lower_hex c || (leb 65 c && leb c 70)

-- one character of UUID_REGEX
pub data Place : Type 0 where
  digit dash : Place

abbrev pub fits : Place → ℕ → Bool
fits digit c = is_hex c
fits dash c = c == 45

unfoldable pub fits_all : List Place → Text → Bool
fits_all [] [] = true
fits_all [] (c ∷ s) = false
fits_all (p ∷ ps) [] = false
fits_all (p ∷ ps) (c ∷ s) = fits p c && fits_all ps s

abbrev pub four : List Place
four = digit ∷ digit ∷ digit ∷ digit ∷ []

-- UUID_REGEX: groups of 8, 4, 4, 4 and 12 digits
abbrev pub uuid_places : List Place
uuid_places =
    four ++ four ++ dash ∷ four ++ dash ∷ four ++ dash ∷ four ++ dash ∷ four ++ four ++ four

abbrev pub is_uuid : Text → Bool
is_uuid id = fits_all uuid_places id

-- `tenantId.replace(/-/g, '')`
abbrev pub without_dashes : Text → Text
without_dashes id = keep (λ c. not (c == 45)) id

-- `{n}` lower digits and the end
unfoldable pub has_lower_digits : ℕ → Text → Bool
has_lower_digits zero [] = true
has_lower_digits zero (c ∷ s) = false
has_lower_digits (suc n) [] = false
has_lower_digits (suc n) (c ∷ s) = is_lower_hex c && has_lower_digits n s

-- The prefix of SCHEMA_NAME_REGEX is there by construction, what follows it is tested.
unfoldable pub get_schema_name : Text → Result Text
get_schema_name id =
    if not (is_uuid id)
    then err (bad_request invalid_tenant)
    else if has_lower_digits 32 (without_dashes id)
    then ok (codes "tenant_" ++ without_dashes id)
    else err (bad_request invalid_tenant)
