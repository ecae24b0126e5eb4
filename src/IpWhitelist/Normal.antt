-- ===== src/IpWhitelist/Normal.antt =====
-- `normalizeIp` gives one spelling to an address, and the table holds that one.
use tgs_hrms.Base.{
  sym, ap, ◌∙◌, ℕ, ◌≡◌, refl, Text, codes, text_eq, lower, lower_char, true, false, not, none, List,
  [], ◌∷◌, ◌++◌, keep, any, arith, ◌==◌, ok, text_eq_refl, Bool-cases, Option-cases, inl, inr,
}
use tgs_hrms.IpWhitelist.{
  is_ip_digit, is_dotted, drop_prefix, normalize_ip, TenantIp, Whitelist, is_ip_row, add_ip,
  remove_ip,
}

digit_first : (c : ℕ) (s : Text) → is_dotted 3 false (c ∷ s) ≡ true → is_ip_digit c ≡ true
unfolding is_dotted
digit_first c s h = elim (Bool-cases (is_ip_digit c)) [
  | inl e ↦ e
  | inr e ↦ elim (Bool-cases (c == b'.')) [
    | inl d ↦ let refused = rw (e, d, is_dotted) at h in ground arith
    | inr d ↦ let refused = rw (e, d, is_dotted) at h in ground arith
  ]
]

digit_no_colon : (c : ℕ) → is_ip_digit c ≡ true → text_eq (lower (c ∷ [])) (codes ":") ≡ false
unfolding lower lower_char text_eq
digit_no_colon c h = ground arith

-- four groups of digits begin with a digit, and the prefix does not
drop_prefix-dotted :
    (ip : Text) → is_dotted 3 false ip ≡ true → drop_prefix (codes "::ffff:") ip ≡ none
unfolding is_dotted drop_prefix
drop_prefix-dotted [] h = refl
drop_prefix-dotted (c ∷ s) h = rw (digit_no_colon c (digit_first c s h), drop_prefix) refl

-- Normalizing once more changes nothing.
pub normalize_ip_idem : (ip : Text) → normalize_ip (normalize_ip ip) ≡ normalize_ip ip
unfolding normalize_ip
normalize_ip_idem ip = elim (Option-cases (drop_prefix (codes "::ffff:") ip)) [
  | inl e ↦ let same : normalize_ip ip ≡ ip = rw (e, normalize_ip) refl in ap normalize_ip same
  | inr (rest, e) ↦ elim (Bool-cases (is_dotted 3 false rest)) [
    | inl d ↦
        let short : normalize_ip ip ≡ rest = rw (e, normalize_ip, d) refl in
        let again : normalize_ip rest ≡ rest = rw (drop_prefix-dotted rest d, normalize_ip) refl in
        ap normalize_ip short ∙ again ∙ sym short
    | inr d ↦ let same : normalize_ip ip ≡ ip = rw (e, normalize_ip, d) refl in ap normalize_ip same
  ]
]

pub keep_absent :
    (tenant : ℕ) (ip : Text) (rows : List TenantIp)
    → any (is_ip_row tenant ip) rows ≡ false
    → keep (λ r. not (is_ip_row tenant ip r)) rows ≡ rows
keep_absent tenant ip [] h = refl
keep_absent tenant ip (r ∷ rows) h =
    let this : is_ip_row tenant ip r ≡ false = ground (arith, h) in
    let later : any (is_ip_row tenant ip) rows ≡ false = ground (arith, h) in
    rw this (ap (λ x. r ∷ x) (keep_absent tenant ip rows later))

keep_appended :
    (tenant : ℕ) (ip : Text) (rows : List TenantIp) (r : TenantIp)
    → any (is_ip_row tenant ip) rows ≡ false
    → is_ip_row tenant ip r ≡ true
    → keep (λ x. not (is_ip_row tenant ip x)) (rows ++ r ∷ []) ≡ rows
keep_appended tenant ip [] r h e = rw e refl
keep_appended tenant ip (x ∷ rows) r h e =
    let this : is_ip_row tenant ip x ≡ false = ground (arith, h) in
    let later : any (is_ip_row tenant ip) rows ≡ false = ground (arith, h) in
    rw this (ap (λ y. x ∷ y) (keep_appended tenant ip rows r later e))

pub remove_ip-rows :
    (tenant : ℕ) (ip : Text) (s : Whitelist)
    → (remove_ip tenant ip s).1.rows ≡ keep (λ x. not (is_ip_row tenant (normalize_ip ip) x)) s.rows
unfolding remove_ip
remove_ip-rows tenant ip s = elim (Bool-cases (any (is_ip_row tenant (normalize_ip ip)) s.rows)) [
  | inl e ↦ rw (e, remove_ip) refl
  | inr e ↦ rw (e, remove_ip) refl
]

pub add_ip-rows :
    (tenant : ℕ) (ip : Text) (s : Whitelist)
    → any (is_ip_row tenant (normalize_ip ip)) s.rows ≡ false
    → (add_ip tenant ip s).1.rows
      ≡ s.rows ++ record { tenant_id = tenant; ip_address = normalize_ip ip } ∷ []
unfolding add_ip
add_ip-rows tenant ip s e = rw (e, add_ip) refl

-- If an address is added and the call returns, then removing it, in whatever spelling has the same normal
-- form, leaves the rows that were there before.
pub remove_ip-add_ip :
    (tenant : ℕ) (ip other : Text) (s : Whitelist) (r : TenantIp)
    → (add_ip tenant ip s).0 ≡ ok r
    → normalize_ip other ≡ normalize_ip ip
    → (remove_ip tenant other (add_ip tenant ip s).1).1.rows ≡ s.rows
unfolding add_ip
remove_ip-add_ip tenant ip other s r h same =
    elim (Bool-cases (any (is_ip_row tenant (normalize_ip ip)) s.rows)) [
      | inl e ↦ let refused = rw (e, add_ip) at h in ground arith
      | inr e ↦
          rw (remove_ip-rows tenant other (add_ip tenant ip s).1, same, add_ip-rows tenant ip s e)
            (keep_appended tenant (normalize_ip ip) s.rows
              (record { tenant_id = tenant; ip_address = normalize_ip ip }) e
              (ground (arith, text_eq_refl (normalize_ip ip))))
    ]
