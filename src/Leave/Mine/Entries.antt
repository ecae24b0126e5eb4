-- ===== src/Leave/Mine/Entries.antt =====
-- What the entries of an answer of getMyBalances say.
use tgs_hrms.Base.{
  ℕ, ◌≡◌, refl, sym, ◌∙◌, true, false, ◌||◌, List, [], ◌∷◌, ◌++◌, arith, ◌==◌, any, keep, All,
  Bool-cases, inl, inr,
}
use mathlib.Core.Path.{subst}
use tgs_hrms.Flex.{LeaveType, LeaveBalance}
use tgs_hrms.Leave.Balances.{used_days}
use tgs_hrms.Leave.Mine.{is_mine, has_entry, virtual_balance, virtual_balances}
use tgs_hrms.Leave.Mine.Keys.{has_key_of, HasOwnKeys}

abbrev used_of : List LeaveBalance → LeaveBalance → ℕ
used_of rows b = used_days b.employee_id b.leave_type_id b.year b.tenant_id rows

used_of-cons :
    (x : LeaveBalance) (ys zs : List LeaveBalance)
    → All (λ b. has_key_of x b ≡ false) ys
    → All (λ b. b.used ≡ used_of zs b) ys
    → All (λ b. b.used ≡ used_of (x ∷ zs) b) ys
used_of-cons x [] zs h k = tt
used_of-cons x (y ∷ ys) zs h k =
    let other : has_key_of y x ≡ false = ground (arith, h.0) in
    (rw other (k.0), used_of-cons x ys zs h.1 k.1)

-- the first row of a key is the only one
pub used_of-rows :
    (rows : List LeaveBalance) → HasOwnKeys rows → All (λ b. b.used ≡ used_of rows b) rows
used_of-rows [] h = tt
used_of-rows (x ∷ rows) h =
    let own : has_key_of x x ≡ true = ground arith in
    (rw own refl, used_of-cons x rows rows h.0 (used_of-rows rows h.1))

module _ (employee tenant year : ℕ) (taken : ℕ → ℕ) where
  pub mine-used :
      (ys zs : List LeaveBalance)
      → ((type : ℕ) → used_days employee type year tenant zs ≡ taken type)
      → All (λ b. b.used ≡ used_of zs b) ys
      → All (λ b. b.used ≡ taken b.leave_type_id) (keep (is_mine employee tenant year) ys)
  mine-used [] zs t h = tt
  mine-used (y ∷ ys) zs t h =
      let rest = mine-used ys zs t h.1 in
      elim (Bool-cases (is_mine employee tenant year y)) [
        | inr m ↦ rw m rest
        | inl m ↦
            let e : y.employee_id ≡ employee = ground arith in
            let n : y.tenant_id ≡ tenant = ground arith in
            let f : y.year ≡ year = ground arith in
            let u : y.used ≡ used_days employee y.leave_type_id year tenant zs =
              rw (e, n, f) at (h.0) in
            rw m (u ∙ t y.leave_type_id, rest)
      ]

  -- a type without an entry has no days in use
  used_days-none :
      (type : ℕ) (rows : List LeaveBalance)
      → any (λ b. b.leave_type_id == type) (keep (is_mine employee tenant year) rows) ≡ false
      → used_days employee type year tenant rows ≡ 0
  used_days-none type [] h = refl
  used_days-none type (b ∷ rows) h = elim (Bool-cases (is_mine employee tenant year b)) [
    | inl m ↦ let c = rw m at h in ground (arith, used_days-none type rows (ground arith))
    | inr m ↦ let c = rw m at h in ground (arith, used_days-none type rows c)
  ]

  pub virtual-used :
      (rows : List LeaveBalance) (types : List LeaveType)
      → ((type : ℕ) → used_days employee type year tenant rows ≡ taken type)
      → All
          (λ b. b.used ≡ taken b.leave_type_id)
          (virtual_balances employee tenant year (keep (is_mine employee tenant year) rows) types)
  virtual-used rows [] h = tt
  virtual-used rows (t ∷ types) h =
      let rest = virtual-used rows types h in
      elim (Bool-cases (has_entry (keep (is_mine employee tenant year) rows) t)) [
        | inl m ↦ rw m rest
        | inr m ↦ rw m (sym (used_days-none t.id rows m) ∙ h t.id, rest)
      ]

module _ (employee tenant year : ℕ) where
  -- each active type has an entry, of the table or made up
  has_entry-cons :
      (balances : List LeaveBalance) (x : LeaveBalance) (es : List LeaveBalance)
      (ts : List LeaveType)
      → All (λ t. (has_entry balances t || has_entry es t) ≡ true) ts
      → All (λ t. (has_entry balances t || has_entry (x ∷ es) t) ≡ true) ts
  has_entry-cons balances x es [] h = tt
  has_entry-cons balances x es (t ∷ ts) h =
      (ground (arith, h.0), has_entry-cons balances x es ts h.1)

  pub has_entry-virtual :
      (balances : List LeaveBalance) (ts : List LeaveType)
      → All
          (λ t.
            (has_entry balances t
              || has_entry (virtual_balances employee tenant year balances ts) t)
            ≡ true)
          ts
  has_entry-virtual balances [] = tt
  has_entry-virtual balances (t ∷ ts) =
      let rest = has_entry-virtual balances ts in
      let virtual = virtual_balances employee tenant year balances in
      elim (Bool-cases (has_entry balances t)) [
        | inl m ↦
            let same : virtual (t ∷ ts) ≡ virtual ts = rw m refl in
            (
              ground (arith, m),
              subst (λ es. All (λ u. (has_entry balances u || has_entry es u) ≡ true) ts) (sym same)
                  rest,
            )
        | inr m ↦
            let new = virtual_balance employee tenant year t in
            let more : virtual (t ∷ ts) ≡ new ∷ virtual ts = rw m refl in
            subst (λ es. All (λ u. (has_entry balances u || has_entry es u) ≡ true) (t ∷ ts))
              (sym more) (ground arith, has_entry-cons balances new (virtual ts) ts rest)
      ]

has_entry-append :
    (xs ys : List LeaveBalance) (t : LeaveType)
    → has_entry (xs ++ ys) t ≡ (has_entry xs t || has_entry ys t)
has_entry-append [] ys t = refl
has_entry-append (x ∷ xs) ys t = ground (arith, has_entry-append xs ys t)

pub has_entry-both :
    (xs ys : List LeaveBalance) (ts : List LeaveType)
    → All (λ t. (has_entry xs t || has_entry ys t) ≡ true) ts
    → All (λ t. has_entry (xs ++ ys) t ≡ true) ts
has_entry-both xs ys [] h = tt
has_entry-both xs ys (t ∷ ts) h = (has_entry-append xs ys t ∙ h.0, has_entry-both xs ys ts h.1)
