-- ===== src/Leave/Balances/Sums.antt =====
-- Sums over the leaves of a table, and the row of a balance, after a write.
use tgs_hrms.Base.{
  ap, ℕ, ◌+◌, ◌≡◌, refl, ◌≢◌, false, ◌&&◌, some, List, [], ◌∷◌, ◌++◌, arith, ◌==◌, if◌then◌else◌,
  All, All-append, All-find, find_sat, Bool-cases, inl, inr,
}
use mathlib.Core.Path.{subst}
use tgs_hrms.Bookings.{Below, save_row, All-save_row}
use tgs_hrms.Flex.{Leave, LeaveBalance, leave_booking}
use tgs_hrms.Leave.{add_used, find_leave}
use tgs_hrms.Leave.Balances.{used_days, sum_by, HasOwnIds}

pub sum_by-append :
    (f : Leave → ℕ) (rows : List Leave) (l : Leave)
    → sum_by f (rows ++ l ∷ []) ≡ sum_by f rows + f l
sum_by-append f [] l = omega arith
sum_by-append f (x ∷ rows) l = omega (arith, sum_by-append f rows l)

-- a row of another number is not written
pub save_row_other :
    (new : Leave) (rows : List Leave)
    → All (λ x. x.id ≢ new.id) rows
    → save_row leave_booking new rows ≡ rows
save_row_other new [] h = refl
save_row_other new (x ∷ rows) h =
    let other : (x.id == new.id) ≡ false = ground (arith, h.0) in
    rw other (ap (λ r. x ∷ r) (save_row_other new rows h.1))

-- the row that is found under a number is the only one of the number
pub own_head :
    (id tenant : ℕ) (x : Leave) (rows : List Leave) (old : Leave)
    → find_leave id tenant (x ∷ rows) ≡ some old
    → All (λ y. y.id ≢ x.id) rows
    → x.id ≡ id
    → x ≡ old
own_head id tenant x rows old e h i = elim (Bool-cases ((x.id == id) && (x.tenant_id == tenant))) [
  | inl m ↦ ground arith
  | inr m ↦
      let later : find_leave id tenant rows ≡ some old = ground arith in
      absurd (
        All-find (λ y. y.id ≢ x.id) _ rows old h later
          (ground (arith, find_sat (λ l. (l.id == id) && (l.tenant_id == tenant)) rows old later)))
]

-- what one row contributes is exchanged
pub sum_by-save_row :
    (f : Leave → ℕ) (tenant : ℕ) (old new : Leave) (rows : List Leave)
    → HasOwnIds rows
    → find_leave old.id tenant rows ≡ some old
    → new.id ≡ old.id
    → sum_by f (save_row leave_booking new rows) + f old ≡ sum_by f rows + f new
sum_by-save_row f tenant old new [] h e i = ground arith
sum_by-save_row f tenant old new (x ∷ rows) h e i = elim (Bool-cases (x.id == new.id)) [
  | inl m ↦
      let same : x ≡ old = own_head old.id tenant x rows old e h.0 (ground (arith, m, i)) in
      let rest =
        save_row_other new rows (subst (λ k. All (λ y. y.id ≢ k) rows) (ground (arith, m)) h.0) in
      rw (m, rest) (omega (arith, ap f same))
  | inr m ↦
      let other : (x.id == old.id) ≡ false = ground arith in
      rw m (omega (arith, sum_by-save_row f tenant old new rows h.1 (rw other at e) i))
]

pub HasOwnIds-append :
    (rows : List Leave) (l : Leave)
    → Below leave_booking l.id rows
    → HasOwnIds rows
    → HasOwnIds (rows ++ l ∷ [])
HasOwnIds-append [] l b h = (tt, tt)
HasOwnIds-append (x ∷ rows) l b h = (
  All-append (λ y. y.id ≢ x.id) rows (l ∷ []) h.0 (λ e. omega (arith, b.0), tt),
  HasOwnIds-append rows l b.1 h.1,
)

pub HasOwnIds-save_row :
    (new : Leave) (rows : List Leave) → HasOwnIds rows → HasOwnIds (save_row leave_booking new rows)
HasOwnIds-save_row new [] h = tt
HasOwnIds-save_row new (x ∷ rows) h = elim (Bool-cases (x.id == new.id)) [
  | inl m ↦
      let same_id : x.id ≡ new.id = ground (arith, m) in
      let free = subst (λ k. All (λ y. y.id ≢ k) rows) same_id h.0 in
      rw m (rw (save_row_other new rows free) (free, h.1))
  | inr m ↦ rw m (
    All-save_row leave_booking (λ y. y.id ≢ x.id) new rows (λ e. ground (arith, e)) h.0,
    HasOwnIds-save_row new rows h.1,
  )
]

-- the row of a key after some days were added to one
pub used_days-add_used :
    (e t y n : ℕ) (employee type year tenant allocated days : ℕ) (rows : List LeaveBalance)
    → used_days e t y n (add_used employee type year tenant allocated days rows)
      ≡ used_days e t y n rows
        + (if (employee == e) && (type == t) && (year == y) && (tenant == n) then days else 0)
unfolding add_used
used_days-add_used e t y n employee type year tenant allocated days [] = ground arith
used_days-add_used e t y n employee type year tenant allocated days (b ∷ rows) =
    ground (arith, used_days-add_used e t y n employee type year tenant allocated days rows)
