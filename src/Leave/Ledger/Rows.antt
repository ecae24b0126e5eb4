-- ===== src/Leave/Ledger/Rows.antt =====
-- The row of a leave that `findOne` returns, before and after a row is saved.
use tgs_hrms.Base.{
  ℕ, ◌≡◌, false, ◌&&◌, some, List, [], ◌∷◌, ◌++◌, arith, ◌==◌, find_sat, Bool-cases, inl, inr,
}
use tgs_hrms.Bookings.{Below, save_row}
use tgs_hrms.Flex.{Leave, leave_booking}
use tgs_hrms.Leave.{find_leave}

pub found_id :
    (id tenant : ℕ) (rows : List Leave) (l : Leave)
    → find_leave id tenant rows ≡ some l
    → (l.id ≡ id) × (l.tenant_id ≡ tenant)
found_id id tenant rows l e =
    ground (arith, find_sat (λ x. (x.id == id) && (x.tenant_id == tenant)) rows l e)

pub find-save_row :
    (id tenant : ℕ) (rows : List Leave) (old new : Leave)
    → find_leave id tenant rows ≡ some old
    → new.id ≡ id
    → new.tenant_id ≡ tenant
    → find_leave id tenant (save_row leave_booking new rows) ≡ some new
find-save_row id tenant [] old new e i t = ground arith
find-save_row id tenant (x ∷ rows) old new e i t = elim (Bool-cases (x.id == new.id)) [
  | inl h ↦ ground arith
  | inr h ↦
      let other : (x.id == id) ≡ false = ground arith in
      rw (h, other) (find-save_row id tenant rows old new (rw other at e) i t)
]

pub find-append_new :
    (tenant : ℕ) (rows : List Leave) (l : Leave)
    → Below leave_booking l.id rows
    → l.tenant_id ≡ tenant
    → find_leave l.id tenant (rows ++ l ∷ []) ≡ some l
find-append_new tenant [] l b t = ground arith
find-append_new tenant (x ∷ rows) l b t = ground (arith, find-append_new tenant rows l b.1 t)
