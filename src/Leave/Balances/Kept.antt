-- ===== src/Leave/Balances/Kept.antt =====
-- The balances stay those of the approved leaves, whatever is called.
use tgs_hrms.Base.{
  sym, ◌∙◌, ℕ, ◌<◌, ◌≡◌, refl, true, false, ◌&&◌, some, List, [], ◌∷◌, arith, ◌==◌, if◌then◌else◌,
  All-find, ◌⊎◌, inl, inr,
}
use tgs_hrms.Bookings.{Below-save_row, Below-suc-append}
use tgs_hrms.Calendar.{get_full_year}
use tgs_hrms.Flex.{Leave, FlexSession, leave_booking}
use tgs_hrms.Leave.{find_leave, find_type, allocated_days, deduct_leave_balance, save_leave}
use tgs_hrms.Leave.Decide.{is_approved_leave}
use tgs_hrms.Leave.Ledger.{
  SameCharge, LedgerStep, idle, request, amend, grant, LedgerRun, done, then_step, IsNumbered,
}
use tgs_hrms.Leave.Ledger.Rows.{found_id}
use tgs_hrms.Leave.Ledger.Refine.{Call, perform, perform_all, perform-run}
use tgs_hrms.Leave.Balances.{charge, IsBooked}
use tgs_hrms.Leave.Balances.Sums.{
  sum_by-append, sum_by-save_row, HasOwnIds-append, HasOwnIds-save_row, used_days-add_used,
}

module _ (e t y n : ℕ) where
  charge_open : (l : Leave) → is_approved_leave l.status ≡ false → charge e t y n l ≡ 0
  charge_open l h = ground arith

  charge_same :
      (old new : Leave)
      → SameCharge old new
      → new.status ≡ old.status
      → charge e t y n new ≡ charge e t y n old
  charge_same old new (a, b, c, d, f, g) s = rw (a, b, c, d, g, s) refl

  -- an amendment leaves every charge as it was
  charge_amended :
      (old new : Leave)
      → (is_approved_leave old.status ≡ false) × (is_approved_leave new.status ≡ false)
        ⊎ SameCharge old new × (new.status ≡ old.status)
      → charge e t y n new ≡ charge e t y n old
  charge_amended old new (inl (o, m)) = charge_open new m ∙ sym (charge_open old o)
  charge_amended old new (inr (c, s)) = charge_same old new c s

  charge_granted :
      (old new : Leave) (tenant : ℕ)
      → is_approved_leave new.status ≡ true
      → SameCharge old new
      → old.tenant_id ≡ tenant
      → charge e t y n new ≡ (
          if (old.employee_id == e)
            && (old.leave_type_id == t)
            && (get_full_year old.start_date == y)
            && (tenant == n)
          then old.total_days
          else 0)
  charge_granted old new tenant s (a, b, c, d, f, g) k = rw (s, a, b, c, d, g, k) refl

found_below :
    (tenant : ℕ) (old new : Leave) (s : FlexSession)
    → find_leave old.id tenant s.tables.leaves ≡ some old
    → new.id ≡ old.id
    → IsNumbered s
    → new.id < s.outside.next_id
found_below tenant old new s f i n =
    omega (arith, i, All-find (λ x. x.id < s.outside.next_id) _ s.tables.leaves old n f)

amend-IsBooked :
    (s : FlexSession) (tenant : ℕ) (old new : Leave)
    → find_leave old.id tenant s.tables.leaves ≡ some old
    → new.id ≡ old.id
    → (is_approved_leave old.status ≡ false) × (is_approved_leave new.status ≡ false)
      ⊎ SameCharge old new × (new.status ≡ old.status)
    → IsBooked s
    → IsBooked (save_leave new s)
amend-IsBooked s tenant old new f i h (n, o, b) = (
  Below-save_row leave_booking s.outside.next_id new s.tables.leaves
      (found_below tenant old new s f i n) n,
  HasOwnIds-save_row new s.tables.leaves o,
  λ e t y k. omega (
    arith,
    b e t y k,
    charge_amended e t y k old new h,
    sum_by-save_row (charge e t y k) tenant old new s.tables.leaves o f i,
  ),
)

grant-IsBooked :
    (s : FlexSession) (tenant : ℕ) (old new : Leave)
    → find_leave old.id tenant s.tables.leaves ≡ some old
    → new.id ≡ old.id
    → is_approved_leave old.status ≡ false
    → is_approved_leave new.status ≡ true
    → SameCharge old new
    → IsBooked s
    → IsBooked (save_leave new (deduct_leave_balance old tenant s))
unfolding deduct_leave_balance
grant-IsBooked s tenant old new f i a c same (n, o, b) = (
  Below-save_row leave_booking s.outside.next_id new s.tables.leaves
      (found_below tenant old new s f i n) n,
  HasOwnIds-save_row new s.tables.leaves o,
  λ e t y k.
      used_days-add_used e t y k old.employee_id old.leave_type_id (get_full_year old.start_date)
        tenant (allocated_days (find_type old.leave_type_id tenant s.tables.leave_types))
        old.total_days s.tables.leave_balances
      ∙ omega (
        arith,
        b e t y k,
        charge_open e t y k old a,
        charge_granted e t y k old new tenant c same
            (found_id old.id tenant s.tables.leaves old f).1,
        sum_by-save_row (charge e t y k) tenant old new s.tables.leaves o f i,
      ),
)

pub LedgerStep-IsBooked : {s t : FlexSession} → LedgerStep s t → IsBooked s → IsBooked t
LedgerStep-IsBooked (idle u leaves balances next) (n, o, b) =
    (rw (leaves, next) n, rw leaves o, λ e t y k. rw (leaves, balances) (b e t y k))
LedgerStep-IsBooked {s} (request l i open_status) (n, o, b) = (
  Below-suc-append leave_booking s.outside.next_id l s.tables.leaves i n,
  HasOwnIds-append s.tables.leaves l (rw i n) o,
  λ e t y k.
      b e t y k
      ∙ omega (
        arith,
        sum_by-append (charge e t y k) s.tables.leaves l,
        charge_open e t y k l open_status,
      ),
)
LedgerStep-IsBooked {s} (amend tenant old new f i h) v = amend-IsBooked s tenant old new f i h v
LedgerStep-IsBooked {s} (grant tenant old new f i a c same) v =
    grant-IsBooked s tenant old new f i a c same v

pub LedgerRun-IsBooked : {s t : FlexSession} → LedgerRun s t → IsBooked s → IsBooked t
LedgerRun-IsBooked done v = v
LedgerRun-IsBooked (then_step r st) v = LedgerStep-IsBooked st (LedgerRun-IsBooked r v)

pub perform-IsBooked : (c : Call) (s : FlexSession) → IsBooked s → IsBooked (perform c s)
perform-IsBooked c s v = LedgerRun-IsBooked (perform-run c s v.0) v

-- If every balance is the sum of the days of the approved leaves of its employee, type, year and
-- tenant, and the numbers of the leaves are their own and lie below the next one, all this still holds
-- after any calls of the methods of the service, by anybody and in any order, whether they return or
-- throw.
pub perform_all-IsBooked :
    (calls : List Call) (s : FlexSession) → IsBooked s → IsBooked (perform_all calls s)
perform_all-IsBooked [] s v = v
perform_all-IsBooked (c ∷ calls) s v =
    perform_all-IsBooked calls (perform c s) (perform-IsBooked c s v)
