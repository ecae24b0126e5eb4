-- ===== src/Leave/Mine/Keys.antt =====
-- No two rows of the table of balances have one key, whatever the methods of
-- src/modules/leave/leave.service.ts do to it.
use tgs_hrms.Base.{ℕ, ◌≡◌, Bool, false, List, [], ◌∷◌, arith, All, Bool-cases, inl, inr}
use tgs_hrms.Flex.{LeaveBalance, FlexSession}
use tgs_hrms.Leave.{has_key, add_used, deduct_leave_balance}
use tgs_hrms.Leave.Balances.{IsBooked}
use tgs_hrms.Leave.Balances.Kept.{perform-IsBooked}
use tgs_hrms.Leave.Ledger.{LedgerStep, idle, request, amend, grant, LedgerRun, done, then_step}
use tgs_hrms.Leave.Ledger.Refine.{Call, perform, perform_all, perform-run}

abbrev pub has_key_of : LeaveBalance → LeaveBalance → Bool
has_key_of b x = has_key b.employee_id b.leave_type_id b.year b.tenant_id x

-- no two rows have one key, as the unique index of the table has it
abbrev pub HasOwnKeys : List LeaveBalance → Type 0
HasOwnKeys [] = Unit
HasOwnKeys (b ∷ rows) = All (λ x. has_key_of b x ≡ false) rows × HasOwnKeys rows

-- days are added to a row of the key, or a row of a new key is added
All-add_used :
    (b : LeaveBalance) (employee type year tenant allocated days : ℕ) (rows : List LeaveBalance)
    → has_key employee type year tenant b ≡ false
    → All (λ x. has_key_of b x ≡ false) rows
    → All (λ x. has_key_of b x ≡ false) (add_used employee type year tenant allocated days rows)
unfolding add_used
All-add_used b employee type year tenant allocated days [] f h = (ground (arith, f), tt)
All-add_used b employee type year tenant allocated days (x ∷ rows) f h =
    elim (Bool-cases (has_key employee type year tenant x)) [
      | inl m ↦ rw m h
      | inr m ↦ rw m (h.0, All-add_used b employee type year tenant allocated days rows f h.1)
    ]

HasOwnKeys-add_used :
    (employee type year tenant allocated days : ℕ) (rows : List LeaveBalance)
    → HasOwnKeys rows
    → HasOwnKeys (add_used employee type year tenant allocated days rows)
unfolding add_used
HasOwnKeys-add_used employee type year tenant allocated days [] h = (tt, tt)
HasOwnKeys-add_used employee type year tenant allocated days (b ∷ rows) h =
    elim (Bool-cases (has_key employee type year tenant b)) [
      | inl m ↦ rw m h
      | inr m ↦ rw m (
        All-add_used b employee type year tenant allocated days rows m h.0,
        HasOwnKeys-add_used employee type year tenant allocated days rows h.1,
      )
    ]

LedgerStep-HasOwnKeys :
    {s t : FlexSession}
    → LedgerStep s t
    → HasOwnKeys s.tables.leave_balances
    → HasOwnKeys t.tables.leave_balances
unfolding deduct_leave_balance
LedgerStep-HasOwnKeys (idle t leaves balances next) h = rw balances h
LedgerStep-HasOwnKeys (request l i o) h = h
LedgerStep-HasOwnKeys (amend tenant old new f i c) h = h
LedgerStep-HasOwnKeys {s} (grant tenant old new f i a c same) h =
    HasOwnKeys-add_used _ _ _ _ _ _ s.tables.leave_balances h

LedgerRun-HasOwnKeys :
    {s t : FlexSession}
    → LedgerRun s t
    → HasOwnKeys s.tables.leave_balances
    → HasOwnKeys t.tables.leave_balances
LedgerRun-HasOwnKeys done h = h
LedgerRun-HasOwnKeys (then_step r st) h = LedgerStep-HasOwnKeys st (LedgerRun-HasOwnKeys r h)

pub perform_all-HasOwnKeys :
    (calls : List Call) (s : FlexSession)
    → IsBooked s
    → HasOwnKeys s.tables.leave_balances
    → HasOwnKeys (perform_all calls s).tables.leave_balances
perform_all-HasOwnKeys [] s v h = h
perform_all-HasOwnKeys (c ∷ calls) s v h =
    perform_all-HasOwnKeys calls (perform c s) (perform-IsBooked c s v)
      (LedgerRun-HasOwnKeys (perform-run c s v.0) h)
