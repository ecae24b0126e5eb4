-- ===== src/Leave/Final.antt =====
-- An approved leave keeps its days, its type and its status, whatever is called.
use tgs_hrms.Base.{
  sym, ap, ◌∙◌, ℕ, ◌≡◌, refl, ◌≢◌, true, false, some, List, [], ◌∷◌, ◌++◌, arith, ◌==◌, Bool-cases,
  ◌⊎◌, inl, inr,
}
use mathlib.Core.Path.{subst}
use tgs_hrms.Bookings.{save_row}
use tgs_hrms.Flex.{LeaveStatus, Leave, FlexSession, leave_booking}
use tgs_hrms.Leave.{find_leave, deduct_leave_balance, save_leave}
use tgs_hrms.Leave.Decide.{is_approved_leave}
use tgs_hrms.Leave.Ledger.{
  SameCharge, LedgerStep, idle, request, amend, grant, LedgerRun, done, then_step,
}
use tgs_hrms.Leave.Ledger.Rows.{find-save_row}
use tgs_hrms.Leave.Ledger.Refine.{Call, perform, perform_all, perform-run}
use tgs_hrms.Leave.Balances.{HasOwnIds, IsBooked}
use tgs_hrms.Leave.Balances.Sums.{own_head}
use tgs_hrms.Leave.Balances.Kept.{perform-IsBooked, LedgerRun-IsBooked}

-- under the number of `l` stands an approved row with the same charge
abbrev pub StaysApproved : Leave → FlexSession → Type 0
StaysApproved l s =
    (m : Leave) × (find_leave l.id l.tenant_id s.tables.leaves ≡ some m)
    × SameCharge l m
    × (is_approved_leave m.status ≡ true)

find-append_kept :
    (id tenant : ℕ) (rows : List Leave) (m l : Leave)
    → find_leave id tenant rows ≡ some m
    → find_leave id tenant (rows ++ l ∷ []) ≡ some m
find-append_kept id tenant [] m l e = ground arith
find-append_kept id tenant (x ∷ rows) m l e = ground (arith, find-append_kept id tenant rows m l)

find-save_row_other :
    (id tenant : ℕ) (rows : List Leave) (m new : Leave)
    → find_leave id tenant rows ≡ some m
    → new.id ≢ id
    → find_leave id tenant (save_row leave_booking new rows) ≡ some m
find-save_row_other id tenant [] m new e h = ground arith
find-save_row_other id tenant (x ∷ rows) m new e h =
    ground (arith, h, find-save_row_other id tenant rows m new)

-- two rows that are found under one number are one row
found_unique :
    (id t u : ℕ) (rows : List Leave) (a b : Leave)
    → HasOwnIds rows
    → find_leave id t rows ≡ some a
    → find_leave id u rows ≡ some b
    → a ≡ b
found_unique id t u [] a b h e f = ground arith
found_unique id t u (x ∷ rows) a b h e f = elim (Bool-cases (x.id == id)) [
  | inl m ↦
      let i : x.id ≡ id = ground arith in
      sym (own_head id t x rows a e h.0 i) ∙ own_head id u x rows b f h.0 i
  | inr m ↦ found_unique id t u rows a b h.1 (rw m at e) (rw m at f)
]

SameCharge-trans : (a b c : Leave) → SameCharge a b → SameCharge b c → SameCharge a c
SameCharge-trans a b c (p, q, r, s, t, u) (p', q', r', s', t', u') =
    (p' ∙ p, q' ∙ q, r' ∙ r, s' ∙ s, t' ∙ t, u' ∙ u)

-- the row itself is written
saved-StaysApproved :
    (l m new : Leave) (s : FlexSession)
    → find_leave l.id l.tenant_id s.tables.leaves ≡ some m
    → new.id ≡ l.id
    → SameCharge l new
    → is_approved_leave new.status ≡ true
    → StaysApproved l (save_leave new s)
saved-StaysApproved l m new s e i c a =
    (new, find-save_row l.id l.tenant_id s.tables.leaves m new e i c.1, c, a)

other-StaysApproved :
    (l m new : Leave) (s : FlexSession)
    → find_leave l.id l.tenant_id s.tables.leaves ≡ some m
    → SameCharge l m
    → is_approved_leave m.status ≡ true
    → new.id ≢ l.id
    → StaysApproved l (save_leave new s)
other-StaysApproved l m new s e c a h =
    (m, find-save_row_other l.id l.tenant_id s.tables.leaves m new e h, c, a)

-- a row that is not approved is another one
open_other :
    (s : FlexSession) (l m old : Leave) (tenant : ℕ)
    → find_leave old.id tenant s.tables.leaves ≡ some old
    → find_leave l.id l.tenant_id s.tables.leaves ≡ some m
    → HasOwnIds s.tables.leaves
    → is_approved_leave m.status ≡ true
    → is_approved_leave old.status ≡ false
    → old.id ≢ l.id
open_other s l m old tenant f e h a o k =
    let one : m ≡ old =
      found_unique l.id l.tenant_id tenant s.tables.leaves m old h e
        (subst (λ z. find_leave z tenant s.tables.leaves ≡ some old) k f) in
    ground (arith, o, a, ap (λ z. z.status) one)

amend-StaysApproved :
    (s : FlexSession) (l : Leave) (tenant : ℕ) (old new : Leave)
    → find_leave old.id tenant s.tables.leaves ≡ some old
    → new.id ≡ old.id
    → (is_approved_leave old.status ≡ false) × (is_approved_leave new.status ≡ false)
      ⊎ SameCharge old new × (new.status ≡ old.status)
    → HasOwnIds s.tables.leaves
    → StaysApproved l s
    → StaysApproved l (save_leave new s)
amend-StaysApproved s l tenant old new f i (inl (o, _)) v (m, e, c, a) =
    other-StaysApproved l m new s e c a (λ k. open_other s l m old tenant f e v a o (sym i ∙ k))
amend-StaysApproved s l tenant old new f i (inr (charged, status)) v (m, e, c, a) =
    elim (Bool-cases (old.id == l.id)) [
      | inr other ↦ other-StaysApproved l m new s e c a (λ k. ground (arith, i, k))
      | inl same ↦
          let k : old.id ≡ l.id = ground (arith, same) in
          let one : m ≡ old =
            found_unique l.id l.tenant_id tenant s.tables.leaves m old v e
              (subst (λ z. find_leave z tenant s.tables.leaves ≡ some old) k f) in
          saved-StaysApproved l m new s e (i ∙ k)
            (SameCharge-trans l old new (subst (λ z. SameCharge l z) one c) charged)
            (rw (status, sym (ap (λ z. z.status) one)) a)
    ]

grant-StaysApproved :
    (s : FlexSession) (l : Leave) (tenant : ℕ) (old new : Leave)
    → find_leave old.id tenant s.tables.leaves ≡ some old
    → new.id ≡ old.id
    → is_approved_leave old.status ≡ false
    → HasOwnIds s.tables.leaves
    → StaysApproved l s
    → StaysApproved l (save_leave new (deduct_leave_balance old tenant s))
unfolding deduct_leave_balance
grant-StaysApproved s l tenant old new f i o v (m, e, c, a) =
    other-StaysApproved l m new (deduct_leave_balance old tenant s) e c a
      (λ k. open_other s l m old tenant f e v a o (sym i ∙ k))

LedgerStep-StaysApproved :
    {s t : FlexSession} (l : Leave)
    → LedgerStep s t
    → IsBooked s
    → StaysApproved l s
    → StaysApproved l t
LedgerStep-StaysApproved l (idle u leaves balances next) v (m, e, c, a) = (m, rw leaves e, c, a)
LedgerStep-StaysApproved {s} l (request new i o) v (m, e, c, a) =
    (m, find-append_kept l.id l.tenant_id s.tables.leaves m new e, c, a)
LedgerStep-StaysApproved {s} l (amend tenant old new f i h) v st =
    amend-StaysApproved s l tenant old new f i h v.1 st
LedgerStep-StaysApproved {s} l (grant tenant old new f i o g same) v st =
    grant-StaysApproved s l tenant old new f i o v.1 st

LedgerRun-StaysApproved :
    {s t : FlexSession} (l : Leave)
    → LedgerRun s t
    → IsBooked s
    → StaysApproved l s
    → StaysApproved l t
LedgerRun-StaysApproved l done v st = st
LedgerRun-StaysApproved l (then_step r step) v st =
    LedgerStep-StaysApproved l step (LedgerRun-IsBooked r v) (LedgerRun-StaysApproved l r v st)

perform_all-StaysApproved :
    (calls : List Call) (s : FlexSession) (l : Leave)
    → IsBooked s
    → StaysApproved l s
    → StaysApproved l (perform_all calls s)
perform_all-StaysApproved [] s l v st = st
perform_all-StaysApproved (c ∷ calls) s l v st =
    perform_all-StaysApproved calls (perform c s) l (perform-IsBooked c s v)
      (LedgerRun-StaysApproved l (perform-run c s v.0) v st)

-- If the balances are those of the approved leaves and the numbers of the leaves are their own, an
-- approved leave of the table is still found under its number after any calls of the methods of the
-- service, with the same employee, tenant, type, days and number of days, and is still approved.
pub approved_kept :
    (calls : List Call) (s : FlexSession) (l : Leave)
    → IsBooked s
    → find_leave l.id l.tenant_id s.tables.leaves ≡ some l
    → l.status ≡ LeaveStatus.approved
    → StaysApproved l (perform_all calls s)
approved_kept calls s l v e a =
    perform_all-StaysApproved calls s l v (l, e, (refl, refl, refl, refl, refl, refl), rw a refl)
