-- ===== src/Overtime/Rows.antt =====
-- Which rows of the table of overtime the checks of
-- src/modules/overtime/overtime.service.ts find, and what saving over such a row keeps.
use tgs_hrms.Base.{
  sym, ℕ, ◌<◌, ◌≡◌, refl, true, ◌&&◌, some, List, [], ◌∷◌, arith, ◌==◌, All-find, find_sat,
  Bool-cases, Option-cases, inl, inr, ok,
}
use mathlib.Core.Path.{ap}
use tgs_hrms.Workflow.{RequestType}
use tgs_hrms.Bookings.{
  NoOverlap, Below, NoOverlap-save_row, ApartFromOthers, Below-save_row, ApartFromOthers-booking,
}
use tgs_hrms.Flex.{
  FlexStatus, is_active, Overtime, World, FlexSession, overtime_booking, notify_manager,
}
use tgs_hrms.Overtime.{save_overtime, find_request, attach_overtime, own_pending_overtime}

-- No two rows of the table clash, and the numbers that were given lie below the next one.
abbrev pub IsValid : FlexSession → Type 0
IsValid s =
    NoOverlap overtime_booking s.tables.overtime_requests
    × Below overtime_booking s.outside.next_id s.tables.overtime_requests

pub attach_overtime-booking :
    (world : World) (files : List ℕ) (employee : ℕ) (w : Overtime)
    → overtime_booking (attach_overtime world files employee w) ≡ overtime_booking w
attach_overtime-booking world [] employee w = refl
attach_overtime-booking world (f ∷ files) employee w =
    elim (Option-cases (world.upload (f ∷ files) w.id employee)) [
      | inl e ↦ rw (e, attach_overtime) refl
      | inr (urls, e) ↦ rw (e, attach_overtime) refl
    ]

pub notify_manager-IsValid :
    (employee tenant : ℕ) (type : RequestType) (entity : ℕ) (s : FlexSession)
    → IsValid s
    → IsValid (notify_manager employee tenant type entity s)
notify_manager-IsValid employee tenant type entity s h =
    elim (Option-cases (s.outside.manager_of employee tenant)) [
      | inl e ↦ rw (e, notify_manager) h
      | inr (m, e) ↦
          rw (e, notify_manager)
            (elim (Bool-cases (m == employee)) [ inl f ↦ rw f h | inr f ↦ rw f h ])
    ]

-- what is saved over a row of the table, apart from all others
pub save_overtime-IsValid :
    (w : Overtime) (s : FlexSession)
    → w.id < s.outside.next_id
    → ApartFromOthers overtime_booking w s.tables.overtime_requests
    → IsValid s
    → IsValid (save_overtime w s)
save_overtime-IsValid w s b a v = (
  NoOverlap-save_row overtime_booking w s.tables.overtime_requests v.0 a,
  Below-save_row overtime_booking s.outside.next_id w s.tables.overtime_requests b v.1,
)

pub found-below :
    (id tenant : ℕ) (w : Overtime) (s : FlexSession)
    → find_request id tenant s.tables.overtime_requests ≡ some w
    → IsValid s
    → w.id < s.outside.next_id
found-below id tenant w s e v =
    All-find (λ x. x.id < s.outside.next_id) (λ x. (x.id == id) && (x.tenant_id == tenant))
      s.tables.overtime_requests w v.1 e

pub own_pending_overtime-found :
    (id employee tenant : ℕ) (rows : List Overtime) (w : Overtime)
    → own_pending_overtime id employee tenant rows ≡ ok w
    → (find_request id tenant rows ≡ some w)
      × (w.employee_id ≡ employee)
      × (w.status ≡ FlexStatus.pending)
unfolding own_pending_overtime
own_pending_overtime-found id employee tenant rows w h = (ground arith, ground arith, ground arith)

pub own_pending_overtime-below :
    (id employee tenant : ℕ) (w : Overtime) (s : FlexSession)
    → own_pending_overtime id employee tenant s.tables.overtime_requests ≡ ok w
    → IsValid s
    → w.id < s.outside.next_id
own_pending_overtime-below id employee tenant w s h v =
    found-below id tenant w s
      (own_pending_overtime-found id employee tenant s.tables.overtime_requests w h).0 v

-- a row whose new attachments are saved with it
pub save_attached-IsValid :
    (o : Overtime) (files : List ℕ) (employee : ℕ) (s : FlexSession)
    → o.id < s.outside.next_id
    → ApartFromOthers overtime_booking o s.tables.overtime_requests
    → IsValid s
    → IsValid (save_overtime (attach_overtime s.outside files employee o) s)
save_attached-IsValid o files employee s b a v =
    let e = attach_overtime-booking s.outside files employee o in
    save_overtime-IsValid (attach_overtime s.outside files employee o) s
      (let i : (attach_overtime s.outside files employee o).id ≡ o.id = ap (λ b. b.id) e in
        omega arith)
      (ApartFromOthers-booking overtime_booking o (attach_overtime s.outside files employee o)
        s.tables.overtime_requests (sym e) a)
      v

pub own_pending_overtime-booking :
    (id employee tenant : ℕ) (rows : List Overtime) (w : Overtime)
    → own_pending_overtime id employee tenant rows ≡ ok w
    → (w.id ≡ id)
      × (w.employee_id ≡ employee)
      × (w.tenant_id ≡ tenant)
      × (is_active w.status ≡ true)
own_pending_overtime-booking id employee tenant rows w h =
    let f = own_pending_overtime-found id employee tenant rows w h in
    let sat : ((w.id == id) && (w.tenant_id == tenant)) ≡ true =
      find_sat (λ x. (x.id == id) && (x.tenant_id == tenant)) rows w f.0 in
    (ground arith, f.1, ground arith, rw (f.2) refl)
