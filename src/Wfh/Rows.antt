-- ===== src/Wfh/Rows.antt =====
-- Which rows of the table of requests to work from home the checks of
-- src/modules/wfh/wfh.service.ts find, and what saving over such a row keeps.
use tgs_hrms.Base.{
  ℕ, ◌<◌, ◌≡◌, refl, ◌&&◌, some, List, [], ◌∷◌, arith, ◌==◌, All-find, Bool-cases, Option-cases,
  inl, inr, ok,
}
use tgs_hrms.Workflow.{RequestType}
use tgs_hrms.Bookings.{NoOverlap, Below, NoOverlap-save_row, ApartFromOthers, Below-save_row}
use tgs_hrms.Flex.{FlexStatus, Wfh, World, FlexSession, wfh_booking, notify_manager}
use tgs_hrms.Wfh.{save_wfh, find_wfh, attach, own_pending}

-- No two rows of the table clash, and the numbers that were given lie below the next one.
abbrev pub IsValid : FlexSession → Type 0
IsValid s =
    NoOverlap wfh_booking s.tables.wfh_requests
    × Below wfh_booking s.outside.next_id s.tables.wfh_requests

pub attach-booking :
    (world : World) (files : List ℕ) (employee : ℕ) (w : Wfh)
    → wfh_booking (attach world files employee w) ≡ wfh_booking w
attach-booking world [] employee w = refl
attach-booking world (f ∷ files) employee w =
    elim (Option-cases (world.upload (f ∷ files) w.id employee)) [
      | inl e ↦ rw (e, attach) refl
      | inr (urls, e) ↦ rw (e, attach) refl
    ]

pub notify_manager-IsValid :
    (employee tenant : ℕ) (type : RequestType) (entity : ℕ) (s : FlexSession)
    → IsValid s
    → IsValid (notify_manager employee tenant type entity s)
notify_manager-IsValid employee tenant type entity s h =
    elim (Option-cases (s.outside.manager_of employee tenant)) [
      | inl e ↦ rw (e, notify_manager) h
      | inr (m, e) ↦
          rw (e, notify_manager)
            (elim (Bool-cases (m == employee)) [ inl f ↦ rw f h | inr f ↦ rw f h ])
    ]

-- what is saved over a row of the table, apart from all others
pub save_wfh-IsValid :
    (w : Wfh) (s : FlexSession)
    → w.id < s.outside.next_id
    → ApartFromOthers wfh_booking w s.tables.wfh_requests
    → IsValid s
    → IsValid (save_wfh w s)
save_wfh-IsValid w s b a v = (
  NoOverlap-save_row wfh_booking w s.tables.wfh_requests v.0 a,
  Below-save_row wfh_booking s.outside.next_id w s.tables.wfh_requests b v.1,
)

pub found-below :
    (id tenant : ℕ) (w : Wfh) (s : FlexSession)
    → find_wfh id tenant s.tables.wfh_requests ≡ some w
    → IsValid s
    → w.id < s.outside.next_id
found-below id tenant w s e v =
    All-find (λ x. x.id < s.outside.next_id) (λ x. (x.id == id) && (x.tenant_id == tenant))
      s.tables.wfh_requests w v.1 e

pub own_pending-found :
    (id employee tenant : ℕ) (rows : List Wfh) (w : Wfh)
    → own_pending id employee tenant rows ≡ ok w
    → (find_wfh id tenant rows ≡ some w)
      × (w.employee_id ≡ employee)
      × (w.status ≡ FlexStatus.pending)
unfolding own_pending
own_pending-found id employee tenant rows w h = (ground arith, ground arith, ground arith)

pub own_pending-below :
    (id employee tenant : ℕ) (w : Wfh) (s : FlexSession)
    → own_pending id employee tenant s.tables.wfh_requests ≡ ok w
    → IsValid s
    → w.id < s.outside.next_id
own_pending-below id employee tenant w s h v =
    found-below id tenant w s (own_pending-found id employee tenant s.tables.wfh_requests w h).0 v
