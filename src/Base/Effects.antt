-- ===== src/Base/Effects.antt =====
-- Exceptions and state. A method is a function from the state to its result and the new state;
-- the state comes back after a throw too, since what was written stays written unless a
-- transaction undoes it.

use mathlib.Core.Path.{◌≡◌, refl, sym, ap, ◌∙◌}
use mathlib.Core.Logic.{◌⊎◌, inl, inr}
use mathlib.Core.Bool.{Bool, true, false}
use native.Mathlib.Omega.{arith}
use mathlib.Core.Option.{Option, none, some}

-- The messages of the exceptions, by the part of the program that throws them.
pub data Reason : Type 0 where
  no_field_to_update config_step_missing last_config_step no_workflow_config : Reason
  workflow_request_missing already_decided no_pending_step own_request wrong_role : Reason
  invalid_week_format invalid_week : Reason
  type_not_enabled date_in_past end_before_start not_a_date invalid_tenant : Reason
  overlaps_approved overlaps_pending has_leave has_wfh has_overtime : Reason
  request_missing not_own_request not_pending attachment_missing : Reason
  hours_and_end_date no_hours_nor_end_date weekday_overtime : Reason
  subscription_inactive missing_permission : Reason
  leave_missing leave_type_missing too_far_ahead leave_overlap weekends_only : Reason
  own_leave not_open_leave awaiting_admin not_authorized remarks_required : Reason
  not_pending_leave not_team_member approved_details document_missing not_member : Reason
  upload_failed : Reason
  no_location outside_fence session_active no_session check_in_missing not_check_in : Reason
  tenant_missing tenant_inactive tenant_deleted tenant_suspended : Reason
  email_taken system_admin_exists token_invalid token_expired email_missing wrong_password : Reason
  account_locked too_many_failures email_unverified role_missing mobile_disabled login_ip : Reason
  employee_deactivated user_missing token_required token_reused google_token no_account : Reason
  session_missing session_revoked : Reason
  already_listed not_listed ip_not_allowed not_team check_in_first work_active attendance_missing :
      Reason

-- The classes of NestJS exceptions; `internal` is an exception of another service or of the
-- language.
pub data Error : Type 0 where
  bad_request not_found forbidden conflict payment_required unauthorized internal : Reason → Error

pub data Result (A : Type 0) : Type 0 where
  ok : A → Result A
  err : Error → Result A

abbrev pub Exec : Type 0 → Type 0 → Type 0
Exec S A = S → Result A × S

module _ {S A : Type 0} where
  abbrev pub pure : A → Exec S A
  pure a s = (ok a, s)

  abbrev pub throw : Error → Exec S A
  throw e s = (err e, s)

  abbrev pub gets : (S → A) → Exec S A
  gets f s = (ok (f s), s)

  abbrev pub or_throw : Option A → Error → Exec S A
  or_throw none e = throw e
  or_throw (some a) e = pure a

  abbrev pub lift : Result A → Exec S A
  lift r s = (r, s)

infixl 5 ◌>>=◌ ◌>>◌
abbrev pub ◌>>=◌ : {S A B : Type 0} → Exec S A → (A → Exec S B) → Exec S B
◌>>=◌ m f s = let (r, s') = m s in elim r [ ok a ↦ f a s' | err e ↦ (err e, s') ]

abbrev pub ◌>>◌ : {S A B : Type 0} → Exec S A → Exec S B → Exec S B
m >> k = m >>= λ _. k

module _ {S : Type 0} where
  abbrev pub throw_if : Bool → Error → Exec S (Unit {0})
  throw_if true e = throw e
  throw_if false e = pure tt

  abbrev pub throw_unless : Bool → Error → Exec S (Unit {0})
  throw_unless true e = pure tt
  throw_unless false e = throw e

  abbrev pub modify : (S → S) → Exec S (Unit {0})
  modify f s = (ok tt, f s)

pub Result-cases :
    {A : Type 0} (r : Result A) → ((e : Error) × (r ≡ err e)) ⊎ ((a : A) × (r ≡ ok a))
Result-cases (err e) = inl (e, refl)
Result-cases (ok a) = inr (a, refl)

ok-inj : {A : Type 0} (x a : A) → ok x ≡ ok a → x ≡ a
ok-inj x a h = ground arith

module _ {S A B : Type 0} (P : S → Type 0) where
  continue-keeps :
      (r : Result A) (s : S) (k : A → Exec S B)
      → P s
      → ((a : A) → r ≡ ok a → P (k a s).1)
      → P ((lift r >>= k) s).1
  continue-keeps (ok a) s k p h = h a refl
  continue-keeps (err e) s k p h = p

  -- the rule of a sequence: what `m` establishes holds at the end, if the rest keeps it
  pub bind-keeps :
      (m : Exec S A) (k : A → Exec S B) (s : S)
      → P (m s).1
      → ((a : A) → (m s).0 ≡ ok a → P (k a (m s).1).1)
      → P ((m >>= k) s).1
  bind-keeps m k s p h = continue-keeps (m s).0 (m s).1 k p h

  recheck-keeps :
      (r : Result A) (s s' : S) (k : A → Exec S B)
      → s' ≡ s
      → P s
      → ((a : A) → r ≡ ok a → P (k a s).1)
      → P ((lift r >>= k) s').1
  recheck-keeps (ok a) s s' k e p h = rw e (h a refl)
  recheck-keeps (err x) s s' k e p h = rw e p

  -- the same where the first part only checks
  pub check-keeps :
      (m : Exec S A) (k : A → Exec S B) (s : S)
      → (m s).1 ≡ s
      → P s
      → ((a : A) → (m s).0 ≡ ok a → P (k a s).1)
      → P ((m >>= k) s).1
  check-keeps m k s e p h = recheck-keeps (m s).0 s (m s).1 k e p h

module _ {S A B : Type 0} where
  continue-ok :
      (r : Result A) (s : S) (k : A → Exec S B) {b : B}
      → ((lift r >>= k) s).0 ≡ ok b
      → (a : A) × (r ≡ ok a) × ((k a s).0 ≡ ok b) × (((lift r >>= k) s).1 ≡ (k a s).1)
  continue-ok (ok a) s k h = (a, refl, h, refl)
  continue-ok (err e) s k h = ground arith

  -- a sequence that returns: its first part returned, and the rest did
  pub bind-ok :
      (m : Exec S A) (k : A → Exec S B) (s : S) {b : B}
      → ((m >>= k) s).0 ≡ ok b
      → (a : A) × ((m s).0 ≡ ok a) × ((k a (m s).1).0 ≡ ok b) × (((m >>= k) s).1 ≡ (k a (m s).1).1)
  bind-ok m k s h = continue-ok (m s).0 (m s).1 k h

  continue-check :
      (r : Result A) (s s' : S) (k : A → Exec S B) {b : B}
      → s' ≡ s
      → ((lift r >>= k) s').0 ≡ ok b
      → (a : A) × (r ≡ ok a) × ((k a s).0 ≡ ok b) × ((lift r >>= k) s' ≡ k a s)
  continue-check (ok a) s s' k e h = (a, refl, sym (ap (λ z. (k a z).0) e) ∙ h, ap (k a) e)
  continue-check (err x) s s' k e h = ground arith

  -- the same where the first part only checks
  pub check-ok :
      (m : Exec S A) (k : A → Exec S B) (s : S) {b : B}
      → (m s).1 ≡ s
      → ((m >>= k) s).0 ≡ ok b
      → (a : A) × ((m s).0 ≡ ok a) × ((k a s).0 ≡ ok b) × ((m >>= k) s ≡ k a s)
  check-ok m k s e h = continue-check (m s).0 s (m s).1 k e h

module _ {S A B : Type 0} where
  continue-pass :
      (r : Result A) (s : S) (k : A → Exec S B) (a : A) → r ≡ ok a → (lift r >>= k) s ≡ k a s
  continue-pass (ok x) s k a h = ap (λ z. k z s) (ok-inj x a h)
  continue-pass (err e) s k a h = ground arith

  -- a sequence whose first part returns, and the same where that part only checks
  pub bind-pass :
      (m : Exec S A) (k : A → Exec S B) (s : S) (a : A) → (m s).0 ≡ ok a → (m >>= k) s ≡ k a (m s).1
  bind-pass m k s a h = continue-pass (m s).0 (m s).1 k a h

  pub check-pass :
      (m : Exec S A) (k : A → Exec S B) (s : S) (a : A)
      → (m s).0 ≡ ok a
      → (m s).1 ≡ s
      → (m >>= k) s ≡ k a s
  check-pass m k s a h e = bind-pass m k s a h ∙ ap (k a) e

-- the three checks: they leave the state, and return only if the test passes
module _ {S A : Type 0} where
  pub or_throw-state : (o : Option A) (e : Error) (s : S) → (or_throw o e s).1 ≡ s
  or_throw-state none e s = refl
  or_throw-state (some a) e s = refl

  pub or_throw-pass :
      (o : Option A) (e : Error) (s : S) (a : A) → o ≡ some a → (or_throw o e s).0 ≡ ok a
  or_throw-pass none e s a h = ground arith
  or_throw-pass (some b) e s a h = ground arith

  pub or_throw-ok :
      (o : Option A) (e : Error) (s : S) (a : A) → (or_throw o e s).0 ≡ ok a → o ≡ some a
  or_throw-ok none e s a h = ground arith
  or_throw-ok (some b) e s a h = ground arith

module _ {S : Type 0} where
  pub throw_unless-state : (b : Bool) (e : Error) (s : S) → (throw_unless b e s).1 ≡ s
  throw_unless-state true e s = refl
  throw_unless-state false e s = refl

  pub throw_unless-pass : (b : Bool) (e : Error) (s : S) → b ≡ true → (throw_unless b e s).0 ≡ ok tt
  throw_unless-pass true e s h = refl
  throw_unless-pass false e s h = ground arith

  pub throw_unless-ok :
      (b : Bool) (e : Error) (s : S) (u : Unit {0}) → (throw_unless b e s).0 ≡ ok u → b ≡ true
  throw_unless-ok true e s u h = refl
  throw_unless-ok false e s u h = ground arith

  pub throw_if-state : (b : Bool) (e : Error) (s : S) → (throw_if b e s).1 ≡ s
  throw_if-state true e s = refl
  throw_if-state false e s = refl

  pub throw_if-ok :
      (b : Bool) (e : Error) (s : S) (u : Unit {0}) → (throw_if b e s).0 ≡ ok u → b ≡ false
  throw_if-ok true e s u h = ground arith
  throw_if-ok false e s u h = refl
