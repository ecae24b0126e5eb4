-- ===== src/Attendance/Sessions.antt =====
-- Check-ins and check-outs open and close a session in turn.
use mathlib.Core.Path.{subst}
use tgs_hrms.Base.{
  sym, ◌∙◌, ℕ, ◌≤◌, ◌<◌, ◌≡◌, refl, ◌≢◌, ◌⊎◌, Bool, true, false, ◌||◌, Option, none, some, List, [],
  ◌∷◌, ◌++◌, arith, ltb, any, All, ok, err, bad_request, no_session, Bool-cases, Option-cases,
  Result-cases, inl, inr,
}
use tgs_hrms.Timesheet.{
  AttendanceType, check_in, check_out, break_start, break_end, Attendance, is_check_in,
  is_check_out, start_of_day, latest,
}
use tgs_hrms.Attendance.{
  CreateAttendance, Outside, AttendanceSession, is_check_in_since, is_check_out_after,
  get_active_session, is_open, check_place, check_session, is_self_approved, new_attendance,
  auto_end, insert_attendance, do_create,
}

-- what an event of a type says of the session before it and after it
abbrev pub Turns : AttendanceType → Bool → Bool → Type 0
Turns check_in before after = (before ≡ false) × (after ≡ true)
Turns check_out before after = (before ≡ true) × (after ≡ false)
Turns break_start before after = after ≡ before
Turns break_end before after = after ≡ before

-- every row is from before `now`
abbrev pub IsPast : ℕ → List Attendance → Type 0
IsPast now rows = All (λ a. a.timestamp < now) rows

latest-append_other :
    (p : Attendance → Bool) (rows : List Attendance) (a : Attendance)
    → p a ≡ false
    → latest p (rows ++ a ∷ []) ≡ latest p rows
unfolding latest
latest-append_other p [] a h = rw h refl
latest-append_other p (x ∷ rows) a h = rw (latest-append_other p rows a h) refl

latest-append_new :
    (p : Attendance → Bool) (rows : List Attendance) (a : Attendance)
    → p a ≡ true
    → IsPast a.timestamp rows
    → latest p (rows ++ a ∷ []) ≡ some a
unfolding latest
latest-append_new p [] a h k = rw h refl
latest-append_new p (x ∷ rows) a h k = elim (Bool-cases (p x)) [
  | inl e ↦ rw (latest-append_new p rows a h k.1, e) (ground (arith, k.0))
  | inr e ↦ rw (latest-append_new p rows a h k.1, e) refl
]

All-latest :
    (P : Attendance → Type 0) (p : Attendance → Bool) (rows : List Attendance) (b : Attendance)
    → All P rows
    → latest p rows ≡ some b
    → P b
unfolding latest
All-latest P p [] b h e = ground arith
All-latest P p (x ∷ rows) b h e = elim (Bool-cases (p x)) [
  | inl m ↦ elim (Option-cases (latest p rows)) [
    | inl n ↦ let same : x ≡ b = ground (arith, rw (m, n) at e) in subst P same h.0
    | inr (y, n) ↦ elim (Bool-cases (ltb y.timestamp x.timestamp)) [
      | inl o ↦ let same : x ≡ b = ground (arith, rw (m, n, o) at e) in subst P same h.0
      | inr o ↦ All-latest P p rows b h.1 (n ∙ (rw (m, n, o) at e))
    ]
  ]
  | inr m ↦ All-latest P p rows b h.1 (rw m at e)
]

any-append :
    (p : Attendance → Bool) (rows : List Attendance) (a : Attendance)
    → any p (rows ++ a ∷ []) ≡ any p rows || p a
any-append p [] a = ground arith
any-append p (x ∷ rows) a = ground (arith, any-append p rows a)

none_after :
    (user now : ℕ) (rows : List Attendance)
    → IsPast now rows
    → any (is_check_out_after user now) rows ≡ false
none_after user now [] h = refl
none_after user now (x ∷ rows) h = ground (arith, h.0, none_after user now rows h.1)

start_of_day_le : (now : ℕ) → start_of_day now ≤ now
unfolding start_of_day
start_of_day_le now = omega arith

module _ (user now : ℕ) (rows : List Attendance) (a : Attendance) (same_user : a.user_id ≡ user)
    (same_time : a.timestamp ≡ now) (past : IsPast now rows) where
  abbrev since : Attendance → Bool
  since = is_check_in_since user (start_of_day now)

  opens : is_check_in a.type ≡ true → is_open user now (rows ++ a ∷ []) ≡ true
  unfolding get_active_session
  opens e =
      let seen : since a ≡ true = ground (arith, e, same_user, same_time, start_of_day_le now) in
      let newest =
        latest-append_new since rows a seen (subst (λ z. IsPast z rows) (sym same_time) past) in
      let out = is_check_out_after user in
      let quiet : any (out now) (rows ++ a ∷ []) ≡ false =
        ground (arith, e, any-append (out now) rows a, none_after user now rows past) in
      let closed = subst (λ z. any (out z) (rows ++ a ∷ []) ≡ false) (sym same_time) quiet in
      rw (newest, closed, is_open, get_active_session) refl

  closes :
      is_check_out a.type ≡ true
      → is_open user now rows ≡ true
      → is_open user now (rows ++ a ∷ []) ≡ false
  unfolding get_active_session
  closes e h = elim (Option-cases (latest since rows)) [
    | inl n ↦ ground (arith, rw (n, is_open, get_active_session) at h)
    | inr (b, n) ↦
        let other : since a ≡ false = ground (arith, e) in
        let newest = latest-append_other since rows a other ∙ n in
        let earlier = All-latest (λ x. x.timestamp < now) since rows b past n in
        let out = is_check_out_after user b.timestamp in
        let closed : any out (rows ++ a ∷ []) ≡ true =
          ground (arith, e, same_user, same_time, earlier, any-append out rows a) in
        rw (newest, closed, is_open, get_active_session) refl
  ]

  stays :
      is_check_in a.type ≡ false
      → is_check_out a.type ≡ false
      → is_open user now (rows ++ a ∷ []) ≡ is_open user now rows
  unfolding get_active_session
  stays e f =
      let other : since a ≡ false = ground (arith, e) in
      let newest = latest-append_other since rows a other in
      elim (Option-cases (latest since rows)) [
        | inl n ↦ rw (newest, n, is_open, get_active_session) refl
        | inr (b, n) ↦
            let out = is_check_out_after user b.timestamp in
            let closed : any out (rows ++ a ∷ []) ≡ any out rows =
              ground (arith, f, any-append out rows a) in
            rw (newest, n, closed, is_open, get_active_session) refl
      ]

  turns :
      (type : AttendanceType) (u : Unit {0})
      → a.type ≡ type
      → check_session type (is_open user now rows) ≡ ok u
      → Turns type (is_open user now rows) (is_open user now (rows ++ a ∷ []))
  unfolding check_session
  turns check_in u e h = elim (Bool-cases (is_open user now rows)) [
    | inl o ↦ ground (arith, rw (o, check_session) at h)
    | inr o ↦ (o, opens (rw e refl))
  ]
  turns check_out u e h = elim (Bool-cases (is_open user now rows)) [
    | inl o ↦ (o, closes (rw e refl) o)
    | inr o ↦ ground (arith, rw (o, check_session) at h)
  ]
  turns break_start u e h = stays (rw e refl) (rw e refl)
  turns break_end u e h = stays (rw e refl) (rw e refl)

auto_end-tables :
    (type : AttendanceType) (user : ℕ) (s : AttendanceSession)
    → (auto_end type user s).tables ≡ s.tables
auto_end-tables check_in user s = refl
auto_end-tables check_out user s = refl
auto_end-tables break_start user s = refl
auto_end-tables break_end user s = refl

new_attendance-fields :
    (user : ℕ) (tenant : Option ℕ) (type : AttendanceType) (near : Bool) (w : Outside)
    → let a = new_attendance user tenant type near w in
      (a.user_id ≡ user) × (a.type ≡ type) × (a.timestamp ≡ w.now)
new_attendance-fields user tenant type near w = elim (Bool-cases (is_check_in type)) [
  | inr e ↦ rw e (refl, refl, refl)
  | inl e ↦ rw e (elim (Bool-cases (is_self_approved user tenant w)) [
    | inl f ↦ rw f (refl, refl, refl)
    | inr f ↦ rw f (refl, refl, refl)
  ])
]

-- If all rows are from before now, an event that is let in turns the session of its user: a check-in
-- finds none and opens one, a check-out finds one and closes it, and a break leaves it as it was.
pub do_create-Turns :
    (provisioned : Bool) (user : ℕ) (tenant : Option ℕ) (dto : CreateAttendance)
    (s : AttendanceSession) (a : Attendance)
    → IsPast s.outside.now s.tables
    → (do_create provisioned user tenant dto s).0 ≡ ok a
    → Turns dto.type
        (is_open user s.outside.now s.tables)
        (is_open user s.outside.now (do_create provisioned user tenant dto s).1.tables)
unfolding do_create
do_create-Turns provisioned user tenant dto s a past h =
    elim (Result-cases (check_place provisioned user dto s.outside)) [
      | inl (x, e) ↦ let refused = rw (e, do_create) at h in ground arith
      | inr (near, e) ↦
          elim (Result-cases (check_session dto.type (is_open user s.outside.now s.tables))) [
            | inl (x, f) ↦ let refused = rw (e, f, do_create) at h in ground arith
            | inr (u, f) ↦
                let new = new_attendance user tenant dto.type near s.outside in
                let (b, c, d) = new_attendance-fields user tenant dto.type near s.outside in
                rw (e, f, do_create)
                  (rw (auto_end-tables dto.type user (insert_attendance new s))
                    (turns user s.outside.now s.tables new b d past dto.type u c f))
          ]
    ]

latest-none :
    (p : Attendance → Bool) (rows : List Attendance)
    → All (λ a. p a ≡ false) rows
    → latest p rows ≡ none
unfolding latest
latest-none p [] h = refl
latest-none p (x ∷ rows) h = rw (h.0) (latest-none p rows h.1)

-- no check-in of the user lies on or after the time; anything else may
abbrev pub HasNoCheckIn : ℕ → ℕ → List Attendance → Type 0
HasNoCheckIn user since rows =
    All (λ a. (a.user_id ≢ user) ⊎ ((a.type ≢ check_in) ⊎ (a.timestamp < since))) rows

is_check_in-other : (type : AttendanceType) → type ≢ check_in → is_check_in type ≡ false
is_check_in-other check_in h = absurd (h refl)
is_check_in-other check_out h = refl
is_check_in-other break_start h = refl
is_check_in-other break_end h = refl

not_since :
    (user since : ℕ) (rows : List Attendance)
    → HasNoCheckIn user since rows
    → All (λ a. is_check_in_since user since a ≡ false) rows
not_since user since [] h = tt
not_since user since (x ∷ rows) (inl other, h) =
    (ground (arith, other), not_since user since rows h)
not_since user since (x ∷ rows) (inr (inl type), h) =
    let no = is_check_in-other x.type type in (ground (arith, no), not_since user since rows h)
not_since user since (x ∷ rows) (inr (inr early), h) =
    (ground (arith, early), not_since user since rows h)

-- If the user has not checked in since the last midnight UTC, whatever breaks or check-outs the user
-- has had since then and whatever others have done, a check-out of the user is refused and writes
-- nothing, also where a check-in from before that midnight is still open.
pub overnight_refused :
    (provisioned : Bool) (user : ℕ) (tenant : Option ℕ) (dto : CreateAttendance)
    (s : AttendanceSession)
    → HasNoCheckIn user (start_of_day s.outside.now) s.tables
    → dto.type ≡ check_out
    → do_create provisioned user tenant dto s ≡ (err (bad_request no_session), s)
unfolding do_create check_place get_active_session check_session
overnight_refused provisioned user tenant dto s since e =
    let now = s.outside.now in
    let nobody =
      latest-none (is_check_in_since user (start_of_day now)) s.tables
        (not_since user (start_of_day now) s.tables since) in
    let closed : is_open user now s.tables ≡ false =
      rw (nobody, is_open, get_active_session) refl in
    let placed : check_place provisioned user dto s.outside ≡ ok false = rw (e, check_place) refl in
    rw (placed, e, closed, do_create) refl
