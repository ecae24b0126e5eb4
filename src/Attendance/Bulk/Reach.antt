-- ===== src/Attendance/Bulk/Reach.antt =====
-- Which rows a decision on all check-ins of the day reaches.
use tgs_hrms.Base.{
  ap, ◌∙◌, sym, ℕ, zero, suc, ◌+◌, ◌-◌, ◌≡◌, refl, Text, Bool, true, false, ◌&&◌, ◌||◌, Option,
  none, some, List, [], ◌∷◌, ◌++◌, map, keep, All, arith, ◌==◌, ltb, any, length, All-sort_by,
  Bool-cases, inl, inr, ◌⊎◌,
}
use tgs_hrms.Timesheet.{ApprovalStatus, Attendance, is_check_in, start_of_day}
use tgs_hrms.Attendance.{
  MemberPage, Outside, AttendanceSession, judged, find_attendance, verify_from, verify_team_member,
}
use tgs_hrms.Attendance.Bulk.{
  collect_members, all_team_members, is_today, newest_first, put_latest, latest_each,
  get_today_team_check_ins, is_undecided, undecided_ids, judge_among, do_update, judge_all,
}

any-append : (p : ℕ → Bool) (xs ys : List ℕ) → any p (xs ++ ys) ≡ any p xs || any p ys
any-append p [] ys = refl
any-append p (x ∷ xs) ys = ground (arith, any-append p xs ys)

collect_members_lem :
    (fuel user : ℕ) (pages : ℕ → MemberPage) (page : ℕ)
    → any (λ m. m == user) (collect_members fuel pages page) ≡ verify_from fuel user pages page
unfolding collect_members verify_from
collect_members_lem zero user pages page = refl
collect_members_lem (suc fuel) user pages page =
    let rest = collect_members_lem fuel user pages (page + 1) in
    let joined =
      any-append (λ m. m == user) (pages page).items (collect_members fuel pages (page + 1)) in
    let more =
      (length (pages page).items == (pages page).limit) && ltb page (pages page).total_pages in
    elim (Bool-cases more) [
      | inl e ↦ rw e (ground (arith, joined, rest))
      | inr e ↦ rw e (ground arith)
    ]

-- The loop that gathers the members of a team has a user exactly when verifyTeamMember finds the user.
pub all_team_members_lem :
    (user manager tenant : ℕ) (w : Outside)
    → any (λ m. m == user) (all_team_members manager tenant w)
      ≡ verify_team_member user manager tenant w
unfolding all_team_members verify_team_member
all_team_members_lem user manager tenant w =
    collect_members_lem (suc (w.members tenant manager 1).total_pages) user
      (w.members tenant manager) 1

-- the rows that a decision may reach
abbrev pub is_reached : ℕ → ℕ → Outside → ℕ → Attendance → Bool
is_reached manager tenant w i b =
    (b.id == i)
    && verify_team_member b.user_id manager tenant w
    && is_today w.now b
    && is_undecided b.approval_status

abbrev IsOther : ℕ → Attendance → Type 0
IsOther i b = ((b.id == i) && is_undecided b.approval_status) ≡ false

IsOther-keep :
    (i manager tenant : ℕ) (w : Outside) (rows : List Attendance)
    → any (is_reached manager tenant w i) rows ≡ false
    → All (IsOther i) (
        keep
          (λ a. any (λ m. m == a.user_id) (all_team_members manager tenant w) && is_today w.now a)
          rows)
IsOther-keep i manager tenant w [] h = tt
IsOther-keep i manager tenant w (b ∷ rows) h =
    let rest = IsOther-keep i manager tenant w rows (ground (arith, h)) in
    let this : is_reached manager tenant w i b ≡ false = ground (arith, h) in
    let member = all_team_members_lem b.user_id manager tenant w in
    let chosen =
      any (λ m. m == b.user_id) (all_team_members manager tenant w) && is_today w.now b in
    elim (Bool-cases chosen) [
      | inl e ↦ rw e (ground (arith, this, member, e), rest)
      | inr e ↦ rw e rest
    ]

All-put_latest :
    (P : Attendance → Type 0) (a : Attendance) (m : List Attendance)
    → P a
    → All P m
    → All P (put_latest a m)
unfolding put_latest
All-put_latest P a [] p h = (p, tt)
All-put_latest P a (b ∷ m) p h = elim (Bool-cases (b.user_id == a.user_id)) [
  | inl e ↦ elim (Bool-cases (ltb b.timestamp a.timestamp)) [
    | inl l ↦ rw (e, l) (p, h.1)
    | inr l ↦ rw (e, l) h
  ]
  | inr e ↦ rw e (h.0, All-put_latest P a m p h.1)
]

All-latest_each :
    (P : Attendance → Type 0) (rows m : List Attendance)
    → All P rows
    → All P m
    → All P (latest_each rows m)
unfolding latest_each
All-latest_each P [] m h k = k
All-latest_each P (a ∷ rows) m h k =
    All-latest_each P rows (put_latest a m) h.1 (All-put_latest P a m h.0 k)

IsOther-ids :
    (i : ℕ) (rows : List Attendance)
    → All (IsOther i) rows
    → any (λ j. j == i) (map (λ a. a.id) (keep (λ a. is_undecided a.approval_status) rows)) ≡ false
IsOther-ids i [] h = refl
IsOther-ids i (b ∷ rows) h =
    let rest = IsOther-ids i rows h.1 in
    elim (Bool-cases (is_undecided b.approval_status)) [
      | inl e ↦ rw e (ground (arith, rest, e, h.0))
      | inr e ↦ rw e rest
    ]

undecided_ids-absent :
    (i manager tenant : ℕ) (w : Outside) (rows : List Attendance)
    → any (is_reached manager tenant w i) rows ≡ false
    → any (λ j. j == i) (undecided_ids manager tenant w rows) ≡ false
unfolding get_today_team_check_ins
undecided_ids-absent i manager tenant w rows h =
    let today =
      keep (λ a. any (λ m. m == a.user_id) (all_team_members manager tenant w) && is_today w.now a)
        rows in
    let key : Attendance → ℕ = λ a. start_of_day w.now + 86400000 - a.timestamp in
    IsOther-ids i (get_today_team_check_ins manager tenant w rows) (
      All-sort_by (IsOther i) key (latest_each (newest_first w.now today) []) (
        All-latest_each (IsOther i) (newest_first w.now today) []
          (All-sort_by (IsOther i) key today (IsOther-keep i manager tenant w rows h)) tt))

abbrev pub map_row : (Attendance → Attendance) → Option Attendance → Option Attendance
map_row f none = none
map_row f (some a) = some (f a)

find_id :
    (i : ℕ) (rows : List Attendance) (a : Attendance)
    → find_attendance i rows ≡ some a
    → (a.id == i) ≡ true
find_id i [] a h = ground arith
find_id i (b ∷ rows) a h = elim (Bool-cases (b.id == i)) [
  | inl e ↦ let same = rw e at h in ground (arith, e, same)
  | inr e ↦ let later = rw e at h in find_id i rows a later
]

find_judged :
    (status : ApprovalStatus) (i manager now : ℕ) (remarks : Option Text) (ids : List ℕ)
    (rows : List Attendance)
    → find_attendance i (map (judge_among status manager now remarks ids) rows)
      ≡ map_row (judge_among status manager now remarks ids) (find_attendance i rows)
find_judged status i manager now remarks ids [] = refl
find_judged status i manager now remarks ids (a ∷ rows) =
    let rest = find_judged status i manager now remarks ids rows in
    elim (Bool-cases (any (λ j. j == a.id) ids && is_check_in a.type)) [
      | inl e ↦ elim (Bool-cases (a.id == i)) [
        | inl d ↦ rw (e, d) (rw e refl)
        | inr d ↦ rw (e, d) rest
      ]
      | inr e ↦ elim (Bool-cases (a.id == i)) [
        | inl d ↦ rw (e, d) (rw e refl)
        | inr d ↦ rw (e, d) rest
      ]
    ]

judged_row :
    (status : ApprovalStatus) (i manager now : ℕ) (remarks : Option Text) (ids : List ℕ)
    (o : Option Attendance)
    → ((a : Attendance) → o ≡ some a → (a.id == i) ≡ true)
    → (map_row (judge_among status manager now remarks ids) o ≡ o)
      ⊎ ((any (λ j. j == i) ids ≡ true)
          × (map_row (judge_among status manager now remarks ids) o
              ≡ map_row (judged status manager now remarks) o))
judged_row status i manager now remarks ids none h = inl refl
judged_row status i manager now remarks ids (some a) h =
    let same : a.id ≡ i = ground (arith, h a refl) in
    elim (Bool-cases (any (λ j. j == a.id) ids && is_check_in a.type)) [
      | inl e ↦
          let here : any (λ j. j == a.id) ids ≡ true = ground (arith, e) in
          inr (sym (ap (λ k. any (λ j. j == k) ids) same) ∙ here, rw e refl)
      | inr e ↦ inl (rw e refl)
    ]

updated_row :
    (status : ApprovalStatus) (i manager : ℕ) (remarks : Option Text) (ids : List ℕ)
    (s : AttendanceSession)
    → (find_attendance i (do_update status manager s.outside.now remarks ids s).1.tables
        ≡ find_attendance i s.tables)
      ⊎ ((any (λ j. j == i) ids ≡ true)
          × (find_attendance i (do_update status manager s.outside.now remarks ids s).1.tables
              ≡ map_row (judged status manager s.outside.now remarks) (find_attendance i s.tables)))
unfolding do_update
updated_row status i manager remarks [] s = inl refl
updated_row status i manager remarks (j ∷ ids) s =
    let found = find_judged status i manager s.outside.now remarks (j ∷ ids) s.tables in
    elim (judged_row status i manager s.outside.now remarks (j ∷ ids) (find_attendance i s.tables)
      (λ a. find_id i s.tables a)) [ inl e ↦ inl (found ∙ e) | inr (m, e) ↦ inr (m, found ∙ e) ]

-- A decision on all check-ins leaves the row of an identifier as it was, or sets on it the status, the
-- manager, the time and the remarks and nothing else; it does the latter only if a row of that identifier is
-- an undecided check-in of today of a user that verifyTeamMember finds in the manager's team.
pub judge_all_lem :
    (status : ApprovalStatus) (i manager tenant : ℕ) (remarks : Option Text) (s : AttendanceSession)
    → (find_attendance i (judge_all status manager tenant remarks s).1.tables
        ≡ find_attendance i s.tables)
      ⊎ ((any (is_reached manager tenant s.outside i) s.tables ≡ true)
          × (find_attendance i (judge_all status manager tenant remarks s).1.tables
              ≡ map_row (judged status manager s.outside.now remarks) (find_attendance i s.tables)))
unfolding judge_all
judge_all_lem status i manager tenant remarks s =
    let ids = undecided_ids manager tenant s.outside s.tables in
    elim (updated_row status i manager remarks ids s) [
      | inl e ↦ inl e
      | inr (m, e) ↦ elim (Bool-cases (any (is_reached manager tenant s.outside i) s.tables)) [
        | inl r ↦ inr (r, e)
        | inr r ↦
            let absent = undecided_ids-absent i manager tenant s.outside s.tables r in
            absurd (ground (arith, m, absent))
      ]
    ]
