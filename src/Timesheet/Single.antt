-- ===== src/Timesheet/Single.antt =====
-- Nobody has two sessions of work at a time.
use tgs_hrms.Base.{
  ℕ, ◌+◌, ◌-◌, ◌≤◌, ◌≡◌, refl, Text, Option, none, List, [], ◌∷◌, ◌++◌, arith, ◌==◌, if◌then◌else◌,
  find, Bool-cases, Option-cases, inl, inr,
}
use tgs_hrms.Timesheet.{
  Attendance, Timesheet, Sheets, is_running, is_at_work, is_of_day, latest, end_first, end_work,
  start_work, new_sheet,
}

abbrev pub running_count : ℕ → List Timesheet → ℕ
running_count user [] = 0
running_count user (t ∷ rows) = (if is_running user t then 1 else 0) + running_count user rows

abbrev pub IsSingle : Sheets → Type 0
IsSingle s = (user : ℕ) → running_count user s.rows ≤ 1

running_count-append :
    (user : ℕ) (rows : List Timesheet) (t : Timesheet)
    → running_count user (rows ++ t ∷ [])
      ≡ running_count user rows + (if is_running user t then 1 else 0)
running_count-append user [] t = omega arith
running_count-append user (x ∷ rows) t = omega (arith, running_count-append user rows t)

running_count-none :
    (user : ℕ) (rows : List Timesheet)
    → find (is_running user) rows ≡ none
    → running_count user rows ≡ 0
running_count-none user [] h = refl
running_count-none user (t ∷ rows) h = ground (arith, running_count-none user rows)

-- one session of the user ends, if one runs, and none of anybody else
running_count-end_first :
    (u user now : ℕ) (name_of : ℕ → Option Text) (rows : List Timesheet)
    → running_count u (end_first user now name_of rows)
      ≡ (if u == user then running_count u rows - 1 else running_count u rows)
unfolding end_first
running_count-end_first u user now name_of [] = ground arith
running_count-end_first u user now name_of (t ∷ rows) = elim (Bool-cases (is_running user t)) [
  | inl e ↦ rw e (ground (arith, e))
  | inr e ↦ rw e (ground (arith, e, running_count-end_first u user now name_of rows))
]

-- a call, at a time of its own, by whoever
pub data Call : Type 0 where
  begin_at : (now : ℕ) (attendance : List Attendance) (user : ℕ) → Call
  end_at : (now user : ℕ) → Call

abbrev pub perform : Call → Sheets → Sheets
perform (begin_at now attendance user) s = (start_work attendance user (record s { now = now })).1
perform (end_at now user) s = end_work user (record s { now = now })

abbrev pub perform_all : List Call → Sheets → Sheets
perform_all [] s = s
perform_all (c ∷ calls) s = perform_all calls (perform c s)

start_work-IsSingle :
    (attendance : List Attendance) (user : ℕ) (s : Sheets)
    → IsSingle s
    → IsSingle (start_work attendance user s).1
unfolding start_work
start_work-IsSingle attendance user s h =
    elim (Bool-cases (is_at_work (latest (is_of_day user s.now) attendance))) [
      | inr e ↦ rw e h
      | inl e ↦ rw e (elim (Option-cases (find (is_running user) s.rows)) [
        | inr (t, f) ↦ rw f h
        | inl f ↦ rw f (λ u. elim (Bool-cases (u == user)) [
          | inl m ↦
              let same : u ≡ user = ground (arith, m) in
              let idle : running_count u s.rows ≡ 0 = rw same (running_count-none user s.rows f) in
              ground (arith, idle, running_count-append u s.rows (new_sheet user s))
          | inr m ↦ ground (arith, m, h u, running_count-append u s.rows (new_sheet user s))
        ])
      ])
    ]

end_work-IsSingle : (user : ℕ) (s : Sheets) → IsSingle s → IsSingle (end_work user s)
unfolding end_work
end_work-IsSingle user s h u =
    ground (arith, h u, running_count-end_first u user s.now s.name_of s.rows)

-- If everybody has one running session of work at most, this still holds after any starts and ends, by
-- whoever, at whatever times and in any order, whether they return or throw.
pub perform_all-IsSingle :
    (calls : List Call) (s : Sheets) → IsSingle s → IsSingle (perform_all calls s)
perform_all-IsSingle [] s h = h
perform_all-IsSingle (begin_at now attendance user ∷ calls) s h =
    perform_all-IsSingle calls (perform (begin_at now attendance user) s)
      (start_work-IsSingle attendance user (record s { now = now }) h)
perform_all-IsSingle (end_at now user ∷ calls) s h =
    perform_all-IsSingle calls (perform (end_at now user) s)
      (end_work-IsSingle user (record s { now = now }) h)
