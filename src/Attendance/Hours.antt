-- ===== src/Attendance/Hours.antt =====
-- Bounds on the hours that `calculateTotalWorkHours` counts.
use tgs_hrms.Base.{
  ℕ, ◌+◌, ◌-◌, ◌/◌, ◌≤◌, Option, none, some, List, [], ◌∷◌, arith, All, sort_by, Ascending,
  sort_by-Ascending, All-sort_by, Bool-cases, inl, inr,
}
use tgs_hrms.Timesheet.{Attendance, is_check_in, is_check_out}
use tgs_hrms.Attendance.{add_hours, calculate_total_work_hours}

abbrev IsSorted : List Attendance → Type 0
IsSorted events = Ascending (λ a. a.timestamp) events

abbrev IsBy : ℕ → List Attendance → Type 0
IsBy high events = All (λ a. a.timestamp ≤ high) events

-- when the time that may still count begins
abbrev since_or : Option ℕ → ℕ → ℕ
since_or none low = low
since_or (some start) low = start

add_hours_bound :
    (since : Option ℕ) (low high total : ℕ) (events : List Attendance)
    → since_or since low ≤ low
    → low ≤ high
    → All (λ a. low ≤ a.timestamp) events
    → IsBy high events
    → IsSorted events
    → add_hours since total events ≤ total + (high - since_or since low)
unfolding add_hours
add_hours_bound since low high total [] f l g b s = omega arith
add_hours_bound none low high total (a ∷ events) f l g b s =
    let at = a.timestamp in
    elim (Bool-cases (is_check_in a.type)) [
      | inl e ↦
          let rest = add_hours_bound (some at) at high total events (omega arith) b.0 s.0 b.1 s.1 in
          rw e (omega (arith, rest, g.0, b.0))
      | inr e ↦
          let rest = add_hours_bound none at high total events (omega arith) b.0 s.0 b.1 s.1 in
          elim (Bool-cases (is_check_out a.type)) [
            | inl o ↦ rw (e, o) (omega (arith, rest, g.0, b.0))
            | inr o ↦ rw (e, o) (omega (arith, rest, g.0, b.0))
          ]
    ]
add_hours_bound (some start) low high total (a ∷ events) f l g b s =
    let at = a.timestamp in
    elim (Bool-cases (is_check_in a.type)) [
      | inl e ↦
          let rest = add_hours_bound (some at) at high total events (omega arith) b.0 s.0 b.1 s.1 in
          rw e (omega (arith, rest, g.0, b.0, f))
      | inr e ↦ elim (Bool-cases (is_check_out a.type)) [
        | inl o ↦
            let rest =
              add_hours_bound none at high (total + (at - start)) events (omega arith) b.0 s.0 b.1
                s.1 in
            rw (e, o) (omega (arith, rest, g.0, b.0, f))
        | inr o ↦
            let rest =
              add_hours_bound (some start) at high total events (omega (arith, f, g.0)) b.0 s.0 b.1
                s.1 in
            rw (e, o) rest
      ]
    ]

-- The hours of events between two times, in whatever order they come, are at most those between the two
-- times, rounded: no time counts twice, and a check-in or a check-out without its partner counts nothing.
pub calculate_total_work_hours_bound :
    (low high : ℕ) (events : List Attendance)
    → low ≤ high
    → All (λ a. low ≤ a.timestamp) events
    → All (λ a. a.timestamp ≤ high) events
    → calculate_total_work_hours events ≤ (high - low + 18000) / 36000
unfolding calculate_total_work_hours
calculate_total_work_hours_bound low high events l g b =
    let key : Attendance → ℕ = λ a. a.timestamp in
    let bound =
      add_hours_bound none low high 0 (sort_by key events) (omega arith) l
        (All-sort_by (λ a. low ≤ a.timestamp) key events g)
        (All-sort_by (λ a. a.timestamp ≤ high) key events b) (sort_by-Ascending key events) in
    omega (arith, bound)
