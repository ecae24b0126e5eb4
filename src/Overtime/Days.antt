-- ===== src/Overtime/Days.antt =====
-- Which days and hours src/modules/overtime/overtime.service.ts lets a request have.
use tgs_hrms.Base.{
  sym, ℕ, ◌+◌, ◌-◌, ◌*◌, ◌≤◌, ◌≡◌, refl, ℤ, pos, true, none, some, arith, leb, Option-cases, ◌∙◌,
  ◌⊎◌, inl, inr, ok,
}
use mathlib.Core.Path.{ap, subst}
use tgs_hrms.Calendar.{is_weekend, find_weekday_in_range}
use tgs_hrms.Calendar.Ranges.{no_weekday_short}
use tgs_hrms.Flex.{Overtime, World}
use tgs_hrms.Overtime.{
  CreateOvertime, UpdateOvertime, full_days, single_day, whole_days, plan_create,
  check_create_overtime,
}
use tgs_hrms.Overtime.Edits.{plan_from_stored, plan_edit}

-- the day itself, or a Saturday and the Sunday after it, and nothing but weekend days
abbrev pub IsWeekendRange : ℕ → ℕ → Type 0
IsWeekendRange start end =
    (start ≤ end) × (end ≤ start + 1) × ((d : ℕ) → start ≤ d → d ≤ end → is_weekend d ≡ true)

abbrev pub IsWeekendPlan : ℕ × ℕ × ℤ → Type 0
IsWeekendPlan (start, end, hours) = IsWeekendRange start end

single_day-IsWeekendPlan :
    (start hours : ℕ) (plan : ℕ × ℕ × ℤ)
    → single_day start hours ≡ ok plan
    → IsWeekendPlan plan × (plan ≡ (start, start, pos hours))
unfolding single_day
single_day-IsWeekendPlan start hours plan h =
    let w : is_weekend start ≡ true = ground arith in
    let p : plan ≡ (start, start, pos hours) = ground arith in
    (
      subst IsWeekendPlan (sym p) (
        omega arith,
        omega arith,
        λ d l u. let g : start ≡ d = omega arith in subst (λ z. is_weekend z ≡ true) g w,
      ),
      p,
    )

full_days_pos : (start end : ℕ) → start ≤ end → full_days start end ≡ pos (800 * (end + 1 - start))
full_days_pos start end h =
    let e : leb (800 * start) (800 * (end + 1)) ≡ true = ground arith in
    rw e (ap pos (omega (arith, h)))

whole_days-cases :
    (start end : ℕ) (plan : ℕ × ℕ × ℤ)
    → whole_days start end ≡ ok plan
    → (start ≤ end)
      × (find_weekday_in_range start end ≡ none)
      × (plan ≡ (start, end, full_days start end))
unfolding whole_days
whole_days-cases start end plan h = (ground arith, ground arith, ground arith)

whole_days-IsWeekendPlan :
    (start end : ℕ) (plan : ℕ × ℕ × ℤ)
    → whole_days start end ≡ ok plan
    → IsWeekendPlan plan × (plan ≡ (start, end, pos (800 * (end + 1 - start))))
whole_days-IsWeekendPlan start end plan h =
    let c = whole_days-cases start end plan h in
    let n = no_weekday_short start end c.1 c.0 in
    let p : plan ≡ (start, end, pos (800 * (end + 1 - start))) =
      c.2 ∙ ap (λ z. (start, end, z)) (full_days_pos start end c.0) in
    (subst IsWeekendPlan (sym c.2) (c.0, n.0, n.1), p)

-- what a request asked for, against the days and the hours that are stored
abbrev pub IsAsked : CreateOvertime → ℕ × ℕ × ℤ → Type 0
IsAsked dto (start, end, hours) =
    ((h : ℕ) → dto.hours ≡ some h → (end ≡ start) × (hours ≡ pos h))
    × ((e : ℕ) → dto.end_date ≡ some e → (end ≡ e) × (hours ≡ pos (800 * (end + 1 - start))))

plan_create_sound :
    (dto : CreateOvertime) (plan : ℕ × ℕ × ℤ)
    → plan_create dto ≡ ok plan
    → (plan.0 ≡ dto.start_date) × IsWeekendPlan plan × IsAsked dto plan
unfolding plan_create
plan_create_sound dto plan h = elim (Option-cases dto.hours) [
  | inl e ↦ elim (Option-cases dto.end_date) [
    | inl f ↦ ground arith
    | inr (end, f) ↦
        let w = whole_days-IsWeekendPlan dto.start_date end plan (rw (e, f) at h) in
        (
          ap (λ p. p.0) w.1,
          w.0,
          subst (IsAsked dto) (sym w.1) (λ k q. ground arith, λ k q. (ground arith, refl)),
        )
  ]
  | inr (hours, e) ↦ elim (Option-cases dto.end_date) [
    | inl f ↦
        let w = single_day-IsWeekendPlan dto.start_date hours plan (rw (e, f) at h) in
        (
          ap (λ p. p.0) w.1,
          w.0,
          subst (IsAsked dto) (sym w.1) (λ k q. (refl, ground arith), λ k q. ground arith),
        )
    | inr (end, f) ↦ ground arith
  ]
]

-- A new request that is accepted starts on the day it names, today or later; it covers one weekend
-- day, or a Saturday and the Sunday after it, and no weekday. In hours mode it has one day and the
-- hours it names; in range mode it has the end it names, and eight hours for each of its days.
pub check_create_overtime_lem :
    (world : World) (tenant : ℕ) (dto : CreateOvertime) (plan : ℕ × ℕ × ℤ)
    → check_create_overtime world tenant dto ≡ ok plan
    → (world.today ≤ plan.0) × (plan.0 ≡ dto.start_date) × IsWeekendPlan plan × IsAsked dto plan
unfolding check_create_overtime
check_create_overtime_lem world tenant dto plan h =
    let p : plan_create dto ≡ ok plan = ground arith in
    let late : world.today ≤ dto.start_date = ground arith in
    let c = plan_create_sound dto plan p in (omega arith, c.0, c.1, c.2)

-- the stored start never makes a plan
never : (start end : ℕ) (plan : ℕ × ℕ × ℤ) → ¬ (plan_from_stored start end ≡ ok plan)
unfolding plan_from_stored
never start end plan h = elim (Option-cases (find_weekday_in_range start end)) [
  | inl e ↦ let refused = rw (e, plan_from_stored) at h in ground arith
  | inr (d, e) ↦ let refused = rw (e, plan_from_stored) at h in ground arith
]

-- what an edit asked for, where it names the start and one of the hours and the end
abbrev pub IsReplaced : UpdateOvertime → ℕ × ℕ × ℤ → Type 0
IsReplaced dto plan =
    (start : ℕ) × (dto.start_date ≡ some start)
    × (((hours : ℕ) × (dto.hours ≡ some hours) × (plan ≡ (start, start, pos hours)))
        ⊎ ((end : ℕ) × (dto.hours ≡ none)
            × (dto.end_date ≡ some end)
            × (plan ≡ (start, end, pos (800 * (end + 1 - start))))))

-- An edit that passes names neither a day nor hours, and the row keeps its days and hours; or it names
-- the start with the hours, or with the end and without hours, and then the days are those that it names,
-- one weekend day or a Saturday and the Sunday after it, with the hours that it names or eight for each
-- day. No other edit passes: not the hours, the end or the start alone.
pub plan_edit_lem :
    (o : Overtime) (dto : UpdateOvertime) (plan : ℕ × ℕ × ℤ)
    → plan_edit o dto ≡ ok plan
    → (dto.hours ≡ none)
        × (dto.end_date ≡ none)
        × (dto.start_date ≡ none)
        × (plan ≡ (o.start_date, o.end_date, o.hours))
      ⊎ IsWeekendPlan plan × IsReplaced dto plan
unfolding plan_edit
plan_edit_lem o dto plan h = elim (Option-cases dto.hours) [
  | inl e ↦ elim (Option-cases dto.end_date) [
    | inl f ↦ elim (Option-cases dto.start_date) [
      | inl g ↦
          let p : ok (o.start_date, o.end_date, o.hours) ≡ ok plan = rw (e, f, g) at h in
          inl (e, f, g, ground arith)
      | inr (start, g) ↦ let refused = rw (e, f, g) at h in ground arith
    ]
    | inr (end, f) ↦ elim (Option-cases dto.start_date) [
      | inl g ↦ let refused = rw (e, f, g) at h in absurd (never o.start_date end plan refused)
      | inr (start, g) ↦
          let w = whole_days-IsWeekendPlan start end plan (rw (e, f, g) at h) in
          inr (w.0, (start, g, inr (end, e, f, w.1)))
    ]
  ]
  | inr (hours, e) ↦ elim (Option-cases dto.start_date) [
    | inl g ↦ let refused = rw (e, g) at h in ground arith
    | inr (start, g) ↦
        let w = single_day-IsWeekendPlan start hours plan (rw (e, g) at h) in
        inr (w.0, (start, g, inl (hours, e, w.1)))
  ]
]

-- The days of a request lie on one weekend. After an edit that is accepted they still do.
pub plan_edit-IsWeekendPlan :
    (o : Overtime) (dto : UpdateOvertime) (plan : ℕ × ℕ × ℤ)
    → plan_edit o dto ≡ ok plan
    → IsWeekendRange o.start_date o.end_date
    → IsWeekendPlan plan
plan_edit-IsWeekendPlan o dto plan h v = elim (plan_edit_lem o dto plan h) [
  | inl (e, f, g, p) ↦ subst IsWeekendPlan (sym p) v
  | inr (w, r) ↦ w
]
