-- ===== src/Calendar/Years.antt =====
-- `getFullYear` and `setFullYear` of a Date, against the first days of the years.
use tgs_hrms.Base.{
  ℕ, ◌+◌, ◌-◌, ◌*◌, ◌/◌, ◌≤◌, ◌<◌, ◌≡◌, arith, ◌==◌, leb, ltb, Bool-cases, inl, inr,
}
use tgs_hrms.Calendar.{year_start, get_full_year, next_year, year_step, leap_day}

-- the guess is at most one year off
guess_high : (d : ℕ) → d < year_start (400 * d / 146097 + 1 + 1)
unfolding year_start
guess_high d = omega arith

guess_low : (d : ℕ) → 0 < 400 * d / 146097 → year_start (400 * d / 146097 - 1) ≤ d
unfolding year_start
guess_low d h = omega arith

positive : (d y : ℕ) → d < year_start y → 0 < y
unfolding year_start
positive d y h = omega (arith, h)

pred_suc : (n : ℕ) → 0 < n → n - 1 + 1 ≡ n
pred_suc n h = omega arith

-- The year of a day begins no later than on that day, and the next year begins after it.
pub get_full_year_lem :
    (d : ℕ) → (year_start (get_full_year d) ≤ d) × (d < year_start (get_full_year d + 1))
unfolding get_full_year
get_full_year_lem d =
    let guess = 400 * d / 146097 in
    elim (Bool-cases (leb (year_start (guess + 1)) d)) [
      | inl late ↦ rw late (ground arith, guess_high d)
      | inr e ↦ elim (Bool-cases (ltb d (year_start guess))) [
        | inl early ↦
            let some_year : 0 < guess = positive d guess (ground arith) in
            rw (e, early) (guess_low d some_year, rw (pred_suc guess some_year) (ground arith))
        | inr f ↦ rw (e, f) (ground arith, ground arith)
      ]
    ]

year_length : (y : ℕ) → year_start (y + 1) ≡ year_start y + 365 + leap_day y
unfolding year_start
year_length y = ground arith

year_start_mono : (y z : ℕ) → y ≤ z → year_start y ≤ year_start z
unfolding year_start
year_start_mono y z h = elim (Bool-cases (y == z)) [
  | inl e ↦ let same : y ≡ z = ground arith in omega (arith, same)
  | inr e ↦ let less : y + 1 ≤ z = ground arith in omega (arith, less)
]

-- the year between whose bounds a day lies is unique
year_unique :
    (d y z : ℕ)
    → year_start y ≤ d
    → d < year_start (y + 1)
    → year_start z ≤ d
    → d < year_start (z + 1)
    → y ≡ z
year_unique d y z a b c e = elim (Bool-cases (ltb y z)) [
  | inl less ↦ absurd (omega (arith, year_start_mono (y + 1) z (ground arith)))
  | inr not_less ↦ elim (Bool-cases (ltb z y)) [
    | inl more ↦ absurd (omega (arith, year_start_mono (z + 1) y (ground arith)))
    | inr not_more ↦ ground arith
  ]
]

-- the date lies in the next year
year_step_lem :
    (y offset : ℕ)
    → offset < 365 + leap_day y
    → (365 ≤ year_step y offset)
      × (year_step y offset ≤ 366)
      × (365 + leap_day y ≤ offset + year_step y offset)
      × (offset + year_step y offset < 365 + leap_day y + 365 + leap_day (y + 1))
year_step_lem y offset h = (ground arith, ground arith, ground arith, ground arith)

-- A year ahead of a day is 365 or 366 days ahead of it, in the year behind its own.
pub next_year_lem :
    (d : ℕ)
    → (d + 365 ≤ next_year d)
      × (next_year d ≤ d + 366)
      × (get_full_year (next_year d) ≡ get_full_year d + 1)
unfolding next_year
next_year_lem d =
    let y = get_full_year d in
    let (low, high) = get_full_year_lem d in
    let (a, b, c, e) =
      year_step_lem y (d - year_start y) (omega (arith, low, high, year_length y)) in
    let (first, last) = get_full_year_lem (next_year d) in
    (
      omega (arith, a),
      omega (arith, b),
      year_unique (next_year d) (get_full_year (next_year d)) (y + 1) first last
          (omega (arith, low, c, year_length y))
          (omega (arith, low, e, year_length y, year_length (y + 1))),
    )
