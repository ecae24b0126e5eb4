-- ===== src/Calendar/Ranges.antt =====
-- What `findWeekdayInRange` has found, or not found, when its loop ends.
use tgs_hrms.Base.{
  ℕ, zero, suc, ◌+◌, ◌-◌, ◌≤◌, ◌<◌, ◌≡◌, true, false, Option, none, some, arith, ◌==◌, leb,
  Bool-cases, inl, inr,
}
use tgs_hrms.Calendar.{get_utc_day, is_weekend, find_weekday_from, find_weekday_in_range}

-- No weekday lies in the range, or the day is the first one in it.
abbrev pub IsFirstWeekday : ℕ → ℕ → Option ℕ → Type 0
IsFirstWeekday start end none = (d : ℕ) → start ≤ d → d ≤ end → is_weekend d ≡ true
IsFirstWeekday start end (some w) =
    (start ≤ w)
    × (w ≤ end)
    × (is_weekend w ≡ false)
    × ((d : ℕ) → start ≤ d → d < w → is_weekend d ≡ true)

IsFirstWeekday-cons :
    (start end : ℕ) (r : Option ℕ)
    → is_weekend start ≡ true
    → IsFirstWeekday (start + 1) end r
    → IsFirstWeekday start end r
IsFirstWeekday-cons start end none h f = λ d l m. elim (Bool-cases (d == start)) [
  | inl e ↦ ground (arith, h)
  | inr e ↦ f d (ground arith) m
]
IsFirstWeekday-cons start end (some w) h (l, m, n, f) = (
  omega arith,
  m,
  n,
  λ d p q. elim (Bool-cases (d == start)) [
    | inl e ↦ ground (arith, h)
    | inr e ↦ f d (ground arith) q
  ],
)

find_weekday_from-first :
    (fuel start end : ℕ)
    → end < fuel + start
    → IsFirstWeekday start end (find_weekday_from fuel start end)
unfolding find_weekday_from
find_weekday_from-first zero start end h = λ d l m. absurd (omega arith)
find_weekday_from-first (suc fuel) start end h = elim (Bool-cases (leb start end)) [
  | inl within ↦ elim (Bool-cases (is_weekend start)) [
    | inl free ↦
        rw (within, free)
          (IsFirstWeekday-cons start end _ free
            (find_weekday_from-first fuel (start + 1) end (omega arith)))
    | inr busy ↦ rw (within, busy) (omega arith, ground arith, busy, λ d l m. absurd (omega arith))
  ]
  | inr past ↦ rw past (λ d l m. absurd (ground arith))
]

-- The loop ends with the first weekday of the range, and without one only if there is none.
pub find_weekday_in_range_first :
    (start end : ℕ) → IsFirstWeekday start end (find_weekday_in_range start end)
unfolding find_weekday_in_range
find_weekday_in_range_first start end =
    find_weekday_from-first (end + 1 - start) start end (omega arith)

weekend_pair :
    (start end : ℕ)
    → is_weekend start ≡ true
    → is_weekend (start + 1) ≡ true
    → is_weekend (start + 2) ≡ true
    → ⊥
unfolding get_utc_day
weekend_pair start end a b c = ground arith

-- A range in which there is no weekday has two days at most.
pub no_weekday_short :
    (start end : ℕ)
    → find_weekday_in_range start end ≡ none
    → start ≤ end
    → (end ≤ start + 1) × ((d : ℕ) → start ≤ d → d ≤ end → is_weekend d ≡ true)
no_weekday_short start end e h =
    let free = rw e at (find_weekday_in_range_first start end) in
    (
      elim (Bool-cases (leb end (start + 1))) [
        | inl short ↦ ground arith
        | inr long ↦ absurd (
            weekend_pair start end (free start (omega arith) h)
              (free (start + 1) (omega arith) (ground arith))
              (free (start + 2) (omega arith) (ground arith)))
      ],
      free,
    )
