-- ===== src/Bookings.antt =====
-- Requests that book days, and the overlap query that the services share:
--   status IN ('pending', 'approved') AND start_date <= :end AND end_date >= :start
-- on the rows of one employee of one tenant.
use tgs_hrms.Base.{
  sym, ◌∙◌, ℕ, ◌+◌, ◌≤◌, ◌<◌, ◌≡◌, refl, ◌≢◌, Bool, true, false, not, ◌&&◌, none, some, List, [],
  ◌∷◌, ◌++◌, map, arith, ◌==◌, leb, if◌then◌else◌, find, All, All-find, Bool-cases, inl, inr,
}
use mathlib.Core.Path.{ap, subst}

-- what the query reads of a row
pub record Booking : Type 0 where
  pub id : ℕ
  pub employee_id : ℕ
  pub tenant_id : ℕ
  pub start_date : ℕ
  pub end_date : ℕ
  pub is_active : Bool

-- the WHERE clause, for an employee of a tenant and the days `start` to `end`
abbrev pub overlaps : ℕ → ℕ → ℕ → ℕ → Booking → Bool
overlaps employee tenant start end b =
    (b.employee_id == employee)
    && (b.tenant_id == tenant)
    && b.is_active
    && leb b.start_date end
    && leb start b.end_date

-- Two rows are different, and do not both hold a day of one employee.
abbrev pub Apart : Booking → Booking → Type 0
Apart a b =
    (a.id ≢ b.id)
    × ((a.is_active && overlaps a.employee_id a.tenant_id a.start_date a.end_date b) ≡ false)

Apart-sym : (a b : Booking) → Apart a b → Apart b a
Apart-sym a b h = (λ e. h.0 (sym e), ground arith)

pub find-none {ℓ} :
    {A : Type ℓ} (p : A → Bool) (xs : List A) → find p xs ≡ none → All (λ x. p x ≡ false) xs
find-none p [] h = tt
find-none p (x ∷ xs) h = ground (arith, find-none p xs)

module _ {A : Type 0} (view : A → Booking) where
  -- no two rows of the table clash
  abbrev pub NoOverlap : List A → Type 0
  NoOverlap [] = Unit
  NoOverlap (x ∷ xs) = All (λ y. Apart (view x) (view y)) xs × NoOverlap xs

  abbrev pub Below : ℕ → List A → Type 0
  Below n xs = All (λ x. (view x).id < n) xs

  -- `save` of a row that is there
  abbrev pub save_row : A → List A → List A
  save_row r = map (λ x. if (view x).id == (view r).id then r else x)

  pub All-save_row : (P : A → Type 0) (r : A) (xs : List A) → P r → All P xs → All P (save_row r xs)
  All-save_row P r [] p h = tt
  All-save_row P r (x ∷ xs) p h = (ground arith, All-save_row P r xs p h.1)

  pub Below-save_row :
      (n : ℕ) (r : A) (xs : List A) → (view r).id < n → Below n xs → Below n (save_row r xs)
  Below-save_row n r xs p h = All-save_row (λ x. (view x).id < n) r xs p h

  Apart-append :
      (x r : A) (xs : List A)
      → All (λ y. Apart (view x) (view y)) xs
      → Apart (view x) (view r)
      → All (λ y. Apart (view x) (view y)) (xs ++ r ∷ [])
  Apart-append x r [] h a = (a, tt)
  Apart-append x r (y ∷ ys) h a = (h.0, Apart-append x r ys h.1 a)

  -- a new row, apart from those that are there
  pub NoOverlap-append :
      (xs : List A) (r : A)
      → NoOverlap xs
      → All (λ x. Apart (view x) (view r)) xs
      → NoOverlap (xs ++ r ∷ [])
  NoOverlap-append [] r h a = (tt, tt)
  NoOverlap-append (x ∷ xs) r h a = (Apart-append x r xs h.0 a.0, NoOverlap-append xs r h.1 a.1)

  -- the query found nothing: the new row has a number of its own and clashes with none
  pub Apart-of_query :
      (n : ℕ) (r : A) (xs : List A)
      → (view r).id ≡ n
      → Below n xs
      → All
          (λ x.
            overlaps
              (view r).employee_id
              (view r).tenant_id
              (view r).start_date
              (view r).end_date
              (view x)
            ≡ false)
          xs
      → All (λ x. Apart (view x) (view r)) xs
  Apart-of_query n r [] e b h = tt
  Apart-of_query n r (x ∷ xs) e b h =
      ((λ f. omega (arith, b.0), ground (arith, h.0)), Apart-of_query n r xs e b.1 h.1)

  -- rows of other numbers are apart from `r`
  abbrev pub ApartFromOthers : A → List A → Type 0
  ApartFromOthers r xs = All (λ x. (view x).id ≢ (view r).id → Apart (view x) (view r)) xs

  save_row-Apart :
      (x r : A) (xs : List A)
      → ((view x).id ≢ (view r).id → Apart (view x) (view r))
      → (view x).id ≢ (view r).id
      → All (λ y. Apart (view x) (view y)) xs
      → All (λ y. Apart (view x) (view y)) (save_row r xs)
  save_row-Apart x r xs a n h = All-save_row (λ y. Apart (view x) (view y)) r xs (a n) h

  save_row_absent :
      (x r : A) (xs : List A)
      → (view x).id ≡ (view r).id
      → All (λ y. Apart (view x) (view y)) xs
      → ApartFromOthers r xs
      → All (λ y. Apart (view r) (view y)) (save_row r xs)
  save_row_absent x r [] e h a = tt
  save_row_absent x r (y ∷ ys) e h a =
      let n : (view y).id ≢ (view r).id = λ f. h.0.0 (e ∙ sym f) in
      (ground (arith, Apart-sym (view y) (view r) (a.0 n)), save_row_absent x r ys e h.1 a.1)

  -- a row that is written anew, apart from all others
  pub NoOverlap-save_row :
      (r : A) (xs : List A) → NoOverlap xs → ApartFromOthers r xs → NoOverlap (save_row r xs)
  NoOverlap-save_row r [] h a = tt
  NoOverlap-save_row r (x ∷ xs) h a = elim (Bool-cases ((view x).id == (view r).id)) [
    | inl e ↦ rw e (save_row_absent x r xs (ground arith) h.0 a.1, NoOverlap-save_row r xs h.1 a.1)
    | inr e ↦ rw e (save_row-Apart x r xs a.0 (ground arith) h.0, NoOverlap-save_row r xs h.1 a.1)
  ]

  -- a row that books nothing is apart from all others
  pub ApartFromOthers-inactive :
      (r : A) (xs : List A) → (view r).is_active ≡ false → ApartFromOthers r xs
  ApartFromOthers-inactive r [] h = tt
  ApartFromOthers-inactive r (x ∷ xs) h = (λ n. (n, ground arith), ApartFromOthers-inactive r xs h)

  -- the query that leaves the row itself out found nothing
  pub ApartFromOthers-query :
      (r : A) (xs : List A)
      → All
          (λ x.
            (overlaps
                (view r).employee_id
                (view r).tenant_id
                (view r).start_date
                (view r).end_date
                (view x)
              && not ((view x).id == (view r).id))
            ≡ false)
          xs
      → ApartFromOthers r xs
  ApartFromOthers-query r [] h = tt
  ApartFromOthers-query r (x ∷ xs) h =
      (λ n. (n, ground (arith, h.0)), ApartFromOthers-query r xs h.1)

  ApartFromOthers-head :
      (x : A) (xs : List A) → All (λ y. Apart (view x) (view y)) xs → ApartFromOthers x xs
  ApartFromOthers-head x [] h = tt
  ApartFromOthers-head x (y ∷ ys) h =
      (λ n. Apart-sym (view x) (view y) h.0, ApartFromOthers-head x ys h.1)

  -- a row of the table is apart from all others
  pub ApartFromOthers-found :
      (p : A → Bool) (xs : List A) (r : A)
      → find p xs ≡ some r
      → NoOverlap xs
      → ApartFromOthers r xs
  ApartFromOthers-found p [] r e h = ground arith
  ApartFromOthers-found p (x ∷ xs) r e h = elim (Bool-cases (p x)) [
    | inl t ↦
        let same : x ≡ r = ground arith in
        subst (λ z. ApartFromOthers z (x ∷ xs)) same
          (λ n. absurd (n refl), ApartFromOthers-head x xs h.0)
    | inr f ↦
        let found : find p xs ≡ some r = ground arith in
        (
          λ n. All-find (λ y. Apart (view x) (view y)) p xs r h.0 found,
          ApartFromOthers-found p xs r found h.1,
        )
  ]

  -- a new row under the next number
  pub Below-suc-append :
      (n : ℕ) (r : A) (xs : List A) → (view r).id ≡ n → Below n xs → Below (n + 1) (xs ++ r ∷ [])
  Below-suc-append n r [] e h = (omega arith, tt)
  Below-suc-append n r (x ∷ xs) e h = (omega (arith, h.0), Below-suc-append n r xs e h.1)

  -- the row that was appended last is written once more
  pub ApartFromOthers-appended :
      (r r' : A) (xs : List A)
      → view r ≡ view r'
      → All (λ x. Apart (view x) (view r)) xs
      → ApartFromOthers r' (xs ++ r ∷ [])
  ApartFromOthers-appended r r' [] e h = (λ n. absurd (n (ap (λ b. b.id) e)), tt)
  ApartFromOthers-appended r r' (x ∷ xs) e h =
      (λ n. subst (λ b. Apart (view x) b) e h.0, ApartFromOthers-appended r r' xs e h.1)

  -- only what the query reads of the row matters
  pub ApartFromOthers-booking :
      (r r' : A) (xs : List A) → view r ≡ view r' → ApartFromOthers r xs → ApartFromOthers r' xs
  ApartFromOthers-booking r r' xs e h =
      subst (λ b. All (λ x. (view x).id ≢ b.id → Apart (view x) b) xs) e h

  -- the days of a row that lie within those of another
  pub ApartFromOthers-within :
      (r r' : A) (xs : List A)
      → (view r').id ≡ (view r).id
      → (view r').employee_id ≡ (view r).employee_id
      → (view r').tenant_id ≡ (view r).tenant_id
      → (view r).is_active ≡ true
      → (view r).start_date ≤ (view r').start_date
      → (view r').end_date ≤ (view r).end_date
      → ApartFromOthers r xs
      → ApartFromOthers r' xs
  ApartFromOthers-within r r' [] i m t a l u h = tt
  ApartFromOthers-within r r' (x ∷ xs) i m t a l u h = (
    λ n. let q = h.0 (λ e. n (e ∙ sym i)) in (n, ground (arith, q.1)),
    ApartFromOthers-within r r' xs i m t a l u h.1,
  )
