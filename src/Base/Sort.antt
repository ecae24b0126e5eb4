-- ===== src/Base/Sort.antt =====
-- `order: ASC` and `sort((a, b) => a.k - b.k)`: a stable sort by a number, `filter`, and lists whose
-- keys are k, k + 1, k + 2 and so on.
use Prim.Native.Nat.{ℕ, suc, ◌+◌, ◌≤◌, ◌<◌}
use mathlib.Core.Path.{◌≡◌, refl, ap, ◌∙◌}
use mathlib.Core.Bool.{Bool, true, not, ◌&&◌, ◌||◌}
use mathlib.Core.Option.{some}
use mathlib.Core.List.{List, [], ◌∷◌, ◌++◌, append-nil}
use native.Mathlib.Omega.{arith}
use tgs_hrms.Base.Compare.{leb, if◌then◌else◌}
use tgs_hrms.Base.Lists.{length, keep, any, find, All}

module _ {A : Type 0} where
  -- the elements are inserted from the last one, so equal keys keep their order with `leb`
  abbrev pub insert_first : (A → ℕ) → A → List A → List A
  insert_first key a [] = a ∷ []
  insert_first key a (x ∷ xs) =
      if leb (key a) (key x) then a ∷ x ∷ xs else x ∷ insert_first key a xs

  unfoldable pub sort_by : (A → ℕ) → List A → List A
  sort_by key [] = []
  sort_by key (x ∷ xs) = insert_first key x (sort_by key xs)

  -- the keys are k, k + 1, …
  abbrev pub Numbered : (A → ℕ) → ℕ → List A → Type 0
  Numbered key k [] = Unit
  Numbered key k (x ∷ xs) = (key x ≡ k) × Numbered key (suc k) xs

  -- the keys never fall
  abbrev pub Ascending : (A → ℕ) → List A → Type 0
  Ascending key [] = Unit
  Ascending key (x ∷ xs) = All (λ y. key x ≤ key y) xs × Ascending key xs

  insert_first-Numbered :
      (key : A → ℕ) (k : ℕ) (a : A) (xs : List A)
      → key a ≡ k
      → Numbered key (suc k) xs
      → insert_first key a xs ≡ a ∷ xs
  insert_first-Numbered key k a [] e h = refl
  insert_first-Numbered key k a (x ∷ xs) e h = ground arith

  pub sort_by-Numbered :
      (key : A → ℕ) (k : ℕ) (xs : List A) → Numbered key k xs → sort_by key xs ≡ xs
  unfolding sort_by
  sort_by-Numbered key k [] h = refl
  sort_by-Numbered key k (x ∷ xs) h =
      ap (insert_first key x) (sort_by-Numbered key (suc k) xs h.1)
      ∙ insert_first-Numbered key k x xs h.0 h.1

  pub All-insert_first :
      (P : A → Type 0) (key : A → ℕ) (a : A) (xs : List A)
      → P a
      → All P xs
      → All P (insert_first key a xs)
  All-insert_first P key a [] p h = (p, tt)
  All-insert_first P key a (x ∷ xs) p h = ground (arith, All-insert_first P key a xs p h.1)

  pub All-sort_by : (P : A → Type 0) (key : A → ℕ) (xs : List A) → All P xs → All P (sort_by key xs)
  unfolding sort_by
  All-sort_by P key [] h = tt
  All-sort_by P key (x ∷ xs) h =
      All-insert_first P key x (sort_by key xs) h.0 (All-sort_by P key xs h.1)

  All-le_trans :
      (key : A → ℕ) (a b : ℕ) (xs : List A)
      → a ≤ b
      → All (λ y. b ≤ key y) xs
      → All (λ y. a ≤ key y) xs
  All-le_trans key a b [] h k = tt
  All-le_trans key a b (x ∷ xs) h k = (omega arith, All-le_trans key a b xs h k.1)

  insert_first-Ascending :
      (key : A → ℕ) (a : A) (xs : List A) → Ascending key xs → Ascending key (insert_first key a xs)
  insert_first-Ascending key a [] h = (tt, tt)
  insert_first-Ascending key a (x ∷ xs) h = ground (
    arith,
    insert_first-Ascending key a xs h.1,
    All-le_trans key (key a) (key x) xs,
    All-insert_first (λ y. key x ≤ key y) key a xs,
  )

  pub sort_by-Ascending : (key : A → ℕ) (xs : List A) → Ascending key (sort_by key xs)
  unfolding sort_by
  sort_by-Ascending key [] = tt
  sort_by-Ascending key (x ∷ xs) =
      insert_first-Ascending key x (sort_by key xs) (sort_by-Ascending key xs)

  pub keep-append : (p : A → Bool) (xs ys : List A) → keep p (xs ++ ys) ≡ keep p xs ++ keep p ys
  keep-append p [] ys = refl
  keep-append p (x ∷ xs) ys = ground (arith, keep-append p xs ys)

  pub keep-keep-not : (p : A → Bool) (xs : List A) → keep p (keep (λ x. not (p x)) xs) ≡ []
  keep-keep-not p [] = refl
  keep-keep-not p (x ∷ xs) = ground (arith, keep-keep-not p xs)

  pub keep-eq_self : (p : A → Bool) (xs : List A) → All (λ x. p x ≡ true) xs → keep p xs ≡ xs
  keep-eq_self p [] h = refl
  keep-eq_self p (x ∷ xs) h = ground (arith, keep-eq_self p xs h.1)

  pub All-keep : (P : A → Type 0) (p : A → Bool) (xs : List A) → All P xs → All P (keep p xs)
  All-keep P p [] h = tt
  All-keep P p (x ∷ xs) h = ground (arith, All-keep P p xs h.1)

  pub All-keep_sat : (p : A → Bool) (xs : List A) → All (λ x. p x ≡ true) (keep p xs)
  All-keep_sat p [] = tt
  All-keep_sat p (x ∷ xs) = ground (arith, All-keep_sat p xs)

  All-insert_first_inv :
      (P : A → Type 0) (key : A → ℕ) (a : A) (xs : List A)
      → All P (insert_first key a xs)
      → P a × All P xs
  All-insert_first_inv P key a [] h = h
  All-insert_first_inv P key a (x ∷ xs) h = ground (arith, All-insert_first_inv P key a xs)

  pub All-sort_by_inv :
      (P : A → Type 0) (key : A → ℕ) (xs : List A) → All P (sort_by key xs) → All P xs
  unfolding sort_by
  All-sort_by_inv P key [] h = tt
  All-sort_by_inv P key (x ∷ xs) h =
      let both = All-insert_first_inv P key x (sort_by key xs) h in
      (both.0, All-sort_by_inv P key xs both.1)

  insert_first-append :
      (key : A → ℕ) (a c : A) (xs : List A)
      → key a ≤ key c
      → insert_first key a (xs ++ c ∷ []) ≡ insert_first key a xs ++ c ∷ []
  insert_first-append key a c [] h = ground arith
  insert_first-append key a c (x ∷ xs) h = ground (arith, insert_first-append key a c xs h)

  pub sort_by-append :
      (key : A → ℕ) (c : A) (xs : List A)
      → All (λ x. key x ≤ key c) xs
      → sort_by key (xs ++ c ∷ []) ≡ sort_by key xs ++ c ∷ []
  unfolding sort_by
  sort_by-append key c [] h = refl
  sort_by-append key c (x ∷ xs) h =
      ap (insert_first key x) (sort_by-append key c xs h.1)
      ∙ insert_first-append key x c (sort_by key xs) h.0

  pub Numbered-append :
      (key : A → ℕ) (k : ℕ) (c : A) (xs : List A)
      → Numbered key k xs
      → key c ≡ length xs + k
      → Numbered key k (xs ++ c ∷ [])
  Numbered-append key k c [] h e = (omega arith, tt)
  Numbered-append key k c (x ∷ xs) h e = (h.0, Numbered-append key (suc k) c xs h.1 (omega arith))

  pub Numbered-bounds :
      (key : A → ℕ) (k : ℕ) (xs : List A)
      → Numbered key k xs
      → All (λ x. (k ≤ key x) × (key x < length xs + k)) xs
  Numbered-bounds key k [] h = tt
  Numbered-bounds key k (x ∷ xs) h = (omega arith, weaken xs (Numbered-bounds key (suc k) xs h.1))
    where
      weaken :
          (ys : List A)
          → All (λ y. (suc k ≤ key y) × (key y < length xs + suc k)) ys
          → All (λ y. (k ≤ key y) × (key y < suc (length xs) + k)) ys
      weaken [] a = tt
      weaken (y ∷ ys) a = (omega arith, weaken ys a.1)

  keep-not-eq_nil :
      (p : A → Bool) (xs : List A) → All (λ x. p x ≡ true) xs → keep (λ x. not (p x)) xs ≡ []
  keep-not-eq_nil p [] h = refl
  keep-not-eq_nil p (x ∷ xs) h = ground (arith, keep-not-eq_nil p xs h.1)

  keep_idem : (p : A → Bool) (xs : List A) → keep p (keep p xs) ≡ keep p xs
  keep_idem p xs = keep-eq_self p (keep p xs) (All-keep_sat p xs)

  -- rows that satisfy `p`, put behind those that do not
  pub keep-not-replace :
      (p : A → Bool) (xs new : List A)
      → All (λ x. p x ≡ true) new
      → keep (λ x. not (p x)) (keep (λ x. not (p x)) xs ++ new) ≡ keep (λ x. not (p x)) xs
  keep-not-replace p xs new h =
      keep-append (λ x. not (p x)) (keep (λ x. not (p x)) xs) new
      ∙ cc (
        keep_idem (λ x. not (p x)) xs,
        keep-not-eq_nil p new h,
        append-nil (keep (λ x. not (p x)) xs),
      )

  any-insert_first :
      (p : A → Bool) (key : A → ℕ) (a : A) (xs : List A)
      → any p (insert_first key a xs) ≡ (p a || any p xs)
  any-insert_first p key a [] = refl
  any-insert_first p key a (x ∷ xs) = ground (arith, any-insert_first p key a xs)

  pub any-sort_by : (p : A → Bool) (key : A → ℕ) (xs : List A) → any p (sort_by key xs) ≡ any p xs
  unfolding sort_by
  any-sort_by p key [] = refl
  any-sort_by p key (x ∷ xs) =
      any-insert_first p key x (sort_by key xs) ∙ ap (λ b. p x || b) (any-sort_by p key xs)

  pub any-keep : (p q : A → Bool) (xs : List A) → any p (keep q xs) ≡ any (λ x. q x && p x) xs
  any-keep p q [] = refl
  any-keep p q (x ∷ xs) = ground (arith, any-keep p q xs)

  pub find-any : (p : A → Bool) (xs : List A) (a : A) → find p xs ≡ some a → any p xs ≡ true
  find-any p [] a h = ground arith
  find-any p (x ∷ xs) a h = ground (arith, find-any p xs a)
