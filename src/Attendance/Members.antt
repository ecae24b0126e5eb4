-- ===== src/Attendance/Members.antt =====
-- The loop of `verifyTeamMember` over the pages of a manager's team.
use tgs_hrms.Base.{
  ℕ, zero, suc, ◌+◌, ◌-◌, ◌≤◌, ◌≡◌, refl, Bool, true, false, ◌&&◌, ◌||◌, arith, ◌==◌, ltb, any,
  length, Bool-cases, inl, inr,
}
use tgs_hrms.Attendance.{MemberPage, Outside, verify_from, verify_team_member}

-- the user is on one of `n + 1` pages from `page` on
abbrev pub is_on_pages : ℕ → (ℕ → MemberPage) → ℕ → ℕ → Bool
is_on_pages user pages page zero = any (λ m. m == user) (pages page).items
is_on_pages user pages page (suc n) =
    any (λ m. m == user) (pages page).items || is_on_pages user pages (page + 1) n

-- every page, from 1 on, names the same number of pages, and those before the last are full
abbrev pub IsPaged : (ℕ → MemberPage) → ℕ → Type 0
IsPaged pages total =
    (page : ℕ)
    → 1 ≤ page
    → ((pages page).total_pages ≡ total)
      × ((ltb page total && (length (pages page).items == (pages page).limit)) ≡ ltb page total)

verify_from_lem :
    (n fuel page user total : ℕ) (pages : ℕ → MemberPage)
    → IsPaged pages total
    → 1 ≤ page
    → n ≡ total - page
    → n ≤ fuel
    → verify_from (suc fuel) user pages page ≡ is_on_pages user pages page n
unfolding verify_from
verify_from_lem zero fuel page user total pages h p e l =
    let on = any (λ m. m == user) (pages page).items in
    let stop : ((length (pages page).items == (pages page).limit)
          && ltb page (pages page).total_pages)
        ≡ false =
      ground (arith, (h page p).0, e) in
    elim (Bool-cases on) [ inl m ↦ rw m refl | inr m ↦ rw (m, stop) refl ]
verify_from_lem (suc n) zero page user total pages h p e l = absurd (omega arith)
verify_from_lem (suc n) (suc fuel) page user total pages h p e l =
    let on = any (λ m. m == user) (pages page).items in
    let more : ((length (pages page).items == (pages page).limit)
          && ltb page (pages page).total_pages)
        ≡ true =
      ground (arith, (h page p).0, (h page p).1, e) in
    let rest =
      verify_from_lem n fuel (page + 1) user total pages h (omega arith) (omega (arith, e))
        (omega (arith, l)) in
    elim (Bool-cases on) [ inl m ↦ rw m refl | inr m ↦ rw (m, more, verify_from) rest ]

-- If every page of a team names the number of pages, and all pages before the last are full, the loop
-- comes to an end with the fuel that it is given, and answers whether the user is on one of the pages.
pub verify_team_member_lem :
    (user manager tenant total : ℕ) (w : Outside)
    → IsPaged (w.members tenant manager) total
    → verify_team_member user manager tenant w
      ≡ is_on_pages user (w.members tenant manager) 1 (total - 1)
unfolding verify_team_member
verify_team_member_lem user manager tenant total w h =
    verify_from_lem (total - 1) (w.members tenant manager 1).total_pages 1 user total
      (w.members tenant manager) h (omega arith) refl (omega (arith, (h 1 (omega arith)).0))
