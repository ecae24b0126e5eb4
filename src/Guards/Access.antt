-- ===== src/Guards/Access.antt =====
-- Whom the guards of src/common/guards let in, and whom not.
use tgs_hrms.Base.{
  ap, sym, ◌∙◌, ℕ, ◌≤◌, ◌≡◌, refl, Text, Bool, true, false, Option, none, some, List, [], ◌∷◌, ◌++◌,
  map, arith, any, text_eq, text_eq_sound, lower, lower_idem, ok,
}
use mathlib.Core.Path.{subst}
use tgs_hrms.Guards.{
  includes, or_empty, system_admin, is_admin_equivalent, is_system_admin_only, match_roles,
  roles_guard, permissions_guard, SubscriptionStatus, is_ahead, evaluate,
}

-- Who asks for a route that is open to system administrators alone, and is let in, is one: no other
-- kind of administrator counts for one.
pub system_admin_route :
    (r : Text) (role : Option Text)
    → lower r ≡ system_admin
    → roles_guard false (r ∷ []) role ≡ true
    → lower (or_empty role) ≡ system_admin
unfolding roles_guard match_roles text_eq
system_admin_route r role h a =
    text_eq_sound (lower (or_empty role)) system_admin
      (subst (λ z. match_roles (z ∷ []) (lower (or_empty role)) ≡ true) h a)

only_admin : (xs : List Text) → is_system_admin_only xs ≡ true → any is_admin_equivalent xs ≡ true
unfolding is_admin_equivalent
only_admin [] h = ground arith
only_admin (x ∷ []) h = ground arith
only_admin (x ∷ y ∷ xs) h = ground arith

match_roles-includes :
    (xs : List Text) (x : Text)
    → match_roles xs x ≡ true
    → any is_admin_equivalent xs ≡ false
    → includes x xs ≡ true
unfolding match_roles
match_roles-includes xs x h n = ground (arith, only_admin xs)

-- Whoever is let in to a route that asks for roles, none of them an administrator's, has one of
-- these roles, whatever the case of the letters.
pub no_escalation :
    (r : Text) (required : List Text) (role : Option Text)
    → roles_guard false (r ∷ required) role ≡ true
    → any is_admin_equivalent (map lower (r ∷ required)) ≡ false
    → includes (lower (or_empty role)) (map lower (r ∷ required)) ≡ true
unfolding roles_guard
no_escalation r required role a n =
    match_roles-includes (map lower (r ∷ required)) (lower (or_empty role)) a n

map-lower_idem : (xs : List Text) → map lower (map lower xs) ≡ map lower xs
map-lower_idem [] = refl
map-lower_idem (x ∷ xs) =
    ap (λ z. z ∷ map lower (map lower xs)) (lower_idem x)
    ∙ ap (λ z. lower x ∷ z) (map-lower_idem xs)

-- The case of the letters of the roles, of the route's and of the user's, never matters.
pub roles_guard_any_case :
    (is_public : Bool) (required : List Text) (role : Text)
    → roles_guard is_public (map lower required) (some (lower role))
      ≡ roles_guard is_public required (some role)
unfolding roles_guard
roles_guard_any_case true required role = refl
roles_guard_any_case false [] role = refl
roles_guard_any_case false (r ∷ required) role =
    ap (λ z. match_roles z (lower (lower role))) (map-lower_idem (r ∷ required))
    ∙ ap (match_roles (map lower (r ∷ required))) (lower_idem role)

is_ahead_before :
    (end : Option ℕ) (now later : ℕ)
    → now ≤ later
    → is_ahead end later ≡ true
    → is_ahead end now ≡ true
unfolding is_ahead
is_ahead_before none now later l h = h
is_ahead_before (some end) now later l h = ground arith

-- As long as its row stays the same, a subscription that is let in at a moment is let in, and marked
-- the same way, at every earlier one: what is refused once stays refused.
pub evaluate_earlier :
    (status : SubscriptionStatus) (trial grace : Option ℕ) (now later : ℕ) (marked : Bool)
    → now ≤ later
    → evaluate status trial grace later ≡ ok marked
    → evaluate status trial grace now ≡ ok marked
unfolding evaluate
evaluate_earlier SubscriptionStatus.active trial grace now later marked l h = h
evaluate_earlier SubscriptionStatus.trial trial grace now later marked l h =
    ground (arith, is_ahead_before trial now later)
evaluate_earlier SubscriptionStatus.grace_period trial grace now later marked l h =
    ground (arith, is_ahead_before grace now later)
evaluate_earlier SubscriptionStatus.cancelled trial grace now later marked l h = h
evaluate_earlier SubscriptionStatus.expired trial grace now later marked l h = h

includes-append :
    (x : Text) (xs ys : List Text) → includes x xs ≡ true → includes x (xs ++ ys) ≡ true
includes-append x [] ys h = ground arith
includes-append x (y ∷ xs) ys h = ground (arith, includes-append x xs ys)

map-append : (xs ys : List Text) → map lower (xs ++ ys) ≡ map lower xs ++ map lower ys
map-append [] ys = refl
map-append (x ∷ xs) ys = ap (λ z. lower x ∷ z) (map-append xs ys)

any-includes :
    (required xs ys : List Text)
    → any (λ q. includes (lower q) xs) required ≡ true
    → any (λ q. includes (lower q) (xs ++ ys)) required ≡ true
any-includes [] xs ys h = h
any-includes (q ∷ required) xs ys h =
    ground (arith, includes-append (lower q) xs ys, any-includes required xs ys)

any-granted :
    (required granted more : List Text)
    → any (λ q. includes (lower q) (map lower granted)) required ≡ true
    → any (λ q. includes (lower q) (map lower (granted ++ more))) required ≡ true
any-granted required granted more h =
    subst (λ z. any (λ q. includes (lower q) z) required ≡ true) (sym (map-append granted more))
      (any-includes required (map lower granted) (map lower more) h)

-- Further permissions never take access away: whoever is let in to a route is let in with more
-- permissions as well.
pub permissions_guard_more :
    (required : List Text) (role : Option Text) (granted more : List Text)
    → permissions_guard required role granted ≡ ok true
    → permissions_guard required role (granted ++ more) ≡ ok true
unfolding permissions_guard
permissions_guard_more [] role granted more h = refl
permissions_guard_more (p ∷ required) role granted more h =
    ground (arith, any-granted (p ∷ required) granted more)
