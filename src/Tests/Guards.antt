-- ===== src/Tests/Guards.antt =====
-- Who is let in: an administrator of a network, a manager, and the end of a trial.
use tgs_hrms.Base.{
  ◌≡◌, refl, false, none, some, [], ◌∷◌, text_eq, lower, codes, err, payment_required,
  subscription_inactive,
}
use tgs_hrms.Guards.{system_admin, match_roles, roles_guard, SubscriptionStatus, is_ahead, evaluate}

-- an administrator of another kind on a route for system administrators
other_admin : roles_guard false (system_admin ∷ []) (some (codes "network-admin")) ≡ false
unfolding roles_guard match_roles text_eq lower
other_admin = refl

-- the trial is over at the moment of its end
trial_over :
    evaluate SubscriptionStatus.trial (some 100) none 100
    ≡ err (payment_required subscription_inactive)
unfolding evaluate is_ahead
trial_over = refl
