-- ===== src/Auth/Joining.antt =====
-- updateInviteStatusOnLogin of src/modules/invite-status/invite-status.service.ts.
use tgs_hrms.Base.{
  ℕ, Bool, true, false, Option, none, some, List, [], ◌∷◌, find, ◌==◌, if◌then◌else◌,
}
use tgs_hrms.Auth.{User, Employee, InviteStatus, Accounts}

abbrev pub is_invited : InviteStatus → Bool
is_invited InviteStatus.invite_sent = true
is_invited _ = false

-- the first row of the user, written if it is `Invite Sent`
unfoldable pub join_first : ℕ → List Employee → List Employee
join_first user [] = []
join_first user (e ∷ rows) =
    let rest = join_first user rows in
    if e.user_id == user
    then (if is_invited e.invite_status
        then record e { invite_status = InviteStatus.joined }
        else e)
      ∷ rows
    else e ∷ rest

abbrev pub join_in : ℕ → Option User → Accounts → Accounts
join_in user none s = s
join_in user (some u) s =
    if s.provisioned u.tenant_id
    then record s {
      tenant_employees = λ t.
          if t == u.tenant_id then join_first user (s.tenant_employees t) else s.tenant_employees t;
    }
    else record s { employees = join_first user s.employees }

-- `updateInviteStatusOnLogin`, in the schema of the user's tenant
unfoldable pub update_invite_status : ℕ → Accounts → Accounts
update_invite_status user s = join_in user (find (λ u. u.id == user) s.users) s
