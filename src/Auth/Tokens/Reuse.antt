-- ===== src/Auth/Tokens/Reuse.antt =====
-- What becomes of a session that was used up or revoked.
use tgs_hrms.Base.{
  ℕ, ◌+◌, ◌<◌, ◌≡◌, refl, Text, Bool, true, false, not, ◌&&◌, some, List, [], ◌∷◌, ◌++◌, map, keep,
  find, any, All, arith, ◌==◌, ltb, if◌then◌else◌, Exec, check-keeps, bind-keeps, or_throw-state,
  throw_unless-state, unauthorized, user_missing, token_invalid, Bool-cases, Option-cases, inl, inr,
  or_throw, throw_unless, ◌>>=◌, ◌>>◌,
}
use tgs_hrms.Auth.{
  User, UserToken, Accounts, RefreshPayload, Crypto, clock, login_role, check_tenant_account,
  check_employee, put_tokens, insert_token,
}
use tgs_hrms.Auth.Tokens.{
  revoke, revoke_of, revoke_one, use_up, find_token, check_record, rotate, refresh_user,
  refresh_row, refresh_payload, refresh_token, logout, logout_all, purge_stale_tokens, is_stale,
  renewed,
}
use tgs_hrms.Auth.Tokens.Rotation.{check_tenant_account-state, check_employee-state}

abbrev pub is_live_id : ℕ → UserToken → Bool
is_live_id jti t = (t.id == jti) && not t.is_revoked

-- no row of the session is live, and its identifier will not be drawn again
abbrev pub IsSpent : ℕ → Accounts → Type 0
IsSpent jti s = (jti < s.draws) × (any (is_live_id jti) s.tokens ≡ false)

-- the identifiers of the sessions were drawn
abbrev pub IsDrawn : Accounts → Type 0
IsDrawn s = All (λ t. t.id < s.draws) s.tokens

module _ (jti : ℕ) where
  dead_map :
      (f : UserToken → UserToken) (tokens : List UserToken)
      → ((t : UserToken) → is_live_id jti t ≡ false → is_live_id jti (f t) ≡ false)
      → any (is_live_id jti) tokens ≡ false
      → any (is_live_id jti) (map f tokens) ≡ false
  dead_map f [] k h = refl
  dead_map f (t ∷ tokens) k h =
      let this : is_live_id jti t ≡ false = ground (arith, h) in
      let later : any (is_live_id jti) tokens ≡ false = ground (arith, h) in
      rw (k t this) (dead_map f tokens k later)

  pub revoke_of-dead :
      (user : ℕ) (tokens : List UserToken)
      → any (is_live_id jti) tokens ≡ false
      → any (is_live_id jti) (revoke_of user tokens) ≡ false
  revoke_of-dead user tokens =
      dead_map (λ t. if t.user_id == user then revoke t else t) tokens (λ t h. ground (arith, h))

  pub revoke_one-dead :
      (id : ℕ) (tokens : List UserToken)
      → any (is_live_id jti) tokens ≡ false
      → any (is_live_id jti) (revoke_one id tokens) ≡ false
  revoke_one-dead id tokens =
      dead_map (λ t. if t.id == id then revoke t else t) tokens (λ t h. ground (arith, h))

  use_up-dead :
      (id now : ℕ) (tokens : List UserToken)
      → any (is_live_id jti) tokens ≡ false
      → any (is_live_id jti) (use_up id now tokens) ≡ false
  use_up-dead id now tokens =
      dead_map
        (λ t. if t.id == id then record t { is_revoked = true; last_used_at = some now } else t)
        tokens (λ t h. ground (arith, h))

  keep-dead :
      (p : UserToken → Bool) (tokens : List UserToken)
      → any (is_live_id jti) tokens ≡ false
      → any (is_live_id jti) (keep p tokens) ≡ false
  keep-dead p [] h = refl
  keep-dead p (t ∷ tokens) h = ground (arith, keep-dead p tokens)

  append-dead :
      (tokens : List UserToken) (t : UserToken)
      → any (is_live_id jti) tokens ≡ false
      → (t.id == jti) ≡ false
      → any (is_live_id jti) (tokens ++ t ∷ []) ≡ false
  append-dead [] t h e = ground (arith, e)
  append-dead (x ∷ tokens) t h e = ground (arith, append-dead tokens t)

  -- a new session has an identifier of its own
  pub inserted-IsSpent :
      (s : Accounts) (t : UserToken)
      → t.id ≡ s.draws
      → IsSpent jti s
      → IsSpent jti (record (insert_token t s) { draws = s.draws + 1 })
  inserted-IsSpent s t e (lt, dead) = (omega arith, append-dead s.tokens t dead (ground arith))

  check_record-IsSpent :
      (p : RefreshPayload) (t : UserToken) (s : Accounts)
      → IsSpent jti s
      → IsSpent jti (check_record p t s).1
  unfolding check_record
  check_record-IsSpent p t s (lt, dead) = elim (Bool-cases t.is_revoked) [
    | inl e ↦ rw (e, check_record) (lt, revoke_of-dead p.sub s.tokens dead)
    | inr e ↦ elim (Bool-cases (ltb t.expires_at (clock s))) [
      | inl f ↦ rw (e, f, check_record) (lt, revoke_one-dead t.id s.tokens dead)
      | inr f ↦ rw (e, f, check_record) (lt, dead)
    ]
  ]

  rotate-IsSpent :
      (c : Crypto) (t : UserToken) (u : User) (role : Text) (s : Accounts)
      → IsSpent jti s
      → IsSpent jti (rotate c t u role s).1
  unfolding rotate
  rotate-IsSpent c t u role s (lt, dead) =
      inserted-IsSpent (put_tokens (use_up t.id (clock s) s.tokens) s)
        (renewed t u s.draws (clock s)) refl (lt, use_up-dead t.id (clock s) s.tokens dead)

  refresh_user-IsSpent :
      (c : Crypto) (t : UserToken) (u : User) (s : Accounts)
      → IsSpent jti s
      → IsSpent jti (refresh_user c t u s).1
  unfolding refresh_user
  refresh_user-IsSpent c t u s v =
      check-keeps (IsSpent jti) (or_throw (login_role u s) (unauthorized user_missing))
        (λ role. check_tenant_account u role >> (check_employee u >> rotate c t u role)) s
        (or_throw-state (login_role u s) (unauthorized user_missing) s) v
        λ role _.
          check-keeps (IsSpent jti) (check_tenant_account u role)
            (λ _. check_employee u >> rotate c t u role) s (check_tenant_account-state u role s) v
            λ _ _.
              check-keeps (IsSpent jti) (check_employee u) (λ _. rotate c t u role) s
                (check_employee-state u s) v (λ _ _. rotate-IsSpent c t u role s v)

  refresh_row-IsSpent :
      (c : Crypto) (p : RefreshPayload) (t : UserToken) (s : Accounts)
      → IsSpent jti s
      → IsSpent jti (refresh_row c p t s).1
  unfolding refresh_row
  refresh_row-IsSpent c p t s v =
      let look_up : Accounts → Exec Accounts User =
        λ z. or_throw (find (λ u. u.id == p.sub) z.users) (unauthorized user_missing) in
      bind-keeps (IsSpent jti) (check_record p t) (λ _ z. (look_up z >>= refresh_user c t) z) s
        (check_record-IsSpent p t s v)
        λ _ _.
          let z = (check_record p t s).1 in
          check-keeps (IsSpent jti) (look_up z) (refresh_user c t) z
            (or_throw-state (find (λ u. u.id == p.sub) z.users) (unauthorized user_missing) z)
            (check_record-IsSpent p t s v)
            (λ u _. refresh_user-IsSpent c t u z (check_record-IsSpent p t s v))

  pub refresh_token-IsSpent :
      (c : Crypto) (text : Text) (s : Accounts)
      → IsSpent jti s
      → IsSpent jti (refresh_token c text s).1
  unfolding refresh_token refresh_payload
  refresh_token-IsSpent c [] s v = v
  refresh_token-IsSpent c (x ∷ text) s v =
      check-keeps (IsSpent jti)
        (or_throw (c.verify (clock s) (x ∷ text)) (unauthorized token_invalid)) (refresh_payload c)
        s (or_throw-state (c.verify (clock s) (x ∷ text)) (unauthorized token_invalid) s) v
        λ p _.
          check-keeps (IsSpent jti) (throw_unless p.is_refresh (unauthorized token_invalid))
            (λ _ z.
              (or_throw (find_token p z.tokens) (unauthorized token_invalid) >>= refresh_row c p) z)
            s (throw_unless-state p.is_refresh (unauthorized token_invalid) s) v
            λ _ _.
              check-keeps (IsSpent jti)
                (or_throw (find_token p s.tokens) (unauthorized token_invalid)) (refresh_row c p) s
                (or_throw-state (find_token p s.tokens) (unauthorized token_invalid) s) v
                (λ t _. refresh_row-IsSpent c p t s v)

  pub logout-IsSpent :
      (c : Crypto) (text : Text) (s : Accounts) → IsSpent jti s → IsSpent jti (logout c text s).1
  unfolding logout
  logout-IsSpent c [] s v = v
  logout-IsSpent c (x ∷ text) s (lt, dead) = elim (Option-cases (c.decode (x ∷ text))) [
    | inl e ↦ rw (e, logout) (lt, dead)
    | inr (id, e) ↦ rw (e, logout) (lt, revoke_one-dead id s.tokens dead)
  ]

  pub logout_all-IsSpent :
      (user : ℕ) (s : Accounts) → IsSpent jti s → IsSpent jti (logout_all user s).1
  unfolding logout_all
  logout_all-IsSpent user s (lt, dead) = (lt, revoke_of-dead user s.tokens dead)

  pub purge_stale_tokens-IsSpent :
      (s : Accounts) → IsSpent jti s → IsSpent jti (purge_stale_tokens s)
  unfolding purge_stale_tokens
  purge_stale_tokens-IsSpent s (lt, dead) =
      (lt, keep-dead (λ t. not (is_stale (clock s) t)) s.tokens dead)
