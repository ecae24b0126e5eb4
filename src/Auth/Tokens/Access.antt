-- ===== src/Auth/Tokens/Access.antt =====
-- What the holder of an old token can still do.
use tgs_hrms.Base.{
  ap, ◌∙◌, sym, ℕ, ◌<◌, ◌≡◌, refl, Text, true, false, ◌&&◌, none, some, List, [], ◌∷◌, keep, any,
  All-find, find_sat, arith, ◌==◌, ok, err, unauthorized, token_invalid, token_reused,
  session_revoked, session_missing, Bool-cases, inl, inr, ◌⊎◌,
}
use mathlib.Core.Path.{subst}
use tgs_hrms.Auth.{UserToken, Accounts, RefreshPayload, Crypto, AccessToken, clock, put_tokens}
use tgs_hrms.Auth.Tokens.{
  revoke_of, use_up, find_token, check_record, rotate, refresh_row, refresh_payload, refresh_token,
  is_live_of, renewed, validate_session,
}
use tgs_hrms.Auth.Tokens.Rotation.{refresh_token_ok}
use tgs_hrms.Auth.Tokens.Reuse.{is_live_id, IsSpent, IsDrawn, inserted-IsSpent}

used_up :
    (jti now : ℕ) (tokens : List UserToken) → any (is_live_id jti) (use_up jti now tokens) ≡ false
used_up jti now [] = refl
used_up jti now (t ∷ tokens) = ground (arith, used_up jti now tokens)

-- A refresh that returns spends the session of its token.
pub refresh_token_spends :
    (c : Crypto) (text : Text) (s : Accounts) (r : AccessToken × Text) (p : RefreshPayload)
    → IsDrawn s
    → (refresh_token c text s).0 ≡ ok r
    → c.verify (clock s) text ≡ some p
    → IsSpent p.jti (refresh_token c text s).1
unfolding rotate
refresh_token_spends c text s r p drawn h v =
    let (q, w, rot, e) = refresh_token_ok c text s r h in
    let same : q ≡ p = ground (arith, v, w) in
    let id : rot.token.id ≡ q.jti = ground (
      arith,
      find_sat (λ t. (t.id == q.jti) && (t.user_id == q.sub)) s.tokens rot.token rot.found,
    ) in
    let lt : rot.token.id < s.draws =
      All-find (λ t. t.id < s.draws) (λ t. (t.id == q.jti) && (t.user_id == q.sub)) s.tokens
        rot.token drawn rot.found in
    let used = put_tokens (use_up rot.token.id (clock s) s.tokens) s in
    let spent : IsSpent rot.token.id used = (lt, used_up rot.token.id (clock s) s.tokens) in
    let rotated : IsSpent rot.token.id (rotate c rot.token rot.user rot.role s).1 =
      inserted-IsSpent rot.token.id used (renewed rot.token rot.user s.draws (clock s)) refl
        spent in
    subst (λ i. IsSpent i (refresh_token c text s).1) (id ∙ ap (λ z. z.jti) same)
      (subst (λ z. IsSpent rot.token.id z.1) (sym (e ∙ rot.done)) rotated)

find_spent :
    (p : RefreshPayload) (tokens : List UserToken)
    → any (is_live_id p.jti) tokens ≡ false
    → (find_token p tokens ≡ none)
      ⊎ ((t : UserToken) × (find_token p tokens ≡ some t) × (t.is_revoked ≡ true))
find_spent p [] h = inl refl
find_spent p (t ∷ tokens) h = elim (Bool-cases ((t.id == p.jti) && (t.user_id == p.sub))) [
  | inl e ↦ inr (t, rw e refl, ground (arith, e, h))
  | inr e ↦ rw e (find_spent p tokens (ground (arith, h)))
]

-- A token whose session is spent is refused.
pub refresh_token_refused :
    (c : Crypto) (x : ℕ) (text : Text) (s : Accounts) (p : RefreshPayload)
    → c.verify (clock s) (x ∷ text) ≡ some p
    → IsSpent p.jti s
    → ((refresh_token c (x ∷ text) s).0 ≡ err (unauthorized token_invalid))
      ⊎ ((refresh_token c (x ∷ text) s).0 ≡ err (unauthorized token_reused))
unfolding refresh_token refresh_payload refresh_row check_record
refresh_token_refused c x text s p v (lt, dead) = elim (Bool-cases p.is_refresh) [
  | inr e ↦ inl (rw (v, e) refl)
  | inl e ↦ elim (find_spent p s.tokens dead) [
    | inl f ↦ inl (rw (v, e, f) refl)
    | inr (t, f, g) ↦ inr (rw (v, e, f, g) refl)
  ]
]

revoked_of :
    (user : ℕ) (tokens : List UserToken) → any (is_live_of user) (revoke_of user tokens) ≡ false
revoked_of user [] = refl
revoked_of user (t ∷ tokens) = ground (arith, revoked_of user tokens)

others_kept :
    (user other : ℕ) (tokens : List UserToken)
    → (other == user) ≡ false
    → keep (λ t. t.user_id == other) (revoke_of user tokens) ≡ keep (λ t. t.user_id == other) tokens
others_kept user other [] h = refl
others_kept user other (t ∷ tokens) h = elim (Bool-cases (t.user_id == user)) [
  | inl e ↦
      let away : (t.user_id == other) ≡ false = ground (arith, e, h) in
      rw (e, away) (others_kept user other tokens h)
  | inr e ↦ elim (Bool-cases (t.user_id == other)) [
    | inl d ↦ rw (e, d) (ap (λ l. t ∷ l) (others_kept user other tokens h))
    | inr d ↦ rw (e, d) (others_kept user other tokens h)
  ]
]

-- If the token of a revoked session is presented, the call throws, no session of its user is live
-- afterwards, and the sessions of everybody else are as before.
pub reuse_revokes_all :
    (c : Crypto) (x : ℕ) (text : Text) (s : Accounts) (p : RefreshPayload) (t : UserToken)
    (other : ℕ)
    → c.verify (clock s) (x ∷ text) ≡ some p
    → p.is_refresh ≡ true
    → find_token p s.tokens ≡ some t
    → t.is_revoked ≡ true
    → (other == p.sub) ≡ false
    → ((refresh_token c (x ∷ text) s).0 ≡ err (unauthorized token_reused))
      × (any (is_live_of p.sub) (refresh_token c (x ∷ text) s).1.tokens ≡ false)
      × (keep (λ t. t.user_id == other) (refresh_token c (x ∷ text) s).1.tokens
          ≡ keep (λ t. t.user_id == other) s.tokens)
unfolding refresh_token refresh_payload refresh_row check_record
reuse_revokes_all c x text s p t other v r f g d =
    rw (v, r, f, g) (rw f (refl, revoked_of p.sub s.tokens, others_kept p.sub other s.tokens d))

-- the access token of a spent session
pub spent_access :
    (a : AccessToken) (sid : ℕ) (s : Accounts)
    → a.sid ≡ some sid
    → IsSpent sid s
    → ((validate_session a s).0 ≡ err (unauthorized session_missing))
      ⊎ ((validate_session a s).0 ≡ err (unauthorized session_revoked))
unfolding validate_session
spent_access a sid s e (lt, dead) =
    let p : RefreshPayload = record { sub = a.sub; jti = sid; is_refresh = true } in
    elim (find_spent p s.tokens dead) [
      | inl f ↦ inl (rw (e, f) refl)
      | inr (t, f, g) ↦ inr (rw (e, f, g) refl)
    ]
