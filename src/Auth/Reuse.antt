-- ===== src/Auth/Reuse.antt =====
-- A refresh token that is presented twice (Refresh of backend/internal/auth/refresh.go).
use dating_coach.Base.{
  ℕ, not, ◌≡◌, ◌≢◌, refl, ◌∙◌, arith, false, String, inl, inr, text_eq, ◌==◌, All, All-map,
  select-All, Bool-cases,
}
use dating_coach.Base.Outcomes.{done, failed}
use dating_coach.Store.Users.{User}
use dating_coach.Store.Tokens.{
  get_refresh_token, RefreshToken, Tokens, revoke_user_refresh_tokens, spent_token,
}
use dating_coach.Auth.World.{AuthService, AuthEnv, AuthState, invalid_refresh_token}
use dating_coach.Auth.Sessions.{Session, refresh, exchange, revoke_reused, profile_of}
use dating_coach.Auth.Rotation.{IsKeyed, refresh-Rotated, found-owner}

profile_id : (u : User) (x : Session) → x.user ≡ profile_of u → x.user.id ≡ u.id
unfolding profile_of
profile_id u x e = rw e refl

-- Only a text that is not empty is exchanged.
presented_text :
    (svc : AuthService) (env : AuthEnv) (raw : String) (s s' : AuthState) (session : Session)
    → refresh svc env raw s ≡ (done session, s')
    → text_eq raw "" ≡ false
unfolding refresh
presented_text svc env raw s s' session e = elim (Bool-cases (text_eq raw "")) [
  | inl q ↦ ground (arith, q, e)
  | inr q ↦ q
]

revoked-All :
    (i : ℕ) (ts : Tokens)
    → All (λ (t : RefreshToken). t.user_id ≢ i) (revoke_user_refresh_tokens i ts)
unfolding revoke_user_refresh_tokens
revoked-All i ts = All-map (λ t h. ground (arith, h)) _ (select-All (λ t. not (t.user_id == i)) ts)

-- Presenting a refresh token again after it was exchanged, at any time and in any later state in which
-- its row is still stored as the exchange left it, and whatever else the second request draws, is
-- refused and deletes every refresh token that the account then has, the one the exchange handed out
-- included. Once the purge has deleted the row, the token is merely unknown.
pub reuse_ends_sessions :
    (svc : AuthService) (env again : AuthEnv) (raw : String) (s s' later : AuthState)
    (session : Session)
    → IsKeyed s.tokens
    → refresh svc env raw s ≡ (done session, s')
    → get_refresh_token (svc.hash_token raw) later.tokens
      ≡ get_refresh_token (svc.hash_token raw) s'.tokens
    → ((refresh svc again raw later).0 ≡ failed invalid_refresh_token)
      × All
          (λ (t : RefreshToken). t.user_id ≢ session.user.id)
          (refresh svc again raw later).1.tokens
unfolding refresh exchange revoke_reused spent_token
reuse_ends_sessions svc env again raw s s' later session k e same =
    let r = refresh-Rotated svc env raw s s' session k e in
    let q = presented_text svc env raw s s' session e in
    let o = found-owner r.row.user_id r.user s r.owner in
    let v : session.user.id ≡ r.row.user_id = profile_id r.user session r.profile ∙ o in
    let f = same ∙ r.spent in rw q (rw f (rw v (refl, revoked-All r.row.user_id later.tokens)))
