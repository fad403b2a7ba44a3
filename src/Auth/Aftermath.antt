-- ===== src/Auth/Aftermath.antt =====
-- Whatever requests follow DELETE /me (backend/internal/auth/service.go and refresh.go).
use dating_coach.Base.{ℕ, ◌≡◌, ◌≢◌, subst, Option, none, some, List, [], ◌∷◌, All}
use dating_coach.Base.Outcomes.{Outcome, done, failed, Safe}
use dating_coach.Auth.World.{AuthService, AuthEnv, AuthState, AuthError}
use dating_coach.Auth.Sessions.{Session, sign_in, sign_in_with_google, refresh}
use dating_coach.Auth.Accounts.{sign_up, delete_account}
use dating_coach.Auth.Verification.{verify_email, resend_verification}
use dating_coach.Auth.Requests.{
  Request, signs_up, signs_in, signs_in_with_google, verifies, resends, refreshes, deletes, serve,
  serve_all, with_session, without_session,
}
use dating_coach.Auth.Deleted.{IsGone, IsForOther}
use dating_coach.Auth.Spared.{
  sign_in-Safe, refresh-Safe, sign_in_with_google-Safe, verify_email-Safe,
}
use dating_coach.Auth.Farewell.{sign_up-Safe, resend-Safe, deletion-Safe, delete_account-IsGone}

-- A request answers with a session of another account, if it answers with a session.
abbrev pub IsForNoneOf : ℕ → Option Session → Type 0
IsForNoneOf i none = Unit {0}
IsForNoneOf i (some x) = x.user.id ≢ i

answered :
    (i : ℕ) (r : Outcome AuthError Session × AuthState)
    → Safe (IsGone i) (IsForOther i) r
    → Safe (IsGone i) (IsForNoneOf i) (with_session r)
answered i (done x, s) h = h
answered i (failed e, s) h = h

silent :
    (i : ℕ) (r : Outcome AuthError (Unit {0}) × AuthState)
    → IsGone i r.1
    → Safe (IsGone i) (IsForNoneOf i) (without_session r)
silent i (done x, s) h = (h, tt)
silent i (failed e, s) h = h

kept :
    (i : ℕ) (r : Outcome AuthError (Option Session) × AuthState)
    → Safe (IsGone i) (IsForNoneOf i) r
    → IsGone i r.1
kept i (done x, s) h = h.0
kept i (failed e, s) h = h

serve-Safe :
    (i : ℕ) (svc : AuthService) (env : AuthEnv) (r : Request) (s : AuthState)
    → env.user_id ≢ i
    → IsGone i s
    → Safe (IsGone i) (IsForNoneOf i) (serve svc env r s)
unfolding serve
serve-Safe i svc env (signs_up input) s n h =
    answered i (sign_up svc env input s) (sign_up-Safe i svc env input s n h)
serve-Safe i svc env (signs_in email password) s n h =
    answered i (sign_in svc env email password s) (sign_in-Safe i svc env email password s h)
serve-Safe i svc env (signs_in_with_google token role) s n h =
    answered i (sign_in_with_google svc env token role s)
      (sign_in_with_google-Safe i svc env token role s n h)
serve-Safe i svc env (verifies email code bearer) s n h =
    answered i (verify_email svc env email code bearer s)
      (verify_email-Safe i svc env email code bearer s h)
serve-Safe i svc env (resends email) s n h =
    silent i (resend_verification svc env email s) (resend-Safe i svc env email s h)
serve-Safe i svc env (refreshes raw) s n h =
    answered i (refresh svc env raw s) (refresh-Safe i svc env raw s h)
serve-Safe i svc env (deletes j) s n h =
    silent i (delete_account svc env j s) (deletion-Safe i svc env j s h)

serve_all-IsGone :
    (i : ℕ) (svc : AuthService) (rs : List (AuthEnv × Request)) (s : AuthState)
    → All (λ r. r.0.user_id ≢ i) rs
    → IsGone i s
    → IsGone i (serve_all svc rs s)
unfolding serve_all
serve_all-IsGone i svc [] s n h = h
serve_all-IsGone i svc ((env, r) ∷ rs) s n h =
    serve_all-IsGone i svc rs (serve svc env r s).1 n.1
      (kept i (serve svc env r s) (serve-Safe i svc env r s n.0 h))

-- Once DELETE /me was served for an account, no later request is answered with a session of it,
-- whatever requests came in between: sign-ups, sign-ins with a password or with Google, verifications,
-- resent codes, refreshes and deletions, of any account, with any clock and any failure of Redis, the
-- broker or a commit. The keys drawn for new accounts are assumed to be other ones.
pub deleted_account_gets_no_session :
    (i : ℕ) (svc : AuthService) (env last : AuthEnv) (rs : List (AuthEnv × Request)) (r : Request)
    (s s' : AuthState) (session : Session)
    → All (λ r. r.0.user_id ≢ i) rs
    → last.user_id ≢ i
    → serve svc last r (serve_all svc rs (delete_account svc env i s).1) ≡ (done (some session), s')
    → session.user.id ≢ i
deleted_account_gets_no_session i svc env last rs r s s' session n m e =
    let h = serve_all-IsGone i svc rs _ n (delete_account-IsGone i svc env s) in
    (subst (Safe (IsGone i) (IsForNoneOf i)) e (serve-Safe i svc last r _ m h)).1
