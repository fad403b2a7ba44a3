-- ===== src/Auth/Requests.antt =====
-- The requests that the auth service answers without a principal, and DELETE /me
-- (backend/internal/auth/service.go, refresh.go), one after the other.
use dating_coach.Base.{ℕ, Option, none, some, List, [], ◌∷◌, String}
use dating_coach.Base.Outcomes.{Outcome, done, failed}
use dating_coach.Store.Users.{Role}
use dating_coach.Auth.World.{AuthService, AuthEnv, AuthState, AuthError, AuthRun}
use dating_coach.Auth.Sessions.{Session, refresh, sign_in, sign_in_with_google}
use dating_coach.Auth.Verification.{verify_email, resend_verification}
use dating_coach.Auth.Accounts.{SignUpInput, sign_up, delete_account}

pub data Request : Type 0 where
  signs_up : SignUpInput → Request
  signs_in : String → String → Request
  signs_in_with_google : String → Option Role → Request
  verifies : String → String → String → Request
  resends : String → Request
  refreshes : String → Request
  deletes : ℕ → Request

-- The session of an answer, if the request has one.
abbrev pub with_session :
    Outcome AuthError Session × AuthState → Outcome AuthError (Option Session) × AuthState
with_session (done x, s) = (done (some x), s)
with_session (failed e, s) = (failed e, s)

abbrev pub without_session :
    Outcome AuthError (Unit {0}) × AuthState → Outcome AuthError (Option Session) × AuthState
without_session (done u, s) = (done none, s)
without_session (failed e, s) = (failed e, s)

unfoldable pub serve : AuthService → AuthEnv → Request → AuthRun (Option Session)
serve svc env (signs_up input) s = with_session (sign_up svc env input s)
serve svc env (signs_in email password) s = with_session (sign_in svc env email password s)
serve svc env (signs_in_with_google token role) s =
    with_session (sign_in_with_google svc env token role s)
serve svc env (verifies email code bearer) s =
    with_session (verify_email svc env email code bearer s)
serve svc env (resends email) s = without_session (resend_verification svc env email s)
serve svc env (refreshes raw) s = with_session (refresh svc env raw s)
serve svc env (deletes i) s = without_session (delete_account svc env i s)

unfoldable pub serve_all : AuthService → List (AuthEnv × Request) → AuthState → AuthState
serve_all svc [] s = s
serve_all svc ((env, r) ∷ rs) s = serve_all svc rs (serve svc env r s).1
