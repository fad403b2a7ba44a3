-- ===== src/Auth/Verification.antt =====
-- VerifyEmail, recordFailedAttempt, ownsBearer and ResendVerification of
-- backend/internal/auth/service.go.
use dating_coach.Base.{
  ℕ, ◌*◌, Bool, false, not, Option, none, some, ◌∷◌, String, text_eq, ◌&&◌, ◌==◌, leb,
  if◌then◌else◌,
}
use dating_coach.Base.Outcomes.{done, failed, ◌>>=◌, ◌>>◌, give, throw, demand, query, modify}
use dating_coach.Store.Rows.{Time, minute}
use dating_coach.Store.Users.{User, get_user_by_email, verify_user_email}
use dating_coach.Auth.World.{
  AuthService, AuthEnv, invalid_code, internal, AuthRun, Claims, Entry, read_code, count_attempt,
  drop_code, store_code, set_entry, address,
}
use dating_coach.Auth.Codes.{store_entry, stored_code, increment_attempts, no_entry}
use dating_coach.Auth.Sessions.{Session, profile_of, open_session, confirmed}

abbrev pub verification_code_ttl : Time
verification_code_ttl = 3 * minute

abbrev pub max_verification_attempts : ℕ
max_verification_attempts = 3

abbrev counted : AuthEnv → ℕ → ℕ × Entry → AuthRun (Unit {0})
counted env i (n, e) s =
    if leb max_verification_attempts n
    then (if env.answers drop_code
        then (done tt, set_entry s i no_entry)
        else (failed internal, set_entry s i e))
    else (done tt, set_entry s i e)

unfoldable pub record_failed_attempt : AuthEnv → ℕ → AuthRun (Unit {0})
record_failed_attempt env i s =
    if env.answers count_attempt
    then counted env i (increment_attempts env.now (s.codes i)) s
    else (failed internal, s)

-- The row first, then the code: a code whose removal fails only lives until it expires.
unfoldable pub accept_code : AuthEnv → User → AuthRun User
accept_code env user = do
  updated ← λ s. confirmed (verify_user_email user.id env.db_now s.users) s
  modify (λ s. if env.answers drop_code then set_entry s user.id no_entry else s)
  give updated

unfoldable pub refuse_code : AuthEnv → User → AuthRun User
refuse_code env user = do record_failed_attempt env user.id; throw invalid_code

abbrev pub is_right : String → String → Bool
is_right stored code = not (text_eq stored "") && text_eq stored code

unfoldable pub check_code : AuthService → AuthEnv → User → String → AuthRun User
check_code svc env user code s =
    if env.answers read_code
    then (if is_right (stored_code env.now (s.codes user.id)) (svc.trim code)
        then accept_code env user s
        else refuse_code env user s)
    else (failed internal, s)

unfoldable pub confirm_email : AuthService → AuthEnv → User → String → AuthRun User
confirm_email svc env user code =
    if user.email_verified then give user else check_code svc env user code

abbrev subject_is : ℕ → Option Claims → Bool
subject_is i none = false
subject_is i (some c) = c.subject == i

unfoldable pub owns_bearer : AuthService → AuthEnv → ℕ → String → Bool
owns_bearer svc env i bearer = not (text_eq bearer "") && subject_is i (svc.parse env.now bearer)

-- A caller without a token of the account gets the profile only.
unfoldable pub session_for : AuthService → AuthEnv → User → String → AuthRun Session
session_for svc env user bearer =
    if owns_bearer svc env user.id bearer
    then open_session svc env user none
    else give (record { token = ""; refresh_token = ""; expires_at = 0; user = profile_of user })

unfoldable pub verify_email : AuthService → AuthEnv → String → String → String → AuthRun Session
verify_email svc env email code bearer = do
  user ← query (λ s. get_user_by_email (address svc email) s.users) invalid_code
  updated ← confirm_email svc env user code
  session_for svc env updated bearer

unfoldable pub send_code : AuthEnv → User → String → AuthRun (Unit {0})
send_code env user code s =
    if env.answers store_code
    then (
      done tt,
      record (set_entry s user.id (store_entry env.now verification_code_ttl code)) {
        mails = (user.email, code) ∷ s.mails;
      },
    )
    else (failed internal, s)

abbrev resend_to : AuthEnv → Option User → AuthRun (Unit {0})
resend_to env none = give tt
resend_to env (some user) =
    if user.email_verified
    then give tt
    else (do code ← demand env.random_code internal; send_code env user code)

-- An unknown or verified address succeeds, so that addresses cannot be probed.
unfoldable pub resend_verification : AuthService → AuthEnv → String → AuthRun (Unit {0})
resend_verification svc env email s =
    resend_to env (get_user_by_email (address svc email) s.users) s
